-- ===== src/Host/ConfigSync/Laws.antt =====
-- Which files a sync of all plugins may change.
use anybot.Base.{
  ◌≡◌, refl, ap, ◌∙◌, subst, inl, inr, Bool, true, false, Option, none, some, List, [], ◌∷◌, arith,
  Bool-cases, Option-cases, Text, All, Dict, contains, lookup, Sum-cases, ◌==◌, lookup-insert,
  eq_iff,
}
use anybot.Host.Yaml.{Node}
use anybot.Host.YamlPaths.{ConfigError}
use anybot.Host.ConfigEntry.{sync_plugin_config_node, plugin_entry_disabled}
use anybot.Sdk.PluginId.{validate_plugin_id}
use anybot.Host.ConfigFiles.{
  Directory, ConfigOutside, saved_document, load_plugin_entry_document, save_yaml_document, saving,
}
use anybot.Host.ConfigSync.{
  Defaults, plugin_config_id, Location, insert_location, sort_locations, file_names, locate_all,
  plugin_config_entry_locations, Gathered, sync_location, sync_locations, save_all,
  sync_plugin_config_entries, no_result, sort_texts, keys,
}

-- A location's id is the one that its file's name gives.
abbrev IsNamed : Location → Type 0
IsNamed l = plugin_config_id l.path ≡ some l.id

insert-All :
    (l : Location) (ls : List Location)
    → IsNamed l
    → All IsNamed ls
    → All IsNamed (insert_location l ls)
unfolding insert_location
insert-All l [] h hs = (h, tt)
insert-All l (m ∷ rest) h (k, ks) = ground (arith, h, k, ks, insert-All l rest h ks)

sort-All : (ls : List Location) → All IsNamed ls → All IsNamed (sort_locations ls)
unfolding sort_locations
sort-All [] h = tt
sort-All (l ∷ rest) (h, hs) = insert-All l (sort_locations rest) h (sort-All rest hs)

module _ (o : ConfigOutside) where
  locate-All :
      (seen files : List Text) (dir : Directory) (ls : List Location)
      → locate_all o seen files dir ≡ inr ls
      → All IsNamed ls
  unfolding locate_all
  locate-All seen [] dir ls e =
      let same : [] ≡ ls = ground (arith, e) in subst (All IsNamed) same tt
  locate-All seen (file ∷ files) dir ls e = elim (Option-cases (plugin_config_id file)) [
    | inl f ↦ locate-All seen files dir ls (ground (arith, e, f))
    | inr (name, f) ↦ elim (Option-cases (validate_plugin_id name)) [
      | inr (_, v) ↦ absurd (ground (arith, e, f, v))
      | inl v ↦ elim (Bool-cases (contains seen name)) [
        | inl c ↦ absurd (ground (arith, e, f, v, c))
        | inr c ↦ elim (Sum-cases (load_plugin_entry_document o file dir)) [
          | inl (_, l) ↦ absurd (ground (arith, e, f, v, c, l))
          | inr (l, g) ↦ elim (Sum-cases (locate_all o (name ∷ seen) files dir)) [
            | inl (_, r) ↦ absurd (ground (arith, e, f, v, c, g, r))
            | inr (rest, r) ↦
                let same : (record { id = name; path = file; loaded = l } ∷ rest) ≡ ls =
                  ground (arith, e, f, v, c, g, r) in
                subst (All IsNamed) same (f, locate-All (name ∷ seen) files dir rest r)
          ]
        ]
      ]
    ]
  ]

  save_keeps_other :
      (name : Text) (path : Text) (doc : Node) (dir : Directory)
      → (name == path) ≡ false
      → lookup name (save_yaml_document o path doc dir).1 ≡ lookup name dir
  unfolding save_yaml_document
  save_keeps_other name path doc dir n = elim (Sum-cases (o.encode doc)) [
    | inl (_, f) ↦ ground (arith, f)
    | inr (text, f) ↦ elim (Option-cases (o.write_error path)) [
      | inr (_, w) ↦ ground (arith, f, w)
      | inl w ↦ ground (arith, f, w, n, lookup-insert path name text dir)
    ]
  ]

  save_all-other :
      (name : Text) (paths : List Text) (files : Dict Node) (dir : Directory)
      → lookup name files ≡ none
      → lookup name (save_all o paths files dir).1 ≡ lookup name dir
  unfolding save_all
  save_all-other name [] files dir h = refl
  save_all-other name (path ∷ paths) files dir h = elim (Option-cases (lookup path files)) [
    | inl f ↦ ground (arith, f, save_all-other name paths files dir h)
    | inr (doc, f) ↦
        let apart : (name == path) ≡ false = ground (arith, f, h, eq_iff name path) in
        let kept = save_keeps_other name path doc dir apart in
        ground
          (arith, f, kept, save_all-other name paths files (save_yaml_document o path doc dir).1 h)
  ]

saving_dir : {A : Type 0} (a : A) (r : Option ConfigError × Directory) → (saving a r).1 ≡ r.1
saving_dir a (some _, dir) = refl
saving_dir a (none, dir) = refl

-- The plugin that a file's name stands for, where there is one, has no factory.
abbrev pub HasNoFactory : Defaults → Text → Type 0
HasNoFactory defaults name = (id : Text) → plugin_config_id name ≡ some id → defaults id ≡ none

module _ (decode_bool : Text → Option Bool) (defaults : Defaults) (allow : List Text)
    (name : Text) where
  sync_location-other :
      (l : Location) (g g' : Gathered)
      → IsNamed l
      → HasNoFactory defaults name
      → sync_location decode_bool defaults allow l g ≡ inr g'
      → lookup name g.1 ≡ none
      → lookup name g'.1 ≡ none
  unfolding sync_location
  sync_location-other l (result, files) g' named away e h = elim (Option-cases (defaults l.id)) [
    | inl f ↦ elim (Bool-cases (contains allow l.id)) [
      | inl c ↦ ground (arith, e, f, c, h)
      | inr c ↦ elim (Bool-cases (plugin_entry_disabled decode_bool l.loaded.entry)) [
        | inl d ↦ ground (arith, e, f, c, d, h)
        | inr d ↦ absurd (ground (arith, e, f, c, d))
      ]
    ]
    | inr (default, f) ↦ elim (Sum-cases (sync_plugin_config_node l.id l.loaded.entry default)) [
      | inl (_, s) ↦ absurd (ground (arith, e, f, s))
      | inr ((false, _), s) ↦ ground (arith, e, f, s, h)
      | inr ((true, entry'), s) ↦
          let apart : (name == l.path) ≡ false = elim (Bool-cases (name == l.path)) [
            | inr n ↦ n
            | inl t ↦ absurd (
                ground
                  (arith, f, away l.id (ap plugin_config_id ((eq_iff name l.path).0 t) ∙ named)))
          ] in
          ground (
            arith,
            e,
            f,
            s,
            h,
            apart,
            lookup-insert l.path name (saved_document l.loaded entry') files,
          )
    ]
  ]

  sync_locations-other :
      (ls : List Location) (g g' : Gathered)
      → All IsNamed ls
      → HasNoFactory defaults name
      → sync_locations decode_bool defaults allow ls g ≡ inr g'
      → lookup name g.1 ≡ none
      → lookup name g'.1 ≡ none
  unfolding sync_locations
  sync_locations-other [] g g' hs away e h = ground (arith, e, h)
  sync_locations-other (l ∷ rest) g g' (named, hs) away e h =
      elim (Sum-cases (sync_location decode_bool defaults allow l g)) [
        | inl (_, f) ↦ absurd (ground (arith, e, f))
        | inr (mid, f) ↦
            sync_locations-other rest mid g' hs away (ground (arith, e, f))
              (sync_location-other l g mid named away f h)
      ]

  -- Whatever comes of a sync of all plugins, errors included, a file holds what it held where its name
  -- stands for no plugin, or for one that the registry has not.
  pub sync_plugin_config_entries-other :
      (o : ConfigOutside) (dir : Directory)
      → HasNoFactory defaults name
      → lookup name (sync_plugin_config_entries o decode_bool defaults allow dir).1
        ≡ lookup name dir
  unfolding sync_plugin_config_entries plugin_config_entry_locations lookup
  sync_plugin_config_entries-other o dir away =
      elim (Sum-cases (locate_all o [] (file_names dir) dir)) [
        | inl (_, f) ↦ ground (arith, f)
        | inr (ls, f) ↦
            let named = sort-All ls (locate-All o [] (file_names dir) dir ls f) in
            elim (Sum-cases
              (sync_locations decode_bool defaults allow (sort_locations ls) (no_result, []))) [
                | inl (_, s) ↦ ground (arith, f, s)
                | inr ((result, files), s) ↦
                    let none_kept : lookup name files ≡ none =
                      sync_locations-other (sort_locations ls) (no_result, []) (result, files) named
                        away s refl in
                    ground (
                      arith,
                      f,
                      s,
                      save_all-other o name (sort_texts (keys files)) files dir none_kept,
                      saving_dir
                          (record result {
                            skipped = sort_texts result.skipped;
                            unknown_disabled = sort_texts result.unknown_disabled;
                          })
                          (save_all o (sort_texts (keys files)) files dir),
                    )
              ]
      ]
