-- ===== src/Host/ConfigFiles/Laws.antt =====
-- What a plugin's configuration file is read as behind an update.
use anybot.Base.{
  ◌≡◌, refl, sym, subst, inl, inr, true, false, none, some, arith, Option-cases, Text, lookup, ◌==◌,
  Sum-cases, insert, lookup-insert, eq_refl, Bool, Option, Bool-cases, ◌⊎◌, ◌∙◌, ap,
}
use anybot.Host.Yaml.{
  Node, Nodes, no_nodes, item, document, mapping, is_mapping, mapping_value, field_value, is_null,
}
use anybot.Host.ConfigFiles.{
  Directory, ConfigOutside, Loaded, loaded_document, new_document, load_plugin_entry_document,
  save_yaml_document, set_plugin_entry_enabled, set_plugin_enabled, ConfigError,
  plugin_config_entry_path_for_update, EntryStep, saving, update_entry, saved_document, no_node,
}
use anybot.Host.Yaml.{mapping_value, mapping, empty_config_node}
use anybot.Host.ConfigEntry.{
  is_bool, enabled_key, set_plugin_entry_enabled, ensure_plugin_entry_mapping,
}
use anybot.Host.ConfigEntry.Laws.{set_plugin_entry_enabled_lem}
use anybot.Host.ConfigEntry.Fills.{ensure-same}
use anybot.Host.ConfigFiles.{
  Directory, plugin_config_entry_path_for_update, set_plugin_enabled, update_entry, saved_document,
}

-- The decoder reads back what the encoder writes for the document.
abbrev pub ReadsBack : ConfigOutside → Node → Type 0
ReadsBack o doc = (text : Text) → o.encode doc ≡ inr text → o.decode text ≡ inr doc

-- The decoder reads back the one document that the switch of the entry has saved.
abbrev pub SwitchReadsBack : ConfigOutside → Text → Bool → Loaded → Type 0
SwitchReadsBack o id b l =
    (entry : Node)
    → set_plugin_entry_enabled l.entry id b ≡ inr (true, entry)
    → ReadsBack o (saved_document l entry)

loaded-shared :
    (n : Node)
    → (loaded_document n).shared ≡ true
    → (rest : Nodes) × ((loaded_document n).doc ≡ document (item (loaded_document n).entry rest))
unfolding loaded_document
loaded-shared (document no_nodes) h = (no_nodes, refl)
loaded-shared (document (item n rest)) h = (rest, refl)
loaded-shared n h = absurd (ground (arith, h))

loaded-mapping :
    (n : Node) (rest : Nodes)
    → is_mapping n ≡ true
    → ((loaded_document (document (item n rest))).entry ≡ n)
      × ((loaded_document (document (item n rest))).shared ≡ true)
unfolding loaded_document
loaded-mapping (mapping tag content) rest h = (refl, refl)
loaded-mapping n rest h = absurd (ground (arith, h))

module _ (o : ConfigOutside) where
  load-shared :
      (name : Text) (dir : Directory) (l : Loaded)
      → load_plugin_entry_document o name dir ≡ inr l
      → l.shared ≡ true
      → (rest : Nodes) × (l.doc ≡ document (item l.entry rest))
  unfolding load_plugin_entry_document
  load-shared name dir l e h = elim (Option-cases (o.read_error name)) [
    | inr (_, r) ↦ absurd (ground (arith, e, r))
    | inl r ↦ elim (Option-cases (lookup name dir)) [
      | inl f ↦
          let same : new_document ≡ l = ground (arith, e, r, f) in
          (no_nodes, subst (λ (x : Loaded). x.doc ≡ document (item x.entry no_nodes)) same refl)
      | inr (text, f) ↦ elim (Sum-cases (o.decode text)) [
        | inl (_, g) ↦ absurd (ground (arith, e, r, f, g))
        | inr (n, g) ↦
            let same : loaded_document n ≡ l = ground (arith, e, r, f, g) in
            subst
              (λ (x : Loaded).
                x.shared ≡ true → (rest : Nodes) × (x.doc ≡ document (item x.entry rest)))
              same (loaded-shared n) h
      ]
    ]
  ]

  load-readable :
      (name : Text) (dir : Directory) (l : Loaded)
      → load_plugin_entry_document o name dir ≡ inr l
      → o.read_error name ≡ none
  unfolding load_plugin_entry_document
  load-readable name dir l e = elim (Option-cases (o.read_error name)) [
    | inr (_, r) ↦ absurd (ground (arith, e, r))
    | inl r ↦ r
  ]

  -- A saved mapping is loaded again.
  save-load :
      (name : Text) (dir dir' : Directory) (root : Node) (rest : Nodes)
      → ReadsBack o (document (item root rest))
      → o.read_error name ≡ none
      → is_mapping root ≡ true
      → save_yaml_document o name (document (item root rest)) dir ≡ (none, dir')
      → ((l : Loaded) × (load_plugin_entry_document o name dir' ≡ inr l)
          × (l.entry ≡ root)
          × (l.shared ≡ true))
        × ((other : Text) → (other == name) ≡ false → lookup other dir' ≡ lookup other dir)
  unfolding save_yaml_document load_plugin_entry_document
  save-load name dir dir' root rest back readable m e =
      elim (Sum-cases (o.encode (document (item root rest)))) [
        | inl (_, f) ↦ absurd (ground (arith, e, f))
        | inr (text, f) ↦ elim (Option-cases (o.write_error name)) [
          | inr (_, w) ↦ absurd (ground (arith, e, f, w))
          | inl w ↦
              let same : insert name text dir ≡ dir' = ground (arith, e, f, w) in
              let held : lookup name dir' ≡ some text =
                ground (arith, sym same, lookup-insert name name text dir, eq_refl name) in
              let (entry, shared) = loaded-mapping root rest m in
              (
                (
                  loaded_document (document (item root rest)),
                  ground (arith, readable, held, back text f),
                  entry,
                  shared,
                ),
                λ other n. ground (arith, sym same, n, lookup-insert name other text dir),
              )
        ]
      ]

  save_keeps :
      (name : Text) (doc : Node) (dir dir' : Directory) (e : ConfigError)
      → save_yaml_document o name doc dir ≡ (some e, dir')
      → dir' ≡ dir
  unfolding save_yaml_document
  save_keeps name doc dir dir' e h = elim (Sum-cases (o.encode doc)) [
    | inl (_, f) ↦ ground (arith, h, f)
    | inr (text, f) ↦ elim (Option-cases (o.write_error name)) [
      | inl w ↦ absurd (ground (arith, h, f, w))
      | inr (_, w) ↦ ground (arith, h, f, w)
    ]
  ]

  saving-inl :
      {A : Type 0} (a : A) (e : ConfigError) (dir' : Directory) (r : Option ConfigError × Directory)
      → saving a r ≡ (inl e, dir')
      → r ≡ (some e, dir')
  saving-inl a e dir' (some _, _) h = ground (arith, h)
  saving-inl a e dir' (none, _) h = absurd (ground (arith, h))

  saving-inr :
      {A : Type 0} (a b : A) (dir' : Directory) (r : Option ConfigError × Directory)
      → saving a r ≡ (inr b, dir')
      → (r ≡ (none, dir')) × (a ≡ b)
  saving-inr a b dir' (some _, _) h = absurd (ground (arith, h))
  saving-inr a b dir' (none, _) h = (ground (arith, h), ground (arith, h))

  module _ {A : Type 0} (changed : A → Bool) (step : EntryStep A) (name : Text)
      (dir dir' : Directory) where
    pub update_entry_keeps :
        (e : ConfigError) → update_entry o changed step name dir ≡ (inl e, dir') → dir' ≡ dir
    unfolding update_entry
    update_entry_keeps e h = elim (Sum-cases (load_plugin_entry_document o name dir)) [
      | inl (_, f) ↦ ground (arith, h, f)
      | inr (l, f) ↦ elim (Sum-cases (step l.entry)) [
        | inl (_, g) ↦ ground (arith, h, f, g)
        | inr ((a, entry'), g) ↦ elim (Bool-cases (changed a)) [
          | inr c ↦ absurd (ground (arith, h, f, g, c))
          | inl c ↦
              save_keeps name (saved_document l entry') dir dir' e
                (saving-inl a e dir' _ (ground (arith, h, f, g, c)))
        ]
      ]
    ]

    update_entry-inr :
        (a : A) (l : Loaded)
        → load_plugin_entry_document o name dir ≡ inr l
        → update_entry o changed step name dir ≡ (inr a, dir')
        → (entry' : Node) × (step l.entry ≡ inr (a, entry'))
          × (((changed a ≡ false) × (dir' ≡ dir))
              ⊎ ((changed a ≡ true)
                  × (save_yaml_document o name (saved_document l entry') dir ≡ (none, dir'))))
    unfolding update_entry
    update_entry-inr a l f h = elim (Sum-cases (step l.entry)) [
      | inl (_, g) ↦ absurd (ground (arith, h, f, g))
      | inr ((b, entry'), g) ↦ elim (Bool-cases (changed b)) [
        | inr c ↦
            let same : b ≡ a = ground (arith, h, f, g, c) in
            (
              entry',
              g ∙ ap (λ x. inr (x, entry')) same,
              inl (sym (ap changed same) ∙ c, ground (arith, h, f, g, c)),
            )
        | inl c ↦
            let (saved, same) =
              saving-inr b a dir' (save_yaml_document o name (saved_document l entry') dir)
                (ground (arith, h, f, g, c)) in
            (entry', g ∙ ap (λ x. inr (x, entry')) same, inr (sym (ap changed same) ∙ c, saved))
      ]
    ]

  is_bool-is_mapping :
      (n : Node) (k : Text) (b : Bool) → is_bool (mapping_value n k) b ≡ true → is_mapping n ≡ true
  unfolding mapping_value
  is_bool-is_mapping (mapping tag content) k b h = refl
  is_bool-is_mapping n k b h = absurd (ground (arith, h))

  set_plugin_entry_enabled-false :
      (entry e' : Node) (id : Text) (b : Bool)
      → set_plugin_entry_enabled entry id b ≡ inr (false, e')
      → e' ≡ entry
  unfolding set_plugin_entry_enabled
  set_plugin_entry_enabled-false entry e' id b e =
      elim (Sum-cases (ensure_plugin_entry_mapping entry)) [
        | inl (_, h) ↦ absurd (ground (arith, e, h))
        | inr (m, h) ↦ elim (Option-cases (mapping_value m enabled_key)) [
          | inl f ↦ absurd (ground (arith, e, h, f))
          | inr (v, f) ↦ ground (arith, e, h, f, ensure-same entry m v enabled_key h f)
        ]
      ]

  -- The file of a plugin after its switch, and the other files.
  abbrev pub Switched : Bool → Text → Loaded → Directory → Directory → Type 0
  Switched b name l dir dir' =
      ((l' : Loaded) × (load_plugin_entry_document o name dir' ≡ inr l')
        × (is_bool (mapping_value l'.entry enabled_key) b ≡ true)
        × ((k : Text)
            → (enabled_key == k) ≡ false
            → mapping_value l'.entry k ≡ mapping_value l.entry k))
      × ((other : Text) → (other == name) ≡ false → lookup other dir' ≡ lookup other dir)

  -- Where the decoder reads back the one document that is saved, and the file of the plugin holds a
  -- document or is missing, SetPluginEnabled without an error is read back: the entry then loaded has
  -- the switch, and behind every other key what it had. The other files hold what they held.
  pub set_plugin_enabled-load :
      (id : Text) (b c x : Bool) (name : Text) (dir dir' : Directory) (l : Loaded)
      → SwitchReadsBack o id b l
      → plugin_config_entry_path_for_update o id dir ≡ inr (name, x)
      → load_plugin_entry_document o name dir ≡ inr l
      → l.shared ≡ true
      → set_plugin_enabled o id b dir ≡ (inr c, dir')
      → Switched b name l dir dir'
  unfolding set_plugin_enabled
  set_plugin_enabled-load id b c x name dir dir' l back path load shared e =
      let step = λ (entry : Node). set_plugin_entry_enabled entry id b in
      let run : update_entry o (λ c. c) step name dir ≡ (inr c, dir') = ground (arith, e, path) in
      let (entry', made, way) = update_entry-inr (λ c. c) step name dir dir' c l load run in
      let (on, others) = set_plugin_entry_enabled_lem l.entry entry' id b c made in
      elim way [
        | inl (off, same) ↦
            let kept : entry' ≡ l.entry =
              set_plugin_entry_enabled-false l.entry entry' id b
                (made ∙ ap (λ x. inr (x, entry')) off) in
            (
              (
                l,
                rw same load,
                ap (λ n. is_bool (mapping_value n enabled_key) b) (sym kept) ∙ on,
                λ k n. refl,
              ),
              λ other n. ap (lookup other) same,
            )
        | inr (on', saved) ↦
            let (rest, doc) = load-shared name dir l load shared in
            let whole : saved_document l entry' ≡ document (item entry' rest) =
              ground (arith, doc, shared) in
            let ((l', there, entry, _), apart) =
              save-load name dir dir' entry' rest
                (subst (ReadsBack o) whole (back entry' (made ∙ ap (λ x. inr (x, entry')) on')))
                (load-readable name dir l load) (is_bool-is_mapping entry' enabled_key b on)
                (subst (λ d. save_yaml_document o name d dir ≡ (none, dir')) whole saved) in
            (
              (
                l',
                there,
                ap (λ n. is_bool (mapping_value n enabled_key) b) entry ∙ on,
                λ k n. ap (λ m. mapping_value m k) entry ∙ others k n,
              ),
              apart,
            )
      ]

  -- On a file that is there and decodes to no document, where nothing fails, SetPluginEnabled reports a
  -- change and writes an empty mapping: whether the plugin is enabled is lost.
  pub set_plugin_enabled_blank :
      (id : Text) (b x : Bool) (name text out : Text) (dir : Directory)
      → plugin_config_entry_path_for_update o id dir ≡ inr (name, x)
      → o.read_error name ≡ none
      → lookup name dir ≡ some text
      → o.decode text ≡ inr no_node
      → o.encode empty_config_node ≡ inr out
      → o.write_error name ≡ none
      → set_plugin_enabled o id b dir ≡ (inr true, insert name out dir)
  unfolding set_plugin_enabled update_entry load_plugin_entry_document loaded_document
      set_plugin_entry_enabled ensure_plugin_entry_mapping mapping_value field_value is_null
      save_yaml_document
  set_plugin_enabled_blank id b x name text out dir path readable f g enc w =
      ground (arith, path, readable, f, g, enc, w)
