-- ===== src/Host/PluginLock/Checks.antt =====
-- app/host/plugin_lock.go: the checks of the lock and of its records, add and remove.
use anybot.Base.{
  ◌⊎◌, inl, inr, true, false, not, ◌&&◌, ◌||◌, Option, none, some, List, [], ◌∷◌, ◌++◌, Text, codes,
  if◌then◌else◌,
}
use anybot.Base.{contains, strip_prefix, is_some, is_empty, ◌==◌, Dict, lookup, insert, text_before}
use anybot.Sdk.PluginId.{validate_plugin_id}
use anybot.Host.PluginLock.{
  PluginInstall, PluginLock, LockError, ModuleRules, is_builtin, apply_defaults, id_required,
  source_required, id_invalid, id_not_generated, id_exists, not_found, unknown_builtin,
  builtin_with_version, path_invalid, version_invalid, module_shared,
}

-- validateSharedPluginSource
unfoldable pub validate_shared : PluginInstall → PluginInstall → Option LockError
validate_shared existing item =
    if is_empty item.go_module || not (existing.go_module == item.go_module)
    then none
    else if existing.version == item.version && existing.replace == item.replace
    then none
    else some (module_shared existing item)

-- sort.Slice by the ids, which are all different.
unfoldable pub insert_plugin : PluginInstall → List PluginInstall → List PluginInstall
unfolding text_before
insert_plugin item [] = item ∷ []
insert_plugin item (p ∷ ps) =
    if text_before p.id item.id then p ∷ insert_plugin item ps else item ∷ p ∷ ps

unfoldable pub sort_plugins : List PluginInstall → List PluginInstall
unfolding insert_plugin
sort_plugins [] = []
sort_plugins (p ∷ ps) = insert_plugin p (sort_plugins ps)

-- The loop of remove: the record, and the others.
unfoldable pub take_plugin : Text → List PluginInstall → Option (PluginInstall × List PluginInstall)
take_plugin id [] = none
take_plugin id (p ∷ ps) =
    if p.id == id
    then some (p, ps)
    else elim (take_plugin id ps) [ none ↦ none | some (q, rest) ↦ some (q, p ∷ rest) ]

-- remove
unfoldable pub remove_plugin : Text → PluginLock → LockError ⊎ PluginInstall × PluginLock
unfolding apply_defaults take_plugin
remove_plugin id lock =
    let lock' = apply_defaults lock in
    elim (take_plugin id lock'.plugins) [
      | none ↦ inl (not_found id)
      | some (p, rest) ↦ inr (p, record lock' { plugins = rest })
    ]

-- The loop of add over the records that are there.
unfoldable pub check_new : PluginInstall → List PluginInstall → Option LockError
unfolding validate_shared
check_new item [] = none
check_new item (p ∷ ps) =
    let rest = check_new item ps in
    if p.id == item.id
    then some (id_exists item.id)
    else elim (validate_shared p item) [ some e ↦ some e | none ↦ rest ]

module _ (rules : ModuleRules) where
  -- The part of ValidatePluginInstall for a module.
  unfoldable pub validate_module : PluginInstall → Option LockError
  validate_module item = elim (rules.check_path item.go_module) [
    | some text ↦ some (path_invalid item.go_module text)
    | none ↦
        if is_empty item.version
        then none
        else elim (rules.check_version item.go_module item.version) [
          | some text ↦ some (version_invalid item.version item.go_module text)
          | none ↦ none
        ]
  ]

  -- The part of ValidatePluginInstall behind the tests of the id.
  unfoldable pub validate_source : PluginInstall → Option LockError
  unfolding validate_module is_builtin
  validate_source item = elim (is_empty item.builtin) [
    | true ↦ if is_empty item.go_module then some source_required else validate_module item
    | false ↦
        if not (is_empty item.go_module)
        then some source_required
        else if not (is_builtin item.builtin)
        then some (unknown_builtin item.builtin)
        else if not (is_empty item.version) || not (is_empty item.replace)
        then some (builtin_with_version item.builtin)
        else none
  ]

  -- ValidatePluginInstall
  unfoldable pub validate_install : PluginInstall → Option LockError
  unfolding validate_source
  validate_install item =
      if is_empty item.id then some id_required else elim (validate_plugin_id item.id) [
        | some e ↦ some (id_invalid item.id e)
        | none ↦
            if is_some (strip_prefix (codes "plg_") item.id)
            then validate_source item
            else some (id_not_generated item.id)
      ]

  -- add
  unfoldable pub add_plugin : PluginInstall → PluginLock → LockError ⊎ PluginLock
  unfolding apply_defaults validate_install check_new sort_plugins
  add_plugin item lock =
      let lock' = apply_defaults lock in
      elim (validate_install item) [
        | some e ↦ inl e
        | none ↦ elim (check_new item lock'.plugins) [
          | some e ↦ inl e
          | none ↦ inr (record lock' { plugins = sort_plugins (lock'.plugins ++ item ∷ []) })
        ]
      ]

  -- The loop of ValidatePluginLock, with the ids and the sources that were seen.
  unfoldable pub validate_all :
      List Text → Dict PluginInstall → List PluginInstall → Option LockError
  unfolding validate_install validate_shared
  validate_all ids sources [] = none
  validate_all ids sources (item ∷ items) =
      let rest =
        validate_all (item.id ∷ ids)
          (if is_empty item.go_module then sources else insert item.go_module item sources) items in
      let shared : Option LockError =
        if is_empty item.go_module then none else elim (lookup item.go_module sources) [
          | none ↦ none
          | some existing ↦ validate_shared existing item
        ] in
      elim (validate_install item) [
        | some e ↦ some e
        | none ↦
            if contains ids item.id
            then some (id_exists item.id)
            else elim shared [ some e ↦ some e | none ↦ rest ]
      ]

  -- ValidatePluginLock
  unfoldable pub validate_lock : PluginLock → Option LockError
  unfolding apply_defaults validate_all
  validate_lock lock = validate_all [] [] (apply_defaults lock).plugins
