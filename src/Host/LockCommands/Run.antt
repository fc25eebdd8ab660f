-- ===== src/Host/LockCommands/Run.antt =====
-- app/host/plugin_lock.go: the commands on the lock file, from reading it to rendering the host.
use anybot.Base.{
  ℕ, ◌⊎◌, inl, inr, Bool, true, false, not, ◌&&◌, Option, none, some, ◌++◌, Text, codes,
  if◌then◌else◌,
}
use anybot.Base.{is_some, is_empty}
use anybot.Host.PluginLock.{
  PluginInstall, PluginLock, LockError, id_required, replace_and_clear, builtin_updated, not_found,
  outside,
}
use anybot.Host.PluginLock.Checks.{add_plugin, remove_plugin}
use anybot.Host.HostFiles.{lock_file, Disk, Outside, Step, and_then, checked}
use anybot.Host.HostFiles.Render.{load_lock, save_lock, check_writable, render_plugin_host}
use anybot.Host.LockCommands.{
  AddOptions, UpdateOptions, touched, add_source, new_install, find_plugin, update_lock,
  has_changed, plugin_at,
}

-- A command's result where its last step succeeds.
abbrev pub answer {ℓ} : {A : Type ℓ} → A → Option LockError × Disk → (LockError ⊎ A) × Disk
answer a (none, disk) = (inr a, disk)
answer a (some e, disk) = (inl e, disk)

-- An error before anything was written.
abbrev pub refuse {ℓ} : {A : Type ℓ} → LockError → Disk → (LockError ⊎ A) × Disk
refuse e disk = (inl e, disk)

module _ (io : Outside) where
  -- The end that three commands share: the check of the generated files, the lock, the host.
  unfoldable pub commit_lock : PluginLock → Step
  unfolding check_writable save_lock render_plugin_host
  commit_lock lock =
      and_then (checked (check_writable io false))
        (and_then (save_lock io lock) (render_plugin_host io false (touched lock)))

  -- NewPluginID
  unfoldable pub new_plugin_id : LockError ⊎ Text
  new_plugin_id = elim io.random_part [
    | inl e ↦ inl (outside e)
    | inr part ↦ inr (codes "plg_" ++ part)
  ]

  -- The id that AddPluginInstall uses.
  unfoldable pub id_or_new : Text → LockError ⊎ Text
  unfolding new_plugin_id
  id_or_new id = if is_empty id then new_plugin_id else inr id

  -- AddPluginInstall behind the tests of its options.
  unfoldable pub add_loaded : AddOptions → PluginLock → Disk → (LockError ⊎ PluginLock) × Disk
  unfolding id_or_new add_plugin commit_lock
  add_loaded opts lock disk = elim (id_or_new opts.id) [
    | inl e ↦ refuse e disk
    | inr id ↦ elim (add_plugin io.rules (new_install opts id) lock) [
      | inl e ↦ refuse e disk
      | inr lock' ↦ answer (touched (touched lock')) (commit_lock lock' disk)
    ]
  ]

  -- AddPluginInstall
  unfoldable pub add_plugin_install : AddOptions → Disk → (LockError ⊎ PluginLock) × Disk
  unfolding add_source load_lock add_loaded
  add_plugin_install given disk = elim (add_source given) [
    | inl e ↦ refuse e disk
    | inr opts ↦ elim (load_lock io disk) [
      | inl e ↦ refuse e disk
      | inr lock ↦ add_loaded opts lock disk
    ]
  ]

  -- RemovePluginInstall
  unfoldable pub remove_plugin_install :
      Text → Disk → (LockError ⊎ PluginInstall × PluginLock) × Disk
  unfolding load_lock remove_plugin commit_lock
  remove_plugin_install id disk =
      if is_empty id then refuse id_required disk else elim (load_lock io disk) [
        | inl e ↦ refuse e disk
        | inr lock ↦ elim (remove_plugin id lock) [
          | inl e ↦ refuse e disk
          | inr (p, lock') ↦ answer (p, touched (touched lock')) (commit_lock lock' disk)
        ]
      ]

  -- UpdatePluginInstall behind its search for the record.
  unfoldable pub update_found :
      UpdateOptions
      → ℕ
      → PluginInstall
      → PluginLock
      → Disk
      → (LockError ⊎ PluginInstall × PluginLock × Bool) × Disk
  unfolding update_lock has_changed plugin_at commit_lock
  update_found opts index original lock disk =
      let lock' = update_lock opts original lock in
      let updated = plugin_at index lock'.plugins original in
      if not (is_empty original.builtin)
      then refuse (builtin_updated opts.id) disk
      else if not (has_changed lock'.plugins lock.plugins)
      then (inr (updated, lock', false), disk)
      else answer (updated, touched (touched lock'), true) (commit_lock lock' disk)

  -- UpdatePluginInstall
  unfoldable pub update_plugin_install :
      UpdateOptions → Disk → (LockError ⊎ PluginInstall × PluginLock × Bool) × Disk
  unfolding load_lock find_plugin update_found
  update_plugin_install opts disk =
      if is_empty opts.id
      then refuse id_required disk
      else if opts.set_replace && opts.clear_replace
      then refuse replace_and_clear disk
      else elim (load_lock io disk) [
        | inl e ↦ refuse e disk
        | inr lock ↦ elim (find_plugin opts.id lock.plugins) [
          | none ↦ refuse (not_found opts.id) disk
          | some (index, original) ↦ update_found opts index original lock disk
        ]
      ]

  -- The lock is saved where its file is missing.
  unfoldable pub save_missing : PluginLock → Step
  unfolding save_lock
  save_missing lock disk = if is_some (disk lock_file) then (none, disk) else save_lock io lock disk

  -- EnsurePluginHostForce behind reading the lock.
  unfoldable pub ensure_loaded : Bool → PluginLock → Disk → (LockError ⊎ PluginLock) × Disk
  unfolding check_writable save_missing render_plugin_host
  ensure_loaded force lock disk =
      let known = if is_some (disk lock_file) then lock else touched lock in
      answer (touched known) (
        and_then (checked (check_writable io force))
          (and_then (save_missing lock) (render_plugin_host io force known)) disk)

  -- EnsurePluginHostForce
  unfoldable pub ensure_plugin_host : Bool → Disk → (LockError ⊎ PluginLock) × Disk
  unfolding load_lock ensure_loaded
  ensure_plugin_host force disk = elim (io.stat_error lock_file) [
    | some e ↦ refuse (outside e) disk
    | none ↦ elim (load_lock io disk) [
      | inl e ↦ refuse e disk
      | inr lock ↦ ensure_loaded force lock disk
    ]
  ]
