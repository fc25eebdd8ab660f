-- ===== src/Host/LockCommands/Safety.antt =====
-- app/host/plugin_lock.go and plugin_lock_io.go: what no command does to the files of a plugin host.
use anybot.Host.LockCommands.Keeps.{
  IsGoodText, Keeps, Keeps-commit_lock, Keeps-and_then, Keeps-checked, Keeps-save, Keeps-render,
}
use anybot.Base.{
  if◌then◌else◌, is_some, inl, inr, Bool, Option, none, some, Option-cases, Text, Sum-cases,
  Bool-cases, ℕ, is_empty, ◌&&◌,
}
use anybot.Host.PluginLock.{PluginLock, LockError}
use anybot.Host.PluginLock.Checks.{add_plugin, remove_plugin}
use anybot.Host.HostFiles.{lock_file, Disk, Outside, and_then, checked}
use anybot.Host.HostFiles.Render.{render_plugin_host, check_writable, load_lock}
use anybot.Host.LockCommands.{
  AddOptions, UpdateOptions, add_source, touched, new_install, PluginInstall, has_changed,
  update_lock, find_plugin,
}
use anybot.Host.LockCommands.Run.{
  add_plugin_install, remove_plugin_install, update_plugin_install, ensure_plugin_host, commit_lock,
  add_loaded, answer, id_or_new, save_missing, update_found, ensure_loaded,
}

-- The commands of this package's interface.
pub data Command : Type 0 where
  add_install : AddOptions → Command
  update_install : UpdateOptions → Command
  remove_install : Text → Command
  ensure_host : Bool → Command

-- The disk that a command leaves.
abbrev pub run : Outside → Command → Disk → Disk
run io (add_install opts) disk = (add_plugin_install io opts disk).1
run io (update_install opts) disk = (update_plugin_install io opts disk).1
run io (remove_install id) disk = (remove_plugin_install io id disk).1
run io (ensure_host force) disk = (ensure_plugin_host io force disk).1

module _ (io : Outside) where
  Keeps-answer :
      {A : Type 0} (a : A) (r : Option LockError × Disk)
      → IsGoodText io (r.1 lock_file)
      → IsGoodText io ((answer a r).1 lock_file)
  Keeps-answer a (none, disk) g = g
  Keeps-answer a (some e, disk) g = g

  add-Keeps :
      (given : AddOptions) (disk : Disk)
      → IsGoodText io (disk lock_file)
      → IsGoodText io ((add_plugin_install io given disk).1 lock_file)
  unfolding add_plugin_install add_loaded
  add-Keeps given disk g = elim (Sum-cases (add_source given)) [
    | inl (e, s) ↦ rw (s, add_plugin_install) g
    | inr (opts, s) ↦ elim (Sum-cases (load_lock io disk)) [
      | inl (e, l) ↦ rw (s, add_plugin_install, l) g
      | inr (lock, l) ↦ elim (Sum-cases (id_or_new io opts.id)) [
        | inl (e, d) ↦ rw (s, add_plugin_install, l, add_loaded, d) g
        | inr (id, d) ↦ elim (Sum-cases (add_plugin io.rules (new_install opts id) lock)) [
          | inl (e, a) ↦ rw (s, add_plugin_install, l, add_loaded, d, a) g
          | inr (lock', a) ↦
              rw (s, add_plugin_install, l, add_loaded, d, a)
                (Keeps-answer (touched (touched lock')) (commit_lock io lock' disk)
                  (Keeps-commit_lock io lock' disk g))
        ]
      ]
    ]
  ]

  remove-Keeps :
      (id : Text) (disk : Disk)
      → IsGoodText io (disk lock_file)
      → IsGoodText io ((remove_plugin_install io id disk).1 lock_file)
  unfolding remove_plugin_install
  remove-Keeps id disk g = elim (Bool-cases (is_empty id)) [
    | inl n ↦ rw (n, remove_plugin_install) g
    | inr n ↦ elim (Sum-cases (load_lock io disk)) [
      | inl (e, l) ↦ rw (n, remove_plugin_install, l) g
      | inr (lock, l) ↦ elim (Sum-cases (remove_plugin id lock)) [
        | inl (e, r) ↦ rw (n, remove_plugin_install, l, r) g
        | inr ((p, lock'), r) ↦
            rw (n, remove_plugin_install, l, r)
              (Keeps-answer (p, touched (touched lock')) (commit_lock io lock' disk)
                (Keeps-commit_lock io lock' disk g))
      ]
    ]
  ]

  found-Keeps :
      (opts : UpdateOptions) (i : ℕ) (original : PluginInstall) (lock : PluginLock) (disk : Disk)
      → IsGoodText io (disk lock_file)
      → IsGoodText io ((update_found io opts i original lock disk).1 lock_file)
  unfolding update_found
  found-Keeps opts i original lock disk g = elim (Bool-cases (is_empty original.builtin)) [
    | inr b ↦ rw (b, update_found) g
    | inl b ↦
        elim (Bool-cases (has_changed (update_lock opts original lock).plugins lock.plugins)) [
          | inr c ↦ rw (b, update_found, c) g
          | inl c ↦
              rw (b, update_found, c)
                (Keeps-answer _ (commit_lock io (update_lock opts original lock) disk)
                  (Keeps-commit_lock io (update_lock opts original lock) disk g))
        ]
  ]

  update-Keeps :
      (opts : UpdateOptions) (disk : Disk)
      → IsGoodText io (disk lock_file)
      → IsGoodText io ((update_plugin_install io opts disk).1 lock_file)
  unfolding update_plugin_install
  update-Keeps opts disk g = elim (Bool-cases (is_empty opts.id)) [
    | inl n ↦ rw (n, update_plugin_install) g
    | inr n ↦ elim (Bool-cases (opts.set_replace && opts.clear_replace)) [
      | inl c ↦ rw (n, update_plugin_install, c) g
      | inr c ↦ elim (Sum-cases (load_lock io disk)) [
        | inl (e, l) ↦ rw (n, update_plugin_install, c, l) g
        | inr (lock, l) ↦ elim (Option-cases (find_plugin opts.id lock.plugins)) [
          | inl f ↦ rw (n, update_plugin_install, c, l, f) g
          | inr ((i, original), f) ↦
              rw (n, update_plugin_install, c, l, f) (found-Keeps opts i original lock disk g)
        ]
      ]
    ]
  ]

  Keeps-save_missing : (lock : PluginLock) → Keeps io (save_missing io lock)
  unfolding save_missing
  Keeps-save_missing lock disk g = elim (Option-cases (disk lock_file)) [
    | inr (t, e) ↦ rw (e, save_missing) g
    | inl e ↦ rw (e, save_missing) (Keeps-save io lock disk g)
  ]

  loaded-Keeps :
      (force : Bool) (lock : PluginLock) (disk : Disk)
      → IsGoodText io (disk lock_file)
      → IsGoodText io ((ensure_loaded io force lock disk).1 lock_file)
  unfolding ensure_loaded
  loaded-Keeps force lock disk g =
      let known = if is_some (disk lock_file) then lock else touched lock in
      let render = render_plugin_host io force known in
      let steps =
        and_then (checked (check_writable io force)) (and_then (save_missing io lock) render) in
      Keeps-answer (touched known) (steps disk) (
        Keeps-and_then io (checked (check_writable io force))
          (and_then (save_missing io lock) render) (Keeps-checked io (check_writable io force))
          (Keeps-and_then io (save_missing io lock) render (Keeps-save_missing lock)
            (Keeps-render io force known))
          disk g)

  ensure-Keeps :
      (force : Bool) (disk : Disk)
      → IsGoodText io (disk lock_file)
      → IsGoodText io ((ensure_plugin_host io force disk).1 lock_file)
  unfolding ensure_plugin_host ensure_loaded
  ensure-Keeps force disk g = elim (Option-cases (io.stat_error lock_file)) [
    | inr (e, s) ↦ rw (s, ensure_plugin_host) g
    | inl s ↦ elim (Sum-cases (load_lock io disk)) [
      | inl (e, l) ↦ rw (s, ensure_plugin_host, l) g
      | inr (lock, l) ↦ rw (s, ensure_plugin_host, l) (loaded-Keeps force lock disk g)
    ]
  ]

-- Every command leaves the lock file missing or with the text of a lock that ValidatePluginLock
-- accepts, where it found it so, whether the command succeeds or fails at whatever point.
pub run-IsGoodText :
    (io : Outside) (command : Command) (disk : Disk)
    → IsGoodText io (disk lock_file)
    → IsGoodText io (run io command disk lock_file)
run-IsGoodText io (add_install opts) disk g = add-Keeps io opts disk g
run-IsGoodText io (update_install opts) disk g = update-Keeps io opts disk g
run-IsGoodText io (remove_install id) disk g = remove-Keeps io id disk g
run-IsGoodText io (ensure_host force) disk g = ensure-Keeps io force disk g
