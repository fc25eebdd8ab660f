-- ===== src/Host/LockCommands/Foreign.antt =====
-- app/host/plugin_lock_io.go: a file of the user's own in the place of a generated one.
use anybot.Base.{
  is_some, if◌then◌else◌, ◌≡◌, refl, ◌&&◌, Bool-cases, Sum-cases, is_empty, Bool, true, ℕ, ℕ, ◌≡◌,
  refl, inl, inr, Bool, true, false, ◌&&◌, some, arith, Bool-cases, Option-cases, Text,
  if◌then◌else◌,
}
use anybot.Base.{if◌then◌else◌, is_some}
use anybot.Host.PluginLock.{PluginInstall, PluginLock, LockError, outside, not_generated}
use anybot.Host.PluginLock.Checks.{add_plugin, remove_plugin}
use anybot.Host.HostFiles.{
  HostFile, lock_file, plugins_file, main_file, module_file, Disk, Outside, is_generated, same_file,
  file_name, checked, and_then, Step,
}
use anybot.Host.HostFiles.Render.{
  check_file, check_writable, read_file, load_lock, save_lock, render_plugin_host,
}
use anybot.Host.LockCommands.{
  AddOptions, UpdateOptions, touched, add_source, new_install, find_plugin, update_lock,
  has_changed,
}
use anybot.Host.LockCommands.Run.{
  answer, commit_lock, id_or_new, add_loaded, add_plugin_install, remove_plugin_install,
  update_found, update_plugin_install, save_missing, ensure_loaded, ensure_plugin_host,
}
use anybot.Host.LockCommands.Safety.{
  Command, add_install, update_install, remove_install, ensure_host, run,
}

-- -force, which only EnsurePluginHostForce takes.
abbrev pub is_forced : Command → Bool
is_forced (ensure_host force) = force
is_forced _ = false

module _ (io : Outside) (disk : Disk) where
  -- A file in the place of a generated one that is not generated, or cannot be read.
  foreign_file :
      (f : HostFile) (text : Text)
      → disk f ≡ some text
      → is_generated f text ≡ false
      → (e : LockError) × (check_file io false f disk ≡ some e)
  unfolding check_file read_file
  foreign_file f text h n = elim (Option-cases (io.read_error f)) [
    | inl r ↦ (not_generated (file_name f), ground (arith, r, h, n))
    | inr (x, r) ↦ (outside x, ground (arith, r))
  ]

  foreign_host :
      (f : HostFile) (text : Text)
      → same_file lock_file f ≡ false
      → disk f ≡ some text
      → is_generated f text ≡ false
      → (e : LockError) × (check_writable io false disk ≡ some e)
  unfolding check_writable
  foreign_host lock_file text o h n = absurd (ground (arith, o))
  foreign_host plugins_file text o h n =
      let (e, c) = foreign_file plugins_file text h n in (e, ground (arith, c))
  foreign_host main_file text o h n = elim (Option-cases (check_file io false plugins_file disk)) [
    | inl p ↦ let (e, c) = foreign_file main_file text h n in (e, ground (arith, c, p))
    | inr (x, p) ↦ (x, ground (arith, p))
  ]
  foreign_host module_file text o h n =
      elim (Option-cases (check_file io false plugins_file disk)) [
        | inr (x, p) ↦ (x, ground (arith, p))
        | inl p ↦ elim (Option-cases (check_file io false main_file disk)) [
          | inr (y, m) ↦ (y, ground (arith, p, m))
          | inl m ↦ let (e, c) = foreign_file module_file text h n in (e, ground (arith, c, p, m))
        ]
      ]

  module _ (e : LockError) (refused : check_writable io false disk ≡ some e) where
    checked_refused :
        (b : Step) → and_then (checked (check_writable io false)) b disk ≡ (some e, disk)
    checked_refused b = rw (refused, and_then) refl

    commit_lock_refused : (lock : PluginLock) → commit_lock io lock disk ≡ (some e, disk)
    unfolding commit_lock
    commit_lock_refused lock =
        checked_refused (and_then (save_lock io lock) (render_plugin_host io false (touched lock)))

    answer_refused :
        {A : Type 0} (a : A) (lock : PluginLock) → (answer a (commit_lock io lock disk)).1 ≡ disk
    answer_refused a lock = rw (commit_lock_refused lock) refl

    add_refused : (given : AddOptions) → (add_plugin_install io given disk).1 ≡ disk
    unfolding add_plugin_install add_loaded
    add_refused given = elim (Sum-cases (add_source given)) [
      | inl (x, s) ↦ rw (s, add_plugin_install) refl
      | inr (opts, s) ↦ elim (Sum-cases (load_lock io disk)) [
        | inl (x, l) ↦ rw (s, add_plugin_install, l) refl
        | inr (lock, l) ↦ elim (Sum-cases (id_or_new io opts.id)) [
          | inl (x, d) ↦ rw (s, add_plugin_install, l, add_loaded, d) refl
          | inr (id, d) ↦ elim (Sum-cases (add_plugin io.rules (new_install opts id) lock)) [
            | inl (x, a) ↦ rw (s, add_plugin_install, l, add_loaded, d, a) refl
            | inr (lock', a) ↦
                rw (s, add_plugin_install, l, add_loaded, d, a)
                  (answer_refused (touched (touched lock')) lock')
          ]
        ]
      ]
    ]

    remove_refused : (id : Text) → (remove_plugin_install io id disk).1 ≡ disk
    unfolding remove_plugin_install
    remove_refused id = elim (Bool-cases (is_empty id)) [
      | inl n ↦ rw (n, remove_plugin_install) refl
      | inr n ↦ elim (Sum-cases (load_lock io disk)) [
        | inl (x, l) ↦ rw (n, remove_plugin_install, l) refl
        | inr (lock, l) ↦ elim (Sum-cases (remove_plugin id lock)) [
          | inl (x, r) ↦ rw (n, remove_plugin_install, l, r) refl
          | inr ((p, lock'), r) ↦
              rw (n, remove_plugin_install, l, r)
                (answer_refused (p, touched (touched lock')) lock')
        ]
      ]
    ]

    found_refused :
        (opts : UpdateOptions) (i : ℕ) (original : PluginInstall) (lock : PluginLock)
        → (update_found io opts i original lock disk).1 ≡ disk
    unfolding update_found
    found_refused opts i original lock = elim (Bool-cases (is_empty original.builtin)) [
      | inr b ↦ rw (b, update_found) refl
      | inl b ↦
          elim (Bool-cases (has_changed (update_lock opts original lock).plugins lock.plugins)) [
            | inr c ↦ rw (b, update_found, c) refl
            | inl c ↦ rw (b, update_found, c) (answer_refused _ (update_lock opts original lock))
          ]
    ]

    update_refused : (opts : UpdateOptions) → (update_plugin_install io opts disk).1 ≡ disk
    unfolding update_plugin_install
    update_refused opts = elim (Bool-cases (is_empty opts.id)) [
      | inl n ↦ rw (n, update_plugin_install) refl
      | inr n ↦ elim (Bool-cases (opts.set_replace && opts.clear_replace)) [
        | inl c ↦ rw (n, update_plugin_install, c) refl
        | inr c ↦ elim (Sum-cases (load_lock io disk)) [
          | inl (x, l) ↦ rw (n, update_plugin_install, c, l) refl
          | inr (lock, l) ↦ elim (Option-cases (find_plugin opts.id lock.plugins)) [
            | inl f ↦ rw (n, update_plugin_install, c, l, f) refl
            | inr ((i, original), f) ↦
                rw (n, update_plugin_install, c, l, f) (found_refused opts i original lock)
          ]
        ]
      ]
    ]

    loaded_refused : (lock : PluginLock) → (ensure_loaded io false lock disk).1 ≡ disk
    unfolding ensure_loaded
    loaded_refused lock =
        let known = if is_some (disk lock_file) then lock else touched lock in
        rw (checked_refused (and_then (save_missing io lock) (render_plugin_host io false known)))
          refl

    ensure_refused : (ensure_plugin_host io false disk).1 ≡ disk
    unfolding ensure_plugin_host ensure_loaded
    ensure_refused = elim (Option-cases (io.stat_error lock_file)) [
      | inr (x, s) ↦ rw (s, ensure_plugin_host) refl
      | inl s ↦ elim (Sum-cases (load_lock io disk)) [
        | inl (x, l) ↦ rw (s, ensure_plugin_host, l) refl
        | inr (lock, l) ↦ rw (s, ensure_plugin_host, l) (loaded_refused lock)
      ]
    ]

unforced :
    (io : Outside) (disk : Disk) (e : LockError)
    → check_writable io false disk ≡ some e
    → (command : Command) → is_forced command ≡ false
    → run io command disk ≡ disk
unforced io disk e r (add_install opts) n = add_refused io disk e r opts
unforced io disk e r (update_install opts) n = update_refused io disk e r opts
unforced io disk e r (remove_install id) n = remove_refused io disk e r id
unforced io disk e r (ensure_host true) n = absurd (ground (arith, n))
unforced io disk e r (ensure_host false) n = ensure_refused io disk e r

-- A file of the user's own in the place of a generated one is safe: unless -force is given, every
-- command then leaves all files of the host as they are.
pub run_foreign :
    (io : Outside) (command : Command) (disk : Disk) (f : HostFile) (text : Text)
    → is_forced command ≡ false
    → same_file lock_file f ≡ false
    → disk f ≡ some text
    → is_generated f text ≡ false
    → run io command disk ≡ disk
run_foreign io command disk f text n o h g =
    let (e, refused) = foreign_host io disk f text o h g in unforced io disk e refused command n
