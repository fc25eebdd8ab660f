-- ===== src/Host/LockCommands/Keeps.antt =====
-- app/host/plugin_lock_io.go and plugin_host_render.go: the lock file stays valid in every step.
use anybot.Base.{
  if◌then◌else◌, ◌≡◌, inl, inr, Bool, false, Option, none, some, arith, Option-cases, Text,
  Sum-cases, refl, true,
}
use anybot.Host.PluginLock.{PluginLock, LockError, apply_defaults, outside}
use anybot.Host.PluginLock.Checks.{validate_lock}
use anybot.Host.PluginLock.Valid.{IsGood}
use anybot.Host.PluginLock.Loop.{validate_lock-decides}
use anybot.Host.HostFiles.{
  HostFile, lock_file, Disk, same_file, Outside, Step, and_then, checked, plugins_file, module_file,
  main_file,
}
use anybot.Host.HostFiles.Render.{
  validated, write_file, save_lock, write_host, render_plugin_host, write_go_mod_if_missing,
  write_missing, write_generated, check_file, check_writable, render_plugins, render_go_mod,
}
use anybot.Host.LockCommands.{touched}
use anybot.Host.LockCommands.Run.{commit_lock}

module _ (io : Outside) where
  -- There is no lock file, or it holds the text of a lock that ValidatePluginLock accepts.
  pub data IsGoodText : Option Text → Type 0 where
    no_file : IsGoodText none
    good_file :
        (lock : PluginLock) (text : Text)
        → IsGood io.rules lock.plugins
        → io.encode lock ≡ inr text
        → IsGoodText (some text)

  -- The step keeps that.
  abbrev pub Keeps : Step → Type 0
  Keeps a = (disk : Disk) → IsGoodText (disk lock_file) → IsGoodText ((a disk).1 lock_file)

  Keeps-result :
      (r : Option LockError × Disk) (b : Step)
      → IsGoodText (r.1 lock_file)
      → Keeps b
      → IsGoodText (
          (elim r.0 as (λ _. Option LockError × Disk) [ some x ↦ (some x, r.1) | none ↦ b r.1 ]).1
            lock_file)
  Keeps-result (none, disk) b g k = k disk g
  Keeps-result (some e, disk) b g k = g

  pub Keeps-and_then : (a b : Step) → Keeps a → Keeps b → Keeps (and_then a b)
  Keeps-and_then a b h k disk g = Keeps-result (a disk) b (h disk g) k

  pub Keeps-checked : (test : Disk → Option LockError) → Keeps (checked test)
  Keeps-checked test disk g = g

  Keeps-write :
      (f : HostFile) (text : Text) → same_file lock_file f ≡ false → Keeps (write_file io f text)
  unfolding write_file
  Keeps-write f text n disk g = elim (Option-cases (io.write_error f)) [
    | inl e ↦ rw (e, write_file, n) g
    | inr (x, e) ↦ rw (e, write_file) g
  ]

  validated-IsGood :
      (lock lock' : PluginLock) → validated io lock ≡ inr lock' → IsGood io.rules lock'.plugins
  unfolding validated
  validated-IsGood lock lock' h = elim (Option-cases (validate_lock io.rules lock)) [
    | inl e ↦ ground (arith, h, e, (validate_lock-decides io.rules lock).0 e)
    | inr (x, e) ↦ absurd (ground (arith, h, e))
  ]

  pub Keeps-save : (lock : PluginLock) → Keeps (save_lock io lock)
  unfolding save_lock write_file
  Keeps-save lock disk g = elim (Sum-cases (validated io (apply_defaults lock))) [
    | inl (e, v) ↦ rw (v, save_lock) g
    | inr (lock', v) ↦ elim (Sum-cases (io.encode lock')) [
      | inl (e, t) ↦ rw (v, save_lock, t) g
      | inr (text, t) ↦ elim (Option-cases (io.write_error lock_file)) [
        | inl w ↦
            rw (v, save_lock, t, write_file, w)
              (good_file lock' text (validated-IsGood (apply_defaults lock) lock' v) t)
        | inr (e, w) ↦ rw (v, save_lock, t, write_file, w) g
      ]
    ]
  ]

  Keeps-write_missing : (text : Text) → Keeps (write_missing io text)
  unfolding write_missing
  Keeps-write_missing text disk g = elim (Option-cases (io.stat_error module_file)) [
    | inr (x, e) ↦ rw (e, write_missing) g
    | inl e ↦ elim (Option-cases (disk module_file)) [
      | inl m ↦ rw (e, write_missing, m) (Keeps-write module_file text refl disk g)
      | inr (x, m) ↦ rw (e, write_missing, m) g
    ]
  ]

  Keeps-write_generated :
      (force : Bool) (f : HostFile) (text : Text)
      → same_file lock_file f ≡ false
      → Keeps (write_generated io force f text)
  unfolding write_generated
  Keeps-write_generated force f text n =
      Keeps-and_then (checked (check_file io force f)) (write_file io f text)
        (Keeps-checked (check_file io force f)) (Keeps-write f text n)

  Keeps-go_mod :
      (force : Bool) (text : Text)
      → Keeps (if force then write_file io module_file text else write_go_mod_if_missing io text)
  unfolding write_go_mod_if_missing
  Keeps-go_mod true text = Keeps-write module_file text refl
  Keeps-go_mod false text =
      Keeps-and_then (checked (check_file io false module_file)) (write_missing io text)
        (Keeps-checked (check_file io false module_file)) (Keeps-write_missing text)

  Keeps-write_host : (force : Bool) (lock : PluginLock) → Keeps (write_host io force lock)
  unfolding write_host
  Keeps-write_host force lock =
      let main = write_generated io force main_file io.main_template in
      let go_mod : Step =
        if force
        then write_file io module_file (render_go_mod io lock)
        else write_go_mod_if_missing io (render_go_mod io lock) in
      Keeps-and_then (write_generated io force plugins_file (render_plugins io lock))
        (and_then main go_mod)
        (Keeps-write_generated force plugins_file (render_plugins io lock) refl)
        (Keeps-and_then main go_mod (Keeps-write_generated force main_file io.main_template refl)
          (Keeps-go_mod force (render_go_mod io lock)))

  Keeps-made :
      (made : Option Text) (b : Step)
      → Keeps b
      → (disk : Disk) → IsGoodText (disk lock_file)
      → IsGoodText (
          (elim made as (λ _. Option LockError × Disk) [
            | some e ↦ (some (outside e), disk)
            | none ↦ b disk
          ]).1
            lock_file)
  Keeps-made none b k disk g = k disk g
  Keeps-made (some e) b k disk g = g

  pub Keeps-render : (force : Bool) (lock : PluginLock) → Keeps (render_plugin_host io force lock)
  unfolding render_plugin_host
  Keeps-render force lock disk g = elim (Sum-cases (validated io (apply_defaults lock))) [
    | inl (e, v) ↦ rw (v, render_plugin_host) g
    | inr (lock', v) ↦
        rw (v, render_plugin_host)
          (Keeps-made io.mkdir_error
            (and_then (checked (check_writable io force)) (write_host io force lock'))
            (Keeps-and_then (checked (check_writable io force)) (write_host io force lock')
              (Keeps-checked (check_writable io force)) (Keeps-write_host force lock'))
            disk g)
  ]

  pub Keeps-commit_lock : (lock : PluginLock) → Keeps (commit_lock io lock)
  unfolding commit_lock
  Keeps-commit_lock lock =
      let render = render_plugin_host io false (touched lock) in
      Keeps-and_then (checked (check_writable io false)) (and_then (save_lock io lock) render)
        (Keeps-checked (check_writable io false))
        (Keeps-and_then (save_lock io lock) render (Keeps-save lock)
          (Keeps-render false (touched lock)))
