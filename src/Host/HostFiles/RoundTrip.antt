-- ===== src/Host/HostFiles/RoundTrip.antt =====
-- app/host/plugin_lock_io.go: what LoadPluginLock reads of a lock that SavePluginLock wrote.
use anybot.Base.{
  if◌then◌else◌, [], ◌∷◌, ◌≢◌, ◌∙◌, Sum-cases, Option-cases, ◌≡◌, refl, sym, ap, ◌∙◌, subst, ◌≢◌,
  inl, inr, none, [], ◌∷◌, map, arith, Option-cases, Text, if◌then◌else◌,
}
use anybot.Base.{is_empty, subst, sym, ap}
use anybot.Host.PluginLock.{default_host_module, PluginLock, default_item, apply_defaults}
use anybot.Host.PluginLock.Checks.{validate_lock}
use anybot.Host.PluginLock.Valid.{IsGood}
use anybot.Host.PluginLock.Loop.{validate_lock-decides}
use anybot.Host.PluginLock.Defaults.{HasPlainPaths, defaults_twice}
use anybot.Host.HostFiles.{lock_file, Disk, put_text, Outside}
use anybot.Host.HostFiles.Render.{validated, load_lock, save_lock, write_file, read_file}

-- The lock that SavePluginLock encodes.
abbrev pub saved_lock : PluginLock → PluginLock
saved_lock lock = record (apply_defaults lock) {
  plugins = (apply_defaults (apply_defaults lock)).plugins;
}

-- yaml.Unmarshal reads what yaml.Marshal wrote.
abbrev pub IsCodec : Outside → Type 0
IsCodec io =
    (lock : PluginLock) (text : Text) → io.encode lock ≡ inr text → io.decode text ≡ inr lock

abbrev named : Text → Text
named name = if is_empty name then default_host_module else name

named_twice : (name : Text) → named (named name) ≡ named name
named_twice [] = refl
named_twice (c ∷ name) = refl

module _ (io : Outside) (plain : HasPlainPaths io.rules) where
  accepted :
      (lock : PluginLock)
      → validate_lock io.rules lock ≡ none
      → validated io lock ≡ inr (record lock { plugins = (apply_defaults lock).plugins })
  unfolding validated
  accepted lock v = rw (v, validated) refl

  settled :
      (lock : PluginLock)
      → IsGood io.rules (saved_lock lock).plugins
      → apply_defaults (saved_lock lock) ≡ saved_lock lock
  unfolding apply_defaults
  settled lock g =
      rw
        (
          named_twice lock.go_module,
          defaults_twice io.rules plain (map default_item lock.plugins) g,
        )
        refl

  validated-saved :
      (lock : PluginLock)
      → validate_lock io.rules (apply_defaults lock) ≡ none
      → validated io (apply_defaults (saved_lock lock)) ≡ inr (saved_lock lock)
  unfolding validated
  validated-saved lock v =
      let good = (validate_lock-decides io.rules (apply_defaults lock)).0 v in
      let same = settled lock good in
      let again : validate_lock io.rules (saved_lock lock) ≡ none =
        (validate_lock-decides io.rules (saved_lock lock)).1
          (subst (λ l. IsGood io.rules l.plugins) (sym same) good) in
      subst (λ l. validated io l ≡ inr (saved_lock lock)) (sym same)
        (accepted (saved_lock lock) again
          ∙ ap (λ l. inr (record (saved_lock lock) { plugins = l.plugins })) same)

  written :
      (lock : PluginLock) (text : Text) (disk disk' : Disk)
      → write_file io lock_file text disk ≡ (none, disk')
      → disk' ≡ put_text lock_file text disk
  unfolding write_file
  written lock text disk disk' h = elim (Option-cases (io.write_error lock_file)) [
    | inl w ↦ ground (arith, h, w)
    | inr (e, w) ↦ absurd (ground (arith, h, w))
  ]

  saves :
      (lock : PluginLock) (text : Text) (disk : Disk)
      → validated io (apply_defaults lock) ≡ inr (saved_lock lock)
      → io.encode (saved_lock lock) ≡ inr text
      → save_lock io lock disk ≡ write_file io lock_file text disk
  unfolding save_lock
  saves lock text disk v t = rw (v, save_lock, t) refl

  not_encoded :
      (lock : PluginLock) (e : Text) (disk disk' : Disk)
      → validated io (apply_defaults lock) ≡ inr (saved_lock lock)
      → io.encode (saved_lock lock) ≡ inl e
      → save_lock io lock disk ≢ (none, disk')
  unfolding save_lock
  not_encoded lock e disk disk' v t h = ground (arith, h, v, t)

  loads :
      (lock : PluginLock) (text : Text) (disk : Disk)
      → io.read_error lock_file ≡ none
      → io.decode text ≡ inr lock
      → load_lock io (put_text lock_file text disk) ≡ validated io (apply_defaults lock)
  unfolding load_lock read_file
  loads lock text disk r d = rw (r, load_lock, d) refl

  -- After SavePluginLock succeeded, LoadPluginLock reads the lock with its defaults applied, where
  -- reading does not fail, the codec decodes what it encodes, and CheckPath accepts no path with a
  -- space or '@'.
  pub load_lock-save_lock :
      (codec : IsCodec io) (lock : PluginLock) (disk disk' : Disk)
      → io.read_error lock_file ≡ none
      → save_lock io lock disk ≡ (none, disk')
      → load_lock io disk' ≡ inr (saved_lock lock)
  unfolding save_lock validated
  load_lock-save_lock codec lock disk disk' r h =
      elim (Option-cases (validate_lock io.rules (apply_defaults lock))) [
        | inr (e, v) ↦ absurd (ground (arith, h, v))
        | inl v ↦ elim (Sum-cases (io.encode (saved_lock lock))) [
          | inl (e, t) ↦
              absurd (not_encoded lock e disk disk' (accepted (apply_defaults lock) v) t h)
          | inr (text, t) ↦
              subst (λ d. load_lock io d ≡ inr (saved_lock lock))
                (sym (
                  written lock text disk disk'
                    (sym (saves lock text disk (accepted (apply_defaults lock) v) t) ∙ h)))
                (loads (saved_lock lock) text disk r (codec (saved_lock lock) text t)
                  ∙ validated-saved lock v)
        ]
      ]
