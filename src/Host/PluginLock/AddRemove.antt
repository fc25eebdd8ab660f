-- ===== src/Host/PluginLock/AddRemove.antt =====
-- app/host/plugin_lock.go: what add and remove do to a valid lock.
use anybot.Base.{
  ◌≡◌, refl, sym, subst, ◌⊎◌, inl, inr, Bool, true, false, not, Option, none, some, List, [], ◌∷◌,
  ◌++◌, arith, Bool-cases, Option-cases, Text, if◌then◌else◌, all, eq_iff, ◌==◌,
}
use mathlib.Core.List.{Perm}
use anybot.Host.PluginLock.{
  PluginInstall, PluginLock, ModuleRules, LockError, apply_defaults, not_found,
}
use anybot.Host.PluginLock.Checks.{
  validate_install, check_new, sort_plugins, add_plugin, take_plugin, remove_plugin,
}
use anybot.Host.PluginLock.Valid.{fits, IsGood}
use anybot.Host.PluginLock.Changes.{
  IsRising, check_new-decides, IsGood-sort, IsGood-append, IsRising-sort, sort-perm,
}

-- The records that do not have the id.
abbrev pub without : Text → List PluginInstall → List PluginInstall
without id [] = []
without id (p ∷ ps) = if p.id == id then without id ps else p ∷ without id ps

without_none :
    (p : PluginInstall) (ps : List PluginInstall) → all (fits p) ps ≡ true → without p.id ps ≡ ps
without_none p [] h = refl
without_none p (q ∷ ps) h = ground (arith, h, eq_iff q.id p.id, eq_iff p.id q.id, without_none p ps)

all-without :
    (test : PluginInstall → Bool) (id : Text) (ps : List PluginInstall)
    → all test ps ≡ true
    → all test (without id ps) ≡ true
all-without test id [] h = refl
all-without test id (p ∷ ps) h = ground (arith, h, all-without test id ps)

IsGood-without :
    (rules : ModuleRules) (id : Text) (ps : List PluginInstall)
    → IsGood rules ps
    → IsGood rules (without id ps)
IsGood-without rules id [] h = tt
IsGood-without rules id (p ∷ ps) (v, f, g) =
    ground (arith, v, all-without (fits p) id ps f, IsGood-without rules id ps g)

-- Of records with different ids, the one with the id is taken, and the others keep their order.
abbrev Taken : Text → List PluginInstall → Option (PluginInstall × List PluginInstall) → Type 0
Taken id ps none = all (λ p. not (p.id == id)) ps ≡ true
Taken id ps (some (p, rest)) = (p.id ≡ id) × (rest ≡ without id ps)

Taken-here :
    (p : PluginInstall) (id : Text) (ps : List PluginInstall)
    → (p.id == id) ≡ true
    → all (fits p) ps ≡ true
    → Taken id (p ∷ ps) (take_plugin id (p ∷ ps))
unfolding take_plugin
Taken-here p id ps e f =
    let same : p.id ≡ id = (eq_iff p.id id).0 e in ground (arith, e, same, without_none p ps f)

Taken-later :
    (p : PluginInstall) (id : Text) (ps : List PluginInstall)
    (o : Option (PluginInstall × List PluginInstall))
    → (p.id == id) ≡ false
    → Taken id ps o
    → Taken id (p ∷ ps) (elim o [ none ↦ none | some (q, rest) ↦ some (q, p ∷ rest) ])
Taken-later p id ps none e t = ground (arith, e, t)
Taken-later p id ps (some (q, rest)) e (i, t) = ground (arith, e, i, t)

take_plugin-Taken :
    (rules : ModuleRules) (id : Text) (ps : List PluginInstall)
    → IsGood rules ps
    → Taken id ps (take_plugin id ps)
unfolding take_plugin
take_plugin-Taken rules id [] h = refl
take_plugin-Taken rules id (p ∷ ps) (v, f, g) = elim (Bool-cases (p.id == id)) [
  | inl e ↦ Taken-here p id ps e f
  | inr e ↦
      rw (e, take_plugin)
        (Taken-later p id ps (take_plugin id ps) e (take_plugin-Taken rules id ps g))
]

added_lem :
    (rules : ModuleRules) (item : PluginInstall) (ps : List PluginInstall)
    → IsGood rules ps
    → validate_install rules item ≡ none
    → all (λ p. fits p item) ps ≡ true
    → IsGood rules (sort_plugins (ps ++ item ∷ []))
      × IsRising (sort_plugins (ps ++ item ∷ []))
      × Perm (ps ++ item ∷ []) (sort_plugins (ps ++ item ∷ []))
added_lem rules item ps g v f =
    let good = IsGood-append rules item ps v f g in
    (
      IsGood-sort rules (ps ++ item ∷ []) good,
      IsRising-sort rules (ps ++ item ∷ []) good,
      sort-perm (ps ++ item ∷ []),
    )

-- add keeps a valid lock valid: the new lock's records are all valid and fit one another, their ids
-- rise, and they are the old ones and the new one, in another order.
pub add_plugin-IsGood :
    (rules : ModuleRules) (item : PluginInstall) (lock lock' : PluginLock)
    → IsGood rules (apply_defaults lock).plugins
    → add_plugin rules item lock ≡ inr lock'
    → IsGood rules lock'.plugins
      × IsRising lock'.plugins
      × Perm ((apply_defaults lock).plugins ++ item ∷ []) lock'.plugins
unfolding add_plugin
add_plugin-IsGood rules item lock lock' g h = elim (Option-cases (validate_install rules item)) [
  | inl v ↦ elim (Option-cases (check_new item (apply_defaults lock).plugins)) [
    | inl n ↦ ground (
      arith,
      h,
      v,
      n,
      added_lem rules item (apply_defaults lock).plugins g v
          ((check_new-decides item (apply_defaults lock).plugins).0 n),
    )
    | inr (e, n) ↦ absurd (ground (arith, h, v, n))
  ]
  | inr (e, v) ↦ absurd (ground (arith, h, v))
]

-- What remove returns for the records.
abbrev pub IsRemoved :
    ModuleRules → Text → List PluginInstall → LockError ⊎ PluginInstall × PluginLock → Type 0
IsRemoved rules id ps (inl e) = (e ≡ not_found id) × (all (λ p. not (p.id == id)) ps ≡ true)
IsRemoved rules id ps (inr (p, lock')) =
    (p.id ≡ id) × (lock'.plugins ≡ without id ps) × IsGood rules lock'.plugins

removed :
    (rules : ModuleRules) (id : Text) (lock : PluginLock)
    (o : Option (PluginInstall × List PluginInstall))
    → IsGood rules (apply_defaults lock).plugins
    → Taken id (apply_defaults lock).plugins o
    → IsRemoved rules id
        (apply_defaults lock).plugins
        (elim o as (λ _. LockError ⊎ PluginInstall × PluginLock) [
          | none ↦ inl (not_found id)
          | some (p, rest) ↦ inr (p, record (apply_defaults lock) { plugins = rest })
        ])
removed rules id lock none g t = (refl, t)
removed rules id lock (some (p, rest)) g (i, t) =
    (i, t, subst (IsGood rules) (sym t) (IsGood-without rules id (apply_defaults lock).plugins g))

-- remove on a valid lock fails exactly if no record has the id. Otherwise it returns the record with
-- the id, and the lock that it leaves has the other records in their old order and is valid.
remove_plugin_lem :
    (rules : ModuleRules) (id : Text) (lock : PluginLock)
    → IsGood rules (apply_defaults lock).plugins
    → IsRemoved rules id (apply_defaults lock).plugins (remove_plugin id lock)
unfolding remove_plugin
remove_plugin_lem rules id lock g =
    removed rules id lock (take_plugin id (apply_defaults lock).plugins) g
      (take_plugin-Taken rules id (apply_defaults lock).plugins g)
