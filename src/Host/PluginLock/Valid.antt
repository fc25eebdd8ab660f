-- ===== src/Host/PluginLock/Valid.antt =====
-- app/host/plugin_lock.go: which locks ValidatePluginLock accepts.
use anybot.Base.{
  ◌≡◌, refl, ◌↔◌, Bool, true, false, not, ◌&&◌, ◌||◌, Option, none, some, List, [], ◌∷◌, arith,
  Text, if◌then◌else◌,
}
use anybot.Base.{is_empty, ◌==◌, eq_iff, all}
use anybot.Host.PluginLock.{PluginInstall, ModuleRules}
use anybot.Host.PluginLock.Checks.{validate_shared, validate_install}

-- The second record may stand beside the first: another id, and where both have one module, the same
-- version and the same replacement.
abbrev pub shares : PluginInstall → PluginInstall → Bool
shares p q =
    is_empty q.go_module
    || not (p.go_module == q.go_module)
    || (p.version == q.version && p.replace == q.replace)

abbrev pub fits : PluginInstall → PluginInstall → Bool
fits p q = not (p.id == q.id) && shares p q

pub validate_shared-decides :
    (p q : PluginInstall) → (validate_shared p q ≡ none) ↔ (shares p q ≡ true)
unfolding validate_shared
validate_shared-decides p q = ground arith

pub fits_comm : (p q : PluginInstall) → fits p q ≡ fits q p
fits_comm p q = ground (
  arith,
  eq_iff p.id q.id,
  eq_iff q.id p.id,
  eq_iff p.go_module q.go_module,
  eq_iff q.go_module p.go_module,
  eq_iff p.version q.version,
  eq_iff q.version p.version,
  eq_iff p.replace q.replace,
  eq_iff q.replace p.replace,
)

-- Every record is valid, and any two fit.
abbrev pub IsGood : ModuleRules → List PluginInstall → Type 0
IsGood rules [] = Unit
IsGood rules (p ∷ ps) =
    (validate_install rules p ≡ none) × (all (fits p) ps ≡ true) × IsGood rules ps

-- The last record in front that has the module; the records in front stand in reverse.
unfoldable pub latest : Text → List PluginInstall → Option PluginInstall
latest m [] = none
latest m (p ∷ ps) = if m == p.go_module then some p else latest m ps

-- Any two of the records share.
unfoldable pub IsAgreed : List PluginInstall → Type 0
IsAgreed [] = Unit
IsAgreed (p ∷ ps) = (all (λ q. shares q p) ps ≡ true) × IsAgreed ps

same_as :
    (p item : PluginInstall) (ps : List PluginInstall)
    → (item.go_module == p.go_module) ≡ true
    → is_empty item.go_module ≡ false
    → shares p item ≡ true
    → all (λ q. shares q p) ps ≡ true
    → all (λ q. shares q item) ps ≡ true
same_as p item [] e n s h = refl
same_as p item (q ∷ ps) e n s h = ground (
  arith,
  same_as p item ps,
  eq_iff item.go_module p.go_module,
  eq_iff p.go_module item.go_module,
  eq_iff q.go_module p.go_module,
  eq_iff q.go_module item.go_module,
  eq_iff p.version item.version,
  eq_iff q.version p.version,
  eq_iff q.version item.version,
  eq_iff p.replace item.replace,
  eq_iff q.replace p.replace,
  eq_iff q.replace item.replace,
)

-- With the last one in front it shares exactly if it does with all of them.
pub latest-decides :
    (item : PluginInstall) (seen : List PluginInstall)
    → IsAgreed seen
    → is_empty item.go_module ≡ false
    → elim (latest item.go_module seen) [ none ↦ true | some q ↦ shares q item ]
      ≡ all (λ q. shares q item) seen
unfolding latest IsAgreed
latest-decides item [] h n = refl
latest-decides item (p ∷ ps) (h, hs) n = ground (
  arith,
  latest-decides item ps hs n,
  same_as p item ps,
  eq_iff item.go_module p.go_module,
  eq_iff p.go_module item.go_module,
)
