-- ===== src/Host/PluginLock/Loop.antt =====
-- app/host/plugin_lock.go: what the loop of ValidatePluginLock keeps, and the locks that it accepts.
use anybot.Base.{
  ◌≡◌, refl, ◌↔◌, inl, inr, Bool, true, false, not, ◌&&◌, Option, none, some, List, [], ◌∷◌, arith,
  Bool-cases, Text, if◌then◌else◌, is_some, all, any, is_empty, contains, Dict, insert, lookup,
  eq_iff, lookup-insert, ◌==◌,
}
use anybot.Host.PluginLock.{PluginInstall, PluginLock, ModuleRules, LockError, apply_defaults}
use anybot.Host.PluginLock.Checks.{validate_shared, validate_install, validate_all, validate_lock}
use anybot.Host.PluginLock.Valid.{shares, fits, IsGood, latest, IsAgreed, latest-decides}

-- What the loop of ValidatePluginLock knows of the records in front.
record Knows (seen : List PluginInstall) (ids : List Text) (sources : Dict PluginInstall)
    : Type 0 where
  listed : (id : Text) → contains ids id ≡ any (λ q. q.id == id) seen
  kept : (m : Text) → is_empty m ≡ false → lookup m sources ≡ latest m seen

next-Knows :
    (p : PluginInstall) (seen : List PluginInstall) (ids : List Text) (sources : Dict PluginInstall)
    → Knows seen ids sources
    → Knows
        (p ∷ seen)
        (p.id ∷ ids)
        (if is_empty p.go_module then sources else insert p.go_module p sources)
unfolding contains latest
next-Knows p seen ids sources k = record {
  listed = λ id. ground (arith, k.listed id);
  kept = λ m n.
      ground (arith, k.kept m n, n, eq_iff m p.go_module, lookup-insert p.go_module m p sources);
}

-- The loop accepts the records behind those that it has seen.
accepts : ModuleRules → List PluginInstall → List PluginInstall → Bool
accepts rules seen [] = true
accepts rules seen (item ∷ items) =
    not (is_some (validate_install rules item))
    && all (λ q. fits q item) seen
    && accepts rules (item ∷ seen) items

any-not-all :
    (id : Text) (seen : List PluginInstall)
    → any (λ q. q.id == id) seen ≡ not (all (λ q. not (q.id == id)) seen)
any-not-all id [] = refl
any-not-all id (q ∷ seen) = ground (arith, any-not-all id seen)

all-both :
    (item : PluginInstall) (seen : List PluginInstall)
    → all (λ q. fits q item) seen
      ≡ (all (λ q. not (q.id == item.id)) seen && all (λ q. shares q item) seen)
all-both item [] = refl
all-both item (q ∷ seen) = ground (arith, all-both item seen)

all-shares_free :
    (item : PluginInstall) (seen : List PluginInstall)
    → is_empty item.go_module ≡ true
    → all (λ q. shares q item) seen ≡ true
all-shares_free item [] h = refl
all-shares_free item (q ∷ seen) h = ground (arith, all-shares_free item seen h)

-- The check of one record's module against the last one with that module.
abbrev shared_check : PluginInstall → Dict PluginInstall → Option LockError
shared_check item sources =
    if is_empty item.go_module then none else elim (lookup item.go_module sources) [
      | none ↦ none
      | some existing ↦ validate_shared existing item
    ]

checked_last :
    (item : PluginInstall) (o : Option PluginInstall)
    → not (
        is_some
          (elim o as (λ _. Option LockError) [ none ↦ none | some q ↦ validate_shared q item ]))
      ≡ elim o [ none ↦ true | some q ↦ shares q item ]
unfolding validate_shared
checked_last item none = refl
checked_last item (some q) = ground arith

shared_check-decides :
    (item : PluginInstall) (seen : List PluginInstall) (ids : List Text)
    (sources : Dict PluginInstall)
    → Knows seen ids sources
    → IsAgreed seen
    → not (is_some (shared_check item sources)) ≡ all (λ q. shares q item) seen
shared_check-decides item seen ids sources k a = elim (Bool-cases (is_empty item.go_module)) [
  | inl e ↦ ground (arith, e, all-shares_free item seen e)
  | inr e ↦ ground (
    arith,
    e,
    k.kept item.go_module e,
    checked_last item (latest item.go_module seen),
    latest-decides item seen a e,
  )
]

validate_all-accepts :
    (rules : ModuleRules) (items seen : List PluginInstall) (ids : List Text)
    (sources : Dict PluginInstall)
    → Knows seen ids sources
    → IsAgreed seen
    → not (is_some (validate_all rules ids sources items)) ≡ accepts rules seen items
unfolding validate_all accepts IsAgreed
validate_all-accepts rules [] seen ids sources k a = refl
validate_all-accepts rules (item ∷ items) seen ids sources k a =
    elim (Bool-cases (all (λ q. shares q item) seen)) [
      | inl s ↦ ground (
        arith,
        s,
        shared_check-decides item seen ids sources k a,
        k.listed item.id,
        any-not-all item.id seen,
        all-both item seen,
        validate_all-accepts rules items (item ∷ seen) (item.id ∷ ids)
            (if is_empty item.go_module then sources else insert item.go_module item sources)
            (next-Knows item seen ids sources k) (s, a),
      )
      | inr s ↦
          ground (arith, s, shared_check-decides item seen ids sources k a, all-both item seen)
    ]

-- A record behind the ones seen fits all of them.
fits_all : List PluginInstall → List PluginInstall → Bool
fits_all seen [] = true
fits_all seen (item ∷ items) = all (λ q. fits q item) seen && fits_all seen items

fits_all-cons :
    (p : PluginInstall) (seen items : List PluginInstall)
    → fits_all (p ∷ seen) items ≡ (all (fits p) items && fits_all seen items)
unfolding fits_all
fits_all-cons p seen [] = refl
fits_all-cons p seen (item ∷ items) = ground (arith, fits_all-cons p seen items)

accepts-IsGood :
    (rules : ModuleRules) (items seen : List PluginInstall)
    → (accepts rules seen items ≡ true) ↔ (fits_all seen items ≡ true × IsGood rules items)
unfolding accepts fits_all
accepts-IsGood rules [] seen = ground arith
accepts-IsGood rules (item ∷ items) seen =
    ground (arith, accepts-IsGood rules items (item ∷ seen), fits_all-cons item seen items)

fits_all-nil : (items : List PluginInstall) → fits_all [] items ≡ true
unfolding fits_all
fits_all-nil [] = refl
fits_all-nil (item ∷ items) = fits_all-nil items

-- ValidatePluginLock accepts a lock exactly if, with the defaults applied, every record passes
-- ValidatePluginInstall, no two have one id, and any two of one module have one version and one
-- replacement.
pub validate_lock-decides :
    (rules : ModuleRules) (lock : PluginLock)
    → (validate_lock rules lock ≡ none) ↔ IsGood rules (apply_defaults lock).plugins
unfolding validate_lock latest lookup IsAgreed
validate_lock-decides rules lock =
    let items = (apply_defaults lock).plugins in
    ground (
      arith,
      validate_all-accepts rules items [] [] [] (record { listed = λ id. refl; kept = λ m n. refl })
          tt,
      accepts-IsGood rules items [],
      fits_all-nil items,
    )
