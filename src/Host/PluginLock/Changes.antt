-- ===== src/Host/PluginLock/Changes.antt =====
-- app/host/plugin_lock.go: what the checks, the appending and the sorting of add do to a valid lock's records.
use anybot.Base.{
  ◌≡◌, refl, ◌∙◌, ◌↔◌, inl, inr, Bool, true, ◌&&◌, none, List, [], ◌∷◌, ◌++◌, arith, Bool-cases,
  Text, all, text_before, eq_iff, text_before_trans, text_before-total,
}
use mathlib.Core.List.{Perm}
use mathlib.Core.List.Perm
use anybot.Host.PluginLock.{PluginInstall, ModuleRules}
use anybot.Host.PluginLock.Checks.{validate_install, check_new, insert_plugin, sort_plugins}
use anybot.Host.PluginLock.Valid.{fits, validate_shared-decides, fits_comm, IsGood}

-- The ids rise from record to record.
abbrev pub IsRising : List PluginInstall → Type 0
IsRising [] = Unit
IsRising (p ∷ ps) = (all (λ q. text_before p.id q.id) ps ≡ true) × IsRising ps

pub check_new-decides :
    (item : PluginInstall) (ps : List PluginInstall)
    → (check_new item ps ≡ none) ↔ (all (λ p. fits p item) ps ≡ true)
unfolding check_new
check_new-decides item [] = ground arith
check_new-decides item (p ∷ ps) =
    ground (arith, check_new-decides item ps, validate_shared-decides p item)

all-insert :
    (test : PluginInstall → Bool) (item : PluginInstall) (ps : List PluginInstall)
    → all test (insert_plugin item ps) ≡ (test item && all test ps)
unfolding insert_plugin
all-insert test item [] = refl
all-insert test item (p ∷ ps) = ground (arith, all-insert test item ps)

all-sort :
    (test : PluginInstall → Bool) (ps : List PluginInstall)
    → all test (sort_plugins ps) ≡ all test ps
unfolding sort_plugins
all-sort test [] = refl
all-sort test (p ∷ ps) = ground (arith, all-insert test p (sort_plugins ps), all-sort test ps)

all-fits_comm :
    (item : PluginInstall) (ps : List PluginInstall)
    → all (λ p. fits p item) ps ≡ all (fits item) ps
all-fits_comm item [] = refl
all-fits_comm item (p ∷ ps) = ground (arith, all-fits_comm item ps, fits_comm item p)

all-tail :
    (test : PluginInstall → Bool) (p : PluginInstall) (ps : List PluginInstall)
    → all test (p ∷ ps) ≡ true
    → all test ps ≡ true
all-tail test p ps h = ground (arith, h)

all-append :
    (test : PluginInstall → Bool) (ps qs : List PluginInstall)
    → all test (ps ++ qs) ≡ (all test ps && all test qs)
all-append test [] qs = refl
all-append test (p ∷ ps) qs = ground (arith, all-append test ps qs)

all-before :
    (s t : Text) (ps : List PluginInstall)
    → text_before s t ≡ true
    → all (λ q. text_before t q.id) ps ≡ true
    → all (λ q. text_before s q.id) ps ≡ true
all-before s t [] h k = refl
all-before s t (p ∷ ps) h k = ground (arith, h, k, text_before_trans s t p.id, all-before s t ps)

module _ (rules : ModuleRules) where
  IsGood-insert :
      (item : PluginInstall) (ps : List PluginInstall)
      → IsGood rules (item ∷ ps)
      → IsGood rules (insert_plugin item ps)
  unfolding insert_plugin
  IsGood-insert item [] h = h
  IsGood-insert item (p ∷ ps) (v, f, (w, g, r)) = elim (Bool-cases (text_before p.id item.id)) [
    | inl e ↦ ground (
      arith,
      e,
      all-insert (fits p) item ps,
      fits_comm item p,
      IsGood-insert item ps (v, all-tail (fits item) p ps f, r),
    )
    | inr e ↦ ground (arith, e)
  ]

  pub IsGood-sort : (ps : List PluginInstall) → IsGood rules ps → IsGood rules (sort_plugins ps)
  unfolding sort_plugins
  IsGood-sort [] h = tt
  IsGood-sort (p ∷ ps) (v, f, g) =
      IsGood-insert p (sort_plugins ps) (v, all-sort (fits p) ps ∙ f, IsGood-sort ps g)

  pub IsGood-append :
      (item : PluginInstall) (ps : List PluginInstall)
      → validate_install rules item ≡ none
      → all (λ p. fits p item) ps ≡ true
      → IsGood rules ps
      → IsGood rules (ps ++ item ∷ [])
  IsGood-append item [] v f g = (v, refl, tt)
  IsGood-append item (p ∷ ps) v f (w, k, r) = ground (
    arith,
    f,
    k,
    w,
    all-append (fits p) ps (item ∷ []),
    λ (t : all (λ q. fits q item) ps ≡ true). IsGood-append item ps v t r,
  )

IsRising-insert :
    (item : PluginInstall) (ps : List PluginInstall)
    → all (fits item) ps ≡ true
    → IsRising ps
    → IsRising (insert_plugin item ps)
unfolding insert_plugin
IsRising-insert item [] f r = (refl, tt)
IsRising-insert item (p ∷ ps) f (b, r) = elim (Bool-cases (text_before p.id item.id)) [
  | inl e ↦ ground (
    arith,
    e,
    b,
    all-insert (λ q. text_before p.id q.id) item ps,
    IsRising-insert item ps (all-tail (fits item) p ps f) r,
  )
  | inr e ↦ ground (
    arith,
    e,
    f,
    b,
    r,
    eq_iff p.id item.id,
    eq_iff item.id p.id,
    text_before-total p.id item.id,
    all-before item.id p.id ps,
  )
]

pub IsRising-sort :
    (rules : ModuleRules) (ps : List PluginInstall) → IsGood rules ps → IsRising (sort_plugins ps)
unfolding sort_plugins
IsRising-sort rules [] g = tt
IsRising-sort rules (p ∷ ps) (v, f, g) =
    IsRising-insert p (sort_plugins ps) (all-sort (fits p) ps ∙ f) (IsRising-sort rules ps g)

insert-perm :
    (item : PluginInstall) (ps : List PluginInstall) → Perm (item ∷ ps) (insert_plugin item ps)
unfolding insert_plugin
insert-perm item [] = Perm.refl (item ∷ [])
insert-perm item (p ∷ ps) = elim (Bool-cases (text_before p.id item.id)) [
  | inl e ↦
      rw (e, insert_plugin) (Perm.trans (Perm.swap p item ps) (Perm.cons p (insert-perm item ps)))
  | inr e ↦ rw (e, insert_plugin) (Perm.refl (item ∷ p ∷ ps))
]

pub sort-perm : (ps : List PluginInstall) → Perm ps (sort_plugins ps)
unfolding sort_plugins
sort-perm [] = Perm.refl []
sort-perm (p ∷ ps) = Perm.trans (Perm.cons p (sort-perm ps)) (insert-perm p (sort_plugins ps))
