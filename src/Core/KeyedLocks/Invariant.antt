-- ===== src/Core/KeyedLocks/Invariant.antt =====
-- core/scheduler.go: what every step of the callers keeps, and mutual exclusion.
use anybot.Base.{
  ℕ, ◌+◌, ◌≤◌, ◌<◌, ◌≡◌, sym, subst, inl, inr, none, some, List, [], ◌∷◌, ◌++◌, arith, Bool-cases,
  Text, if◌then◌else◌,
}
use anybot.Base.{Dict, lookup, insert, delete, lookup-insert, lookup-delete, eqb, eq_iff, ◌==◌, All}
use anybot.Core.KeyedLocks.{KeyedLocks, Phase, idle, waiting, holding, leaving}

abbrev pub uses : ℕ → Phase → ℕ
uses i idle = 0
uses i (waiting k j) = if eqb j i then 1 else 0
uses i (holding k j) = if eqb j i then 1 else 0
uses i (leaving k j) = if eqb j i then 1 else 0

abbrev pub holds : ℕ → Phase → ℕ
holds i (holding k j) = if eqb j i then 1 else 0
holds i _ = 0

-- Whether the caller holds the lock of the key.
abbrev pub holds_key : Text → Phase → ℕ
holds_key key (holding k j) = if k == key then 1 else 0
holds_key key _ = 0

abbrev pub total : (Phase → ℕ) → List Phase → ℕ
total f [] = 0
total f (p ∷ ps) = f p + total f ps

pub total-append :
    (f : Phase → ℕ) (ps qs : List Phase) → total f (ps ++ qs) ≡ total f ps + total f qs
total-append f [] qs = omega arith
total-append f (p ∷ ps) qs = omega (arith, total-append f ps qs)

-- The caller's item is the one that the table has for its key.
abbrev pub Listed : Dict ℕ → Phase → Type 0
Listed table idle = Unit
Listed table (waiting k i) = lookup k table ≡ some i
Listed table (holding k i) = lookup k table ≡ some i
Listed table (leaving k i) = lookup k table ≡ some i

pub record IsCounted (l : KeyedLocks) (ps : List Phase) : Type 0 where
  pub refs_count : (i : ℕ) → l.refs i ≡ total (uses i) ps
  pub held_count : (i : ℕ) → total (holds i) ps ≡ (if l.held i then 1 else 0)
  pub listed : All (Listed l.table) ps
  pub known : (k : Text) (i : ℕ) → lookup k l.table ≡ some i → i < l.next
  pub unused : (i : ℕ) → l.next ≤ i → l.refs i ≡ 0

pub holds-le-uses : (i : ℕ) (ps : List Phase) → total (holds i) ps ≤ total (uses i) ps
holds-le-uses i [] = omega arith
holds-le-uses i (idle ∷ ps) = omega (arith, holds-le-uses i ps)
holds-le-uses i (waiting k j ∷ ps) = ground (arith, holds-le-uses i ps)
holds-le-uses i (holding k j ∷ ps) = ground (arith, holds-le-uses i ps)
holds-le-uses i (leaving k j ∷ ps) = ground (arith, holds-le-uses i ps)

inserted :
    (table : Dict ℕ) (key k : Text) (i j : ℕ)
    → lookup key table ≡ none
    → lookup k table ≡ some j
    → lookup k (insert key i table) ≡ some j
inserted table key k i j n h = elim (Bool-cases (k == key)) [
  | inl e ↦
      let same : lookup k table ≡ none =
        subst (λ m. lookup m table ≡ none) (sym ((eq_iff k key).0 e)) n in
      absurd (ground (arith, same, h))
  | inr e ↦ ground (arith, e, h, lookup-insert key k i table)
]

deleted :
    (table : Dict ℕ) (key k : Text) (i j : ℕ)
    → lookup key table ≡ some i
    → uses i (waiting k j) ≡ 0
    → lookup k table ≡ some j
    → lookup k (delete key table) ≡ some j
deleted table key k i j s u h = elim (Bool-cases (k == key)) [
  | inl e ↦
      let same : lookup k table ≡ some i =
        subst (λ m. lookup m table ≡ some i) (sym ((eq_iff k key).0 e)) s in
      absurd (ground (arith, same, h, u))
  | inr e ↦ ground (arith, e, h, lookup-delete key k table)
]

pub Listed-insert :
    (table : Dict ℕ) (key : Text) (i : ℕ) (p : Phase)
    → lookup key table ≡ none
    → Listed table p
    → Listed (insert key i table) p
Listed-insert table key i idle n h = tt
Listed-insert table key i (waiting k j) n h = inserted table key k i j n h
Listed-insert table key i (holding k j) n h = inserted table key k i j n h
Listed-insert table key i (leaving k j) n h = inserted table key k i j n h

pub Listed-delete :
    (table : Dict ℕ) (key : Text) (i : ℕ) (p : Phase)
    → lookup key table ≡ some i
    → uses i p ≡ 0
    → Listed table p
    → Listed (delete key table) p
Listed-delete table key i idle s u h = tt
Listed-delete table key i (waiting k j) s u h = deleted table key k i j s u h
Listed-delete table key i (holding k j) s u h = deleted table key k i j s u h
Listed-delete table key i (leaving k j) s u h = deleted table key k i j s u h
