-- ===== src/Core/KeyedLocks/Exclusion.antt =====
-- core/scheduler.go: two callers never hold the lock of one key at a time.
use anybot.Base.{
  ℕ, zero, suc, ◌≤◌, ◌≡◌, refl, sym, subst, inl, inr, none, some, List, [], ◌∷◌, arith, Bool-cases,
  Option-cases, Text,
}
use anybot.Base.{Dict, lookup, eq_iff, ◌==◌, All}
use anybot.Core.KeyedLocks.{
  new_keyed_locks, Phase, idle, waiting, holding, leaving, System, Step, lock_registers,
  lock_returns, unlock_begins, unlock_ends, Reachable, start, after, idle_callers,
}
use anybot.Core.KeyedLocks.Invariant.{uses, holds, holds_key, total, Listed, IsCounted}
use anybot.Core.KeyedLocks.Steps.{
  IsCounted-new, IsCounted-again, IsCounted-hold, IsCounted-unhold, IsCounted-leave,
}

idle_total : (f : Phase → ℕ) (n : ℕ) → f idle ≡ 0 → total f (idle_callers n) ≡ 0
idle_total f zero h = refl
idle_total f (suc n) h = omega (arith, h, idle_total f n h)

idle-Listed : (n : ℕ) → All (Listed []) (idle_callers n)
idle-Listed zero = tt
idle-Listed (suc n) = (tt, idle-Listed n)

start-IsCounted : (n : ℕ) → IsCounted new_keyed_locks (idle_callers n)
unfolding lookup
start-IsCounted n = record {
  refs_count = λ i. sym (idle_total (uses i) n refl);
  held_count = λ i. idle_total (holds i) n refl;
  listed = idle-Listed n;
  known = λ k i h. absurd (ground (arith, h));
  unused = λ i le. refl;
}

Step-IsCounted :
    (x y : System) → Step x y → IsCounted x.locks x.callers → IsCounted y.locks y.callers
Step-IsCounted x y (lock_registers pre post key l) c = elim (Option-cases (lookup key l.table)) [
  | inl n ↦ IsCounted-new pre post key l n c
  | inr (j, n) ↦ IsCounted-again pre post key j l n c
]
Step-IsCounted x y (lock_returns pre post key j l n) c = IsCounted-hold pre post key j l n c
Step-IsCounted x y (unlock_begins pre post key j l) c = IsCounted-unhold pre post key j l c
Step-IsCounted x y (unlock_ends pre post key j l) c = IsCounted-leave pre post key j l c

Reachable-IsCounted : (x : System) → Reachable x → IsCounted x.locks x.callers
Reachable-IsCounted x (start n) = start-IsCounted n
Reachable-IsCounted y (after x z r s) = Step-IsCounted x z s (Reachable-IsCounted x r)

-- Those who hold a key's lock hold the item that the table has for it.
keys-le-holds :
    (table : Dict ℕ) (key : Text) (i : ℕ) (ps : List Phase)
    → lookup key table ≡ some i
    → All (Listed table) ps
    → total (holds_key key) ps ≤ total (holds i) ps
keys-le-holds table key i [] s h = omega arith
keys-le-holds table key i (idle ∷ ps) s (a, h) = omega (arith, keys-le-holds table key i ps s h)
keys-le-holds table key i (waiting k j ∷ ps) s (a, h) =
    omega (arith, keys-le-holds table key i ps s h)
keys-le-holds table key i (leaving k j ∷ ps) s (a, h) =
    omega (arith, keys-le-holds table key i ps s h)
keys-le-holds table key i (holding k j ∷ ps) s (a, h) = elim (Bool-cases (k == key)) [
  | inr e ↦ ground (arith, e, keys-le-holds table key i ps s h)
  | inl e ↦
      let same : lookup k table ≡ some i =
        subst (λ m. lookup m table ≡ some i) (sym ((eq_iff k key).0 e)) s in
      ground (arith, e, same, a, keys-le-holds table key i ps s h)
]

keys_none :
    (table : Dict ℕ) (key : Text) (ps : List Phase)
    → lookup key table ≡ none
    → All (Listed table) ps
    → total (holds_key key) ps ≡ 0
keys_none table key [] s h = refl
keys_none table key (idle ∷ ps) s (a, h) = omega (arith, keys_none table key ps s h)
keys_none table key (waiting k j ∷ ps) s (a, h) = omega (arith, keys_none table key ps s h)
keys_none table key (leaving k j ∷ ps) s (a, h) = omega (arith, keys_none table key ps s h)
keys_none table key (holding k j ∷ ps) s (a, h) = elim (Bool-cases (k == key)) [
  | inr e ↦ ground (arith, e, keys_none table key ps s h)
  | inl e ↦
      let same : lookup k table ≡ none =
        subst (λ m. lookup m table ≡ none) (sym ((eq_iff k key).0 e)) s in
      absurd (ground (arith, same, a))
]

-- Whatever the callers of keyedLocks do, and in whatever order they move, at most one of them holds the
-- lock of a key, though items are deleted and made again for the key; and an item's refs are the number
-- of the callers that wait for it, hold it or are about to let go of it.
pub Reachable-excludes :
    (x : System) (key : Text)
    → Reachable x
    → (total (holds_key key) x.callers ≤ 1) × ((i : ℕ) → x.locks.refs i ≡ total (uses i) x.callers)
Reachable-excludes x key r =
    let c = Reachable-IsCounted x r in
    elim (Option-cases (lookup key x.locks.table)) [
      | inl n ↦ (ground (arith, keys_none x.locks.table key x.callers n c.listed), c.refs_count)
      | inr (i, n) ↦ (
        ground (arith, keys-le-holds x.locks.table key i x.callers n c.listed, c.held_count i),
        c.refs_count,
      )
    ]
