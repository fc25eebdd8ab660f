-- ===== src/Core/KeyedLocks.antt =====
-- core/scheduler.go: the locks by key. Each critical section under `l.mu` is one step, and so are the
-- locking and the unlocking of an item's own mutex. An item is named by the order of its making; what
-- stands in the table is its name. A caller is in one of four phases, and any caller may move next.
pub mod Invariant
pub mod Steps
pub mod Exclusion
use anybot.Base.{
  ℕ, zero, suc, ◌+◌, ◌-◌, ◌≤◌, ◌<◌, ◌≡◌, refl, sym, ap, ◌∙◌, subst, ◌≢◌, ◌↔◌, ◌⊎◌, inl, inr, Bool,
  true, false, not, ◌&&◌, ◌||◌, Option, none, some, List, [], ◌∷◌, ◌++◌, map, arith, Bool-cases,
  Option-cases, Text, codes, if◌then◌else◌,
}
use anybot.Base.{Dict, lookup, insert, delete, eqb}

-- The table of keyedLocks and the heap of its items: an item's `refs`, and whether its mutex is held.
pub record KeyedLocks : Type 0 where
  pub table : Dict ℕ
  pub refs : ℕ → ℕ
  pub held : ℕ → Bool
  pub next : ℕ

-- newKeyedLocks
abbrev pub new_keyed_locks : KeyedLocks
new_keyed_locks = record { table = []; refs = λ _. 0; held = λ _. false; next = 0 }

abbrev pub set_at {ℓ} : {A : Type ℓ} → ℕ → A → (ℕ → A) → ℕ → A
set_at i a f j = if eqb j i then a else f j

-- lock up to its first Unlock: the item, which is made where the table has none.
unfoldable pub register : Text → KeyedLocks → ℕ × KeyedLocks
register key l = elim (lookup key l.table) [
  | some i ↦ (i, record l { refs = set_at i (suc (l.refs i)) l.refs })
  | none ↦ (
    l.next,
    record {
      table = insert key l.next l.table;
      refs = set_at l.next 1 l.refs;
      held = set_at l.next false l.held;
      next = suc l.next;
    },
  )
]

-- item.mu.Lock, which waits while the mutex is held, and item.mu.Unlock.
abbrev pub hold : Bool → ℕ → KeyedLocks → KeyedLocks
hold b i l = record l { held = set_at i b l.held }

-- The critical section of the function that lock returns.
unfoldable pub unregister : Text → ℕ → KeyedLocks → KeyedLocks
unregister key i l =
    let n = l.refs i - 1 in
    record l { refs = set_at i n l.refs; table = if eqb n 0 then delete key l.table else l.table }

pub data Phase : Type 0 where
  idle : Phase
  waiting holding leaving : Text → ℕ → Phase

pub record System : Type 0 where
  pub locks : KeyedLocks
  pub callers : List Phase

-- One caller moves; the others are in front of it and behind it.
pub data Step : System → System → Type 0 where
  lock_registers :
      (pre post : List Phase) (key : Text) (l : KeyedLocks)
      → Step
          (record { locks = l; callers = pre ++ idle ∷ post })
          (record {
            locks = (register key l).1;
            callers = pre ++ waiting key (register key l).0 ∷ post;
          })
  lock_returns :
      (pre post : List Phase) (key : Text) (i : ℕ) (l : KeyedLocks)
      → l.held i ≡ false
      → Step
          (record { locks = l; callers = pre ++ waiting key i ∷ post })
          (record { locks = hold true i l; callers = pre ++ holding key i ∷ post })
  unlock_begins :
      (pre post : List Phase) (key : Text) (i : ℕ) (l : KeyedLocks)
      → Step
          (record { locks = l; callers = pre ++ holding key i ∷ post })
          (record { locks = hold false i l; callers = pre ++ leaving key i ∷ post })
  unlock_ends :
      (pre post : List Phase) (key : Text) (i : ℕ) (l : KeyedLocks)
      → Step
          (record { locks = l; callers = pre ++ leaving key i ∷ post })
          (record { locks = unregister key i l; callers = pre ++ idle ∷ post })

abbrev pub idle_callers : ℕ → List Phase
idle_callers zero = []
idle_callers (suc n) = idle ∷ idle_callers n

-- What is reached from some idle callers and no locks.
pub data Reachable : System → Type 0 where
  start : (n : ℕ) → Reachable (record { locks = new_keyed_locks; callers = idle_callers n })
  after : (x y : System) → Reachable x → Step x y → Reachable y
