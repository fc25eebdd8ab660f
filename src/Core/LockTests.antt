-- ===== src/Core/LockTests.antt =====
-- Two callers of the locks by key, one of which holds the lock that the other waits for.
use anybot.Base.{ℕ, ◌≤◌, ◌≡◌, refl, true, [], ◌∷◌, codes}
use anybot.Base.{lookup, insert, ◌==◌}
use anybot.Core.KeyedLocks.{
  new_keyed_locks, register, hold, idle, waiting, holding, System, lock_registers, lock_returns,
  Reachable, start, after,
}
use anybot.Core.KeyedLocks.Invariant.{uses, holds_key, total}
use anybot.Core.KeyedLocks.Exclusion.{Reachable-excludes}

abbrev at_start : System
at_start = record { locks = new_keyed_locks; callers = idle ∷ idle ∷ [] }

abbrev one_waits : System
one_waits = record {
  locks = (register (codes "a") new_keyed_locks).1;
  callers = waiting (codes "a") (register (codes "a") new_keyed_locks).0 ∷ idle ∷ [];
}

abbrev one_holds : System
one_holds = record {
  locks = hold true 0 one_waits.locks;
  callers = holding (codes "a") 0 ∷ idle ∷ [];
}

abbrev both_use : System
both_use = record {
  locks = (register (codes "a") one_holds.locks).1;
  callers =
      holding (codes "a") 0 ∷ waiting (codes "a") (register (codes "a") one_holds.locks).0 ∷ [];
}

waits-Reachable : Reachable one_waits
waits-Reachable =
    after at_start one_waits (start 2) (lock_registers [] (idle ∷ []) (codes "a") new_keyed_locks)

holds-Reachable : Reachable one_holds
unfolding register lookup
holds-Reachable =
    after one_waits one_holds waits-Reachable
      (lock_returns [] (idle ∷ []) (codes "a") 0 one_waits.locks refl)

both-Reachable : Reachable both_use
both-Reachable =
    after one_holds both_use holds-Reachable
      (lock_registers (holding (codes "a") 0 ∷ []) [] (codes "a") one_holds.locks)

Reachable-excludes_example :
    (total (holds_key (codes "a")) both_use.callers ≤ 1)
    × ((i : ℕ) → both_use.locks.refs i ≡ total (uses i) both_use.callers)
Reachable-excludes_example = Reachable-excludes both_use (codes "a") both-Reachable

test_refs : both_use.locks.refs 0 ≡ 2
unfolding register lookup insert ◌==◌
test_refs = refl
