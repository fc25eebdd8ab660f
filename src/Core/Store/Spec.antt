-- ===== src/Core/Store/Spec.antt =====
-- What core.Store promises: a map from keys to values with a time of expiry, from which nothing is ever
-- swept out, and requests to a store at the times when they come.
use anybot.Base.{ℕ, ◌≤◌, Option, none, some, List, [], ◌∷◌, Text, if◌then◌else◌, ◌==◌}
use anybot.Core.Errors.{Error}
use anybot.Core.Store.{
  Answer, failed, missing, finished, found, Bytes, Item, new_item, is_expired, MemoryStore, fetch,
  put, remove, sweep,
}

abbrev pub Spec : Type 0
Spec = Text → Option Item

-- The value that an entry shows at a time.
unfoldable pub visible : ℕ → Option Item → Option Bytes
unfolding is_expired
visible now none = none
visible now (some item) = if is_expired now item then none else some item.value

unfoldable pub shown : Option Bytes → Answer
shown none = missing
shown (some value) = found value

pub data Op : Type 0 where
  get : Text → Op
  set : Text → Bytes → ℕ → Op
  delete : Text → Op
  sweep_all : Op

-- `done` is the error of a Go context that is over.
pub record Request : Type 0 where
  pub now : ℕ
  pub done : Option Error
  pub op : Op

unfoldable pub write : Text → Option Item → Spec → Spec
write key item m k = if k == key then item else m k

-- What a request that is not refused does.
unfoldable pub spec_op : ℕ → Op → Spec → Answer × Spec
unfolding visible shown write
spec_op now (get key) m = (shown (visible now (m key)), m)
spec_op now (set key value ttl) m = (finished, write key (some (new_item now value ttl)) m)
spec_op now (delete key) m = (finished, write key none m)
spec_op now sweep_all m = (finished, m)

unfoldable pub spec_step : Request → Spec → Answer × Spec
unfolding spec_op
spec_step r m = elim r.done [ some e ↦ (failed e, m) | none ↦ spec_op r.now r.op m ]

unfoldable pub memory_step : Request → MemoryStore → Answer × MemoryStore
unfolding fetch put remove sweep
memory_step r s = elim r.op [
  | get key ↦ fetch r.now r.done key s
  | set key value ttl ↦ put r.now r.done key value ttl s
  | delete key ↦ remove r.done key s
  | sweep_all ↦ sweep r.now r.done s
]

-- The answers to a list of requests.
unfoldable pub answers : {S : Type 0} → (Request → S → Answer × S) → List Request → S → List Answer
answers f [] s = []
answers f (r ∷ rs) s = let (a, t) = f r s in a ∷ answers f rs t

-- The requests come at times that never go back, none before `now`.
unfoldable pub IsTimed : ℕ → List Request → Type 0
IsTimed now [] = Unit
IsTimed now (r ∷ rs) = (now ≤ r.now) × IsTimed r.now rs
