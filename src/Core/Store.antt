-- ===== src/Core/Store.antt =====
-- core/store.go: MemoryStore and Session. Times are numbers with 0 for the zero time, and the clock's
-- time is an argument of each operation. An operation is one step, except for Get: it reads under one
-- lock and drops an expired entry under another, so its two parts also have names.
pub mod Spec
pub mod Refinement
pub mod Sessions
pub mod Race
use anybot.Base.{
  ℕ, ◌+◌, ◌-◌, Bool, true, false, not, ◌&&◌, Option, none, some, List, [], ◌∷◌, ◌++◌, Text,
  if◌then◌else◌,
}
use anybot.Base.{Dict, lookup, insert, delete, ltb, eqb}
use anybot.Core.Errors.{Error, Sentinel, sentinel}

abbrev pub Bytes : Type 0
Bytes = List ℕ

-- memoryItem
pub record Item : Type 0 where
  pub value : Bytes
  pub expires_at : ℕ

pub record MemoryStore : Type 0 where
  pub items : Dict Item
  pub sweep_every : ℕ
  pub last_swept_at : ℕ

-- The results of a store's operations: `failed` is a non-nil error, `missing` is ok=false.
pub data Answer : Type 0 where
  failed : Error → Answer
  missing finished : Answer
  found : Bytes → Answer

-- NewMemoryStore, with a minute in the clock's unit.
unfoldable pub new_memory_store : ℕ → MemoryStore
new_memory_store minute = record { items = []; sweep_every = minute; last_swept_at = 0 }

-- !item.expiresAt.IsZero() && now.After(item.expiresAt)
unfoldable pub is_expired : ℕ → Item → Bool
is_expired now item = not (eqb item.expires_at 0) && ltb item.expires_at now

-- The loop of sweepExpiredLocked.
unfoldable pub drop_expired : ℕ → Dict Item → Dict Item
unfolding is_expired
drop_expired now [] = []
drop_expired now ((key, item) ∷ items) =
    let rest = drop_expired now items in
    if is_expired now item then delete key rest else (key, item) ∷ rest

-- sweepExpiredLocked
unfoldable pub sweep_expired : ℕ → Bool → MemoryStore → MemoryStore
unfolding drop_expired
sweep_expired now force s =
    let swept : MemoryStore = record s { items = drop_expired now s.items; last_swept_at = now } in
    if force
    then swept
    else if eqb s.sweep_every 0
    then s
    else if not (eqb s.last_swept_at 0) && ltb (now - s.last_swept_at) s.sweep_every
    then s
    else swept

-- Every operation first asks whether its Go context is done.
unfoldable pub guarded : {S : Type 0} → Option Error → Answer × S → S → Answer × S
guarded none result s = result
guarded (some e) result s = (failed e, s)

-- Delete
unfoldable pub remove : Option Error → Text → MemoryStore → Answer × MemoryStore
unfolding guarded
remove ctx key s = guarded ctx (finished, record s { items = delete key s.items }) s

-- The first part of Get, under the read lock, and the test behind it.
pub data Reading : Type 0 where
  absent stale : Reading
  fresh : Bytes → Reading

unfoldable pub read_item : ℕ → Text → MemoryStore → Reading
unfolding is_expired
read_item now key s = elim (lookup key s.items) [
  | none ↦ absent
  | some item ↦ if is_expired now item then stale else fresh item.value
]

-- The second part of Get: a stale entry is deleted, under the background context.
unfoldable pub end_read : Text → Reading → MemoryStore → Answer × MemoryStore
unfolding remove
end_read key absent s = (missing, s)
end_read key stale s = (missing, (remove none key s).1)
end_read key (fresh value) s = (found value, s)

-- Get
unfoldable pub fetch : ℕ → Option Error → Text → MemoryStore → Answer × MemoryStore
unfolding guarded read_item end_read
fetch now ctx key s = guarded ctx (end_read key (read_item now key s) s) s

-- The item that Set writes.
unfoldable pub new_item : ℕ → Bytes → ℕ → Item
new_item now value ttl = record { value = value; expires_at = if eqb ttl 0 then 0 else now + ttl }

-- Set
unfoldable pub put : ℕ → Option Error → Text → Bytes → ℕ → MemoryStore → Answer × MemoryStore
unfolding guarded new_item sweep_expired
put now ctx key value ttl s =
    let written : MemoryStore = record s { items = insert key (new_item now value ttl) s.items } in
    guarded ctx (finished, sweep_expired now false written) s

-- Sweep
unfoldable pub sweep : ℕ → Option Error → MemoryStore → Answer × MemoryStore
unfolding guarded sweep_expired
sweep now ctx s = guarded ctx (finished, sweep_expired now true s) s

-- The Store interface, over any state.
pub record Store (S : Type 0) : Type 0 where
  pub do_get : Option Error → Text → S → Answer × S
  pub do_set : Option Error → Text → Bytes → ℕ → S → Answer × S
  pub do_delete : Option Error → Text → S → Answer × S

abbrev pub memory : ℕ → Store MemoryStore
memory now = record { do_get = fetch now; do_set = put now; do_delete = remove }

-- A Session: its key, the error of an unavailable one, and whether it has a store.
pub record Session : Type 0 where
  pub key : Text
  pub broken : Option Error
  pub has_store : Bool

unfoldable pub new_session : Text → Session
new_session key = record { key = key; broken = none; has_store = true }

unfoldable pub new_unavailable_session : Option Error → Session
new_unavailable_session none = record {
  key = [];
  broken = some (sentinel Sentinel.session_unavailable);
  has_store = false;
}
new_unavailable_session (some e) = record { key = []; broken = some e; has_store = false }

-- s.key+":"+name
unfoldable pub full_key : Session → Text → Text
full_key session name = session.key ++ b':' ∷ name

-- The tests that Session's operations begin with: none is the nil session.
unfoldable pub refusal : Option Session → Option Error
refusal none = some (sentinel Sentinel.session_unavailable)
refusal (some session) = elim session.broken [
  | some e ↦ some e
  | none ↦ if session.has_store then none else some (sentinel Sentinel.session_unavailable)
]

module _ {S : Type 0} (store : Store S) where
  unfoldable pub through : Option Session → (Session → Answer × S) → S → Answer × S
  unfolding refusal
  through none f s = (failed (sentinel Sentinel.session_unavailable), s)
  through (some session) f s = elim (refusal (some session)) [
    | some e ↦ (failed e, s)
    | none ↦ f session
  ]

  -- Session.Get, Set and Delete
  unfoldable pub session_get : Option Session → Option Error → Text → S → Answer × S
  unfolding through full_key
  session_get session ctx name s = through session (λ own. store.do_get ctx (full_key own name) s) s

  unfoldable pub session_set : Option Session → Option Error → Text → Bytes → ℕ → S → Answer × S
  unfolding through full_key
  session_set session ctx name value ttl s =
      through session (λ own. store.do_set ctx (full_key own name) value ttl s) s

  unfoldable pub session_delete : Option Session → Option Error → Text → S → Answer × S
  unfolding through full_key
  session_delete session ctx name s =
      through session (λ own. store.do_delete ctx (full_key own name) s) s
