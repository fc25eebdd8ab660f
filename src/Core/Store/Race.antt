-- ===== src/Core/Store/Race.antt =====
-- core/store.go: MemoryStore.Get reads under the read lock and deletes a stale entry under the write
-- lock, with a gap in between.
use anybot.Base.{
  ℕ, ◌+◌, ◌≤◌, ◌≡◌, ◌⊎◌, refl, ◌∙◌, ap, none, some, false, Text, arith, insert, lookup,
  lookup-insert,
}
use anybot.Base.{lookup-delete, eq_refl}
use anybot.Core.Store.Spec.{shown, visible}
use anybot.Core.Store.Refinement.{end_read-shown, sweep_expired-Shows}
use anybot.Core.Store.{
  finished, found, new_item, is_expired, sweep_expired, missing, Bytes, MemoryStore, read_item,
  stale, end_read, put, remove, fetch,
}

fetch-remove :
    (later : ℕ) (key : Text) (s : MemoryStore)
    → (fetch later none key (remove none key s).1).0 ≡ missing
unfolding fetch remove shown visible
fetch-remove later key s =
    end_read-shown later key (remove none key s).1
    ∙ rw (lookup-delete key key s.items, eq_refl key, visible, shown) refl

new_item-visible :
    (now later ttl : ℕ) (value : Bytes)
    → (ttl ≡ 0) ⊎ (later ≤ now + ttl)
    → visible later (some (new_item now value ttl)) ≡ some value
unfolding visible new_item is_expired
new_item-visible now later ttl value h = ground (arith, h)

-- What Set has written is found until it expires.
put-fetch :
    (now later ttl : ℕ) (key : Text) (value : Bytes) (s : MemoryStore)
    → now ≤ later
    → (ttl ≡ 0) ⊎ (later ≤ now + ttl)
    → (fetch later none key (put now none key value ttl s).1).0 ≡ found value
unfolding fetch put shown
put-fetch now later ttl key value s le fresh_yet =
    let written : MemoryStore = record s { items = insert key (new_item now value ttl) s.items } in
    end_read-shown later key (sweep_expired now false written)
    ∙ ap shown (
        sweep_expired-Shows now false written (λ k. lookup k written.items) (λ _ _ _. refl) key
          later le)
    ∙ rw (lookup-insert key key (new_item now value ttl) s.items, eq_refl key)
        (ap shown (new_item-visible now later ttl value fresh_yet))

-- A Set that falls into the gap of a Get of a stale entry is lost: it reports success, and what it has
-- written is found while that Get has not gone on; once it has, the next Get finds nothing, although
-- the value has not expired.
pub fetch-lost :
    (now later ttl : ℕ) (key : Text) (value : Bytes) (s : MemoryStore)
    → now ≤ later
    → (ttl ≡ 0) ⊎ (later ≤ now + ttl)
    → read_item now key s ≡ stale
    → let (answer, written) = put now none key value ttl s in
      (answer ≡ finished)
      × ((fetch later none key written).0 ≡ found value)
      × ((fetch later none key (end_read key (read_item now key s) written).1).0 ≡ missing)
unfolding put end_read
fetch-lost now later ttl key value s le fresh_yet e = (
  refl,
  put-fetch now later ttl key value s le fresh_yet,
  rw e (fetch-remove later key (put now none key value ttl s).1),
)
