-- ===== src/Core/Store/Refinement.antt =====
-- core/store.go: a MemoryStore answers as the map that keeps everything. What it sweeps out is
-- expired, and stays so while the clock does not go back.
use anybot.Base.{
  ℕ, ◌≤◌, ◌≡◌, refl, ap, ◌∙◌, Bool, true, false, Option, none, some, List, [], ◌∷◌, arith, Text,
  if◌then◌else◌,
}
use anybot.Base.{Dict, lookup, insert, delete, lookup-insert, lookup-delete, eq_iff}
use anybot.Core.Errors.{Error}
use anybot.Core.Store.{
  Item, new_item, is_expired, drop_expired, sweep_expired, read_item, end_read, Reading,
  MemoryStore, new_memory_store, fetch, put, remove, sweep, stale, fresh, absent,
}
use anybot.Core.Store.Spec.{
  Spec, visible, shown, Op, Request, write, spec_op, spec_step, memory_step, answers, IsTimed,
}

-- The entries show what the map shows, from `now` on.
abbrev pub Shows : ℕ → Dict Item → Spec → Type 0
Shows now items m =
    (key : Text) (t : ℕ) → now ≤ t → visible t (lookup key items) ≡ visible t (m key)

pub expired_later :
    (now t : ℕ) (item : Item) → now ≤ t → is_expired now item ≡ true → is_expired t item ≡ true
unfolding is_expired
expired_later now t item h e = ground arith

-- What is left of an entry that is dropped if it is expired.
unfoldable kept : ℕ → Option Item → Option Item
kept now none = none
kept now (some item) = if is_expired now item then none else some item

kept-visible : (now t : ℕ) (o : Option Item) → now ≤ t → visible t (kept now o) ≡ visible t o
unfolding visible kept
kept-visible now t none h = refl
kept-visible now t (some item) h = ground (arith, expired_later now t item h)

lookup-drop_expired :
    (now : ℕ) (key : Text) (items : Dict Item)
    → lookup key (drop_expired now items) ≡ kept now (lookup key items)
unfolding drop_expired lookup kept
lookup-drop_expired now key [] = refl
lookup-drop_expired now key ((name, item) ∷ items) = ground (
  arith,
  lookup-drop_expired now key items,
  lookup-delete name key (drop_expired now items),
  eq_iff key name,
)

pub drop_expired-visible :
    (now t : ℕ) (key : Text) (items : Dict Item)
    → now ≤ t
    → visible t (lookup key (drop_expired now items)) ≡ visible t (lookup key items)
drop_expired-visible now t key items h =
    ap (visible t) (lookup-drop_expired now key items) ∙ kept-visible now t (lookup key items) h

pub insert-Shows :
    (now : ℕ) (key : Text) (item : Item) (items : Dict Item) (m : Spec)
    → Shows now items m
    → Shows now (insert key item items) (write key (some item) m)
unfolding write
insert-Shows now key item items m h k t le =
    ground (arith, lookup-insert key k item items, h k t le)

pub delete-Shows :
    (now : ℕ) (key : Text) (items : Dict Item) (m : Spec)
    → Shows now items m
    → Shows now (delete key items) (write key none m)
unfolding write
delete-Shows now key items m h k t le = ground (arith, lookup-delete key k items, h k t le)

pub drop_expired-Shows :
    (now : ℕ) (items : Dict Item) (m : Spec)
    → Shows now items m
    → Shows now (drop_expired now items) m
drop_expired-Shows now items m h k t le = drop_expired-visible now t k items le ∙ h k t le

pub later-Shows :
    (now later : ℕ) (items : Dict Item) (m : Spec)
    → now ≤ later
    → Shows now items m
    → Shows later items m
later-Shows now later items m le h k t le' = h k t (omega (arith, le, le'))

pub sweep_expired-Shows :
    (now : ℕ) (force : Bool) (s : MemoryStore) (m : Spec)
    → Shows now s.items m
    → Shows now (sweep_expired now force s).items m
unfolding sweep_expired
sweep_expired-Shows now force s m h k t le =
    ground (arith, h k t le, drop_expired-Shows now s.items m h k t le)

-- Get answers what its entry shows, and leaves every entry's value as it shows from then on.
pub end_read-shown :
    (now : ℕ) (key : Text) (s : MemoryStore)
    → (end_read key (read_item now key s) s).0 ≡ shown (visible now (lookup key s.items))
unfolding end_read read_item shown visible
end_read-shown now key s = ground arith

delete-expired :
    (now t : ℕ) (key k : Text) (items : Dict Item) (item : Item)
    → now ≤ t
    → lookup key items ≡ some item
    → is_expired now item ≡ true
    → visible t (lookup k (delete key items)) ≡ visible t (lookup k items)
unfolding visible
delete-expired now t key k items item h e old =
    ground (arith, lookup-delete key k items, eq_iff k key, expired_later now t item h old, e)

-- A reading is stale only of an expired entry.
read_item-stale :
    (now : ℕ) (key : Text) (s : MemoryStore)
    → (read_item now key s ≡ stale
        → (item : Item) × (lookup key s.items ≡ some item) × (is_expired now item ≡ true))
unfolding read_item
read_item-stale now key s = go (lookup key s.items)
  where
    go :
        (o : Option Item)
        → elim o [
          | none ↦ absent
          | some item ↦ if is_expired now item then stale else fresh item.value
        ]
          ≡ stale
        → (item : Item) × (o ≡ some item) × (is_expired now item ≡ true)
    go none e = ground (arith, e)
    go (some item) e = (item, refl, ground (arith, e))

end_read-visible :
    (now t : ℕ) (key k : Text) (s : MemoryStore) (r : Reading)
    → now ≤ t
    → read_item now key s ≡ r
    → visible t (lookup k (end_read key r s).1.items) ≡ visible t (lookup k s.items)
unfolding end_read remove
end_read-visible now t key k s absent h e = refl
end_read-visible now t key k s (fresh v) h e = refl
end_read-visible now t key k s stale h e =
    let (item, has, old) = read_item-stale now key s e in
    delete-expired now t key k s.items item h has old

-- A request that is let through.
op-Shows :
    (now : ℕ) (o : Op) (s : MemoryStore) (m : Spec)
    → Shows now s.items m
    → let r : Request = record { now = now; done = none; op = o } in
      ((memory_step r s).0 ≡ (spec_op now o m).0)
      × Shows now (memory_step r s).1.items (spec_op now o m).1
unfolding memory_step spec_op fetch put remove sweep
op-Shows now (Op.get key) s m h = (
  end_read-shown now key s ∙ ap shown (h key now (omega arith)),
  λ k t le. end_read-visible now t key k s (read_item now key s) le refl ∙ h k t le,
)
op-Shows now (Op.set key value ttl) s m h =
    let item = new_item now value ttl in
    (
      refl,
      sweep_expired-Shows now false (record s { items = insert key item s.items })
          (write key (some item) m) (insert-Shows now key item s.items m h),
    )
op-Shows now (Op.delete key) s m h = (refl, delete-Shows now key s.items m h)
op-Shows now Op.sweep_all s m h = (refl, sweep_expired-Shows now true s m h)

done-Shows :
    (now : ℕ) (done : Option Error) (o : Op) (s : MemoryStore) (m : Spec)
    → Shows now s.items m
    → let r : Request = record { now = now; done = done; op = o } in
      ((memory_step r s).0 ≡ (spec_step r m).0)
      × Shows now (memory_step r s).1.items (spec_step r m).1
unfolding memory_step spec_step fetch put remove sweep
done-Shows now none o s m h = op-Shows now o s m h
done-Shows now (some x) (Op.get key) s m h = (refl, h)
done-Shows now (some x) (Op.set key value ttl) s m h = (refl, h)
done-Shows now (some x) (Op.delete key) s m h = (refl, h)
done-Shows now (some x) Op.sweep_all s m h = (refl, h)

step-Shows :
    (now : ℕ) (r : Request) (s : MemoryStore) (m : Spec)
    → now ≤ r.now
    → Shows now s.items m
    → ((memory_step r s).0 ≡ (spec_step r m).0)
      × Shows r.now (memory_step r s).1.items (spec_step r m).1
step-Shows now r s m le h = done-Shows r.now r.done r.op s m (later-Shows now r.now s.items m le h)

answers-Shows :
    (now : ℕ) (rs : List Request) (s : MemoryStore) (m : Spec)
    → IsTimed now rs
    → Shows now s.items m
    → answers memory_step rs s ≡ answers spec_step rs m
unfolding answers IsTimed
answers-Shows now [] s m timed h = refl
answers-Shows now (r ∷ rs) s m (le, timed) h =
    let (same, h') = step-Shows now r s m le h in
    cc (same, answers-Shows r.now rs (memory_step r s).1 (spec_step r m).1 timed h')

-- Whatever is asked of a new MemoryStore, at times that do not go back, it answers as the map that
-- keeps every entry for ever: reads that delete and sweeps never show.
pub answers-MemoryStore :
    (minute : ℕ) (rs : List Request)
    → IsTimed 0 rs
    → answers memory_step rs (new_memory_store minute) ≡ answers spec_step rs (λ _. none)
unfolding new_memory_store lookup
answers-MemoryStore minute rs timed =
    answers-Shows 0 rs (new_memory_store minute) (λ _. none) timed (λ _ _ _. refl)
