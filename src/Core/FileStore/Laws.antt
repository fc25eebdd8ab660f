-- ===== src/Core/FileStore/Laws.antt =====
-- core/file_store.go: a FileStore is in step with its file, also where a write fails.
use anybot.Base.{
  ℕ, ◌≡◌, refl, subst, ◌≢◌, ◌⊎◌, inl, inr, Bool, true, false, not, Option, none, some, List, [],
  ◌∷◌, arith, Text, if◌then◌else◌, eqb,
}
use anybot.Base.{Dict, lookup, insert, delete, is_some}
use anybot.Core.Errors.{Error}
use anybot.Core.Store.{
  Answer, failed, missing, finished, found, Item, is_expired, drop_expired, new_item,
}
use anybot.Core.Store.Spec.{Op, Request}
use anybot.Core.FileStore.{
  FileStore, load, new_file_store, commit, sweep_file, file_get, file_set, file_delete, file_sweep,
  Document, is_expired, has_expired,
}

-- A request with the second reading of the clock and the outcome of the write, if there is one.
pub record FileRequest : Type 0 where
  pub request : Request
  pub sweep_now : ℕ
  pub io : Option Error

unfoldable pub file_step : FileRequest → FileStore → Answer × FileStore
unfolding file_get file_set file_delete file_sweep
file_step f s = elim f.request.op [
  | Op.get key ↦ file_get f.request.now f.request.done f.io key s
  | Op.set key value ttl ↦ file_set f.request.now f.sweep_now f.request.done f.io key value ttl s
  | Op.delete key ↦ file_delete f.request.done f.io key s
  | Op.sweep_all ↦ file_sweep f.request.now f.request.done f.io s
]

unfoldable pub file_run : List FileRequest → FileStore → FileStore
unfolding file_step
file_run [] s = s
file_run (f ∷ fs) s = file_run fs (file_step f s).1

-- What the file holds is what the store holds.
abbrev pub IsSaved : FileStore → Type 0
IsSaved s = (path : Text) → load path s.disk ≡ inr s

load_loaded :
    (x : Error) (t s : FileStore) (b : Bool)
    → if◌then◌else◌ {A = Error ⊎ FileStore} (not b) (inl x) (inr t) ≡ inr s
    → (b ≡ true) × (t ≡ s)
load_loaded x t s true e = (refl, ground (arith, e))
load_loaded x t s false e = absurd (ground (arith, e))

-- What a store was loaded from is what it is loaded from again.
load-IsSaved : (path : Text) (d : Document) (s : FileStore) → load path d ≡ inr s → IsSaved s
unfolding load
load-IsSaved path Document.absent s e other = ground (arith, e)
load-IsSaved path Document.empty_file s e other = ground (arith, e)
load-IsSaved path (Document.unreadable x) s e other = ground (arith, e)
load-IsSaved path (Document.malformed x) s e other = ground (arith, e)
load-IsSaved path (Document.parsed v items) s e other =
    let (one, same) = load_loaded _ _ s (eqb v 1) e in
    subst (λ t. load other t.disk ≡ inr t) same (rw one refl)

commit-IsSaved :
    (io : Option Error) (answer : Answer) (s : FileStore) (items : Dict Item)
    → IsSaved s
    → IsSaved (commit io answer s.items (record s { items = items })).1
unfolding commit load
commit-IsSaved none answer s items h path = refl
commit-IsSaved (some e) answer s items h path = h path

-- How a request can end: with the store as it was, or with a write of other items.
data Ending (io : Option Error) (s : FileStore) : Answer × FileStore → Type 0 where
  untouched : (a : Answer) → Ending io s (a, s)
  written :
      (a : Answer) (items : Dict Item)
      → ((e : Error) → a ≢ failed e)
      → Ending io s (commit io a s.items (record s { items = items }))

missing_is_no_failure : (e : Error) → missing ≢ failed e
missing_is_no_failure e same = ground (arith, same)

finished_is_no_failure : (e : Error) → finished ≢ failed e
finished_is_no_failure e same = ground (arith, same)

if-Ending :
    (io : Option Error) (s : FileStore) (x y : Answer × FileStore) (b : Bool)
    → Ending io s x
    → Ending io s y
    → Ending io s (if b then x else y)
if-Ending io s x y true e f = e
if-Ending io s x y false e f = f

-- Each operation, when its Go context is not done.
op-Ending :
    (now sweep_now : ℕ) (io : Option Error) (o : Op) (s : FileStore)
    → Ending io s (
        file_step
          (record {
            request = record { now = now; done = none; op = o };
            sweep_now = sweep_now;
            io = io;
          })
          s)
unfolding file_step file_get file_set file_delete file_sweep sweep_file
op-Ending now sweep_now io (Op.get key) s = go (lookup key s.items)
  where
    go :
        (o : Option Item)
        → Ending io s (elim o [
          | none ↦ (missing, s)
          | some item ↦
              if is_expired now item
              then commit io missing s.items (record s { items = delete key s.items })
              else (found item.value, s)
        ])
    go none = untouched missing
    go (some item) =
        if-Ending io s _ _ (is_expired now item)
          (written missing (delete key s.items) missing_is_no_failure)
          (untouched (found item.value))
op-Ending now sweep_now io (Op.set key value ttl) s =
    written finished (drop_expired sweep_now (insert key (new_item now value ttl) s.items))
      finished_is_no_failure
op-Ending now sweep_now io (Op.delete key) s =
    if-Ending io s _ _ (is_some (lookup key s.items))
      (written finished (delete key s.items) finished_is_no_failure) (untouched finished)
op-Ending now sweep_now io Op.sweep_all s =
    if-Ending io s _ _ (not (has_expired now s.items)) (untouched finished)
      (written finished (drop_expired now s.items) finished_is_no_failure)

done-Ending :
    (now sweep_now : ℕ) (io done : Option Error) (o : Op) (s : FileStore)
    → Ending io s (
        file_step
          (record {
            request = record { now = now; done = done; op = o };
            sweep_now = sweep_now;
            io = io;
          })
          s)
unfolding file_step file_get file_set file_delete file_sweep
done-Ending now sweep_now io none o s = op-Ending now sweep_now io o s
done-Ending now sweep_now io (some e) (Op.get key) s = untouched (failed e)
done-Ending now sweep_now io (some e) (Op.set key value ttl) s = untouched (failed e)
done-Ending now sweep_now io (some e) (Op.delete key) s = untouched (failed e)
done-Ending now sweep_now io (some e) Op.sweep_all s = untouched (failed e)

step-Ending : (f : FileRequest) (s : FileStore) → Ending f.io s (file_step f s)
step-Ending f s = done-Ending f.request.now f.sweep_now f.io f.request.done f.request.op s

Ending-IsSaved :
    (io : Option Error) (s : FileStore) (r : Answer × FileStore)
    → Ending io s r
    → IsSaved s
    → IsSaved r.1
Ending-IsSaved io s r (untouched a) h = h
Ending-IsSaved io s r (written a items ok) h = commit-IsSaved io a s items h

Ending-failed :
    (io : Option Error) (s : FileStore) (r : Answer × FileStore) (e : Error)
    → Ending io s r
    → r.0 ≡ failed e
    → r.1 ≡ s
unfolding commit
Ending-failed io s r e (untouched a) h = refl
Ending-failed none s r e (written a items ok) h = absurd (ok e h)
Ending-failed (some x) s r e (written a items ok) h = refl

-- An operation that reports an error, of the Go context or of the write, leaves the items and the file as
-- they were.
pub file_step-failed :
    (f : FileRequest) (s : FileStore) (e : Error)
    → (file_step f s).0 ≡ failed e
    → (file_step f s).1 ≡ s
file_step-failed f s e h = Ending-failed f.io s (file_step f s) e (step-Ending f s) h

run-IsSaved : (fs : List FileRequest) (s : FileStore) → IsSaved s → IsSaved (file_run fs s)
unfolding file_run
run-IsSaved [] s h = h
run-IsSaved (f ∷ fs) s h =
    run-IsSaved fs (file_step f s).1 (Ending-IsSaved f.io s (file_step f s) (step-Ending f s) h)

-- Whatever is asked of an opened FileStore, and whichever writes fail, opening its file again gives the
-- same store: no change is in memory alone or on the disk alone.
pub load-file_run :
    (path : Text) (d : Document) (s : FileStore) (fs : List FileRequest)
    → new_file_store path d ≡ inr s
    → new_file_store path (file_run fs s).disk ≡ inr (file_run fs s)
unfolding new_file_store
load-file_run [] d s fs e = absurd (ground (arith, e))
load-file_run (c ∷ path) d s fs e = run-IsSaved fs s (load-IsSaved (c ∷ path) d s e) (c ∷ path)
