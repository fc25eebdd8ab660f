-- ===== src/Core/FileStore.antt =====
-- core/file_store.go: FileStore. The file is the document that it holds, and `writeFileAtomic` either
-- puts a whole new document in its place or leaves the old one and reports an error; that outcome,
-- with an error of the encoder or of the Go context in saveLocked, is an argument of each operation.
-- The two readings of the clock in Set are two arguments.
pub mod Laws
use anybot.Base.{
  ℕ, ◌⊎◌, inl, inr, Bool, false, not, ◌||◌, Option, none, some, [], ◌∷◌, ◌++◌, Text, codes,
  if◌then◌else◌,
}
use anybot.Base.{Dict, lookup, insert, delete, eqb, is_empty, is_some}
use anybot.Core.Errors.{Error, wrapped, plain}
use anybot.Core.Store.{
  Answer, failed, missing, finished, found, Bytes, Item, is_expired, drop_expired, new_item,
  guarded,
}

-- What the file holds: nothing yet, an error on reading, no bytes, bytes that are no document, or a
-- document with its version and its items, which may be missing.
pub data Document : Type 0 where
  absent empty_file : Document
  unreadable malformed : Error → Document
  parsed : ℕ → Option (Dict Item) → Document

-- An item with expires_at 0 is one without ExpiresAt.
pub record FileStore : Type 0 where
  pub items : Dict Item
  pub disk : Document

-- load, into a store without items.
unfoldable pub load : Text → Document → Error ⊎ FileStore
load path absent = inr (record { items = []; disk = absent })
load path (unreadable e) = inl e
load path empty_file = inl (plain (path ++ codes ": store file is empty"))
load path (malformed e) = inl (wrapped (path ++ codes ": ") e)
load path (parsed version items) =
    if not (eqb version 1)
    then inl (plain (path ++ codes ": unsupported store version"))
    else inr (record { items = elim items [ none ↦ [] | some d ↦ d ]; disk = parsed version items })

-- NewFileStore
unfoldable pub new_file_store : Text → Document → Error ⊎ FileStore
unfolding load
new_file_store path disk =
    if is_empty path then inl (plain (codes "store path is required")) else load path disk

-- saveLocked, with its outcome.
unfoldable pub save : Option Error → FileStore → Option Error × FileStore
save (some e) s = (some e, s)
save none s = (none, record s { disk = parsed 1 (some s.items) })

-- saveLocked, and `s.items = before` where it fails.
unfoldable pub commit : Option Error → Answer → Dict Item → FileStore → Answer × FileStore
unfolding save
commit io answer before s =
    let (e, s') = save io s in
    elim e [ some x ↦ (failed x, record s' { items = before }) | none ↦ (answer, s') ]

-- Whether sweepExpiredLocked changes anything.
unfoldable pub has_expired : ℕ → Dict Item → Bool
unfolding is_expired
has_expired now [] = false
has_expired now ((key, item) ∷ items) = is_expired now item || has_expired now items

-- sweepExpiredLocked
unfoldable pub sweep_file : ℕ → FileStore → Bool × FileStore
unfolding has_expired drop_expired
sweep_file now s = (has_expired now s.items, record s { items = drop_expired now s.items })

-- Get
unfoldable pub file_get : ℕ → Option Error → Option Error → Text → FileStore → Answer × FileStore
unfolding commit guarded is_expired
file_get now ctx io key s =
    let without : FileStore = record s { items = delete key s.items } in
    let answer : Answer × FileStore = elim (lookup key s.items) [
      | none ↦ (missing, s)
      | some item ↦
          if is_expired now item then commit io missing s.items without else (found item.value, s)
    ] in
    guarded ctx answer s

-- Set
unfoldable pub file_set :
    ℕ → ℕ → Option Error → Option Error → Text → Bytes → ℕ → FileStore → Answer × FileStore
unfolding commit guarded new_item sweep_file
file_set now sweep_now ctx io key value ttl s =
    let written : FileStore = record s { items = insert key (new_item now value ttl) s.items } in
    guarded ctx (commit io finished s.items (sweep_file sweep_now written).1) s

-- Delete
unfoldable pub file_delete : Option Error → Option Error → Text → FileStore → Answer × FileStore
unfolding commit guarded
file_delete ctx io key s =
    let without : FileStore = record s { items = delete key s.items } in
    guarded ctx
      (if is_some (lookup key s.items) then commit io finished s.items without else (finished, s)) s

-- Sweep
unfoldable pub file_sweep : ℕ → Option Error → Option Error → FileStore → Answer × FileStore
unfolding commit guarded sweep_file
file_sweep now ctx io s =
    let (changed, swept) = sweep_file now s in
    guarded ctx (if not changed then (finished, s) else commit io finished s.items swept) s
