-- ===== src/Core/StoreTests.antt =====
-- Each theorem about the stores at a concrete input.
use anybot.Base.{ℕ, ◌≡◌, refl, inl, inr, none, some, List, [], ◌∷◌, arith, codes}
use anybot.Base.{lookup, insert, delete, ◌==◌}
use anybot.Core.Errors.{Error, plain}
use anybot.Core.Store.{
  missing, finished, found, MemoryStore, new_memory_store, put, fetch, read_item, end_read, memory,
  session_get, session_set, new_session,
}
use anybot.Core.Store.Spec.{Op, Request, memory_step, spec_step, answers, IsTimed}
use anybot.Core.Store.Refinement.{answers-MemoryStore}
use anybot.Core.Store.Race.{fetch-lost}
use anybot.Core.Store.Sessions.{session_get-session_set}
use anybot.Core.FileStore.{FileStore, Document, new_file_store}
use anybot.Core.FileStore.Laws.{FileRequest, file_step, file_run, file_step-failed, load-file_run}

abbrev at : ℕ → Op → Request
at now op = record { now = now; done = none; op = op }

abbrev set_a : Op
set_a = Op.set (codes "a") (codes "x") 5

abbrev get_a : Op
get_a = Op.get (codes "a")

abbrev requests : List Request
requests =
    at 100 set_a
    ∷ at 103 get_a
    ∷ at 106 get_a
    ∷ at 170 (Op.set (codes "b") [] 0)
    ∷ at 171 get_a
    ∷ []

requests_run :
    answers memory_step requests (new_memory_store 60)
    ≡ finished ∷ found (codes "x") ∷ missing ∷ finished ∷ missing ∷ []
unfolding answers memory_step put fetch new_memory_store lookup insert ◌==◌ delete
requests_run = refl

answers-MemoryStore_example :
    answers memory_step requests (new_memory_store 60) ≡ answers spec_step requests (λ _. none)
unfolding IsTimed
answers-MemoryStore_example =
    answers-MemoryStore 60 requests
      (omega arith, (omega arith, (omega arith, (omega arith, (omega arith, tt)))))

abbrev aged : MemoryStore
aged = record {
  items = (codes "a", record { value = codes "x"; expires_at = 105 }) ∷ [];
  sweep_every = 60;
  last_swept_at = 100;
}

fetch-lost_example :
    let (answer, written) = put 106 none (codes "a") (codes "y") 50 aged in
    (answer ≡ finished)
    × ((fetch 107 none (codes "a") written).0 ≡ found (codes "y"))
    × ((fetch 107 none
          (codes "a")
          (end_read (codes "a") (read_item 106 (codes "a") aged) written).1).0
        ≡ missing)
unfolding read_item lookup ◌==◌
fetch-lost_example =
    fetch-lost 106 107 50 (codes "a") (codes "y") aged (omega arith) (inr (omega arith)) refl

session_get-session_set_example :
    (session_get
      (memory 101)
      (some (new_session (codes "p:private:1")))
      none
      (codes "n")
      (session_set
        (memory 100)
        (some (new_session (codes "p:private:2")))
        none
        (codes "n")
        []
        0
        aged).1).0
    ≡ (session_get (memory 101) (some (new_session (codes "p:private:1"))) none (codes "n") aged).0
session_get-session_set_example =
    session_get-session_set 100 101 0 none none (codes "p:private:2") (codes "p:private:1")
      (codes "n") (codes "n") [] aged (omega arith) ((λ e. ground (arith, e)), tt)
      ((λ e. ground (arith, e)), tt) (inl (λ e. ground (arith, e)))

abbrev opened : FileStore
opened = record { items = []; disk = Document.absent }

abbrev full_disk : Error
full_disk = plain (codes "no space left on device")

abbrev file_requests : List FileRequest
file_requests =
    record { request = at 100 set_a; sweep_now = 100; io = none }
    ∷ record { request = at 101 (Op.delete (codes "a")); sweep_now = 101; io = some full_disk }
    ∷ []

file_step-failed_example :
    (file_step (record { request = at 100 set_a; sweep_now = 100; io = some full_disk }) opened).1
    ≡ opened
unfolding file_step
file_step-failed_example =
    file_step-failed (record { request = at 100 set_a; sweep_now = 100; io = some full_disk })
      opened full_disk refl

load-file_run_example :
    new_file_store (codes "s.json") (file_run file_requests opened).disk
    ≡ inr (file_run file_requests opened)
unfolding new_file_store
load-file_run_example = load-file_run (codes "s.json") Document.absent opened file_requests refl
