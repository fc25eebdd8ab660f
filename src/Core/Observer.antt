-- ===== src/Core/Observer.antt =====
-- core/observer.go: observers of events, which run beside the routes. A value is sent to `observerSlots`
-- for each that is started, and its goroutine receives one in its deferred function; where the channel
-- is full the event is dropped with a warning. What the handler and the error handlers do is outside the
-- model, but for how they come back.
pub mod Bound
use anybot.Core.Errors.{Error, panic_error}
use anybot.Core.Event.{Event}
use anybot.Core.Match.{no_match}
use anybot.Core.Context.{clear_match}
use anybot.Core.Runtime.{State, Rule, Cell, Outcome, returned, panicked}
use anybot.Core.Rules.{match_each}
use anybot.Base.{
  Option-cases, inl, inr, true, false, Bool, eqb, ◌+◌, ◌-◌, arith, length-append, Text, ℕ, length,
  List, ◌≡◌, if◌then◌else◌, is_empty, Option, ltb, ◌∷◌, ◌≤◌, some, [], codes, suc, ◌++◌, zero, none,
  refl,
}

pub record Observer (W : Type 0) : Type 0 where
  pub name : Text
  pub rules : List (Option (Rule W))
  pub handler : Option ℕ

-- One run of a handler: its observer and the event, which is a copy.
pub record Job : Type 0 where
  pub observer : Text
  pub handler : ℕ
  pub event : Event

-- Where the goroutine of a job stands in runObserver: in the handler, in handleObserverError with what
-- the handler has returned, in front of the deferred function with the value of a panic, and in
-- handleObserverError with the panic, behind the receive from the channel.
pub data Phase : Type 0 where
  handling : Phase
  reporting : Error → Phase
  leaving : Option Text → Phase
  reporting_panic : Error → Phase

pub record Worker : Type 0 where
  pub job : Job
  pub phase : Phase

-- The channel, as its capacity and the number of values in it, and beside it the goroutines that have been
-- started and not ended. The dropped jobs are the log's.
pub record Slots : Type 0 where
  pub capacity : ℕ
  pub held : ℕ
  pub workers : List Worker
  pub dropped : List Job

-- observerName
unfoldable pub observer_name : Text → Text
observer_name name = if is_empty name then codes "observer" else name

-- enqueueObserver: the send, which a full channel refuses, and `go`.
unfoldable pub enqueue : Job → Slots → Slots
enqueue job q =
    if ltb q.held q.capacity
    then record q {
      held = q.held + 1;
      workers = q.workers ++ record { job = job; phase = Phase.handling } ∷ [];
    }
    else record q { dropped = q.dropped ++ job ∷ [] }

-- runObserver from one phase to the next, by how the handler or the error handlers come back: none is
-- its end. A panic of an error handler in the deferred function ends the process, and is not modelled.
unfoldable pub next_phase : Outcome → Phase → Option Phase
next_phase (returned none) Phase.handling = some (Phase.leaving none)
next_phase (returned (some e)) Phase.handling = some (Phase.reporting e)
next_phase (panicked v) Phase.handling = some (Phase.leaving (some v))
next_phase (returned _) (Phase.reporting e) = some (Phase.leaving none)
next_phase (panicked v) (Phase.reporting e) = some (Phase.leaving (some v))
next_phase o (Phase.leaving none) = none
next_phase o (Phase.leaving (some v)) = some (Phase.reporting_panic (panic_error v))
next_phase o (Phase.reporting_panic e) = none

-- The n-th goroutine: its phase, and the goroutines once it has gone on.
unfoldable pub phase_at : ℕ → List Worker → Option Phase
phase_at n [] = none
phase_at zero (x ∷ xs) = some x.phase
phase_at (suc n) (x ∷ xs) = phase_at n xs

unfoldable pub go_on : ℕ → Outcome → List Worker → List Worker
unfolding next_phase
go_on n o [] = []
go_on zero o (x ∷ xs) = elim (next_phase o x.phase) [
  | none ↦ xs
  | some p ↦ record x { phase = p } ∷ xs
]
go_on (suc n) o (x ∷ xs) = x ∷ go_on n o xs

-- A phase that begins with the receive from the channel.
unfoldable pub receives : Phase → Bool
receives (Phase.leaving _) = true
receives _ = false

-- One step of the n-th goroutine in runObserver. The receive from an empty channel blocks.
unfoldable pub run_observer : ℕ → Outcome → Slots → Slots
unfolding phase_at go_on receives
run_observer n o q = elim (phase_at n q.workers) [
  | none ↦ q
  | some p ↦
      if receives p
      then if eqb q.held 0 then q else record q { held = q.held - 1; workers = go_on n o q.workers }
      else record q { workers = go_on n o q.workers }
]

module _ {W : Type 0} (slots : Cell W Slots) where
  -- Observer.match, from the cleared context.
  unfoldable pub match_observer : Observer W → Rule W
  unfolding clear_match match_each
  match_observer o s = match_each o.rules no_match (record s { context = clear_match s.context })

  abbrev pub job_for : Observer W → ℕ → Event → Job
  job_for o h e = record { observer = observer_name o.name; handler = h; event = e }

  -- The body of the loop of dispatchObservers, for an event that is not nil.
  unfoldable pub observe : Event → Observer W → State W → State W
  unfolding match_observer enqueue observer_name
  observe e o s = elim o.handler [
    | none ↦ s
    | some h ↦
        let (m, ok, s') = match_observer o s in
        if ok
        then record s' {
          world = slots.write (enqueue (job_for o h e) (slots.read s'.world)) s'.world;
        }
        else s'
  ]

  unfoldable pub observe_all : Event → List (Observer W) → State W → State W
  unfolding observe
  observe_all e [] s = s
  observe_all e (o ∷ os) s = observe_all e os (observe e o s)

  -- dispatchObservers
  unfoldable pub dispatch_observers : List (Observer W) → State W → State W
  unfolding observe_all clear_match
  dispatch_observers os s = elim s.context.event [
    | none ↦ s
    | some e ↦ let s' = observe_all e os s in record s' { context = clear_match s'.context }
  ]

-- The goroutines in front of the receive: those in a handler, in the report of what it returned, and
-- before the deferred function.
abbrev pub holds : Phase → ℕ
holds (Phase.reporting_panic _) = 0
holds _ = 1

abbrev pub holders : List Worker → ℕ
holders [] = 0
holders (x ∷ xs) = holds x.phase + holders xs

-- Each of them has one value in the channel, and there are no more of them than the channel holds.
abbrev pub HasRoom : Slots → Type 0
HasRoom q = (holders q.workers ≡ q.held) × (holders q.workers ≤ q.capacity)

holders-append :
    (xs : List Worker) (x : Worker) → holders (xs ++ x ∷ []) ≡ holders xs + holds x.phase
holders-append [] x = omega arith
holders-append (y ∷ xs) x = omega (arith, holders-append xs x)

pub enqueue-HasRoom : (job : Job) (q : Slots) → HasRoom q → HasRoom (enqueue job q)
unfolding enqueue
enqueue-HasRoom job q h =
    ground (arith, h, holders-append q.workers (record { job = job; phase = Phase.handling }))

-- Whoever goes on keeps its value, but for the receive, which takes one.
holders-next :
    (o : Outcome) (p : Phase)
    → elim (next_phase o p) [ none ↦ 0 | some p' ↦ holds p' ] + (if receives p then 1 else 0)
      ≡ holds p
unfolding next_phase receives
holders-next (returned none) Phase.handling = refl
holders-next (returned (some e)) Phase.handling = refl
holders-next (panicked v) Phase.handling = refl
holders-next (returned _) (Phase.reporting e) = refl
holders-next (panicked v) (Phase.reporting e) = refl
holders-next o (Phase.leaving none) = refl
holders-next o (Phase.leaving (some v)) = refl
holders-next o (Phase.reporting_panic e) = refl

holders-go_on :
    (n : ℕ) (o : Outcome) (xs : List Worker) (p : Phase)
    → phase_at n xs ≡ some p
    → holders (go_on n o xs) + (if receives p then 1 else 0) ≡ holders xs
unfolding phase_at go_on
holders-go_on n o [] p e = absurd (ground (arith, e))
holders-go_on zero o (x ∷ xs) p e =
    let same : x.phase ≡ p = ground (arith, e) in ground (arith, same, holders-next o x.phase)
holders-go_on (suc n) o (x ∷ xs) p e = omega (arith, holders-go_on n o xs p e)

pub run_observer-HasRoom :
    (n : ℕ) (o : Outcome) (q : Slots) → HasRoom q → HasRoom (run_observer n o q)
unfolding run_observer
run_observer-HasRoom n o q h = elim (Option-cases (phase_at n q.workers)) [
  | inl e ↦ rw (e, run_observer) h
  | inr (p, e) ↦ ground (arith, e, h, holders-go_on n o q.workers p e)
]

-- A rule that leaves the channel of slots alone.
abbrev pub KeepsSlots : {W : Type 0} → Cell W Slots → Rule W → Type 0
KeepsSlots {W} slots rule = (s : State W) → slots.read (rule s).2.world ≡ slots.read s.world
