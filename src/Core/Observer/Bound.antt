-- ===== src/Core/Observer/Bound.antt =====
-- core/observer.go: the channel bounds the handlers that run at once.
use anybot.Base.{
  ℕ, ◌≡◌, refl, sym, ◌∙◌, subst, Bool, true, false, Option, none, some, List, [], ◌∷◌,
  if◌then◌else◌,
}
use anybot.Base.{All}
use anybot.Core.Event.{Event}
use anybot.Core.Match.{Match, merge_match, no_match}
use anybot.Core.Runtime.{State, Rule, Cell, Outcome}
use anybot.Core.Context.{Context, clear_match}
use anybot.Core.Rules.{match_each}
use anybot.Core.Observer.{
  job_for, Observer, Job, Slots, enqueue, run_observer, match_observer, observe, observe_all,
  dispatch_observers, HasRoom, enqueue-HasRoom, run_observer-HasRoom, KeepsSlots,
}

-- What holds of each branch holds of the branching.
both :
    {X : Type 0} (P : X → Type 0) (x y : X) (b : Bool)
    → P x
    → P y
    → P (elim b [ true ↦ x | false ↦ y ])
both P x y true p q = p
both P x y false p q = q

both_if : {X : Type 0} (P : X → Type 0) (x y : X) (b : Bool) → P x → P y → P (if b then x else y)
both_if P x y true p q = p
both_if P x y false p q = q

either :
    {X A : Type 0} (P : X → Type 0) (x : X) (f : A → X) (o : Option A)
    → P x
    → ((a : A) → P (f a))
    → P (elim o [ none ↦ x | some a ↦ f a ])
either P x f none p q = p
either P x f (some a) p q = q a

module _ {W : Type 0} (slots : Cell W Slots) where
  abbrev Kept : Option (Rule W) → Type 0
  Kept none = Unit
  Kept (some rule) = KeepsSlots slots rule

  match_each-keeps :
      (rules : List (Option (Rule W))) (m : Match) (s : State W)
      → All Kept rules
      → slots.read (match_each rules m s).2.world ≡ slots.read s.world
  unfolding match_each
  match_each-keeps [] m s h = refl
  match_each-keeps (none ∷ rules) m s (_, h) = match_each-keeps rules m s h
  match_each-keeps (some rule ∷ rules) m s (k, h) =
      both (λ r. slots.read r.2.world ≡ slots.read s.world)
        (match_each rules (merge_match m (rule s).0) (rule s).2) (no_match, false, (rule s).2)
        (rule s).1 (match_each-keeps rules (merge_match m (rule s).0) (rule s).2 h ∙ k s) (k s)

  -- An observer whose rules leave the slots alone.
  abbrev pub IsQuiet : Observer W → Type 0
  IsQuiet o = All Kept o.rules

  match_observer-keeps :
      (o : Observer W) (s : State W)
      → IsQuiet o
      → slots.read (match_observer slots o s).2.world ≡ slots.read s.world
  unfolding match_observer
  match_observer-keeps o s k =
      match_each-keeps o.rules no_match (record s { context = clear_match s.context }) k

  write-HasRoom :
      (job : Job) (w : W)
      → HasRoom (slots.read w)
      → HasRoom (slots.read (slots.write (enqueue job (slots.read w)) w))
  write-HasRoom job w h =
      subst HasRoom (sym (slots.read-write (enqueue job (slots.read w)) w))
        (enqueue-HasRoom job (slots.read w) h)

  observe-HasRoom :
      (e : Event) (o : Observer W) (s : State W)
      → IsQuiet o
      → HasRoom (slots.read s.world)
      → HasRoom (slots.read (observe slots e o s).world)
  unfolding observe
  observe-HasRoom e o s k h =
      let s' = (match_observer slots o s).2 in
      let room : HasRoom (slots.read s'.world) =
        subst HasRoom (sym (match_observer-keeps o s k)) h in
      either (λ u. HasRoom (slots.read u.world)) s
        (λ j.
          if (match_observer slots o s).1
          then record s' {
            world = slots.write (enqueue (job_for slots o j e) (slots.read s'.world)) s'.world;
          }
          else s')
        o.handler h
        (λ j.
          both_if (λ u. HasRoom (slots.read u.world))
            (record s' {
              world = slots.write (enqueue (job_for slots o j e) (slots.read s'.world)) s'.world;
            })
            s' (match_observer slots o s).1 (write-HasRoom (job_for slots o j e) s'.world room)
            room)

  observe_all-HasRoom :
      (e : Event) (os : List (Observer W)) (s : State W)
      → All IsQuiet os
      → HasRoom (slots.read s.world)
      → HasRoom (slots.read (observe_all slots e os s).world)
  unfolding observe_all
  observe_all-HasRoom e [] s k h = h
  observe_all-HasRoom e (o ∷ os) s (k, ks) h =
      observe_all-HasRoom e os (observe slots e o s) ks (observe-HasRoom e o s k h)

  dispatch_observers-HasRoom :
      (os : List (Observer W)) (s : State W)
      → All IsQuiet os
      → HasRoom (slots.read s.world)
      → HasRoom (slots.read (dispatch_observers slots os s).world)
  unfolding dispatch_observers
  dispatch_observers-HasRoom os s k h =
      either (λ u. HasRoom (slots.read u.world)) s
        (λ e. let s' = observe_all slots e os s in record s' { context = clear_match s'.context })
        s.context.event h (λ e. observe_all-HasRoom e os s k h)

  -- What happens to the slots: an event is dispatched to the observers, or a goroutine takes a step.
  pub data Step : Type 0 where
    dispatched : Context → Step
    went_on : ℕ → Outcome → Step

  unfoldable pub step : List (Observer W) → Step → W → W
  unfolding dispatch_observers run_observer
  step os (dispatched c) w = (dispatch_observers slots os (record { context = c; world = w })).world
  step os (went_on n o) w = slots.write (run_observer n o (slots.read w)) w

  unfoldable pub steps : List (Observer W) → List Step → W → W
  unfolding step
  steps os [] w = w
  steps os (x ∷ xs) w = steps os xs (step os x w)

  -- However events and steps of the goroutines follow each other, where the observers' rules leave the
  -- channel alone: the goroutines that have not received from it, those in a handler among them, are as
  -- many as the values in it, and no more than it holds, if that is so at the start.
  pub steps-HasRoom :
      (os : List (Observer W)) (xs : List Step) (w : W)
      → All IsQuiet os
      → HasRoom (slots.read w)
      → HasRoom (slots.read (steps os xs w))
  unfolding steps
  steps-HasRoom os [] w k h = h
  steps-HasRoom os (dispatched c ∷ xs) w k h =
      steps-HasRoom os xs (step os (dispatched c) w) k
        (dispatch_observers-HasRoom os (record { context = c; world = w }) k h)
  steps-HasRoom os (went_on n o ∷ xs) w k h = steps-HasRoom os xs (step os (went_on n o) w) k (
      subst HasRoom (sym (slots.read-write (run_observer n o (slots.read w)) w))
        (run_observer-HasRoom n o (slots.read w) h))
