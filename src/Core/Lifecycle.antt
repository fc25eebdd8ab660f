-- ===== src/Core/Lifecycle.antt =====
-- core/lifecycle.go, and Run of core/app.go without workers: the order of the hooks, of the tasks and of
-- the adapter's states. The adapter's Start and the tasks are arguments, with whether the outer context
-- is over when Start returns. A deferred call runs where the function ends.
pub mod Laws
use anybot.Base.{
  ℕ, zero, suc, ◌+◌, ◌-◌, ◌≤◌, ◌<◌, ◌≡◌, refl, sym, ap, ◌∙◌, subst, ◌≢◌, ◌↔◌, ◌⊎◌, inl, inr, Bool,
  true, false, not, ◌&&◌, ◌||◌, Option, none, some, List, [], ◌∷◌, ◌++◌, map, arith, Bool-cases,
  Option-cases, Text, codes, if◌then◌else◌,
}
use mathlib.Core.List.{reverse}
use anybot.Core.Errors.{Error, wrapped, plain}
use anybot.Core.Adapter.{Kind, AdapterState}

-- A hook changes the world, and ends with an error or without one.
abbrev pub Hook : Type 0 → Type 0
Hook W = W → Option Error × W

-- What Run uses of the App and of what it is given.
pub record Parts (W : Type 0) : Type 0 where
  pub protocol : Text
  pub start_hooks : List (Option (Hook W))
  pub ready_hooks : List (Option (Hook W))
  pub shutdown_hooks : List (Option (Hook W))
  -- updateAdapterState, and the log of a failed shutdown hook
  pub report : AdapterState → W → W
  pub log_shutdown : Error → W → W
  -- the adapter's Start, startTasks, and the deferred end of the tasks
  pub start : Hook W
  pub start_tasks : W → W
  pub end_tasks : W → W
  pub fatal : W → Option Error
  pub is_over : W → Bool

-- The state that bindAdapterState reports, and the one of stopAdapterState.
unfoldable pub starting_state : Text → AdapterState
starting_state protocol = record {
  protocol = protocol;
  kind = Kind.starting;
  action_ready = false;
  transport = [];
  reason = codes "adapter starting";
  problem = none;
  at = 0;
}

unfoldable pub stopped_state : Text → Option Error → AdapterState
stopped_state protocol e = record {
  protocol = protocol;
  kind = Kind.stopped;
  action_ready = false;
  transport = [];
  reason = codes "adapter stopped";
  problem = e;
  at = 0;
}

module _ {W : Type 0} where
  -- OnStart, OnReady and OnShutdown
  unfoldable pub add_hook : Option (Hook W) → List (Option (Hook W)) → List (Option (Hook W))
  add_hook none hooks = hooks
  add_hook (some hook) hooks = hooks ++ some hook ∷ []

  -- runHooks
  unfoldable pub run_hooks : List (Option (Hook W)) → Hook W
  run_hooks [] w = (none, w)
  run_hooks (none ∷ hooks) w = run_hooks hooks w
  run_hooks (some hook ∷ hooks) w =
      let (e, w') = hook w in elim e [ none ↦ run_hooks hooks w' | some x ↦ (some x, w') ]

  -- The deferred shutdown hooks.
  unfoldable pub shut_down : Parts W → W → W
  unfolding run_hooks
  shut_down p w =
      let (e, w') = run_hooks (reverse p.shutdown_hooks) w in
      elim e [ none ↦ w' | some x ↦ p.log_shutdown x w' ]

  -- Run from the ready hooks on, with the deferred end of the tasks.
  unfoldable pub serve : Parts W → Hook W
  unfolding run_hooks
  serve p w =
      let (e, w1) = run_hooks p.ready_hooks w in
      elim e [
        | some x ↦ (some (wrapped (codes "ready hook: ") x), w1)
        | none ↦
            let (ended, w2) = p.start (p.start_tasks w1) in
            let result : Option Error = elim (p.fatal w2) [
              | some f ↦ if p.is_over w2 then ended else some f
              | none ↦ ended
            ] in
            (result, p.end_tasks w2)
      ]

  -- Run behind bindAdapterState.
  unfoldable pub run_bound : Parts W → Hook W
  unfolding run_hooks serve shut_down
  run_bound p w =
      let (e, w1) = run_hooks p.start_hooks w in
      elim e [
        | some x ↦ (some (wrapped (codes "start hook: ") x), w1)
        | none ↦ let (result, w2) = serve p w1 in (result, shut_down p w2)
      ]

  -- Run with no workers, of an App that has an adapter.
  unfoldable pub run_app : Parts W → Hook W
  unfolding run_bound
  run_app p w =
      let (result, w1) = run_bound p (p.report (starting_state p.protocol) w) in
      (result, p.report (stopped_state p.protocol result) w1)
