-- ===== src/Core/RunTests.antt =====
-- Each theorem about the adapter's state, the lifecycle and the tasks at a concrete input.
use anybot.Base.{
  ℕ, ◌≡◌, refl, Bool, true, false, Option, none, some, List, [], ◌∷◌, ◌++◌, Text, codes, arith,
}
use anybot.Core.Errors.{Error, plain}
use anybot.Core.Runtime.{returned, panicked}
use anybot.Core.Context.{Context, new_context}
use anybot.Core.Rules.{any_event}
use anybot.Core.Runtime.{Cell}
use anybot.Core.Observer.{Observer, Slots, HasRoom}
use anybot.Core.Observer.Bound.{Step, steps-HasRoom, steps, dispatched, went_on}
use anybot.Core.Adapter.{Kind, AdapterState, Board, wait_round}
use anybot.Core.Adapter.Waiting.{report, ask, moves, has, moves-wakes}
use anybot.Core.Lifecycle.{Hook, Parts, run_hooks, run_app, serve, starting_state, stopped_state}
use anybot.Core.Lifecycle.Laws.{run_app-stops, unwind}
use anybot.Core.Task.{Task, Runner}

abbrev state_of : Kind → AdapterState
state_of k = record {
  protocol = codes "onebot11";
  kind = k;
  action_ready = true;
  transport = [];
  reason = [];
  problem = none;
  at = 5;
}

abbrev board : Board ℕ
board = record {
  state = state_of Kind.starting;
  hooks = [];
  waiters = 3 ∷ [];
  closed = [];
  next_channel = 4;
}

moves-wakes_example :
    has 4
      (moves (ask 7 ∷ report 8 (state_of Kind.ready) ∷ ask 9 ∷ []) (wait_round 6 board).1).closed
    ≡ true
unfolding wait_round
moves-wakes_example = moves-wakes 4 6 8 (state_of Kind.ready) (ask 7 ∷ []) (ask 9 ∷ []) board refl

-- A hook writes a number; the world is what was written.
abbrev writes : ℕ → Option Error → Option (Hook (List ℕ))
writes n e = some (λ w. (e, w ++ n ∷ []))

abbrev parts : Parts (List ℕ)
parts = record {
  protocol = [];
  start_hooks = writes 1 none ∷ [];
  ready_hooks = writes 2 (some (plain [])) ∷ writes 3 none ∷ [];
  shutdown_hooks = writes 4 none ∷ writes 5 none ∷ [];
  report = λ s w. elim s.problem [ none ↦ w ++ 10 ∷ [] | some _ ↦ w ++ 11 ∷ [] ];
  log_shutdown = λ e w. w ++ 12 ∷ [];
  start = λ w. (none, w ++ 13 ∷ []);
  start_tasks = λ w. w ++ 14 ∷ [];
  end_tasks = λ w. w ++ 15 ∷ [];
  fatal = λ w. none;
  is_over = λ w. false;
}

parts_run : (run_app parts []).1 ≡ 10 ∷ 1 ∷ 2 ∷ 5 ∷ 4 ∷ 11 ∷ []
unfolding run_app stopped_state starting_state
parts_run = refl

run_app-stops_example :
    let (result, u) = serve parts (10 ∷ 1 ∷ []) in
    let (failed, u') = unwind parts.shutdown_hooks u in
    run_app parts [] ≡ (
      result,
      parts.report
          (stopped_state [] result)
          (elim failed [ none ↦ u' | some x ↦ parts.log_shutdown x u' ]),
    )
unfolding run_hooks starting_state
run_app-stops_example = run_app-stops parts [] (10 ∷ 1 ∷ []) refl

abbrev task : Text → Bool → Task
task name critical = record {
  name = name;
  options = record { critical = critical; immediate = false };
}

abbrev fresh : Runner
fresh = record { over = none; problem = none; logged = [] }

abbrev room : Cell Slots Slots
room = record { read = λ q. q; write = λ q w. q; read-write = λ q w. refl }

abbrev watcher : Observer Slots
watcher = record { name = []; rules = some any_event ∷ []; handler = some 1 }

abbrev one_slot : Slots
one_slot = record { capacity = 1; held = 0; workers = []; dropped = [] }

abbrev seen : Context
seen = new_context none (
    some (record {
      id = [];
      protocol = [];
      self_id = [];
      kind = [];
      detail = [];
      sub_kind = [];
      user_id = [];
      group_id = [];
      guild_id = [];
      channel_id = [];
      text = [];
      message = [];
      raw = [];
      payload = none;
    }))

-- The handler panics, and its report is not over when the next event comes.
abbrev room_steps : List (Step room)
room_steps =
    dispatched seen
    ∷ went_on 0 (panicked (codes "x"))
    ∷ went_on 0 (returned none)
    ∷ dispatched seen
    ∷ []

steps-HasRoom_example : HasRoom (steps room (watcher ∷ watcher ∷ []) room_steps one_slot)
unfolding any_event
steps-HasRoom_example =
    steps-HasRoom room (watcher ∷ watcher ∷ []) room_steps one_slot
      (((λ s. refl), tt), (((λ s. refl), tt), tt)) (refl, omega arith)
