-- ===== src/Core/Tests.antt =====
-- Runs of the runtime on small bots, and each theorem about it at a concrete input. The world is the log.
use anybot.Base.{
  ℕ, ◌≡◌, refl, true, false, none, some, List, [], ◌∷◌, ◌++◌, map, Text, codes, pos, contains, ◌==◌,
  inr, inl,
}
use mathlib.Core.List.{Perm}
use anybot.Core.Errors.{is_error, Sentinel, sentinel}
use anybot.Core.Event.{Event}
use anybot.Core.Match.{no_match}
use anybot.Core.Context.{user_id, background}
use anybot.Core.Runtime.{State, Handler, Middleware, Cell, returned, panicked}
use anybot.Core.Rules.{match_each, message_event}
use anybot.Core.Router.{
  set_priority, handle, on, root, child, Route, Router, new_router, snapshot, chain,
}
use anybot.Core.Router.Order.{IsRanked}
use anybot.Core.Router.Coherent.{Call, ons, handles, priorities, snapshots, run, snapshot-run}
use anybot.Core.Observer.{Slots}
use anybot.Core.Middleware.{recover, require_super_user, is_super_user, stop_state}
use anybot.Core.Dispatch.{App, finish, try_route, run_routes, call_route, dispatch}
use anybot.Core.Dispatch.Stops.{run_routes-stops}
use anybot.Core.Dispatch.Laws.{try_route-isolated, dispatch-Recover}
use anybot.Core.Dispatch.Guards.{call_route-unauthorized}

abbrev World : Type 0
World = List Text × Slots

abbrev slots : Cell World Slots
slots = record { read = λ w. w.1; write = λ q w. (w.0, q); read-write = λ q w. refl }

abbrev log : Text → World → World
log t w = (w.0 ++ t ∷ [], w.1)

abbrev quiet : World
quiet = ([], record { capacity = 2; held = 0; workers = []; dropped = [] })

-- A handler that writes a line and lets the event go on, and one that stops it.
abbrev says : Text → Handler World
says t s = (returned none, record s { world = log t s.world })

abbrev stops : Handler World
stops s = (returned (some (sentinel Sentinel.stop)), s)

abbrev breaks : Handler World
breaks s = (panicked (codes "boom"), s)

abbrev pub hello : Event
hello = record {
  id = codes "7";
  protocol = codes "onebot11";
  self_id = codes "42";
  kind = codes "message";
  detail = codes "private";
  sub_kind = [];
  user_id = codes "9";
  group_id = [];
  guild_id = [];
  channel_id = [];
  text = codes "/hello";
  message = [];
  raw = [];
  payload = none;
}

abbrev calls : List (Call World)
calls =
    ons root (some message_event ∷ [])
    ∷ ons root []
    ∷ handles 1 (some (says (codes "low")))
    ∷ snapshots
    ∷ handles 2 (some stops)
    ∷ priorities 2 (pos 5)
    ∷ []

-- What a run unfolds.
bot : Unit {0}
unfolding run snapshot new_router set_priority handle on try_route match_each chain is_error
bot = tt

-- The route that was made more important after a snapshot comes first in the next one.
raised : map (λ x. x.order) (snapshot (run new_router calls)).0 ≡ 2 ∷ 1 ∷ []
unfolding bot
raised = refl

snapshot-run_example :
    IsRanked (snapshot (run new_router calls)).0
    × Perm (run new_router calls).routes (snapshot (run new_router calls)).0
snapshot-run_example = snapshot-run calls

abbrev app_of : Router World → App World
app_of r = record {
  router = r;
  super_users = codes "1" ∷ [];
  error_handlers = [];
  log_error = λ route e w. log route w;
  observers = [];
  slots = slots;
}

abbrev route_of : ℕ → Handler World → Route World
route_of n h = record {
  router = root;
  name = codes "r";
  rules = [];
  handler = some h;
  middleware = [];
  priority = pos 0;
  order = n;
}

abbrev router_of : List (Middleware World) → Router World
router_of ms = record {
  routes = [];
  sorted = [];
  dirty = false;
  next_order = 0;
  middleware = ms;
  base_middle = [];
}

abbrev pub start : State World
start = record {
  context = record {
    go = background;
    event = some hello;
    match = no_match;
    route = none;
    values = [];
    match_vars = [];
    stopped = false;
  };
  world = quiet;
}

-- The state behind route `n`, with what stands in the log.
abbrev behind : ℕ → World → State World
behind n w = record start { context = record (start.context) { route = some n }; world = w }

run_routes-stops_example :
    let rs = route_of 1 (says (codes "a")) ∷ [] in
    let later = route_of 3 breaks ∷ [] in
    (run_routes (app_of (router_of [])) (rs ++ later) start
      ≡ run_routes (app_of (router_of [])) later (behind 1 (log (codes "a") quiet)))
    × (run_routes (app_of (router_of [])) (rs ++ route_of 2 stops ∷ later) start
        ≡ (none, behind 2 (log (codes "a") quiet)))
unfolding bot
run_routes-stops_example =
    run_routes-stops (app_of (router_of [])) (route_of 1 (says (codes "a")) ∷ [])
      (route_of 3 breaks ∷ []) (route_of 2 stops) start (behind 1 (log (codes "a") quiet))
      (behind 2 (log (codes "a") quiet))
      (_, inr (inr (none, _, (says (codes "a"), _, _, refl, refl, refl), (refl, refl))), refl)
      (some (sentinel Sentinel.stop), _, (stops, _, _, refl, refl, refl), (refl, inl (refl, refl)))

try_route-isolated_example :
    try_route (app_of (router_of [])) (route_of 2 (says (codes "b"))) (behind 1 quiet)
    ≡ try_route (app_of (router_of [])) (route_of 2 (says (codes "b"))) start
try_route-isolated_example =
    try_route-isolated (app_of (router_of [])) (route_of 2 (says (codes "b"))) (says (codes "b"))
      (behind 1 quiet) start refl (record { world = refl; go = refl; event = refl; stopped = refl })

abbrev recovering : Router World
recovering = record (router_of (recover (λ v w. log v w) ∷ [])) {
  routes = route_of 1 breaks ∷ [];
  dirty = true;
}

dispatch-Recover_example : (dispatch (app_of recovering) none (some hello) quiet).0 ≡ none
dispatch-Recover_example =
    dispatch-Recover (app_of recovering) (λ v w. log v w) [] none (some hello) quiet refl

call_route-unauthorized_example :
    call_route
      (app_of (router_of (require_super_user (codes "1" ∷ []) ∷ [])))
      (route_of 1 breaks)
      breaks
      start
    ≡ (finish, record (stop_state start) { world = log (codes "r") quiet })
unfolding is_super_user contains ◌==◌ user_id
call_route-unauthorized_example =
    call_route-unauthorized (app_of (router_of (require_super_user (codes "1" ∷ []) ∷ [])))
      (codes "1" ∷ []) [] (route_of 1 breaks) breaks start refl refl refl

abbrev nested : Router World
nested = record (router_of (require_super_user [] ∷ [])) {
  base_middle = (recover (λ v w. w) ∷ []) ∷ [];
}

abbrev grouped : Route World
grouped = record (route_of 1 stops) { router = child 0 [] root }
