-- ===== src/Core/Dispatch.antt =====
-- core/app.go: dispatch of an event to the routes. The routes are those of one snapshot, and the
-- middleware is that of the router as it stands; a handler that registers routes meanwhile is not
-- modelled. A panic that no middleware recovers ends the process.
pub mod Laws
pub mod Stops
pub mod Guards
use anybot.Base.{List, false, Text, Option, none, ◌∷◌, if◌then◌else◌, some, []}
use anybot.Core.Errors.{Error, Sentinel, is_error}
use anybot.Core.Event.{Event}
use anybot.Core.Match.{Match, no_match}
use anybot.Core.Context.{clear_match, apply_match, GoContext, new_context}
use anybot.Core.Runtime.{Cell, State, Rule, Handler, returned, panicked}
use anybot.Core.Observer.{Observer, Slots, dispatch_observers}
use anybot.Core.Rules.{match_each}
use anybot.Core.Router.{Route, Router, chain, snapshot}

-- An error handler changes the context and the world; it does not panic.
abbrev pub ErrorHandler : Type 0 → Type 0
ErrorHandler W = Error → State W → State W

-- The part of App that dispatch reads. `log_error` is the logger, which is not the code's own.
pub record App (W : Type 0) : Type 0 where
  pub router : Router W
  pub super_users : List Text
  pub error_handlers : List (Option (ErrorHandler W))
  pub log_error : Text → Error → W → W
  pub observers : List (Observer W)
  pub slots : Cell W Slots

-- How the loop goes on after one route.
pub data Next : Type 0 where
  proceed finish : Next
  crash : Text → Next

module _ {W : Type 0} where
  -- The loop of handleError.
  unfoldable pub call_handlers : List (Option (ErrorHandler W)) → ErrorHandler W
  call_handlers [] e s = s
  call_handlers (none ∷ hs) e s = call_handlers hs e s
  call_handlers (some h ∷ hs) e s = call_handlers hs e (h e s)

  -- handleError: the log only where no handler is registered. `route` is the route's name.
  unfoldable pub handle_error : App W → Text → ErrorHandler W
  unfolding call_handlers
  handle_error app route e s = elim app.error_handlers [
    | [] ↦ record s { world = app.log_error route e s.world }
    | h ∷ hs ↦ call_handlers (h ∷ hs) e s
  ]

  -- The switch on the handler's error, and the test behind it.
  unfoldable pub settle : App W → Text → Option Error → State W → Next × State W
  unfolding handle_error
  settle app route none s = (if s.context.stopped then finish else proceed, s)
  settle app route (some e) s =
      if is_error (some e) Sentinel.pass
      then (proceed, s)
      else if is_error (some e) Sentinel.stop
      then (finish, s)
      else let s' = handle_error app route e s in
        (if s'.context.stopped then finish else proceed, s')

  -- route.match(c), from the cleared context.
  unfoldable pub match_route : Route W → Rule W
  unfolding clear_match
  match_route r s = match_each r.rules no_match (record s { context = clear_match s.context })

  -- applyMatch, and `c.stopped = false`.
  unfoldable pub enter : Route W → Match → State W → State W
  unfolding apply_match
  enter r m s =
      let c = apply_match r.order m s.context in record s { context = record c { stopped = false } }

  unfoldable pub call_route : App W → Route W → Handler W → State W → Next × State W
  unfolding settle
  call_route app r h s =
      let (outcome, s') = chain app.router r h s in
      elim outcome [ returned e ↦ settle app r.name e s' | panicked v ↦ (crash v, s') ]

  -- The body of dispatch's loop.
  unfoldable pub try_route : App W → Route W → State W → Next × State W
  unfolding match_route enter call_route
  try_route app r s = elim r.handler [
    | none ↦ (proceed, s)
    | some h ↦
        let (m, ok, s') = match_route r s in
        if ok then call_route app r h (enter r m s') else (proceed, s')
  ]

  -- The loop of dispatch, with the value of a panic that got through.
  unfoldable pub run_routes : App W → List (Route W) → State W → Option Text × State W
  run_routes app [] s = (none, s)
  run_routes app (r ∷ rs) s =
      let (n, s') = try_route app r s in
      elim n [ proceed ↦ run_routes app rs s' | finish ↦ (none, s') | crash v ↦ (some v, s') ]

  -- dispatch, behind the lock of the event's key. The snapshot may renew the router's cache.
  unfoldable pub dispatch :
      App W → Option GoContext → Option Event → W → Option Text × App W × State W
  unfolding run_routes
  dispatch app go event w =
      let s : State W = record { context = new_context go event; world = w } in
      let s' = dispatch_observers app.slots app.observers s in
      let (routes, router) = snapshot app.router in
      let app' : App W = record app { router = router } in
      let (crashed, s'') = run_routes app' routes s' in (crashed, app', s'')
