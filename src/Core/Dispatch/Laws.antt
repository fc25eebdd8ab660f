-- ===== src/Core/Dispatch/Laws.antt =====
-- core/app.go: what the loop of dispatch guarantees to a route, and what Recover guarantees to it.
use anybot.Base.{
  ◌≡◌, ap, ◌∙◌, true, none, some, List, [], ◌∷◌, arith, Text, Option, ◌≢◌, Option-cases, refl, inl,
  ◌⊎◌, inr,
}
use anybot.Core.Errors.{Error, Sentinel, is_error, panic_error}
use anybot.Core.Match.{no_match}
use anybot.Core.Rules.{match_each}
use anybot.Core.Runtime.{State, Handler, Middleware, Outcome, returned, panicked}
use anybot.Core.Event.{Event}
use anybot.Core.Context.{GoContext, clear_match}
use anybot.Core.Middleware.{recover}
use anybot.Core.Router.Chain.{chain-outermost}
use anybot.Core.Router.{Route, Router, snapshot}
use anybot.Core.Dispatch.{
  App, proceed, finish, settle, match_route, try_route, run_routes, Next, crash, call_route, enter,
  dispatch,
}

module _ {W : Type 0} (app : App W) where
  -- ErrPass hands the event on to the next route also where the handler has called Stop, and whatever
  -- else the error wraps; no error handler is called.
  pub settle-pass :
      (route : Text) (e : Error) (s : State W)
      → is_error (some e) Sentinel.pass ≡ true
      → settle app route (some e) s ≡ (proceed, s)
  unfolding settle
  settle-pass route e s h = rw h

  -- The two states agree in all that a route with a handler can see of what came before it.
  pub record Agree (s t : State W) : Type 0 where
    pub world : s.world ≡ t.world
    pub go : s.context.go ≡ t.context.go
    pub event : s.context.event ≡ t.context.event
    pub stopped : s.context.stopped ≡ t.context.stopped

  clear-Agree :
      (s t : State W)
      → Agree s t
      → ◌≡◌ {A = State W}
          (record s { context = clear_match s.context })
          (record t { context = clear_match t.context })
  unfolding clear_match
  clear-Agree s t a = ground (arith, a.world, a.go, a.event, a.stopped)

  match_route-isolated :
      (r : Route W) (s t : State W) → Agree s t → match_route r s ≡ match_route r t
  unfolding match_route
  match_route-isolated r s t a = ap (match_each r.rules no_match) (clear-Agree s t a)

  -- What a route does depends on the event, the Go context, the stop mark and the world alone: no match,
  -- variable or local value of an earlier route reaches its rules or its handler.
  pub try_route-isolated :
      (r : Route W) (h : Handler W) (s t : State W)
      → r.handler ≡ some h
      → Agree s t
      → try_route app r s ≡ try_route app r t
  unfolding try_route
  try_route-isolated r h s t e a = ground (arith, e, match_route-isolated r s t a)

  -- Recover turns every end of what it wraps into a return.
  recover_returns :
      (log : Text → W → W) (next : Handler W) (s : State W)
      → (e : Option Error) × ((recover log next s).0 ≡ returned e)
  unfolding recover
  recover_returns log next s = elim (Outcome-cases (next s).0) [
    | inl (e, f) ↦ (e, ground (arith, f))
    | inr (v, f) ↦ (some (panic_error v), ground (arith, f))
  ]
    where
      Outcome-cases :
          (o : Outcome) → ((e : Option Error) × (o ≡ returned e)) ⊎ ((v : Text) × (o ≡ panicked v))
      Outcome-cases (returned e) = inl (e, refl)
      Outcome-cases (panicked v) = inr (v, refl)

  settle-ne-crash :
      (route : Text) (e : Option Error) (s : State W) (v : Text)
      → (settle app route e s).0 ≢ crash v
  unfolding settle
  settle-ne-crash route none s v = ground arith
  settle-ne-crash route (some e) s v = ground arith

  module _ (log : Text → W → W) (ms : List (Middleware W))
      (first : app.router.middleware ≡ recover log ∷ ms) where
    call_route-ne-crash :
        (r : Route W) (h : Handler W) (s : State W) (v : Text) → (call_route app r h s).0 ≢ crash v
    unfolding call_route
    call_route-ne-crash r h s v =
        let (inner, same) = chain-outermost app.router (recover log) ms first r h in
        let (e, back) = recover_returns log inner s in
        rw (same, call_route)
          (ground (arith, back, settle-ne-crash r.name e (recover log inner s).1 v))

    try_route-ne-crash : (r : Route W) (s : State W) (v : Text) → (try_route app r s).0 ≢ crash v
    unfolding try_route
    try_route-ne-crash r s v = elim (Option-cases r.handler) [
      | inl e ↦ rw (e, try_route) (ground arith)
      | inr (h, e) ↦
          let (m, ok, s') = match_route r s in
          rw (e, try_route) (ground (arith, call_route-ne-crash r h (enter r m s') v))
    ]

    run_routes-Recover : (rs : List (Route W)) (s : State W) → (run_routes app rs s).0 ≡ none
    unfolding run_routes
    run_routes-Recover [] s = refl
    run_routes-Recover (r ∷ rs) s =
        go (try_route app r s).0 refl (run_routes-Recover rs (try_route app r s).1)
      where
        go :
            (n : Next)
            → (try_route app r s).0 ≡ n
            → (run_routes app rs (try_route app r s).1).0 ≡ none
            → (run_routes app (r ∷ rs) s).0 ≡ none
        go proceed e rest = rw (e, run_routes) rest
        go finish e rest = rw (e, run_routes)
        go (crash v) e rest = absurd (try_route-ne-crash r s v e)

snapshot-middleware : {W : Type 0} (r : Router W) → (snapshot r).1.middleware ≡ r.middleware
unfolding snapshot
snapshot-middleware r = ground arith

-- With Recover as the first global middleware no panic of a handler or of a middleware gets through:
-- dispatch comes back for every event, whatever the routes do.
pub dispatch-Recover :
    {W : Type 0} (app : App W) (log : Text → W → W) (ms : List (Middleware W))
    (go : Option GoContext) (event : Option Event) (w : W)
    → app.router.middleware ≡ recover log ∷ ms
    → (dispatch app go event w).0 ≡ none
unfolding dispatch
dispatch-Recover app log ms go event w first =
    run_routes-Recover (record app { router = (snapshot app.router).1 }) log ms
      (snapshot-middleware app.router ∙ first) _ _
