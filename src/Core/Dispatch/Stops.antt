-- ===== src/Core/Dispatch/Stops.antt =====
-- core/app.go: which routes the loop of dispatch runs.
use anybot.Base.{
  ◌≡◌, ap, ◌∙◌, ◌⊎◌, inl, inr, true, false, Option, none, some, List, [], ◌∷◌, ◌++◌, arith, Text,
}
use anybot.Core.Errors.{Error, Sentinel, is_error}
use anybot.Core.Match.{Match}
use anybot.Core.Runtime.{State, Handler, returned}
use anybot.Core.Router.{Route, chain}
use anybot.Core.Dispatch.{
  App, proceed, finish, settle, match_route, try_route, run_routes, call_route, enter, handle_error,
}

module _ {W : Type 0} (app : App W) where
  -- The rules of the route hold, and its chain, called with the match, returns with `e` in state `u`.
  abbrev pub Answers : Route W → State W → Option Error → State W → Type 0
  Answers r s e u =
      (h : Handler W) × (m : Match) × (t : State W) × (r.handler ≡ some h)
      × (match_route r s ≡ (m, true, t))
      × (chain app.router r h (enter r m t) ≡ (returned e, u))

  -- What ends the event: Stop was called and no error came back; ErrStop; or another error than ErrPass,
  -- behind whose error handlers the context is stopped.
  abbrev pub EndsWith : Text → Option Error → State W → State W → Type 0
  EndsWith name none u v = (u.context.stopped ≡ true) × (u ≡ v)
  EndsWith name (some e) u v =
      (is_error (some e) Sentinel.pass ≡ false)
      × (((is_error (some e) Sentinel.stop ≡ true) × (u ≡ v))
          ⊎ ((is_error (some e) Sentinel.stop ≡ false)
              × (handle_error app name e u ≡ v)
              × (v.context.stopped ≡ true)))

  -- What leaves it to the next route: no error and no Stop; ErrPass, also after Stop; or another error,
  -- behind whose handlers the context is not stopped.
  abbrev pub LeavesWith : Text → Option Error → State W → State W → Type 0
  LeavesWith name none u v = (u.context.stopped ≡ false) × (u ≡ v)
  LeavesWith name (some e) u v =
      ((is_error (some e) Sentinel.pass ≡ true) × (u ≡ v))
      ⊎ ((is_error (some e) Sentinel.pass ≡ false)
          × (is_error (some e) Sentinel.stop ≡ false)
          × (handle_error app name e u ≡ v)
          × (v.context.stopped ≡ false))

  abbrev pub Ends : Route W → State W → State W → Type 0
  Ends r s v = (e : Option Error) × (u : State W) × Answers r s e u × EndsWith r.name e u v

  abbrev pub Leaves : Route W → State W → State W → Type 0
  Leaves r s v =
      ((r.handler ≡ none) × (s ≡ v))
      ⊎ (((h : Handler W) × (m : Match) × (r.handler ≡ some h) × (match_route r s ≡ (m, false, v)))
          ⊎ ((e : Option Error) × (u : State W) × Answers r s e u × LeavesWith r.name e u v))

  -- The routes `rs` leave the event to what follows them, and take the state from `s` to `t`.
  abbrev pub Passes : List (Route W) → State W → State W → Type 0
  Passes [] s t = s ≡ t
  Passes (r ∷ rs) s t = (u : State W) × Leaves r s u × Passes rs u t

  settle-EndsWith :
      (name : Text) (e : Option Error) (u v : State W)
      → EndsWith name e u v
      → settle app name e u ≡ (finish, v)
  unfolding settle
  settle-EndsWith name none u v (stopped, same) = ground (arith, stopped, same)
  settle-EndsWith name (some e) u v (pass, inl (stop, same)) = ground (arith, pass, stop, same)
  settle-EndsWith name (some e) u v (pass, inr (stop, handled, stopped)) =
      ground (arith, pass, stop, handled, stopped)

  settle-LeavesWith :
      (name : Text) (e : Option Error) (u v : State W)
      → LeavesWith name e u v
      → settle app name e u ≡ (proceed, v)
  unfolding settle
  settle-LeavesWith name none u v (stopped, same) = ground (arith, stopped, same)
  settle-LeavesWith name (some e) u v (inl (pass, same)) = ground (arith, pass, same)
  settle-LeavesWith name (some e) u v (inr (pass, stop, handled, stopped)) =
      ground (arith, pass, stop, handled, stopped)

  try_route-Answers :
      (r : Route W) (s u : State W) (e : Option Error)
      → Answers r s e u
      → try_route app r s ≡ settle app r.name e u
  unfolding try_route call_route
  try_route-Answers r s u e (h, m, t, has, matches, returns) = ground (arith, has, matches, returns)

  try_route-Leaves : (r : Route W) (s v : State W) → Leaves r s v → try_route app r s ≡ (proceed, v)
  unfolding try_route
  try_route-Leaves r s v (inl (e, same)) = ground (arith, e, same)
  try_route-Leaves r s v (inr (inl (h, m, has, matches))) = ground (arith, has, matches)
  try_route-Leaves r s v (inr (inr (e, u, answers, leaves))) =
      try_route-Answers r s u e answers ∙ settle-LeavesWith r.name e u v leaves

  run-Passes :
      (rs later : List (Route W)) (s t : State W)
      → Passes rs s t
      → run_routes app (rs ++ later) s ≡ run_routes app later t
  unfolding run_routes
  run-Passes [] later s t e = ap (run_routes app later) e
  run-Passes (r ∷ rs) later s t (u, e, p) =
      ground (arith, try_route-Leaves r s u e, run-Passes rs later u t p)

  run_routes-Ends :
      (later : List (Route W)) (r : Route W) (t v : State W)
      → Ends r t v
      → run_routes app (r ∷ later) t ≡ (none, v)
  unfolding run_routes
  run_routes-Ends later r t v (e, u, answers, over) =
      ground (arith, try_route-Answers r t u e answers, settle-EndsWith r.name e u v over)

  -- Routes that have no handler, whose rules fail, whose chain returns ErrPass, or whose chain returns
  -- nothing or another error than ErrStop with the context not stopped behind the error handlers, leave
  -- the event to the routes behind them. Once a route ends the event, by Stop without an error, by
  -- ErrStop, or by another error than ErrPass behind whose handlers the context is stopped, the routes
  -- behind it do not run: the result is that of the route, whatever they are.
  pub run_routes-stops :
      (rs later : List (Route W)) (r : Route W) (s t v : State W)
      → Passes rs s t
      → Ends r t v
      → (run_routes app (rs ++ later) s ≡ run_routes app later t)
        × (run_routes app (rs ++ r ∷ later) s ≡ (none, v))
  run_routes-stops rs later r s t v p over = (
    run-Passes rs later s t p,
    run-Passes rs (r ∷ later) s t p ∙ run_routes-Ends later r t v over,
  )
