-- ===== src/Core/Dispatch/Guards.antt =====
-- core/middleware.go under dispatch: a guard that refuses ends the event before the handler.
use anybot.Base.{◌≡◌, ◌∙◌, false, some, List, [], ◌∷◌, arith, Text}
use anybot.Core.Errors.{Sentinel, sentinel, is_error}
use anybot.Core.Runtime.{State, Handler, Middleware, returned}
use anybot.Core.Middleware.{require_super_user, is_super_user, stop_state}
use anybot.Core.Router.{Route, chain}
use anybot.Core.Router.Chain.{chain-outermost}
use anybot.Core.Dispatch.{App, finish, settle, call_route}

refused :
    {W : Type 0} (supers : List Text) (next : Handler W) (s : State W)
    → is_super_user supers s.context ≡ false
    → require_super_user supers next s
      ≡ (returned (some (sentinel Sentinel.unauthorized)), stop_state s)
unfolding require_super_user
refused supers next s h = rw h

settle_unauthorized :
    {W : Type 0} (app : App W) (route : Text) (s : State W)
    → app.error_handlers ≡ []
    → settle app route (some (sentinel Sentinel.unauthorized)) (stop_state s) ≡ (
      finish,
      record (stop_state s) {
        world = app.log_error route (sentinel Sentinel.unauthorized) s.world;
      },
    )
unfolding settle is_error stop_state
settle_unauthorized app route s none_set = ground (arith, none_set)

-- With RequireSuperUser as the first global middleware, and no error handler, the event of another user
-- ends at the first route that it matches: the handler does not run, and all that changes is the stop mark and the
-- line in the log.
pub call_route-unauthorized :
    {W : Type 0} (app : App W) (supers : List Text) (ms : List (Middleware W)) (r : Route W)
    (h : Handler W) (s : State W)
    → app.router.middleware ≡ require_super_user supers ∷ ms
    → app.error_handlers ≡ []
    → is_super_user supers s.context ≡ false
    → call_route app r h s ≡ (
      finish,
      record (stop_state s) {
        world = app.log_error r.name (sentinel Sentinel.unauthorized) s.world;
      },
    )
unfolding call_route
call_route-unauthorized app supers ms r h s first quiet other =
    let (inner, same) = chain-outermost app.router (require_super_user supers) ms first r h in
    let ends : chain app.router r h s
        ≡ (returned (some (sentinel Sentinel.unauthorized)), stop_state s) =
      (λ i. same i s) ∙ refused supers inner s other in
    ground (arith, ends, settle_unauthorized app r.name s quiet)
