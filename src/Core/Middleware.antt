-- ===== src/Core/Middleware.antt =====
-- core/middleware.go and core/security.go: the middleware of the framework. Logging is an effect on
-- the world that the caller gives.
pub mod RateLimit
pub mod Quota
use anybot.Core.Errors.{Error, Sentinel, sentinel, panic_error}
use anybot.Core.Message.{Value}
use anybot.Core.Context.{
  Context, GoContext, with_timeout, stop, user_id, is_private, is_group, text,
}
use anybot.Core.Runtime.{State, Handler, Middleware, Outcome, returned, panicked}
use anybot.Core.Rules.{string_set}
use anybot.Base.{List, Option, Text, ℕ, if◌then◌else◌, some, contains, Bool, none, suc, zero}

-- App.IsSuperUser of an id that is printed already, and Context.IsSuperUser.
unfoldable pub is_super_user : List Text → Context → Bool
is_super_user supers c = contains supers (user_id c)

module _ {W : Type 0} where
  -- `c.Stop()` on the state.
  unfoldable pub stop_state : State W → State W
  unfolding stop
  stop_state s = record s { context = stop s.context }

  -- `c.Stop(); return err`
  abbrev refuse : Option Error → State W → Outcome × State W
  refuse e s = (returned e, stop_state s)

  -- Recover: `log` writes the panic and the stack.
  unfoldable pub recover : (Text → W → W) → Middleware W
  unfolding stop_state
  recover log next s =
      let (outcome, s') = next s in
      elim outcome [
        | returned e ↦ (returned e, s')
        | panicked v ↦ refuse (some (panic_error v)) (record s' { world = log v s'.world })
      ]

  -- Trace: the line is written after a call that returns, and a panic goes on past it.
  unfoldable pub trace : (Option Error → Context → W → W) → Middleware W
  trace log next s =
      let (outcome, s') = next s in
      elim outcome [
        | returned e ↦ (returned e, record s' { world = log e s'.context s'.world })
        | panicked v ↦ (panicked v, s')
      ]

  -- Timeout: the original context comes back also after a panic.
  unfoldable pub timeout : ℕ → Middleware W
  timeout zero next s = next s
  timeout (suc n) next s =
      let original = s.context.go in
      let inner = record s {
        context = record (s.context) { go = with_timeout (suc n) original };
      } in
      let (outcome, s') = next inner in
      (outcome, record s' { context = record (s'.context) { go = original } })

  -- OnlyPrivate, OnlyGroup
  unfoldable pub only_private : Middleware W
  unfolding stop_state
  only_private next s = if is_private s.context then next s else refuse none s

  unfoldable pub only_group : Middleware W
  unfolding stop_state
  only_group next s = if is_group s.context then next s else refuse none s

  -- SuperUser
  unfoldable pub super_user : List Value → Middleware W
  unfolding stop_state
  super_user ids next s =
      if contains (string_set ids) (user_id s.context)
      then next s
      else refuse (some (sentinel Sentinel.unauthorized)) s

  -- RequireSuperUser, with the App's list.
  unfoldable pub require_super_user : List Text → Middleware W
  unfolding stop_state
  require_super_user supers next s =
      if is_super_user supers s.context
      then next s
      else refuse (some (sentinel Sentinel.unauthorized)) s
