-- ===== src/Core/Runtime.antt =====
-- core/route.go: what a rule, a handler and a middleware are. They are Go functions of the context,
-- which may change it and the world `W` outside it (stores, logs, connections, their own variables).
use anybot.Base.{Bool, Option, Text, ◌≡◌}
use anybot.Core.Errors.{Error}
use anybot.Core.Match.{Match}
use anybot.Core.Context.{Context}

pub record State (W : Type 0) : Type 0 where
  pub context : Context
  pub world : W

-- How a call of a handler ends: with an error, which may be nil, or with a panic.
pub data Outcome : Type 0 where
  returned : Option Error → Outcome
  panicked : Text → Outcome

module _ (W : Type 0) where
  abbrev pub Rule : Type 0
  Rule = State W → Match × Bool × State W

  abbrev pub Handler : Type 0
  Handler = State W → Outcome × State W

  abbrev pub Middleware : Type 0
  Middleware = Handler → Handler

-- A variable of the program that stands in the world: how it is read and written. Writing it and
-- reading it back is the law that the code relies on.
pub record Cell (W : Type 0) (A : Type 0) : Type 0 where
  pub read : W → A
  pub write : A → W → W
  pub read-write : (a : A) (w : W) → read (write a w) ≡ a
