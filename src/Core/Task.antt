-- ===== src/Core/Task.antt =====
-- core/task.go: what becomes of the ends of the background tasks. The ends come in some order, one step
-- each, as setFatal makes them under its lock. The runner's context is over with an error or not.
pub mod Laws
use anybot.Base.{
  ℕ, zero, suc, ◌+◌, ◌-◌, ◌≤◌, ◌<◌, ◌≡◌, refl, sym, ap, ◌∙◌, subst, ◌≢◌, ◌↔◌, ◌⊎◌, inl, inr, Bool,
  true, false, not, ◌&&◌, ◌||◌, Option, none, some, List, [], ◌∷◌, ◌++◌, map, arith, Bool-cases,
  Option-cases, Text, codes, if◌then◌else◌,
}
use anybot.Base.{is_empty, is_some}
use anybot.Core.Errors.{Error, Sentinel, sentinel, is_error, wrapped, panic_error}
use anybot.Core.Runtime.{Outcome, returned, panicked}

-- taskOptions, and the options that change them; none is a nil option.
pub record TaskOptions : Type 0 where
  pub critical : Bool
  pub immediate : Bool

-- TaskCritical and TaskImmediate
abbrev pub task_critical : TaskOptions → TaskOptions
task_critical o = record o { critical = true }

abbrev pub task_immediate : TaskOptions → TaskOptions
task_immediate o = record o { immediate = true }

unfoldable pub apply_options : List (Option (TaskOptions → TaskOptions)) → TaskOptions → TaskOptions
apply_options [] o = o
apply_options (none ∷ opts) o = apply_options opts o
apply_options (some f ∷ opts) o = apply_options opts (f o)

-- applyTaskOptions
unfoldable pub apply_task_options : List (Option (TaskOptions → TaskOptions)) → TaskOptions
unfolding apply_options
apply_task_options opts = apply_options opts (record { critical = false; immediate = false })

-- taskName
unfoldable pub task_name : Text → Text
task_name name = if is_empty name then codes "task" else name

-- The name and the options of a registeredTask.
pub record Task : Type 0 where
  pub name : Text
  pub options : TaskOptions

-- taskRunner: its context's error, its first fatal error, and the lines in the log.
pub record Runner : Type 0 where
  pub over : Option Sentinel
  pub problem : Option Error
  pub logged : List (Text × Error)

-- taskContextDone
unfoldable pub context_done : Option Sentinel → Error → Bool
unfolding is_error
context_done none e = false
context_done (some s) e =
    is_error (some e) Sentinel.canceled
    || is_error (some e) Sentinel.deadline_exceeded
    || is_error (some e) s

-- setFatal: a context that is over stays as it is.
unfoldable pub set_fatal : Option Error → Runner → Runner
set_fatal none r = r
set_fatal (some e) r = record r {
  problem = if is_some r.problem then r.problem else some e;
  over = elim r.over [ none ↦ some Sentinel.canceled | some s ↦ some s ];
}

-- call: a panic is an error.
unfoldable pub call_error : Outcome → Option Error
call_error (returned e) = e
call_error (panicked v) = some (panic_error v)

-- The error that a critical task's end is reported as.
abbrev pub task_failed : Task → Error → Error
task_failed t e = wrapped (codes "anybot: task " ++ (t.name ++ codes " failed: ")) e

-- handleTaskError
unfoldable pub handle_task_error : Task → Option Error → Runner → Bool × Runner
unfolding context_done set_fatal
handle_task_error t none r = (false, r)
handle_task_error t (some e) r =
    if context_done r.over e
    then (false, r)
    else let r' : Runner = record r { logged = r.logged ++ (t.name, e) ∷ [] } in
      if t.options.critical then (true, set_fatal (some (task_failed t e)) r') else (false, r')

-- runOnce, when the task's function has ended.
unfoldable pub end_once : Task → Outcome → Runner → Runner
unfolding call_error handle_task_error
end_once t o r = (handle_task_error t (call_error o) r).1

-- runEvery on the ends of its calls, in order; the calls that did not take place are left.
unfoldable pub run_every : Task → List Outcome → Runner → List Outcome × Runner
unfolding call_error handle_task_error
run_every t [] r = ([], r)
run_every t (o ∷ os) r =
    let (stop, r') = handle_task_error t (call_error o) r in
    let rest = run_every t os r' in if stop then (os, r') else rest

-- The ends of many tasks' calls, in the order in which they come.
unfoldable pub run_ends : List (Task × Outcome) → Runner → Runner
unfolding end_once
run_ends [] r = r
run_ends ((t, o) ∷ ends) r = run_ends ends (end_once t o r)
