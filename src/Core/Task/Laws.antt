-- ===== src/Core/Task/Laws.antt =====
-- core/task.go: only a critical task can end the run, and the first one that fails is reported.
use anybot.Base.{
  ◌≡◌, refl, ◌∙◌, Bool, true, false, not, ◌&&◌, none, some, List, [], ◌∷◌, ◌++◌, arith,
}
use anybot.Base.{all, is_some}
use anybot.Core.Errors.{Error}
use anybot.Core.Runtime.{Outcome}
use anybot.Core.Task.{
  Task, Runner, context_done, set_fatal, call_error, task_failed, handle_task_error, end_once,
  run_ends,
}

-- A call's end that stops the run: an error of a critical task.
abbrev pub fails : Task × Outcome → Bool
fails (t, o) = t.options.critical && is_some (call_error o)

end_once-harmless :
    (t : Task) (o : Outcome) (r : Runner)
    → fails (t, o) ≡ false
    → ((end_once t o r).problem ≡ r.problem) × ((end_once t o r).over ≡ r.over)
unfolding end_once handle_task_error
end_once-harmless t o r h = ground (arith, h)

run_ends-harmless :
    (ends : List (Task × Outcome)) (r : Runner)
    → all (λ x. not (fails x)) ends ≡ true
    → ((run_ends ends r).problem ≡ r.problem) × ((run_ends ends r).over ≡ r.over)
unfolding run_ends
run_ends-harmless [] r h = (refl, refl)
run_ends-harmless (x ∷ ends) r h =
    let first = end_once-harmless x.0 x.1 r (ground (arith, h)) in
    let rest = run_ends-harmless ends (end_once x.0 x.1 r) (ground (arith, h)) in
    (rest.0 ∙ first.0, rest.1 ∙ first.1)

end_once-kept :
    (t : Task) (o : Outcome) (r : Runner) (e : Error)
    → r.problem ≡ some e
    → (end_once t o r).problem ≡ some e
unfolding end_once handle_task_error set_fatal
end_once-kept t o r e h = ground (arith, h)

run_ends-kept :
    (ends : List (Task × Outcome)) (r : Runner) (e : Error)
    → r.problem ≡ some e
    → (run_ends ends r).problem ≡ some e
unfolding run_ends
run_ends-kept [] r e h = h
run_ends-kept (x ∷ ends) r e h =
    run_ends-kept ends (end_once x.0 x.1 r) e (end_once-kept x.0 x.1 r e h)

end_once-fails :
    (t : Task) (o : Outcome) (r : Runner) (e : Error)
    → r.problem ≡ none
    → r.over ≡ none
    → t.options.critical ≡ true
    → call_error o ≡ some e
    → (end_once t o r).problem ≡ some (task_failed t e)
unfolding end_once handle_task_error set_fatal context_done
end_once-fails t o r e h k c f = ground (arith, f, k, c, h)

run_ends-append :
    (xs ys : List (Task × Outcome)) (r : Runner)
    → run_ends (xs ++ ys) r ≡ run_ends ys (run_ends xs r)
unfolding run_ends
run_ends-append [] ys r = refl
run_ends-append (x ∷ xs) ys r = run_ends-append xs ys (end_once x.0 x.1 r)

-- While the context is not over, the run's error is that of the first critical task that ends with an
-- error or a panic, whatever other tasks end before it and whichever tasks end after it.
run_ends-first :
    (before after : List (Task × Outcome)) (t : Task) (o : Outcome) (r : Runner) (e : Error)
    → r.problem ≡ none
    → r.over ≡ none
    → all (λ x. not (fails x)) before ≡ true
    → t.options.critical ≡ true
    → call_error o ≡ some e
    → (run_ends (before ++ (t, o) ∷ after) r).problem ≡ some (task_failed t e)
unfolding run_ends
run_ends-first before after t o r e h k b c f =
    let (same, still) = run_ends-harmless before r b in
    rw (run_ends-append before ((t, o) ∷ after) r) (
      run_ends-kept after (end_once t o (run_ends before r)) (task_failed t e)
        (end_once-fails t o (run_ends before r) e (same ∙ h) (still ∙ k) c f))
