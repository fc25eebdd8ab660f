-- ===== src/Core/Lifecycle/Laws.antt =====
-- core/lifecycle.go and core/app.go: which hooks run, and what Run leaves behind.
use anybot.Base.{
  inl, inr, refl, ap, ◌∙◌, Option-cases, ◌≡◌, sym, subst, Option, none, some, List, [], ◌∷◌, ◌++◌,
  arith, codes,
}
use mathlib.Core.List.{reverse, reverse-append}
use anybot.Core.Errors.{Error, wrapped}
use anybot.Core.Lifecycle.{
  Hook, Parts, run_hooks, starting_state, stopped_state, shut_down, serve, run_bound, run_app,
}

module _ {W : Type 0} where
  -- The hooks run without an error one after the other.
  abbrev pub Runs : List (Option (Hook W)) → W → W → Type 0
  Runs [] w v = w ≡ v
  Runs (none ∷ hooks) w v = Runs hooks w v
  Runs (some hook ∷ hooks) w v = (u : W) × (hook w ≡ (none, u)) × Runs hooks u v

  -- The hooks behind the first one that fails do not run, and its error is that of runHooks.
  run_hooks-fails :
      (before after : List (Option (Hook W))) (hook : Hook W) (e : Error) (w v u : W)
      → Runs before w v
      → hook v ≡ (some e, u)
      → run_hooks (before ++ some hook ∷ after) w ≡ (some e, u)
  unfolding run_hooks
  run_hooks-fails [] after hook e w v u h f =
      subst (λ x. run_hooks (some hook ∷ after) x ≡ (some e, u)) (sym h) (ground (arith, f))
  run_hooks-fails (none ∷ before) after hook e w v u h f =
      run_hooks-fails before after hook e w v u h f
  run_hooks-fails (some first ∷ before) after hook e w v u (x, g, h) f =
      ground (arith, g, run_hooks-fails before after hook e x v u h f)

  -- The hooks, given in the order of their registration, run from the one registered last to the first;
  -- once one fails, those registered before it do not run.
  abbrev pub run_one : Option (Hook W) → Hook W
  run_one none w = (none, w)
  run_one (some hook) w = hook w

  unfoldable pub unwind : List (Option (Hook W)) → Hook W
  unwind [] w = (none, w)
  unwind (hook ∷ later) w =
      let (e, w') = unwind later w in elim e [ none ↦ run_one hook w' | some x ↦ (some x, w') ]

  run_hooks-append :
      (hooks : List (Option (Hook W))) (hook : Option (Hook W)) (w : W)
      → run_hooks (hooks ++ hook ∷ []) w ≡ (
          let (e, w') = run_hooks hooks w in
          elim e [ none ↦ run_one hook w' | some x ↦ (some x, w') ])
  unfolding run_hooks
  run_hooks-append [] none w = refl
  run_hooks-append [] (some hook) w = ground arith
  run_hooks-append (none ∷ hooks) hook w = run_hooks-append hooks hook w
  run_hooks-append (some first ∷ hooks) hook w = elim (Option-cases (first w).0) [
    | inl e ↦ ground (arith, e, run_hooks-append hooks hook (first w).1)
    | inr (x, e) ↦ ground (arith, e)
  ]

  run_hooks-reverse :
      (hooks : List (Option (Hook W))) (w : W) → run_hooks (reverse hooks) w ≡ unwind hooks w
  unfolding unwind run_hooks
  run_hooks-reverse [] w = refl
  run_hooks-reverse (hook ∷ hooks) w =
      ap (λ h. run_hooks h w) (reverse-append (hook ∷ []) hooks)
      ∙ run_hooks-append (reverse hooks) hook w
      ∙ ap (λ (r : Option Error × W). elim r.0 [ none ↦ run_one hook r.1 | some x ↦ (some x, r.1) ])
          (run_hooks-reverse hooks w)

  -- Once the start hooks are through, the shutdown hooks run, whatever the ready hooks, the adapter and
  -- the tasks come to: from the one registered last to the first, until one fails, which is logged.
  -- The last thing that Run, without workers, does is to report that the adapter has stopped, with the
  -- error that Run returns, on which the shutdown hooks have no influence.
  pub run_app-stops :
      (p : Parts W) (w v : W)
      → run_hooks p.start_hooks (p.report (starting_state p.protocol) w) ≡ (none, v)
      → let (result, u) = serve p v in
        let (failed, u') = unwind p.shutdown_hooks u in
        run_app p w ≡ (
          result,
          p.report
              (stopped_state p.protocol result)
              (elim failed [ none ↦ u' | some x ↦ p.log_shutdown x u' ]),
        )
  unfolding run_app run_bound shut_down
  run_app-stops p w v e = ground (arith, e, run_hooks-reverse p.shutdown_hooks (serve p v).1)

  -- If a start hook fails, nothing else is started or shut down.
  pub run_app-fails :
      (p : Parts W) (e : Error) (w v : W)
      → run_hooks p.start_hooks (p.report (starting_state p.protocol) w) ≡ (some e, v)
      → run_app p w ≡ (
        some (wrapped (codes "start hook: ") e),
        p.report (stopped_state p.protocol (some (wrapped (codes "start hook: ") e))) v,
      )
  unfolding run_app run_bound
  run_app-fails p e w v f = ground (arith, f)
