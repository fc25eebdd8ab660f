-- ===== src/Core/Router/Chain.antt =====
-- core/route.go: the middleware round a route's handler.
use anybot.Base.{◌≡◌, refl, sym, ap, ◌∙◌, List, [], ◌∷◌, ◌++◌, append-nil, append_assoc}
use mathlib.Core.List.{reverse, reverse-cons}
use anybot.Core.Runtime.{Handler, Middleware}
use anybot.Core.Router.{
  Ref, root, child, Route, Router, middle_at, routers_up, collect, middleware_chain, wrap, chain,
}

module _ {W : Type 0} (r : Router W) where
  -- The middleware that a router's routes have before their own: the parent's, and then its own.
  pub inherited : Ref W → List (Middleware W)
  inherited root = r.middleware
  inherited (child n _ parent) = inherited parent ++ middle_at r.base_middle n

  collect-append : (xs ys : List (Ref W)) → collect r (xs ++ ys) ≡ collect r xs ++ collect r ys
  unfolding collect
  collect-append [] ys = refl
  collect-append (root ∷ xs) ys =
      rw (collect-append xs ys) (sym (append_assoc r.middleware (collect r xs) (collect r ys)))
  collect-append (child n rules p ∷ xs) ys =
      rw (collect-append xs ys)
        (sym (append_assoc (middle_at r.base_middle n) (collect r xs) (collect r ys)))

  collect-reverse : (ref : Ref W) → collect r (reverse (routers_up ref)) ≡ inherited ref
  unfolding collect routers_up inherited
  collect-reverse root = append-nil r.middleware
  collect-reverse (child n rules p) =
      ap (collect r) (reverse-cons (child n rules p) (routers_up p))
      ∙ collect-append (reverse (routers_up p)) (child n rules p ∷ [])
      ∙ ap (λ l. l ++ (middle_at r.base_middle n ++ [])) (collect-reverse p)
      ∙ ap (λ l. inherited p ++ l) (append-nil (middle_at r.base_middle n))

  wrap-append :
      (xs ys : List (Middleware W)) (h : Handler W) → wrap (xs ++ ys) h ≡ wrap xs (wrap ys h)
  unfolding wrap
  wrap-append [] ys h = refl
  wrap-append (m ∷ xs) ys h = ap m (wrap-append xs ys h)

  -- A handler runs inside its route's own middleware, that inside the middleware of its group, that inside
  -- the group's parent's, and the root's middleware is outermost.
  chain-inherited :
      (x : Route W) (h : Handler W) → chain r x h ≡ wrap (inherited x.router) (wrap x.middleware h)
  unfolding chain middleware_chain
  chain-inherited x h =
      ap (λ l. wrap (l ++ x.middleware) h) (collect-reverse x.router)
      ∙ wrap-append (inherited x.router) x.middleware h

  -- The root's first middleware is outermost on every route.
  pub chain-outermost :
      (m : Middleware W) (ms : List (Middleware W))
      → r.middleware ≡ m ∷ ms
      → (x : Route W) (h : Handler W) → (inner : Handler W) × (chain r x h ≡ m inner)
  unfolding wrap inherited
  chain-outermost m ms e x h =
      let (rest, f) = inherited-head x.router in
      (
        wrap rest (wrap x.middleware h),
        chain-inherited x h ∙ ap (λ l. wrap l (wrap x.middleware h)) f,
      )
    where
      inherited-head : (ref : Ref W) → (rest : List (Middleware W)) × (inherited ref ≡ m ∷ rest)
      inherited-head root = (ms, e)
      inherited-head (child n rules p) =
          let (rest, f) = inherited-head p in
          (rest ++ middle_at r.base_middle n, ap (λ l. l ++ middle_at r.base_middle n) f)
