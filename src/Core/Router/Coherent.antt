-- ===== src/Core/Router/Coherent.antt =====
-- core/route.go: the cached order is never stale. Whatever registrations, changes and dispatches came
-- before, `snapshot` gives the registered routes, sorted.
use anybot.Base.{
  ℕ, suc, ◌≤◌, ◌≡◌, refl, sym, ap, ◌∙◌, ◌≢◌, false, Option, some, List, [], ◌∷◌, ◌++◌, map, arith,
  All, All-imp, All-append, Bool-cases, inl, inr, eqb, ℤ, Text, if◌then◌else◌, subst,
}
use mathlib.Core.List.{map-append, Perm}
use anybot.Core.Runtime.{Rule, Handler, Middleware}
use anybot.Core.Router.{
  Ref, Route, Router, new_router, use_middleware, group, on, update_route, set_name, set_priority,
  route_use, handle, sort_routes, find_route, resolve, orders, snapshot, root, child,
}
use anybot.Core.Router.Order.{
  KeepsKey, All-sort, sort_routes-map, IsRanked, IsOrdered-IsRanked, sort_routes-IsOrdered,
  sort_routes-perm,
}

-- Any call that reaches the router.
pub data Call (W : Type 0) : Type 0 where
  uses : Ref W → List (Middleware W) → Call W
  groups : Ref W → List (Option (Rule W)) → Call W
  ons : Ref W → List (Option (Rule W)) → Call W
  names : ℕ → Text → Call W
  priorities : ℕ → ℤ → Call W
  route_uses : ℕ → List (Middleware W) → Call W
  handles : ℕ → Option (Handler W) → Call W
  snapshots : Call W

-- Names that are all different.
abbrev pub IsDistinct : List ℕ → Type 0
IsDistinct [] = Unit
IsDistinct (n ∷ ns) = All (λ m. m ≢ n) ns × IsDistinct ns

IsDistinct-append :
    (n : ℕ) (ns : List ℕ) → All (λ m. m ≤ n) ns → IsDistinct ns → IsDistinct (ns ++ suc n ∷ [])
IsDistinct-append n [] h d = (tt, tt)
IsDistinct-append n (m ∷ ns) (le, h) (apart, d) =
    (All-append (λ k. k ≢ m) ns (suc n ∷ []) apart ((omega arith), tt), IsDistinct-append n ns h d)

module _ {W : Type 0} where
  pub step : Router W → Call W → Router W
  step r (uses ref ms) = use_middleware ref ms r
  step r (groups ref rules) = (group ref rules r).1
  step r (ons ref rules) = (on ref rules r).1
  step r (names n t) = set_name n t r
  step r (priorities n p) = set_priority n p r
  step r (route_uses n ms) = route_use n ms r
  step r (handles n h) = handle n h r
  step r snapshots = (snapshot r).1

  unfoldable pub run : Router W → List (Call W) → Router W
  unfolding step
  run r [] = r
  run r (c ∷ cs) = run (step r c) cs

  pub record IsCoherent (r : Router W) : Type 0 where
    pub fresh : All (λ n. n ≤ r.next_order) (orders r.routes)
    pub distinct : IsDistinct (orders r.routes)
    pub cached : r.dirty ≡ false → r.sorted ≡ orders (sort_routes r.routes)

  -- A name points to its route.
  find_self :
      (xs : List (Route W)) → IsDistinct (orders xs) → All (λ x. find_route x.order xs ≡ some x) xs
  unfolding find_route
  find_self [] h = tt
  find_self (x ∷ xs) (apart, h) = (ground arith, grow xs apart (find_self xs h))
    where
      grow :
          (ys : List (Route W))
          → All (λ n. n ≢ x.order) (orders ys)
          → All (λ y. find_route y.order xs ≡ some y) ys
          → All (λ y. find_route y.order (x ∷ xs) ≡ some y) ys
      grow [] a f = tt
      grow (y ∷ ys) (a, others) (f, fs) = (ground arith, grow ys others fs)

  resolve-orders :
      (routes xs : List (Route W))
      → All (λ x. find_route x.order routes ≡ some x) xs
      → resolve routes (orders xs) ≡ xs
  unfolding resolve
  resolve-orders routes [] h = refl
  resolve-orders routes (x ∷ xs) (e, h) = rw (e, resolve) (ap (◌∷◌ x) (resolve-orders routes xs h))

  -- A snapshot of a coherent router is the registered routes, sorted.
  snapshot-sort : (r : Router W) → IsCoherent r → (snapshot r).0 ≡ sort_routes r.routes
  unfolding snapshot
  snapshot-sort r c = elim (Bool-cases r.dirty) [
    | inl e ↦ rw (e, snapshot)
    | inr e ↦
        rw (e, snapshot)
          (ap (resolve r.routes) (c.cached e)
            ∙ resolve-orders r.routes (sort_routes r.routes)
                (All-sort _ r.routes (find_self r.routes c.distinct)))
  ]

  snapshot-IsCoherent : (r : Router W) → IsCoherent r → IsCoherent (snapshot r).1
  unfolding snapshot
  snapshot-IsCoherent r c = elim (Bool-cases r.dirty) [
    | inl e ↦
        rw (e, snapshot) (record { fresh = c.fresh; distinct = c.distinct; cached = λ _. refl })
    | inr e ↦
        rw (e, snapshot)
          (record { fresh = c.fresh; distinct = c.distinct; cached = λ _. c.cached e })
  ]

  -- Changes of single routes are maps that keep the names.
  abbrev on_route : ℕ → (Route W → Route W) → Route W → Route W
  on_route n f x = if eqb x.order n then f x else x

  update-map :
      (n : ℕ) (f : Route W → Route W) (xs : List (Route W))
      → update_route n f xs ≡ map (on_route n f) xs
  unfolding update_route
  update-map n f [] = refl
  update-map n f (x ∷ xs) = ap (◌∷◌ (on_route n f x)) (update-map n f xs)

  abbrev KeepsName : (Route W → Route W) → Type 0
  KeepsName f = (x : Route W) → (f x).order ≡ x.order

  orders-map :
      (g : Route W → Route W) → KeepsName g → (xs : List (Route W)) → orders (map g xs) ≡ orders xs
  orders-map g k [] = refl
  orders-map g k (x ∷ xs) = cc (k x, orders-map g k xs)

  on_route-KeepsName : (n : ℕ) (f : Route W → Route W) → KeepsName f → KeepsName (on_route n f)
  on_route-KeepsName n f k x = ground (arith, k x)

  on_route-KeepsKey : (n : ℕ) (f : Route W → Route W) → KeepsKey f → KeepsKey (on_route n f)
  on_route-KeepsKey n f k x = elim (Bool-cases (eqb x.order n)) [
    | inl e ↦ rw e (k x)
    | inr e ↦ rw e (refl, refl)
  ]

  orders-update :
      (n : ℕ) (f : Route W → Route W)
      → KeepsName f
      → (xs : List (Route W)) → orders (update_route n f xs) ≡ orders xs
  orders-update n f k xs =
      ap orders (update-map n f xs) ∙ orders-map (on_route n f) (on_route-KeepsName n f k) xs

  -- A change that keeps the keys leaves the cache right.
  orders-sort-update :
      (n : ℕ) (f : Route W → Route W)
      → KeepsKey f
      → (xs : List (Route W)) → orders (sort_routes (update_route n f xs)) ≡ orders (sort_routes xs)
  orders-sort-update n f k xs =
      ap (λ l. orders (sort_routes l)) (update-map n f xs)
      ∙ ap orders (sort_routes-map (on_route n f) (on_route-KeepsKey n f k) xs)
      ∙ orders-map (on_route n f) (on_route-KeepsName n f (λ x. (k x).1)) (sort_routes xs)

  module _ (r : Router W) (c : IsCoherent r) where
    update-IsCoherent :
        (n : ℕ) (f : Route W → Route W)
        → KeepsKey f
        → IsCoherent (record r { routes = update_route n f r.routes })
    update-IsCoherent n f k = record {
      fresh =
          subst (All (λ m. m ≤ r.next_order)) (sym (orders-update n f (λ x. (k x).1) r.routes))
            c.fresh;
      distinct = subst IsDistinct (sym (orders-update n f (λ x. (k x).1) r.routes)) c.distinct;
      cached = λ clean. c.cached clean ∙ sym (orders-sort-update n f k r.routes);
    }

    set_priority-IsCoherent : (n : ℕ) (p : ℤ) → IsCoherent (set_priority n p r)
    unfolding set_priority
    set_priority-IsCoherent n p = record {
      fresh = subst (All (λ m. m ≤ r.next_order)) (sym same) c.fresh;
      distinct = subst IsDistinct (sym same) c.distinct;
      cached = λ clean. cc;
    }
      where
        same : orders (update_route n (λ x. record x { priority = p }) r.routes) ≡ orders r.routes
        same = orders-update n (λ x. record x { priority = p }) (λ x. refl) r.routes

    use-IsCoherent : (ref : Ref W) (ms : List (Middleware W)) → IsCoherent (use_middleware ref ms r)
    unfolding use_middleware
    use-IsCoherent root ms = record { fresh = c.fresh; distinct = c.distinct; cached = c.cached }
    use-IsCoherent (child _ _ _) ms = record {
      fresh = c.fresh;
      distinct = c.distinct;
      cached = c.cached;
    }

    on-IsCoherent : (ref : Ref W) (rules : List (Option (Rule W))) → IsCoherent (on ref rules r).1
    unfolding on
    on-IsCoherent ref rules = record {
      fresh = subst (All (λ m. m ≤ suc r.next_order)) (sym grown) (
          All-append _ (orders r.routes) (suc r.next_order ∷ [])
            (All-imp (λ m le. omega arith) (orders r.routes) c.fresh) ((omega arith), tt));
      distinct =
          subst IsDistinct (sym grown)
            (IsDistinct-append r.next_order (orders r.routes) c.fresh c.distinct);
      cached = λ clean. cc;
    }
      where
        grown : orders (on ref rules r).1.routes ≡ orders r.routes ++ suc r.next_order ∷ []
        grown = map-append _ r.routes _

  pub step-IsCoherent : (r : Router W) (k : Call W) → IsCoherent r → IsCoherent (step r k)
  unfolding step group set_name route_use handle
  step-IsCoherent r (uses ref ms) c = use-IsCoherent r c ref ms
  step-IsCoherent r (groups ref rules) c = record {
    fresh = c.fresh;
    distinct = c.distinct;
    cached = c.cached;
  }
  step-IsCoherent r (ons ref rules) c = on-IsCoherent r c ref rules
  step-IsCoherent r (names n t) c = update-IsCoherent r c n _ (λ x. (refl, refl))
  step-IsCoherent r (priorities n p) c = set_priority-IsCoherent r c n p
  step-IsCoherent r (route_uses n ms) c = update-IsCoherent r c n _ (λ x. (refl, refl))
  step-IsCoherent r (handles n h) c = update-IsCoherent r c n _ (λ x. (refl, refl))
  step-IsCoherent r snapshots c = snapshot-IsCoherent r c

  run-IsCoherent : (r : Router W) (cs : List (Call W)) → IsCoherent r → IsCoherent (run r cs)
  unfolding run
  run-IsCoherent r [] c = c
  run-IsCoherent r (k ∷ cs) c = run-IsCoherent (step r k) cs (step-IsCoherent r k c)

  new_router-IsCoherent : IsCoherent (new_router {W = W})
  unfolding new_router sort_routes
  new_router-IsCoherent = record { fresh = tt; distinct = tt; cached = λ _. refl }

  -- After any calls on a new router, registrations, changes and snapshots in any order, a snapshot holds
  -- every registered route once, as it is now, a higher priority first and then in order of
  -- registration: the cache is never stale.
  pub snapshot-run :
      (cs : List (Call W))
      → let routes = (snapshot (run new_router cs)).0 in
        IsRanked routes × Perm (run new_router cs).routes routes
  snapshot-run cs =
      let same = snapshot-sort _ (run-IsCoherent new_router cs new_router-IsCoherent) in
      rw same (
        IsOrdered-IsRanked _ (sort_routes-IsOrdered (run new_router cs).routes),
        sort_routes-perm (run new_router cs).routes,
      )
