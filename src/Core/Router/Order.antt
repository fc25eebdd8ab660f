-- ===== src/Core/Router/Order.antt =====
-- The snapshot's order: `sort_routes` sorts, keeps every route, and depends on priorities and orders
-- alone.
use mathlib.Core.List.{Perm}
use mathlib.Core.List.Perm
use anybot.Base.{
  ℤ, pos, negsuc, eqb_ℤ, ltb_ℤ, ◌⊎◌, ◌≤◌, All, All-imp, Bool-cases, List, map, ◌≡◌, ◌∷◌, false, ap,
  true, inl, arith, ◌∙◌, inr, [], refl,
}
use anybot.Core.Router.{Route, before, insert_route, sort_routes}

eqb_ℤ-eq : (a b : ℤ) → eqb_ℤ a b ≡ true → a ≡ b
eqb_ℤ-eq (pos m) (pos n) h = let e : m ≡ n = ground (arith, h) in ap pos e
eqb_ℤ-eq (pos m) (negsuc n) h = absurd (ground (arith, h))
eqb_ℤ-eq (negsuc m) (pos n) h = absurd (ground (arith, h))
eqb_ℤ-eq (negsuc m) (negsuc n) h = let e : m ≡ n = ground (arith, h) in ap negsuc e

module _ {W : Type 0} where
  -- No route stands behind one that it goes before.
  abbrev pub IsOrdered : List (Route W) → Type 0
  IsOrdered [] = Unit
  IsOrdered (x ∷ xs) = All (λ y. before y x ≡ false) xs × IsOrdered xs

  before-total : (x y : Route W) → before x y ≡ true → before y x ≡ false
  unfolding before
  before-total x y h = ground arith

  before_trans : (x y z : Route W) → before y x ≡ false → before z y ≡ false → before z x ≡ false
  unfolding before
  before_trans x y z h k = ground arith

  All-insert :
      (P : Route W → Type 0) (x : Route W) (xs : List (Route W))
      → P x
      → All P xs
      → All P (insert_route x xs)
  unfolding insert_route
  All-insert P x [] p h = (p, tt)
  All-insert P x (y ∷ ys) p (q, h) = elim (Bool-cases (before y x)) [
    | inl e ↦ rw (e, insert_route) (q, All-insert P x ys p h)
    | inr e ↦ rw (e, insert_route) (p, (q, h))
  ]

  insert-IsOrdered :
      (x : Route W) (xs : List (Route W)) → IsOrdered xs → IsOrdered (insert_route x xs)
  unfolding insert_route
  insert-IsOrdered x [] h = (tt, tt)
  insert-IsOrdered x (y ∷ ys) (h, rest) = elim (Bool-cases (before y x)) [
    | inl e ↦
        rw (e, insert_route)
          (
            All-insert (λ z. before z y ≡ false) x ys (before-total y x e) h,
            insert-IsOrdered x ys rest,
          )
    | inr e ↦ rw (e, insert_route) ((e, All-imp (λ z k. before_trans x y z e k) ys h), (h, rest))
  ]

  -- The sorted routes stand in order: of two routes the one with the higher priority, and of two with
  -- one priority the one registered first, is never the later one.
  pub sort_routes-IsOrdered : (xs : List (Route W)) → IsOrdered (sort_routes xs)
  unfolding sort_routes
  sort_routes-IsOrdered [] = tt
  sort_routes-IsOrdered (x ∷ xs) = insert-IsOrdered x (sort_routes xs) (sort_routes-IsOrdered xs)

  -- The first route has the higher priority, or the same one and has not been registered later.
  abbrev pub Precedes : Route W → Route W → Type 0
  Precedes x y =
      (ltb_ℤ y.priority x.priority ≡ true) ⊎ ((x.priority ≡ y.priority) × (x.order ≤ y.order))

  -- Each route precedes all behind it.
  abbrev pub IsRanked : List (Route W) → Type 0
  IsRanked [] = Unit
  IsRanked (x ∷ xs) = All (λ y. Precedes x y) xs × IsRanked xs

  before-Precedes : (x y : Route W) → before y x ≡ false → Precedes x y
  unfolding before
  before-Precedes x y h = elim (Bool-cases (eqb_ℤ y.priority x.priority)) [
    | inl e ↦ inr (eqb_ℤ-eq x.priority y.priority (ground (arith, e)), ground (arith, h, e))
    | inr e ↦ inl (ground (arith, h, e))
  ]

  pub IsOrdered-IsRanked : (xs : List (Route W)) → IsOrdered xs → IsRanked xs
  IsOrdered-IsRanked [] h = tt
  IsOrdered-IsRanked (x ∷ xs) (h, rest) =
      (All-imp (λ y. before-Precedes x y) xs h, IsOrdered-IsRanked xs rest)

  pub All-sort : (P : Route W → Type 0) (xs : List (Route W)) → All P xs → All P (sort_routes xs)
  unfolding sort_routes
  All-sort P [] h = tt
  All-sort P (x ∷ xs) (p, h) = All-insert P x (sort_routes xs) p (All-sort P xs h)

  insert-perm : (x : Route W) (xs : List (Route W)) → Perm (x ∷ xs) (insert_route x xs)
  unfolding insert_route
  insert-perm x [] = Perm.refl (x ∷ [])
  insert-perm x (y ∷ ys) = elim (Bool-cases (before y x)) [
    | inl e ↦ rw (e, insert_route) (Perm.trans (Perm.swap y x ys) (Perm.cons y (insert-perm x ys)))
    | inr e ↦ rw (e, insert_route) (Perm.refl (x ∷ y ∷ ys))
  ]

  -- The sorted routes are the given ones, each as often.
  pub sort_routes-perm : (xs : List (Route W)) → Perm xs (sort_routes xs)
  unfolding sort_routes
  sort_routes-perm [] = Perm.refl []
  sort_routes-perm (x ∷ xs) =
      Perm.trans (Perm.cons x (sort_routes-perm xs)) (insert-perm x (sort_routes xs))

  -- A change of routes that keeps priority and order.
  abbrev pub KeepsKey : (Route W → Route W) → Type 0
  KeepsKey f = (x : Route W) → ((f x).priority ≡ x.priority) × ((f x).order ≡ x.order)

  before-map :
      (f : Route W → Route W) → KeepsKey f → (x y : Route W) → before (f x) (f y) ≡ before x y
  unfolding before
  before-map f k x y = rw ((k x).0, (k x).1, (k y).0, (k y).1)

  insert-map :
      (f : Route W → Route W)
      → KeepsKey f
      → (x : Route W) (xs : List (Route W))
      → insert_route (f x) (map f xs) ≡ map f (insert_route x xs)
  unfolding insert_route
  insert-map f k x [] = refl
  insert-map f k x (y ∷ ys) = elim (Bool-cases (before y x)) [
    | inl e ↦ rw (before-map f k y x, e, insert_route) (ap (◌∷◌ (f y)) (insert-map f k x ys))
    | inr e ↦ rw (before-map f k y x, e, insert_route)
  ]

  pub sort_routes-map :
      (f : Route W → Route W)
      → KeepsKey f
      → (xs : List (Route W)) → sort_routes (map f xs) ≡ map f (sort_routes xs)
  unfolding sort_routes
  sort_routes-map f k [] = refl
  sort_routes-map f k (x ∷ xs) =
      ap (insert_route (f x)) (sort_routes-map f k xs) ∙ insert-map f k x (sort_routes xs)
