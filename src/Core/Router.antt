-- ===== src/Core/Router.antt =====
-- core/route.go: routers, routes, and the sorted snapshot that dispatch walks. Routes and routers are
-- pointers in the code: a route is named by its `order`, which is never given twice, and `sorted`
-- holds such names. A router other than the root is named by a number behind its parent, which never
-- changes. The mutex is held over each operation, so that an operation is one step.
pub mod Order
pub mod Coherent
pub mod Chain
use anybot.Base.{
  ℕ, zero, suc, ◌+◌, Bool, true, false, Option, none, some, List, [], ◌∷◌, ◌++◌, map, Text, codes,
  join, ltb, eqb, ℤ, pos, ltb_ℤ, eqb_ℤ, length, if◌then◌else◌,
}
use mathlib.Core.List.{reverse}
use anybot.Core.Rules.{message_event, Regexp, regexp_rule}
use anybot.Core.Rules.Command.{command_rule}
use anybot.Core.Runtime.{Rule, Handler, Middleware}

module _ (W : Type 0) where
  -- A router: the root, or a group with its number, its base rules and its parent.
  pub data Ref : Type 0 where
    root : Ref
    child : ℕ → List (Option (Rule W)) → Ref → Ref

  pub record Route : Type 0 where
    pub router : Ref
    pub name : Text
    pub rules : List (Option (Rule W))
    pub handler : Option (Handler W)
    pub middleware : List (Middleware W)
    pub priority : ℤ
    pub order : ℕ

  -- What the root guards: the routes, the cache, and the middleware of each router.
  pub record Router : Type 0 where
    pub routes : List Route
    pub sorted : List ℕ
    pub dirty : Bool
    pub next_order : ℕ
    pub middleware : List (Middleware W)
    pub base_middle : List (List (Middleware W))

abbrev command_name : List Text → Text
command_name [] = codes "command:*"
command_name (n ∷ ns) = codes "command:" ++ join (codes ",") (n ∷ ns)

module _ {W : Type 0} where
  -- newRouter(app, nil, nil)
  unfoldable pub new_router : Router W
  new_router = record {
    routes = [];
    sorted = [];
    dirty = false;
    next_order = 0;
    middleware = [];
    base_middle = [];
  }

  abbrev pub base_rules : Ref W → List (Option (Rule W))
  base_rules root = []
  base_rules (child _ rules _) = rules

  -- The middleware of group `n`, and what is appended to it.
  unfoldable pub middle_at : List (List (Middleware W)) → ℕ → List (Middleware W)
  middle_at [] n = []
  middle_at (ms ∷ rest) zero = ms
  middle_at (ms ∷ rest) (suc n) = middle_at rest n

  unfoldable pub append_at :
      ℕ → List (Middleware W) → List (List (Middleware W)) → List (List (Middleware W))
  append_at n new [] = []
  append_at zero new (ms ∷ rest) = (ms ++ new) ∷ rest
  append_at (suc n) new (ms ∷ rest) = ms ∷ append_at n new rest

  -- Router.Use
  unfoldable pub use_middleware : Ref W → List (Middleware W) → Router W → Router W
  unfolding append_at
  use_middleware root new r = record r { middleware = r.middleware ++ new }
  use_middleware (child n _ _) new r = record r { base_middle = append_at n new r.base_middle }

  -- Router.Group
  unfoldable pub group : Ref W → List (Option (Rule W)) → Router W → Ref W × Router W
  group parent rules r = (
    child (length r.base_middle) (base_rules parent ++ rules) parent,
    record r { base_middle = r.base_middle ++ [] ∷ [] },
  )

  abbrev new_route : Ref W → List (Option (Rule W)) → ℕ → Route W
  new_route ref rules order = record {
    router = ref;
    name = [];
    rules = base_rules ref ++ rules;
    handler = none;
    middleware = [];
    priority = pos 0;
    order = order;
  }

  -- Router.On: the new route's name, and the router.
  unfoldable pub on : Ref W → List (Option (Rule W)) → Router W → ℕ × Router W
  on ref rules r = (
    suc r.next_order,
    record r {
      routes = r.routes ++ new_route ref rules (suc r.next_order) ∷ [];
      dirty = true;
      next_order = suc r.next_order;
    },
  )

  -- A change of the one route that is named.
  unfoldable pub update_route : ℕ → (Route W → Route W) → List (Route W) → List (Route W)
  update_route n f [] = []
  update_route n f (x ∷ xs) = (if eqb x.order n then f x else x) ∷ update_route n f xs

  -- Route.Name
  unfoldable pub set_name : ℕ → Text → Router W → Router W
  unfolding update_route
  set_name n name r = record r { routes = update_route n (λ x. record x { name = name }) r.routes }

  -- Route.Priority
  unfoldable pub set_priority : ℕ → ℤ → Router W → Router W
  unfolding update_route
  set_priority n p r = record r {
    routes = update_route n (λ x. record x { priority = p }) r.routes;
    dirty = true;
  }

  -- Route.Use
  unfoldable pub route_use : ℕ → List (Middleware W) → Router W → Router W
  unfolding update_route
  route_use n ms r = record r {
    routes = update_route n (λ x. record x { middleware = x.middleware ++ ms }) r.routes;
  }

  -- Route.Handle
  unfoldable pub handle : ℕ → Option (Handler W) → Router W → Router W
  unfolding update_route
  handle n h r = record r { routes = update_route n (λ x. record x { handler = h }) r.routes }

  -- Router.OnMessage
  unfoldable pub on_message : Ref W → List (Option (Rule W)) → Router W → ℕ × Router W
  unfolding on
  on_message ref rules r = on ref (some message_event ∷ rules) r

  -- Router.Command
  unfoldable pub command : (Text → Text) → Ref W → List Text → Router W → ℕ × Router W
  unfolding on_message set_name
  command lower ref names r =
      let (n, r') = on_message ref (some (command_rule lower names) ∷ []) r in
      (n, set_name n (command_name names) r')

  -- Router.Regex, with the pattern compiled.
  unfoldable pub regex : Regexp → Ref W → Router W → ℕ × Router W
  unfolding on_message set_name
  regex re ref r =
      let (n, r') = on_message ref (some (regexp_rule (some re)) ∷ []) r in
      (n, set_name n (codes "regex:" ++ re.source) r')

  -- The order of the snapshot: a higher priority first, then the earlier registration.
  unfoldable pub before : Route W → Route W → Bool
  before x y =
      if eqb_ℤ x.priority y.priority then ltb x.order y.order else ltb_ℤ y.priority x.priority

  -- sort.SliceStable: what does not have to move stays where it was.
  unfoldable pub insert_route : Route W → List (Route W) → List (Route W)
  unfolding before
  insert_route x [] = x ∷ []
  insert_route x (y ∷ ys) = if before y x then y ∷ insert_route x ys else x ∷ y ∷ ys

  unfoldable pub sort_routes : List (Route W) → List (Route W)
  unfolding insert_route
  sort_routes [] = []
  sort_routes (x ∷ xs) = insert_route x (sort_routes xs)

  unfoldable pub find_route : ℕ → List (Route W) → Option (Route W)
  find_route n [] = none
  find_route n (x ∷ xs) = if eqb x.order n then some x else find_route n xs

  -- The routes that a list of names points to.
  unfoldable pub resolve : List (Route W) → List ℕ → List (Route W)
  unfolding find_route
  resolve routes [] = []
  resolve routes (n ∷ ns) = elim (find_route n routes) [
    | none ↦ resolve routes ns
    | some x ↦ x ∷ resolve routes ns
  ]

  abbrev pub orders : List (Route W) → List ℕ
  orders = map (λ x. x.order)

  -- Router.snapshot
  unfoldable pub snapshot : Router W → List (Route W) × Router W
  unfolding sort_routes resolve
  snapshot r =
      if r.dirty
      then (
        sort_routes r.routes,
        record r { sorted = orders (sort_routes r.routes); dirty = false },
      )
      else (resolve r.routes r.sorted, r)

  -- The routers from a route's own up to the root, and their middleware with the root's first.
  unfoldable pub routers_up : Ref W → List (Ref W)
  routers_up root = root ∷ []
  routers_up (child n rules parent) = child n rules parent ∷ routers_up parent

  unfoldable pub collect : Router W → List (Ref W) → List (Middleware W)
  unfolding middle_at
  collect r [] = []
  collect r (root ∷ refs) = r.middleware ++ collect r refs
  collect r (child n _ _ ∷ refs) = middle_at r.base_middle n ++ collect r refs

  -- Route.middlewareChain
  unfoldable pub middleware_chain : Router W → Route W → List (Middleware W)
  unfolding routers_up collect
  middleware_chain r x = collect r (reverse (routers_up x.router)) ++ x.middleware

  -- The loop of Route.chain: the last middleware is put on first.
  unfoldable pub wrap : List (Middleware W) → Handler W → Handler W
  wrap [] h = h
  wrap (m ∷ ms) h = m (wrap ms h)

  -- Route.chain
  unfoldable pub chain : Router W → Route W → Handler W → Handler W
  unfolding middleware_chain wrap
  chain r x h = wrap (middleware_chain r x) h
