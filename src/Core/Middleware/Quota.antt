-- ===== src/Core/Middleware/Quota.antt =====
-- core/middleware.go: what RateLimitBy lets through in one window.
use Prim.Native.Nat.{min, ℕ}
use anybot.Core.Context.{Context}
use anybot.Core.Runtime.{State, Handler, Outcome, returned, Cell}
use anybot.Core.Middleware.{stop_state}
use anybot.Core.Middleware.RateLimit.{
  rate_limit_key, rate_limit_by, Bucket, bucket_of, renew, admit,
}
use anybot.Base.{
  Bool, Option, none, map, ℕ, suc, ◌+◌, ◌-◌, ◌≤◌, ◌<◌, ◌≡◌, refl, ap, ◌∙◌, subst, ◌⊎◌, inl, inr,
  true, false, ◌&&◌, List, [], ◌∷◌, arith, Bool-cases, Text, if◌then◌else◌, All, Dict, ◌==◌, insert,
  lookup-insert, eq_iff, leb, eq_iff, eq_refl,
}

-- The calls of the middleware, each with its time and its key, and how many of one key are let through.
abbrev pub Visit : Type 0
Visit = ℕ × Text

unfoldable pub admitted : ℕ → ℕ → Text → List Visit → Dict Bucket → ℕ
admitted limit window key [] buckets = 0
admitted limit window key ((now, k) ∷ visits) buckets =
    let (ok, buckets') = admit limit window now k buckets in
    (if ok && k == key then 1 else 0) + admitted limit window key visits buckets'

abbrev pub visits_of : Text → List Visit → ℕ
visits_of key [] = 0
visits_of key ((now, k) ∷ visits) = (if k == key then 1 else 0) + visits_of key visits

-- The visits fall into the window of a bucket that began at `start`.
abbrev pub IsWithin : ℕ → ℕ → List Visit → Type 0
IsWithin window start = All (λ v. v.0 < start + window)

-- A bucket that the next call at `now` begins anew.
abbrev pub IsOver : ℕ → ℕ → Bucket → Type 0
IsOver window now b = (b.start ≡ 0) ⊎ (b.start + window ≤ now)

bucket_of-insert :
    (k j : Text) (b : Bucket) (m : Dict Bucket)
    → bucket_of j (insert k b m) ≡ (if k == j then b else bucket_of j m)
unfolding bucket_of
bucket_of-insert k j b m = ground (arith, eq_iff k j, eq_iff j k, lookup-insert k j b m)

-- A call of another key leaves the bucket alone.
admit_other :
    (limit window now : ℕ) (k key : Text) (buckets : Dict Bucket)
    → (k == key) ≡ false
    → bucket_of key (admit limit window now k buckets).1 ≡ bucket_of key buckets
unfolding admit
admit_other limit window now k key buckets e = rw (bucket_of-insert, e)

-- A call of the key counts in the bucket, which is renewed where its window is over.
admit_own :
    (limit window now : ℕ) (key : Text) (buckets : Dict Bucket)
    → let b = renew window now (bucket_of key buckets) in
      ((admit limit window now key buckets).0 ≡ leb (b.count + 1) limit)
      × (bucket_of key (admit limit window now key buckets).1 ≡ record b { count = b.count + 1 })
unfolding admit
admit_own limit window now key buckets = (refl, rw (bucket_of-insert, eq_refl))

renew_over :
    (window now : ℕ) (b : Bucket)
    → IsOver window now b
    → renew window now b ≡ record { start = now; count = 0 }
unfolding renew
renew_over window now b h = ground arith

renew_within :
    (window now : ℕ) (b : Bucket)
    → 0 < b.start
    → 0 < window
    → now < b.start + window
    → renew window now b ≡ b
unfolding renew
renew_within window now b h w i = ground arith

admit_within :
    (limit window now : ℕ) (k key : Text) (buckets : Dict Bucket) (b : Bucket)
    → (k == key) ≡ true
    → bucket_of key buckets ≡ b
    → 0 < b.start
    → 0 < window
    → now < b.start + window
    → ((admit limit window now k buckets).0 ≡ leb (b.count + 1) limit)
      × (bucket_of key (admit limit window now k buckets).1 ≡ record b { count = b.count + 1 })
admit_within limit window now k key buckets b e same h w i =
    let kept : renew window now (bucket_of key buckets) ≡ b =
      ap (renew window now) same ∙ renew_within window now b h w i in
    rw ((eq_iff k key).0 e) (
      subst
        (λ x.
          ((admit limit window now key buckets).0 ≡ leb (x.count + 1) limit)
          × (bucket_of key (admit limit window now key buckets).1
              ≡ record x { count = x.count + 1 }))
        kept (admit_own limit window now key buckets))

-- In the window of a bucket, what is let through is what is left of the limit.
admitted-min :
    (limit window : ℕ) (key : Text) (visits : List Visit) (buckets : Dict Bucket) (b : Bucket)
    → bucket_of key buckets ≡ b
    → 0 < b.start
    → 0 < window
    → IsWithin window b.start visits
    → admitted limit window key visits buckets ≡ min (visits_of key visits) (limit - b.count)
unfolding admitted
admitted-min limit window key [] buckets b same h w i = omega arith
admitted-min limit window key ((now, k) ∷ visits) buckets b same h w (i, later) =
    let after : Dict Bucket = (admit limit window now k buckets).1 in
    elim (Bool-cases (k == key)) [
      | inl e ↦
          let (ok, counted) = admit_within limit window now k key buckets b e same h w i in
          let rest =
            admitted-min limit window key visits after (record b { count = b.count + 1 }) counted h
              w later in
          rw (ok, e) (ground (arith, rest))
      | inr e ↦
          let rest =
            admitted-min limit window key visits after b
              (admit_other limit window now k key buckets e ∙ same) h w later in
          rw e (ground (arith, rest))
    ]

-- From a call that opens a window on, `limit` calls of the key are let through in that window.
admitted_quota :
    (limit window now : ℕ) (key : Text) (visits : List Visit) (buckets : Dict Bucket)
    → 0 < window
    → 0 < now
    → IsOver window now (bucket_of key buckets)
    → IsWithin window now visits
    → admitted limit window key ((now, key) ∷ visits) buckets
      ≡ min (suc (visits_of key visits)) limit
unfolding admitted
admitted_quota limit window now key visits buckets w h over i =
    let (ok, counted) = admit_own limit window now key buckets in
    let fresh = renew_over window now (bucket_of key buckets) over in
    let rest =
      admitted-min limit window key visits (admit limit window now key buckets).1
        (record { start = now; count = 1 })
        (counted ∙ ap {A = Bucket} {B = Bucket} (λ b. record b { count = b.count + 1 }) fresh) h w
        i in
    ground (arith, rest, ok, fresh, eq_refl key)

-- Whether a call came back without an error.
abbrev pub is_passed : Outcome → Bool
is_passed (returned none) = true
is_passed _ = false

module _ {W : Type 0} (clock : W → ℕ) (buckets : Cell W (Dict Bucket)) (limit window : ℕ)
    (key_func : Option (Context → Text)) (next : Handler W) where
  -- What the limiter reads of the state of a call.
  abbrev pub visit : State W → Visit
  visit s = (clock s.world, rate_limit_key key_func s.context)

  -- Calls of the middleware, each in a state of its own but for the buckets, which are those that the
  -- call before has left: how many calls of the key come back without an error.
  unfoldable pub let_through : Text → List (State W) → Dict Bucket → ℕ
  unfolding rate_limit_by
  let_through key [] b = 0
  let_through key (s ∷ ss) b =
      let (outcome, t) =
        rate_limit_by clock buckets limit window key_func next
          (record s { world = buckets.write b s.world }) in
      (if is_passed outcome && (visit s).1 == key then 1 else 0)
      + let_through key ss (buckets.read t.world)

  module _ (clock-write : (b : Dict Bucket) (w : W) → clock (buckets.write b w) ≡ clock w)
      (next-returned : (s : State W) → (next s).0 ≡ returned none)
      (next-read : (s : State W) → buckets.read (next s).1.world ≡ buckets.read s.world)
      (some_limit : 0 < limit) (some_window : 0 < window) where
    rate_limit_by-admit :
        (s : State W) (b : Dict Bucket)
        → let call : State W = record s { world = buckets.write b s.world } in
          let (outcome, t) = rate_limit_by clock buckets limit window key_func next call in
          let (ok, b') = admit limit window (visit s).0 (visit s).1 b in
          (is_passed outcome ≡ ok) × (buckets.read t.world ≡ b')
    unfolding rate_limit_by stop_state
    rate_limit_by-admit s b =
        let now = clock-write b s.world in
        let same = buckets.read-write b s.world in
        let (ok, b') = admit limit window (clock s.world) (visit s).1 b in
        let t : State W = record s { world = buckets.write b' (buckets.write b s.world) } in
        elim (Bool-cases ok) [
          | inl e ↦ ground (
            arith,
            e,
            now,
            same,
            next-returned t,
            next-read t,
            buckets.read-write b' (buckets.write b s.world),
          )
          | inr e ↦ ground (arith, e, now, same, buckets.read-write b' (buckets.write b s.world))
        ]

    let_through-admitted :
        (key : Text) (ss : List (State W)) (b : Dict Bucket)
        → let_through key ss b ≡ admitted limit window key (map visit ss) b
    unfolding let_through admitted
    let_through-admitted key [] b = refl
    let_through-admitted key (s ∷ ss) b =
        let (passed, left) = rate_limit_by-admit s b in
        rw (passed, left) (rw (let_through-admitted key ss _) refl)

    -- RateLimitBy with a limit and a window that are not 0, in front of a handler that returns no error,
    -- where neither the handler nor the clock touches its buckets: from a call that opens a window on,
    -- of all calls of its key in that window `limit` come back without an error, or all if there are
    -- fewer, whatever calls of other keys stand between them.
    pub window_quota :
        (s : State W) (ss : List (State W)) (b : Dict Bucket)
        → 0 < clock s.world
        → IsOver window (clock s.world) (bucket_of (visit s).1 b)
        → IsWithin window (clock s.world) (map visit ss)
        → let_through (visit s).1 (s ∷ ss) b
          ≡ min (suc (visits_of (visit s).1 (map visit ss))) limit
    window_quota s ss b h over i =
        let_through-admitted (visit s).1 (s ∷ ss) b
        ∙ admitted_quota limit window (clock s.world) (visit s).1 (map visit ss) b some_window h
            over i
