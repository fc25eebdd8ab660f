-- ===== src/Core/Middleware/RateLimit.antt =====
-- core/middleware.go: RateLimitBy. The buckets are a variable of the middleware, and the part under the
-- mutex is one step, `admit`. Times are numbers from an arbitrary start, and the zero time is 0; where
-- the clock goes back, `now - start` is 0 here and negative in the code, below the window either way.
use anybot.Core.Errors.{Sentinel, sentinel}
use anybot.Core.Context.{Context, user_id, conversation_id}
use anybot.Core.Runtime.{Middleware, returned, Cell}
use anybot.Core.Middleware.{stop_state, Option, Text, ℕ, if◌then◌else◌}
use anybot.Base.{
  eqb, none, Dict, [], ◌||◌, lookup, Bool, leb, some, not, ◌-◌, ◌+◌, is_empty, insert, codes,
}

pub record Bucket : Type 0 where
  pub start : ℕ
  pub count : ℕ

-- `item := buckets[key]`: the zero bucket where there is none.
unfoldable pub bucket_of : Text → Dict Bucket → Bucket
bucket_of key buckets = elim (lookup key buckets) [
  | none ↦ record { start = 0; count = 0 }
  | some b ↦ b
]

-- A bucket whose window is over begins anew.
unfoldable pub renew : ℕ → ℕ → Bucket → Bucket
renew window now b =
    if eqb b.start 0 || leb window (now - b.start) then record { start = now; count = 0 } else b

-- The part under the mutex, with the test behind it: whether the call is let through.
unfoldable pub admit : ℕ → ℕ → ℕ → Text → Dict Bucket → Bool × Dict Bucket
unfolding bucket_of renew
admit limit window now key buckets =
    let item = renew window now (bucket_of key buckets) in
    let counted = record item { count = item.count + 1 } in
    (leb counted.count limit, insert key counted buckets)

-- rateLimitKey
unfoldable pub rate_limit_key : Option (Context → Text) → Context → Text
rate_limit_key key_func c =
    let own : Text = elim key_func [ none ↦ [] | some f ↦ f c ] in
    if not (is_empty own)
    then own
    else if not (is_empty (conversation_id c))
    then conversation_id c
    else if not (is_empty (user_id c))
    then user_id c
    else codes "global"

module _ {W : Type 0} (clock : W → ℕ) (buckets : Cell W (Dict Bucket)) where
  -- RateLimitBy
  unfoldable pub rate_limit_by : ℕ → ℕ → Option (Context → Text) → Middleware W
  unfolding admit rate_limit_key stop_state
  rate_limit_by limit window key_func next s =
      if eqb limit 0 || eqb window 0
      then next s
      else let key = rate_limit_key key_func s.context in
        let (ok, buckets') = admit limit window (clock s.world) key (buckets.read s.world) in
        let s' = record s { world = buckets.write buckets' s.world } in
        if ok then next s' else (returned (some (sentinel Sentinel.rate_limited)), stop_state s')

  -- RateLimit
  unfoldable pub rate_limit : ℕ → ℕ → Middleware W
  unfolding rate_limit_by
  rate_limit limit window = rate_limit_by limit window none
