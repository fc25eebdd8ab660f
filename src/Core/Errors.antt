-- ===== src/Core/Errors.antt =====
-- core/errors.go, and the errors of the packages that it meets. `errors.Is` walks the chain of
-- wrapped errors; a stack trace is not kept.
use anybot.Base.{◌∷◌, ◌++◌, codes, ℕ, Bool, false, ◌||◌, Option, none, some, Text, eqb}

-- The sentinel errors, which the code compares by identity.
pub data Sentinel : Type 0 where
  pass stop unauthorized rate_limited action_unavailable : Sentinel
  reply_target_unavailable session_unavailable : Sentinel
  canceled deadline_exceeded : Sentinel
  -- of sdk/state.go
  store_unavailable event_context_unavailable state_key_required : Sentinel
  group_context_unavailable : Sentinel

pub data Error : Type 0 where
  sentinel : Sentinel → Error
  -- fmt.Errorf("...: %w", err)
  wrapped : Text → Error → Error
  -- errors.Join(left, right)
  joined : Error → Error → Error
  -- PanicError, by what the recovered value prints
  panic_error : Text → Error
  -- any error that wraps no other
  plain : Text → Error

abbrev pub code : Sentinel → ℕ
code Sentinel.pass = 0
code Sentinel.stop = 1
code Sentinel.unauthorized = 2
code Sentinel.rate_limited = 3
code Sentinel.action_unavailable = 4
code Sentinel.reply_target_unavailable = 5
code Sentinel.session_unavailable = 6
code Sentinel.canceled = 7
code Sentinel.deadline_exceeded = 8
code Sentinel.store_unavailable = 9
code Sentinel.event_context_unavailable = 10
code Sentinel.state_key_required = 11
code Sentinel.group_context_unavailable = 12

-- errors.Is(err, target).
unfoldable pub is : Error → Sentinel → Bool
is (sentinel s) t = eqb (code s) (code t)
is (wrapped _ e) t = is e t
is (joined a b) t = is a t || is b t
is (panic_error _) t = false
is (plain _) t = false

-- errors.Is on an error that may be nil.
unfoldable pub is_error : Option Error → Sentinel → Bool
unfolding is
is_error none t = false
is_error (some e) t = is e t

abbrev pub sentinel_text : Sentinel → Text
sentinel_text Sentinel.pass = codes "anybot: pass route"
sentinel_text Sentinel.stop = codes "anybot: stop route"
sentinel_text Sentinel.unauthorized = codes "anybot: unauthorized"
sentinel_text Sentinel.rate_limited = codes "anybot: rate limited"
sentinel_text Sentinel.action_unavailable = codes "anybot: action unavailable"
sentinel_text Sentinel.reply_target_unavailable = codes "anybot: reply target unavailable"
sentinel_text Sentinel.session_unavailable = codes "anybot: session unavailable"
sentinel_text Sentinel.canceled = codes "context canceled"
sentinel_text Sentinel.deadline_exceeded = codes "context deadline exceeded"
sentinel_text Sentinel.store_unavailable = codes "anybot: plugin store unavailable"
sentinel_text Sentinel.event_context_unavailable = codes "anybot: event context unavailable"
sentinel_text Sentinel.state_key_required = codes "anybot: plugin state key is required"
sentinel_text Sentinel.group_context_unavailable = codes "anybot: group context unavailable"

-- err.Error(): a wrapped error is printed behind its text, which ends "...: ".
unfoldable pub error_text : Error → Text
error_text (sentinel s) = sentinel_text s
error_text (wrapped t e) = t ++ error_text e
error_text (joined a b) = error_text a ++ (10 ∷ error_text b)
error_text (panic_error v) = codes "anybot: panic: " ++ v
error_text (plain t) = t
