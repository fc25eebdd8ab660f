-- ===== src/Core/RuleTests.antt =====
-- Theorems about rules, keys of conversations and rate limits at concrete inputs.
use anybot.Base.{
  ℕ, Dict, Option, some, none, map, suc, ◌≡◌, refl, inl, inr, true, false, List, [], ◌∷◌, ◌++◌,
  arith, codes, trim_space, contains, is_space, lookup, ◌==◌,
}
use Prim.Native.Nat.{min}
use anybot.Core.Message.{str, strs}
use anybot.Core.Event.{Event}
use anybot.Core.Rules.{plain_match}
use anybot.Core.Rules.Argv.{split_argv}
use anybot.Core.Rules.Quote.{line, split_argv-quote}
use anybot.Core.Rules.Command.{match_command, default_prefixes, name_set}
use anybot.Core.Rules.Spoken.{match_command-line}
use anybot.Core.Rules.Laws.{Test}
use anybot.Core.Middleware.RateLimit.{Bucket, bucket_of}
use anybot.Core.Context.{new_context}
use anybot.Core.Runtime.{State, Handler, Cell, returned}
use anybot.Core.Middleware.Quota.{visit, let_through, visits_of, window_quota}
use anybot.Core.Tests.{hello}

-- The world is the time and the buckets.
abbrev time_of : ℕ × Dict Bucket → ℕ
time_of w = w.0

abbrev bucket_cell : Cell (ℕ × Dict Bucket) (Dict Bucket)
bucket_cell = record { read = λ w. w.1; write = λ b w. (w.0, b); read-write = λ b w. refl }

abbrev goes_on : Handler (ℕ × Dict Bucket)
goes_on s = (returned none, s)

-- Three calls without an event, whose key is "global", and one of a conversation between them.
abbrev call_at : ℕ → Option Event → State (ℕ × Dict Bucket)
call_at now event = record { context = new_context none event; world = (now, []) }

abbrev calls : List (State (ℕ × Dict Bucket))
calls = call_at 105 (some hello) ∷ call_at 106 none ∷ call_at 107 none ∷ []

window_quota_example :
    let own = visit time_of bucket_cell 2 10 none goes_on in
    let_through time_of bucket_cell 2 10 none goes_on
      (own (call_at 100 none)).1
      (call_at 100 none ∷ calls)
      []
    ≡ min (suc (visits_of (own (call_at 100 none)).1 (map own calls))) 2
unfolding bucket_of lookup
window_quota_example =
    window_quota time_of bucket_cell 2 10 none goes_on (λ b w. refl) (λ s. refl) (λ s. refl)
      (omega arith) (omega arith) (call_at 100 none) calls [] (omega arith) (inl refl) (omega arith)

split_argv-quote_example :
    split_argv (line (codes "a b" ∷ [] ∷ codes "say \"hi\"" ∷ []))
    ≡ codes "a b" ∷ [] ∷ codes "say \"hi\"" ∷ []
split_argv-quote_example = split_argv-quote (codes "a b" ∷ [] ∷ codes "say \"hi\"" ∷ [])

argv_tests :
    (split_argv (codes " a  'b c' d\\ e ") ≡ codes "a" ∷ codes "b c" ∷ codes "d e" ∷ [])
    × (split_argv (codes "x \\") ≡ codes "x" ∷ codes "\\" ∷ [])
unfolding split_argv trim_space
argv_tests = (refl, refl)

match_command-line_example :
    match_command
      (λ t. t)
      default_prefixes
      (codes "add" ∷ [])
      (b'!' ∷ b'a' ∷ (codes "dd" ++ (b' ' ∷ line (codes "x y" ∷ []))))
    ≡ (
      record {
        score = 3;
        reason = codes "command:" ++ codes "add";
        vars =
            (codes "prefix", str (b'!' ∷ []))
            ∷ (codes "command", str (codes "add"))
            ∷ (codes "args", str (line (codes "x y" ∷ [])))
            ∷ (codes "argv", strs (codes "x y" ∷ []))
            ∷ [];
      },
      true,
    )
unfolding is_space name_set contains ◌==◌
match_command-line_example =
    match_command-line (λ t. t) (codes "add" ∷ []) b'!' b'a' (codes "dd") (codes "x y") []
      (inr (inl refl)) (refl, (refl, (refl, tt))) refl

abbrev farewell : Event
farewell = record hello { id = codes "8"; text = codes "bye" }

abbrev tests : List Test
tests =
    (λ c. (plain_match 1 (codes "one"), true)) ∷ (λ c. (plain_match 2 (codes "two"), false)) ∷ []

abbrev addressed : Event
addressed = record hello {
  group_id = codes "5";
  message = record { kind = codes "at"; fields = (codes "id", str (codes "42")) ∷ [] } ∷ [];
}
