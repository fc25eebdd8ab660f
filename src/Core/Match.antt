-- ===== src/Core/Match.antt =====
-- core/route.go and core/rules.go: the result of a rule, and how results are merged. A score is a
-- number: every rule of the code gives a small whole one, and nothing is decided by it.
use anybot.Base.{ℕ, ◌+◌, [], ◌∷◌, ◌++◌, Text, codes, Dict, insert, if◌then◌else◌, is_empty}
use anybot.Core.Message.{Value}

pub record Match : Type 0 where
  pub score : ℕ
  pub reason : Text
  pub vars : Dict Value

-- Match{}
abbrev pub no_match : Match
no_match = record { score = 0; reason = []; vars = [] }

-- WithVar
unfoldable pub with_var : Match → Text → Value → Match
with_var m key value = record m { vars = insert key value m.vars }

-- `for key, value := range right { left[key] = value }`: the order is left open by Go, and each key
-- of a map occurs once.
unfoldable pub merge_vars : Dict Value → Dict Value → Dict Value
merge_vars left [] = left
merge_vars left ((k, v) ∷ right) = insert k v (merge_vars left right)

-- The two reasons, with "; " between them where both are given.
unfoldable pub merge_reason : Text → Text → Text
merge_reason left right =
    if is_empty right then left else if is_empty left then right else left ++ (codes "; " ++ right)

-- mergeMatch
unfoldable pub merge_match : Match → Match → Match
unfolding merge_vars merge_reason
merge_match left right = record {
  score = left.score + right.score;
  reason = merge_reason left.reason right.reason;
  vars = merge_vars left.vars right.vars;
}
