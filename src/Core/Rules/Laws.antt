-- ===== src/Core/Rules/Laws.antt =====
-- core/rules.go: what the combinators and the rules on events decide, for rules that only read the
-- context.
use anybot.Base.{
  ◌≡◌, refl, Bool, true, false, not, ◌&&◌, ◌||◌, Option, none, some, List, [], ◌∷◌, arith, Text,
  codes, if◌then◌else◌, all, contains, lookup, Dict, is_some, any, lookup-insert, ◌==◌, is_empty,
}
use anybot.Core.Match.{Match, no_match, merge_match, merge_vars}
use anybot.Core.Message.{Value, Segment}
use anybot.Core.Event.{Event, given}
use anybot.Core.Context.{Context}
use anybot.Core.Runtime.{State, Rule}
use anybot.Core.Rules.{
  reading, match_each, any_of, negate, find_mention, match_mention, match_to_me, sprint_field,
}

abbrev pub Test : Type 0
Test = Context → Match × Bool

abbrev pub rules_of : {W : Type 0} → List Test → List (Option (Rule W))
rules_of [] = []
rules_of (f ∷ fs) = some (reading f) ∷ rules_of fs

-- What the rules pass on to the handler, where all of them match.
abbrev pub merge_all : Context → List Test → Match → Match
merge_all c [] m = m
merge_all c (f ∷ fs) m = merge_all c fs (merge_match m (f c).0)

abbrev pub passes : Context → Test → Bool
passes c f = (f c).1

module _ {W : Type 0} where
  -- The rules of a route match exactly if each of them does, and leave the state alone; then the result is
  -- the merge of all results, in order.
  match_each-reading :
      (fs : List Test) (m : Match) (s : State W)
      → match_each (rules_of fs) m s ≡ (
          if all (passes s.context) fs
          then (merge_all s.context fs m, true, s)
          else (no_match, false, s))
  unfolding match_each
  match_each-reading [] m s = refl
  match_each-reading (f ∷ fs) m s =
      ground (arith, match_each-reading fs (merge_match m (f s.context).0) s)

  -- Not of AnyOf matches exactly if All of the Nots does.
  pub negate-any_of :
      (fs : List Test) (s : State W)
      → (negate (some (any_of (rules_of fs))) s).1 ≡ all (λ f. not (passes s.context f)) fs
  unfolding negate any_of
  negate-any_of [] s = refl
  negate-any_of (f ∷ fs) s = ground (arith, negate-any_of fs s)

-- A variable of the merged result is that of the right side, where it has one.
lookup-merge_vars :
    (key : Text) (left right : Dict Value)
    → lookup key (merge_vars left right)
      ≡ elim (lookup key right) [ none ↦ lookup key left | some v ↦ some v ]
unfolding merge_vars lookup
lookup-merge_vars key left [] = refl
lookup-merge_vars key left ((k, v) ∷ right) =
    ground (arith, lookup-insert k key v (merge_vars left right), lookup-merge_vars key left right)

-- A segment mentions the account `id`.
abbrev pub mentions : Text → Segment → Bool
mentions id seg = seg.kind == codes "at" && id == sprint_field (lookup (codes "id") seg.fields)

find_mention-any :
    (id : Text) (segs : List Segment)
    → is_some (find_mention (id ∷ []) segs) ≡ any (mentions id) segs
unfolding find_mention contains
find_mention-any id [] = refl
find_mention-any id (seg ∷ segs) = ground (arith, find_mention-any id segs)

-- ToMe matches exactly the private messages, and the messages that mention the bot's own account.
match_to_me-ok :
    (e : Event)
    → (match_to_me (some e)).1 ≡ (
        e.kind == codes "message"
        && ((is_empty e.group_id && given e.user_id)
            || (given e.self_id && any (mentions e.self_id) e.message)))
unfolding match_to_me match_mention
match_to_me-ok e = ground (arith, find_mention-any e.self_id e.message)
