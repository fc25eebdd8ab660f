-- ===== src/Core/Rules.antt =====
-- core/rules.go: the rules on events and the combinators. A rule that may be nil is an `Option`.
pub mod Command
pub mod Argv
pub mod Quote
pub mod Spoken
pub mod Laws
use anybot.Base.{
  ℕ, zero, suc, Bool, true, false, not, ◌&&◌, ◌||◌, Option, none, some, List, [], ◌∷◌, ◌++◌, map,
  Text, codes, ◌==◌, contains, join, has_substring, strip_prefix, trim_space, Dict, lookup, insert,
  if◌then◌else◌, is_empty,
}
use anybot.Core.Errors.{error_text}
use anybot.Core.Message.{Value, str, strs, err, other, Segment}
use anybot.Core.Event.{Event, given}
use anybot.Core.Match.{Match, no_match, merge_match}
use anybot.Core.Context.{Context, user_id, text}
use anybot.Core.Runtime.{State, Rule}

-- fmt.Sprint of one value.
unfoldable pub sprint : Value → Text
sprint (str t) = t
sprint (strs ts) = codes "[" ++ (join (codes " ") ts ++ codes "]")
sprint (err e) = error_text e
sprint (other t) = t

-- fmt.Sprint of a map's value, which is nil where the key is missing.
unfoldable pub sprint_field : Option Value → Text
unfolding sprint
sprint_field none = codes "<nil>"
sprint_field (some v) = sprint v

-- stringSet
unfoldable pub string_set : List Value → List Text
unfolding sprint
string_set values = map sprint values

abbrev pub plain_match : ℕ → Text → Match
plain_match score reason = record { score = score; reason = reason; vars = [] }

-- The first mention among the segments that `want` allows.
unfoldable pub find_mention : List Text → List Segment → Option Text
unfolding sprint_field
find_mention want [] = none
find_mention want (seg ∷ segs) =
    if seg.kind == codes "at"
      && (is_empty want || contains want (sprint_field (lookup (codes "id") seg.fields)))
    then some (sprint_field (lookup (codes "id") seg.fields))
    else find_mention want segs

-- The part of Mentioned after the ids are made a set.
unfoldable pub match_mention : List Text → Option Event → Match × Bool
unfolding find_mention
match_mention want none = (no_match, false)
match_mention want (some e) =
    if not (e.kind == codes "message")
    then (no_match, false)
    else elim (find_mention want e.message) [
      | none ↦ (no_match, false)
      | some id ↦ (
        record { score = 2; reason = codes "mentioned"; vars = (codes "mentioned", str id) ∷ [] },
        true,
      )
    ]

-- ToMe
unfoldable pub match_to_me : Option Event → Match × Bool
unfolding match_mention
match_to_me none = (no_match, false)
match_to_me (some e) =
    if not (e.kind == codes "message")
    then (no_match, false)
    else if is_empty e.group_id && given e.user_id
    then (plain_match 2 (codes "to_me"), true)
    else if is_empty e.self_id
    then (no_match, false)
    else let (m, ok) = match_mention (e.self_id ∷ []) (some e) in
      if ok then (record m { reason = codes "to_me" }, true) else (no_match, false)

-- FromSelf
unfoldable pub match_from_self : Option Event → Match × Bool
match_from_self none = (no_match, false)
match_from_self (some e) =
    if is_empty e.self_id || is_empty e.user_id
    then (no_match, false)
    else (plain_match 1 (codes "from_self"), e.self_id == e.user_id)

-- `event != nil && test(event)`
abbrev pub on_event : Option Event → (Event → Bool) → Bool
on_event none test = false
on_event (some e) test = test e

-- What a compiled regular expression gives, from Go's package regexp: the groups of the first match,
-- the whole match first, and the names of the groups, with "" for one that has none.
pub record Regexp : Type 0 where
  pub source : Text
  pub find : Text → Option (List Text)
  pub names : List Text

-- The loop over SubexpNames, from the second name on.
unfoldable pub named_groups : List Text → List Text → Dict Value → Dict Value
named_groups [] _ vars = vars
named_groups (n ∷ ns) [] vars = vars
named_groups (n ∷ ns) (m ∷ ms) vars =
    named_groups ns ms (if given n then insert n (str m) vars else vars)

abbrev tail : List Text → List Text
tail [] = []
tail (_ ∷ ts) = ts

unfoldable pub match_regexp : Option Regexp → Text → Match × Bool
unfolding named_groups
match_regexp none t = (no_match, false)
match_regexp (some re) t = elim (re.find t) [
  | none ↦ (no_match, false)
  | some groups ↦ (
    record {
      score = 2;
      reason = codes "regex:" ++ re.source;
      vars = named_groups (tail re.names) (tail groups) ((codes "matches", strs groups) ∷ []);
    },
    true,
  )
]

-- Prefix
unfoldable pub match_prefix : Text → Text → Match × Bool
match_prefix prefix t =
    if is_empty prefix then (no_match, false) else elim (strip_prefix prefix (trim_space t)) [
      | none ↦ (no_match, false)
      | some rest ↦ (
        record {
          score = 2;
          reason = codes "prefix:" ++ prefix;
          vars = (codes "prefix", str prefix) ∷ (codes "rest", str (trim_space rest)) ∷ [];
        },
        true,
      )
    ]

module _ {W : Type 0} where
  -- A rule that only reads the context.
  abbrev pub reading : (Context → Match × Bool) → Rule W
  reading f s = let (m, ok) = f s.context in (m, ok, s)

  -- Any
  unfoldable pub any_event : Rule W
  any_event = reading (λ c. (plain_match 1 (codes "any"), true))

  -- The loop of All, of Route.match and of Observer.match: the first rule that fails ends it.
  unfoldable pub match_each : List (Option (Rule W)) → Match → Rule W
  match_each [] merged s = (merged, true, s)
  match_each (none ∷ rules) merged s = match_each rules merged s
  match_each (some rule ∷ rules) merged s =
      let (m, ok, s') = rule s in
      elim ok [ true ↦ match_each rules (merge_match merged m) s' | false ↦ (no_match, false, s') ]

  -- All
  unfoldable pub all_of : List (Option (Rule W)) → Rule W
  unfolding match_each
  all_of rules s =
      let (m, ok, s') = match_each rules no_match s in
      (if ok && is_empty m.reason then record m { reason = codes "all" } else m, ok, s')

  -- AnyOf
  unfoldable pub any_of : List (Option (Rule W)) → Rule W
  any_of [] s = (no_match, false, s)
  any_of (none ∷ rules) s = any_of rules s
  any_of (some rule ∷ rules) s =
      let (m, ok, s') = rule s in
      elim ok [
        | true ↦ (if is_empty m.reason then record m { reason = codes "any_of" } else m, true, s')
        | false ↦ any_of rules s'
      ]

  -- Not
  unfoldable pub negate : Option (Rule W) → Rule W
  negate none s = (plain_match 1 (codes "not"), true, s)
  negate (some rule) s = let (m, ok, s') = rule s in (plain_match 1 (codes "not"), not ok, s')

  -- EventType, DetailType, MessageEvent
  unfoldable pub event_type : Text → Rule W
  event_type kind =
      reading (λ c. (plain_match 1 (codes "type:" ++ kind), on_event c.event (λ e. e.kind == kind)))

  unfoldable pub detail_type : Text → Rule W
  detail_type kind =
      reading
        (λ c. (plain_match 1 (codes "detail:" ++ kind), on_event c.event (λ e. e.detail == kind)))

  unfoldable pub message_event : Rule W
  unfolding event_type
  message_event = event_type (codes "message")

  -- Group, Private
  unfoldable pub group : Rule W
  group = reading (λ c. (
    plain_match 1 (codes "group"),
    on_event c.event (λ e. e.kind == codes "message" && given e.group_id),
  ))

  unfoldable pub private : Rule W
  private = reading (λ c. (
    plain_match 1 (codes "private"),
    on_event c.event (λ e. e.kind == codes "message" && given e.user_id && is_empty e.group_id),
  ))

  -- FromUser, InGroup
  unfoldable pub from_user : List Value → Rule W
  unfolding string_set
  from_user ids = reading (λ c. (
    plain_match 1 (codes "from_user"),
    on_event c.event (λ e. contains (string_set ids) e.user_id),
  ))

  unfoldable pub in_group : List Value → Rule W
  unfolding string_set
  in_group ids = reading (λ c. (
    plain_match 1 (codes "in_group"),
    on_event c.event (λ e. contains (string_set ids) e.group_id),
  ))

  -- FromSelf, NotFromSelf
  unfoldable pub from_self : Rule W
  unfolding match_from_self
  from_self = reading (λ c. match_from_self c.event)

  unfoldable pub not_from_self : Rule W
  unfolding negate from_self
  not_from_self = negate (some from_self)

  -- Mentioned, ToMe
  unfoldable pub mentioned : List Value → Rule W
  unfolding match_mention string_set
  mentioned ids = reading (λ c. match_mention (string_set ids) c.event)

  unfoldable pub to_me : Rule W
  unfolding match_to_me
  to_me = reading (λ c. match_to_me c.event)

  -- Contains, Prefix, RegexpRule
  unfoldable pub contains_text : Text → Rule W
  contains_text part = reading (λ c.
      if is_empty part
      then (no_match, false)
      else (plain_match 1 (codes "contains:" ++ part), has_substring part (text c)))

  unfoldable pub prefix_text : Text → Rule W
  unfolding match_prefix
  prefix_text prefix = reading (λ c. match_prefix prefix (text c))

  unfoldable pub regexp_rule : Option Regexp → Rule W
  unfolding match_regexp
  regexp_rule re = reading (λ c. match_regexp re (text c))
