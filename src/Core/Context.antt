-- ===== src/Core/Context.antt =====
-- core/context.go: the context that a route's handler works on. Methods that change it return the new
-- one. The App that it points to, with store, client and logger, is passed beside it.
use anybot.Base.{
  ℕ, Bool, false, true, ◌&&◌, Option, none, some, List, [], Text, codes, ◌==◌, Dict, lookup, insert,
  if◌then◌else◌, is_empty,
}
use anybot.Core.Errors.{Error, sentinel, Sentinel}
use anybot.Core.Message.{Value, str, strs, chain_text}
use anybot.Core.Event.{Event, given}
use anybot.Core.Event
use anybot.Core.Match.{Match, no_match}

-- A context.Context of Go: the background, one that a caller gave, or one with a timeout.
pub data GoContext : Type 0 where
  background : GoContext
  request : ℕ → GoContext
  with_timeout : ℕ → GoContext → GoContext

pub record Context : Type 0 where
  pub go : GoContext
  pub event : Option Event
  pub match : Match
  pub route : Option ℕ
  pub values : Dict Value
  pub match_vars : Dict Value
  pub stopped : Bool

-- newContext, where a nil context stands for the background.
unfoldable pub new_context : Option GoContext → Option Event → Context
new_context go event = record {
  go = elim go [ none ↦ background | some g ↦ g ];
  event = event;
  match = no_match;
  route = none;
  values = [];
  match_vars = [];
  stopped = false;
}

-- clearMatch
unfoldable pub clear_match : Context → Context
clear_match c = record c { route = none; match = no_match; match_vars = []; values = [] }

-- applyMatch: the variables are cloned.
unfoldable pub apply_match : ℕ → Match → Context → Context
unfolding clear_match
apply_match route m c = record (clear_match c) {
  route = some route;
  match = m;
  match_vars = m.vars;
}

-- Set and Get
unfoldable pub set : Text → Value → Context → Context
set key value c = record c { values = insert key value c.values }

unfoldable pub get : Text → Context → Option Value
get key c = lookup key c.values

-- `text, _ := value.(string)` of a value that may be missing.
unfoldable pub string_or_empty : Option Value → Text
string_or_empty (some (str t)) = t
string_or_empty _ = []

-- String
unfoldable pub string : Text → Context → Text
unfolding string_or_empty get
string key c = string_or_empty (get key c)

-- matchVar, Var
unfoldable pub match_var : Text → Context → Option Value
match_var key c = lookup key c.match_vars

-- matchString, VarString
unfoldable pub match_string : Text → Context → Text
unfolding string_or_empty match_var
match_string key c = string_or_empty (match_var key c)

-- Command, Args
unfoldable pub command : Context → Text
unfolding match_string
command c = match_string (codes "command") c

unfoldable pub args : Context → Text
unfolding match_string
args c = match_string (codes "args") c

-- `argv, _ := value.([]string)`
unfoldable pub strings_or_empty : Option Value → List Text
strings_or_empty (some (strs ts)) = ts
strings_or_empty _ = []

-- Argv
unfoldable pub argv : Context → List Text
unfolding strings_or_empty match_var
argv c = strings_or_empty (match_var (codes "argv") c)

-- ConversationID of the context.
unfoldable pub conversation_id : Context → Text
conversation_id c = Event.conversation_id c.event

-- UserID, SelfID, GroupID: empty where there is no event.
unfoldable pub user_id : Context → Text
user_id c = elim c.event [ none ↦ [] | some e ↦ e.user_id ]

unfoldable pub self_id : Context → Text
self_id c = elim c.event [ none ↦ [] | some e ↦ e.self_id ]

unfoldable pub group_id : Context → Text
group_id c = elim c.event [ none ↦ [] | some e ↦ e.group_id ]

-- IsPrivate, IsGroup
unfoldable pub is_private : Context → Bool
is_private c = elim c.event [
  | none ↦ false
  | some e ↦ e.kind == codes "message" && given e.user_id && is_empty e.group_id
]

unfoldable pub is_group : Context → Bool
is_group c = elim c.event [ none ↦ false | some e ↦ e.kind == codes "message" && given e.group_id ]

-- Text: the event's own text before that of its message chain.
unfoldable pub text : Context → Text
text c = elim c.event [ none ↦ [] | some e ↦ if given e.text then e.text else chain_text e.message ]

-- Stop
unfoldable pub stop : Context → Context
stop c = record c { stopped = true }

-- StopError
unfoldable pub stop_error : Context → Error × Context
unfolding stop
stop_error c = (sentinel Sentinel.stop, stop c)
