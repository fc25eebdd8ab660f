-- ===== src/Core/Event.antt =====
-- core/event.go: the protocol-neutral event and the keys under which sessions are stored. An event
-- that may be nil is an `Option`; the raw bytes are text.
pub mod Keys
use anybot.Base.{
  Bool, false, not, ◌&&◌, ◌||◌, Option, none, some, [], ◌++◌, Text, codes, ◌==◌, if◌then◌else◌,
  is_empty,
}
use anybot.Core.Message.{Chain, Value}

pub record Event : Type 0 where
  pub id : Text
  pub protocol : Text
  pub self_id : Text
  pub kind : Text
  pub detail : Text
  pub sub_kind : Text
  pub user_id : Text
  pub group_id : Text
  pub guild_id : Text
  pub channel_id : Text
  pub text : Text
  pub message : Chain
  pub raw : Text
  pub payload : Option Value

-- The test `s != ""`.
abbrev pub given : Text → Bool
given s = not (is_empty s)

-- ConversationID
unfoldable pub conversation_id : Option Event → Text
conversation_id none = []
conversation_id (some e) =
    if given e.guild_id || given e.channel_id
    then e.protocol
      ++ (codes ":guild:"
          ++ (e.guild_id ++ (codes ":channel:" ++ (e.channel_id ++ (codes ":user:" ++ e.user_id)))))
    else if given e.group_id
    then e.protocol ++ (codes ":group:" ++ (e.group_id ++ (codes ":user:" ++ e.user_id)))
    else if given e.user_id
    then e.protocol ++ (codes ":private:" ++ e.user_id)
    else e.protocol
      ++ (codes ":self:" ++ (e.self_id ++ (codes ":" ++ (e.kind ++ (codes ":" ++ e.detail)))))

-- UserSessionID
unfoldable pub user_session_id : Option Event → Text
user_session_id none = []
user_session_id (some e) =
    if given e.user_id then e.protocol ++ (codes ":user:" ++ e.user_id) else []

-- GroupSessionID
unfoldable pub group_session_id : Option Event → Text
group_session_id none = []
group_session_id (some e) =
    if given e.guild_id || given e.channel_id
    then e.protocol ++ (codes ":guild:" ++ (e.guild_id ++ (codes ":channel:" ++ e.channel_id)))
    else if given e.group_id
    then e.protocol ++ (codes ":group:" ++ e.group_id)
    else []

-- ReplyTarget, of core/adapter.go.
pub record ReplyTarget : Type 0 where
  pub protocol : Text
  pub self_id : Text
  pub user_id : Text
  pub group_id : Text
  pub guild_id : Text
  pub channel_id : Text
  pub event_id : Text

-- Target
unfoldable pub target : Option Event → ReplyTarget
target none = record {
  protocol = [];
  self_id = [];
  user_id = [];
  group_id = [];
  guild_id = [];
  channel_id = [];
  event_id = [];
}
target (some e) = record {
  protocol = e.protocol;
  self_id = e.self_id;
  user_id = e.user_id;
  group_id = e.group_id;
  guild_id = e.guild_id;
  channel_id = e.channel_id;
  event_id = e.id;
}

-- IsMessage
unfoldable pub is_message : Option Event → Bool
is_message none = false
is_message (some e) = e.kind == codes "message"
