-- ===== src/Onebot/Event.antt =====
-- adapters/onebot11/event.go: the events of OneBot as the framework sees them. Decoding JSON and the
-- text of a number, fmt.Sprint, are parameters; an event's Data is the OneBot event itself, which the
-- parameter `as_value` stands for.
pub mod Conversations
use anybot.Base.{
  ℕ, zero, suc, ◌+◌, ◌-◌, ◌≤◌, ◌<◌, ◌≡◌, refl, sym, ap, ◌∙◌, subst, ◌≢◌, ◌↔◌, ◌⊎◌, inl, inr, Bool,
  true, false, not, ◌&&◌, ◌||◌, Option, none, some, List, [], ◌∷◌, ◌++◌, map, arith, Bool-cases,
  Option-cases, Text, codes, if◌then◌else◌, ◌==◌, is_empty,
}
use anybot.Base.{ℤ, pos, zero}
use anybot.Core.Message.{Chain, Value, chain_text}
use anybot.Core.Event.{Event}

-- The fields that Normalize reads.
pub record OnebotEvent : Type 0 where
  pub self_id : ℤ
  pub post_type : Text
  pub sub_type : Text
  pub raw_message : Text
  pub message_type : Text
  pub message_id : ℤ
  pub user_id : ℤ
  pub group_id : ℤ
  pub chain : Chain
  pub notice_type : Text
  pub request_type : Text
  pub meta_event_type : Text
  pub raw_json : Text

abbrev pub onebot_protocol : Text
onebot_protocol = codes "onebot11"

abbrev pub is_zero : ℤ → Bool
is_zero (pos zero) = true
is_zero _ = false

-- The switch on the type of the event.
unfoldable pub detail_type : OnebotEvent → Text
unfolding ◌==◌
detail_type e =
    if e.post_type == codes "message"
    then e.message_type
    else if e.post_type == codes "notice"
    then e.notice_type
    else if e.post_type == codes "request"
    then e.request_type
    else if e.post_type == codes "meta_event"
    then e.meta_event_type
    else e.sub_type

-- idString
unfoldable pub id_string : (ℤ → Text) → ℤ → Text
id_string show_int id = if is_zero id then [] else show_int id

module _ (show_int : ℤ → Text) (as_value : OnebotEvent → Value) where
  unfoldable pub normalize : OnebotEvent → Event
  unfolding detail_type id_string chain_text
  normalize e = record {
    id = id_string show_int e.message_id;
    protocol = onebot_protocol;
    self_id = id_string show_int e.self_id;
    kind = e.post_type;
    detail = detail_type e;
    sub_kind = e.sub_type;
    user_id = id_string show_int e.user_id;
    group_id = id_string show_int e.group_id;
    guild_id = [];
    channel_id = [];
    text = if is_empty (chain_text e.chain) then e.raw_message else chain_text e.chain;
    message = e.chain;
    raw = e.raw_json;
    payload = some (as_value e);
  }
