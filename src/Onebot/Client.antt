-- ===== src/Onebot/Client.antt =====
-- adapters/onebot11/client.go, response.go and id.go: a typed call of an action, what counts as its
-- success, and the choice of the action that sends a message. The transport, the decoding of JSON and
-- strconv.ParseInt are parameters; deadlines are the transport's.
use anybot.Base.{zero, true, false}
use anybot.Base.{ℤ, pos, zero}
use anybot.Base.{
  ◌⊎◌, inl, inr, Bool, not, ◌&&◌, Option, none, some, ◌++◌, Text, codes, if◌then◌else◌, ◌==◌,
  is_empty,
}

-- Response, with its data as text.
pub record Response : Type 0 where
  pub status : Text
  pub ret_code : ℤ
  pub payload : Text
  pub message : Text
  pub wording : Text

pub record ActionError : Type 0 where
  pub action : Text
  pub status : Text
  pub ret_code : ℤ
  pub message : Text
  pub wording : Text

-- ActionError.Error, where `show_int` is the verb %d.
unfoldable pub action_error_text : (ℤ → Text) → ActionError → Text
action_error_text show_int e =
    let worded = if is_empty e.message then e.wording else e.message in
    let detail = if is_empty worded then codes "action failed" else worded in
    e.action
    ++ (codes ": status="
        ++ (e.status ++ (codes " retcode=" ++ (show_int e.ret_code ++ (codes ": " ++ detail)))))

abbrev is_zero : ℤ → Bool
is_zero (pos zero) = true
is_zero _ = false

-- Response.OK of a response that is not nil
unfoldable pub is_ok : Response → Bool
unfolding ◌==◌
is_ok r = r.status == codes "ok" && is_zero r.ret_code

-- Response.Decode: whether the payload is decoded at all
unfoldable pub has_payload : Response → Bool
unfolding ◌==◌
has_payload r = not (is_empty r.payload) && not (r.payload == codes "null")

pub data CallError : Type 0 where
  transport_error : Text → CallError
  nil_response : Text → CallError
  action_failed : ActionError → CallError
  decode_error : Text → CallError
  reply_target_unavailable : CallError

-- `Answer` is what the caller decodes into.
module _ {Answer : Type 0} (empty_answer : Answer) (decode : Text → Text ⊎ Answer) where
  unfoldable pub decode_response : Response → CallError ⊎ Answer
  unfolding has_payload
  decode_response r =
      if has_payload r
      then elim (decode r.payload) [ inl e ↦ inl (decode_error e) | inr a ↦ inr a ]
      else inr empty_answer

  -- Client.Call, by what the transport gives: an error, or a response that may be nil.
  unfoldable pub call_action : Text → Text ⊎ Option Response → CallError ⊎ Answer
  unfolding is_ok decode_response
  call_action action (inl e) = inl (transport_error e)
  call_action action (inr none) = inl (nil_response action)
  call_action action (inr (some r)) =
      if is_ok r
      then decode_response r
      else inl (
          action_failed (record {
            action = action;
            status = r.status;
            ret_code = r.ret_code;
            message = r.message;
            wording = r.wording;
          }))

-- idParam: a number where the text is one.
pub data IdParam : Type 0 where
  number : ℤ → IdParam
  words : Text → IdParam

module _ (parse_int : Text → Option ℤ) where
  unfoldable pub id_param : Text → IdParam
  id_param id = elim (parse_int id) [ some n ↦ number n | none ↦ words id ]

-- Client.Send: the action and the parameter that names the target, the group before the user.
pub data SendAction : Type 0 where
  send_group_msg send_private_msg : IdParam → SendAction

module _ (parse_int : Text → Option ℤ) where
  unfoldable pub send_action : Text → Text → CallError ⊎ SendAction
  unfolding id_param
  send_action group_id user_id =
      if not (is_empty group_id)
      then inr (send_group_msg (id_param parse_int group_id))
      else if not (is_empty user_id)
      then inr (send_private_msg (id_param parse_int user_id))
      else inl reply_target_unavailable
