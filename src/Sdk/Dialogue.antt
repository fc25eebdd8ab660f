-- ===== src/Sdk/Dialogue.antt =====
-- sdk/dialogue.go: dialogues of several steps, whose record is kept in a session. A dialogue and its SDK
-- context may not be nil here; `plugin` is none where the context of the dialogue is nil. A handler works
-- on the event's context and on the world S that holds the store; its panics are not modelled. The rule
-- passes its record or its error on to the handler in the variables of the match, which is `Carried`.
-- `marshalled` is what json.Marshal makes of the data. Texts behind %q stand between quotes.
pub mod Turn
pub mod Laws
pub mod Resume
use anybot.Base.{
  ℕ, zero, suc, ◌+◌, ◌-◌, ◌≤◌, ◌<◌, ◌≡◌, refl, sym, ap, ◌∙◌, subst, ◌≢◌, ◌↔◌, ◌⊎◌, inl, inr, Bool,
  true, false, not, ◌&&◌, ◌||◌, Option, none, some, List, [], ◌∷◌, ◌++◌, map, arith, Bool-cases,
  Option-cases, Text, codes, if◌then◌else◌, eqb,
}
use anybot.Base.{ℤ, pos, Dict, lookup, insert, trim_space, is_empty, is_some}
use anybot.Core.Errors.{Error, sentinel, plain, wrapped, is, is_error, Sentinel}
use anybot.Core.Context.{Context, stop}
use anybot.Core.Match.{Match, no_match}
use anybot.Core.Store.{Session, Store, Bytes, session_delete}
use anybot.Sdk.Sessions.{Plugin, conversation_session, user_session, group_session}
use anybot.Sdk.State.{Json, load_json, save_json, error_of}

pub data DialogueScope : Type 0 where
  conversation_scope user_scope group_scope : DialogueScope

-- DialogueOption, over what stands for a rule.
pub data DialogueOption (R : Type 0) : Type 0 where
  with_ttl : ℕ → DialogueOption R
  with_priority : ℤ → DialogueOption R
  with_rules : List R → DialogueOption R
  with_scope : DialogueScope → DialogueOption R

pub record DialogueOptions (R : Type 0) : Type 0 where
  pub ttl : ℕ
  pub priority : ℤ
  pub rules : List R
  pub scope : DialogueScope

unfoldable pub apply_option :
    {R : Type 0} → DialogueOption R → DialogueOptions R → DialogueOptions R
apply_option (with_ttl ttl) options = record options { ttl = ttl }
apply_option (with_priority priority) options = record options { priority = priority }
apply_option (with_rules rules) options = record options { rules = options.rules ++ rules }
apply_option (with_scope scope) options = record options { scope = scope }

-- The options of Context.Dialogue; a nil option is skipped.
unfoldable pub dialogue_options :
    {R : Type 0} → List (Option (DialogueOption R)) → DialogueOptions R → DialogueOptions R
unfolding apply_option
dialogue_options [] options = options
dialogue_options (none ∷ opts) options = dialogue_options opts options
dialogue_options (some opt ∷ opts) options = dialogue_options opts (apply_option opt options)

abbrev pub default_options : {R : Type 0} → DialogueOptions R
default_options = record { ttl = 0; priority = pos 1000; rules = []; scope = conversation_scope }

-- dialogueRecord
pub record DialogueRecord : Type 0 where
  pub step : Text
  pub payload : Bytes
  pub created_at : ℕ
  pub updated_at : ℕ

abbrev pub Handler : Type 0 → Type 0
Handler S = DialogueRecord → Context → S → Option Error × Context × S

pub record Dialogue (S : Type 0) : Type 0 where
  pub plugin : Option Plugin
  pub name : Text
  pub ttl : ℕ
  pub scope : DialogueScope
  pub handlers : Dict (Option (Handler S))

-- The name of a dialogue.
unfoldable pub dialogue_name : Text → Text
unfolding trim_space
dialogue_name name = if is_empty (trim_space name) then codes "default" else trim_space name

-- Context.Dialogue, without its route.
unfoldable pub new_dialogue :
    {R S : Type 0} → Option Plugin → Text → List (Option (DialogueOption R)) → Dialogue S
unfolding dialogue_name dialogue_options
new_dialogue plugin name opts =
    let options = dialogue_options opts default_options in
    record {
      plugin = plugin;
      name = dialogue_name name;
      ttl = options.ttl;
      scope = options.scope;
      handlers = [];
    }

-- storeKey
abbrev pub store_key : Text → Text
store_key name = codes "dialogue:" ++ name

abbrev pub step_error : Text → Text → Text → Error
step_error name step text =
    plain (codes "dialogue " ++ (name ++ (codes " step \"" ++ (step ++ (codes "\" " ++ text)))))

module _ {S : Type 0} where
  -- Step
  unfoldable pub step : Text → Option (Handler S) → Dialogue S → Dialogue S
  unfolding trim_space
  step name handler d =
      if is_empty (trim_space name)
      then d
      else record d { handlers = insert (trim_space name) handler d.handlers }

  -- handler: nil where there is none.
  unfoldable pub handler_of : Text → Dialogue S → Option (Handler S)
  handler_of name d = elim (lookup name d.handlers) [ none ↦ none | some h ↦ h ]

  -- hasStep
  unfoldable pub has_step : Text → Dialogue S → Bool
  has_step name d = is_some (lookup name d.handlers)

  -- session
  unfoldable pub dialogue_session : Dialogue S → Option Context → Error ⊎ Session
  unfolding conversation_session user_session group_session
  dialogue_session d c = elim d.plugin [
    | none ↦ inl (plain (codes "anybot: dialogue context is nil"))
    | some plugin ↦ elim c [
      | none ↦ inl (plain (codes "anybot: dialogue event context is nil"))
      | some event ↦ elim d.scope [
        | user_scope ↦ inr (user_session plugin (some event))
        | group_scope ↦ inr (group_session plugin (some event))
        | conversation_scope ↦ inr (conversation_session plugin (some event))
      ]
    ]
  ]

  -- The tests of a step's name that saveNewState and nextRecord begin with.
  unfoldable pub known_step : Dialogue S → Text → Error ⊎ Text
  unfolding trim_space has_step
  known_step d given =
      let name = trim_space given in
      if is_empty name
      then inl (plain (codes "dialogue " ++ (d.name ++ codes " step is required")))
      else if not (has_step name d)
      then inl (step_error d.name name (codes "is not registered"))
      else inr name

  -- marshalDialogueData, with the text that stands before its error.
  unfoldable pub marshalled_data : Dialogue S → Error ⊎ Bytes → Error ⊎ Bytes
  marshalled_data d marshalled = elim marshalled [
    | inl e ↦ inl (wrapped (codes "dialogue " ++ (d.name ++ codes " state: ")) e)
    | inr bytes ↦ inr bytes
  ]

  -- newDialogueRecord behind the tests of saveNewState.
  unfoldable pub new_record : Dialogue S → Text → Error ⊎ Bytes → ℕ → Error ⊎ DialogueRecord
  unfolding known_step marshalled_data
  new_record d given marshalled now = elim (known_step d given) [
    | inl e ↦ inl e
    | inr name ↦ elim (marshalled_data d marshalled) [
      | inl e ↦ inl e
      | inr bytes ↦
          inr (record { step = name; payload = bytes; created_at = now; updated_at = now })
    ]
  ]

  -- nextRecord: the zero time is 0.
  unfoldable pub next_record :
      Dialogue S → DialogueRecord → Text → Error ⊎ Bytes → ℕ → Error ⊎ DialogueRecord
  unfolding known_step marshalled_data
  next_record d current given marshalled now = elim (known_step d given) [
    | inl e ↦ inl e
    | inr name ↦ elim (marshalled_data d marshalled) [
      | inl e ↦ inl e
      | inr bytes ↦ inr (record {
        step = name;
        payload = bytes;
        created_at = if eqb current.created_at 0 then now else current.created_at;
        updated_at = now;
      })
    ]
  ]
