-- ===== src/Sdk/State.antt =====
-- sdk/state.go: typed state of a plugin, and LoadJSON and SaveJSON of core/store.go. The JSON codec is
-- a parameter: decoding leaves a value and perhaps an error, as json.Unmarshal does. A Go context's
-- error is the argument `ctx` of an operation. A State of a nil SDK context, or without a store, has
-- no session.
pub mod Laws
pub mod Apart
use anybot.Base.{
  ℕ, zero, suc, ◌+◌, ◌-◌, ◌≤◌, ◌<◌, ◌≡◌, refl, sym, ap, ◌∙◌, subst, ◌≢◌, ◌↔◌, ◌⊎◌, inl, inr, Bool,
  true, false, not, ◌&&◌, ◌||◌, Option, none, some, List, [], ◌∷◌, ◌++◌, map, arith, Bool-cases,
  Option-cases, Text, codes, if◌then◌else◌,
}
use anybot.Base.{is_empty, trim_space}
use anybot.Core.Errors.{Error, sentinel, joined, plain, Sentinel}
use anybot.Core.Context.{Context}
use anybot.Core.Event.{group_session_id}
use anybot.Core.Store.{
  Session, Store, Answer, Bytes, failed, missing, finished, found, session_get, session_set,
  session_delete,
}
use anybot.Sdk.Sessions.{Plugin, session_by, conversation_session, user_session}

pub record State : Type 0 where
  pub session : Option Session
  pub event : Option Context
  pub key : Text
  pub error : Option Error

pub record Json (T : Type 0) : Type 0 where
  pub zero_value : T
  pub encode : T → Error ⊎ Bytes
  pub decode : Bytes → T × Option Error

-- validateStateKey
unfoldable pub validate_state_key : Text → Option Error
unfolding trim_space
validate_state_key key =
    if is_empty (trim_space key) then some (sentinel Sentinel.state_key_required) else none

-- The state without a session.
unfoldable pub bare_state : Option Context → Text → State
unfolding validate_state_key
bare_state event key = record {
  session = none;
  event = event;
  key = key;
  error = validate_state_key key;
}

-- The constructors begin with the test for the store.
unfoldable pub with_store : Option Plugin → State → (Plugin → State) → State
with_store none state f = state
with_store (some plugin) state f = if plugin.has_store then f plugin else state

-- ConversationState
unfoldable pub conversation_state : Option Plugin → Option Context → Text → State
unfolding bare_state with_store conversation_session
conversation_state ctx event key =
    let state = bare_state event key in
    with_store ctx state
      (λ plugin. record state { session = some (conversation_session plugin event) })

-- UserState
unfoldable pub user_state : Option Plugin → Option Context → Text → State
unfolding bare_state with_store user_session
user_state ctx event key =
    let state = bare_state event key in
    with_store ctx state (λ plugin. record state { session = some (user_session plugin event) })

-- errors.Join with an error that may be nil.
abbrev pub join_error : Option Error → Error → Error
join_error none e = e
join_error (some d) e = joined d e

-- GroupState behind the test for the store.
unfoldable pub grouped : State → Plugin → State
unfolding session_by
grouped state plugin = elim state.event [
  | none ↦ record state {
    error = some (join_error state.error (sentinel Sentinel.event_context_unavailable));
  }
  | some c ↦
      let id = group_session_id c.event in
      if is_empty id
      then record state {
        error = some (join_error state.error (sentinel Sentinel.group_context_unavailable));
      }
      else record state { session = some (session_by plugin id) }
]

-- GroupState
unfoldable pub group_state : Option Plugin → Option Context → Text → State
unfolding bare_state with_store grouped
group_state ctx event key = let state = bare_state event key in with_store ctx state (grouped state)

-- NamedState
unfoldable pub named_state : Option Plugin → Option Context → Text → Text → State
unfolding bare_state with_store session_by
named_state ctx event key scope =
    let state = bare_state event key in
    with_store ctx state (λ plugin. record state { session = some (session_by plugin scope) })

-- The tests that Load, Save and Delete begin with.
unfoldable pub unusable : State → Option Error
unusable state = elim state.error [
  | some e ↦ some e
  | none ↦ elim state.session [
    | none ↦ some (sentinel Sentinel.store_unavailable)
    | some _ ↦ elim state.event [
      | none ↦ some (sentinel Sentinel.event_context_unavailable)
      | some _ ↦ none
    ]
  ]
]

abbrev pub error_of : Answer → Option Error
error_of (failed e) = some e
error_of _ = none

module _ {T S : Type 0} (json : Json T) (store : Store S) where
  -- Session.LoadJSON into the zero value.
  unfoldable pub load_json :
      Option Session → Option Error → Text → S → (T × Bool × Option Error) × S
  unfolding session_get
  load_json session ctx name s =
      let (answer, s') = session_get store session ctx name s in
      elim answer [
        | failed e ↦ ((json.zero_value, false, some e), s')
        | missing ↦ ((json.zero_value, false, none), s')
        | finished ↦ ((json.zero_value, false, none), s')
        | found bytes ↦ let (value, e) = json.decode bytes in ((value, true, e), s')
      ]

  -- Session.SaveJSON
  unfoldable pub save_json : Option Session → Option Error → Text → T → ℕ → S → Option Error × S
  unfolding session_set
  save_json session ctx name value ttl s = elim (json.encode value) [
    | inl e ↦ (some e, s)
    | inr bytes ↦
        let (answer, s') = session_set store session ctx name bytes ttl s in (error_of answer, s')
  ]

  -- Load
  unfoldable pub load_state : State → Option Error → S → (T × Bool × Option Error) × S
  unfolding unusable load_json
  load_state state ctx s = elim (unusable state) [
    | some e ↦ ((json.zero_value, false, some e), s)
    | none ↦ load_json state.session ctx state.key s
  ]

  -- LoadOr
  unfoldable pub load_or : State → Option Error → T → S → (T × Option Error) × S
  unfolding load_state
  load_or state ctx fallback s =
      let ((value, ok, e), s') = load_state state ctx s in
      elim e [
        | some x ↦ ((fallback, some x), s')
        | none ↦ ((if ok then value else fallback, none), s')
      ]

  -- Save
  unfoldable pub save_state : State → Option Error → T → ℕ → S → Option Error × S
  unfolding unusable save_json
  save_state state ctx value ttl s = elim (unusable state) [
    | some e ↦ (some e, s)
    | none ↦ save_json state.session ctx state.key value ttl s
  ]

  -- Delete
  unfoldable pub delete_state : State → Option Error → S → Option Error × S
  unfolding unusable session_delete
  delete_state state ctx s = elim (unusable state) [
    | some e ↦ (some e, s)
    | none ↦
        let (answer, s') = session_delete store state.session ctx state.key s in
        (error_of answer, s')
  ]

  -- Update: the change of the value may fail, and a nil function is refused.
  unfoldable pub update_state :
      State → Option Error → T → ℕ → Option (T → T × Option Error) → S → (T × Option Error) × S
  unfolding load_or save_state
  update_state state ctx fallback ttl change s =
      let ((value, e), s') = load_or state ctx fallback s in
      elim e [
        | some x ↦ ((fallback, some x), s')
        | none ↦ elim change [
          | none ↦ ((value, some (plain (codes "plugin state update function is required"))), s')
          | some f ↦
              let (value', bad) = f value in
              elim bad [
                | some x ↦ ((value', some x), s')
                | none ↦
                    let (wrong, s'') = save_state state ctx value' ttl s' in ((value', wrong), s'')
              ]
        ]
      ]
