-- ===== src/Sdk/State/Laws.antt =====
-- sdk/state.go over the store of core/store.go: what Load reads after Save.
use anybot.Base.{
  Option-cases, Sum-cases, ◌⊎◌, inl, inr, ℕ, ◌≤◌, ◌≡◌, refl, ap, ◌∙◌, ◌⊎◌, inl, inr, Bool, true,
  false, Option, none, some, arith, Option-cases, Text,
}
use anybot.Base.{lookup, insert, lookup-insert, eq_refl}
use anybot.Core.Errors.{Error}
use anybot.Core.Store.{
  Store, Answer, failed, missing, finished, MemoryStore, Bytes, Session, memory, put, fetch,
  new_item, is_expired, found, full_key, session_get, session_set,
}
use anybot.Core.Store.Spec.{shown, visible}
use anybot.Core.Store.Refinement.{sweep_expired-Shows}
use anybot.Core.Store.Sessions.{answer_of, fetch-answer}
use anybot.Sdk.State.{State, Json, unusable, load_json, save_json, load_state, save_state}

fetch-put :
    (now later ttl : ℕ) (key : Text) (value : Bytes) (s : MemoryStore)
    → now ≤ later
    → is_expired later (new_item now value ttl) ≡ false
    → (fetch later none key (put now none key value ttl s).1).0 ≡ found value
unfolding put shown visible answer_of new_item
fetch-put now later ttl key value s le alive =
    let items = insert key (new_item now value ttl) s.items in
    let there : lookup key items ≡ some (new_item now value ttl) =
      lookup-insert key key (new_item now value ttl) s.items ∙ rw (eq_refl key) refl in
    let live : visible later (some (new_item now value ttl)) ≡ some value = ground (arith, alive) in
    fetch-answer later none key (put now none key value ttl s).1
    ∙ ap shown (
        sweep_expired-Shows now false (record s { items = items }) (λ k. lookup k items)
          (λ _ _ _. refl) key later le
        ∙ ap (visible later) there
        ∙ live)

session_get-same :
    (now later ttl : ℕ) (session : Session) (name : Text) (value : Bytes) (s : MemoryStore)
    → now ≤ later
    → session.broken ≡ none
    → session.has_store ≡ true
    → is_expired later (new_item now value ttl) ≡ false
    → (session_get
        (memory later)
        (some session)
        none
        name
        (session_set (memory now) (some session) none name value ttl s).1).0
      ≡ found value
unfolding session_get session_set
session_get-same now later ttl session name value s le b h alive =
    ground (arith, b, h, fetch-put now later ttl (full_key session name) value s le alive)

save_json-set :
    {T S : Type 0} (json : Json T) (store : Store S) (session : Option Session) (name : Text)
    (value : T) (bytes : Bytes) (ttl : ℕ) (s : S)
    → json.encode value ≡ inr bytes
    → (save_json json store session none name value ttl s).1
      ≡ (session_set store session none name bytes ttl s).1
unfolding save_json
save_json-set json store session name value bytes ttl s e = rw (e, save_json) refl

-- What LoadJSON makes of an answer.
abbrev pub reading : {T : Type 0} → Json T → Answer → T × Bool × Option Error
reading json (failed e) = (json.zero_value, false, some e)
reading json missing = (json.zero_value, false, none)
reading json finished = (json.zero_value, false, none)
reading json (found bytes) = let (value, e) = json.decode bytes in (value, true, e)

found_value :
    {T : Type 0} (json : Json T) (value : T) (bytes : Bytes)
    → json.decode bytes ≡ (value, none)
    → reading json (found bytes) ≡ (value, true, none)
found_value json value bytes d = ap (λ r. (r.0, true, r.1)) d

read_json :
    {T S : Type 0} (json : Json T) (a : Answer × S)
    → (elim a.0 as (λ _. (T × Bool × Option Error) × S) [
      | failed e ↦ ((json.zero_value, false, some e), a.1)
      | missing ↦ ((json.zero_value, false, none), a.1)
      | finished ↦ ((json.zero_value, false, none), a.1)
      | found bytes ↦ (((json.decode bytes).0, true, (json.decode bytes).1), a.1)
    ]).0
      ≡ reading json a.0
read_json json (failed e, s) = refl
read_json json (missing, s) = refl
read_json json (finished, s) = refl
read_json json (found bytes, s) = refl

pub load_json-save_json :
    {T : Type 0} (json : Json T) (session : Session) (name : Text) (value : T) (bytes : Bytes)
    (now later ttl : ℕ) (s : MemoryStore)
    → session.broken ≡ none
    → session.has_store ≡ true
    → json.encode value ≡ inr bytes
    → json.decode bytes ≡ (value, none)
    → now ≤ later
    → is_expired later (new_item now bytes ttl) ≡ false
    → (load_json json
        (memory later)
        (some session)
        none
        name
        (save_json json (memory now) (some session) none name value ttl s).1).0
      ≡ (value, true, none)
unfolding load_json
load_json-save_json json session name value bytes now later ttl s b h e d le alive =
    let t = (session_set (memory now) (some session) none name bytes ttl s).1 in
    rw (save_json-set json (memory now) (some session) name value bytes ttl s e) (
      read_json json (session_get (memory later) (some session) none name t)
      ∙ ap (reading json) (session_get-same now later ttl session name bytes s le b h alive)
      ∙ found_value json value bytes d)

module _ {T S : Type 0} (json : Json T) (store : Store S) (state : State) (session : Session) where
  pub loaded :
      (s : S)
      → unusable state ≡ none
      → state.session ≡ some session
      → (load_state json store state none s).0
        ≡ reading json (session_get store (some session) none state.key s).0
  unfolding load_state load_json
  loaded s u p =
      rw (u, load_state, p) (read_json json (session_get store (some session) none state.key s))

  saved :
      (value : T) (bytes : Bytes) (ttl : ℕ) (s : S)
      → unusable state ≡ none
      → state.session ≡ some session
      → json.encode value ≡ inr bytes
      → (save_state json store state none value ttl s).1
        ≡ (session_set store (some session) none state.key bytes ttl s).1
  unfolding save_state save_json
  saved value bytes ttl s u p e =
      rw (u, save_state)
        (save_json-set json store state.session state.key value bytes ttl s e
          ∙ ap (λ o. (session_set store o none state.key bytes ttl s).1) p)

module _ {T S : Type 0} (json : Json T) (store : Store S) (state : State) where
  pub unloaded :
      (e : Error) (s : S)
      → unusable state ≡ some e
      → (load_state json store state none s).0 ≡ (json.zero_value, false, some e)
  unfolding load_state
  unloaded e s u = rw (u, load_state) refl

  -- Save leaves the store alone, or sets the bytes of the value in the session.
  pub saved_as :
      (session : Session) (value : T) (ttl : ℕ) (s : S)
      → state.session ≡ some session
      → ((save_state json store state none value ttl s).1 ≡ s)
        ⊎ ((bytes : Bytes) × ((save_state json store state none value ttl s).1
              ≡ (session_set store (some session) none state.key bytes ttl s).1))
  unfolding save_state save_json
  saved_as session value ttl s p = elim (Option-cases (unusable state)) [
    | inr (x, u) ↦ inl (rw (u, save_state) refl)
    | inl u ↦ elim (Sum-cases (json.encode value)) [
      | inl (x, e) ↦ inl (rw (u, save_state, save_json, e) refl)
      | inr (bytes, e) ↦ inr (
        bytes,
        rw (u, save_state)
            (save_json-set json store state.session state.key value bytes ttl s e
              ∙ ap (λ o. (session_set store o none state.key bytes ttl s).1) p),
      )
    ]
  ]

module _ {T : Type 0} (json : Json T) where
  -- Load after Save reads the value that was saved, as long as it has not expired: where the state can
  -- be used, its session has a store, and the codec decodes what it encoded.
  load_state-save_state :
      (state : State) (session : Session) (value : T) (bytes : Bytes) (now later ttl : ℕ)
      (s : MemoryStore)
      → unusable state ≡ none
      → state.session ≡ some session
      → session.broken ≡ none
      → session.has_store ≡ true
      → json.encode value ≡ inr bytes
      → json.decode bytes ≡ (value, none)
      → now ≤ later
      → is_expired later (new_item now bytes ttl) ≡ false
      → (load_state json
          (memory later)
          state
          none
          (save_state json (memory now) state none value ttl s).1).0
        ≡ (value, true, none)
  unfolding load_state
  load_state-save_state state session value bytes now later ttl s u p b h e d le alive =
      let t = (session_set (memory now) (some session) none state.key bytes ttl s).1 in
      let stored : (save_state json (memory now) state none value ttl s).1 ≡ t =
        saved json (memory now) state session value bytes ttl s u p e in
      rw stored (
        loaded json (memory later) state session t u p
        ∙ ap (reading json) (session_get-same now later ttl session state.key bytes s le b h alive)
        ∙ found_value json value bytes d)
