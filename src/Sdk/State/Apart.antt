-- ===== src/Sdk/State/Apart.antt =====
-- sdk/state.go over the store of core/store.go: the states of different plugins.
use anybot.Base.{
  ℕ, ◌≤◌, ◌≡◌, sym, ap, ◌∙◌, ◌≢◌, inl, inr, false, none, some, arith, Bool-cases, Option-cases,
  Text,
}
use anybot.Base.{eq_iff, ◌==◌}
use anybot.Core.Store.{
  MemoryStore, Bytes, Session, memory, full_key, session_get, session_set, put, fetch,
}
use anybot.Core.Store.Sessions.{fetch-answer, put-other}
use anybot.Sdk.PluginId.{validate_plugin_id}
use anybot.Sdk.Sessions.{Plugin, session_by}
use anybot.Sdk.Sessions.Apart.{full_key-session_by}
use anybot.Sdk.State.{State, Json, unusable, load_state, save_state}
use anybot.Sdk.State.Laws.{reading, loaded, unloaded, saved_as}

-- A Set under another key does not change what a Get answers.
session_get-other :
    (now later ttl : ℕ) (mine its : Session) (name other : Text) (value : Bytes) (s : MemoryStore)
    → now ≤ later
    → full_key mine name ≢ full_key its other
    → (session_get
        (memory later)
        (some its)
        none
        other
        (session_set (memory now) (some mine) none name value ttl s).1).0
      ≡ (session_get (memory later) (some its) none other s).0
unfolding session_get session_set
session_get-other now later ttl mine its name other value s le differ =
    let a = full_key mine name in
    let b = full_key its other in
    let ne : (b == a) ≡ false = elim (Bool-cases (b == a)) [
      | inl e ↦ absurd (differ (sym ((eq_iff b a).0 e)))
      | inr e ↦ e
    ] in
    let same : (fetch later none b (put now none a value ttl s).1).0 ≡ (fetch later none b s).0 =
      fetch-answer later none b (put now none a value ttl s).1
      ∙ put-other now later ttl none none a b value s le ne
      ∙ sym (fetch-answer later none b s) in
    ground (arith, same)

-- What one plugin saves is not seen by another one: for plugins with different valid ids, and states
-- whose sessions are any of theirs, Load of the one reads after Save of the other what it would have
-- read before, at any later time, where neither call's Go context is done.
pub load_state-other :
    {T U : Type 0} (json : Json T) (its_json : Json U) (a b : Plugin) (key other : Text)
    (mine its : State) (value : T) (now later ttl : ℕ) (s : MemoryStore)
    → validate_plugin_id a.plugin_id ≡ none
    → validate_plugin_id b.plugin_id ≡ none
    → a.plugin_id ≢ b.plugin_id
    → mine.session ≡ some (session_by a key)
    → its.session ≡ some (session_by b other)
    → now ≤ later
    → (load_state its_json
        (memory later)
        its
        none
        (save_state json (memory now) mine none value ttl s).1).0
      ≡ (load_state its_json (memory later) its none s).0
unfolding save_state load_state
load_state-other json its_json a b key other mine its value now later ttl s v w ne p q le =
    let differ = full_key-session_by a b key other mine.key its.key v w ne in
    elim (Option-cases (unusable its)) [
      | inr (e, u) ↦
          unloaded its_json (memory later) its e _ u
          ∙ sym (unloaded its_json (memory later) its e s u)
      | inl u ↦ elim (saved_as json (memory now) mine (session_by a key) value ttl s p) [
        | inl kept ↦ ap (λ t. (load_state its_json (memory later) its none t).0) kept
        | inr (bytes, set) ↦
            let t =
              (session_set (memory now) (some (session_by a key)) none mine.key bytes ttl s).1 in
            ap (λ t'. (load_state its_json (memory later) its none t').0) set
            ∙ loaded its_json (memory later) its (session_by b other) t u q
            ∙ ap (reading its_json) (
                session_get-other now later ttl (session_by a key) (session_by b other) mine.key
                  its.key bytes s le differ)
            ∙ sym (loaded its_json (memory later) its (session_by b other) s u q)
      ]
    ]
