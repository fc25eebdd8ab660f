-- ===== src/Sdk/Dialogue/Resume.antt =====
-- sdk/dialogue.go: the event behind Begin resumes the dialogue.
use anybot.Base.{
  ℕ, ◌≤◌, ◌≡◌, refl, ap, ◌∙◌, ◌⊎◌, inr, true, false, none, some, [], ◌++◌, arith, Text, codes,
}
use anybot.Base.{trim_space, is_empty}
use anybot.Core.Errors.{Error}
use anybot.Core.Context.{Context, stop}
use anybot.Core.Store.{Session, Bytes, MemoryStore, memory, is_expired, new_item, session_set, put}
use anybot.Sdk.State.{Json, load_json, save_json}
use anybot.Sdk.State.Laws.{load_json-save_json}
use anybot.Sdk.Dialogue.{Dialogue, DialogueRecord, store_key, dialogue_session, new_record}
use anybot.Sdk.Dialogue.Laws.{new_record-registered}
use anybot.Sdk.Dialogue.Turn.{
  carried_record, load_record, loaded_record, save_record, save_new_state, begin, active_rule,
  decide_rule,
}

module _ (json : Json DialogueRecord) (session : Session) (open_session : session.broken ≡ none)
    (kept : session.has_store ≡ true) where
  -- The store's part of a save: it does not fail.
  save_json-finished :
      (now ttl : ℕ) (name : Text) (r : DialogueRecord) (bytes : Bytes) (s : MemoryStore)
      → json.encode r ≡ inr bytes
      → (save_json json (memory now) (some session) none name r ttl s).0 ≡ none
  unfolding save_json session_set put
  save_json-finished now ttl name r bytes s e = ground (arith, e, open_session, kept)

  module _ (d : Dialogue MemoryStore) (c : Context)
      (here : dialogue_session d (some c) ≡ inr session) where
    saved_state :
        (given : Text) (marshalled : Error ⊎ Bytes) (now : ℕ) (r : DialogueRecord) (s : MemoryStore)
        → new_record d given marshalled now ≡ inr r
        → save_new_state json (memory now) d (some c) none given marshalled now s
          ≡ save_json json (memory now) (some session) none (store_key d.name) r d.ttl s
    unfolding save_new_state save_record
    saved_state given marshalled now r s n = rw (n, save_new_state, here, save_record) refl

    rule_loaded :
        (later : ℕ) (t : MemoryStore)
        → (active_rule json (memory later) d c none t).0
          ≡ decide_rule json (memory later) d (
              loaded_record json
                (memory later)
                d
                (load_json json (memory later) (some session) none (store_key d.name) t).0)
    unfolding active_rule load_record
    rule_loaded later t = rw (here, active_rule, load_record) refl

    -- What the rule finds behind a save.
    found_state :
        (now later : ℕ) (r : DialogueRecord) (bytes : Bytes) (s : MemoryStore)
        → is_empty (trim_space r.step) ≡ false
        → json.encode r ≡ inr bytes
        → json.decode bytes ≡ (r, none)
        → now ≤ later
        → is_expired later (new_item now bytes d.ttl) ≡ false
        → (active_rule json
            (memory later)
            d
            c
            none
            (save_json json (memory now) (some session) none (store_key d.name) r d.ttl s).1).0
          ≡ (
            record { score = 100; reason = codes "dialogue:" ++ d.name; vars = [] },
            true,
            carried_record r,
          )
    unfolding loaded_record decide_rule
    found_state now later r bytes s b e v le alive =
        rule_loaded later
          (save_json json (memory now) (some session) none (store_key d.name) r d.ttl s).1
        ∙ ap (λ x. decide_rule json (memory later) d (loaded_record json (memory later) d x))
            (load_json-save_json json session (store_key d.name) r bytes now later d.ttl s
              open_session kept e v le alive)
        ∙ ground (arith, b)

    begin_done :
        (given : Text) (marshalled : Error ⊎ Bytes) (now : ℕ) (r : DialogueRecord) (bytes : Bytes)
        (s : MemoryStore)
        → new_record d given marshalled now ≡ inr r
        → json.encode r ≡ inr bytes
        → begin json (memory now) d c none given marshalled now s ≡ (
          none,
          stop c,
          (save_json json (memory now) (some session) none (store_key d.name) r d.ttl s).1,
        )
    unfolding begin
    begin_done given marshalled now r bytes s n e =
        rw
          (
            saved_state given marshalled now r s n,
            begin,
            save_json-finished now d.ttl (store_key d.name) r bytes s e,
          )
          (ap (λ x. (none, stop c, x.1)) (saved_state given marshalled now r s n))

  -- After Begin, the rule matches on the next event with the same session, with the record that Begin
  -- wrote: Begin does not fail and stops its event, where the step is registered, the data can be
  -- encoded, the codec decodes what it encoded, and the record has not expired.
  pub active_rule-begin :
      (d : Dialogue MemoryStore) (c next_event : Context) (given : Text)
      (marshalled : Error ⊎ Bytes) (now later : ℕ) (r : DialogueRecord) (bytes : Bytes)
      (s : MemoryStore)
      → dialogue_session d (some c) ≡ inr session
      → dialogue_session d (some next_event) ≡ inr session
      → new_record d given marshalled now ≡ inr r
      → json.encode r ≡ inr bytes
      → json.decode bytes ≡ (r, none)
      → now ≤ later
      → is_expired later (new_item now bytes d.ttl) ≡ false
      → let (e, c', s') = begin json (memory now) d c none given marshalled now s in
        (e ≡ none)
        × (c'.stopped ≡ true)
        × ((active_rule json (memory later) d next_event none s').0 ≡ (
          record { score = 100; reason = codes "dialogue:" ++ d.name; vars = [] },
          true,
          carried_record r,
        ))
  unfolding stop
  active_rule-begin d c next_event given marshalled now later r bytes s h k n e v le alive =
      rw (begin_done d c h given marshalled now r bytes s n e) (
        refl,
        refl,
        found_state d next_event k now later r bytes s
            (new_record-registered d given marshalled now r n).1 e v le alive,
      )
