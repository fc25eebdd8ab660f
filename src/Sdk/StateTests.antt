-- ===== src/Sdk/StateTests.antt =====
-- States and dialogues of plugins at concrete inputs.
use anybot.Base.{lookup, ℕ, ◌≡◌, refl, ◌⊎◌, inr, true, none, some, [], ◌∷◌, arith, codes}
use anybot.Base.{lookup, trim_space, has_char, contains_any, ◌==◌}
use anybot.Core.Errors.{plain, is_error, Sentinel}
use anybot.Core.Context.{Context, new_context}
use anybot.Core.Store.{put, MemoryStore, memory, is_expired, new_item}
use anybot.Sdk.PluginId.{validate_plugin_id}
use anybot.Sdk.Sessions.{Plugin, session_by, user_session}
use anybot.Core.Event.{user_session_id}
use anybot.Sdk.State.{State, Json, user_state, load_state, save_state}
use anybot.Sdk.State.Apart.{load_state-other}
use anybot.Sdk.Dialogue.{user_scope, Dialogue, DialogueRecord, dialogue_session, new_record}
use anybot.Sdk.Dialogue.Laws.{IsNext, next-IsNext, handle_stops}
use anybot.Sdk.Dialogue.Resume.{active_rule-begin}
use anybot.Sdk.Dialogue.Turn.{carried_record, begin, active_rule, handle, next}

-- Numbers as one byte.
abbrev number_json : Json ℕ
number_json = record {
  zero_value = 0;
  encode = λ n. inr (n ∷ []);
  decode = λ bytes. elim bytes [ [] ↦ (0, some (plain (codes "no number"))) | n ∷ _ ↦ (n, none) ];
}

abbrev dice : Plugin
dice = record { plugin_id = codes "plg_aaaaaaaaaaaaaaaaaaaaaaaaaa"; has_store = true }

abbrev memo : Plugin
memo = record { plugin_id = codes "plg_bbbbbbbbbbbbbbbbbbbbbbbbbb"; has_store = true }

abbrev seen : Context
seen = new_context none none

abbrev empty_store : MemoryStore
empty_store = record { items = []; sweep_every = 60; last_swept_at = 0 }

abbrev score : State
score = record {
  session = some (user_session dice (some seen));
  event = some seen;
  key = codes "score";
  error = none;
}

test_user_state : user_state (some dice) (some seen) (codes "score") ≡ score
unfolding user_state trim_space
test_user_state = refl

abbrev notes : State
notes = record {
  session = some (session_by memo (codes "notes"));
  event = some seen;
  key = codes "score";
  error = none;
}

load_state-other_example :
    (load_state number_json
      (memory 20)
      notes
      none
      (save_state number_json (memory 10) score none 7 0 empty_store).1).0
    ≡ (load_state number_json (memory 20) notes none empty_store).0
unfolding validate_plugin_id ◌==◌ trim_space contains_any has_char session_by user_session
    user_session_id new_context
load_state-other_example =
    load_state-other number_json number_json dice memo (codes "session:user") (codes "notes") score
      notes 7 10 20 0 empty_store refl refl (λ e. ground (arith, e)) refl refl (omega arith)

-- Records without data.
abbrev record_json : Json DialogueRecord
record_json = record {
  zero_value = record { step = []; payload = []; created_at = 0; updated_at = 0 };
  encode = λ r. inr (r.created_at ∷ r.updated_at ∷ r.step);
  decode = λ bytes. elim bytes [
    | [] ↦ (record { step = []; payload = []; created_at = 0; updated_at = 0 }, some (plain []))
    | c ∷ rest ↦ elim rest [
      | [] ↦ (record { step = []; payload = []; created_at = 0; updated_at = 0 }, some (plain []))
      | u ∷ name ↦ (record { step = name; payload = []; created_at = c; updated_at = u }, none)
    ]
  ];
}

-- A dialogue with one step, which replies nothing and ends with no error.
abbrev survey : Dialogue MemoryStore
survey = record {
  plugin = some dice;
  name = codes "survey";
  ttl = 60;
  scope = user_scope;
  handlers = (codes "name", some (λ r c s. (none, c, s))) ∷ [];
}

abbrev name_record : DialogueRecord
name_record = record { step = codes "name"; payload = []; created_at = 10; updated_at = 10 }

active_rule-begin_example :
    let (e, c', s') =
      begin record_json (memory 10) survey seen none (codes " name ") (inr []) 10 empty_store in
    (e ≡ none)
    × (c'.stopped ≡ true)
    × ((active_rule record_json (memory 40) survey seen none s').0 ≡ (
      record { score = 100; reason = codes "dialogue:survey"; vars = [] },
      true,
      carried_record name_record,
    ))
unfolding dialogue_session new_record is_expired new_item ◌==◌ lookup
active_rule-begin_example =
    active_rule-begin record_json (user_session dice (some seen)) refl refl survey seen seen
      (codes " name ") (inr []) 10 40 name_record (10 ∷ 10 ∷ codes "name") empty_store refl refl
      refl refl refl (omega arith) refl

name_stops :
    let (e, c', s') =
      handle record_json (memory 10) survey (carried_record name_record) seen none empty_store in
    (is_error e Sentinel.pass ≡ true) ⊎ (c'.stopped ≡ true)
name_stops = handle_stops record_json (memory 10) survey name_record seen none empty_store

abbrev moved : DialogueRecord
moved = record name_record { updated_at = 25 }

next-IsNext_example : IsNext survey name_record (inr []) 25 moved
unfolding next ◌==◌ put new_context lookup
next-IsNext_example =
    next-IsNext record_json (memory 25) survey name_record moved (some seen) none (codes "name")
      (inr []) 25 empty_store
      (next record_json (memory 25) survey name_record (some seen) none (codes "name") (inr []) 25
        empty_store).1
      refl
