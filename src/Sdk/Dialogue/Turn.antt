-- ===== src/Sdk/Dialogue/Turn.antt =====
-- sdk/dialogue.go: loading and saving the record of a dialogue, beginning, resuming, and ending it.
use anybot.Base.{
  ℕ, ◌⊎◌, inl, inr, Bool, true, false, Option, none, some, [], ◌++◌, Text, codes, if◌then◌else◌,
}
use anybot.Base.{trim_space, is_empty}
use anybot.Core.Errors.{Error, sentinel, plain, is, is_error, Sentinel}
use anybot.Core.Context.{Context, stop}
use anybot.Core.Match.{Match, no_match}
use anybot.Core.Store.{Store, Bytes, session_delete}
use anybot.Sdk.State.{Json, load_json, save_json, error_of}
use anybot.Sdk.Dialogue.{
  Dialogue, DialogueRecord, store_key, step_error, handler_of, dialogue_session, new_record,
  next_record,
}

-- What activeRule puts into the variables of its match.
pub data Carried : Type 0 where
  carried_nothing : Carried
  carried_error : Error → Carried
  carried_record : DialogueRecord → Carried

-- DialogueSnapshot
pub record DialogueSnapshot : Type 0 where
  pub name : Text
  pub step : Text
  pub payload : Bytes
  pub created_at : ℕ
  pub updated_at : ℕ

-- snapshot
abbrev pub snapshot : DialogueRecord → Text → DialogueSnapshot
snapshot r name = record {
  name = name;
  step = r.step;
  payload = r.payload;
  created_at = r.created_at;
  updated_at = r.updated_at;
}

abbrev pub no_snapshot : DialogueSnapshot
no_snapshot = record { name = []; step = []; payload = []; created_at = 0; updated_at = 0 }

module _ {S : Type 0} (json : Json DialogueRecord) (store : Store S) (d : Dialogue S) where
  -- What load makes of what LoadJSON returned.
  unfoldable pub loaded_record :
      DialogueRecord × Bool × Option Error → DialogueRecord × Bool × Option Error
  unfolding trim_space
  loaded_record (r, ok, some e) = (json.zero_value, ok, some e)
  loaded_record (r, false, none) = (json.zero_value, false, none)
  loaded_record (r, true, none) =
      if is_empty (trim_space r.step)
      then (
        json.zero_value,
        false,
        some (plain (codes "dialogue " ++ (d.name ++ codes " has empty step"))),
      )
      else (r, true, none)

  -- load
  unfoldable pub load_record :
      Option Context → Option Error → S → (DialogueRecord × Bool × Option Error) × S
  unfolding dialogue_session load_json loaded_record
  load_record c ctx s = elim (dialogue_session d c) [
    | inl e ↦ ((json.zero_value, false, some e), s)
    | inr session ↦
        let (r, s') = load_json json store (some session) ctx (store_key d.name) s in
        (loaded_record r, s')
  ]

  -- save
  unfoldable pub save_record : Option Context → Option Error → DialogueRecord → S → Option Error × S
  unfolding dialogue_session save_json
  save_record c ctx r s = elim (dialogue_session d c) [
    | inl e ↦ (some e, s)
    | inr session ↦ save_json json store (some session) ctx (store_key d.name) r d.ttl s
  ]

  -- saveNewState
  unfoldable pub save_new_state :
      Option Context → Option Error → Text → Error ⊎ Bytes → ℕ → S → Option Error × S
  unfolding new_record save_record
  save_new_state c ctx given marshalled now s = elim (new_record d given marshalled now) [
    | inl e ↦ (some e, s)
    | inr r ↦ save_record c ctx r s
  ]

  -- Begin
  unfoldable pub begin :
      Context → Option Error → Text → Error ⊎ Bytes → ℕ → S → Option Error × Context × S
  unfolding save_new_state stop
  begin c ctx given marshalled now s =
      let (e, s') = save_new_state (some c) ctx given marshalled now s in
      elim e [ some x ↦ (some x, c, s') | none ↦ (none, stop c, s') ]

  -- BeginText, with the reply that it sends.
  unfoldable pub begin_text :
      Context
      → Option Error
      → Text
      → Error ⊎ Bytes
      → ℕ
      → (S → Option Error × S)
      → S
      → Option Error × Context × S
  unfolding begin
  begin_text c ctx given marshalled now reply s =
      let (e, c', s') = begin c ctx given marshalled now s in
      elim e [ some x ↦ (some x, c', s') | none ↦ let (bad, s'') = reply s' in (bad, c', s'') ]

  -- End
  unfoldable pub end_dialogue : Option Context → Option Error → S → Option Error × S
  unfolding dialogue_session session_delete
  end_dialogue c ctx s = elim (dialogue_session d c) [
    | inl e ↦ (some e, s)
    | inr session ↦
        let (answer, s') = session_delete store (some session) ctx (store_key d.name) s in
        (error_of answer, s')
  ]

  -- Active
  unfoldable pub active :
      Option Context → Option Error → S → (DialogueSnapshot × Bool × Option Error) × S
  unfolding load_record
  active c ctx s =
      let ((r, ok, e), s') = load_record c ctx s in
      elim e [
        | some x ↦ ((no_snapshot, ok, some x), s')
        | none ↦ ((if ok then snapshot r d.name else no_snapshot, ok, none), s')
      ]

  -- What activeRule makes of the record.
  unfoldable pub decide_rule : DialogueRecord × Bool × Option Error → Match × Bool × Carried
  unfolding is
  decide_rule (r, ok, some e) =
      if is e Sentinel.group_context_unavailable then (no_match, false, carried_nothing) else (
        record { score = 100; reason = codes "dialogue:" ++ (d.name ++ codes ":error"); vars = [] },
        true,
        carried_error e,
      )
  decide_rule (r, false, none) = (no_match, false, carried_nothing)
  decide_rule (r, true, none) = (
    record { score = 100; reason = codes "dialogue:" ++ d.name; vars = [] },
    true,
    carried_record r,
  )

  -- activeRule
  unfoldable pub active_rule : Context → Option Error → S → (Match × Bool × Carried) × S
  unfolding load_record decide_rule
  active_rule c ctx s = let (r, s') = load_record (some c) ctx s in (decide_rule r, s')

  -- The switch at the end of handle.
  unfoldable pub finish_step : Option Error × Context × S → Option Error × Context × S
  unfolding is_error stop
  finish_step (e, c, s) = if is_error e Sentinel.pass then (e, c, s) else (e, stop c, s)

  -- The part of handle behind the record.
  unfoldable pub run_step : DialogueRecord → Context → S → Option Error × Context × S
  unfolding handler_of stop finish_step
  run_step r c s = elim (handler_of r.step d) [
    | none ↦ (some (step_error d.name r.step (codes "has no handler")), stop c, s)
    | some h ↦ finish_step (h r c s)
  ]

  -- The part of handle behind a load of its own.
  unfoldable pub run_loaded :
      Context → (DialogueRecord × Bool × Option Error) × S → Option Error × Context × S
  unfolding run_step
  run_loaded c ((r, ok, some e), s) = (some e, c, s)
  run_loaded c ((r, false, none), s) = (some (sentinel Sentinel.pass), c, s)
  run_loaded c ((r, true, none), s) = run_step r c s

  -- handle
  unfoldable pub handle : Carried → Context → Option Error → S → Option Error × Context × S
  unfolding load_record run_step run_loaded stop
  handle (carried_error e) c ctx s = (some e, stop c, s)
  handle (carried_record r) c ctx s = run_step r c s
  handle carried_nothing c ctx s = run_loaded c (load_record (some c) ctx s)

  -- Next of a turn, with the record that the turn then has.
  unfoldable pub next :
      DialogueRecord
      → Option Context
      → Option Error
      → Text
      → Error ⊎ Bytes
      → ℕ
      → S
      → (Option Error × DialogueRecord) × S
  unfolding next_record save_record
  next current c ctx given marshalled now s = elim (next_record d current given marshalled now) [
    | inl e ↦ ((some e, current), s)
    | inr r ↦
        let (e, s') = save_record c ctx r s in
        elim e [ some x ↦ ((some x, current), s') | none ↦ ((none, r), s') ]
  ]
