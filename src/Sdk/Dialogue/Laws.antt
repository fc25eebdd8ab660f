-- ===== src/Sdk/Dialogue/Laws.antt =====
-- sdk/dialogue.go: what a dialogue does from one event to the next.
use anybot.Base.{
  ℕ, ◌≡◌, refl, subst, ◌⊎◌, inl, inr, true, false, Option, none, arith, Bool-cases, Option-cases,
  Text, if◌then◌else◌, eqb, Sum-cases,
}
use anybot.Base.{trim_space, trim_space-twice, is_empty}
use anybot.Core.Errors.{Error, is_error, Sentinel}
use anybot.Core.Context.{Context, stop}
use anybot.Core.Store.{Store, Bytes}
use anybot.Sdk.State.{Json}
use anybot.Sdk.Dialogue.{
  Dialogue, DialogueRecord, has_step, handler_of, known_step, marshalled_data, new_record,
  next_record,
}
use anybot.Sdk.Dialogue.Turn.{carried_record, save_record, finish_step, run_step, handle, next}

-- A name that passes the tests is registered and not blank.
known_step-registered :
    {S : Type 0} (d : Dialogue S) (given name : Text)
    → known_step d given ≡ inr name
    → (has_step name d ≡ true) × (is_empty (trim_space name) ≡ false)
unfolding known_step
known_step-registered d given name h = elim (Bool-cases (is_empty (trim_space given))) [
  | inl n ↦ absurd (ground (arith, h, n))
  | inr n ↦ elim (Bool-cases (has_step (trim_space given) d)) [
    | inr k ↦ absurd (ground (arith, h, n, k))
    | inl k ↦
        let same : trim_space given ≡ name = ground (arith, h, n, k) in
        subst (λ m. (has_step m d ≡ true) × (is_empty (trim_space m) ≡ false)) same
          (k, rw (trim_space-twice given) n)
  ]
]

pub new_record-registered :
    {S : Type 0} (d : Dialogue S) (given : Text) (marshalled : Error ⊎ Bytes) (now : ℕ)
    (r : DialogueRecord)
    → new_record d given marshalled now ≡ inr r
    → (has_step r.step d ≡ true) × (is_empty (trim_space r.step) ≡ false)
unfolding new_record
new_record-registered d given marshalled now r h = elim (Sum-cases (known_step d given)) [
  | inl (e, k) ↦ absurd (ground (arith, h, k))
  | inr (name, k) ↦ elim (Sum-cases (marshalled_data d marshalled)) [
    | inl (e, m) ↦ absurd (ground (arith, h, k, m))
    | inr (bytes, m) ↦
        let same : name ≡ r.step = ground (arith, h, k, m) in
        subst (λ n. (has_step n d ≡ true) × (is_empty (trim_space n) ≡ false)) same
          (known_step-registered d given name k)
  ]
]

-- What nextRecord makes of the record before.
abbrev pub IsNext :
    {S : Type 0} → Dialogue S → DialogueRecord → Error ⊎ Bytes → ℕ → DialogueRecord → Type 0
IsNext d current marshalled now r =
    (has_step r.step d ≡ true)
    × (r.updated_at ≡ now)
    × (r.created_at ≡ (if eqb current.created_at 0 then now else current.created_at))
    × (marshalled ≡ inr r.payload)

marshalled_same :
    {S : Type 0} (d : Dialogue S) (marshalled : Error ⊎ Bytes) (bytes : Bytes)
    → marshalled_data d marshalled ≡ inr bytes
    → marshalled ≡ inr bytes
unfolding marshalled_data
marshalled_same d (inl e) bytes h = absurd (ground (arith, h))
marshalled_same d (inr b) bytes h = h

next_record-IsNext :
    {S : Type 0} (d : Dialogue S) (current : DialogueRecord) (given : Text)
    (marshalled : Error ⊎ Bytes) (now : ℕ) (r : DialogueRecord)
    → next_record d current given marshalled now ≡ inr r
    → IsNext d current marshalled now r
unfolding next_record
next_record-IsNext d current given marshalled now r h = elim (Sum-cases (known_step d given)) [
  | inl (e, k) ↦ absurd (ground (arith, h, k))
  | inr (name, k) ↦ elim (Sum-cases (marshalled_data d marshalled)) [
    | inl (e, m) ↦ absurd (ground (arith, h, k, m))
    | inr (bytes, m) ↦
        let made : DialogueRecord = record {
          step = name;
          payload = bytes;
          created_at = if eqb current.created_at 0 then now else current.created_at;
          updated_at = now;
        } in
        let same : made ≡ r = ground (arith, h, k, m) in
        subst (IsNext d current marshalled now) same (
          (known_step-registered d given name k).0,
          refl,
          refl,
          marshalled_same d marshalled bytes m,
        )
  ]
]

-- Where Next succeeds, the turn's new record names a registered step, has the new data, and was created
-- when the dialogue was.
pub next-IsNext :
    {S : Type 0} (json : Json DialogueRecord) (store : Store S) (d : Dialogue S)
    (current r : DialogueRecord) (c : Option Context) (ctx : Option Error) (given : Text)
    (marshalled : Error ⊎ Bytes) (now : ℕ) (s s' : S)
    → next json store d current c ctx given marshalled now s ≡ ((none, r), s')
    → IsNext d current marshalled now r
unfolding next
next-IsNext json store d current r c ctx given marshalled now s s' h =
    elim (Sum-cases (next_record d current given marshalled now)) [
      | inl (e, n) ↦ absurd (ground (arith, h, n))
      | inr (r', n) ↦ elim (Option-cases (save_record json store d c ctx r' s).0) [
        | inr (e, v) ↦ absurd (ground (arith, h, n, v))
        | inl v ↦
            let same : r' ≡ r = ground (arith, h, n, v) in
            subst (IsNext d current marshalled now) same
              (next_record-IsNext d current given marshalled now r' n)
      ]
    ]

finish_step-stops :
    {S : Type 0} (json : Json DialogueRecord) (store : Store S) (d : Dialogue S)
    (x : Option Error × Context × S)
    → (is_error (finish_step json store d x).0 Sentinel.pass ≡ true)
      ⊎ ((finish_step json store d x).1.stopped ≡ true)
unfolding finish_step stop
finish_step-stops json store d (e, c, s) = elim (Bool-cases (is_error e Sentinel.pass)) [
  | inl p ↦ inl (ground (arith, p))
  | inr p ↦ inr (ground (arith, p))
]

-- A dialogue's rule that matched leaves the event to nobody else: the handler stops it, unless the step
-- passes it on.
pub handle_stops :
    {S : Type 0} (json : Json DialogueRecord) (store : Store S) (d : Dialogue S)
    (r : DialogueRecord) (c : Context) (ctx : Option Error) (s : S)
    → let (e, c', s') = handle json store d (carried_record r) c ctx s in
      (is_error e Sentinel.pass ≡ true) ⊎ (c'.stopped ≡ true)
unfolding handle run_step stop
handle_stops json store d r c ctx s = elim (Option-cases (handler_of r.step d)) [
  | inl h ↦ inr (ground (arith, h))
  | inr (f, h) ↦ rw (h, handle, run_step) (finish_step-stops json store d (f r c s))
]
