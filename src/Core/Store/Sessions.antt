-- ===== src/Core/Store/Sessions.antt =====
-- core/store.go: Session, a view of a store under a prefix.
use anybot.Base.{
  ℕ, ◌≤◌, ◌≡◌, refl, sym, ap, ◌∙◌, subst, ◌≢◌, ◌⊎◌, inl, inr, false, Option, none, some, [], ◌∷◌,
  ◌++◌, arith, Bool-cases, Text, ◌==◌,
}
use anybot.Base.{lookup, insert, lookup-insert, eq_iff}
use anybot.Core.Errors.{Error}
use anybot.Core.Store.Spec.{shown, visible}
use anybot.Core.Store.Refinement.{end_read-shown, sweep_expired-Shows}
use anybot.Core.Store.{
  put, fetch, failed, new_item, Answer, Bytes, MemoryStore, full_key, memory, session_get,
  session_set, new_session, failed, put, fetch,
}
use anybot.Core.Event.Keys.{NoColon}

NoColon-inside : (a s : Text) → NoColon (a ++ b':' ∷ s) → ⊥
NoColon-inside [] s h = h.0 refl
NoColon-inside (x ∷ a) s h = NoColon-inside a s h.1

-- Two texts that agree behind their last colon agree before it.
cut_last :
    (a b s t : Text) → NoColon s → NoColon t → a ++ b':' ∷ s ≡ b ++ b':' ∷ t → (a ≡ b) × (s ≡ t)
cut_last [] [] s t h k e = ground (arith, e)
cut_last [] (y ∷ b) s t h k e =
    let rest : s ≡ b ++ b':' ∷ t = ground (arith, e) in
    absurd (NoColon-inside b t (subst NoColon rest h))
cut_last (x ∷ a) [] s t h k e =
    let rest : a ++ b':' ∷ s ≡ t = ground (arith, e) in
    absurd (NoColon-inside a s (subst NoColon (sym rest) k))
cut_last (x ∷ a) (y ∷ b) s t h k e =
    let rest : a ++ b':' ∷ s ≡ b ++ b':' ∷ t = ground (arith, e) in
    ground (arith, cut_last a b s t h k rest, e)

-- Whether a read at `later` is refused, and what it answers if not.
unfoldable pub answer_of : ℕ → Option Error → Text → MemoryStore → Answer
answer_of later (some e) key s = failed e
answer_of later none key s = shown (visible later (lookup key s.items))

pub fetch-answer :
    (later : ℕ) (ctx : Option Error) (key : Text) (s : MemoryStore)
    → (fetch later ctx key s).0 ≡ answer_of later ctx key s
unfolding fetch answer_of
fetch-answer later (some e) key s = refl
fetch-answer later none key s = end_read-shown later key s

pub put-other :
    (now later ttl : ℕ) (ctx read_ctx : Option Error) (key other : Text) (value : Bytes)
    (s : MemoryStore)
    → now ≤ later
    → (other == key) ≡ false
    → answer_of later read_ctx other (put now ctx key value ttl s).1
      ≡ answer_of later read_ctx other s
unfolding answer_of put
put-other now later ttl (some e) read_ctx key other value s le ne = refl
put-other now later ttl none (some e) key other value s le ne = refl
put-other now later ttl none none key other value s le ne =
    let items = insert key (new_item now value ttl) s.items in
    ap shown (
      sweep_expired-Shows now false (record s { items = items }) (λ k. lookup k items)
        (λ _ _ _. refl) other later le
      ∙ ap (visible later) (lookup-insert key other (new_item now value ttl) s.items ∙ rw ne refl))

keys_apart :
    (key other name its : Text)
    → NoColon name
    → NoColon its
    → (key ≢ other) ⊎ (name ≢ its)
    → full_key (new_session key) name ≢ full_key (new_session other) its
unfolding full_key new_session
keys_apart key other name its h k (inl ne) e = ne (cut_last key other name its h k e).0
keys_apart key other name its h k (inr ne) e = ne (cut_last key other name its h k e).1

-- What is set in one session is not seen in another one, nor under another name: a Get there answers as
-- if the Set had not been. The names hold no colon; the sessions' keys may.
pub session_get-session_set :
    (now later ttl : ℕ) (ctx read_ctx : Option Error) (key other name its : Text) (value : Bytes)
    (s : MemoryStore)
    → now ≤ later
    → NoColon name
    → NoColon its
    → (key ≢ other) ⊎ (name ≢ its)
    → let after = (session_set (memory now) (some (new_session key)) ctx name value ttl s).1 in
      (session_get (memory later) (some (new_session other)) read_ctx its after).0
      ≡ (session_get (memory later) (some (new_session other)) read_ctx its s).0
unfolding session_get session_set new_session
session_get-session_set now later ttl ctx read_ctx key other name its value s le h k apart =
    let a = full_key (new_session key) name in
    let b = full_key (new_session other) its in
    let differ : a ≢ b = keys_apart key other name its h k apart in
    let ne : (b == a) ≡ false = elim (Bool-cases (b == a)) [
      | inl e ↦ absurd (differ (sym ((eq_iff b a).0 e)))
      | inr e ↦ e
    ] in
    fetch-answer later read_ctx b (put now ctx a value ttl s).1
    ∙ put-other now later ttl ctx read_ctx a b value s le ne
    ∙ sym (fetch-answer later read_ctx b s)
