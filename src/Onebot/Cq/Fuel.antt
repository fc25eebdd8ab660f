-- ===== src/Onebot/Cq/Fuel.antt =====
-- adapters/onebot11/message.go: the loop of ParseCQ ends.
use anybot.Base.{
  ℕ, zero, suc, ◌+◌, ◌≤◌, ◌≡◌, refl, sym, ap, ◌∙◌, subst, inl, inr, none, some, [], ◌∷◌, ◌++◌,
  arith, Option-cases, Text, codes, if◌then◌else◌, ◌*◌,
}
use anybot.Base.{length, is_empty, has_substring, length-append, false, true}
use anybot.Onebot.Cq.Escapes.{lacks}
use anybot.Core.Message.{Chain}
use anybot.Onebot.Cq.{split_at, cut, parse_loop, parse_cq, append_text, unescape_text, add_code}
use anybot.Onebot.Cq.Scan.{split_at-none, split_at-some, cut-none, cut-some}
use anybot.Onebot.Cq.Rounds.{
  parse_loop-end, parse_loop-round, parse_loop-unclosed, append_text-none,
}

-- The chain with the text that stands in front of a code.
abbrev with_before : Text → Chain → Chain
with_before before chain =
    if is_empty before then chain else append_text chain (unescape_text before)

abbrev opening : Text
opening = codes "[CQ:"

-- A run of the loop in so many rounds, from the input that is left and the chain that is made so far to
-- the chain that it returns: no code begins, the first code that begins does not end, or the first code
-- is taken out, and the loop goes on behind it. There is a run only where the loop comes to a return.
pub data Parses : ℕ → Text → Chain → Chain → Type 0 where
  ends :
      (input : Text) (chain : Chain)
      → has_substring opening input ≡ false
      → Parses 0 input chain (append_text chain (unescape_text input))
  unclosed :
      (input before body : Text) (chain : Chain)
      → input ≡ before ++ (opening ++ body)
      → has_substring opening before ≡ false
      → lacks b']' body ≡ true
      → Parses 0 input chain
          (append_text (with_before before chain) (unescape_text (opening ++ body)))
  round :
      (k : ℕ) (input before body after : Text) (chain result : Chain)
      → input ≡ before ++ (opening ++ (body ++ b']' ∷ after))
      → has_substring opening before ≡ false
      → lacks b']' body ≡ true
      → Parses k after (add_code (opening ++ body) (with_before before chain)) result
      → Parses (suc k) input chain result

-- The bracket that ends a code stands behind its opening.
cut-opening :
    (tail inside after : Text)
    → cut b']' (opening ++ tail) ≡ some (inside, after)
    → (body : Text) × (opening ++ body ≡ inside) × (cut b']' tail ≡ some (body, after))
unfolding cut
cut-opening tail inside after e = elim (Option-cases (cut b']' tail)) [
  | inl f ↦ absurd (ground (arith, e, f))
  | inr ((b, a), f) ↦ (b, ground (arith, e, f), f ∙ ground (arith, e, f))
]

cut-opening-none : (tail : Text) → cut b']' (opening ++ tail) ≡ none → cut b']' tail ≡ none
unfolding cut
cut-opening-none tail e = elim (Option-cases (cut b']' tail)) [
  | inl f ↦ f
  | inr (_, f) ↦ absurd (ground (arith, e, f))
]

round_shrinks :
    (before body after : Text)
    → 5 + length after ≤ length (before ++ (opening ++ (body ++ b']' ∷ after)))
round_shrinks before body after = ground (
  arith,
  length-append before (opening ++ (body ++ b']' ∷ after)),
  length-append body (b']' ∷ after),
)

nothing-Parses : (chain : Chain) → Parses 0 [] chain (parse_loop 0 [] chain)
unfolding parse_loop unescape_text has_substring
nothing-Parses chain =
    subst (Parses 0 [] chain) (append_text-none chain) (Parses.ends [] chain refl)

-- With one unit of fuel for each character the loop has a run to its end.
parse_loop-Parses :
    (n : ℕ) (input : Text) (chain : Chain)
    → length input ≤ n
    → (k : ℕ) × (5 * k ≤ length input) × Parses k input chain (parse_loop n input chain)
parse_loop-Parses zero (c ∷ s) chain h = absurd (omega (arith, h))
parse_loop-Parses zero [] chain h = (0, omega arith, nothing-Parses chain)
parse_loop-Parses (suc n) input chain h = elim (Option-cases (split_at opening input)) [
  | inl e ↦ (
    0,
    omega arith,
    subst (Parses 0 input chain) (sym (parse_loop-end n input chain e))
        (Parses.ends input chain (split_at-none b'[' (codes "CQ:") input e)),
  )
  | inr ((before, rest), e) ↦
      let (tail, whole, starts, first) = split_at-some b'[' (codes "CQ:") input before rest e in
      let split : input ≡ before ++ (opening ++ tail) = whole ∙ ap (◌++◌ before) starts in
      elim (Option-cases (cut b']' rest)) [
        | inl f ↦
            let open_end = cut-opening-none tail (ap (cut b']') (sym starts) ∙ f) in
            (
              0,
              omega arith,
              subst (Parses 0 input chain)
                  (sym (
                    parse_loop-unclosed n input before rest chain e f
                    ∙ ap (λ t. append_text (with_before before chain) (unescape_text t)) starts))
                  (Parses.unclosed input before tail chain split first
                    (cut-none b']' tail open_end)),
            )
        | inr ((inside, after), f) ↦
            let (body, from, found) =
              cut-opening tail inside after (ap (cut b']') (sym starts) ∙ f) in
            let (closed, clean) = cut-some b']' tail body after found in
            let code : input ≡ before ++ (opening ++ (body ++ b']' ∷ after)) =
              split ∙ ap (λ t. before ++ (opening ++ t)) closed in
            let shorter : 5 + length after ≤ length input =
              subst (λ t. 5 + length after ≤ length t) (sym code)
                (round_shrinks before body after) in
            let (k, few, run) =
              parse_loop-Parses n after (add_code (opening ++ body) (with_before before chain))
                (omega (arith, shorter, h)) in
            (
              suc k,
              omega (arith, shorter, few),
              subst (Parses (suc k) input chain)
                  (sym (
                    parse_loop-round n input before rest inside after chain e f
                    ∙ ap (λ t. parse_loop n after (add_code t (with_before before chain)))
                        (sym from)))
                  (Parses.round k input before body after chain _ code first clean run),
            )
      ]
]

-- On every input ParseCQ has a run, as the text of the input describes it, to one of the loop's returns,
-- in at most one round for each five characters, and its result is the chain returned there.
pub parse_cq-Parses :
    (input : Text) → (k : ℕ) × (5 * k ≤ length input) × Parses k input [] (parse_cq input)
unfolding parse_cq
parse_cq-Parses input = parse_loop-Parses (length input) input [] (omega arith)
