-- ===== src/Onebot/Cq/Scan.antt =====
-- adapters/onebot11/message.go: how the parser of CQ codes cuts its input.
use anybot.Base.{
  ℕ, ◌≡◌, refl, true, none, some, [], ◌∷◌, ◌++◌, arith, Text, Option-cases, has_substring, false,
  inl, inr, ap, ◌∙◌, sym, strip_prefix-eq-some, subst,
}
use anybot.Base.{strip_prefix, strip_prefix-append}
use anybot.Onebot.Cq.{split_at, cut, split}
use anybot.Onebot.Cq.Escapes.{lacks}

pub split_at-lacks : (p s : Text) → lacks b'[' s ≡ true → split_at (b'[' ∷ p) s ≡ none
unfolding split_at strip_prefix
split_at-lacks p [] h = refl
split_at-lacks p (c ∷ s) h = ground (arith, h, λ (e : lacks b'[' s ≡ true). split_at-lacks p s e)

pub split_at-append :
    (p s r : Text)
    → lacks b'[' s ≡ true
    → split_at (b'[' ∷ p) (s ++ ((b'[' ∷ p) ++ r)) ≡ some (s, (b'[' ∷ p) ++ r)
unfolding split_at strip_prefix
split_at-append p [] r h = ground (arith, strip_prefix-append p r)
split_at-append p (c ∷ s) r h =
    ground (arith, h, λ (e : lacks b'[' s ≡ true). split_at-append p s r e)

pub cut-append : (c : ℕ) (s r : Text) → lacks c s ≡ true → cut c (s ++ c ∷ r) ≡ some (s, r)
unfolding cut
cut-append c [] r h = ground arith
cut-append c (x ∷ s) r h = ground (arith, h, λ (e : lacks c s ≡ true). cut-append c s r e)

pub split-lacks : (c : ℕ) (s : Text) → lacks c s ≡ true → split c s ≡ (s, [])
unfolding split
split-lacks c [] h = refl
split-lacks c (x ∷ s) h = ground (arith, h, λ (e : lacks c s ≡ true). split-lacks c s e)

pub split-append :
    (c : ℕ) (s r : Text)
    → lacks c s ≡ true
    → split c (s ++ c ∷ r) ≡ (s, (split c r).0 ∷ (split c r).1)
unfolding split
split-append c [] r h = ground arith
split-append c (x ∷ s) r h = ground (arith, h, λ (e : lacks c s ≡ true). split-append c s r e)

pub split_at-none :
    (c : ℕ) (p s : Text) → split_at (c ∷ p) s ≡ none → has_substring (c ∷ p) s ≡ false
unfolding split_at has_substring
split_at-none c p [] e = refl
split_at-none c p (x ∷ s) e = elim (Option-cases (strip_prefix (c ∷ p) (x ∷ s))) [
  | inr (_, f) ↦ absurd (ground (arith, e, f))
  | inl f ↦ elim (Option-cases (split_at (c ∷ p) s)) [
    | inl g ↦ ground (arith, f, split_at-none c p s g)
    | inr (_, g) ↦ absurd (ground (arith, e, f, g))
  ]
]

strip_prefix-extends :
    (p t u r : Text) → strip_prefix p t ≡ some u → strip_prefix p (t ++ r) ≡ some (u ++ r)
unfolding strip_prefix
strip_prefix-extends [] t u r e = ground (arith, e)
strip_prefix-extends (a ∷ p) [] u r e = absurd (ground (arith, e))
strip_prefix-extends (a ∷ p) (b ∷ t) u r e = ground (arith, e, strip_prefix-extends p t u r)

-- What split_at finds is the first occurrence of the pattern.
pub split_at-some :
    (c : ℕ) (p s before rest : Text)
    → split_at (c ∷ p) s ≡ some (before, rest)
    → (tail : Text) × (s ≡ before ++ rest)
      × (rest ≡ (c ∷ p) ++ tail)
      × (has_substring (c ∷ p) before ≡ false)
unfolding split_at has_substring
split_at-some c p [] before rest e = absurd (ground (arith, e))
split_at-some c p (x ∷ s) before rest e = elim (Option-cases (strip_prefix (c ∷ p) (x ∷ s))) [
  | inr (tail, f) ↦
      let empty : [] ≡ before = ground (arith, e, f) in
      let same : x ∷ s ≡ rest = ground (arith, e, f) in
      (
        tail,
        ap (◌++◌ []) same ∙ ap (λ b. b ++ rest) empty,
        sym same ∙ strip_prefix-eq-some (c ∷ p) (x ∷ s) tail f,
        subst (λ b. has_substring (c ∷ p) b ≡ false) empty refl,
      )
  | inl f ↦ elim (Option-cases (split_at (c ∷ p) s)) [
    | inl g ↦ absurd (ground (arith, e, f, g))
    | inr ((b, r), g) ↦
        let longer : x ∷ b ≡ before = ground (arith, e, f, g) in
        let same : r ≡ rest = ground (arith, e, f, g) in
        let (tail, whole, starts, first) = split_at-some c p s b r g in
        let none_here : strip_prefix (c ∷ p) (x ∷ b) ≡ none =
          elim (Option-cases (strip_prefix (c ∷ p) (x ∷ b))) [
            | inl h ↦ h
            | inr (u, h) ↦ absurd (
                ground (
                  arith,
                  sym (ap (λ t. strip_prefix (c ∷ p) (x ∷ t)) whole) ∙ f,
                  f,
                  whole,
                  strip_prefix-extends (c ∷ p) (x ∷ b) u r h,
                ))
          ] in
        (
          tail,
          ap (◌∷◌ x) whole ∙ ap (λ t. (x ∷ b) ++ t) same ∙ ap (λ t. t ++ rest) longer,
          sym same ∙ starts,
          subst (λ t. has_substring (c ∷ p) t ≡ false) longer (ground (arith, none_here, first)),
        )
  ]
]

pub cut-none : (c : ℕ) (s : Text) → cut c s ≡ none → lacks c s ≡ true
unfolding cut
cut-none c [] e = refl
cut-none c (x ∷ s) e = elim (Option-cases (cut c s)) [
  | inl f ↦ ground (arith, e, f, cut-none c s f)
  | inr (_, f) ↦ absurd (ground (arith, e, f))
]

pub cut-some :
    (c : ℕ) (s before after : Text)
    → cut c s ≡ some (before, after)
    → (s ≡ before ++ c ∷ after) × (lacks c before ≡ true)
unfolding cut
cut-some c [] before after e = absurd (ground (arith, e))
cut-some c (x ∷ s) before after e = elim (Option-cases (cut c s)) [
  | inl f ↦ ground (arith, e, f)
  | inr ((b, a), f) ↦ ground (arith, e, f, cut-some c s b a f)
]
