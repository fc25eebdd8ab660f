-- ===== src/Onebot/Cq/Rounds.antt =====
-- adapters/onebot11/message.go: one round of the loop of ParseCQ.
use anybot.Base.{
  ℕ, suc, ◌≡◌, refl, sym, ap, ◌∙◌, true, false, none, some, [], ◌∷◌, ◌++◌, arith, Text, codes,
  if◌then◌else◌,
}
use anybot.Base.{is_empty, strip_prefix, strip_prefix-append, ◌==◌}
use anybot.Core.Message.{Segment, Chain, text}
use anybot.Onebot.Cq.{
  split_at, cut, escape_text, escape_char, unescape_text, parse_segment, add_code, append_text,
  parse_loop,
}
use anybot.Onebot.Cq.Escapes.{lacks, unescape_text-escape_text, lacks-escape_text_open}
use anybot.Onebot.Cq.Scan.{split_at-lacks, split_at-append, cut-append}

pub append_text-none : (chain : Chain) → append_text chain [] ≡ chain
unfolding append_text
append_text-none [] = refl
append_text-none (seg ∷ []) = refl
append_text-none (seg ∷ other ∷ segs) = ap (◌∷◌ seg) (append_text-none (other ∷ segs))

-- A text is put behind the chain as a segment of its own.
abbrev pub IsOpen : Chain → Type 0
IsOpen chain = (c : ℕ) (s : Text) → append_text chain (c ∷ s) ≡ chain ++ text (c ∷ s) ∷ []

pub append-IsOpen :
    (chain : Chain) (seg : Segment)
    → (seg.kind == codes "text") ≡ false
    → IsOpen (chain ++ seg ∷ [])
unfolding append_text
append-IsOpen [] seg h c s = rw h refl
append-IsOpen (x ∷ []) seg h c s = rw h refl
append-IsOpen (x ∷ y ∷ chain) seg h c s = ap (◌∷◌ x) (append-IsOpen (y ∷ chain) seg h c s)

-- What add_code makes of a code that can be read.
add_code-segment :
    (inside body : Text) (seg : Segment) (chain : Chain)
    → strip_prefix (codes "[CQ:") inside ≡ some body
    → parse_segment body ≡ some seg
    → add_code inside chain ≡ chain ++ seg ∷ []
unfolding add_code strip_prefix
add_code-segment inside body seg chain h e = rw (h, e) refl

-- The loop where no code is left, and where there is one.
pub parse_loop-end :
    (n : ℕ) (input : Text) (chain : Chain)
    → split_at (codes "[CQ:") input ≡ none
    → parse_loop (suc n) input chain ≡ append_text chain (unescape_text input)
unfolding parse_loop
parse_loop-end n input chain e = ground (arith, e)

pub parse_loop-round :
    (n : ℕ) (input before rest inside after : Text) (chain : Chain)
    → split_at (codes "[CQ:") input ≡ some (before, rest)
    → cut b']' rest ≡ some (inside, after)
    → parse_loop (suc n) input chain
      ≡ parse_loop n after (
          add_code inside
            (if is_empty before then chain else append_text chain (unescape_text before)))
unfolding parse_loop
parse_loop-round n input before rest inside after chain e f = ground (arith, e, f)

pub parse_loop-unclosed :
    (n : ℕ) (input before rest : Text) (chain : Chain)
    → split_at (codes "[CQ:") input ≡ some (before, rest)
    → cut b']' rest ≡ none
    → parse_loop (suc n) input chain
      ≡ append_text
          (if is_empty before then chain else append_text chain (unescape_text before))
          (unescape_text rest)
unfolding parse_loop
parse_loop-unclosed n input before rest chain e f = ground (arith, e, f)

pub escape_char-full : (c : ℕ) (t : Text) → is_empty (escape_char c ++ t) ≡ false
unfolding escape_char
escape_char-full c t = ground arith

-- The text in front of a code.
before_code :
    (t : Text) (chain : Chain)
    → (if is_empty (escape_text t)
        then chain
        else append_text chain (unescape_text (escape_text t)))
      ≡ append_text chain t
unfolding escape_text
before_code [] chain = sym (append_text-none chain)
before_code (c ∷ s) chain =
    rw (escape_char-full c (escape_text s))
      (ap (append_text chain) (unescape_text-escape_text (c ∷ s)))

-- One round of the loop: a text, which may be empty, and a code.
pub parse_loop-code :
    (n : ℕ) (t body rest : Text) (seg : Segment) (chain : Chain)
    → lacks b']' body ≡ true
    → parse_segment body ≡ some seg
    → parse_loop (suc n) (escape_text t ++ (codes "[CQ:" ++ (body ++ b']' ∷ rest))) chain
      ≡ parse_loop n rest (append_text chain t ++ seg ∷ [])
parse_loop-code n t body rest seg chain close e =
    parse_loop-round n (escape_text t ++ (codes "[CQ:" ++ (body ++ b']' ∷ rest))) (escape_text t)
      (codes "[CQ:" ++ (body ++ b']' ∷ rest)) (codes "[CQ:" ++ body) rest chain
      (split_at-append (codes "CQ:") (escape_text t) (body ++ b']' ∷ rest)
        (lacks-escape_text_open t))
      (cut-append b']' (codes "[CQ:" ++ body) rest close)
    ∙ ap (λ c. parse_loop n rest (add_code (codes "[CQ:" ++ body) c)) (before_code t chain)
    ∙ ap (parse_loop n rest) (
        add_code-segment (codes "[CQ:" ++ body) body seg (append_text chain t)
          (strip_prefix-append (codes "[CQ:") body) e)

-- The last text.
pub parse_loop-text :
    (n : ℕ) (t : Text) (chain : Chain)
    → parse_loop (suc n) (escape_text t) chain ≡ append_text chain t
parse_loop-text n t chain =
    parse_loop-end n (escape_text t) chain
      (split_at-lacks (codes "CQ:") (escape_text t) (lacks-escape_text_open t))
    ∙ ap (append_text chain) (unescape_text-escape_text t)
