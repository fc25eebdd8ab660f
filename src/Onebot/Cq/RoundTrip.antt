-- ===== src/Onebot/Cq/RoundTrip.antt =====
-- adapters/onebot11/message.go: ParseCQ reads what CQString writes.
use anybot.Base.{
  length-append, ℕ, zero, suc, ◌≤◌, ◌≡◌, refl, sym, ap, ◌∙◌, subst, false, List, [], ◌∷◌, ◌++◌, map,
  arith, Text, codes, append_assoc, All, append-nil,
}
use anybot.Base.{lookup, is_empty, length, ◌==◌}
use anybot.Core.Message.{Chain, text, raw}
use anybot.Onebot.Message.{to_wire, to_wire_chain}
use anybot.Onebot.Cq.{
  escape_text, append_text, parse_loop, parse_cq, render_segment, render_all, cq_string,
}
use anybot.Onebot.Cq.Codes.{
  IsCode, wire_kind, wire_params, parse_segment-body_of, render_segment-body_of, lacks-body_of,
}
use anybot.Onebot.Cq.Pieces.{Piece, words, mention, code, segment_of, IsPlain, body_of}
use anybot.Onebot.Cq.Rounds.{
  append_text-none, IsOpen, append-IsOpen, escape_char-full, parse_loop-code, parse_loop-text,
}

-- No text follows a text directly.
abbrev pub IsSpaced : List Piece → Type 0
IsSpaced [] = Unit
IsSpaced (words c s ∷ words d t ∷ ps) = ⊥
IsSpaced (words c s ∷ ps) = IsSpaced ps
IsSpaced (mention id ∷ ps) = IsSpaced ps
IsSpaced (code kind fields ∷ ps) = IsSpaced ps

wire : List Piece → Text
wire ps = render_all (to_wire_chain (map segment_of ps))

wire-code :
    (p : Piece) (ps : List Piece)
    → IsPlain p
    → IsCode p
    → wire (p ∷ ps) ≡ codes "[CQ:" ++ (body_of (wire_kind p) (wire_params p) ++ b']' ∷ wire ps)
unfolding render_all to_wire_chain wire ◌==◌
wire-code p ps h is =
    let body = body_of (wire_kind p) (wire_params p) in
    ap (λ r. r ++ wire ps) (render_segment-body_of p h is)
    ∙ ap (λ r. codes "[CQ:" ++ r) (append_assoc body (codes "]") (wire ps))

wire-words :
    (c : ℕ) (s : Text) (ps : List Piece) → wire (words c s ∷ ps) ≡ escape_text (c ∷ s) ++ wire ps
unfolding wire render_all to_wire_chain to_wire render_segment lookup ◌==◌ text
wire-words c s ps = refl

-- A code, with a text in front of it, is read in one round.
loop-code :
    (n : ℕ) (t : Text) (p : Piece) (ps : List Piece) (chain : Chain)
    → IsPlain p
    → IsCode p
    → parse_loop (suc n) (escape_text t ++ wire (p ∷ ps)) chain
      ≡ parse_loop n (wire ps) (append_text chain t ++ segment_of p ∷ [])
loop-code n t p ps chain h is =
    let body = body_of (wire_kind p) (wire_params p) in
    ap (λ r. parse_loop (suc n) (escape_text t ++ r) chain) (wire-code p ps h is)
    ∙ parse_loop-code n t body (wire ps) (segment_of p) chain (lacks-body_of p h is)
        (parse_segment-body_of p h is)

code_is_no_text : (p : Piece) → IsPlain p → IsCode p → ((segment_of p).kind == codes "text") ≡ false
unfolding raw ◌==◌
code_is_no_text (words c s) h is = absurd is
code_is_no_text (mention id) h is = refl
code_is_no_text (code kind ps) (ne, comma, close, word, other, hs, asc) is = word

loop-step :
    (n : ℕ) (t : Text) (p : Piece) (ps : List Piece) (chain : Chain)
    → IsPlain p
    → IsCode p
    → ((later : Chain) → IsOpen later → parse_loop n (wire ps) later ≡ later ++ map segment_of ps)
    → parse_loop (suc n) (escape_text t ++ wire (p ∷ ps)) chain
      ≡ append_text chain t ++ segment_of p ∷ map segment_of ps
loop-step n t p ps chain h is next =
    let seg = segment_of p in
    let before = append_text chain t in
    loop-code n t p ps chain h is
    ∙ next (before ++ seg ∷ []) (append-IsOpen before seg (code_is_no_text p h is))
    ∙ append_assoc before (seg ∷ []) (map segment_of ps)

-- The same with no text in front, and with one.
loop-bare :
    (n : ℕ) (p : Piece) (ps : List Piece) (chain : Chain)
    → IsPlain p
    → IsCode p
    → ((later : Chain) → IsOpen later → parse_loop n (wire ps) later ≡ later ++ map segment_of ps)
    → parse_loop (suc n) (wire (p ∷ ps)) chain ≡ chain ++ map segment_of (p ∷ ps)
unfolding escape_text
loop-bare n p ps chain h is next =
    loop-step n [] p ps chain h is next
    ∙ ap (λ c. c ++ segment_of p ∷ map segment_of ps) (append_text-none chain)

loop-words :
    (n c : ℕ) (s : Text) (p : Piece) (ps : List Piece) (chain : Chain)
    → IsPlain p
    → IsCode p
    → IsOpen chain
    → ((later : Chain) → IsOpen later → parse_loop n (wire ps) later ≡ later ++ map segment_of ps)
    → parse_loop (suc n) (wire (words c s ∷ p ∷ ps)) chain
      ≡ chain ++ map segment_of (words c s ∷ p ∷ ps)
loop-words n c s p ps chain h is open_end next =
    ap (λ r. parse_loop (suc n) r chain) (wire-words c s (p ∷ ps))
    ∙ loop-step n (c ∷ s) p ps chain h is next
    ∙ ap (λ l. l ++ segment_of p ∷ map segment_of ps) (open_end c s)
    ∙ append_assoc chain (text (c ∷ s) ∷ []) (segment_of p ∷ map segment_of ps)

wire_none : wire [] ≡ []
unfolding wire render_all to_wire_chain
wire_none = refl

loop_on_nothing : (n : ℕ) (chain : Chain) → parse_loop (suc n) [] chain ≡ chain
unfolding escape_text
loop_on_nothing n chain = parse_loop-text n [] chain ∙ append_text-none chain

-- The loop on what is written of any pieces, with one unit of fuel for each.
parse_loop-wire :
    (n : ℕ) (ps : List Piece) (chain : Chain)
    → All IsPlain ps
    → IsSpaced ps
    → IsOpen chain
    → length ps ≤ n
    → parse_loop n (wire ps) chain ≡ chain ++ map segment_of ps
unfolding parse_loop
parse_loop-wire zero [] chain h sp open_end le = sym (append-nil chain)
parse_loop-wire (suc n) [] chain h sp open_end le =
    ap (λ r. parse_loop (suc n) r chain) wire_none
    ∙ loop_on_nothing n chain
    ∙ sym (append-nil chain)
parse_loop-wire zero (p ∷ ps) chain h sp open_end le = absurd (omega (arith, le))
parse_loop-wire (suc n) (words c s ∷ []) chain h sp open_end le =
    ap (λ r. parse_loop (suc n) r chain)
      (wire-words c s []
        ∙ ap (◌++◌ (escape_text (c ∷ s))) wire_none
        ∙ append-nil (escape_text (c ∷ s)))
    ∙ parse_loop-text n (c ∷ s) chain
    ∙ open_end c s
parse_loop-wire (suc n) (words c s ∷ words d t ∷ ps) chain h sp open_end le = absurd sp
parse_loop-wire (suc n) (words c s ∷ mention id ∷ ps) chain (_, (h, hs)) sp open_end le =
    loop-words n c s (mention id) ps chain h tt open_end
      (λ later o. parse_loop-wire n ps later hs sp o (omega (arith, le)))
parse_loop-wire (suc n) (words c s ∷ code kind fs ∷ ps) chain (_, (h, hs)) sp open_end le =
    loop-words n c s (code kind fs) ps chain h tt open_end
      (λ later o. parse_loop-wire n ps later hs sp o (omega (arith, le)))
parse_loop-wire (suc n) (mention id ∷ ps) chain (h, hs) sp open_end le =
    loop-bare n (mention id) ps chain h tt
      (λ later o. parse_loop-wire n ps later hs sp o (omega (arith, le)))
parse_loop-wire (suc n) (code kind fs ∷ ps) chain (h, hs) sp open_end le =
    loop-bare n (code kind fs) ps chain h tt
      (λ later o. parse_loop-wire n ps later hs sp o (omega (arith, le)))

one_char : (s t : Text) → is_empty s ≡ false → suc (length t) ≤ length (s ++ t)
one_char [] t h = absurd (ground (arith, h))
one_char (c ∷ s) t h = omega (arith, length-append s t)

wire-length-code :
    (p : Piece) (ps : List Piece)
    → IsPlain p
    → IsCode p
    → length ps ≤ length (wire ps)
    → suc (length ps) ≤ length (wire (p ∷ ps))
wire-length-code p ps h is le =
    let body = body_of (wire_kind p) (wire_params p) in
    let much = length-append body (b']' ∷ wire ps) in
    subst (λ w. suc (length ps) ≤ length w) (sym (wire-code p ps h is)) (omega (arith, much, le))

-- Every piece is written as at least one character, so the parser's fuel is enough.
wire-length : (ps : List Piece) → All IsPlain ps → length ps ≤ length (wire ps)
unfolding escape_text
wire-length [] h = omega arith
wire-length (words c s ∷ ps) (_, h) =
    subst (λ w. suc (length ps) ≤ length w) (sym (wire-words c s ps))
      (omega (
        arith,
        one_char (escape_text (c ∷ s)) (wire ps) (escape_char-full c (escape_text s)),
        wire-length ps h,
      ))
wire-length (mention id ∷ ps) (p, h) = wire-length-code (mention id) ps p tt (wire-length ps h)
wire-length (code kind fs ∷ ps) (p, h) = wire-length-code (code kind fs) ps p tt (wire-length ps h)

-- ParseCQ reads what CQString writes of a chain of texts, mentions and other codes: the same chain, where
-- no text is empty or follows another, and the types and keys hold no separator and the keys ascend.
-- The values may be any texts, with brackets, commas and ampersands.
pub parse_cq-cq_string :
    (ps : List Piece)
    → All IsPlain ps
    → IsSpaced ps
    → parse_cq (cq_string (map segment_of ps)) ≡ map segment_of ps
unfolding parse_cq cq_string wire append_text
parse_cq-cq_string ps h sp =
    parse_loop-wire (length (wire ps)) ps [] h sp (λ c s. refl) (wire-length ps h)
