-- ===== src/Core/Event/Keys.antt =====
-- core/event.go: what a session key tells. The keys of different conversations differ.
use anybot.Base.{
  ℕ, ◌≡◌, sym, ◌∙◌, ◌≢◌, true, false, some, [], ◌∷◌, ◌++◌, ◌+◌, ◌*◌, ap, Text, codes, arith, All,
  ◌||◌,
}
use anybot.Core.Event.{Event, given, conversation_id}

-- What a conversation key is meant to name.
pub data Scope : Type 0 where
  channel : Text → Text → Text → Text → Scope
  group : Text → Text → Text → Scope
  private : Text → Text → Scope
  self : Text → Text → Text → Text → Scope

abbrev pub NoColon : Text → Type 0
NoColon = All (λ c. c ≢ b':')

-- Two texts that agree up to their first colon agree before it and after it.
pub cut_colon :
    (a b s t : Text) → NoColon a → NoColon b → a ++ (b':' ∷ s) ≡ b ++ (b':' ∷ t) → (a ≡ b) × (s ≡ t)
cut_colon [] [] s t h k e = ground arith
cut_colon [] (y ∷ b) s t h k e = absurd (ground arith)
cut_colon (x ∷ a) [] s t h k e = absurd (ground arith)
cut_colon (x ∷ a) (y ∷ b) s t h k e = ground (arith, cut_colon a b s t h.1 k.1)

-- The conversation that an event belongs to, by the first of channel, group and user that it has.
abbrev pub scope_of : Event → Scope
scope_of e = elim (given e.guild_id || given e.channel_id) [
  | true ↦ channel e.protocol e.guild_id e.channel_id e.user_id
  | false ↦ elim (given e.group_id) [
    | true ↦ group e.protocol e.group_id e.user_id
    | false ↦ elim (given e.user_id) [
      | true ↦ private e.protocol e.user_id
      | false ↦ self e.protocol e.self_id e.kind e.detail
    ]
  ]
]

abbrev render : Scope → Text
render (channel p g c u) =
    p ++ (codes ":guild:" ++ (g ++ (codes ":channel:" ++ (c ++ (codes ":user:" ++ u)))))
render (group p g u) = p ++ (codes ":group:" ++ (g ++ (codes ":user:" ++ u)))
render (private p u) = p ++ (codes ":private:" ++ u)
render (self p s k d) = p ++ (codes ":self:" ++ (s ++ (codes ":" ++ (k ++ (codes ":" ++ d)))))

abbrev pub HasPlainScope : Scope → Type 0
HasPlainScope (channel p g c u) = NoColon p × NoColon g × NoColon c
HasPlainScope (group p g u) = NoColon p × NoColon g
HasPlainScope (private p u) = NoColon p
HasPlainScope (self p s k d) = NoColon p × NoColon s × NoColon k

conversation_id-render : (e : Event) → conversation_id (some e) ≡ render (scope_of e)
unfolding conversation_id
conversation_id-render e = ground arith

cancel : (w s t : Text) → w ++ s ≡ w ++ t → s ≡ t
cancel [] s t e = e
cancel (x ∷ w) s t e = cancel w s t (ground arith)

-- Two parts with a word between them, the first with no colon.
cut_word :
    (w a b s t : Text)
    → NoColon a
    → NoColon b
    → a ++ (b':' ∷ (w ++ s)) ≡ b ++ (b':' ∷ (w ++ t))
    → (a ≡ b) × (s ≡ t)
cut_word w a b s t h k e =
    let (same, rest) = cut_colon a b (w ++ s) (w ++ t) h k e in (same, cancel w s t rest)

-- The first two characters, as one number.
abbrev tag : Text → ℕ
tag (a ∷ b ∷ _) = a * 1000 + b
tag _ = 0

render-injective : (x y : Scope) → HasPlainScope x → HasPlainScope y → render x ≡ render y → x ≡ y
render-injective (channel p g c u) (channel p' g' c' u') (hp, hg, hc) (kp, kg, kc) e =
    let (ep, e1) = cut_word (codes "guild:") p p' _ _ hp kp e in
    let (eg, e2) = cut_word (codes "channel:") g g' _ _ hg kg e1 in
    let (ec, e3) = cut_word (codes "user:") c c' u u' hc kc e2 in cc
render-injective (group p g u) (group p' g' u') (hp, hg) (kp, kg) e =
    let (ep, e1) = cut_word (codes "group:") p p' _ _ hp kp e in
    let (eg, e2) = cut_word (codes "user:") g g' u u' hg kg e1 in cc
render-injective (private p u) (private p' u') h k e =
    let (ep, e1) = cut_word (codes "private:") p p' u u' h k e in cc
render-injective (self p s k d) (self p' s' k' d') (hp, hs, hk) (kp, ks, kk) e =
    let (ep, e1) = cut_word (codes "self:") p p' _ _ hp kp e in
    let (es, e2) = cut_colon s s' _ _ hs ks e1 in let (ek, e3) = cut_colon k k' d d' hk kk e2 in cc
render-injective (channel p g c u) (group p' g' u') h k e =
    absurd (omega (arith, ap tag (cut_colon p p' _ _ h.0 k.0 e).1))
render-injective (channel p g c u) (private p' u') h k e =
    absurd (omega (arith, ap tag (cut_colon p p' _ _ h.0 k e).1))
render-injective (channel p g c u) (self p' s k d) h j e =
    absurd (omega (arith, ap tag (cut_colon p p' _ _ h.0 j.0 e).1))
render-injective (group p g u) (channel p' g' c u') h k e =
    absurd (omega (arith, ap tag (cut_colon p p' _ _ h.0 k.0 e).1))
render-injective (group p g u) (private p' u') h k e =
    absurd (omega (arith, ap tag (cut_colon p p' _ _ h.0 k e).1))
render-injective (group p g u) (self p' s k d) h j e =
    absurd (omega (arith, ap tag (cut_colon p p' _ _ h.0 j.0 e).1))
render-injective (private p u) (channel p' g c u') h k e =
    absurd (omega (arith, ap tag (cut_colon p p' _ _ h k.0 e).1))
render-injective (private p u) (group p' g u') h k e =
    absurd (omega (arith, ap tag (cut_colon p p' _ _ h k.0 e).1))
render-injective (private p u) (self p' s k d) h j e =
    absurd (omega (arith, ap tag (cut_colon p p' _ _ h j.0 e).1))
render-injective (self p s k d) (channel p' g c u) h j e =
    absurd (omega (arith, ap tag (cut_colon p p' _ _ h.0 j.0 e).1))
render-injective (self p s k d) (group p' g u) h j e =
    absurd (omega (arith, ap tag (cut_colon p p' _ _ h.0 j.0 e).1))
render-injective (self p s k d) (private p' u) h j e =
    absurd (omega (arith, ap tag (cut_colon p p' _ _ h.0 j e).1))

-- Two events whose protocol, ids and type hold no colon have one conversation key only if they belong to
-- one conversation: the same kind of scope, with the same ids.
pub conversation_id-injective :
    (e f : Event)
    → HasPlainScope (scope_of e)
    → HasPlainScope (scope_of f)
    → conversation_id (some e) ≡ conversation_id (some f)
    → scope_of e ≡ scope_of f
conversation_id-injective e f h k same =
    render-injective (scope_of e) (scope_of f) h k
      (sym (conversation_id-render e) ∙ same ∙ conversation_id-render f)
