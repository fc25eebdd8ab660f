-- ===== src/Onebot/Cq/Codes.antt =====
-- adapters/onebot11/message.go: one code, written and read.
use anybot.Base.{
  delete, ◌≡◌, refl, ap, ◌∙◌, true, false, List, [], ◌∷◌, ◌++◌, map, Text, codes, ◌==◌,
  append_assoc, some, lookup,
}
use anybot.Base.{insert, is_empty}
use anybot.Core.Message.{raw}
use anybot.Core.Rules.{sprint}
use anybot.Onebot.Message.{rename, to_wire}
use anybot.Onebot.Cq.{
  split, escape_param, sort_fields, insert_field, render_params, parse_params, parse_segment,
  render_segment, render_code,
}
use anybot.Onebot.Cq.Escapes.{lacks, lacks-escape_param_close}
use anybot.Onebot.Cq.Pieces.{
  Piece, words, mention, code, strings, segment_of, IsAscending, IsPlain, param, body_of,
}
use anybot.Onebot.Cq.Params.{
  sort_fields-strings, lacks-append, lacks-params, split-body, parse_param, parse_params-params,
}

-- The type and the parameters that a piece has on the wire.
abbrev pub wire_kind : Piece → Text
wire_kind (words c s) = codes "text"
wire_kind (mention id) = codes "at"
wire_kind (code kind ps) = kind

abbrev pub wire_params : Piece → List (Text × Text)
wire_params (words c s) = (codes "text", c ∷ s) ∷ []
wire_params (mention id) = (codes "qq", id) ∷ []
wire_params (code kind ps) = ps

abbrev pub IsCode : Piece → Type 0
IsCode (words c s) = ⊥
IsCode (mention id) = Unit
IsCode (code kind ps) = Unit

parse_segment-split :
    (body kind : Text) (parts : List Text)
    → split b',' body ≡ (kind, parts)
    → is_empty kind ≡ false
    → parse_segment body ≡ some (record { kind = kind; fields = parse_params kind parts [] })
unfolding parse_segment
parse_segment-split body kind parts e ne = rw (e, ne) refl

-- A code reads as the segment that it came from.
pub parse_segment-body_of :
    (p : Piece)
    → IsPlain p
    → IsCode p
    → parse_segment (body_of (wire_kind p) (wire_params p)) ≡ some (segment_of p)
unfolding parse_params insert ◌==◌ sprint render_params raw
parse_segment-body_of (words c s) h is = absurd is
parse_segment-body_of (mention id) h is =
    parse_segment-split (body_of (codes "at") ((codes "qq", id) ∷ [])) (codes "at")
      (param (codes "qq", id) ∷ [])
      (split-body (codes "at") ((codes "qq", id) ∷ []) refl ((refl, refl, refl, refl), tt)) refl
    ∙ ap (λ d. some (record { kind = codes "at"; fields = d }))
        (parse_param (codes "at") (codes "qq") id [] [] true refl refl refl)
parse_segment-body_of (code kind ps) (ne, comma, close, word, other, hs, asc) is =
    parse_segment-split (body_of kind ps) kind (map param ps) (split-body kind ps comma hs) ne
    ∙ ap (λ d. some (record { kind = kind; fields = d }))
        (parse_params-params kind [] ps [] other hs asc refl)

render_code_plain :
    (kind : Text) (ps : List (Text × Text))
    → (kind == codes "text") ≡ false
    → (kind == codes "at") ≡ false
    → IsAscending [] ps
    → render_segment (to_wire (record { kind = kind; fields = strings ps }))
      ≡ codes "[CQ:" ++ (body_of kind ps ++ codes "]")
unfolding render_segment to_wire render_code
render_code_plain kind ps word other asc =
    rw (other, word, sort_fields-strings [] ps asc, append_assoc) refl

-- A code is written as its body in brackets.
pub render_segment-body_of :
    (p : Piece)
    → IsPlain p
    → IsCode p
    → render_segment (to_wire (segment_of p))
      ≡ codes "[CQ:" ++ (body_of (wire_kind p) (wire_params p) ++ codes "]")
unfolding render_segment to_wire render_code rename lookup insert delete ◌==◌ sprint render_params
    sort_fields insert_field raw
render_segment-body_of (words c s) h is = absurd is
render_segment-body_of (mention id) h is = refl
render_segment-body_of (code kind ps) (ne, comma, close, word, other, hs, asc) is =
    render_code_plain kind ps word other asc

pub lacks-body_of :
    (p : Piece) → IsPlain p → IsCode p → lacks b']' (body_of (wire_kind p) (wire_params p)) ≡ true
unfolding render_params sprint
lacks-body_of (words c s) h is = absurd is
lacks-body_of (mention id) h is =
    lacks-append b']' (escape_param id) [] (lacks-escape_param_close id) refl
lacks-body_of (code kind ps) (ne, comma, close, word, other, hs, asc) is =
    lacks-append b']' kind (render_params (strings ps)) close (lacks-params ps hs)
