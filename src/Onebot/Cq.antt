-- ===== src/Onebot/Cq.antt =====
-- adapters/onebot11/message.go: ParseCQ and CQString. Texts are lists of code points, whose order is
-- that of the bytes of their UTF-8 form. The parser's loop runs on fuel, one unit for each character.
pub mod Escapes
pub mod Scan
pub mod Pieces
pub mod Params
pub mod Codes
pub mod Rounds
pub mod Fuel
pub mod RoundTrip
use anybot.Base.{
  text_before, ℕ, zero, suc, ◌+◌, ◌-◌, ◌≤◌, ◌<◌, ◌≡◌, refl, sym, ap, ◌∙◌, subst, ◌≢◌, ◌↔◌, ◌⊎◌, inl,
  inr, Bool, true, false, not, ◌&&◌, ◌||◌, Option, none, some, List, [], ◌∷◌, ◌++◌, map, arith,
  Bool-cases, Option-cases, Text, codes, if◌then◌else◌, ◌==◌,
}
use anybot.Base.{Dict, lookup, insert, ltb, eqb, leb, length, is_empty, strip_prefix}
use anybot.Core.Message.{Value, str, Segment, Chain, text}
use anybot.Core.Rules.{sprint, sprint_field}
use anybot.Onebot.Message.{to_wire_chain}

-- strings.NewReplacer: the first of the pairs whose old text stands here.
unfoldable pub find_old : List (Text × Text) → Text → Option (Text × Text)
find_old [] s = none
find_old ((old, new) ∷ pairs) s = elim (strip_prefix old s) [
  | some _ ↦ some (old, new)
  | none ↦ find_old pairs s
]

-- Replacer.Replace, behind the characters to skip of an old text that was replaced.
unfoldable pub replace_from : List (Text × Text) → ℕ → Text → Text
unfolding find_old
replace_from pairs n [] = []
replace_from pairs (suc n) (c ∷ s) = replace_from pairs n s
replace_from pairs zero (c ∷ s) = elim (find_old pairs (c ∷ s)) [
  | none ↦ c ∷ replace_from pairs 0 s
  | some (old, new) ↦ new ++ replace_from pairs (length old - 1) s
]

abbrev pub unescapes : List (Text × Text)
unescapes =
    (codes "&#91;", codes "[") ∷ (codes "&#93;", codes "]") ∷ (codes "&amp;", codes "&") ∷ []

-- unescapeCQText and unescapeCQParam
unfoldable pub unescape_text : Text → Text
unfolding replace_from
unescape_text s = replace_from unescapes 0 s

unfoldable pub unescape_param : Text → Text
unfolding replace_from
unescape_param s = replace_from ((codes "&#44;", codes ",") ∷ unescapes) 0 s

-- escapeCQText: the old texts are single characters.
unfoldable pub escape_char : ℕ → Text
escape_char c =
    if eqb c b'&'
    then codes "&amp;"
    else if eqb c b'['
    then codes "&#91;"
    else if eqb c b']'
    then codes "&#93;"
    else c ∷ []

unfoldable pub escape_text : Text → Text
unfolding escape_char
escape_text [] = []
escape_text (c ∷ s) = escape_char c ++ escape_text s

-- escapeCQParam
unfoldable pub escape_param : Text → Text
unfolding escape_char
escape_param [] = []
escape_param (c ∷ s) = (if eqb c b',' then codes "&#44;" else escape_char c) ++ escape_param s

-- strings.Index: what stands before the first occurrence, and the text from there on.
unfoldable pub split_at : Text → Text → Option (Text × Text)
split_at pattern_ [] = none
split_at pattern_ (c ∷ s) = elim (strip_prefix pattern_ (c ∷ s)) [
  | some _ ↦ some ([], c ∷ s)
  | none ↦ elim (split_at pattern_ s) [
    | none ↦ none
    | some (before, rest) ↦ some (c ∷ before, rest)
  ]
]

-- strings.Cut and strings.IndexByte with a separator of one character.
unfoldable pub cut : ℕ → Text → Option (Text × Text)
cut sep [] = none
cut sep (c ∷ s) =
    if eqb c sep
    then some ([], s)
    else elim (cut sep s) [ none ↦ none | some (before, after) ↦ some (c ∷ before, after) ]

-- strings.Split with a separator of one character: the first part and the others.
unfoldable pub split : ℕ → Text → Text × List Text
split sep [] = ([], [])
split sep (c ∷ s) =
    let (part, parts) = split sep s in if eqb c sep then ([], part ∷ parts) else (c ∷ part, parts)

-- appendText
unfoldable pub append_text : Chain → Text → Chain
append_text [] t = if is_empty t then [] else text t ∷ []
append_text (seg ∷ []) t =
    if is_empty t
    then seg ∷ []
    else if seg.kind == codes "text"
    then record seg {
      fields =
          insert (codes "text") (str (sprint_field (lookup (codes "text") seg.fields) ++ t))
            seg.fields;
    }
      ∷ []
    else seg ∷ text t ∷ []
append_text (seg ∷ other ∷ segs) t = seg ∷ append_text (other ∷ segs) t

-- The loop of parseCQSegment.
unfoldable pub parse_params : Text → List Text → Dict Value → Dict Value
unfolding cut unescape_param
parse_params kind [] params = params
parse_params kind (part ∷ parts) params = elim (cut b'=' part) [
  | none ↦ parse_params kind parts params
  | some (key, value) ↦
      if is_empty key
      then parse_params kind parts params
      else let name = if kind == codes "at" && key == codes "qq" then codes "id" else key in
        parse_params kind parts (insert name (str (unescape_param value)) params)
]

-- parseCQSegment
unfoldable pub parse_segment : Text → Option Segment
unfolding split parse_params
parse_segment body =
    let (kind, parts) = split b',' body in
    if is_empty kind
    then none
    else some (record { kind = kind; fields = parse_params kind parts [] })

-- What one code gives: `inside` is the text in front of its bracket, from "[CQ:" on.
unfoldable pub add_code : Text → Chain → Chain
unfolding parse_segment unescape_text append_text
add_code inside chain = elim (strip_prefix (codes "[CQ:") inside) [
  | none ↦ chain
  | some body ↦ elim (parse_segment body) [
    | some seg ↦ chain ++ seg ∷ []
    | none ↦ append_text chain (unescape_text (inside ++ codes "]"))
  ]
]

-- The loop of ParseCQ.
unfoldable pub parse_loop : ℕ → Text → Chain → Chain
unfolding split_at cut add_code append_text unescape_text
parse_loop zero input chain = chain
parse_loop (suc n) input chain = elim (split_at (codes "[CQ:") input) [
  | none ↦ append_text chain (unescape_text input)
  | some (before, rest) ↦
      let chain' = if is_empty before then chain else append_text chain (unescape_text before) in
      elim (cut b']' rest) [
        | none ↦ append_text chain' (unescape_text rest)
        | some (inside, after) ↦ parse_loop n after (add_code inside chain')
      ]
]

-- ParseCQ
unfoldable pub parse_cq : Text → Chain
unfolding parse_loop
parse_cq input = parse_loop (length input) input []

-- The entries of a map in the order of their keys, which sort.Strings makes.
unfoldable pub insert_field : Text × Value → List (Text × Value) → List (Text × Value)
unfolding text_before
insert_field f [] = f ∷ []
insert_field f (g ∷ fs) = if text_before g.0 f.0 then g ∷ insert_field f fs else f ∷ g ∷ fs

unfoldable pub sort_fields : List (Text × Value) → List (Text × Value)
unfolding insert_field
sort_fields [] = []
sort_fields (f ∷ fs) = insert_field f (sort_fields fs)

unfoldable pub render_params : List (Text × Value) → Text
unfolding escape_param
render_params [] = []
render_params ((key, value) ∷ fs) =
    b',' ∷ (key ++ (b'=' ∷ (escape_param (sprint value) ++ render_params fs)))

unfoldable pub render_code : Segment → Text
unfolding render_params sort_fields
render_code seg =
    codes "[CQ:" ++ (seg.kind ++ (render_params (sort_fields seg.fields) ++ codes "]"))

-- The body of CQString's loop.
unfoldable pub render_segment : Segment → Text
unfolding render_code escape_text
render_segment seg =
    if seg.kind == codes "text"
    then elim (lookup (codes "text") seg.fields) [
      | some (str t) ↦ escape_text t
      | _ ↦ render_code seg
    ]
    else render_code seg

unfoldable pub render_all : Chain → Text
unfolding render_segment
render_all [] = []
render_all (seg ∷ segs) = render_segment seg ++ render_all segs

-- CQString
unfoldable pub cq_string : Chain → Text
unfolding render_all
cq_string chain = render_all (to_wire_chain chain)
