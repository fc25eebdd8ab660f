-- ===== src/Core/Message.antt =====
-- core/message/chain.go: message chains. A nil map and an empty one, and a nil chain and an empty
-- one, read alike and are one value here, so a clone is the value itself.
use anybot.Base.{
  Bool, Option, none, some, List, [], ◌∷◌, ◌++◌, Text, codes, ◌==◌, Dict, lookup, if◌then◌else◌,
  is_empty,
}
use anybot.Core.Errors.{Error}

-- A Go value of type `any`: a string, a []string, an error, or another by what fmt.Sprint prints.
pub data Value : Type 0 where
  str : Text → Value
  strs : List Text → Value
  err : Error → Value
  other : Text → Value

pub record Segment : Type 0 where
  pub kind : Text
  pub fields : Dict Value

abbrev pub Chain : Type 0
Chain = List Segment

-- Raw
unfoldable pub raw : Text → Dict Value → Segment
raw kind fields = record { kind = kind; fields = fields }

-- Text
unfoldable pub text : Text → Segment
text t = record { kind = codes "text"; fields = (codes "text", str t) ∷ [] }

unfoldable pub image : Text → Segment
image file = record { kind = codes "image"; fields = (codes "file", str file) ∷ [] }

unfoldable pub video : Text → Segment
video file = record { kind = codes "video"; fields = (codes "file", str file) ∷ [] }

-- New, and Append, which copies its receiver.
unfoldable pub append : Chain → List Segment → Chain
append c segments = c ++ segments

-- The string that a field holds, if it holds one.
abbrev pub as_string : Option Value → Option Text
as_string (some (str t)) = some t
as_string _ = none

-- What one segment adds to Chain.Text.
unfoldable pub segment_text : Segment → Text
segment_text seg =
    if seg.kind == codes "text"
    then elim (as_string (lookup (codes "text") seg.fields)) [ none ↦ [] | some t ↦ t ]
    else []

-- Chain.Text
unfoldable pub chain_text : Chain → Text
unfolding segment_text
chain_text [] = []
chain_text (seg ∷ c) = segment_text seg ++ chain_text c

-- Chain.IsZero
unfoldable pub is_zero : Chain → Bool
is_zero c = is_empty c
