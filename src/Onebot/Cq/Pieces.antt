-- ===== src/Onebot/Cq/Pieces.antt =====
-- adapters/onebot11/message.go: the segments that CQ codes can carry.
use anybot.Base.{ℕ, ◌≡◌, true, false, List, [], ◌∷◌, ◌++◌, Text, codes, ◌==◌}
use anybot.Base.{Dict, is_empty, All}
use anybot.Core.Message.{Value, str, Segment, text}
use anybot.Onebot.Message.{at}
use anybot.Onebot.Cq.{escape_param, text_before, render_params}
use anybot.Onebot.Cq.Escapes.{lacks}

-- A text that is not empty, a mention, and any other segment with its parameters.
pub data Piece : Type 0 where
  words : ℕ → Text → Piece
  mention : Text → Piece
  code : Text → List (Text × Text) → Piece

-- The parameters as a segment holds them.
abbrev pub strings : List (Text × Text) → Dict Value
strings [] = []
strings ((key, value) ∷ ps) = (key, str value) ∷ strings ps

abbrev pub segment_of : Piece → Segment
segment_of (words c s) = text (c ∷ s)
segment_of (mention id) = at id
segment_of (code kind ps) = record { kind = kind; fields = strings ps }

-- A key that the separators of a code do not cut.
abbrev pub IsKey : Text → Type 0
IsKey key =
    (is_empty key ≡ false)
    × (lacks b'=' key ≡ true)
    × (lacks b',' key ≡ true)
    × (lacks b']' key ≡ true)

-- The keys ascend from `low` on.
abbrev pub IsAscending : Text → List (Text × Text) → Type 0
IsAscending low [] = Unit
IsAscending low ((key, _) ∷ ps) = (text_before low key ≡ true) × IsAscending key ps

abbrev pub HasKeys : List (Text × Text) → Type 0
HasKeys = All (λ p. IsKey p.0)

-- What a code can carry: a type that is neither text nor at, and keys in the order of their texts.
abbrev pub IsPlain : Piece → Type 0
IsPlain (words c s) = Unit
IsPlain (mention id) = Unit
IsPlain (code kind ps) =
    (is_empty kind ≡ false)
    × (lacks b',' kind ≡ true)
    × (lacks b']' kind ≡ true)
    × ((kind == codes "text") ≡ false)
    × ((kind == codes "at") ≡ false)
    × HasKeys ps
    × IsAscending [] ps

-- The text of one parameter, and what stands between a code's "[CQ:" and its bracket.
abbrev pub param : Text × Text → Text
param (key, value) = key ++ (b'=' ∷ escape_param value)

abbrev pub body_of : Text → List (Text × Text) → Text
body_of kind ps = kind ++ render_params (strings ps)
