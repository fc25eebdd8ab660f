-- ===== src/Core/Rules/Argv.antt =====
-- core/rules.go: cutCommand and splitArgv.
use anybot.Base.{
  ℕ, Bool, true, false, not, ◌||◌, Option, none, some, List, [], ◌∷◌, ◌++◌, Text, is_space,
  trim_space, eqb, if◌then◌else◌,
}

-- strings.IndexFunc(text, unicode.IsSpace), with the text cut there.
unfoldable pub cut_space : Text → Option (Text × Text)
cut_space [] = none
cut_space (c ∷ s) = elim (is_space c) [
  | true ↦ some ([], c ∷ s)
  | false ↦ elim (cut_space s) [ none ↦ none | some (word, rest) ↦ some (c ∷ word, rest) ]
]

-- cutCommand
unfoldable pub cut_command : Text → Text × Text
unfolding cut_space
cut_command t = elim (cut_space t) [ none ↦ (t, []) | some (word, rest) ↦ (word, trim_space rest) ]

-- The variables of splitArgv. `quote` is 0 outside quotes, as in the code.
pub record Splitter : Type 0 where
  pub out : List Text
  pub buffer : Text
  pub quote : ℕ
  pub escaped : Bool
  pub seen : Bool

-- flush
unfoldable pub flush : Splitter → Splitter
flush p = if p.seen then record p { out = p.out ++ p.buffer ∷ []; buffer = []; seen = false } else p

abbrev pub write : ℕ → Splitter → Splitter
write r p = record p { buffer = p.buffer ++ r ∷ []; seen = true }

-- The body of the loop of splitArgv.
unfoldable pub split_step : Splitter → ℕ → Splitter
unfolding flush
split_step p r =
    if p.escaped
    then record (write r p) { escaped = false }
    else if eqb r b'\\'
    then record p { escaped = true; seen = true }
    else if not (eqb p.quote 0)
    then (if eqb r p.quote then record p { quote = 0; seen = true } else write r p)
    else if eqb r b'\'' || eqb r b'"'
    then record p { quote = r; seen = true }
    else if eqb r b' ' || eqb r 9 || eqb r 10 || eqb r 13
    then flush p
    else write r p

unfoldable pub split_loop : Splitter → Text → Splitter
unfolding split_step
split_loop p [] = p
split_loop p (r ∷ s) = split_loop (split_step p r) s

-- What follows the loop: a backslash at the end stands for itself.
unfoldable pub split_end : Splitter → List Text
unfolding flush
split_end p = (flush (if p.escaped then record p { buffer = p.buffer ++ b'\\' ∷ [] } else p)).out

abbrev pub split_start : Splitter
split_start = record { out = []; buffer = []; quote = 0; escaped = false; seen = false }

-- splitArgv
unfoldable pub split_argv : Text → List Text
unfolding split_loop split_end
split_argv input = split_end (split_loop split_start (trim_space input))
