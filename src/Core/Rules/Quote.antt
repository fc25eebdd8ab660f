-- ===== src/Core/Rules/Quote.antt =====
-- core/rules.go: splitArgv reads back every list of arguments that is quoted for it.
use anybot.Base.{
  ℕ, ◌≡◌, sym, ◌∙◌, ap, true, false, List, [], ◌∷◌, ◌++◌, append_assoc, append-nil, Text, join,
  arith, eqb, if◌then◌else◌, map, is_space, refl, trim_space, trim_space-ends,
}
use anybot.Core.Rules.Argv.{
  Splitter, split_loop, split_step, split_end, flush, split_argv, split_start,
}

-- An argument in double quotes, with a backslash before each quote and backslash.
unfoldable pub escape : Text → Text
escape [] = []
escape (c ∷ s) =
    if eqb c b'"'
    then b'\\' ∷ b'"' ∷ escape s
    else if eqb c b'\\'
    then b'\\' ∷ b'\\' ∷ escape s
    else c ∷ escape s

unfoldable pub quote : Text → Text
unfolding escape
quote s = b'"' ∷ (escape s ++ b'"' ∷ [])

abbrev inside : List Text → Text → Splitter
inside out buffer = record {
  out = out;
  buffer = buffer;
  quote = b'"';
  escaped = false;
  seen = true;
}

abbrev ready : List Text → Text → Splitter
ready out buffer = record { out = out; buffer = buffer; quote = 0; escaped = false; seen = true }

abbrev blank : List Text → Splitter
blank out = record { out = out; buffer = []; quote = 0; escaped = false; seen = false }

-- One character of the argument, as it is escaped.
loop-hide :
    (c : ℕ) (s rest : Text) (out : List Text) (buffer : Text)
    → split_loop (inside out buffer) (escape (c ∷ s) ++ rest)
      ≡ split_loop (inside out (buffer ++ c ∷ [])) (escape s ++ rest)
unfolding split_loop split_step escape
loop-hide c s rest out buffer = ground arith

-- Inside the quotes the escaped text is read back, up to the closing quote.
loop-escape :
    (s rest : Text) (out : List Text) (buffer : Text)
    → split_loop (inside out buffer) (escape s ++ b'"' ∷ rest)
      ≡ split_loop (ready out (buffer ++ s)) rest
unfolding split_loop split_step escape
loop-escape [] rest out buffer = rw append-nil
loop-escape (c ∷ s) rest out buffer =
    loop-hide c s (b'"' ∷ rest) out buffer
    ∙ loop-escape s rest out (buffer ++ c ∷ [])
    ∙ ap (λ b. split_loop (ready out b) rest) (append_assoc buffer (c ∷ []) s)

-- A quoted argument is read from the blank state as one argument.
loop-quote :
    (s rest : Text) (out : List Text)
    → split_loop (blank out) (quote s ++ rest) ≡ split_loop (ready out s) rest
unfolding split_loop split_step quote
loop-quote s rest out =
    ap (λ t. split_loop (inside out []) t) (append_assoc (escape s) (b'"' ∷ []) rest)
    ∙ loop-escape s rest out []

abbrev pub line : List Text → Text
line args = join (b' ' ∷ []) (map quote args)

loop-line :
    (arg : Text) (args : List Text) (out : List Text)
    → split_end (split_loop (blank out) (line (arg ∷ args))) ≡ out ++ arg ∷ args
unfolding split_loop split_step split_end flush join
loop-line arg [] out =
    ap split_end
      (ap (split_loop (blank out)) (sym (append-nil (quote arg))) ∙ loop-quote arg [] out)
loop-line arg (next ∷ args) out =
    ap split_end (loop-quote arg (b' ' ∷ line (next ∷ args)) out)
    ∙ loop-line next args (out ++ arg ∷ [])
    ∙ append_assoc out (arg ∷ []) (next ∷ args)

pub line-ends :
    (arg : Text) (args : List Text)
    → (body : Text) × (line (arg ∷ args) ≡ b'"' ∷ (body ++ b'"' ∷ []))
unfolding quote join
line-ends arg [] = (escape arg, refl)
line-ends arg (next ∷ args) =
    let (body, e) = line-ends next args in
    (
      (escape arg ++ b'"' ∷ []) ++ (b' ' ∷ b'"' ∷ body),
      ap (λ t. quote arg ++ (b' ' ∷ t)) e
          ∙ sym (append_assoc (quote arg) (b' ' ∷ b'"' ∷ body) (b'"' ∷ [])),
    )

pub quote_is_no_space : is_space b'"' ≡ false
unfolding is_space
quote_is_no_space = refl

none_to_split : split_argv [] ≡ []
unfolding split_argv trim_space
none_to_split = refl

-- splitArgv of any list of arguments, each in double quotes with its quotes and backslashes escaped,
-- with a space between them, gives the arguments back, empty ones and those with spaces included.
pub split_argv-quote : (args : List Text) → split_argv (line args) ≡ args
unfolding split_argv join
split_argv-quote [] = none_to_split
split_argv-quote (arg ∷ args) =
    let (body, e) = line-ends arg args in
    ap (λ t. split_end (split_loop split_start t))
      (ap trim_space e ∙ trim_space-ends b'"' body b'"' quote_is_no_space quote_is_no_space ∙ sym e)
    ∙ loop-line arg args []
