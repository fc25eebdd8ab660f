-- ===== src/Core/Rules/Spoken.antt =====
-- core/rules.go: a command line as a user writes it is read as its name and its arguments.
use anybot.Base.{
  ℕ, ◌≡◌, refl, sym, ap, ◌∙◌, ◌⊎◌, true, false, some, List, [], ◌∷◌, ◌++◌, arith, Text, codes,
  is_space, All, strip_prefix, trim_space, contains, trim_left, append_assoc, trim_space-ends,
  is_empty,
}
use anybot.Core.Message.{str, strs}
use anybot.Core.Rules.Argv.{cut_space, cut_command}
use anybot.Core.Rules.Quote.{line-ends, split_argv-quote, quote_is_no_space, line}
use anybot.Core.Rules.Command.{
  find_prefix, name_set, match_name, match_command, default_prefixes, command_match,
}

-- A name that cutCommand does not cut.
abbrev pub IsWord : Text → Type 0
IsWord = All (λ c. is_space c ≡ false)

cut_space-word :
    (word rest : Text) → IsWord word → cut_space (word ++ b' ' ∷ rest) ≡ some (word, b' ' ∷ rest)
unfolding cut_space is_space
cut_space-word [] rest h = refl
cut_space-word (c ∷ word) rest (p, h) =
    rw (p, cut_space) (rw (cut_space-word word rest h, cut_space))

line-trimmed : (arg : Text) (args : List Text) → trim_space (line (arg ∷ args)) ≡ line (arg ∷ args)
line-trimmed arg args =
    let (body, e) = line-ends arg args in
    rw e (trim_space-ends b'"' body b'"' quote_is_no_space quote_is_no_space)

-- A text in front of a line of arguments, that begins with no space.
front-trimmed :
    (c : ℕ) (s arg : Text) (args : List Text)
    → is_space c ≡ false
    → trim_space (c ∷ (s ++ b' ' ∷ line (arg ∷ args))) ≡ c ∷ (s ++ b' ' ∷ line (arg ∷ args))
front-trimmed c s arg args h =
    let (body, e) = line-ends arg args in
    rw e (
      rw (sym (append_assoc s (b' ' ∷ b'"' ∷ body) (b'"' ∷ [])))
        (trim_space-ends c (s ++ b' ' ∷ b'"' ∷ body) b'"' h quote_is_no_space))

space-trimmed : (t : Text) → trim_space (b' ' ∷ t) ≡ trim_space t
unfolding trim_space trim_left is_space
space-trimmed t = refl

abbrev pub IsDefaultPrefix : ℕ → Type 0
IsDefaultPrefix p = (p ≡ b'/') ⊎ (p ≡ b'!') ⊎ (p ≡ b'.')

find_prefix-default :
    (p : ℕ) (t : Text)
    → IsDefaultPrefix p
    → find_prefix default_prefixes (p ∷ t) ≡ some (p ∷ [], trim_space t)
unfolding find_prefix strip_prefix
find_prefix-default p t h = ground arith

prefix_is_no_space : (p : ℕ) → IsDefaultPrefix p → is_space p ≡ false
unfolding is_space
prefix_is_no_space p h = ground arith

cut_command-line :
    (word arg : Text) (args : List Text)
    → IsWord word
    → cut_command (word ++ b' ' ∷ line (arg ∷ args)) ≡ (word, line (arg ∷ args))
unfolding cut_command
cut_command-line word arg args h =
    rw (cut_space-word word (line (arg ∷ args)) h, cut_command)
      (ap (λ t. (word, t)) (space-trimmed (line (arg ∷ args)) ∙ line-trimmed arg args))

match_name-line :
    (lower : Text → Text) (set : List Text) (prefix word arg : Text) (args : List Text)
    → IsWord word
    → contains set (lower word) ≡ true
    → match_name lower set prefix (word ++ b' ' ∷ line (arg ∷ args))
      ≡ (command_match prefix (lower word) (line (arg ∷ args)), true)
unfolding match_name
match_name-line lower set prefix word arg args h known =
    rw (cut_command-line word arg args h, match_name) (ground (arith, known))

match_command-found :
    (lower : Text → Text) (prefixes names : List Text) (input t q rest : Text)
    → trim_space input ≡ t
    → is_empty t ≡ false
    → find_prefix prefixes t ≡ some (q, rest)
    → is_empty q ≡ false
    → match_command lower prefixes names input ≡ match_name lower (name_set lower names) q rest
unfolding match_command
match_command-found lower prefixes names input t q rest e given found used =
    rw e (rw (given, found, used))

-- A line with a default prefix, a registered name and quoted arguments is read as that command, its
-- name in lower case, with these arguments.
pub match_command-line :
    (lower : Text → Text) (names : List Text) (p c : ℕ) (cs arg : Text) (args : List Text)
    → IsDefaultPrefix p
    → IsWord (c ∷ cs)
    → contains (name_set lower names) (lower (c ∷ cs)) ≡ true
    → match_command lower default_prefixes names (p ∷ c ∷ (cs ++ (b' ' ∷ line (arg ∷ args)))) ≡ (
      record {
        score = 3;
        reason = codes "command:" ++ lower (c ∷ cs);
        vars =
            (codes "prefix", str (p ∷ []))
            ∷ (codes "command", str (lower (c ∷ cs)))
            ∷ (codes "args", str (line (arg ∷ args)))
            ∷ (codes "argv", strs (arg ∷ args))
            ∷ [];
      },
      true,
    )
match_command-line lower names p c cs arg args hp hw known =
    match_command-found lower default_prefixes names _ _ (p ∷ []) _
      (front-trimmed p (c ∷ cs) arg args (prefix_is_no_space p hp)) refl
      (find_prefix-default p _ hp) refl
    ∙ ap (match_name lower (name_set lower names) (p ∷ [])) (front-trimmed c cs arg args hw.0)
    ∙ match_name-line lower (name_set lower names) (p ∷ []) (c ∷ cs) arg args hw known
    ∙ rw (line-trimmed arg args, split_argv-quote (arg ∷ args))
