-- ===== src/Core/Rules/Command.antt =====
-- core/rules.go: CommandWithPrefixes and CommandRule. `lower` is strings.ToLower, which goes by a
-- table of Go's package unicode.
use anybot.Base.{
  Bool, true, false, not, ◌&&◌, Option, none, some, List, [], ◌∷◌, ◌++◌, Text, codes, contains,
  strip_prefix, trim_space, if◌then◌else◌, is_empty,
}
use anybot.Core.Message.{str, strs}
use anybot.Core.Match.{Match, no_match}
use anybot.Core.Context.{text}
use anybot.Core.Runtime.{Rule}
use anybot.Core.Rules.Argv.{cut_command, split_argv}

-- The loop over the prefixes: the first that the text has, with the trimmed rest.
unfoldable pub find_prefix : List Text → Text → Option (Text × Text)
find_prefix [] t = none
find_prefix (prefix ∷ prefixes) t = elim (strip_prefix prefix t) [
  | none ↦ find_prefix prefixes t
  | some rest ↦ some (prefix, trim_space rest)
]

-- nameSet: the names that are given, in lower case.
unfoldable pub name_set : (Text → Text) → List Text → List Text
name_set lower [] = []
name_set lower (name ∷ names) =
    if is_empty name then name_set lower names else lower name ∷ name_set lower names

-- The match of a command whose prefix and name are accepted.
abbrev pub command_match : Text → Text → Text → Match
command_match prefix name args = record {
  score = 3;
  reason = codes "command:" ++ name;
  vars =
      (codes "prefix", str prefix)
      ∷ (codes "command", str name)
      ∷ (codes "args", str (trim_space args))
      ∷ (codes "argv", strs (split_argv args))
      ∷ [];
}

-- The rest of the rule, on the text behind a prefix.
unfoldable pub match_name : (Text → Text) → List Text → Text → Text → Match × Bool
match_name lower set prefix t =
    let (word, args) = cut_command t in
    let name = lower word in
    if not (is_empty set) && not (contains set name)
    then (no_match, false)
    else (command_match prefix name args, true)

unfoldable pub match_command : (Text → Text) → List Text → List Text → Text → Match × Bool
unfolding find_prefix name_set match_name
match_command lower prefixes names input =
    let t = trim_space input in
    if is_empty t then (no_match, false) else elim (find_prefix prefixes t) [
      | none ↦ (no_match, false)
      | some (prefix, rest) ↦
          if is_empty prefix
          then (no_match, false)
          else match_name lower (name_set lower names) prefix rest
    ]

abbrev pub default_prefixes : List Text
default_prefixes = codes "/" ∷ codes "!" ∷ codes "." ∷ []

module _ {W : Type 0} (lower : Text → Text) where
  -- CommandWithPrefixes
  unfoldable pub command_with_prefixes : List Text → List Text → Rule W
  unfolding match_command
  command_with_prefixes prefixes names s =
      let (m, ok) = match_command lower prefixes names (text s.context) in (m, ok, s)

  -- CommandRule
  unfoldable pub command_rule : List Text → Rule W
  unfolding command_with_prefixes
  command_rule names = command_with_prefixes default_prefixes names
