-- ===== src/Host/ConfigChanges/Laws.antt =====
-- What a configuration command may ask for, and that a refused one leaves every file.
use anybot.Base.{
  ◌≡◌, ◌∙◌, subst, ◌⊎◌, inl, inr, true, false, not, ◌&&◌, none, List, [], ◌∷◌, arith, Bool-cases,
  Option-cases, Text, All, Sum-cases, All-append, ltb, has_char, is_empty,
}
use anybot.Sdk.ConfigPath.{validate_config_path, parse_config_path, parse_config_path-valid}
use anybot.Host.Yaml.{Node}
use anybot.Host.YamlPaths.{ConfigError}
use anybot.Host.ConfigEntry.{
  PluginConfigAssignment, set_plugin_config_assignments, remove_plugin_config_paths,
}
use anybot.Host.ConfigFiles.{
  Directory, ConfigOutside, set_plugin_config_values, remove_plugin_config_values,
  plugin_config_entry_path_for_update,
}
use anybot.Host.ConfigFiles.Laws.{update_entry_keeps}
use anybot.Host.ConfigChanges.{
  PluginConfigChange, ChangeError, Mode, awaiting, resetting, assigning, Argument, reset_next,
  reset_to, other, parse_resetting, parse_assigning, argument_of, add_reset, add_assignment,
  reset_to_path, parse_plugin_config_path, parse_plugin_config_assignment, parse_argument,
  parse_arguments, parse_plugin_config_changes, apply_plugin_config_change, as_result, cut_equals,
  parse_yaml_value, no_change, reset_result, write_result,
}

abbrev IsValidPath : List Text → Type 0
IsValidPath path = validate_config_path path ≡ none

-- Every path of the change is one that the SDK accepts.
abbrev pub HasValidPaths : PluginConfigChange → Type 0
HasValidPaths change =
    All (λ a. validate_config_path a.path ≡ none) change.assignments
    × All (λ p. validate_config_path p ≡ none) change.reset_paths

path-valid :
    (input : Text) (path : List Text)
    → parse_plugin_config_path input ≡ inr path
    → validate_config_path path ≡ none
unfolding parse_plugin_config_path
path-valid input path e = elim (Sum-cases (parse_config_path input)) [
  | inl (_, h) ↦ absurd (ground (arith, e, h))
  | inr (p, h) ↦ parse_config_path-valid input path (h ∙ ground (arith, e, h))
]

reset-HasValidPaths :
    (change change' : PluginConfigChange) (mode : Mode) (text : Text)
    → HasValidPaths change
    → reset_to_path change (parse_plugin_config_path text) ≡ inr (mode, change')
    → HasValidPaths change'
reset-HasValidPaths change change' mode text (h, h') e =
    elim (Sum-cases (parse_plugin_config_path text)) [
      | inl (_, f) ↦ absurd (ground (arith, e, f))
      | inr (path, f) ↦
          let same : add_reset path change ≡ change' = ground (arith, e, f) in
          subst HasValidPaths same (
            h,
            All-append (λ p. validate_config_path p ≡ none) change.reset_paths (path ∷ []) h'
                (path-valid text path f, tt),
          )
    ]

module _ (decode : Text → Text ⊎ Node) where
  assignment-valid :
      (input : Text) (a : PluginConfigAssignment)
      → parse_plugin_config_assignment decode input ≡ inr a
      → validate_config_path a.path ≡ none
  unfolding parse_plugin_config_assignment
  assignment-valid input a e = elim (Option-cases (cut_equals input)) [
    | inl h ↦ absurd (ground (arith, e, h))
    | inr ((key, text), h) ↦ elim (Sum-cases (parse_plugin_config_path key)) [
      | inl (_, f) ↦ absurd (ground (arith, e, h, f))
      | inr (p, f) ↦ elim (Sum-cases (parse_yaml_value decode text)) [
        | inl (_, g) ↦ absurd (ground (arith, e, h, f, g))
        | inr (node, g) ↦
            let same : record { path = p; value = node } ≡ a = ground (arith, e, h, f, g) in
            subst (λ (x : PluginConfigAssignment). validate_config_path x.path ≡ none) same
              (path-valid key p f)
      ]
    ]
  ]

  resetting-HasValidPaths :
      (change change' : PluginConfigChange) (mode : Mode) (arg : Text) (t : Argument)
      → HasValidPaths change
      → parse_resetting decode change arg t ≡ inr (mode, change')
      → HasValidPaths change'
  unfolding parse_resetting
  resetting-HasValidPaths change change' mode arg reset_next h e =
      subst HasValidPaths (ground (arith, e)) h
  resetting-HasValidPaths change change' mode arg (reset_to text) h e =
      reset-HasValidPaths change change' mode text h e
  resetting-HasValidPaths change change' mode arg other h e =
      elim (Bool-cases (has_char b'=' arg)) [
        | inl t ↦ absurd (ground (arith, e, t))
        | inr t ↦ reset-HasValidPaths change change' mode arg h (ground (arith, e, t))
      ]

  assigning-HasValidPaths :
      (change change' : PluginConfigChange) (mode : Mode) (arg : Text) (t : Argument)
      → HasValidPaths change
      → parse_assigning decode change arg t ≡ inr (mode, change')
      → HasValidPaths change'
  unfolding parse_assigning
  assigning-HasValidPaths change change' mode arg reset_next h e =
      subst HasValidPaths (ground (arith, e)) h
  assigning-HasValidPaths change change' mode arg (reset_to text) h e =
      reset-HasValidPaths change change' mode text h e
  assigning-HasValidPaths change change' mode arg other (h, h') e =
      elim (Sum-cases (parse_plugin_config_assignment decode arg)) [
        | inl (_, f) ↦ absurd (ground (arith, e, f))
        | inr (a, f) ↦
            let same : add_assignment a change ≡ change' = ground (arith, e, f) in
            subst HasValidPaths same (
              All-append (λ (x : PluginConfigAssignment). validate_config_path x.path ≡ none)
                  change.assignments (a ∷ []) h (assignment-valid arg a f, tt),
              h',
            )
      ]

  argument-HasValidPaths :
      (mode mode' : Mode) (change change' : PluginConfigChange) (arg : Text)
      → HasValidPaths change
      → parse_argument decode mode change arg ≡ inr (mode', change')
      → HasValidPaths change'
  unfolding parse_argument
  argument-HasValidPaths (awaiting _) mode' change change' arg h e =
      reset-HasValidPaths change change' mode' arg h e
  argument-HasValidPaths resetting mode' change change' arg h e =
      resetting-HasValidPaths change change' mode' arg (argument_of arg) h e
  argument-HasValidPaths assigning mode' change change' arg h e =
      assigning-HasValidPaths change change' mode' arg (argument_of arg) h e

  arguments-HasValidPaths :
      (mode : Mode) (change change' : PluginConfigChange) (args : List Text)
      → HasValidPaths change
      → parse_arguments decode mode change args ≡ inr change'
      → HasValidPaths change'
  unfolding parse_arguments
  arguments-HasValidPaths (awaiting name) change change' [] h e = absurd (ground (arith, e))
  arguments-HasValidPaths assigning change change' [] h e =
      subst HasValidPaths (ground (arith, e)) h
  arguments-HasValidPaths resetting change change' [] h e =
      subst HasValidPaths (ground (arith, e)) h
  arguments-HasValidPaths mode change change' (arg ∷ rest) h e =
      elim (Sum-cases (parse_argument decode mode change arg)) [
        | inl (_, f) ↦ absurd (ground (arith, e, f))
        | inr ((mode', mid), f) ↦
            arguments-HasValidPaths mode' mid change' rest
              (argument-HasValidPaths mode mode' change mid arg h f) (ground (arith, e, f))
      ]

  -- A change that was read from the arguments does not both write and reset, and every path in it is
  -- one that the SDK accepts.
  parse_plugin_config_changes-valid :
      (args : List Text) (change : PluginConfigChange)
      → parse_plugin_config_changes decode args ≡ inr change
      → ((is_empty change.assignments ≡ true) ⊎ (is_empty change.reset_paths ≡ true))
        × HasValidPaths change
  unfolding parse_plugin_config_changes
  parse_plugin_config_changes-valid args change e =
      elim (Sum-cases (parse_arguments decode assigning no_change args)) [
        | inl (_, f) ↦ absurd (ground (arith, e, f))
        | inr (read, f) ↦
            elim (Bool-cases (not (is_empty read.assignments) && not (is_empty read.reset_paths))) [
              | inl t ↦ absurd (ground (arith, e, f, t))
              | inr t ↦
                  let same : read ≡ change = ground (arith, e, f, t) in
                  let kinds : (is_empty read.assignments ≡ true)
                      ⊎ (is_empty read.reset_paths ≡ true) =
                    ground (arith, t) in
                  (
                    subst
                        (λ (x : PluginConfigChange).
                          (is_empty x.assignments ≡ true) ⊎ (is_empty x.reset_paths ≡ true))
                        same kinds,
                    subst HasValidPaths same
                        (arguments-HasValidPaths assigning no_change read args (tt, tt) f),
                  )
            ]
      ]

module _ (o : ConfigOutside) where
  set_values_keeps :
      (id : Text) (changes : List PluginConfigAssignment) (dir dir' : Directory) (e : ConfigError)
      → set_plugin_config_values o id changes dir ≡ (inl e, dir')
      → dir' ≡ dir
  unfolding set_plugin_config_values
  set_values_keeps id [] dir dir' e h = ground (arith, h)
  set_values_keeps id (a ∷ rest) dir dir' e h =
      elim (Sum-cases (plugin_config_entry_path_for_update o id dir)) [
        | inl (_, f) ↦ ground (arith, h, f)
        | inr ((name, _), f) ↦
            update_entry_keeps o (λ c. c)
              (λ entry. set_plugin_config_assignments o.marshal id entry (a ∷ rest)) name dir dir' e
              (ground (arith, h, f))
      ]

  remove_values_keeps :
      (id : Text) (paths : List (List Text)) (dir dir' : Directory) (e : ConfigError)
      → remove_plugin_config_values o id paths dir ≡ (inl e, dir')
      → dir' ≡ dir
  unfolding remove_plugin_config_values
  remove_values_keeps id [] dir dir' e h = ground (arith, h)
  remove_values_keeps id (p ∷ rest) dir dir' e h =
      elim (Sum-cases (plugin_config_entry_path_for_update o id dir)) [
        | inl (_, f) ↦ ground (arith, h, f)
        | inr ((name, false), f) ↦ absurd (ground (arith, h, f))
        | inr ((name, true), f) ↦
            update_entry_keeps o (λ n. ltb 0 n)
              (λ entry. remove_plugin_config_paths id entry (p ∷ rest)) name dir dir' e
              (ground (arith, h, f))
      ]

  as_result-inl :
      {A B : Type 0} (f : A → B) (r : (ConfigError ⊎ A) × Directory) (e : ChangeError)
      (dir' : Directory)
      → as_result f r ≡ (inl e, dir')
      → (e' : ConfigError) × (r ≡ (inl e', dir'))
  as_result-inl f (inl e', dir) e dir' h = (e', ground (arith, h))
  as_result-inl f (inr a, dir) e dir' h = absurd (ground (arith, h))

  -- ApplyPluginConfigChange changes no file where it reports an error.
  pub apply_plugin_config_change_keeps :
      (id : Text) (change : PluginConfigChange) (dir dir' : Directory) (e : ChangeError)
      → apply_plugin_config_change o id change dir ≡ (inl e, dir')
      → dir' ≡ dir
  unfolding apply_plugin_config_change
  apply_plugin_config_change_keeps id change dir dir' e h =
      elim (Bool-cases (is_empty change.assignments)) [
        | inl a ↦ elim (Bool-cases (is_empty change.reset_paths)) [
          | inl r ↦ ground (arith, h, a, r)
          | inr r ↦
              let (e', g) =
                as_result-inl reset_result (remove_plugin_config_values o id change.reset_paths dir)
                  e dir' (ground (arith, h, a, r)) in
              remove_values_keeps id change.reset_paths dir dir' e' g
        ]
        | inr a ↦ elim (Bool-cases (is_empty change.reset_paths)) [
          | inr r ↦ ground (arith, h, a, r)
          | inl r ↦
              let (e', g) =
                as_result-inl (write_result change)
                  (set_plugin_config_values o id change.assignments dir) e dir'
                  (ground (arith, h, a, r)) in
              set_values_keeps id change.assignments dir dir' e' g
        ]
      ]
