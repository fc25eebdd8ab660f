-- ===== src/Host/PluginLock/Defaults.antt =====
-- app/host/plugin_lock.go: applyDefaults changes nothing in a lock that it made and that is valid.
use anybot.Base.{
  sym, all, ◌==◌, eq_iff, Bool-cases, map, subst, ℕ, ◌≡◌, refl, sym, subst, ◌⊎◌, inl, inr, true,
  false, none, List, [], ◌∷◌, map, arith, Bool-cases, Text, is_space,
}
use anybot.Base.{
  is_empty, is_solid, has_char, trim_space, contains, trim_space-solid, trim_space-twice,
}
use anybot.Host.PluginLock.{
  PluginInstall, ModuleRules, cut_last, parse_module_spec, default_module, default_item,
  builtin_sources, is_builtin,
}
use anybot.Host.PluginLock.Checks.{validate_module, validate_source, validate_install}
use anybot.Host.PluginLock.Valid.{IsGood}

-- modmodule.CheckPath accepts no path with a space or with '@'.
abbrev pub HasPlainPaths : ModuleRules → Type 0
HasPlainPaths rules =
    (path : Text)
    → rules.check_path path ≡ none
    → (is_solid path ≡ true) × (has_char b'@' path ≡ false)

cut_last-none : (sep : ℕ) (s : Text) → has_char sep s ≡ false → cut_last sep s ≡ none
unfolding has_char cut_last
cut_last-none sep [] h = refl
cut_last-none sep (c ∷ s) h = rw (cut_last-none sep s (ground (arith, h))) (ground (arith, h))

parse_plain :
    (path : Text)
    → is_empty path ≡ false
    → is_solid path ≡ true
    → has_char b'@' path ≡ false
    → parse_module_spec path ≡ inr (path, [])
unfolding parse_module_spec
parse_plain path n s h = ground (arith, n, trim_space-solid path s, cut_last-none b'@' path h)

is_empty-eq : (s : Text) → is_empty s ≡ true → s ≡ []
is_empty-eq [] h = refl
is_empty-eq (c ∷ s) h = absurd (ground (arith, h))

member_solid :
    (texts : List Text) (s : Text)
    → all is_solid texts ≡ true
    → contains texts s ≡ true
    → is_solid s ≡ true
unfolding contains
member_solid [] s h k = absurd (ground (arith, k))
member_solid (t ∷ texts) s h k = elim (Bool-cases (t == s)) [
  | inl e ↦ subst (λ u. is_solid u ≡ true) ((eq_iff t s).0 e) (ground (arith, h))
  | inr e ↦ member_solid texts s (ground (arith, h)) (ground (arith, e, k))
]

blank : (s : Text) → is_empty s ≡ true → trim_space s ≡ s
unfolding trim_space
blank [] h = refl
blank (c ∷ s) h = absurd (ground (arith, h))

builtin_solid : (s : Text) → contains builtin_sources s ≡ true → trim_space s ≡ s
unfolding contains is_solid is_space
builtin_solid s h = trim_space-solid s (member_solid builtin_sources s refl h)

-- What a valid record's source is.
pub valid_source :
    (rules : ModuleRules) (p : PluginInstall)
    → validate_install rules p ≡ none
    → ((is_empty p.builtin ≡ true)
        × (is_empty p.go_module ≡ false)
        × (rules.check_path p.go_module ≡ none))
      ⊎ ((is_empty p.go_module ≡ true)
          × (is_builtin p.builtin ≡ true)
          × (is_empty p.builtin ≡ false))
unfolding validate_install validate_source validate_module
valid_source rules p h = ground (arith, h)

module_plain :
    (p : PluginInstall)
    → is_empty p.go_module ≡ false
    → is_solid p.go_module ≡ true
    → has_char b'@' p.go_module ≡ false
    → default_module p ≡ p
unfolding default_module
module_plain p n s h = elim (Bool-cases (is_empty p.version)) [
  | inl e ↦
      rw (parse_plain p.go_module n s h, default_module, n, e, sym (is_empty-eq p.version e)) refl
  | inr e ↦ rw (parse_plain p.go_module n s h, default_module, n, e) refl
]

item_fixed :
    (p : PluginInstall)
    → trim_space p.builtin ≡ p.builtin
    → trim_space p.go_module ≡ p.go_module
    → trim_space p.replace ≡ p.replace
    → default_module p ≡ p
    → default_item p ≡ p
unfolding default_item
item_fixed p b m r d =
    let trimmed : record p { builtin = trim_space p.builtin; go_module = trim_space p.go_module }
        ≡ p =
      rw (b, m) refl in
    subst (λ u. record (default_module u) { replace = trim_space (default_module u).replace } ≡ p)
      (sym trimmed)
      (subst (λ u. record u { replace = trim_space u.replace } ≡ p) (sym d) (rw r refl))

default_fixed :
    (rules : ModuleRules) (plain : HasPlainPaths rules) (p : PluginInstall)
    → validate_install rules p ≡ none
    → trim_space p.replace ≡ p.replace
    → default_item p ≡ p
unfolding default_module is_builtin
default_fixed rules plain p h r = elim (valid_source rules p h) [
  | inl (b, n, c) ↦
      let (s, a) = plain p.go_module c in
      item_fixed p (blank p.builtin b) (trim_space-solid p.go_module s) r (module_plain p n s a)
  | inr (m, b, n) ↦
      item_fixed p (builtin_solid p.builtin b) (blank p.go_module m) r (ground (arith, m))
]

default_replace :
    (q : PluginInstall) → trim_space (default_item q).replace ≡ (default_item q).replace
unfolding default_item
default_replace q =
    trim_space-twice
      (default_module
        (record q { builtin = trim_space q.builtin; go_module = trim_space q.go_module })).replace

-- The records that applyDefaults made and ValidatePluginLock accepts are as it would make them.
pub defaults_twice :
    (rules : ModuleRules) (plain : HasPlainPaths rules) (qs : List PluginInstall)
    → IsGood rules (map default_item qs)
    → map default_item (map default_item qs) ≡ map default_item qs
defaults_twice rules plain [] g = refl
defaults_twice rules plain (q ∷ qs) (v, f, g) =
    rw
      (
        default_fixed rules plain (default_item q) v (default_replace q),
        defaults_twice rules plain qs g,
      )
      refl
