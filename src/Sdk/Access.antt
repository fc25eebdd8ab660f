-- ===== src/Sdk/Access.antt =====
-- sdk/access.go: who may use a plugin. An event's context is that of the runtime, which the SDK wraps.
pub mod Laws
use anybot.Base.{
  ℕ, zero, suc, ◌+◌, ◌-◌, ◌≤◌, ◌<◌, ◌≡◌, refl, sym, ap, ◌∙◌, subst, ◌≢◌, ◌↔◌, ◌⊎◌, inl, inr, Bool,
  true, false, not, ◌&&◌, ◌||◌, Option, none, some, List, [], ◌∷◌, ◌++◌, map, arith, Bool-cases,
  Option-cases, Text, codes, if◌then◌else◌,
}
use anybot.Base.{contains, is_empty, trim_space}
use anybot.Core.Context.{Context, group_id}
use anybot.Core.Match.{Match}
use anybot.Core.Message.{str}
use anybot.Core.Middleware.{super_user, require_super_user}
use anybot.Core.Runtime.{Middleware}
use anybot.Base.{map}
use anybot.Core.Rules.{plain_match}
use anybot.Core.Middleware.{super_user, require_super_user}
use anybot.Core.Message.{Value, str}
use anybot.Core.Runtime.{Middleware}

-- The loop of cleanStringSet.
unfoldable pub clean_loop : List Text → List Text → List Text
clean_loop [] out = out
clean_loop (value ∷ values) out =
    let t = trim_space value in
    clean_loop values (if is_empty t || contains out t then out else out ++ t ∷ [])

-- cleanStringSet
unfoldable pub clean_string_set : List Text → List Text
unfolding clean_loop
clean_string_set values = clean_loop values []

-- AllowedGroups, on the event's context; none is a nil one.
unfoldable pub allowed_groups : List Text → Option Context → Match × Bool
unfolding clean_string_set
allowed_groups ids c =
    let allowed = clean_string_set ids in
    let of_group : Text = elim c [ none ↦ [] | some c' ↦ group_id c' ] in
    if is_empty allowed
    then (plain_match 1 (codes "allowed_groups:all"), true)
    else if is_empty of_group
    then (plain_match 1 (codes "allowed_groups:private"), true)
    else (plain_match 1 (codes "allowed_groups"), contains allowed of_group)

-- RequireAdmin; `supers` are the super users of the App.
unfoldable pub require_admin : {W : Type 0} → List Text → List Text → Middleware W
unfolding clean_string_set super_user require_super_user
require_admin supers ids =
    let allowed = clean_string_set ids in
    if is_empty allowed then require_super_user supers else super_user (map str allowed)
