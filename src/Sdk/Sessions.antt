-- ===== src/Sdk/Sessions.antt =====
-- sdk/context.go: the sessions of a plugin. Of the SDK's Context they read the plugin's id and
-- whether there is a store; an EventContext is that of the core, or none where it is nil.
pub mod Apart
use anybot.Base.{
  ℕ, zero, suc, ◌+◌, ◌-◌, ◌≤◌, ◌<◌, ◌≡◌, refl, sym, ap, ◌∙◌, subst, ◌≢◌, ◌↔◌, ◌⊎◌, inl, inr, Bool,
  true, false, not, ◌&&◌, ◌||◌, Option, none, some, List, [], ◌∷◌, ◌++◌, map, arith, Bool-cases,
  Option-cases, Text, codes, if◌then◌else◌,
}
use anybot.Base.{◌==◌, trim_space, strip_prefix, is_some, is_empty}
use anybot.Core.Errors.{Error, sentinel, joined, Sentinel}
use anybot.Core.Context.{Context}
use anybot.Core.Context
use anybot.Core.Event.{user_session_id, group_session_id}
use anybot.Core.Store.{Session, new_unavailable_session}

pub record Plugin : Type 0 where
  pub plugin_id : Text
  pub has_store : Bool

-- scopedName, behind its trimming.
unfoldable pub scoped : Text → Text → Text
unfolding strip_prefix ◌==◌
scoped own inner =
    if is_empty own
    then (if is_empty inner then codes "plugin" else inner)
    else if is_empty inner
    then own
    else if inner == own || is_some (strip_prefix (own ++ codes ".") inner)
    then inner
    else own ++ (codes "." ++ inner)

-- scopedName
unfoldable pub scoped_name : Text → Text → Text
unfolding scoped trim_space
scoped_name plugin_name name = scoped (trim_space plugin_name) (trim_space name)

-- SessionBy
unfoldable pub session_by : Plugin → Text → Session
unfolding scoped_name
session_by plugin key = record {
  key = scoped_name plugin.plugin_id (if is_empty key then codes "session" else key);
  broken = none;
  has_store = plugin.has_store;
}

-- Session
unfoldable pub conversation_session : Plugin → Option Context → Session
unfolding session_by
conversation_session plugin none = session_by plugin (codes "session")
conversation_session plugin (some c) = session_by plugin (Context.conversation_id c)

-- UserSession
unfoldable pub user_session : Plugin → Option Context → Session
unfolding session_by
user_session plugin none = session_by plugin (codes "session:user")
user_session plugin (some c) =
    let id = user_session_id c.event in
    session_by plugin (if is_empty id then codes "session:user" else id)

-- GroupSession
unfoldable pub group_session : Plugin → Option Context → Session
unfolding session_by new_unavailable_session
group_session plugin none = new_unavailable_session (
    some (
      joined (sentinel Sentinel.session_unavailable) (sentinel Sentinel.event_context_unavailable)))
group_session plugin (some c) =
    let id = group_session_id c.event in
    if is_empty id
    then new_unavailable_session (
        some (
          joined (sentinel Sentinel.session_unavailable)
            (sentinel Sentinel.group_context_unavailable)))
    else session_by plugin id
