-- ===== src/Onebot/Event/Conversations.antt =====
-- Which OneBot events share a conversation.
use anybot.Base.{sym, ◌∙◌, subst, refl}
use anybot.Base.{zero, ◌≡◌, refl, sym, ◌∙◌, subst, Bool, true, false, some, arith, Text, is_empty}
use anybot.Base.{ℤ, pos, zero}
use anybot.Core.Message.{Value}
use anybot.Core.Event.{conversation_id}
use anybot.Core.Event.Keys.{
  NoColon, Scope, group, private, scope_of, HasPlainScope, conversation_id-injective,
}
use anybot.Onebot.Event.{OnebotEvent, is_zero, onebot_protocol, id_string, normalize}

-- What fmt.Sprint writes of a number: a text with no colon, from which the number is known.
abbrev pub WritesInts : (ℤ → Text) → Type 0
WritesInts show_int =
    ((a b : ℤ) → show_int a ≡ show_int b → a ≡ b)
    × ((a : ℤ) → NoColon (show_int a))
    × ((a : ℤ) → is_empty (show_int a) ≡ false)

is_zero-eq : (a : ℤ) → is_zero a ≡ true → a ≡ pos 0
is_zero-eq (pos zero) h = refl
is_zero-eq a h = ground (arith, h)

protocol-NoColon : NoColon onebot_protocol
protocol-NoColon = ground arith

-- The conversation of an event with a user: its group's or the user's.
abbrev onebot_scope : (ℤ → Text) → Bool → ℤ → ℤ → Scope
onebot_scope show_int true g u = private onebot_protocol (show_int u)
onebot_scope show_int false g u = group onebot_protocol (show_int g) (show_int u)

module _ (show_int : ℤ → Text) (as_value : OnebotEvent → Value) (w : WritesInts show_int) where
  scope_of-normalize :
      (e : OnebotEvent)
      → is_zero e.user_id ≡ false
      → scope_of (normalize show_int as_value e)
        ≡ onebot_scope show_int (is_zero e.group_id) e.group_id e.user_id
  unfolding normalize id_string
  scope_of-normalize e h = ground (arith, h, w.2 e.user_id, w.2 e.group_id)

  onebot_scope-HasPlainScope : (b : Bool) (g u : ℤ) → HasPlainScope (onebot_scope show_int b g u)
  onebot_scope-HasPlainScope true g u = protocol-NoColon
  onebot_scope-HasPlainScope false g u = (protocol-NoColon, w.1 g)

  onebot_scope-injective :
      (a b : Bool) (g g' u u' : ℤ)
      → is_zero g ≡ a
      → is_zero g' ≡ b
      → onebot_scope show_int a g u ≡ onebot_scope show_int b g' u'
      → (g ≡ g') × (u ≡ u')
  onebot_scope-injective true true g g' u u' h k e =
      (is_zero-eq g h ∙ sym (is_zero-eq g' k), w.0 u u' (ground (arith, e)))
  onebot_scope-injective false false g g' u u' h k e =
      (w.0 g g' (ground (arith, e)), w.0 u u' (ground (arith, e)))
  onebot_scope-injective true false g g' u u' h k e = absurd (ground (arith, e))
  onebot_scope-injective false true g g' u u' h k e = absurd (ground (arith, e))

  -- Where fmt.Sprint writes a number as a text with no colon, from which the number is known, two
  -- OneBot events of users share a conversation only if they have the same group and the same user.
  pub normalize-conversation_id :
      (e f : OnebotEvent)
      → is_zero e.user_id ≡ false
      → is_zero f.user_id ≡ false
      → conversation_id (some (normalize show_int as_value e))
        ≡ conversation_id (some (normalize show_int as_value f))
      → (e.group_id ≡ f.group_id) × (e.user_id ≡ f.user_id)
  normalize-conversation_id e f h k same =
      let left = scope_of-normalize e h in
      let right = scope_of-normalize f k in
      onebot_scope-injective (is_zero e.group_id) (is_zero f.group_id) e.group_id f.group_id
        e.user_id f.user_id refl refl
        (sym left
          ∙ conversation_id-injective (normalize show_int as_value e)
              (normalize show_int as_value f)
              (subst HasPlainScope (sym left)
                (onebot_scope-HasPlainScope (is_zero e.group_id) e.group_id e.user_id))
              (subst HasPlainScope (sym right)
                (onebot_scope-HasPlainScope (is_zero f.group_id) f.group_id f.user_id))
              same
          ∙ right)
