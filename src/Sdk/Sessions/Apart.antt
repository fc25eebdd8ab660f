-- ===== src/Sdk/Sessions/Apart.antt =====
-- sdk/context.go and core/store.go: the sessions of different plugins have no key in common.
use anybot.Base.{
  ◌≡◌, refl, sym, ap, ◌∙◌, ◌≢◌, inl, inr, true, false, none, [], ◌∷◌, ◌++◌, arith, Bool-cases,
  Option-cases, Text, codes, if◌then◌else◌,
}
use anybot.Base.{
  ◌==◌, trim_space, strip_prefix, strip_prefix-eq-some, is_some, is_empty, is_solid, is_space,
  trim_space-solid, length, append_assoc, append-nil, eq_iff,
}
use anybot.Core.Store.{full_key}
use anybot.Sdk.PluginId.{validate_plugin_id}
use anybot.Sdk.PluginId.Laws.{validate_plugin_id-decides, valid-is_solid}
use anybot.Sdk.Sessions.{Plugin, scoped, scoped_name, session_by}

-- Two texts that begin with texts of one length begin with one text.
same_length : (a b s t : Text) → length a ≡ length b → a ++ s ≡ b ++ t → a ≡ b
same_length [] [] s t h e = refl
same_length [] (y ∷ b) s t h e = absurd (omega (arith, h))
same_length (x ∷ a) [] s t h e = absurd (omega (arith, h))
same_length (x ∷ a) (y ∷ b) s t h e =
    ground (arith, e, same_length a b s t (omega (arith, h)) (ground (arith, e)))

cut_some : (p t : Text) → is_some (strip_prefix p t) ≡ true → (r : Text) × (t ≡ p ++ r)
cut_some p t h = elim (Option-cases (strip_prefix p t)) [
  | inl e ↦ absurd (ground (arith, h, e))
  | inr (r, e) ↦ (r, strip_prefix-eq-some p t r e)
]

-- A scoped name begins with the plugin's id.
scoped-begins :
    (own inner : Text) → is_empty own ≡ false → (r : Text) × (scoped own inner ≡ own ++ r)
unfolding scoped
scoped-begins own inner n = elim (Bool-cases (is_empty inner)) [
  | inl e ↦ ([], ground (arith, n, e, append-nil own))
  | inr e ↦ elim (Bool-cases (inner == own)) [
    | inl f ↦ ([], ground (arith, n, e, f, append-nil own, (eq_iff inner own).0 f))
    | inr f ↦ elim (Bool-cases (is_some (strip_prefix (own ++ codes ".") inner))) [
      | inr g ↦ (codes "." ++ inner, ground (arith, n, e, f, g))
      | inl g ↦
          let (r, cut) = cut_some (own ++ codes ".") inner g in
          (codes "." ++ r, ground (arith, n, e, f, g, cut, append_assoc own (codes ".") r))
    ]
  ]
]

scoped_name-begins :
    (id name : Text)
    → is_empty id ≡ false
    → trim_space id ≡ id
    → (r : Text) × (scoped_name id name ≡ id ++ r)
unfolding scoped_name
scoped_name-begins id name n t = rw t (scoped-begins id (trim_space name) n)

-- What the proof needs of a valid id.
pub valid_facts :
    (id : Text)
    → validate_plugin_id id ≡ none
    → (is_empty id ≡ false) × (trim_space id ≡ id) × (length id ≡ 30)
unfolding is_solid is_space
valid_facts id v =
    let (rest, e, long, ok) = (validate_plugin_id-decides id).0 v in
    rw e
      (refl, trim_space-solid (codes "plg_" ++ rest) (valid-is_solid rest ok), omega (arith, long))

-- Sessions of plugins with different ids have no key in common, whatever the keys and the names are
-- that the plugins ask for.
pub full_key-session_by :
    (a b : Plugin) (key other name its : Text)
    → validate_plugin_id a.plugin_id ≡ none
    → validate_plugin_id b.plugin_id ≡ none
    → a.plugin_id ≢ b.plugin_id
    → full_key (session_by a key) name ≢ full_key (session_by b other) its
unfolding full_key session_by
full_key-session_by a b key other name its v w ne e =
    let (n, t, l) = valid_facts a.plugin_id v in
    let (m, u, k) = valid_facts b.plugin_id w in
    let (r, p) =
      scoped_name-begins a.plugin_id (if is_empty key then codes "session" else key) n t in
    let (s, q) =
      scoped_name-begins b.plugin_id (if is_empty other then codes "session" else other) m u in
    ne (
      same_length a.plugin_id b.plugin_id (r ++ b':' ∷ name) (s ++ b':' ∷ its) (l ∙ sym k) (
        sym (append_assoc a.plugin_id r (b':' ∷ name))
        ∙ ap (λ x. x ++ b':' ∷ name) (sym p)
        ∙ e
        ∙ ap (λ x. x ++ b':' ∷ its) q
        ∙ append_assoc b.plugin_id s (b':' ∷ its)))
