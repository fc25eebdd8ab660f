-- ===== src/Onebot/Cq/Params.antt =====
-- adapters/onebot11/message.go: the parameters of a code, in the order of their keys.
use anybot.Base.{
  if◌then◌else◌, ℕ, ◌≡◌, refl, sym, ap, ◌∙◌, true, false, not, List, [], ◌∷◌, ◌++◌, map, arith,
  Text, codes, ◌==◌, append-nil, append_assoc, Bool, eq_refl, ◌||◌, Bool-cases, inl, subst, eq_iff,
  inr, ◌&&◌,
}
use anybot.Base.{
  text_before, text_before-asym, text_before_trans, text_before-ne, Dict, all, insert, is_empty,
}
use anybot.Core.Message.{Value, str}
use anybot.Core.Rules.{sprint}
use anybot.Onebot.Cq.{split, escape_param, sort_fields, insert_field, render_params, parse_params}
use anybot.Onebot.Cq.Escapes.{
  lacks, lacks-escape_param_close, lacks-escape_param_comma, unescape_param-escape_param,
}
use anybot.Onebot.Cq.Scan.{split-lacks, split-append, cut-append}
use anybot.Onebot.Cq.Pieces.{strings, IsAscending, HasKeys, param, body_of}

insert_field-first :
    (key : Text) (v : Value) (ps : List (Text × Text))
    → IsAscending key ps
    → insert_field (key, v) (strings ps) ≡ (key, v) ∷ strings ps
unfolding insert_field
insert_field-first key v [] h = refl
insert_field-first key v ((next, w) ∷ ps) (h, hs) = rw (text_before-asym key next h) refl

pub sort_fields-strings :
    (low : Text) (ps : List (Text × Text))
    → IsAscending low ps
    → sort_fields (strings ps) ≡ strings ps
unfolding sort_fields
sort_fields-strings low [] h = refl
sort_fields-strings low ((key, v) ∷ ps) (h, hs) =
    ap (insert_field (key, str v)) (sort_fields-strings key ps hs)
    ∙ insert_field-first key (str v) ps hs

pub lacks-append :
    (c : ℕ) (s t : Text) → lacks c s ≡ true → lacks c t ≡ true → lacks c (s ++ t) ≡ true
lacks-append c [] t h k = k
lacks-append c (x ∷ s) t h k = ground (arith, h, λ (e : lacks c s ≡ true). lacks-append c s t e k)

pub lacks-params :
    (ps : List (Text × Text)) → HasKeys ps → lacks b']' (render_params (strings ps)) ≡ true
unfolding render_params sprint
lacks-params [] h = refl
lacks-params ((key, v) ∷ ps) ((ne, eq, comma, close), hs) =
    lacks-append b']' key (b'=' ∷ (escape_param v ++ render_params (strings ps))) close (
      lacks-append b']' (escape_param v) (render_params (strings ps)) (lacks-escape_param_close v)
        (lacks-params ps hs))

-- The body of a code is split into the type and the parameters.
pub split-body :
    (kind : Text) (ps : List (Text × Text))
    → lacks b',' kind ≡ true
    → HasKeys ps
    → split b',' (body_of kind ps) ≡ (kind, map param ps)
unfolding render_params sprint
split-body kind [] h hs = ap (split b',') (append-nil kind) ∙ split-lacks b',' kind h
split-body kind ((key, v) ∷ ps) h ((ne, eq, comma, close), ks) =
    let rest : split b',' (key ++ (b'=' ∷ (escape_param v ++ render_params (strings ps))))
        ≡ (param (key, v), map param ps) =
      ap (split b',') (sym (append_assoc key (b'=' ∷ escape_param v) (render_params (strings ps))))
      ∙ split-body (param (key, v)) ps
          (lacks-append b',' key (b'=' ∷ escape_param v) comma (lacks-escape_param_comma v)) ks in
    split-append b',' kind (key ++ (b'=' ∷ (escape_param v ++ render_params (strings ps)))) h
    ∙ ap (λ p. (kind, p.0 ∷ p.1)) rest

-- A key that is not there yet is put at the end.
insert-last :
    (key : Text) (v : Value) (d : Dict Value)
    → all (λ p. not (key == p.0)) d ≡ true
    → insert key v d ≡ d ++ (key, v) ∷ []
unfolding insert
insert-last key v [] h = refl
insert-last key v ((k, w) ∷ d) h =
    ground (arith, h, λ (e : all (λ p. not (key == p.0)) d ≡ true). insert-last key v d e)

-- Every key is `low` or stands before it.
abbrev under : Text → Text × Value → Bool
under low p = p.0 == low || text_before p.0 low

under-step :
    (low key : Text) (p : Text × Value)
    → under low p ≡ true
    → text_before low key ≡ true
    → (not (key == p.0) ≡ true) × (under key p ≡ true)
under-step low key (k, v) h b =
    let before : text_before k key ≡ true = elim (Bool-cases (k == low)) [
      | inl e ↦ subst (λ x. text_before x key ≡ true) (sym ((eq_iff k low).0 e)) b
      | inr e ↦ text_before_trans k low key (ground (arith, h, e)) b
    ] in
    (ground (arith, text_before-ne k key before), ground (arith, before))

all-under :
    (low key : Text) (d : Dict Value)
    → all (under low) d ≡ true
    → text_before low key ≡ true
    → (all (λ p. not (key == p.0)) d ≡ true) × (all (under key) d ≡ true)
all-under low key [] h b = (refl, refl)
all-under low key (p ∷ d) h b = ground (
  arith,
  h,
  b,
  λ (e : under low p ≡ true). under-step low key p e b,
  λ (e : all (under low) d ≡ true). all-under low key d e b,
)

all-last :
    (low : Text) (d : Dict Value) (v : Value)
    → all (under low) d ≡ true
    → all (under low) (d ++ (low, v) ∷ []) ≡ true
all-last low [] v h = ground (arith, eq_refl low)
all-last low (p ∷ d) v h = ground (arith, h, λ (e : all (under low) d ≡ true). all-last low d v e)

pub parse_param :
    (kind key v : Text) (parts : List Text) (d : Dict Value) (ok : Bool)
    → is_empty key ≡ false
    → (kind == codes "at" && key == codes "qq") ≡ ok
    → lacks b'=' key ≡ true
    → parse_params kind (param (key, v) ∷ parts) d
      ≡ parse_params kind parts (insert (if ok then codes "id" else key) (str v) d)
unfolding parse_params
parse_param kind key v parts d ok ne other eq =
    ground
      (arith, cut-append b'=' key (escape_param v) eq, ne, other, unescape_param-escape_param v)

pub parse_params-params :
    (kind low : Text) (ps : List (Text × Text)) (d : Dict Value)
    → (kind == codes "at") ≡ false
    → HasKeys ps
    → IsAscending low ps
    → all (under low) d ≡ true
    → parse_params kind (map param ps) d ≡ d ++ strings ps
unfolding parse_params
parse_params-params kind low [] d other h asc und = sym (append-nil d)
parse_params-params kind low ((key, v) ∷ ps) d other ((ne, eq, comma, close), hs) (b, asc) und =
    let (fresh, und') = all-under low key d und b in
    let last : insert key (str v) d ≡ d ++ (key, str v) ∷ [] = insert-last key (str v) d fresh in
    parse_param kind key v (map param ps) d false ne (rw other refl) eq
    ∙ ap (parse_params kind (map param ps)) last
    ∙ parse_params-params kind key ps (d ++ (key, str v) ∷ []) other hs asc
        (all-last key d (str v) und')
    ∙ append_assoc d ((key, str v) ∷ []) (strings ps)
