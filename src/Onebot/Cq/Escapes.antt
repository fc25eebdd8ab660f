-- ===== src/Onebot/Cq/Escapes.antt =====
-- adapters/onebot11/message.go: the escapes of CQ codes are undone.
use anybot.Base.{
  ℕ, ◌≡◌, refl, ap, ◌∙◌, Bool, true, not, [], ◌∷◌, ◌++◌, arith, Text, codes, if◌then◌else◌,
}
use anybot.Base.{eqb, strip_prefix, all}
use anybot.Onebot.Cq.{
  replace_from, find_old, unescape_text, unescape_param, escape_char, escape_text, escape_param,
}

escape_char-undone : (c : ℕ) (t : Text) → unescape_text (escape_char c ++ t) ≡ c ∷ unescape_text t
unfolding unescape_text escape_char replace_from find_old strip_prefix
escape_char-undone c t = ground arith

escape_param-undone :
    (c : ℕ) (t : Text)
    → unescape_param ((if eqb c b',' then codes "&#44;" else escape_char c) ++ t)
      ≡ c ∷ unescape_param t
unfolding unescape_param escape_char replace_from find_old strip_prefix
escape_param-undone c t = ground arith

-- A text in which brackets and ampersands are escaped is what it was after the escapes are undone.
pub unescape_text-escape_text : (s : Text) → unescape_text (escape_text s) ≡ s
unfolding unescape_text escape_text
unescape_text-escape_text [] = refl
unescape_text-escape_text (c ∷ s) =
    escape_char-undone c (escape_text s) ∙ ap (◌∷◌ c) (unescape_text-escape_text s)

-- A parameter in which brackets, ampersands and commas are escaped is what it was after the escapes
-- are undone.
pub unescape_param-escape_param : (s : Text) → unescape_param (escape_param s) ≡ s
unfolding unescape_param escape_param
unescape_param-escape_param [] = refl
unescape_param-escape_param (c ∷ s) =
    escape_param-undone c (escape_param s) ∙ ap (◌∷◌ c) (unescape_param-escape_param s)

-- No character of the text is `c`.
abbrev pub lacks : ℕ → Text → Bool
lacks c = all (λ x. not (eqb x c))

-- An escaped text holds no bracket, and a parameter no comma either.
pub lacks-escape_text_open : (s : Text) → lacks b'[' (escape_text s) ≡ true
unfolding escape_text escape_char
lacks-escape_text_open [] = refl
lacks-escape_text_open (c ∷ s) = ground (arith, lacks-escape_text_open s)

pub lacks-escape_param_close : (s : Text) → lacks b']' (escape_param s) ≡ true
unfolding escape_param escape_char
lacks-escape_param_close [] = refl
lacks-escape_param_close (c ∷ s) = ground (arith, lacks-escape_param_close s)

pub lacks-escape_param_comma : (s : Text) → lacks b',' (escape_param s) ≡ true
unfolding escape_param escape_char
lacks-escape_param_comma [] = refl
lacks-escape_param_comma (c ∷ s) = ground (arith, lacks-escape_param_comma s)
