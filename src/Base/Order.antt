-- ===== src/Base/Order.antt =====
-- The order of Go strings, that of their bytes, which is that of their code points.
use mathlib.Core.Path.{◌≡◌, refl}
use mathlib.Core.Bool.{Bool, true, false, ◌&&◌, ◌||◌}
use mathlib.Core.List.{[], ◌∷◌}
use native.Mathlib.Omega.{arith}
use anybot.Base.Tests.{eqb, ltb}
use anybot.Base.Texts.{Text, ◌==◌}

unfoldable pub text_before : Text → Text → Bool
text_before [] [] = false
text_before [] (_ ∷ _) = true
text_before (_ ∷ _) [] = false
text_before (a ∷ s) (b ∷ t) = ltb a b || (eqb a b && text_before s t)

pub text_before-asym : (s t : Text) → text_before s t ≡ true → text_before t s ≡ false
unfolding text_before
text_before-asym [] [] h = ground (arith, h)
text_before-asym [] (b ∷ t) h = refl
text_before-asym (a ∷ s) [] h = ground (arith, h)
text_before-asym (a ∷ s) (b ∷ t) h =
    ground (arith, h, λ (e : text_before s t ≡ true). text_before-asym s t e)

pub text_before_trans :
    (s t u : Text) → text_before s t ≡ true → text_before t u ≡ true → text_before s u ≡ true
unfolding text_before
text_before_trans [] [] [] h k = absurd (ground (arith, h))
text_before_trans [] (b ∷ t) [] h k = absurd (ground (arith, k))
text_before_trans [] t (c ∷ u) h k = refl
text_before_trans (a ∷ s) [] u h k = absurd (ground (arith, h))
text_before_trans (a ∷ s) (b ∷ t) [] h k = absurd (ground (arith, k))
text_before_trans (a ∷ s) (b ∷ t) (c ∷ u) h k = ground (
  arith,
  h,
  k,
  λ (e : text_before s t ≡ true) (f : text_before t u ≡ true). text_before_trans s t u e f,
)

pub text_before-ne : (s t : Text) → text_before s t ≡ true → (t == s) ≡ false
unfolding text_before ◌==◌
text_before-ne [] [] h = absurd (ground (arith, h))
text_before-ne [] (b ∷ t) h = refl
text_before-ne (a ∷ s) [] h = refl
text_before-ne (a ∷ s) (b ∷ t) h =
    ground (arith, h, λ (e : text_before s t ≡ true). text_before-ne s t e)

pub text_before-total :
    (s t : Text) → text_before s t ≡ false → (s == t) ≡ false → text_before t s ≡ true
unfolding text_before ◌==◌
text_before-total [] [] h n = absurd (ground (arith, n))
text_before-total [] (b ∷ t) h n = absurd (ground (arith, h))
text_before-total (a ∷ s) [] h n = refl
text_before-total (a ∷ s) (b ∷ t) h n =
    ground (
      arith,
      h,
      n,
      λ (e : text_before s t ≡ false) (f : (s == t) ≡ false). text_before-total s t e f,
    )
