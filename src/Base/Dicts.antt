-- ===== src/Base/Dicts.antt =====
-- Go maps from string as association lists: `lookup` of the first entry, `insert` in place.
use mathlib.Core.Path.{◌≡◌, refl}
use mathlib.Core.Option.{Option, none, some}
use mathlib.Core.List.{List, [], ◌∷◌}
use native.Mathlib.Omega.{arith}
use anybot.Base.Tests.{if◌then◌else◌}
use anybot.Base.Texts.{Text, ◌==◌, eq_iff}

abbrev pub Dict {ℓ} : Type ℓ → Type ℓ
Dict V = List (Text × V)

module _ {ℓ} {V : Type ℓ} where
  unfoldable pub lookup : Text → Dict V → Option V
  lookup key [] = none
  lookup key ((name, value) ∷ d) = if key == name then some value else lookup key d

  unfoldable pub insert : Text → V → Dict V → Dict V
  insert key new [] = (key, new) ∷ []
  insert key new ((name, value) ∷ d) =
      if key == name then (name, new) ∷ d else (name, value) ∷ insert key new d

  -- delete(m, k): every entry of the key goes.
  unfoldable pub delete : Text → Dict V → Dict V
  delete key [] = []
  delete key ((name, value) ∷ d) =
      let rest = delete key d in if key == name then rest else (name, value) ∷ rest

  pub lookup-insert :
      (key other : Text) (new : V) (d : Dict V)
      → lookup other (insert key new d) ≡ (if other == key then some new else lookup other d)
  unfolding insert lookup
  lookup-insert key other new [] = refl
  lookup-insert key other new ((name, value) ∷ d) =
      ground
        (lookup-insert key other new d, eq_iff key name, eq_iff other name, eq_iff other key, arith)

  pub lookup-delete :
      (key other : Text) (d : Dict V)
      → lookup other (delete key d) ≡ (if other == key then none else lookup other d)
  unfolding delete lookup
  lookup-delete key other [] = ground arith
  lookup-delete key other ((name, value) ∷ d) =
      ground
        (lookup-delete key other d, eq_iff key name, eq_iff other name, eq_iff other key, arith)
