-- ===== src/Sdk/Access/Laws.antt =====
-- sdk/access.go: the lists are read without their blanks.
use anybot.Base.{
  ◌≡◌, refl, ◌∙◌, Bool, not, ◌&&◌, ◌||◌, some, List, [], ◌∷◌, ◌++◌, arith, Text, if◌then◌else◌,
}
use anybot.Base.{contains, is_empty, trim_space, any, all, eq_iff, ◌==◌}
use anybot.Core.Context.{Context, group_id}
use anybot.Sdk.Access.{clean_loop, clean_string_set, allowed_groups}

-- The entry is `t` without the blanks around it.
abbrev pub names : Text → Text → Bool
names t value = not (is_empty (trim_space value)) && trim_space value == t

contains-append :
    (xs ys : List Text) (t : Text) → contains (xs ++ ys) t ≡ (contains xs t || contains ys t)
unfolding contains
contains-append [] ys t = refl
contains-append (x ∷ xs) ys t = ground (arith, contains-append xs ys t)

added-contains :
    (v t : Text) (out : List Text)
    → contains (if is_empty v || contains out v then out else out ++ v ∷ []) t
      ≡ (contains out t || (not (is_empty v) && v == t))
unfolding contains
added-contains v t out = ground (arith, contains-append out (v ∷ []) t, eq_iff v t)

added-empty :
    (v : Text) (out : List Text)
    → is_empty (if is_empty v || contains out v then out else out ++ v ∷ [])
      ≡ (is_empty out && is_empty v)
unfolding contains
added-empty [] [] = refl
added-empty (c ∷ v) [] = refl
added-empty v (x ∷ out) = ground arith

clean_loop-contains :
    (values out : List Text) (t : Text)
    → contains (clean_loop values out) t ≡ (contains out t || any (names t) values)
unfolding clean_loop contains
clean_loop-contains [] out t = ground arith
clean_loop-contains (value ∷ values) out t =
    let v = trim_space value in
    clean_loop-contains values (if is_empty v || contains out v then out else out ++ v ∷ []) t
    ∙ ground (arith, added-contains v t out)

clean_loop-empty :
    (values out : List Text)
    → is_empty (clean_loop values out) ≡ (is_empty out && all (λ v. is_empty (trim_space v)) values)
unfolding clean_loop
clean_loop-empty [] out = ground arith
clean_loop-empty (value ∷ values) out =
    let v = trim_space value in
    clean_loop-empty values (if is_empty v || contains out v then out else out ++ v ∷ [])
    ∙ ground (arith, added-empty v out)

-- AllowedGroups lets through every event where all entries of the list are blank, every event outside
-- a group, and the events of a group that an entry names, blanks around it aside.
allowed_groups-decides :
    (ids : List Text) (c : Context)
    → (allowed_groups ids (some c)).1 ≡ (
        all (λ v. is_empty (trim_space v)) ids
        || is_empty (group_id c)
        || any (names (group_id c)) ids)
unfolding allowed_groups clean_string_set contains
allowed_groups-decides ids c =
    ground (arith, clean_loop-contains ids [] (group_id c), clean_loop-empty ids [])
