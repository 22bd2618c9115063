-- ===== src/Prelude/Sort.antt =====
-- `Vec<String>::sort`: the texts in the order of `Ord for str`, and how sorting meets appending and
-- filtering.
use mathlib.Core.Path.{◌≡◌, refl}
use mathlib.Core.Bool.{Bool, true}
use mathlib.Core.List.{List, [], ◌∷◌, ◌++◌}
use mathlib.Core.Logic.{inl, inr}
use native.Mathlib.Omega.{arith}
use seqr.Prelude.Tests.{if◌then◌else◌, Bool-cases}
use seqr.Prelude.Lists.{All, All-retain, retain}
use seqr.Prelude.Text.{Str, str_leb, str_leb-total, str_leb_trans}

unfoldable pub insert_sorted : Str → List Str → List Str
insert_sorted x [] = x ∷ []
insert_sorted x (y ∷ ys) =
    let rest = insert_sorted x ys in if str_leb x y then x ∷ y ∷ ys else y ∷ rest

unfoldable pub sort : List Str → List Str
sort [] = []
sort (x ∷ xs) = insert_sorted x (sort xs)

-- `x` comes before each of the texts, or is equal to it
abbrev pub LeAll : Str → List Str → Type 0
LeAll x = All (λ y. str_leb x y ≡ true)

-- each of the texts comes before `x`, or is equal to it
abbrev pub AllLe : List Str → Str → Type 0
AllLe xs x = All (λ y. str_leb y x ≡ true) xs

abbrev pub IsSorted : List Str → Type 0
IsSorted [] = Unit
IsSorted (x ∷ xs) = LeAll x xs × IsSorted xs

LeAll-trans : (x y : Str) (ys : List Str) → str_leb x y ≡ true → LeAll y ys → LeAll x ys
LeAll-trans x y [] h k = tt
LeAll-trans x y (z ∷ ys) h (hz, k) = (str_leb_trans x y z h hz, LeAll-trans x y ys h k)

LeAll-insert_sorted :
    (x y : Str) (ys : List Str) → str_leb y x ≡ true → LeAll y ys → LeAll y (insert_sorted x ys)
unfolding insert_sorted
LeAll-insert_sorted x y [] h k = (h, tt)
LeAll-insert_sorted x y (z ∷ ys) h (hz, k) = elim (Bool-cases (str_leb x z)) [
  | inl le ↦ rw le (h, (hz, k))
  | inr gt ↦ rw gt (hz, LeAll-insert_sorted x y ys h k)
]

insert_sorted-IsSorted : (x : Str) (ys : List Str) → IsSorted ys → IsSorted (insert_sorted x ys)
unfolding insert_sorted
insert_sorted-IsSorted x [] h = (tt, tt)
insert_sorted-IsSorted x (y ∷ ys) (hy, h) = elim (Bool-cases (str_leb x y)) [
  | inl le ↦ rw le ((le, LeAll-trans x y ys le hy), (hy, h))
  | inr gt ↦
      rw gt (LeAll-insert_sorted x y ys (str_leb-total x y gt) hy, insert_sorted-IsSorted x ys h)
]

pub sort-IsSorted : (xs : List Str) → IsSorted (sort xs)
unfolding sort
sort-IsSorted [] = tt
sort-IsSorted (x ∷ xs) = insert_sorted-IsSorted x (sort xs) (sort-IsSorted xs)

insert_sorted_of_LeAll : (x : Str) (ys : List Str) → LeAll x ys → insert_sorted x ys ≡ x ∷ ys
unfolding insert_sorted
insert_sorted_of_LeAll x [] h = refl
insert_sorted_of_LeAll x (y ∷ ys) (h, _) = rw h

-- Sorting what a filter keeps is keeping from the sorted list.
retain-insert_sorted :
    (p : Str → Bool) (x : Str) (ys : List Str)
    → IsSorted ys
    → retain p (insert_sorted x ys) ≡ (if p x then insert_sorted x (retain p ys) else retain p ys)
unfolding insert_sorted
retain-insert_sorted p x [] h = refl
retain-insert_sorted p x (y ∷ ys) (hy, h) = elim (Bool-cases (str_leb x y)) [
  | inl le ↦ rw le (
      ground (
        arith,
        insert_sorted_of_LeAll x (retain p ys)
            (All-retain (λ z. str_leb x z ≡ true) p ys (LeAll-trans x y ys le hy)),
      ))
  | inr gt ↦ rw gt (ground (arith, retain-insert_sorted p x ys h))
]

pub sort-retain : (p : Str → Bool) (xs : List Str) → sort (retain p xs) ≡ retain p (sort xs)
unfolding sort
sort-retain p [] = refl
sort-retain p (x ∷ xs) =
    rw (retain-insert_sorted p x (sort xs) (sort-IsSorted xs)) (ground (arith, sort-retain p xs))

insert_sorted-append :
    (x n : Str) (ys : List Str)
    → str_leb x n ≡ true
    → insert_sorted x (ys ++ n ∷ []) ≡ insert_sorted x ys ++ n ∷ []
unfolding insert_sorted
insert_sorted-append x n [] h = rw h
insert_sorted-append x n (y ∷ ys) h = ground (arith, insert_sorted-append x n ys h)

-- A text that comes after all others stays at the end.
pub sort-append : (xs : List Str) (n : Str) → AllLe xs n → sort (xs ++ n ∷ []) ≡ sort xs ++ n ∷ []
unfolding sort insert_sorted
sort-append [] n h = refl
sort-append (x ∷ xs) n (hx, h) = rw (sort-append xs n h) (insert_sorted-append x n (sort xs) hx)
