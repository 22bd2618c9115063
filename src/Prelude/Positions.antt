-- ===== src/Prelude/Positions.antt =====
-- Lists by position, and lists of numbers without repetition: as many below a bound as the bound is are
-- all of them.
use Prim.Native.Nat.{ℕ, zero, suc, ◌+◌, ◌≤◌, ◌<◌}
use mathlib.Core.Path.{◌≡◌, refl, ap}
use mathlib.Core.Bool.{Bool, true, false, not}
use mathlib.Core.List.{List, [], ◌∷◌, ◌++◌}
use mathlib.Core.Logic.{inl, inr}
use mathlib.Core.Option.{Option, none, some}
use native.Mathlib.Omega.{arith}
use seqr.Prelude.Tests.{Bool-cases, ◌==◌}
use seqr.Prelude.Lists.{length, take, drop, any, All, retain}

module _ {ℓ} {A : Type ℓ} where
  abbrev pub get_elem? : List A → ℕ → Option A
  get_elem? [] n = none
  get_elem? (x ∷ xs) zero = some x
  get_elem? (x ∷ xs) (suc n) = get_elem? xs n

  pub get_elem?-append_front :
      (xs ys : List A) (j : ℕ) → j < length xs → get_elem? (xs ++ ys) j ≡ get_elem? xs j
  get_elem?-append_front [] ys j h = absurd (omega arith)
  get_elem?-append_front (x ∷ xs) ys zero h = refl
  get_elem?-append_front (x ∷ xs) ys (suc j) h = get_elem?-append_front xs ys j (omega arith)

  pub get_elem?-append_back :
      (xs ys : List A) (j k : ℕ) → j ≡ length xs + k → get_elem? (xs ++ ys) j ≡ get_elem? ys k
  get_elem?-append_back [] ys j k h = ap (get_elem? ys) (omega arith)
  get_elem?-append_back (x ∷ xs) ys zero k h = absurd (omega arith)
  get_elem?-append_back (x ∷ xs) ys (suc j) k h = get_elem?-append_back xs ys j k (omega arith)

  pub get_elem?-take :
      (n : ℕ) (xs : List A) (j : ℕ) → j < n → get_elem? (take n xs) j ≡ get_elem? xs j
  get_elem?-take zero xs j h = absurd (omega arith)
  get_elem?-take (suc n) [] j h = refl
  get_elem?-take (suc n) (x ∷ xs) zero h = refl
  get_elem?-take (suc n) (x ∷ xs) (suc j) h = get_elem?-take n xs j (omega arith)

  pub get_elem?-drop :
      (n : ℕ) (xs : List A) (j k : ℕ) → k ≡ n + j → get_elem? (drop n xs) j ≡ get_elem? xs k
  get_elem?-drop zero xs j k h = ap (get_elem? xs) (omega arith)
  get_elem?-drop (suc n) [] j k h = refl
  get_elem?-drop (suc n) (x ∷ xs) j zero h = absurd (omega arith)
  get_elem?-drop (suc n) (x ∷ xs) j (suc k) h = get_elem?-drop n xs j k (omega arith)

  -- Lists of one length that agree at every position are equal.
  pub eq-of_get_elem? :
      (xs ys : List A)
      → length xs ≡ length ys
      → ((j : ℕ) → j < length ys → get_elem? xs j ≡ get_elem? ys j)
      → xs ≡ ys
  eq-of_get_elem? [] [] l h = refl
  eq-of_get_elem? [] (y ∷ ys) l h = absurd (omega arith)
  eq-of_get_elem? (x ∷ xs) [] l h = absurd (omega arith)
  eq-of_get_elem? (x ∷ xs) (y ∷ ys) l h =
      let tails = eq-of_get_elem? xs ys (omega arith) (λ j b. h (suc j) (omega arith)) in
      let heads : some x ≡ some y = h 0 (omega arith) in cc

-- whether a number is among others
abbrev pub among : ℕ → List ℕ → Bool
among n xs = any (λ x. x == n) xs

abbrev pub IsDistinct : List ℕ → Type 0
IsDistinct [] = Unit
IsDistinct (x ∷ xs) = (among x xs ≡ false) × IsDistinct xs

abbrev without : ℕ → List ℕ → List ℕ
without n xs = retain (λ x. not (x == n)) xs

without_absent : (n : ℕ) (xs : List ℕ) → among n xs ≡ false → without n xs ≡ xs
without_absent n [] h = refl
without_absent n (x ∷ xs) h = ground (arith, without_absent n xs)

length-without : (n : ℕ) (xs : List ℕ) → IsDistinct xs → length xs ≤ 1 + length (without n xs)
length-without n [] h = omega arith
length-without n (x ∷ xs) (hx, h) = elim (Bool-cases (x == n)) [
  | inl same ↦ let e : x ≡ n = ground arith in rw same (ground (arith, without_absent n xs, hx, e))
  | inr other ↦ rw other (omega (arith, length-without n xs h))
]

among-without : (n m : ℕ) (xs : List ℕ) → among m xs ≡ false → among m (without n xs) ≡ false
among-without n m [] h = refl
among-without n m (x ∷ xs) h = ground (arith, among-without n m xs)

without-IsDistinct : (n : ℕ) (xs : List ℕ) → IsDistinct xs → IsDistinct (without n xs)
without-IsDistinct n [] h = tt
without-IsDistinct n (x ∷ xs) (hx, h) = elim (Bool-cases (x == n)) [
  | inl same ↦ rw same (without-IsDistinct n xs h)
  | inr other ↦ rw other (among-without n x xs hx, without-IsDistinct n xs h)
]

without_below : (n : ℕ) (xs : List ℕ) → All (λ x. x < suc n) xs → All (λ x. x < n) (without n xs)
without_below n [] h = tt
without_below n (x ∷ xs) (hx, h) = elim (Bool-cases (x == n)) [
  | inl same ↦ rw same (without_below n xs h)
  | inr other ↦ rw other (ground arith, without_below n xs h)
]

-- Distinct numbers below a bound are no more than it.
pub length-le_of_IsDistinct :
    (n : ℕ) (xs : List ℕ) → IsDistinct xs → All (λ x. x < n) xs → length xs ≤ n
length-le_of_IsDistinct zero [] d h = omega arith
length-le_of_IsDistinct zero (x ∷ xs) d (hx, h) = absurd (omega arith)
length-le_of_IsDistinct (suc n) xs d h = omega (
  arith,
  length-without n xs d,
  length-le_of_IsDistinct n (without n xs) (without-IsDistinct n xs d) (without_below n xs h),
)

-- If they are as many as it, each number below the bound is among them.
pub among_all :
    (n : ℕ) (xs : List ℕ)
    → IsDistinct xs
    → All (λ x. x < n) xs
    → length xs ≡ n
    → (i : ℕ) → i < n
    → among i xs ≡ true
among_all n xs d h full i below = elim (Bool-cases (among i xs)) [
  | inl there ↦ there
  | inr missing ↦ absurd (omega (arith, length-le_of_IsDistinct n (i ∷ xs) (missing, d) (below, h)))
]

length-without_there :
    (n : ℕ) (xs : List ℕ) → among n xs ≡ true → 1 + length (without n xs) ≤ length xs
length-without_there n [] h = ground arith
length-without_there n (x ∷ xs) h = elim (Bool-cases (x == n)) [
  | inl same ↦ rw same (omega (arith, length-without_le n xs))
  | inr other ↦ rw other (omega (arith, length-without_there n xs (ground arith)))
]
  where
    length-without_le : (n : ℕ) (xs : List ℕ) → length (without n xs) ≤ length xs
    length-without_le n [] = omega arith
    length-without_le n (x ∷ xs) = ground (arith, length-without_le n xs)

among-without_other :
    (n m : ℕ) (xs : List ℕ) → m < n → among m xs ≡ true → among m (without n xs) ≡ true
among-without_other n m [] less h = h
among-without_other n m (x ∷ xs) less h = ground (arith, among-without_other n m xs less)

-- A list that has each number below a bound is at least as long as it.
pub le-length_of_among :
    (n : ℕ) (xs : List ℕ) → ((i : ℕ) → i < n → among i xs ≡ true) → n ≤ length xs
le-length_of_among zero xs h = omega arith
le-length_of_among (suc n) xs h = omega (
  arith,
  length-without_there n xs (h n (omega arith)),
  le-length_of_among n (without n xs)
      (λ i below. among-without_other n i xs below (h i (omega arith))),
)
