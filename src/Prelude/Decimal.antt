-- ===== src/Prelude/Decimal.antt =====
-- Decimal notation: what `format!` writes for an unsigned integer, plain and padded with zeros to a
-- width.
use Prim.Native.Nat.{ℕ, zero, suc, ◌+◌, ◌-◌, ◌*◌, ◌/◌, ◌%◌, ◌^◌, ◌≤◌, ◌<◌}
use mathlib.Core.Bool.{Bool, ◌&&◌}
use mathlib.Core.List.{[], ◌∷◌, ◌++◌}
use mathlib.Core.Logic.{dite, dif_pos, dif_neg}
use mathlib.Core.Path.{◌≡◌, refl, sym, ap, ◌∙◌}
use mathlib.Core.WellFounded.{Acc, WellFounded}
use native.Mathlib.Bridge.{le_prop}
use native.Mathlib.Decide.{dec_lt}
use native.Mathlib.Nat.{pow-suc, pow-zero}
use native.Mathlib.Omega.{arith}
use seqr.Prelude.Lists.{
  length, replicate, length-append, length-replicate, All, All-append, All-replicate,
}
use seqr.Prelude.Tests.{leb}
use seqr.Prelude.Text.{Str}

Acc-below : (k n : ℕ) → n < k → Acc ◌<◌ n
Acc-below zero n h = elim h [ ]
Acc-below (suc k) n h = Acc.intro n (λ m hm. Acc-below k m (omega arith))

lt_wf : WellFounded ◌<◌
unfolding Acc-below
lt_wf = record { apply = λ n. Acc-below (suc n) n (omega arith) }

tenth_lt : {n : ℕ} → 9 < n → n / 10 < n
tenth_lt h = omega arith

digits : (n : ℕ) → Acc ◌<◌ n → Str
digits n (Acc.intro _ smaller) =
    dite (dec_lt 9 n) (λ h. digits (n / 10) (smaller (n / 10) (tenth_lt h)) ++ (b'0' + n % 10) ∷ [])
      (λ _. (b'0' + n % 10) ∷ [])

-- `format!("{}", n)`
unfoldable pub decimal : ℕ → Str
unfolding digits lt_wf dec_lt tenth_lt
decimal n = digits n (lt_wf.apply n)

-- `format!("{:0w$}", n)`
unfoldable pub padded : ℕ → ℕ → Str
padded w n = replicate (w - length (decimal n)) b'0' ++ decimal n

-- `u8::is_ascii_digit`
abbrev pub is_ascii_digit : ℕ → Bool
is_ascii_digit c = leb b'0' c && leb c b'9'

abbrev pub IsDigit : ℕ → Type 0
IsDigit c = (b'0' ≤ c) × (c ≤ b'9')

-- the number that a text of digits stands for, read behind `acc`
unfoldable pub value_from : ℕ → Str → ℕ
value_from acc [] = acc
value_from acc (c ∷ s) = value_from (acc * 10 + (c - b'0')) s

pub value_from-add : (acc : ℕ) (s : Str) → value_from acc s ≡ acc * 10 ^ length s + value_from 0 s
unfolding value_from
value_from-add acc [] = grind (arith, pow-zero)
value_from-add acc (c ∷ s) = rw (pow-suc 10 (length s)) (
    rw (value_from-add (acc * 10 + (c - b'0')) s)
      (rw (value_from-add (0 * 10 + (c - b'0')) s) (omega arith)))

pub value_from-append :
    (acc : ℕ) (s t : Str) → value_from acc (s ++ t) ≡ value_from (value_from acc s) t
unfolding value_from
value_from-append acc [] t = refl
value_from-append acc (c ∷ s) t = value_from-append (acc * 10 + (c - b'0')) s t

value_from-digits : (n : ℕ) (w : Acc ◌<◌ n) → value_from 0 (digits n w) ≡ n
unfolding digits value_from
value_from-digits n (Acc.intro _ smaller) = elim (dec_lt 9 n) [
  | yes h ↦ rw (dif_pos (dec_lt 9 n) le_prop h) (
      rw value_from-append
        (rw (value_from-digits (n / 10) (smaller (n / 10) (tenth_lt h))) (omega arith)))
  | no h ↦ rw (dif_neg (dec_lt 9 n) h) (omega arith)
]

-- Decimal notation determines the number.
pub value_from-decimal : (n : ℕ) → value_from 0 (decimal n) ≡ n
unfolding decimal
value_from-decimal n = value_from-digits n (lt_wf.apply n)

pub decimal-injective : (m n : ℕ) → decimal m ≡ decimal n → m ≡ n
decimal-injective m n e = sym (value_from-decimal m) ∙ (ap (value_from 0) e ∙ value_from-decimal n)

digits-All-IsDigit : (n : ℕ) (w : Acc ◌<◌ n) → All IsDigit (digits n w)
unfolding digits
digits-All-IsDigit n (Acc.intro _ smaller) = elim (dec_lt 9 n) [
  | yes h ↦ rw (dif_pos (dec_lt 9 n) le_prop h) (
      All-append IsDigit _ _ (digits-All-IsDigit (n / 10) (smaller (n / 10) (tenth_lt h)))
        (omega arith))
  | no h ↦ rw (dif_neg (dec_lt 9 n) h) (omega arith)
]

pub decimal-All-IsDigit : (n : ℕ) → All IsDigit (decimal n)
unfolding decimal
decimal-All-IsDigit n = digits-All-IsDigit n (lt_wf.apply n)

digits-length-le : (k n : ℕ) (w : Acc ◌<◌ n) → n < 10 ^ suc k → length (digits n w) ≤ suc k
unfolding digits
digits-length-le zero n (Acc.intro _ smaller) lt =
    let small : n < 10 = lt in rw (dif_neg (dec_lt 9 n) (omega arith)) (omega arith)
digits-length-le (suc k) n (Acc.intro _ smaller) lt = elim (dec_lt 9 n) [
  | yes h ↦ rw (dif_pos (dec_lt 9 n) le_prop h) (
      rw length-append (
        omega (
          arith,
          digits-length-le k (n / 10) (smaller (n / 10) (tenth_lt h))
              (omega (arith, pow-suc 10 (suc k))),
        )))
  | no h ↦ rw (dif_neg (dec_lt 9 n) h) (omega arith)
]

pub decimal-length-le : (k n : ℕ) → n < 10 ^ suc k → length (decimal n) ≤ suc k
unfolding decimal
decimal-length-le k n = digits-length-le k n (lt_wf.apply n)

pub padded-All-IsDigit : (w n : ℕ) → All IsDigit (padded w n)
unfolding padded
padded-All-IsDigit w n =
    All-append IsDigit _ _ (All-replicate IsDigit (w - length (decimal n)) b'0' (omega arith))
      (decimal-All-IsDigit n)

-- A number below the bound is written with exactly the digits of the width.
pub length-padded : (k n : ℕ) → n < 10 ^ suc k → length (padded (suc k) n) ≡ suc k
unfolding padded
length-padded k n h = omega (
  arith,
  decimal-length-le k n h,
  length-append (replicate (suc k - length (decimal n)) b'0') (decimal n),
  length-replicate {A = ℕ} (suc k - length (decimal n)) b'0',
)

value_from-replicate : (k : ℕ) (s : Str) → value_from 0 (replicate k b'0' ++ s) ≡ value_from 0 s
unfolding value_from
value_from-replicate zero s = refl
value_from-replicate (suc k) s = value_from-replicate k s

pub value_from-padded : (w n : ℕ) → value_from 0 (padded w n) ≡ n
unfolding padded
value_from-padded w n =
    value_from-replicate (w - length (decimal n)) (decimal n) ∙ value_from-decimal n
