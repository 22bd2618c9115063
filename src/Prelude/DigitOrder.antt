-- ===== src/Prelude/DigitOrder.antt =====
-- Digit texts of one length are ordered as texts the way their numbers are.
use Prim.Native.Nat.{ℕ, suc, ◌+◌, ◌-◌, ◌*◌, ◌^◌, ◌<◌, ◌≤◌}
use mathlib.Core.Bool.{true}
use mathlib.Core.List.{[], ◌∷◌, ◌++◌}
use mathlib.Core.Path.{◌≡◌, refl, ap, sym, ◌∙◌}
use native.Mathlib.Decide.{dec_le}
use native.Mathlib.Nat.{pow-suc, mul-le-mul_right}
use native.Mathlib.Omega.{arith}
use seqr.Prelude.Decimal.{
  IsDigit, padded, value_from, value_from-add, value_from-padded, padded-All-IsDigit, length-padded,
}
use seqr.Prelude.Lists.{length, All}
use seqr.Prelude.Text.{Str, str_leb}

value_from-cons :
    (c : ℕ) (s : Str) → value_from 0 (c ∷ s) ≡ (c - b'0') * 10 ^ length s + value_from 0 s
unfolding value_from
value_from-cons c s = rw (value_from-add (0 * 10 + (c - b'0')) s) (omega arith)

value_from-lt : (s : Str) → All IsDigit s → value_from 0 s < 10 ^ length s
unfolding value_from
value_from-lt [] h = omega arith
value_from-lt (c ∷ s) (hc, h) = rw (value_from-cons c s) (
    rw (pow-suc 10 (length s)) (
      let top : (c - b'0') * 10 ^ length s ≤ 9 * 10 ^ length s =
        mul-le-mul_right (10 ^ length s) (omega arith) in
      omega (arith, value_from-lt s h)))

head_le : (x y p a b : ℕ) → x * p + a < y * p + b → b < p → x ≤ y
head_le x y p a b lt small = elim (dec_le x y) [
  | yes le ↦ le
  | no gt ↦ let more : suc y * p ≤ x * p = mul-le-mul_right p (omega arith) in absurd (omega arith)
]

-- In digit texts of one length with ordered numbers, the first digits are ordered, and if they are
-- equal the rests are.
heads_order :
    (c d : ℕ) (s t : Str)
    → All IsDigit t
    → length s ≡ length t
    → value_from 0 (c ∷ s) < value_from 0 (d ∷ t)
    → ((c - b'0') ≤ (d - b'0')) × (c ≡ d → value_from 0 s < value_from 0 t)
heads_order c d s t ht e lt =
    let lt' : (c - b'0') * 10 ^ length t + value_from 0 s
        < (d - b'0') * 10 ^ length t + value_from 0 t =
      omega (arith, value_from-cons c s, value_from-cons d t, ap (λ n. (c - b'0') * 10 ^ n) e) in
    (
      head_le (c - b'0') (d - b'0') (10 ^ length t) (value_from 0 s) (value_from 0 t) lt'
          (value_from-lt t ht),
      λ same.
          let eq' : (c - b'0') * 10 ^ length t ≡ (d - b'0') * 10 ^ length t =
            ap (λ n. (n - b'0') * 10 ^ length t) same in
          omega arith,
    )

-- The smaller number comes first, whatever follows the digits.
pub str_leb_of_value :
    (s t u v : Str)
    → All IsDigit s
    → All IsDigit t
    → length s ≡ length t
    → value_from 0 s < value_from 0 t
    → str_leb (s ++ u) (t ++ v) ≡ true
unfolding str_leb
str_leb_of_value [] [] u v hs ht e lt = absurd (omega arith)
str_leb_of_value [] (d ∷ t) u v hs ht e lt = absurd (omega arith)
str_leb_of_value (c ∷ s) [] u v hs ht e lt = absurd (omega arith)
str_leb_of_value (c ∷ s) (d ∷ t) u v (hc, hs) (hd, ht) e lt =
    let (le, rest) = heads_order c d s t ht (omega arith) lt in
    ground (arith, rest, str_leb_of_value s t u v hs ht (omega arith))

-- Two numbers below the bound, written to one width, are ordered as texts.
pub padded-le :
    (k m n : ℕ) (u v : Str)
    → m < 10 ^ suc k
    → n < 10 ^ suc k
    → m < n
    → str_leb (padded (suc k) m ++ u) (padded (suc k) n ++ v) ≡ true
padded-le k m n u v hm hn lt =
    str_leb_of_value (padded (suc k) m) (padded (suc k) n) u v (padded-All-IsDigit (suc k) m)
      (padded-All-IsDigit (suc k) n) (length-padded k m hm ∙ sym (length-padded k n hn))
      (omega (arith, value_from-padded (suc k) m, value_from-padded (suc k) n))

-- Behind equal digits the rests decide.
pub str_leb-append_same : (s u v : Str) → str_leb (s ++ u) (s ++ v) ≡ str_leb u v
unfolding str_leb
str_leb-append_same [] u v = refl
str_leb-append_same (c ∷ s) u v = ground (arith, str_leb-append_same s u v)
