-- ===== src/Prelude/Unicode.antt =====
-- Rust's texts as bytes: `String::from_utf8`, `str::trim`.
use Prim.Native.Nat.{ℕ, zero, suc, ◌<◌}
use mathlib.Core.Bool.{Bool, true, false, ◌&&◌, ◌||◌}
use mathlib.Core.List.{List, [], ◌∷◌, reverse, reverse-cons, reverse-reverse}
use mathlib.Core.Option.{Option, none, some}
use mathlib.Core.Path.{◌≡◌, refl, sym, subst}
use native.Mathlib.Omega.{arith}
use seqr.Prelude.Lists.{drop, length, All, All-append}
use seqr.Prelude.Tests.{ltb, leb, ◌==◌, if◌then◌else◌}
use seqr.Prelude.Text.{Str, Bytes}

abbrev between : ℕ → ℕ → ℕ → Bool
between lo hi c = leb lo c && leb c hi

-- `n` bytes are still missing from the character at hand, the next of them between `lo` and `hi`
utf8_from : ℕ → ℕ → ℕ → Bytes → Bool
utf8_from lo hi zero [] = true
utf8_from lo hi (suc n) [] = false
utf8_from lo hi (suc n) (c ∷ s) = between lo hi c && utf8_from 128 191 n s
utf8_from lo hi zero (c ∷ s) =
    let ascii = utf8_from 128 191 0 s in
    let two = utf8_from 128 191 1 s in
    let after_e0 = utf8_from 160 191 2 s in
    let after_ed = utf8_from 128 159 2 s in
    let three = utf8_from 128 191 2 s in
    let after_f0 = utf8_from 144 191 3 s in
    let after_f4 = utf8_from 128 143 3 s in
    let four = utf8_from 128 191 3 s in
    if ltb c 128
    then ascii
    else if between 194 223 c
    then two
    else if c == 224
    then after_e0
    else if c == 237
    then after_ed
    else if between 225 239 c
    then three
    else if c == 240
    then after_f0
    else if between 241 243 c
    then four
    else if c == 244
    then after_f4
    else false

-- whether `String::from_utf8` accepts
unfoldable pub is_utf8 : Bytes → Bool
unfolding utf8_from
is_utf8 s = utf8_from 128 191 0 s

-- `String::from_utf8(b).ok()`
abbrev pub from_utf8 : Bytes → Option Str
from_utf8 b = if is_utf8 b then some b else none

-- the bytes of the white space character that a text starts with, 0 where it starts with another
unfoldable pub white_start : Str → ℕ
white_start [] = 0
white_start (c ∷ []) = if between 9 13 c || (c == 32) then 1 else 0
white_start (c ∷ d ∷ []) =
    if between 9 13 c || (c == 32)
    then 1
    else if (c == 194) && ((d == 133) || (d == 160))
    then 2
    else 0
white_start (c ∷ d ∷ e ∷ s) =
    if between 9 13 c || (c == 32)
    then 1
    else if (c == 194) && ((d == 133) || (d == 160))
    then 2
    else if (c == 225) && ((d == 154) && (e == 128))
    then 3
    else if (c == 226) && ((d == 128) && (between 128 138 e || (between 168 169 e || (e == 175))))
    then 3
    else if (c == 226) && ((d == 129) && (e == 159))
    then 3
    else if (c == 227) && ((d == 128) && (e == 128))
    then 3
    else 0

-- the same of the end, for the text read backwards
unfoldable pub white_end : Str → ℕ
white_end [] = 0
white_end (c ∷ []) = if between 9 13 c || (c == 32) then 1 else 0
white_end (c ∷ d ∷ []) =
    if between 9 13 c || (c == 32)
    then 1
    else if (d == 194) && ((c == 133) || (c == 160))
    then 2
    else 0
white_end (c ∷ d ∷ e ∷ s) =
    if between 9 13 c || (c == 32)
    then 1
    else if (d == 194) && ((c == 133) || (c == 160))
    then 2
    else if (e == 225) && ((d == 154) && (c == 128))
    then 3
    else if (e == 226) && ((d == 128) && (between 128 138 c || (between 168 169 c || (c == 175))))
    then 3
    else if (e == 226) && ((d == 129) && (c == 159))
    then 3
    else if (e == 227) && ((d == 128) && (c == 128))
    then 3
    else 0

-- removes white space in front, at most as many characters as the fuel
strip_white : (Str → ℕ) → ℕ → Str → Str
strip_white white zero s = s
strip_white white (suc n) s =
    let rest = strip_white white n (drop (white s) s) in if white s == 0 then s else rest

unfoldable pub trim : Str → Str
unfolding strip_white
trim s =
    let back = reverse (strip_white white_start (length s) s) in
    reverse (strip_white white_end (length back) back)

-- a byte that is no white space and no part of one
abbrev pub Visible : ℕ → Type 0
Visible c = (32 < c) × (c < 128)

strip_white-stays : (white : Str → ℕ) (n : ℕ) (s : Str) → white s ≡ 0 → strip_white white n s ≡ s
unfolding strip_white
strip_white-stays white zero s h = refl
strip_white-stays white (suc n) s h = ground arith

white_start-Visible : (c : ℕ) (s : Str) → Visible c → white_start (c ∷ s) ≡ 0
unfolding white_start
white_start-Visible c [] h = ground arith
white_start-Visible c (d ∷ []) h = ground arith
white_start-Visible c (d ∷ e ∷ s) h = ground arith

white_end-Visible : (c : ℕ) (s : Str) → Visible c → white_end (c ∷ s) ≡ 0
unfolding white_end
white_end-Visible c [] h = ground arith
white_end-Visible c (d ∷ []) h = ground arith
white_end-Visible c (d ∷ e ∷ s) h = ground arith

white_start-All : (s : Str) → All Visible s → white_start s ≡ 0
unfolding white_start
white_start-All [] h = refl
white_start-All (c ∷ s) (hc, h) = white_start-Visible c s hc

white_end-All : (s : Str) → All Visible s → white_end s ≡ 0
unfolding white_end
white_end-All [] h = refl
white_end-All (c ∷ s) (hc, h) = white_end-Visible c s hc

pub All-reverse {ℓ ℓ'} : {A : Type ℓ} (P : A → Type ℓ') (s : List A) → All P s → All P (reverse s)
All-reverse P [] h = tt
All-reverse P (c ∷ s) (hc, h) =
    subst (All P) (sym (reverse-cons c s))
      (All-append P (reverse s) (c ∷ []) (All-reverse P s h) (hc, tt))

-- A text without white space is not trimmed.
pub trim-Visible : (s : Str) → All Visible s → trim s ≡ s
unfolding trim
trim-Visible s h = rw (strip_white-stays white_start (length s) s (white_start-All s h)) (
    rw
      (strip_white-stays white_end (length (reverse s)) (reverse s)
        (white_end-All (reverse s) (All-reverse Visible s h)))
      (reverse-reverse s))
