-- ===== src/Mailbox/Store/Names.antt =====
-- The file names that `push` writes: their ids are valid, they are ordered by clock and counter, and
-- trimming gives the id back.
use mathlib.Core.List.{append_assoc, reverse, reverse-append, reverse-reverse}
use seqr.Prelude.{
  leb, ◌&&◌, ◌||◌, length-append, append_assoc, subst, sym, ℕ, zero, suc, ◌+◌, ◌^◌, ◌≤◌, ◌<◌, Str,
  text, length, ◌++◌, ◌≡◌, refl, ap, true, false, List, [], ◌∷◌, none, some, all, All, arith,
  padded, IsDigit, length-padded, padded-All-IsDigit, is_ascii_digit, split-append, split_whole,
  Lacks, strip_prefix, str_eq, str_eq-eq, Bool-cases, inl, inr, ◌≢◌, ◌∙◌, value_from,
  value_from-padded, str_leb,
}
use native.Mathlib.Decide.{dec_lt}
use seqr.Prelude.DigitOrder.{padded-le, str_leb-append_same}
use seqr.Crypto.Primitives.{IsLowerHex}
use seqr.Mailbox.Store.{
  split, is_hex, valid_id, strip_suffix, trim_end_matches, trim_end_fuel, msg_suffix,
}

abbrev pub dash : Str
dash = text "-"

-- `format!("{:013}-{:010}-{}", t, s, suffix)`
abbrev pub id_of : ℕ → ℕ → Str → Str
id_of t s suffix = padded 13 t ++ (dash ++ (padded 10 s ++ (dash ++ suffix)))

abbrev pub name_of : ℕ → ℕ → Str → Str
name_of t s suffix = id_of t s suffix ++ msg_suffix

-- the clock, counter and suffix fit their widths
pub record Fits (t s : ℕ) (suffix : Str) : Type 0 where
  pub clock : t < 10 ^ 13
  pub counter : s < 10 ^ 10
  pub sixteen : length suffix ≡ 16
  pub lower : All IsLowerHex suffix

all-is_ascii_digit : (s : Str) → All IsDigit s → all is_ascii_digit s ≡ true
all-is_ascii_digit [] h = refl
all-is_ascii_digit (c ∷ s) (hc, h) = ground (arith, all-is_ascii_digit s h)

lower_Lacks : (b : ℕ) → b < b'0' → (s : Str) → All IsLowerHex s → Lacks b s
lower_Lacks b lt [] h = tt
lower_Lacks b lt (c ∷ s) (hc, h) = (ground arith, lower_Lacks b lt s h)

digits_Lacks : (b : ℕ) → b < b'0' → (s : Str) → All IsDigit s → Lacks b s
digits_Lacks b lt [] h = tt
digits_Lacks b lt (c ∷ s) (hc, h) = (ground arith, digits_Lacks b lt s h)

all_of_lower :
    (s : Str)
    → All IsLowerHex s
    → all (λ b. is_ascii_digit b || (leb b'a' b && leb b b'f')) s ≡ true
all_of_lower [] h = refl
all_of_lower (c ∷ s) (hc, h) = ground (arith, all_of_lower s h)

is_hex_of_lower : (s : Str) (n : ℕ) → length s ≡ n → All IsLowerHex s → is_hex s n ≡ true
unfolding is_hex
is_hex_of_lower s n e h = ground (arith, all_of_lower s h)

-- The id has the three parts that were put together.
split-id :
    (t s : ℕ) (suffix : Str)
    → Lacks b'-' suffix
    → split b'-' (id_of t s suffix) ≡ padded 13 t ∷ padded 10 s ∷ suffix ∷ []
split-id t s suffix h =
    rw
      (split-append b'-' (padded 13 t) (padded 10 s ++ (dash ++ suffix))
        (digits_Lacks b'-' (omega arith) _ (padded-All-IsDigit 13 t)))
      (rw
        (split-append b'-' (padded 10 s) suffix
          (digits_Lacks b'-' (omega arith) _ (padded-All-IsDigit 10 s)))
        (rw (split_whole b'-' suffix h)))

pub id_of-valid_id : (t s : ℕ) (suffix : Str) → Fits t s suffix → valid_id (id_of t s suffix) ≡ true
unfolding valid_id
id_of-valid_id t s suffix f =
    rw (split-id t s suffix (lower_Lacks b'-' (omega arith) suffix f.lower)) (
      ground (
        arith,
        length-padded 12 t f.clock,
        length-padded 9 s f.counter,
        all-is_ascii_digit _ (padded-All-IsDigit 13 t),
        all-is_ascii_digit _ (padded-All-IsDigit 10 s),
        is_hex_of_lower suffix 16 f.sixteen f.lower,
      ))

strip_prefix-append : (s t : Str) → strip_prefix s (s ++ t) ≡ some t
unfolding strip_prefix
strip_prefix-append [] t = refl
strip_prefix-append (c ∷ s) t = ground (arith, strip_prefix-append s t)

pub strip_suffix-append : (s suffix : Str) → strip_suffix suffix (s ++ suffix) ≡ some s
unfolding strip_suffix
strip_suffix-append s suffix =
    rw (reverse-append s suffix, strip_suffix)
      (rw (strip_prefix-append (reverse suffix) (reverse s), strip_suffix)
        (ap some (reverse-reverse s)))

-- A text that ends in a lowercase hex digit does not end in `.msg`.
strip_suffix-hex : (s : Str) (c : ℕ) → IsLowerHex c → strip_suffix msg_suffix (s ++ c ∷ []) ≡ none
unfolding strip_suffix
strip_suffix-hex s c h =
    rw (reverse-append s (c ∷ []), strip_suffix) (unfold strip_prefix in ground arith)

trim_end_fuel_stop :
    (f : ℕ) (suffix s : Str) → strip_suffix suffix s ≡ none → trim_end_fuel f suffix s ≡ s
unfolding trim_end_fuel
trim_end_fuel_stop zero suffix s h = refl
trim_end_fuel_stop (suc f) suffix s h = rw (h, trim_end_fuel)

last_hex :
    (s : Str)
    → All IsLowerHex s
    → 0 < length s
    → (front : Str) × (c : ℕ) × (s ≡ front ++ c ∷ []) × IsLowerHex c
last_hex (c ∷ []) (hc, _) lt = ([], c, refl, hc)
last_hex (c ∷ d ∷ s) (hc, h) lt =
    let (front, e, same, he) = last_hex (d ∷ s) h (omega arith) in
    (c ∷ front, e, ap (◌∷◌ c) same, he)
last_hex [] h lt = absurd (omega arith)

id-split_last :
    (t s : ℕ) (suffix : Str)
    → Fits t s suffix
    → (front : Str) × (c : ℕ) × (id_of t s suffix ≡ front ++ c ∷ []) × IsLowerHex c
id-split_last t s suffix f =
    let (front, c, same, hc) = last_hex suffix f.lower (omega (arith, f.sixteen)) in
    (padded 13 t ++ (dash ++ (padded 10 s ++ (dash ++ front))), c, rw same (simp append_assoc), hc)

-- Trimming `.msg` off a file name gives the id back, once and no more.
trim_end_fuel-once :
    (n : ℕ) (s : Str)
    → strip_suffix msg_suffix s ≡ none
    → trim_end_fuel (suc n) msg_suffix (s ++ msg_suffix) ≡ s
unfolding trim_end_fuel
trim_end_fuel-once n s h =
    rw (strip_suffix-append s msg_suffix, trim_end_fuel) (trim_end_fuel_stop n msg_suffix s h)

pub trim-name :
    (t s : ℕ) (suffix : Str)
    → Fits t s suffix
    → trim_end_matches msg_suffix (name_of t s suffix) ≡ id_of t s suffix
unfolding trim_end_matches
trim-name t s suffix f =
    let (front, c, same, hc) = id-split_last t s suffix f in
    let stop : strip_suffix msg_suffix (id_of t s suffix) ≡ none =
      subst (λ x. strip_suffix msg_suffix x ≡ none) (sym same) (strip_suffix-hex front c hc) in
    let size : length (name_of t s suffix) ≡ suc (length (id_of t s suffix) + 3) =
      omega (arith, length-append (id_of t s suffix) msg_suffix) in
    subst (λ n. trim_end_fuel n msg_suffix (name_of t s suffix) ≡ id_of t s suffix) (sym size)
      (trim_end_fuel-once (length (id_of t s suffix) + 3) (id_of t s suffix) stop)

-- the rest of a name behind its clock
abbrev behind_clock : ℕ → Str → Str
behind_clock s u = (dash ++ (padded 10 s ++ (dash ++ u))) ++ msg_suffix

name_of-clock : (t s : ℕ) (u : Str) → name_of t s u ≡ padded 13 t ++ behind_clock s u
name_of-clock t s u = append_assoc (padded 13 t) (dash ++ (padded 10 s ++ (dash ++ u))) msg_suffix

behind_clock-counter :
    (s : ℕ) (u : Str) → behind_clock s u ≡ dash ++ (padded 10 s ++ ((dash ++ u) ++ msg_suffix))
behind_clock-counter s u = ap (◌++◌ dash) (append_assoc (padded 10 s) (dash ++ u) msg_suffix)

behind_clock-le :
    (s s' : ℕ) (u u' : Str)
    → s' < 10 ^ 10
    → s < s'
    → str_leb (behind_clock s u) (behind_clock s' u') ≡ true
behind_clock-le s s' u u' h lt = rw (behind_clock-counter s u) (
    rw (behind_clock-counter s' u') (
      rw (str_leb-append_same dash) (
        padded-le 9 s s' ((dash ++ u) ++ msg_suffix) ((dash ++ u') ++ msg_suffix) (omega arith) h
          lt)))

-- A later push has the larger name: the clock has not gone back, and the counter has grown.
pub name_of-le :
    (t t' s s' : ℕ) (u u' : Str)
    → t' < 10 ^ 13
    → s' < 10 ^ 10
    → t ≤ t'
    → s < s'
    → str_leb (name_of t s u) (name_of t' s' u') ≡ true
name_of-le t t' s s' u u' ft fs le lt = rw (name_of-clock t s u) (
    rw (name_of-clock t' s' u') (elim (dec_lt t t') [
      | yes later ↦ padded-le 12 t t' (behind_clock s u) (behind_clock s' u') (omega arith) ft later
      | no now ↦
          let same : t ≡ t' = omega arith in
          rw (ap (padded 13) same)
            (rw (str_leb-append_same (padded 13 t')) (behind_clock-le s s' u u' fs lt))
    ]))

head_second : Str → List Str → Str
head_second d (_ ∷ x ∷ _) = x
head_second d _ = d

counter_of_split :
    (t t' s s' : ℕ) (u u' : Str)
    → Fits t s u
    → Fits t' s' u'
    → id_of t s u ≡ id_of t' s' u'
    → s ≡ s'
unfolding head_second
counter_of_split t t' s s' u u' f f' e =
    let parts : (padded 13 t ∷ padded 10 s ∷ u ∷ []) ≡ (padded 13 t' ∷ padded 10 s' ∷ u' ∷ []) =
      sym (split-id t s u (lower_Lacks b'-' (omega arith) u f.lower))
      ∙ (ap (split b'-') e ∙ split-id t' s' u' (lower_Lacks b'-' (omega arith) u' f'.lower)) in
    let second : padded 10 s ≡ padded 10 s' = ap (head_second []) parts in
    sym (value_from-padded 10 s) ∙ (ap (value_from 0) second ∙ value_from-padded 10 s')

-- Ids, and names, with different counters differ.
pub id_of-ne :
    (t t' s s' : ℕ) (u u' : Str)
    → Fits t s u
    → Fits t' s' u'
    → s < s'
    → id_of t s u ≢ id_of t' s' u'
id_of-ne t t' s s' u u' f f' lt e = absurd (omega (arith, counter_of_split t t' s s' u u' f f' e))

pub name_of-ne :
    (t t' s s' : ℕ) (u u' : Str)
    → Fits t s u
    → Fits t' s' u'
    → s < s'
    → str_eq (name_of t s u) (name_of t' s' u') ≡ false
name_of-ne t t' s s' u u' f f' lt = elim (Bool-cases (str_eq (name_of t s u) (name_of t' s' u'))) [
  | inl same ↦
      let names = ap (trim_end_matches msg_suffix) (str_eq-eq _ _ same) in
      absurd (
        id_of-ne t t' s s' u u' f f' lt (sym (trim-name t s u f) ∙ (names ∙ trim-name t' s' u' f')))
  | inr other ↦ other
]
