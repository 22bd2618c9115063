-- ===== src/Crypto/Fingerprint.antt =====
-- crates/seqr-crypto/src/fingerprint.rs.
use seqr.Prelude.{
  str_leb_antisymm, str_leb-total, IsDigit, arith, All, ◌≡◌, length, ℕ, ◌*◌, ◌%◌, Bytes, Str, text,
  take, drop, ◌++◌, [], ◌∷◌, if◌then◌else◌, str_leb, join, padded, length-padded,
  padded-All-IsDigit,
}
use seqr.Prelude.BigEndian.{from_be_bytes}
use seqr.Crypto.Primitives.{Primitives}

abbrev pub domain : Bytes
domain = text "seqr-safety-v1"

-- the `i`-th of the six groups
unfoldable pub group : Bytes → ℕ → Str
group digest i = padded 5 (from_be_bytes (take 4 (drop (i * 4) digest)) % 100000)

module _ ⦃p : Primitives⦄ where
  open p use {sha256}

  abbrev pub lo_hi : Bytes → Bytes → Bytes × Bytes
  lo_hi a b = if str_leb a b then (a, b) else (b, a)

  unfoldable pub safety_number : Bytes → Bytes → Str
  safety_number a b =
      let (lo, hi) = lo_hi a b in
      let digest = sha256 (domain ++ (lo ++ hi)) in
      join (text " ") (
        group digest 0
        ∷ group digest 1
        ∷ group digest 2
        ∷ group digest 3
        ∷ group digest 4
        ∷ group digest 5
        ∷ [])

  lo_hi_comm : (a b : Bytes) → lo_hi a b ≡ lo_hi b a
  lo_hi_comm a b = ground (arith, str_leb-total a b, str_leb_antisymm a b, str_leb-total b a)

  -- Both friends compute the same number, whoever's key comes first.
  pub safety_number_comm : (a b : Bytes) → safety_number a b ≡ safety_number b a
  unfolding safety_number
  safety_number_comm a b = rw (lo_hi_comm a b)

  -- Each group has five decimal digits.
  pub group-format :
      (digest : Bytes) (i : ℕ) → (length (group digest i) ≡ 5) × All IsDigit (group digest i)
  unfolding group
  group-format digest i = (length-padded 4 _ (omega arith), padded-All-IsDigit 5 _)
