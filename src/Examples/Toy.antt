-- ===== src/Examples/Toy.antt =====
-- Concrete functions for the parameters: hex as it is, schemes that sum bytes, and texts for the JSON.
-- They keep the laws and no secret.
use seqr.Prelude.{
  Option-cases, subst, ℕ, ◌+◌, ◌-◌, ◌*◌, ◌/◌, ◌%◌, ◌<◌, ◌≡◌, refl, ap, Bytes, Str, ◌&&◌, [], ◌∷◌,
  ◌++◌, Option, none, some, inl, inr, length, take, drop, replicate, All, All-replicate, leb, ltb,
  ◌==◌, if◌then◌else◌, arith, text, take-length-append, drop-length-append,
}
use seqr.Prelude.Result.{Result, ok, err}
use seqr.Core.Serde.{Serde, VaultFile, ReadsFile}
use seqr.Core.Vault.{VaultData, default_settings}
use seqr.Crypto.Primitives.{Primitives, HexLaws, SchemeLaws, IsBytes, IsLowerHex, IsHexDigit}
use seqr.Protocol.{ProfileBlob}

abbrev hex_digit : ℕ → ℕ
hex_digit n = if ltb n 10 then 48 + n else 87 + n

abbrev unhex : ℕ → Option ℕ
unhex c =
    if leb 48 c && leb c 57
    then some (c - 48)
    else if leb 97 c && leb c 102
    then some (c - 87)
    else if leb 65 c && leb c 70
    then some (c - 55)
    else none

abbrev hex_encode : Bytes → Str
hex_encode [] = []
hex_encode (b ∷ bs) = hex_digit (b / 16) ∷ hex_digit (b % 16) ∷ hex_encode bs

abbrev joined : Option ℕ → Option ℕ → Option Bytes → Option Bytes
joined (some x) (some y) (some r) = some ((x * 16 + y) ∷ r)
joined none y r = none
joined (some x) none r = none
joined (some x) (some y) none = none

abbrev hex_decode : Str → Option Bytes
hex_decode [] = some []
hex_decode (c ∷ []) = none
hex_decode (c ∷ d ∷ s) = joined (unhex c) (unhex d) (hex_decode s)

abbrev sum : Bytes → ℕ
sum [] = 0
sum (b ∷ bs) = b + sum bs

abbrev first : Bytes → ℕ
first [] = 0
first (b ∷ bs) = b

abbrev second : Bytes → ℕ
second [] = 0
second (b ∷ bs) = first bs

abbrev tag : Bytes → Bytes → Bytes → Bytes → ℕ
tag k n m a = (sum k + sum n + sum m + sum a) % 256

abbrev decrypt : Bytes → Bytes → Bytes → Bytes → Option Bytes
decrypt k n [] a = none
decrypt k n (t ∷ m) a = if t == tag k n m a then some m else none

abbrev pub toy : Primitives
toy = record {
  hex_encode = hex_encode;
  hex_decode = hex_decode;
  x25519_public = λ sk. sum sk % 256 ∷ replicate 31 0;
  diffie_hellman = λ a b. (sum a + first b) % 256 ∷ replicate 31 0;
  hkdf_sha256_32 = λ ikm info. (sum ikm + sum info) % 256 ∷ replicate 31 2;
  sha256 = λ m. replicate 32 (sum m % 256);
  ed25519_public = λ sk. sum sk % 256 ∷ replicate 31 1;
  ed25519_sign = λ sk m. sum sk % 256 ∷ sum m % 256 ∷ replicate 62 0;
  ed25519_valid_key = λ k. length k == 32;
  ed25519_verify = λ k m s. (first s == first k) && (second s == sum m % 256);
  chacha_encrypt = λ k n m a. tag k n m a ∷ m;
  chacha_decrypt = decrypt;
  argon2id = λ pw salt. some ((sum pw + sum salt) % 256 ∷ replicate 31 3);
}

unhex-hex_digit : (n : ℕ) → n < 16 → unhex (hex_digit n) ≡ some n
unhex-hex_digit n h = ground arith

hex_decode-encode : (b : Bytes) → IsBytes b → hex_decode (hex_encode b) ≡ some b
hex_decode-encode [] h = refl
hex_decode-encode (b ∷ bs) (hb, h) = rw (unhex-hex_digit (b / 16) (omega arith)) (
    rw (unhex-hex_digit (b % 16) (omega arith))
      (rw (hex_decode-encode bs h) (ap (λ n. some (n ∷ bs)) (omega arith))))

hex_encode-lower : (b : Bytes) → IsBytes b → All IsLowerHex (hex_encode b)
hex_encode-lower [] h = tt
hex_encode-lower (b ∷ bs) (hb, h) = (ground arith, (ground arith, hex_encode-lower bs h))

length-hex_encode : (b : Bytes) → length (hex_encode b) ≡ 2 * length b
length-hex_encode [] = refl
length-hex_encode (b ∷ bs) = ground (arith, length-hex_encode bs)

unhex-digit : (c x : ℕ) → unhex c ≡ some x → IsHexDigit c × (x < 16)
unhex-digit c x h = ground (arith, h)

some-injective : (x y : Bytes) → some x ≡ some y → x ≡ y
some-injective x y h = ground (arith, h)

hex_decode-digits : (s : Str) (b : Bytes) → hex_decode s ≡ some b → All IsHexDigit s × IsBytes b
hex_decode-digits [] b h = (tt, subst IsBytes (some-injective [] b h) tt)
hex_decode-digits (c ∷ []) b h = ground (arith, h)
hex_decode-digits (c ∷ d ∷ s) b h = elim (Option-cases (unhex c)) [
  | inl bad ↦ absurd (ground (arith, bad, h))
  | inr (x, hc) ↦ elim (Option-cases (unhex d)) [
    | inl bad ↦ absurd (ground (arith, bad, hc, h))
    | inr (y, hd) ↦ elim (Option-cases (hex_decode s)) [
      | inl bad ↦ absurd (ground (arith, bad, hc, hd, h))
      | inr (r, hr) ↦
          let (digits, bytes) = hex_decode-digits s r hr in
          let (dc, lx) = unhex-digit c x hc in
          let (dd, ly) = unhex-digit d y hd in
          let whole : (x * 16 + y) ∷ r ≡ b =
            some-injective ((x * 16 + y) ∷ r) b (ground (arith, hc, hd, hr, h)) in
          ((dc, (dd, digits)), subst IsBytes whole (omega arith, bytes))
    ]
  ]
]

pub toy_hex : HexLaws toy
toy_hex = record {
  decode-encode = hex_decode-encode;
  encode-lower = hex_encode-lower;
  length-encode = length-hex_encode;
  decode-digits = λ s b h. (hex_decode-digits s b h).0;
  decode-IsBytes = λ s b h. (hex_decode-digits s b h).1;
}

pub toy_scheme : SchemeLaws toy
toy_scheme = record {
  dh-comm = λ a b. ap (λ n. n ∷ replicate 31 0) (omega arith);
  decrypt-encrypt = λ k n m a. ground arith;
  encrypt-IsBytes = λ k n m a h. (omega arith, h);
  verify-sign = λ sk m. ground arith;
  public-valid = λ sk. refl;
  length-ed25519_public = λ sk. refl;
  ed25519_public-IsBytes = λ sk. (omega arith, All-replicate (λ b. b < 256) 31 1 (omega arith));
  length-x25519_public = λ sk. refl;
  x25519_public-IsBytes = λ sk. (omega arith, All-replicate (λ b. b < 256) 31 0 (omega arith));
  length-sign = λ sk m. refl;
  sign-IsBytes =
      λ sk m. (omega arith, (omega arith, All-replicate (λ b. b < 256) 62 0 (omega arith)));
}

-- a field behind its length
abbrev pub field : Str → Str → Str
field s rest = length s ∷ s ++ rest

abbrev pub parse_field : Str → Str × Str
parse_field [] = ([], [])
parse_field (n ∷ s) = (take n s, drop n s)

abbrev data_to_json : VaultData → Bytes
data_to_json d =
    field d.display_name (field d.agreement_secret (field d.signing_secret (field d.node_addr [])))

abbrev data_from_json : Bytes → Result Str VaultData
data_from_json b =
    let (display_name, b1) = parse_field b in
    let (agreement, b2) = parse_field b1 in
    let (signing, b3) = parse_field b2 in
    ok (record {
      display_name = display_name;
      agreement_secret = agreement;
      signing_secret = signing;
      node_addr = (parse_field b3).0;
      friends = [];
      messages = [];
      groups = [];
      direct_keys = [];
      pending_requests = [];
      settings = default_settings;
    })

abbrev file_to_json : VaultFile → Str
file_to_json f = f.v ∷ field f.salt f.sealed

abbrev file_from_json : Str → Result Str VaultFile
file_from_json [] = err (text "empty")
file_from_json (v ∷ s) =
    let (salt, sealed) = parse_field s in ok (record { v = v; salt = salt; sealed = sealed })

abbrev profile_to_json : ProfileBlob → Bytes
profile_to_json b =
    b.v
    ∷ field b.display_name
        (field b.agreement_public (field b.signing_public (field b.node_addr [])))

abbrev profile_from_json : Bytes → Result Str ProfileBlob
profile_from_json [] = err (text "empty")
profile_from_json (v ∷ b) =
    let (display_name, b1) = parse_field b in
    let (agreement, b2) = parse_field b1 in
    let (signing, b3) = parse_field b2 in
    ok (record {
      v = v;
      display_name = display_name;
      agreement_public = agreement;
      signing_public = signing;
      node_addr = (parse_field b3).0;
    })

abbrev pub toy_serde : Serde
toy_serde = record {
  data_to_json = data_to_json;
  data_from_json = data_from_json;
  file_to_json = file_to_json;
  file_from_json = file_from_json;
  packet_to_json = λ _. [];
  packet_from_json = λ _. err (text "no packets here");
  profile_to_json = profile_to_json;
  profile_from_json = profile_from_json;
}

pub toy_files : (f : VaultFile) → ReadsFile toy_serde f
toy_files f = rw (take-length-append f.salt f.sealed) (rw (drop-length-append f.salt f.sealed) refl)
