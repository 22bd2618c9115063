-- ===== src/Core/Identity/Token.antt =====
-- What one party exports, another imports: the token of a profile, and the roster entry in it.
use seqr.Prelude.{
  ◌∷◌, Bytes, Str, ◌≡◌, sym, ap, true, arith, length, All, All-append, ◌++◌, strip_prefix, [], ◌∷◌,
  subst,
}
use seqr.Prelude.Result.{ok, ◌>>=◌, >>=-eq-ok}
use seqr.Prelude.Unicode.{trim, trim-Visible, Visible}
use seqr.Core.Identity.{
  profile_for, self_as_friend, friend_from, encode_token, decode_token, token_prefix, decodes_to_32,
}
use seqr.Core.Serde.{Serde, ReadsProfile}
use seqr.Core.Vault.{VaultData, identity}
use seqr.Crypto.Keys.{public}
use seqr.Crypto.Primitives.{Primitives, HexLaws, SchemeLaws, IsBytes, IsLowerHex}
use seqr.Protocol.{ProfileBlob, version}

module _ ⦃p : Primitives⦄ ⦃s : Serde⦄ (hex : HexLaws p) (scheme : SchemeLaws p) where
  IsLowerHex-Visible : (t : Str) → All IsLowerHex t → All Visible t
  IsLowerHex-Visible [] h = tt
  IsLowerHex-Visible (c ∷ t) (hc, h) = (ground arith, IsLowerHex-Visible t h)

  trim-token :
      (b : Bytes)
      → IsBytes b
      → trim (token_prefix ++ p.hex_encode b) ≡ token_prefix ++ p.hex_encode b
  trim-token b h = trim-Visible (token_prefix ++ p.hex_encode b) (
      All-append Visible token_prefix (p.hex_encode b) (omega arith)
        (IsLowerHex-Visible (p.hex_encode b) (hex.encode-lower b h)))

  -- A token is decoded to the profile that it was made of, if that is of the current version and has
  -- two keys of 32 bytes.
  pub decode_token-encode_token :
      (profile : ProfileBlob)
      → ReadsProfile s profile
      → profile.v ≡ version
      → decodes_to_32 profile.agreement_public ≡ true
      → decodes_to_32 profile.signing_public ≡ true
      → (encode_token profile >>= decode_token) ≡ ok profile
  unfolding encode_token decode_token strip_prefix
  decode_token-encode_token profile (reads, bytes) v a g =
      rw (trim-token (s.profile_to_json profile) bytes) (
        rw (hex.decode-encode (s.profile_to_json profile) bytes)
          (rw reads (ground (arith, v, a, g))))

  decodes_to_32-encode :
      (b : Bytes) → IsBytes b → length b ≡ 32 → decodes_to_32 (p.hex_encode b) ≡ true
  decodes_to_32-encode b h l = rw (decodes_to_32, hex.decode-encode b h) (ground (arith, l))

  -- The profile that an account exports is imported from its token, as the roster entry that the
  -- account has of itself.
  pub decode_token-profile_for :
      (d : VaultData) (profile : ProfileBlob)
      → profile_for d ≡ ok profile
      → ReadsProfile s profile
      → ((encode_token profile >>= decode_token) ≡ ok profile)
        × (self_as_friend d ≡ ok (friend_from profile))
  unfolding profile_for self_as_friend friend_from public
  decode_token-profile_for d profile h reads =
      let (me, found, rest) = >>=-eq-ok (identity d) _ h in
      let made : ProfileBlob = record {
        v = version;
        display_name = d.display_name;
        agreement_public = p.hex_encode (public me).agreement_public;
        signing_public = p.hex_encode (public me).signing_public;
        node_addr = d.node_addr;
      } in
      let same : made ≡ profile = ground (arith, rest) in
      let agreement =
        decodes_to_32-encode (p.x25519_public me.agreement_secret)
          (scheme.x25519_public-IsBytes me.agreement_secret)
          (scheme.length-x25519_public me.agreement_secret) in
      let signing =
        decodes_to_32-encode (p.ed25519_public me.signing_key)
          (scheme.ed25519_public-IsBytes me.signing_key)
          (scheme.length-ed25519_public me.signing_key) in
      (
        decode_token-encode_token profile reads (ap (λ r. r.v) (sym same))
            (subst (λ (r : ProfileBlob). decodes_to_32 r.agreement_public ≡ true) same agreement)
            (subst (λ (r : ProfileBlob). decodes_to_32 r.signing_public ≡ true) same signing),
        rw found (ap (λ r. ok (friend_from r)) same),
      )
