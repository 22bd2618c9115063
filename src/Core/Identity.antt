-- ===== src/Core/Identity.antt =====
-- core/identity.rs: a profile as a token to share, and back.
pub mod Token
use seqr.Prelude.{
  ℕ, Bytes, Str, text, ◌++◌, ◌&&◌, ◌==◌, Bool, true, false, Option, none, some, not, strip_prefix,
  length,
}
use seqr.Prelude.Result.{Result, ok, err, ok_or, map_err, ensure, ◌>>=◌, ◌>>◌}
use seqr.Prelude.Decimal.{decimal}
use seqr.Prelude.Unicode.{trim}
use seqr.Core.Error.{CoreError, CoreResult, bad_profile}
use seqr.Core.Packet.{FriendRequest, friend_req_signing_bytes}
use seqr.Core.Serde.{Serde}
use seqr.Core.Vault.{Friend, VaultData, identity}
use seqr.Crypto.Keys.{Identity, public}
use seqr.Crypto.Primitives.{Primitives}
use seqr.Crypto.Sign.{sign}
use seqr.Protocol.{ProfileBlob, version}

abbrev pub token_prefix : Str
token_prefix = text "seqr:"

unfoldable pub friend_from : ProfileBlob → Friend
friend_from profile = record {
  display_name = profile.display_name;
  agreement_public = profile.agreement_public;
  signing_public = profile.signing_public;
  node_addr = profile.node_addr;
}

module _ ⦃p : Primitives⦄ where
  unfoldable pub profile_for : VaultData → CoreResult ProfileBlob
  unfolding public
  profile_for data' = do
    me ← identity data'
    ok (record {
      v = version;
      display_name = data'.display_name;
      agreement_public = p.hex_encode (public me).agreement_public;
      signing_public = p.hex_encode (public me).signing_public;
      node_addr = data'.node_addr;
    })

  unfoldable pub self_as_friend : VaultData → CoreResult Friend
  unfolding public
  self_as_friend data' = do
    me ← identity data'
    ok (record {
      display_name = data'.display_name;
      agreement_public = p.hex_encode (public me).agreement_public;
      signing_public = p.hex_encode (public me).signing_public;
      node_addr = data'.node_addr;
    })

  unfoldable pub signed_friend_request : VaultData → CoreResult FriendRequest
  unfolding profile_for
  signed_friend_request data' = do
    me ← identity data'
    profile ← profile_for data'
    let bytes = friend_req_signing_bytes profile
    ok (record { profile = profile; signature = p.hex_encode (sign me.signing_key bytes) })

  -- `hex::decode(s).map(|b| b.len()) == Ok(32)`
  abbrev pub decodes_to_32 : Str → Bool
  decodes_to_32 s = elim (p.hex_decode s) [ none ↦ false | some b ↦ length b == 32 ]

  module _ ⦃s : Serde⦄ where
    -- serde_json writes every profile: only hex text is added
    unfoldable pub encode_token : ProfileBlob → CoreResult Str
    encode_token profile = ok (token_prefix ++ p.hex_encode (s.profile_to_json profile))

    unfoldable pub decode_token : Str → CoreResult ProfileBlob
    decode_token token = do
      hex_part ←
          ok_or (strip_prefix token_prefix (trim token)) (bad_profile (text "missing seqr: prefix"))
      bytes ← ok_or (p.hex_decode hex_part) (bad_profile (text "not valid hex"))
      profile ← map_err bad_profile (s.profile_from_json bytes)
      ensure (profile.v == version) (bad_profile (text "unsupported version " ++ decimal profile.v))
      ensure (decodes_to_32 profile.agreement_public && decodes_to_32 profile.signing_public)
          (bad_profile (text "public keys must be 32 bytes"))
      ok profile
