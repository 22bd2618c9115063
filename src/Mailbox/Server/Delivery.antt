-- ===== src/Mailbox/Server/Delivery.antt =====
-- The desktop's requests at the server: the owner of a mailbox gets its messages, and removes them.
use seqr.Prelude.{
  ℕ, ◌+◌, ◌*◌, ◌/◌, ◌^◌, ◌≤◌, ◌<◌, ◌≡◌, refl, sym, ap, ◌∙◌, Bytes, Str, true, ◌&&◌, ◌||◌, List, [],
  ◌∷◌, some, length, take, All, all, leb, arith, is_ascii_digit, retain,
}
use seqr.Prelude.Result.{ok}
use seqr.Core.MailboxClient.{pull_request, ack_request}
use seqr.Crypto.Keys.{public, Identity}
use seqr.Crypto.Primitives.{Primitives, HexLaws, SchemeLaws, IsBytes, IsLowerHex}
use seqr.Crypto.Sign.{sign, verify_raw-sign}
use seqr.Mailbox.Store
use seqr.Mailbox.Store.{is_hex}
use seqr.Mailbox.Store.Ack.{ack_lem, unlisted}
use seqr.Mailbox.Store.Queue.{queue_of, pull_lem}
use seqr.Mailbox.Store.Stamped.{IsStamped}
use seqr.Mailbox.Server.{
  AppState, now_secs, verify_identity, verify_decoded, authorized, pull, ack, dlog,
}
use seqr.Mailbox.Server.Access.{fresh_iff}
use seqr.Protocol.Requests.{AckRequest, pull_signing_bytes, ack_signing_bytes}

all-IsLowerHex :
    (s : Str)
    → All IsLowerHex s
    → all (λ b. is_ascii_digit b || (leb b'a' b && leb b b'f')) s ≡ true
all-IsLowerHex [] h = refl
all-IsLowerHex (c ∷ s) (hc, h) = ground (arith, all-IsLowerHex s h)

-- the client's clock, in whole seconds, is within the server's skew on both sides
pub record InStep (now ts skew : ℕ) : Type 0 where
  pub small : now_secs now + skew < 2 ^ 64
  pub not_ahead : ts / 1000 ≤ now_secs now + skew
  pub not_behind : now_secs now ≤ ts / 1000 + skew

module _ ⦃p : Primitives⦄ (hex : HexLaws p) (scheme : SchemeLaws p) where
  is_hex-encode :
      (b : Bytes) (n : ℕ) → IsBytes b → length b ≡ n → is_hex (p.hex_encode b) (2 * n) ≡ true
  unfolding is_hex
  is_hex-encode b n h l =
      ground (arith, hex.length-encode b, all-IsLowerHex (p.hex_encode b) (hex.encode-lower b h), l)

  verify_identity-sign :
      (me : Identity) (msg : Bytes)
      → verify_identity
          (p.hex_encode (p.ed25519_public me.signing_key))
          msg
          (p.hex_encode (sign me.signing_key msg))
        ≡ true
  unfolding verify_identity verify_decoded sign
  verify_identity-sign me msg =
      let key = p.ed25519_public me.signing_key in
      let sig = p.ed25519_sign me.signing_key msg in
      let kb = scheme.ed25519_public-IsBytes me.signing_key in
      let kl = scheme.length-ed25519_public me.signing_key in
      let sb = scheme.sign-IsBytes me.signing_key msg in
      let sl = scheme.length-sign me.signing_key msg in
      rw (is_hex-encode key 32 kb kl) (
        rw (is_hex-encode sig 64 sb sl) (
          rw (hex.decode-encode key kb) (
            rw (hex.decode-encode sig sb)
              (rw kl (rw sl (rw (verify_raw-sign scheme me.signing_key msg) refl))))))

  pub authorized-sign :
      (now : ℕ) (st : AppState) (me : Identity) (ts : ℕ) (msg : Bytes)
      → InStep now ts st.config.clock_skew_secs
      → authorized now st
          (p.hex_encode (p.ed25519_public me.signing_key))
          ts
          msg
          (p.hex_encode (sign me.signing_key msg))
        ≡ true
  unfolding authorized
  authorized-sign now st me ts msg step =
      rw
        ((fresh_iff now ts st.config.clock_skew_secs step.small).1
          (step.not_ahead, step.not_behind))
        (verify_identity-sign me msg)

  -- The desktop's pull, at a clock in step with the server's, on a store whose files can be read, is answered with
  -- the front of its own queue.
  pub pull-pull_request :
      (now : ℕ) (st : AppState) (me : Identity) (ts : ℕ)
      → InStep now ts st.config.clock_skew_secs
      → st.store.unreadable ≡ []
      → (pull now st (pull_request ts me)).1
        ≡ ok (record {
          messages =
              take st.config.pull_limit
                (queue_of st.store (p.hex_encode (p.ed25519_public me.signing_key)));
        })
  unfolding pull pull_request public
  pull-pull_request now st me ts step readable =
      let id = p.hex_encode (p.ed25519_public me.signing_key) in
      rw (authorized-sign now st me ts (pull_signing_bytes id ts) step)
        (rw (pull_lem st.store id st.config.pull_limit readable) refl)

  -- the request as it is sent
  signed_ack : ℕ → Identity → List Str → AckRequest
  signed_ack ts me ids =
      let id = p.hex_encode (p.ed25519_public me.signing_key) in
      record {
        identity = id;
        ts = ts;
        signature = p.hex_encode (sign me.signing_key (ack_signing_bytes id ts ids));
        ids = ids;
      }

  ack-signed_ack :
      (now : ℕ) (st : AppState) (me : Identity) (ts : ℕ) (ids : List Str)
      → InStep now ts st.config.clock_skew_secs
      → (ack now st (signed_ack ts me ids)).0.store
        ≡ Store.ack st.store (p.hex_encode (p.ed25519_public me.signing_key)) ids
  unfolding ack dlog signed_ack
  ack-signed_ack now st me ts ids step =
      let id = p.hex_encode (p.ed25519_public me.signing_key) in
      rw (authorized-sign now st me ts (ack_signing_bytes id ts ids) step) refl

  -- The desktop's acknowledgement, at a clock in step with the server's, on a store that takes
  -- writes and whose files were named by pushes, removes from its own queue the messages with the
  -- ids that it lists, and no other.
  pub ack-ack_request :
      (now since : ℕ) (st : AppState) (me : Identity) (ts : ℕ) (ids : List Str) (req : AckRequest)
      → InStep now ts st.config.clock_skew_secs
      → IsStamped since st.store
      → st.store.writable ≡ true
      → ack_request ts me ids ≡ some req
      → let id = p.hex_encode (p.ed25519_public me.signing_key) in
        queue_of (ack now st req).0.store id ≡ retain (unlisted ids) (queue_of st.store id)
  unfolding ack_request signed_ack public
  ack-ack_request now since st me ts [] req step stamped w h = ground (arith, h)
  ack-ack_request now since st me ts (i ∷ ids) req step stamped w h =
      let id = p.hex_encode (p.ed25519_public me.signing_key) in
      let same : signed_ack ts me (i ∷ ids) ≡ req = ground (arith, h) in
      ap (λ r. queue_of (ack now st r).0.store id) (sym same)
      ∙ ap (λ t. queue_of t id) (ack-signed_ack now st me ts (i ∷ ids) step)
      ∙ ack_lem since st.store id (i ∷ ids) stamped w
