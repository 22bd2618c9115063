-- ===== src/Net/Incoming.antt =====
-- A message that comes in: what happens on every branch, once only, and from a friend to the history.
use seqr.Prelude.{
  ℕ, Bytes, Str, Bool, [], ◌∷◌, ◌++◌, any, ◌||◌, true, false, none, some, ◌≡◌, refl, sym, subst,
  ◌∙◌, ◌⊎◌, inl, inr, length, arith, Bool-cases,
}
use seqr.Prelude.Result.{ok, err, ◌>>=◌, Result-cases, >>=-eq-ok}
use seqr.Prelude.Unicode.{is_utf8}
use seqr.Core.Conversation.{pairwise_key, direct_key_for_epoch, direct_epoch}
use seqr.Core.Conversation.Keys.{IsCardOf, pairwise_key-agrees}
use seqr.Core.Error.{CoreError, CoreResult}
use seqr.Core.Message.{build_frame, open_frame}
use seqr.Core.Message.RoundTrip.{open_frame-build_frame}
use seqr.Core.Packet.{FriendRequest}
use seqr.Core.Identity.{friend_from}
use seqr.Core.Serde.{Serde}
use seqr.Core.Vault.{
  signs_as, add_pending, VaultData, Friend, StoredMessage, has_incoming, add_message, group_by_id,
  friend_by_signing, identity,
}
use seqr.Core.Vault.Messages.{has_incoming-add_message}
use seqr.Core.Vault.Roster.{IsRoster, change-IsRoster, request, change}
use seqr.Core.VaultFile.{Disk}
use seqr.Crypto.Aead.{nonce_len}
use seqr.Crypto.Error.{SymmetricKey}
use seqr.Crypto.Keys.{public, Identity}
use seqr.Crypto.Primitives.{Primitives, HexLaws, SchemeLaws, IsBytes}
use seqr.Net.{
  Unlocked, message, nothing, keep, conv_key_for, on_message, on_friend_request, verify_request,
}
use seqr.Protocol.{MessageFrame}

-- what is stored of a frame with an opened body
abbrev pub stored : ℕ → MessageFrame → Str → StoredMessage
stored now frame body = record {
  conversation_id = frame.conversation_id;
  sender = frame.sender;
  body = body;
  ts = now;
  outgoing = false;
  seq = frame.seq;
  attachment = none;
}

-- whether a frame was stored before
abbrev pub known : VaultData → MessageFrame → Bool
known d frame = has_incoming d frame.conversation_id frame.sender frame.seq

add_pending-cases :
    (f : Friend) (d : VaultData)
    → ((add_pending f d).0 ≡ d)
      ⊎ ((add_pending f d).0 ≡ record d { pending_requests = d.pending_requests ++ f ∷ [] })
unfolding add_pending
add_pending-cases f d = elim (Bool-cases (asked f d)) [
  | inl old ↦ inl (rw (add_pending, old) refl)
  | inr new ↦ inr (rw (add_pending, new) refl)
]
  where
    asked : Friend → VaultData → Bool
    asked f d =
        any (signs_as f.signing_public) d.friends
        || any (signs_as f.signing_public) d.pending_requests

module _ ⦃p : Primitives⦄ ⦃s : Serde⦄ where
  on_message-known :
      (now : ℕ) (nonce : Bytes) (frame : MessageFrame) (disk : Disk) (u : Unlocked)
      → known u.data' frame ≡ true
      → on_message now nonce frame disk u ≡ (disk, u, ok nothing)
  unfolding on_message
  on_message-known now nonce frame disk u h = rw h refl

  on_message-opened :
      (now : ℕ) (nonce : Bytes) (frame : MessageFrame) (disk : Disk) (u : Unlocked)
      (key : SymmetricKey) (body : Str)
      → known u.data' frame ≡ false
      → conv_key_for u.data' frame.conversation_id frame.sender frame.epoch ≡ ok key
      → open_frame key frame ≡ ok body
      → on_message now nonce frame disk u
        ≡ keep nonce
            (add_message (stored now frame body) u.data')
            (message (stored now frame body))
            disk
            u
  unfolding on_message
  on_message-opened now nonce frame disk u key body new found opened =
      rw new (rw found (rw opened refl))

  on_message-refused :
      (now : ℕ) (nonce : Bytes) (frame : MessageFrame) (disk : Disk) (u : Unlocked) (e : CoreError)
      → known u.data' frame ≡ false
      → (conv_key_for u.data' frame.conversation_id frame.sender frame.epoch >>= λ key.
          open_frame key frame)
        ≡ err e
      → on_message now nonce frame disk u ≡ (disk, u, err e)
  unfolding on_message
  on_message-refused now nonce frame disk u e new failed = rw new (rw failed refl)

  -- No key opens the frame: its conversation has none for it, or the one that it has does not.
  abbrev pub NotOpened : VaultData → MessageFrame → CoreError → Type 0
  NotOpened d frame e =
      (conv_key_for d frame.conversation_id frame.sender frame.epoch ≡ err e)
      ⊎ ((key : SymmetricKey) × (conv_key_for d frame.conversation_id frame.sender frame.epoch
            ≡ ok key)
          × (open_frame key frame ≡ err e))

  NotOpened-of_err :
      (d : VaultData) (frame : MessageFrame) (e : CoreError)
      → (conv_key_for d frame.conversation_id frame.sender frame.epoch >>= λ key.
          open_frame key frame)
        ≡ err e
      → NotOpened d frame e
  NotOpened-of_err d frame e failed =
      elim (Result-cases (conv_key_for d frame.conversation_id frame.sender frame.epoch)) [
        | inr (e', missing) ↦ inl (ground (arith, missing, failed))
        | inl (key, found) ↦ inr (key, found, ground (arith, found, failed))
      ]

  -- A frame that comes in is ignored if its number of this sender is stored already, refused with
  -- nothing changed if no key of the conversation opens it, and else stored with the opened body.
  pub on_message-cases :
      (now : ℕ) (nonce : Bytes) (frame : MessageFrame) (disk : Disk) (u : Unlocked)
      → ((known u.data' frame ≡ true) × (on_message now nonce frame disk u ≡ (disk, u, ok nothing)))
        ⊎ (((e : CoreError) × (known u.data' frame ≡ false)
              × NotOpened u.data' frame e
              × (on_message now nonce frame disk u ≡ (disk, u, err e)))
            ⊎ ((key : SymmetricKey) × (body : Str) × (known u.data' frame ≡ false)
                × (conv_key_for u.data' frame.conversation_id frame.sender frame.epoch ≡ ok key)
                × (open_frame key frame ≡ ok body)
                × (on_message now nonce frame disk u
                    ≡ keep nonce
                        (add_message (stored now frame body) u.data')
                        (message (stored now frame body))
                        disk
                        u)))
  on_message-cases now nonce frame disk u = elim (Bool-cases (known u.data' frame)) [
    | inl old ↦ inl (old, on_message-known now nonce frame disk u old)
    | inr new ↦ elim (Result-cases (key_of >>= λ key. open_frame key frame)) [
      | inr (e, failed) ↦ inr (
          inl (
            e,
            new,
            NotOpened-of_err u.data' frame e failed,
            on_message-refused now nonce frame disk u e new failed,
          ))
      | inl (body, done) ↦
          let (key, found, opened) = >>=-eq-ok key_of (λ key. open_frame key frame) done in
          inr (
            inr (
              key,
              body,
              new,
              found,
              opened,
              on_message-opened now nonce frame disk u key body new found opened,
            ))
    ]
  ]
    where
      key_of : CoreResult SymmetricKey
      key_of = conv_key_for u.data' frame.conversation_id frame.sender frame.epoch

  -- A frame that its conversation's key opens is ignored when it comes again, whatever became of the
  -- vault's save.
  pub on_message-again :
      (now later : ℕ) (nonce nonce' : Bytes) (frame : MessageFrame) (disk disk' : Disk)
      (u : Unlocked) (key : SymmetricKey) (body : Str)
      → conv_key_for u.data' frame.conversation_id frame.sender frame.epoch ≡ ok key
      → open_frame key frame ≡ ok body
      → let u' = (on_message now nonce frame disk u).1 in
        on_message later nonce' frame disk' u' ≡ (disk', u', ok nothing)
  on_message-again now later nonce nonce' frame disk disk' u key body found opened =
      elim (Bool-cases (known u.data' frame)) [
        | inl old ↦
            on_message-known later nonce' frame disk' _
              (rw (on_message-known now nonce frame disk u old) old)
        | inr new ↦ on_message-known later nonce' frame disk' _ (
            rw (on_message-opened now nonce frame disk u key body new found opened)
              (has_incoming-add_message (stored now frame body) u.data' refl))
      ]

  conv_key_for-friend :
      (d : VaultData) (me : Identity) (card : Friend) (c sender : Str) (epoch : ℕ)
      → identity d ≡ ok me
      → group_by_id d c ≡ none
      → friend_by_signing d sender ≡ some card
      → conv_key_for d c sender epoch ≡ direct_key_for_epoch d me card epoch
  unfolding conv_key_for
  conv_key_for-friend d me card c sender epoch i g f = rw i (rw g (rw f refl))

  conv_key_for_sender :
      (nonce : Bytes) (alice bob : Identity) (card : Friend) (c : Str) (epoch : ℕ)
      (key : SymmetricKey) (seq : ℕ) (plaintext : Str) (d : VaultData)
      → identity d ≡ ok bob
      → group_by_id d c ≡ none
      → friend_by_signing d (p.hex_encode (p.ed25519_public alice.signing_key)) ≡ some card
      → let frame = build_frame nonce alice c epoch key seq plaintext in
        conv_key_for d frame.conversation_id frame.sender frame.epoch
        ≡ direct_key_for_epoch d bob card epoch
  unfolding build_frame public
  conv_key_for_sender nonce alice bob card c epoch key seq plaintext d i g f =
      conv_key_for-friend d bob card c (p.hex_encode (p.ed25519_public alice.signing_key)) epoch i g
        f

  direct_key_for_epoch-first :
      (d : VaultData) (me : Identity) (card : Friend)
      → direct_key_for_epoch d me card direct_epoch ≡ pairwise_key me card
  unfolding direct_key_for_epoch
  direct_key_for_epoch-first d me card = refl

  -- A friend's text in UTF-8, framed with a nonce of 12 bytes under the pairwise key of epoch 0, is
  -- stored by its receiver under the sender's key and number, with the text that was framed, if
  -- that number is new and no group has the conversation's identifier.
  pub on_message-build_frame :
      HexLaws p
      → SchemeLaws p
      → (alice bob : Identity) (alice_card bob_card : Friend) (key : SymmetricKey) (c : Str)
        (seq : ℕ) (plaintext : Str) (now : ℕ) (nonce nonce' : Bytes) (disk : Disk) (u : Unlocked)
      → IsCardOf alice alice_card
      → IsCardOf bob bob_card
      → pairwise_key alice bob_card ≡ ok key
      → IsBytes nonce
      → length nonce ≡ nonce_len
      → IsBytes plaintext
      → is_utf8 plaintext ≡ true
      → identity u.data' ≡ ok bob
      → group_by_id u.data' c ≡ none
      → friend_by_signing u.data' (p.hex_encode (p.ed25519_public alice.signing_key))
        ≡ some alice_card
      → known u.data' (build_frame nonce alice c direct_epoch key seq plaintext) ≡ false
      → let frame = build_frame nonce alice c direct_epoch key seq plaintext in
        on_message now nonce' frame disk u
        ≡ keep nonce'
            (add_message (stored now frame plaintext) u.data')
            (message (stored now frame plaintext))
            disk
            u
  on_message-build_frame hex scheme alice bob alice_card bob_card key c seq plaintext now nonce
        nonce' disk u a b k nb nl pb utf8 i g f new =
      let frame = build_frame nonce alice c direct_epoch key seq plaintext in
      let same_key =
        conv_key_for_sender nonce alice bob alice_card c direct_epoch key seq plaintext u.data' i g
          f
        ∙ direct_key_for_epoch-first u.data' bob alice_card
        ∙ sym (pairwise_key-agrees hex scheme alice bob alice_card bob_card a b)
        ∙ k in
      on_message-opened now nonce' frame disk u key plaintext new same_key (
        open_frame-build_frame hex scheme nonce alice c direct_epoch key seq plaintext nb nl pb
          utf8)

  on_friend_request-refused :
      (nonce : Bytes) (req : FriendRequest) (disk : Disk) (u : Unlocked) (e : CoreError)
      → verify_request req ≡ err e
      → (on_friend_request nonce req disk u).1.data' ≡ u.data'
  unfolding on_friend_request
  on_friend_request-refused nonce req disk u e h = rw h refl

  on_friend_request-verified :
      (nonce : Bytes) (req : FriendRequest) (disk : Disk) (u : Unlocked)
      → verify_request req ≡ ok tt
      → (on_friend_request nonce req disk u).1.data'
        ≡ (add_pending (friend_from req.profile) u.data').0
  unfolding on_friend_request
  on_friend_request-verified nonce req disk u h =
      elim (Bool-cases (add_pending (friend_from req.profile) u.data').1) [
        | inl new ↦ rw h (rw new refl)
        | inr old ↦ rw h (rw old refl)
      ]

  -- A friend request keeps the roster's invariant and changes nothing of the account but the pending requests: they
  -- stay as they were, or, with a signature that verifies, get the friend of the request's profile at the end.
  pub on_friend_request-IsRoster :
      (nonce : Bytes) (req : FriendRequest) (disk : Disk) (u : Unlocked)
      → IsRoster u.data'
      → let d' = (on_friend_request nonce req disk u).1.data' in
        IsRoster d'
        × (d' ≡ record u.data' { pending_requests = d'.pending_requests })
        × ((d'.pending_requests ≡ u.data'.pending_requests)
            ⊎ ((verify_request req ≡ ok tt)
                × (d'.pending_requests ≡ u.data'.pending_requests ++ friend_from req.profile ∷ [])))
  unfolding change
  on_friend_request-IsRoster nonce req disk u r = elim (Result-cases (verify_request req)) [
    | inr (e, refused) ↦
        let same = on_friend_request-refused nonce req disk u e refused in
        (subst IsRoster (sym same) r, rw same refl, inl (rw same refl))
    | inl (_, verified) ↦
        let f = friend_from req.profile in
        let made = on_friend_request-verified nonce req disk u verified in
        let kept = subst IsRoster (sym made) (change-IsRoster (request f) u.data' r) in
        elim (add_pending-cases f u.data') [
          | inl same ↦ (kept, rw made (rw same refl), inl (rw made (rw same refl)))
          | inr added ↦ (kept, rw made (rw added refl), inr (verified, rw made (rw added refl)))
        ]
  ]
