-- ===== src/Mailbox/Server/Access.antt =====
-- Who may pull and acknowledge: fresh requests with a signature of the identity's key.
use seqr.Prelude.{
  ◌≢◌, ◌∙◌, str_eq_refl, leb, ap, str_eq_iff, str_eq, any, ℕ, ◌+◌, ◌-◌, ◌/◌, ◌^◌, ◌≤◌, ◌<◌, Bytes,
  Str, length, take, ◌≡◌, refl, Bool, true, false, ◌&&◌, Option, none, some, ◌↔◌, ◌⊎◌, inl, inr,
  arith, Option-cases, Bool-cases, List, [], ◌∷◌, retain,
}
use seqr.Prelude.Result.{ok, err, is_ok}
use seqr.Prelude.Assoc.{insert, lookup, lookup-insert}
use seqr.Crypto.Primitives.{Primitives}
use seqr.Crypto.Sign.{verify_raw}
use seqr.Mailbox.Store
use seqr.Mailbox.Store.{is_hex}
use seqr.Mailbox.Store.Queue.{queue_of, pull_lem, pull-queue}
use seqr.Mailbox.Server.{
  internal_server_error, no_content, AppState, StatusCode, unauthorized, fresh, now_secs,
  verify_identity, verify_decoded, authorized, push, pull, ack, presence, online,
  presence_window_secs, dlog,
}
use seqr.Protocol.Requests.{
  PullResponse, PushRequest, PullRequest, AckRequest, pull_signing_bytes, ack_signing_bytes,
}

-- If the sum of the server's second and the skew fits 64 bits, a timestamp is fresh exactly when
-- its second is within the skew of the server's, on both sides.
pub fresh_iff :
    (now ts skew : ℕ)
    → now_secs now + skew < 2 ^ 64
    → (fresh now ts skew ≡ true)
      ↔ ((ts / 1000 ≤ now_secs now + skew) × (now_secs now ≤ ts / 1000 + skew))
unfolding fresh
fresh_iff now ts skew small = ground arith

any-retain :
    (f : Str → Bool) (id : Str) (ids : List Str)
    → any (str_eq id) (retain f ids) ≡ any (str_eq id) ids && f id
any-retain f id [] = refl
any-retain f id (j ∷ ids) = ground (arith, any-retain f id ids, str_eq_iff id j, ap f)

-- the test of `presence` on a recorded time
abbrev polled_within : ℕ → Option ℕ → Bool
polled_within later o = elim o [
  | none ↦ false
  | some t ↦ leb (now_secs later - t) presence_window_secs
]

module _ ⦃p : Primitives⦄ where
  open p use {hex_decode, ed25519_verify, ed25519_valid_key}

  -- What an accepted signature shows: both texts decode, to the sizes of a key and a signature, and
  -- the signature verifies under the key.
  pub record Signed (identity : Str) (msg : Bytes) (signature : Str) : Type 0 where
    pub key : Bytes
    pub sig : Bytes
    pub key_decoded : hex_decode identity ≡ some key
    pub sig_decoded : hex_decode signature ≡ some sig
    pub key_size : length key ≡ 32
    pub sig_size : length sig ≡ 64
    pub valid : ed25519_valid_key key ≡ true
    pub verified : ed25519_verify key msg sig ≡ true

  verify_identity-Signed :
      (identity : Str) (msg : Bytes) (signature : Str)
      → verify_identity identity msg signature ≡ true
      → Signed identity msg signature
  unfolding verify_identity verify_decoded verify_raw
  verify_identity-Signed identity msg signature h = elim (Option-cases (hex_decode identity)) [
    | inl bad ↦ absurd (ground (arith, bad))
    | inr (key, hk) ↦ elim (Option-cases (hex_decode signature)) [
      | inl bad ↦ absurd (ground (arith, bad, hk))
      | inr (sig, hs) ↦ record {
        key = key;
        sig = sig;
        key_decoded = hk;
        sig_decoded = hs;
        key_size = ground (arith, hk, hs);
        sig_size = ground (arith, hk, hs);
        valid = ground (arith, hk, hs);
        verified = ground (arith, hk, hs);
      }
    ]
  ]

  -- the request is fresh, and carries a signature by the key that the identity spells
  pub record Granted (now : ℕ) (st : AppState) (identity : Str) (ts : ℕ) (msg : Bytes)
      (signature : Str) : Type 0 where
    pub in_time : fresh now ts st.config.clock_skew_secs ≡ true
    pub signed : Signed identity msg signature

  authorized-Granted :
      (now : ℕ) (st : AppState) (identity : Str) (ts : ℕ) (msg : Bytes) (signature : Str)
      → authorized now st identity ts msg signature ≡ true
      → Granted now st identity ts msg signature
  unfolding authorized
  authorized-Granted now st identity ts msg signature h = record {
    in_time = ground arith;
    signed = verify_identity-Signed identity msg signature (ground arith);
  }

  module _ (now : ℕ) (st : AppState) where
    -- A pull is answered with messages only if the request is fresh and signed by the identity's key.
    -- The answer is the front of that identity's queue, up to the limit. The store stays as it is,
    -- and the time of the poll is recorded.
    pub pull-ok :
        (req : PullRequest) {st' : AppState} {resp : PullResponse}
        → pull now st req ≡ (st', ok resp)
        → Granted now st req.identity req.ts (pull_signing_bytes req.identity req.ts) req.signature
          × (resp.messages ≡ take st.config.pull_limit (queue_of st.store req.identity))
          × (st'.store ≡ st.store)
          × (lookup req.identity st'.seen ≡ some (now_secs now))
    unfolding pull dlog
    pull-ok req {resp = resp} h =
        let msg = pull_signing_bytes req.identity req.ts in
        elim (Bool-cases (authorized now st req.identity req.ts msg req.signature)) [
          | inl granted ↦ (
            authorized-Granted now st req.identity req.ts msg req.signature granted,
            ground (
              arith,
              granted,
              pull-queue st.store req.identity st.config.pull_limit resp.messages,
            ),
            ground (arith, granted),
            ground (
              arith,
              granted,
              lookup-insert req.identity req.identity (now_secs now) st.seen,
              str_eq_refl req.identity,
            ),
          )
          | inr refused ↦ absurd (ground (arith, refused))
        ]

    -- A pull that is not answered with messages is either answered 401 and changes nothing, or it is fresh and signed
    -- by the identity's key and is answered 500: then there is something that cannot be read, and the time of the poll
    -- is recorded all the same, and nothing else changed.
    pub pull-err :
        (req : PullRequest) {st' : AppState} {code : StatusCode}
        → pull now st req ≡ (st', err code)
        → ((st' ≡ st) × (code ≡ unauthorized))
          ⊎ (Granted now st req.identity req.ts
                (pull_signing_bytes req.identity req.ts)
                req.signature
              × (code ≡ internal_server_error)
              × (st.store.unreadable ≢ [])
              × (st' ≡ record st { seen = insert req.identity (now_secs now) st.seen }))
    unfolding pull
    pull-err req h =
        let msg = pull_signing_bytes req.identity req.ts in
        elim (Bool-cases (authorized now st req.identity req.ts msg req.signature)) [
          | inl granted ↦ inr (
            authorized-Granted now st req.identity req.ts msg req.signature granted,
            ground (arith, granted),
            λ readable.
                ground
                  (arith, granted, pull_lem st.store req.identity st.config.pull_limit readable),
            ground (arith, granted),
          )
          | inr refused ↦ inl (ground (arith, refused))
        ]

    -- An acknowledgement is carried out only for a fresh request signed by the identity's key over
    -- these ids; any other is answered 401 and changes nothing.
    pub ack-cases :
        (req : AckRequest)
        → (Granted now st req.identity req.ts
              (ack_signing_bytes req.identity req.ts req.ids)
              req.signature
            × ((ack now st req).0.store ≡ Store.ack st.store req.identity req.ids)
            × ((ack now st req).1 ≡ ok no_content))
          ⊎ (ack now st req ≡ (st, err unauthorized))
    unfolding ack dlog
    ack-cases req =
        let msg = ack_signing_bytes req.identity req.ts req.ids in
        elim (Bool-cases (authorized now st req.identity req.ts msg req.signature)) [
          | inl granted ↦ inl (
            authorized-Granted now st req.identity req.ts msg req.signature granted,
            ground (arith, granted),
            ground (arith, granted),
          )
          | inr refused ↦ inr (ground (arith, refused))
        ]

    -- A push is refused, and nothing changes, unless it is addressed to 64 lowercase hex digits and
    -- its payload has at least one byte and at most `max_payload`.
    pub push_refused :
        (random : Bytes) (req : PushRequest)
        → ((is_hex req.to 64 ≡ false)
            ⊎ ((length req.payload ≡ 0) ⊎ (st.config.max_payload < length req.payload)))
        → ((push now random st req).0 ≡ st) × (is_ok (push now random st req).1 ≡ false)
    unfolding push
    push_refused random req h = ground arith

    -- After a pull was answered, a presence request that lists the caller reports it online exactly
    -- while no more than the window of 15 seconds has passed.
    pub pull-presence :
        (req : PullRequest) {st' : AppState} {resp : PullResponse} (later : ℕ) (ids : List Str)
        → pull now st req ≡ (st', ok resp)
        → any (str_eq req.identity) (presence later st' (record { ids = ids })).online
          ≡ any (str_eq req.identity) ids && leb (now_secs later - now_secs now) 15
    unfolding presence
    pull-presence req {st'} later ids h =
        let (_, _, _, polled) = pull-ok req h in
        any-retain (online later st') req.identity ids
        ∙ ap (λ o. any (str_eq req.identity) ids && polled_within later o) polled
