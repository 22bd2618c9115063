-- ===== src/Mailbox/Server.antt =====
-- services/mailbox/src/lib.rs: the handlers over the shared state. A handler takes the clock in
-- milliseconds; `seen` and the debug log are part of the state.
pub mod Access
pub mod Delivery
use seqr.Prelude.{
  ℕ, zero, suc, ◌+◌, ◌-◌, ◌/◌, ◌%◌, ◌^◌, Bytes, Str, text, length, take, ◌++◌, Bool, true, false,
  ◌&&◌, ◌||◌, List, [], ◌∷◌, Option, none, some, if◌then◌else◌, ◌==◌, leb, ltb, retain, decimal,
  not,
}
use seqr.Prelude.Assoc.{Assoc, lookup, insert}
use seqr.Prelude.Result.{Result, ok, err, is_ok, map_err, ensure, ok_or, ◌>>=◌, ◌>>◌}
use seqr.Crypto.Primitives.{Primitives}
use seqr.Crypto.Sign.{verify_raw}
use seqr.Mailbox.Config.{Config}
use seqr.Mailbox.Store
use seqr.Mailbox.Store.{Store, IoError, is_hex}
use seqr.Protocol.Requests.{
  PushRequest, PushResponse, PullRequest, PulledMessage, PullResponse, AckRequest, LogRequest,
  PresenceRequest, PresenceResponse, pull_signing_bytes, ack_signing_bytes,
}

abbrev pub presence_window_secs : ℕ
presence_window_secs = 15

pub data StatusCode : Type 0 where
  no_content bad_request payload_too_large unauthorized internal_server_error : StatusCode

pub record AppState : Type 0 where
  pub store : Store
  pub config : Config
  -- last poll time, in seconds, by identity
  pub seen : Assoc ℕ
  -- the text of `debug.log`
  pub debug_log : Str

abbrev pub now_secs : ℕ → ℕ
now_secs now = now / 1000

abbrev short : Str → Str
short hex = take 8 hex

-- `dlog`: one line with the time
unfoldable pub dlog : ℕ → Str → AppState → AppState
dlog now line st = record st {
  debug_log =
      st.debug_log ++ (text "[" ++ (decimal (now_secs now) ++ (text "] " ++ (line ++ 10 ∷ []))));
}

-- the sum is a `u64`
unfoldable pub fresh : ℕ → ℕ → ℕ → Bool
fresh now ts_millis skew_secs =
    let ts_secs = ts_millis / 1000 in
    let lo = now_secs now - skew_secs in
    let hi = (now_secs now + skew_secs) % 2 ^ 64 in leb lo ts_secs && leb ts_secs hi

-- bytes of a length, `v.try_into::<[u8; n]>()`
abbrev pub try_into : ℕ → Bytes → Option Bytes
try_into n b = if length b == n then some b else none

module _ ⦃p : Primitives⦄ where
  open p use {hex_decode}

  verify_decoded : Option Bytes → Option Bytes → Bytes → Bool
  verify_decoded (some id) (some sig) msg =
      (length id == 32) && ((length sig == 64) && is_ok (verify_raw id msg sig))
  verify_decoded _ _ msg = false

  unfoldable pub verify_identity : Str → Bytes → Str → Bool
  unfolding verify_decoded
  verify_identity identity_hex msg signature_hex =
      if not (is_hex identity_hex 64) || not (is_hex signature_hex 128)
      then false
      else verify_decoded (hex_decode identity_hex) (hex_decode signature_hex) msg

  unfoldable pub push :
      ℕ → Bytes → AppState → PushRequest → AppState × Result StatusCode PushResponse
  push now random st req =
      if not (is_hex req.to 64)
      then (st, err bad_request)
      else if (length req.payload == 0) || ltb st.config.max_payload (length req.payload)
      then (st, err payload_too_large)
      else let (store', pushed) = Store.push st.store now random req.to req.payload in
        elim pushed [
          | err e ↦ (record st { store = store' }, err internal_server_error)
          | ok id ↦ (
            dlog now
                (text "PUSH   to="
                  ++ (short req.to
                      ++ (text " bytes=" ++ (decimal (length req.payload) ++ (text " id=" ++ id)))))
                (record st { store = store' }),
            ok (record { id = id }),
          )
        ]

  -- the two guards that `pull` and `ack` begin with
  unfoldable pub authorized : ℕ → AppState → Str → ℕ → Bytes → Str → Bool
  authorized now st identity ts msg signature =
      fresh now ts st.config.clock_skew_secs && verify_identity identity msg signature

  unfoldable pub pull : ℕ → AppState → PullRequest → AppState × Result StatusCode PullResponse
  unfolding authorized
  pull now st req =
      if authorized now st req.identity req.ts (pull_signing_bytes req.identity req.ts)
        req.signature
      then (let st' : AppState = record st { seen = insert req.identity (now_secs now) st.seen } in
          elim (Store.pull st'.store req.identity st'.config.pull_limit) [
            | err e ↦ (st', err internal_server_error)
            | ok messages ↦ (
              dlog now
                  (text "PULL   identity="
                    ++ (short req.identity ++ (text " returned=" ++ decimal (length messages))))
                  st',
              ok (record { messages = messages }),
            )
          ])
      else (st, err unauthorized)

  unfoldable pub ack : ℕ → AppState → AckRequest → AppState × Result StatusCode StatusCode
  unfolding authorized
  ack now st req =
      if authorized now st req.identity req.ts (ack_signing_bytes req.identity req.ts req.ids)
        req.signature
      then (
        dlog now
            (text "ACK    identity="
              ++ (short req.identity ++ (text " ids=" ++ decimal (length req.ids))))
            (record st { store = Store.ack st.store req.identity req.ids }),
        ok no_content,
      )
      else (st, err unauthorized)

-- the bytes of the first `n` characters; a byte 10xxxxxx continues a character
unfoldable pub take_chars : ℕ → Str → Str
take_chars n [] = []
take_chars zero (b ∷ s) =
    let rest = take_chars zero s in if leb 128 b && ltb b 192 then b ∷ rest else []
take_chars (suc n) (b ∷ s) = b ∷ take_chars (if leb 128 b && ltb b 192 then suc n else n) s

unfoldable pub client_log : ℕ → AppState → LogRequest → AppState × StatusCode
client_log now st req = (
  dlog now (text "CLIENT " ++ (take_chars 60 req.tag ++ (text " | " ++ take_chars 500 req.msg))) st,
  no_content,
)

abbrev pub read_log : AppState → Str
read_log st = st.debug_log

-- `seen.get(id).is_some_and(|t| now.saturating_sub(*t) <= PRESENCE_WINDOW_SECS)`
abbrev pub online : ℕ → AppState → Str → Bool
online now st id = elim (lookup id st.seen) [
  | none ↦ false
  | some t ↦ leb (now_secs now - t) presence_window_secs
]

unfoldable pub presence : ℕ → AppState → PresenceRequest → PresenceResponse
presence now st req = record { online = retain (online now st) req.ids }
