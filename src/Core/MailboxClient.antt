-- ===== src/Core/MailboxClient.antt =====
-- core/mailbox.rs: the calls that the desktop makes of the mailbox. The HTTP client and the server are a
-- parameter; the clock is an argument.
use seqr.Prelude.{ℕ, Str, text, ◌++◌, List, [], ◌∷◌, Option, none, some}
use seqr.Prelude.Result.{ok, err, ◌>>=◌}
use seqr.Core.Error.{CoreError, CoreResult, transport}
use seqr.Crypto.Keys.{Identity, public}
use seqr.Crypto.Primitives.{Primitives}
use seqr.Crypto.Sign.{sign}
use seqr.Protocol.Requests.{
  PushRequest, PushResponse, PullRequest, PulledMessage, PullResponse, AckRequest, PresenceRequest,
  PresenceResponse, pull_signing_bytes, ack_signing_bytes,
}

module _ ⦃p : Primitives⦄ where
  -- the request of `MailboxClient::pull`, at a time
  unfoldable pub pull_request : ℕ → Identity → PullRequest
  unfolding public
  pull_request ts me =
      let id_hex = p.hex_encode (public me).signing_public in
      let signature = p.hex_encode (sign me.signing_key (pull_signing_bytes id_hex ts)) in
      record { identity = id_hex; ts = ts; signature = signature }

  -- the request of `MailboxClient::ack`, if it sends one
  unfoldable pub ack_request : ℕ → Identity → List Str → Option AckRequest
  unfolding public
  ack_request ts me [] = none
  ack_request ts me (id ∷ ids) =
      let id_hex = p.hex_encode (public me).signing_public in
      let signature = p.hex_encode (sign me.signing_key (ack_signing_bytes id_hex ts (id ∷ ids))) in
      some (record { identity = id_hex; ts = ts; signature = signature; ids = id ∷ ids })

-- What the HTTP client and a server give a call: an answer, another status as text, or an error as text.
pub data Reply {ℓ} (A : Type ℓ) : Type ℓ where
  answered : A → Reply A
  status : Str → Reply A
  failed : Str → Reply A

-- a server behind an HTTP client, by its state
pub record Server (S : Type 0) : Type 0 where
  pub post_push : PushRequest → S → S × Reply PushResponse
  pub post_pull : PullRequest → S → S × Reply PullResponse
  pub post_ack : AckRequest → S → S × Reply (Unit {0})
  pub post_presence : PresenceRequest → S → S × Reply PresenceResponse

abbrev merr : Str → CoreError
merr e = transport (text "mailbox: " ++ e)

-- what a call makes of a reply, by its name
abbrev outcome {ℓ} : {A : Type ℓ} → Str → Reply A → CoreResult A
outcome name (answered a) = ok a
outcome name (status code) = err (merr (name ++ (text " status " ++ code)))
outcome name (failed e) = err (merr e)

module _ ⦃p : Primitives⦄ {S : Type 0} (server : Server S) where
  -- `MailboxClient::push`
  unfoldable pub push : Str → Str → S → S × CoreResult Str
  push to payload s =
      let (s', reply) = server.post_push (record { to = to; payload = payload }) s in
      (s', (do answer ← outcome (text "push") reply; ok answer.id))

  unfoldable pub pull : ℕ → Identity → S → S × CoreResult (List PulledMessage)
  unfolding pull_request
  pull ts me s =
      let (s', reply) = server.post_pull (pull_request ts me) s in
      (s', (do answer ← outcome (text "pull") reply; ok answer.messages))

  unfoldable pub ack : ℕ → Identity → List Str → S → S × CoreResult (Unit {0})
  unfolding ack_request
  ack ts me ids s = elim (ack_request ts me ids) [
    | none ↦ (s, ok tt)
    | some req ↦ let (s', reply) = server.post_ack req s in (s', outcome (text "ack") reply)
  ]

  unfoldable pub presence : List Str → S → S × CoreResult (List Str)
  presence ids s =
      let (s', reply) = server.post_presence (record { ids = ids }) s in
      (s', (do answer ← outcome (text "presence") reply; ok answer.online))
