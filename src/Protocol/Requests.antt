-- ===== src/Protocol/Requests.antt =====
-- crates/seqr-protocol/src/mailbox.rs: the requests and responses of the mailbox, and the bytes that
-- the signed ones cover.
use seqr.Prelude.{ℕ, Bytes, Str, text, ◌++◌, decimal, List, join}

pub record PushRequest : Type 0 where
  pub to : Str
  pub payload : Str

pub record PushResponse : Type 0 where
  pub id : Str

pub record PullRequest : Type 0 where
  pub identity : Str
  pub ts : ℕ
  pub signature : Str

-- `PullRequest::signing_bytes`
unfoldable pub pull_signing_bytes : Str → ℕ → Bytes
pull_signing_bytes identity ts = text "seqr/pull/v1|" ++ (identity ++ (text "|" ++ decimal ts))

pub record PulledMessage : Type 0 where
  pub id : Str
  pub payload : Str

pub record PullResponse : Type 0 where
  pub messages : List PulledMessage

pub record AckRequest : Type 0 where
  pub identity : Str
  pub ts : ℕ
  pub signature : Str
  pub ids : List Str

-- `AckRequest::signing_bytes`
unfoldable pub ack_signing_bytes : Str → ℕ → List Str → Bytes
ack_signing_bytes identity ts ids =
    text "seqr/ack/v1|"
    ++ (identity ++ (text "|" ++ (decimal ts ++ (text "|" ++ join (text ",") ids))))

pub record LogRequest : Type 0 where
  pub tag : Str
  pub msg : Str

pub record PresenceRequest : Type 0 where
  pub ids : List Str

pub record PresenceResponse : Type 0 where
  pub online : List Str
