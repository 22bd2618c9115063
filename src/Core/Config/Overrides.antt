-- ===== src/Core/Config/Overrides.antt =====
-- Which source of a setting wins.
use seqr.Prelude.{Str, text, ◌≡◌, Option, none, some, arith}
use seqr.Prelude.Assoc.{Assoc, lookup}
use seqr.Core.Config.{resolve, AppConfig, parse_backend, read_lines, lines_of, default_config}

abbrev pub or_else {ℓ} : {A : Type ℓ} → Option A → A → A
or_else none a = a
or_else (some b) a = b

-- what the file makes of the defaults
abbrev pub from_file : Str → Option Str → AppConfig
from_file cert none = default_config cert
from_file cert (some toml) = read_lines (default_config cert) (lines_of toml)

-- Of each setting the environment wins over `seqr.toml`, which wins over the default; of the
-- certificate the file beside it wins over the compiled-in one.
pub resolve-sources :
    (cert : Str) (toml pem : Option Str) (env : Assoc Str)
    → ((resolve cert toml pem env).mailbox_url
        ≡ or_else (lookup (text "SEQR_MAILBOX_URL") env) (from_file cert toml).mailbox_url)
      × ((resolve cert toml pem env).homeserver_url
          ≡ or_else (lookup (text "SEQR_HOMESERVER_URL") env) (from_file cert toml).homeserver_url)
      × ((resolve cert toml pem env).backend ≡ elim (lookup (text "SEQR_BACKEND") env) [
        | none ↦ (from_file cert toml).backend
        | some b ↦ parse_backend b
      ])
      × ((resolve cert toml pem env).mailbox_cert
          ≡ elim pem [ none ↦ (from_file cert toml).mailbox_cert | some text' ↦ some text' ])
unfolding resolve
resolve-sources cert toml pem env = (ground arith, ground arith, ground arith, ground arith)
