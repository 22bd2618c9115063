-- ===== src/Core/Config.antt =====
-- core/config.rs: the configuration of the desktop, from the two files of its directory and the
-- environment. The compiled-in certificate stays a parameter: only its presence matters here.
pub mod Overrides
pub mod File
use seqr.Prelude.{
  ℕ, Str, text, Bool, List, [], ◌∷◌, Option, none, some, if◌then◌else◌, split, strip_prefix, str_eq,
  map, leb, ◌&&◌, ◌+◌, ◌==◌,
}
use mathlib.Core.List.{reverse}
use seqr.Prelude.Assoc.{Assoc, lookup}
use seqr.Prelude.Unicode.{trim}

pub data Backend : Type 0 where
  matrix p2p : Backend

pub record AppConfig : Type 0 where
  pub backend : Backend
  pub homeserver_url : Str
  pub mailbox_url : Str
  pub mailbox_cert : Option Str

abbrev pub default_mailbox_url : Str
default_mailbox_url = text "https://37.27.248.79:8443"

abbrev pub default_homeserver_url : Str
default_homeserver_url = text "https://matrix.rw3iss.com"

-- `AppConfig::default`, with the text of the certificate
abbrev pub default_config : Str → AppConfig
default_config cert = record {
  backend = matrix;
  homeserver_url = default_homeserver_url;
  mailbox_url = default_mailbox_url;
  mailbox_cert = some cert;
}

abbrev lower : ℕ → ℕ
lower c = if leb b'A' c && leb c b'Z' then c + 32 else c

unfoldable pub parse_backend : Str → Backend
parse_backend s = if str_eq (map lower s) (text "p2p") then p2p else matrix

unfoldable strip_quotes : Str → Str
strip_quotes [] = []
strip_quotes (c ∷ s) = let rest = strip_quotes s in if c == b'"' then rest else c ∷ s

-- `s.trim_matches('"')`
unfoldable pub trim_quotes : Str → Str
unfolding strip_quotes
trim_quotes s = reverse (strip_quotes (reverse (strip_quotes s)))

-- `rest.split('=').nth(1)`, trimmed
unfoldable pub value_of : Str → Option Str
unfolding trim_quotes
value_of rest = elim (split b'=' rest) [
  | [] ↦ none
  | key ∷ others ↦ elim others [ [] ↦ none | value ∷ more ↦ some (trim_quotes (trim value)) ]
]

-- a field takes a value, if there is one
abbrev pub taking : {A : Type 0} → Option A → (A → AppConfig) → AppConfig → AppConfig
taking none f cfg = cfg
taking (some a) f cfg = f a

-- one round of the loop over the lines of `seqr.toml`
unfoldable pub read_line : AppConfig → Str → AppConfig
unfolding value_of parse_backend
read_line cfg raw =
    let line = trim raw in
    elim (strip_prefix (text "mailbox_url") line) [
      | some rest ↦ taking (value_of rest) (λ v. record cfg { mailbox_url = v }) cfg
      | none ↦ elim (strip_prefix (text "homeserver_url") line) [
        | some rest ↦ taking (value_of rest) (λ v. record cfg { homeserver_url = v }) cfg
        | none ↦ elim (strip_prefix (text "backend") line) [
          | some rest ↦ taking (value_of rest) (λ v. record cfg { backend = parse_backend v }) cfg
          | none ↦ cfg
        ]
      ]
    ]

unfoldable pub read_lines : AppConfig → List Str → AppConfig
unfolding read_line
read_lines cfg [] = cfg
read_lines cfg (line ∷ lines) = read_lines (read_line cfg line) lines

-- `text.lines()`: no line behind a final newline. A carriage return at the end of a line is white
-- space, which the loop trims.
unfoldable pub lines_of : Str → List Str
lines_of [] = []
lines_of (c ∷ s) =
    let rest = lines_of s in
    if c == 10
    then [] ∷ rest
    else elim rest [ [] ↦ (c ∷ []) ∷ [] | line ∷ more ↦ (c ∷ line) ∷ more ]

-- `AppConfig::resolve`, by the texts of the two files, if they are there, and the environment
unfoldable pub resolve : Str → Option Str → Option Str → Assoc Str → AppConfig
unfolding read_lines lines_of parse_backend
resolve cert toml pem env =
    let cfg0 = default_config cert in
    let cfg1 = taking toml (λ t. read_lines cfg0 (lines_of t)) cfg0 in
    let cfg2 =
      taking (lookup (text "SEQR_MAILBOX_URL") env) (λ url. record cfg1 { mailbox_url = url })
        cfg1 in
    let cfg3 =
      taking (lookup (text "SEQR_HOMESERVER_URL") env) (λ url. record cfg2 { homeserver_url = url })
        cfg2 in
    let cfg4 =
      taking (lookup (text "SEQR_BACKEND") env) (λ b. record cfg3 { backend = parse_backend b })
        cfg3 in
    taking pem (λ pem'. record cfg4 { mailbox_cert = some pem' }) cfg4
