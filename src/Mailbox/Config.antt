-- ===== src/Mailbox/Config.antt =====
-- services/mailbox/src/config.rs. The environment is a map from variables to values.
use seqr.Prelude.{
  ℕ, ◌+◌, ◌-◌, ◌*◌, ◌^◌, Str, text, [], ◌∷◌, Option, none, some, ◌&&◌, if◌then◌else◌, ltb,
  is_ascii_digit, ◌==◌,
}
use seqr.Prelude.Assoc.{Assoc, lookup}

-- the digits of `str::parse::<u64>`, refused where the number does not fit 64 bits
parse_digits : ℕ → Str → Option ℕ
parse_digits acc [] = some acc
parse_digits acc (c ∷ s) =
    let next = acc * 10 + (c - b'0') in
    let rest = parse_digits next s in if is_ascii_digit c && ltb next (2 ^ 64) then rest else none

parse_unsigned : Str → Option ℕ
unfolding parse_digits
parse_unsigned [] = none
parse_unsigned (c ∷ s) = parse_digits 0 (c ∷ s)

-- `str::parse::<u64>`: one or more digits, behind a `+` or not
unfoldable pub parse_u64 : Str → Option ℕ
unfolding parse_unsigned
parse_u64 [] = none
parse_u64 (c ∷ s) = if c == b'+' then parse_unsigned s else parse_unsigned (c ∷ s)

pub record Config : Type 0 where
  pub bind : Str
  pub data_dir : Str
  pub max_payload : ℕ
  pub clock_skew_secs : ℕ
  pub pull_limit : ℕ

-- `env::var(k).unwrap_or_else(|_| d)`
abbrev get : Assoc Str → Str → Str → Str
get env k d = elim (lookup k env) [ none ↦ d | some value ↦ value ]

-- `get(k, _).parse().unwrap_or(d)`, where the text of the default stands for `d` too
abbrev get_number : Assoc Str → Str → ℕ → ℕ
get_number env k d = elim (lookup k env) [
  | none ↦ d
  | some value ↦ elim (parse_u64 value) [ none ↦ d | some n ↦ n ]
]

unfoldable pub from_env : Assoc Str → Config
from_env env = record {
  bind = get env (text "SEQR_MAILBOX_BIND") (text "0.0.0.0:8787");
  data_dir = get env (text "SEQR_MAILBOX_DATA") (text "./data");
  max_payload = get_number env (text "SEQR_MAILBOX_MAX_PAYLOAD") 2097152;
  clock_skew_secs = get_number env (text "SEQR_MAILBOX_SKEW_SECS") 120;
  pull_limit = get_number env (text "SEQR_MAILBOX_PULL_LIMIT") 16;
}
