-- ===== src/Core/Config/File.antt =====
-- `seqr.toml` with its three settings, as it is written and read.
use seqr.Prelude.{ℕ, Str, text, ◌≢◌, ◌<◌, [], ◌∷◌, ◌++◌, Bool, ltb, ◌&&◌}
use seqr.Prelude.Assoc.{Assoc}

-- a character of a value: visible, and neither an equals sign nor a quote
abbrev pub IsPlain : ℕ → Type 0
IsPlain c = (32 < c) × (c < 128) × (c ≢ b'=') × (c ≢ b'"')

abbrev quoted : Str → Str
quoted v = b'"' ∷ (v ++ b'"' ∷ [])

-- a line `key="value"`
abbrev pub assigned : Str → Str → Str
assigned key v = key ++ b'=' ∷ quoted v

-- the file with its three settings
abbrev pub toml_of : Str → Str → Str → Str
toml_of mailbox homeserver backend =
    assigned (text "mailbox_url") mailbox
    ++ 10
      ∷ (assigned (text "homeserver_url") homeserver
          ++ 10 ∷ (assigned (text "backend") backend ++ 10 ∷ []))

abbrev is_visible : ℕ → Bool
is_visible c = ltb 32 c && ltb c 128
