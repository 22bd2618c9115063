-- ===== src/Mailbox/Store.antt =====
-- services/mailbox/src/store.rs: `<data_dir>/<identity>/<id>.msg`. The clock and the random bytes of an
-- id are arguments. A file system that refuses to create and write is `writable = false`; the directories and files
-- that it refuses to read are listed by name.
pub mod Names
pub mod Queue
pub mod Stamped
pub mod Push
pub mod Ack
pub mod Fifo
use seqr.Prelude.{
  ℕ, zero, suc, ◌+◌, ◌%◌, ◌^◌, Bytes, Str, text, length, take, ◌++◌, ◌≡◌, Bool, true, false, not,
  ◌&&◌, ◌||◌, List, [], ◌∷◌, Option, none, some, if◌then◌else◌, ◌==◌, leb, all, retain, split,
  strip_prefix, any, str_eq, padded, is_ascii_digit,
}
use mathlib.Core.List.{reverse}
use seqr.Prelude.Assoc.{Assoc, lookup, insert, remove, keys}
use seqr.Prelude.Result.{Result, ok, err, ◌>>=◌, ok_or}
use seqr.Prelude.Sort.{sort}
use seqr.Crypto.Keys.{generate_group_key}
use seqr.Crypto.Primitives.{Primitives}
use seqr.Protocol.Requests.{PulledMessage}

-- the files of one mailbox, by name
abbrev pub Dir : Type 0
Dir = Assoc Str

pub data IoError : Type 0 where
  denied not_found : IoError

pub record Store : Type 0 where
  pub dirs : Assoc Dir
  -- the process-wide counter `SEQ`
  pub seq : ℕ
  pub writable : Bool
  pub unreadable : List Str

unfoldable pub is_hex : Str → ℕ → Bool
is_hex s len = (length s == len) && all (λ b. is_ascii_digit b || (leb b'a' b && leb b b'f')) s

-- `s.ends_with(suffix)`: the text in front of the suffix, if it is there
unfoldable pub strip_suffix : Str → Str → Option Str
strip_suffix suffix s = elim (strip_prefix (reverse suffix) (reverse s)) [
  | none ↦ none
  | some front ↦ some (reverse front)
]

abbrev pub ends_with : Str → Str → Bool
ends_with suffix s = elim (strip_suffix suffix s) [ none ↦ false | some _ ↦ true ]

trim_end_fuel : ℕ → Str → Str → Str
trim_end_fuel zero suffix s = s
trim_end_fuel (suc f) suffix s = elim (strip_suffix suffix s) [
  | none ↦ s
  | some front ↦ trim_end_fuel f suffix front
]

-- `s.trim_end_matches(suffix)`, for a suffix that is not empty
unfoldable pub trim_end_matches : Str → Str → Str
unfolding trim_end_fuel
trim_end_matches suffix s = trim_end_fuel (length s) suffix s

abbrev pub msg_suffix : Str
msg_suffix = text ".msg"

unfoldable pub valid_parts : List Str → Bool
valid_parts (ts ∷ seq ∷ suffix ∷ []) =
    (length ts == 13)
    && (all is_ascii_digit ts
        && ((length seq == 10) && (all is_ascii_digit seq && is_hex suffix 16)))
valid_parts _ = false

unfoldable pub valid_id : Str → Bool
unfolding valid_parts
valid_id id = valid_parts (split b'-' id)

-- `path.exists()` of a mailbox, and its files
abbrev pub mailbox_dir : Store → Str → Option Dir
mailbox_dir st identity = lookup identity st.dirs

abbrev pub set_dir : Store → Str → Dir → Store
set_dir st identity dir = record st { dirs = insert identity dir st.dirs }

-- `fs::create_dir_all(&dir)`: the store with the mailbox, and the mailbox
unfoldable pub create_dir_all : Store → Str → Result IoError (Store × Dir)
create_dir_all st identity = elim (mailbox_dir st identity) [
  | some dir ↦ ok (st, dir)
  | none ↦ if st.writable then ok (set_dir st identity [], []) else err denied
]

module _ ⦃p : Primitives⦄ where
  unfoldable pub random_suffix : Bytes → Str
  random_suffix random = p.hex_encode (take 8 (generate_group_key random))

  -- `format!("{:013}-{:010}-{}", now_millis(), seq, random_suffix())`
  unfoldable pub new_id : ℕ → ℕ → Bytes → Str
  new_id now_millis seq random =
      padded 13 now_millis ++ (text "-" ++ (padded 10 seq ++ (text "-" ++ random_suffix random)))

  -- `Store::push`: the store afterwards, and the id
  unfoldable pub push : Store → ℕ → Bytes → Str → Str → Store × Result IoError Str
  unfolding new_id
  push st now_millis random identity payload = elim (create_dir_all st identity) [
    | err e ↦ (st, err e)
    | ok (st', dir) ↦
        let id = new_id now_millis st'.seq random in
        let counted : Store = record st' { seq = (st'.seq + 1) % 2 ^ 64 } in
        if st'.writable
        then (set_dir counted identity (insert (id ++ msg_suffix) payload dir), ok id)
        else (counted, err denied)
  ]

-- `fs::read_to_string` of a message
abbrev pub read_to_string : List Str → Dir → Str → Result IoError Str
read_to_string unreadable dir name =
    if any (str_eq name) unreadable then err denied else ok_or (lookup name dir) not_found

-- the loop of `Store::pull` over the names that are left, with those that cannot be read
unfoldable pub read_all : List Str → Dir → List Str → Result IoError (List PulledMessage)
read_all unreadable dir [] = ok []
read_all unreadable dir (name ∷ names) = do
  payload ← read_to_string unreadable dir name
  rest ← read_all unreadable dir names
  ok (record { id = trim_end_matches msg_suffix name; payload = payload } ∷ rest)

-- the sorted names of the messages
unfoldable pub entries : Dir → List Str
entries dir = sort (retain (ends_with msg_suffix) (keys dir))

-- `Store::pull`; `fs::read_dir` may fail, and so may each file
unfoldable pub pull : Store → Str → ℕ → Result IoError (List PulledMessage)
unfolding entries read_all
pull st identity limit = elim (mailbox_dir st identity) [
  | none ↦ ok []
  | some dir ↦
      if any (str_eq identity) st.unreadable
      then err denied
      else read_all st.unreadable dir (take limit (entries dir))
]

-- one round of the loop of `Store::ack`; `fs::remove_file` may fail, and its result is dropped
unfoldable pub ack_one : Bool → Dir → Str → Dir
ack_one writable dir id = if valid_id id && writable then remove (id ++ msg_suffix) dir else dir

unfoldable pub ack_ids : Bool → Dir → List Str → Dir
unfolding ack_one
ack_ids writable dir [] = dir
ack_ids writable dir (id ∷ ids) = ack_ids writable (ack_one writable dir id) ids

-- `Store::ack`, which always succeeds
unfoldable pub ack : Store → Str → List Str → Store
unfolding ack_ids
ack st identity ids = elim (mailbox_dir st identity) [
  | none ↦ st
  | some dir ↦ set_dir st identity (ack_ids st.writable dir ids)
]
