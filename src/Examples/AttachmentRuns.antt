-- ===== src/Examples/AttachmentRuns.antt =====
-- A small file: on a stream that breaks, at rest, in chunks, and the theorems on it.
use seqr.Prelude.{
  ℕ, ◌+◌, ◌*◌, ◌≤◌, ◌<◌, ◌≡◌, ◌≢◌, refl, Bytes, Str, text, true, false, List, [], ◌∷◌, ◌++◌, none,
  some, length, take, replicate, arith, All, str_eq,
}
use seqr.Prelude.Assoc.{lookup, insert}
use seqr.Prelude.Result.{ok}
use seqr.Core.Attachment.Files.{Files, with_extension, join_path}
use seqr.Core.Error.{CoreResult}
use seqr.Core.Attachment.Rest.{encrypt_file_to_rest, open_records, read_rest_bytes}
use seqr.Core.Attachment.Rest.Fuel.{open_records-ends}
use seqr.Core.Attachment.Rest.RoundTrip.{SmallTag, read_rest_bytes-encrypt_file_to_rest}
use seqr.Core.Attachment.Reassembly.{Reassembler, new, finalize, is_complete, attachment_path}
use seqr.Core.Attachment.Reassembly.Complete.{arrive}
use seqr.Core.Attachment.Reassembly.Stored.{
  temp_path-other, IsName, IsStored, fresh, finalize-arrive,
}
use seqr.Core.Transport.Broken.{read_frames, write_frames, opened, read_frames-write_frames}
use seqr.Core.Vault.{AttachmentInfo}
use seqr.Crypto.Aead.{nonce_len}
use seqr.Examples.PeerRuns.{nonce, nonce-IsBytes, new_key, shared, account, disk}
use seqr.Examples.Toy.{toy, toy_hex, toy_scheme, toy_serde}
use seqr.Net.Attachments.{Node, Moment}
use seqr.Net.Attachments.Chunks.{IsGoing, IsFinished, on_chunks, on_chunks-IsFinished}

pub toy_small : SmallTag toy
toy_small k n m a = omega arith

abbrev frames : List Bytes
frames = (1 ∷ 2 ∷ []) ∷ (3 ∷ []) ∷ []

-- the stream breaks in the second frame
read_frames-write_frames_example :
    (m : ℕ) × (read_frames (text "cut") 2 (write_frames frames (opened 10 (text "reset"))).0.sent
      ≡ take m frames)
read_frames-write_frames_example =
    read_frames-write_frames (text "cut") (text "reset") 2 10 frames
      (omega arith, (omega arith, tt))

abbrev pub nonces : ℕ → Bytes
nonces i = nonce

pub nonces-length : (i : ℕ) → length (nonces i) ≡ nonce_len
nonces-length i = refl

abbrev pub whole : Bytes
whole = 1 ∷ 2 ∷ 3 ∷ []

abbrev files : Files
files = record { files = (text "/a", whole) ∷ []; refuses = none }

apart : text "/a" ≢ text "/b"
apart = ground arith

read_rest_bytes-encrypt_file_to_rest_example :
    let (fs', done) =
      encrypt_file_to_rest ⦃p = toy⦄ nonces new_key (text "ab") (text "/a") (text "/b") files in
    (done ≡ ok tt)
    × (read_rest_bytes ⦃p = toy⦄ new_key (text "ab") (text "/b") fs' ≡ ok whole)
    × ((path : Str) → path ≢ text "/b" → lookup path fs'.files ≡ lookup path files.files)
unfolding lookup str_eq
read_rest_bytes-encrypt_file_to_rest_example =
    read_rest_bytes-encrypt_file_to_rest ⦃p = toy⦄ toy_scheme toy_small nonces nonces-length new_key
      (text "ab") (text "/a") (text "/b") files whole refl refl apart

-- a length of nine in front of one byte
open_records-ends_example :
    (out : Bytes × CoreResult (Unit {0})) × (open_records ⦃p = toy⦄ new_key
        (text "ab")
        6
        0
        (0 ∷ 0 ∷ 0 ∷ 9 ∷ 1 ∷ [])
      ≡ some out)
    × (open_records ⦃p = toy⦄ new_key (text "ab") 9 0 (0 ∷ 0 ∷ 0 ∷ 9 ∷ 1 ∷ []) ≡ some out)
open_records-ends_example =
    open_records-ends ⦃p = toy⦄ new_key (text "ab") 6 9 0 (0 ∷ 0 ∷ 0 ∷ 9 ∷ 1 ∷ []) (omega arith)
      (omega arith)

abbrev pub info : AttachmentInfo
info = record { id = text "ab"; filename = text "a.txt"; mime = text "text/plain"; size = 3 }

pub info-IsName : IsName (text "ab")
info-IsName = (omega arith, (ground arith, (ground arith, tt)), (ground arith, (ground arith, tt)))

abbrev no_files : Files
no_files = record { files = []; refuses = none }

abbrev made : Reassembler
made = fresh (text "/d") info (text "c") (text "s") 4 shared new_key 1

all_zero : (i : ℕ) → i < 1 → seqr.Prelude.Positions.among i (0 ∷ 0 ∷ []) ≡ true
all_zero i h = ground arith

finalize-arrive_example :
    let fs_new = (new (text "/d") info (text "c") (text "s") 4 shared new_key 1 no_files).0 in
    let (r', fs') = arrive ⦃p = toy⦄ nonces whole (0 ∷ 0 ∷ []) made fs_new in
    let (fs'', done) = finalize ⦃p = toy⦄ nonces r' fs' in
    (is_complete r' ≡ true) × IsStored ⦃p = toy⦄ whole made (fs'', done)
finalize-arrive_example =
    finalize-arrive ⦃p = toy⦄ nonces whole toy_scheme toy_small nonces-length nonces nonces-length
      (text "/d") info (text "c") (text "s") 4 shared new_key 1 no_files (0 ∷ 0 ∷ []) refl
      info-IsName (omega arith) (omega arith) (omega arith, (omega arith, tt)) all_zero

abbrev pub moment : Moment
moment = record { now = 7; nonce = nonce; at_rest = nonces }

-- Bob's account, with the attachment's header received
abbrev waiting : Node
waiting = record {
  session = record { disk = disk; unlocked = some account };
  data_dir = text "/d";
  files = record { files = insert made.temp_path [] []; refuses = none };
  reassembly = insert (text "ab") made [];
}

waiting-IsGoing :
    IsGoing ⦃p = toy⦄ ⦃s = toy_serde⦄ toy_hex toy_scheme toy_small nonces nonces-length
      (λ i. nonce-IsBytes)
      whole
      (omega arith, (omega arith, (omega arith, tt)))
      made
      account
      []
      waiting
unfolding lookup insert str_eq with_extension attachment_path join_path
waiting-IsGoing = record {
  received = [];
  known = refl;
  partial = record {
    file = [];
    there = refl;
    agrees = (omega arith, λ j _ h. absurd (ground arith));
    distinct = tt;
    below = tt;
  };
  missing = refl;
  has = λ i h. h;
  takes = refl;
  unlocked = refl;
}

on_chunks-IsFinished_example :
    IsFinished ⦃p = toy⦄ ⦃s = toy_serde⦄ toy_hex toy_scheme toy_small nonces nonces-length
      (λ i. nonce-IsBytes)
      whole
      (omega arith, (omega arith, (omega arith, tt)))
      made
      account
      (on_chunks ⦃p = toy⦄ ⦃s = toy_serde⦄ nonces whole made
        ((moment, 0) ∷ (moment, 0) ∷ [])
        waiting)
on_chunks-IsFinished_example =
    on_chunks-IsFinished ⦃p = toy⦄ ⦃s = toy_serde⦄ toy_hex toy_scheme toy_small nonces nonces-length
      (λ i. nonce-IsBytes) whole (omega arith, (omega arith, (omega arith, tt))) made account
      (temp_path-other (text "/d") (text "ab") info-IsName) (omega arith) (omega arith)
      ((moment, 0) ∷ (moment, 0) ∷ []) waiting
      ((nonces-length, omega arith), ((nonces-length, omega arith), tt)) waiting-IsGoing all_zero
