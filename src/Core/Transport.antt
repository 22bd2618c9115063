-- ===== src/Core/Transport.antt =====
-- core/transport.rs: the frames of a file stream. The connection is a parameter: a sending side that takes
-- so many bytes and then fails, and on the receiving side the bytes that arrive before it ends.
pub mod Broken
use seqr.Prelude.{
  ◌∙◌, ◌<◌, ℕ, ◌+◌, ◌-◌, ◌*◌, ◌%◌, ◌^◌, ◌≤◌, ◌≡◌, refl, ap, Bytes, Str, text, List, [], ◌∷◌, ◌++◌,
  Option, none, some, if◌then◌else◌, length, take, leb, ltb, All, arith, append_assoc,
}
use seqr.Prelude.BigEndian.{
  read_exact_short, length-to_be_bytes, to_be_bytes, from_be_bytes, read_exact, read_exact-append,
  from_be_bytes-to_be_bytes,
}
use seqr.Prelude.Result.{Result, ok, err, map_err}
use seqr.Core.Error.{CoreError, CoreResult, transport}

-- `4 << 20`
abbrev pub max_frame : ℕ
max_frame = 4 * 1048576

-- the sending side: what it took, how many bytes it still takes, and the error after that
pub record SendStream : Type 0 where
  pub sent : Bytes
  pub room : ℕ
  pub fault : Str

unfoldable pub write_all : Bytes → SendStream → SendStream × CoreResult (Unit {0})
write_all bytes s =
    if leb (length bytes) s.room
    then (record s { sent = s.sent ++ bytes; room = s.room - length bytes }, ok tt)
    else (record s { sent = s.sent ++ take s.room bytes; room = 0 }, err (transport s.fault))

-- a write behind another, which is made only if that one succeeded
abbrev pub then_write :
    SendStream × CoreResult (Unit {0})
    → (SendStream → SendStream × CoreResult (Unit {0}))
    → SendStream × CoreResult (Unit {0})
then_write (s, ok _) next = next s
then_write (s, err e) next = (s, err e)

-- `write_lp`, which is `FileSend::write_frame`
unfoldable pub write_lp : Bytes → SendStream → SendStream × CoreResult (Unit {0})
unfolding write_all
write_lp data' s = then_write (write_all (to_be_bytes (length data' % 2 ^ 32)) s) (write_all data')

-- what of a stream one read takes, by the length in front of it
abbrev read_body : Str → ℕ → Bytes → CoreResult (Option (Bytes × Bytes))
read_body reason len rest =
    if ltb max_frame len
    then err (transport (text "file frame too long"))
    else elim (read_exact len rest) [ none ↦ err (transport reason) | some got ↦ ok (some got) ]

-- `read_lp`, which is `FileRecv::read_frame`: the frame and what is left. The text is that of a read that
-- the end of the stream cuts short.
unfoldable pub read_lp : Str → Bytes → CoreResult (Option (Bytes × Bytes))
read_lp reason stream = elim (read_exact 4 stream) [
  | none ↦ ok none
  | some (len_buf, rest) ↦ read_body reason (from_be_bytes len_buf) rest
]

-- a frame as it stands on the wire
abbrev pub on_wire : Bytes → Bytes
on_wire data' = to_be_bytes (length data' % 2 ^ 32) ++ data'

read_lp-header :
    (reason : Str) (n : ℕ) (rest : Bytes)
    → n < 2 ^ 32
    → read_lp reason (to_be_bytes n ++ rest) ≡ read_body reason n rest
unfolding read_lp
read_lp-header reason n rest h =
    rw (read_lp, read_exact-append 4 (to_be_bytes n) rest (length-to_be_bytes n))
      (rw (from_be_bytes-to_be_bytes n h) refl)

-- A frame of at most 4 MiB is read back from the front of a stream, with the rest of the stream left.
pub read_lp-on_wire :
    (reason : Str) (data' rest : Bytes)
    → length data' ≤ max_frame
    → read_lp reason (on_wire data' ++ rest) ≡ ok (some (data', rest))
read_lp-on_wire reason data' rest h =
    let whole : length data' % 2 ^ 32 ≡ length data' = omega arith in
    rw whole (
      ap (read_lp reason) (append_assoc (to_be_bytes (length data')) data' rest)
      ∙ read_lp-header reason (length data') (data' ++ rest) (omega arith)
      ∙ rw (read_exact-append (length data') data' rest refl) (ground arith))

-- A length above 4 MiB is refused before any byte of the frame is read.
pub read_lp_long :
    (reason : Str) (n : ℕ) (rest : Bytes)
    → max_frame < n
    → n < 2 ^ 32
    → read_lp reason (to_be_bytes n ++ rest) ≡ err (transport (text "file frame too long"))
read_lp_long reason n rest long h = read_lp-header reason n rest h ∙ ground arith

-- A frame that the stream's end cuts off gives no frame.
pub read_lp_cut :
    (reason : Str) (n : ℕ) (rest : Bytes)
    → n ≤ max_frame
    → length rest < n
    → read_lp reason (to_be_bytes n ++ rest) ≡ err (transport reason)
read_lp_cut reason n rest h cut =
    read_lp-header reason n rest (omega arith) ∙ rw (read_exact_short n rest cut) (ground arith)

-- At the stream's end, or with less than a length left, there is no frame.
pub read_lp_end :
    (reason : Str) (stream : Bytes) → length stream < 4 → read_lp reason stream ≡ ok none
unfolding read_lp
read_lp_end reason stream h = rw (read_lp, read_exact_short 4 stream h) refl
