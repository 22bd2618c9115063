-- ===== src/Core/Transport/Broken.antt =====
-- A file stream that breaks off: what the receiver reads of the frames that were written.
use seqr.Prelude.{
  ℕ, zero, suc, ◌+◌, ◌-◌, ◌%◌, ◌^◌, ◌≤◌, ◌<◌, ◌≡◌, refl, sym, ap, ◌∙◌, Bytes, Str, List, [], ◌∷◌,
  ◌++◌, some, none, length, take, leb, All, arith, append_assoc, Bool-cases, inl, inr,
  length-append, append-nil, ◌⊎◌, take-append, take_all, take-append_short, take_nil, length-take,
}
use seqr.Prelude.BigEndian.{to_be_bytes, length-to_be_bytes}
use seqr.Prelude.Result.{ok, err}
use seqr.Core.Error.{CoreResult}
use seqr.Core.Transport.{
  SendStream, write_all, write_lp, then_write, read_lp, on_wire, max_frame, read_lp-on_wire,
  read_lp_cut, read_lp_end,
}

-- frames written one after the other, until one fails
unfoldable pub write_frames : List Bytes → SendStream → SendStream × CoreResult (Unit {0})
write_frames [] s = (s, ok tt)
write_frames (f ∷ fs) s = then_write (write_lp f s) (write_frames fs)

-- at most so many frames, read until a read gives none or fails
unfoldable pub read_frames : Str → ℕ → Bytes → List Bytes
read_frames reason zero stream = []
read_frames reason (suc n) stream = elim (read_lp reason stream) [
  | ok (some (f, rest)) ↦ f ∷ read_frames reason n rest
  | ok none ↦ []
  | err e ↦ []
]

abbrev all_on_wire : List Bytes → Bytes
all_on_wire [] = []
all_on_wire (f ∷ fs) = on_wire f ++ all_on_wire fs

-- that a write took as much as there was room for and no more, and succeeded if that was all
abbrev Took : Bytes → SendStream → SendStream × CoreResult (Unit {0}) → Type 0
Took b s r =
    (r.0.sent ≡ s.sent ++ take s.room b)
    × (r.0.room ≡ s.room - length b)
    × ((r.1 ≡ ok tt) ⊎ (s.room < length b))

write_all-Took : (b : Bytes) (s : SendStream) → Took b s (write_all b s)
unfolding write_all
write_all-Took b s = elim (Bool-cases (leb (length b) s.room)) [
  | inl fits ↦ rw fits (ap (◌++◌ s.sent) (sym (take_all s.room b (ground arith))), refl, inl refl)
  | inr full ↦ rw full (refl, ground arith, inr (ground arith))
]

then_write-Took :
    (b b' : Bytes) (s : SendStream) (r : SendStream × CoreResult (Unit {0}))
    (next : SendStream → SendStream × CoreResult (Unit {0}))
    → Took b s r
    → ((s' : SendStream) → Took b' s' (next s'))
    → Took (b ++ b') s (then_write r next)
then_write-Took b b' s (s', ok _) next (sent, room, _) h =
    let (sent', room', done) = h s' in
    (
      sent'
          ∙ rw sent (
              rw room (
                append_assoc s.sent (take s.room b) (take (s.room - length b) b')
                ∙ ap (◌++◌ s.sent) (sym (take-append s.room b b')))),
      room' ∙ rw room (ground (arith, length-append b b')),
      elim done [
        | inl all_done ↦ inl all_done
        | inr short ↦ inr (ground (arith, length-append b b', short, room))
      ],
    )
then_write-Took b b' s (s', err e) next (sent, room, inl done) h = cc
then_write-Took b b' s (s', err e) next (sent, room, inr short) h = (
  sent ∙ ap (◌++◌ s.sent) (sym (take-append_short s.room b b' (omega arith))),
  room ∙ ground (arith, length-append b b'),
  inr (ground (arith, length-append b b')),
)

write_lp-Took : (f : Bytes) (s : SendStream) → Took (on_wire f) s (write_lp f s)
unfolding write_lp
write_lp-Took f s =
    then_write-Took (to_be_bytes (length f % 2 ^ 32)) f s _ (write_all f)
      (write_all-Took (to_be_bytes (length f % 2 ^ 32)) s) (write_all-Took f)

write_frames-Took : (fs : List Bytes) (s : SendStream) → Took (all_on_wire fs) s (write_frames fs s)
unfolding write_frames
write_frames-Took [] s =
    (sym (ap (◌++◌ s.sent) (take_nil s.room) ∙ append-nil s.sent), omega arith, inl refl)
write_frames-Took (f ∷ fs) s =
    then_write-Took (on_wire f) (all_on_wire fs) s (write_lp f s) (write_frames fs)
      (write_lp-Took f s) (write_frames-Took fs)

abbrev Fits : Bytes → Type 0
Fits f = length f ≤ max_frame

length-on_wire : (f : Bytes) → length (on_wire f) ≡ 4 + length f
length-on_wire f = ground (
  arith,
  length-append (to_be_bytes (length f % 2 ^ 32)) f,
  length-to_be_bytes (length f % 2 ^ 32),
)

take-on_wire :
    (k : ℕ) (f rest : Bytes)
    → 4 ≤ k
    → k < length (on_wire f)
    → take k (on_wire f ++ rest) ≡ to_be_bytes (length f % 2 ^ 32) ++ take (k - 4) f
take-on_wire k f rest h cut =
    let head = to_be_bytes (length f % 2 ^ 32) in
    let four = length-to_be_bytes (length f % 2 ^ 32) in
    take-append_short k (on_wire f) rest (omega arith)
    ∙ take-append k head f
    ∙ rw (take_all k head (omega (arith, four))) (rw four refl)

-- A frame of which the stream holds only a part is not read.
read_frames_cut :
    (reason : Str) (n k : ℕ) (f rest : Bytes)
    → Fits f
    → k < length (on_wire f)
    → read_frames reason n (take k (on_wire f ++ rest)) ≡ []
unfolding read_frames
read_frames_cut reason zero k f rest h cut = refl
read_frames_cut reason (suc n) k f rest h cut = elim (Bool-cases (leb 4 k)) [
  | inr no_header ↦
      rw
        (
          read_frames,
          read_lp_end reason (take k (on_wire f ++ rest))
              (ground (arith, length-take k (on_wire f ++ rest))),
        )
        refl
  | inl header ↦ rw (take-on_wire k f rest (ground arith) cut) (
      rw
        (
          read_frames,
          read_lp_cut reason (length f % 2 ^ 32) (take (k - 4) f) (omega arith)
              (ground (arith, length-take (k - 4) f, length-on_wire f)),
        )
        refl)
]

-- Whatever part of the frames a stream holds, its reader gets the first of them, whole.
read_frames-take :
    (reason : Str) (n k : ℕ) (fs : List Bytes)
    → All Fits fs
    → (m : ℕ) × (read_frames reason n (take k (all_on_wire fs)) ≡ take m fs)
unfolding read_frames
read_frames-take reason zero k fs h = (0, refl)
read_frames-take reason (suc n) k [] h =
    (0, rw (read_frames, take_nil k) (rw (read_lp_end reason [] (omega arith)) refl))
read_frames-take reason (suc n) k (f ∷ fs) (hf, h) =
    elim (Bool-cases (leb (length (on_wire f)) k)) [
      | inr part ↦ (0, read_frames_cut reason (suc n) k f (all_on_wire fs) hf (ground arith))
      | inl whole ↦
          let (m, same) = read_frames-take reason n (k - length (on_wire f)) fs h in
          (
            suc m,
            rw (take-append k (on_wire f) (all_on_wire fs)) (
                rw (take_all k (on_wire f) (ground arith)) (
                  rw
                    (
                      read_frames,
                      read_lp-on_wire reason f (take (k - length (on_wire f)) (all_on_wire fs)) hf,
                    )
                    (ap (◌∷◌ f) same))),
          )
    ]

-- a connection on which nothing was sent, that breaks after `room` bytes
abbrev pub opened : ℕ → Str → SendStream
opened room fault = record { sent = []; room = room; fault = fault }

-- Wherever a file stream breaks off, its reader gets a first part of the frames that were written, each
-- of them whole and unchanged.
pub read_frames-write_frames :
    (reason fault : Str) (n room : ℕ) (fs : List Bytes)
    → All Fits fs
    → (m : ℕ) × (read_frames reason n (write_frames fs (opened room fault)).0.sent ≡ take m fs)
read_frames-write_frames reason fault n room fs h =
    let (sent, _, _) = write_frames-Took fs (opened room fault) in
    rw sent (read_frames-take reason n room fs h)
