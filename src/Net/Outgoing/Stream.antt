-- ===== src/Net/Outgoing/Stream.antt =====
-- A file stream between two peers: what the receiver makes of what the sender wrote.
use seqr.Prelude.{
  ℕ, zero, suc, ◌+◌, ◌*◌, ◌≤◌, ◌<◌, ◌≡◌, refl, sym, ap, ◌∙◌, subst, Bytes, Str, Bool, true, List,
  [], ◌∷◌, ◌++◌, length, drop, All, arith, Bool-cases, inl, inr, append_assoc, length-append, ◌==◌,
  drop_nil, length-take,
}
use seqr.Prelude.Positions.{among}
use seqr.Prelude.Result.{ok}
use seqr.Core.Attachment.{chunk_size, chunk_aad, seal_chunk, open_chunk-seal_chunk}
use seqr.Core.Attachment.Files.{Files}
use seqr.Core.Attachment.Rest.{fill}
use seqr.Core.Attachment.Rest.RoundTrip.{SmallTag}
use seqr.Core.Attachment.Reassembly.{Reassembler, add_chunk, is_complete}
use seqr.Core.Attachment.Reassembly.AnyOrder.{part}
use seqr.Core.Attachment.Reassembly.Complete.{sent, arrive}
use seqr.Core.Attachment.Reassembly.Stored.{add_chunk_fixed}
use seqr.Core.Transport.{max_frame, on_wire, read_lp-on_wire}
use seqr.Crypto.Aead.{nonce_len, seal}
use seqr.Crypto.Primitives.{Primitives, SchemeLaws}
use seqr.Net.Attachments.{receive_chunks}
use seqr.Net.Outgoing.{sealed_chunks}

drop-drop : (m n : ℕ) (b : Bytes) → drop n (drop m b) ≡ drop (m + n) b
drop-drop zero n b = ap (λ k. drop k b) (omega arith)
drop-drop (suc m) n [] = drop_nil n ∙ sym (drop_nil (suc m + n))
drop-drop (suc m) n (x ∷ b) =
    let e : suc (m + n) ≡ suc m + n = omega arith in
    subst (λ k. drop n (drop m b) ≡ drop k (x ∷ b)) e (drop-drop m n b)

abbrev pub wire : List Bytes → Bytes
wire [] = []
wire (f ∷ fs) = on_wire f ++ wire fs

-- the indices from one on
abbrev pub from : ℕ → ℕ → List ℕ
from zero index = []
from (suc n) index = index ∷ from n (index + 1)

pub from-below : (n index bound : ℕ) → index + n ≤ bound → All (λ i. i < bound) (from n index)
from-below zero index bound h = tt
from-below (suc n) index bound h = (omega arith, from-below n (index + 1) bound (omega arith))

pub among-from : (n index i : ℕ) → index ≤ i → i < index + n → among i (from n index) ≡ true
among-from zero index i le h = absurd (omega arith)
among-from (suc n) index i le h = elim (Bool-cases (index == i)) [
  | inl here ↦ rw here refl
  | inr later ↦ rw later (among-from n (index + 1) i (ground arith) (omega arith))
]

module _ ⦃p : Primitives⦄ (scheme : SchemeLaws p) (small : SmallTag p) (nonces : ℕ → Bytes)
    (twelve : (i : ℕ) → length (nonces i) ≡ nonce_len) (whole : Bytes) where
  add_chunk-sent :
      (index : ℕ) (r : Reassembler) (fs : Files)
      → (b : Bool) × ((add_chunk index (sent nonces whole r index) r fs).2 ≡ ok b)
  unfolding add_chunk
  add_chunk-sent index r fs = elim (Bool-cases (among index r.received)) [
    | inl known ↦ (is_complete r, rw (add_chunk, known) refl)
    | inr new ↦ (
      is_complete (record r { received = index ∷ r.received }),
      rw (add_chunk, new)
          (rw
            (open_chunk-seal_chunk scheme (nonces index) r.key r.info.id index (part whole index)
              (twelve index))
            refl),
    )
  ]

  length-sent : (r : Reassembler) (index : ℕ) → length (sent nonces whole r index) ≤ max_frame
  unfolding seal_chunk seal
  length-sent r index =
      let plain = part whole index in
      omega (
        arith,
        length-append (nonces index)
            (p.chacha_encrypt r.key (nonces index) plain (chunk_aad r.info.id index)),
        twelve index,
        small r.key (nonces index) plain (chunk_aad r.info.id index),
        length-take chunk_size (drop (index * chunk_size) whole),
      )

  -- the frames of a file's chunks, as a sender with the reassembler's key makes them
  abbrev pub frames : Reassembler → ℕ → ℕ → List Bytes
  frames r n index = sealed_chunks nonces r.key r.info.id n index (drop (index * chunk_size) whole)

  frames-suc :
      (r : Reassembler) (n index : ℕ)
      → frames r (suc n) index ≡ sent nonces whole r index ∷ frames r n (index + 1)
  unfolding sealed_chunks fill
  frames-suc r n index =
      ap (λ b. sent nonces whole r index ∷ sealed_chunks nonces r.key r.info.id n (index + 1) b)
        (drop-drop (index * chunk_size) chunk_size whole ∙ ap (λ k. drop k whole) (omega arith))

  -- The chunks that one side writes to a file stream arrive at the other side's reassembler, in order, each
  -- once.
  pub receive_chunks-sealed_chunks :
      (reason : Str) (n index : ℕ) (rest : Bytes) (r : Reassembler) (fs : Files)
      → receive_chunks reason n index (wire (frames r n index) ++ rest) r fs ≡ (
        (arrive nonces whole (from n index) r fs).0,
        (arrive nonces whole (from n index) r fs).1,
        true,
      )
  unfolding receive_chunks arrive
  receive_chunks-sealed_chunks reason zero index rest r fs = refl
  receive_chunks-sealed_chunks reason (suc n) index rest r fs =
      let out = add_chunk index (sent nonces whole r index) r fs in
      let (b, added) = add_chunk-sent index r fs in
      let (same, _) = add_chunk_fixed index (sent nonces whole r index) r fs in
      let same_frames : frames out.0 n (index + 1) ≡ frames r n (index + 1) =
        ap (λ (q : Reassembler). frames q n (index + 1)) same in
      let next = receive_chunks-sealed_chunks reason n (index + 1) rest out.0 out.1 in
      rw (frames-suc r n index) (
        rw (append_assoc (on_wire (sent nonces whole r index)) (wire (frames r n (index + 1))) rest)
          (rw
            (
              receive_chunks,
              read_lp-on_wire reason (sent nonces whole r index)
                  (wire (frames r n (index + 1)) ++ rest) (length-sent r index),
            )
            (rw added (
              subst
                (λ fs'. receive_chunks reason n (index + 1) (wire fs' ++ rest) out.0 out.1 ≡ (
                  (arrive nonces whole (from n (index + 1)) out.0 out.1).0,
                  (arrive nonces whole (from n (index + 1)) out.0 out.1).1,
                  true,
                ))
                same_frames next))))
