-- ===== src/Net/Attachments/Chunks.antt =====
-- The chunks of an attachment that come in as packets, up to the message that records it.
use seqr.Prelude.{
  ℕ, ◌*◌, ◌^◌, ◌≤◌, ◌<◌, ◌≡◌, ◌≢◌, refl, sym, ap, ◌∙◌, subst, Bytes, true, false, List, [], ◌∷◌,
  none, some, ◌==◌, length, map, All, All-append, arith, Bool-cases, inl, inr, ◌⊎◌, str_eq_iff,
}
use seqr.Prelude.Assoc.{lookup, remove, lookup-insert, lookup-remove}
use seqr.Prelude.Positions.{among, le-length_of_among, length-le_of_IsDistinct}
use seqr.Prelude.Result.{ok}
use seqr.Core.Attachment.{chunk_size, seal_chunk}
use seqr.Core.Attachment.Rest.{read_rest_bytes}
use seqr.Core.Attachment.Rest.RoundTrip.{SmallTag}
use seqr.Core.Attachment.Reassembly.{Reassembler, add_chunk, is_complete, finalize}
use seqr.Core.Attachment.Reassembly.AnyOrder.{part}
use seqr.Core.Attachment.Reassembly.Complete.{IsPartial, IsPartial-whole, sent, add_chunk-IsPartial}
use seqr.Core.Attachment.Reassembly.Stored.{IsStored, add_chunk_fixed, finalize-whole}
use seqr.Core.Packet.{AttachmentChunk}
use seqr.Core.Serde.{Serde}
use seqr.Core.Vault.{add_message}
use seqr.Crypto.Aead.{nonce_len, seal}
use seqr.Crypto.Primitives.{Primitives, HexLaws, SchemeLaws, IsBytes}
use seqr.Net.{Unlocked}
use seqr.Net.Attachments.OneChunk.{
  IsBytes-take, IsBytes-drop, chunk_at-kept, chunk_at_complete, noted, record_message-unlocked,
}
use seqr.Net.Attachments.{Node, Moment, finish, chunk_at, handle_attachment_chunk}

module _ ⦃p : Primitives⦄ ⦃s : Serde⦄ where
  -- the packet of a chunk
  abbrev pub packet : (ℕ → Bytes) → Bytes → Reassembler → ℕ → AttachmentChunk
  packet nonces whole r index = record {
    att_id = r.info.id;
    index = index;
    data' = p.hex_encode (sent nonces whole r index);
  }

  -- packets of chunks that come in one after the other, each at its moment
  unfoldable pub on_chunks : (ℕ → Bytes) → Bytes → Reassembler → List (Moment × ℕ) → Node → Node
  on_chunks nonces whole r [] node = node
  on_chunks nonces whole r ((at, index) ∷ rest) node =
      on_chunks nonces whole r rest
        (handle_attachment_chunk at (packet nonces whole r index) node).0

  module _ (hex : HexLaws p) (scheme : SchemeLaws p) (small : SmallTag p) (nonces : ℕ → Bytes)
      (twelve : (i : ℕ) → length (nonces i) ≡ nonce_len) (bytes : (i : ℕ) → IsBytes (nonces i))
      (whole : Bytes) (plain : IsBytes whole) (r₀ : Reassembler) (u : Unlocked) where
    sent-IsBytes : (index : ℕ) → IsBytes (sent nonces whole r₀ index)
    unfolding seal_chunk seal
    sent-IsBytes index =
        All-append (λ b. b < 256) (nonces index) _ (bytes index)
          (scheme.encrypt-IsBytes _ _ (part whole index) _
            (IsBytes-take chunk_size _ (IsBytes-drop (index * chunk_size) whole plain)))

    handle_attachment_chunk-at :
        (at : Moment) (index : ℕ) (r : Reassembler) (node : Node)
        → lookup r₀.info.id node.reassembly ≡ some r
        → handle_attachment_chunk at (packet nonces whole r₀ index) node
          ≡ chunk_at at r₀.info.id index (sent nonces whole r₀ index) r node
    unfolding handle_attachment_chunk
    handle_attachment_chunk-at at index r node known =
        rw
          (
            handle_attachment_chunk,
            hex.decode-encode (sent nonces whole r₀ index) (sent-IsBytes index),
          )
          (rw known refl)

    handle_attachment_chunk_late :
        (at : Moment) (index : ℕ) (node : Node)
        → lookup r₀.info.id node.reassembly ≡ none
        → (handle_attachment_chunk at (packet nonces whole r₀ index) node).0 ≡ node
    unfolding handle_attachment_chunk
    handle_attachment_chunk_late at index node gone =
        rw
          (
            handle_attachment_chunk,
            hex.decode-encode (sent nonces whole r₀ index) (sent-IsBytes index),
          )
          (rw gone refl)

    -- on its way: some chunks are missing, and what is not about them is as it was
    pub record IsGoing (seen : List ℕ) (node : Node) : Type 0 where
      pub received : List ℕ
      pub known : lookup r₀.info.id node.reassembly ≡ some (record r₀ { received = received })
      pub partial : IsPartial whole (record r₀ { received = received }) node.files
      pub missing : is_complete (record r₀ { received = received }) ≡ false
      pub has : (i : ℕ) → among i seen ≡ true → among i received ≡ true
      pub takes : node.files.refuses ≡ none
      pub unlocked : node.session.unlocked ≡ some u

    -- finished: the file is at rest, and one message more is in the history
    pub record IsFinished (node : Node) : Type 0 where
      pub gone : lookup r₀.info.id node.reassembly ≡ none
      pub stored : read_rest_bytes r₀.vault_key r₀.info.id r₀.final_path node.files ≡ ok whole
      pub at : Moment
      pub noted_once :
          node.session.unlocked ≡ some (record u { data' = add_message (noted at r₀) u.data' })

    finish-IsFinished :
        (at : Moment) (received : List ℕ) (node : Node)
        → lookup r₀.info.id node.reassembly ≡ none
        → node.session.unlocked ≡ some u
        → IsStored whole r₀ (finalize at.at_rest (record r₀ { received = received }) node.files)
        → IsFinished (finish at (record r₀ { received = received }) node).0
    unfolding finish
    finish-IsFinished at received node gone open_now (done, read, _) =
        let files' = (finalize at.at_rest (record r₀ { received = received }) node.files).0 in
        let (noted_once, same_files, same_map) =
          record_message-unlocked u at (noted at r₀) (record node { files = files' }) open_now in
        rw (finish, done)
          (record {
            gone = ap (lookup r₀.info.id) same_map ∙ gone;
            stored = ap (read_rest_bytes r₀.vault_key r₀.info.id r₀.final_path) same_files ∙ read;
            at = at;
            noted_once = noted_once;
          })

    module _ (apart : r₀.temp_path ≢ r₀.final_path) (bound : r₀.expected < 2 ^ 32)
        (enough : length whole ≤ r₀.expected * chunk_size) where
      -- a chunk of the attachment, with nonces of 12 bytes for its records at rest
      abbrev pub Arrival : Moment × ℕ → Type 0
      Arrival (at, index) = ((i : ℕ) → length (at.at_rest i) ≡ nonce_len) × (index < r₀.expected)

      IsGoing-step :
          (at : Moment) (index : ℕ) (seen : List ℕ) (node : Node)
          → ((i : ℕ) → length (at.at_rest i) ≡ nonce_len)
          → index < r₀.expected
          → IsGoing seen node
          → let node' = (handle_attachment_chunk at (packet nonces whole r₀ index) node).0 in
            IsGoing (index ∷ seen) node' ⊎ IsFinished node'
      IsGoing-step at index seen node twelve_rest inside going =
          let r : Reassembler = record r₀ { received = going.received } in
          let ct = sent nonces whole r₀ index in
          let out = add_chunk index ct r node.files in
          let handled = handle_attachment_chunk-at at index r node going.known in
          let step =
            add_chunk-IsPartial nonces whole scheme twelve index r node.files inside
              going.partial in
          let (same, takes) = add_chunk_fixed index ct r node.files in
          elim (Bool-cases (is_complete out.0)) [
            | inr more ↦
                let kept = chunk_at-kept at r₀.info.id index ct r node (step.counts ∙ ap ok more) in
                inl (
                  rw handled (
                    rw kept (record {
                      received = out.0.received;
                      known =
                          ground (
                            arith,
                            lookup-insert r₀.info.id r₀.info.id out.0 node.reassembly,
                            str_eq_iff r₀.info.id r₀.info.id,
                          )
                          ∙ ap some same;
                      partial =
                          subst (λ (q : Reassembler). IsPartial whole q out.1) same step.partial;
                      missing = subst (λ (q : Reassembler). is_complete q ≡ false) same more;
                      has = λ i h. step.has i (earlier i index seen going.received going.has h);
                      takes = takes ∙ going.takes;
                      unlocked = going.unlocked;
                    })))
            | inl all ↦
                let complete =
                  chunk_at_complete at r₀.info.id index ct r node (step.counts ∙ ap ok all) in
                let node' : Node = record node {
                  files = out.1;
                  reassembly = remove r₀.info.id node.reassembly;
                } in
                let r' : Reassembler = record r₀ { received = out.0.received } in
                let there =
                  IsPartial-whole whole r' out.1 bound enough
                    (subst (λ (q : Reassembler). IsPartial whole q out.1) same step.partial)
                    (subst (λ (q : Reassembler). is_complete q ≡ true) same all) in
                inr (
                  rw handled (
                    rw complete (
                      subst (λ (q : Reassembler). IsFinished (finish at q node').0) (sym same)
                        (finish-IsFinished at out.0.received node'
                          (ground (
                            arith,
                            lookup-remove r₀.info.id r₀.info.id node.reassembly,
                            str_eq_iff r₀.info.id r₀.info.id,
                          ))
                          going.unlocked
                          (finalize-whole nonces whole scheme small twelve at.at_rest twelve_rest r'
                            out.1 (takes ∙ going.takes) there apart)))))
          ]
        where
          earlier :
              (i index : ℕ) (seen received : List ℕ)
              → ((i : ℕ) → among i seen ≡ true → among i received ≡ true)
              → among i (index ∷ seen) ≡ true
              → ((index == i) ≡ true) ⊎ (among i received ≡ true)
          earlier i index seen received f h = elim (Bool-cases (index == i)) [
            | inl here ↦ inl here
            | inr other ↦ inr (f i (ground (arith, h, other)))
          ]

      on_chunks_late :
          (order : List (Moment × ℕ)) (node : Node)
          → lookup r₀.info.id node.reassembly ≡ none
          → on_chunks nonces whole r₀ order node ≡ node
      unfolding on_chunks
      on_chunks_late [] node gone = refl
      on_chunks_late ((at, index) ∷ rest) node gone =
          rw (handle_attachment_chunk_late at index node gone) (on_chunks_late rest node gone)

      on_chunks-IsGoing :
          (order : List (Moment × ℕ)) (seen : List ℕ) (node : Node)
          → All Arrival order
          → IsGoing seen node
          → let end = on_chunks nonces whole r₀ order node in
            ((seen' : List ℕ) × ((i : ℕ)
                → (among i (map (λ x. x.1) order) ≡ true) ⊎ (among i seen ≡ true)
                → among i seen' ≡ true)
              × IsGoing seen' end)
            ⊎ IsFinished end
      unfolding on_chunks
      on_chunks-IsGoing [] seen node h going =
          inl (seen, λ i e. elim e [ inl bad ↦ absurd (ground arith) | inr old ↦ old ], going)
      on_chunks-IsGoing ((at, index) ∷ rest) seen node ((twelve_rest, inside), h) going =
          let node' = (handle_attachment_chunk at (packet nonces whole r₀ index) node).0 in
          elim (IsGoing-step at index seen node twelve_rest inside going) [
            | inr finished ↦ inr (rw (on_chunks_late rest node' finished.gone) finished)
            | inl still ↦ elim (on_chunks-IsGoing rest (index ∷ seen) node' h still) [
              | inr finished ↦ inr finished
              | inl (seen', all, going') ↦ inl (seen', λ i e. all i (ground (arith, e)), going')
            ]
          ]

      -- The packets of an attachment's chunks, all of them at least once and in any order: in the end the
      -- file is at rest under the vault's key, the history has exactly one message more, the one that
      -- records the attachment, and packets that come later change nothing.
      pub on_chunks-IsFinished :
          (order : List (Moment × ℕ)) (node : Node)
          → All Arrival order
          → IsGoing [] node
          → ((i : ℕ) → i < r₀.expected → among i (map (λ x. x.1) order) ≡ true)
          → IsFinished (on_chunks nonces whole r₀ order node)
      on_chunks-IsFinished order node h start all = elim (on_chunks-IsGoing order [] node h start) [
        | inr finished ↦ finished
        | inl (seen, seen_all, going) ↦
            let came =
              λ (i : ℕ) (below : i < r₀.expected). going.has i (seen_all i (inl (all i below))) in
            let least = le-length_of_among r₀.expected going.received came in
            let most =
              length-le_of_IsDistinct r₀.expected going.received going.partial.distinct
                going.partial.below in
            absurd (ground (arith, going.missing))
      ]
