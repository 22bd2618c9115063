-- ===== src/Mailbox/Store/Ack.antt =====
-- `Store::ack` takes the listed messages out of one queue.
use mathlib.Core.List.{append_cancel_right}
use mathlib.Core.Bool.{false≢true}
use seqr.Prelude.{
  ℕ, Str, ◌++◌, ◌≡◌, refl, ap, sym, ◌∙◌, subst, Bool, true, false, not, ◌&&◌, List, [], ◌∷◌, map,
  All, any, arith, retain, str_eq, str_eq_iff, str_eq_refl, Option-cases, Bool-cases, inl, inr,
  All-retain,
}
use seqr.Prelude.Assoc.{remove, keys, keys-remove, lookup-insert, lookup-remove}
use seqr.Prelude.Sort.{sort-retain}
use seqr.Protocol.Requests.{PulledMessage}
use seqr.Mailbox.Store.{
  Dir, Store, msg_suffix, trim_end_matches, valid_id, entries, ends_with, mailbox_dir, ack, ack_ids,
  ack_one,
}
use seqr.Mailbox.Store.Names.{id_of, trim-name, id_of-valid_id}
use seqr.Mailbox.Store.Queue.{queue, queue_of, message, All-entries}
use seqr.Mailbox.Store.Stamped.{
  lookup-IsStampedDir, insert-IsStamped, Stamped, IsStampedDir, IsStamped,
}

retain_comm : (p q : Str → Bool) (xs : List Str) → retain p (retain q xs) ≡ retain q (retain p xs)
retain_comm p q [] = refl
retain_comm p q (x ∷ xs) = ground (arith, retain_comm p q xs)

entries-remove :
    (name : Str) (dir : Dir)
    → entries (remove name dir) ≡ retain (λ n. not (str_eq n name)) (entries dir)
unfolding entries
entries-remove name dir = rw (keys-remove name dir) (
    rw (retain_comm (ends_with msg_suffix) (λ n. not (str_eq n name)) (keys dir))
      (sort-retain (λ n. not (str_eq n name)) (retain (ends_with msg_suffix) (keys dir))))

-- whether a message does not have the id
abbrev pub is_not : Str → PulledMessage → Bool
is_not id m = not (str_eq m.id id)

-- whether none of the ids is the message's
abbrev pub unlisted : List Str → PulledMessage → Bool
unlisted ids m = not (any (λ id. str_eq m.id id) ids)

pub retain_all : (ms : List PulledMessage) → retain (unlisted []) ms ≡ ms
retain_all [] = refl
retain_all (m ∷ ms) = ap (◌∷◌ m) (retain_all ms)

retain-unlisted :
    (id : Str) (ids : List Str) (ms : List PulledMessage)
    → retain (unlisted ids) (retain (is_not id) ms) ≡ retain (unlisted (id ∷ ids)) ms
retain-unlisted id ids [] = refl
retain-unlisted id ids (m ∷ ms) = ground (arith, retain-unlisted id ids ms)

-- A stamped name is its id with the suffix, so removing a file is removing the message with its id.
module _ (now seq : ℕ) where
  trim-Stamped :
      (name : Str) (st : Stamped now seq name)
      → trim_end_matches msg_suffix name ≡ id_of st.t st.s st.u
  trim-Stamped name st =
      subst (λ n. trim_end_matches msg_suffix n ≡ id_of st.t st.s st.u) (sym st.named)
        (trim-name st.t st.s st.u st.fits)

  Stamped-name :
      (name : Str) → Stamped now seq name → trim_end_matches msg_suffix name ++ msg_suffix ≡ name
  Stamped-name name st = ap (λ i. i ++ msg_suffix) (trim-Stamped name st) ∙ sym st.named

  Stamped-valid_id :
      (name : Str) → Stamped now seq name → valid_id (trim_end_matches msg_suffix name) ≡ true
  Stamped-valid_id name st =
      ap valid_id (trim-Stamped name st) ∙ id_of-valid_id st.t st.s st.u st.fits

  same_test :
      (id name : Str)
      → Stamped now seq name
      → str_eq name (id ++ msg_suffix) ≡ str_eq (trim_end_matches msg_suffix name) id
  same_test id name st =
      let there : (name ≡ id ++ msg_suffix) → (trim_end_matches msg_suffix name ≡ id) = λ e.
        append_cancel_right (trim_end_matches msg_suffix name) id msg_suffix
          (Stamped-name name st ∙ e) in
      let back : (trim_end_matches msg_suffix name ≡ id) → (name ≡ id ++ msg_suffix) =
        λ e. sym (Stamped-name name st) ∙ ap (λ i. i ++ msg_suffix) e in
      ground (
        arith,
        there,
        back,
        str_eq_iff name (id ++ msg_suffix),
        str_eq_iff (trim_end_matches msg_suffix name) id,
      )

  messages-remove :
      (id : Str) (dir : Dir) (names : List Str)
      → All (Stamped now seq) names
      → map
          (message (remove (id ++ msg_suffix) dir))
          (retain (λ n. not (str_eq n (id ++ msg_suffix))) names)
        ≡ retain (is_not id) (map (message dir) names)
  messages-remove id dir [] h = refl
  messages-remove id dir (n ∷ names) (hn, h) = ground (
    arith,
    same_test id n hn,
    messages-remove id dir names h,
    lookup-remove (id ++ msg_suffix) n dir,
    str_eq_iff (id ++ msg_suffix) n,
    str_eq_iff n (id ++ msg_suffix),
  )

  -- No message has an id that is not valid.
  invalid_absent :
      (id : Str) (dir : Dir) (names : List Str)
      → valid_id id ≡ false
      → All (Stamped now seq) names
      → retain (is_not id) (map (message dir) names) ≡ map (message dir) names
  invalid_absent id dir [] bad h = refl
  invalid_absent id dir (n ∷ names) bad (hn, h) =
      let ne : trim_end_matches msg_suffix n ≡ id → ⊥ =
        λ e. false≢true (sym bad ∙ (ap valid_id (sym e) ∙ Stamped-valid_id n hn)) in
      ground (
        arith,
        ne,
        str_eq_iff (trim_end_matches msg_suffix n) id,
        invalid_absent id dir names bad h,
      )

  queue-ack_one :
      (id : Str) (dir : Dir)
      → IsStampedDir now seq dir
      → queue (ack_one true dir id) ≡ retain (is_not id) (queue dir)
  unfolding queue ack_one
  queue-ack_one id dir h =
      let all_entries = All-entries (Stamped now seq) dir h in
      elim (Bool-cases (valid_id id)) [
        | inl good ↦ rw good (
            rw (entries-remove (id ++ msg_suffix) dir)
              (messages-remove id dir (entries dir) all_entries))
        | inr bad ↦ rw bad (sym (invalid_absent id dir (entries dir) bad all_entries))
      ]

  ack_one-IsStampedDir :
      (w : Bool) (id : Str) (dir : Dir)
      → IsStampedDir now seq dir
      → IsStampedDir now seq (ack_one w dir id)
  unfolding ack_one
  ack_one-IsStampedDir w id dir h = elim (Bool-cases (valid_id id && w)) [
    | inl removed ↦ rw removed (
        rw (keys-remove (id ++ msg_suffix) dir)
          (All-retain (Stamped now seq) (λ n. not (str_eq n (id ++ msg_suffix))) (keys dir) h))
    | inr kept ↦ rw kept h
  ]

  queue-ack_ids :
      (ids : List Str) (dir : Dir)
      → IsStampedDir now seq dir
      → queue (ack_ids true dir ids) ≡ retain (unlisted ids) (queue dir)
  unfolding ack_ids
  queue-ack_ids [] dir h = sym (retain_all (queue dir))
  queue-ack_ids (id ∷ ids) dir h =
      queue-ack_ids ids (ack_one true dir id) (ack_one-IsStampedDir true id dir h)
      ∙ (ap (retain (unlisted ids)) (queue-ack_one id dir h) ∙ retain-unlisted id ids (queue dir))

  ack_ids-IsStampedDir :
      (w : Bool) (ids : List Str) (dir : Dir)
      → IsStampedDir now seq dir
      → IsStampedDir now seq (ack_ids w dir ids)
  unfolding ack_ids
  ack_ids-IsStampedDir w [] dir h = h
  ack_ids-IsStampedDir w (id ∷ ids) dir h =
      ack_ids-IsStampedDir w ids (ack_one w dir id) (ack_one-IsStampedDir w id dir h)

module _ (now : ℕ) (st : Store) (identity : Str) (ids : List Str) where
  -- In a store that takes writes and whose files were named by pushes, an acknowledgement takes
  -- exactly the listed messages out of the queue, and leaves the others in their order.
  pub ack_lem :
      IsStamped now st
      → st.writable ≡ true
      → queue_of (ack st identity ids) identity ≡ retain (unlisted ids) (queue_of st identity)
  unfolding ack queue_of
  ack_lem stamped w = elim (Option-cases (mailbox_dir st identity)) [
    | inl missing ↦ ground (arith, missing)
    | inr (dir, there) ↦ ground (
      arith,
      there,
      lookup-insert identity identity (ack_ids true dir ids) st.dirs,
      str_eq_refl identity,
      queue-ack_ids now st.seq ids dir
          (lookup-IsStampedDir now st.seq identity st.dirs dir stamped there),
    )
  ]

  -- It leaves every other queue as it was, and keeps the invariant.
  pub ack_other :
      (other : Str)
      → str_eq identity other ≡ false
      → queue_of (ack st identity ids) other ≡ queue_of st other
  unfolding ack queue_of
  ack_other other h = elim (Option-cases (mailbox_dir st identity)) [
    | inl missing ↦ ground (arith, missing)
    | inr (dir, there) ↦
        ground (arith, there, lookup-insert identity other (ack_ids st.writable dir ids) st.dirs)
  ]

  pub ack-IsStamped : IsStamped now st → IsStamped now (ack st identity ids)
  unfolding ack
  ack-IsStamped stamped = elim (Option-cases (mailbox_dir st identity)) [
    | inl missing ↦ rw (missing, ack) stamped
    | inr (dir, there) ↦
        rw (there, ack)
          (insert-IsStamped now st.seq identity st.dirs (ack_ids st.writable dir ids) stamped (
            ack_ids-IsStampedDir now st.seq st.writable ids dir
              (lookup-IsStampedDir now st.seq identity st.dirs dir stamped there)))
  ]
