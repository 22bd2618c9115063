-- ===== src/Mailbox/Store/Push.antt =====
-- `Store::push` adds one message at the end of one queue.
use seqr.Prelude.Sort.{sort}
use seqr.Prelude.{
  length-take, ℕ, ◌+◌, ◌<◌, ◌^◌, ◌%◌, Bytes, Str, length, take, ◌≡◌, refl, ap, sym, ◌∙◌, subst,
  true, false, [], ◌∷◌, ◌++◌, none, some, arith, str_eq, str_eq_refl, Option-cases, inl, inr,
}
use seqr.Prelude.Assoc.{insert, lookup-insert}
use seqr.Prelude.Result.{ok}
use seqr.Crypto.Keys.{generate_group_key}
use seqr.Crypto.Primitives.{Primitives, HexLaws, IsBytes}
use seqr.Mailbox.Store.{
  entries, Dir, Store, msg_suffix, valid_id, mailbox_dir, set_dir, create_dir_all, push, new_id,
  random_suffix,
}
use seqr.Mailbox.Store.Names.{Fits, id_of-valid_id}
use seqr.Mailbox.Store.Queue.{All-take, queue, queue_of}
use seqr.Mailbox.Store.Stamped.{
  dirs_later, lookup-IsStampedDir, insert-IsStamped, IsStampedDir, IsStamped, queue-insert,
  insert-IsStampedDir,
}

-- Creating a mailbox changes neither the counter nor any other mailbox, and finds the one there is.
record Created (st st' : Store) (identity : Str) (dir : Dir) : Type 0 where
  same_seq : st'.seq ≡ st.seq
  same_writable : st'.writable ≡ st.writable
  others :
      (other : Str) → str_eq identity other ≡ false → mailbox_dir st' other ≡ mailbox_dir st other
  found : queue dir ≡ queue_of st identity
  stamped : (now : ℕ) → IsStamped now st → IsStampedDir now st.seq dir × IsStamped now st'

Created-there :
    (st : Store) (identity : Str) (dir : Dir)
    → mailbox_dir st identity ≡ some dir
    → Created st st identity dir
unfolding queue_of
Created-there st identity dir there = record {
  same_seq = refl;
  same_writable = refl;
  others = λ other h. refl;
  found = ground (arith, there);
  stamped = λ now h. (lookup-IsStampedDir now st.seq identity st.dirs dir h there, h);
}

queue-nil : queue [] ≡ []
unfolding queue entries sort
queue-nil = refl

Created-new :
    (st : Store) (identity : Str)
    → mailbox_dir st identity ≡ none
    → Created st (set_dir st identity []) identity []
unfolding queue_of
Created-new st identity missing = record {
  same_seq = refl;
  same_writable = refl;
  others = λ other h. ground (arith, lookup-insert identity other [] st.dirs);
  found = ground (arith, queue-nil, missing);
  stamped = λ now h. (tt, insert-IsStamped now st.seq identity st.dirs [] h tt);
}

-- On a file system that can be written to, the mailbox is there or gets created.
create_dir_all-Created :
    (st : Store) (identity : Str)
    → st.writable ≡ true
    → (st' : Store) × (dir : Dir) × (create_dir_all st identity ≡ ok (st', dir))
      × Created st st' identity dir
unfolding create_dir_all
create_dir_all-Created st identity w = elim (Option-cases (mailbox_dir st identity)) [
  | inl missing ↦ (set_dir st identity [], [], ground arith, Created-new st identity missing)
  | inr (dir, there) ↦ (st, dir, ground arith, Created-there st identity dir there)
]

module _ ⦃p : Primitives⦄ (st : Store) (now : ℕ) (random : Bytes) (identity payload : Str) where
  -- What a push leaves: the file written into the mailbox, and the counter one further.
  record Written (id : Str) (st' : Store) (dir : Dir) : Type 0 where
    created : Created st st' identity dir
    result : push st now random identity payload ≡ (
      set_dir
          (record st' { seq = (st.seq + 1) % 2 ^ 64 })
          identity
          (insert (id ++ msg_suffix) payload dir),
      ok id,
    )

  push-Written :
      st.writable ≡ true → (st' : Store) × (dir : Dir) × Written (new_id now st.seq random) st' dir
  unfolding push
  push-Written w =
      let (st', dir, done, created) = create_dir_all-Created st identity w in
      (
        st',
        dir,
        record {
          created = created;
          result = rw (done, push) (ground (arith, created.same_seq, created.same_writable, w));
        },
      )

  -- the store and the id of a push that the file system takes
  abbrev pub pushed : Store
  pushed = (push st now random identity payload).0

  abbrev pub id : Str
  id = new_id now st.seq random

  module _ (laws : HexLaws p) (bytes : IsBytes random) (size : length random ≡ 32)
      (early : now < 10 ^ 13) (few : st.seq < 10 ^ 10) where
    fits : Fits now st.seq (random_suffix random)
    unfolding random_suffix generate_group_key
    fits = record {
      clock = early;
      counter = few;
      sixteen = omega (arith, laws.length-encode (take 8 random), length-take 8 random, size);
      lower = laws.encode-lower (take 8 random) (All-take (λ b. b < 256) 8 random bytes);
    }

    after : Store → Dir → Store
    after st' dir =
        set_dir (record st' { seq = (st.seq + 1) % 2 ^ 64 }) identity
          (insert (id ++ msg_suffix) payload dir)

    queue-after :
        {st' : Store} {dir : Dir}
        → IsStamped now st
        → Created st st' identity dir
        → queue_of (after st' dir) identity
          ≡ queue_of st identity ++ record { id = id; payload = payload } ∷ []
    unfolding after new_id queue_of
    queue-after {st'} {dir} stamped created = ground (
      arith,
      lookup-insert identity identity (insert (id ++ msg_suffix) payload dir) st'.dirs,
      str_eq_refl identity,
      queue-insert fits dir payload (created.stamped now stamped).0,
      created.found,
    )

    after-IsStamped :
        {st' : Store} {dir : Dir}
        → IsStamped now st
        → Created st st' identity dir
        → IsStamped now (after st' dir)
    unfolding after new_id
    after-IsStamped {st'} {dir} stamped created =
        let next : (st.seq + 1) % 2 ^ 64 ≡ st.seq + 1 = omega arith in
        let (dir_stamped, st'_stamped) = created.stamped now stamped in
        rw next (
          insert-IsStamped now (st.seq + 1) identity st'.dirs
            (insert (id ++ msg_suffix) payload dir)
            (dirs_later now (st.seq + 1) st'.dirs (omega arith) (omega (arith, created.same_seq))
              st'_stamped)
            (insert-IsStampedDir fits dir payload dir_stamped))

    -- In a store that takes writes and whose files were named by pushes no later than now, with a
    -- clock that fits 13 digits and a counter that fits 10, a push succeeds with a valid id and
    -- adds its message at the end of the queue of its identity. The files stay named by pushes.
    pub push_lem :
        IsStamped now st
        → st.writable ≡ true
        → (push st now random identity payload ≡ (pushed, ok id))
          × (valid_id id ≡ true)
          × (queue_of pushed identity
              ≡ queue_of st identity ++ record { id = id; payload = payload } ∷ [])
          × IsStamped now pushed
          × (pushed.seq ≡ st.seq + 1)
          × (pushed.writable ≡ true)
    unfolding after new_id
    push_lem stamped w =
        let (st', dir, written) = push-Written w in
        let same : pushed ≡ after st' dir = ap (λ r. r.0) written.result in
        (
          written.result ∙ ap (λ s. (s, ok id)) (sym same),
          id_of-valid_id now st.seq (random_suffix random) fits,
          subst
              (λ s.
                queue_of s identity
                ≡ queue_of st identity ++ record { id = id; payload = payload } ∷ [])
              (sym same) (queue-after stamped written.created),
          subst (IsStamped now) (sym same) (after-IsStamped stamped written.created),
          ap (λ s. s.seq) same ∙ omega arith,
          ap (λ s. s.writable) same ∙ (written.created.same_writable ∙ w),
        )

  mailbox_dir-push_other :
      (other : Str)
      → str_eq identity other ≡ false
      → mailbox_dir pushed other ≡ mailbox_dir st other
  unfolding push create_dir_all
  mailbox_dir-push_other other h = elim (Option-cases (mailbox_dir st identity)) [
    | inl missing ↦ ground (
      arith,
      missing,
      lookup-insert identity other [] st.dirs,
      lookup-insert identity other (insert (id ++ msg_suffix) payload [])
          (insert identity [] st.dirs),
    )
    | inr (dir, there) ↦
        ground (
          arith,
          there,
          lookup-insert identity other (insert (id ++ msg_suffix) payload dir) st.dirs,
        )
  ]

  -- A push to one identity leaves the queue of every other as it was, whether it succeeds or not.
  pub push_other :
      (other : Str) → str_eq identity other ≡ false → queue_of pushed other ≡ queue_of st other
  unfolding queue_of
  push_other other h = rw (mailbox_dir-push_other other h, queue_of)
