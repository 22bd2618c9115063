-- ===== src/Mailbox/Store/Stamped.antt =====
-- The invariant of the store's files: each was named by `push`, no later than now.
use mathlib.Core.List.{map-append}
use seqr.Prelude.{
  inr, inl, Bool-cases, ℕ, ◌+◌, ◌≤◌, ◌<◌, Str, ◌≡◌, refl, ap, sym, subst, true, false, List, [],
  ◌∷◌, ◌++◌, map, some, All, arith, retain, any, All-retain, retain-append, str_eq, str_eq_iff,
  str_eq_refl, str_leb, All-append,
}
use seqr.Prelude.Assoc.{Assoc, lookup, insert, keys, keys-insert_new, lookup-insert}
use seqr.Prelude.Sort.{sort-append}
use seqr.Mailbox.Store.{Dir, Store, msg_suffix, entries, ends_with}
use seqr.Mailbox.Store.Names.{
  Fits, id_of, name_of, name_of-le, name_of-ne, trim-name, strip_suffix-append,
}
use seqr.Mailbox.Store.Queue.{queue, message, All-map, All-entries}

pub record Stamped (now seq : ℕ) (name : Str) : Type 0 where
  pub t : ℕ
  pub s : ℕ
  pub u : Str
  pub named : name ≡ name_of t s u
  pub fits : Fits t s u
  pub past : t ≤ now
  pub counted : s < seq

-- every file of the directory
abbrev pub IsStampedDir : ℕ → ℕ → Dir → Type 0
IsStampedDir now seq dir = All (Stamped now seq) (keys dir)

-- every file of the store
abbrev pub IsStamped : ℕ → Store → Type 0
IsStamped now st = All (λ e. IsStampedDir now st.seq e.1) st.dirs

pub Stamped-later :
    {now now' seq seq' : ℕ} (name : Str)
    → now ≤ now'
    → seq ≤ seq'
    → Stamped now seq name
    → Stamped now' seq' name
Stamped-later name h k st = record {
  t = st.t;
  s = st.s;
  u = st.u;
  named = st.named;
  fits = st.fits;
  past = omega arith;
  counted = omega arith;
}

pub lookup-IsStampedDir :
    (now seq : ℕ) (k : Str) (dirs : Assoc Dir) (dir : Dir)
    → All (λ e. IsStampedDir now seq e.1) dirs
    → lookup k dirs ≡ some dir
    → IsStampedDir now seq dir
unfolding lookup
lookup-IsStampedDir now seq k [] dir h e = absurd (ground arith)
lookup-IsStampedDir now seq k ((j, d) ∷ dirs) dir (hd, h) e = elim (Bool-cases (str_eq j k)) [
  | inl here ↦ subst (IsStampedDir now seq) (ground arith) hd
  | inr there ↦ lookup-IsStampedDir now seq k dirs dir h (ground arith)
]

pub insert-IsStamped :
    (now seq : ℕ) (k : Str) (dirs : Assoc Dir) (dir : Dir)
    → All (λ e. IsStampedDir now seq e.1) dirs
    → IsStampedDir now seq dir
    → All (λ e. IsStampedDir now seq e.1) (insert k dir dirs)
unfolding insert
insert-IsStamped now seq k [] dir h hd = (hd, tt)
insert-IsStamped now seq k ((j, d) ∷ dirs) dir (he, h) hd = elim (Bool-cases (str_eq j k)) [
  | inl here ↦ rw here (hd, h)
  | inr there ↦ rw there (he, insert-IsStamped now seq k dirs dir h hd)
]

pub dirs_later :
    {now seq : ℕ} (now' seq' : ℕ) (dirs : Assoc Dir)
    → now ≤ now'
    → seq ≤ seq'
    → All (λ e. IsStampedDir now seq e.1) dirs
    → All (λ e. IsStampedDir now' seq' e.1) dirs
dirs_later now' seq' [] ln ls h = tt
dirs_later now' seq' ((j, d) ∷ dirs) ln ls (hd, h) =
    (All-map (keys d) (λ n. Stamped-later n ln ls) hd, dirs_later now' seq' dirs ln ls h)

-- Time passes, and the files stay stamped.
pub IsStamped-later :
    (now now' : ℕ) (st : Store) → now ≤ now' → IsStamped now st → IsStamped now' st
IsStamped-later now now' st le h = dirs_later now' st.seq st.dirs le (omega arith) h

module _ {now seq : ℕ} {u : Str} (f : Fits now seq u) where
  Stamped-le : (name : Str) → Stamped now seq name → str_leb name (name_of now seq u) ≡ true
  Stamped-le name st =
      subst (λ n. str_leb n (name_of now seq u) ≡ true) (sym st.named)
        (name_of-le st.t now st.s seq st.u u f.clock f.counter st.past st.counted)

  Stamped-ne : (name : Str) → Stamped now seq name → str_eq name (name_of now seq u) ≡ false
  Stamped-ne name st =
      subst (λ n. str_eq n (name_of now seq u) ≡ false) (sym st.named)
        (name_of-ne st.t now st.s seq st.u u st.fits f st.counted)

  any_new :
      (names : List Str)
      → All (Stamped now seq) names
      → any (λ j. str_eq j (name_of now seq u)) names ≡ false
  any_new [] h = refl
  any_new (n ∷ names) (hn, h) = ground (arith, Stamped-ne n hn, any_new names h)

  ends_with_msg : ends_with msg_suffix (name_of now seq u) ≡ true
  ends_with_msg = ground (arith, strip_suffix-append (id_of now seq u) msg_suffix)

  -- A new file is the last of the entries.
  entries-insert :
      (dir : Dir) (payload : Str)
      → IsStampedDir now seq dir
      → entries (insert (name_of now seq u) payload dir) ≡ entries dir ++ name_of now seq u ∷ []
  unfolding entries
  entries-insert dir payload h =
      rw (keys-insert_new (name_of now seq u) payload dir (any_new (keys dir) h)) (
        rw (retain-append (ends_with msg_suffix) (keys dir) (name_of now seq u ∷ [])) (
          rw ends_with_msg (
            sort-append (retain (ends_with msg_suffix) (keys dir)) (name_of now seq u) (
              All-retain (λ n. str_leb n (name_of now seq u) ≡ true) (ends_with msg_suffix)
                (keys dir) (All-map (keys dir) Stamped-le h)))))

  messages-insert :
      (dir : Dir) (payload : Str) (names : List Str)
      → All (Stamped now seq) names
      → map (message (insert (name_of now seq u) payload dir)) names ≡ map (message dir) names
  messages-insert dir payload [] h = refl
  messages-insert dir payload (n ∷ names) (hn, h) = ground (
    arith,
    messages-insert dir payload names h,
    Stamped-ne n hn,
    str_eq_iff n (name_of now seq u),
    str_eq_iff (name_of now seq u) n,
    lookup-insert (name_of now seq u) n payload dir,
  )

  message-insert :
      (dir : Dir) (payload : Str)
      → message (insert (name_of now seq u) payload dir) (name_of now seq u)
        ≡ record { id = id_of now seq u; payload = payload }
  message-insert dir payload = ground (
    arith,
    trim-name now seq u f,
    lookup-insert (name_of now seq u) (name_of now seq u) payload dir,
    str_eq_refl (name_of now seq u),
  )

  -- A new file is a new message at the end of the queue.
  pub queue-insert :
      (dir : Dir) (payload : Str)
      → IsStampedDir now seq dir
      → queue (insert (name_of now seq u) payload dir)
        ≡ queue dir ++ record { id = id_of now seq u; payload = payload } ∷ []
  unfolding queue
  queue-insert dir payload h = rw (entries-insert dir payload h) (
      rw (map-append) (
        rw (messages-insert dir payload (entries dir) (All-entries (Stamped now seq) dir h))
          (ap (λ m. map (message dir) (entries dir) ++ m ∷ []) (message-insert dir payload))))

  pub insert-IsStampedDir :
      (dir : Dir) (payload : Str)
      → IsStampedDir now seq dir
      → IsStampedDir now (seq + 1) (insert (name_of now seq u) payload dir)
  insert-IsStampedDir dir payload h =
      rw (keys-insert_new (name_of now seq u) payload dir (any_new (keys dir) h)) (
        All-append (Stamped now (seq + 1)) (keys dir) (name_of now seq u ∷ [])
          (All-map (keys dir) (λ n. Stamped-later n (omega arith) (omega arith)) h) (new, tt))
    where
      new : Stamped now (seq + 1) (name_of now seq u)
      new = record {
        t = now;
        s = seq;
        u = u;
        named = refl;
        fits = f;
        past = omega arith;
        counted = omega arith;
      }
