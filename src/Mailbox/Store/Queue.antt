-- ===== src/Mailbox/Store/Queue.antt =====
-- A mailbox as a queue: its messages in the order of their names. Pulling reads the front of the
-- queue, or fails where a file cannot be read.
use seqr.Prelude.{
  ℕ, zero, suc, Str, take, ◌≡◌, refl, ap, sym, ◌∙◌, true, List, [], ◌∷◌, map, none, some, All,
  arith, any, All-retain, str_eq, str_eq_refl, Option-cases, inl, inr,
}
use seqr.Prelude.Assoc.{lookup, keys}
use seqr.Prelude.Result.{ok, >>=-eq-ok}
use seqr.Prelude.Sort.{sort, insert_sorted}
use seqr.Protocol.Requests.{PulledMessage}
use seqr.Mailbox.Store.{
  Dir, Store, read_to_string, msg_suffix, trim_end_matches, read_all, entries, pull, ends_with,
  mailbox_dir,
}

-- the content of a file, empty if there is no such file
abbrev pub content : Dir → Str → Str
content dir name = elim (lookup name dir) [ none ↦ [] | some payload ↦ payload ]

abbrev pub message : Dir → Str → PulledMessage
message dir name = record { id = trim_end_matches msg_suffix name; payload = content dir name }

-- the specification of a mailbox: what it holds, oldest first
unfoldable pub queue : Dir → List PulledMessage
queue dir = map (message dir) (entries dir)

-- the queue of an identity, empty if it has no mailbox yet
unfoldable pub queue_of : Store → Str → List PulledMessage
unfolding queue
queue_of st identity = elim (mailbox_dir st identity) [ none ↦ [] | some dir ↦ queue dir ]

abbrev IsPresent : Dir → Str → Type 0
IsPresent dir name = any (λ j. str_eq j name) (keys dir) ≡ true

module _ (P : Str → Type 0) where
  All-insert_sorted : (x : Str) (ys : List Str) → P x → All P ys → All P (insert_sorted x ys)
  unfolding insert_sorted
  All-insert_sorted x [] px h = (px, tt)
  All-insert_sorted x (y ∷ ys) px (py, h) = ground (arith, All-insert_sorted x ys px h)

  pub All-sort : (xs : List Str) → All P xs → All P (sort xs)
  unfolding sort
  All-sort [] h = tt
  All-sort (x ∷ xs) (px, h) = All-insert_sorted x (sort xs) px (All-sort xs h)

  -- Whatever holds of all file names holds of the entries.
  pub All-entries : (dir : Dir) → All P (keys dir) → All P (entries dir)
  unfolding entries
  All-entries dir h = All-sort _ (All-retain P (ends_with msg_suffix) (keys dir) h)

pub All-map : {P Q : Str → Type 0} (xs : List Str) → ((x : Str) → P x → Q x) → All P xs → All Q xs
All-map [] f h = tt
All-map (x ∷ xs) f (px, h) = (f x px, All-map xs f h)

keys-IsPresent : (dir : Dir) → All (IsPresent dir) (keys dir)
keys-IsPresent [] = tt
keys-IsPresent ((j, v) ∷ dir) = (
  ground (arith, str_eq_refl j),
  All-map (keys dir) (λ name h. ground (arith, h)) (keys-IsPresent dir),
)

lookup_of_present :
    (dir : Dir) (name : Str) → IsPresent dir name → lookup name dir ≡ some (content dir name)
unfolding lookup
lookup_of_present [] name h = ground arith
lookup_of_present ((j, v) ∷ dir) name h = ground (arith, lookup_of_present dir name)

read_all_lem :
    (dir : Dir) (names : List Str)
    → All (IsPresent dir) names
    → read_all [] dir names ≡ ok (map (message dir) names)
unfolding read_all
read_all_lem dir [] h = refl
read_all_lem dir (name ∷ names) (hn, h) =
    rw (lookup_of_present dir name hn) (rw (read_all_lem dir names h) refl)

map-take {ℓ κ} :
    {A : Type ℓ} {B : Type κ} (f : A → B) (n : ℕ) (xs : List A)
    → map f (take n xs) ≡ take n (map f xs)
map-take f zero xs = refl
map-take f (suc n) [] = refl
map-take f (suc n) (x ∷ xs) = ap (◌∷◌ (f x)) (map-take f n xs)

pub All-take {ℓ} :
    {A : Type ℓ} (P : A → Type 0) (n : ℕ) (xs : List A) → All P xs → All P (take n xs)
All-take P zero xs h = tt
All-take P (suc n) [] h = tt
All-take P (suc n) (x ∷ xs) (px, h) = (px, All-take P n xs h)

take-nil {ℓ} : {A : Type ℓ} (n : ℕ) → take {A = A} n [] ≡ []
take-nil zero = refl
take-nil (suc n) = refl

pub entries-IsPresent : (dir : Dir) → All (IsPresent dir) (entries dir)
entries-IsPresent dir = All-entries (IsPresent dir) dir (keys-IsPresent dir)

read_front :
    (dir : Dir) (limit : ℕ)
    → read_all [] dir (take limit (entries dir)) ≡ ok (take limit (queue dir))
unfolding queue
read_front dir limit =
    read_all_lem dir (take limit (entries dir))
      (All-take (IsPresent dir) limit (entries dir) (entries-IsPresent dir))
    ∙ ap ok (map-take (message dir) limit (entries dir))

-- Where every file can be read, `pull` returns the front of the queue, at most `limit` messages, oldest first; for
-- an identity without a mailbox, nothing.
pub pull_lem :
    (st : Store) (identity : Str) (limit : ℕ)
    → st.unreadable ≡ []
    → pull st identity limit ≡ ok (take limit (queue_of st identity))
unfolding pull queue_of
pull_lem st identity limit readable = elim (Option-cases (mailbox_dir st identity)) [
  | inl none' ↦ rw (none', pull) (rw (none', queue_of) (ap ok (sym (take-nil limit))))
  | inr (dir, there) ↦ rw (there, pull) (rw readable (rw (there, queue_of) (read_front dir limit)))
]

read_to_string-ok :
    (unreadable : List Str) (dir : Dir) (name payload : Str)
    → read_to_string unreadable dir name ≡ ok payload
    → read_to_string [] dir name ≡ ok payload
read_to_string-ok unreadable dir name payload h = ground arith

-- What is read does not depend on the names that cannot be read.
read_all-ok :
    (unreadable : List Str) (dir : Dir) (names : List Str) (messages : List PulledMessage)
    → read_all unreadable dir names ≡ ok messages
    → read_all [] dir names ≡ ok messages
unfolding read_all
read_all-ok unreadable dir [] messages h = h
read_all-ok unreadable dir (name ∷ names) messages h =
    let (payload, got, h1) = >>=-eq-ok (read_to_string unreadable dir name) _ h in
    let (rest, more, h2) = >>=-eq-ok (read_all unreadable dir names) _ h1 in
    rw (read_to_string-ok unreadable dir name payload got)
      (rw (read_all-ok unreadable dir names rest more) h2)

-- Whatever cannot be read, a pull that succeeds returns the front of the queue.
pub pull-queue :
    (st : Store) (identity : Str) (limit : ℕ) (messages : List PulledMessage)
    → pull st identity limit ≡ ok messages
    → messages ≡ take limit (queue_of st identity)
unfolding pull queue_of
pull-queue st identity limit messages h = elim (Option-cases (mailbox_dir st identity)) [
  | inl missing ↦ ground (arith, missing, take-nil {A = PulledMessage} limit)
  | inr (dir, there) ↦ ground (
    arith,
    there,
    read_front dir limit,
    read_all-ok st.unreadable dir (take limit (entries dir)) messages,
  )
]
