-- ===== src/Core/Attachment/Reassembly/AnyOrder.antt =====
-- The chunks of a file, in whatever order and however often they come, make the file.
use seqr.Prelude.{
  ℕ, zero, suc, ◌+◌, ◌-◌, ◌*◌, ◌/◌, ◌≤◌, ◌<◌, ◌≡◌, ◌≢◌, refl, sym, ap, ◌∙◌, subst, Bytes, true,
  List, [], ◌∷◌, ◌++◌, ◌==◌, ltb, length, take, drop, replicate, arith, length-append, length-take,
  length-drop, length-replicate, Bool-cases, inl, inr, min, ◌⊎◌, ltb→lt, ltb_false→le,
}
use seqr.Prelude.Positions.{
  get_elem?, get_elem?-append_front, get_elem?-append_back, get_elem?-take, get_elem?-drop,
  eq-of_get_elem?, among,
}
use seqr.Core.Attachment.{chunk_size}
use seqr.Core.Attachment.Files.{write_at}

-- the file in front of a write: cut at the offset, or filled up to it
front : ℕ → Bytes → Bytes
front offset file = take offset (file ++ replicate (offset - length file) 0)

length-front : (offset : ℕ) (file : Bytes) → length (front offset file) ≡ offset
unfolding front
length-front offset file = omega (
  arith,
  length-take offset (file ++ replicate (offset - length file) 0),
  length-append file (replicate (offset - length file) 0),
  length-replicate {A = ℕ} (offset - length file) 0,
)

-- A write leaves a file of the length that the longer of the two reaches.
length-write_at :
    (offset : ℕ) (bytes file : Bytes)
    → (length file ≤ length (write_at offset bytes file))
      × ((n : ℕ)
          → length file ≤ n
          → offset + length bytes ≤ n
          → length (write_at offset bytes file) ≤ n)
unfolding write_at front
length-write_at offset [] file = (omega arith, λ n h _. h)
length-write_at offset (b ∷ bs) file =
    let l1 = length-front offset file in
    let l2 = length-append (front offset file) ((b ∷ bs) ++ drop (offset + length (b ∷ bs)) file) in
    let l3 = length-append bs (drop (offset + length (b ∷ bs)) file) in
    let l4 = length-drop (offset + length (b ∷ bs)) file in (omega arith, λ n h h'. omega arith)

-- A write gives what it writes where it writes.
get_elem?-write_at_in :
    (offset : ℕ) (bytes file : Bytes) (k : ℕ)
    → k < length bytes
    → get_elem? (write_at offset bytes file) (offset + k) ≡ get_elem? bytes k
unfolding write_at front
get_elem?-write_at_in offset [] file k h = absurd (omega arith)
get_elem?-write_at_in offset (b ∷ bs) file k h =
    get_elem?-append_back (front offset file) _ (offset + k) k
      (omega (arith, length-front offset file))
    ∙ get_elem?-append_front (b ∷ bs) (drop (offset + length (b ∷ bs)) file) k h

-- Elsewhere it keeps the file.
get_elem?-write_at_before :
    (offset : ℕ) (bytes file : Bytes) (j : ℕ)
    → j < offset
    → j < length file
    → get_elem? (write_at offset bytes file) j ≡ get_elem? file j
unfolding write_at front
get_elem?-write_at_before offset [] file j before there = refl
get_elem?-write_at_before offset (b ∷ bs) file j before there =
    get_elem?-append_front (front offset file) _ j (omega (arith, length-front offset file))
    ∙ get_elem?-take offset _ j before
    ∙ get_elem?-append_front file (replicate (offset - length file) 0) j there

get_elem?-write_at_behind :
    (offset : ℕ) (bytes file : Bytes) (j : ℕ)
    → offset + length bytes ≤ j
    → get_elem? (write_at offset bytes file) j ≡ get_elem? file j
unfolding write_at front
get_elem?-write_at_behind offset [] file j behind = refl
get_elem?-write_at_behind offset (b ∷ bs) file j behind =
    get_elem?-append_back (front offset file) _ j (j - offset)
      (omega (arith, length-front offset file))
    ∙ get_elem?-append_back (b ∷ bs) _ (j - offset) (j - offset - length (b ∷ bs)) (omega arith)
    ∙ get_elem?-drop (offset + length (b ∷ bs)) file (j - offset - length (b ∷ bs)) j (omega arith)

-- the part of a file that a chunk carries
abbrev pub part : Bytes → ℕ → Bytes
part whole index = take chunk_size (drop (index * chunk_size) whole)

-- that a partial file agrees with the whole one in the chunks that came
abbrev pub Agrees : Bytes → List ℕ → Bytes → Type 0
Agrees whole received file =
    (length file ≤ length whole)
    × ((j : ℕ)
        → j < length whole
        → among (j / chunk_size) received ≡ true
        → (j < length file) × (get_elem? file j ≡ get_elem? whole j))

length-part :
    (whole : Bytes) (index : ℕ)
    → length (part whole index) ≡ min chunk_size (length whole - index * chunk_size)
length-part whole index =
    length-take chunk_size (drop (index * chunk_size) whole)
    ∙ ap (min chunk_size) (length-drop (index * chunk_size) whole)

get_elem?-part :
    (whole : Bytes) (index k : ℕ)
    → k < chunk_size
    → get_elem? (part whole index) k ≡ get_elem? whole (index * chunk_size + k)
get_elem?-part whole index k h =
    get_elem?-take chunk_size (drop (index * chunk_size) whole) k h
    ∙ get_elem?-drop (index * chunk_size) whole k (index * chunk_size + k) refl

-- The byte of a chunk just written is the whole file's.
write_at-here :
    (whole file : Bytes) (index j : ℕ)
    → j < length whole
    → j / chunk_size ≡ index
    → get_elem? (write_at (index * chunk_size) (part whole index) file) j ≡ get_elem? whole j
write_at-here whole file index j below here =
    let k = j - index * chunk_size in
    let at : j ≡ index * chunk_size + k = omega arith in
    subst
      (λ j. get_elem? (write_at (index * chunk_size) (part whole index) file) j ≡ get_elem? whole j)
      (sym at)
      (get_elem?-write_at_in (index * chunk_size) (part whole index) file k
          (omega (arith, length-part whole index))
        ∙ get_elem?-part whole index k (omega arith))

write_at-there :
    (whole file : Bytes) (index j : ℕ)
    → j < length file
    → j / chunk_size ≢ index
    → get_elem? (write_at (index * chunk_size) (part whole index) file) j ≡ get_elem? file j
write_at-there whole file index j there other = elim (Bool-cases (ltb j (index * chunk_size))) [
  | inl before ↦
      get_elem?-write_at_before (index * chunk_size) (part whole index) file j (ground arith) there
  | inr behind ↦
      let le : index * chunk_size ≤ j = ground arith in
      get_elem?-write_at_behind (index * chunk_size) (part whole index) file j
        (omega (arith, length-part whole index, le))
]

in_file :
    (whole : Bytes) (index : ℕ)
    → index * chunk_size + length (part whole index) ≤ length whole
      ⊎ (length (part whole index) ≡ 0)
in_file whole index = elim (Bool-cases (ltb (index * chunk_size) (length whole))) [
  | inl inside ↦
      let before = ltb→lt (index * chunk_size) (length whole) inside in
      inl (omega (arith, length-part whole index))
  | inr outside ↦
      let behind = ltb_false→le (index * chunk_size) (length whole) outside in
      inr (omega (arith, length-part whole index))
]

length-write_at_nothing :
    (offset n : ℕ) (file : Bytes) → length file ≤ n → length (write_at offset [] file) ≤ n
unfolding write_at
length-write_at_nothing offset n file h = h

length-write_at-part :
    (whole file : Bytes) (index : ℕ)
    → length file ≤ length whole
    → length (write_at (index * chunk_size) (part whole index) file) ≤ length whole
length-write_at-part whole file index h = elim (in_file whole index) [
  | inl inside ↦
      (length-write_at (index * chunk_size) (part whole index) file).1 (length whole) h inside
  | inr empty ↦
      subst (λ bytes. length (write_at (index * chunk_size) bytes file) ≤ length whole)
        (sym (nil (part whole index) empty))
        (length-write_at_nothing (index * chunk_size) (length whole) file h)
]
  where
    nil : (b : Bytes) → length b ≡ 0 → b ≡ []
    nil [] e = refl
    nil (x ∷ b) e = absurd (omega arith)

pub Agrees-write_at :
    (whole file : Bytes) (index : ℕ) (received : List ℕ)
    → Agrees whole received file
    → Agrees whole (index ∷ received) (write_at (index * chunk_size) (part whole index) file)
Agrees-write_at whole file index received (short, same) = (
  length-write_at-part whole file index short,
  λ j below came. elim (Bool-cases (index == (j / chunk_size))) [
    | inl here ↦
        let at = write_at-here whole file index j below (ground arith) in (has_byte j at below, at)
    | inr there ↦
        let (inside, old) = same j below (ground arith) in
        (
          omega (arith, (length-write_at (index * chunk_size) (part whole index) file).0),
          write_at-there whole file index j inside (ground arith) ∙ old,
        )
  ],
)
  where
    is_there :
        (xs ys : Bytes) (j : ℕ) → get_elem? xs j ≡ get_elem? ys j → j < length ys → j < length xs
    is_there [] [] j e h = absurd (omega arith)
    is_there [] (y ∷ ys) zero e h = cc
    is_there [] (y ∷ ys) (suc j) e h = absurd (omega (arith, is_there [] ys j e (omega arith)))
    is_there (x ∷ xs) [] j e h = absurd (omega arith)
    is_there (x ∷ xs) (y ∷ ys) zero e h = omega arith
    is_there (x ∷ xs) (y ∷ ys) (suc j) e h = omega (arith, is_there xs ys j e (omega arith))

    has_byte :
        (j : ℕ)
        → get_elem? (write_at (index * chunk_size) (part whole index) file) j ≡ get_elem? whole j
        → j < length whole
        → j < length (write_at (index * chunk_size) (part whole index) file)
    has_byte j e h = is_there (write_at (index * chunk_size) (part whole index) file) whole j e h

-- With all chunks there, the file is the whole one.
pub Agrees-all :
    (whole file : Bytes) (received : List ℕ) (n : ℕ)
    → Agrees whole received file
    → length whole ≤ n * chunk_size
    → ((i : ℕ) → i < n → among i received ≡ true)
    → file ≡ whole
Agrees-all whole file received n (short, same) enough came =
    let at =
      λ (j : ℕ) (below : j < length whole). same j below (came (j / chunk_size) (omega arith)) in
    eq-of_get_elem? file whole (as_long file whole short (λ j below. (at j below).0))
      (λ j below. (at j below).1)
  where
    as_long :
        (xs ys : Bytes)
        → length xs ≤ length ys
        → ((j : ℕ) → j < length ys → j < length xs)
        → length xs ≡ length ys
    as_long xs ys le h = elim (Bool-cases (ltb (length xs) (length ys))) [
      | inl less ↦ absurd (omega (arith, h (length xs) (ltb→lt (length xs) (length ys) less)))
      | inr same_length ↦ ground arith
    ]
