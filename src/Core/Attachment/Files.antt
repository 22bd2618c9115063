-- ===== src/Core/Attachment/Files.antt =====
-- The files that core/attachment.rs reads and writes, by path, as `std::fs` and `std::path` keep them. A handle is
-- the path that it was opened at. The file system takes new files, or refuses them with the text of an error.
use seqr.Prelude.{
  Lacks, ◌||◌, append_assoc, ◌∙◌, sym, false, str_eq_iff, ℕ, ◌+◌, ◌-◌, ◌==◌, ◌≡◌, Bytes, Str, text,
  [], ◌∷◌, ◌++◌, Option, none, some, if◌then◌else◌, length, take, drop, replicate, str_eq, arith,
  refl, ap,
}
use seqr.Prelude.Assoc.{Assoc, lookup, insert, remove}
use seqr.Prelude.Result.{ok, err, ok_or}
use seqr.Core.Error.{CoreResult, storage}

pub record Files : Type 0 where
  pub files : Assoc Bytes
  pub refuses : Option Str

-- `io::Error` of a missing file, and of a read that the end cuts short
abbrev pub no_such_file : Str
no_such_file = text "No such file or directory (os error 2)"

abbrev pub cut_short : Str
cut_short = text "failed to fill whole buffer"

-- what a handle on a path reads from its start
abbrev pub contents : Str → Files → Bytes
contents path fs = elim (lookup path fs.files) [ none ↦ [] | some bytes ↦ bytes ]

-- `File::open`
abbrev pub open_file : Str → Files → CoreResult Bytes
open_file path fs = ok_or (lookup path fs.files) (storage no_such_file)

abbrev created : Option Str → Str → Files → Files × CoreResult (Unit {0})
created none path fs = (record fs { files = insert path [] fs.files }, ok tt)
created (some reason) path fs = (fs, err (storage reason))

-- `File::create`, which empties a file that is there
unfoldable pub create_file : Str → Files → Files × CoreResult (Unit {0})
create_file path fs = created fs.refuses path fs

pub create_file-takes :
    (path : Str) (fs : Files)
    → fs.refuses ≡ none
    → create_file path fs ≡ (record fs { files = insert path [] fs.files }, ok tt)
unfolding create_file
create_file-takes path fs takes = ap (λ refuses. created refuses path fs) takes

abbrev put : Str → Bytes → Option Bytes → Files → Files
put path bytes none fs = fs
put path bytes (some _) fs = record fs { files = insert path bytes fs.files }

-- the contents behind a handle replaced; a file removed meanwhile stays removed
unfoldable pub overwrite : Str → Bytes → Files → Files
overwrite path bytes fs = put path bytes (lookup path fs.files) fs

-- `remove_file`, whose failure the caller drops
unfoldable pub remove_file : Str → Files → Files
remove_file path fs = record fs { files = remove path fs.files }

-- `seek` from the start and `write_all`: a gap behind the end is filled with zeros, and nothing to write
-- leaves the file as it is
unfoldable pub write_at : ℕ → Bytes → Bytes → Bytes
write_at offset [] file = file
write_at offset (b ∷ bs) file =
    take offset (file ++ replicate (offset - length file) 0)
    ++ ((b ∷ bs) ++ drop (offset + length (b ∷ bs)) file)

-- `Path::join` of a name below a directory; an absolute name replaces the directory
unfoldable pub join_path : Str → Str → Str
join_path dir [] = dir ++ text "/"
join_path dir (c ∷ name) = if c == b'/' then c ∷ name else dir ++ (text "/" ++ (c ∷ name))

-- the text in front of the last such byte, and the text behind it
cut_last : ℕ → Str → Option (Str × Str)
cut_last b [] = none
cut_last b (c ∷ s) = elim (cut_last b s) [
  | some (front, back) ↦ some (c ∷ front, back)
  | none ↦ if c == b then some ([], s) else none
]

-- `Path::file_stem` of a name: up to the last dot, unless the name begins with it
stem : Str → Str
unfolding cut_last
stem name = elim (cut_last b'.' name) [
  | none ↦ name
  | some ([], back) ↦ name
  | some (c ∷ front, back) ↦ c ∷ front
]

-- `Path::with_extension`; a path that ends in `..` or a separator has no name, and stays as it is
unfoldable pub with_extension : Str → Str → Str
unfolding cut_last stem
with_extension extension path =
    let (dir, name) : Str × Str = elim (cut_last b'/' path) [
      | none ↦ ([], path)
      | some (front, back) ↦ (front ++ text "/", back)
    ] in
    if str_eq name [] || str_eq name (text "..")
    then path
    else dir ++ (stem name ++ (text "." ++ extension))

cut_last-none : (b : ℕ) (s : Str) → Lacks b s → cut_last b s ≡ none
unfolding cut_last
cut_last-none b [] h = refl
cut_last-none b (c ∷ s) (hc, h) = rw (cut_last, cut_last-none b s h) (ground arith)

cut_last-append :
    (b : ℕ) (front back : Str)
    → Lacks b back
    → cut_last b (front ++ (b ∷ back)) ≡ some (front, back)
unfolding cut_last
cut_last-append b [] back h = rw (cut_last, cut_last-none b back h) (ground arith)
cut_last-append b (c ∷ front) back h = rw (cut_last, cut_last-append b front back h) refl

join_path_name :
    (dir name : Str) (c : ℕ)
    → Lacks b'/' (c ∷ name)
    → join_path dir (c ∷ name) ≡ dir ++ (b'/' ∷ (c ∷ name))
unfolding join_path
join_path_name dir name c (h, _) = ground (arith, h)

not_special :
    (c : ℕ) (name : Str)
    → Lacks b'.' (c ∷ name)
    → (str_eq (c ∷ name) [] || str_eq (c ∷ name) (text "..")) ≡ false
not_special c name (h, _) =
    ground (arith, h, str_eq_iff (c ∷ name) [], str_eq_iff (c ∷ name) (text ".."))

stem_plain : (c : ℕ) (name : Str) → Lacks b'.' (c ∷ name) → stem (c ∷ name) ≡ c ∷ name
unfolding stem
stem_plain c name h = rw (stem, cut_last-none b'.' (c ∷ name) h) refl

-- A name without a dot or a separator below a directory gets the extension behind it.
pub with_extension-join_path :
    (dir name extension : Str) (c : ℕ)
    → Lacks b'.' (c ∷ name)
    → Lacks b'/' (c ∷ name)
    → with_extension extension (join_path dir (c ∷ name))
      ≡ join_path dir (c ∷ name) ++ (text "." ++ extension)
unfolding with_extension
with_extension-join_path dir name extension c dots slashes =
    rw (join_path_name dir name c slashes) (
      rw (with_extension, cut_last-append b'/' dir (c ∷ name) slashes)
        (rw (not_special c name dots) (
          rw (stem_plain c name dots) (
            append_assoc dir (text "/") ((c ∷ name) ++ (text "." ++ extension))
            ∙ sym (append_assoc dir (b'/' ∷ (c ∷ name)) (text "." ++ extension))))))

-- `Path::file_name`; a path that ends in `..` or a separator has none
unfoldable pub file_name : Str → Option Str
unfolding cut_last
file_name path =
    let name : Str = elim (cut_last b'/' path) [ none ↦ path | some (front, back) ↦ back ] in
    if str_eq name [] || str_eq name (text "..") then none else some name
