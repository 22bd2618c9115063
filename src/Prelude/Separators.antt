-- ===== src/Prelude/Separators.antt =====
-- Texts put together with a separator: what can be told apart again.
use Prim.Native.Nat.{ℕ, ◌<◌}
use mathlib.Core.List.{List, [], ◌∷◌, ◌++◌}
use mathlib.Core.Path.{◌≡◌, refl, ap, subst}
use native.Mathlib.Omega.{arith}
use seqr.Prelude.Decimal.{IsDigit, decimal, decimal-All-IsDigit, decimal-injective}
use seqr.Prelude.Lists.{All, length}
use seqr.Prelude.Text.{Str, Lacks, split, join, split-append, split_whole}

pub Lacks-of_IsDigit : (b : ℕ) → b'9' < b → (s : Str) → All IsDigit s → Lacks b s
Lacks-of_IsDigit b h [] d = tt
Lacks-of_IsDigit b h (c ∷ s) (dc, d) = (omega arith, Lacks-of_IsDigit b h s d)

pub decimal-Lacks : (b n : ℕ) → b'9' < b → Lacks b (decimal n)
decimal-Lacks b n h = Lacks-of_IsDigit b h (decimal n) (decimal-All-IsDigit n)

not-Lacks-append : (b : ℕ) (s t : Str) → Lacks b (s ++ (b ∷ t)) → ⊥
not-Lacks-append b [] t (h, _) = h refl
not-Lacks-append b (c ∷ s) t (_, h) = not-Lacks-append b s t h

-- The text behind the last separator, and the text in front of it, are determined.
pub last_separator :
    (b : ℕ) (s s' t t' : Str)
    → Lacks b t
    → Lacks b t'
    → s ++ (b ∷ t) ≡ s' ++ (b ∷ t')
    → (s ≡ s') × (t ≡ t')
last_separator b [] [] t t' h h' e = ground arith
last_separator b [] (c ∷ s') t t' h h' e =
    absurd (not-Lacks-append b s' t' (subst (Lacks b) (ground arith) h))
last_separator b (c ∷ s) [] t t' h h' e =
    absurd (not-Lacks-append b s t (subst (Lacks b) (ground arith) h'))
last_separator b (c ∷ s) (c' ∷ s') t t' h h' e = ground (arith, last_separator b s s' t t' h h')

-- So a text with a number behind it determines both.
pub number_behind :
    (b : ℕ) (s s' : Str) (n n' : ℕ)
    → b'9' < b
    → s ++ (b ∷ decimal n) ≡ s' ++ (b ∷ decimal n')
    → (s ≡ s') × (n ≡ n')
number_behind b s s' n n' h e =
    let (same, digits) =
      last_separator b s s' (decimal n) (decimal n') (decimal-Lacks b n h) (decimal-Lacks b n' h)
        e in
    (same, decimal-injective n n' digits)

-- Parts without the separator are read back from their join.
pub split-join :
    (b : ℕ) (q : Str) (ps : List Str)
    → Lacks b q
    → All (Lacks b) ps
    → split b (join (b ∷ []) (q ∷ ps)) ≡ q ∷ ps
unfolding join
split-join b q [] h hs = split_whole b q h
split-join b q (r ∷ ps) h (hr, hs) =
    rw (split-append b q (join (b ∷ []) (r ∷ ps)) h) (ap (◌∷◌ q) (split-join b r ps hr hs))

-- parts behind a text, each after a separator
abbrev pub behind : ℕ → Str → List Str → Str
behind b s [] = s
behind b s (q ∷ ps) = behind b (s ++ (b ∷ q)) ps

-- As many parts without the separator behind two equal texts are the same parts.
pub behind-injective :
    (b : ℕ) (s s' : Str) (ps ps' : List Str)
    → length ps ≡ length ps'
    → All (Lacks b) ps
    → All (Lacks b) ps'
    → behind b s ps ≡ behind b s' ps'
    → (s ≡ s') × (ps ≡ ps')
behind-injective b s s' [] [] l h h' e = (e, refl)
behind-injective b s s' [] (q' ∷ ps') l h h' e = ground arith
behind-injective b s s' (q ∷ ps) [] l h h' e = ground arith
behind-injective b s s' (q ∷ ps) (q' ∷ ps') l (hq, h) (hq', h') e =
    let (fronts, same) =
      behind-injective b (s ++ (b ∷ q)) (s' ++ (b ∷ q')) ps ps' (omega arith) h h' e in
    let (front, last) = last_separator b s s' q q' hq hq' fronts in
    (front, ground (arith, same, last))
