-- ===== src/Prelude/BigEndian.antt =====
-- A `u32` in four bytes, the highest first, and reads of a given length from what is left of a stream.
use seqr.Prelude.{length-drop}
use Prim.Native.Nat.{ℕ, ◌+◌, ◌*◌, ◌/◌, ◌%◌, ◌^◌, ◌<◌}
use mathlib.Core.List.{[], ◌∷◌, ◌++◌}
use mathlib.Core.Option.{Option, none, some}
use mathlib.Core.Path.{◌≡◌, refl, subst}
use native.Mathlib.Omega.{arith}
use seqr.Prelude.Tests.{if◌then◌else◌, leb}
use seqr.Prelude.Lists.{length, take, drop, take-length-append, drop-length-append, length-append}
use seqr.Prelude.Text.{Bytes}

be_value : ℕ → Bytes → ℕ
be_value acc [] = acc
be_value acc (b ∷ bs) = be_value (acc * 256 + b) bs

-- `u32::from_be_bytes`
unfoldable pub from_be_bytes : Bytes → ℕ
unfolding be_value
from_be_bytes bytes = be_value 0 bytes

-- `u32::to_be_bytes`
unfoldable pub to_be_bytes : ℕ → Bytes
to_be_bytes n = (n / 16777216) % 256 ∷ (n / 65536) % 256 ∷ (n / 256) % 256 ∷ n % 256 ∷ []

-- `read_exact` of `n` bytes: them and what is left, if there are as many
unfoldable pub read_exact : ℕ → Bytes → Option (Bytes × Bytes)
read_exact n stream = if leb n (length stream) then some (take n stream, drop n stream) else none

pub from_be_bytes-to_be_bytes : (n : ℕ) → n < 2 ^ 32 → from_be_bytes (to_be_bytes n) ≡ n
unfolding from_be_bytes to_be_bytes be_value
from_be_bytes-to_be_bytes n h = omega arith

pub length-to_be_bytes : (n : ℕ) → length (to_be_bytes n) ≡ 4
unfolding to_be_bytes
length-to_be_bytes n = refl

read_exact-length : (b rest : Bytes) → read_exact (length b) (b ++ rest) ≡ some (b, rest)
unfolding read_exact
read_exact-length b rest =
    rw (take-length-append b rest)
      (rw (drop-length-append b rest) (ground (arith, length-append b rest)))

-- What stands in front of a stream is what a read of its length gives.
pub read_exact-append :
    (n : ℕ) (b rest : Bytes) → length b ≡ n → read_exact n (b ++ rest) ≡ some (b, rest)
read_exact-append n b rest h =
    subst (λ n. read_exact n (b ++ rest) ≡ some (b, rest)) h (read_exact-length b rest)

-- A stream shorter than the read gives nothing.
pub read_exact_short : (n : ℕ) (stream : Bytes) → length stream < n → read_exact n stream ≡ none
unfolding read_exact
read_exact_short n stream h = ground arith

pub length-read_exact :
    (n : ℕ) (stream b rest : Bytes)
    → read_exact n stream ≡ some (b, rest)
    → length rest + n ≡ length stream
unfolding read_exact
length-read_exact n stream b rest h = ground (arith, length-drop n stream)
