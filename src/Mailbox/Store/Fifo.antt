-- ===== src/Mailbox/Store/Fifo.antt =====
-- Pushes in the order of a clock that does not go back are pulled in that order.
use mathlib.Core.List.{map-append}
use seqr.Prelude.{
  ℕ, ◌+◌, ◌≤◌, ◌<◌, ◌^◌, Bytes, Str, length, ◌≡◌, ap, sym, ◌∙◌, true, List, [], ◌∷◌, ◌++◌, map,
  arith, append-nil, append_assoc,
}
use seqr.Crypto.Primitives.{Primitives, HexLaws, IsBytes}
use seqr.Mailbox.Store.{Store, push}
use seqr.Mailbox.Store.Queue.{queue_of}
use seqr.Mailbox.Store.Stamped.{IsStamped-later, IsStamped}
use seqr.Mailbox.Store.Push.{push_lem}

-- a push to come: the clock that it meets, the random bytes of its id, and its payload
pub record Arrival : Type 0 where
  pub now : ℕ
  pub random : Bytes
  pub payload : Str

-- The clock does not go back and fits 13 digits, and the random bytes are 32 bytes.
pub record Arrives (from : ℕ) (a : Arrival) : Type 0 where
  pub onward : from ≤ a.now
  pub early : a.now < 10 ^ 13
  pub bytes : IsBytes a.random
  pub size : length a.random ≡ 32

abbrev pub IsChronological : ℕ → List Arrival → Type 0
IsChronological from [] = Unit
IsChronological from (a ∷ as') = Arrives from a × IsChronological a.now as'

module _ ⦃p : Primitives⦄ (identity : Str) where
  unfoldable pub push_all : Store → List Arrival → Store
  push_all st [] = st
  push_all st (a ∷ as') = push_all (push st a.now a.random identity a.payload).0 as'

  -- In a store that takes writes and whose files were named by pushes, a series of pushes by a
  -- clock that does not go back and fits 13 digits, with a counter that fits 10, leaves in the
  -- queue the payloads of before, and behind them the pushed ones in the order of the pushes.
  pub push_all-fifo :
      HexLaws p
      → (from : ℕ) (st : Store) (arrivals : List Arrival) → IsStamped from st
      → st.writable ≡ true
      → st.seq + length arrivals < 10 ^ 10
      → IsChronological from arrivals
      → map (λ m. m.payload) (queue_of (push_all st arrivals) identity)
        ≡ map (λ m. m.payload) (queue_of st identity) ++ map (λ a. a.payload) arrivals
  unfolding push_all
  push_all-fifo laws from st [] stamped w few chron = sym (append-nil _)
  push_all-fifo laws from st (a ∷ as') stamped w few (arr, chron) =
      let (result, valid, queued, stamped', seq', w') =
        push_lem st a.now a.random identity a.payload laws arr.bytes arr.size arr.early
          (omega arith) (IsStamped-later from a.now st arr.onward stamped) w in
      let before = map (λ m. m.payload) (queue_of st identity) in
      let later = map (λ (b : Arrival). b.payload) as' in
      let payloads : map (λ m. m.payload)
            (queue_of (push st a.now a.random identity a.payload).0 identity)
          ≡ before ++ a.payload ∷ [] =
        ap (map (λ m. m.payload)) queued ∙ map-append _ (queue_of st identity) _ in
      push_all-fifo laws a.now (push st a.now a.random identity a.payload).0 as' stamped' w'
        (omega (arith, seq')) chron
      ∙ (ap (λ q. q ++ later) payloads ∙ append_assoc before (a.payload ∷ []) later)
