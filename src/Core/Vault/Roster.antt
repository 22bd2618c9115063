-- ===== src/Core/Vault/Roster.antt =====
-- The roster: no key stands twice among the friends or among the requests, and no request is by a
-- friend.
use seqr.Prelude.{
  All-retain, All-append, Str, ◌≡◌, refl, Bool, false, not, ◌||◌, List, [], ◌∷◌, ◌++◌, any, All,
  retain, str_eq_iff, arith, Bool-cases, inl, inr,
}
use seqr.Core.Vault.{
  VaultData, Friend, signs_as, remove_friend, remove_pending, add_friend, add_pending,
}

abbrev pub IsDistinct : List Friend → Type 0
IsDistinct [] = Unit
IsDistinct (f ∷ fs) = (any (signs_as f.signing_public) fs ≡ false) × IsDistinct fs

pub record IsRoster (d : VaultData) : Type 0 where
  pub friends_distinct : IsDistinct d.friends
  pub requests_distinct : IsDistinct d.pending_requests
  pub apart : All (λ r. any (signs_as r.signing_public) d.friends ≡ false) d.pending_requests

any-append : (p : Friend → Bool) (xs ys : List Friend) → any p (xs ++ ys) ≡ any p xs || any p ys
any-append p [] ys = refl
any-append p (x ∷ xs) ys = ground (arith, any-append p xs ys)

any-retain :
    (p q : Friend → Bool) (xs : List Friend) → any p xs ≡ false → any p (retain q xs) ≡ false
any-retain p q [] h = refl
any-retain p q (x ∷ xs) h = ground (arith, any-retain p q xs)

signs_as_comm : (f g : Friend) → signs_as f.signing_public g ≡ signs_as g.signing_public f
signs_as_comm f g = ground (
  arith,
  str_eq_iff f.signing_public g.signing_public,
  str_eq_iff g.signing_public f.signing_public,
)

IsDistinct-retain :
    (q : Friend → Bool) (fs : List Friend) → IsDistinct fs → IsDistinct (retain q fs)
IsDistinct-retain q [] h = tt
IsDistinct-retain q (f ∷ fs) (hf, h) = elim (Bool-cases (q f)) [
  | inl kept ↦ rw kept (any-retain (signs_as f.signing_public) q fs hf, IsDistinct-retain q fs h)
  | inr dropped ↦ rw dropped (IsDistinct-retain q fs h)
]

IsDistinct-append :
    (f : Friend) (fs : List Friend)
    → IsDistinct fs
    → any (signs_as f.signing_public) fs ≡ false
    → IsDistinct (fs ++ f ∷ [])
IsDistinct-append f [] h new = (refl, tt)
IsDistinct-append f (g ∷ fs) (hg, h) new = (
  ground (arith, any-append (signs_as g.signing_public) fs (f ∷ []), signs_as_comm f g),
  IsDistinct-append f fs h (ground arith),
)

-- The requests that are not by `f` stay apart from the friends when `f` joins them.
apart-add :
    (f : Friend) (friends rs : List Friend)
    → All (λ r. any (signs_as r.signing_public) friends ≡ false) rs
    → All
        (λ r. any (signs_as r.signing_public) (friends ++ f ∷ []) ≡ false)
        (retain (λ r. not (signs_as f.signing_public r)) rs)
apart-add f friends [] h = tt
apart-add f friends (r ∷ rs) (hr, h) = elim (Bool-cases (signs_as f.signing_public r)) [
  | inl same ↦ rw same (apart-add f friends rs h)
  | inr other ↦ rw other (
    ground (arith, any-append (signs_as r.signing_public) friends (f ∷ []), signs_as_comm f r),
    apart-add f friends rs h,
  )
]

apart-append :
    (f : Friend) (friends rs : List Friend)
    → any (signs_as f.signing_public) friends ≡ false
    → All (λ r. any (signs_as r.signing_public) friends ≡ false) rs
    → All (λ r. any (signs_as r.signing_public) friends ≡ false) (rs ++ f ∷ [])
apart-append f friends rs new h =
    All-append (λ r. any (signs_as r.signing_public) friends ≡ false) rs (f ∷ []) h (new, tt)

apart-fewer :
    (q : Friend → Bool) (friends rs : List Friend)
    → All (λ r. any (signs_as r.signing_public) friends ≡ false) rs
    → All (λ r. any (signs_as r.signing_public) (retain q friends) ≡ false) rs
apart-fewer q friends [] h = tt
apart-fewer q friends (r ∷ rs) (hr, h) =
    (any-retain (signs_as r.signing_public) q friends hr, apart-fewer q friends rs h)

remove_friend-IsRoster : (key : Str) (d : VaultData) → IsRoster d → IsRoster (remove_friend key d)
unfolding remove_friend
remove_friend-IsRoster key d r = record {
  friends_distinct = IsDistinct-retain (λ f. not (signs_as key f)) d.friends r.friends_distinct;
  requests_distinct = r.requests_distinct;
  apart = apart-fewer (λ f. not (signs_as key f)) d.friends d.pending_requests r.apart;
}

remove_pending-IsRoster : (key : Str) (d : VaultData) → IsRoster d → IsRoster (remove_pending key d)
unfolding remove_pending
remove_pending-IsRoster key d r = record {
  friends_distinct = r.friends_distinct;
  requests_distinct =
      IsDistinct-retain (λ f. not (signs_as key f)) d.pending_requests r.requests_distinct;
  apart =
      All-retain (λ f. any (signs_as f.signing_public) d.friends ≡ false)
        (λ f. not (signs_as key f)) d.pending_requests r.apart;
}

add_pending-IsRoster : (f : Friend) (d : VaultData) → IsRoster d → IsRoster (add_pending f d).0
unfolding add_pending
add_pending-IsRoster f d r = elim (Bool-cases known) [
  | inl old ↦ rw (old, add_pending) r
  | inr new ↦
      rw (new, add_pending)
        (record {
          friends_distinct = r.friends_distinct;
          requests_distinct =
              IsDistinct-append f d.pending_requests r.requests_distinct (ground arith);
          apart = apart-append f d.friends d.pending_requests (ground arith) r.apart;
        })
]
  where
    known : Bool
    known =
        any (signs_as f.signing_public) d.friends
        || any (signs_as f.signing_public) d.pending_requests

add_friend-IsRoster : (f : Friend) (d : VaultData) → IsRoster d → IsRoster (add_friend f d).0
unfolding add_friend
add_friend-IsRoster f d r = elim (Bool-cases (any (signs_as f.signing_public) d.friends)) [
  | inl old ↦ rw (old, add_friend) (remove_pending-IsRoster f.signing_public d r)
  | inr new ↦
      rw (new, add_friend)
        (record {
          friends_distinct = IsDistinct-append f d.friends r.friends_distinct new;
          requests_distinct =
              IsDistinct-retain (λ g. not (signs_as f.signing_public g)) d.pending_requests
                r.requests_distinct;
          apart = apart-add f d.friends d.pending_requests r.apart;
        })
]

-- one change of the roster
pub data Change : Type 0 where
  befriend request : Friend → Change
  unfriend decline : Str → Change

unfoldable pub change : Change → VaultData → VaultData
change (befriend f) d = (add_friend f d).0
change (request f) d = (add_pending f d).0
change (unfriend key) d = remove_friend key d
change (decline key) d = remove_pending key d

-- If no key stands twice among the friends or among the requests, and no request is by a friend,
-- this is so after every change of the roster.
pub change-IsRoster : (c : Change) (d : VaultData) → IsRoster d → IsRoster (change c d)
unfolding change
change-IsRoster (befriend f) d r = add_friend-IsRoster f d r
change-IsRoster (request f) d r = add_pending-IsRoster f d r
change-IsRoster (unfriend key) d r = remove_friend-IsRoster key d r
change-IsRoster (decline key) d r = remove_pending-IsRoster key d r
