-- ===== src/Core/Vault/Messages.antt =====
-- Lookups behind the writes of the vault: rotated keys, friends, numbering and deduplication.
use seqr.Prelude.{
  ℕ, ◌+◌, Str, ◌≡◌, refl, Bool, true, false, not, ◌&&◌, ◌||◌, ◌==◌, List, [], ◌∷◌, ◌++◌, none, some,
  if◌then◌else◌, find, any, retain, length-append, retain-append, str_eq, str_eq_iff, str_eq_refl,
  arith,
}
use seqr.Core.Vault.{
  VaultData, Friend, DirectKey, StoredMessage, signs_as, friend_by_signing, remove_friend,
  direct_key, set_direct_key, put_direct_key, add_message, next_seq, has_incoming,
}

put_direct_key-find :
    (c j : Str) (epoch : ℕ) (key : Str) (ks : List DirectKey)
    → find (λ k. str_eq k.conversation_id j) (put_direct_key c epoch key ks) ≡ (
        if str_eq c j
        then some (record { conversation_id = c; epoch = epoch; key = key })
        else find (λ k. str_eq k.conversation_id j) ks)
unfolding put_direct_key
put_direct_key-find c j epoch key [] = refl
put_direct_key-find c j epoch key (k ∷ ks) = ground (
  arith,
  str_eq_iff k.conversation_id c,
  str_eq_iff k.conversation_id j,
  str_eq_iff c j,
  put_direct_key-find c j epoch key ks,
)

-- After a key is set, its conversation has that key, and every other has the key it had.
pub direct_key-set_direct_key :
    (c j : Str) (epoch : ℕ) (key : Str) (d : VaultData)
    → direct_key (set_direct_key c epoch key d) j ≡ (
        if str_eq c j
        then some (record { conversation_id = c; epoch = epoch; key = key })
        else direct_key d j)
unfolding direct_key set_direct_key
direct_key-set_direct_key c j epoch key d = put_direct_key-find c j epoch key d.direct_keys

find-retain-signs_as :
    (key j : Str) (fs : List Friend)
    → find (signs_as j) (retain (λ f. not (signs_as key f)) fs)
      ≡ (if str_eq key j then none else find (signs_as j) fs)
find-retain-signs_as key j [] = ground arith
find-retain-signs_as key j (f ∷ fs) = ground (
  arith,
  str_eq_iff f.signing_public key,
  str_eq_iff f.signing_public j,
  str_eq_iff key j,
  find-retain-signs_as key j fs,
)

-- A removed friend is not found any more, and every other is found as before.
pub friend_by_signing-remove_friend :
    (key j : Str) (d : VaultData)
    → friend_by_signing (remove_friend key d) j
      ≡ (if str_eq key j then none else friend_by_signing d j)
unfolding friend_by_signing remove_friend
friend_by_signing-remove_friend key j d = find-retain-signs_as key j d.friends

-- Storing a message numbers the next outgoing one of its conversation one higher if it is outgoing,
-- and changes the number in no other case.
pub next_seq-add_message :
    (m : StoredMessage) (c : Str) (d : VaultData)
    → next_seq (add_message m d) c
      ≡ (if str_eq m.conversation_id c && m.outgoing then next_seq d c + 1 else next_seq d c)
unfolding next_seq add_message
next_seq-add_message m c d =
    rw (retain-append (λ m. str_eq m.conversation_id c && m.outgoing) d.messages (m ∷ [])) (
      ground (
        arith,
        length-append (retain (λ m. str_eq m.conversation_id c && m.outgoing) d.messages) (m ∷ []),
        length-append (retain (λ m. str_eq m.conversation_id c && m.outgoing) d.messages) [],
      ))

any-append :
    (p : StoredMessage → Bool) (xs ys : List StoredMessage)
    → any p (xs ++ ys) ≡ any p xs || any p ys
any-append p [] ys = refl
any-append p (x ∷ xs) ys = ground (arith, any-append p xs ys)

-- An incoming message that was stored is a duplicate when it comes again.
pub has_incoming-add_message :
    (m : StoredMessage) (d : VaultData)
    → m.outgoing ≡ false
    → has_incoming (add_message m d) m.conversation_id m.sender m.seq ≡ true
unfolding has_incoming add_message
has_incoming-add_message m d h = ground (
  arith,
  any-append
      (λ n.
        not n.outgoing
        && (str_eq n.conversation_id m.conversation_id
            && (str_eq n.sender m.sender && (n.seq == m.seq))))
      d.messages (m ∷ []),
  str_eq_refl m.conversation_id,
  str_eq_refl m.sender,
)
