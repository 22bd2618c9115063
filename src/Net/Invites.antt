-- ===== src/Net/Invites.antt =====
-- An invite into a group: it changes the groups of its identifier only, and never to an older epoch.
use seqr.Prelude.{
  find-holds, str_eq-eq, Bytes, Str, true, false, List, [], ◌∷◌, ◌++◌, Option, none, some, ◌≡◌,
  refl, sym, ap, subst, ◌∙◌, ◌⊎◌, inl, inr, ◌≤◌, find, arith, Bool-cases, Option-cases,
  if◌then◌else◌, ltb, str_eq, str_eq_iff,
}
use seqr.Prelude.Result.{ok, err, Result-cases}
use seqr.Core.Error.{CoreError}
use seqr.Core.Packet.{GroupInvite, KeyUpdate}
use seqr.Core.Serde.{Serde}
use seqr.Core.Vault.Messages.{direct_key-set_direct_key}
use seqr.Core.VaultFile.{Disk}
use seqr.Core.Vault.{VaultData, Group, group_by_id, set_group, direct_key}
use seqr.Crypto.Error.{SymmetricKey}
use seqr.Crypto.Primitives.{Primitives}
use seqr.Net.{Unlocked, put_group, others, open_invite, handle_invite, open_update, on_key_update}

-- A write through the first group with an identifier is read back there, and nowhere else.
pub set_group-find :
    (c j : Str) (f : Group → Group) (gs : List Group) (g : Group)
    → ((g' : Group) → (f g').id ≡ g'.id)
    → find (λ g. str_eq g.id c) gs ≡ some g
    → find (λ g. str_eq g.id j) (set_group c f gs)
      ≡ (if str_eq c j then some (f g) else find (λ g. str_eq g.id j) gs)
unfolding set_group
set_group-find c j f [] g keeps h = ground (arith, h)
set_group-find c j f (x ∷ gs) g keeps h = ground (
  arith,
  str_eq_iff x.id c,
  str_eq_iff x.id j,
  str_eq_iff c j,
  keeps x,
  h,
  set_group-find c j f gs g keeps,
)

find_append :
    (j : Str) (gs : List Group) (g : Group)
    → find (λ g. str_eq g.id j) (gs ++ g ∷ []) ≡ (elim (find (λ g. str_eq g.id j) gs) [
      | some g' ↦ some g'
      | none ↦ if str_eq g.id j then some g else none
    ])
find_append j [] g = ground arith
find_append j (x ∷ gs) g = ground (arith, find_append j gs g)

module _ ⦃p : Primitives⦄ where
  -- the group as an invite tells it
  abbrev pub invited : Str → GroupInvite → SymmetricKey → Group
  invited my_signing invite kg = record {
    id = invite.group_id;
    name = invite.name;
    members = others my_signing invite.members;
    epoch = invite.epoch;
    key = p.hex_encode kg;
  }

  put_group-new :
      (my_signing : Str) (invite : GroupInvite) (kg : SymmetricKey) (d : VaultData) (j : Str)
      → group_by_id d invite.group_id ≡ none
      → group_by_id (put_group my_signing invite kg d) j ≡ (
          if str_eq invite.group_id j then some (invited my_signing invite kg) else group_by_id d j)
  unfolding group_by_id put_group
  put_group-new my_signing invite kg d j absent =
      rw (put_group, absent)
        (ground (
          arith,
          find_append j d.groups (invited my_signing invite kg),
          absent,
          str_eq_iff invite.group_id j,
        ))

  put_group-older :
      (my_signing : Str) (invite : GroupInvite) (kg : SymmetricKey) (d : VaultData) (j : Str)
      (g : Group)
      → group_by_id d invite.group_id ≡ some g
      → ltb invite.epoch g.epoch ≡ true
      → put_group my_signing invite kg d ≡ d
  unfolding put_group
  put_group-older my_signing invite kg d j g found older = rw (put_group, found) (rw older refl)

  rewritten : Str → GroupInvite → SymmetricKey → Group → Group
  rewritten my_signing invite kg g = record g {
    name = invite.name;
    members = others my_signing invite.members;
    epoch = invite.epoch;
    key = p.hex_encode kg;
  }

  put_group-newer :
      (my_signing : Str) (invite : GroupInvite) (kg : SymmetricKey) (d : VaultData) (j : Str)
      (g : Group)
      → group_by_id d invite.group_id ≡ some g
      → ltb invite.epoch g.epoch ≡ false
      → group_by_id (put_group my_signing invite kg d) j ≡ (
          if str_eq invite.group_id j then some (invited my_signing invite kg) else group_by_id d j)
  unfolding group_by_id put_group rewritten
  put_group-newer my_signing invite kg d j g found newer =
      let same : rewritten my_signing invite kg g ≡ invited my_signing invite kg =
        ap (λ (i : Str). record (invited my_signing invite kg) { id = i })
          (str_eq-eq g.id invite.group_id
            (find-holds (λ (g : Group). str_eq g.id invite.group_id) d.groups g found)) in
      rw (put_group, found)
        (rw newer (
          set_group-find invite.group_id j (rewritten my_signing invite kg) d.groups g (λ _. refl)
            found
          ∙ ap (λ r. if str_eq invite.group_id j then some r else group_by_id d j) same))

  -- the group that an invite leaves under its identifier
  abbrev pub settled : Str → GroupInvite → SymmetricKey → Option Group → Option Group
  settled my_signing invite kg none = some (invited my_signing invite kg)
  settled my_signing invite kg (some g) =
      if ltb invite.epoch g.epoch then some g else some (invited my_signing invite kg)

  -- After an invite, its group is the invited one, unless one of a newer epoch was known: that stays.
  -- Every other group is as it was.
  pub group_by_id-put_group :
      (my_signing : Str) (invite : GroupInvite) (kg : SymmetricKey) (d : VaultData) (j : Str)
      → group_by_id (put_group my_signing invite kg d) j ≡ (
          if str_eq invite.group_id j
          then settled my_signing invite kg (group_by_id d invite.group_id)
          else group_by_id d j)
  group_by_id-put_group my_signing invite kg d j = elim (Option-cases known) [
    | inl absent ↦ rw absent (put_group-new my_signing invite kg d j absent)
    | inr (g, found) ↦ elim (Bool-cases (ltb invite.epoch g.epoch)) [
      | inl older ↦
          rw (put_group-older my_signing invite kg d j g found older)
            (rw found (rw older (ground (arith, found, str_eq_iff invite.group_id j))))
      | inr newer ↦ rw found (rw newer (put_group-newer my_signing invite kg d j g found newer))
    ]
  ]
    where
      known : Option Group
      known = group_by_id d invite.group_id

  put_group-epoch :
      (my_signing : Str) (invite : GroupInvite) (kg : SymmetricKey) (d : VaultData) (j : Str)
      (g : Group)
      → group_by_id d j ≡ some g
      → (g' : Group) × (group_by_id (put_group my_signing invite kg d) j ≡ some g')
        × (g.epoch ≤ g'.epoch)
  put_group-epoch my_signing invite kg d j g h =
      let after = group_by_id-put_group my_signing invite kg d j in
      elim (Bool-cases (str_eq invite.group_id j)) [
        | inr other ↦ (g, after ∙ ground (arith, other, h), omega arith)
        | inl same ↦
            let here : group_by_id d invite.group_id ≡ some g =
              subst (λ i. group_by_id d i ≡ some g) (sym (str_eq-eq invite.group_id j same)) h in
            elim (Bool-cases (ltb invite.epoch g.epoch)) [
              | inl older ↦ (g, after ∙ rw same (rw here (rw older refl)), omega arith)
              | inr newer ↦ (
                invited my_signing invite kg,
                after ∙ rw same (rw here (rw newer refl)),
                ground arith,
              )
            ]
      ]

  module _ ⦃s : Serde⦄ where
    -- Whatever an invite says, it takes no group away, and sets back the epoch of none.
    pub handle_invite-epoch :
        (nonce : Bytes) (invite : GroupInvite) (disk : Disk) (u : Unlocked) (j : Str) (g : Group)
        → group_by_id u.data' j ≡ some g
        → (g' : Group) × (group_by_id (handle_invite nonce invite disk u).1.data' j ≡ some g')
          × (g.epoch ≤ g'.epoch)
    unfolding handle_invite
    handle_invite-epoch nonce invite disk u j g h =
        elim (Result-cases (open_invite u.data' invite)) [
          | inr (e, refused) ↦ rw refused (g, h, omega arith)
          | inl ((my_signing, kg), opened) ↦
              rw opened (put_group-epoch my_signing invite kg u.data' j g h)
        ]

    -- invites one after the other, each with the nonce of its save
    unfoldable pub handle_invites : List (Bytes × GroupInvite) → Disk → Unlocked → Disk × Unlocked
    handle_invites [] disk u = (disk, u)
    handle_invites ((nonce, invite) ∷ rest) disk u =
        let (disk', u', _) = handle_invite nonce invite disk u in handle_invites rest disk' u'

    -- No sequence of invites takes a group away or sets back its epoch.
    pub handle_invites-epoch :
        (invites : List (Bytes × GroupInvite)) (disk : Disk) (u : Unlocked) (j : Str) (g : Group)
        → group_by_id u.data' j ≡ some g
        → (g' : Group) × (group_by_id (handle_invites invites disk u).1.data' j ≡ some g')
          × (g.epoch ≤ g'.epoch)
    unfolding handle_invites
    handle_invites-epoch [] disk u j g h = (g, h, omega arith)
    handle_invites-epoch ((nonce, invite) ∷ rest) disk u j g h =
        let (g', h', e) = handle_invite-epoch nonce invite disk u j g h in
        let next = handle_invite nonce invite disk u in
        let (g'', h'', e') = handle_invites-epoch rest next.0 next.1 j g' h' in
        (g'', h'', omega arith)

    -- A key update that a friend sealed replaces the key of the conversation that it names, whatever
    -- epoch was stored, and leaves the other conversations their keys. One that does not open, and no other, is
    -- refused and changes nothing.
    pub on_key_update-cases :
        (nonce : Bytes) (ku : KeyUpdate) (disk : Disk) (u : Unlocked) (j : Str)
        → ((e : CoreError) × (open_update u.data' ku ≡ err e)
            × (on_key_update nonce ku disk u ≡ (disk, u, err e)))
          ⊎ ((key : SymmetricKey) × (open_update u.data' ku ≡ ok key)
              × (direct_key (on_key_update nonce ku disk u).1.data' j ≡ (
                  if str_eq ku.conversation_id j
                  then some (record {
                    conversation_id = ku.conversation_id;
                    epoch = ku.epoch;
                    key = p.hex_encode key;
                  })
                  else direct_key u.data' j)))
    unfolding on_key_update
    on_key_update-cases nonce ku disk u j = elim (Result-cases (open_update u.data' ku)) [
      | inr (e, refused) ↦ inl (e, refused, rw refused refl)
      | inl (key, opened) ↦ inr (
        key,
        opened,
        rw opened
            (direct_key-set_direct_key ku.conversation_id j ku.epoch (p.hex_encode key) u.data'),
      )
    ]
