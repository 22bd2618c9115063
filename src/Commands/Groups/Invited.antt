-- ===== src/Commands/Groups/Invited.antt =====
-- What the invites of a rotation or of a new group are, recipient by recipient.
use seqr.Prelude.{ℕ, zero, suc, ◌+◌, Bytes, Str, List, [], ◌∷◌, some, map, ◌≡◌, ap, ◌∙◌, arith, sym}
use seqr.Prelude.Result.{ok, >>=-eq-ok}
use seqr.Commands.{Outgoing}
use seqr.Core.Error.{CoreResult}
use seqr.Core.Group.{seal_group_key}
use seqr.Core.Packet.{GroupInvite, group_invite}
use seqr.Prelude.Positions.{get_elem?}
use seqr.Core.Vault.{Friend}
use seqr.Crypto.Error.{SymmetricKey}
use seqr.Crypto.Keys.{Identity}
use seqr.Crypto.Primitives.{Primitives}
use seqr.Commands.Groups.{invites}

ok-injective :
    (xs ys : List Outgoing) → ◌≡◌ {A = CoreResult (List Outgoing)} (ok xs) (ok ys) → xs ≡ ys
ok-injective xs ys h = ground (arith, h)

next_suc : (i : ℕ) → suc i ≡ i + 1
next_suc i = omega arith

some-injective : (a b : Friend) → some a ≡ some b → a ≡ b
some-injective a b h = ground (arith, h)

module _ ⦃p : Primitives⦄ where
  pub invites-recipients :
      (nonces : ℕ → Bytes) (me : Identity) (invite : GroupInvite) (kg : SymmetricKey)
      (rs : List Friend) (sent : List Outgoing)
      → invites nonces me invite kg rs ≡ ok sent
      → map (λ o. o.recipient) sent ≡ map (λ m. m.signing_public) rs
  unfolding invites
  invites-recipients nonces me invite kg [] sent h =
      ap (map (λ o. o.recipient)) (sym (ok-injective [] sent h))
  invites-recipients nonces me invite kg (r ∷ rs) sent h =
      let (sealed, _, h1) =
        >>=-eq-ok (seal_group_key (nonces 0) me r invite.group_id invite.epoch kg) _ h in
      let (others, rest, h2) = >>=-eq-ok (invites (λ i. nonces (i + 1)) me invite kg rs) _ h1 in
      ground (arith, h2, invites-recipients (λ i. nonces (i + 1)) me invite kg rs others rest)

  -- what the recipient at a position is sent: an invite with the key, sealed for it
  pub invites-sealed :
      (nonces : ℕ → Bytes) (me : Identity) (invite : GroupInvite) (kg : SymmetricKey)
      (rs : List Friend) (sent : List Outgoing) (i : ℕ) (card : Friend)
      → invites nonces me invite kg rs ≡ ok sent
      → get_elem? rs i ≡ some card
      → (sealed : Str) × (get_elem? sent i
          ≡ some (record {
            recipient = card.signing_public;
            packet = group_invite (record invite { sealed_key = sealed });
          }))
        × (seal_group_key (nonces i) me card invite.group_id invite.epoch kg ≡ ok sealed)
  unfolding invites
  invites-sealed nonces me invite kg [] sent i card h at = absurd (ground arith)
  invites-sealed nonces me invite kg (r ∷ rs) sent zero card h at =
      let (sealed, s1, h1) =
        >>=-eq-ok (seal_group_key (nonces 0) me r invite.group_id invite.epoch kg) _ h in
      let (others, rest, h2) = >>=-eq-ok (invites (λ i. nonces (i + 1)) me invite kg rs) _ h1 in
      let same : r ≡ card = some-injective r card at in
      (
        sealed,
        ap (λ (os : List Outgoing). get_elem? os 0) (sym (ok-injective _ sent h2))
            ∙ ap
                (λ (f : Friend). some (record {
                  recipient = f.signing_public;
                  packet = group_invite (record invite { sealed_key = sealed });
                }))
                same,
        ap (λ f. seal_group_key (nonces 0) me f invite.group_id invite.epoch kg) (sym same) ∙ s1,
      )
  invites-sealed nonces me invite kg (r ∷ rs) sent (suc i) card h at =
      let (_, _, h1) =
        >>=-eq-ok (seal_group_key (nonces 0) me r invite.group_id invite.epoch kg) _ h in
      let (others, rest, h2) = >>=-eq-ok (invites (λ i. nonces (i + 1)) me invite kg rs) _ h1 in
      let (sealed, there, made) =
        invites-sealed (λ i. nonces (i + 1)) me invite kg rs others i card rest at in
      (
        sealed,
        ap (λ (os : List Outgoing). get_elem? os (suc i)) (sym (ok-injective _ sent h2)) ∙ there,
        ap (λ n. seal_group_key (nonces n) me card invite.group_id invite.epoch kg) (next_suc i)
            ∙ made,
      )
