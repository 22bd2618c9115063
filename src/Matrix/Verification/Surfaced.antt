-- ===== src/Matrix/Verification/Surfaced.antt =====
-- What the interface is told of a verification that is carried through.
use seqr.Prelude.{
  ◌≡◌, refl, ap, ◌∙◌, true, false, List, [], ◌∷◌, ◌++◌, Option, none, some, map, All, Option-cases,
  inl, inr,
}
use seqr.Matrix.Verification.{
  EmojiDto, SasView, Sas, SasEvent, RequestState, ready, transitioned, other_state, emojis, done,
  find_sas, emit_emojis, watch, drive_sas, drive_request,
}

-- The states of a request that bring no SAS and do not end it.
pub data IsIdle : RequestState Sas → Type 0 where
  not_started : IsIdle (ready none)
  other_method : IsIdle (transitioned none)
  passing : IsIdle other_state

-- The states in which a request becomes a SAS.
pub data Opens (sas : Sas) : RequestState Sas → Type 0 where
  started : Opens sas (ready (some sas))
  by_peer : Opens sas (transitioned (some sas))

abbrev pub IsUndone : SasView → Type 0
IsUndone view = view.is_done ≡ false

-- the lists of emojis that some views have, in their order
abbrev pub shown : List SasView → List (List EmojiDto)
shown [] = []
shown (view ∷ views) = elim view.emoji [ none ↦ shown views | some list ↦ list ∷ shown views ]

find_sas-Opens :
    (before after : List (RequestState Sas)) (opener : RequestState Sas) (sas : Sas)
    → All IsIdle before
    → Opens sas opener
    → find_sas (before ++ opener ∷ after) ≡ some sas
unfolding find_sas
find_sas-Opens [] after _ sas idle started = refl
find_sas-Opens [] after _ sas idle by_peer = refl
find_sas-Opens (_ ∷ before) after opener sas (not_started, idle) opens =
    find_sas-Opens before after opener sas idle opens
find_sas-Opens (_ ∷ before) after opener sas (other_method, idle) opens =
    find_sas-Opens before after opener sas idle opens
find_sas-Opens (_ ∷ before) after opener sas (passing, idle) opens =
    find_sas-Opens before after opener sas idle opens

emit_emojis-shown :
    (view : SasView) (views : List SasView) (rest : List SasEvent)
    → emit_emojis view ++ (map emojis (shown views) ++ rest)
      ≡ map emojis (shown (view ∷ views)) ++ rest
unfolding emit_emojis
emit_emojis-shown view views rest = elim (Option-cases view.emoji) [
  | inl nothing ↦ rw (emit_emojis, nothing) refl
  | inr (list, some_shown) ↦ rw (emit_emojis, some_shown) refl
]

watch-done :
    (views late : List SasView) (last : SasView)
    → All IsUndone views
    → last.is_done ≡ true
    → watch (views ++ last ∷ late) ≡ map emojis (shown (views ++ last ∷ [])) ++ done ∷ []
unfolding watch
watch-done [] late last undone ends = rw ends (emit_emojis-shown last [] (done ∷ []))
watch-done (view ∷ views) late last (goes_on, undone) ends = rw goes_on (
    ap (λ es. emit_emojis view ++ es) (watch-done views late last undone ends)
    ∙ emit_emojis-shown view (views ++ last ∷ []) (done ∷ []))

-- A request that becomes a SAS, behind states that bring none, and whose changes come to one that is done, sends to
-- the interface the emojis of the accepted SAS and of its changes up to that one, as far as they have some and in
-- their order, and at last that it is done, once. What comes behind is not sent, and the slot is empty at the end.
pub drive_request-done :
    (before after : List (RequestState Sas)) (opener : RequestState Sas) (sas : Sas)
    (views late : List SasView) (last : SasView) (slot : Option Sas)
    → All IsIdle before
    → Opens sas opener
    → sas.changes ≡ views ++ last ∷ late
    → All IsUndone views
    → last.is_done ≡ true
    → drive_request (before ++ opener ∷ after) slot
      ≡ (none, map emojis (shown (sas.accepted ∷ views ++ last ∷ [])) ++ done ∷ [])
unfolding drive_request drive_sas
drive_request-done before after opener sas views late last slot idle opens splits undone ends =
    rw (drive_request, find_sas-Opens before after opener sas idle opens)
      (ap (λ es. (none, es))
        (ap (λ es. emit_emojis sas.accepted ++ es)
            (ap watch splits ∙ watch-done views late last undone ends)
          ∙ emit_emojis-shown sas.accepted (views ++ last ∷ []) (done ∷ [])))
