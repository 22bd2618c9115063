-- ===== src/Matrix/Timeline/History.antt =====
-- The history of a room as it is answered: the reactions of each message, and their order.
use seqr.Prelude.{
  ℕ, ◌≡◌, refl, ◌∙◌, Str, str_leb-total, str_leb_trans, Bool, true, false, List, [], ◌∷◌, map,
  Option, none, some, Option-cases, Bool-cases, inl, inr, text, All, arith,
}
use seqr.Prelude.Assoc.{lookup}
use seqr.Matrix.Timeline.{
  RawEvent, MatrixMessage, MatrixReaction, Reactions, reaction_leb, insert_reaction, sort_reactions,
  to_reactions, reactions_of, is_ty, scan_message, scan_event, scan_events, attach_reactions,
  room_messages,
}
use seqr.Matrix.Timeline.Tallied.{shown, tally, count_reactions, tally-scan_events}

shown-insert_reaction :
    (key : Str) (r : MatrixReaction) (rs : List MatrixReaction)
    → shown key (insert_reaction r rs) ≡ shown key (r ∷ rs)
unfolding shown insert_reaction
shown-insert_reaction key r [] = refl
shown-insert_reaction key r (s ∷ rs) = ground (arith, shown-insert_reaction key r rs)

shown-sort_reactions :
    (key : Str) (rs : List MatrixReaction) → shown key (sort_reactions rs) ≡ shown key rs
unfolding shown sort_reactions
shown-sort_reactions key [] = refl
shown-sort_reactions key (r ∷ rs) =
    shown-insert_reaction key r (sort_reactions rs) ∙ ground (arith, shown-sort_reactions key rs)

abbrev pub LeReaction : MatrixReaction → MatrixReaction → Type 0
LeReaction r s = reaction_leb r s ≡ true

-- Each reaction comes before all that follow it.
unfoldable pub IsOrdered : List MatrixReaction → Type 0
IsOrdered [] = Unit
IsOrdered (r ∷ rs) = All (LeReaction r) rs × IsOrdered rs

reaction_leb-total : (r s : MatrixReaction) → reaction_leb r s ≡ false → LeReaction s r
unfolding reaction_leb
reaction_leb-total r s h = ground (arith, str_leb-total r.key s.key)

reaction_leb_trans : (r s t : MatrixReaction) → LeReaction r s → LeReaction s t → LeReaction r t
unfolding reaction_leb
reaction_leb_trans r s t h k = ground (arith, str_leb_trans r.key s.key t.key)

All-LeReaction :
    (r s : MatrixReaction) (rs : List MatrixReaction)
    → LeReaction r s
    → All (LeReaction s) rs
    → All (LeReaction r) rs
All-LeReaction r s [] h hs = tt
All-LeReaction r s (t ∷ rs) h (k, hs) = (reaction_leb_trans r s t h k, All-LeReaction r s rs h hs)

All-insert_reaction :
    (s r : MatrixReaction) (rs : List MatrixReaction)
    → LeReaction s r
    → All (LeReaction s) rs
    → All (LeReaction s) (insert_reaction r rs)
unfolding insert_reaction
All-insert_reaction s r [] h hs = (h, tt)
All-insert_reaction s r (t ∷ rs) h (k, hs) = elim (Bool-cases (reaction_leb r t)) [
  | inl le ↦ rw le (h, (k, hs))
  | inr gt ↦ rw gt (k, All-insert_reaction s r rs h hs)
]

insert_reaction-IsOrdered :
    (r : MatrixReaction) (rs : List MatrixReaction)
    → IsOrdered rs
    → IsOrdered (insert_reaction r rs)
unfolding IsOrdered insert_reaction
insert_reaction-IsOrdered r [] h = (tt, tt)
insert_reaction-IsOrdered r (s ∷ rs) (h, hs) = elim (Bool-cases (reaction_leb r s)) [
  | inl le ↦ rw le ((le, All-LeReaction r s rs le h), (h, hs))
  | inr gt ↦
      rw gt (
        All-insert_reaction s r rs (reaction_leb-total r s gt) h,
        insert_reaction-IsOrdered r rs hs,
      )
]

sort_reactions-IsOrdered : (rs : List MatrixReaction) → IsOrdered (sort_reactions rs)
unfolding IsOrdered sort_reactions
sort_reactions-IsOrdered [] = tt
sort_reactions-IsOrdered (r ∷ rs) =
    insert_reaction-IsOrdered r (sort_reactions rs) (sort_reactions-IsOrdered rs)

abbrev IsBare : MatrixMessage → Type 0
IsBare msg = msg.reactions ≡ []

scan_message-IsBare :
    (me : Option Str) (room_id : Str) (ev : RawEvent) (out : List MatrixMessage)
    → All IsBare out
    → All IsBare (scan_message me room_id ev out)
unfolding scan_message
scan_message-IsBare me room_id ev out h = elim (Option-cases ev.body) [
  | inl absent ↦ rw absent h
  | inr (body, present) ↦ rw present (refl, h)
]

scan_event-IsBare :
    (me : Option Str) (room_id : Str) (ev : Option RawEvent) (reactions : Reactions)
    (out : List MatrixMessage)
    → All IsBare out
    → All IsBare (scan_event me room_id ev (reactions, out)).1
unfolding scan_event
scan_event-IsBare me room_id none reactions out h = h
scan_event-IsBare me room_id (some ev) reactions out h =
    elim (Bool-cases (is_ty (text "m.reaction") ev)) [
      | inl reaction ↦ rw reaction h
      | inr other ↦ rw other (elim (Bool-cases (is_ty (text "m.room.message") ev)) [
        | inl message ↦ rw message (scan_message-IsBare me room_id ev out h)
        | inr passed ↦ rw passed h
      ])
    ]

scan_events-IsBare :
    (me : Option Str) (room_id : Str) (chunk : List (Option RawEvent)) (reactions : Reactions)
    (out : List MatrixMessage)
    → All IsBare out
    → All IsBare (scan_events me room_id chunk (reactions, out)).1
unfolding scan_events
scan_events-IsBare me room_id [] reactions out h = h
scan_events-IsBare me room_id (ev ∷ chunk) reactions out h =
    let (reactions', out') = scan_event me room_id ev (reactions, out) in
    scan_events-IsBare me room_id chunk reactions' out'
      (scan_event-IsBare me room_id ev reactions out h)

-- the number of reactions with a key to a message, in the events of its room
unfoldable pub reactions_to : Option Str → List (Option RawEvent) → Str → Option Str → ℕ × Bool
reactions_to me chunk key none = (0, false)
reactions_to me chunk key (some eid) = count_reactions me eid key chunk

-- What a message of the history must show.
abbrev pub ShowsReactions : Option Str → List (Option RawEvent) → MatrixMessage → Type 0
ShowsReactions me chunk msg =
    ((key : Str) → shown key msg.reactions ≡ reactions_to me chunk key msg.event_id)
    × IsOrdered msg.reactions

-- The list of a message is read off the table.
reactions_of_lem :
    (key eid : Str) (reactions : Reactions)
    → shown key (reactions_of (some eid) reactions []) ≡ tally eid key reactions
unfolding reactions_of tally shown to_reactions
reactions_of_lem key eid reactions = elim (Option-cases (lookup eid reactions)) [
  | inl absent ↦ rw (reactions_of, absent) refl
  | inr (of_target, present) ↦
      rw (reactions_of, present) (shown-sort_reactions key (to_reactions of_target))
]

reactions_of-IsOrdered :
    (eid : Option Str) (reactions : Reactions) → IsOrdered (reactions_of eid reactions [])
unfolding reactions_of IsOrdered
reactions_of-IsOrdered none reactions = tt
reactions_of-IsOrdered (some eid) reactions = elim (Option-cases (lookup eid reactions)) [
  | inl absent ↦ rw (reactions_of, absent) tt
  | inr (of_target, present) ↦
      rw (reactions_of, present) (sort_reactions-IsOrdered (to_reactions of_target))
]

reactions_to_lem :
    (me : Option Str) (room_id key : Str) (eid : Option Str) (chunk : List (Option RawEvent))
    → shown key (reactions_of eid (scan_events me room_id chunk ([], [])).0 [])
      ≡ reactions_to me chunk key eid
unfolding reactions_to reactions_of shown tally to_reactions lookup
reactions_to_lem me room_id key none chunk = refl
reactions_to_lem me room_id key (some eid) chunk =
    reactions_of_lem key eid (scan_events me room_id chunk ([], [])).0
    ∙ (tally-scan_events me room_id eid key chunk [] [] ∙ ground arith)

attach_reactions_lem :
    (me : Option Str) (room_id : Str) (chunk : List (Option RawEvent)) (msg : MatrixMessage)
    → IsBare msg
    → ShowsReactions me chunk (attach_reactions (scan_events me room_id chunk ([], [])).0 msg)
unfolding attach_reactions
attach_reactions_lem me room_id chunk msg bare = rw bare (
  λ key. reactions_to_lem me room_id key msg.event_id chunk,
  reactions_of-IsOrdered msg.event_id (scan_events me room_id chunk ([], [])).0,
)

All-attach_reactions :
    (me : Option Str) (room_id : Str) (chunk : List (Option RawEvent)) (out : List MatrixMessage)
    → All IsBare out
    → All
        (ShowsReactions me chunk)
        (map (attach_reactions (scan_events me room_id chunk ([], [])).0) out)
All-attach_reactions me room_id chunk [] h = tt
All-attach_reactions me room_id chunk (msg ∷ out) (bare, h) =
    (attach_reactions_lem me room_id chunk msg bare, All-attach_reactions me room_id chunk out h)

-- Whatever a room answers, each message of the history shows for each key the number of the events that are a
-- reaction with that key to it, marked as one's own if one of them is, and shows the reactions in their order: by
-- count, the greatest first, then by key.
pub room_messages-ShowsReactions :
    (me : Option Str) (room_id : Str) (chunk : List (Option RawEvent))
    → All (ShowsReactions me chunk) (room_messages me room_id chunk)
unfolding room_messages
room_messages-ShowsReactions me room_id chunk =
    All-attach_reactions me room_id chunk (scan_events me room_id chunk ([], [])).1
      (scan_events-IsBare me room_id chunk [] [] tt)
