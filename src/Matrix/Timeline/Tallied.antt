-- ===== src/Matrix/Timeline/Tallied.antt =====
-- What the history of a room holds: each reaction is counted once, and each message stands once, the oldest first.
use seqr.Prelude.{
  Bool-cases, inr, inl, Option-cases, ℕ, ◌+◌, ◌≡◌, refl, sym, Str, text, str_eq, str_eq_iff, Bool,
  false, ◌&&◌, ◌||◌, List, [], ◌∷◌, Option, none, some, if◌then◌else◌, arith,
}
use seqr.Prelude.Assoc.{Assoc, lookup, insert, lookup-insert}
use seqr.Matrix.Timeline.{
  to_reactions, MatrixReaction, RawEvent, MatrixMessage, Reactions, unwrap_or, is_me, is_ty,
  add_reaction, scan_reaction, scan_event, scan_events,
}

abbrev plus : ℕ × Bool → ℕ × Bool → ℕ × Bool
plus (n, a) (m, b) = (n + m, a || b)

-- what a list of reactions shows for a key: the counts added up, and whether one is marked as one's own
unfoldable pub shown : Str → List MatrixReaction → ℕ × Bool
shown key [] = (0, false)
shown key (r ∷ rs) =
    let rest = shown key rs in if str_eq r.key key then plus (r.count, r.mine) rest else rest

-- the tally of a key below a target, as the table has it
unfoldable pub tally : Str → Str → Reactions → ℕ × Bool
unfolding shown to_reactions
tally target key reactions = shown key (to_reactions (unwrap_or [] (lookup target reactions)))

abbrev is_some : Str → Option Str → Bool
is_some x none = false
is_some x (some y) = str_eq y x

-- The event is a reaction with this key to this target.
unfoldable pub reacts : Str → Str → Option RawEvent → Bool
reacts target key none = false
reacts target key (some ev) =
    is_ty (text "m.reaction") ev && (is_some target ev.target && is_some key ev.key)

abbrev from_me : Option Str → Option RawEvent → Bool
from_me me none = false
from_me me (some ev) = is_me me (unwrap_or [] ev.sender)

-- the number of the events that are that reaction, and whether one of them is one's own
unfoldable pub count_reactions : Option Str → Str → Str → List (Option RawEvent) → ℕ × Bool
unfolding reacts
count_reactions me target key [] = (0, false)
count_reactions me target key (ev ∷ chunk) =
    let (count, mine) = count_reactions me target key chunk in
    if reacts target key ev then (count + 1, from_me me ev || mine) else (count, mine)

shown-insert :
    (key key' : Str) (own : Bool) (m : Assoc (ℕ × Bool))
    → let (count, mine) = unwrap_or (0, false) (lookup key' m) in
      shown key (to_reactions (insert key' (count + 1, mine || own) m)) ≡ (
        if str_eq key' key
        then plus (shown key (to_reactions m)) (1, own)
        else shown key (to_reactions m))
unfolding shown to_reactions insert lookup
shown-insert key key' own [] = ground arith
shown-insert key key' own ((j, (n, a)) ∷ m) =
    ground
      (arith, str_eq_iff j key', str_eq_iff j key, str_eq_iff key' key, shown-insert key key' own m)

tally-add_reaction :
    (me : Option Str) (sender target key target' key' : Str) (reactions : Reactions)
    → tally target key (add_reaction me sender target' key' reactions) ≡ (
        if str_eq target' target && str_eq key' key
        then plus (tally target key reactions) (1, is_me me sender)
        else tally target key reactions)
unfolding tally add_reaction
tally-add_reaction me sender target key target' key' reactions =
    let of_target = unwrap_or [] (lookup target' reactions) in
    let (count, mine) = unwrap_or (0, false) (lookup key' of_target) in
    let of_key = insert key' (count + 1, mine || is_me me sender) of_target in
    rw (lookup-insert target' target of_key reactions) (elim (Bool-cases (str_eq target' target)) [
      | inl same ↦ rw same (
          rw (sym ((str_eq_iff target' target).0 same))
            (shown-insert key key' (is_me me sender) of_target))
      | inr other ↦ rw other refl
    ])

tally-scan_reaction :
    (me : Option Str) (target key : Str) (ev : RawEvent) (reactions : Reactions)
    → tally target key (scan_reaction me ev reactions) ≡ (
        if is_some target ev.target && is_some key ev.key
        then plus (tally target key reactions) (1, is_me me (unwrap_or [] ev.sender))
        else tally target key reactions)
unfolding scan_reaction
tally-scan_reaction me target key ev reactions = elim (Option-cases ev.target) [
  | inl no_target ↦ rw no_target refl
  | inr (target', to) ↦ elim (Option-cases ev.key) [
    | inl no_key ↦ rw to (rw no_key (ground arith))
    | inr (key', with_key) ↦ rw to (
        rw with_key
          (tally-add_reaction me (unwrap_or [] ev.sender) target key target' key' reactions))
  ]
]

tally-scan_event :
    (me : Option Str) (room_id target key : Str) (ev : Option RawEvent) (reactions : Reactions)
    (out : List MatrixMessage)
    → tally target key (scan_event me room_id ev (reactions, out)).0 ≡ (
        if reacts target key ev
        then plus (tally target key reactions) (1, from_me me ev)
        else tally target key reactions)
unfolding scan_event reacts
tally-scan_event me room_id target key none reactions out = refl
tally-scan_event me room_id target key (some ev) reactions out =
    ground (arith, tally-scan_reaction me target key ev reactions)

-- Whatever the events of a room are, the table that the history is made from has for each message and each key the
-- number of the reactions to it with that key, and whether one of them is one's own.
pub tally-scan_events :
    (me : Option Str) (room_id target key : Str) (chunk : List (Option RawEvent))
    (reactions : Reactions) (out : List MatrixMessage)
    → tally target key (scan_events me room_id chunk (reactions, out)).0
      ≡ plus (tally target key reactions) (count_reactions me target key chunk)
unfolding scan_events count_reactions
tally-scan_events me room_id target key [] reactions out = ground arith
tally-scan_events me room_id target key (ev ∷ chunk) reactions out =
    let (reactions', out') = scan_event me room_id ev (reactions, out) in
    let counts = tally-scan_event me room_id target key ev reactions out in
    let rest = tally-scan_events me room_id target key chunk reactions' out' in ground arith
