-- ===== src/Matrix/Timeline.antt =====
-- matrix/commands.rs: the history of a room for the interface, from the raw events of the homeserver, newest first.
-- An event is its fields as the code reads them from the JSON, absent where the JSON lacks them or has another type.
pub mod Tallied
pub mod History
use seqr.Prelude.{
  ℕ, ◌+◌, ◌<◌, Str, text, str_eq, str_leb, Bool, true, false, not, ◌&&◌, ◌||◌, List, [], ◌∷◌, map,
  Option, none, some, if◌then◌else◌, ltb,
}
use seqr.Prelude.Assoc.{Assoc, lookup, insert}
use seqr.Prelude.Result.{Result, ok, err, ◌>>=◌, ok_or}
use mathlib.Core.List.{reverse}

pub record MatrixReaction : Type 0 where
  pub key : Str
  pub count : ℕ
  pub mine : Bool

pub record MatrixMessage : Type 0 where
  pub room_id : Str
  pub event_id : Option Str
  pub sender : Str
  pub body : Str
  pub msgtype : Str
  pub ts : ℕ
  pub outgoing : Bool
  pub reactions : List MatrixReaction

pub record RawEvent : Type 0 where
  pub ty : Option Str
  pub sender : Option Str
  pub event_id : Option Str
  pub origin_server_ts : Option ℕ
  pub body : Option Str
  pub msgtype : Option Str
  pub target : Option Str
  pub key : Option Str

-- `Option::unwrap_or`
abbrev pub unwrap_or {ℓ} : {A : Type ℓ} → A → Option A → A
unwrap_or default none = default
unwrap_or default (some x) = x

-- `HashMap<String, HashMap<String, (u64, bool)>>`
abbrev pub Reactions : Type 0
Reactions = Assoc (Assoc (ℕ × Bool))

-- `me.as_deref() == Some(sender)`
unfoldable pub is_me : Option Str → Str → Bool
is_me none sender = false
is_me (some me) sender = str_eq me sender

unfoldable pub add_reaction : Option Str → Str → Str → Str → Reactions → Reactions
add_reaction me sender target key reactions =
    let of_target = unwrap_or [] (lookup target reactions) in
    let (count, mine) = unwrap_or (0, false) (lookup key of_target) in
    insert target (insert key (count + 1, mine || is_me me sender) of_target) reactions

-- the reactions and the messages so far, the last one first
abbrev pub Scan : Type 0
Scan = Reactions × List MatrixMessage

-- an event of the type "m.reaction"
unfoldable pub scan_reaction : Option Str → RawEvent → Reactions → Reactions
unfolding add_reaction
scan_reaction me ev reactions = elim ev.target [
  | none ↦ reactions
  | some target ↦ elim ev.key [
    | none ↦ reactions
    | some key ↦ add_reaction me (unwrap_or [] ev.sender) target key reactions
  ]
]

-- an event of the type "m.room.message"
unfoldable pub scan_message : Option Str → Str → RawEvent → List MatrixMessage → List MatrixMessage
unfolding is_me
scan_message me room_id ev out = elim ev.body [
  | none ↦ out
  | some body ↦
      record {
        room_id = room_id;
        event_id = ev.event_id;
        sender = unwrap_or [] ev.sender;
        body = body;
        msgtype = unwrap_or (text "m.text") ev.msgtype;
        ts = unwrap_or 0 ev.origin_server_ts;
        outgoing = is_me me (unwrap_or [] ev.sender);
        reactions = [];
      }
      ∷ out
]

abbrev pub is_ty : Str → RawEvent → Bool
is_ty name ev = str_eq (unwrap_or [] ev.ty) name

-- one turn of the loop over the events; an event that is not JSON is passed over
unfoldable pub scan_event : Option Str → Str → Option RawEvent → Scan → Scan
unfolding scan_reaction scan_message
scan_event me room_id none scan = scan
scan_event me room_id (some ev) (reactions, out) =
    if is_ty (text "m.reaction") ev
    then (scan_reaction me ev reactions, out)
    else if is_ty (text "m.room.message") ev
    then (reactions, scan_message me room_id ev out)
    else (reactions, out)

unfoldable pub scan_events : Option Str → Str → List (Option RawEvent) → Scan → Scan
unfolding scan_event
scan_events me room_id [] scan = scan
scan_events me room_id (ev ∷ chunk) scan =
    scan_events me room_id chunk (scan_event me room_id ev scan)

-- by count, the greatest first, then by key
unfoldable pub reaction_leb : MatrixReaction → MatrixReaction → Bool
reaction_leb a b = ltb b.count a.count || (not (ltb a.count b.count) && str_leb a.key b.key)

-- `sort_by`: no two reactions of a message have the same key, so its stability does not show
unfoldable pub insert_reaction : MatrixReaction → List MatrixReaction → List MatrixReaction
insert_reaction r [] = r ∷ []
insert_reaction r (s ∷ rs) =
    let rest = insert_reaction r rs in if reaction_leb r s then r ∷ s ∷ rs else s ∷ rest

unfoldable pub sort_reactions : List MatrixReaction → List MatrixReaction
unfolding insert_reaction
sort_reactions [] = []
sort_reactions (r ∷ rs) = insert_reaction r (sort_reactions rs)

unfoldable pub to_reactions : Assoc (ℕ × Bool) → List MatrixReaction
to_reactions [] = []
to_reactions ((key, (count, mine)) ∷ rest) =
    record { key = key; count = count; mine = mine } ∷ to_reactions rest

unfoldable pub reactions_of : Option Str → Reactions → List MatrixReaction → List MatrixReaction
unfolding sort_reactions to_reactions
reactions_of none reactions before = before
reactions_of (some eid) reactions before = elim (lookup eid reactions) [
  | none ↦ before
  | some of_target ↦ sort_reactions (to_reactions of_target)
]

unfoldable pub attach_reactions : Reactions → MatrixMessage → MatrixMessage
unfolding reactions_of
attach_reactions reactions msg = record msg {
  reactions = reactions_of msg.event_id reactions msg.reactions;
}

-- `matrix_room_messages`, from the events that the room answers; `out` is built last first, so the code's
-- reversal of it is the list as it stands
unfoldable pub room_messages : Option Str → Str → List (Option RawEvent) → List MatrixMessage
unfolding scan_events attach_reactions
room_messages me room_id chunk =
    let (reactions, out) = scan_events me room_id chunk ([], []) in
    map (attach_reactions reactions) out
