-- ===== src/Matrix/Verification.antt =====
-- matrix/verification.rs: the verification of a device by emojis. The SDK's streams of changes are lists, which end where
-- the stream ends; a change of a SAS is what the code then reads of it. What is sent to the interface is a list.
pub mod Surfaced
use seqr.Prelude.{
  Str, Bool, true, false, List, [], ◌∷◌, ◌++◌, Option, none, some, if◌then◌else◌, text,
}
use seqr.Prelude.Result.{Result, ◌>>=◌, ok_or}

-- a symbol and its description
abbrev pub EmojiDto : Type 0
EmojiDto = Str × Str

-- `VerificationRequestState`; with `ready`, what `start_sas` then answers, and with `transitioned`, the SAS if it is one
pub data RequestState (V : Type 0) : Type 0 where
  ready : Option V → RequestState V
  transitioned : Option V → RequestState V
  done_state : RequestState V
  cancelled : RequestState V
  other_state : RequestState V

-- what a SAS tells of itself at some moment
pub record SasView : Type 0 where
  pub emoji : Option (List EmojiDto)
  pub is_done : Bool

-- the events of the interface
pub data SasEvent : Type 0 where
  emojis : List EmojiDto → SasEvent
  done : SasEvent

-- the loop of `drive_request`: the SAS that the request becomes
unfoldable pub find_sas : {V : Type 0} → List (RequestState V) → Option V
find_sas [] = none
find_sas (ready (some s) ∷ stream) = some s
find_sas (ready none ∷ stream) = find_sas stream
find_sas (transitioned (some s) ∷ stream) = some s
find_sas (transitioned none ∷ stream) = find_sas stream
find_sas (done_state ∷ stream) = none
find_sas (cancelled ∷ stream) = none
find_sas (other_state ∷ stream) = find_sas stream

unfoldable pub emit_emojis : SasView → List SasEvent
emit_emojis view = elim view.emoji [ none ↦ [] | some list ↦ emojis list ∷ [] ]

-- the loop of `drive_sas` over the changes
unfoldable pub watch : List SasView → List SasEvent
unfolding emit_emojis
watch [] = []
watch (view ∷ stream) =
    let rest = watch stream in emit_emojis view ++ (if view.is_done then done ∷ [] else rest)

-- A SAS that is driven: what is read of it when it was accepted, and its changes.
pub record Sas : Type 0 where
  pub accepted : SasView
  pub changes : List SasView

-- the slot `sas` of the state while the changes are watched and at the end, and what was sent
unfoldable pub drive_sas : Sas → Option Sas × Option Sas × List SasEvent
unfolding emit_emojis watch
drive_sas sas = (some sas, none, emit_emojis sas.accepted ++ watch sas.changes)

-- Without a SAS the slot stays.
unfoldable pub drive_request : List (RequestState Sas) → Option Sas → Option Sas × List SasEvent
unfolding find_sas drive_sas
drive_request stream slot = elim (find_sas stream) [
  | none ↦ (slot, [])
  | some sas ↦ let (during, after, events) = drive_sas sas in (after, events)
]

-- What the SDK answers to `confirm` is an argument.
unfoldable pub matrix_confirm_verification :
    (Sas → Result Str (Unit {0})) → Option Sas → Result Str (Unit {0})
matrix_confirm_verification confirm slot = do
  sas ← ok_or slot (text "no active verification")
  confirm sas

-- the slot after `matrix_cancel_verification`, and the SAS that the SDK is told to cancel
unfoldable pub matrix_cancel_verification : Option Sas → Option Sas × Option Sas
matrix_cancel_verification slot = (none, slot)
