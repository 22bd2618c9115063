-- ===== src/Examples/MatrixRuns.antt =====
-- A login to Matrix with a toy SDK and a start of the program behind it, the history of a room with three reactions, a verification,
-- and the theorems on them.
use seqr.Prelude.{
  true, ◌≡◌, refl, ap, Bytes, Str, text, false, [], ◌∷◌, Option, none, some, List, All,
  take-length-append, drop-length-append,
}
use seqr.Prelude.Result.{ok, err}
use seqr.Crypto.Kdf.{derive_vault_key}
use seqr.Examples.Toy.{toy, toy_scheme, field, parse_field}
use seqr.Examples.VaultRuns.{draws, password, key}
use seqr.Matrix.SessionFile.{Codec, CodecLaws, FullSession, SealedSession}
use seqr.Matrix.Session.{
  Sdk, MatrixState, Draws, status_of, matrix_login, matrix_unlock, matrix_start_sync,
}
use seqr.Matrix.Session.Restart.{
  restarted, starts, matrix_unlock-matrix_login, matrix_start_sync_stuck,
}
use seqr.Matrix.Verification.{
  SasView, Sas, ready, transitioned, done_state, other_state, emojis, done, drive_request,
}
use seqr.Matrix.Verification.Surfaced.{passing, not_started, by_peer, drive_request-done}
use seqr.Matrix.Timeline.{RawEvent, room_messages}
use seqr.Matrix.Timeline.History.{ShowsReactions, room_messages-ShowsReactions}

abbrev token_out : Option Str → Str
token_out none = []
token_out (some token) = 1 ∷ token

abbrev token_in : Str → Option Str
token_in [] = none
token_in (_ ∷ token) = some token

token_in-token_out : (t : Option Str) → token_in (token_out t) ≡ t
token_in-token_out none = refl
token_in-token_out (some token) = refl

abbrev full_out : FullSession → Bytes
full_out f = field f.client_session.homeserver (
    field f.client_session.db_path
      (field f.client_session.passphrase (field f.user_session (token_out f.sync_token))))

abbrev full_in : Bytes → FullSession
full_in b =
    let (homeserver, b1) = parse_field b in
    let (db_path, b2) = parse_field b1 in
    let (passphrase, b3) = parse_field b2 in
    let (user_session, token) = parse_field b3 in
    record {
      client_session = record {
        homeserver = homeserver;
        db_path = db_path;
        passphrase = passphrase;
      };
      user_session = user_session;
      sync_token = token_in token;
    }

full_in-full_out : (f : FullSession) → full_in (full_out f) ≡ f
full_in-full_out f =
    let c = f.client_session in
    let b4 = token_out f.sync_token in
    let b3 = field f.user_session b4 in
    let b2 = field c.passphrase b3 in
    let b1 = field c.db_path b2 in
    rw (take-length-append c.homeserver b1, drop-length-append c.homeserver b1)
      (rw (take-length-append c.db_path b2, drop-length-append c.db_path b2)
        (rw (take-length-append c.passphrase b3, drop-length-append c.passphrase b3)
          (rw (take-length-append f.user_session b4, drop-length-append f.user_session b4)
            (rw (token_in-token_out f.sync_token) refl))))

abbrev envelope_in : Str → SealedSession
envelope_in s = let (salt, sealed) = parse_field s in record { salt = salt; sealed = sealed }

abbrev codec : Codec
codec = record {
  base64_encode = λ b. b;
  base64_decode = λ s. ok s;
  full_to_json = full_out;
  full_from_json = λ b. ok (full_in b);
  envelope_to_json = λ e. field e.salt e.sealed;
  envelope_from_json = λ s. ok (envelope_in s);
}

codec_laws : CodecLaws codec
codec_laws = record {
  decode-encode = λ b. refl;
  full_read = λ f. ap ok (full_in-full_out f);
  envelope_read =
      λ e. rw (take-length-append e.salt e.sealed, drop-length-append e.salt e.sealed) refl;
}

-- The client is the name of its user; a session is the name.
abbrev sdk : Sdk Str
sdk = record {
  build_client = λ homeserver db_path passphrase. ok [];
  login_username = λ username password' c. ok username;
  register = λ username password' c. ok username;
  register_with = λ token session username password' c. ok username;
  session = λ c. some c;
  restore_session = λ session c. ok session;
  user_id = λ c. some c;
  device_id = λ c. some (text "device");
}

abbrev logged_out : MatrixState Str
logged_out = record {
  data_dir = text "data";
  homeserver_url = text "https://matrix";
  client = none;
  syncing = false;
  files = record { files = []; refuses = none };
}

abbrev drawn : Draws
drawn = record { passphrase = text "random"; salt = draws.salt; nonce = draws.nonce }

-- matrix_unlock-matrix_login applies to a login as ada.
matrix_unlock-matrix_login_example :
    let (st', status) = matrix_login sdk ⦃p = toy⦄ codec drawn (text "ada") password logged_out in
    (status ≡ ok (status_of sdk (some (text "ada")) (text "https://matrix")))
    × (matrix_unlock sdk ⦃p = toy⦄ codec password (restarted st')
        ≡ (record (restarted st') { client = some (text "ada") }, status))
unfolding derive_vault_key
matrix_unlock-matrix_login_example =
    matrix_unlock-matrix_login sdk ⦃p = toy⦄ codec toy_scheme codec_laws drawn (text "ada") password
      key (text "ada") [] (text "ada") (text "ada") logged_out refl refl refl refl refl refl refl
      (record { user = refl; device = refl })

-- matrix_start_sync_stuck applies to a call before the login, and two behind it.
matrix_start_sync_stuck_example :
    let (st', r) = matrix_start_sync logged_out in
    (r ≡ err (text "not logged in")) × (starts (some (text "ada") ∷ some (text "ada") ∷ []) st' ≡ 0)
matrix_start_sync_stuck_example =
    matrix_start_sync_stuck (some (text "ada") ∷ some (text "ada") ∷ []) logged_out refl refl

abbrev message : Str → Str → RawEvent
message eid body = record {
  ty = some (text "m.room.message");
  sender = some (text "bob");
  event_id = some eid;
  origin_server_ts = some 5;
  body = some body;
  msgtype = none;
  target = none;
  key = none;
}

abbrev reaction : Str → Str → Str → RawEvent
reaction sender target key' = record {
  ty = some (text "m.reaction");
  sender = some sender;
  event_id = none;
  origin_server_ts = none;
  body = none;
  msgtype = none;
  target = some target;
  key = some key';
}

-- newest first, with an event that is not JSON
abbrev chunk : List (Option RawEvent)
chunk =
    some (reaction (text "ada") (text "e1") (text "+"))
    ∷ none
    ∷ some (reaction (text "bob") (text "e1") (text "+"))
    ∷ some (message (text "e2") (text "two"))
    ∷ some (reaction (text "bob") (text "e1") (text "*"))
    ∷ some (message (text "e1") (text "one"))
    ∷ []

-- room_messages-ShowsReactions applies to a room with two messages and three reactions.
room_messages-ShowsReactions_example :
    All
      (ShowsReactions (some (text "ada")) chunk)
      (room_messages (some (text "ada")) (text "room") chunk)
room_messages-ShowsReactions_example =
    room_messages-ShowsReactions (some (text "ada")) (text "room") chunk

abbrev view : SasView
view = record { emoji = some ((text "*", text "star") ∷ []); is_done = false }

abbrev unseen : SasView
unseen = record { emoji = none; is_done = false }

abbrev finished : SasView
finished = record { emoji = some ((text "+", text "plus") ∷ []); is_done = true }

abbrev sas : Sas
sas = record { accepted = unseen; changes = view ∷ unseen ∷ finished ∷ view ∷ [] }

-- drive_request-done applies to a request that becomes a SAS, which is done with its third change.
drive_request-done_example :
    drive_request (other_state ∷ ready none ∷ transitioned (some sas) ∷ done_state ∷ []) none ≡ (
      none,
      emojis ((text "*", text "star") ∷ []) ∷ emojis ((text "+", text "plus") ∷ []) ∷ done ∷ [],
    )
drive_request-done_example =
    drive_request-done (other_state ∷ ready none ∷ []) (done_state ∷ []) (transitioned (some sas))
      sas (view ∷ unseen ∷ []) (view ∷ []) finished none (passing, (not_started, tt)) by_peer refl
      (refl, (refl, tt)) refl
