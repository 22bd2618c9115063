-- ===== src/Matrix/Session.antt =====
-- matrix/mod.rs and matrix/commands.rs: logging in and out, and the start of the sync loop. The SDK's client is a
-- parameter with what the commands call of it. The debug lines are not here.
pub mod Restart
use seqr.Prelude.{
  ℕ, Bytes, Str, text, Bool, true, false, not, List, [], ◌∷◌, ◌++◌, Option, none, some,
  if◌then◌else◌, strip_prefix,
}
use seqr.Prelude.Assoc.{Assoc, lookup}
use seqr.Prelude.Result.{Result, ok, err, ◌>>=◌, ok_or}
use seqr.Core.Attachment.Files.{Files, join_path, remove_file}
use seqr.Crypto.Primitives.{Primitives}
use seqr.Matrix.SessionFile.{
  Codec, ClientSession, FullSession, new_passphrase, write_encrypted_session,
  read_encrypted_session,
}

-- the SDK's client: `build_client` by homeserver, store and passphrase; the login, the answer of a registration without
-- and with a token (an error may be a challenge, which may name a session), what a session restores, and what a client tells of itself
pub record Sdk (C : Type 0) : Type 0 where
  pub build_client : Str → Str → Str → Result Str C
  pub login_username : Str → Bytes → C → Result Str C
  pub register : Str → Bytes → C → Result (Str × Option (Option Str)) C
  pub register_with : Str → Option Str → Str → Bytes → C → Result Str C
  pub session : C → Option Str
  pub restore_session : Str → C → Result Str C
  pub user_id : C → Option Str
  pub device_id : C → Option Str

-- `MatrixState`, with the files below its directory; its slot `sas` stands in Verification
pub record MatrixState (C : Type 0) : Type 0 where
  pub data_dir : Str
  pub homeserver_url : Str
  pub client : Option C
  pub syncing : Bool
  pub files : Files

pub record MatrixStatus : Type 0 where
  pub homeserver_url : Str
  pub logged_in : Bool
  pub user_id : Option Str
  pub device_id : Option Str

-- what a login draws
pub record Draws : Type 0 where
  pub passphrase : Bytes
  pub salt : Bytes
  pub nonce : Bytes

unfoldable pub drop_below : Str → Assoc Bytes → Assoc Bytes
drop_below dir [] = []
drop_below dir ((path, b) ∷ files) =
    let rest = drop_below dir files in
    elim (strip_prefix (dir ++ text "/") path) [ some _ ↦ rest | none ↦ (path, b) ∷ rest ]

-- `create_dir_all`, which a directory refuses as it refuses a file
abbrev pub made_dir : Files → Result Str (Unit {0})
made_dir fs = elim fs.refuses [ none ↦ ok tt | some reason ↦ err reason ]

-- `remove_dir_all` of the store
abbrev pub fresh_store : Str → Files → Files
fresh_store dir fs = record fs { files = drop_below dir fs.files }

abbrev not_logged_in : Str
not_logged_in = text "not logged in"

module _ {C : Type 0} where
  unfoldable pub store_dir : MatrixState C → Str
  store_dir st = join_path st.data_dir (text "matrix")

  unfoldable pub session_file : MatrixState C → Str
  unfolding store_dir
  session_file st = join_path (store_dir st) (text "session.json")

  -- The flag is set before the client is looked for. The last component tells whether a loop was started.
  unfoldable pub matrix_start_sync : MatrixState C → MatrixState C × Result Str Bool
  matrix_start_sync st =
      let st' : MatrixState C = record st { syncing = true } in
      if st.syncing
      then (st', ok false)
      else (st', (do client ← ok_or st.client not_logged_in; ok true))

  unfoldable pub matrix_logout : MatrixState C → MatrixState C × Result Str (Unit {0})
  unfolding session_file
  matrix_logout st = (
    record st { client = none; syncing = false; files = remove_file (session_file st) st.files },
    ok tt,
  )

  module _ (sdk : Sdk C) where
    unfoldable pub status_of : Option C → Str → MatrixStatus
    status_of (some c) homeserver = record {
      homeserver_url = homeserver;
      logged_in = elim (sdk.user_id c) [ none ↦ false | some _ ↦ true ];
      user_id = sdk.user_id c;
      device_id = sdk.device_id c;
    }
    status_of none homeserver = record {
      homeserver_url = homeserver;
      logged_in = false;
      user_id = none;
      device_id = none;
    }

    unfoldable pub matrix_status : MatrixState C → MatrixStatus
    unfolding status_of
    matrix_status st = status_of st.client st.homeserver_url

    module _ ⦃p : Primitives⦄ (codec : Codec) where
      -- the session of a logged-in client
      unfoldable pub full_session : Str → Str → MatrixState C → FullSession
      unfolding store_dir
      full_session passphrase user_session st = record {
        client_session = record {
          homeserver = st.homeserver_url;
          db_path = store_dir st;
          passphrase = passphrase;
        };
        user_session = user_session;
        sync_token = none;
      }

      unfoldable pub finished :
          C
          → MatrixState C
          → Files
          → Result Str (Unit {0})
          → MatrixState C × Result Str MatrixStatus
      unfolding status_of
      finished c st files' (err e) = (record st { files = files' }, err e)
      finished c st files' (ok _) =
          (record st { files = files'; client = some c }, ok (status_of (some c) st.homeserver_url))

      unfoldable pub with_session :
          Draws
          → Str
          → Bytes
          → Str
          → C
          → Option Str
          → MatrixState C
          → MatrixState C × Result Str MatrixStatus
      unfolding session_file
      with_session draws passphrase password no_session c none st = (st, err no_session)
      with_session draws passphrase password no_session c (some user_session) st =
          let (files', written) =
            write_encrypted_session codec draws.salt draws.nonce (session_file st) password
              (full_session passphrase user_session st) st.files in
          finished c st files' written

      -- what a logged-in client leaves: its session on disk, sealed with the password, and the client itself
      unfoldable pub keep_session :
          Draws
          → Str
          → Bytes
          → Str
          → Result Str C
          → MatrixState C
          → MatrixState C × Result Str MatrixStatus
      keep_session draws passphrase password no_session (err e) st = (st, err e)
      keep_session draws passphrase password no_session (ok c) st =
          with_session draws passphrase password no_session c (sdk.session c) st

      -- A login begins with an empty store, whatever comes of it.
      unfoldable pub matrix_login :
          Draws → Str → Bytes → MatrixState C → MatrixState C × Result Str MatrixStatus
      unfolding keep_session store_dir
      matrix_login draws username password st =
          let st' : MatrixState C = record st { files = fresh_store (store_dir st) st.files } in
          let passphrase = new_passphrase draws.passphrase in
          keep_session draws passphrase password (text "no session after login")
            (do
              _ ← made_dir st.files
              c ← sdk.build_client st.homeserver_url (store_dir st) passphrase
              sdk.login_username username password c)
            st'

      -- the answer to the challenge of a registration, which comes with the error
      abbrev registered : Str → Bytes → Str → C → Result Str C
      registered username password token c = elim (sdk.register username password c) [
        | ok c' ↦ ok c'
        | err (e, none) ↦ err e
        | err (e, some session) ↦ sdk.register_with token session username password c
      ]

      unfoldable pub matrix_register :
          Draws → Str → Bytes → Str → MatrixState C → MatrixState C × Result Str MatrixStatus
      unfolding keep_session store_dir
      matrix_register draws username password token st =
          let st' : MatrixState C = record st { files = fresh_store (store_dir st) st.files } in
          let passphrase = new_passphrase draws.passphrase in
          keep_session draws passphrase password (text "no session after registration")
            (do
              _ ← made_dir st.files
              c ← sdk.build_client st.homeserver_url (store_dir st) passphrase
              registered username password token c)
            st'

      -- A text that is not an envelope is removed. The test tells whether a text is JSON with both fields.
      unfoldable pub matrix_has_session :
          (Str → Bool) → MatrixState C → MatrixState C × Result Str Bool
      unfolding session_file
      matrix_has_session is_sealed st = elim (lookup (session_file st) st.files.files) [
        | none ↦ (st, ok false)
        | some content ↦
            if is_sealed content
            then (st, ok true)
            else (record st { files = remove_file (session_file st) st.files }, ok false)
      ]

      -- the client of a session
      unfoldable pub restored : FullSession → Result Str C
      restored full = do
        c ←
            sdk.build_client full.client_session.homeserver full.client_session.db_path
              full.client_session.passphrase
        sdk.restore_session full.user_session c

      unfoldable pub unlocked :
          MatrixState C → Option Str → Result Str C → MatrixState C × Result Str MatrixStatus
      unfolding status_of
      unlocked st none r = (st, ok (status_of none st.homeserver_url))
      unlocked st (some _) (err e) = (st, err e)
      unlocked st (some _) (ok c) =
          (record st { client = some c }, ok (status_of (some c) st.homeserver_url))

      unfoldable pub matrix_unlock : Bytes → MatrixState C → MatrixState C × Result Str MatrixStatus
      unfolding session_file restored
      matrix_unlock password st = unlocked st (lookup (session_file st) st.files.files) (do
        full ← read_encrypted_session codec (session_file st) password st.files
        restored full)
