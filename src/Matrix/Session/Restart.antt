-- ===== src/Matrix/Session/Restart.antt =====
-- A Matrix session over a restart, and the starts of the sync loop.
use seqr.Prelude.{
  ℕ, ◌+◌, ◌≡◌, refl, ap, ◌∙◌, Bytes, Str, text, true, false, List, [], ◌∷◌, Option, none, some,
  length, Option-cases, inl, inr,
}
use seqr.Prelude.Assoc.{lookup}
use seqr.Prelude.Result.{ok, err, ◌>>=◌}
use seqr.Core.Attachment.Files.{Files, no_such_file}
use seqr.Crypto.Aead.{nonce_len}
use seqr.Crypto.Error.{SymmetricKey}
use seqr.Crypto.Kdf.{derive_vault_key}
use seqr.Crypto.Primitives.{Primitives, SchemeLaws}
use seqr.Matrix.Session.{
  Sdk, MatrixState, Draws, fresh_store, store_dir, session_file, status_of, keep_session,
  matrix_login, restored, unlocked, full_session, finished, with_session, made_dir, matrix_unlock,
  matrix_start_sync,
}
use seqr.Matrix.SessionFile.{
  Codec, CodecLaws, FullSession, new_passphrase, write_encrypted_session, read_encrypted_session,
  read_encrypted_session-none, read_encrypted_session-write_encrypted_session,
}

module _ {C : Type 0} where
  -- the state after a start of the program
  abbrev pub restarted : MatrixState C → MatrixState C
  restarted st = record st { client = none; syncing = false }

  module _ (sdk : Sdk C) ⦃p : Primitives⦄ (codec : Codec) where
    -- what a client restored from a session has in common with the one that gave it
    pub record SameAccount (c c' : C) : Type 0 where
      pub user : sdk.user_id c' ≡ sdk.user_id c
      pub device : sdk.device_id c' ≡ sdk.device_id c

    status_of_same :
        (c c' : C) (st : MatrixState C)
        → SameAccount c c'
        → status_of sdk (some c') st.homeserver_url ≡ status_of sdk (some c) st.homeserver_url
    unfolding status_of
    status_of_same c c' st same = rw same.user (rw same.device refl)

    -- The saved session is read before it is restored.
    matrix_unlock-read :
        (password : Bytes) (full : FullSession) (c : C) (st : MatrixState C)
        → read_encrypted_session codec (session_file st) password st.files ≡ ok full
        → restored sdk codec full ≡ ok c
        → matrix_unlock sdk codec password st
          ≡ (record st { client = some c }, ok (status_of sdk (some c) st.homeserver_url))
    unfolding matrix_unlock unlocked
    matrix_unlock-read password full c st reads gives =
        let path = session_file st in
        let client = read_encrypted_session codec path password st.files >>= restored sdk codec in
        elim (Option-cases (lookup path st.files.files)) [
          | inl missing ↦
              let gone : read_encrypted_session codec path password st.files ≡ err no_such_file =
                read_encrypted_session-none codec path password st.files missing in
              cc
          | inr (content, there) ↦
              ap (λ o. unlocked sdk codec st o client) there
              ∙ ap (unlocked sdk codec st (some content))
                  (ap (λ r. r >>= restored sdk codec) reads ∙ gives)
        ]

    -- A login that goes through leaves a session file that its password opens, and the client.
    matrix_login_lem :
        SchemeLaws p
        → CodecLaws codec
        → (draws : Draws) (username : Str) (password : Bytes) (key : SymmetricKey)
          (user_session : Str) (built c : C) (st : MatrixState C)
        → length draws.nonce ≡ nonce_len
        → derive_vault_key password draws.salt ≡ ok key
        → st.files.refuses ≡ none
        → sdk.build_client st.homeserver_url (store_dir st) (new_passphrase draws.passphrase)
          ≡ ok built
        → sdk.login_username username password built ≡ ok c
        → sdk.session c ≡ some user_session
        → (fs : Files) × (matrix_login sdk codec draws username password st ≡ (
          record st { files = fs; client = some c },
          ok (status_of sdk (some c) st.homeserver_url),
        ))
          × (read_encrypted_session codec (session_file st) password fs
              ≡ ok (full_session sdk codec (new_passphrase draws.passphrase) user_session st))
    unfolding matrix_login keep_session with_session finished full_session
    matrix_login_lem scheme laws draws username password key user_session built c st twelve derived
          takes builds logs gives =
        let st' : MatrixState C = record st { files = fresh_store (store_dir st) st.files } in
        let passphrase = new_passphrase draws.passphrase in
        let full = full_session sdk codec passphrase user_session st in
        let write =
          write_encrypted_session codec draws.salt draws.nonce (session_file st) password full
            st'.files in
        let made : made_dir st.files ≡ ok tt = rw takes refl in
        let client : (made_dir st.files >>= (λ _.
          sdk.build_client st.homeserver_url (store_dir st) passphrase
          >>= sdk.login_username username password))
            ≡ ok c =
          rw made (rw builds logs) in
        let (done, reads) =
          read_encrypted_session-write_encrypted_session codec scheme laws draws.salt draws.nonce
            (session_file st) password key full st'.files twelve derived takes in
        let keep =
          keep_session sdk codec draws passphrase password (text "no session after login") in
        (
          write.0,
          ap (λ r. keep r st') client
              ∙ ap
                  (λ o.
                    with_session sdk codec draws passphrase password (text "no session after login")
                      c o st')
                  gives
              ∙ ap (finished sdk codec c st' (write.0)) done,
          reads,
        )

    -- After a login that goes through, with a nonce of 12 bytes and files that take writes, and a restart, the session
    -- opens with the password of the login, and the status is as the login gave it, if the SDK restores the session
    -- that its client gave as the same account.
    pub matrix_unlock-matrix_login :
        SchemeLaws p
        → CodecLaws codec
        → (draws : Draws) (username : Str) (password : Bytes) (key : SymmetricKey)
          (user_session : Str) (built c c' : C) (st : MatrixState C)
        → length draws.nonce ≡ nonce_len
        → derive_vault_key password draws.salt ≡ ok key
        → st.files.refuses ≡ none
        → sdk.build_client st.homeserver_url (store_dir st) (new_passphrase draws.passphrase)
          ≡ ok built
        → sdk.login_username username password built ≡ ok c
        → sdk.session c ≡ some user_session
        → sdk.restore_session user_session built ≡ ok c'
        → SameAccount c c'
        → let (st', status) = matrix_login sdk codec draws username password st in
          (status ≡ ok (status_of sdk (some c) st.homeserver_url))
          × (matrix_unlock sdk codec password (restarted st')
              ≡ (record (restarted st') { client = some c' }, status))
    unfolding session_file store_dir restored full_session
    matrix_unlock-matrix_login scheme laws draws username password key user_session built c c' st
          twelve derived takes builds logs gives restores same =
        let (fs, login, reads) =
          matrix_login_lem scheme laws draws username password key user_session built c st twelve
            derived takes builds logs gives in
        rw login (
          refl,
          matrix_unlock-read password
                (full_session sdk codec (new_passphrase draws.passphrase) user_session st) c'
                (record st { client = none; syncing = false; files = fs }) reads
                (rw builds restores)
              ∙ ap (λ s. (record st { client = some c'; syncing = false; files = fs }, ok s))
                  (status_of_same c c' st same),
        )

  -- The loop is not started twice: whatever client is set in front of each call, at most one of a row of calls starts it.
  unfoldable pub starts : List (Option C) → MatrixState C → ℕ
  starts [] st = 0
  starts (client ∷ rest) st =
      let (st', r) = matrix_start_sync (record st { client = client }) in
      elim r [
        | ok true ↦ 1 + starts rest st'
        | ok false ↦ starts rest st'
        | err e ↦ starts rest st'
      ]

  starts_syncing :
      (clients : List (Option C)) (st : MatrixState C) → st.syncing ≡ true → starts clients st ≡ 0
  unfolding starts matrix_start_sync
  starts_syncing [] st h = refl
  starts_syncing (client ∷ rest) st h =
      rw h (starts_syncing rest (record st { client = client; syncing = true }) refl)

  -- A call without a client is refused, and no call of a row behind it starts the loop, whatever client is set in
  -- front of each.
  pub matrix_start_sync_stuck :
      (clients : List (Option C)) (st : MatrixState C)
      → st.client ≡ none
      → st.syncing ≡ false
      → let (st', r) = matrix_start_sync st in
        (r ≡ err (text "not logged in")) × (starts clients st' ≡ 0)
  unfolding matrix_start_sync
  matrix_start_sync_stuck clients st absent idle =
      rw idle (rw absent (refl, starts_syncing clients _ refl))
