-- ===== src/Net/Poll/Drained.antt =====
-- The poll loop and the mailbox service together: what one turn takes from the account's queue.
use seqr.Prelude.{
  ℕ, ◌≡◌, refl, sym, ap, ◌∙◌, subst, Bytes, Str, text, true, List, [], ◌∷◌, some, map, take, retain,
  Bool-cases, inl, inr,
}
use seqr.Prelude.Result.{Result, ok, err, Result-cases}
use seqr.Core.MailboxClient
use seqr.Core.MailboxClient.{Reply, answered, status, pull_request, ack_request}
use seqr.Core.Serde.{Serde}
use seqr.Crypto.Keys.{Identity}
use seqr.Crypto.Primitives.{Primitives, HexLaws, SchemeLaws}
use seqr.Mailbox.Server
use seqr.Mailbox.Server.{
  AppState, StatusCode, no_content, bad_request, payload_too_large, unauthorized,
  internal_server_error, dlog, authorized,
}
use seqr.Mailbox.Server.Delivery.{InStep, pull-pull_request, ack-ack_request}
use seqr.Mailbox.Store
use seqr.Mailbox.Store.Ack.{unlisted, retain_all}
use seqr.Mailbox.Store.Queue.{queue_of}
use seqr.Mailbox.Store.Stamped.{IsStamped}
use seqr.Net.Attachments.{Node, Moment}
use seqr.Net.Poll.{poll_turn, process_all, is_unlocked, current_identity}
use seqr.Protocol.Requests.{PullRequest, PulledMessage, pull_signing_bytes}

abbrev code_text : StatusCode → Str
code_text no_content = text "204 No Content"
code_text bad_request = text "400 Bad Request"
code_text payload_too_large = text "413 Payload Too Large"
code_text unauthorized = text "401 Unauthorized"
code_text internal_server_error = text "500 Internal Server Error"

abbrev reply : {A : Type 0} → Result StatusCode A → Reply A
reply (ok a) = answered a
reply (err code) = status (code_text code)

abbrev done : Result StatusCode StatusCode → Reply (Unit {0})
done (ok _) = answered tt
done (err code) = status (code_text code)

module _ ⦃p : Primitives⦄ where
  -- the mailbox service at a time, with what a push draws
  abbrev pub over_http : ℕ → Bytes → MailboxClient.Server AppState
  over_http now random = record {
    post_push = λ req st. let (st', r) = Server.push now random st req in (st', reply r);
    post_pull = λ req st. let (st', r) = Server.pull now st req in (st', reply r);
    post_ack = λ req st. let (st', r) = Server.ack now st req in (st', done r);
    post_presence = λ req st. (st, answered (Server.presence now st req));
  }

  -- A pull changes neither the store nor the configuration.
  pull_kept :
      (now : ℕ) (st : AppState) (req : PullRequest)
      → ((Server.pull now st req).0.store ≡ st.store)
        × ((Server.pull now st req).0.config ≡ st.config)
  unfolding Server.pull dlog
  pull_kept now st req =
      elim (Bool-cases (
        authorized now st req.identity req.ts (pull_signing_bytes req.identity req.ts)
          req.signature)) [
            | inr refused ↦ rw (Server.pull, refused) (refl, refl)
            | inl granted ↦
                elim (Result-cases (Store.pull st.store req.identity st.config.pull_limit)) [
                  | inl (messages, found) ↦ rw (Server.pull, granted) (rw found (refl, refl))
                  | inr (e, failed) ↦ rw (Server.pull, granted) (rw failed (refl, refl))
                ]
          ]

  module _ (hex : HexLaws p) (scheme : SchemeLaws p) (me : Identity) where
    -- the front of the account's queue that one pull gives
    abbrev pub batch : AppState → List PulledMessage
    batch st =
        take st.config.pull_limit
          (queue_of st.store (p.hex_encode (p.ed25519_public me.signing_key)))

    pull-batch :
        (now : ℕ) (random : Bytes) (st : AppState) (ts : ℕ)
        → InStep now ts st.config.clock_skew_secs
        → st.store.unreadable ≡ []
        → (MailboxClient.pull (over_http now random) ts me st).1 ≡ ok (batch st)
    unfolding MailboxClient.pull
    pull-batch now random st ts step readable =
        rw (MailboxClient.pull, pull-pull_request hex scheme now st me ts step readable) refl

    ack-queue :
        (now since : ℕ) (random : Bytes) (st : AppState) (ts : ℕ) (ids : List Str)
        → InStep now ts st.config.clock_skew_secs
        → IsStamped since st.store
        → st.store.writable ≡ true
        → let id = p.hex_encode (p.ed25519_public me.signing_key) in
          queue_of (MailboxClient.ack (over_http now random) ts me ids st).0.store id
          ≡ retain (unlisted ids) (queue_of st.store id)
    unfolding MailboxClient.ack ack_request
    ack-queue now since random st ts [] step stamped w =
        sym (retain_all (queue_of st.store (p.hex_encode (p.ed25519_public me.signing_key))))
    ack-queue now since random st ts (i ∷ ids) step stamped w =
        ack-ack_request hex scheme now since st me ts (i ∷ ids) _ step stamped w refl

    module _ ⦃s : Serde⦄ where
      poll_turn-pulled :
          {S : Type 0} (server : MailboxClient.Server S) (ts ts_ack : ℕ) (moments : ℕ → Moment)
          (st : S) (node : Node) (messages : List PulledMessage)
          → is_unlocked node ≡ true
          → current_identity node ≡ some me
          → (MailboxClient.pull server ts me st).1 ≡ ok messages
          → let out = process_all moments 0 messages node in
            let st' = (MailboxClient.pull server ts me st).0 in
            poll_turn server ts ts_ack moments st node ≡ record {
              goes_on = true;
              server' = (MailboxClient.ack server ts_ack me (map (λ m. m.id) messages) st').0;
              node' = out.0;
              produced = out.1;
            }
      unfolding poll_turn
      poll_turn-pulled server ts ts_ack moments st node messages open_now identified pulled =
          rw (poll_turn, open_now) (rw identified (rw pulled refl))

      -- One turn of the poll loop of an unlocked account, at clocks in step with the service's, whose store takes
      -- writes, whose files can be read and were named by pushes, handles the
      -- front of the account's queue, message by message, and then removes those messages from the queue
      -- and no others, whatever became of them.
      pub poll_turn-queue :
          (now since : ℕ) (random : Bytes) (ts ts_ack : ℕ) (moments : ℕ → Moment) (st : AppState)
          (node : Node)
          → is_unlocked node ≡ true
          → current_identity node ≡ some me
          → InStep now ts st.config.clock_skew_secs
          → InStep now ts_ack st.config.clock_skew_secs
          → IsStamped since st.store
          → st.store.writable ≡ true
          → st.store.unreadable ≡ []
          → let turn = poll_turn (over_http now random) ts ts_ack moments st node in
            let id = p.hex_encode (p.ed25519_public me.signing_key) in
            (turn.goes_on ≡ true)
            × (turn.node' ≡ (process_all moments 0 (batch st) node).0)
            × (turn.produced ≡ (process_all moments 0 (batch st) node).1)
            × (queue_of turn.server'.store id
                ≡ retain (unlisted (map (λ m. m.id) (batch st))) (queue_of st.store id))
      unfolding MailboxClient.pull
      poll_turn-queue now since random ts ts_ack moments st node open_now identified step step_ack
            stamped w readable =
          let st' = (Server.pull now st (pull_request ts me)).0 in
          let (same_store, same_config) = pull_kept now st (pull_request ts me) in
          let acked =
            ack-queue now since random st' ts_ack (map (λ m. m.id) (batch st))
              (subst (λ c. InStep now ts_ack c.clock_skew_secs) (sym same_config) step_ack)
              (subst (IsStamped since) (sym same_store) stamped)
              (ap (λ (t : Store.Store). t.writable) same_store ∙ w) in
          rw
            (poll_turn-pulled (over_http now random) ts ts_ack moments st node (batch st) open_now
              identified (pull-batch now random st ts step readable))
            (
              refl,
              refl,
              refl,
              acked
                  ∙ ap
                      (λ t.
                        retain (unlisted (map (λ m. m.id) (batch st)))
                          (queue_of t (p.hex_encode (p.ed25519_public me.signing_key))))
                      same_store,
            )
