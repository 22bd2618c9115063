-- ===== src/Examples/MailboxRuns.antt =====
-- The mailbox: a store with one message, requests for it, and the theorems on them.
use seqr.Prelude.{
  str_eq, ◌≢◌, ◌≤◌, ◌⊎◌, ◌/◌, ◌↔◌, ap, ℕ, Bytes, Str, text, true, List, [], ◌∷◌, some, ◌≡◌, refl,
  replicate, arith, ◌<◌, All-replicate, ◌^◌, ◌+◌, ◌++◌, take, retain, map,
}
use seqr.Prelude.Result.{Result, ok, err}
use seqr.Crypto.Keys.{Identity, public}
use seqr.Crypto.Sign.{sign}
use seqr.Prelude.Assoc.{insert, lookup}
use seqr.Crypto.Primitives.{IsBytes}
use seqr.Core.MailboxClient.{pull_request, ack_request}
use seqr.Examples.Toy.{toy, toy_hex, toy_scheme}
use seqr.Mailbox.Store
use seqr.Mailbox.Store.{is_hex, Store, new_id, valid_id}
use seqr.Mailbox.Store.Queue.{queue_of}
use seqr.Mailbox.Store.Stamped.{IsStamped}
use seqr.Mailbox.Store.Push.{push_lem}
use seqr.Mailbox.Store.Ack.{ack_lem, unlisted}
use seqr.Mailbox.Store.Fifo.{Arrival, Arrives, push_all, push_all-fifo}
use seqr.Mailbox.Server.{
  internal_server_error, now_secs, no_content, AppState, StatusCode, fresh, pull, ack, unauthorized,
}
use seqr.Mailbox.Server.Access.{fresh_iff, pull-ok, pull-err, ack-cases, Granted}
use seqr.Mailbox.Server.Delivery.{InStep, authorized-sign, pull-pull_request, ack-ack_request}
use seqr.Protocol.Requests.{
  PullRequest, PullResponse, AckRequest, PushRequest, pull_signing_bytes, ack_signing_bytes,
}

abbrev alice : Identity
alice = record { agreement_secret = replicate 32 7; signing_key = replicate 32 9 }

abbrev pub alice_id : Str
alice_id = toy.hex_encode (toy.ed25519_public alice.signing_key)

abbrev bob_id : Str
bob_id = text "bob"

abbrev empty_store : Store
empty_store = record { dirs = []; seq = 0; writable = true; unreadable = [] }

abbrev pub random : Bytes
random = replicate 32 5

abbrev hello : Str
hello = text "hello"

random-IsBytes : IsBytes random
random-IsBytes = All-replicate (λ b. b < 256) 32 5 (omega arith)

abbrev one_message : Store
one_message = (Store.push ⦃p = toy⦄ empty_store 1000 random alice_id hello).0

push_lem_example :
    (Store.push ⦃p = toy⦄ empty_store 1000 random alice_id hello
      ≡ (one_message, ok (new_id ⦃p = toy⦄ 1000 0 random)))
    × (valid_id (new_id ⦃p = toy⦄ 1000 0 random) ≡ true)
    × (queue_of one_message alice_id
        ≡ queue_of empty_store alice_id
          ++ record { id = new_id ⦃p = toy⦄ 1000 0 random; payload = hello } ∷ [])
    × IsStamped 1000 one_message
    × (one_message.seq ≡ 1)
    × (one_message.writable ≡ true)
push_lem_example =
    push_lem ⦃p = toy⦄ empty_store 1000 random alice_id hello toy_hex random-IsBytes refl
      (omega arith) (omega arith) tt refl

arrives :
    (from now : ℕ)
    → from < now
    → now < 10 ^ 13
    → (payload : Str) → Arrives from (record { now = now; random = random; payload = payload })
arrives from now h e payload = record {
  onward = omega arith;
  early = e;
  bytes = random-IsBytes;
  size = refl;
}

abbrev arrivals : List Arrival
arrivals =
    record { now = 10; random = random; payload = text "first" }
    ∷ record { now = 20; random = random; payload = text "second" }
    ∷ []

push_all-fifo_example :
    map (λ m. m.payload) (queue_of (push_all ⦃p = toy⦄ alice_id empty_store arrivals) alice_id)
    ≡ map (λ m. m.payload) (queue_of empty_store alice_id) ++ text "first" ∷ text "second" ∷ []
push_all-fifo_example =
    push_all-fifo ⦃p = toy⦄ alice_id toy_hex 0 empty_store arrivals tt refl (omega arith) (
      arrives 0 10 (omega arith) (omega arith) (text "first"),
      (arrives 10 20 (omega arith) (omega arith) (text "second"), tt),
    )

pub one_message-IsStamped : IsStamped 1000 one_message
one_message-IsStamped =
    let (_, _, _, stamped, _, _) =
      push_lem ⦃p = toy⦄ empty_store 1000 random alice_id hello toy_hex random-IsBytes refl
        (omega arith) (omega arith) tt refl in
    stamped

abbrev ids : List Str
ids = new_id ⦃p = toy⦄ 1000 0 random ∷ []

pub one_message-writable : one_message.writable ≡ true
one_message-writable =
    let (_, _, _, _, _, w) =
      push_lem ⦃p = toy⦄ empty_store 1000 random alice_id hello toy_hex random-IsBytes refl
        (omega arith) (omega arith) tt refl in
    w

pub one_message-readable : one_message.unreadable ≡ []
unfolding Store.push Store.create_dir_all lookup
one_message-readable = refl

ack_lem_example :
    queue_of (Store.ack one_message alice_id ids) alice_id
    ≡ retain (unlisted ids) (queue_of one_message alice_id)
ack_lem_example = ack_lem 1000 one_message alice_id ids one_message-IsStamped one_message-writable

abbrev pub state : AppState
state = record {
  store = one_message;
  config = record {
    bind = text "127.0.0.1:8443";
    data_dir = text "/data";
    max_payload = 100;
    clock_skew_secs = 300;
    pull_limit = 50;
  };
  seen = [];
  debug_log = [];
}

pub in_step : InStep 5000 2000 300
in_step = record { small = omega arith; not_ahead = omega arith; not_behind = omega arith }

abbrev request : PullRequest
request = pull_request ⦃p = toy⦄ 2000 alice

pull-pull_request_example :
    (pull ⦃p = toy⦄ 5000 state request).1
    ≡ ok (record { messages = take 50 (queue_of one_message alice_id) })
pull-pull_request_example =
    pull-pull_request ⦃p = toy⦄ toy_hex toy_scheme 5000 state alice 2000 in_step
      one_message-readable

abbrev polled : AppState
polled = (pull ⦃p = toy⦄ 5000 state request).0

abbrev answer : PullResponse
answer = record { messages = take 50 (queue_of one_message alice_id) }

answered : pull ⦃p = toy⦄ 5000 state request ≡ (polled, ok answer)
answered =
    let pair : Result StatusCode PullResponse → AppState × Result StatusCode PullResponse =
      λ r. (polled, r) in
    ap pair (
      pull-pull_request ⦃p = toy⦄ toy_hex toy_scheme 5000 state alice 2000 in_step
        one_message-readable)

pull-ok_example :
    Granted ⦃p = toy⦄ 5000 state request.identity request.ts
      (pull_signing_bytes request.identity request.ts)
      request.signature
    × (answer.messages ≡ take 50 (queue_of one_message request.identity))
    × (polled.store ≡ one_message)
    × (lookup request.identity polled.seen ≡ some 5)
pull-ok_example = pull-ok ⦃p = toy⦄ 5000 state request answered

-- the state with a mailbox that cannot be read
abbrev unread : AppState
unread = record state { store = record one_message { unreadable = alice_id ∷ [] } }

unread_fails :
    pull ⦃p = toy⦄ 5000 unread request
    ≡ (record unread { seen = (alice_id, 5) ∷ [] }, err internal_server_error)
unfolding pull pull_request public lookup insert Store.pull Store.push Store.create_dir_all str_eq
unread_fails =
    rw
      (authorized-sign ⦃p = toy⦄ toy_hex toy_scheme 5000 unread alice 2000
        (pull_signing_bytes alice_id 2000) in_step)
      refl

pull-err_example :
    ((record unread { seen = (alice_id, 5) ∷ [] } ≡ unread)
      × (internal_server_error ≡ unauthorized))
    ⊎ (Granted ⦃p = toy⦄ 5000 unread request.identity request.ts
          (pull_signing_bytes request.identity request.ts)
          request.signature
        × (internal_server_error ≡ internal_server_error)
        × (unread.store.unreadable ≢ [])
        × (record unread { seen = (alice_id, 5) ∷ [] }
            ≡ record unread { seen = insert request.identity (now_secs 5000) unread.seen }))
pull-err_example = pull-err ⦃p = toy⦄ 5000 unread request unread_fails

abbrev acknowledged : AckRequest
acknowledged = record { identity = bob_id; ts = 2000; signature = []; ids = ids }

ack-cases_example :
    (Granted ⦃p = toy⦄ 5000 state bob_id 2000 (ack_signing_bytes bob_id 2000 ids) []
      × ((ack ⦃p = toy⦄ 5000 state acknowledged).0.store ≡ Store.ack one_message bob_id ids)
      × ((ack ⦃p = toy⦄ 5000 state acknowledged).1 ≡ ok no_content))
    ⊎ (ack ⦃p = toy⦄ 5000 state acknowledged ≡ (state, err unauthorized))
ack-cases_example = ack-cases ⦃p = toy⦄ 5000 state acknowledged

abbrev astray : PushRequest
astray = record { to = bob_id; payload = hello }

fresh_iff_example :
    (fresh 5000 2000 300 ≡ true)
    ↔ ((2000 / 1000 ≤ now_secs 5000 + 300) × (now_secs 5000 ≤ 2000 / 1000 + 300))
fresh_iff_example = fresh_iff 5000 2000 300 (omega arith)

ack-ack_request_example :
    queue_of
      (ack ⦃p = toy⦄ 5000 state (record {
        identity = alice_id;
        ts = 2000;
        signature =
            toy.hex_encode
              (toy.ed25519_sign alice.signing_key (ack_signing_bytes alice_id 2000 ids));
        ids = ids;
      })).0.store
      alice_id
    ≡ retain (unlisted ids) (queue_of one_message alice_id)
unfolding ack_request sign public
ack-ack_request_example =
    ack-ack_request ⦃p = toy⦄ toy_hex toy_scheme 5000 1000 state alice 2000 ids _ in_step
      one_message-IsStamped one_message-writable refl
