-- ===== src/EntryServer.antt =====
-- vuvuzela-entry-server/server.go: the requests of clients, and the rounds made of them. A mutex is
-- held only within a step, so that each step is one change of the state.
pub mod Collect
pub mod Answer
pub mod Delivery
use vuvuzela.Prelude.{
  ℕ, zero, suc, ◌+◌, ◌≡◌, Bool, true, false, List, [], ◌∷◌, ◌++◌, Option, none, some, map, ◌==◌,
  length, get_elem?, if◌then◌else◌,
}
use vuvuzela.Run.{Run, ok, err, panic, blocked, or_else}
use vuvuzela.Bytes.{Bytes, u32}
use vuvuzela.Wire.{total_dial_buckets, key_dial_bucket, key_from_bytes}
use vuvuzela.Envelope.{ApiMessage, Envelope, Json, open_envelope}
use vuvuzela.Rpc.{Call, call}
use vuvuzela.ConvoClient.{ConvoNext, new_convo_round, run_convo_round}
use vuvuzela.DialClient.{DialNext, new_dial_round, run_dial_round}

-- A `*connection`: `id` is the pointer.
pub record Connection : Type 0 where
  pub id : ℕ
  pub public_key : Bytes

pub record Request : Type 0 where
  pub conn : Connection
  pub onion : Bytes

-- The text of an error, by its format string.
pub data Reason : Type 0 where
  wrong_round : ℕ → Reason
  server_error : Reason

-- What the server sends to its clients.
pub data Message : Type 0 where
  bad_request_error : Message
  convo_error dial_error : ℕ → Reason → Message
  convo_response : ℕ → Bytes → Message
  dial_bucket : ℕ → List Bytes → Message
  announce_convo_round : ℕ → Message
  announce_dial_round : ℕ → ℕ → Message

-- `connections` are the keys of the map; `sent` is what was written to the sockets, in order.
pub record Server : Type 0 where
  pub connections : List Connection
  pub convo_round : ℕ
  pub convo_requests : List Request
  pub dial_round : ℕ
  pub dial_requests : List Request
  pub sent : List (ℕ × Message)

unfoldable pub start_server : Server
start_server = record {
  connections = [];
  convo_round = 0;
  convo_requests = [];
  dial_round = 0;
  dial_requests = [];
  sent = [];
}

unfoldable pub remove_connection : ℕ → List Connection → List Connection
remove_connection i [] = []
remove_connection i (c ∷ cs) =
    if c.id == i then remove_connection i cs else c ∷ remove_connection i cs

unfoldable pub register : Connection → Server → Server
unfolding remove_connection
register c srv = record srv { connections = c ∷ remove_connection c.id srv.connections }

unfoldable pub close : Connection → Server → Server
unfolding remove_connection
close c srv = record srv { connections = remove_connection c.id srv.connections }

-- wsHandler after the request was read: `key` is what base32 gives for the query parameter, and
-- `upgraded` says whether the websocket came to be.
pub data Reply : Type 0 where
  method_not_allowed bad_request upgrade_failed registered : Reply

unfoldable pub ws_handler : Bool → Option Bytes → Bool → ℕ → Server → Server × Reply
unfolding key_from_bytes register
ws_handler is_get key upgraded pointer srv =
    if is_get
    then (elim (key_from_bytes key) [
      | none ↦ (srv, bad_request)
      | some pk ↦
          if upgraded
          then (register (record { id = pointer; public_key = pk }) srv, registered)
          else (srv, upgrade_failed)
    ])
    else (srv, method_not_allowed)

-- `writable i` says whether the socket of connection `i` takes a message.
module _ (writable : ℕ → Bool) where
  unfoldable pub send : Connection → Message → Server → Server
  unfolding close
  send c m srv =
      if writable c.id then record srv { sent = srv.sent ++ (c.id, m) ∷ [] } else close c srv

  -- The program sends in parallel; here in the order of the list.
  unfoldable pub broadcast : List Connection → Message → Server → Server
  unfolding send
  broadcast [] m srv = srv
  broadcast (c ∷ cs) m srv = broadcast cs m (send c m srv)

  unfoldable pub handle_convo_request : Connection → ℕ → Bytes → Server → Server
  unfolding send
  handle_convo_request c round onion srv =
      if round == srv.convo_round
      then record srv {
        convo_requests = srv.convo_requests ++ (record { conn = c; onion = onion }) ∷ [];
      }
      else send c (convo_error round (wrong_round srv.convo_round)) srv

  unfoldable pub handle_dial_request : Connection → ℕ → Bytes → Server → Server
  unfolding send
  handle_dial_request c round onion srv =
      if round == srv.dial_round
      then record srv {
        dial_requests = srv.dial_requests ++ (record { conn = c; onion = onion }) ∷ [];
      }
      else send c (dial_error round (wrong_round srv.dial_round)) srv

  unfoldable pub handle_request : Connection → ApiMessage → Server → Server
  unfolding handle_convo_request handle_dial_request
  handle_request c (ApiMessage.convo_request round onion) srv =
      handle_convo_request c round onion srv
  handle_request c (ApiMessage.dial_request round onion) srv = handle_dial_request c round onion srv
  handle_request c _ srv = srv

  -- One round of readLoop, on an envelope that was read. One that does not open is answered, and the
  -- nil value that Open returned with the error is handled as no request.
  unfoldable pub read_envelope : {J : Type 0} → Json J → Connection → Envelope J → Server → Server
  unfolding open_envelope handle_request send
  read_envelope json c e srv = elim (open_envelope json e) [
    | ok v ↦ handle_request c v srv
    | _ ↦ send c bad_request_error srv
  ]

  -- The first half of a round of convoRoundLoop: false where NewConvoRound failed, and the loop goes
  -- round again; where NewConvoRound waits, so does the loop. What the loop waits for is what comes between the halves.
  unfoldable pub announce_convo : {S : Type 0} → ConvoNext S → Call (Server × S) Bool
  unfolding broadcast
  announce_convo next (srv, s) =
      let (s', result) = new_convo_round next srv.convo_round s in
      elim result [
        | ok _ ↦
            ((broadcast srv.connections (announce_convo_round srv.convo_round) srv, s'), ok true)
        | err _ ↦ ((srv, s'), ok false)
        | panic ↦ ((srv, s'), panic)
        | blocked ↦ ((srv, s'), blocked)
      ]

  unfoldable pub announce_dial : {S : Type 0} → DialNext S → Call (Server × S) Bool
  unfolding broadcast
  announce_dial next (srv, s) =
      let (s', result) = new_dial_round next srv.dial_round s in
      elim result [
        | ok _ ↦ (
          (
            broadcast srv.connections (announce_dial_round srv.dial_round total_dial_buckets) srv,
            s',
          ),
          ok true,
        )
        | err _ ↦ ((srv, s'), ok false)
        | panic ↦ ((srv, s'), panic)
        | blocked ↦ ((srv, s'), blocked)
      ]

  -- `conns[i].Send(reply)` for the replies, of which there must not be more than connections.
  unfoldable pub send_replies : ℕ → List Connection → List Bytes → Server → Run Server
  unfolding send
  send_replies round cs [] srv = ok srv
  send_replies round [] (onion ∷ onions) srv = panic
  send_replies round (c ∷ cs) (onion ∷ onions) srv =
      send_replies round cs onions (send c (convo_response round onion) srv)

  unfoldable pub run_convo :
      {S : Type 0} → ConvoNext S → ℕ → List Request → Call (Server × S) (Unit {0})
  unfolding send_replies broadcast
  run_convo next round requests (srv, s) =
      let conns = map Request.conn requests in
      let (s', result) = run_convo_round next round (map Request.onion requests) s in
      elim result [
        | ok replies ↦ elim (send_replies round conns replies srv) [
          | ok srv' ↦ ((srv', s'), ok tt)
          | _ ↦ ((srv, s'), panic)
        ]
        | err _ ↦ ((broadcast conns (convo_error round server_error) srv, s'), ok tt)
        | panic ↦ ((srv, s'), panic)
        | blocked ↦ ((srv, s'), blocked)
      ]

  -- Each client gets the bucket of its own key.
  unfoldable pub send_buckets : ℕ → List Connection → List (List Bytes) → Server → Run Server
  unfolding send key_dial_bucket
  send_buckets round [] buckets srv = ok srv
  send_buckets round (c ∷ cs) buckets srv = elim (key_dial_bucket c.public_key total_dial_buckets) [
    | ok b ↦ elim (get_elem? buckets b) [
      | none ↦ panic
      | some intros ↦ send_buckets round cs buckets (send c (dial_bucket round intros) srv)
    ]
    | _ ↦ panic
  ]

  -- `get_buckets` is the Buckets call of the last server.
  unfoldable pub run_dial :
      {S : Type 0}
      → DialNext S
      → (ℕ → Call S (List (List Bytes)))
      → ℕ
      → List Request
      → Call (Server × S) (Unit {0})
  unfolding send_buckets broadcast
  run_dial next get_buckets round requests (srv, s) =
      let conns = map Request.conn requests in
      let failed = broadcast conns (dial_error round server_error) srv in
      let (s', result) = run_dial_round next round (map Request.onion requests) s in
      elim result [
        | ok _ ↦
            let (s'', got) = call (get_buckets round) s' in
            elim got [
              | ok buckets ↦ elim (send_buckets round conns buckets srv) [
                | ok srv' ↦ ((srv', s''), ok tt)
                | _ ↦ ((srv, s''), panic)
              ]
              | err _ ↦ ((failed, s''), ok tt)
              | panic ↦ ((srv, s''), panic)
              | blocked ↦ ((srv, s''), blocked)
            ]
        | err _ ↦ ((failed, s'), ok tt)
        | panic ↦ ((srv, s'), panic)
        | blocked ↦ ((srv, s'), blocked)
      ]

-- The second half of a round of either loop: the requests that are run, and the next round.
unfoldable pub cut_convo : Server → Server × (ℕ × List Request)
cut_convo srv = (
  record srv { convo_round = u32 (srv.convo_round + 1); convo_requests = [] },
  (srv.convo_round, srv.convo_requests),
)

unfoldable pub cut_dial : Server → Server × (ℕ × List Request)
cut_dial srv = (
  record srv { dial_round = u32 (srv.dial_round + 1); dial_requests = [] },
  (srv.dial_round, srv.dial_requests),
)
