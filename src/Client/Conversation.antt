-- ===== src/Client/Conversation.antt =====
-- vuvuzela-client/conversation.go: a conversation with one peer, as steps on its state.
use Prim.Native.String.{String}
use vuvuzela.Prelude.{
  ℕ, Bool, true, false, not, ◌&&◌, List, [], ◌∷◌, ◌++◌, Option, none, some, ltb, ◌==◌, length,
  replicate, if◌then◌else◌,
}
use vuvuzela.Run.{Run, ok, err, panic, blocked, malformed}
use vuvuzela.Bytes.{Bytes, Random, bytes_eq, put_be32, read_random, copy_zeros}
use vuvuzela.Nacl.{Nacl}
use vuvuzela.Wire.{
  ConvoExchange, marshal_exchange, forward_nonce, backward_nonce, size_encrypted_message,
}
use vuvuzela.Onion.{seal_onion, open_onion}
use vuvuzela.Pki.{Pki, server_keys}
use vuvuzela.Rounds
use vuvuzela.Rounds.{Rounds}
use vuvuzela.Rpc.{Call, pure, lift, ◌>>=◌, ◌>>◌}
use vuvuzela.Client.Varint.{ℤ, pos}
use vuvuzela.Client.Message.{
  ConvoMessage, text_message, timestamp_message, marshal, unmarshal, trim_right,
}

-- What does not change during a conversation.
pub record Peer : Type 0 where
  pub pki : Pki
  pub peer_name : String
  pub peer_public_key : Bytes
  pub my_public_key : Bytes
  pub my_private_key : Bytes

pub record PendingRound : Type 0 where
  pub onion_shared_keys : List Bytes
  pub sent_message : Bytes

-- `out_queue` is what the channel of 64 holds; `shown` is what was printed, with the peer's name.
pub record Conversation : Type 0 where
  pub out_queue : List Bytes
  pub pending_rounds : Rounds PendingRound
  pub last_peer_responding : Bool
  pub last_latency : ℤ
  pub last_round : ℕ
  pub shown : List (String × Bytes)

pub record ConvoRequest : Type 0 where
  pub round : ℕ
  pub onion : Bytes

pub record ConvoResponse : Type 0 where
  pub round : ℕ
  pub onion : Bytes

-- Init on a new Conversation.
unfoldable pub start_conversation : Conversation
start_conversation = record {
  out_queue = [];
  pending_rounds = [];
  last_peer_responding = false;
  last_latency = pos 0;
  last_round = 0;
  shown = [];
}

-- `bytes.Compare(a, b) < 0`.
unfoldable pub bytes_lt : Bytes → Bytes → Bool
bytes_lt xs [] = false
bytes_lt [] (y ∷ ys) = true
bytes_lt (x ∷ xs) (y ∷ ys) = if x == y then bytes_lt xs ys else ltb x y

-- A full channel makes the sender wait.
unfoldable pub queue_text_message : Bytes → Call Conversation (Unit {0})
queue_text_message msg c =
    if ltb (length c.out_queue) 64
    then (record c { out_queue = c.out_queue ++ msg ∷ [] }, ok tt)
    else (c, blocked)

-- The nonce of a message between the two peers.
unfoldable pub role_nonce : ℕ → ℕ → Bytes
role_nonce round role = put_be32 round ++ (replicate 19 0 ++ role ∷ [])

-- The message that is sent next: the first of the queue, else the time.
unfoldable pub take_body : ℤ → Call Conversation ConvoMessage
take_body now c = elim c.out_queue [
  | [] ↦ (c, ok (timestamp_message now))
  | m ∷ ms ↦ (record c { out_queue = ms }, ok (text_message m))
]

unfoldable pub note_round : ℕ → Call Conversation (Unit {0})
note_round round c = (record c { last_round = round }, ok tt)

unfoldable pub put_pending : ℕ → PendingRound → Call Conversation (Unit {0})
unfolding Rounds.insert
put_pending round pr c =
    (record c { pending_rounds = Rounds.insert round pr c.pending_rounds }, ok tt)

-- `hmac` is HMAC-SHA256 of a key and a message.
module _ (box : Nacl) (hmac : Bytes → Bytes → Bytes) (p : Peer) where
  open p use {pki, peer_name, peer_public_key, my_public_key, my_private_key}

  unfoldable pub solo : Bool
  unfolding bytes_eq
  solo = bytes_eq my_public_key peer_public_key

  unfoldable pub my_role : ℕ
  unfolding bytes_lt
  my_role = if bytes_lt my_public_key peer_public_key then 0 else 1

  unfoldable pub their_role : ℕ
  unfolding bytes_lt
  their_role = if bytes_lt peer_public_key my_public_key then 0 else 1

  -- `box.Seal` and `box.Open` derive the shared key and use it.
  unfoldable pub seal_message : Bytes → ℕ → ℕ → Bytes
  seal_message message round role =
      box.seal message (role_nonce round role) (box.precompute peer_public_key my_private_key)

  unfoldable pub open_message : Bytes → ℕ → ℕ → Option Bytes
  open_message ctxt round role =
      box.unseal ctxt (role_nonce round role) (box.precompute peer_public_key my_private_key)

  -- `r` is what a client alone reads for its dead drop.
  unfoldable pub dead_drop : ℕ → Random → Bytes
  dead_drop round r =
      if solo
      then read_random 16 r
      else copy_zeros 16 (hmac (box.precompute peer_public_key my_private_key) (put_be32 round))

  -- The exchange for a message.
  unfoldable pub exchange_for : ℕ → ConvoMessage → Random → ConvoExchange
  exchange_for round body r = record {
    dead_drop = dead_drop round r;
    encrypted_message =
        copy_zeros size_encrypted_message (seal_message (marshal body) round my_role);
  }

  -- `r` feeds the dead drop, `rs i` layer `i` of the onion, and `now` is the clock.
  unfoldable pub next_convo_request : ℕ → ℤ → Random → (ℕ → Random) → Call Conversation ConvoRequest
  next_convo_request round now r rs = do
    note_round round
    body ← take_body now
    let exchange = exchange_for round body r
    keys ← lift (server_keys pki)
    let sealed = seal_onion box (marshal_exchange exchange) (forward_nonce round) keys rs
    put_pending round
        (record { onion_shared_keys = sealed.1; sent_message = exchange.encrypted_message })
    pure (record { round = round; onion = sealed.0 })

  -- The message in a reply; each `err` is only logged.
  unfoldable pub read_reply : PendingRound → ConvoResponse → Run ConvoMessage
  unfolding bytes_eq
  read_reply pr response =
      elim (open_onion box response.onion (backward_nonce response.round) pr.onion_shared_keys) [
        | none ↦ err malformed
        | some encmsg ↦
            if bytes_eq encmsg pr.sent_message && not solo
            then err malformed
            else elim (open_message encmsg response.round their_role) [
              | none ↦ err malformed
              | some msgdata ↦ unmarshal msgdata
            ]
      ]

  -- What HandleConvoResponse does with that message. `since t` is the time that has passed since `t`.
  unfoldable pub receive : (ℤ → ℤ) → Run ConvoMessage → Call Conversation (Unit {0})
  unfolding trim_right
  receive since (ok (text_message m)) c = (
    record c { shown = c.shown ++ (peer_name, trim_right m) ∷ []; last_peer_responding = true },
    ok tt,
  )
  receive since (ok (timestamp_message t)) c =
      (record c { last_latency = since t; last_peer_responding = true }, ok tt)
  receive since (err e) c = (record c { last_peer_responding = false }, ok tt)
  receive since panic c = (record c { last_peer_responding = false }, panic)
  receive since blocked c = (record c { last_peer_responding = false }, blocked)

  unfoldable pub handle_convo_response : (ℤ → ℤ) → ConvoResponse → Call Conversation (Unit {0})
  unfolding Rounds.lookup Rounds.delete
  handle_convo_response since response c =
      let reply : Run ConvoMessage = elim (Rounds.lookup response.round c.pending_rounds) [
        | none ↦ err malformed
        | some pr ↦ read_reply pr response
      ] in
      receive since reply
        (record c { pending_rounds = Rounds.delete response.round c.pending_rounds })
