-- ===== src/Client/Talk.antt =====
-- A text on its way: what a client sends for a round, and what its peer shows for the reply.
use vuvuzela.Prelude.{
  ℕ, ◌≤◌, ◌≡◌, ◌≢◌, refl, ap, ◌∙◌, true, false, List, [], ◌∷◌, ◌++◌, map, some, arith, length,
}
use vuvuzela.Run.{ok}
use vuvuzela.Rounds
use vuvuzela.Bytes.{Bytes, Random, bytes_eq, copy_zeros, put_be32}
use vuvuzela.Bytes.Equality.{bytes_eq_iff}
use vuvuzela.Nacl.{Nacl, NaclLaws}
use vuvuzela.Wire.{
  ConvoExchange, marshal_exchange, forward_nonce, backward_nonce, size_encrypted_message,
}
use vuvuzela.Onion.{seal_onion}
use vuvuzela.Onion.Layers.{peel_all, peel_all-seal_onion, reply_onion, open_onion-reply_onion}
use vuvuzela.Pki.{server_keys}
use vuvuzela.Client.Varint.{ℤ}
use vuvuzela.Client.Message.{
  unmarshal, copy_zeros_whole, text_message, marshal, trim_right, length-marshal,
  unmarshal-marshal_text,
}
use vuvuzela.Client.Conversation.{
  Peer, PendingRound, Conversation, ConvoRequest, my_role, their_role, seal_message, open_message,
  exchange_for, dead_drop, next_convo_request, note_round, put_pending, take_body, read_reply,
  receive, handle_convo_response,
}
use vuvuzela.Client.Roles.{ArePeers, ArePeers-sym, open-seal_message, not_solo, same_key}

module _ (box : Nacl) (laws : NaclLaws box) (hmac : Bytes → Bytes → Bytes) where
  -- The message sealed for a peer fills its field of the exchange exactly.
  exchange_for-message :
      (p : Peer) (round : ℕ) (m : Bytes) (r : Random)
      → (exchange_for box hmac p round (text_message m) r).encrypted_message
        ≡ seal_message box hmac p (marshal (text_message m)) round (my_role box hmac p)
  unfolding exchange_for seal_message
  exchange_for-message p round m r = copy_zeros_whole size_encrypted_message _ (
      omega
        (arith, laws.length-seal (marshal (text_message m)) _ _, length-marshal (text_message m)))

  -- What the exchange `e` of a round, sent by `p`, is to the peer `q`: it lies where both look for it,
  -- under the HMAC of the round with the key that they share, and `q` opens it to the text `m`.
  abbrev pub IsFor : Peer → Peer → ℕ → Bytes → ConvoExchange → Type 0
  IsFor p q round m e =
      (e.dead_drop
        ≡ copy_zeros 16 (hmac (box.precompute p.peer_public_key p.my_private_key) (put_be32 round)))
      × (copy_zeros 16 (hmac (box.precompute p.peer_public_key p.my_private_key) (put_be32 round))
          ≡ copy_zeros 16
              (hmac (box.precompute q.peer_public_key q.my_private_key) (put_be32 round)))
      × (open_message box hmac q e.encrypted_message round (their_role box hmac q)
          ≡ some (marshal (text_message m)))

  exchange_for-IsFor :
      (p q : Peer) (round : ℕ) (m : Bytes) (r : Random)
      → ArePeers box p q
      → p.my_public_key ≢ q.my_public_key
      → IsFor p q round m (exchange_for box hmac p round (text_message m) r)
  unfolding exchange_for dead_drop
  exchange_for-IsFor p q round m r peers ne = (
    rw (not_solo box laws hmac p q peers ne),
    rw (same_key box laws hmac p q peers),
    ap (λ x. open_message box hmac q x round (their_role box hmac q))
          (exchange_for-message p round m r)
        ∙ open-seal_message box laws hmac p q peers (marshal (text_message m)) round,
  )

  -- Two peers of different public keys; the client of one has a text waiting and knows the keys of the
  -- servers. NextConvoRequest takes the text from the queue and asks for the round. Out of the onion the
  -- servers get an exchange with exactly the keys that the client keeps for the round, next to the
  -- message that it sent. The dead drop of the exchange is the HMAC of the round under the key that the
  -- two peers share, cut to 16 bytes, and its message opens for the other peer, in the role that the
  -- other takes the sender to have, to the encoded text.
  pub next_convo_request-sends :
      (p q : Peer) (privates : List Bytes) (round : ℕ) (now : ℤ) (r : Random) (rs : ℕ → Random)
      (c : Conversation) (m : Bytes) (ms : List Bytes)
      → ArePeers box p q
      → p.my_public_key ≢ q.my_public_key
      → server_keys p.pki ≡ ok (map box.public_key privates)
      → c.out_queue ≡ m ∷ ms
      → (request : ConvoRequest) × (keys : List Bytes) × (e : ConvoExchange) × (next_convo_request
            box hmac p round now r rs c
          ≡ (
            record c {
              out_queue = ms;
              last_round = round;
              pending_rounds =
                  Rounds.insert round
                    (record { onion_shared_keys = keys; sent_message = e.encrypted_message })
                    c.pending_rounds;
            },
            ok request,
          ))
        × (request.round ≡ round)
        × (peel_all box laws request.onion (forward_nonce round) privates
            ≡ some (marshal_exchange e, keys))
        × IsFor p q round m e
  unfolding next_convo_request note_round take_body put_pending
  next_convo_request-sends p q privates round now r rs c m ms peers ne known queued =
      let exchange = exchange_for box hmac p round (text_message m) r in
      let sealed =
        seal_onion box (marshal_exchange exchange) (forward_nonce round)
          (map box.public_key privates) rs in
      (
        record { round = round; onion = sealed.0 },
        sealed.1,
        exchange,
        rw (queued, known),
        refl,
        peel_all-seal_onion box laws (marshal_exchange exchange) (forward_nonce round) privates rs,
        exchange_for-IsFor p q round m r peers ne,
      )

  -- The message in a reply, which the client opens with the keys that it kept.
  read_reply-opens :
      (p : Peer) (round : ℕ) (pr : PendingRound) (encmsg m : Bytes)
      → encmsg ≢ pr.sent_message
      → open_message box hmac p encmsg round (their_role box hmac p) ≡ some m
      → read_reply box hmac p pr (record {
        round = round;
        onion = reply_onion box laws encmsg (backward_nonce round) pr.onion_shared_keys;
      })
        ≡ unmarshal m
  unfolding read_reply
  read_reply-opens p round pr encmsg m other opened =
      let peeled =
        (open_onion-reply_onion box laws encmsg (backward_nonce round) pr.onion_shared_keys).0 in
      let iff = bytes_eq_iff encmsg pr.sent_message in
      let differs : bytes_eq encmsg pr.sent_message ≡ false = ground arith in
      rw (read_reply, peeled, differs, opened)

  -- A client with a round pending that gets a reply made of the exchange in which its peer, of
  -- another public key, sent a text of at most 239 bytes without a zero byte at its end, shows that
  -- text, notes that the peer responds, and has the round no longer pending. What it sent itself is
  -- not what the peer sent.
  pub handle_convo_response-shows :
      (p q : Peer) (round : ℕ) (since : ℤ → ℤ) (r : Random) (c : Conversation) (pr : PendingRound)
      (m : Bytes)
      → ArePeers box p q
      → p.my_public_key ≢ q.my_public_key
      → length m ≤ 239
      → trim_right m ≡ m
      → Rounds.lookup round c.pending_rounds ≡ some pr
      → (exchange_for box hmac q round (text_message m) r).encrypted_message ≢ pr.sent_message
      → handle_convo_response box hmac p since
          (record {
            round = round;
            onion =
                reply_onion box laws
                  (exchange_for box hmac q round (text_message m) r).encrypted_message
                  (backward_nonce round)
                  pr.onion_shared_keys;
          })
          c
        ≡ (
          record c {
            pending_rounds = Rounds.delete round c.pending_rounds;
            shown = c.shown ++ (p.peer_name, m) ∷ [];
            last_peer_responding = true;
          },
          ok tt,
        )
  unfolding handle_convo_response read_reply receive
  handle_convo_response-shows p q round since r c pr m peers ne short trimmed pending other =
      let sent = (exchange_for box hmac q round (text_message m) r).encrypted_message in
      let (padded, read, shown) = unmarshal-marshal_text m short trimmed in
      let opened =
        open-seal_message box laws hmac q p (ArePeers-sym box laws hmac p q peers)
          (marshal (text_message m)) round in
      let open_sent =
        ap (λ x. open_message box hmac p x round (their_role box hmac p))
          (exchange_for-message q round m r)
        ∙ opened in
      rw (
        handle_convo_response,
        pending,
        read_reply-opens p round pr sent (marshal (text_message m)) other open_sent,
        read,
        receive,
        shown,
      )
