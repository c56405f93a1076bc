-- ===== src/Convo/Delivery.antt =====
-- convo.go: two clients and a round of the last server.
use vuvuzela.Run.{ok}
use vuvuzela.Prelude.{
  get_elem?-map, ◌-◌, length-map, map, Option, get_elem?, ap, length-append, false, ◌∙◌, length, ℕ,
  List, arith, refl, true, some, [], ◌==◌, ◌+◌, ◌≡◌, ◌++◌, ◌∷◌,
}
use Prim.Native.String.{String}
use vuvuzela.Bytes.{Bytes, Random}
use vuvuzela.Nacl.{Nacl, NaclLaws, box_overhead}
use vuvuzela.Wire.{
  ConvoExchange, forward_nonce, backward_nonce, marshal_exchange, size_encrypted_message,
}
use vuvuzela.Wire.RoundTrip.{IsExchange, unmarshal-marshal_exchange}
use vuvuzela.Onion.{seal_layer, open_onion}
use vuvuzela.Onion.Layers.{peel-seal_layer}
use vuvuzela.Pki.Sizes.{IsNew, next_keys-and-overheads}
use vuvuzela.Filter.{filter_incoming}
use vuvuzela.Filter.First.{Filters, filter_incoming-Filters}
use vuvuzela.Exchange.{AccessCount, exchange_of_message, exchange_all}
use vuvuzela.Exchange.Drops.{positions}
use vuvuzela.Exchange.Replies.{exchange_all-IsExchanged}
use vuvuzela.Rounds
use vuvuzela.Node.{Node, Config, ConvoRound, convo_round_new}
use vuvuzela.Convo.{expected_onion_size}
use vuvuzela.Convo.State.{with_round}
use vuvuzela.Convo.Fill.{key_slot, message_slot}
use vuvuzela.Convo.Close.{outgoing_onion_size}
use vuvuzela.Convo.Serve.{Draws, serve}
use vuvuzela.ConvoClient.{ConvoNext, run_convo_round}
use vuvuzela.Convo.Replies.{length-answers, answers}
use vuvuzela.Convo.Replies.{AllSized, answers-AllSized}
use vuvuzela.Convo.Whole.{closed-CanReply, arrivals, arrivals-AllLong, answers-sealed}
use vuvuzela.Convo.Round.{left_behind, run-last, closed_round}

exchange_of_message-marshal :
    (e : ConvoExchange) → IsExchange e → exchange_of_message (marshal_exchange e) ≡ e
unfolding exchange_of_message
exchange_of_message-marshal e h = rw (exchange_of_message, unmarshal-marshal_exchange e h)

-- The last server of a chain, and what a client sends it.
module _ (box : Nacl) (laws : NaclLaws box) (cfg : Config) (before : List String)
    (order : cfg.pki.server_order ≡ before ++ cfg.server_name ∷ [])
    (fresh : IsNew cfg.server_name before) where
  -- The onion of an exchange for the last server, and the key that its sender keeps.
  abbrev pub sent : ℕ → ConvoExchange → Random → Bytes × Bytes
  sent round e seed =
      seal_layer box (marshal_exchange e) (forward_nonce round) (box.public_key cfg.private_key)
        seed

  pub outgoing : outgoing_onion_size box cfg ≡ box_overhead + size_encrypted_message
  outgoing = rw ((next_keys-and-overheads cfg.pki cfg.server_name before [] order fresh).2) (refl)

  length-sent :
      (round : ℕ) (e : ConvoExchange) (seed : Random)
      → IsExchange e
      → length (sent round e seed).0 ≡ expected_onion_size box cfg
  unfolding seal_layer marshal_exchange
  length-sent round e seed h =
      let (mine, secret) = box.generate_key seed in
      let key = box.precompute (box.public_key cfg.private_key) secret in
      let message = e.dead_drop ++ e.encrypted_message in
      omega (
        arith,
        (next_keys-and-overheads cfg.pki cfg.server_name before [] order fresh).1,
        length-append mine (box.seal message (forward_nonce round) key),
        laws.length-public seed,
        laws.length-seal message (forward_nonce round) key,
        length-append e.dead_drop e.encrypted_message,
        h.0,
        h.1,
      )

  sent-slots :
      (round : ℕ) (e : ConvoExchange) (seed : Random)
      → IsExchange e
      → (message_slot box cfg (forward_nonce round) (sent round e seed).0
          ≡ some (marshal_exchange e))
        × (key_slot box cfg (sent round e seed).0 ≡ some (sent round e seed).1)
  unfolding message_slot key_slot
  sent-slots round e seed h =
      let (same, opened) =
        peel-seal_layer box laws (marshal_exchange e) (forward_nonce round) cfg.private_key seed in
      let size = length-sent round e seed h in
      let right : (length (sent round e seed).0 == expected_onion_size box cfg) ≡ true =
        ground arith in
      (rw right opened, rw right (ap some same))

  module _ {S : Type 0} (next : ConvoNext S) (draws : Draws) (round : ℕ) (onions : List Bytes)
      (r : ConvoRound) (node : Node) (s : S) (last : cfg.last_server ≡ true)
      (new : r.status ≡ convo_round_new) (locked : node.idle ≡ true) where
    -- The only round of the last server: it is answered in full, with replies of the right size, the
    -- round is gone, the mutex is free, and the servers behind it were not asked.
    abbrev pub AnsweredInFull : List Bytes → Type 0
    AnsweredInFull whole =
        (after : Node) × (run_convo_round (serve box cfg draws next) round onions
            (with_round round r node, s)
          ≡ ((after, s), ok whole))
        × (length whole ≡ length onions)
        × AllSized (outgoing_onion_size box cfg) whole
        × (after.idle ≡ false)
        × (after.convo_rounds ≡ Rounds.delete round node.convo_rounds)
        × (after.dial_rounds ≡ node.dial_rounds)

    -- The client opens the answer in slot `i` with the key that it kept, and reads `message`.
    abbrev pub Reads : List Bytes → ℕ → Bytes → Bytes → Type 0
    Reads whole i key message =
        (reply : Bytes) × (get_elem? whole i ≡ some reply)
        × (open_onion box reply (backward_nonce round) (key ∷ []) ≡ some message)

    module _ (valid : List Bytes) (index : List (Option ℕ)) (replies : List Bytes)
        (f : Filters [] 0 (arrivals box laws cfg round onions r) valid index)
        (size : length replies ≡ length valid) where
      abbrev closing : ConvoRound
      closing = closed_round box laws cfg round onions r valid replies index f size

      reads :
          (i v : ℕ) (e : ConvoExchange) (seed : Random) (message : Bytes)
          → IsExchange e
          → get_elem? onions i ≡ some (sent round e seed).0
          → get_elem? index i ≡ some (some v)
          → get_elem? replies v ≡ some message
          → length message ≡ size_encrypted_message
          → Reads
              (answers box cfg closing
                (backward_nonce round)
                (draws.padding round)
                0
                (length onions))
              i
              (sent round e seed).1
              message
      unfolding open_onion
      reads i v e seed message h came kept replied long =
          let key = (sent round e seed).1 in
          let reply = box.seal message (backward_nonce round) key in
          let reply = box.seal message (backward_nonce round) key in
          let sized : length reply ≡ outgoing_onion_size box cfg =
            omega (arith, outgoing, laws.length-seal message (backward_nonce round) key) in
          (
            reply,
            answers-sealed box laws cfg round onions r closing refl draws i v (sent round e seed).0
                message key came ((sent-slots round e seed h).1) kept replied sized,
            rw (open_onion, laws.unseal-seal message (backward_nonce round) key),
          )

    -- The exchange that a slot points at is the one that was sent in it.
    kept_exchange :
        (i v : ℕ) (e : ConvoExchange) (seed : Random) {valid : List Bytes} {index : List (Option ℕ)}
        → IsExchange e
        → get_elem? onions i ≡ some (sent round e seed).0
        → Filters [] 0 (arrivals box laws cfg round onions r) valid index
        → get_elem? index i ≡ some (some v)
        → get_elem? (map exchange_of_message valid) v ≡ some e
    kept_exchange i v e seed {valid} {index} h came f kept =
        let nonce = forward_nonce round in
        let (_, m, there, placed) = f.kept i v kept in
        let arrived : get_elem? (arrivals box laws cfg round onions r) i
            ≡ some (some (marshal_exchange e)) =
          get_elem?-map onions (message_slot box cfg nonce) i came
          ∙ ap some ((sent-slots round e seed h).0) in
        let same : m ≡ marshal_exchange e = cc in
        let at_v : v - 0 ≡ v = omega arith in
        rw at_v at (get_elem?-map valid exchange_of_message (v - 0) placed)
        ∙ ap some (ap exchange_of_message same ∙ exchange_of_message-marshal e h)

    answered_in_full :
        (valid : List Bytes) (index : List (Option ℕ)) (replies : List Bytes) {count : AccessCount}
        (f : Filters [] 0 (arrivals box laws cfg round onions r) valid index)
        (size : length replies ≡ length valid)
        → filter_incoming (arrivals box laws cfg round onions r) ≡ ok (valid, index)
        → exchange_all (map exchange_of_message valid) ≡ ok (replies, count)
        → AnsweredInFull (
            answers box cfg
              (closing valid index replies f size)
              (backward_nonce round)
              (draws.padding round)
              0
              (length onions))
    answered_in_full valid index replies {count} f size filtered exchanged = (
      left_behind box laws cfg round onions r valid replies index f size next draws node s count
          last new locked filtered exchanged,
      run-last box laws cfg round onions r valid replies index f size next draws node s count last
          new locked filtered exchanged,
      length-answers box cfg (closing valid index replies f size) (backward_nonce round)
          (draws.padding round) 0 (length onions),
      answers-AllSized box cfg (closing valid index replies f size) (backward_nonce round)
          (draws.padding round) 0 (length onions)
          (λ k _ h.
            closed-CanReply box laws cfg round onions r (closing valid index replies f size) valid f
              refl (omega (arith, size)) k (omega arith)),
      refl,
      refl,
      refl,
    )

    -- A fresh round of the last server of a chain, whose mutex NewRound has locked, ends whatever the
    -- onions are: there is a reply for each, the round is gone, the mutex is free, and the dialing
    -- rounds and the servers behind are as they were.
    pub run_convo_round-answered : (whole : List Bytes) × AnsweredInFull whole
    run_convo_round-answered =
        let nonce = forward_nonce round in
        let (valid, index, filtered, f) =
          filter_incoming-Filters (arrivals box laws cfg round onions r)
            (arrivals-AllLong box laws cfg nonce onions) in
        let (replies, exchanged, h) = exchange_all-IsExchanged (map exchange_of_message valid) in
        let size = h.size ∙ length-map valid exchange_of_message in
        (_, answered_in_full valid index replies f size filtered exchanged)

    module _ (i j v w : ℕ) (x y : ConvoExchange) (seed_x seed_y : Random) {valid : List Bytes}
        {index : List (Option ℕ)} (ps : List ℕ) (x_sized : IsExchange x) (y_sized : IsExchange y)
        (x_came : get_elem? onions i ≡ some (sent round x seed_x).0)
        (y_came : get_elem? onions j ≡ some (sent round y seed_y).0)
        (filtered : filter_incoming (map (message_slot box cfg (forward_nonce round)) onions)
          ≡ ok (valid, index))
        (x_kept : get_elem? index i ≡ some (some v)) (y_kept : get_elem? index j ≡ some (some w))
        (met : positions x.dead_drop 0 (map exchange_of_message valid) ≡ v ∷ w ∷ ps) where
      -- A fresh round of the last server of a chain, whose mutex NewRound has locked. Exchanges `x`
      -- and `y` of the right sizes came sealed for the server in slots `i` and `j`, the filter kept
      -- both, and they are the first two of the kept messages to name their dead drop. The round is
      -- answered in full, and slots `i` and `j` hold replies that their senders open with the keys of
      -- their own onions: the one reads the message of `y`, the other that of `x`.
      pub run_convo_round-delivers :
          (whole : List Bytes) × AnsweredInFull whole
          × Reads whole i (sent round x seed_x).1 y.encrypted_message
          × Reads whole j (sent round y seed_y).1 x.encrypted_message
      run_convo_round-delivers =
          let nonce = forward_nonce round in
          let many = length-map valid exchange_of_message in
          let (valid', index', same, f') =
            filter_incoming-Filters (arrivals box laws cfg round onions r)
              (arrivals-AllLong box laws cfg nonce onions) in
          let p : valid' ≡ valid = cc in
          let q : index' ≡ index = cc in
          let f = rw (p, q) at f' in
          let (replies, exchanged, h) = exchange_all-IsExchanged (map exchange_of_message valid) in
          let size = h.size ∙ many in
          let (to_x, to_y) =
            h.paired x.dead_drop v w ps x y met (kept_exchange i v x seed_x x_sized x_came f x_kept)
              (kept_exchange j w y seed_y y_sized y_came f y_kept) in
          (
            _,
            answered_in_full valid index replies f size filtered exchanged,
            reads valid index replies f size i v x seed_x y.encrypted_message x_sized x_came x_kept
                to_x (y_sized.1),
            reads valid index replies f size j w y seed_y x.encrypted_message y_sized y_came y_kept
                to_y (x_sized.1),
          )
