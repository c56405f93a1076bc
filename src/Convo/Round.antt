-- ===== src/Convo/Round.antt =====
-- A whole round of the last server, as the server before it runs it: what comes back in each slot.
use vuvuzela.Run.{ok}
use vuvuzela.Prelude.{
  false, true, length-take, length-replicate, Option, ltb, length-drop, drop, map, Bool-cases,
  length, List, arith, refl, inr, inl, [], ◌≤◌, ℕ, ◌≡◌,
}
use vuvuzela.Bytes.{Bytes}
use vuvuzela.Nacl.{Nacl, NaclLaws}
use vuvuzela.Wire.{backward_nonce, size_encrypted_message, unmarshal_exchange}
use vuvuzela.Filter.{filter_incoming}
use vuvuzela.Filter.First.{Filters}
use vuvuzela.Exchange.{AccessCount, exchange_of_message, exchange_all}
use vuvuzela.Node.{Node, Config, ConvoRound, convo_round_new}
use vuvuzela.Convo.{ConvoNext, size_convo_exchange}
use vuvuzela.Rounds
use vuvuzela.Convo.State.{with_round}
use vuvuzela.Convo.Whole.{arrivals, full, full-slots, full-open, run-closed}
use vuvuzela.Convo.Serve.{Draws, serve}
use vuvuzela.ConvoClient.{ConvoNext, run_convo_round}
use vuvuzela.Convo.Replies.{answers}
use vuvuzela.Convo.Last.{close_round-last, counted, answered}

pub exchange_of_message-size :
    (msg : Bytes) → length (exchange_of_message msg).encrypted_message ≡ size_encrypted_message
unfolding exchange_of_message unmarshal_exchange
exchange_of_message-size msg = elim (Bool-cases (ltb (length msg) size_convo_exchange)) [
  | inl short ↦
      rw (exchange_of_message, unmarshal_exchange, short)
        (length-replicate {A = ℕ} size_encrypted_message 0)
  | inr long ↦
      let enough : size_convo_exchange ≤ length msg = ground arith in
      rw (exchange_of_message, unmarshal_exchange, long)
        (omega (arith, length-take size_encrypted_message (drop 16 msg), length-drop 16 msg))
]

module _ (box : Nacl) (laws : NaclLaws box) (cfg : Config) (round : ℕ) (onions : List Bytes)
    (r : ConvoRound) (valid replies : List Bytes) (index : List (Option ℕ))
    (f : Filters [] 0 (arrivals box laws cfg round onions r) valid index)
    (size : length replies ≡ length valid) where
  abbrev pub closed_round : ConvoRound
  closed_round = answered valid index replies (full box laws cfg round onions r)

  module _ {S : Type 0} (next : ConvoNext S) (draws : Draws) (node : Node) (s : S)
      (count : AccessCount) (last : cfg.last_server ≡ true) (new : r.status ≡ convo_round_new)
      (locked : node.idle ≡ true)
      (filtered : filter_incoming (arrivals box laws cfg round onions r) ≡ ok (valid, index))
      (exchanged : exchange_all (map exchange_of_message valid) ≡ ok (replies, count)) where
    abbrev pub round_answers : List Bytes
    round_answers =
        answers box cfg closed_round (backward_nonce round) (draws.padding round) 0 (length onions)

    -- The node that the round leaves behind.
    abbrev pub left_behind : Node
    left_behind = record (counted count (record node { idle = false })) {
      convo_rounds = Rounds.delete round node.convo_rounds;
    }

    closing-last :
        (serve box cfg draws next).close_round round
          (with_round round (full box laws cfg round onions r) node, s)
        ≡ ((with_round round closed_round (counted count (record node { idle = false })), s), ok tt)
    unfolding serve
    closing-last =
        let came : filter_incoming ((full box laws cfg round onions r).incoming)
            ≡ ok (valid, index) =
          rw ((full-slots box laws cfg round onions r).0) filtered in
        close_round-last next cfg last round (draws.shuffler round)
          (full box laws cfg round onions r) node locked s valid
          (full-open box laws cfg round onions r) came exchanged

    pub run-last :
        run_convo_round (serve box cfg draws next) round onions (with_round round r node, s)
        ≡ ((left_behind, s), ok round_answers)
    run-last =
        run-closed box laws cfg round onions r closed_round valid f refl (omega (arith, size)) next
          draws node (counted count (record node { idle = false })) s s new refl closing-last
