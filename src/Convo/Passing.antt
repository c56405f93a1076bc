-- ===== src/Convo/Passing.antt =====
-- convo.go: a whole round of a server in the middle of the chain, as the clients of the round see it.
use vuvuzela.Run.{ok}
use vuvuzela.Prelude.{
  get_elem?-take_lt, get_elem?-append_left, ap, sym, ◌∙◌, ◌<◌, ◌≤◌, ◌≡◌, ◌*◌, ◌+◌, ◌-◌, ℕ, length,
  List, ◌∷◌, ◌++◌, Option, some, true, false, arith, refl, get_elem?, get_elem?-map, get_elem?-lt,
}
use Prim.Native.String.{String}
use vuvuzela.Bytes.{Bytes, Random, u32_mod}
use vuvuzela.Nacl.{Nacl, NaclLaws, box_overhead}
use vuvuzela.Wire.{forward_nonce, backward_nonce, size_encrypted_message, size_convo_exchange}
use vuvuzela.Onion.{seal_layer, open_onion}
use vuvuzela.Pki.{next_server_keys}
use vuvuzela.Pki.Sizes.{IsNew, next_keys-and-overheads}
use vuvuzela.Filter.{filter_incoming}
use vuvuzela.Shuffle.{Shuffler, new_shuffler, shuffle}
use vuvuzela.Shuffle.Draw.{new_shuffler-IsShuffler}
use vuvuzela.Shuffle.Place.{unshuffle-places}
use vuvuzela.Rounds
use vuvuzela.Convo.Fill.{message_slot, filled}
use vuvuzela.Node.{Node, Config, ConvoRound, convo_round_new}
use vuvuzela.Convo.State.{with_round}
use vuvuzela.Convo.Close.{outgoing_onion_size}
use vuvuzela.Convo.Serve.{Draws, serve}
use vuvuzela.ConvoClient.{ConvoNext, new_convo_round, run_convo_round}
use vuvuzela.Convo.Replies.{get_elem?-AllSized, AllSized, length-answers}
use vuvuzela.Convo.Mix.{mixed_round}
use vuvuzela.Convo.Whole.{arrivals, full, answers-sealed}
use vuvuzela.Chain.{outer, inner, message_slot-inner}
use vuvuzela.Convo.Relay.{filters, kept_fit, run-relayed, whole-AllSized}

-- A server of the chain between two others, and the onions that clients seal for it and those behind.
module _ (box : Nacl) (laws : NaclLaws box) (cfg : Config) (before after : List String)
    (order : cfg.pki.server_order ≡ before ++ cfg.server_name ∷ after)
    (fresh : IsNew cfg.server_name before) (keys : List Bytes)
    (known : next_server_keys cfg.pki cfg.server_name ≡ ok keys) (round : ℕ) (onions : List Bytes)
    (r : ConvoRound) {S : Type 0} (next : ConvoNext S) (draws : Draws) (node : Node) (t t' t'' : S)
    (mixing : cfg.last_server ≡ false) (new : r.status ≡ convo_round_new)
    (locked : node.idle ≡ true) (valid : List Bytes) (index : List (Option ℕ))
    (filtered : filter_incoming (arrivals box laws cfg round onions r) ≡ ok (valid, index))
    (s : Shuffler) (rest : Bytes)
    (drawn : new_shuffler (draws.shuffler round) (length (valid ++ r.noise)) ≡ ok (s, rest))
    (short : length (valid ++ r.noise) < u32_mod)
    (enough : length onions ≤ length (valid ++ r.noise)) (shuffled : List Bytes)
    (mixed : shuffle s (valid ++ r.noise) ≡ ok shuffled)
    (made : new_convo_round next round t ≡ (t', ok tt)) (replies : List Bytes)
    (ran : run_convo_round next round shuffled t' ≡ (t'', ok replies))
    (size : length replies ≡ length shuffled) where
  -- The round ends with a reply of the right size for each onion, the round is gone, the mutex is free
  -- and the dialing rounds are as they were; the server behind is left as its own round left it.
  abbrev pub EndsWell : List Bytes → Type 0
  EndsWell whole =
      (left : Node) × (run_convo_round (serve box cfg draws next) round onions
          (with_round round r node, t)
        ≡ ((left, t''), ok whole))
      × (length whole ≡ length onions)
      × AllSized (outgoing_onion_size box cfg) whole
      × (left.idle ≡ false)
      × (left.convo_rounds ≡ Rounds.delete round node.convo_rounds)
      × (left.dial_rounds ≡ node.dial_rounds)

  -- Somewhere in the batch for the next server stands the onion `onion`, and the reply to it is what a
  -- client that keeps `key` finds under the outer layer of its reply in slot `i`.
  abbrev pub PassesOn : List Bytes → ℕ → Bytes → Bytes → Type 0
  PassesOn whole i onion key =
      (p : ℕ) × (reply : Bytes) × (sealed : Bytes) × (get_elem? shuffled p ≡ some onion)
      × (get_elem? replies p ≡ some reply)
      × (get_elem? whole i ≡ some sealed)
      × ((ks : List Bytes)
          → open_onion box sealed (backward_nonce round) (key ∷ ks)
            ≡ open_onion box reply (backward_nonce round) ks)

  module _ (m : Bytes) (m_sized : length m ≡ size_convo_exchange) (rs : ℕ → Random) (i v : ℕ)
      (sized : AllSized (length after * box_overhead + size_encrypted_message) replies) where
    abbrev pub for_us : Bytes
    for_us = outer box laws cfg before after order fresh keys known m (forward_nonce round) rs

    abbrev pub for_next : Bytes
    for_next = inner box laws cfg before after order fresh keys known m (forward_nonce round) rs

    abbrev pub our_key : Bytes
    our_key =
        (seal_layer box for_next (forward_nonce round) (box.public_key cfg.private_key) (rs 0)).1

    -- A fresh round of a server in the middle, whose mutex NewRound has locked. The filter keeps `valid`,
    -- the Shuffler is drawn for these and the noise, which are as many as the onions or more, and the
    -- next server answers each of the shuffled onions, with the size of its replies. The round ends, with
    -- a reply of the right size for each onion. An exchange that was sealed for this server and those
    -- behind, and that the filter kept, is passed on without its outer layer; and what the client finds
    -- under the outer layer of its reply is the next server's reply to that very onion.
    pub run_convo_round-relays :
        get_elem? onions i ≡ some for_us
        → get_elem? index i ≡ some (some v)
        → (whole : List Bytes) × EndsWell whole × PassesOn whole i for_next our_key
    unfolding open_onion filled
    run_convo_round-relays came kept =
        let nonce = forward_nonce round in
        let (shuffler, fits) = new_shuffler-IsShuffler (draws.shuffler round) _ short drawn in
        let (u, undone, many, places) =
          unshuffle-places s shuffler (valid ++ r.noise) replies (sym fits) mixed size in
        let f =
          filters box laws cfg round onions r next draws node t t' t'' mixing new locked valid index
            filtered s rest drawn short enough shuffled mixed made replies ran size in
        let (slot, keyed) =
          message_slot-inner box laws cfg before after order fresh keys known m nonce rs m_sized in
        let (_, msg, there, placed) = f.kept i v kept in
        let arrived : get_elem? (arrivals box laws cfg round onions r) i ≡ some (some for_next) =
          get_elem?-map onions (message_slot box cfg nonce) i came ∙ ap some slot in
        let same : msg ≡ for_next = cc in
        let at_v : v - 0 ≡ v = omega arith in
        let here : get_elem? valid v ≡ some for_next = rw at_v at (placed ∙ ap some same) in
        let (p, reply, at_p, replied, back) =
          places v for_next (get_elem?-append_left valid r.noise v here) in
        let sealed = box.seal reply (backward_nonce round) our_key in
        let fitting : length sealed ≡ outgoing_onion_size box cfg = omega (
          arith,
          laws.length-seal reply (backward_nonce round) our_key,
          get_elem?-AllSized _ replies p sized replied,
          (next_keys-and-overheads cfg.pki cfg.server_name before after order fresh).2,
        ) in
        let c = mixed_round (full box laws cfg round onions r) valid index shuffled u in
        let in_range : v < length onions = omega (
          arith,
          get_elem?-lt valid v here,
          kept_fit box laws cfg round onions r next draws node t t' t'' mixing new locked valid
              index filtered s rest drawn short enough shuffled mixed made replies ran size,
        ) in
        (
          _,
          (
            _,
            run-relayed box laws cfg round onions r next draws node t t' t'' mixing new locked valid
                index filtered s rest drawn short enough shuffled mixed made replies ran size u
                undone many,
            length-answers box cfg c (backward_nonce round) (draws.padding round) 0 (length onions),
            whole-AllSized box laws cfg round onions r next draws node t t' t'' mixing new locked
                valid index filtered s rest drawn short enough shuffled mixed made replies ran size
                u undone many,
            refl,
            refl,
            refl,
          ),
          (
            p,
            reply,
            sealed,
            at_p,
            replied,
            answers-sealed box laws cfg round onions r c refl draws i v for_us reply our_key came
                keyed kept (get_elem?-take_lt (length onions) u v in_range back) fitting,
            λ ks. rw (open_onion, laws.unseal-seal reply (backward_nonce round) our_key),
          ),
        )
