-- ===== src/Convo/Relay.antt =====
-- convo.go: a whole round of a server in the middle of the chain, and the replies of the next server
-- as its clients see them.
use vuvuzela.Run.{remote, close_call, err, ok, panic}
use vuvuzela.Prelude.{
  ap, sym, ◌<◌, ◌≤◌, ◌≡◌, ℕ, zero, suc, length, List, [], ◌∷◌, ◌++◌, Option, none, some, true,
  false, arith, refl, length-map, length-take,
}
use vuvuzela.Bytes.{Bytes, u32_mod}
use vuvuzela.Nacl.{Nacl, NaclLaws}
use vuvuzela.Wire.{forward_nonce, backward_nonce}
use vuvuzela.Filter.{filter_incoming}
use vuvuzela.Filter.First.{Filters, filter_incoming-Filters, kept_indices, count_up}
use vuvuzela.Shuffle.{Shuffler, new_shuffler, shuffle, unshuffle}
use vuvuzela.Shuffle.Draw.{new_shuffler-IsShuffler}
use vuvuzela.Shuffle.Place.{unshuffle-places}
use vuvuzela.Rounds
use vuvuzela.Convo.Fill.{message_slot, filled}
use vuvuzela.Node.{Node, Config, ConvoRound, convo_round_new}
use vuvuzela.Convo.State.{with_round}
use vuvuzela.Convo.Close.{outgoing_onion_size}
use vuvuzela.Convo.Serve.{Draws, serve}
use vuvuzela.ConvoClient.{ConvoNext, new_convo_round, run_convo_round}
use vuvuzela.Convo.Replies.{answers-AllSized, AllSized, answers}
use vuvuzela.Convo.Mix.{close_round-short, mixed_round, close_round-mixed}
use vuvuzela.Convo.Whole.{
  run-panics, closed-CanReply, arrivals, arrivals-AllLong, full, full-slots, full-open, run-closed,
}

length-kept_indices : (index : List (Option ℕ)) → length (kept_indices index) ≤ length index
length-kept_indices [] = omega arith
length-kept_indices (none ∷ rest) = omega (arith, length-kept_indices rest)
length-kept_indices (some w ∷ rest) = omega (arith, length-kept_indices rest)

length-count_up : (v n : ℕ) → length (count_up v n) ≡ n
length-count_up v zero = refl
length-count_up v (suc n) = ap suc (length-count_up (suc v) n)

module _ (box : Nacl) (laws : NaclLaws box) (cfg : Config) (round : ℕ) (onions : List Bytes)
    (r : ConvoRound) {S : Type 0} (next : ConvoNext S) (draws : Draws) (node : Node) (t t' t'' : S)
    (mixing : cfg.last_server ≡ false) (new : r.status ≡ convo_round_new)
    (locked : node.idle ≡ true) (valid : List Bytes) (index : List (Option ℕ))
    (filtered : filter_incoming (arrivals box laws cfg round onions r) ≡ ok (valid, index))
    (s : Shuffler) (rest : Bytes)
    (drawn : new_shuffler (draws.shuffler round) (length (valid ++ r.noise)) ≡ ok (s, rest))
    (short : length (valid ++ r.noise) < u32_mod)
    (enough : length onions ≤ length (valid ++ r.noise)) (shuffled : List Bytes)
    (mixed : shuffle s (valid ++ r.noise) ≡ ok shuffled)
    (made : new_convo_round next round t ≡ (t', ok tt)) (replies : List Bytes)
    (ran : run_convo_round next round shuffled t' ≡ (t'', ok replies))
    (size : length replies ≡ length shuffled) where
  pub filters : Filters [] 0 (arrivals box laws cfg round onions r) valid index
  filters =
      let (valid', index', same, f) =
        filter_incoming-Filters (arrivals box laws cfg round onions r)
          (arrivals-AllLong box laws cfg (forward_nonce round) onions) in
      let p : valid' ≡ valid = cc in let q : index' ≡ index = cc in rw (p, q) at f

  pub kept_fit : length valid ≤ length onions
  kept_fit = omega (
    arith,
    length-kept_indices index,
    ap length filters.numbered,
    length-count_up 0 (length valid),
    filters.size,
    length-map onions (message_slot box cfg (forward_nonce round)),
  )

  module _ (u : List Bytes) (undone : unshuffle s replies ≡ ok u)
      (many : length u ≡ length (valid ++ r.noise)) where
    -- The round that Close leaves.
    abbrev closed : ConvoRound
    closed = mixed_round (full box laws cfg round onions r) valid index shuffled u

    closing-mixed :
        (serve box cfg draws next).close_round round
          (with_round round (full box laws cfg round onions r) node, t)
        ≡ ((with_round round closed (record node { idle = false }), t''), ok tt)
    unfolding serve filled
    closing-mixed =
        let came : filter_incoming ((full box laws cfg round onions r).incoming)
            ≡ ok (valid, index) =
          rw ((full-slots box laws cfg round onions r).0) filtered in
        close_round-mixed next cfg mixing round (draws.shuffler round)
          (full box laws cfg round onions r) node locked t t' t'' valid index
          (full-open box laws cfg round onions r) came s rest drawn shuffled mixed made replies ran
          u undone (omega (arith, many, enough))

    enough_replies : length valid ≤ length closed.replies
    unfolding filled
    enough_replies = omega (arith, length-take (length onions) u, many, enough, kept_fit)

    same_keys : closed.shared_keys ≡ (full box laws cfg round onions r).shared_keys
    same_keys = refl

    abbrev whole : List Bytes
    whole = answers box cfg closed (backward_nonce round) (draws.padding round) 0 (length onions)

    pub run-relayed :
        run_convo_round (serve box cfg draws next) round onions (with_round round r node, t) ≡ (
          (record node { idle = false; convo_rounds = Rounds.delete round node.convo_rounds }, t''),
          ok whole,
        )
    run-relayed =
        run-closed box laws cfg round onions r closed valid filters same_keys enough_replies next
          draws node (record node { idle = false }) t t'' new refl closing-mixed

    pub whole-AllSized : AllSized (outgoing_onion_size box cfg) whole
    whole-AllSized =
        answers-AllSized box cfg closed (backward_nonce round) (draws.padding round) 0
          (length onions)
          (λ j _ h.
            closed-CanReply box laws cfg round onions r closed valid filters same_keys
              enough_replies j (omega arith))

-- The same server with fewer messages and noise onions than onions that came.
module _ (box : Nacl) (laws : NaclLaws box) (cfg : Config) (round : ℕ) (onions : List Bytes)
    (r : ConvoRound) {S : Type 0} (next : ConvoNext S) (draws : Draws) (node : Node) (t t' t'' : S)
    (mixing : cfg.last_server ≡ false) (new : r.status ≡ convo_round_new)
    (locked : node.idle ≡ true) {valid : List Bytes} {index : List (Option ℕ)}
    (filtered : filter_incoming (arrivals box laws cfg round onions r) ≡ ok (valid, index))
    {s : Shuffler} {rest : Bytes}
    (drawn : new_shuffler (draws.shuffler round) (length (valid ++ r.noise)) ≡ ok (s, rest))
    (short : length (valid ++ r.noise) < u32_mod) (few : length (valid ++ r.noise) < length onions)
    {shuffled : List Bytes} (mixed : shuffle s (valid ++ r.noise) ≡ ok shuffled)
    (made : new_convo_round next round t ≡ (t', ok tt)) {replies : List Bytes}
    (ran : run_convo_round next round shuffled t' ≡ (t'', ok replies))
    (size : length replies ≡ length shuffled) where
  -- A fresh round of a server in the middle, whose mutex NewRound has locked, with fewer messages that
  -- the filter kept and noise onions than onions that came; these are fewer than 2^32, and the random
  -- bytes suffice for the Shuffler. The next server makes the round and answers each onion that it was
  -- sent. Once all onions have come, Close panics all the same, which ends the server's process, and
  -- whoever runs the round on this server gets an error from the call of Close.
  pub run_convo_round-too_few :
      (left : Node) × ((serve box cfg draws next).close_round round
          (with_round round (full box laws cfg round onions r) node, t)
        ≡ ((left, t''), panic))
      × (run_convo_round (serve box cfg draws next) round onions (with_round round r node, t)
          ≡ ((left, t''), err (close_call remote)))
  unfolding serve filled
  run_convo_round-too_few =
      let came : filter_incoming ((full box laws cfg round onions r).incoming) ≡ ok (valid, index) =
        rw ((full-slots box laws cfg round onions r).0) filtered in
      let (shuffler, fits) = new_shuffler-IsShuffler (draws.shuffler round) _ short drawn in
      let (u, undone, many, _) =
        unshuffle-places s shuffler (valid ++ r.noise) replies (sym fits) mixed size in
      let closes =
        close_round-short next cfg mixing round (draws.shuffler round)
          (full box laws cfg round onions r) node locked t t' t'' valid index
          (full-open box laws cfg round onions r) came s rest drawn shuffled mixed made replies ran
          u undone (omega (arith, many, few)) in
      (_, closes, run-panics box laws cfg round onions r next draws node t new closes)
