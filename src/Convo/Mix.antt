-- ===== src/Convo/Mix.antt =====
-- Close of a server in the middle, on a round in which all onions have come.
use vuvuzela.Run.{ok, panic}
use vuvuzela.Prelude.{
  map, Option, length, ℕ, List, leb, false, true, some, [], ◌<◌, ◌≤◌, ◌≡◌, ◌++◌, take,
  if◌then◌else◌, arith,
}
use vuvuzela.Bytes.{Bytes}
use vuvuzela.Shuffle.{Shuffler, new_shuffler, shuffle, unshuffle}
use vuvuzela.Filter.{filter_incoming}
use vuvuzela.Node.{Node, Config, ConvoRound, convo_round_open, convo_round_closed}
use vuvuzela.ConvoClient.{ConvoNext, new_convo_round, run_convo_round}
use vuvuzela.Convo.State.{with_round, get_round-with_round, put_round-with_round}
use vuvuzela.Convo.Last.{unlock-locked}
use vuvuzela.Convo.Close.{cut, close_mix, close_round}

cut-enough :
    (n : ℕ) (replies : List Bytes) → n ≤ length replies → cut n replies ≡ ok (take n replies)
unfolding cut
cut-enough n replies h = ground arith

cut-short : (n : ℕ) (replies : List Bytes) → length replies < n → cut n replies ≡ panic
unfolding cut
cut-short n replies h = ground arith

module _ (r : ConvoRound) (valid : List Bytes) (index : List (Option ℕ))
    (shuffled : List Bytes) where
  -- The round while the next server works on it.
  abbrev pub sent_on : ConvoRound
  sent_on = record r {
    incoming = map some (
        if leb (length (valid ++ r.noise)) (length r.incoming)
        then take (length valid) shuffled
        else valid);
    incoming_index = index;
    noise = [];
  }

  -- The round that Close leaves.
  abbrev pub mixed_round : List Bytes → ConvoRound
  mixed_round unshuffled = record sent_on {
    replies = take r.num_incoming unshuffled;
    status = convo_round_closed;
  }

module _ {S : Type 0} (next : ConvoNext S) (cfg : Config) (mixing : cfg.last_server ≡ false)
    (round : ℕ) (source : Bytes) (r : ConvoRound) (node : Node) (locked : node.idle ≡ true)
    (t t' t'' : S) (valid : List Bytes) (index : List (Option ℕ))
    (is_open : r.status ≡ convo_round_open)
    (filtered : filter_incoming r.incoming ≡ ok (valid, index)) (s : Shuffler) (rest : Bytes)
    (drawn : new_shuffler source (length (valid ++ r.noise)) ≡ ok (s, rest)) (shuffled : List Bytes)
    (mixed : shuffle s (valid ++ r.noise) ≡ ok shuffled)
    (made : new_convo_round next round t ≡ (t', ok tt)) (replies : List Bytes)
    (ran : run_convo_round next round shuffled t' ≡ (t'', ok replies)) (unshuffled : List Bytes)
    (back : unshuffle s replies ≡ ok unshuffled) where
  pub close_round-mixed :
      r.num_incoming ≤ length unshuffled
      → close_round next cfg round source (with_round round r node, t) ≡ (
        (
          with_round round
              (mixed_round r valid index shuffled unshuffled)
              (record node { idle = false }),
          t'',
        ),
        ok tt,
      )
  unfolding close_round close_mix
  close_round-mixed enough =
      let filtered_round = record r { incoming = map some valid; incoming_index = index } in
      rw (
        get_round-with_round round convo_round_open r node is_open,
        filtered,
        put_round-with_round round r filtered_round node,
        mixing,
        drawn,
        mixed,
        put_round-with_round round filtered_round (sent_on r valid index shuffled) node,
        made,
        unlock-locked (with_round round (sent_on r valid index shuffled) node) locked,
        ran,
        back,
        cut-enough r.num_incoming unshuffled enough,
        put_round-with_round round (sent_on r valid index shuffled)
            (mixed_round r valid index shuffled unshuffled) (record node { idle = false }),
      )

  pub close_round-short :
      length unshuffled < r.num_incoming
      → close_round next cfg round source (with_round round r node, t) ≡ (
        (with_round round (sent_on r valid index shuffled) (record node { idle = false }), t''),
        panic,
      )
  unfolding close_round close_mix
  close_round-short few =
      let filtered_round = record r { incoming = map some valid; incoming_index = index } in
      rw (
        get_round-with_round round convo_round_open r node is_open,
        filtered,
        put_round-with_round round r filtered_round node,
        mixing,
        drawn,
        mixed,
        put_round-with_round round filtered_round (sent_on r valid index shuffled) node,
        made,
        unlock-locked (with_round round (sent_on r valid index shuffled) node) locked,
        ran,
        back,
        cut-short r.num_incoming unshuffled few,
      )
