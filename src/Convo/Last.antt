-- ===== src/Convo/Last.antt =====
-- Close and Get of the last server, on a round in which all onions have come.
use vuvuzela.Run.{ok}
use vuvuzela.Prelude.{
  map, Option, length, ℕ, List, Bool-cases, ltb, inr, inl, false, true, some, [], if◌then◌else◌,
  ◌≡◌, ◌++◌, ◌∷◌,
}
use vuvuzela.Bytes.{Bytes}
use vuvuzela.Filter.{filter_incoming}
use vuvuzela.Exchange.{AccessCount, exchange_of_message, exchange_all}
use vuvuzela.Node.{Node, Config, ConvoRound, convo_round_open, convo_round_closed, unlock}
use vuvuzela.ConvoClient.{ConvoNext}
use vuvuzela.Convo.State.{with_round, get_round-with_round, put_round-with_round}
use vuvuzela.Convo.Close.{send_count, close_last, close_round}

-- The node after the two counts were offered to the channel.
abbrev pub counted : AccessCount → Node → Node
counted ac node = record node {
  access_counts =
      if ltb (length node.access_counts) 8
      then node.access_counts ++ ac ∷ []
      else node.access_counts;
}

send_count-counted :
    (ac : AccessCount) (node : Node) → send_count ac node ≡ (counted ac node, ok tt)
unfolding send_count
send_count-counted ac node = elim (Bool-cases (ltb (length node.access_counts) 8)) [
  | inl e ↦ rw e
  | inr e ↦ rw e
]

pub unlock-locked :
    (node : Node) → node.idle ≡ true → unlock node ≡ (record node { idle = false }, ok tt)
unfolding unlock
unlock-locked node e = rw e

-- The round that Close leaves: filtered, answered and closed.
abbrev pub answered : List Bytes → List (Option ℕ) → List Bytes → ConvoRound → ConvoRound
answered valid index replies r = record r {
  incoming = map some valid;
  incoming_index = index;
  replies = replies;
  status = convo_round_closed;
}

module _ (round : ℕ) (r : ConvoRound) (node : Node) (locked : node.idle ≡ true) (valid : List Bytes)
    {replies : List Bytes} {count : AccessCount}
    (exchanged : exchange_all (map exchange_of_message valid) ≡ ok (replies, count)) where
  pub close_last-answered : close_last round r valid (with_round round r node) ≡ (
    with_round round
        (record r { replies = replies; status = convo_round_closed })
        (counted count (record node { idle = false })),
    ok tt,
  )
  unfolding close_last
  close_last-answered =
      rw
        (
          exchanged,
          put_round-with_round round r (record r { replies = replies }) node,
          unlock-locked (with_round round (record r { replies = replies }) node) locked,
          send_count-counted count,
        )
        (put_round-with_round round (record r { replies = replies }) _
          (counted count (record node { idle = false })))

module _ {S : Type 0} (next : ConvoNext S) (cfg : Config) (last : cfg.last_server ≡ true)
    (round : ℕ) (source : Bytes) (r : ConvoRound) (node : Node) (locked : node.idle ≡ true) (s : S)
    (valid : List Bytes) {replies : List Bytes} {index : List (Option ℕ)} {count : AccessCount}
    (is_open : r.status ≡ convo_round_open)
    (filtered : filter_incoming r.incoming ≡ ok (valid, index))
    (exchanged : exchange_all (map exchange_of_message valid) ≡ ok (replies, count)) where
  -- Close of the last server answers the round, reports the counts and unlocks the mutex.
  pub close_round-last : close_round next cfg round source (with_round round r node, s) ≡ (
    (
      with_round round
          (answered valid index replies r)
          (counted count (record node { idle = false })),
      s,
    ),
    ok tt,
  )
  unfolding close_round
  close_round-last =
      let filtered_round = record r { incoming = map some valid; incoming_index = index } in
      rw (
        get_round-with_round round convo_round_open r node is_open,
        filtered,
        put_round-with_round round r filtered_round node,
        last,
        close_last-answered round filtered_round node locked valid exchanged,
      )
