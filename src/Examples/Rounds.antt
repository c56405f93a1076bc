-- ===== src/Examples/Rounds.antt =====
-- Whole rounds, at concrete inputs.
use vuvuzela.Prelude.{ℕ, ◌≡◌, refl, List, [], ◌∷◌, true, replicate, some, map}
use vuvuzela.Run.{ok}
use vuvuzela.Bytes.{Bytes, Random, bytes_eq}
use vuvuzela.Wire.{forward_nonce, marshal_exchange, ConvoExchange}
use vuvuzela.Node.{Node, Config}
use vuvuzela.Onion.{seal_layer}
use vuvuzela.Pki.{index, incoming_onion_overhead}
use vuvuzela.Filter.{msg_key, contains, contains, msg_key, filter_incoming}
use vuvuzela.Exchange.{exchange_of_message}
use vuvuzela.Exchange.Drops.{positions}
use vuvuzela.Convo.{NoiseDraws, new_convo}
use vuvuzela.Convo.Fill.{message_slot}
use vuvuzela.Convo.Serve.{Draws}
use vuvuzela.ConvoClient.{ConvoNext}
use vuvuzela.Rpc.{pure}
use vuvuzela.Convo.Delivery.{
  sent, AnsweredInFull, Reads, run_convo_round-answered, run_convo_round-delivers,
}
use vuvuzela.Examples.Toy.{toy, toy_laws, toy_public}

abbrev pub only_server : Config
only_server = record {
  pki = record {
    people = [];
    servers =
        ("last", record { address = "localhost:2718"; public_key = toy_public (5 ∷ []) }) ∷ [];
    server_order = "last" ∷ [];
    entry_server = "localhost:8080";
  };
  server_name = "last";
  private_key = 5 ∷ [];
  last_server = true;
}

-- There is no server behind the last one.
abbrev pub nobody : ConvoNext (Unit {0})
nobody = record {
  new_round = λ _. pure tt;
  open_round = λ _ _. pure tt;
  add = λ _ _ _. pure tt;
  close_round = λ _. pure tt;
  get = λ _ _ _. pure [];
  delete = λ _. pure tt;
}

abbrev pub no_noise : NoiseDraws
no_noise = record {
  fake_singles = 0;
  fake_doubles = 0;
  single_entropy = λ _ _ _. 0;
  double_entropy = λ _ _ _. 0;
}

abbrev pub draws : Draws
draws = record { noise = λ _. no_noise; shuffler = λ _. []; padding = λ _ _ _. 0 }

abbrev pub busy : Node
busy = record { idle = true; convo_rounds = []; dial_rounds = []; access_counts = [] }

abbrev pub message_of : ℕ → ConvoExchange
message_of m = record { dead_drop = replicate 16 1; encrypted_message = replicate 256 m }

abbrev pub seed : ℕ → Random
seed n i = n

abbrev pub two_onions : List Bytes
two_onions =
    (sent toy toy_laws only_server [] refl tt 7 (message_of 10) (seed 1)).0
    ∷ (sent toy toy_laws only_server [] refl tt 7 (message_of 30) (seed 2)).0
    ∷ []

run_convo_round-answered_example :
    (whole : List Bytes) × AnsweredInFull toy toy_laws only_server [] refl tt nobody draws 7
      two_onions new_convo busy tt refl refl refl whole
run_convo_round-answered_example =
    run_convo_round-answered toy toy_laws only_server [] refl tt nobody draws 7 two_onions new_convo
      busy tt refl refl refl

pub kept_both :
    filter_incoming (map (message_slot toy only_server (forward_nonce 7)) two_onions)
    ≡ ok (
      marshal_exchange (message_of 10) ∷ marshal_exchange (message_of 30) ∷ [],
      some 0 ∷ some 1 ∷ [],
    )
unfolding filter_incoming message_slot msg_key contains seal_layer marshal_exchange forward_nonce
    index incoming_onion_overhead
kept_both = refl

pub both_named :
    positions (message_of 10).dead_drop 0 (
      map exchange_of_message
        (marshal_exchange (message_of 10) ∷ marshal_exchange (message_of 30) ∷ []))
    ≡ 0 ∷ 1 ∷ []
unfolding positions exchange_of_message marshal_exchange bytes_eq
both_named = refl

run_convo_round-delivers_example :
    (whole : List Bytes) × AnsweredInFull toy toy_laws only_server [] refl tt nobody draws 7
      two_onions new_convo busy tt refl refl refl whole
    × Reads toy toy_laws only_server [] refl tt nobody draws 7 two_onions new_convo busy tt refl
        refl refl whole 0
        (sent toy toy_laws only_server [] refl tt 7 (message_of 10) (seed 1)).1
        (replicate 256 30)
    × Reads toy toy_laws only_server [] refl tt nobody draws 7 two_onions new_convo busy tt refl
        refl refl whole 1
        (sent toy toy_laws only_server [] refl tt 7 (message_of 30) (seed 2)).1
        (replicate 256 10)
run_convo_round-delivers_example =
    run_convo_round-delivers toy toy_laws only_server [] refl tt nobody draws 7 two_onions new_convo
      busy tt refl refl refl 0 1 0 1 (message_of 10) (message_of 30) (seed 1) (seed 2) []
      (refl, refl) (refl, refl) refl refl kept_both refl refl both_named
