-- ===== src/Examples/Dialing.antt =====
-- A dialing round, at concrete inputs.
use mathlib.Core.List.{filter_map}
use vuvuzela.Prelude.{
  ℕ, ◌+◌, ◌≡◌, refl, List, [], ◌∷◌, ◌++◌, true, false, replicate, some, none, Perm, map, arith,
}
use vuvuzela.Run.{round_exists, run_round_call, close_call, round_not_found, err, ok}
use vuvuzela.Bytes.{Bytes, Random, put_be32}
use vuvuzela.Rpc.{pure}
use vuvuzela.Node.{Node, Config, DialRound, dial_round_open}
use vuvuzela.Bytes.{be32}
use vuvuzela.Shuffle.{shuffle, draw, new_shuffler, intn, accept}
use vuvuzela.Filter.{filter_incoming, filter_dial_incoming, msg_key, contains}
use vuvuzela.DialClient.{DialNext}
use vuvuzela.Pki.{index, next_server_keys, Pki}
use vuvuzela.Dial.{noise_counts, new_round, make_noise, DialDraws, close_round, buckets}
use vuvuzela.Dial.Buckets.{intro_for}
use vuvuzela.Dial.Resume.{close_round-resumes}
use vuvuzela.Dial.Pair.{new_dial}
use vuvuzela.Noise.{fill_with_fake_introductions}
use vuvuzela.Rounds
use vuvuzela.Shuffle.Swap.{swap}
use vuvuzela.Spans.{spans}
use vuvuzela.DialClient.{new_dial_round, run_dial_round}
use vuvuzela.Rpc.{call_many, lift}
use vuvuzela.Dial.Close.{with_round, close-buckets}
use vuvuzela.Dial.Filtered.{filter_dial_incoming-kept}
use vuvuzela.Client.Dialer.{Caller, DialerKeys, handle_dial_bucket}
use vuvuzela.Client.Introduced.{IsListedAs, for_reader, handle_dial_bucket-shows}
use vuvuzela.Examples.Toy.{toy, toy_laws, toy_public}

abbrev pki : Pki
pki = record {
  people = ("carol", toy_public (3 ∷ [])) ∷ [];
  servers =
      ("first", record { address = "a:1"; public_key = toy_public (5 ∷ []) })
      ∷ ("last", record { address = "b:1"; public_key = toy_public (6 ∷ []) })
      ∷ [];
  server_order = "first" ∷ "last" ∷ [];
  entry_server = "e";
}

abbrev pub last_config : Config
last_config = record { pki = pki; server_name = "last"; private_key = 6 ∷ []; last_server = true }

abbrev pub nobody : DialNext (Unit {0})
nobody = record { new_round = λ _. pure tt; add = λ _ _. pure tt; close_round = λ _. pure tt }

abbrev pub exchange : ℕ → Bytes
exchange m = put_be32 0 ++ replicate 84 m

abbrev dial_round : DialRound
dial_round = record {
  status = dial_round_open;
  incoming = exchange 1 ∷ exchange 2 ∷ exchange 1 ∷ [];
  noise = exchange 3 ∷ [];
}

abbrev pub locked_node : Node
locked_node = record { idle = true; convo_rounds = []; dial_rounds = []; access_counts = [] }

abbrev kept : List Bytes
kept = exchange 1 ∷ exchange 2 ∷ []

dial_filtered : filter_dial_incoming dial_round.incoming ≡ ok kept
unfolding filter_dial_incoming msg_key contains put_be32
dial_filtered = refl

dial_drawn : new_shuffler (replicate 12 0) 3 ≡ ok (0 ∷ 0 ∷ 0 ∷ [], [])
unfolding new_shuffler intn accept draw be32
dial_drawn = refl

close-buckets_example :
    (after : Node) × (bucket : List Bytes) × (close_round nobody last_config 7
        (replicate 12 0)
        (with_round 7 dial_round locked_node, tt)
      ≡ ((after, tt), ok tt))
    × (buckets last_config 7 after ≡ (after, ok (bucket ∷ [])))
    × Perm bucket (filter_map (intro_for 0) (kept ++ dial_round.noise))
    × (after.idle ≡ false)
close-buckets_example =
    close-buckets nobody last_config 7 (replicate 12 0) [] dial_round locked_node tt kept refl refl
      refl dial_filtered (omega arith) dial_drawn

abbrev pub middle_config : Config
middle_config = record {
  pki = pki;
  server_name = "first";
  private_key = 5 ∷ [];
  last_server = false;
}

-- A next server whose Close fails.
abbrev forgetful : DialNext (Unit {0})
forgetful = record {
  new_round = λ _. pure tt;
  add = λ _ _. pure tt;
  close_round = λ round. lift (err (round_not_found round));
}

abbrev batch : List Bytes
batch = exchange 3 ∷ exchange 1 ∷ exchange 2 ∷ []

dial_shuffled : shuffle (0 ∷ 0 ∷ 0 ∷ []) (kept ++ dial_round.noise) ≡ ok batch
unfolding shuffle swap
dial_shuffled = refl

forgetful_made : new_dial_round forgetful 7 tt ≡ (tt, ok tt)
unfolding new_dial_round
forgetful_made = refl

forgetful_ran : run_dial_round forgetful 7 batch tt ≡ (tt, err (close_call (round_not_found 7)))
unfolding run_dial_round call_many spans
forgetful_ran = refl

abbrev no_calls : DialDraws
no_calls = record { bucket_noise = λ _. 0; entropy = λ _ _ _. 0 }

noised_none : make_noise toy middle_config 8 no_calls ≡ ok []
unfolding make_noise noise_counts fill_with_fake_introductions next_server_keys index
noised_none = refl

next_unknown : Rounds.lookup 8 locked_node.dial_rounds ≡ none
unfolding Rounds.lookup
next_unknown = refl

close_round-resumes_example :
    (left : Node) × (after : Node) × (stuck : Node) × Perm batch (kept ++ dial_round.noise)
    × (close_round forgetful middle_config 7
          (replicate 12 0)
          (with_round 7 dial_round locked_node, tt)
        ≡ ((left, tt), err (run_round_call (close_call (round_not_found 7)))))
    × (new_round toy middle_config 8 no_calls left ≡ (after, ok tt))
    × (Rounds.lookup 8 after.dial_rounds ≡ some (new_dial []))
    × (new_round toy middle_config 7 no_calls left ≡ (stuck, err (round_exists 7)))
close_round-resumes_example =
    close_round-resumes toy middle_config forgetful 7 (replicate 12 0) [] dial_round locked_node tt
      tt tt 8 no_calls no_calls refl refl refl dial_filtered dial_drawn dial_shuffled forgetful_made
      forgetful_ran (λ e. absurd (omega (arith, e))) next_unknown noised_none

all_filtered :
    filter_incoming (map some dial_round.incoming) ≡ ok (kept, some 0 ∷ some 1 ∷ none ∷ [])
unfolding filter_incoming msg_key contains put_be32
all_filtered = refl

filter_dial_incoming-kept_example : filter_dial_incoming dial_round.incoming ≡ ok kept
filter_dial_incoming-kept_example = filter_dial_incoming-kept dial_round.incoming all_filtered

abbrev noise_seed : ℕ → Random
noise_seed i j = i + j

abbrev carol : DialerKeys
carol = record { pki = pki; my_public_key = toy_public (3 ∷ []); my_private_key = 3 ∷ [] }

abbrev dave : DialerKeys
dave = record { pki = pki; my_public_key = toy_public (4 ∷ []); my_private_key = 4 ∷ [] }

handle_dial_bucket-shows_example :
    (who : Caller) × IsListedAs pki.people (toy_public (3 ∷ [])) who
    × (handle_dial_bucket toy dave 3
          (replicate 84 0 ∷ for_reader toy toy_laws carol dave 3 noise_seed refl ∷ [])
        ≡ handle_dial_bucket toy dave 3 (replicate 84 0 ∷ [])
          ++ who ∷ handle_dial_bucket toy dave 3 [])
handle_dial_bucket-shows_example =
    handle_dial_bucket-shows toy toy_laws carol dave 3 noise_seed refl (replicate 84 0 ∷ []) []
