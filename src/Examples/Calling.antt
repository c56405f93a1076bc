-- ===== src/Examples/Calling.antt =====
-- A dialing round of two servers, at a concrete input.
use mathlib.Core.List.{filter_map}
use vuvuzela.Prelude.{◌+◌, ℕ, ◌≡◌, refl, List, [], ◌∷◌, ◌++◌, none, false, replicate, Perm, arith}
use vuvuzela.Run.{ok}
use vuvuzela.Bytes.{Bytes, be32, put_be32, read_random}
use vuvuzela.Wire.{forward_nonce}
use vuvuzela.Onion.{seal_layer, seal_onion}
use vuvuzela.Pki.{index, incoming_onion_overhead, next_server_keys}
use vuvuzela.Filter.{filter_dial_incoming, msg_key, contains}
use vuvuzela.Shuffle.{new_shuffler, shuffle}
use vuvuzela.Rounds
use vuvuzela.Node.{Node, DialRound, dial_round_open}
use vuvuzela.Noise.{fill_with_fake_introductions}
use vuvuzela.DialClient.{run_dial_round}
use vuvuzela.Dial.{make_noise, noise_counts, open_onion, open_onions, buckets}
use vuvuzela.Dial.Buckets.{intro_for}
use vuvuzela.Dial.Close.{with_round}
use vuvuzela.Dial.Whole.{Draws, serve}
use vuvuzela.Dial.Pair.{run_dial_round-through}
use vuvuzela.Examples.Toy.{toy, toy_public}
use vuvuzela.Examples.Dialing.{nobody, exchange, locked_node, last_config, middle_config}

-- Two callers, and one false introduction of each server.
abbrev key_seed : ℕ → ℕ → ℕ → ℕ
key_seed m i j = m + i + j

abbrev call_of : ℕ → Bytes
call_of m =
    (seal_onion toy (exchange m) (forward_nonce 7) (toy_public (5 ∷ []) ∷ toy_public (6 ∷ []) ∷ [])
      (key_seed m)).0

abbrev inner_call : ℕ → Bytes
inner_call m =
    (seal_onion toy (exchange m) (forward_nonce 7) (toy_public (6 ∷ []) ∷ [])
      (λ i. key_seed m (1 + i))).0

abbrev calls : List Bytes
calls = call_of 10 ∷ call_of 30 ∷ []

abbrev open_dial : DialRound
open_dial = record { status = dial_round_open; incoming = []; noise = inner_call 50 ∷ [] }

abbrev one_each : Draws
one_each = record {
  noise = λ _. record { bucket_noise = λ _. 1; entropy = λ i j k. 70 + i + j + k };
  shuffler = λ _. replicate 16 0;
}

abbrev kept_calls : List Bytes
kept_calls = inner_call 10 ∷ inner_call 30 ∷ []

calls_filtered :
    filter_dial_incoming (open_onions toy middle_config (forward_nonce 7) calls) ≡ ok kept_calls
unfolding filter_dial_incoming msg_key contains open_onions open_onion seal_onion seal_layer
    put_be32 forward_nonce index incoming_onion_overhead
calls_filtered = refl

three_drawn : new_shuffler (replicate 16 0) 3 ≡ ok (0 ∷ 0 ∷ 0 ∷ [], replicate 4 0)
unfolding new_shuffler vuvuzela.Shuffle.intn vuvuzela.Shuffle.draw vuvuzela.Shuffle.accept be32
three_drawn = refl

four_drawn : new_shuffler (replicate 16 0) 4 ≡ ok (0 ∷ 0 ∷ 0 ∷ 0 ∷ [], [])
unfolding new_shuffler vuvuzela.Shuffle.intn vuvuzela.Shuffle.draw vuvuzela.Shuffle.accept be32
four_drawn = refl

abbrev between : List Bytes
between = inner_call 50 ∷ inner_call 10 ∷ inner_call 30 ∷ []

three_mixed : (x y z : Bytes) → shuffle (0 ∷ 0 ∷ 0 ∷ []) (x ∷ y ∷ z ∷ []) ≡ ok (z ∷ x ∷ y ∷ [])
unfolding shuffle vuvuzela.Shuffle.Swap.swap
three_mixed x y z = refl

abbrev opened_calls : List Bytes
opened_calls = exchange 50 ∷ exchange 10 ∷ exchange 30 ∷ []

between_filtered :
    filter_dial_incoming (open_onions toy last_config (forward_nonce 7) between) ≡ ok opened_calls
unfolding filter_dial_incoming msg_key contains open_onions open_onion seal_onion seal_layer
    put_be32 forward_nonce index incoming_onion_overhead
between_filtered = refl

abbrev last_noise : List Bytes
last_noise = (put_be32 0 ++ read_random 84 (λ k. 70 + k)) ∷ []

last_noised : make_noise toy last_config 7 (one_each.noise 7) ≡ ok last_noise
unfolding make_noise noise_counts fill_with_fake_introductions next_server_keys index seal_onion
    put_be32
last_noised = refl

abbrev idle_dial : Node
idle_dial = record locked_node { idle = false }

unknown_dial : Rounds.lookup 7 idle_dial.dial_rounds ≡ none
unfolding Rounds.lookup
unknown_dial = refl

run_dial_round-through_example :
    (left : Node) × (after : Node) × (bucket : List Bytes) × (run_dial_round
        (serve toy middle_config one_each (serve toy last_config one_each nobody))
        7
        calls
        (with_round 7 open_dial locked_node, (idle_dial, tt))
      ≡ ((left, (after, tt)), ok tt))
    × (left.idle ≡ false)
    × (after.idle ≡ false)
    × Perm between (kept_calls ++ open_dial.noise)
    × (buckets last_config 7 after ≡ (after, ok (bucket ∷ [])))
    × Perm bucket (filter_map (intro_for 0) (opened_calls ++ last_noise))
run_dial_round-through_example =
    run_dial_round-through toy middle_config last_config refl refl nobody one_each one_each 7 calls
      open_dial locked_node idle_dial tt refl refl refl unknown_dial calls_filtered three_drawn
      (three_mixed _ _ _) last_noised between_filtered (omega arith) four_drawn
