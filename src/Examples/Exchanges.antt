-- ===== src/Examples/Exchanges.antt =====
-- Noise, the filter and the exchange, at concrete inputs.
use vuvuzela.Prelude.{
  refl, get_elem?, ℕ, ◌+◌, ◌*◌, ◌≤◌, ◌≡◌, List, [], ◌∷◌, some, none, Option, arith, length,
  replicate,
}
use vuvuzela.Run.{ok}
use vuvuzela.Bytes.{bytes_eq, Bytes}
use vuvuzela.Wire.{ConvoExchange, onion_overhead, size_convo_exchange}
use vuvuzela.Noise.{Entropy, fill_with_fake_singles}
use vuvuzela.Noise.Shape.{AllSized, fill_with_fake_singles-shape}
use vuvuzela.Filter.{filter_incoming, msg_key, contains}
use vuvuzela.Filter.First.{
  AllPoint, FreshKeys, kept_indices, count_up, key_of, filter_incoming-covers,
}
use vuvuzela.Exchange.{tally, exchange_all}
use vuvuzela.Exchange.Drops.{positions}
use vuvuzela.Exchange.Replies.{exchange_all-paired}
use vuvuzela.Examples.Toy.{toy, toy_laws, toy_public}

abbrev entropy : Entropy
entropy i j k = i + j + k

abbrev next_keys : List Bytes
next_keys = toy_public (2 ∷ []) ∷ []

fill_with_fake_singles-shape_example :
    (length (fill_with_fake_singles toy [] next_keys 3 entropy) ≡ 3)
    × AllSized
        (size_convo_exchange + 1 * onion_overhead)
        (fill_with_fake_singles toy [] next_keys 3 entropy)
fill_with_fake_singles-shape_example =
    fill_with_fake_singles-shape toy toy_laws [] next_keys 3 entropy

abbrev slots : List (Option Bytes)
slots = some (replicate 9 1) ∷ none ∷ some (replicate 8 1) ∷ some (replicate 8 2) ∷ []

filter_incoming-covers_example :
    (valid : List Bytes) × (index : List (Option ℕ)) × (slot : ℕ) × (place : ℕ) × (first : Bytes)
    × (filter_incoming slots ≡ ok (valid, index))
    × FreshKeys [] valid
    × (kept_indices index ≡ count_up 0 (length valid))
    × AllPoint valid slots index
    × (slot ≤ 2)
    × (get_elem? slots slot ≡ some (some first))
    × (get_elem? index slot ≡ some (some place))
    × (get_elem? valid place ≡ some first)
    × (key_of first ≡ key_of (replicate 8 1))
filter_incoming-covers_example = filter_incoming-covers slots 2 (replicate 8 1) (omega arith) refl

slots_filtered :
    filter_incoming slots
    ≡ ok (replicate 9 1 ∷ replicate 8 2 ∷ [], some 0 ∷ none ∷ none ∷ some 1 ∷ [])
unfolding filter_incoming msg_key contains
slots_filtered = refl

abbrev ex : ℕ → ℕ → ConvoExchange
ex d m = record { dead_drop = replicate 16 d; encrypted_message = replicate 256 m }

abbrev exchanges : List ConvoExchange
exchanges = ex 1 10 ∷ ex 2 20 ∷ ex 1 30 ∷ ex 1 40 ∷ []

exchange_all-paired_example :
    (replies : List Bytes) × (exchange_all exchanges ≡ ok (replies, (tally exchanges).count))
    × (length replies ≡ 4)
    × (get_elem? replies 0 ≡ some (replicate 256 30))
    × (get_elem? replies 2 ≡ some (replicate 256 10))
unfolding positions bytes_eq
exchange_all-paired_example =
    exchange_all-paired exchanges (replicate 16 1) 0 2 (3 ∷ []) (ex 1 10) (ex 1 30) refl refl refl
