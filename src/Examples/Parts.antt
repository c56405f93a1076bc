-- ===== src/Examples/Parts.antt =====
-- The theorems about the parts of the program, at concrete inputs.
use mathlib.Core.List.{Perm}
use vuvuzela.Prelude.{
  ℕ, ◌/◌, ◌^◌, ◌-◌, ◌<◌, ◌≡◌, refl, inl, inr, List, [], ◌∷◌, arith, length, replicate,
}
use vuvuzela.Run.{ok}
use vuvuzela.Bytes.{Bytes, be32}
use vuvuzela.Wire.{ConvoExchange, Introduction, DialExchange}
use vuvuzela.Spans.{spans}
use vuvuzela.Spans.Cover.{slices, slices-spans}
use vuvuzela.Shuffle.{Shuffler, shuffle, unshuffle, accept, draw, intn, max_u32, new_shuffler}
use vuvuzela.Shuffle.Swap.{swap}
use vuvuzela.Shuffle.Undo.{IsShuffler, unshuffle-shuffle}
use vuvuzela.Shuffle.Draw.{
  HasAccepted, intn-total, count_words, intn-uniform, new_shuffler-IsShuffler,
}

abbrev two : List ℕ
two = 5 ∷ 6 ∷ []

abbrev turn : Shuffler
turn = 0 ∷ 0 ∷ []

turned : shuffle turn two ≡ ok (6 ∷ 5 ∷ [])
unfolding shuffle swap
turned = refl

unshuffle-shuffle_example : Perm (6 ∷ 5 ∷ []) two × (unshuffle turn (6 ∷ 5 ∷ []) ≡ ok two)
unshuffle-shuffle_example = unshuffle-shuffle turn two turned

new_shuffler_runs :
    new_shuffler (0 ∷ 0 ∷ 0 ∷ 7 ∷ 0 ∷ 0 ∷ 0 ∷ 9 ∷ 1 ∷ []) 2 ≡ ok (0 ∷ 1 ∷ [], 1 ∷ [])
unfolding new_shuffler intn draw accept be32
new_shuffler_runs = refl

new_shuffler-IsShuffler_example : IsShuffler 0 (0 ∷ 1 ∷ []) × (length {A = ℕ} (0 ∷ 1 ∷ []) ≡ 2)
new_shuffler-IsShuffler_example =
    new_shuffler-IsShuffler (0 ∷ 0 ∷ 0 ∷ 7 ∷ 0 ∷ 0 ∷ 0 ∷ 9 ∷ 1 ∷ []) 2 (omega arith)
      new_shuffler_runs

-- The first word, 2^32 - 1, is refused.
supply : Bytes
supply = 255 ∷ 255 ∷ 255 ∷ 255 ∷ 0 ∷ 0 ∷ 0 ∷ 8 ∷ []

supply-HasAccepted : HasAccepted 3 supply
unfolding be32 supply
supply-HasAccepted = inr (inl (omega arith))

intn-total_example : (v : ℕ) × (rest : Bytes) × (intn 3 supply ≡ ok (v, rest)) × (v < 3)
intn-total_example = intn-total 3 supply (omega arith) (omega arith) supply-HasAccepted

intn-uniform_example : count_words 6 5 (2 ^ 32) ≡ max_u32 / 6
intn-uniform_example = intn-uniform 6 5 (omega arith)

slices-spans_example : slices {A = ℕ} (1 ∷ 2 ∷ 3 ∷ 4 ∷ 5 ∷ []) (spans 5 2) ≡ 1 ∷ 2 ∷ 3 ∷ 4 ∷ 5 ∷ []
slices-spans_example = slices-spans 2 (1 ∷ 2 ∷ 3 ∷ 4 ∷ 5 ∷ []) (omega arith)

abbrev exchange : ConvoExchange
exchange = record { dead_drop = replicate 16 7; encrypted_message = replicate 256 9 }

abbrev introduction : Introduction
introduction = record { rendezvous = 70000; long_term_key = replicate 32 3 }

abbrev dial_exchange : DialExchange
dial_exchange = record { bucket = 2 ^ 32 - 1; encrypted_intro = replicate 84 1 }
