-- ===== src/Examples/Paired.antt =====
-- A round of two servers, at a concrete input.
use vuvuzela.Prelude.{
  ◌≢◌, ◌+◌, ℕ, zero, suc, ◌≡◌, refl, sym, ap, List, [], ◌∷◌, true, false, some, none, Option, map,
  replicate, arith, get_elem?,
}
use Prim.Native.String.{String}
use text.Mathlib.TextEquality.{eq_iff}
use vuvuzela.Run.{ok}
use vuvuzela.Bytes.{Bytes, bytes_eq}
use vuvuzela.Wire.{forward_nonce, marshal_exchange}
use vuvuzela.Node.{Node, Config}
use vuvuzela.Rounds
use vuvuzela.Onion.{seal_layer, seal_onion}
use vuvuzela.Pki.{index, incoming_onion_overhead}
use vuvuzela.Filter.{msg_key, contains, filter_incoming}
use vuvuzela.Exchange.{exchange_of_message}
use vuvuzela.Exchange.Drops.{positions}
use vuvuzela.Convo.{new_convo}
use vuvuzela.Convo.Fill.{message_slot}
use vuvuzela.Convo.Pair.{BothEnd, ReadsThrough, sealed_for, run_convo_round-delivers_through}
use vuvuzela.Examples.Toy.{toy, toy_laws}
use vuvuzela.Examples.Rounds.{busy, draws, message_of, seed, nobody}
use vuvuzela.Examples.Mixing.{
  first_server, behind, inner_of, two_outer, kept_inner, drawn_two, mixed_two, zero_draws,
}

abbrev second_server : Config
second_server = record first_server {
  server_name = "last";
  private_key = 5 ∷ [];
  last_server = true;
}

ne-first_last : ◌≢◌ {A = String} "first" "last"
ne-first_last e = ground (arith, eq_iff "first" "last")

abbrev idle_node : Node
idle_node = record busy { idle = false }

-- The first byte of an onion tells these onions apart.
abbrev first_byte : Option Bytes → ℕ
first_byte none = 0
first_byte (some []) = 0
first_byte (some (b ∷ bs)) = b

abbrev turned : List Bytes
turned = inner_of 30 ∷ inner_of 10 ∷ []

by_first_bytes : ◌≡◌ {A = ℕ} 11 31 → {A : Type 0} → A
by_first_bytes e = absurd (omega (arith, e))

once_30 : (p : ℕ) → get_elem? turned p ≡ some (inner_of 30) → p ≡ 0
unfolding seal_onion seal_layer
once_30 zero e = refl
once_30 (suc zero) e = by_first_bytes (ap first_byte e)
once_30 (suc (suc p)) e = cc

once_10 : (p : ℕ) → get_elem? turned p ≡ some (inner_of 10) → p ≡ 1
unfolding seal_onion seal_layer
once_10 zero e = by_first_bytes (sym (ap first_byte e))
once_10 (suc zero) e = refl
once_10 (suc (suc p)) e = cc

kept_turned :
    filter_incoming (map (message_slot toy second_server (forward_nonce 7)) turned)
    ≡ ok (
      marshal_exchange (message_of 30) ∷ marshal_exchange (message_of 10) ∷ [],
      some 0 ∷ some 1 ∷ [],
    )
unfolding filter_incoming message_slot msg_key contains seal_layer seal_onion marshal_exchange
    forward_nonce index incoming_onion_overhead
kept_turned = refl

both_meet :
    positions (message_of 30).dead_drop 0 (
      map exchange_of_message
        (marshal_exchange (message_of 30) ∷ marshal_exchange (message_of 10) ∷ []))
    ≡ 0 ∷ 1 ∷ []
unfolding positions exchange_of_message marshal_exchange bytes_eq
both_meet = refl

unknown_round : Rounds.lookup 7 idle_node.convo_rounds ≡ none
unfolding Rounds.lookup
unknown_round = refl

run_convo_round-delivers_through_example :
    (whole : List Bytes) × BothEnd toy toy_laws first_server second_server [] refl refl tt
      (ne-first_last, tt)
      behind
      refl
      refl
      nobody
      zero_draws
      draws
      7
      two_outer
      new_convo
      busy
      idle_node
      tt
      refl
      refl
      refl
      unknown_round
      kept_inner
      drawn_two
      (omega arith)
      (omega arith)
      (mixed_two _ _)
      whole
    × ReadsThrough toy toy_laws first_server second_server [] refl refl tt
        (ne-first_last, tt)
        behind
        refl
        refl
        nobody
        zero_draws
        draws
        7
        two_outer
        new_convo
        busy
        idle_node
        tt
        refl
        refl
        refl
        unknown_round
        kept_inner
        drawn_two
        (omega arith)
        (omega arith)
        (mixed_two _ _)
        whole
        1
        (sealed_for toy toy_laws first_server second_server [] refl refl tt
          (ne-first_last, tt)
          behind
          refl
          refl
          7
          (message_of 30)
          (λ i. seed (30 + i))).1
        (replicate 256 10)
    × ReadsThrough toy toy_laws first_server second_server [] refl refl tt
        (ne-first_last, tt)
        behind
        refl
        refl
        nobody
        zero_draws
        draws
        7
        two_outer
        new_convo
        busy
        idle_node
        tt
        refl
        refl
        refl
        unknown_round
        kept_inner
        drawn_two
        (omega arith)
        (omega arith)
        (mixed_two _ _)
        whole
        0
        (sealed_for toy toy_laws first_server second_server [] refl refl tt
          (ne-first_last, tt)
          behind
          refl
          refl
          7
          (message_of 10)
          (λ i. seed (10 + i))).1
        (replicate 256 30)
unfolding seal_layer seal_onion
run_convo_round-delivers_through_example =
    run_convo_round-delivers_through toy toy_laws first_server second_server [] refl refl tt
      (ne-first_last, tt) behind refl refl nobody zero_draws draws 7 two_outer new_convo busy
      idle_node tt refl refl refl unknown_round kept_inner drawn_two (omega arith) (omega arith)
      (mixed_two _ _) 1 0 1 0 (message_of 30) (message_of 10) (λ i. seed (30 + i))
      (λ i. seed (10 + i)) (refl, refl) (refl, refl) refl refl refl refl 0 1 0 1 [] refl refl
      once_30 once_10 kept_turned refl refl both_meet
