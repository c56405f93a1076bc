-- ===== src/Examples/Mixing.antt =====
-- Rounds of a server in the middle of the chain, at concrete inputs.
use vuvuzela.Prelude.{◌+◌, ℕ, ◌≡◌, refl, List, [], ◌∷◌, false, replicate, some, none, map, arith}
use vuvuzela.Run.{panic, ok, err, remote, blocked, new_round_call, new_round_call, close_call}
use vuvuzela.Bytes.{be32, Bytes}
use vuvuzela.Wire.{forward_nonce, marshal_exchange}
use vuvuzela.Node.{Node, Config, ConvoRound, convo_round_open}
use vuvuzela.Onion.{seal_layer, seal_onion}
use vuvuzela.Pki.{index, incoming_onion_overhead, next_server_keys}
use vuvuzela.Spans.{spans}
use vuvuzela.Rounds
use vuvuzela.Filter.{msg_key, contains, filter_incoming}
use vuvuzela.Shuffle.{new_shuffler, shuffle}
use vuvuzela.ConvoClient.{ConvoNext, new_convo_round, run_convo_round}
use vuvuzela.Convo.{new_convo, new_round}
use vuvuzela.Convo.Fill.{message_slot}
use vuvuzela.Convo.Close.{close_round}
use vuvuzela.Convo.Serve.{Draws, serve}
use vuvuzela.Convo.State.{with_round}
use vuvuzela.Convo.Stuck.{close_round-sticks}
use vuvuzela.Convo.Whole.{full}
use vuvuzela.Convo.Relay.{run_convo_round-too_few}
use vuvuzela.Convo.Passing.{EndsWell, PassesOn, run_convo_round-relays}
use vuvuzela.Dial.{DialDraws, new_round as new_dial_round}
use vuvuzela.Rpc.{pure, Call}
use vuvuzela.Chain.{outer, inner}
use vuvuzela.Examples.Toy.{toy, toy_laws, toy_public}
use vuvuzela.Examples.Rounds.{busy, no_noise, message_of, seed}

abbrev pub first_server : Config
first_server = record {
  pki = record {
    people = [];
    servers =
        ("first", record { address = "localhost:2719"; public_key = toy_public (4 ∷ []) })
        ∷ ("last", record { address = "localhost:2718"; public_key = toy_public (5 ∷ []) })
        ∷ [];
    server_order = "first" ∷ "last" ∷ [];
    entry_server = "localhost:8080";
  };
  server_name = "first";
  private_key = 4 ∷ [];
  last_server = false;
}

-- A next server that answers every onion with the same bytes.
abbrev pub parrot : ConvoNext (Unit {0})
parrot = record {
  new_round = λ _. pure tt;
  open_round = λ _ _. pure tt;
  add = λ _ _ _. pure tt;
  close_round = λ _. pure tt;
  get = λ _ _ count. pure (replicate count (replicate 272 9));
  delete = λ _. pure tt;
}

abbrev pub zero_draws : Draws
zero_draws = record { noise = λ _. no_noise; shuffler = λ _. replicate 8 0; padding = λ _ _ _. 0 }

pub behind : next_server_keys first_server.pki "first" ≡ ok (toy_public (5 ∷ []) ∷ [])
unfolding next_server_keys index
behind = refl

abbrev pub onion_of : ℕ → Bytes
onion_of m =
    outer toy toy_laws first_server [] ("last" ∷ []) refl tt (toy_public (5 ∷ []) ∷ []) behind
      (marshal_exchange (message_of m)) (forward_nonce 7) (λ i. seed (m + i))

abbrev pub inner_of : ℕ → Bytes
inner_of m =
    inner toy toy_laws first_server [] ("last" ∷ []) refl tt (toy_public (5 ∷ []) ∷ []) behind
      (marshal_exchange (message_of m)) (forward_nonce 7) (λ i. seed (m + i))

abbrev pub two_outer : List Bytes
two_outer = onion_of 10 ∷ onion_of 30 ∷ []

pub kept_inner :
    filter_incoming (map (message_slot toy first_server (forward_nonce 7)) two_outer)
    ≡ ok (inner_of 10 ∷ inner_of 30 ∷ [], some 0 ∷ some 1 ∷ [])
unfolding filter_incoming message_slot msg_key contains seal_layer seal_onion marshal_exchange
    forward_nonce index incoming_onion_overhead
kept_inner = refl

pub drawn_two : new_shuffler (replicate 8 0) 2 ≡ ok (0 ∷ 0 ∷ [], [])
unfolding new_shuffler vuvuzela.Shuffle.intn vuvuzela.Shuffle.draw vuvuzela.Shuffle.accept be32
drawn_two = refl

-- The parrot's replies to two onions.
abbrev squawks : ℕ → List Bytes
squawks n = replicate n (replicate 272 9)

pub mixed_two : (x y : Bytes) → shuffle (0 ∷ 0 ∷ []) (x ∷ y ∷ []) ≡ ok (y ∷ x ∷ [])
unfolding shuffle vuvuzela.Shuffle.Swap.swap
mixed_two x y = refl

woken : new_convo_round parrot 7 tt ≡ (tt, ok tt)
unfolding new_convo_round
woken = refl

parroted : (x y : Bytes) → run_convo_round parrot 7 (x ∷ y ∷ []) tt ≡ (tt, ok (squawks 2))
unfolding run_convo_round spans vuvuzela.Spans.spans_from vuvuzela.Rpc.call_many
    vuvuzela.ConvoClient.collect vuvuzela.ConvoClient.splice
parroted x y = refl

run_convo_round-relays_example :
    (whole : List Bytes) × EndsWell toy toy_laws first_server []
      ("last" ∷ [])
      refl
      tt
      (toy_public (5 ∷ []) ∷ [])
      behind
      7
      two_outer
      new_convo
      parrot
      zero_draws
      busy
      tt
      tt
      tt
      refl
      refl
      refl
      _
      _
      kept_inner
      _
      _
      drawn_two
      (omega arith)
      (omega arith)
      _
      (mixed_two _ _)
      woken
      (squawks 2)
      (parroted _ _)
      refl
      whole
    × PassesOn toy toy_laws first_server []
        ("last" ∷ [])
        refl
        tt
        (toy_public (5 ∷ []) ∷ [])
        behind
        7
        two_outer
        new_convo
        parrot
        zero_draws
        busy
        tt
        tt
        tt
        refl
        refl
        refl
        _
        _
        kept_inner
        _
        _
        drawn_two
        (omega arith)
        (omega arith)
        _
        (mixed_two _ _)
        woken
        (squawks 2)
        (parroted _ _)
        refl
        whole
        1
        (inner_of 30)
        (seal_layer toy (inner_of 30) (forward_nonce 7) (toy_public (4 ∷ [])) (seed 30)).1
unfolding marshal_exchange
run_convo_round-relays_example =
    run_convo_round-relays toy toy_laws first_server [] ("last" ∷ []) refl tt
      (toy_public (5 ∷ []) ∷ []) behind 7 two_outer new_convo parrot zero_draws busy tt tt tt refl
      refl refl _ _ kept_inner _ _ drawn_two (omega arith) (omega arith) _ (mixed_two _ _) woken
      (squawks 2) (parroted _ _) refl (marshal_exchange (message_of 30)) refl (λ i. seed (30 + i)) 1
      1 (refl, (refl, tt)) refl refl

-- The same onion twice, and no noise.
abbrev twice : List Bytes
twice = onion_of 10 ∷ onion_of 10 ∷ []

kept_once :
    filter_incoming (map (message_slot toy first_server (forward_nonce 7)) twice)
    ≡ ok (inner_of 10 ∷ [], some 0 ∷ none ∷ [])
unfolding filter_incoming message_slot msg_key contains seal_layer seal_onion marshal_exchange
    forward_nonce index incoming_onion_overhead
kept_once = refl

abbrev no_dial_noise : DialDraws
no_dial_noise = record { bucket_noise = λ _. 0; entropy = λ _ _ _. 0 }

abbrev short_draws : Draws
short_draws = record { noise = λ _. no_noise; shuffler = λ _. replicate 4 0; padding = λ _ _ _. 0 }

drawn_one : new_shuffler (replicate 4 0) 1 ≡ ok (0 ∷ [], [])
unfolding new_shuffler vuvuzela.Shuffle.intn vuvuzela.Shuffle.draw vuvuzela.Shuffle.accept be32
drawn_one = refl

mixed_one : (x : Bytes) → shuffle (0 ∷ []) (x ∷ []) ≡ ok (x ∷ [])
unfolding shuffle vuvuzela.Shuffle.Swap.swap
mixed_one x = refl

parroted_one : (x : Bytes) → run_convo_round parrot 7 (x ∷ []) tt ≡ (tt, ok (squawks 1))
unfolding run_convo_round spans vuvuzela.Spans.spans_from vuvuzela.Rpc.call_many
    vuvuzela.ConvoClient.collect vuvuzela.ConvoClient.splice
parroted_one x = refl

run_convo_round-too_few_example :
    (left : Node) × ((serve toy first_server short_draws parrot).close_round 7
        (with_round 7 (full toy toy_laws first_server 7 twice new_convo) busy, tt)
      ≡ ((left, tt), panic))
    × (run_convo_round
          (serve toy first_server short_draws parrot)
          7
          twice
          (with_round 7 new_convo busy, tt)
        ≡ ((left, tt), err (close_call remote)))
run_convo_round-too_few_example =
    run_convo_round-too_few toy toy_laws first_server 7 twice new_convo parrot short_draws busy tt
      tt tt refl refl refl kept_once drawn_one (omega arith) (omega arith) (mixed_one _) woken
      (parroted_one _) refl

-- A next server whose NewRound fails.
abbrev deaf : ConvoNext (Unit {0})
deaf = record parrot { new_round = λ _ s. (s, err remote) }

unheard : new_convo_round deaf 7 tt ≡ (tt, err remote)
unfolding new_convo_round
unheard = refl

-- An open round for no onions.
abbrev empty_open : ConvoRound
empty_open = record new_convo { status = convo_round_open }

abbrev held : Node
held = with_round 7 empty_open busy

kept_none : filter_incoming [] ≡ ok ([], [])
unfolding filter_incoming
kept_none = refl

drawn_none : new_shuffler [] 0 ≡ ok ([], [])
unfolding new_shuffler
drawn_none = refl

mixed_none : shuffle {A = Bytes} [] [] ≡ ok []
unfolding shuffle
mixed_none = refl

close_round-sticks_example :
    (stuck : Node) × (close_round deaf first_server 7 [] (held, tt)
      ≡ ((stuck, tt), err (new_round_call remote)))
    × (new_round toy first_server 8 no_noise stuck ≡ (stuck, blocked))
    × (new_dial_round toy first_server 3 no_dial_noise stuck ≡ (stuck, blocked))
unfolding Rounds.lookup Rounds.insert
close_round-sticks_example =
    close_round-sticks toy first_server deaf 7 [] empty_open held tt tt 8 no_noise 3 no_dial_noise
      refl refl refl refl kept_none drawn_none mixed_none unheard
