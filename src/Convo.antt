-- ===== src/Convo.antt =====
-- convo.go: the handlers of ConvoService, as steps on a `Node`. A handler takes effect at once;
-- `blocked` is a handler that waits for the mutex. Numbers are below 2^63 and not negative.
pub mod Close
pub mod State
pub mod Fill
pub mod Serve
pub mod Replies
pub mod Last
pub mod Whole
pub mod Mix
pub mod Relay
pub mod Passing
pub mod Round
pub mod Delivery
pub mod Stuck
pub mod Pair
use vuvuzela.Prelude.{
  ℕ, zero, suc, ◌+◌, ◌*◌, ◌%◌, ◌≡◌, Bool, true, false, List, [], ◌∷◌, ◌++◌, map, Option, none, some,
  ltb, leb, ◌==◌, length, get_elem?, set, take, drop, replicate, if◌then◌else◌,
}
use vuvuzela.Run.{
  Run, ok, err, panic, blocked, or_else, round_not_found, round_exists, wrong_status,
  overflowing_onions, new_round_call, run_round_call,
}
use vuvuzela.Bytes.{Bytes, Random, read_random}
use vuvuzela.Nacl.{Nacl}
use vuvuzela.Wire.{forward_nonce, backward_nonce, size_convo_exchange, size_encrypted_message}
use vuvuzela.Pki.{next_server_keys, incoming_onion_overhead, outgoing_onion_overhead}
use vuvuzela.Noise.{Entropy, fill_with_fake_singles, fill_with_fake_doubles}
use vuvuzela.Rounds
use vuvuzela.Shuffle.{new_shuffler, shuffle, unshuffle}
use vuvuzela.Filter.{filter_incoming}
use vuvuzela.Exchange.{AccessCount, exchange_of_message, exchange_all}
use vuvuzela.Node.{
  Node, Config, ConvoRound, ConvoStatus, convo_round_new, convo_round_open, convo_round_closed,
  convo_status_eq, unlock,
}
use vuvuzela.Rpc.{Call, pure, lift, ◌>>=◌, ◌>>◌, here, there, wrapping}
use vuvuzela.ConvoClient.{ConvoNext, new_convo_round, run_convo_round}

-- `Idle.Lock()`.
unfoldable pub lock : Call Node (Unit {0})
lock node = if node.idle then (node, blocked) else (record node { idle = true }, ok tt)

unfoldable pub get_round : ℕ → ConvoStatus → Call Node ConvoRound
unfolding convo_status_eq Rounds.lookup
get_round round expected node = elim (Rounds.lookup round node.convo_rounds) [
  | none ↦ (node, err (round_not_found round))
  | some r ↦
      if convo_status_eq r.status expected then (node, ok r) else (node, err (wrong_status round))
]

-- A change of the record that the map points to.
unfoldable pub put_round : ℕ → ConvoRound → Call Node (Unit {0})
unfolding Rounds.insert
put_round round r node =
    (record node { convo_rounds = Rounds.insert round r node.convo_rounds }, ok tt)

abbrev pub new_convo : ConvoRound
new_convo = record {
  status = convo_round_new;
  num_incoming = 0;
  shared_keys = [];
  incoming = [];
  incoming_index = [];
  replies = [];
  noise = [];
}

-- What cappedFlooredLaplace returned for the two counts, and the randomness of the noise.
pub record NoiseDraws : Type 0 where
  pub fake_singles : ℕ
  pub fake_doubles : ℕ
  pub single_entropy : Entropy
  pub double_entropy : Entropy

-- `xs[i] = x`, out of range a panic.
unfoldable pub store : {A : Type 0} → List A → ℕ → A → Run (List A)
store xs i x = if ltb i (length xs) then ok (set xs i x) else panic

abbrev pub Slots : Type 0
Slots = List (Option Bytes)

-- The bounds check of Add.
unfoldable pub check_fit : ℕ → ℕ → ℕ → Run (Unit {0})
check_fit incoming offset onions =
    if ltb incoming (offset + onions)
    then err (overflowing_onions offset onions incoming)
    else ok tt

module _ (box : Nacl) (cfg : Config) where
  open cfg use {pki, server_name, private_key, last_server}

  unfoldable pub make_noise : ℕ → NoiseDraws → Run (List Bytes)
  make_noise round d = elim (next_server_keys pki server_name) [
    | ok keys ↦ ok (
        fill_with_fake_singles box (forward_nonce round) keys d.fake_singles d.single_entropy
        ++ fill_with_fake_doubles box (forward_nonce round) keys
            (d.fake_doubles + d.fake_doubles % 2) d.double_entropy)
    | err e ↦ err e
    | panic ↦ panic
    | blocked ↦ blocked
  ]

  -- The part after `exists` is known to be false.
  unfoldable pub add_round : ℕ → NoiseDraws → Call Node (Unit {0})
  add_round round d = do
    noise ← lift (if last_server then ok [] else make_noise round d)
    put_round round (record new_convo { noise = noise })

  unfoldable pub new_round : ℕ → NoiseDraws → Call Node (Unit {0})
  new_round round d = lock >> λ node. elim (Rounds.lookup round node.convo_rounds) [
    | some _ ↦ (node, err (round_exists round))
    | none ↦ add_round round d node
  ]

  unfoldable pub open_round : ℕ → ℕ → Call Node (Unit {0})
  open_round round n = do
    r ← get_round round convo_round_new
    put_round round (record r {
      num_incoming = n;
      shared_keys = replicate n none;
      incoming = replicate n none;
      status = convo_round_open;
    })

  abbrev pub expected_onion_size : ℕ
  expected_onion_size = incoming_onion_overhead pki server_name + size_convo_exchange

  -- One round of Add's loop. `new([32]byte)` is an all-zero key.
  unfoldable pub add_onion : Bytes → ℕ → Bytes → Slots × Slots → Run (Slots × Slots)
  unfolding store
  add_onion nonce i onion (keys, incoming) =
      if ltb i (length keys)
      then (if length onion == expected_onion_size
          then (let key = box.precompute (take 32 onion) private_key in
              elim (box.unseal (drop 32 onion) nonce key) [
                | none ↦ ok (set keys i (some key), incoming)
                | some message ↦ elim (store incoming i (some message)) [
                  | ok slots ↦ ok (set keys i (some key), slots)
                  | _ ↦ panic
                ]
              ])
          else ok (set keys i (some (replicate 32 0)), incoming))
      else panic

  unfoldable pub add_onions : Bytes → ℕ → List Bytes → Slots × Slots → Run (Slots × Slots)
  unfolding add_onion
  add_onions nonce i [] slots = ok slots
  add_onions nonce i (onion ∷ onions) slots = elim (add_onion nonce i onion slots) [
    | ok slots' ↦ add_onions nonce (suc i) onions slots'
    | err e ↦ err e
    | panic ↦ panic
    | blocked ↦ blocked
  ]

  unfoldable pub add : ℕ → ℕ → List Bytes → Call Node (Unit {0})
  add round offset onions = do
    r ← get_round round convo_round_open
    lift (check_fit r.num_incoming offset (length onions))
    (keys, incoming) ←
        lift (add_onions (forward_nonce round) offset onions (r.shared_keys, r.incoming))
    put_round round (record r { shared_keys = keys; incoming = incoming })
