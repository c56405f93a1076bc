-- ===== src/Dial.antt =====
-- dial.go: the handlers of DialService, as steps on a `Node`.
pub mod Buckets
pub mod Filtered
pub mod Close
pub mod Mix
pub mod Whole
pub mod Pair
pub mod Resume
use vuvuzela.Prelude.{
  ℕ, zero, suc, ◌+◌, ◌-◌, ◌≡◌, Bool, true, false, List, [], ◌∷◌, ◌++◌, Option, none, some, ltb,
  ◌==◌, length, get_elem?, set, take, drop, replicate, if◌then◌else◌,
}
use vuvuzela.Run.{
  Run, ok, err, panic, blocked, or_else, round_not_found, round_exists, wrong_status,
  not_last_server, new_round_call, run_round_call,
}
use vuvuzela.Bytes.{Bytes}
use vuvuzela.Nacl.{Nacl}
use vuvuzela.Wire.{
  forward_nonce, DialExchange, unmarshal_dial, size_dial_exchange, total_dial_buckets,
}
use vuvuzela.Pki.{next_server_keys, incoming_onion_overhead}
use vuvuzela.Noise.{Entropy, fill_with_fake_introductions}
use vuvuzela.Rounds
use vuvuzela.Shuffle.{new_shuffler, shuffle}
use vuvuzela.Filter.{filter_dial_incoming}
use vuvuzela.Node.{
  Node, Config, DialRound, DialStatus, dial_round_open, dial_round_closed, dial_status_eq, unlock,
}
use vuvuzela.Rpc.{Call, pure, lift, ◌>>=◌, ◌>>◌, here, there, wrapping}
use vuvuzela.DialClient.{DialNext, new_dial_round, run_dial_round}
use vuvuzela.Convo.{lock}

unfoldable pub get_round : ℕ → DialStatus → Call Node DialRound
unfolding dial_status_eq Rounds.lookup
get_round round expected node = elim (Rounds.lookup round node.dial_rounds) [
  | none ↦ (node, err (round_not_found round))
  | some r ↦
      if dial_status_eq r.status expected then (node, ok r) else (node, err (wrong_status round))
]

unfoldable pub put_round : ℕ → DialRound → Call Node (Unit {0})
unfolding Rounds.insert
put_round round r node =
    (record node { dial_rounds = Rounds.insert round r node.dial_rounds }, ok tt)

-- What cappedFlooredLaplace returned for each bucket, and the randomness of the noise.
pub record DialDraws : Type 0 where
  pub bucket_noise : ℕ → ℕ
  pub entropy : Entropy

abbrev pub sum : List ℕ → ℕ
sum [] = 0
sum (x ∷ xs) = x + sum xs

-- `noiseCounts` of `n` buckets, from bucket `b` on.
unfoldable pub noise_counts : (ℕ → ℕ) → ℕ → ℕ → List ℕ
noise_counts f b zero = []
noise_counts f b (suc n) = f b ∷ noise_counts f (suc b) n

module _ (box : Nacl) (cfg : Config) where
  open cfg use {pki, server_name, private_key, last_server}

  unfoldable pub make_noise : ℕ → DialDraws → Run (List Bytes)
  unfolding noise_counts
  make_noise round d = elim (next_server_keys pki server_name) [
    | ok keys ↦
        let counts = noise_counts d.bucket_noise 0 total_dial_buckets in
        fill_with_fake_introductions box (forward_nonce round) keys (sum counts) counts d.entropy
    | err e ↦ err e
    | panic ↦ panic
    | blocked ↦ blocked
  ]

  unfoldable pub add_round : ℕ → DialDraws → Call Node (Unit {0})
  add_round round d = do
    noise ← lift (make_noise round d)
    put_round round (record { status = dial_round_open; incoming = []; noise = noise })

  unfoldable pub new_round : ℕ → DialDraws → Call Node (Unit {0})
  new_round round d = lock >> λ node. elim (Rounds.lookup round node.dial_rounds) [
    | some _ ↦ (node, err (round_exists round))
    | none ↦ add_round round d node
  ]

  abbrev pub expected_onion_size : ℕ
  expected_onion_size = incoming_onion_overhead pki server_name + size_dial_exchange

  -- What Add makes of one onion.
  unfoldable pub open_onion : Bytes → Bytes → Option Bytes
  open_onion nonce onion =
      if length onion == expected_onion_size
      then box.unseal (drop 32 onion) nonce (box.precompute (take 32 onion) private_key)
      else none

  -- Add's loop: the messages of the onions that open.
  unfoldable pub open_onions : Bytes → List Bytes → List Bytes
  unfolding open_onion
  open_onions nonce [] = []
  open_onions nonce (onion ∷ onions) = elim (open_onion nonce onion) [
    | none ↦ open_onions nonce onions
    | some message ↦ message ∷ open_onions nonce onions
  ]

  unfoldable pub add : ℕ → List Bytes → Call Node (Unit {0})
  add round onions = do
    r ← get_round round dial_round_open
    put_round round (record r { incoming = r.incoming ++ open_onions (forward_nonce round) onions })

-- The end of Close on the last server, and on another one.
module _ {S : Type 0} (next : DialNext S) where
  unfoldable pub close_last : ℕ → DialRound → Call Node (Unit {0})
  close_last round r = do
    unlock
    put_round round (record r { noise = []; status = dial_round_closed })

  unfoldable pub close_mix : ℕ → DialRound → Call (Node × S) (Unit {0})
  close_mix round r = do
    wrapping new_round_call (there (new_dial_round next round))
    here unlock
    wrapping run_round_call (there (run_dial_round next round r.incoming))
    here (put_round round (record { status = dial_round_closed; incoming = []; noise = [] }))

  -- `source` feeds the Shuffler.
  unfoldable pub close_round : Config → ℕ → Bytes → Call (Node × S) (Unit {0})
  close_round cfg round source = do
    r ← here (get_round round dial_round_open)
    valid ← lift (filter_dial_incoming r.incoming)
    here (put_round round (record r { incoming = valid }))
    let all = valid ++ r.noise
    here (put_round round (record r { incoming = all }))
    (shuffler, _) ← lift (new_shuffler source (length all))
    shuffled ← lift (shuffle shuffler all)
    let mixed = record r { incoming = shuffled }
    here (put_round round mixed)
    if cfg.last_server then here (close_last round mixed) else close_mix round mixed

-- One round of Buckets' loop. `append(buckets[ex.Bucket], ex.EncryptedIntro)`.
unfoldable pub add_intro : Bytes → List (List Bytes) → List (List Bytes)
unfolding unmarshal_dial
add_intro m buckets =
    if length m == size_dial_exchange
    then (elim (unmarshal_dial m) [
      | none ↦ buckets
      | some ex ↦ elim (get_elem? buckets ex.bucket) [
        | none ↦ buckets
        | some bucket ↦ set buckets ex.bucket (bucket ++ ex.encrypted_intro ∷ [])
      ]
    ])
    else buckets

unfoldable pub add_intros : List Bytes → List (List Bytes) → List (List Bytes)
unfolding add_intro
add_intros [] buckets = buckets
add_intros (m ∷ ms) buckets = add_intros ms (add_intro m buckets)

unfoldable pub buckets : Config → ℕ → Call Node (List (List Bytes))
buckets cfg round =
    if cfg.last_server
    then (do
      r ← get_round round dial_round_closed
      pure (add_intros r.incoming (replicate total_dial_buckets [])))
    else lift (err not_last_server)
