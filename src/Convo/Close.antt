-- ===== src/Convo/Close.antt =====
-- convo.go: Close, Get and Delete. A step of Close is one on the server and on the next server.
use vuvuzela.Prelude.{
  ℕ, zero, suc, ◌+◌, List, [], ◌∷◌, ◌++◌, map, none, some, ltb, leb, ◌==◌, length, get_elem?, take,
  if◌then◌else◌,
}
use vuvuzela.Run.{Run, ok, err, panic, blocked, new_round_call, run_round_call}
use vuvuzela.Bytes.{Bytes, Random, read_random}
use vuvuzela.Nacl.{Nacl}
use vuvuzela.Wire.{backward_nonce, size_encrypted_message}
use vuvuzela.Pki.{outgoing_onion_overhead}
use vuvuzela.Rounds
use vuvuzela.Shuffle.{new_shuffler, shuffle, unshuffle}
use vuvuzela.Filter.{filter_incoming}
use vuvuzela.Exchange.{AccessCount, exchange_of_message, exchange_all}
use vuvuzela.Node.{Node, Config, ConvoRound, convo_round_open, convo_round_closed, unlock}
use vuvuzela.Rpc.{Call, lift, ◌>>=◌, ◌>>◌, here, there, wrapping}
use vuvuzela.ConvoClient.{ConvoNext, new_convo_round, run_convo_round}
use vuvuzela.Convo.{get_round, put_round}

-- `srv.AccessCounts <- ac`, unless the channel of eight is full.
unfoldable pub send_count : AccessCount → Call Node (Unit {0})
send_count ac node = (
  if ltb (length node.access_counts) 8
      then record node { access_counts = node.access_counts ++ ac ∷ [] }
      else node,
  ok tt,
)

-- `replies[:n]` of a slice whose capacity is its length.
unfoldable pub cut : ℕ → List Bytes → Run (List Bytes)
cut n replies = if leb n (length replies) then ok (take n replies) else panic

-- The last server's branch of Close, for the filtered round.
unfoldable pub close_last : ℕ → ConvoRound → List Bytes → Call Node (Unit {0})
close_last round r valid = do
  (replies, count) ← lift (exchange_all (map exchange_of_message valid))
  put_round round (record r { replies = replies })
  unlock
  send_count count
  put_round round (record r { replies = replies; status = convo_round_closed })

module _ {S : Type 0} (next : ConvoNext S) where
  -- The other branch: the messages go on, mixed with the noise. `source` feeds the Shuffler.
  -- `capacity` is that of the slice `round.incoming`, which `outgoing` shares its array with if it
  -- fits: then Shuffle moves the entries of `round.incoming` too.
  unfoldable pub close_mix : ℕ → ℕ → ConvoRound → List Bytes → Bytes → Call (Node × S) (Unit {0})
  close_mix round capacity r valid source = do
    let outgoing = valid ++ r.noise
    (shuffler, _) ← lift (new_shuffler source (length outgoing))
    shuffled ← lift (shuffle shuffler outgoing)
    let incoming = if leb (length outgoing) capacity then take (length valid) shuffled else valid
    let sent = record r { noise = []; incoming = map some incoming }
    here (put_round round sent)
    wrapping new_round_call (there (new_convo_round next round))
    here unlock
    replies ← wrapping run_round_call (there (run_convo_round next round shuffled))
    unshuffled ← lift (unshuffle shuffler replies)
    kept ← lift (cut r.num_incoming unshuffled)
    here (put_round round (record sent { replies = kept; status = convo_round_closed }))

  unfoldable pub close_round : Config → ℕ → Bytes → Call (Node × S) (Unit {0})
  close_round cfg round source = do
    r ← here (get_round round convo_round_open)
    (valid, index) ← lift (filter_incoming r.incoming)
    let filtered = record r { incoming = map some valid; incoming_index = index }
    here (put_round round filtered)
    if cfg.last_server
        then here (close_last round filtered valid)
        else close_mix round (length r.incoming) filtered valid source

module _ (box : Nacl) (cfg : Config) where
  abbrev pub outgoing_onion_size : ℕ
  outgoing_onion_size = outgoing_onion_overhead cfg.pki cfg.server_name + size_encrypted_message

  -- One round of Get's loop, for slot `i`; `r` feeds the padding.
  unfoldable pub get_onion : ConvoRound → Bytes → ℕ → Random → Run Bytes
  get_onion round nonce i r = elim (get_elem? round.incoming_index i) [
    | none ↦ panic
    | some none ↦ ok (read_random outgoing_onion_size r)
    | some (some v) ↦ elim (get_elem? round.replies v) [
      | none ↦ panic
      | some reply ↦ elim (get_elem? round.shared_keys i) [
        | some (some key) ↦
            let onion = box.seal reply nonce key in
            ok (
              if length onion == outgoing_onion_size
              then onion
              else read_random outgoing_onion_size r)
        | _ ↦ panic
      ]
    ]
  ]

  -- Get's loop over `k` slots from slot `i` on; `rs i` feeds the padding of slot `i`.
  unfoldable pub get_onions : ConvoRound → Bytes → ℕ → ℕ → (ℕ → Random) → Run (List Bytes)
  unfolding get_onion
  get_onions round nonce i zero rs = ok []
  get_onions round nonce i (suc k) rs = elim (get_onion round nonce i (rs i)) [
    | ok onion ↦ elim (get_onions round nonce (suc i) k rs) [
      | ok onions ↦ ok (onion ∷ onions)
      | err e ↦ err e
      | panic ↦ panic
      | blocked ↦ blocked
    ]
    | err e ↦ err e
    | panic ↦ panic
    | blocked ↦ blocked
  ]

  unfoldable pub get : ℕ → ℕ → ℕ → (ℕ → Random) → Call Node (List Bytes)
  get round offset count rs = do
    r ← get_round round convo_round_closed
    lift (get_onions r (backward_nonce round) offset count rs)

unfoldable pub delete : ℕ → Call Node (Unit {0})
unfolding Rounds.delete
delete round node = (record node { convo_rounds = Rounds.delete round node.convo_rounds }, ok tt)
