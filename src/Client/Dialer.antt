-- ===== src/Client/Dialer.antt =====
-- vuvuzela-client/dialer.go: the requests of a dialing round, and the reading of a bucket.
use Prim.Native.String.{String}
use mathlib.Core.List.{filter_map}
use vuvuzela.Prelude.{
  ℕ, ◌+◌, List, [], ◌∷◌, ◌++◌, Option, none, some, ltb, take, drop, length, if◌then◌else◌,
}
use vuvuzela.Run.{ok, blocked}
use vuvuzela.Bytes.{Bytes, Random, bytes_eq, copy_zeros, read_random, u32}
use vuvuzela.Nacl.{Nacl}
use vuvuzela.Wire.{
  Introduction, DialExchange, marshal_introduction, unmarshal_introduction, marshal_dial,
  key_dial_bucket, forward_nonce, size_encrypted_intro,
}
use vuvuzela.Onion.{seal_onion}
use vuvuzela.Pki.{Pki, server_keys}
use vuvuzela.Shuffle.{max_u32}
use vuvuzela.Rpc.{Call, pure, lift, ◌>>=◌}

pub record DialerKeys : Type 0 where
  pub pki : Pki
  pub my_public_key : Bytes
  pub my_private_key : Bytes

-- What the channel `userDialRequests` of four holds: the keys to dial.
abbrev pub Dialer : Type 0
Dialer = List Bytes

pub record DialRequest : Type 0 where
  pub round : ℕ
  pub onion : Bytes

-- A full channel makes the sender wait.
unfoldable pub queue_request : Bytes → Call Dialer (Unit {0})
queue_request key d = if ltb (length d) 4 then (d ++ key ∷ [], ok tt) else (d, blocked)

-- Who is shown as the sender of an introduction: a name of the PKI, or the key.
pub data Caller : Type 0 where
  friend : String → Caller
  stranger : Bytes → Caller

module _ (box : Nacl) (keys : DialerKeys) where
  open keys use {pki, my_public_key, my_private_key}

  -- The encrypted introduction for the key `pk`; `rs` feeds the onion.
  unfoldable pub intro_to : ℕ → Bytes → (ℕ → Random) → Bytes
  intro_to round pk rs =
      copy_zeros size_encrypted_intro
        (seal_onion box
          (marshal_introduction
            (record { rendezvous = u32 (round + 4); long_term_key = my_public_key }))
          (forward_nonce round) (pk ∷ []) rs).0

  -- The exchange for the next dialing request: for the first key of the queue, else a random one that
  -- no bucket takes.
  unfoldable pub next_exchange : ℕ → ℕ → (ℕ → Random) → Random → Call Dialer DialExchange
  next_exchange round buckets rs r [] =
      ([], ok (record { bucket = max_u32; encrypted_intro = read_random size_encrypted_intro r }))
  next_exchange round buckets rs r (pk ∷ rest) =
      (do
        bucket ← lift (key_dial_bucket pk buckets)
        pure (record { bucket = bucket; encrypted_intro = intro_to round pk rs }))
        rest

  -- `rs` and `r` feed the exchange, and `layers` the onion.
  unfoldable pub next_dial_request :
      ℕ → ℕ → (ℕ → Random) → Random → (ℕ → Random) → Call Dialer DialRequest
  next_dial_request round buckets rs r layers = do
    ex ← next_exchange round buckets rs r
    servers ← lift (server_keys pki)
    pure (record {
      round = round;
      onion = (seal_onion box (marshal_dial ex) (forward_nonce round) servers layers).0;
    })

  -- `box.Open` derives the shared key and uses it.
  unfoldable pub read_intro : ℕ → Bytes → Option Introduction
  read_intro round b =
      elim (box.unseal (drop 32 b) (forward_nonce round)
        (box.precompute (take 32 b) my_private_key)) [
          | none ↦ none
          | some msgdata ↦ unmarshal_introduction msgdata
        ]

  -- The loop over the people of the PKI: the first whose key it is.
  unfoldable pub caller_of : List (String × Bytes) → Bytes → Caller
  unfolding bytes_eq
  caller_of [] key = stranger key
  caller_of ((name, k) ∷ people) key = if bytes_eq k key then friend name else caller_of people key

  unfoldable pub caller_in : ℕ → Bytes → Option Caller
  caller_in round b = elim (read_intro round b) [
    | none ↦ none
    | some intro ↦ some (caller_of pki.people intro.long_term_key)
  ]

  -- Who is shown for the bucket of a round.
  unfoldable pub handle_dial_bucket : ℕ → List Bytes → List Caller
  unfolding filter_map caller_in
  handle_dial_bucket round intros = filter_map (caller_in round) intros
