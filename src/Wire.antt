-- ===== src/Wire.antt =====
-- vuvuzela.go, params.go and boxkey.go: the fixed-size records that cross the wire, the nonces of
-- the two directions, and the keys.
pub mod RoundTrip
use vuvuzela.Prelude.{
  ℕ, zero, suc, ◌+◌, ◌-◌, ◌*◌, ◌%◌, ◌≡◌, Bool, List, [], ◌∷◌, ◌++◌, Option, none, some, ltb, length,
  take, drop, replicate, if◌then◌else◌,
}
use vuvuzela.Run.{Run, ok, panic}
use vuvuzela.Bytes.{Bytes, put_be32, be32}
use vuvuzela.Nacl.{box_overhead}

abbrev pub size_message : ℕ
size_message = 240

abbrev pub total_dial_buckets : ℕ
total_dial_buckets = 1

-- `onionbox.Overhead`.
abbrev pub onion_overhead : ℕ
onion_overhead = 32 + box_overhead

abbrev pub size_encrypted_message : ℕ
size_encrypted_message = size_message + box_overhead

-- `unsafe.Sizeof` of structs of a uint32 and byte arrays: the sums of their fields.
abbrev pub size_convo_exchange : ℕ
size_convo_exchange = 16 + size_encrypted_message

abbrev pub size_introduction : ℕ
size_introduction = 4 + 32

abbrev pub size_encrypted_intro : ℕ
size_encrypted_intro = size_introduction + onion_overhead

abbrev pub size_dial_exchange : ℕ
size_dial_exchange = 4 + size_encrypted_intro

-- The array fields are lists; `IsExchange` and the like say how long.
pub record ConvoExchange : Type 0 where
  pub dead_drop : Bytes
  pub encrypted_message : Bytes

pub record Introduction : Type 0 where
  pub rendezvous : ℕ
  pub long_term_key : Bytes

pub record DialExchange : Type 0 where
  pub bucket : ℕ
  pub encrypted_intro : Bytes

-- `binary.Write` of a struct writes its fields in order, and `binary.Read` takes what it needs and
-- fails on fewer bytes.
unfoldable pub marshal_exchange : ConvoExchange → Bytes
marshal_exchange e = e.dead_drop ++ e.encrypted_message

unfoldable pub unmarshal_exchange : Bytes → Option ConvoExchange
unmarshal_exchange bytes =
    if ltb (length bytes) size_convo_exchange
    then none
    else some (record {
      dead_drop = take 16 bytes;
      encrypted_message = take size_encrypted_message (drop 16 bytes);
    })

-- The first four bytes, as a word.
unfoldable pub read_u32 : Bytes → ℕ
unfolding be32
read_u32 (a ∷ b ∷ c ∷ d ∷ _) = be32 a b c d
read_u32 _ = 0

unfoldable pub marshal_introduction : Introduction → Bytes
unfolding put_be32
marshal_introduction i = put_be32 i.rendezvous ++ i.long_term_key

unfoldable pub unmarshal_introduction : Bytes → Option Introduction
unfolding read_u32
unmarshal_introduction bytes =
    if ltb (length bytes) size_introduction
    then none
    else some (record { rendezvous = read_u32 bytes; long_term_key = take 32 (drop 4 bytes) })

unfoldable pub marshal_dial : DialExchange → Bytes
unfolding put_be32
marshal_dial e = put_be32 e.bucket ++ e.encrypted_intro

unfoldable pub unmarshal_dial : Bytes → Option DialExchange
unfolding read_u32
unmarshal_dial bytes =
    if ltb (length bytes) size_dial_exchange
    then none
    else some (record {
      bucket = read_u32 bytes;
      encrypted_intro = take size_encrypted_intro (drop 4 bytes);
    })

unfoldable pub forward_nonce : ℕ → Bytes
unfolding put_be32
forward_nonce round = put_be32 round ++ 0 ∷ replicate 19 0

unfoldable pub backward_nonce : ℕ → Bytes
unfolding put_be32
backward_nonce round = put_be32 round ++ 1 ∷ replicate 19 0

-- `binary.BigEndian.Uint32(key[28:32]) % buckets`, which panics for no buckets.
unfoldable pub key_dial_bucket : Bytes → ℕ → Run ℕ
unfolding read_u32
key_dial_bucket key zero = panic
key_dial_bucket key (suc n) = ok (read_u32 (drop 28 key) % suc n)

-- What KeyFromString and UnmarshalJSON do with the bytes that base32 gives: fewer than 32 are
-- refused, and what is past the 32nd is dropped.
unfoldable pub key_from_bytes : Option Bytes → Option Bytes
key_from_bytes none = none
key_from_bytes (some b) = if ltb (length b) 32 then none else some (take 32 b)
