-- ===== src/Examples/Layers.antt =====
-- Onions, keys, noise and the exchange, at concrete inputs.
use Prim.Native.String.{String}
use text.Mathlib.Text.{◌==◌ as str_eq}
use text.Mathlib.TextEquality.{eq_iff}
use vuvuzela.Prelude.{
  ℕ, ◌+◌, ◌*◌, ◌<◌, ◌≡◌, ◌≢◌, refl, Bool, not, List, [], ◌∷◌, some, arith, length, map,
}
use vuvuzela.Run.{ok}
use vuvuzela.Bytes.{Bytes, Random}
use vuvuzela.Nacl.{box_overhead}
use vuvuzela.Wire.{onion_overhead}
use vuvuzela.Onion.{seal_onion}
use vuvuzela.Onion.Layers.{length-seal_onion, peel_all, peel_all-seal_onion}
use vuvuzela.Pki.{
  Pki, ServerInfo, keys_of, read_pki, server_keys, first_server, last_server, next_server,
  next_server_keys, incoming_onion_overhead, outgoing_onion_overhead, index,
}
use vuvuzela.Pki.Sizes.{next_keys-and-overheads, index-unknown}
use vuvuzela.Pki.Reading.{AllReachable, read_pki-reachable, reachable-total}
use vuvuzela.Examples.Toy.{toy, toy_laws, toy_public}

abbrev keys : List Bytes
keys = (1 ∷ []) ∷ (2 ∷ []) ∷ (3 ∷ []) ∷ []

abbrev entropy : ℕ → Random
entropy i j = i + j

abbrev message : Bytes
message = 65 ∷ 66 ∷ []

abbrev nonce : Bytes
nonce = 0 ∷ 1 ∷ []

length-seal_onion_example :
    length (seal_onion toy message nonce (map toy_public keys) entropy).0 ≡ 2 + 3 * onion_overhead
length-seal_onion_example =
    length-seal_onion toy toy_laws message nonce (map toy_public keys) entropy

peel_all-seal_onion_example :
    let (onion, shared) = seal_onion toy message nonce (map toy_public keys) entropy in
    peel_all toy toy_laws onion nonce keys ≡ some (message, shared)
peel_all-seal_onion_example = peel_all-seal_onion toy toy_laws message nonce keys entropy

abbrev info : String → ℕ → ServerInfo
info a k = record { address = a; public_key = toy_public (k ∷ []) }

abbrev chain : Pki
chain = record {
  people = [];
  servers = ("a", info "a:1" 1) ∷ ("b", info "b:1" 2) ∷ ("c", info "c:1" 3) ∷ [];
  server_order = "a" ∷ "b" ∷ "c" ∷ [];
  entry_server = "e";
}

pub ne-ab : ◌≢◌ {A = String} "a" "b"
ne-ab e = ground (arith, eq_iff "a" "b")

pub ne-ac : ◌≢◌ {A = String} "a" "c"
ne-ac e = ground (arith, eq_iff "a" "c")

pub ne-bc : ◌≢◌ {A = String} "b" "c"
ne-bc e = ground (arith, eq_iff "b" "c")

next_keys-and-overheads_example :
    (next_server_keys chain "b" ≡ keys_of chain ("c" ∷ []))
    × (incoming_onion_overhead chain "b" ≡ 2 * onion_overhead)
    × (outgoing_onion_overhead chain "b" ≡ 2 * box_overhead)
next_keys-and-overheads_example =
    next_keys-and-overheads chain "b" ("a" ∷ []) ("c" ∷ []) refl (ne-ab, tt)

chain_keys : next_server_keys chain "a" ≡ ok (toy_public (2 ∷ []) ∷ toy_public (3 ∷ []) ∷ [])
unfolding next_server_keys
chain_keys = refl

pub ne-ax : ◌≢◌ {A = String} "a" "x"
ne-ax e = ground (arith, eq_iff "a" "x")

pub ne-bx : ◌≢◌ {A = String} "b" "x"
ne-bx e = ground (arith, eq_iff "b" "x")

pub ne-cx : ◌≢◌ {A = String} "c" "x"
ne-cx e = ground (arith, eq_iff "c" "x")

index-unknown_example : index chain "x" ≡ 2
index-unknown_example = index-unknown chain "x" (ne-ax, (ne-bx, (ne-cx, tt)))

-- An address has a port unless it is the bare name of the server "b".
abbrev pub has_colon : String → Bool
has_colon a = not (str_eq a "bare")

abbrev pub join_port : String → String
join_port a = "joined:2718"

abbrev pub bare_chain : Pki
bare_chain = record chain {
  servers = ("a", info "a:1" 1) ∷ ("b", info "bare" 2) ∷ ("c", info "c:1" 3) ∷ [];
}

abbrev pub read_chain : Pki
read_chain = record chain {
  servers = ("a", info "a:1" 1) ∷ ("b", info "joined:2718" 2) ∷ ("c", info "c:1" 3) ∷ [];
}

pub read_chain-read : read_pki has_colon join_port bare_chain ≡ ok read_chain
unfolding read_pki
read_chain-read = refl

pub join-ne : (a : String) → join_port a ≢ ""
join-ne a e = ground (arith, eq_iff "joined:2718" "")

read_pki-reachable_example :
    (0 < length read_chain.server_order)
    × (read_chain.server_order ≡ bare_chain.server_order)
    × AllReachable has_colon join_port read_chain.servers read_chain.server_order
read_pki-reachable_example =
    read_pki-reachable has_colon join_port (λ a. refl) join-ne bare_chain read_chain-read

reachable-total_example :
    ((keys : List Bytes) × (server_keys read_chain ≡ ok keys))
    × ((a : String) × (first_server read_chain ≡ ok a) × (a ≢ ""))
    × ((a : String) × (last_server read_chain ≡ ok a) × (a ≢ ""))
    × ((a : String) × (next_server read_chain "x" ≡ ok a))
    × ((keys : List Bytes) × (next_server_keys read_chain "x" ≡ ok keys))
reachable-total_example =
    reachable-total has_colon join_port read_chain "x" (omega arith)
      (read_pki-reachable has_colon join_port (λ a. refl) join-ne bare_chain read_chain-read).2
