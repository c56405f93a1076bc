-- ===== src/Onion/Layers.antt =====
-- The size of an onion, and what each server finds under its layer.
use vuvuzela.Prelude.{
  ℕ, suc, ◌+◌, ◌*◌, ◌≡◌, refl, ap, List, [], ◌∷◌, ◌++◌, Option, none, some, arith, length,
  length-append, take, drop, map,
}
use vuvuzela.Bytes.{Bytes, Random}
use vuvuzela.Nacl.{Nacl, NaclLaws, box_overhead}
use vuvuzela.Wire.{onion_overhead}
use vuvuzela.Wire.RoundTrip.{take-append, drop-append}
use vuvuzela.Onion.{seal_layer, seal_onion, open_onion}

module _ (box : Nacl) (laws : NaclLaws box) where
  open box use {public_key, generate_key, precompute, seal, unseal}

  -- An onion is one overhead longer than its message for each server.
  pub length-seal_onion :
      (m nonce : Bytes) (pks : List Bytes) (rs : ℕ → Random)
      → length (seal_onion box m nonce pks rs).0 ≡ length m + length pks * onion_overhead
  unfolding seal_onion seal_layer
  length-seal_onion m nonce [] rs = omega arith
  length-seal_onion m nonce (pk ∷ pks) rs =
      let rest = seal_onion box m nonce pks (λ i. rs (suc i)) in
      let (my_public, my_private) = generate_key (rs 0) in
      omega (
        arith,
        length-append my_public (seal rest.0 nonce (precompute pk my_private)),
        laws.length-seal rest.0 nonce (precompute pk my_private),
        laws.length-public (rs 0),
        length-seal_onion m nonce pks (λ i. rs (suc i)),
      )

  -- The client shares one key with each server.
  pub length-seal_onion_keys :
      (m nonce : Bytes) (pks : List Bytes) (rs : ℕ → Random)
      → length (seal_onion box m nonce pks rs).1 ≡ length pks
  unfolding seal_onion
  length-seal_onion_keys m nonce [] rs = refl
  length-seal_onion_keys m nonce (pk ∷ pks) rs =
      ap suc (length-seal_onion_keys m nonce pks (λ i. rs (suc i)))

  -- A server's part: the sender's public key is the first 32 bytes.
  abbrev pub layer_key : Bytes → Bytes → Bytes
  layer_key onion private = precompute (take 32 onion) private

  abbrev pub peel : Bytes → Bytes → Bytes → Option Bytes
  peel onion nonce private = unseal (drop 32 onion) nonce (layer_key onion private)

  -- The server that a layer is for derives the key that the client kept, and finds the inner onion.
  pub peel-seal_layer :
      (inner nonce private : Bytes) (r : Random)
      → let (onion, key) = seal_layer box inner nonce (public_key private) r in
        (layer_key onion private ≡ key) × (peel onion nonce private ≡ some inner)
  unfolding seal_layer
  peel-seal_layer inner nonce private r =
      let (mine, secret) = generate_key r in
      let key = precompute (public_key private) secret in
      let body = seal inner nonce key in
      let front : take 32 (mine ++ body) ≡ mine = take-append 32 mine body (laws.length-public r) in
      let back : drop 32 (mine ++ body) ≡ body = drop-append 32 mine body (laws.length-public r) in
      let same : precompute (take 32 (mine ++ body)) private ≡ key =
        rw (front, laws.key_pair r) (laws.shared_key secret private) in
      let opened : unseal (drop 32 (mine ++ body)) nonce
            (precompute (take 32 (mine ++ body)) private)
          ≡ some inner =
        rw (same, back) (laws.unseal-seal inner nonce key) in
      (same, opened)

  -- The servers in order, each with its private key; the keys that they derive on the way.
  pub peel_all : Bytes → Bytes → List Bytes → Option (Bytes × List Bytes)
  peel_all onion nonce [] = some (onion, [])
  peel_all onion nonce (private ∷ privates) = elim (peel onion nonce private) [
    | none ↦ none
    | some inner ↦ elim (peel_all inner nonce privates) [
      | none ↦ none
      | some (m, keys) ↦ some (m, layer_key onion private ∷ keys)
    ]
  ]

  -- The chain of servers whose keys an onion was sealed for gets the message out of it, and derives
  -- exactly the keys that Seal returned.
  pub peel_all-seal_onion :
      (m nonce : Bytes) (privates : List Bytes) (rs : ℕ → Random)
      → let (onion, keys) = seal_onion box m nonce (map public_key privates) rs in
        peel_all onion nonce privates ≡ some (m, keys)
  unfolding seal_onion peel_all
  peel_all-seal_onion m nonce [] rs = refl
  peel_all-seal_onion m nonce (p ∷ ps) rs =
      let (inner, keys) = seal_onion box m nonce (map public_key ps) (λ i. rs (suc i)) in
      let (same, opened) = peel-seal_layer inner nonce p (rs 0) in
      rw (opened, peel_all, peel_all-seal_onion m nonce ps (λ i. rs (suc i)), same)

  -- A reply on its way back: the last server seals first.
  pub reply_onion : Bytes → Bytes → List Bytes → Bytes
  reply_onion reply nonce [] = reply
  reply_onion reply nonce (key ∷ keys) = seal (reply_onion reply nonce keys) nonce key

  -- The client takes off the layers of a reply with the keys that it kept.
  pub open_onion-reply_onion :
      (m nonce : Bytes) (keys : List Bytes)
      → (open_onion box (reply_onion m nonce keys) nonce keys ≡ some m)
        × (length (reply_onion m nonce keys) ≡ length m + length keys * box_overhead)
  unfolding open_onion reply_onion
  open_onion-reply_onion m nonce [] = (refl, omega arith)
  open_onion-reply_onion m nonce (key ∷ keys) =
      let rest = reply_onion m nonce keys in
      let (opened, size) = open_onion-reply_onion m nonce keys in
      (
        rw (laws.unseal-seal rest nonce key, open_onion) opened,
        omega (arith, size, laws.length-seal rest nonce key),
      )
