-- ===== src/Onion.antt =====
-- onionbox/onion.go: a message sealed in one layer for each server, and the way a server or a client
-- takes layers off.
pub mod Layers
use vuvuzela.Prelude.{ℕ, zero, suc, ◌+◌, ◌≡◌, List, [], ◌∷◌, ◌++◌, Option, none, some, take, drop}
use vuvuzela.Bytes.{Bytes, Random}
use vuvuzela.Nacl.{Nacl}

module _ (box : Nacl) where
  open box use {generate_key, precompute, seal, unseal}

  -- One layer round the onion `inner`, for the server with key `pk`: the onion and the shared key.
  -- `r` feeds GenerateKey.
  unfoldable pub seal_layer : Bytes → Bytes → Bytes → Random → Bytes × Bytes
  seal_layer inner nonce pk r =
      let (my_public, my_private) = generate_key r in
      let key = precompute pk my_private in (my_public ++ seal inner nonce key, key)

  -- The loop runs from the last key to the first; `rs i` is the randomness of layer `i`.
  unfoldable pub seal_onion : Bytes → Bytes → List Bytes → (ℕ → Random) → Bytes × List Bytes
  seal_onion message nonce [] rs = (message, [])
  seal_onion message nonce (pk ∷ pks) rs =
      let (inner, keys) = seal_onion message nonce pks (λ i. rs (suc i)) in
      let (onion, key) = seal_layer inner nonce pk (rs 0) in (onion, key ∷ keys)

  -- `onionbox.Open`: the layers of a reply, which carry no public keys.
  unfoldable pub open_onion : Bytes → Bytes → List Bytes → Option Bytes
  open_onion message nonce [] = some message
  open_onion message nonce (key ∷ keys) = elim (unseal message nonce key) [
    | none ↦ none
    | some inner ↦ open_onion inner nonce keys
  ]
