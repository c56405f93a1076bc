-- ===== src/Chain.antt =====
-- Add of convo.go and of dial.go, on the onions that clients and the servers before it seal.
use Prim.Native.String.{String}
use vuvuzela.Prelude.{
  ℕ, suc, ◌+◌, ◌≡◌, ap, sym, ◌∙◌, true, List, ◌∷◌, ◌++◌, some, arith, length, ◌==◌,
}
use vuvuzela.Run.{ok}
use vuvuzela.Bytes.{Bytes, Random}
use vuvuzela.Nacl.{Nacl, NaclLaws}
use vuvuzela.Wire.{size_convo_exchange, size_dial_exchange}
use vuvuzela.Onion.{seal_onion, seal_layer}
use vuvuzela.Onion.Layers.{length-seal_onion, peel-seal_layer}
use vuvuzela.Pki.{next_server_keys, incoming_onion_overhead}
use vuvuzela.Pki.Sizes.{IsNew, length-keys_of, next_keys-and-overheads}
use vuvuzela.Node.{Config}
use vuvuzela.Convo.{expected_onion_size}
use vuvuzela.Convo.Fill.{message_slot, key_slot}
use vuvuzela.Dial.{open_onion, expected_onion_size as dial_onion_size}

module _ (box : Nacl) (laws : NaclLaws box) (cfg : Config) (before after : List String)
    (order : cfg.pki.server_order ≡ before ++ cfg.server_name ∷ after)
    (fresh : IsNew cfg.server_name before) (keys : List Bytes)
    (known : next_server_keys cfg.pki cfg.server_name ≡ ok keys) (m nonce : Bytes)
    (rs : ℕ → Random) where
  -- The onion for this server and those behind it, and the one for those behind it alone.
  abbrev pub outer : Bytes
  outer = (seal_onion box m nonce (box.public_key cfg.private_key ∷ keys) rs).0

  abbrev pub inner : Bytes
  inner = (seal_onion box m nonce keys (λ i. rs (suc i))).0

  length-outer : length outer ≡ incoming_onion_overhead cfg.pki cfg.server_name + length m
  length-outer =
      let (same, overhead, _) =
        next_keys-and-overheads cfg.pki cfg.server_name before after order fresh in
      omega (
        arith,
        length-seal_onion box laws m nonce (box.public_key cfg.private_key ∷ keys) rs,
        overhead,
        length-keys_of cfg.pki after (sym same ∙ known),
      )

  -- A message of the size of a dialing exchange was sealed for a server of the chain and those behind
  -- it. Add of the dialing service finds the onion for those behind under its layer.
  pub open_onion-inner : length m ≡ size_dial_exchange → open_onion box cfg nonce outer ≡ some inner
  unfolding open_onion seal_onion
  open_onion-inner size =
      let (_, opened) = peel-seal_layer box laws inner nonce cfg.private_key (rs 0) in
      let right : (length outer == dial_onion_size box cfg) ≡ true = ground (arith, length-outer) in
      rw (open_onion, right) opened

  -- A message of the size of a conversation exchange was sealed for a server of the chain and those
  -- behind it. Add of the conversation service finds the onion for those behind under its layer, and
  -- keeps the key that the sender has for that layer.
  pub message_slot-inner :
      length m ≡ size_convo_exchange
      → (message_slot box cfg nonce outer ≡ some inner)
        × (key_slot box cfg outer
            ≡ some (seal_layer box inner nonce (box.public_key cfg.private_key) (rs 0)).1)
  unfolding message_slot key_slot seal_onion
  message_slot-inner size =
      let (same, opened) = peel-seal_layer box laws inner nonce cfg.private_key (rs 0) in
      let right : (length outer == expected_onion_size box cfg) ≡ true =
        ground (arith, length-outer) in
      (rw (message_slot, right) opened, rw (key_slot, right) (ap some same))
