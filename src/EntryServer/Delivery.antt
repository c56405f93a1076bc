-- ===== src/EntryServer/Delivery.antt =====
-- A conversation round from the requests of two clients to the responses that they are sent, with the
-- last server as the one that the entry server calls.
use Prim.Native.String.{String}
use vuvuzela.Prelude.{
  ℕ, ◌+◌, ◌≡◌, ◌∙◌, Bool, true, List, [], ◌∷◌, ◌++◌, Option, some, map, length, length-map,
  get_elem?, get_elem?-map,
}
use vuvuzela.Run.{ok}
use vuvuzela.Bytes.{Bytes, Random}
use vuvuzela.Nacl.{Nacl, NaclLaws}
use vuvuzela.Wire.{ConvoExchange, forward_nonce, backward_nonce}
use vuvuzela.Wire.RoundTrip.{IsExchange}
use vuvuzela.Onion.{open_onion}
use vuvuzela.Pki.Sizes.{IsNew}
use vuvuzela.Filter.{filter_incoming}
use vuvuzela.Exchange.{exchange_of_message}
use vuvuzela.Exchange.Drops.{positions}
use vuvuzela.Node.{Node, Config, ConvoRound, convo_round_new}
use vuvuzela.Convo.State.{with_round}
use vuvuzela.Convo.Fill.{message_slot}
use vuvuzela.Convo.Serve.{Draws, serve}
use vuvuzela.ConvoClient.{ConvoNext}
use vuvuzela.Convo.Delivery.{sent, run_convo_round-delivers}
use vuvuzela.EntryServer.{Connection, Request, convo_response, Server, run_convo}
use vuvuzela.EntryServer.Answer.{run_convo-answers}

-- The client of request `i` is sent a response that it opens with `key` and that holds `message`.
abbrev pub IsSent : Nacl → ℕ → Server → Server → ℕ → Connection → Bytes → Bytes → Type 0
IsSent box round before after i c key message =
    (reply : Bytes) × (get_elem? after.sent (length before.sent + i)
      ≡ some (c.id, convo_response round reply))
    × (open_onion box reply (backward_nonce round) (key ∷ []) ≡ some message)

module _ (writable : ℕ → Bool) (all : (i : ℕ) → writable i ≡ true) (box : Nacl)
    (laws : NaclLaws box) (cfg : Config) (before : List String)
    (order : cfg.pki.server_order ≡ before ++ cfg.server_name ∷ [])
    (fresh : IsNew cfg.server_name before) {S : Type 0} (next : ConvoNext S) (draws : Draws)
    (round : ℕ) (requests : List Request) (srv : Server) (r : ConvoRound) (node : Node) (s : S)
    (last : cfg.last_server ≡ true) (new : r.status ≡ convo_round_new) (locked : node.idle ≡ true)
    (i j v w : ℕ) (x y : ConvoExchange) (seed_x seed_y : Random) (a b : Connection) (ps : List ℕ)
    {valid : List Bytes} {index : List (Option ℕ)} (x_sized : IsExchange x) (y_sized : IsExchange y)
    (x_asked : get_elem? requests i
      ≡ some (record { conn = a; onion = (sent box laws cfg before order fresh round x seed_x).0 }))
    (y_asked : get_elem? requests j
      ≡ some (record { conn = b; onion = (sent box laws cfg before order fresh round y seed_y).0 }))
    (filtered : filter_incoming
        (map (message_slot box cfg (forward_nonce round)) (map Request.onion requests))
      ≡ ok (valid, index))
    (x_kept : get_elem? index i ≡ some (some v)) (y_kept : get_elem? index j ≡ some (some w))
    (met : positions x.dead_drop 0 (map exchange_of_message valid) ≡ v ∷ w ∷ ps) where
  -- The entry server runs a conversation round with the last server of a chain as the one that it
  -- calls, on which the round was just made and whose mutex is locked, and all sockets are open. Exchanges `x` and `y` of the right sizes
  -- came sealed for that server in requests `i` and `j`, its filter kept both, and they are the first
  -- two of the kept messages to name their dead drop. Then the round ends well, and the clients of the
  -- two requests are sent responses that they open with the keys of their own onions: the one reads
  -- the message of `y`, the other that of `x`.
  pub run_convo-delivers :
      (after : Server) × (s' : Node × S) × (run_convo writable
          (serve box cfg draws next)
          round
          requests
          (srv, (with_round round r node, s))
        ≡ ((after, s'), ok tt))
      × IsSent box round srv after i a
          (sent box laws cfg before order fresh round x seed_x).1
          y.encrypted_message
      × IsSent box round srv after j b
          (sent box laws cfg before order fresh round y seed_y).1
          x.encrypted_message
  run_convo-delivers =
      let onions = map Request.onion requests in
      let server = serve box cfg draws next in
      let (
        whole,
        (node', run, size, _, _, _, _),
        (reply_x, got_x, opened_x),
        (reply_y, got_y, opened_y),
      ) =
        run_convo_round-delivers box laws cfg before order fresh next draws round onions r node s
          last new locked i j v w x y seed_x seed_y ps x_sized y_sized
          (get_elem?-map requests Request.onion i x_asked)
          (get_elem?-map requests Request.onion j y_asked) filtered x_kept y_kept met in
      let count = size ∙ length-map requests Request.onion in
      let (after, e, _, to_x) =
        run_convo-answers writable all server round i requests srv (with_round round r node, s)
          (node', s) whole run count x_asked got_x in
      let (after', e', _, to_y) =
        run_convo-answers writable all server round j requests srv (with_round round r node, s)
          (node', s) whole run count y_asked got_y in
      let same : after' ≡ after = cc in
      (after, (node', s), e, (reply_x, to_x, opened_x), (reply_y, rw same at to_y, opened_y))
