-- ===== src/Convo/Pair.antt =====
-- convo.go: a round of two servers, the one before the last and the last, for two of its clients.
use vuvuzela.Run.{ok}
use vuvuzela.Prelude.{
  ◌∙◌, ◌<◌, ◌≤◌, ◌≡◌, ◌*◌, ◌+◌, ℕ, length, List, [], ◌∷◌, ◌++◌, map, Option, none, some, true,
  false, arith, refl, sym, ap, get_elem?, length-append,
}
use Prim.Native.String.{String}
use mathlib.Core.Path.{subst}
use vuvuzela.Bytes.{Bytes, Random, u32_mod}
use vuvuzela.Nacl.{Nacl, NaclLaws, box_overhead}
use vuvuzela.Wire.{
  ConvoExchange, forward_nonce, backward_nonce, marshal_exchange, size_encrypted_message,
  size_convo_exchange,
}
use vuvuzela.Wire.RoundTrip.{IsExchange}
use vuvuzela.Onion.{seal_onion, open_onion}
use vuvuzela.Pki.{next_server_keys}
use vuvuzela.Pki.Sizes.{IsNew}
use vuvuzela.Filter.{filter_incoming}
use vuvuzela.Exchange.{exchange_of_message}
use vuvuzela.Exchange.Drops.{positions}
use vuvuzela.Shuffle.{Shuffler, new_shuffler, shuffle}
use vuvuzela.Rounds
use vuvuzela.Node.{Node, Config, ConvoRound, convo_round_new}
use vuvuzela.Convo.{lock, new_round, add_round, put_round, new_convo}
use vuvuzela.Convo.State.{with_round}
use vuvuzela.Convo.Fill.{message_slot}
use vuvuzela.Convo.Serve.{Draws, serve}
use vuvuzela.ConvoClient.{ConvoNext, new_convo_round, run_convo_round}
use vuvuzela.Convo.Replies.{AllSized}
use vuvuzela.Convo.Delivery.{sent, outgoing, run_convo_round-delivers}
use vuvuzela.Convo.Passing.{run_convo_round-relays}

-- NewRound of the last server, as the server before it calls it.
module _ (box : Nacl) (cfg : Config) (last : cfg.last_server ≡ true) {S : Type 0}
    (next : ConvoNext S) (draws : Draws) (round : ℕ) (node : Node) (s : S)
    (free : node.idle ≡ false) (unknown : Rounds.lookup round node.convo_rounds ≡ none) where
  new_convo_round-last :
      new_convo_round (serve box cfg draws next) round (node, s)
      ≡ ((with_round round new_convo (record node { idle = true }), s), ok tt)
  unfolding new_convo_round serve new_round lock add_round put_round Rounds.lookup
  new_convo_round-last =
      simp (new_convo_round, serve, new_round, lock, free)
        (simp (unknown, new_round, add_round, last) refl)

ok-injective {ℓ} : {A : Type ℓ} {a b : A} → ok a ≡ ok b → a ≡ b
ok-injective e = cc

some-injective {ℓ} : {A : Type ℓ} {a b : A} → some a ≡ some b → a ≡ b
some-injective e = cc

marshal_exchange-size :
    (e : ConvoExchange) → IsExchange e → length (marshal_exchange e) ≡ size_convo_exchange
unfolding marshal_exchange
marshal_exchange-size e h = omega (arith, length-append e.dead_drop e.encrypted_message, h.0, h.1)

-- The reply under the outer layer is the one that the last server gave.
opened_through :
    (box : Nacl) (nonce : Bytes) (replies : List Bytes) {p i : ℕ} {reply reply' : Bytes}
    (sealed key key' : Bytes) {message : Bytes}
    → p ≡ i
    → get_elem? replies p ≡ some reply
    → get_elem? replies i ≡ some reply'
    → open_onion box reply' nonce (key' ∷ []) ≡ some message
    → open_onion box sealed nonce (key ∷ key' ∷ []) ≡ open_onion box reply nonce (key' ∷ [])
    → open_onion box sealed nonce (key ∷ key' ∷ []) ≡ some message
opened_through box nonce replies sealed key key' at replied found opened peeled =
    let same = some-injective (sym replied ∙ ap (get_elem? replies) at ∙ found) in
    peeled ∙ ap (λ reply. open_onion box reply nonce (key' ∷ [])) same ∙ opened

-- The last two servers of a chain, and their clients.
module _ (box : Nacl) (laws : NaclLaws box) (cfg cfg' : Config) (before : List String)
    (order : cfg.pki.server_order ≡ before ++ cfg.server_name ∷ cfg'.server_name ∷ [])
    (order' : cfg'.pki.server_order ≡ (before ++ cfg.server_name ∷ []) ++ cfg'.server_name ∷ [])
    (fresh : IsNew cfg.server_name before)
    (fresh' : IsNew cfg'.server_name (before ++ cfg.server_name ∷ []))
    (known : next_server_keys cfg.pki cfg.server_name ≡ ok (box.public_key cfg'.private_key ∷ []))
    (mixing : cfg.last_server ≡ false) (last : cfg'.last_server ≡ true) where
  -- The onion of an exchange for the two servers, and the keys that its sender keeps.
  abbrev pub sealed_for : ℕ → ConvoExchange → (ℕ → Random) → Bytes × List Bytes
  sealed_for round e rs =
      seal_onion box (marshal_exchange e) (forward_nonce round)
        (box.public_key cfg.private_key ∷ box.public_key cfg'.private_key ∷ []) rs

  -- The onion inside, for the last server.
  abbrev pub inside : ℕ → ConvoExchange → (ℕ → Random) → Bytes
  inside round e rs =
      (sent box laws cfg' (before ++ cfg.server_name ∷ []) order' fresh' round e (rs 1)).0

  module _ {S : Type 0} (next : ConvoNext S) (draws draws' : Draws) (round : ℕ)
      (onions : List Bytes) (r : ConvoRound) (node node' : Node) (s : S)
      (new : r.status ≡ convo_round_new) (locked : node.idle ≡ true) (free : node'.idle ≡ false)
      (unknown : Rounds.lookup round node'.convo_rounds ≡ none) {valid : List Bytes}
      {index : List (Option ℕ)}
      (filtered : filter_incoming (map (message_slot box cfg (forward_nonce round)) onions)
        ≡ ok (valid, index))
      {swaps : Shuffler} {rest : Bytes}
      (drawn : new_shuffler (draws.shuffler round) (length (valid ++ r.noise)) ≡ ok (swaps, rest))
      (short : length (valid ++ r.noise) < u32_mod)
      (enough : length onions ≤ length (valid ++ r.noise)) {shuffled : List Bytes}
      (mixed : shuffle swaps (valid ++ r.noise) ≡ ok shuffled) where
    -- The round of the first of the two servers ends, for both, with a reply to each onion.
    abbrev pub BothEnd : List Bytes → Type 0
    BothEnd whole =
        (left : Node) × (left' : Node) × (run_convo_round
            (serve box cfg draws (serve box cfg' draws' next)) round onions
            (with_round round r node, (node', s))
          ≡ ((left, (left', s)), ok whole))
        × (length whole ≡ length onions)
        × (left.idle ≡ false)
        × (left'.idle ≡ false)

    -- The client opens the answer in slot `i` with the keys that it kept, and reads `message`.
    abbrev pub ReadsThrough : List Bytes → ℕ → List Bytes → Bytes → Type 0
    ReadsThrough whole i keys message =
        (reply : Bytes) × (get_elem? whole i ≡ some reply)
        × (open_onion box reply (backward_nonce round) keys ≡ some message)

    module _ (i j v w : ℕ) (x y : ConvoExchange) (rs_x rs_y : ℕ → Random) (x_sized : IsExchange x)
        (y_sized : IsExchange y) (x_came : get_elem? onions i ≡ some (sealed_for round x rs_x).0)
        (y_came : get_elem? onions j ≡ some (sealed_for round y rs_y).0)
        (x_kept : get_elem? index i ≡ some (some v)) (y_kept : get_elem? index j ≡ some (some w))
        (i' j' v' w' : ℕ) (ps : List ℕ) (x_at : get_elem? shuffled i' ≡ some (inside round x rs_x))
        (y_at : get_elem? shuffled j' ≡ some (inside round y rs_y))
        (x_once : (p : ℕ) → get_elem? shuffled p ≡ some (inside round x rs_x) → p ≡ i')
        (y_once : (p : ℕ) → get_elem? shuffled p ≡ some (inside round y rs_y) → p ≡ j')
        {valid' : List Bytes} {index' : List (Option ℕ)}
        (filtered' : filter_incoming (map (message_slot box cfg' (forward_nonce round)) shuffled)
          ≡ ok (valid', index'))
        (x_kept' : get_elem? index' i' ≡ some (some v'))
        (y_kept' : get_elem? index' j' ≡ some (some w'))
        (met : positions x.dead_drop 0 (map exchange_of_message valid') ≡ v' ∷ w' ∷ ps) where
      -- A fresh round of the server before the last, whose mutex NewRound has locked; the last server is
      -- idle, and has no such round. Exchanges `x` and `y` of the right sizes came sealed for both
      -- servers, and the filters of both kept them. The first server has as many messages and noise
      -- onions as onions came, and shuffles them; the onions inside stand each in one place of the
      -- shuffled batch, and are the first two there to name their dead drop. The round ends with a reply
      -- to each onion and both mutexes free; with the keys of their own onions the sender of `x` reads
      -- the message of `y`, and that of `y` the message of `x`.
      pub run_convo_round-delivers_through :
          (whole : List Bytes) × BothEnd whole
          × ReadsThrough whole i (sealed_for round x rs_x).1 y.encrypted_message
          × ReadsThrough whole j (sealed_for round y rs_y).1 x.encrypted_message
      unfolding seal_onion
      run_convo_round-delivers_through =
          let behind = before ++ cfg.server_name ∷ [] in
          let made = new_convo_round-last box cfg' last next draws' round node' s free unknown in
          let (replies, (after, ran, size, sized, unlocked, _, _), x_read, y_read) =
            run_convo_round-delivers box laws cfg' behind order' fresh' next draws' round shuffled
              new_convo (record node' { idle = true }) s last refl refl i' j' v' w' x y (rs_x 1)
              (rs_y 1) ps x_sized y_sized x_at y_at filtered' x_kept' y_kept' met in
          let t = with_round round new_convo (record node' { idle = true }) in
          let sized' : AllSized (1 * box_overhead + size_encrypted_message) replies =
            subst (λ n. AllSized n replies) (outgoing box laws cfg' behind order' fresh') sized in
          let relays =
            λ (m : Bytes) (m_sized : length m ≡ size_convo_exchange) (rs : ℕ → Random) (i v : ℕ).
              run_convo_round-relays box laws cfg before (cfg'.server_name ∷ []) order fresh
                (box.public_key cfg'.private_key ∷ []) known round onions r
                (serve box cfg' draws' next) draws node (node', s) (t, s) (after, s) mixing new
                locked valid index filtered swaps rest drawn short enough shuffled mixed made
                replies ran size m m_sized rs i v sized' in
          let (whole, (left, run, count, _, idle, _, _), (p, rx, sx, at_x, rep_x, got_x, open_x)) =
            relays (marshal_exchange x) (marshal_exchange-size x x_sized) rs_x i v x_came x_kept in
          let (whole', (left', run', _, _, _, _, _), (q, ry, sy, at_y, rep_y, got_y, open_y)) =
            relays (marshal_exchange y) (marshal_exchange-size y y_sized) rs_y j w y_came y_kept in
          let same : whole' ≡ whole = ok-injective (ap (λ z. z.1) (sym run' ∙ run)) in
          let (reply_x, found_x, opened_x) = x_read in
          let (reply_y, found_y, opened_y) = y_read in
          (
            whole,
            (left, after, run, count, idle, unlocked),
            (
              sx,
              got_x,
              opened_through box (backward_nonce round) replies sx _ _ (x_once p at_x) rep_x found_x
                  opened_x (open_x _),
            ),
            (
              sy,
              ap (λ z. get_elem? z j) (sym same) ∙ got_y,
              opened_through box (backward_nonce round) replies sy _ _ (y_once q at_y) rep_y found_y
                  opened_y (open_y _),
            ),
          )
