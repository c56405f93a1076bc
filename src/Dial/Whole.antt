-- ===== src/Dial/Whole.antt =====
-- dial.go: a whole round of the last server, as the server before it runs it.
use mathlib.Core.List.{append_assoc, append-nil, filter_map}
use vuvuzela.Prelude.{
  ℕ, ◌<◌, ◌≡◌, ◌∙◌, refl, ap, sym, true, false, List, [], ◌∷◌, ◌++◌, Perm, length, map,
  Option-cases, inl, inr, arith,
}
use vuvuzela.Run.{ok}
use vuvuzela.Bytes.{Bytes, u32_mod}
use vuvuzela.Nacl.{Nacl}
use vuvuzela.Wire.{forward_nonce}
use vuvuzela.Shuffle.{Shuffler, new_shuffler}
use vuvuzela.Filter.{filter_dial_incoming}
use vuvuzela.Node.{Node, Config, DialRound, dial_round_open}
use vuvuzela.Rpc.{call_many, here}
use vuvuzela.Spans.{Span, spans}
use vuvuzela.Spans.Cover.{slice, slices, slices-spans}
use vuvuzela.ConvoClient.{span_size}
use vuvuzela.DialClient.{DialNext, run_dial_round}
use vuvuzela.Dial.{DialDraws, new_round, open_onion, open_onions, add, close_round, buckets}
use vuvuzela.Dial.Buckets.{intro_for}
use vuvuzela.Dial.Close.{with_round, get_round-with_round, put_round-with_round, close-buckets}

-- What a server draws: the noise of a round, and the bytes of its Shuffler.
pub record Draws : Type 0 where
  pub noise : ℕ → DialDraws
  pub shuffler : ℕ → Bytes

-- A server of the chain as its predecessor sees it.
unfoldable pub serve : {S : Type 0} → Nacl → Config → Draws → DialNext S → DialNext (Node × S)
serve box cfg draws next = record {
  new_round = λ round. here (new_round box cfg round (draws.noise round));
  add = λ round onions. here (add box cfg round onions);
  close_round = λ round. close_round next cfg round (draws.shuffler round);
}

module _ (box : Nacl) (cfg : Config) where
  open_onions-append :
      (nonce : Bytes) (xs ys : List Bytes)
      → open_onions box cfg nonce (xs ++ ys)
        ≡ open_onions box cfg nonce xs ++ open_onions box cfg nonce ys
  unfolding open_onions
  open_onions-append nonce [] ys = refl
  open_onions-append nonce (x ∷ xs) ys = elim (Option-cases (open_onion box cfg nonce x)) [
    | inl e ↦ rw (open_onions, e, open_onions-append nonce xs ys) refl
    | inr (m, e) ↦ rw (open_onions, e, open_onions-append nonce xs ys) refl
  ]

  module _ (round : ℕ) (r : DialRound) (node : Node) (is_open : r.status ≡ dial_round_open) where
    -- The round once the onions have come.
    abbrev pub holding : List Bytes → DialRound
    holding onions = record r {
      incoming = r.incoming ++ open_onions box cfg (forward_nonce round) onions;
    }

    add-holding :
        (came onions : List Bytes)
        → add box cfg round onions (with_round round (holding came) node)
          ≡ (with_round round (holding (came ++ onions)) node, ok tt)
    unfolding add
    add-holding came onions = rw (
      get_round-with_round round dial_round_open (holding came) node is_open,
      put_round-with_round round (holding came) _ node,
      append_assoc,
      ← open_onions-append (forward_nonce round) came onions,
    )

    module _ {S : Type 0} (next : DialNext S) (draws : Draws) (s : S) (onions : List Bytes) where
      adds-holding :
          (came : List Bytes) (ss : List Span)
          → call_many
              (λ span. (serve box cfg draws next).add round (slice onions span))
              ss
              (with_round round (holding came) node, s)
            ≡ (
              (with_round round (holding (came ++ slices onions ss)) node, s),
              ok (map (λ _. tt) ss),
            )
      unfolding call_many serve
      adds-holding came [] = rw (append-nil came)
      adds-holding came (span ∷ ss) =
          rw
            (
              call_many,
              add-holding came (slice onions span),
              adds-holding (came ++ slice onions span) ss,
              append_assoc,
            )
            refl

      pub all_held :
          call_many
            (λ span. (serve box cfg draws next).add round (slice onions span))
            (spans (length onions) span_size)
            (with_round round r node, s)
          ≡ (
            (with_round round (holding onions) node, s),
            ok (map (λ _. tt) (spans (length onions) span_size)),
          )
      unfolding open_onions
      all_held =
          let start : r ≡ holding [] =
            ap (λ incoming. record r { incoming = incoming }) (sym (append-nil r.incoming)) in
          let ss = spans (length onions) span_size in
          ap
            (λ r'.
              call_many (λ span. (serve box cfg draws next).add round (slice onions span)) ss
                (with_round round r' node, s))
            start
          ∙ adds-holding [] ss
          ∙ ap (λ came. ((with_round round (holding came) node, s), ok (map (λ _. tt) ss)))
              (slices-spans span_size onions (omega arith))

      module _ {valid : List Bytes} {shuffler : Shuffler} {rest : Bytes}
          (last : cfg.last_server ≡ true) (locked : node.idle ≡ true)
          (filtered : filter_dial_incoming
              (r.incoming ++ open_onions box cfg (forward_nonce round) onions)
            ≡ ok valid)
          (small : length (valid ++ r.noise) < u32_mod)
          (drawn : new_shuffler (draws.shuffler round) (length (valid ++ r.noise))
            ≡ ok (shuffler, rest)) where
        pub run_dial_round-buckets :
            (after : Node) × (bucket : List Bytes) × (run_dial_round
                (serve box cfg draws next)
                round
                onions
                (with_round round r node, s)
              ≡ ((after, s), ok tt))
            × (buckets cfg round after ≡ (after, ok (bucket ∷ [])))
            × Perm bucket (filter_map (intro_for 0) (valid ++ r.noise))
            × (after.idle ≡ false)
        unfolding run_dial_round serve
        run_dial_round-buckets =
            let (after, bucket, closes, read, perm, free) =
              close-buckets next cfg round (draws.shuffler round) rest (holding onions) node s valid
                last is_open locked filtered small drawn in
            (after, bucket, rw (run_dial_round, all_held, closes) refl, read, perm, free)
