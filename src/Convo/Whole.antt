-- ===== src/Convo/Whole.antt =====
-- convo.go: a whole round of one server, as the server before it runs it, for any Close that ends well.
use vuvuzela.Run.{ok, err, panic, close_call, remote}
use mathlib.Core.List.{append-nil}
use native.Mathlib.Nat.{zero-add}
use vuvuzela.Prelude.{
  get_elem?-map, get_elem?-lt, get_elem?-in_range, ◌+◌, length-take, ap, length-map, Option, ◌∙◌,
  ◌-◌, length-drop, replicate, Option-cases, drop, map, take, get_elem?, Bool-cases, length, List,
  arith, refl, inr, inl, some, [], ◌==◌, ◌<◌, ◌≤◌, ◌∷◌, ℕ, ◌≡◌,
}
use vuvuzela.Bytes.{Bytes}
use vuvuzela.Nacl.{Nacl, NaclLaws}
use vuvuzela.Wire.{forward_nonce, backward_nonce}
use vuvuzela.Filter.First.{AllLong, Filters}
use vuvuzela.Node.{Node, Config, ConvoRound, convo_round_new, convo_round_open, convo_round_closed}
use vuvuzela.Convo.{expected_onion_size}
use vuvuzela.Convo.Fill.{open_round-filled, add-filled, key_slot, message_slot, filled}
use vuvuzela.Rounds
use vuvuzela.Spans.{Span}
use vuvuzela.Spans.Cover.{take-take-drop, take_all, slice}
use vuvuzela.Convo.State.{with_round}
use vuvuzela.Convo.Close.{delete, outgoing_onion_size}
use vuvuzela.Convo.Serve.{Draws, serve}
use vuvuzela.ConvoClient.{ConvoNext, run_convo_round}
use vuvuzela.ConvoClient.Assemble.{run_convo_round-whole, run_convo_round-panics}
use vuvuzela.Convo.Replies.{
  slice-answers, get-answers, length-answers, answers, answer-replied, get_elem?-answers, CanReply,
}

module _ (box : Nacl) (laws : NaclLaws box) (cfg : Config) where
  message_slot-long :
      (nonce onion m : Bytes) → message_slot box cfg nonce onion ≡ some m → 8 ≤ length m
  unfolding message_slot
  message_slot-long nonce onion m e =
      elim (Bool-cases (length onion == expected_onion_size box cfg)) [
        | inr wrong ↦ let e' = rw wrong at e in cc
        | inl right ↦
            let key = box.precompute (take 32 onion) cfg.private_key in
            let opened : box.unseal (drop 32 onion) nonce key ≡ some m = rw right at e in
            let size : length onion ≡ expected_onion_size box cfg = ground arith in
            omega (
              arith,
              size,
              laws.length-unseal (drop 32 onion) nonce key m opened,
              length-drop 32 onion,
            )
      ]

  pub arrivals-AllLong :
      (nonce : Bytes) (onions : List Bytes) → AllLong (map (message_slot box cfg nonce) onions)
  arrivals-AllLong nonce [] = tt
  arrivals-AllLong nonce (onion ∷ onions) = elim (Option-cases (message_slot box cfg nonce onion)) [
    | inl e ↦ rw e (arrivals-AllLong nonce onions)
    | inr (m, e) ↦ rw e (message_slot-long nonce onion m e, arrivals-AllLong nonce onions)
  ]

  key_slot-some : (onion : Bytes) → (key : Bytes) × (key_slot box cfg onion ≡ some key)
  unfolding key_slot
  key_slot-some onion = elim (Bool-cases (length onion == expected_onion_size box cfg)) [
    | inl e ↦ (box.precompute (take 32 onion) cfg.private_key, rw e)
    | inr e ↦ (replicate 32 0, rw e)
  ]

module _ (box : Nacl) (laws : NaclLaws box) (cfg : Config) (round : ℕ) (onions : List Bytes)
    (r : ConvoRound) where
  -- What the slots of the round hold when all onions have come.
  abbrev pub arrivals : List (Option Bytes)
  arrivals = map (message_slot box cfg (forward_nonce round)) onions

  abbrev pub full : ConvoRound
  full = filled box cfg round (length onions) onions r

  pub full-slots : (full.incoming ≡ arrivals) × (full.shared_keys ≡ map (key_slot box cfg) onions)
  unfolding filled
  full-slots =
      let none_left : length onions - length onions ≡ 0 = omega arith in
      rw none_left (append-nil arrivals, append-nil (map (key_slot box cfg) onions))

  pub full-open : full.status ≡ convo_round_open
  unfolding filled
  full-open = refl

  pub full-num_incoming : full.num_incoming ≡ length onions
  unfolding filled
  full-num_incoming = refl

  module _ {S : Type 0} (next : ConvoNext S) (draws : Draws) (node : Node) (s : S) where
    abbrev filling : ℕ → Node × S
    filling k = (with_round round (filled box cfg round (length onions) (take k onions) r) node, s)

    filling-add :
        (span : Span)
        → span.start + span.count ≤ length onions
        → (serve box cfg draws next).add round span.start (slice onions span) (filling span.start)
          ≡ (filling (span.start + span.count), ok tt)
    unfolding serve
    filling-add span h =
        let done : span.start ≡ length (take span.start onions) =
          omega (arith, length-take span.start onions) in
        let fits : length (take span.start onions) + length (slice onions span) ≤ length onions =
          omega (
            arith,
            length-take span.start onions,
            length-take span.count (drop span.start onions),
            length-drop span.start onions,
          ) in
        rw (
          add-filled box cfg round (length onions) span.start (take span.start onions)
              (slice onions span) r node done fits,
          take-take-drop span.start span.count onions,
        )

    -- The state when all onions have come.
    all_came : filling (length onions) ≡ (with_round round full node, s)
    all_came =
        let all : take (length onions) onions ≡ onions =
          take_all (length onions) onions (omega arith) in
        rw all

    opening :
        r.status ≡ convo_round_new
        → (serve box cfg draws next).open_round round (length onions) (with_round round r node, s)
          ≡ (filling 0, ok tt)
    unfolding serve
    opening new = rw (open_round-filled box cfg round (length onions) r node new)

    -- A Close that panics is an error to the caller, and the round stays.
    pub run-panics :
        {left : Node × S}
        → r.status ≡ convo_round_new
        → (serve box cfg draws next).close_round round (with_round round full node, s)
          ≡ (left, panic)
        → run_convo_round (serve box cfg draws next) round onions (with_round round r node, s)
          ≡ (left, err (close_call remote))
    run-panics new closes =
        run_convo_round-panics (serve box cfg draws next) round onions filling (opening new)
          filling-add (rw all_came closes)

  -- The round `closed` was made from the full one by a Close that kept `valid`, with enough replies.
  module _ (closed : ConvoRound) (valid : List Bytes)
      (f : Filters [] 0 arrivals valid closed.incoming_index)
      (same_keys : closed.shared_keys ≡ full.shared_keys)
      (enough : length valid ≤ length closed.replies) where
    pub closed-CanReply : (i : ℕ) → i < length onions → CanReply closed i
    closed-CanReply i h =
        let many = length-map onions (message_slot box cfg (forward_nonce round)) in
        let (entry, e) =
          get_elem?-in_range closed.incoming_index i (omega (arith, h, f.size, many)) in
        elim (Option-cases entry) [
          | inl unkept ↦ CanReply.no_message (rw unkept at e)
          | inr (v, kept) ↦
              let e' : get_elem? closed.incoming_index i ≡ some (some v) = rw kept at e in
              let (_, msg, _, placed) = f.kept i v e' in
              let (reply, p) =
                get_elem?-in_range closed.replies v
                  (omega (arith, enough, get_elem?-lt valid (v - 0) placed)) in
              let (onion, q) = get_elem?-in_range onions i h in
              let (key, k) = key_slot-some box laws cfg onion in
              let keyed : get_elem? closed.shared_keys i ≡ some (some key) =
                rw (same_keys, full-slots.1)
                  (get_elem?-map onions (key_slot box cfg) i q ∙ ap some k) in
              CanReply.replied v reply key e' p keyed
        ]

    module _ {S : Type 0} (next : ConvoNext S) (draws : Draws) (node node' : Node) (s s' : S)
        (new : r.status ≡ convo_round_new) (is_closed : closed.status ≡ convo_round_closed)
        (closes : (serve box cfg draws next).close_round round (with_round round full node, s)
          ≡ ((with_round round closed node', s'), ok tt)) where
      abbrev pub round_answers : List Bytes
      round_answers =
          answers box cfg closed (backward_nonce round) (draws.padding round) 0 (length onions)

      pub run-closed :
          run_convo_round (serve box cfg draws next) round onions (with_round round r node, s) ≡ (
            (record node' { convo_rounds = Rounds.delete round node'.convo_rounds }, s'),
            ok round_answers,
          )
      unfolding serve delete
      run-closed =
          let closes' : (serve box cfg draws next).close_round round
                (filling next draws node s (length onions))
              ≡ ((with_round round closed node', s'), ok tt) =
            rw (all_came next draws node s) closes in
          run_convo_round-whole (serve box cfg draws next) round onions round_answers
            (length-answers box cfg closed (backward_nonce round) (draws.padding round) 0
              (length onions))
            (filling next draws node s) (opening next draws node s new)
            (filling-add next draws node s) closes'
            (λ span h. rw (
              get-answers box cfg round closed node' (draws.padding round) is_closed span.start
                  span.count (λ j l. closed-CanReply j (omega arith)),
              slice-answers box cfg closed (backward_nonce round) (draws.padding round)
                  (length onions) span h,
            ))
            (rw (Rounds.delete-insert round closed node'.convo_rounds))

  -- A slot that the filter points at a reply of the right size is answered with that reply, sealed.
  module _ (closed : ConvoRound) (same_keys : closed.shared_keys ≡ full.shared_keys) where
    pub answers-sealed :
        (draws : Draws) (i v : ℕ) (onion reply key : Bytes)
        → get_elem? onions i ≡ some onion
        → key_slot box cfg onion ≡ some key
        → get_elem? closed.incoming_index i ≡ some (some v)
        → get_elem? closed.replies v ≡ some reply
        → length (box.seal reply (backward_nonce round) key) ≡ outgoing_onion_size box cfg
        → get_elem?
            (answers box cfg closed (backward_nonce round) (draws.padding round) 0 (length onions))
            i
          ≡ some (box.seal reply (backward_nonce round) key)
    answers-sealed draws i v onion reply key came keyed kept replied sized =
        let keyed' : get_elem? closed.shared_keys i ≡ some (some key) =
          rw (same_keys, full-slots.1)
            (get_elem?-map onions (key_slot box cfg) i came ∙ ap some keyed) in
        get_elem?-answers box cfg closed (backward_nonce round) (draws.padding round) 0
          (length onions) i (get_elem?-lt onions i came)
        ∙ rw (
          zero-add i,
          answer-replied box cfg closed (backward_nonce round) (draws.padding round) i v reply key
              kept replied keyed' sized,
        )
