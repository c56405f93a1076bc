-- ===== src/ConvoClient/Assemble.antt =====
-- RunConvoRound of convo.go, on a server of which each call is known.
use vuvuzela.Run.{ok, err, panic, close_call, remote}
use vuvuzela.Prelude.{
  length-replicate, replicate, ap, sym, length-drop, length-take, ◌∙◌, drop, take, length, map,
  List, ℕ, arith, [], ◌≤◌, ◌+◌, ◌≡◌, ◌++◌, ◌∷◌,
}
use mathlib.Core.List.{append_assoc, append-nil}
use mathlib.Core.Path.{subst}
use vuvuzela.Bytes.{Bytes}
use vuvuzela.Spans.{Span, spans}
use vuvuzela.Spans.Cover.{
  drop-all, drop-drop, slice, IsTiling, IsTiling-le, take-take-drop, take_all, spans-IsTiling,
}
use vuvuzela.Wire.RoundTrip.{take-append, drop-append}
use vuvuzela.Rpc.{Call, call_many}
use vuvuzela.ConvoClient.{ConvoNext, span_size, splice, collect, run_convo_round}

module _ {S A : Type 0} (f : Span → Call S A) (state : ℕ → S) (value : Span → A) (size total : ℕ)
    (step : (s : Span)
      → s.start + s.count ≤ total
      → f s (state s.start) ≡ (state (s.start + s.count), ok (value s))) where
  -- Calls for spans that lie end to end take the server from each state to the next.
  pub call_many-tiling :
      (i : ℕ) (ss : List Span)
      → IsTiling size total i ss
      → call_many f ss (state i) ≡ (state total, ok (map value ss))
  unfolding call_many
  call_many-tiling i [] t = rw t
  call_many-tiling i (s ∷ ss) (at, _, _, t) =
      let fits : s.start + s.count ≤ total =
        omega (arith, IsTiling-le size total (i + s.count) ss t) in
      let t' = rw (← at) at t in
      rw (← at) (rw (step s fits, call_many, call_many-tiling (s.start + s.count) ss t'))

module _ (whole : List Bytes) where
  splice-slice :
      (s : Span) (rest : List Bytes)
      → s.start + s.count ≤ length whole
      → length rest + s.start ≡ length whole
      → splice (take s.start whole ++ rest) s (slice whole s)
        ≡ take (s.start + s.count) whole ++ drop s.count rest
  unfolding splice
  splice-slice s rest fits size =
      let front = take s.start whole in
      let part = slice whole s in
      let front_size : length front ≡ s.start = omega (arith, length-take s.start whole) in
      let part_size : length part ≡ s.count =
        omega (arith, length-take s.count (drop s.start whole), length-drop s.start whole) in
      let room : length (take s.count rest) ≡ s.count = omega (arith, length-take s.count rest) in
      let kept : take s.start (front ++ rest) ≡ front = take-append s.start front rest front_size in
      let behind : drop s.start (front ++ rest) ≡ rest =
        drop-append s.start front rest front_size in
      let far : drop (s.start + s.count) (front ++ rest) ≡ drop s.count rest =
        sym (drop-drop s.start s.count (front ++ rest)) ∙ ap (drop s.count) behind in
      rw (
        kept,
        behind,
        far,
        room,
        part_size,
        take_all s.count part (omega arith),
        drop-all s.count (take s.count rest) (omega arith),
        append-nil part,
        ← append_assoc,
        take-take-drop s.start s.count whole,
      )

  collect-slices :
      (size i : ℕ) (ss : List Span) (rest : List Bytes)
      → IsTiling size (length whole) i ss
      → length rest + i ≡ length whole
      → collect (take i whole ++ rest) ss (map (slice whole) ss) ≡ whole
  unfolding collect
  collect-slices size i [] [] t l = rw append-nil (take_all i whole (omega arith))
  collect-slices size i [] (x ∷ rest) t l = absurd (omega arith)
  collect-slices size i (s ∷ ss) rest (at, _, _, t) l =
      let t' = rw (← at) at t in
      let l' = rw (← at) at l in
      let fits : s.start + s.count ≤ length whole =
        omega (arith, IsTiling-le size (length whole) (s.start + s.count) ss t') in
      rw (← at) (
        rw (splice-slice s rest fits l') (
          collect-slices size (s.start + s.count) ss (drop s.count rest) t'
            (omega (arith, length-drop s.count rest))))

module _ {S : Type 0} (next : ConvoNext S) (round : ℕ) (onions whole : List Bytes)
    (size : length whole ≡ length onions) {s0 s1 s2 : S} (state : ℕ → S)
    (opens : next.open_round round (length onions) s0 ≡ (state 0, ok tt))
    (adds : (s : Span)
      → s.start + s.count ≤ length onions
      → next.add round s.start (slice onions s) (state s.start)
        ≡ (state (s.start + s.count), ok tt))
    (closes : next.close_round round (state (length onions)) ≡ (s1, ok tt))
    (gets : (s : Span)
      → s.start + s.count ≤ length onions
      → next.get round s.start s.count s1 ≡ (s1, ok (slice whole s)))
    (deletes : next.delete round s1 ≡ (s2, ok tt)) where
  -- A server that answers each call of the round answers RunConvoRound with all its replies in order.
  pub run_convo_round-whole : run_convo_round next round onions s0 ≡ (s2, ok whole)
  unfolding run_convo_round
  run_convo_round-whole =
      let tiled = spans-IsTiling (length onions) span_size (omega arith) in
      let added =
        call_many-tiling (λ span. next.add round span.start (slice onions span)) state (λ _. tt)
          span_size (length onions) adds 0 (spans (length onions) span_size) tiled in
      let got =
        call_many-tiling (λ span. next.get round span.start span.count) (λ _. s1) (slice whole)
          span_size (length onions) gets 0 (spans (length onions) span_size) tiled in
      let covered =
        subst (λ k. IsTiling span_size k 0 (spans (length onions) span_size)) (sym size) tiled in
      rw (opens, added, closes, got, deletes)
        (ap (λ replies. (s2, ok replies))
          (collect-slices whole span_size 0 (spans (length onions) span_size)
            (replicate (length onions) []) covered
            (omega (arith, length-replicate {0} {A = Bytes} (length onions) []))))

module _ {S : Type 0} (next : ConvoNext S) (round : ℕ) (onions : List Bytes) {s0 s1 : S}
    (state : ℕ → S) (opens : next.open_round round (length onions) s0 ≡ (state 0, ok tt))
    (adds : (s : Span)
      → s.start + s.count ≤ length onions
      → next.add round s.start (slice onions s) (state s.start)
        ≡ (state (s.start + s.count), ok tt))
    (closes : next.close_round round (state (length onions)) ≡ (s1, panic)) where
  pub run_convo_round-panics : run_convo_round next round onions s0 ≡ (s1, err (close_call remote))
  unfolding run_convo_round
  run_convo_round-panics =
      let added =
        call_many-tiling (λ span. next.add round span.start (slice onions span)) state (λ _. tt)
          span_size (length onions) adds 0 (spans (length onions) span_size)
          (spans-IsTiling (length onions) span_size (omega arith)) in
      rw (opens, added, closes)
