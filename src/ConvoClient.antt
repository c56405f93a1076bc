-- ===== src/ConvoClient.antt =====
-- NewConvoRound and RunConvoRound of convo.go: a batch of onions is taken through a round of the
-- next server, in spans of 4000.
pub mod Assemble
use vuvuzela.Prelude.{ℕ, zero, suc, ◌+◌, ◌-◌, List, [], ◌∷◌, ◌++◌, length, take, drop, replicate}
use vuvuzela.Run.{Run, ok, open_call, add_call, close_call, get_call, delete_call}
use vuvuzela.Bytes.{Bytes}
use vuvuzela.Spans.{Span, spans}
use vuvuzela.Spans.Cover.{slice}
use vuvuzela.Rpc.{Call, pure, ◌>>=◌, ◌>>◌, call, call_many, wrapping}

-- The methods of a ConvoService as its client sees them, on that server's state: `add` takes the
-- offset and the onions, `get` the offset and the count.
pub record ConvoNext (S : Type 0) : Type 0 where
  pub new_round : ℕ → Call S (Unit {0})
  pub open_round : ℕ → ℕ → Call S (Unit {0})
  pub add : ℕ → ℕ → List Bytes → Call S (Unit {0})
  pub close_round : ℕ → Call S (Unit {0})
  pub get : ℕ → ℕ → ℕ → Call S (List Bytes)
  pub delete : ℕ → Call S (Unit {0})

abbrev pub span_size : ℕ
span_size = 4000

-- `copy(dst, src)` on a destination of its own.
abbrev pub copy_into : List Bytes → List Bytes → List Bytes
copy_into dst src = take (length dst) src ++ drop (length src) dst

-- `copy(replies[span.Start : span.Start+span.Count], onions)`.
unfoldable pub splice : List Bytes → Span → List Bytes → List Bytes
splice replies s onions =
    take s.start replies
    ++ (copy_into (take s.count (drop s.start replies)) onions ++ drop (s.start + s.count) replies)

-- The results of the Get calls, each written to its span.
unfoldable pub collect : List Bytes → List Span → List (List Bytes) → List Bytes
unfolding splice
collect replies (s ∷ ss) (onions ∷ rest) = collect (splice replies s onions) ss rest
collect replies _ _ = replies

module _ {S : Type 0} (next : ConvoNext S) where
  unfoldable pub new_convo_round : ℕ → Call S (Unit {0})
  new_convo_round round = call (next.new_round round)

  unfoldable pub run_convo_round : ℕ → List Bytes → Call S (List Bytes)
  run_convo_round round onions = do
    let batches = spans (length onions) span_size
    wrapping open_call (call (next.open_round round (length onions)))
    _ ←
        wrapping add_call
          (call_many (λ span. next.add round span.start (slice onions span)) batches)
    wrapping close_call (call (next.close_round round))
    results ← wrapping get_call (call_many (λ span. next.get round span.start span.count) batches)
    wrapping delete_call (call (next.delete round))
    pure (collect (replicate (length onions) []) batches results)
