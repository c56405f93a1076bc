-- ===== src/DialClient.antt =====
-- NewDialRound and RunDialRound of dial.go: a batch of onions is taken through a round of the next
-- server, in spans of 4000.
use vuvuzela.Prelude.{ℕ, List, length}
use vuvuzela.Run.{add_call, close_call}
use vuvuzela.Bytes.{Bytes}
use vuvuzela.Spans.{spans}
use vuvuzela.Spans.Cover.{slice}
use vuvuzela.Rpc.{Call, ◌>>=◌, call, call_many, wrapping}
use vuvuzela.ConvoClient.{span_size}

-- The methods of a DialService that the server before it calls, on that server's state.
pub record DialNext (S : Type 0) : Type 0 where
  pub new_round : ℕ → Call S (Unit {0})
  pub add : ℕ → List Bytes → Call S (Unit {0})
  pub close_round : ℕ → Call S (Unit {0})

module _ {S : Type 0} (next : DialNext S) where
  unfoldable pub new_dial_round : ℕ → Call S (Unit {0})
  new_dial_round round = call (next.new_round round)

  unfoldable pub run_dial_round : ℕ → List Bytes → Call S (Unit {0})
  run_dial_round round onions = do
    _ ←
        wrapping add_call
          (call_many (λ span. next.add round (slice onions span)) (spans (length onions) span_size))
    wrapping close_call (call (next.close_round round))
