-- ===== src/Examples/Loops.antt =====
-- A parallel loop over one index, at its end, and a read over the end of a buffer.
use vuvuzela.Prelude.{length, replicate, ℕ, ◌++◌, ◌≡◌, [], ◌∷◌, arith}
use vuvuzela.Bytes.{Bytes}
use vuvuzela.Salsa.{Salsa20Rand, read, upcoming, InBuffer, read-upcoming}
use vuvuzela.Parallel.{
  Loop, step_size, start_loop, next, Step, Steps, count, within, handed-exactly_once,
}

abbrev finished : Loop
finished = record {
  global = 20;
  workers = (record { current = 1; limit = 1 }) ∷ [];
  handed = 0 ∷ [];
}

one_index : Steps 1 (step_size 1 1) (start_loop 1) finished
unfolding step_size start_loop next
one_index =
    Steps.then_step
      (Steps.then_step (Steps.done (start_loop 1))
        (Step.call_next 0 [] [] (record { current = 0; limit = 0 }) []))
      (Step.call_next 10 [] [] (record { current = 1; limit = 1 }) (0 ∷ []))

handed-exactly_once_example : count 0 finished.handed ≡ within 0 0 1
handed-exactly_once_example =
    handed-exactly_once 1 1 0 finished one_index (omega arith, tt) (omega arith)

abbrev small_block : ℕ → Bytes
small_block i = replicate 4 i

abbrev half_read : Salsa20Rand
half_read = record { buffer = 9 ∷ 8 ∷ []; buffer_offset = 1; nonce = 3 }

read-upcoming_example :
    (m' : ℕ) × ((read small_block 6 6 half_read).0
        ++ upcoming small_block m' (read small_block 6 6 half_read).1
      ≡ upcoming small_block 6 half_read)
    × (length (read small_block 6 6 half_read).0 ≡ 6)
    × InBuffer small_block (read small_block 6 6 half_read).1
read-upcoming_example =
    read-upcoming small_block (λ _. omega arith) 6 6 6 half_read (omega arith) (omega arith)
      (omega arith)
