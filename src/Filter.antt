-- ===== src/Filter.antt =====
-- filterIncoming of convo.go and dial.go: duplicates are told by their last eight bytes.
pub mod First
use vuvuzela.Prelude.{
  ℕ, zero, suc, ◌+◌, ◌-◌, ◌*◌, Bool, true, false, ◌||◌, List, [], ◌∷◌, Option, none, some, ltb,
  ◌==◌, length, drop, if◌then◌else◌,
}
use vuvuzela.Run.{Run, ok, panic, ◌>>=◌}
use vuvuzela.Bytes.{Bytes}

-- `binary.BigEndian.Uint64` of eight bytes.
unfoldable pub be_word : ℕ → Bytes → ℕ
be_word acc [] = acc
be_word acc (b ∷ bs) = be_word (acc * 256 + b) bs

-- `binary.BigEndian.Uint64(msg[len(msg)-8:])`: a shorter message panics.
unfoldable pub msg_key : Bytes → Run ℕ
unfolding be_word
msg_key msg = if ltb (length msg) 8 then panic else ok (be_word 0 (drop (length msg - 8) msg))

-- The map `seen`, as the list of its keys.
unfoldable pub contains : ℕ → List ℕ → Bool
contains k [] = false
contains k (j ∷ js) = k == j || contains k js

-- The loop of the conversation service from a state with `v` messages kept: the messages that it
-- keeps, and the index of each slot (`none` for -1).
unfoldable pub filter_from : List ℕ → ℕ → List (Option Bytes) → Run (List Bytes × List (Option ℕ))
filter_from seen v [] = ok ([], [])
filter_from seen v (none ∷ rest) = do
  (valid, index) ← filter_from seen v rest
  ok (valid, none ∷ index)
filter_from seen v (some msg ∷ rest) = msg_key msg >>= λ key. elim (contains key seen) [
  | true ↦ filter_from seen v rest >>= λ (valid, index). ok (valid, none ∷ index)
  | false ↦
      filter_from (key ∷ seen) (suc v) rest >>= λ (valid, index). ok (msg ∷ valid, some v ∷ index)
]

unfoldable pub filter_incoming : List (Option Bytes) → Run (List Bytes × List (Option ℕ))
unfolding filter_from
filter_incoming incoming = filter_from [] 0 incoming

-- The loop of the dialing service, which keeps no index and has no empty slots.
unfoldable pub filter_dial_from : List ℕ → List Bytes → Run (List Bytes)
filter_dial_from seen [] = ok []
filter_dial_from seen (msg ∷ rest) = msg_key msg >>= λ key. elim (contains key seen) [
  | true ↦ filter_dial_from seen rest
  | false ↦ filter_dial_from (key ∷ seen) rest >>= λ valid. ok (msg ∷ valid)
]

unfoldable pub filter_dial_incoming : List Bytes → Run (List Bytes)
unfolding filter_dial_from
filter_dial_incoming incoming = filter_dial_from [] incoming
