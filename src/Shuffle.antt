-- ===== src/Shuffle.antt =====
-- shuffle.go: a random permutation as a list of swaps, its inverse, and the draw of a number below
-- a bound from a stream of random bytes.
pub mod Swap
pub mod Undo
pub mod Draw
pub mod Place
use vuvuzela.Prelude.{
  ℕ, zero, suc, ◌+◌, ◌-◌, ◌%◌, ◌^◌, List, [], ◌∷◌, Option, none, some, ltb, ◌==◌, length, get_elem?,
  if◌then◌else◌,
}
use vuvuzela.Run.{Run, ok, panic, blocked, ◌>>=◌, or_else}
use vuvuzela.Bytes.{Bytes, u32, be32}
use Swap.{swap}

-- `^uint32(0)`.
abbrev pub max_u32 : ℕ
max_u32 = 2 ^ 32 - 1

-- One round of the loop of Intn on the word `x`: the value that it returns, or `none` to go on.
unfoldable pub accept : ℕ → ℕ → Option ℕ
accept n x = if ltb x (max_u32 - max_u32 % n) then some (x % n) else none

-- The loop of Intn. Fewer than four bytes left: the read waits.
unfoldable pub draw : ℕ → Bytes → Run (ℕ × Bytes)
draw n (a ∷ b ∷ c ∷ d ∷ rest) = elim (accept n (be32 a b c d)) [
  | some v ↦ ok (v, rest)
  | none ↦ draw n rest
]
draw n _ = blocked

-- `max % uint32(n)` panics where `uint32(n)` is 0.
unfoldable pub intn : ℕ → Bytes → Run (ℕ × Bytes)
intn n source = if u32 n == 0 then panic else draw (u32 n) source

-- A `Shuffler`.
abbrev pub Shuffler : Type 0
Shuffler = List ℕ

-- The loop of NewShuffler from `i`, with the rounds left.
unfoldable pub draw_swaps : ℕ → ℕ → Bytes → Run (Shuffler × Bytes)
draw_swaps zero i source = ok ([], source)
draw_swaps (suc k) i source = do
  (j, source') ← intn (i + 1) source
  (js, source'') ← draw_swaps k (i + 1) source'
  ok (j ∷ js, source'')

unfoldable pub new_shuffler : Bytes → ℕ → Run (Shuffler × Bytes)
unfolding draw_swaps
new_shuffler source n = draw_swaps n 0 source

module _ {ℓ} {A : Type ℓ} where
  -- One round of either loop: `j := s[i]; x[i], x[j] = x[j], x[i]`.
  unfoldable pub swap_round : Shuffler → ℕ → List A → Run (List A)
  swap_round s i x = or_else (get_elem? s i) panic >>= swap x i

  unfoldable pub shuffle_from : Shuffler → ℕ → ℕ → List A → Run (List A)
  shuffle_from s zero i x = ok x
  shuffle_from s (suc k) i x = swap_round s i x >>= shuffle_from s k (i + 1)

  unfoldable pub shuffle : Shuffler → List A → Run (List A)
  unfolding shuffle_from swap_round
  shuffle s x = shuffle_from s (length x) 0 x

  -- `i` runs down from `k - 1`.
  unfoldable pub unshuffle_from : Shuffler → ℕ → List A → Run (List A)
  unshuffle_from s zero x = ok x
  unshuffle_from s (suc i) x = swap_round s i x >>= unshuffle_from s i

  unfoldable pub unshuffle : Shuffler → List A → Run (List A)
  unfolding unshuffle_from swap_round
  unshuffle s x = unshuffle_from s (length x) x
