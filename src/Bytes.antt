-- ===== src/Bytes.antt =====
-- Byte strings, as lists of numbers, and the big-endian words of encoding/binary.
mod Words
pub mod Equality
use vuvuzela.Prelude.{
  length, replicate, take, ◌-◌, ◌++◌, ℕ, zero, suc, ◌+◌, ◌*◌, ◌/◌, ◌%◌, ◌<◌, ◌^◌, Bool, true, false,
  ◌&&◌, List, [], ◌∷◌, ◌==◌,
}
unfoldable pub use Words.*

abbrev pub Bytes : Type 0
Bytes = List ℕ

-- A stream of random bytes: the i-th byte that a read returns.
abbrev pub Random : Type 0
Random = ℕ → ℕ

-- `rand.Read` into a buffer of `n` bytes, which it fills.
unfoldable pub read_random : ℕ → Random → Bytes
read_random zero r = []
read_random (suc n) r = r 0 ∷ read_random n (λ i. r (suc i))

-- `copy` into a buffer of `n` zero bytes.
unfoldable pub copy_zeros : ℕ → Bytes → Bytes
copy_zeros n xs = take n xs ++ replicate (n - length xs) 0

-- `bytes.Equal`, and the comparison of array values.
unfoldable pub bytes_eq : Bytes → Bytes → Bool
bytes_eq [] [] = true
bytes_eq [] (y ∷ ys) = false
bytes_eq (x ∷ xs) [] = false
bytes_eq (x ∷ xs) (y ∷ ys) = x == y && bytes_eq xs ys
