-- ===== src/Bytes/Words.antt =====
-- Big-endian words: `binary.BigEndian.PutUint32` and `Uint32`, `Uint64`.
use vuvuzela.Prelude.{ℕ, ◌+◌, ◌*◌, ◌/◌, ◌%◌, ◌^◌, List, [], ◌∷◌}

abbrev pub u32_mod : ℕ
u32_mod = 2 ^ 32

-- `uint32(x)`.
abbrev pub u32 : ℕ → ℕ
u32 x = x % u32_mod

unfoldable pub be32 : ℕ → ℕ → ℕ → ℕ → ℕ
be32 a b c d = ((a * 256 + b) * 256 + c) * 256 + d

unfoldable pub put_be32 : ℕ → List ℕ
put_be32 x = x / 2 ^ 24 % 256 ∷ x / 2 ^ 16 % 256 ∷ x / 2 ^ 8 % 256 ∷ x % 256 ∷ []
