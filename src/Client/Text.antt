-- ===== src/Client/Text.antt =====
-- Text that the user types: `strings.TrimSpace` and the bytes of a Go string. Text is its characters'
-- code points; its bytes are their UTF-8.
use Prim.Native.Char.{code}
use Prim.Native.String.{String}
use vuvuzela.Prelude.{
  ℕ, ◌+◌, ◌/◌, ◌%◌, Bool, ◌||◌, ◌&&◌, List, [], ◌∷◌, ◌++◌, ltb, leb, ◌==◌, if◌then◌else◌,
}
use vuvuzela.Bytes.{Bytes}

abbrev pub points : String → List ℕ
points String.[] = []
points (String.◌∷◌ c s) = code c ∷ points s

-- `unicode.IsSpace`.
unfoldable pub is_space : ℕ → Bool
is_space c =
    (leb 9 c && leb c 13)
    || c == 32
    || c == 133
    || c == 160
    || c == 5760
    || (leb 8192 c && leb c 8202)
    || c == 8232
    || c == 8233
    || c == 8239
    || c == 8287
    || c == 12288

unfoldable pub trim_left_space : List ℕ → List ℕ
trim_left_space [] = []
trim_left_space (c ∷ cs) = if is_space c then trim_left_space cs else c ∷ cs

unfoldable pub trim_right_space : List ℕ → List ℕ
trim_right_space [] = []
trim_right_space (c ∷ cs) = elim (trim_right_space cs) [
  | [] ↦ if is_space c then [] else c ∷ []
  | d ∷ ds ↦ c ∷ d ∷ ds
]

-- `strings.TrimSpace`.
unfoldable pub trim_space : List ℕ → List ℕ
unfolding trim_left_space trim_right_space is_space
trim_space cs = trim_right_space (trim_left_space cs)

unfoldable pub utf8 : ℕ → Bytes
utf8 c =
    if ltb c 128
    then c ∷ []
    else if ltb c 2048
    then (192 + c / 64) ∷ (128 + c % 64) ∷ []
    else if ltb c 65536
    then (224 + c / 4096) ∷ (128 + c / 64 % 64) ∷ (128 + c % 64) ∷ []
    else (240 + c / 262144) ∷ (128 + c / 4096 % 64) ∷ (128 + c / 64 % 64) ∷ (128 + c % 64) ∷ []

-- `[]byte(s)`.
unfoldable pub utf8_bytes : List ℕ → Bytes
unfolding utf8
utf8_bytes [] = []
utf8_bytes (c ∷ cs) = utf8 c ++ utf8_bytes cs
