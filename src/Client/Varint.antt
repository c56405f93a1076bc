-- ===== src/Client/Varint.antt =====
-- encoding/binary: signed numbers as PutVarint writes and Varint reads them.
use vuvuzela.Prelude.{
  ap, length, ◌∙◌, ◌≤◌, ℕ, zero, suc, ◌+◌, ◌*◌, ◌/◌, ◌%◌, ◌^◌, ◌<◌, ◌≡◌, true, false, ◌&&◌, [], ◌∷◌,
  ◌++◌, Option, none, some, ltb, ◌==◌, if◌then◌else◌, arith, Bool-cases, inl, inr,
}
use vuvuzela.Bytes.{Bytes}

-- `negsuc n` is `-(n + 1)`.
pub data ℤ : Type 0 where
  pos negsuc : ℕ → ℤ

-- The numbers of an int64.
abbrev pub IsInt64 : ℤ → Type 0
IsInt64 (pos n) = n < 2 ^ 63
IsInt64 (negsuc n) = n < 2 ^ 63

-- `uint64(x) << 1`, inverted for a negative number.
unfoldable pub zigzag : ℤ → ℕ
zigzag (pos n) = 2 * n
zigzag (negsuc n) = 2 * n + 1

unfoldable pub unzigzag : ℕ → ℤ
unzigzag u = if u % 2 == 0 then pos (u / 2) else negsuc (u / 2)

-- PutUvarint of a number below 2^64 takes ten bytes at most: `k` is how many are left.
unfoldable pub put_uvarint : ℕ → ℕ → Bytes
put_uvarint zero x = []
put_uvarint (suc k) x =
    let rest = put_uvarint k (x / 128) in if ltb x 128 then x ∷ [] else (x % 128 + 128) ∷ rest

-- Uvarint: `none` where it returns 0 and a count that is not positive.
unfoldable pub uvarint : ℕ → Bytes → Option ℕ
uvarint zero bs = none
uvarint (suc k) [] = none
uvarint (suc k) (b ∷ bs) =
    let rest = uvarint k bs in
    if ltb b 128
    then (if k == 0 && ltb 1 b then none else some b)
    else (elim rest [ none ↦ none | some x ↦ some (b % 128 + 128 * x) ])

unfoldable pub put_varint : ℤ → Bytes
unfolding put_uvarint zigzag
put_varint x = put_uvarint 10 (zigzag x)

unfoldable pub varint : Bytes → ℤ
unfolding uvarint unzigzag
varint bs = elim (uvarint 10 bs) [ none ↦ pos 0 | some u ↦ unzigzag u ]

put_uvarint_last : (k x : ℕ) → x < 128 → put_uvarint (suc k) x ≡ x ∷ []
unfolding put_uvarint
put_uvarint_last k x h = let small : ltb x 128 ≡ true = ground arith in rw small

put_uvarint_more :
    (k x : ℕ) → 128 ≤ x → put_uvarint (suc k) x ≡ (x % 128 + 128) ∷ put_uvarint k (x / 128)
unfolding put_uvarint
put_uvarint_more k x h = let large : ltb x 128 ≡ false = ground arith in rw large

uvarint_last :
    (k x : ℕ) (rest : Bytes) → x < 128 → x < 2 * 128 ^ k → uvarint (suc k) (x ∷ rest) ≡ some x
unfolding uvarint
uvarint_last zero x rest h l =
    let small : ltb x 128 ≡ true = ground arith in
    let one : ltb 1 x ≡ false = ground arith in rw (small, one)
uvarint_last (suc k) x rest h l =
    let small : ltb x 128 ≡ true = ground arith in
    let more : (suc k == 0) ≡ false = ground arith in rw (small, more)

uvarint_more :
    (k b y : ℕ) (rest : Bytes)
    → 128 ≤ b
    → uvarint k rest ≡ some y
    → uvarint (suc k) (b ∷ rest) ≡ some (b % 128 + 128 * y)
unfolding uvarint
uvarint_more k b y rest h e = let large : ltb b 128 ≡ false = ground arith in rw (large, e)

uvarint-put_uvarint :
    (k x : ℕ) (rest : Bytes)
    → x < 2 * 128 ^ k
    → uvarint (suc k) (put_uvarint (suc k) x ++ rest) ≡ some x
uvarint-put_uvarint zero x rest h =
    rw (put_uvarint_last 0 x (omega arith)) (uvarint_last 0 x rest (omega arith) h)
uvarint-put_uvarint (suc k) x rest h =
    let lower : x / 128 < 2 * 128 ^ k = omega arith in
    let ih = uvarint-put_uvarint k (x / 128) rest lower in
    elim (Bool-cases (ltb x 128)) [
      | inl small ↦
          let l : x < 128 = ground arith in
          rw (put_uvarint_last (suc k) x l) (uvarint_last (suc k) x rest l h)
      | inr large ↦
          let l : 128 ≤ x = ground arith in
          let whole : (x % 128 + 128) % 128 + 128 * (x / 128) ≡ x = omega arith in
          rw (put_uvarint_more (suc k) x l)
            (uvarint_more (suc k) (x % 128 + 128) (x / 128) _ (omega arith) ih ∙ ap some whole)
    ]

unzigzag-zigzag : (x : ℤ) → unzigzag (zigzag x) ≡ x
unfolding zigzag unzigzag
unzigzag-zigzag (pos n) =
    let even : (2 * n % 2 == 0) ≡ true = ground arith in
    let half : 2 * n / 2 ≡ n = omega arith in rw (even, half)
unzigzag-zigzag (negsuc n) =
    let odd : ((2 * n + 1) % 2 == 0) ≡ false = ground arith in
    let half : (2 * n + 1) / 2 ≡ n = omega arith in rw (odd, half)

zigzag-lt : (x : ℤ) → IsInt64 x → zigzag x < 2 * 128 ^ 9
unfolding zigzag
zigzag-lt (pos n) h = omega arith
zigzag-lt (negsuc n) h = omega arith

-- What PutVarint writes for an int64, Varint reads back, whatever follows it.
pub varint-put_varint : (x : ℤ) (rest : Bytes) → IsInt64 x → varint (put_varint x ++ rest) ≡ x
unfolding varint put_varint
varint-put_varint x rest h =
    rw (varint, put_varint, uvarint-put_uvarint 9 (zigzag x) rest (zigzag-lt x h))
      (unzigzag-zigzag x)

length-put_uvarint : (k x : ℕ) → length (put_uvarint k x) ≤ k
unfolding put_uvarint
length-put_uvarint zero x = omega arith
length-put_uvarint (suc k) x = ground (arith, length-put_uvarint k (x / 128))

pub length-put_varint : (x : ℤ) → length (put_varint x) ≤ 10
unfolding put_varint
length-put_varint x = length-put_uvarint 10 (zigzag x)
