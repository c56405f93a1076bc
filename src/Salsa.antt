-- ===== src/Salsa.antt =====
-- rand/salsa20rand.go: Salsa20Rand, a buffer over a stream of blocks. `block i` is what salsa20 makes
-- of the zeroes under the key of the reader and the nonce `i`.
use mathlib.Core.List.{append_assoc}
use vuvuzela.Prelude.{
  ℕ, zero, suc, ◌+◌, ◌-◌, ◌%◌, ◌^◌, ◌≤◌, ◌<◌, ◌≡◌, refl, ap, sym, ◌∙◌, List, [], ◌∷◌, ◌++◌, ◌==◌,
  length, length-append, length-take, length-drop, take, drop, min, arith, if◌then◌else◌, inl, inr,
  Bool-cases,
}
use vuvuzela.Bytes.{Bytes}
use vuvuzela.Spans.Cover.{drop-drop, drop-all}

pub record Salsa20Rand : Type 0 where
  pub buffer : Bytes
  pub buffer_offset : ℕ
  pub nonce : ℕ

abbrev next_nonce : ℕ → ℕ
next_nonce i = (i + 1) % 2 ^ 64

module _ (block : ℕ → Bytes) where
  unfoldable pub fill : Salsa20Rand → Salsa20Rand
  fill sr = record { buffer = block sr.nonce; buffer_offset = 0; nonce = next_nonce sr.nonce }

  -- The test at the top of Read's loop.
  unfoldable pub refill : Salsa20Rand → Salsa20Rand
  unfolding fill
  refill sr = if sr.buffer_offset == length sr.buffer then fill sr else sr

  -- Read's loop for `k` bytes, with `fuel` rounds: each copies a byte at least, so `k` are enough.
  unfoldable pub read : ℕ → ℕ → Salsa20Rand → Bytes × Salsa20Rand
  unfolding refill
  read fuel zero sr = ([], sr)
  read zero (suc k) sr = ([], sr)
  read (suc fuel) (suc k) sr =
      let full = refill sr in
      let chunk = take (suc k) (drop full.buffer_offset full.buffer) in
      let (rest, sr') =
        read fuel (suc k - length chunk)
          (record full { buffer_offset = full.buffer_offset + length chunk }) in
      (chunk ++ rest, sr')

  -- The next `m` blocks from a nonce on, and the bytes that a reader will return.
  abbrev pub blocks : ℕ → ℕ → Bytes
  blocks i zero = []
  blocks i (suc m) = block i ++ blocks (next_nonce i) m

  abbrev pub upcoming : ℕ → Salsa20Rand → Bytes
  upcoming m sr = drop sr.buffer_offset sr.buffer ++ blocks sr.nonce m

  abbrev pub InBuffer : Salsa20Rand → Type 0
  InBuffer sr = sr.buffer_offset ≤ length sr.buffer

take-append-drop-length {ℓ} :
    {A : Type ℓ} (k : ℕ) (xs : List A) → take k xs ++ drop (length (take k xs)) xs ≡ xs
take-append-drop-length zero xs = refl
take-append-drop-length (suc k) [] = refl
take-append-drop-length (suc k) (x ∷ xs) = ap (◌∷◌ x) (take-append-drop-length k xs)

module _ (block : ℕ → Bytes) (positive : (i : ℕ) → 0 < length (block i)) where
  refill-upcoming :
      (m : ℕ) (sr : Salsa20Rand)
      → InBuffer block sr
      → (m' : ℕ) × (m ≤ m')
        × (upcoming block m' (refill block sr) ≡ upcoming block (suc m) sr)
        × ((refill block sr).buffer_offset < length (refill block sr).buffer)
  unfolding refill fill
  refill-upcoming m sr h = elim (Bool-cases (sr.buffer_offset == length sr.buffer)) [
    | inl empty ↦
        let e : length sr.buffer ≤ sr.buffer_offset = ground arith in
        (
          m,
          omega arith,
          rw (refill, empty, drop-all sr.buffer_offset sr.buffer e),
          rw (refill, empty) (positive sr.nonce),
        )
    | inr some_left ↦
        let e : sr.buffer_offset < length sr.buffer = ground arith in
        (suc m, omega arith, rw (refill, some_left), rw (refill, some_left) e)
  ]

  -- What was copied from the buffer stands in front of what is left of it.
  upcoming-chunk :
      (k m : ℕ) (sr : Salsa20Rand)
      → let chunk = take k (drop sr.buffer_offset sr.buffer) in
        chunk ++ upcoming block m (record sr { buffer_offset = sr.buffer_offset + length chunk })
        ≡ upcoming block m sr
  upcoming-chunk k m sr =
      let left = drop sr.buffer_offset sr.buffer in
      let chunk = take k left in
      sym (
        append_assoc chunk (drop (sr.buffer_offset + length chunk) sr.buffer)
          (blocks block sr.nonce m))
      ∙ ap (λ (bs : Bytes). bs ++ blocks block sr.nonce m)
          (ap (λ (bs : Bytes). chunk ++ bs)
              (sym (drop-drop sr.buffer_offset (length chunk) sr.buffer))
            ∙ take-append-drop-length k left)

  -- No block is empty, and the offset is in the buffer. A read of `k` bytes, in as many rounds as that
  -- or more, returns `k` bytes. What it returned and what is to come after it are together what was
  -- to come before, of which so many blocks at least are looked at: no byte of the stream is skipped,
  -- and none is returned twice. The offset is in the buffer again.
  pub read-upcoming :
      (fuel k m : ℕ) (sr : Salsa20Rand)
      → k ≤ fuel
      → fuel ≤ m
      → InBuffer block sr
      → (m' : ℕ) × ((read block fuel k sr).0 ++ upcoming block m' (read block fuel k sr).1
          ≡ upcoming block m sr)
        × (length (read block fuel k sr).0 ≡ k)
        × InBuffer block (read block fuel k sr).1
  unfolding read
  read-upcoming fuel zero m sr a b h = (m, refl, refl, h)
  read-upcoming zero (suc k) m sr a b h = absurd (omega arith)
  read-upcoming (suc fuel) (suc k) zero sr a b h = absurd (omega arith)
  read-upcoming (suc fuel) (suc k) (suc m) sr a b h =
      let full = refill block sr in
      let (m', le, same, room) = refill-upcoming m sr h in
      let left = drop full.buffer_offset full.buffer in
      let chunk = take (suc k) left in
      let size : length chunk ≡ min (suc k) (length full.buffer - full.buffer_offset) =
        omega (arith, length-take (suc k) left, length-drop full.buffer_offset full.buffer) in
      let now = record full { buffer_offset = full.buffer_offset + length chunk } in
      let (last, e, l, inside) =
        read-upcoming fuel (suc k - length chunk) m' now (omega arith) (omega arith)
          (omega arith) in
      let (rest, after) = read block fuel (suc k - length chunk) now in
      (
        last,
        append_assoc chunk rest (upcoming block last after)
            ∙ ap (λ (bs : Bytes). chunk ++ bs) e
            ∙ upcoming-chunk (suc k) m' full
            ∙ same,
        omega (arith, length-append chunk rest, l, size),
        inside,
      )
