-- ===== src/Spans/Cover.antt =====
-- internal/span.go: the part of a list that a span covers.
use vuvuzela.Prelude.{
  ap, ℕ, zero, suc, ◌+◌, ◌≤◌, ◌<◌, ◌≡◌, refl, sym, List, [], ◌∷◌, ◌++◌, arith, ltb, length, take,
  drop, take-append-drop, Bool-cases, inl, inr,
}
use native.Mathlib.Nat.{zero-add, suc-add}
use vuvuzela.Spans.{Span, spans_from, spans, span_count}

-- `onions[span.Start : span.Start+span.Count]`
abbrev pub slice {ℓ} : {A : Type ℓ} → List A → Span → List A
slice xs s = take s.count (drop s.start xs)

abbrev pub slices {ℓ} : {A : Type ℓ} → List A → List Span → List A
slices xs [] = []
slices xs (s ∷ ss) = slice xs s ++ slices xs ss

module _ {ℓ} {A : Type ℓ} where
  pub drop-drop : (m n : ℕ) (xs : List A) → drop n (drop m xs) ≡ drop (m + n) xs
  drop-drop zero n xs = rw (zero-add)
  drop-drop (suc m) zero [] = rw (suc-add)
  drop-drop (suc m) (suc n) [] = rw (suc-add)
  drop-drop (suc m) n (x ∷ xs) = rw (suc-add) (drop-drop m n xs)

  pub drop-all : (n : ℕ) (xs : List A) → length xs ≤ n → drop n xs ≡ []
  drop-all zero [] h = refl
  drop-all zero (x ∷ xs) h = absurd (omega arith)
  drop-all (suc n) [] h = refl
  drop-all (suc n) (x ∷ xs) h = drop-all n xs (omega arith)

  slice-append-drop :
      (xs : List A) (i c : ℕ)
      → slice xs (record { start = i; count = c }) ++ drop (i + c) xs ≡ drop i xs
  slice-append-drop xs i c = rw (← drop-drop i c xs) (take-append-drop c (drop i xs))

  slices-spans_from :
      (fuel size i : ℕ) (xs : List A)
      → 0 < size
      → length xs ≤ fuel + i
      → slices xs (spans_from fuel (length xs) size i) ≡ drop i xs
  unfolding spans_from
  slices-spans_from zero size i xs p h = sym (drop-all i xs (omega arith))
  slices-spans_from (suc fuel) size i xs p h = elim (Bool-cases (ltb i (length xs))) [
    | inr e ↦ rw e (sym (drop-all i xs (ground arith)))
    | inl e ↦
        let c = span_count (length xs) size i in
        rw (e, slices-spans_from fuel size (i + c) xs p (ground arith)) (slice-append-drop xs i c)
  ]

  -- For a positive batch size, the batches of a list, put together in order, are the list.
  pub slices-spans : (size : ℕ) (xs : List A) → 0 < size → slices xs (spans (length xs) size) ≡ xs
  unfolding spans
  slices-spans size xs p = slices-spans_from (length xs) size 0 xs p (omega arith)

-- The spans lie end to end from `i` to `total`, each of between 1 and `size` entries.
abbrev pub IsTiling : ℕ → ℕ → ℕ → List Span → Type 0
IsTiling size total i [] = total ≡ i
IsTiling size total i (s ∷ ss) =
    (s.start ≡ i) × (0 < s.count) × (s.count ≤ size) × IsTiling size total (i + s.count) ss

spans_from-IsTiling :
    (fuel total size i : ℕ)
    → 0 < size
    → i ≤ total
    → total ≤ fuel + i
    → IsTiling size total i (spans_from fuel total size i)
unfolding spans_from
spans_from-IsTiling zero total size i p q h = omega arith
spans_from-IsTiling (suc fuel) total size i p q h = elim (Bool-cases (ltb i total)) [
  | inr e ↦ rw e (ground arith)
  | inl e ↦ rw e (
    refl,
    ground arith,
    ground arith,
    spans_from-IsTiling fuel total size (i + span_count total size i) p (ground arith)
        (ground arith),
  )
]

-- For a positive batch size the spans tile `0 .. total` with no gap and no overlap, and none is
-- empty or longer than the batch size.
pub spans-IsTiling : (total size : ℕ) → 0 < size → IsTiling size total 0 (spans total size)
unfolding spans
spans-IsTiling total size p = spans_from-IsTiling total total size 0 p (omega arith) (omega arith)

module _ {ℓ} {A : Type ℓ} where
  pub take-take-drop : (i c : ℕ) (xs : List A) → take i xs ++ take c (drop i xs) ≡ take (i + c) xs
  take-take-drop zero c xs = rw zero-add
  take-take-drop (suc i) zero [] = rw suc-add
  take-take-drop (suc i) (suc c) [] = rw suc-add
  take-take-drop (suc i) c (x ∷ xs) = rw suc-add (ap (◌∷◌ x) (take-take-drop i c xs))

  pub take_all : (n : ℕ) (xs : List A) → length xs ≤ n → take n xs ≡ xs
  take_all zero [] h = refl
  take_all zero (x ∷ xs) h = absurd (omega arith)
  take_all (suc n) [] h = refl
  take_all (suc n) (x ∷ xs) h = ap (◌∷◌ x) (take_all n xs (omega arith))

pub IsTiling-le : (size total i : ℕ) (ss : List Span) → IsTiling size total i ss → i ≤ total
IsTiling-le size total i [] t = omega arith
IsTiling-le size total i (s ∷ ss) (a, b, c, t) =
    omega (arith, IsTiling-le size total (i + s.count) ss t)
