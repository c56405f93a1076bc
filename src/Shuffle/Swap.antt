-- ===== src/Shuffle/Swap.antt =====
-- The exchange of two entries of a slice: `x[i], x[j] = x[j], x[i]`.
use mathlib.Core.List.Perm
use vuvuzela.Prelude.{
  ℕ, zero, suc, ◌<◌, ◌≡◌, refl, ap, List, [], ◌∷◌, map, Perm, some, arith, ◌==◌, length, get_elem?,
  set, length-set, if◌then◌else◌, Option-cases, inl, inr,
}
use vuvuzela.Run.{Run, ok, panic, ◌>>=◌, or_else}

module _ {ℓ} {A : Type ℓ} where
  -- The old values are read before either is written.
  unfoldable pub swap : List A → ℕ → ℕ → Run (List A)
  swap x i j = do
    b ← or_else (get_elem? x j) panic
    a ← or_else (get_elem? x i) panic
    ok (set (set x i b) j a)

  pub get_elem?-of_lt : (x : List A) (i : ℕ) → i < length x → (a : A) × (get_elem? x i ≡ some a)
  get_elem?-of_lt [] i h = absurd (omega arith)
  get_elem?-of_lt (a ∷ x) zero h = (a, refl)
  get_elem?-of_lt (a ∷ x) (suc i) h = get_elem?-of_lt x i (omega arith)

  pub lt_of_get_elem? : (x : List A) (i : ℕ) {a : A} → get_elem? x i ≡ some a → i < length x
  lt_of_get_elem? [] i h = cc
  lt_of_get_elem? (a ∷ x) zero h = omega arith
  lt_of_get_elem? (a ∷ x) (suc i) h = omega (arith, lt_of_get_elem? x i h)

  -- A write, read at any index.
  pub get_elem?-set :
      (x : List A) (i j : ℕ) (v : A)
      → i < length x
      → get_elem? (set x i v) j ≡ (if i == j then some v else get_elem? x j)
  get_elem?-set [] i j v h = absurd (omega arith)
  get_elem?-set (a ∷ x) zero zero v h = refl
  get_elem?-set (a ∷ x) zero (suc j) v h = ground arith
  get_elem?-set (a ∷ x) (suc i) zero v h = ground arith
  get_elem?-set (a ∷ x) (suc i) (suc j) v h = ground (arith, get_elem?-set x i j v)

  pub list_ext : (x y : List A) → ((i : ℕ) → get_elem? x i ≡ get_elem? y i) → x ≡ y
  list_ext [] [] h = refl
  list_ext [] (b ∷ y) h = cc (h 0)
  list_ext (a ∷ x) [] h = cc (h 0)
  list_ext (a ∷ x) (b ∷ y) h = cc (h 0, list_ext x y (λ i. h (suc i)))

  -- The list after a swap of `a` at `i` with `b` at `j`.
  abbrev swapped : List A → ℕ → ℕ → A → A → List A
  swapped x i j a b = set (set x i b) j a

  module _ (x : List A) (i j : ℕ) {a b : A} (p : get_elem? x i ≡ some a)
      (q : get_elem? x j ≡ some b) where
    swap-of_get : swap x i j ≡ ok (swapped x i j a b)
    unfolding swap
    swap-of_get = rw (q, p)

    pub get_elem?-swapped :
        (k : ℕ)
        → get_elem? (swapped x i j a b) k
          ≡ (if j == k then some a else if i == k then some b else get_elem? x k)
    get_elem?-swapped k = rw (
      get_elem?-set (set x i b) j k a (rw (length-set x i b) (lt_of_get_elem? x j q)),
      get_elem?-set x i k b (lt_of_get_elem? x i p),
    )

  pub swap-inv :
      (x : List A) (i j : ℕ) {y : List A}
      → swap x i j ≡ ok y
      → (a : A) × (b : A) × (get_elem? x i ≡ some a)
        × (get_elem? x j ≡ some b)
        × (y ≡ swapped x i j a b)
  unfolding swap
  swap-inv x i j {y} h = elim (Option-cases (get_elem? x i)) [
    | inl p ↦ elim (Option-cases (get_elem? x j)) [
      | inl q ↦ ground arith
      | inr (b, q) ↦ ground arith
    ]
    | inr (a, p) ↦ elim (Option-cases (get_elem? x j)) [
      | inl q ↦ ground arith
      | inr (b, q) ↦ (a, b, p, q, ground arith)
    ]
  ]

  -- A swap that succeeds is undone by the same swap.
  pub swap-involutive : (x : List A) (i j : ℕ) {y : List A} → swap x i j ≡ ok y → swap y i j ≡ ok x
  swap-involutive x i j {y} h =
      let (a, b, p, q, e) = swap-inv x i j h in
      let at = get_elem?-swapped x i j p q in
      let p' : get_elem? (swapped x i j a b) i ≡ some b = ground (arith, at i) in
      let q' : get_elem? (swapped x i j a b) j ≡ some a = ground (arith, at j) in
      rw (e, swap-of_get (swapped x i j a b) i j p' q')
        (ap ok (
          list_ext _ x
            λ k. ground (arith, at k, get_elem?-swapped (swapped x i j a b) i j p' q' k)))

  pub swap-total :
      (x : List A) (i j : ℕ) → i < length x → j < length x → (y : List A) × (swap x i j ≡ ok y)
  swap-total x i j h k =
      let (a, p) = get_elem?-of_lt x i h in
      let (b, q) = get_elem?-of_lt x j k in (swapped x i j a b, swap-of_get x i j p q)

  pub length-swap : (x : List A) (i j : ℕ) {y : List A} → swap x i j ≡ ok y → length y ≡ length x
  length-swap x i j h =
      let (a, b, p, q, e) = swap-inv x i j h in rw (e, length-set (set x i b) j a, length-set x i b)

  set-perm :
      (x : List A) (i : ℕ) (v : A) {a : A} → get_elem? x i ≡ some a → Perm (a ∷ set x i v) (v ∷ x)
  set-perm [] i v h = cc
  set-perm (b ∷ x) zero v {a} h = let e : b ≡ a = cc in rw e (Perm.swap v a x)
  set-perm (b ∷ x) (suc i) v h =
      let rest = Perm.cons b (set-perm x i v h) in
      Perm.trans (Perm.swap b _ _) (Perm.trans rest (Perm.swap v b x))

  -- A swap rearranges the list.
  pub swap-perm : (x : List A) (i j : ℕ) {y : List A} → swap x i j ≡ ok y → Perm y x
  swap-perm x i j {y} h =
      let (a, b, p, q, e) = swap-inv x i j h in
      let kept : get_elem? (set x i b) j ≡ some b =
        ground (arith, get_elem?-set x i j b, lt_of_get_elem? x i p) in
      rw e (Perm.cons_inv (Perm.trans (set-perm (set x i b) j a kept) (set-perm x i b p)))

module _ {ℓ κ} {A : Type ℓ} {B : Type κ} (f : A → B) where
  get_elem?-map :
      (x : List A) (i : ℕ) {a : A} → get_elem? x i ≡ some a → get_elem? (map f x) i ≡ some (f a)
  get_elem?-map [] i h = cc
  get_elem?-map (b ∷ x) zero h = cc
  get_elem?-map (b ∷ x) (suc i) h = get_elem?-map x i h

  map-set : (x : List A) (i : ℕ) (v : A) → map f (set x i v) ≡ set (map f x) i (f v)
  map-set [] i v = refl
  map-set (b ∷ x) zero v = refl
  map-set (b ∷ x) (suc i) v = ap (◌∷◌ (f b)) (map-set x i v)

  -- A swap moves entries and does not look at them.
  pub swap-map :
      (x : List A) (i j : ℕ) {y : List A} → swap x i j ≡ ok y → swap (map f x) i j ≡ ok (map f y)
  swap-map x i j h =
      let (a, b, p, q, e) = swap-inv x i j h in
      rw (e, map-set (set x i b) j a, map-set x i b)
        (swap-of_get (map f x) i j (get_elem?-map x i p) (get_elem?-map x j q))
