-- ===== src/Shuffle/Undo.antt =====
-- shuffle.go: Shuffle and Unshuffle of the same Shuffler.
use mathlib.Core.List.Perm
use native.Mathlib.Nat.{add-zero, zero-add}
use vuvuzela.Prelude.{
  ℕ, zero, suc, ◌+◌, ◌≤◌, ◌<◌, ◌≡◌, refl, sym, ◌∙◌, List, [], ◌∷◌, map, Perm, some, arith, length,
  get_elem?, inl, inr, Option-cases, length-map,
}
use vuvuzela.Run.{ok, >>=-eq-ok}
use vuvuzela.Shuffle.Swap.{swap, swap-involutive, swap-total, length-swap, swap-perm, swap-map}
use vuvuzela.Shuffle.{Shuffler, swap_round, shuffle_from, shuffle, unshuffle_from, unshuffle}

-- Entry `k` of `s`, which begins at round `i`, names an index of at most `i + k`.
abbrev pub IsShuffler : ℕ → Shuffler → Type 0
IsShuffler i [] = Unit
IsShuffler i (j ∷ js) = (j < i + 1) × IsShuffler (i + 1) js

module _ {ℓ} {A : Type ℓ} (s : Shuffler) where
  pub swap_round-inv :
      (i : ℕ) (x : List A) {y : List A}
      → swap_round s i x ≡ ok y
      → (j : ℕ) × (get_elem? s i ≡ some j) × (swap x i j ≡ ok y)
  unfolding swap_round
  swap_round-inv i x h = elim (Option-cases (get_elem? s i)) [
    | inl e ↦ ground arith
    | inr (j, e) ↦ (j, e, ground arith)
  ]

  pub swap_round-of_get :
      (i j : ℕ) (x : List A) → get_elem? s i ≡ some j → swap_round s i x ≡ swap x i j
  unfolding swap_round
  swap_round-of_get i j x e = rw e

  swap_round-involutive :
      (i : ℕ) (x : List A) {y : List A} → swap_round s i x ≡ ok y → swap_round s i y ≡ ok x
  swap_round-involutive i x h =
      let (j, e, k) = swap_round-inv i x h in swap_round-of_get i j _ e ∙ swap-involutive x i j k

  -- The last round of the loop, split off.
  shuffle_from-last :
      (k i : ℕ) (x : List A) {y : List A}
      → shuffle_from s (suc k) i x ≡ ok y
      → (z : List A) × (shuffle_from s k i x ≡ ok z) × (swap_round s (i + k) z ≡ ok y)
  unfolding shuffle_from
  shuffle_from-last zero i x h =
      let (z, p, q) = >>=-eq-ok (swap_round s i x) _ h in (x, refl, rw (add-zero i) (p ∙ q))
  shuffle_from-last (suc k) i x h =
      let (w, p, q) = >>=-eq-ok (swap_round s i x) _ h in
      let (z, t, last) = shuffle_from-last k (i + 1) w q in
      let e : i + suc k ≡ i + 1 + k = omega arith in (z, rw p t, rw e last)

  unshuffle_from-shuffle_from :
      (k : ℕ) (x : List A) {y : List A} → shuffle_from s k 0 x ≡ ok y → unshuffle_from s k y ≡ ok x
  unfolding unshuffle_from
  unshuffle_from-shuffle_from zero x h = unfold shuffle_from in sym h
  unshuffle_from-shuffle_from (suc k) x h =
      let (z, p, last) = shuffle_from-last k 0 x h in
      let last' : swap_round s k z ≡ ok _ = rw zero-add at last in
      rw (swap_round-involutive k z last') (unshuffle_from-shuffle_from k x p)

  shuffle_from-perm : (k i : ℕ) (x : List A) {y : List A} → shuffle_from s k i x ≡ ok y → Perm y x
  unfolding shuffle_from
  shuffle_from-perm zero i x {y} h = let e : x ≡ y = cc in rw e (Perm.refl y)
  shuffle_from-perm (suc k) i x h =
      let (w, p, q) = >>=-eq-ok (swap_round s i x) _ h in
      let (j, e, r) = swap_round-inv i x p in
      Perm.trans (shuffle_from-perm k (i + 1) w q) (swap-perm x i j r)

  length-shuffle_from :
      (k i : ℕ) (x : List A) {y : List A} → shuffle_from s k i x ≡ ok y → length y ≡ length x
  unfolding shuffle_from
  length-shuffle_from zero i x {y} h = let e : x ≡ y = cc in rw e
  length-shuffle_from (suc k) i x h =
      let (w, p, q) = >>=-eq-ok (swap_round s i x) _ h in
      let (j, e, r) = swap_round-inv i x p in
      length-shuffle_from k (i + 1) w q ∙ length-swap x i j r

  -- Where Shuffle returns, it returns a rearrangement, and Unshuffle gives the slice back.
  pub unshuffle-shuffle :
      (x : List A) {y : List A} → shuffle s x ≡ ok y → Perm y x × (unshuffle s y ≡ ok x)
  unfolding shuffle unshuffle
  unshuffle-shuffle x h = (
    shuffle_from-perm (length x) 0 x h,
    rw (length-shuffle_from (length x) 0 x h) (unshuffle_from-shuffle_from (length x) x h),
  )

  pub length-shuffle : (x : List A) {y : List A} → shuffle s x ≡ ok y → length y ≡ length x
  unfolding shuffle
  length-shuffle x h = length-shuffle_from (length x) 0 x h

pub get_elem?-IsShuffler :
    (s : Shuffler) (i k : ℕ)
    → IsShuffler i s
    → k < length s
    → (j : ℕ) × (get_elem? s k ≡ some j) × (j < i + k + 1)
get_elem?-IsShuffler [] i k v h = absurd (omega arith)
get_elem?-IsShuffler (j ∷ js) i zero v h = (j, refl, omega arith)
get_elem?-IsShuffler (j ∷ js) i (suc k) v h =
    let (l, e, b) = get_elem?-IsShuffler js (i + 1) k v.1 (omega arith) in (l, e, omega arith)

module _ {ℓ} {A : Type ℓ} (s : Shuffler) (v : IsShuffler 0 s) where
  shuffle_from-total :
      (k i : ℕ) (x : List A)
      → i + k ≤ length s
      → length x ≡ length s
      → (y : List A) × (shuffle_from s k i x ≡ ok y)
  unfolding shuffle_from
  shuffle_from-total zero i x h l = (x, refl)
  shuffle_from-total (suc k) i x h l =
      let (j, e, b) = get_elem?-IsShuffler s 0 i v (omega arith) in
      let (z, t) = swap-total x i j (omega arith) (omega arith) in
      let (y, r) = shuffle_from-total k (i + 1) z (omega arith) (length-swap x i j t ∙ l) in
      (y, rw (swap_round-of_get s i j x e, t) r)

  -- A Shuffler whose entries are in range does not panic on a slice of its length.
  pub shuffle-total : (x : List A) → length x ≡ length s → (y : List A) × (shuffle s x ≡ ok y)
  unfolding shuffle
  shuffle-total x l = shuffle_from-total (length x) 0 x (omega arith) l

module _ {ℓ κ} {A : Type ℓ} {B : Type κ} (f : A → B) (s : Shuffler) where
  shuffle_from-map :
      (k i : ℕ) (x : List A) {y : List A}
      → shuffle_from s k i x ≡ ok y
      → shuffle_from s k i (map f x) ≡ ok (map f y)
  unfolding shuffle_from
  shuffle_from-map zero i x {y} h = let e : x ≡ y = cc in rw e
  shuffle_from-map (suc k) i x h =
      let (w, p, q) = >>=-eq-ok (swap_round s i x) _ h in
      let (j, e, r) = swap_round-inv s i x p in
      rw (swap_round-of_get s i j (map f x) e, swap-map f x i j r) (shuffle_from-map k (i + 1) w q)

  -- What a server does entry by entry to a shuffled batch reaches the entries' old places: the
  -- replies to `y`, unshuffled, are the replies to `x`.
  pub unshuffle-map :
      (x : List A) {y : List A} → shuffle s x ≡ ok y → unshuffle s (map f y) ≡ ok (map f x)
  unfolding shuffle unshuffle
  unshuffle-map x {y} h =
      rw (length-map y f, length-shuffle_from s (length x) 0 x h)
        (unshuffle_from-shuffle_from s (length x) (map f x) (shuffle_from-map (length x) 0 x h))
