-- ===== src/Shuffle/Place.antt =====
-- shuffle.go: where the reply to each entry of a shuffled batch ends up.
use vuvuzela.Prelude.{
  ℕ, zero, suc, ◌≤◌, ◌<◌, ◌≡◌, refl, sym, ap, ◌∙◌, List, [], ◌∷◌, map, some, arith, length, ◌==◌,
  get_elem?, inl, inr, Bool-cases, length-map, get_elem?-in_range, get_elem?-lt, get_elem?-map,
}
use vuvuzela.Run.{ok, >>=-eq-ok}
use vuvuzela.Shuffle.Swap.{swap, swap-inv, swap-map, swap-total, length-swap, get_elem?-swapped}
use vuvuzela.Shuffle.Undo.{
  IsShuffler, get_elem?-IsShuffler, swap_round-of_get, swap_round-inv, unshuffle-shuffle,
  length-shuffle,
}
use vuvuzela.Shuffle.{Shuffler, swap_round, shuffle, unshuffle_from, unshuffle}

-- Every entry of `y` is one of `x`.
abbrev pub DrawnFrom {ℓ} : {A : Type ℓ} → List A → List A → Type ℓ
DrawnFrom {A = A} x y =
    (k : ℕ) (a : A) → get_elem? y k ≡ some a → (p : ℕ) × (get_elem? x p ≡ some a)

swap-DrawnFrom {ℓ} :
    {A : Type ℓ} (x : List A) (i j : ℕ) {y : List A} → swap x i j ≡ ok y → DrawnFrom x y
swap-DrawnFrom x i j {y} h k a e =
    let (b, c, p, q, same) = swap-inv x i j h in
    let at = get_elem?-swapped x i j p q k in
    let e' = rw same at e in
    elim (Bool-cases (j == k)) [
      | inl here ↦ let here' = rw here at at in (i, cc)
      | inr elsewhere ↦
          let at' = rw elsewhere at at in
          elim (Bool-cases (i == k)) [
            | inl there ↦ let there' = rw there at at' in (j, cc)
            | inr apart ↦ let apart' = rw apart at at' in (k, cc)
          ]
    ]

module _ {ℓ} {A : Type ℓ} (s : Shuffler) (v : IsShuffler 0 s) where
  unshuffle_from-total :
      (k : ℕ) (x : List A)
      → k ≤ length s
      → length x ≡ length s
      → (y : List A) × (unshuffle_from s k x ≡ ok y) × (length y ≡ length x) × DrawnFrom x y
  unfolding unshuffle_from
  unshuffle_from-total zero x h l = (x, refl, refl, λ k a e. (k, e))
  unshuffle_from-total (suc i) x h l =
      let (j, e, b) = get_elem?-IsShuffler s 0 i v (omega arith) in
      let (z, t) = swap-total x i j (omega arith) (omega arith) in
      let same = length-swap x i j t in
      let (y, r, size, from) = unshuffle_from-total i z (omega arith) (same ∙ l) in
      (
        y,
        rw (swap_round-of_get s i j x e, t) r,
        size ∙ same,
        λ k a f. let (p, g) = from k a f in swap-DrawnFrom x i j t p a g,
      )

module _ {ℓ κ} {A : Type ℓ} {B : Type κ} (f : A → B) (s : Shuffler) where
  unshuffle_from-map :
      (k : ℕ) (x : List A) {y : List A}
      → unshuffle_from s k x ≡ ok y
      → unshuffle_from s k (map f x) ≡ ok (map f y)
  unfolding unshuffle_from
  unshuffle_from-map zero x {y} h = let e : x ≡ y = cc in rw e
  unshuffle_from-map (suc i) x h =
      let (w, p, q) = >>=-eq-ok (swap_round s i x) _ h in
      let (j, e, r) = swap_round-inv s i x p in
      rw (swap_round-of_get s i j (map f x) e, swap-map f x i j r) (unshuffle_from-map i w q)

ok-injective {ℓ} : {A : Type ℓ} {a b : A} → ok a ≡ ok b → a ≡ b
ok-injective e = cc

some-injective {ℓ} : {A : Type ℓ} {a b : A} → some a ≡ some b → a ≡ b
some-injective e = cc

-- The entries of two lists of one length, side by side.
abbrev pub beside {ℓ κ} : {A : Type ℓ} {B : Type κ} → List A → List B → List (A × B)
beside (a ∷ xs) (b ∷ ys) = (a, b) ∷ beside xs ys
beside _ _ = []

module _ {ℓ κ} {A : Type ℓ} {B : Type κ} where
  firsts : (xs : List A) (ys : List B) → length ys ≡ length xs → map (λ p. p.0) (beside xs ys) ≡ xs
  firsts [] ys h = refl
  firsts (a ∷ xs) [] h = absurd (omega arith)
  firsts (a ∷ xs) (b ∷ ys) h = ap (◌∷◌ a) (firsts xs ys (omega arith))

  seconds : (xs : List A) (ys : List B) → length ys ≡ length xs → map (λ p. p.1) (beside xs ys) ≡ ys
  seconds [] [] h = refl
  seconds [] (b ∷ ys) h = absurd (omega arith)
  seconds (a ∷ xs) [] h = absurd (omega arith)
  seconds (a ∷ xs) (b ∷ ys) h = ap (◌∷◌ b) (seconds xs ys (omega arith))

-- The replies `r` to a shuffled batch `y`, unshuffled: entry by entry the replies to `x`.
module _ {ℓ κ} {A : Type ℓ} {B : Type κ} (s : Shuffler) (v : IsShuffler 0 s) (x : List A)
    {y : List A} (r : List B) (whole : length x ≡ length s) (mixed : shuffle s x ≡ ok y)
    (size : length r ≡ length y) where
  -- `u` has at each place of `x` what `r` has where the shuffle put that entry.
  abbrev pub Undoes : List B → Type (ℓ ⊔ κ)
  Undoes u =
      (k : ℕ) (a : A)
      → get_elem? x k ≡ some a
      → (p : ℕ) × (b : B) × (get_elem? y p ≡ some a)
        × (get_elem? r p ≡ some b)
        × (get_elem? u k ≡ some b)

  module _ (w : List (A × B)) (undone : unshuffle_from s (length s) (beside y r) ≡ ok w)
      (from : DrawnFrom (beside y r) w) where
    same : length y ≡ length s
    same = length-shuffle s x mixed ∙ whole

    old : map (λ p. p.0) w ≡ x
    unfolding unshuffle
    old =
        let back : unshuffle_from s (length y) y ≡ ok x = (unshuffle-shuffle s x mixed).1 in
        let left : unshuffle_from s (length s) y ≡ ok (map (λ p. p.0) w) =
          rw (firsts y r size) at
            (unshuffle_from-map (λ p. p.0) s (length s) (beside y r) undone) in
        ok-injective (sym left ∙ rw same at back)

    undone-replies : unshuffle s r ≡ ok (map (λ p. p.1) w)
    unfolding unshuffle
    undone-replies =
        let all : length r ≡ length s = size ∙ same in
        let right : unshuffle_from s (length s) r ≡ ok (map (λ p. p.1) w) =
          rw (seconds y r size) at
            (unshuffle_from-map (λ p. p.1) s (length s) (beside y r) undone) in
        rw all right

    undone_placing : Undoes (map (λ p. p.1) w)
    undone_placing k a e =
        let e' : get_elem? (map (λ p. p.0) w) k ≡ some a = rw old e in
        let inside : k < length w =
          rw (length-map w (λ p. p.0)) at (get_elem?-lt (map (λ p. p.0) w) k e') in
        let (pair, q) = get_elem?-in_range w k inside in
        let first : pair.0 ≡ a = some-injective (sym (get_elem?-map w (λ p. p.0) k q) ∙ e') in
        let (place, g) = from k pair q in
        (
          place,
          pair.1,
          rw (firsts y r size) at (get_elem?-map (beside y r) (λ p. p.0) place g) ∙ ap some first,
          rw (seconds y r size) at (get_elem?-map (beside y r) (λ p. p.1) place g),
          get_elem?-map w (λ p. p.1) k q,
        )

  pub unshuffle-places : (u : List B) × (unshuffle s r ≡ ok u) × (length u ≡ length x) × Undoes u
  unshuffle-places =
      let same = length-shuffle s x mixed in
      let many : length (beside y r) ≡ length s =
        sym (length-map (beside y r) (λ p. p.0)) ∙ ap length (firsts y r size) ∙ same ∙ whole in
      let (w, undone, kept, from) =
        unshuffle_from-total s v (length s) (beside y r) (omega arith) many in
      (
        map (λ p. p.1) w,
        undone-replies w undone from,
        length-map w (λ p. p.1) ∙ kept ∙ many ∙ sym whole,
        undone_placing w undone from,
      )
