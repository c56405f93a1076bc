-- ===== src/Shuffle/Draw.antt =====
-- Intn and NewShuffler: the range of a draw, its uniformity, and the entries of a new Shuffler.
use native.Mathlib.Nat.{
  mod-lt, mul-add-mod_self_right, mod-eq_of_lt, mod-le, div-add-mod', zero-mul, suc-mul, add-zero,
}
use vuvuzela.Prelude.{
  ℕ, zero, suc, ◌+◌, ◌-◌, ◌*◌, ◌/◌, ◌%◌, ◌≤◌, ◌<◌, ◌≡◌, refl, ap, ◌∙◌, [], ◌∷◌, none, some, ◌⊎◌,
  inl, inr, arith, ltb, ◌==◌, length, if◌then◌else◌, Option-cases,
}
use vuvuzela.Run.{ok, >>=-eq-ok}
use vuvuzela.Bytes.{Bytes, u32, be32, u32_mod}
use vuvuzela.Shuffle.Undo.{IsShuffler}
use vuvuzela.Shuffle.{max_u32, accept, draw, intn, Shuffler, draw_swaps, new_shuffler}

accept-lt : (n x v : ℕ) → 0 < n → accept n x ≡ some v → v < n
unfolding accept
accept-lt n x v p h = ground (arith, mod-lt x {m = n} p)

-- A successful draw is below the bound.
draw-lt :
    (n : ℕ) (source : Bytes) {v : ℕ} {rest : Bytes} → 0 < n → draw n source ≡ ok (v, rest) → v < n
unfolding draw
draw-lt n [] p h = cc
draw-lt n (a ∷ []) p h = cc
draw-lt n (a ∷ b ∷ []) p h = cc
draw-lt n (a ∷ b ∷ c ∷ []) p h = cc
draw-lt n (a ∷ b ∷ c ∷ d ∷ r) {v} {rest} p h = elim (Option-cases (accept n (be32 a b c d))) [
  | inl e ↦ draw-lt n r p (rw (e, draw) at h)
  | inr (w, e) ↦
      let h' : ok (w, r) ≡ ok (v, rest) = rw (e, draw) at h in
      let f : w ≡ v = cc in rw (← f) (accept-lt n (be32 a b c d) w p e)
]

-- What Intn returns is below its bound.
pub intn-lt :
    (n : ℕ) (source : Bytes) {v : ℕ} {rest : Bytes}
    → 0 < n
    → n < u32_mod
    → intn n source ≡ ok (v, rest)
    → v < n
unfolding intn
intn-lt n source {v} {rest} p q h =
    let e : u32 n ≡ n = mod-eq_of_lt q in
    let h' : draw n source ≡ ok (v, rest) = ground (arith, e) in draw-lt n source p h'

-- A word among the supply is accepted.
abbrev pub HasAccepted : ℕ → Bytes → Type 0
HasAccepted n (a ∷ b ∷ c ∷ d ∷ rest) = (be32 a b c d < max_u32 - max_u32 % n) ⊎ HasAccepted n rest
HasAccepted n _ = ⊥

accept-none : (n x : ℕ) → accept n x ≡ none → ¬ (x < max_u32 - max_u32 % n)
unfolding accept
accept-none n x e = ground arith

later : {P Q : Type 0} → P ⊎ Q → ¬ P → Q
later (inl x) k = absurd (k x)
later (inr y) k = y

draw-total :
    (n : ℕ) (source : Bytes)
    → HasAccepted n source
    → (v : ℕ) × (rest : Bytes) × (draw n source ≡ ok (v, rest))
unfolding draw
draw-total n (a ∷ b ∷ c ∷ d ∷ r) s = elim (Option-cases (accept n (be32 a b c d))) [
  | inl e ↦
      let (v, rest, t) = draw-total n r (later s (accept-none n _ e)) in (v, rest, rw (e, draw) t)
  | inr (v, e) ↦ (v, r, rw (e, draw))
]
draw-total n [] s = absurd s
draw-total n (a ∷ []) s = absurd s
draw-total n (a ∷ b ∷ []) s = absurd s
draw-total n (a ∷ b ∷ c ∷ []) s = absurd s

-- Intn returns as soon as a word is accepted.
pub intn-total :
    (n : ℕ) (source : Bytes)
    → 0 < n
    → n < u32_mod
    → HasAccepted n source
    → (v : ℕ) × (rest : Bytes) × (intn n source ≡ ok (v, rest)) × (v < n)
unfolding intn
intn-total n source p q s =
    let e : u32 n ≡ n = mod-eq_of_lt q in
    let (v, rest, r) = draw-total n source s in (v, rest, ground (arith, e), draw-lt n source p r)

-- How many words below `k` Intn turns into `r`.
pub count_words : ℕ → ℕ → ℕ → ℕ
count_words n r zero = 0
count_words n r (suc k) =
    count_words n r k + elim (accept n k) [ none ↦ 0 | some v ↦ if v == r then 1 else 0 ]

module _ (n r : ℕ) (small : r < n) where
  abbrev limit : ℕ
  limit = max_u32 - max_u32 % n

  count_words-block :
      (q j : ℕ)
      → j ≤ n
      → q * n + j ≤ limit
      → count_words n r (q * n + j) ≡ count_words n r (q * n) + (if ltb r j then 1 else 0)
  unfolding count_words
  count_words-block q zero h l = rw (add-zero (q * n)) (ground arith)
  count_words-block q (suc j) h l =
      let m : (q * n + j) % n ≡ j = mul-add-mod_self_right q n j ∙ mod-eq_of_lt h in
      let e : q * n + suc j ≡ suc (q * n + j) = omega arith in
      let a : accept n (q * n + j) ≡ some j = unfold accept in ground (arith, m) in
      rw (e, count_words, a) (ground (arith, count_words-block q j))

  count_words-blocks : (q : ℕ) → q * n ≤ limit → count_words n r (q * n) ≡ q
  count_words-blocks zero l = unfold count_words in rw (zero-mul n)
  count_words-blocks (suc q) l =
      let e : suc q * n ≡ q * n + n = suc-mul q n in
      rw e (ground (arith, count_words-block q n, count_words-blocks q))

  count_words-rejected : (t : ℕ) → count_words n r (limit + t) ≡ count_words n r limit
  unfolding count_words
  count_words-rejected zero = rw (add-zero limit)
  count_words-rejected (suc t) =
      let e : limit + suc t ≡ suc (limit + t) = omega arith in
      let a : accept n (limit + t) ≡ none = unfold accept in ground arith in
      rw (e, count_words, a) (omega (arith, count_words-rejected t))

  -- Of the 2^32 words, Intn turns equally many into each number below its bound.
  pub intn-uniform : count_words n r u32_mod ≡ max_u32 / n
  intn-uniform =
      let q : limit ≡ max_u32 / n * n = omega (arith, div-add-mod' max_u32 n) in
      let e : u32_mod ≡ limit + (max_u32 % n + 1) = omega (arith, mod-le max_u32 n) in
      rw e (
        count_words-rejected (max_u32 % n + 1)
        ∙ ap (count_words n r) q
        ∙ count_words-blocks (max_u32 / n) (omega (arith, q)))

draw_swaps-IsShuffler :
    (k i : ℕ) (source : Bytes) {s : Shuffler} {rest : Bytes}
    → i + k < u32_mod
    → draw_swaps k i source ≡ ok (s, rest)
    → IsShuffler i s × (length s ≡ k)
unfolding draw_swaps
draw_swaps-IsShuffler zero i source {s} {rest} b h =
    let e : ok ([], source) ≡ ok (s, rest) = h in let f : [] ≡ s = cc in rw (← f) (tt, refl)
draw_swaps-IsShuffler (suc k) i source {s} {rest} b h =
    let ((j, source'), p, h') = >>=-eq-ok (intn (i + 1) source) _ h in
    let ((js, source''), q, h'') = >>=-eq-ok (draw_swaps k (i + 1) source') _ h' in
    let e : ok (j ∷ js, source'') ≡ ok (s, rest) = h'' in
    let f : j ∷ js ≡ s = cc in
    let (v, l) = draw_swaps-IsShuffler k (i + 1) source' (omega arith) q in
    rw (← f) ((intn-lt (i + 1) source (omega arith) (omega arith) p, v), ap suc l)

-- Where NewShuffler of `n` below 2^32 returns, it returns `n` entries, the one for round `i` at most
-- `i`.
pub new_shuffler-IsShuffler :
    (source : Bytes) (n : ℕ) {s : Shuffler} {rest : Bytes}
    → n < u32_mod
    → new_shuffler source n ≡ ok (s, rest)
    → IsShuffler 0 s × (length s ≡ n)
unfolding new_shuffler
new_shuffler-IsShuffler source n b h = draw_swaps-IsShuffler n 0 source (omega arith) h
