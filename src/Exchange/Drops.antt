-- ===== src/Exchange/Drops.antt =====
-- The table of dead drops after the first loop: of each drop, the first two accesses; and the two
-- counts.
use mathlib.Core.List.{append_assoc}
use vuvuzela.Prelude.{
  ℕ, suc, ◌+◌, ◌*◌, ◌≤◌, ◌<◌, ◌≡◌, refl, sym, ap, ◌∙◌, List, [], ◌∷◌, ◌++◌, inl, inr, arith, ◌==◌,
  length, take, if◌then◌else◌, Bool-cases,
}
use vuvuzela.Bytes.{Bytes, bytes_eq}
use vuvuzela.Bytes.Equality.{bytes_eq_iff}
use vuvuzela.Wire.{ConvoExchange}
use vuvuzela.Exchange.{DeadDrops, drop_at, set_drop, Tally, access, access_from, tally}

-- The indices of the exchanges that name the dead drop `d`, in order, from index `i` on.
unfoldable pub positions : Bytes → ℕ → List ConvoExchange → List ℕ
positions d i [] = []
positions d i (ex ∷ exs) =
    let rest = positions d (suc i) exs in if bytes_eq ex.dead_drop d then i ∷ rest else rest

drop_at-set_drop :
    (e d : Bytes) (js : List ℕ) (m : DeadDrops)
    → drop_at d (set_drop e js m) ≡ (if bytes_eq e d then js else drop_at d m)
unfolding drop_at set_drop
drop_at-set_drop e d js [] = refl
drop_at-set_drop e d js ((f, is) ∷ m) = elim (Bool-cases (bytes_eq f e)) [
  | inl p ↦ let q : f ≡ e = (bytes_eq_iff f e).0 p in rw (p, q) (ground arith)
  | inr p ↦
      rw (p, drop_at-set_drop e d js m)
        (ground (arith, bytes_eq_iff f e, bytes_eq_iff f d, bytes_eq_iff e d))
]

abbrev pub AtMostTwo : DeadDrops → Type 0
AtMostTwo m = (d : Bytes) → length (drop_at d m) ≤ 2

take_two-append : (xs ys : List ℕ) → take 2 (take 2 xs ++ ys) ≡ take 2 (xs ++ ys)
take_two-append [] ys = refl
take_two-append (x ∷ []) ys = refl
take_two-append (x ∷ y ∷ xs) ys = refl

take_two-short : (xs : List ℕ) → length xs ≤ 2 → take 2 (xs ++ []) ≡ xs
take_two-short [] h = refl
take_two-short (x ∷ []) h = refl
take_two-short (x ∷ y ∷ []) h = refl
take_two-short (x ∷ y ∷ z ∷ xs) h = absurd (omega arith)

-- One access adds its index to its drop, up to two, and leaves the other drops alone.
module _ (i : ℕ) (ex : ConvoExchange) (t : Tally) (d : Bytes) where
  abbrev IsAccess : DeadDrops → Type 0
  IsAccess m = drop_at d m ≡ (
      if bytes_eq ex.dead_drop d then take 2 (drop_at d t.drops ++ i ∷ []) else drop_at d t.drops)

  set_drop-IsAccess :
      (is js : List ℕ)
      → drop_at ex.dead_drop t.drops ≡ is
      → js ≡ take 2 (is ++ i ∷ [])
      → IsAccess (set_drop ex.dead_drop js t.drops)
  set_drop-IsAccess is js e f = elim (Bool-cases (bytes_eq ex.dead_drop d)) [
    | inl p ↦
        let q : ex.dead_drop ≡ d = (bytes_eq_iff ex.dead_drop d).0 p in
        let e' : drop_at d t.drops ≡ is = ap (λ x. drop_at x t.drops) (sym q) ∙ e in
        rw (drop_at-set_drop ex.dead_drop d js t.drops, p, e') f
    | inr p ↦ rw (drop_at-set_drop ex.dead_drop d js t.drops, p)
  ]

  drop_at-access_of :
      (is : List ℕ)
      → length is ≤ 2
      → drop_at ex.dead_drop t.drops ≡ is
      → IsAccess (access i ex t).drops
  unfolding access
  drop_at-access_of [] two e = rw (e, access) (set_drop-IsAccess [] (i ∷ []) e refl)
  drop_at-access_of (j ∷ []) two e = rw (e, access) (set_drop-IsAccess (j ∷ []) (j ∷ i ∷ []) e refl)
  drop_at-access_of (j ∷ k ∷ []) two e = elim (Bool-cases (bytes_eq ex.dead_drop d)) [
    | inl p ↦
        let q : ex.dead_drop ≡ d = (bytes_eq_iff ex.dead_drop d).0 p in
        let e' : drop_at d t.drops ≡ j ∷ k ∷ [] = ap (λ x. drop_at x t.drops) (sym q) ∙ e in
        rw (e, access, p, e')
    | inr p ↦ rw (e, access, p)
  ]
  drop_at-access_of (j ∷ k ∷ l ∷ is) two e = absurd (omega arith)

  drop_at-access : AtMostTwo t.drops → IsAccess (access i ex t).drops
  drop_at-access two = drop_at-access_of (drop_at ex.dead_drop t.drops) (two ex.dead_drop) refl

length-take_two : (xs : List ℕ) → length (take 2 xs) ≤ 2
length-take_two [] = omega arith
length-take_two (x ∷ []) = omega arith
length-take_two (x ∷ y ∷ xs) = omega arith

access-AtMostTwo :
    (i : ℕ) (ex : ConvoExchange) (t : Tally) → AtMostTwo t.drops → AtMostTwo (access i ex t).drops
access-AtMostTwo i ex t two d =
    rw (drop_at-access i ex t d two)
      (ground (arith, two d, length-take_two (drop_at d t.drops ++ i ∷ [])))

drop_at-access_from :
    (i : ℕ) (exs : List ConvoExchange) (t : Tally) (d : Bytes)
    → AtMostTwo t.drops
    → drop_at d (access_from i exs t).drops ≡ take 2 (drop_at d t.drops ++ positions d i exs)
unfolding access_from positions
drop_at-access_from i [] t d two = sym (take_two-short (drop_at d t.drops) (two d))
drop_at-access_from i (ex ∷ exs) t d two =
    rw
      (
        drop_at-access_from (suc i) exs (access i ex t) d (access-AtMostTwo i ex t two),
        drop_at-access i ex t d two,
      )
      (elim (Bool-cases (bytes_eq ex.dead_drop d)) [
        | inl p ↦ rw p (
            take_two-append (drop_at d t.drops ++ i ∷ []) (positions d (suc i) exs)
            ∙ ap (take 2) (append_assoc (drop_at d t.drops) (i ∷ []) (positions d (suc i) exs)))
        | inr p ↦ rw p
      ])

abbrev empty_tally : Tally
empty_tally = record { drops = []; count = record { singles = 0; doubles = 0 } }

drop_at-nil : (d : Bytes) → drop_at d [] ≡ []
unfolding drop_at
drop_at-nil d = refl

AtMostTwo-nil : AtMostTwo []
AtMostTwo-nil d = rw (drop_at-nil d) (omega arith)

-- After the first loop the table holds, of each dead drop, the first two exchanges that name it.
pub drop_at-tally :
    (exs : List ConvoExchange) (d : Bytes)
    → drop_at d (tally exs).drops ≡ take 2 (positions d 0 exs)
unfolding tally
drop_at-tally exs d =
    drop_at-access_from 0 exs empty_tally d AtMostTwo-nil
    ∙ ap (λ x. take 2 (x ++ positions d 0 exs)) (drop_at-nil d)

-- How many drops of the table have `n` accesses.
pub count_drops : ℕ → DeadDrops → ℕ
count_drops n [] = 0
count_drops n ((d, is) ∷ m) = (if length is == n then 1 else 0) + count_drops n m

count_drops-set_drop :
    (n : ℕ) (d : Bytes) (js : List ℕ) (m : DeadDrops)
    → 0 < n
    → count_drops n (set_drop d js m) + (if length (drop_at d m) == n then 1 else 0)
      ≡ count_drops n m + (if length js == n then 1 else 0)
unfolding count_drops set_drop drop_at
count_drops-set_drop n d js [] h = ground arith
count_drops-set_drop n d js ((e, is) ∷ m) h = elim (Bool-cases (bytes_eq e d)) [
  | inl p ↦ rw p (omega arith)
  | inr p ↦ rw p (omega (arith, count_drops-set_drop n d js m h))
]

abbrev IsCounted : ℕ → Tally → Type 0
IsCounted n t =
    (t.count.singles ≡ count_drops 1 t.drops)
    × (t.count.doubles ≡ count_drops 2 t.drops)
    × (t.count.singles + 2 * t.count.doubles ≤ n)

access-IsCounted_of :
    (n i : ℕ) (ex : ConvoExchange) (t : Tally) (is : List ℕ)
    → drop_at ex.dead_drop t.drops ≡ is
    → IsCounted n t
    → IsCounted (suc n) (access i ex t)
unfolding access
access-IsCounted_of n i ex t [] e c =
    let one = count_drops-set_drop 1 ex.dead_drop (i ∷ []) t.drops (omega arith) in
    let two = count_drops-set_drop 2 ex.dead_drop (i ∷ []) t.drops (omega arith) in
    let one' = rw e at one in
    let two' = rw e at two in
    rw (e, access) (omega (arith, one', c), omega (arith, two', c), omega (arith, c))
access-IsCounted_of n i ex t (j ∷ []) e c =
    let one = count_drops-set_drop 1 ex.dead_drop (j ∷ i ∷ []) t.drops (omega arith) in
    let two = count_drops-set_drop 2 ex.dead_drop (j ∷ i ∷ []) t.drops (omega arith) in
    let one' = rw e at one in
    let two' = rw e at two in
    rw (e, access) (omega (arith, one', c), omega (arith, two', c), omega (arith, one', c))
access-IsCounted_of n i ex t (j ∷ k ∷ is) e c = rw (e, access) (omega (arith, c))

access_from-IsCounted :
    (n i : ℕ) (exs : List ConvoExchange) (t : Tally)
    → IsCounted n t
    → IsCounted (n + length exs) (access_from i exs t)
unfolding access_from
access_from-IsCounted n i [] t c = omega (arith, c)
access_from-IsCounted n i (ex ∷ exs) t c =
    let (s, d, b) =
      access_from-IsCounted (suc n) (suc i) exs (access i ex t)
        (access-IsCounted_of n i ex t (drop_at ex.dead_drop t.drops) refl c) in
    (s, d, omega (arith, b))

-- The two counts that the last server reports are the number of dead drops that one exchange names,
-- and of those that two or more name; together they stand for no more exchanges than there were.
pub tally-counts :
    (exs : List ConvoExchange)
    → let t = tally exs in
      (t.count.singles ≡ count_drops 1 t.drops)
      × (t.count.doubles ≡ count_drops 2 t.drops)
      × (t.count.singles + 2 * t.count.doubles ≤ length exs)
unfolding tally
tally-counts exs =
    let (s, d, b) = access_from-IsCounted 0 0 exs empty_tally (unfold count_drops in omega arith) in
    (s, d, omega (arith, b))
