-- ===== src/Exchange/Replies.antt =====
-- The replies of the last server's exchange in convo.go.
use native.Mathlib.Nat.{add-zero, zero-add}
use vuvuzela.Prelude.{
  ℕ, zero, suc, ◌+◌, ◌-◌, ◌≤◌, ◌<◌, ◌≡◌, ◌≢◌, refl, ap, ◌∙◌, List, [], ◌∷◌, none, some, inl, inr,
  arith, ◌==◌, length, get_elem?, take, if◌then◌else◌, Bool-cases,
}
use vuvuzela.Run.{ok}
use vuvuzela.Bytes.{Bytes, bytes_eq}
use vuvuzela.Bytes.Equality.{bytes_eq_iff}
use vuvuzela.Wire.{ConvoExchange}
use vuvuzela.Exchange.{tally, reply_for, replies_from, exchange_all}
use vuvuzela.Exchange.Drops.{positions, drop_at-tally}

-- An index in `positions` is that of an exchange that names the drop.
abbrev Names : Bytes → ℕ → List ConvoExchange → ℕ → Type 0
Names d i exs k =
    (i ≤ k) × (e : ConvoExchange) × (get_elem? exs (k - i) ≡ some e) × (e.dead_drop ≡ d)

Names-later :
    (d : Bytes) (i : ℕ) (ex : ConvoExchange) (exs : List ConvoExchange) (k : ℕ)
    → Names d (suc i) exs k
    → Names d i (ex ∷ exs) k
Names-later d i ex exs k (b, e, p, q) =
    let s : k - i ≡ suc (k - suc i) = omega arith in (omega arith, e, rw s p, q)

Names-here :
    (d : Bytes) (i : ℕ) (ex : ConvoExchange) (exs : List ConvoExchange)
    → ex.dead_drop ≡ d
    → Names d i (ex ∷ exs) i
Names-here d i ex exs q = let s : i - i ≡ 0 = omega arith in (omega arith, ex, rw s, q)

positions-get :
    (d : Bytes) (i : ℕ) (exs : List ConvoExchange) (n k : ℕ)
    → get_elem? (positions d i exs) n ≡ some k
    → Names d i exs k
unfolding positions
positions-get d i [] n k h = cc
positions-get d i (ex ∷ exs) zero k h = elim (Bool-cases (bytes_eq ex.dead_drop d)) [
  | inl p ↦
      let h' : some i ≡ some k = rw p at h in
      let e : i ≡ k = cc in rw (← e) (Names-here d i ex exs ((bytes_eq_iff ex.dead_drop d).0 p))
  | inr p ↦ Names-later d i ex exs k (positions-get d (suc i) exs zero k (rw p at h))
]
positions-get d i (ex ∷ exs) (suc n) k h = elim (Bool-cases (bytes_eq ex.dead_drop d)) [
  | inl p ↦ Names-later d i ex exs k (positions-get d (suc i) exs n k (rw p at h))
  | inr p ↦ Names-later d i ex exs k (positions-get d (suc i) exs (suc n) k (rw p at h))
]

-- The exchange at an index of the list, found by its drop.
positions-exchange :
    (d : Bytes) (exs : List ConvoExchange) (n k : ℕ)
    → get_elem? (positions d 0 exs) n ≡ some k
    → (e : ConvoExchange) × (get_elem? exs k ≡ some e) × (e.dead_drop ≡ d)
positions-exchange d exs n k h =
    let (_, e, p, q) = positions-get d 0 exs n k h in
    let s : k - 0 ≡ k = omega arith in (e, rw s at p, q)

positions-lt :
    (d : Bytes) (i : ℕ) (exs : List ConvoExchange) (j k : ℕ) (ps : List ℕ)
    → positions d i exs ≡ j ∷ k ∷ ps
    → j < k
unfolding positions
positions-lt d i [] j k ps h = cc
positions-lt d i (ex ∷ exs) j k ps h = elim (Bool-cases (bytes_eq ex.dead_drop d)) [
  | inl p ↦
      let h' : i ∷ positions d (suc i) exs ≡ j ∷ k ∷ ps = rw p at h in
      let e : i ≡ j = cc in
      let t : positions d (suc i) exs ≡ k ∷ ps = cc in
      let (b, _, _, _) = positions-get d (suc i) exs 0 k (rw t) in rw (← e) b
  | inr p ↦ positions-lt d (suc i) exs j k ps (rw p at h)
]

-- The encrypted message of exchange `k`.
message_at : List ConvoExchange → ℕ → Bytes
message_at exs k = elim (get_elem? exs k) [ none ↦ [] | some e ↦ e.encrypted_message ]

message_at-get :
    (exs : List ConvoExchange) (k : ℕ) {e : ConvoExchange}
    → get_elem? exs k ≡ some e
    → message_at exs k ≡ e.encrypted_message
unfolding message_at
message_at-get exs k h = rw (h, message_at)

-- The reply to exchange `i` of a drop that the exchanges `ps` name.
abbrev reply_value : List ConvoExchange → ℕ → ConvoExchange → List ℕ → Bytes
reply_value exs i ex [] = []
reply_value exs i ex (j ∷ []) = ex.encrypted_message
reply_value exs i ex (j ∷ k ∷ ps) = message_at exs (if i == j then k else j)

reply_for-value :
    (exs : List ConvoExchange) (i : ℕ) (ex : ConvoExchange) (d : Bytes) (ps : List ℕ)
    → positions d 0 exs ≡ ps
    → reply_for exs i ex (take 2 ps) ≡ ok (reply_value exs i ex ps)
unfolding reply_for
reply_for-value exs i ex d [] e = refl
reply_for-value exs i ex d (j ∷ []) e = refl
reply_for-value exs i ex d (j ∷ k ∷ ps) e =
    let (x, p, _) = positions-exchange d exs 0 j (rw e) in
    let (y, q, _) = positions-exchange d exs 1 k (rw e) in
    elim (Bool-cases (i == j)) [
      | inl c ↦ rw (c, q, message_at-get exs k q)
      | inr c ↦ rw (c, p, message_at-get exs j p)
    ]

module _ (all : List ConvoExchange) where
  abbrev reply_to : ℕ → ConvoExchange → Bytes
  reply_to i ex = reply_value all i ex (positions ex.dead_drop 0 all)

  replies_from-values :
      (i : ℕ) (exs : List ConvoExchange)
      → (replies : List Bytes) × (replies_from all (tally all).drops i exs ≡ ok replies)
        × (length replies ≡ length exs)
        × ((n : ℕ) (ex : ConvoExchange)
            → get_elem? exs n ≡ some ex
            → get_elem? replies n ≡ some (reply_to (i + n) ex))
  unfolding replies_from
  replies_from-values i [] = ([], refl, refl, λ n ex e. cc)
  replies_from-values i (ex ∷ exs) =
      let (replies, e, l, at) = replies_from-values (suc i) exs in
      (
        reply_to i ex ∷ replies,
        rw (
          drop_at-tally all ex.dead_drop,
          reply_for-value all i ex ex.dead_drop (positions ex.dead_drop 0 all) refl,
          e,
        ),
        ap suc l,
        step replies at,
      )
    where
      step :
          (replies : List Bytes)
          → ((n : ℕ) (x : ConvoExchange)
              → get_elem? exs n ≡ some x
              → get_elem? replies n ≡ some (reply_to (suc i + n) x))
          → (n : ℕ) (x : ConvoExchange) → get_elem? (ex ∷ exs) n ≡ some x
          → get_elem? (reply_to i ex ∷ replies) n ≡ some (reply_to (i + n) x)
      step replies at zero x h = let e : ex ≡ x = cc in rw (← e, add-zero i)
      step replies at (suc n) x h = let s : i + suc n ≡ suc i + n = omega arith in rw s (at n x h)

-- What the exchange promises. The first two exchanges of a dead drop get each other's message, one
-- that is alone gets its own, and a third one of the drop gets the first's.
pub record IsExchanged (exs : List ConvoExchange) (replies : List Bytes) : Type 0 where
  pub size : length replies ≡ length exs
  pub alone :
      (i : ℕ) (ex : ConvoExchange)
      → get_elem? exs i ≡ some ex
      → positions ex.dead_drop 0 exs ≡ i ∷ []
      → get_elem? replies i ≡ some ex.encrypted_message
  pub paired :
      (d : Bytes) (i j : ℕ) (ps : List ℕ) (x y : ConvoExchange)
      → positions d 0 exs ≡ i ∷ j ∷ ps
      → get_elem? exs i ≡ some x
      → get_elem? exs j ≡ some y
      → (get_elem? replies i ≡ some y.encrypted_message)
        × (get_elem? replies j ≡ some x.encrypted_message)
  pub crowded :
      (i j k : ℕ) (ps : List ℕ) (x z : ConvoExchange)
      → positions z.dead_drop 0 exs ≡ i ∷ j ∷ ps
      → get_elem? exs i ≡ some x
      → get_elem? exs k ≡ some z
      → k ≢ i
      → k ≢ j
      → get_elem? replies k ≡ some x.encrypted_message

module _ (exs : List ConvoExchange) (replies : List Bytes)
    (at : (n : ℕ) (ex : ConvoExchange)
      → get_elem? exs n ≡ some ex
      → get_elem? replies n ≡ some (reply_to exs n ex)) where
  replies-alone :
      (i : ℕ) (ex : ConvoExchange)
      → get_elem? exs i ≡ some ex
      → positions ex.dead_drop 0 exs ≡ i ∷ []
      → get_elem? replies i ≡ some ex.encrypted_message
  replies-alone i ex e p = at i ex e ∙ rw p

  reply-of_positions :
      (d : Bytes) (i j k : ℕ) (ps : List ℕ) (z w : ConvoExchange)
      → positions d 0 exs ≡ i ∷ j ∷ ps
      → z.dead_drop ≡ d
      → get_elem? exs k ≡ some z
      → get_elem? exs (if k == i then j else i) ≡ some w
      → get_elem? replies k ≡ some w.encrypted_message
  reply-of_positions d i j k ps z w p q e f =
      let p' : positions z.dead_drop 0 exs ≡ i ∷ j ∷ ps = ap (λ x. positions x 0 exs) q ∙ p in
      at k z e ∙ rw p' (ap some (message_at-get exs (if k == i then j else i) f))

  replies-paired :
      (d : Bytes) (i j : ℕ) (ps : List ℕ) (x y : ConvoExchange)
      → positions d 0 exs ≡ i ∷ j ∷ ps
      → get_elem? exs i ≡ some x
      → get_elem? exs j ≡ some y
      → (get_elem? replies i ≡ some y.encrypted_message)
        × (get_elem? replies j ≡ some x.encrypted_message)
  replies-paired d i j ps x y p e f =
      let (x', e', dx) = positions-exchange d exs 0 i (rw p) in
      let (y', f', dy) = positions-exchange d exs 1 j (rw p) in
      let sx : x' ≡ x = cc in
      let sy : y' ≡ y = cc in
      let lt : i < j = positions-lt d 0 exs i j ps p in
      (
        reply-of_positions d i j i ps x y p (rw (← sx) dx) e (ground arith),
        reply-of_positions d i j j ps y x p (rw (← sy) dy) f (ground arith),
      )

  replies-crowded :
      (i j k : ℕ) (ps : List ℕ) (x z : ConvoExchange)
      → positions z.dead_drop 0 exs ≡ i ∷ j ∷ ps
      → get_elem? exs i ≡ some x
      → get_elem? exs k ≡ some z
      → k ≢ i
      → k ≢ j
      → get_elem? replies k ≡ some x.encrypted_message
  replies-crowded i j k ps x z p e f ni nj =
      reply-of_positions z.dead_drop i j k ps z x p refl f (ground arith)

-- The last server answers every batch of exchanges, and its replies are exchanged.
pub exchange_all-IsExchanged :
    (exs : List ConvoExchange)
    → (replies : List Bytes) × (exchange_all exs ≡ ok (replies, (tally exs).count))
      × IsExchanged exs replies
unfolding exchange_all
exchange_all-IsExchanged exs =
    let (replies, e, l, at) = replies_from-values exs 0 exs in
    let at' = λ (n : ℕ) (ex : ConvoExchange) (h : get_elem? exs n ≡ some ex).
      (rw (zero-add n) at (at n ex h)) in
    (
      replies,
      rw e,
      record {
        size = l;
        alone = replies-alone exs replies at';
        paired = replies-paired exs replies at';
        crowded = replies-crowded exs replies at';
      },
    )

-- The last server answers every batch. If exchanges `i` and `j` are the first two that name a dead
-- drop, each of the two is answered with the other's message.
pub exchange_all-paired :
    (exs : List ConvoExchange) (d : Bytes) (i j : ℕ) (ps : List ℕ) (x y : ConvoExchange)
    → positions d 0 exs ≡ i ∷ j ∷ ps
    → get_elem? exs i ≡ some x
    → get_elem? exs j ≡ some y
    → (replies : List Bytes) × (exchange_all exs ≡ ok (replies, (tally exs).count))
      × (length replies ≡ length exs)
      × (get_elem? replies i ≡ some y.encrypted_message)
      × (get_elem? replies j ≡ some x.encrypted_message)
exchange_all-paired exs d i j ps x y p e f =
    let (replies, r, h) = exchange_all-IsExchanged exs in
    let (a, b) = h.paired d i j ps x y p e f in (replies, r, h.size, a, b)

-- The last server answers every batch. The only exchange that names its dead drop is answered with
-- its own message.
pub exchange_all-alone :
    (exs : List ConvoExchange) (i : ℕ) (ex : ConvoExchange)
    → get_elem? exs i ≡ some ex
    → positions ex.dead_drop 0 exs ≡ i ∷ []
    → (replies : List Bytes) × (exchange_all exs ≡ ok (replies, (tally exs).count))
      × (get_elem? replies i ≡ some ex.encrypted_message)
exchange_all-alone exs i ex e p =
    let (replies, r, h) = exchange_all-IsExchanged exs in (replies, r, h.alone i ex e p)

-- The last server answers every batch. An exchange that names a dead drop after two others is
-- answered with the message of the first of them.
pub exchange_all-crowded :
    (exs : List ConvoExchange) (i j k : ℕ) (ps : List ℕ) (x z : ConvoExchange)
    → positions z.dead_drop 0 exs ≡ i ∷ j ∷ ps
    → get_elem? exs i ≡ some x
    → get_elem? exs k ≡ some z
    → k ≢ i
    → k ≢ j
    → (replies : List Bytes) × (exchange_all exs ≡ ok (replies, (tally exs).count))
      × (get_elem? replies k ≡ some x.encrypted_message)
exchange_all-crowded exs i j k ps x z p e f ni nj =
    let (replies, r, h) = exchange_all-IsExchanged exs in
    (replies, r, h.crowded i j k ps x z p e f ni nj)
