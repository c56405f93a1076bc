-- ===== src/Convo/Replies.antt =====
-- Get on a closed round: the replies that it makes, slot by slot.
use vuvuzela.Run.{blocked, panic, err, ok}
use vuvuzela.Noise.Shape.{length-read_random}
use vuvuzela.Prelude.{
  Bool-cases, inr, inl, ◌∙◌, sym, true, ◌==◌, ap, take, drop, length, List, get_elem?, ℕ, arith,
  refl, suc, zero, some, none, [], ◌<◌, ◌≤◌, ◌-◌, ◌+◌, ◌≡◌, ◌∷◌,
}
use native.Mathlib.Nat.{add-zero, zero-add}
use vuvuzela.Bytes.{Bytes, Random}
use vuvuzela.Nacl.{Nacl}
use vuvuzela.Wire.{backward_nonce}
use vuvuzela.Spans.{Span}
use vuvuzela.Spans.Cover.{slice}
use vuvuzela.Node.{Node, Config, ConvoRound, convo_round_closed}
use vuvuzela.Convo.State.{with_round, get_round-with_round}
use vuvuzela.Convo.Close.{outgoing_onion_size, get_onion, get_onions, get}

-- Every entry has `n` bytes.
abbrev pub AllSized : ℕ → List Bytes → Type 0
AllSized n [] = Unit
AllSized n (x ∷ xs) = (length x ≡ n) × AllSized n xs

pub get_elem?-AllSized :
    (n : ℕ) (xs : List Bytes) (i : ℕ) {x : Bytes}
    → AllSized n xs
    → get_elem? xs i ≡ some x
    → length x ≡ n
get_elem?-AllSized n [] i h e = cc
get_elem?-AllSized n (y ∷ xs) zero h e = let same : y ≡ _ = cc in ap length (sym same) ∙ h.0
get_elem?-AllSized n (y ∷ xs) (suc i) h e = get_elem?-AllSized n xs i h.1 e

-- Slot `i` has a reply that Get can seal: a message of its own that was kept, or none.
pub data CanReply (r : ConvoRound) (i : ℕ) : Type 0 where
  no_message : get_elem? r.incoming_index i ≡ some none → CanReply r i
  replied :
      (v : ℕ) (reply key : Bytes)
      → get_elem? r.incoming_index i ≡ some (some v)
      → get_elem? r.replies v ≡ some reply
      → get_elem? r.shared_keys i ≡ some (some key)
      → CanReply r i

module _ (box : Nacl) (cfg : Config) (r : ConvoRound) (nonce : Bytes) (padding : ℕ → Random) where
  -- What Get returns for slot `i`, and `[]` where it would panic.
  pub answer : ℕ → Bytes
  answer i = elim (get_onion box cfg r nonce i (padding i)) [
    | ok onion ↦ onion
    | err e ↦ []
    | panic ↦ []
    | blocked ↦ []
  ]

  pub answer-replied :
      (i v : ℕ) (reply key : Bytes)
      → get_elem? r.incoming_index i ≡ some (some v)
      → get_elem? r.replies v ≡ some reply
      → get_elem? r.shared_keys i ≡ some (some key)
      → length (box.seal reply nonce key) ≡ outgoing_onion_size box cfg
      → answer i ≡ box.seal reply nonce key
  unfolding answer get_onion
  answer-replied i v reply key e f g l =
      let sized : (length (box.seal reply nonce key) == outgoing_onion_size box cfg) ≡ true =
        ground arith in
      rw (answer, get_onion, e, f, g, sized)

  get_onion-answer :
      (i : ℕ) → CanReply r i → get_onion box cfg r nonce i (padding i) ≡ ok (answer i)
  unfolding answer get_onion
  get_onion-answer i (no_message e) = rw (answer, get_onion, e)
  get_onion-answer i (replied v reply key e f g) = rw (answer, get_onion, e, f, g)

  -- The answers of `k` slots from slot `i` on.
  pub answers : ℕ → ℕ → List Bytes
  answers i zero = []
  answers i (suc k) = answer i ∷ answers (suc i) k

  get_onions-answers :
      (i k : ℕ)
      → ((j : ℕ) → i ≤ j → j < i + k → CanReply r j)
      → get_onions box cfg r nonce i k padding ≡ ok (answers i k)
  unfolding get_onions answers
  get_onions-answers i zero can = refl
  get_onions-answers i (suc k) can =
      let rest = get_onions-answers (suc i) k (λ j h l. can j (omega arith) (omega arith)) in
      rw (get_onion-answer i (can i (omega arith) (omega arith)), get_onions, rest)

  pub length-answers : (i k : ℕ) → length (answers i k) ≡ k
  unfolding answers
  length-answers i zero = refl
  length-answers i (suc k) = ap suc (length-answers (suc i) k)

  pub get_elem?-answers : (i k j : ℕ) → j < k → get_elem? (answers i k) j ≡ some (answer (i + j))
  unfolding answers
  get_elem?-answers i zero j h = absurd (omega arith)
  get_elem?-answers i (suc k) zero h = rw add-zero
  get_elem?-answers i (suc k) (suc j) h =
      let e : i + suc j ≡ suc i + j = omega arith in
      rw e (get_elem?-answers (suc i) k j (omega arith))

  length-answer : (i : ℕ) → CanReply r i → length (answer i) ≡ outgoing_onion_size box cfg
  unfolding answer get_onion
  length-answer i (CanReply.no_message e) =
      rw (answer, get_onion, e) (length-read_random (outgoing_onion_size box cfg) (padding i))
  length-answer i (CanReply.replied v reply key e f g) =
      elim (Bool-cases (length (box.seal reply nonce key) == outgoing_onion_size box cfg)) [
        | inl right ↦
            let size : length (box.seal reply nonce key) ≡ outgoing_onion_size box cfg =
              ground arith in
            rw (answer, get_onion, e, f, g, right) size
        | inr wrong ↦
            rw (answer, get_onion, e, f, g, wrong)
              (length-read_random (outgoing_onion_size box cfg) (padding i))
      ]

  pub answers-AllSized :
      (i k : ℕ)
      → ((j : ℕ) → i ≤ j → j < i + k → CanReply r j)
      → AllSized (outgoing_onion_size box cfg) (answers i k)
  unfolding answers
  answers-AllSized i zero can = tt
  answers-AllSized i (suc k) can = (
    length-answer i (can i (omega arith) (omega arith)),
    answers-AllSized (suc i) k (λ j h l. can j (omega arith) (omega arith)),
  )

  drop-answers : (i c k : ℕ) → drop c (answers i k) ≡ answers (i + c) (k - c)
  unfolding answers
  drop-answers i zero k = let e : k - 0 ≡ k = omega arith in rw (add-zero, e)
  drop-answers i (suc c) zero = let e : 0 - suc c ≡ 0 = omega arith in rw e
  drop-answers i (suc c) (suc k) =
      let e : i + suc c ≡ suc i + c = omega arith in
      let f : suc k - suc c ≡ k - c = omega arith in rw (e, f) (drop-answers (suc i) c k)

  take-answers : (i c k : ℕ) → c ≤ k → take c (answers i k) ≡ answers i c
  unfolding answers
  take-answers i zero k h = refl
  take-answers i (suc c) zero h = absurd (omega arith)
  take-answers i (suc c) (suc k) h = ap (◌∷◌ (answer i)) (take-answers (suc i) c k (omega arith))

  pub slice-answers :
      (n : ℕ) (s : Span) → s.start + s.count ≤ n → slice (answers 0 n) s ≡ answers s.start s.count
  slice-answers n s h =
      rw (
        drop-answers 0 s.start n,
        zero-add,
        take-answers s.start s.count (n - s.start) (omega arith),
      )

-- Get on a round all of whose slots can be replied to returns the answers of the slots asked for.
module _ (box : Nacl) (cfg : Config) (round : ℕ) (r : ConvoRound) (node : Node)
    (padding : ℕ → Random) (closed : r.status ≡ convo_round_closed) where
  pub get-answers :
      (offset count : ℕ)
      → ((j : ℕ) → j < offset + count → CanReply r j)
      → get box cfg round offset count padding (with_round round r node) ≡ (
        with_round round r node,
        ok (answers box cfg r (backward_nonce round) padding offset count),
      )
  unfolding get
  get-answers offset count can = rw (
    get_round-with_round round convo_round_closed r node closed,
    get_onions-answers box cfg r (backward_nonce round) padding offset count (λ j _ l. can j l),
  )
