-- ===== src/Convo/Fill.antt =====
-- Open and Add: how the slots of an open round fill up.
use vuvuzela.Prelude.{
  sym, length-map, ◌∙◌, ◌≤◌, ◌-◌, map, Option-cases, length-append, ℕ, Bool-cases, ltb, arith, inr,
  inl, suc, zero, true, ◌+◌, replicate, drop, take, ap, refl, some, none, [], if◌then◌else◌, ◌==◌,
  ◌≡◌, ◌++◌, ◌∷◌, set, length, Option, List,
}
use mathlib.Core.List.{append_assoc, map-append}
use vuvuzela.Run.{ok}
use vuvuzela.Bytes.{Bytes}
use vuvuzela.Nacl.{Nacl}
use vuvuzela.Wire.{forward_nonce}
use vuvuzela.Node.{Node, Config, ConvoRound, convo_round_open}
use vuvuzela.Convo.State.{with_round, get_round-with_round, put_round-with_round}
use vuvuzela.Convo.{
  convo_round_new, Slots, store, check_fit, expected_onion_size, add_onion, add_onions, add,
  open_round,
}

set-append {ℓ} :
    {A : Type ℓ} (xs ys : List A) (y v : A) → set (xs ++ y ∷ ys) (length xs) v ≡ xs ++ v ∷ ys
set-append [] ys y v = refl
set-append (x ∷ xs) ys y v = ap (◌∷◌ x) (set-append xs ys y v)

append_in_range {ℓ} :
    {A : Type ℓ} (xs ys : List A) (y : A) → ltb (length xs) (length (xs ++ y ∷ ys)) ≡ true
append_in_range xs ys y = ground (arith, length-append xs (y ∷ ys))

store-append :
    {A : Type 0} (xs ys : List A) (y v : A) → store (xs ++ y ∷ ys) (length xs) v ≡ ok (xs ++ v ∷ ys)
unfolding store
store-append xs ys y v = rw (append_in_range xs ys y, set-append xs ys y v)

check_fit_ok : (n offset k : ℕ) → offset + k ≤ n → check_fit n offset k ≡ ok tt
unfolding check_fit
check_fit_ok n offset k h = ground arith

module _ (box : Nacl) (cfg : Config) where
  open cfg use {private_key}

  -- What Add leaves in the two slots of an onion: the shared key, and the message inside if the
  -- onion has the right size and opens.
  unfoldable pub key_slot : Bytes → Option Bytes
  key_slot onion =
      if length onion == expected_onion_size box cfg
      then some (box.precompute (take 32 onion) private_key)
      else some (replicate 32 0)

  unfoldable pub message_slot : Bytes → Bytes → Option Bytes
  message_slot nonce onion =
      if length onion == expected_onion_size box cfg
      then box.unseal (drop 32 onion) nonce (box.precompute (take 32 onion) private_key)
      else none

  add_onion-fresh :
      (nonce onion : Bytes) (keys incoming rest rest' : Slots)
      → length incoming ≡ length keys
      → add_onion box cfg nonce (length keys) onion (keys ++ none ∷ rest, incoming ++ none ∷ rest')
        ≡ ok (keys ++ key_slot onion ∷ rest, incoming ++ message_slot nonce onion ∷ rest')
  unfolding add_onion key_slot message_slot
  add_onion-fresh nonce onion keys incoming rest rest' l =
      let key = box.precompute (take 32 onion) private_key in
      rw (append_in_range keys rest none)
        (elim (Bool-cases (length onion == expected_onion_size box cfg)) [
          | inr wrong ↦ rw (wrong, set-append keys rest none (some (replicate 32 0)))
          | inl right ↦ rw right (elim (Option-cases (box.unseal (drop 32 onion) nonce key)) [
            | inl shut ↦ rw (shut, set-append keys rest none (some key))
            | inr (m, opened) ↦
                let placed = rw l at (store-append incoming rest' none (some m)) in
                rw (opened, placed, set-append keys rest none (some key))
          ])
        ])

  add_onions-fresh :
      (nonce : Bytes) (onions : List Bytes) (k m : ℕ) (keys incoming : Slots)
      → length incoming ≡ length keys
      → m ≡ length onions + k
      → add_onions box cfg nonce
          (length keys)
          onions
          (keys ++ replicate m none, incoming ++ replicate m none)
        ≡ ok (
          keys ++ (map key_slot onions ++ replicate k none),
          incoming ++ (map (message_slot nonce) onions ++ replicate k none),
        )
  unfolding add_onions
  add_onions-fresh nonce [] k m keys incoming l e = let e' : m ≡ k = omega arith in rw e'
  add_onions-fresh nonce (onion ∷ onions) k zero keys incoming l e = absurd (omega arith)
  add_onions-fresh nonce (onion ∷ onions) k (suc m) keys incoming l e =
      let first = key_slot onion in
      let message = message_slot nonce onion in
      let longer : length (keys ++ first ∷ []) ≡ suc (length keys) =
        omega (arith, length-append keys (first ∷ [])) in
      let same : length (incoming ++ message ∷ []) ≡ length (keys ++ first ∷ []) =
        omega (arith, l, length-append keys (first ∷ []), length-append incoming (message ∷ [])) in
      let ih =
        add_onions-fresh nonce onions k m (keys ++ first ∷ []) (incoming ++ message ∷ []) same
          (omega arith) in
      rw
        (
          add_onion-fresh nonce onion keys incoming (replicate m none) (replicate m none) l,
          add_onions,
        )
        (simp (append_assoc, longer) at ih)

  module _ (round n : ℕ) where
    -- An open round for `n` onions of which `done` have come.
    unfoldable pub filled : List Bytes → ConvoRound → ConvoRound
    filled done r = record r {
      status = convo_round_open;
      num_incoming = n;
      shared_keys = map key_slot done ++ replicate (n - length done) none;
      incoming = map (message_slot (forward_nonce round)) done ++ replicate (n - length done) none;
    }

    pub open_round-filled :
        (r : ConvoRound) (node : Node)
        → r.status ≡ convo_round_new
        → open_round box cfg round n (with_round round r node)
          ≡ (with_round round (filled [] r) node, ok tt)
    unfolding open_round filled
    open_round-filled r node new =
        let all : n - 0 ≡ n = omega arith in
        rw (get_round-with_round round convo_round_new r node new, all)
          (put_round-with_round round r _ node)

    pub add-filled :
        (offset : ℕ) (done onions : List Bytes) (r : ConvoRound) (node : Node)
        → offset ≡ length done
        → length done + length onions ≤ n
        → add box cfg round offset onions (with_round round (filled done r) node)
          ≡ (with_round round (filled (done ++ onions) r) node, ok tt)
    unfolding add filled
    add-filled offset done onions r node e fits =
        let left : n - length done ≡ length onions + (n - length (done ++ onions)) =
          omega (arith, length-append done onions) in
        let counts : length (map key_slot done) ≡ offset = length-map done key_slot ∙ sym e in
        let nonce = forward_nonce round in
        let same : length (map (message_slot nonce) done) ≡ length (map key_slot done) =
          length-map done (message_slot nonce) ∙ sym (length-map done key_slot) in
        let written = rw counts at (
          add_onions-fresh nonce onions (n - length (done ++ onions)) (n - length done)
            (map key_slot done) (map (message_slot nonce) done) same left) in
        rw
          (
            get_round-with_round round convo_round_open (filled done r) node refl,
            check_fit_ok n offset (length onions) (omega arith),
            written,
            map-append key_slot done onions,
            map-append (message_slot nonce) done onions,
            append_assoc,
            append_assoc,
          )
          (put_round-with_round round (filled done r) _ node)
