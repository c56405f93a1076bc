-- ===== src/Wire/RoundTrip.antt =====
-- vuvuzela.go: records and their bytes, and the nonces of rounds and directions.
use mathlib.Core.List.{append-nil}
use vuvuzela.Prelude.{
  Bool, true, false, ℕ, zero, suc, ◌<◌, ◌≡◌, ◌≢◌, refl, sym, ap, ◌∙◌, List, [], ◌∷◌, ◌++◌, some,
  arith, length, length-append, take, drop,
}
use vuvuzela.Bytes.{Bytes, put_be32, be32, u32_mod}
use vuvuzela.Wire.{
  ConvoExchange, Introduction, DialExchange, marshal_exchange, unmarshal_exchange,
  marshal_introduction, unmarshal_introduction, marshal_dial, unmarshal_dial, read_u32,
  forward_nonce, backward_nonce, size_encrypted_message, size_encrypted_intro,
}

pub take-append {ℓ} : {A : Type ℓ} (n : ℕ) (xs ys : List A) → length xs ≡ n → take n (xs ++ ys) ≡ xs
take-append zero [] ys h = refl
take-append zero (x ∷ xs) ys h = absurd (omega arith)
take-append (suc n) [] ys h = absurd (omega arith)
take-append (suc n) (x ∷ xs) ys h = ap (◌∷◌ x) (take-append n xs ys (omega arith))

pub drop-append {ℓ} : {A : Type ℓ} (n : ℕ) (xs ys : List A) → length xs ≡ n → drop n (xs ++ ys) ≡ ys
drop-append zero [] ys h = refl
drop-append zero (x ∷ xs) ys h = absurd (omega arith)
drop-append (suc n) [] ys h = absurd (omega arith)
drop-append (suc n) (x ∷ xs) ys h = drop-append n xs ys (omega arith)

pub take-length {ℓ} : {A : Type ℓ} (n : ℕ) (xs : List A) → length xs ≡ n → take n xs ≡ xs
take-length n xs h = rw (append-nil xs) at (take-append n xs [] h)

-- A word is read back from its four bytes.
pub read_u32-put_be32 : (x : ℕ) (ys : Bytes) → x < u32_mod → read_u32 (put_be32 x ++ ys) ≡ x
unfolding put_be32 read_u32
read_u32-put_be32 x ys h = unfold be32 in omega arith

drop-put_be32 : (x : ℕ) (ys : Bytes) → drop 4 (put_be32 x ++ ys) ≡ ys
unfolding put_be32
drop-put_be32 x ys = refl

length-put_be32 : (x : ℕ) → length (put_be32 x) ≡ 4
unfolding put_be32
length-put_be32 x = refl

-- The array fields have their lengths.
abbrev pub IsExchange : ConvoExchange → Type 0
IsExchange e = (length e.dead_drop ≡ 16) × (length e.encrypted_message ≡ size_encrypted_message)

abbrev pub IsIntroduction : Introduction → Type 0
IsIntroduction i = (i.rendezvous < u32_mod) × (length i.long_term_key ≡ 32)

abbrev pub IsDialExchange : DialExchange → Type 0
IsDialExchange e = (e.bucket < u32_mod) × (length e.encrypted_intro ≡ size_encrypted_intro)

-- A conversation exchange of the fixed sizes is read back from its bytes.
pub unmarshal-marshal_exchange :
    (e : ConvoExchange) → IsExchange e → unmarshal_exchange (marshal_exchange e) ≡ some e
unfolding unmarshal_exchange marshal_exchange
unmarshal-marshal_exchange e h =
    rw
      (
        take-append 16 e.dead_drop e.encrypted_message h.0,
        drop-append 16 e.dead_drop e.encrypted_message h.0,
        take-length size_encrypted_message e.encrypted_message h.1,
      )
      (ground (arith, length-append e.dead_drop e.encrypted_message))

-- An introduction whose fields fit is read back from its bytes.
pub unmarshal-marshal_introduction :
    (i : Introduction) → IsIntroduction i → unmarshal_introduction (marshal_introduction i) ≡ some i
unfolding unmarshal_introduction marshal_introduction
unmarshal-marshal_introduction i h =
    rw
      (
        read_u32-put_be32 i.rendezvous i.long_term_key h.0,
        drop-put_be32 i.rendezvous i.long_term_key,
        take-length 32 i.long_term_key h.1,
      )
      (ground (
        arith,
        length-append (put_be32 i.rendezvous) i.long_term_key,
        length-put_be32 i.rendezvous,
      ))

-- A dialing exchange whose fields fit is read back from its bytes.
pub unmarshal-marshal_dial :
    (e : DialExchange) → IsDialExchange e → unmarshal_dial (marshal_dial e) ≡ some e
unfolding unmarshal_dial marshal_dial
unmarshal-marshal_dial e h =
    rw
      (
        read_u32-put_be32 e.bucket e.encrypted_intro h.0,
        drop-put_be32 e.bucket e.encrypted_intro,
        take-length size_encrypted_intro e.encrypted_intro h.1,
      )
      (ground
        (arith, length-append (put_be32 e.bucket) e.encrypted_intro, length-put_be32 e.bucket))

-- The nonce of a round towards the servers (`true`) or back from them.
abbrev pub nonce_of : Bool → ℕ → Bytes
nonce_of true round = forward_nonce round
nonce_of false round = backward_nonce round

round_of :
    (r s : ℕ) (x y : Bytes) → r < u32_mod → s < u32_mod → put_be32 r ++ x ≡ put_be32 s ++ y → r ≡ s
round_of r s x y h k e = sym (read_u32-put_be32 r x h) ∙ ap read_u32 e ∙ read_u32-put_be32 s y k

directions_differ : (r s : ℕ) → forward_nonce r ≢ backward_nonce s
unfolding forward_nonce backward_nonce
directions_differ r s e =
    let e' : 0 ∷ _ ≡ 1 ∷ _ = sym (drop-put_be32 r _) ∙ ap (drop 4) e ∙ drop-put_be32 s _ in
    grind arith

-- Two nonces are equal only for the same direction and the same round.
pub nonces_distinct :
    (a b : Bool) (r s : ℕ)
    → r < u32_mod
    → s < u32_mod
    → nonce_of a r ≡ nonce_of b s
    → (a ≡ b) × (r ≡ s)
unfolding forward_nonce backward_nonce
nonces_distinct true true r s h k e = (refl, round_of r s _ _ h k e)
nonces_distinct false false r s h k e = (refl, round_of r s _ _ h k e)
nonces_distinct true false r s h k e = absurd (directions_differ r s e)
nonces_distinct false true r s h k e = absurd (directions_differ s r (sym e))
