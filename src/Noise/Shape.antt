-- ===== src/Noise/Shape.antt =====
-- noise.go: the number, the sizes and the dead drops of the noise.
use vuvuzela.Prelude.{
  ℕ, zero, suc, ◌+◌, ◌-◌, ◌*◌, ◌%◌, ◌≡◌, refl, sym, ap, List, [], ◌∷◌, some, arith, length, take,
  drop, length-append, length-take,
}
use vuvuzela.Bytes.{Bytes, Random, read_random}
use vuvuzela.Nacl.{Nacl, NaclLaws}
use vuvuzela.Wire.{
  size_convo_exchange, onion_overhead, unmarshal_exchange, ConvoExchange, size_encrypted_message,
}
use vuvuzela.Wire.RoundTrip.{take-append}
use vuvuzela.Onion.Layers.{length-seal_onion}
use vuvuzela.Noise.{
  Entropy, later_rounds, double_exchanges, fill_with_fake_singles, fill_with_fake_doubles,
}

pub length-read_random : (n : ℕ) (r : Random) → length (read_random n r) ≡ n
unfolding read_random
length-read_random zero r = refl
length-read_random (suc n) r = ap suc (length-read_random n (λ i. r (suc i)))

abbrev exchange_of : Bytes → ConvoExchange
exchange_of b = record {
  dead_drop = take 16 b;
  encrypted_message = take size_encrypted_message (drop 16 b);
}

unmarshal_exchange-whole :
    (b : Bytes) → length b ≡ size_convo_exchange → unmarshal_exchange b ≡ some (exchange_of b)
unfolding unmarshal_exchange
unmarshal_exchange-whole b h = ground arith

length-double_exchanges :
    (r : ℕ → Random)
    → (length (double_exchanges r).0 ≡ size_convo_exchange)
      × (length (double_exchanges r).1 ≡ size_convo_exchange)
unfolding double_exchanges
length-double_exchanges r =
    let first = read_random size_convo_exchange (r 0) in
    let rest = read_random (size_convo_exchange - 16) (r 1) in
    let size = length-read_random size_convo_exchange (r 0) in
    (
      size,
      omega (
        arith,
        size,
        length-take 16 first,
        length-append (take 16 first) rest,
        length-read_random (size_convo_exchange - 16) (r 1),
      ),
    )

same_front : (r : ℕ → Random) → take 16 (double_exchanges r).0 ≡ take 16 (double_exchanges r).1
unfolding double_exchanges
same_front r =
    let first = read_random size_convo_exchange (r 0) in
    sym (
      take-append 16 (take 16 first) _
        (omega (arith, length-take 16 first, length-read_random size_convo_exchange (r 0))))

-- Both exchanges of a fake pair are whole, and name the same dead drop.
pub double_exchanges-same_drop :
    (r : ℕ → Random)
    → (x : ConvoExchange) × (y : ConvoExchange) × (unmarshal_exchange (double_exchanges r).0
        ≡ some x)
      × (unmarshal_exchange (double_exchanges r).1 ≡ some y)
      × (x.dead_drop ≡ y.dead_drop)
double_exchanges-same_drop r =
    let (first, second) = double_exchanges r in
    let (size, size') = length-double_exchanges r in
    (
      exchange_of first,
      exchange_of second,
      unmarshal_exchange-whole first size,
      unmarshal_exchange-whole second size',
      same_front r,
    )

-- Every entry has the length.
abbrev pub AllSized : ℕ → List Bytes → Type 0
AllSized n [] = Unit
AllSized n (x ∷ xs) = (length x ≡ n) × AllSized n xs

module _ (box : Nacl) (laws : NaclLaws box) (nonce : Bytes) (keys : List Bytes) where
  -- FillWithFakeSingles of `n` entries makes `n` onions of an exchange.
  pub fill_with_fake_singles-shape :
      (n : ℕ) (rs : Entropy)
      → (length (fill_with_fake_singles box nonce keys n rs) ≡ n)
        × AllSized
            (size_convo_exchange + length keys * onion_overhead)
            (fill_with_fake_singles box nonce keys n rs)
  unfolding fill_with_fake_singles
  fill_with_fake_singles-shape zero rs = (refl, tt)
  fill_with_fake_singles-shape (suc n) rs =
      let exchange = read_random size_convo_exchange (rs 0 0) in
      let size = length-seal_onion box laws exchange nonce keys (λ l. rs 0 (suc l)) in
      let (count, sized) = fill_with_fake_singles-shape n (later_rounds rs) in
      (ap suc count, (omega (arith, size, length-read_random size_convo_exchange (rs 0 0)), sized))

  -- FillWithFakeDoubles of an even number of entries makes that many onions of an exchange.
  pub fill_with_fake_doubles-shape :
      (n : ℕ) (rs : Entropy)
      → n % 2 ≡ 0
      → (length (fill_with_fake_doubles box nonce keys n rs) ≡ n)
        × AllSized
            (size_convo_exchange + length keys * onion_overhead)
            (fill_with_fake_doubles box nonce keys n rs)
  unfolding fill_with_fake_doubles
  fill_with_fake_doubles-shape zero rs even = (refl, tt)
  fill_with_fake_doubles-shape (suc zero) rs even = absurd (omega arith)
  fill_with_fake_doubles-shape (suc (suc n)) rs even =
      let (first, second) = double_exchanges (rs 0) in
      let (size, size') = length-double_exchanges (rs 0) in
      let (count, sized) = fill_with_fake_doubles-shape n (later_rounds rs) (omega arith) in
      (
        omega (arith, count),
        (
          omega (arith, size, length-seal_onion box laws first nonce keys (λ l. rs 0 (2 + l + l))),
          (
            omega (
              arith,
              size',
              length-seal_onion box laws second nonce keys (λ l. rs 0 (3 + l + l)),
            ),
            sized,
          ),
        ),
      )
