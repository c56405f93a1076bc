-- ===== src/Noise.antt =====
-- noise.go: the onions that a server adds to a round. Each is built from random bytes and sealed
-- for the servers further on. The parallel loops write separate entries, so their order is not seen.
pub mod Shape
use vuvuzela.Prelude.{
  ℕ, zero, suc, ◌+◌, ◌-◌, List, [], ◌∷◌, ◌++◌, leb, length, take, replicate, if◌then◌else◌,
}
use vuvuzela.Run.{Run, ok, panic}
use vuvuzela.Bytes.{Bytes, Random, read_random, put_be32, u32}
use vuvuzela.Nacl.{Nacl}
use vuvuzela.Wire.{size_convo_exchange, size_dial_exchange}
use vuvuzela.Onion.{seal_onion}

-- The random reads of a loop: those of round `i` are `rs i 0`, `rs i 1` and so on.
abbrev pub Entropy : Type 0
Entropy = ℕ → ℕ → Random

abbrev pub later_rounds : Entropy → Entropy
later_rounds rs i = rs (suc i)

-- The two exchanges of a fake pair: the second takes the dead drop of the first.
unfoldable pub double_exchanges : (ℕ → Random) → Bytes × Bytes
double_exchanges r =
    let first = read_random size_convo_exchange (r 0) in
    (first, take 16 first ++ read_random (size_convo_exchange - 16) (r 1))

-- `buckets[idx] = b` for each fake introduction to bucket `b`, from bucket `b` on.
pub buckets_from : ℕ → List ℕ → List ℕ
buckets_from b [] = []
buckets_from b (count ∷ counts) = replicate count b ++ buckets_from (suc b) counts

module _ (box : Nacl) (nonce : Bytes) (next_keys : List Bytes) where
  abbrev onion_of : Bytes → (ℕ → Random) → Bytes
  onion_of exchange rs = (seal_onion box exchange nonce next_keys rs).0

  -- FillWithFakeSingles of `n` entries.
  unfoldable pub fill_with_fake_singles : ℕ → Entropy → List Bytes
  fill_with_fake_singles zero rs = []
  fill_with_fake_singles (suc n) rs =
      onion_of (read_random size_convo_exchange (rs 0 0)) (λ l. rs 0 (suc l))
      ∷ fill_with_fake_singles n (later_rounds rs)

  -- FillWithFakeDoubles of `n` entries: `n / 2` rounds, and an odd entry at the end stays nil.
  unfoldable pub fill_with_fake_doubles : ℕ → Entropy → List Bytes
  fill_with_fake_doubles zero rs = []
  fill_with_fake_doubles (suc zero) rs = [] ∷ []
  fill_with_fake_doubles (suc (suc n)) rs =
      let (first, second) = double_exchanges (rs 0) in
      onion_of first (λ l. rs 0 (2 + l + l))
      ∷ onion_of second (λ l. rs 0 (3 + l + l))
      ∷ fill_with_fake_doubles n (later_rounds rs)

  pub introductions : List ℕ → Entropy → List Bytes
  introductions [] rs = []
  introductions (b ∷ bs) rs =
      onion_of (put_be32 (u32 b) ++ read_random (size_dial_exchange - 4) (rs 0 0))
        (λ l. rs 0 (suc l))
      ∷ introductions bs (later_rounds rs)

  -- FillWithFakeIntroductions of `n` entries. More counts than entries write past the end.
  unfoldable pub fill_with_fake_introductions : ℕ → List ℕ → Entropy → Run (List Bytes)
  unfolding introductions buckets_from
  fill_with_fake_introductions n counts rs =
      let buckets = buckets_from 0 counts in
      if leb (length buckets) n
      then ok (introductions (buckets ++ replicate (n - length buckets) 0) rs)
      else panic
