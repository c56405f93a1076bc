-- ===== src/Nacl.antt =====
-- golang.org/x/crypto/nacl/box, which the program calls and does not contain: a parameter, with
-- what its documentation promises.
use vuvuzela.Prelude.{ℕ, ◌+◌, ◌≡◌, Option, some, length}
use vuvuzela.Bytes.{Bytes, Random}

-- `box.Overhead`.
abbrev pub box_overhead : ℕ
box_overhead = 16

-- `generate_key` returns the public key and the private one. `precompute` takes their public key and
-- my private one. `seal` and `unseal` are `SealAfterPrecomputation` and `OpenAfterPrecomputation`
-- of a message or box, a nonce and a shared key.
pub record Nacl : Type 0 where
  pub public_key : Bytes → Bytes
  pub generate_key : Random → Bytes × Bytes
  pub precompute : Bytes → Bytes → Bytes
  pub seal : Bytes → Bytes → Bytes → Bytes
  pub unseal : Bytes → Bytes → Bytes → Option Bytes

-- A box opens under the key and the nonce that sealed it, and is 16 bytes longer than its message;
-- two parties derive the same shared key.
pub record NaclLaws (b : Nacl) : Type 0 where
  pub unseal-seal : (m n k : Bytes) → b.unseal (b.seal m n k) n k ≡ some m
  pub length-seal : (m n k : Bytes) → length (b.seal m n k) ≡ length m + box_overhead
  pub length-unseal :
      (c n k m : Bytes) → b.unseal c n k ≡ some m → length c ≡ length m + box_overhead
  pub shared_key : (x y : Bytes) → b.precompute (b.public_key x) y ≡ b.precompute (b.public_key y) x
  pub key_pair : (r : Random) → (b.generate_key r).0 ≡ b.public_key (b.generate_key r).1
  pub length-public : (r : Random) → length (b.generate_key r).0 ≡ 32
