-- ===== src/Examples/Toy.antt =====
-- A box that keeps the documented laws: a tag made of the key and the nonce in front of the message.
use vuvuzela.Prelude.{
  ℕ, ◌+◌, ◌≡◌, refl, ap, [], ◌∷◌, ◌++◌, Option, none, some, arith, ltb, ◌==◌, ◌&&◌, length, drop,
  replicate, length-drop, if◌then◌else◌,
}
use vuvuzela.Bytes.{Bytes}
use vuvuzela.Nacl.{Nacl, NaclLaws, box_overhead}

abbrev pub total : Bytes → ℕ
total [] = 0
total (x ∷ xs) = x + total xs

abbrev pub toy_public : Bytes → Bytes
toy_public x = total x ∷ replicate 31 0

abbrev pub toy_seal : Bytes → Bytes → Bytes → Bytes
toy_seal m n k = (total k + total n) ∷ (replicate 15 0 ++ m)

-- The tag must fit, and the fifteen bytes behind it must be there.
abbrev pub toy_unseal : Bytes → Bytes → Bytes → Option Bytes
toy_unseal [] n k = none
toy_unseal (t ∷ rest) n k =
    if t == total k + total n && ltb 14 (length rest) then some (drop 15 rest) else none

abbrev pub toy : Nacl
toy = record {
  public_key = toy_public;
  generate_key = λ r. (toy_public (r 0 ∷ []), r 0 ∷ []);
  precompute = λ theirs mine. (total theirs + total mine) ∷ [];
  seal = toy_seal;
  unseal = toy_unseal;
}

toy_unseal-seal : (m n k : Bytes) → toy_unseal (toy_seal m n k) n k ≡ some m
toy_unseal-seal m n k = ground arith

toy_length-unseal :
    (c n k m : Bytes) → toy_unseal c n k ≡ some m → length c ≡ length m + box_overhead
toy_length-unseal [] n k m h = ground arith
toy_length-unseal (t ∷ rest) n k m h = ground (arith, length-drop 15 rest)

toy_shared : (x y : Bytes) → total (toy_public x) + total y ≡ total (toy_public y) + total x
toy_shared x y = omega arith

pub toy_laws : NaclLaws toy
toy_laws = record {
  unseal-seal = toy_unseal-seal;
  length-seal = λ m n k. omega arith;
  length-unseal = toy_length-unseal;
  shared_key = λ x y. ap (λ (t : ℕ). t ∷ []) (toy_shared x y);
  key_pair = λ r. refl;
  length-public = λ r. refl;
}
