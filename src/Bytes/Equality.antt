-- ===== src/Bytes/Equality.antt =====
-- The equality that `bytes_eq` tests.
use vuvuzela.Prelude.{◌≡◌, refl, ◌↔◌, true, [], ◌∷◌, arith}
use vuvuzela.Bytes.{Bytes, bytes_eq}

bytes_eq_sound : (x y : Bytes) → bytes_eq x y ≡ true → x ≡ y
unfolding bytes_eq
bytes_eq_sound [] [] h = refl
bytes_eq_sound [] (b ∷ y) h = cc
bytes_eq_sound (a ∷ x) [] h = cc
bytes_eq_sound (a ∷ x) (b ∷ y) h = ground (arith, bytes_eq_sound x y)

bytes_eq_refl : (x : Bytes) → bytes_eq x x ≡ true
unfolding bytes_eq
bytes_eq_refl [] = refl
bytes_eq_refl (a ∷ x) = ground (arith, bytes_eq_refl x)

pub bytes_eq_iff : (x y : Bytes) → (bytes_eq x y ≡ true) ↔ (x ≡ y)
bytes_eq_iff x y = (bytes_eq_sound x y, λ e. rw e (bytes_eq_refl y))
