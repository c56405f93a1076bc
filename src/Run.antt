-- ===== src/Run.antt =====
-- How a Go call ends, the errors that the calls of this program return, and the rules for `Run`.
use vuvuzela.Prelude.{ℕ, ◌≡◌, refl, Option, none, some}

-- The source's `fmt.Errorf` values, by their format string; `in_call` is the `"Open: %s"` wrapping.
pub data Error : Type 0 where
  round_not_found round_exists wrong_status : ℕ → Error
  overflowing_onions : ℕ → ℕ → ℕ → Error
  not_last_server unknown_message_type unsupported_message_type malformed remote : Error
  no_convo_handler no_dial_handler dial_failed : Error
  new_round_call open_call add_call close_call get_call delete_call run_round_call : Error → Error

-- `panic` is a Go run-time panic. `blocked` is a call that waits: for a locked mutex, or for more
-- input.
pub data Run {ℓ} (A : Type ℓ) : Type ℓ where
  ok : A → Run A
  err : Error → Run A
  panic blocked : Run A

infixl 5 ◌>>=◌ ◌>>◌
abbrev pub ◌>>=◌ {ℓ κ} : {A : Type ℓ} {B : Type κ} → Run A → (A → Run B) → Run B
blocked >>= f = blocked
panic >>= f = panic
err e >>= f = err e
ok a >>= f = f a

abbrev pub ◌>>◌ {ℓ} : {B : Type ℓ} → Run (Unit {0}) → Run B → Run B
m >> k = m >>= λ _. k

abbrev pub or_else {ℓ} : {A : Type ℓ} → Option A → Run A → Run A
or_else none otherwise = otherwise
or_else (some a) otherwise = ok a

-- A failed call, as an error of another kind.
abbrev pub wrap {ℓ} : {A : Type ℓ} → (Error → Error) → Run A → Run A
wrap f (ok a) = ok a
wrap f (err e) = err (f e)
wrap f panic = panic
wrap f blocked = blocked

-- A sequence that ends well: its first part does, and hands on a value.
module _ {ℓ κ} {A : Type ℓ} {B : Type κ} where
  pub >>=-eq-ok :
      (m : Run A) (next : A → Run B) {y : B}
      → (m >>= next) ≡ ok y
      → (x : A) × (m ≡ ok x) × (next x ≡ ok y)
  >>=-eq-ok blocked next e = cc
  >>=-eq-ok panic next e = cc
  >>=-eq-ok (err _) next e = cc
  >>=-eq-ok (ok x) next e = (x, refl, e)
