-- ===== src/Rounds.antt =====
-- A Go map from round numbers, as an association list.
use vuvuzela.Prelude.{refl, ℕ, ◌≡◌, List, [], ◌∷◌, Option, none, some, arith, ◌==◌, if◌then◌else◌}

abbrev pub Rounds {ℓ} : Type ℓ → Type ℓ
Rounds V = List (ℕ × V)

module _ {ℓ} {V : Type ℓ} where
  unfoldable pub lookup : ℕ → Rounds V → Option V
  lookup k [] = none
  lookup k ((j, v) ∷ m) = if j == k then some v else lookup k m

  unfoldable pub delete : ℕ → Rounds V → Rounds V
  delete k [] = []
  delete k ((j, v) ∷ m) = if j == k then delete k m else (j, v) ∷ delete k m

  -- `m[k] = v`
  unfoldable pub insert : ℕ → V → Rounds V → Rounds V
  unfolding delete
  insert k v m = (k, v) ∷ delete k m

  pub lookup-delete :
      (k j : ℕ) (m : Rounds V) → lookup j (delete k m) ≡ (if k == j then none else lookup j m)
  unfolding lookup delete
  lookup-delete k j [] = ground arith
  lookup-delete k j ((i, v) ∷ m) = ground (arith, lookup-delete k j m)

  pub lookup-insert :
      (k j : ℕ) (v : V) (m : Rounds V)
      → lookup j (insert k v m) ≡ (if k == j then some v else lookup j m)
  unfolding lookup insert
  lookup-insert k j v m = ground (arith, lookup-delete k j m)

  pub lookup-inserted : (k : ℕ) (v : V) (m : Rounds V) → lookup k (insert k v m) ≡ some v
  lookup-inserted k v m = ground (arith, lookup-insert k k v m)

  pub lookup-deleted : (k : ℕ) (m : Rounds V) → lookup k (delete k m) ≡ none
  lookup-deleted k m = ground (arith, lookup-delete k k m)

  pub delete-delete : (k : ℕ) (m : Rounds V) → delete k (delete k m) ≡ delete k m
  unfolding delete
  delete-delete k [] = refl
  delete-delete k ((j, v) ∷ m) = ground (arith, delete-delete k m)

  pub insert-insert : (k : ℕ) (v w : V) (m : Rounds V) → insert k v (insert k w m) ≡ insert k v m
  unfolding insert
  insert-insert k v w m = ground (arith, delete-delete k m)

  pub delete-insert : (k : ℕ) (v : V) (m : Rounds V) → delete k (insert k v m) ≡ delete k m
  unfolding insert delete
  delete-insert k v m = ground (arith, delete-delete k m)

pub ruleset round_laws = (lookup-insert, lookup-delete)
