-- ===== src/Rpc.antt =====
-- vrpc/client.go: calls of another server, as steps on that server's state.
use vuvuzela.Prelude.{List, [], ◌∷◌}
use vuvuzela.Run.{Run, ok, err, panic, blocked, wrap, Error, remote}

-- A step on a state that ends as a call does.
abbrev pub Call : Type 0 → Type 0 → Type 0
Call S A = S → S × Run A

-- A server that panics is gone, and its client gets an error.
abbrev pub received {ℓ} : {A : Type ℓ} → Run A → Run A
received panic = err remote
received (ok a) = ok a
received (err e) = err e
received blocked = blocked

module _ {S : Type 0} where
  abbrev pub pure : {A : Type 0} → A → Call S A
  pure a s = (s, ok a)

  abbrev pub continue : {A B : Type 0} → (A → Call S B) → S → Run A → S × Run B
  continue f s (ok a) = f a s
  continue f s (err e) = (s, err e)
  continue f s panic = (s, panic)
  continue f s blocked = (s, blocked)

  infixl 5 ◌>>=◌ ◌>>◌
  abbrev pub ◌>>=◌ : {A B : Type 0} → Call S A → (A → Call S B) → Call S B
  ◌>>=◌ m f s = continue f (m s).0 (m s).1

  abbrev pub ◌>>◌ : {B : Type 0} → Call S (Unit {0}) → Call S B → Call S B
  m >> k = m >>= λ _. k

  -- A computation that does not look at the state.
  abbrev pub lift : {A : Type 0} → Run A → Call S A
  lift r s = (s, r)

  -- `fmt.Errorf("…: %s", err)` around a failed call.
  abbrev pub wrapping : {A : Type 0} → (Error → Error) → Call S A → Call S A
  wrapping f m s = ((m s).0, wrap f (m s).1)

  -- `client.Call`.
  abbrev pub call : {A : Type 0} → Call S A → Call S A
  call m s = ((m s).0, received (m s).1)

  -- `client.CallMany`: the calls one after the other, up to the first that fails. The program sends
  -- them in parallel; here they take effect in the order of the list.
  unfoldable pub call_many : {X A : Type 0} → (X → Call S A) → List X → Call S (List A)
  call_many f [] = pure []
  call_many f (x ∷ xs) = do a ← call (f x); rest ← call_many f xs; pure (a ∷ rest)

-- Steps of two processes: of this one, and of the server that it calls.
module _ {S T : Type 0} {A : Type 0} where
  abbrev pub here : Call S A → Call (S × T) A
  here m (s, t) = (((m s).0, t), (m s).1)

  abbrev pub there : Call T A → Call (S × T) A
  there m (s, t) = ((s, (m t).0), (m t).1)
