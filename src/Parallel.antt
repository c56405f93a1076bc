-- ===== src/Parallel.antt =====
-- internal/parallelfor.go: how the workers of ParallelFor share the indices below `n`. One call of
-- `Next` is one step; steps of different workers come in any order. Numbers stay below 2^63.
use vuvuzela.Prelude.{
  ◌∙◌, ℕ, zero, suc, ◌+◌, ◌/◌, ◌≤◌, ◌<◌, ◌≡◌, refl, List, [], ◌∷◌, ◌++◌, Option, none, some, ltb,
  leb, ◌==◌, arith, replicate, if◌then◌else◌, inl, inr, Bool-cases,
}

-- A `P`: what it may hand out are the indices from `current` up to `limit`.
pub record Worker : Type 0 where
  pub current : ℕ
  pub limit : ℕ

-- `current` of the `GP`, the workers, and the indices that were handed out.
pub record Loop : Type 0 where
  pub global : ℕ
  pub workers : List Worker
  pub handed : List ℕ

-- The step size for `cpus` processors.
unfoldable pub step_size : ℕ → ℕ → ℕ
step_size n cpus = let step = n / cpus / 100 in if ltb step 10 then 10 else step

unfoldable pub start_loop : ℕ → Loop
start_loop cpus = record {
  global = 0;
  workers = replicate cpus (record { current = 0; limit = 0 });
  handed = [];
}

module _ (n step : ℕ) where
  -- `P.Next` with `GP.Next` in it: `global`, the worker, and the index that it got.
  unfoldable pub next : ℕ → Worker → ℕ × Worker × Option ℕ
  next global w =
      if leb w.limit w.current
      then (if leb n global then (global + step, w, none) else (
        global + step,
        record { current = global + 1; limit = if ltb n (global + step) then n else global + step },
        some global,
      ))
      else (global, record { current = w.current + 1; limit = w.limit }, some w.current)

  abbrev pub hand_out : Option ℕ → List ℕ → List ℕ
  hand_out none handed = handed
  hand_out (some i) handed = i ∷ handed

  -- One call of `Next` by one of the workers, and a run of such calls.
  pub data Step : Loop → Loop → Type 0 where
    call_next :
        (global : ℕ) (before after : List Worker) (w : Worker) (handed : List ℕ)
        → Step
            (record { global = global; workers = before ++ w ∷ after; handed = handed })
            (record {
              global = (next global w).0;
              workers = before ++ (next global w).1 ∷ after;
              handed = hand_out (next global w).2 handed;
            })

  pub data Steps : Loop → Loop → Type 0 where
    done : (s : Loop) → Steps s s
    then_step : {s t u : Loop} → Steps s t → Step t u → Steps s u

-- How often `x` occurs.
abbrev pub count : ℕ → List ℕ → ℕ
count x [] = 0
count x (y ∷ ys) = (if y == x then 1 else 0) + count x ys

-- 1 for an `x` from `a` up to `b`.
abbrev pub within : ℕ → ℕ → ℕ → ℕ
within x a b = if leb a x then (if ltb x b then 1 else 0) else 0

abbrev held : ℕ → List Worker → ℕ
held x [] = 0
held x (w ∷ ws) = within x w.current w.limit + held x ws

held-append : (x : ℕ) (ws vs : List Worker) → held x (ws ++ vs) ≡ held x ws + held x vs
held-append x [] vs = omega arith
held-append x (w ∷ ws) vs = omega (arith, held-append x ws vs)

held-idle : (x k : ℕ) → held x (replicate k (record { current = 0; limit = 0 })) ≡ 0
held-idle x zero = refl
held-idle x (suc k) = ground (arith, held-idle x k)

within-empty : (x a b : ℕ) → b ≤ a → within x a b ≡ 0
within-empty x a b h = ground arith

within-first : (x a b : ℕ) → a < b → (if a == x then 1 else 0) + within x (a + 1) b ≡ within x a b
within-first x a b h = ground arith

within-split : (x a b c : ℕ) → a ≤ b → b ≤ c → within x a b + within x b c ≡ within x a c
within-split x a b c h k = ground arith

module _ (n step : ℕ) (x : ℕ) (moves : 0 < step) where
  -- The indices that a worker takes from the loop.
  within-taken :
      (g : ℕ)
      → g < n
      → (if g == x then 1 else 0)
          + within x (g + 1) (if ltb n (g + step) then n else g + step)
          + within x (g + step) n
        ≡ within x g n
  within-taken g h = elim (Bool-cases (ltb n (g + step))) [
    | inl last ↦
        let l : n < g + step = ground arith in
        rw last (omega (arith, within-empty x (g + step) n (omega arith), within-first x g n h))
    | inr inner ↦
        let l : g + step ≤ n = ground arith in
        rw inner (
          omega (
            arith,
            within-first x g (g + step) (omega arith),
            within-split x g (g + step) n (omega arith) l,
          ))
  ]

  -- One call moves `x` from what is left to a worker, or from a worker to what was handed out.
  next-moves :
      (global : ℕ) (w : Worker) (handed : List ℕ)
      → let (global', w', i) = next n step global w in
        count x (hand_out n step i handed) + within x w'.current w'.limit + within x global' n
        ≡ count x handed + within x w.current w.limit + within x global n
  unfolding next
  next-moves global w handed = elim (Bool-cases (leb w.limit w.current)) [
    | inr more ↦
        let l : w.current < w.limit = ground arith in
        rw (next, more) (omega (arith, within-first x w.current w.limit l))
    | inl empty ↦
        let e : w.limit ≤ w.current = ground arith in
        elim (Bool-cases (leb n global)) [
          | inl over ↦
              let l : n ≤ global = ground arith in
              rw (next, empty, over)
                (omega (
                  arith,
                  within-empty x global n l,
                  within-empty x (global + step) n (omega arith),
                ))
          | inr left ↦
              let l : global < n = ground arith in
              rw (next, empty, left)
                (omega (arith, within-taken global l, within-empty x w.current w.limit e))
        ]
  ]

  -- Where `x` is: handed out, with a worker, or left.
  abbrev pub places : Loop → ℕ
  places s = count x s.handed + held x s.workers + within x s.global n

  Step-places : (s t : Loop) → Step n step s t → places t ≡ places s
  Step-places _ _ (Step.call_next global before after w handed) = omega (
    arith,
    next-moves global w handed,
    held-append x before (w ∷ after),
    held-append x before ((next n step global w).1 ∷ after),
  )

  Steps-places : (s t : Loop) → Steps n step s t → places t ≡ places s
  Steps-places _ _ (Steps.done s) = refl
  Steps-places _ _ (Steps.then_step {s} {t} {u} run last) =
      Step-places t u last ∙ Steps-places s t run

step_size-positive : (n cpus : ℕ) → 0 < step_size n cpus
unfolding step_size
step_size-positive n cpus = ground arith

-- ParallelFor returns when `Next` has returned false to each worker: none holds an index, and none is
-- left.
abbrev pub AllIdle : List Worker → Type 0
AllIdle [] = Unit
AllIdle (w ∷ ws) = (w.limit ≤ w.current) × AllIdle ws

held-AllIdle : (x : ℕ) (ws : List Worker) → AllIdle ws → held x ws ≡ 0
held-AllIdle x [] h = refl
held-AllIdle x (w ∷ ws) (e, h) =
    omega (arith, within-empty x w.current w.limit e, held-AllIdle x ws h)

module _ (n cpus x : ℕ) (s : Loop) (run : Steps n (step_size n cpus) (start_loop cpus) s) where
  start-places : count x s.handed + held x s.workers + within x s.global n ≡ within x 0 n
  unfolding start_loop
  start-places =
      Steps-places n (step_size n cpus) x (step_size-positive n cpus) (start_loop cpus) s run
      ∙ omega (arith, held-idle x cpus)

  -- In whatever order the workers call Next, no index is handed out twice, and none that is not
  -- below `n`.
  pub handed-at_most_once : count x s.handed ≤ within x 0 n
  handed-at_most_once = omega (arith, start-places)

  -- When ParallelFor returns, in whatever order the workers called Next, each index below `n` was
  -- handed out exactly once, and no other.
  pub handed-exactly_once : AllIdle s.workers → n ≤ s.global → count x s.handed ≡ within x 0 n
  handed-exactly_once idle over =
      omega (arith, start-places, held-AllIdle x s.workers idle, within-empty x s.global n over)
