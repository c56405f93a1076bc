-- ===== src/Server/Histogram.antt =====
-- vuvuzela-server/histogram.go: the counts of the last rounds, and the heights of their bars.
use vuvuzela.Prelude.{
  ℕ, ◌+◌, ◌-◌, ◌*◌, ◌/◌, List, [], ◌∷◌, ◌++◌, ltb, ◌==◌, replicate, if◌then◌else◌,
}
use vuvuzela.Run.{Run, ok, panic, ◌>>=◌}
use vuvuzela.Exchange.{AccessCount}

-- `mu` and `half_mu` are `int(h.Mu)` and `int(h.Mu/2)`, not negative, `num_servers` is not 0, and `rows`
-- is the height of the terminal when
-- it was last asked for.
pub record Histogram : Type 0 where
  pub num_servers : ℕ
  pub mu : ℕ
  pub half_mu : ℕ
  pub rows : ℕ
  pub singles : List ℕ
  pub doubles : List ℕ
  pub normalized_singles : List ℕ
  pub normalized_doubles : List ℕ

-- A count `s` with the shift `noise - lift`, which may be negative: `s - shift > 2` is
-- `s + lift > noise + 2`.
unfoldable pub normalize : ℕ → ℕ → ℕ → ℕ
normalize noise lift s =
    if s == 0 then 0 else if ltb (noise + 2) (s + lift) then s + lift - noise else 2

-- The loop of render; an index out of range is a panic.
unfoldable pub render_from :
    (ℕ → ℕ) → (ℕ → ℕ) → List ℕ → List ℕ → List ℕ → List ℕ → Run (List ℕ × List ℕ)
render_from f g [] ds xs ys = ok (xs, ys)
render_from f g (s ∷ ss) (d ∷ ds) (x ∷ xs) (y ∷ ys) =
    render_from f g ss ds xs ys >>= λ p. ok (f s ∷ p.0, g d ∷ p.1)
render_from f g (s ∷ ss) [] xs ys = panic
render_from f g (s ∷ ss) (d ∷ ds) [] ys = panic
render_from f g (s ∷ ss) (d ∷ ds) (x ∷ xs) [] = panic

module _ (h : Histogram) where
  -- The heights are `rows / 2 - 1`: with 32, and with 16.
  abbrev pub single_bar : ℕ → ℕ
  single_bar = normalize ((h.num_servers - 1) * h.mu) (h.rows / 2 + 31)

  abbrev pub double_bar : ℕ → ℕ
  double_bar = normalize ((h.num_servers - 1) * h.half_mu) (h.rows / 2 + 15)

  unfoldable pub render : Run Histogram
  unfolding render_from normalize
  render =
      render_from single_bar double_bar h.singles h.doubles h.normalized_singles
        h.normalized_doubles
      >>= λ p. ok (record h { normalized_singles = p.0; normalized_doubles = p.1 })

unfoldable pub resize : ℕ → Histogram → Run Histogram
unfolding render
resize rows h = render (record h { rows = rows })

-- `append(xs[1:], x)`.
unfoldable pub push_count : ℕ → List ℕ → Run (List ℕ)
push_count x [] = panic
push_count x (y ∷ ys) = ok (ys ++ x ∷ [])

-- What run's loop waits for, but for the keys that end it.
pub data Event : Type 0 where
  resized : ℕ → Event
  counted : AccessCount → Event

unfoldable pub handle_event : Event → Histogram → Run Histogram
unfolding resize push_count
handle_event (resized rows) h = resize rows h
handle_event (counted a) h = push_count a.singles h.singles >>= λ singles.
    push_count a.doubles h.doubles >>= λ doubles.
    render (record h { singles = singles; doubles = doubles })

unfoldable pub handle_events : List Event → Histogram → Run Histogram
unfolding handle_event
handle_events [] h = ok h
handle_events (e ∷ es) h = handle_event e h >>= handle_events es

-- The histogram that run makes on a terminal of `rows` rows, before it is drawn.
unfoldable pub new_histogram : ℕ → ℕ → ℕ → ℕ → Histogram
new_histogram num_servers mu half_mu rows = record {
  num_servers = num_servers;
  mu = mu;
  half_mu = half_mu;
  rows = rows;
  singles = replicate 512 0;
  doubles = replicate 512 0;
  normalized_singles = replicate 512 0;
  normalized_doubles = replicate 512 0;
}

unfoldable pub run : ℕ → ℕ → ℕ → ℕ → List Event → Run Histogram
unfolding new_histogram resize handle_events
run num_servers mu half_mu rows events =
    resize rows (new_histogram num_servers mu half_mu rows) >>= handle_events events
