-- ===== src/Server/Window.antt =====
-- histogram.go: what the histogram shows after any counts and resizes.
use mathlib.Core.List.{append_assoc, append-nil}
use vuvuzela.Prelude.{
  ◌↔◌, ◌≤◌, ◌≢◌, ℕ, suc, ◌≤◌, ◌≢◌, ◌↔◌, ◌≡◌, refl, sym, ap, ◌∙◌, List, [], ◌∷◌, ◌++◌, map, arith,
  length, drop, replicate, length-append, length-replicate, length-map,
}
use vuvuzela.Run.{ok, ◌>>=◌}
use vuvuzela.Exchange.{AccessCount}
use vuvuzela.Server.Histogram.{
  Histogram, normalize, render_from, render, single_bar, double_bar, resize, push_count, Event,
  resized, counted, handle_event, handle_events, new_histogram, run,
}

abbrev pub counts_of : List Event → List AccessCount
counts_of [] = []
counts_of (resized rows ∷ es) = counts_of es
counts_of (counted a ∷ es) = a ∷ counts_of es

-- The rows of the terminal after the events, of `rows` before them.
abbrev pub last_size : ℕ → List Event → ℕ
last_size rows [] = rows
last_size rows (resized rows' ∷ es) = last_size rows' es
last_size rows (counted a ∷ es) = last_size rows es

-- The last of `w` and `xs`, as many as `w` has.
abbrev pub latest : List ℕ → List ℕ → List ℕ
latest w xs = drop (length xs) (w ++ xs)

render_from-map :
    (f g : ℕ → ℕ) (ss ds xs ys : List ℕ)
    → length ds ≡ length ss
    → length xs ≡ length ss
    → length ys ≡ length ss
    → render_from f g ss ds xs ys ≡ ok (map f ss, map g ds)
unfolding render_from
render_from-map f g [] [] [] [] a b c = refl
render_from-map f g [] (d ∷ ds) xs ys a b c = absurd (omega arith)
render_from-map f g [] [] (x ∷ xs) ys a b c = absurd (omega arith)
render_from-map f g [] [] [] (y ∷ ys) a b c = absurd (omega arith)
render_from-map f g (s ∷ ss) [] xs ys a b c = absurd (omega arith)
render_from-map f g (s ∷ ss) (d ∷ ds) [] ys a b c = absurd (omega arith)
render_from-map f g (s ∷ ss) (d ∷ ds) (x ∷ xs) [] a b c = absurd (omega arith)
render_from-map f g (s ∷ ss) (d ∷ ds) (x ∷ xs) (y ∷ ys) a b c =
    rw (render_from-map f g ss ds xs ys (omega arith) (omega arith) (omega arith))

-- The four lists have `n` entries.
pub record Fits (n : ℕ) (h : Histogram) : Type 0 where
  pub singles : length h.singles ≡ n
  pub doubles : length h.doubles ≡ n
  pub normalized_singles : length h.normalized_singles ≡ n
  pub normalized_doubles : length h.normalized_doubles ≡ n

-- The bars are those of the counts.
abbrev pub IsDrawn : Histogram → Type 0
IsDrawn h =
    (h.normalized_singles ≡ map (single_bar h) h.singles)
    × (h.normalized_doubles ≡ map (double_bar h) h.doubles)

abbrev drawn : Histogram → Histogram
drawn h = record h {
  normalized_singles = map (single_bar h) h.singles;
  normalized_doubles = map (double_bar h) h.doubles;
}

render-drawn : (n : ℕ) (h : Histogram) → Fits n h → render h ≡ ok (drawn h)
unfolding render
render-drawn n h fits = rw (
    render_from-map (single_bar h) (double_bar h) h.singles h.doubles h.normalized_singles
      h.normalized_doubles (fits.doubles ∙ sym fits.singles)
      (fits.normalized_singles ∙ sym fits.singles) (fits.normalized_doubles ∙ sym fits.singles))

drawn-Fits : (n : ℕ) (h : Histogram) → Fits n h → Fits n (drawn h)
drawn-Fits n h fits = record {
  singles = fits.singles;
  doubles = fits.doubles;
  normalized_singles = length-map h.singles (single_bar h) ∙ fits.singles;
  normalized_doubles = length-map h.doubles (double_bar h) ∙ fits.doubles;
}

-- A push moves the window by one.
push_count-latest :
    (n x : ℕ) (w : List ℕ)
    → length w ≡ suc n
    → (w' : List ℕ) × (push_count x w ≡ ok w')
      × (length w' ≡ suc n)
      × ((xs : List ℕ) → latest w' xs ≡ latest w (x ∷ xs))
unfolding push_count
push_count-latest n x [] l = absurd (omega arith)
push_count-latest n x (y ∷ ys) l = (
  ys ++ x ∷ [],
  refl,
  omega (arith, length-append ys (x ∷ [])),
  λ xs. ap (drop (length xs)) (append_assoc ys (x ∷ []) xs),
)

handle_events-latest :
    (n : ℕ) (es : List Event) (h : Histogram)
    → Fits (suc n) h
    → IsDrawn h
    → (h' : Histogram) × (handle_events es h ≡ ok h')
      × IsDrawn h'
      × (h'.rows ≡ last_size h.rows es)
      × (h'.singles ≡ latest h.singles (map (λ a. a.singles) (counts_of es)))
      × (h'.doubles ≡ latest h.doubles (map (λ a. a.doubles) (counts_of es)))
unfolding handle_events handle_event resize
handle_events-latest n [] h fits shown =
    (h, refl, shown, refl, sym (append-nil h.singles), sym (append-nil h.doubles))
handle_events-latest n (resized rows ∷ es) h fits shown =
    let h1 = record h { rows = rows } in
    let fits1 : Fits (suc n) h1 = record {
      singles = fits.singles;
      doubles = fits.doubles;
      normalized_singles = fits.normalized_singles;
      normalized_doubles = fits.normalized_doubles;
    } in
    let (h', ran, shown', high, s, d) =
      handle_events-latest n es (drawn h1) (drawn-Fits (suc n) h1 fits1) (refl, refl) in
    (h', rw (render-drawn (suc n) h1 fits1) ran, shown', high, s, d)
handle_events-latest n (counted a ∷ es) h fits shown =
    let (ss, p, l, moved) = push_count-latest n a.singles h.singles fits.singles in
    let (ds, q, m, moved') = push_count-latest n a.doubles h.doubles fits.doubles in
    let h1 = record h { singles = ss; doubles = ds } in
    let fits1 : Fits (suc n) h1 = record {
      singles = l;
      doubles = m;
      normalized_singles = fits.normalized_singles;
      normalized_doubles = fits.normalized_doubles;
    } in
    let (h', ran, shown', high, s, d) =
      handle_events-latest n es (drawn h1) (drawn-Fits (suc n) h1 fits1) (refl, refl) in
    (
      h',
      rw (p, q, render-drawn (suc n) h1 fits1) ran,
      shown',
      high,
      s ∙ moved (map (λ a. a.singles) (counts_of es)),
      d ∙ moved' (map (λ a. a.doubles) (counts_of es)),
    )

module _ (num_servers mu half_mu rows : ℕ) where
  abbrev start : Histogram
  start = record (new_histogram num_servers mu half_mu rows) { rows = rows }

  start-Fits : Fits 512 start
  unfolding new_histogram
  start-Fits = record {
    singles = length-replicate {A = ℕ} 512 0;
    doubles = length-replicate {A = ℕ} 512 0;
    normalized_singles = length-replicate {A = ℕ} 512 0;
    normalized_doubles = length-replicate {A = ℕ} 512 0;
  }

  zeroes : (start.singles ≡ replicate 512 0) × (start.doubles ≡ replicate 512 0)
  unfolding new_histogram
  zeroes = (refl, refl)

-- Whatever counts come and however the terminal is resized between them, the histogram does not panic:
-- it has the last 512 counts of the idle and of the active users, in order, with zeroes in front of the
-- first; it has the rows of the last size of the terminal, and its bars are those of these counts and
-- rows.
pub run-latest :
    (num_servers mu half_mu rows : ℕ) (es : List Event)
    → (h : Histogram) × (run num_servers mu half_mu rows es ≡ ok h)
      × IsDrawn h
      × (h.rows ≡ last_size rows es)
      × (h.singles ≡ latest (replicate 512 0) (map (λ a. a.singles) (counts_of es)))
      × (h.doubles ≡ latest (replicate 512 0) (map (λ a. a.doubles) (counts_of es)))
unfolding run resize
run-latest num_servers mu half_mu rows es =
    let h = start num_servers mu half_mu rows in
    let fits = start-Fits num_servers mu half_mu rows in
    let (empty, empty') = zeroes num_servers mu half_mu rows in
    let (h', ran, shown, high, s, d) =
      handle_events-latest 511 es (drawn h) (drawn-Fits 512 h fits) (refl, refl) in
    (
      h',
      ap (λ m. m >>= handle_events es) (render-drawn 512 h fits) ∙ ran,
      shown,
      high,
      s ∙ ap (λ w. latest w (map (λ a. a.singles) (counts_of es))) empty,
      d ∙ ap (λ w. latest w (map (λ a. a.doubles) (counts_of es))) empty',
    )

-- The bar of a count is 0 just when the count is, and is never 1; bars are in the order of their
-- counts, so that more users never make a lower bar.
pub normalize-ordered :
    (noise lift s t : ℕ)
    → s ≤ t
    → (normalize noise lift s ≤ normalize noise lift t)
      × (normalize noise lift s ≢ 1)
      × ((normalize noise lift s ≡ 0) ↔ (s ≡ 0))
unfolding normalize
normalize-ordered noise lift s t le =
    (ground arith, ground arith, (λ e. ground arith, λ e. ground arith))
