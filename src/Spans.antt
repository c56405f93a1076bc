-- ===== src/Spans.antt =====
-- internal/span.go: the batches in which a round's onions are sent to the next server.
pub mod Cover
use vuvuzela.Prelude.{ℕ, zero, suc, ◌+◌, ◌-◌, ◌≤◌, ◌<◌, ◌≡◌, List, [], ◌∷◌, leb, ltb, if◌then◌else◌}

pub record Span : Type 0 where
  pub start : ℕ
  pub count : ℕ

-- `c` of the loop's body at `i`.
abbrev pub span_count : ℕ → ℕ → ℕ → ℕ
span_count total size i = if leb (i + size) total then size else total - i

-- `for i := 0; i < total; i += c`, on fuel. With `size ≡ 0` the Go loop does not end.
unfoldable pub spans_from : ℕ → ℕ → ℕ → ℕ → List Span
spans_from zero total size i = []
spans_from (suc fuel) total size i =
    let c = span_count total size i in
    let rest = record { start = i; count = c } ∷ spans_from fuel total size (i + c) in
    if ltb i total then rest else []

-- Each round moves `i` forward when `size` is positive, so `total` rounds are enough.
unfoldable pub spans : ℕ → ℕ → List Span
unfolding spans_from
spans total size = spans_from total total size 0
