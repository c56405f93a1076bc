-- ===== src/Dial/Buckets.antt =====
-- Buckets: what a reader finds in a bucket after the round was closed.
use mathlib.Core.List.{filter_map, append_assoc, append-nil}
use vuvuzela.Prelude.{
  get_elem?-lt, ◌≢◌, ℕ, ◌≡◌, refl, ap, ◌∙◌, List, [], ◌∷◌, ◌++◌, Option, none, some, inl, inr, ◌==◌,
  length, get_elem?, set, get_elem?-set_self, get_elem?-set_ne, length-set, arith, if◌then◌else◌,
  Bool-cases, Option-cases,
}
use vuvuzela.Bytes.{Bytes}
use vuvuzela.Wire.{unmarshal_dial, size_dial_exchange}
use vuvuzela.Dial.{add_intro, add_intros}

-- The introduction in a message for bucket `b`: one of the right size that names the bucket.
pub intro_for : ℕ → Bytes → Option Bytes
intro_for b m =
    if length m == size_dial_exchange
    then (elim (unmarshal_dial m) [
      | none ↦ none
      | some ex ↦ if ex.bucket == b then some ex.encrypted_intro else none
    ])
    else none

unfoldable pub added : ℕ → Bytes → List Bytes
unfolding intro_for
added b m = elim (intro_for b m) [ none ↦ [] | some i ↦ i ∷ [] ]

added-filter_map :
    (b : ℕ) (m : Bytes) (ms : List Bytes)
    → added b m ++ filter_map (intro_for b) ms ≡ filter_map (intro_for b) (m ∷ ms)
unfolding added filter_map
added-filter_map b m ms = elim (Option-cases (intro_for b m)) [
  | inl e ↦ rw (added, e)
  | inr (i, e) ↦ rw (added, e)
]

put_intro :
    (k b : ℕ) (i : Bytes) (bs : List (List Bytes)) {l : List Bytes}
    → get_elem? bs b ≡ some l
    → get_elem? (elim (get_elem? bs k) [ none ↦ bs | some bucket ↦ set bs k (bucket ++ i ∷ []) ]) b
      ≡ some (l ++ (if k == b then i ∷ [] else []))
put_intro k b i bs {l} e = elim (Bool-cases (k == b)) [
  | inl same ↦
      let k_b : k ≡ b = ground arith in
      let inside = get_elem?-lt bs b e in
      let at_k : get_elem? bs k ≡ some l = rw k_b e in
      rw (same, at_k, k_b) (get_elem?-set_self bs b (l ++ i ∷ []) inside)
  | inr other ↦
      let k_b : k ≢ b = ground arith in
      rw (other, append-nil l)
        (elim (Option-cases (get_elem? bs k)) [
          | inl out ↦ rw out e
          | inr (bucket, inside) ↦ rw inside (get_elem?-set_ne bs (bucket ++ i ∷ []) k_b ∙ e)
        ])
]

-- One message adds its introduction to the bucket that it names.
add_intro-bucket :
    (b : ℕ) (m : Bytes) (bs : List (List Bytes)) {l : List Bytes}
    → get_elem? bs b ≡ some l
    → get_elem? (add_intro m bs) b ≡ some (l ++ added b m)
unfolding add_intro added intro_for
add_intro-bucket b m bs {l} e = elim (Bool-cases (length m == size_dial_exchange)) [
  | inr wrong ↦ rw (added, intro_for, add_intro, wrong, append-nil) e
  | inl right ↦ elim (Option-cases (unmarshal_dial m)) [
    | inl bad ↦ rw (added, intro_for, add_intro, right, bad, append-nil) e
    | inr (ex, read) ↦
        let step = put_intro ex.bucket b ex.encrypted_intro bs e in
        elim (Bool-cases (ex.bucket == b)) [
          | inl same ↦ rw (added, intro_for, add_intro, right, read, same) (rw same at step)
          | inr other ↦ rw (added, intro_for, add_intro, right, read, other) (rw other at step)
        ]
  ]
]

-- Buckets' loop leaves in bucket `b` what was there, and behind it the introductions for `b`, in the
-- order of the messages.
pub add_intros-bucket :
    (b : ℕ) (ms : List Bytes) (bs : List (List Bytes)) {l : List Bytes}
    → get_elem? bs b ≡ some l
    → get_elem? (add_intros ms bs) b ≡ some (l ++ filter_map (intro_for b) ms)
unfolding add_intros filter_map
add_intros-bucket b [] bs {l} e = rw (append-nil l) e
add_intros-bucket b (m ∷ ms) bs {l} e =
    let rest = add_intros-bucket b ms (add_intro m bs) (add_intro-bucket b m bs e) in
    rest
    ∙ ap some (
        append_assoc l (added b m) (filter_map (intro_for b) ms)
        ∙ ap (λ x. l ++ x) (added-filter_map b m ms))

length-add_intro : (m : Bytes) (bs : List (List Bytes)) → length (add_intro m bs) ≡ length bs
unfolding add_intro
length-add_intro m bs = elim (Bool-cases (length m == size_dial_exchange)) [
  | inr wrong ↦ rw (add_intro, wrong)
  | inl right ↦ elim (Option-cases (unmarshal_dial m)) [
    | inl bad ↦ rw (add_intro, right, bad)
    | inr (ex, read) ↦ elim (Option-cases (get_elem? bs ex.bucket)) [
      | inl out ↦ rw (add_intro, right, read, out)
      | inr (l, inside) ↦
          rw (add_intro, right, read, inside)
            (length-set bs ex.bucket (l ++ ex.encrypted_intro ∷ []))
    ]
  ]
]

length-add_intros :
    (ms : List Bytes) (bs : List (List Bytes)) → length (add_intros ms bs) ≡ length bs
unfolding add_intros
length-add_intros [] bs = refl
length-add_intros (m ∷ ms) bs = length-add_intros ms (add_intro m bs) ∙ length-add_intro m bs

only_entry {ℓ} :
    {A : Type ℓ} (xs : List A) {x : A} → length xs ≡ 1 → get_elem? xs 0 ≡ some x → xs ≡ x ∷ []
only_entry [] l e = cc
only_entry (y ∷ []) l e = cc
only_entry (y ∷ z ∷ xs) l e = absurd (omega arith)

pub one_bucket : (ms : List Bytes) → add_intros ms ([] ∷ []) ≡ filter_map (intro_for 0) ms ∷ []
one_bucket ms =
    only_entry (add_intros ms ([] ∷ [])) (length-add_intros ms ([] ∷ []))
      (add_intros-bucket 0 ms ([] ∷ []) refl)
