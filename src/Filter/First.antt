-- ===== src/Filter/First.antt =====
-- filterIncoming of convo.go: the messages and the indices that it keeps.
use vuvuzela.Prelude.{
  ℕ, zero, suc, ◌-◌, ◌≤◌, ◌≡◌, refl, sym, ap, ◌∙◌, true, false, List, [], ◌∷◌, Option, none, some,
  ◌⊎◌, inl, inr, arith, length, get_elem?, drop, Bool-cases,
}
use vuvuzela.Run.{ok, ◌>>=◌}
use vuvuzela.Bytes.{Bytes}
use vuvuzela.Filter.{be_word, msg_key, contains, filter_from, filter_incoming}

-- The last eight bytes of a message of at least eight, as a number.
abbrev pub key_of : Bytes → ℕ
key_of msg = be_word 0 (drop (length msg - 8) msg)

pub msg_key-ok : (msg : Bytes) → 8 ≤ length msg → msg_key msg ≡ ok (key_of msg)
unfolding msg_key
msg_key-ok msg h = ground arith

-- Every message has the eight bytes that the filter reads.
abbrev pub AllLong : List (Option Bytes) → Type 0
AllLong [] = Unit
AllLong (none ∷ rest) = AllLong rest
AllLong (some msg ∷ rest) = (8 ≤ length msg) × AllLong rest

-- The keys of the messages are new to `seen`, and to the messages before them.
abbrev pub FreshKeys : List ℕ → List Bytes → Type 0
FreshKeys seen [] = Unit
FreshKeys seen (msg ∷ rest) =
    (contains (key_of msg) seen ≡ false) × FreshKeys (key_of msg ∷ seen) rest

abbrev pub kept_indices : List (Option ℕ) → List ℕ
kept_indices [] = []
kept_indices (none ∷ rest) = kept_indices rest
kept_indices (some w ∷ rest) = w ∷ kept_indices rest

abbrev pub count_up : ℕ → ℕ → List ℕ
count_up v zero = []
count_up v (suc n) = v ∷ count_up (suc v) n

contains-cons :
    (k j : ℕ) (js : List ℕ) → contains k (j ∷ js) ≡ true → (k ≡ j) ⊎ (contains k js ≡ true)
unfolding contains
contains-cons k j js h = ground arith

abbrev pub Slots : Type 0
Slots = List (Option Bytes)

-- The first message with a given key has a slot, an index and a place.
pub record IsFirst (v i : ℕ) (msg : Bytes) (valid : List Bytes) (index : List (Option ℕ))
    : Type 0 where
  pub slot : ℕ
  pub place : ℕ
  pub first : Bytes
  pub before : slot ≤ i
  pub indexed : get_elem? index slot ≡ some (some place)
  pub placed : get_elem? valid (place - v) ≡ some first
  pub same_key : key_of first ≡ key_of msg

-- The outcome of the loop from a state with `v` messages kept, with keys `seen`.
pub record Filters (seen : List ℕ) (v : ℕ) (incoming : Slots) (valid : List Bytes)
    (index : List (Option ℕ)) : Type 0 where
  pub size : length index ≡ length incoming
  pub kept :
      (i w : ℕ)
      → get_elem? index i ≡ some (some w)
      → (v ≤ w)
        × (msg : Bytes) × (get_elem? incoming i ≡ some (some msg))
        × (get_elem? valid (w - v) ≡ some msg)
  pub numbered : kept_indices index ≡ count_up v (length valid)
  pub distinct : FreshKeys seen valid
  pub covered :
      (i : ℕ) (msg : Bytes)
      → get_elem? incoming i ≡ some (some msg)
      → (contains (key_of msg) seen ≡ true) ⊎ IsFirst v i msg valid index

-- A slot in front shifts the others.
IsFirst-later :
    {v i : ℕ} {m : Bytes} {valid : List Bytes} {index : List (Option ℕ)} {P : Type 0} (o : Option ℕ)
    → P ⊎ IsFirst v i m valid index
    → P ⊎ IsFirst v (suc i) m valid (o ∷ index)
IsFirst-later o (inl p) = inl p
IsFirst-later o (inr f) = inr (record {
  slot = suc f.slot;
  place = f.place;
  first = f.first;
  before = omega (arith, f.before);
  indexed = f.indexed;
  placed = f.placed;
  same_key = f.same_key;
})

-- A slot with no message, or with a message whose key was seen.
module _ (seen : List ℕ) (v : ℕ) (slot : Option Bytes) (rest : Slots) (valid : List Bytes)
    (index : List (Option ℕ)) (old : (m : Bytes) → slot ≡ some m → contains (key_of m) seen ≡ true)
    (f : Filters seen v rest valid index) where
  skip_kept :
      (i w : ℕ)
      → get_elem? (none ∷ index) i ≡ some (some w)
      → (v ≤ w)
        × (m : Bytes) × (get_elem? (slot ∷ rest) i ≡ some (some m))
        × (get_elem? valid (w - v) ≡ some m)
  skip_kept zero w e = cc
  skip_kept (suc i) w e = f.kept i w e

  skip_covered :
      (i : ℕ) (m : Bytes)
      → get_elem? (slot ∷ rest) i ≡ some (some m)
      → (contains (key_of m) seen ≡ true) ⊎ IsFirst v i m valid (none ∷ index)
  skip_covered zero m e = inl (old m (cc))
  skip_covered (suc i) m e = IsFirst-later none (f.covered i m e)

  Filters-skip : Filters seen v (slot ∷ rest) valid (none ∷ index)
  Filters-skip = record {
    size = ap suc f.size;
    kept = skip_kept;
    numbered = f.numbered;
    distinct = f.distinct;
    covered = skip_covered;
  }

-- A message of a new key.
module _ (seen : List ℕ) (v : ℕ) (msg : Bytes) (rest : Slots) (valid : List Bytes)
    (index : List (Option ℕ)) (new : contains (key_of msg) seen ≡ false)
    (f : Filters (key_of msg ∷ seen) (suc v) rest valid index) where
  keep_kept :
      (i w : ℕ)
      → get_elem? (some v ∷ index) i ≡ some (some w)
      → (v ≤ w)
        × (m : Bytes) × (get_elem? (some msg ∷ rest) i ≡ some (some m))
        × (get_elem? (msg ∷ valid) (w - v) ≡ some m)
  keep_kept zero w e = let d : w - v ≡ 0 = ground arith in (ground arith, msg, refl, rw d)
  keep_kept (suc i) w e =
      let (b, m, p, q) = f.kept i w e in
      let d : w - v ≡ suc (w - suc v) = omega arith in (omega arith, m, p, rw d q)

  covered_here :
      (i : ℕ) (m : Bytes) → key_of msg ≡ key_of m → IsFirst v i m (msg ∷ valid) (some v ∷ index)
  covered_here i m k = record {
    slot = 0;
    place = v;
    first = msg;
    before = omega arith;
    indexed = refl;
    placed = let d : v - v ≡ 0 = omega arith in rw d;
    same_key = k;
  }

  covered_later :
      (i : ℕ) (m : Bytes)
      → IsFirst (suc v) i m valid index
      → IsFirst v (suc i) m (msg ∷ valid) (some v ∷ index)
  covered_later i m t = record {
    slot = suc t.slot;
    place = t.place;
    first = t.first;
    before = omega (arith, t.before);
    indexed = t.indexed;
    placed =
        let (b, _, _, _) = f.kept t.slot t.place t.indexed in
        let d : t.place - v ≡ suc (t.place - suc v) = omega arith in rw d t.placed;
    same_key = t.same_key;
  }

  keep_covered :
      (i : ℕ) (m : Bytes)
      → get_elem? (some msg ∷ rest) i ≡ some (some m)
      → (contains (key_of m) seen ≡ true) ⊎ IsFirst v i m (msg ∷ valid) (some v ∷ index)
  keep_covered zero m e = let k : msg ≡ m = cc in inr (covered_here 0 m (ap key_of k))
  keep_covered (suc i) m e = elim (f.covered i m e) [
    | inr t ↦ inr (covered_later i m t)
    | inl c ↦ elim (contains-cons (key_of m) (key_of msg) seen c) [
      | inl k ↦ inr (covered_here (suc i) m (sym k))
      | inr c' ↦ inl c'
    ]
  ]

  Filters-keep : Filters seen v (some msg ∷ rest) (msg ∷ valid) (some v ∷ index)
  Filters-keep = record {
    size = ap suc f.size;
    kept = keep_kept;
    numbered = ap (◌∷◌ v) f.numbered;
    distinct = (new, f.distinct);
    covered = keep_covered;
  }

filter_from_correct :
    (seen : List ℕ) (v : ℕ) (incoming : Slots)
    → AllLong incoming
    → (valid : List Bytes) × (index : List (Option ℕ)) × (filter_from seen v incoming
        ≡ ok (valid, index))
      × Filters seen v incoming valid index
unfolding filter_from
filter_from_correct seen v [] h = (
  [],
  [],
  refl,
  record {
    size = refl;
    kept = λ i w e. cc;
    numbered = refl;
    distinct = tt;
    covered = λ i msg e. cc;
  },
)
filter_from_correct seen v (none ∷ rest) h =
    let (valid, index, e, f) = filter_from_correct seen v rest h in
    (valid, none ∷ index, rw e, Filters-skip seen v none rest valid index (λ m q. cc) f)
filter_from_correct seen v (some msg ∷ rest) h = elim (Bool-cases (contains (key_of msg) seen)) [
  | inl c ↦
      let (valid, index, e, f) = filter_from_correct seen v rest h.1 in
      (
        valid,
        none ∷ index,
        rw (msg_key-ok msg h.0, ◌>>=◌, c, e),
        Filters-skip seen v (some msg) rest valid index (λ m q. let k : msg ≡ m = cc in rw (← k) c)
            f,
      )
  | inr c ↦
      let (valid, index, e, f) = filter_from_correct (key_of msg ∷ seen) (suc v) rest h.1 in
      (
        msg ∷ valid,
        some v ∷ index,
        rw (msg_key-ok msg h.0, ◌>>=◌, c, e),
        Filters-keep seen v msg rest valid index c f,
      )
]

pub filter_incoming-Filters :
    (incoming : Slots)
    → AllLong incoming
    → (valid : List Bytes) × (index : List (Option ℕ)) × (filter_incoming incoming
        ≡ ok (valid, index))
      × Filters [] 0 incoming valid index
unfolding filter_incoming
filter_incoming-Filters incoming h = filter_from_correct [] 0 incoming h

contains-nil : (k : ℕ) → contains k [] ≡ false
unfolding contains
contains-nil k = refl

minus_zero : (w : ℕ) → w - 0 ≡ w
minus_zero w = omega arith

-- Each slot whose index is a place has the message that is kept there; there is an index for each slot.
abbrev pub AllPoint : List Bytes → Slots → List (Option ℕ) → Type 0
AllPoint valid [] index = index ≡ []
AllPoint valid (slot ∷ slots) [] = slot ∷ slots ≡ []
AllPoint valid (slot ∷ slots) (none ∷ index) = AllPoint valid slots index
AllPoint valid (slot ∷ slots) (some w ∷ index) =
    ((msg : Bytes) × (slot ≡ some msg) × (get_elem? valid w ≡ some msg))
    × AllPoint valid slots index

points :
    (valid : List Bytes) (slots : Slots) (index : List (Option ℕ))
    → length index ≡ length slots
    → ((i w : ℕ)
        → get_elem? index i ≡ some (some w)
        → (msg : Bytes) × (get_elem? slots i ≡ some (some msg)) × (get_elem? valid w ≡ some msg))
    → AllPoint valid slots index
points valid [] [] l f = refl
points valid [] (o ∷ index) l f = absurd (omega arith)
points valid (slot ∷ slots) [] l f = absurd (omega arith)
points valid (slot ∷ slots) (none ∷ index) l f =
    points valid slots index (omega arith) (λ i w e. f (suc i) w e)
points valid (slot ∷ slots) (some w ∷ index) l f =
    let (msg, here, kept) = f 0 w refl in
    ((msg, cc here, kept), points valid slots index (omega arith) (λ i w e. f (suc i) w e))

-- There is a message in slot `i`, and all messages in the slots have eight bytes at least. Then
-- filterIncoming returns. The messages that it keeps have different keys, the kept slots are
-- numbered 0, 1, 2 …, and each of them had the message that is kept at its number. In slot `i` or in one before it there came, whole as it was kept, a message that
-- has the key of the one in slot `i`; the index of that slot is the place where it is kept.
pub filter_incoming-covers :
    (incoming : Slots) (i : ℕ) (msg : Bytes)
    → AllLong incoming
    → get_elem? incoming i ≡ some (some msg)
    → (valid : List Bytes) × (index : List (Option ℕ)) × (slot : ℕ) × (place : ℕ) × (first : Bytes)
      × (filter_incoming incoming ≡ ok (valid, index))
      × FreshKeys [] valid
      × (kept_indices index ≡ count_up 0 (length valid))
      × AllPoint valid incoming index
      × (slot ≤ i)
      × (get_elem? incoming slot ≡ some (some first))
      × (get_elem? index slot ≡ some (some place))
      × (get_elem? valid place ≡ some first)
      × (key_of first ≡ key_of msg)
filter_incoming-covers incoming i msg h e =
    let (valid, index, r, f) = filter_incoming-Filters incoming h in
    elim (f.covered i msg e) [
      | inl c ↦ cc (contains-nil (key_of msg))
      | inr t ↦
          let (_, came, arrived, kept) = f.kept t.slot t.place t.indexed in
          let same : came ≡ t.first = cc (kept, t.placed) in
          (
            valid,
            index,
            t.slot,
            t.place,
            t.first,
            r,
            f.distinct,
            f.numbered,
            points valid incoming index f.size (λ j w at.
                let (_, m, came, placed) = f.kept j w at in (m, came, rw minus_zero at placed)),
            t.before,
            arrived ∙ ap (λ m. some (some m)) same,
            t.indexed,
            rw minus_zero at t.placed,
            t.same_key,
          )
    ]

-- Where the result points a slot at a kept message, that message came in that slot.
pub filter_incoming-points :
    (incoming : Slots) (i w : ℕ) {valid : List Bytes} {index : List (Option ℕ)}
    → AllLong incoming
    → filter_incoming incoming ≡ ok (valid, index)
    → get_elem? index i ≡ some (some w)
    → (msg : Bytes) × (get_elem? incoming i ≡ some (some msg)) × (get_elem? valid w ≡ some msg)
filter_incoming-points incoming i w {valid} {index} h r e =
    let (valid', index', r', f) = filter_incoming-Filters incoming h in
    let p : valid' ≡ valid = cc in
    let q : index' ≡ index = cc in
    let (_, msg, came, placed) = f.kept i w (rw q e) in
    (msg, came, rw p at (rw minus_zero at placed))
