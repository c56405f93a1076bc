-- ===== src/Dial/Filtered.antt =====
-- filterIncoming of dial.go against filterIncoming of convo.go.
use vuvuzela.Prelude.{
  arith, ap, ltb, ◌∙◌, ℕ, suc, ◌≡◌, refl, true, List, [], ◌∷◌, Option, some, none, map, inl, inr,
  Bool-cases, length,
}
use vuvuzela.Run.{Run, ok, err, panic, blocked, ◌>>=◌}
use vuvuzela.Bytes.{Bytes}
use vuvuzela.Filter.First.{key_of, msg_key-ok}
use vuvuzela.Filter.{
  msg_key, contains, filter_from, filter_incoming, filter_dial_from, filter_dial_incoming,
}

-- The messages that a filter keeps, without the indices.
abbrev kept_messages : Run (List Bytes × List (Option ℕ)) → Run (List Bytes)
kept_messages (ok (valid, index)) = ok valid
kept_messages (err e) = err e
kept_messages panic = panic
kept_messages blocked = blocked

msg_key-short : (m : Bytes) → ltb (length m) 8 ≡ true → msg_key m ≡ panic
unfolding msg_key
msg_key-short m e = rw e

kept_skip :
    (m : Run (List Bytes × List (Option ℕ)))
    → kept_messages m ≡ kept_messages (m >>= λ (valid, index). ok (valid, none ∷ index))
kept_skip (ok (valid, index)) = refl
kept_skip (err e) = refl
kept_skip panic = refl
kept_skip blocked = refl

kept_more :
    (msg : Bytes) (v : ℕ) (m : Run (List Bytes × List (Option ℕ)))
    → (kept_messages m >>= λ valid. ok (msg ∷ valid))
      ≡ kept_messages (m >>= λ (valid, index). ok (msg ∷ valid, some v ∷ index))
kept_more msg v (ok (valid, index)) = refl
kept_more msg v (err e) = refl
kept_more msg v panic = refl
kept_more msg v blocked = refl

filter_dial_from-kept :
    (seen : List ℕ) (v : ℕ) (ms : List Bytes)
    → filter_dial_from seen ms ≡ kept_messages (filter_from seen v (map some ms))
unfolding filter_dial_from filter_from
filter_dial_from-kept seen v [] = refl
filter_dial_from-kept seen v (m ∷ ms) = elim (Bool-cases (ltb (length m) 8)) [
  | inl short ↦ rw (msg_key-short m short)
  | inr long ↦ elim (Bool-cases (contains (key_of m) seen)) [
    | inl old ↦
        rw (msg_key-ok m (ground arith), ◌>>=◌, old, filter_dial_from-kept seen v ms)
          (kept_skip (filter_from seen v (map some ms)))
    | inr new ↦
        rw
          (
            msg_key-ok m (ground arith),
            ◌>>=◌,
            new,
            filter_dial_from-kept (key_of m ∷ seen) (suc v) ms,
          )
          (kept_more m v (filter_from (key_of m ∷ seen) (suc v) (map some ms)))
  ]
]

-- Where both have the same messages and no slot is empty, the filter of the dialing service keeps
-- what that of the conversation service keeps.
pub filter_dial_incoming-kept :
    (ms : List Bytes) {valid : List Bytes} {index : List (Option ℕ)}
    → filter_incoming (map some ms) ≡ ok (valid, index)
    → filter_dial_incoming ms ≡ ok valid
unfolding filter_incoming filter_dial_incoming
filter_dial_incoming-kept ms e = filter_dial_from-kept [] 0 ms ∙ ap kept_messages e
