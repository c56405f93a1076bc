-- ===== src/Client/Introduced.antt =====
-- vuvuzela-client/dialer.go: an introduction and its reader.
use mathlib.Core.List.{filter_map}
use Prim.Native.String.{String}
use vuvuzela.Bytes.Equality.{bytes_eq_iff}
use vuvuzela.Prelude.{
  ◌⊎◌, ◌≢◌, suc, get_elem?, Bool-cases, ℕ, ◌+◌, ◌<◌, ◌≡◌, refl, ap, ◌∙◌, List, [], ◌∷◌, ◌++◌,
  Option, some, inl, inr, arith, length, Option-cases,
}
use vuvuzela.Bytes.{Bytes, Random, bytes_eq, u32, u32_mod, put_be32}
use vuvuzela.Nacl.{Nacl, NaclLaws}
use vuvuzela.Wire.{Introduction, marshal_introduction, forward_nonce, size_encrypted_intro}
use vuvuzela.Wire.RoundTrip.{unmarshal-marshal_introduction}
use vuvuzela.Onion.{seal_onion, seal_layer}
use vuvuzela.Onion.Layers.{length-seal_onion, peel-seal_layer}
use vuvuzela.Client.Message.{copy_zeros_whole}
use vuvuzela.Client.Dialer.{
  DialerKeys, Caller, intro_to, read_intro, caller_of, caller_in, handle_dial_bucket, friend,
  stranger,
}

filter_map-append {ℓ κ} :
    {A : Type ℓ} {B : Type κ} (f : A → Option B) (xs ys : List A)
    → filter_map f (xs ++ ys) ≡ filter_map f xs ++ filter_map f ys
unfolding filter_map
filter_map-append f [] ys = refl
filter_map-append f (x ∷ xs) ys = elim (Option-cases (f x)) [
  | inl e ↦ rw e (filter_map-append f xs ys)
  | inr (b, e) ↦ rw e (ap (◌∷◌ b) (filter_map-append f xs ys))
]

-- No name of the list has the key.
abbrev pub Unlisted : List (String × Bytes) → Bytes → Type 0
Unlisted [] key = Unit
Unlisted ((name, k) ∷ people) key = (k ≢ key) × Unlisted people key

-- Who the list has for the key: a name that it gives the key, or, if there is none, the key itself.
abbrev pub IsListedAs : List (String × Bytes) → Bytes → Caller → Type 0
IsListedAs people key who =
    ((name : String) × (i : ℕ) × (who ≡ friend name) × (get_elem? people i ≡ some (name, key)))
    ⊎ ((who ≡ stranger key) × Unlisted people key)

caller_of-IsListedAs :
    (box : Nacl) (keys : DialerKeys) (people : List (String × Bytes)) (key : Bytes)
    → IsListedAs people key (caller_of box keys people key)
unfolding caller_of
caller_of-IsListedAs box keys [] key = inr (refl, tt)
caller_of-IsListedAs box keys ((name, k) ∷ people) key = elim (Bool-cases (bytes_eq k key)) [
  | inl e ↦
      let same : k ≡ key = (bytes_eq_iff k key).0 e in
      rw e (inl (name, 0, refl, ap (λ x. some (name, x)) same))
  | inr e ↦
      let differs : k ≢ key = λ same. cc (e, (bytes_eq_iff k key).1 same) in
      rw e (elim (caller_of-IsListedAs box keys people key) [
        | inl (name', i, who, there) ↦ inl (name', suc i, who, there)
        | inr (who, unlisted) ↦ inr (who, (differs, unlisted))
      ])
]

length-marshal_introduction :
    (i : Introduction) → length i.long_term_key ≡ 32 → length (marshal_introduction i) ≡ 36
unfolding marshal_introduction put_be32
length-marshal_introduction i h = omega (arith, h)

module _ (box : Nacl) (laws : NaclLaws box) (caller reader : DialerKeys) (round : ℕ)
    (rs : ℕ → Random) (sized : length caller.my_public_key ≡ 32) where
  abbrev introduction : Introduction
  introduction = record { rendezvous = u32 (round + 4); long_term_key = caller.my_public_key }

  abbrev pub for_reader : Bytes
  for_reader = intro_to box caller round (box.public_key reader.my_private_key) rs

  for_reader-whole :
      for_reader
      ≡ (seal_layer box
          (marshal_introduction introduction)
          (forward_nonce round)
          (box.public_key reader.my_private_key)
          (rs 0)).0
  unfolding intro_to seal_onion
  for_reader-whole =
      let m = marshal_introduction introduction in
      let pk = box.public_key reader.my_private_key in
      copy_zeros_whole size_encrypted_intro _ (
        omega (
          arith,
          length-seal_onion box laws m (forward_nonce round) (pk ∷ []) rs,
          length-marshal_introduction introduction sized,
        ))

  read_intro-for_reader : read_intro box reader round for_reader ≡ some introduction
  unfolding read_intro
  read_intro-for_reader =
      let m = marshal_introduction introduction in
      let (_, opened) =
        peel-seal_layer box laws m (forward_nonce round) reader.my_private_key (rs 0) in
      let small : u32 (round + 4) < u32_mod = omega arith in
      rw (for_reader-whole, read_intro, opened)
        (unmarshal-marshal_introduction introduction (small, sized))

  -- A reader of a bucket that holds an introduction, of a caller whose public key has 32 bytes, made for
  -- the reader's public key is shown the caller: by a name that the PKI has for the caller's key, or, if
  -- it has none, by the key. Whatever else the bucket holds is shown as it would be without.
  pub handle_dial_bucket-shows :
      (before after : List Bytes)
      → (who : Caller) × IsListedAs reader.pki.people caller.my_public_key who
        × (handle_dial_bucket box reader round (before ++ for_reader ∷ after)
            ≡ handle_dial_bucket box reader round before
              ++ who ∷ handle_dial_bucket box reader round after)
  unfolding handle_dial_bucket caller_in
  handle_dial_bucket-shows before after =
      let who = caller_of box reader reader.pki.people caller.my_public_key in
      let shown : caller_in box reader round for_reader ≡ some who =
        rw (caller_in, read_intro-for_reader) in
      (
        who,
        caller_of-IsListedAs box reader reader.pki.people caller.my_public_key,
        filter_map-append (caller_in box reader round) before (for_reader ∷ after)
            ∙ ap (λ (l : List Caller). handle_dial_bucket box reader round before ++ l)
                (rw (filter_map, shown)),
      )
