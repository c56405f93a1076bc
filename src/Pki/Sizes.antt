-- ===== src/Pki/Sizes.antt =====
-- Index, the keys of the servers further on, and the onion sizes that fit them.
use native.Mathlib.Numerals.{add-one}
use text.Mathlib.Text.{◌==◌ as str_eq}
use text.Mathlib.TextEquality.{eq_iff}
use text.Mathlib.TextPositions.{eq_refl}
use Prim.Native.String.{String}
use mathlib.Core.List.{append_assoc}
use vuvuzela.Prelude.{
  ℕ, suc, ◌+◌, ◌-◌, ◌*◌, ◌≡◌, ◌≢◌, refl, sym, ap, ◌∙◌, false, List, [], ◌∷◌, ◌++◌, arith, length,
  length-append, drop,
}
use vuvuzela.Run.{ok, >>=-eq-ok}
use vuvuzela.Bytes.{Bytes, Random}
use vuvuzela.Nacl.{Nacl, NaclLaws, box_overhead}
use vuvuzela.Wire.{onion_overhead}
use vuvuzela.Onion.{seal_onion}
use vuvuzela.Onion.Layers.{length-seal_onion}
use vuvuzela.Pki.{
  Pki, keys_of, server_info, index_from, index, next_server_keys, incoming_onion_overhead,
  outgoing_onion_overhead,
}

-- `name` is none of the list's names.
abbrev pub IsNew : String → List String → Type 0
IsNew name [] = Unit
IsNew name (s ∷ ss) = (s ≢ name) × IsNew name ss

pub str_ne : (s name : String) → s ≢ name → str_eq s name ≡ false
str_ne s name h = ground (arith, eq_iff s name)

index_from-first :
    (name : String) (i : ℕ) (before after : List String)
    → IsNew name before
    → index_from name i (before ++ name ∷ after) ≡ i + length before
unfolding index_from
index_from-first name i [] [] h = omega arith
index_from-first name i [] (t ∷ after) h = rw (eq_refl name) (omega arith)
index_from-first name i (s ∷ []) after h =
    rw (str_ne s name h.0)
      (unfold index_from in index_from-first name (suc i) [] after tt ∙ omega arith)
index_from-first name i (s ∷ t ∷ before) after h =
    rw (str_ne s name h.0) (index_from-first name (suc i) (t ∷ before) after h.1 ∙ omega arith)

index_from-unknown :
    (name : String) (i : ℕ) (s : String) (rest : List String)
    → IsNew name (s ∷ rest)
    → index_from name i (s ∷ rest) ≡ i + length rest
unfolding index_from
index_from-unknown name i s [] h = omega arith
index_from-unknown name i s (t ∷ rest) h =
    rw (str_ne s name h.0) (index_from-unknown name (suc i) t rest h.1 ∙ omega arith)

drop_past :
    (before : List String) (x : String) (after : List String)
    → drop (suc (length before)) (before ++ x ∷ after) ≡ after
drop_past [] x after = refl
drop_past (s ∷ before) x after = drop_past before x after

-- The number of keys is the number of servers asked for.
pub length-keys_of :
    (pki : Pki) (ss : List String) {keys : List Bytes}
    → keys_of pki ss ≡ ok keys
    → length keys ≡ length ss
unfolding keys_of
length-keys_of pki [] {keys} h = let e : [] ≡ keys = cc in rw (← e)
length-keys_of pki (s ∷ ss) {keys} h =
    let (info, p, h') = >>=-eq-ok (server_info pki s) _ h in
    let (rest, q, h'') = >>=-eq-ok (keys_of pki ss) _ h' in
    let e : info.public_key ∷ rest ≡ keys = cc in rw (← e) (ap suc (length-keys_of pki ss q))

module _ (pki : Pki) (name : String) (before after : List String)
    (order : pki.server_order ≡ before ++ name ∷ after) (fresh : IsNew name before) where
  pub index-first : index pki name ≡ length before
  unfolding index
  index-first = rw order (index_from-first name 0 before after fresh ∙ omega arith)

  pub length-order : length pki.server_order ≡ length before + suc (length after)
  length-order = rw order (length-append before (name ∷ after))

  -- For a server of the order, NextServerKeys are the keys of exactly those behind it, and the
  -- overheads count it and those behind it.
  pub next_keys-and-overheads :
      (next_server_keys pki name ≡ keys_of pki after)
      × (incoming_onion_overhead pki name ≡ suc (length after) * onion_overhead)
      × (outgoing_onion_overhead pki name ≡ suc (length after) * box_overhead)
  unfolding next_server_keys incoming_onion_overhead outgoing_onion_overhead
  next_keys-and-overheads = (
    rw (index-first, length-order, order, add-one) (ground (arith, drop_past before name after)),
    rw (index-first, length-order) (omega arith),
    rw (index-first, length-order) (omega arith),
  )

-- The last server has no keys behind it; a name that is no server's is taken for the last server.
pub index-unknown :
    (pki : Pki) (name : String)
    → IsNew name pki.server_order
    → index pki name ≡ length pki.server_order - 1
unfolding index
index-unknown pki name h = unknown pki.server_order h
  where
    unknown : (order : List String) → IsNew name order → index_from name 0 order ≡ length order - 1
    unknown [] h = unfold index_from in refl
    unknown (s ∷ rest) h = index_from-unknown name 0 s rest h ∙ omega arith

module _ (box : Nacl) (laws : NaclLaws box) (pki : Pki) (name next : String)
    (before after : List String) (order : pki.server_order ≡ before ++ name ∷ next ∷ after)
    (fresh : IsNew name before) (fresh_next : IsNew next (before ++ name ∷ [])) where
  -- An onion that a server of the order seals for the servers behind it has exactly the size that
  -- the next server expects of a message of that length.
  pub length-noise_onion :
      (message nonce : Bytes) (rs : ℕ → Random) {keys : List Bytes}
      → next_server_keys pki name ≡ ok keys
      → length (seal_onion box message nonce keys rs).0
        ≡ incoming_onion_overhead pki next + length message
  length-noise_onion message nonce rs {keys} h =
      let order' : pki.server_order ≡ (before ++ name ∷ []) ++ next ∷ after =
        order ∙ sym (append_assoc before (name ∷ []) (next ∷ after)) in
      let (here, _, _) = next_keys-and-overheads pki name before (next ∷ after) order fresh in
      let (_, size, _) =
        next_keys-and-overheads pki next (before ++ name ∷ []) after order' fresh_next in
      let count : length keys ≡ suc (length after) =
        length-keys_of pki (next ∷ after) (sym here ∙ h) in
      omega (
        arith,
        length-seal_onion box laws message nonce keys rs,
        size,
        ap (λ (k : ℕ). k * onion_overhead) count,
      )
