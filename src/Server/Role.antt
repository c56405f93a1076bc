-- ===== src/Server/Role.antt =====
-- server.go: which server of the chain takes itself for the last one.
use Prim.Native.String.{String}
use text.Mathlib.Text.{◌==◌ as str_eq}
use vuvuzela.Prelude.{
  ◌+◌, ◌≡◌, ◌≢◌, refl, sym, ap, ◌∙◌, Bool, true, false, List, [], ◌∷◌, ◌++◌, some, arith, ltb,
  length,
}
use vuvuzela.Run.{ok}
use vuvuzela.Bytes.{Bytes}
use vuvuzela.Pki.{Pki, next_server, index}
use vuvuzela.Pki.Sizes.{IsNew, str_ne, index-first, length-order, index-unknown}
use vuvuzela.Pki.Reading.{next_total, AllReachable, address-total}
use vuvuzela.Node.{Config, start_node}
use vuvuzela.Server.{Conf, services, configure, start_server}

-- There is no server behind.
abbrev pub is_end : List String → Bool
is_end [] = true
is_end (s ∷ ss) = false

ok-injective {ℓ} : {A : Type ℓ} {a b : A} → ok a ≡ ok b → a ≡ b
ok-injective e = cc

module _ (has_colon : String → Bool) (join_port : String → String) (pki : Pki) (name : String) where
  -- NextServer of a server of the order: an address just when there is a server behind it.
  next_server-is_end :
      (before after : List String) {a : String}
      → pki.server_order ≡ before ++ name ∷ after
      → IsNew name before
      → AllReachable has_colon join_port pki.servers pki.server_order
      → next_server pki name ≡ ok a
      → str_eq a "" ≡ is_end after
  unfolding next_server
  next_server-is_end before [] {a} order fresh reachable e =
      let at = index-first pki name before [] order fresh in
      let size = length-order pki name before [] order fresh in
      let over : ltb (index pki name + 1) (length pki.server_order) ≡ false = ground arith in
      let same : "" ≡ a = ok-injective (rw over at e) in ap (λ (x : String). str_eq x "") (sym same)
  next_server-is_end before (s ∷ ss) {a} order fresh reachable e =
      let at = index-first pki name before (s ∷ ss) order fresh in
      let size = length-order pki name before (s ∷ ss) order fresh in
      let below : ltb (index pki name + 1) (length pki.server_order) ≡ true = ground arith in
      let (b, found, address) =
        address-total has_colon join_port pki (index pki name + 1) reachable
          (omega (arith, at, size)) in
      let e' = rw below at e in
      let same : b ≡ a = ok-injective (sym found ∙ e') in
      ap (λ (x : String). str_eq x "") (sym same) ∙ str_ne b "" address

  next_server-unknown :
      {a : String} → IsNew name pki.server_order → next_server pki name ≡ ok a → str_eq a "" ≡ true
  unfolding next_server
  next_server-unknown {a} new e =
      let over : ltb (index pki name + 1) (length pki.server_order) ≡ false =
        ground (arith, index-unknown pki name new) in
      let same : "" ≡ a = ok-injective (rw over at e) in ap (λ (x : String). str_eq x "") (sym same)

-- A config with all its fields, a PKI file that ReadPKI accepted, and servers that can be dialled.
module _ (has_colon : String → Bool) (join_port : String → String) (dials : String → Bool)
    (pki : Pki) (conf : Conf) {mine secret : Bytes} (public : conf.public_key ≡ some mine)
    (private : conf.private_key ≡ some secret) (named : conf.server_name ≢ "")
    (reachable : AllReachable has_colon join_port pki.servers pki.server_order)
    (answering : (address : String) → dials address ≡ true) where
  -- The server starts with what the files say, on a fresh node, and as the last server or not.
  abbrev pub StartsAs : Bool → Type 0
  StartsAs last =
      (cfg : Config) × (start_server dials pki conf ≡ ok (cfg, start_node))
      × (cfg.pki ≡ pki)
      × (cfg.server_name ≡ conf.server_name)
      × (cfg.private_key ≡ secret)
      × (cfg.last_server ≡ last)

  starts :
      (address : String) (last : Bool)
      → next_server pki conf.server_name ≡ ok address
      → str_eq address "" ≡ last
      → StartsAs last
  unfolding start_server configure services
  starts address true found empty = (
    record { pki = pki; server_name = conf.server_name; private_key = secret; last_server = true },
    simp (
      start_server,
      configure,
      public,
      private,
      str_ne conf.server_name "" named,
      found,
      services,
      empty,
    ),
    refl,
    refl,
    refl,
    refl,
  )
  starts address false found empty = (
    record { pki = pki; server_name = conf.server_name; private_key = secret; last_server = false },
    simp (
      start_server,
      configure,
      public,
      private,
      str_ne conf.server_name "" named,
      found,
      services,
      empty,
      answering address,
    ),
    refl,
    refl,
    refl,
    refl,
  )

  -- With all fields of the config, an accepted PKI file and servers that can be dialled, a server of
  -- the order starts, and takes itself for the last one just when there is no server behind it.
  pub start_server-of_order :
      (before after : List String)
      → pki.server_order ≡ before ++ conf.server_name ∷ after
      → IsNew conf.server_name before
      → StartsAs (is_end after)
  start_server-of_order before after order fresh =
      let (address, found) = next_total has_colon join_port pki conf.server_name reachable in
      starts address (is_end after) found (
        next_server-is_end has_colon join_port pki conf.server_name before after order fresh
          reachable found)

  -- With all fields of the config, an accepted PKI file and servers that can be dialled, a server whose
  -- name is none of the order's starts all the same, as the last server.
  pub start_server-unknown : IsNew conf.server_name pki.server_order → StartsAs true
  start_server-unknown new =
      let (address, found) = next_total has_colon join_port pki conf.server_name reachable in
      starts address true found
        (next_server-unknown has_colon join_port pki conf.server_name new found)
