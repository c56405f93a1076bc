-- ===== src/Client/Roles.antt =====
-- vuvuzela-client/conversation.go: the roles, the messages and the dead drops of two peers.
use vuvuzela.Prelude.{ℕ, ◌≡◌, ◌≢◌, refl, ap, sym, true, false, [], ◌∷◌, some, arith, drop}
use vuvuzela.Bytes.{Bytes, Random, put_be32}
use vuvuzela.Bytes.Equality.{bytes_eq_iff}
use vuvuzela.Nacl.{Nacl, NaclLaws}
use vuvuzela.Client.Conversation.{
  Peer, bytes_lt, role_nonce, solo, my_role, their_role, seal_message, open_message, dead_drop,
}

bytes_lt_asym : (x y : Bytes) → bytes_lt x y ≡ true → bytes_lt y x ≡ false
unfolding bytes_lt
bytes_lt_asym [] [] h = refl
bytes_lt_asym [] (b ∷ y) h = refl
bytes_lt_asym (a ∷ x) [] h = cc
bytes_lt_asym (a ∷ x) (b ∷ y) h = ground (arith, bytes_lt_asym x y)

bytes_lt_total : (x y : Bytes) → bytes_lt x y ≡ false → bytes_lt y x ≡ false → x ≡ y
unfolding bytes_lt
bytes_lt_total [] [] h k = refl
bytes_lt_total [] (b ∷ y) h k = cc
bytes_lt_total (a ∷ x) [] h k = cc
bytes_lt_total (a ∷ x) (b ∷ y) h k = ground (arith, bytes_lt_total x y)

-- Each of the two has the other's public key, and the private key that belongs to its own.
pub record ArePeers (box : Nacl) (p q : Peer) : Type 0 where
  pub mine : p.my_public_key ≡ box.public_key p.my_private_key
  pub yours : q.my_public_key ≡ box.public_key q.my_private_key
  pub knows : p.peer_public_key ≡ q.my_public_key
  pub known : q.peer_public_key ≡ p.my_public_key

module _ (box : Nacl) (laws : NaclLaws box) (hmac : Bytes → Bytes → Bytes) (p q : Peer)
    (peers : ArePeers box p q) where
  pub same_key :
      box.precompute p.peer_public_key p.my_private_key
      ≡ box.precompute q.peer_public_key q.my_private_key
  same_key =
      rw (peers.knows, peers.known, peers.mine, peers.yours)
        (laws.shared_key q.my_private_key p.my_private_key)

  roles_meet :
      (my_role box hmac p ≡ their_role box hmac q) × (their_role box hmac p ≡ my_role box hmac q)
  unfolding my_role their_role
  roles_meet = (rw (peers.knows, peers.known), rw (peers.knows, peers.known))

  roles_differ : p.my_public_key ≢ q.my_public_key → my_role box hmac p ≢ my_role box hmac q
  unfolding my_role
  roles_differ ne e =
      let total = bytes_lt_total p.my_public_key q.my_public_key in
      let asym = bytes_lt_asym p.my_public_key q.my_public_key in
      let e' = rw (peers.knows, peers.known) at e in ground arith

  pub not_solo : p.my_public_key ≢ q.my_public_key → solo box hmac p ≡ false
  unfolding solo
  not_solo ne =
      let iff = bytes_eq_iff p.my_public_key q.my_public_key in rw peers.knows (ground arith)

  -- What a client seals for a round in its own role, its peer opens in the role that it takes the
  -- client to have.
  pub open-seal_message :
      (m : Bytes) (round : ℕ)
      → open_message box hmac q
          (seal_message box hmac p m round (my_role box hmac p))
          round
          (their_role box hmac q)
        ≡ some m
  unfolding open_message seal_message
  open-seal_message m round =
      rw (open_message, seal_message, same_key, roles_meet.0)
        (laws.unseal-seal m (role_nonce round (their_role box hmac q))
          (box.precompute q.peer_public_key q.my_private_key))

  -- Two peers with different public keys never seal under the same nonce, whatever the rounds: their
  -- roles differ.
  pub role_nonces_differ :
      (round round' : ℕ)
      → p.my_public_key ≢ q.my_public_key
      → role_nonce round (my_role box hmac p) ≢ role_nonce round' (my_role box hmac q)
  unfolding role_nonce put_be32
  role_nonces_differ round round' ne e =
      let tails : my_role box hmac p ∷ [] ≡ my_role box hmac q ∷ [] = ap (drop 23) e in
      let same : my_role box hmac p ≡ my_role box hmac q = cc in roles_differ ne same

module _ (box : Nacl) (laws : NaclLaws box) (hmac : Bytes → Bytes → Bytes) (p q : Peer)
    (peers : ArePeers box p q) where
  pub ArePeers-sym : ArePeers box q p
  ArePeers-sym = record {
    mine = peers.yours;
    yours = peers.mine;
    knows = peers.known;
    known = peers.knows;
  }

  -- Two peers with different public keys name the same dead drop in every round.
  pub dead_drop-agrees :
      (round : ℕ) (r r' : Random)
      → p.my_public_key ≢ q.my_public_key
      → dead_drop box hmac p round r ≡ dead_drop box hmac q round r'
  unfolding dead_drop
  dead_drop-agrees round r r' ne =
      let other : q.my_public_key ≢ p.my_public_key = λ e. ne (sym e) in
      rw (
        not_solo box laws hmac p q peers ne,
        not_solo box laws hmac q p ArePeers-sym other,
        same_key box laws hmac p q peers,
      )
