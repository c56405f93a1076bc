-- ===== src/Client/Gui/Known.antt =====
-- gui.go: the conversations that the user interface knows, and the one that is selected.
use Prim.Native.String.{String}
use text.Mathlib.Text.{◌==◌ as str_eq}
use text.Mathlib.TextEquality.{eq_iff}
use text.Mathlib.TextPositions.{eq_refl}
use vuvuzela.Prelude.{
  if◌then◌else◌, ℕ, zero, suc, ◌≡◌, refl, sym, ap, ◌∙◌, Bool, true, List, [], ◌∷◌, ◌++◌, map,
  Option, none, some, arith, length, get_elem?, set, get_elem?-append_left, Option-cases,
  Bool-cases, inl, inr, ◌⊎◌,
}
use vuvuzela.Bytes.{Bytes}
use vuvuzela.Pki.{find_name}
use vuvuzela.Rpc.{Call}
use vuvuzela.Client.Conversation.{Peer, Conversation}
use vuvuzela.Client.Handlers.{Client}
use vuvuzela.Client.Gui.{User, Gui, with_convo, peer_of}

-- What the rules about conversations speak of: who the conversations on the heap are with, the map,
-- the selected one, and the handlers of the client.
pub record View : Type 0 where
  pub peers : List Peer
  pub conversations : List (String × ℕ)
  pub selected : Option ℕ
  pub handlers : Option (Option ℕ × Bool)

abbrev pub handlers_of : Option Client → Option (Option ℕ × Bool)
handlers_of none = none
handlers_of (some c) = some (c.convo_handler, c.dial_handler)

abbrev pub view : Gui → View
view g = record {
  peers = map (λ e. e.0) g.heap;
  conversations = g.conversations;
  selected = g.selected_convo;
  handlers = handlers_of g.client;
}

module _ (me : User) where
  -- The peer has this name and this key, and the rest is the user's own.
  abbrev pub IsWith : String → Bytes → Peer → Type 0
  IsWith name key p =
      (p.peer_name ≡ name)
      × (p.peer_public_key ≡ key)
      × (p.my_public_key ≡ me.my_public_key)
      × (p.my_private_key ≡ me.my_private_key)
      × (p.pki ≡ me.pki)

  pub peer_of-IsWith : (name : String) (key : Bytes) → IsWith name key (peer_of me name key)
  unfolding peer_of
  peer_of-IsWith name key = (refl, refl, refl, refl, refl)

  pub IsWith-peer_of :
      (name : String) (key : Bytes) (p : Peer) → IsWith name key p → p ≡ peer_of me name key
  unfolding peer_of
  IsWith-peer_of name key p (named, keyed, mine, secret, servers) i = record {
    pki = servers i;
    peer_name = named i;
    peer_public_key = keyed i;
    my_public_key = mine i;
    my_private_key = secret i;
  }

  -- The map and the heap hold one conversation for each name, with the key that the PKI has for it.
  pub record Registered (v : View) : Type 0 where
    pub known :
        (name : String) (h : ℕ)
        → find_name name v.conversations ≡ some h
        → (key : Bytes) × (p : Peer) × (get_elem? v.peers h ≡ some p)
          × IsWith name key p
          × (find_name name me.pki.people ≡ some key)
    pub mapped :
        (h : ℕ) (p : Peer)
        → get_elem? v.peers h ≡ some p
        → find_name p.peer_name v.conversations ≡ some h

  -- The selected conversation is one of them, and the client, if there is one, has it as its handler.
  pub record Consistent (v : View) : Type 0 where
    pub registered : Registered v
    pub talking : (h : ℕ) × (p : Peer) × (v.selected ≡ some h) × (get_elem? v.peers h ≡ some p)
    pub handled :
        (handler : Option ℕ) (dials : Bool)
        → v.handlers ≡ some (handler, dials)
        → (handler ≡ v.selected) × (dials ≡ true)

pub some-injective {ℓ} : {A : Type ℓ} {a b : A} → some a ≡ some b → a ≡ b
some-injective e = cc

pub map-set_same :
    (heap : List (Peer × Conversation)) (h : ℕ) {p : Peer} {c : Conversation} (c' : Conversation)
    → get_elem? heap h ≡ some (p, c)
    → map (λ e. e.0) (set heap h (p, c')) ≡ map (λ e. e.0) heap
map-set_same [] h c' e = cc
map-set_same ((q, d) ∷ heap) zero {p} c' e =
    let same : p ≡ q = cc in ap (λ x. x ∷ map (λ e. e.0) heap) same
map-set_same ((q, d) ∷ heap) (suc h) c' e = ap (◌∷◌ q) (map-set_same heap h c' e)

-- A step of one conversation changes neither who the conversations are with nor which is selected.
pub view-with_convo :
    {A : Type 0} (h : ℕ) (step : Peer → Call Conversation A) (g : Gui)
    → view (with_convo h step g).0 ≡ view g
unfolding with_convo
view-with_convo h step g = elim (Option-cases (get_elem? g.heap h)) [
  | inl none_there ↦ rw (with_convo, none_there)
  | inr ((p, c), there) ↦
      rw (with_convo, there)
        (ap (λ ps. record (view g) { peers = ps }) (map-set_same g.heap h ((step p c).0) there))
]

find_name-append {ℓ} :
    {A : Type ℓ} (k j : String) (v : A) (m : List (String × A))
    → find_name k (m ++ (j, v) ∷ [])
      ≡ elim (find_name k m) [ none ↦ (if str_eq j k then some v else none) | some w ↦ some w ]
unfolding find_name
find_name-append k j v [] = refl
find_name-append k j v ((i, w) ∷ m) = elim (Bool-cases (str_eq i k)) [
  | inl e ↦ rw e
  | inr e ↦ rw e (find_name-append k j v m)
]

get_elem?-snoc {ℓ} :
    {A : Type ℓ} (xs : List A) (y : A) (h : ℕ) {p : A}
    → get_elem? (xs ++ y ∷ []) h ≡ some p
    → (get_elem? xs h ≡ some p) ⊎ ((h ≡ length xs) × (p ≡ y))
get_elem?-snoc [] y zero e = inr (refl, cc)
get_elem?-snoc [] y (suc h) e = cc
get_elem?-snoc (x ∷ xs) y zero e = inl e
get_elem?-snoc (x ∷ xs) y (suc h) e = elim (get_elem?-snoc xs y h e) [
  | inl old ↦ inl old
  | inr (at, same) ↦ inr (ap suc at, same)
]

pub get_elem?-last {ℓ} :
    {A : Type ℓ} (xs : List A) (y : A) → get_elem? (xs ++ y ∷ []) (length xs) ≡ some y
get_elem?-last [] y = refl
get_elem?-last (x ∷ xs) y = get_elem?-last xs y

module _ (me : User) (v : View) (r : Registered me v) (peer : String) (key : Bytes)
    (new : find_name peer v.conversations ≡ none)
    (listed : find_name peer me.pki.people ≡ some key) where
  -- The view with a new conversation.
  abbrev pub extended : View
  extended = record v {
    peers = v.peers ++ peer_of me peer key ∷ [];
    conversations = v.conversations ++ (peer, length v.peers) ∷ [];
  }

  known_then :
      (name : String) (h : ℕ)
      → find_name name extended.conversations ≡ some h
      → (k : Bytes) × (p : Peer) × (get_elem? extended.peers h ≡ some p)
        × IsWith me name k p
        × (find_name name me.pki.people ≡ some k)
  known_then name h e =
      let split = sym (find_name-append name peer (length v.peers) v.conversations) ∙ e in
      elim (Option-cases (find_name name v.conversations)) [
        | inr (w, old) ↦
            let same : w ≡ h = some-injective (rw old at split) in
            let (k, p, there, with, people) = r.known name h (old ∙ ap some same) in
            (k, p, get_elem?-append_left v.peers _ h there, with, people)
        | inl none_old ↦
            let split' = rw none_old at split in
            elim (Bool-cases (str_eq peer name)) [
              | inl equal ↦
                  let here : length v.peers ≡ h = some-injective (rw equal at split') in
                  let named : peer ≡ name = ground (arith, eq_iff peer name) in
                  rw (← here, ← named)
                    (
                      key,
                      peer_of me peer key,
                      get_elem?-last v.peers (peer_of me peer key),
                      peer_of-IsWith me peer key,
                      listed,
                    )
              | inr unequal ↦ cc (rw unequal at split')
            ]
      ]

  mapped_then :
      (h : ℕ) (p : Peer)
      → get_elem? extended.peers h ≡ some p
      → find_name p.peer_name extended.conversations ≡ some h
  unfolding peer_of
  mapped_then h p e = elim (get_elem?-snoc v.peers (peer_of me peer key) h e) [
    | inl old ↦
        rw (find_name-append p.peer_name peer (length v.peers) v.conversations, r.mapped h p old)
    | inr (at, same) ↦
        let named : p.peer_name ≡ peer = ap (λ (q : Peer). q.peer_name) same in
        rw (
          named,
          find_name-append peer peer (length v.peers) v.conversations,
          new,
          eq_refl peer,
          at,
        )
  ]

  pub Registered-extended : Registered me extended
  Registered-extended = record { known = known_then; mapped = mapped_then }
