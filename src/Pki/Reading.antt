-- ===== src/Pki/Reading.antt =====
-- ReadPKI: what a file that it accepts is good for.
use text.Mathlib.Text.{◌==◌ as str_eq}
use text.Mathlib.TextEquality.{eq_iff}
use text.Mathlib.TextPositions.{eq_refl}
use Prim.Native.String.{String}
use vuvuzela.Prelude.{
  ℕ, zero, suc, ◌+◌, ◌-◌, ◌≤◌, ◌<◌, ◌≡◌, ◌≢◌, refl, ◌∙◌, Bool, true, List, [], ◌∷◌, some, arith,
  ltb, leb, ◌==◌, length, get_elem?, drop, if◌then◌else◌, inl, inr, Bool-cases, Option-cases,
}
use vuvuzela.Run.{ok, panic, ◌>>=◌, >>=-eq-ok, or_else}
use vuvuzela.Bytes.{Bytes}
use vuvuzela.Pki.{
  Pki, ServerInfo, find_name, set_name, server_info, keys_of, server_keys, first_server,
  last_server, next_server, next_server_keys, index, index_from, check_info, check_server,
  check_servers, read_pki,
}

abbrev Servers : Type 0
Servers = List (String × ServerInfo)

find_name-set_name :
    (j k : String) (v : ServerInfo) (m : Servers) {w : ServerInfo}
    → find_name j m ≡ some w
    → find_name k (set_name j v m) ≡ (if str_eq j k then some v else find_name k m)
unfolding find_name set_name
find_name-set_name j k v [] h = cc
find_name-set_name j k v ((i, u) ∷ m) {w} h = elim (Bool-cases (str_eq i j)) [
  | inl p ↦ let e : i ≡ j = (eq_iff i j).0 p in rw (p, e) (ground arith)
  | inr p ↦
      let rest : find_name j m ≡ some w = rw p at h in
      rw (p, find_name-set_name j k v m rest) (ground (arith, eq_iff i j, eq_iff i k, eq_iff j k))
]

module _ (has_colon : String → Bool) (join_port : String → String) where
  -- The server is in the map, with an address that is not empty and has a colon.
  abbrev pub IsReachable : Servers → String → Type 0
  IsReachable m s =
      (info : ServerInfo) × (find_name s m ≡ some info)
      × (info.address ≢ "")
      × (has_colon info.address ≡ true)

  abbrev pub AllReachable : Servers → List String → Type 0
  AllReachable m [] = Unit
  AllReachable m (s ∷ ss) = IsReachable m s × AllReachable m ss

  module _ (join-colon : (a : String) → has_colon (join_port a) ≡ true)
      (join-ne : (a : String) → join_port a ≢ "") where
    check_info-IsReachable :
        (s : String) (m : Servers) (info : ServerInfo) {m' : Servers}
        → find_name s m ≡ some info
        → check_info has_colon join_port s m info ≡ ok m'
        → IsReachable m' s × ((k : String) → IsReachable m k → IsReachable m' k)
    unfolding check_info
    check_info-IsReachable s m info {m'} e h = elim (Bool-cases (str_eq info.address "")) [
      | inl p ↦ cc (rw p at h)
      | inr p ↦
          let named : info.address ≢ "" = λ q. cc (p, (eq_iff info.address "").1 q) in
          elim (Bool-cases (has_colon info.address)) [
            | inl c ↦
                let h' : ok m ≡ ok m' = rw (p, c) at h in
                let f : m ≡ m' = cc in rw (← f) ((info, e, named, c), λ k r. r)
            | inr c ↦
                let v : ServerInfo = record info { address = join_port info.address } in
                let h' : ok (set_name s v m) ≡ ok m' = rw (p, c) at h in
                let f : set_name s v m ≡ m' = cc in
                let here : find_name s (set_name s v m) ≡ some v =
                  find_name-set_name s s v m e ∙ (rw (eq_refl s)) in
                let good : IsReachable (set_name s v m) s =
                  (v, here, join-ne info.address, join-colon info.address) in
                rw (← f) (
                  good,
                  λ k (w, found, ne, colon). elim (Bool-cases (str_eq s k)) [
                    | inl q ↦ let t : s ≡ k = (eq_iff s k).0 q in rw (← t) good
                    | inr q ↦ (w, find_name-set_name s k v m e ∙ (rw q) ∙ found, ne, colon)
                  ],
                )
          ]
    ]

    check_server-IsReachable :
        (s : String) (m : Servers) {m' : Servers}
        → check_server has_colon join_port s m ≡ ok m'
        → IsReachable m' s × ((k : String) → IsReachable m k → IsReachable m' k)
    unfolding check_server
    check_server-IsReachable s m {m'} h = elim (Option-cases (find_name s m)) [
      | inl e ↦ cc (rw (e, check_server) at h)
      | inr (info, e) ↦ check_info-IsReachable s m info e (rw (e, check_server) at h)
    ]

    check_servers-IsReachable :
        (ss : List String) (m : Servers) {m' : Servers}
        → check_servers has_colon join_port ss m ≡ ok m'
        → AllReachable m' ss × ((k : String) → IsReachable m k → IsReachable m' k)
    unfolding check_servers
    check_servers-IsReachable [] m {m'} h = let f : m ≡ m' = cc in rw (← f) (tt, λ k r. r)
    check_servers-IsReachable (s ∷ ss) m h =
        let (m1, p, q) = >>=-eq-ok (check_server has_colon join_port s m) _ h in
        let (now, kept) = check_server-IsReachable s m p in
        let (later, kept') = check_servers-IsReachable ss m1 q in
        ((kept' s now, later), λ k r. kept' k (kept k r))

    -- JoinHostPort makes a non-empty address with a colon. Then a file that ReadPKI accepts names at
    -- least one server; ReadPKI leaves the order as it is, and every server of it is in the map with a
    -- non-empty address in which there is a colon.
    pub read_pki-reachable :
        (pki : Pki) {pki' : Pki}
        → read_pki has_colon join_port pki ≡ ok pki'
        → (0 < length pki'.server_order)
          × (pki'.server_order ≡ pki.server_order)
          × AllReachable pki'.servers pki'.server_order
    unfolding read_pki
    read_pki-reachable pki {pki'} h = elim (Bool-cases (length pki.server_order == 0)) [
      | inl e ↦ cc (rw e at h)
      | inr e ↦
          let (m, p, q) =
            >>=-eq-ok (check_servers has_colon join_port pki.server_order pki.servers) _
              (rw e at h) in
          let f : record pki { servers = m } ≡ pki' = cc in
          rw (← f)
            (ground arith, refl, (check_servers-IsReachable pki.server_order pki.servers p).0)
    ]

  keys_of-total :
      (pki : Pki) (ss : List String)
      → AllReachable pki.servers ss
      → (keys : List Bytes) × (keys_of pki ss ≡ ok keys)
  unfolding keys_of server_info
  keys_of-total pki [] h = ([], refl)
  keys_of-total pki (s ∷ ss) ((info, e, _, _), h) =
      let (keys, f) = keys_of-total pki ss h in (info.public_key ∷ keys, rw (e, f))

  AllReachable-get :
      (m : Servers) (ss : List String) (i : ℕ)
      → AllReachable m ss
      → i < length ss
      → (s : String) × (get_elem? ss i ≡ some s) × IsReachable m s
  AllReachable-get m [] i h l = absurd (omega arith)
  AllReachable-get m (s ∷ ss) zero h l = (s, refl, h.0)
  AllReachable-get m (s ∷ ss) (suc i) h l = AllReachable-get m ss i h.1 (omega arith)

  AllReachable-drop :
      (m : Servers) (ss : List String) (i : ℕ) → AllReachable m ss → AllReachable m (drop i ss)
  AllReachable-drop m ss zero h = h
  AllReachable-drop m [] (suc i) h = tt
  AllReachable-drop m (s ∷ ss) (suc i) h = AllReachable-drop m ss i h.1

  pub address-total :
      (pki : Pki) (i : ℕ)
      → AllReachable pki.servers pki.server_order
      → i < length pki.server_order
      → (a : String) × ((or_else (get_elem? pki.server_order i) panic >>= λ s.
            server_info pki s >>= λ info. ok info.address)
          ≡ ok a)
        × (a ≢ "")
  unfolding server_info
  address-total pki i h l =
      let (s, e, (info, f, ne, _)) = AllReachable-get pki.servers pki.server_order i h l in
      (info.address, rw (e, f), ne)

  pub next_total :
      (pki : Pki) (name : String)
      → AllReachable pki.servers pki.server_order
      → (a : String) × (next_server pki name ≡ ok a)
  unfolding next_server
  next_total pki name h = elim (Bool-cases (ltb (index pki name + 1) (length pki.server_order))) [
    | inl e ↦ let (a, f, _) = address-total pki (index pki name + 1) h (ground arith) in (a, rw e f)
    | inr e ↦ ("", rw e)
  ]

  index_from-bound :
      (name : String) (i : ℕ) (ss : List String)
      → 0 < length ss
      → index_from name i ss + 1 ≤ i + length ss
  unfolding index_from
  index_from-bound name i [] h = absurd (omega arith)
  index_from-bound name i (s ∷ []) h = omega arith
  index_from-bound name i (s ∷ t ∷ ss) h = elim (Bool-cases (str_eq s name)) [
    | inl e ↦ rw e (omega arith)
    | inr e ↦ rw e (let r = index_from-bound name (suc i) (t ∷ ss) (omega arith) in omega arith)
  ]

  index_bound :
      (pki : Pki) (name : String)
      → 0 < length pki.server_order
      → index pki name + 1 ≤ length pki.server_order
  unfolding index
  index_bound pki name p = omega (arith, index_from-bound name 0 pki.server_order p)

  next_keys_total :
      (pki : Pki) (name : String)
      → 0 < length pki.server_order
      → AllReachable pki.servers pki.server_order
      → (keys : List Bytes) × (next_server_keys pki name ≡ ok keys)
  unfolding next_server_keys
  next_keys_total pki name p h =
      let b : index pki name + 1 ≤ length pki.server_order = index_bound pki name p in
      let e : leb (index pki name + 1) (length pki.server_order) ≡ true = ground arith in
      let (keys, f) =
        keys_of-total pki _
          (AllReachable-drop pki.servers pki.server_order (index pki name + 1) h) in
      (keys, rw e f)

  -- With a file that ReadPKI accepted no lookup panics: the keys of all servers, the addresses of
  -- the first and the last, and, of whatever name, the address and the keys behind it.
  pub reachable-total :
      (pki : Pki) (name : String)
      → 0 < length pki.server_order
      → AllReachable pki.servers pki.server_order
      → ((keys : List Bytes) × (server_keys pki ≡ ok keys))
        × ((a : String) × (first_server pki ≡ ok a) × (a ≢ ""))
        × ((a : String) × (last_server pki ≡ ok a) × (a ≢ ""))
        × ((a : String) × (next_server pki name ≡ ok a))
        × ((keys : List Bytes) × (next_server_keys pki name ≡ ok keys))
  unfolding server_keys first_server last_server
  reachable-total pki name p h = (
    keys_of-total pki pki.server_order h,
    address-total pki 0 h p,
    address-total pki (length pki.server_order - 1) h (omega arith),
    next_total pki name h,
    next_keys_total pki name p h,
  )
