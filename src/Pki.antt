-- ===== src/Pki.antt =====
-- pki.go: who the servers are and in which order a message passes them.
pub mod Sizes
pub mod Reading
use text.Mathlib.Text.{◌==◌ as str_eq}
use Prim.Native.String.{String}
use vuvuzela.Prelude.{
  ℕ, zero, suc, ◌+◌, ◌-◌, ◌*◌, ◌≡◌, Bool, true, false, List, [], ◌∷◌, Option, none, some, ltb, leb,
  ◌==◌, length, get_elem?, drop, if◌then◌else◌,
}
use vuvuzela.Run.{Run, ok, err, panic, malformed, ◌>>=◌, or_else}
use vuvuzela.Bytes.{Bytes}
use vuvuzela.Nacl.{box_overhead}
use vuvuzela.Wire.{onion_overhead}

-- The pointers of the file: an entry or a key that the JSON leaves null has no place here.
pub record ServerInfo : Type 0 where
  pub address : String
  pub public_key : Bytes

pub record Pki : Type 0 where
  pub people : List (String × Bytes)
  pub servers : List (String × ServerInfo)
  pub server_order : List String
  pub entry_server : String

-- A Go map with string keys.
unfoldable pub find_name {ℓ} : {A : Type ℓ} → String → List (String × A) → Option A
find_name k [] = none
find_name k ((j, v) ∷ m) = if str_eq j k then some v else find_name k m

-- `m[k] = v` for a key of the map.
pub set_name {ℓ} : {A : Type ℓ} → String → A → List (String × A) → List (String × A)
set_name k v [] = []
set_name k v ((j, w) ∷ m) = if str_eq j k then (j, v) ∷ m else (j, w) ∷ set_name k v m

-- `pki.Servers[s].PublicKey`: a missing server is a nil pointer.
unfoldable pub server_info : Pki → String → Run ServerInfo
unfolding find_name
server_info pki s = or_else (find_name s pki.servers) panic

-- `for _, s := range …  { keys = append(keys, pki.Servers[s].PublicKey) }`
unfoldable pub keys_of : Pki → List String → Run (List Bytes)
unfolding server_info
keys_of pki [] = ok []
keys_of pki (s ∷ ss) = do
  info ← server_info pki s
  keys ← keys_of pki ss
  ok (info.public_key ∷ keys)

unfoldable pub server_keys : Pki → Run (List Bytes)
unfolding keys_of
server_keys pki = keys_of pki pki.server_order

unfoldable pub first_server : Pki → Run String
unfolding server_info
first_server pki = do
  s ← or_else (get_elem? pki.server_order 0) panic
  info ← server_info pki s
  ok info.address

-- Of no servers, the index is -1 and Go panics; so does `get_elem?` of an empty list.
unfoldable pub last_server : Pki → Run String
unfolding server_info
last_server pki = do
  s ← or_else (get_elem? pki.server_order (length pki.server_order - 1)) panic
  info ← server_info pki s
  ok info.address

-- The loop of Index from entry `i`: after the last entry `i` keeps its value.
pub index_from : String → ℕ → List String → ℕ
index_from name i [] = 0
index_from name i (s ∷ []) = i
index_from name i (s ∷ t ∷ rest) = if str_eq s name then i else index_from name (suc i) (t ∷ rest)

unfoldable pub index : Pki → String → ℕ
unfolding index_from
index pki name = index_from name 0 pki.server_order

-- `i < len-1` on signed numbers is `i + 1 < len`.
unfoldable pub next_server : Pki → String → Run String
unfolding index server_info
next_server pki name =
    if ltb (index pki name + 1) (length pki.server_order)
    then (do
      s ← or_else (get_elem? pki.server_order (index pki name + 1)) panic
      info ← server_info pki s
      ok info.address)
    else ok ""

-- `pki.ServerOrder[i+1:]` panics of no servers.
unfoldable pub next_server_keys : Pki → String → Run (List Bytes)
unfolding index keys_of
next_server_keys pki name =
    if leb (index pki name + 1) (length pki.server_order)
    then keys_of pki (drop (index pki name + 1) pki.server_order)
    else panic

unfoldable pub incoming_onion_overhead : Pki → String → ℕ
unfolding index
incoming_onion_overhead pki name = (length pki.server_order - index pki name) * onion_overhead

unfoldable pub outgoing_onion_overhead : Pki → String → ℕ
unfolding index
outgoing_onion_overhead pki name = (length pki.server_order - index pki name) * box_overhead

-- ReadPKI on the decoded file. `has_colon` is `strings.IndexByte(addr, ':') != -1`, and
-- `join_port` is `net.JoinHostPort(addr, DefaultServerPort)`. `err` is a `log.Fatalf`.
module _ (has_colon : String → Bool) (join_port : String → String) where
  -- The rest of one round of the loop, which writes through the pointer `info` into the map.
  pub check_info :
      String → List (String × ServerInfo) → ServerInfo → Run (List (String × ServerInfo))
  unfolding set_name
  check_info s servers info =
      if str_eq info.address ""
      then err malformed
      else if has_colon info.address
      then ok servers
      else ok (set_name s (record info { address = join_port info.address }) servers)

  pub check_server : String → List (String × ServerInfo) → Run (List (String × ServerInfo))
  unfolding find_name check_info
  check_server s servers = or_else (find_name s servers) (err malformed) >>= check_info s servers

  pub check_servers : List String → List (String × ServerInfo) → Run (List (String × ServerInfo))
  unfolding check_server
  check_servers [] servers = ok servers
  check_servers (s ∷ ss) servers = check_server s servers >>= check_servers ss

  unfoldable pub read_pki : Pki → Run Pki
  unfolding check_servers
  read_pki pki = if length pki.server_order == 0 then err malformed else (do
    servers ← check_servers pki.server_order pki.servers
    ok (record pki { servers = servers }))
