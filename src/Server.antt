-- ===== src/Server.antt =====
-- vuvuzela-server/server.go: the start of a server process. `err` is a `log.Fatalf`.
pub mod Role
pub mod Histogram
pub mod Window
use Prim.Native.String.{String}
use text.Mathlib.Text.{◌==◌ as str_eq}
use vuvuzela.Prelude.{Bool, true, false, Option, none, some, if◌then◌else◌}
use vuvuzela.Run.{Run, ok, err, malformed, dial_failed, ◌>>=◌}
use vuvuzela.Bytes.{Bytes}
use vuvuzela.Pki.{Pki, next_server}
use vuvuzela.Node.{Config, Node, start_node}

-- The fields of the config file that `main` checks; a missing one is the empty name or `none`.
pub record Conf : Type 0 where
  pub server_name : String
  pub public_key : Option Bytes
  pub private_key : Option Bytes

-- `dials` says whether `vrpc.Dial` of an address succeeds.
module _ (dials : String → Bool) (pki : Pki) where
  -- The fields of the two services, with a client of the server at `address`, if there is one.
  unfoldable pub services : String → Bytes → String → Run Config
  services name key address =
      let last = str_eq address "" in
      let cfg : Config = record {
        pki = pki;
        server_name = name;
        private_key = key;
        last_server = last;
      } in
      if last then ok cfg else if dials address then ok cfg else err dial_failed

  unfoldable pub configure : Conf → Run Config
  unfolding services
  configure conf = elim conf.public_key [
    | none ↦ err malformed
    | some _ ↦ elim conf.private_key [
      | none ↦ err malformed
      | some key ↦
          if str_eq conf.server_name ""
          then err malformed
          else next_server pki conf.server_name >>= services conf.server_name key
    ]
  ]

  -- The process that serves its first call: the services share the mutex of a new node.
  unfoldable pub start_server : Conf → Run (Config × Node)
  unfolding configure start_node
  start_server conf = do cfg ← configure conf; ok (cfg, start_node)
