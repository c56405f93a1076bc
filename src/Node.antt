-- ===== src/Node.antt =====
-- One server process of vuvuzela-server: the rounds of its two services and the mutex `Idle` that
-- they share.
use vuvuzela.Prelude.{ℕ, Bool, true, false, List, [], Option, if◌then◌else◌}
use Prim.Native.String.{String}
use vuvuzela.Run.{Run, ok, panic}
use vuvuzela.Bytes.{Bytes}
use vuvuzela.Rounds.{Rounds}
use vuvuzela.Pki.{Pki}
use vuvuzela.Exchange.{AccessCount}

pub data ConvoStatus : Type 0 where
  convo_round_new convo_round_open convo_round_closed : ConvoStatus

-- `r.status != expectedStatus`, negated.
unfoldable pub convo_status_eq : ConvoStatus → ConvoStatus → Bool
convo_status_eq convo_round_new convo_round_new = true
convo_status_eq convo_round_open convo_round_open = true
convo_status_eq convo_round_closed convo_round_closed = true
convo_status_eq _ _ = false

-- `none` is a nil pointer in `shared_keys`, a nil message in `incoming`, and -1 in
-- `incoming_index`; a nil reply is the empty one. NewRound sets the noise; the goroutine that fills
-- it is waited for before the noise is read.
pub record ConvoRound : Type 0 where
  pub status : ConvoStatus
  pub num_incoming : ℕ
  pub shared_keys : List (Option Bytes)
  pub incoming : List (Option Bytes)
  pub incoming_index : List (Option ℕ)
  pub replies : List Bytes
  pub noise : List Bytes

pub data DialStatus : Type 0 where
  dial_round_open dial_round_closed : DialStatus

unfoldable pub dial_status_eq : DialStatus → DialStatus → Bool
dial_status_eq dial_round_open dial_round_open = true
dial_status_eq dial_round_closed dial_round_closed = true
dial_status_eq _ _ = false

pub record DialRound : Type 0 where
  pub status : DialStatus
  pub incoming : List Bytes
  pub noise : List Bytes

-- What does not change while the server runs.
pub record Config : Type 0 where
  pub pki : Pki
  pub server_name : String
  pub private_key : Bytes
  pub last_server : Bool

-- `idle` says that the mutex is locked. `access_counts` is what the channel of eight holds.
pub record Node : Type 0 where
  pub idle : Bool
  pub convo_rounds : Rounds ConvoRound
  pub dial_rounds : Rounds DialRound
  pub access_counts : List AccessCount

-- What InitConvoService and InitDialService leave, with a new mutex.
unfoldable pub start_node : Node
start_node = record { idle = false; convo_rounds = []; dial_rounds = []; access_counts = [] }

-- `Idle.Unlock()`: of an unlocked mutex it is a fatal error.
unfoldable pub unlock : Node → Node × Run (Unit {0})
unlock node = if node.idle then (record node { idle = false }, ok tt) else (node, panic)
