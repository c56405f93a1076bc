-- ===== src/Envelope.antt =====
-- entry_api.go: the messages between a client and the entry server, and their envelopes.
use Prim.Native.String.{String}
use vuvuzela.Prelude.{ℕ, ◌≡◌, refl, List, Option, none, some, ◌==◌, if◌then◌else◌}
use vuvuzela.Run.{Run, ok, err, or_else, malformed, unknown_message_type}
use vuvuzela.Bytes.{Bytes}

pub data ApiMessage : Type 0 where
  convo_request dial_request : ℕ → Bytes → ApiMessage
  bad_request_error : String → ApiMessage
  convo_error : ℕ → String → ApiMessage
  convo_response : ℕ → Bytes → ApiMessage
  dial_error : ℕ → String → ApiMessage
  dial_bucket : ℕ → List Bytes → ApiMessage
  announce_convo_round : ℕ → ApiMessage
  announce_dial_round : ℕ → ℕ → ApiMessage

-- The MsgType that Envelop gives a message.
unfoldable pub msg_type : ApiMessage → ℕ
msg_type (convo_request _ _) = 0
msg_type (dial_request _ _) = 1
msg_type (bad_request_error _) = 2
msg_type (convo_error _ _) = 3
msg_type (convo_response _ _) = 4
msg_type (dial_error _ _) = 5
msg_type (dial_bucket _ _) = 6
msg_type (announce_convo_round _) = 7
msg_type (announce_dial_round _ _) = 8

-- The struct types of the messages.
pub data Struct : Type 0 where
  a_convo_request a_dial_request a_bad_request_error a_convo_error a_convo_response : Struct
  a_dial_error a_dial_bucket an_announce_convo_round an_announce_dial_round : Struct

-- The struct that a message is.
abbrev pub struct_of : ApiMessage → Struct
struct_of (convo_request _ _) = a_convo_request
struct_of (dial_request _ _) = a_dial_request
struct_of (bad_request_error _) = a_bad_request_error
struct_of (convo_error _ _) = a_convo_error
struct_of (convo_response _ _) = a_convo_response
struct_of (dial_error _ _) = a_dial_error
struct_of (dial_bucket _ _) = a_dial_bucket
struct_of (announce_convo_round _) = an_announce_convo_round
struct_of (announce_dial_round _ _) = an_announce_dial_round

-- The switch in Open: the struct that it makes for a type, and none by default.
unfoldable pub new_message : ℕ → Option Struct
new_message t =
    if t == 0
    then some a_convo_request
    else if t == 1
    then some a_dial_request
    else if t == 2
    then some a_bad_request_error
    else if t == 3
    then some a_convo_error
    else if t == 4
    then some a_convo_response
    else if t == 6
    then some a_dial_bucket
    else if t == 7
    then some an_announce_convo_round
    else if t == 8
    then some an_announce_dial_round
    else none

pub record Envelope (J : Type 0) : Type 0 where
  pub type_number : ℕ
  pub message : J

-- encoding/json: `encode` is Marshal of a message, and `decode s` is Unmarshal into a new struct
-- of the type `s`.
pub record Json (J : Type 0) : Type 0 where
  pub encode : ApiMessage → J
  pub decode : Struct → J → Option ApiMessage

-- What Marshal makes of a struct, Unmarshal reads back into a new struct of the same type.
pub record JsonLaws {J : Type 0} (json : Json J) : Type 0 where
  pub decode-encode : (v : ApiMessage) → json.decode (struct_of v) (json.encode v) ≡ some v

module _ {J : Type 0} (json : Json J) where
  unfoldable pub open_envelope : Envelope J → Run ApiMessage
  unfolding new_message
  open_envelope e = elim (new_message e.type_number) [
    | none ↦ err unknown_message_type
    | some s ↦ or_else (json.decode s e.message) (err malformed)
  ]

  unfoldable pub envelop : ApiMessage → Envelope J
  unfolding msg_type
  envelop v = record { type_number = msg_type v; message = json.encode v }

  -- What Open makes of an envelope that Envelop made: the message that went in, but of a DialError
  -- an error.
  abbrev pub opened : ApiMessage → Run ApiMessage
  opened (dial_error _ _) = err unknown_message_type
  opened v = ok v

  -- If encoding/json reads back what it made of a struct into a new struct of the same type, then every
  -- message that Envelop takes is read back by Open, but a DialError, which Open refuses as of an
  -- unknown type.
  pub open_envelope-envelop :
      JsonLaws json → (v : ApiMessage) → open_envelope (envelop v) ≡ opened v
  unfolding open_envelope envelop new_message msg_type
  open_envelope-envelop laws (convo_request a b) = rw (laws.decode-encode (convo_request a b))
  open_envelope-envelop laws (dial_request a b) = rw (laws.decode-encode (dial_request a b))
  open_envelope-envelop laws (bad_request_error a) = rw (laws.decode-encode (bad_request_error a))
  open_envelope-envelop laws (convo_error a b) = rw (laws.decode-encode (convo_error a b))
  open_envelope-envelop laws (convo_response a b) = rw (laws.decode-encode (convo_response a b))
  open_envelope-envelop laws (dial_error a b) = refl
  open_envelope-envelop laws (dial_bucket a b) = rw (laws.decode-encode (dial_bucket a b))
  open_envelope-envelop laws (announce_convo_round a) =
      rw (laws.decode-encode (announce_convo_round a))
  open_envelope-envelop laws (announce_dial_round a b) =
      rw (laws.decode-encode (announce_dial_round a b))
