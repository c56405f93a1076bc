-- ===== src/Client/Handlers.antt =====
-- vuvuzela-client/client.go: which handler gets what. A handler is the pointer to a ConvoHandler; the
-- client has one DialHandler.
use vuvuzela.Prelude.{
  Bool-cases, Option-cases, inr, inl, ℕ, ◌≡◌, refl, Bool, true, false, List, [], ◌∷◌, ◌++◌, Option,
  none, some, if◌then◌else◌,
}
use vuvuzela.Run.{ok, err, panic, no_convo_handler, no_dial_handler, dial_failed}
use vuvuzela.Bytes.{Bytes}
use vuvuzela.Rounds
use vuvuzela.Rounds.{Rounds}
use vuvuzela.Rpc.{Call}
use vuvuzela.Envelope.{
  ApiMessage, announce_convo_round, announce_dial_round, convo_response, dial_bucket, convo_request,
  dial_request, bad_request_error, convo_error, dial_error,
}

-- What the client asks its handlers; the requests that they return are sent.
pub data HandlerCall : Type 0 where
  next_convo_request : ℕ → ℕ → HandlerCall
  handle_convo_response : ℕ → ℕ → Bytes → HandlerCall
  next_dial_request : ℕ → ℕ → HandlerCall
  handle_dial_bucket : ℕ → List Bytes → HandlerCall

-- `calls` are the calls of handlers so far; `connected` says that there is a websocket.
pub record Client : Type 0 where
  pub round_handlers : Rounds ℕ
  pub convo_handler : Option ℕ
  pub dial_handler : Bool
  pub connected : Bool
  pub calls : List HandlerCall

unfoldable pub new_client : Client
new_client = record {
  round_handlers = [];
  convo_handler = none;
  dial_handler = false;
  connected = false;
  calls = [];
}

unfoldable pub set_convo_handler : ℕ → Client → Client
set_convo_handler h c = record c { convo_handler = some h }

unfoldable pub set_dial_handler : Client → Client
set_dial_handler c = record c { dial_handler = true }

-- `answers` says whether the entry server can be reached.
unfoldable pub connect : Bool → Call Client (Unit {0})
connect answers c = elim c.convo_handler [
  | none ↦ (c, err no_convo_handler)
  | some h ↦
      if c.dial_handler
      then (if answers then (record c { connected = true }, ok tt) else (c, err dial_failed))
      else (c, err no_dial_handler)
]

-- A handler's method on the DialHandler, which panics if that is nil.
unfoldable pub ask_dial_handler : HandlerCall → Call Client (Unit {0})
ask_dial_handler asked c =
    if c.dial_handler then (record c { calls = c.calls ++ asked ∷ [] }, ok tt) else (c, panic)

-- A nil handler panics.
unfoldable pub next_request : ℕ → Call Client (Unit {0})
unfolding Rounds.insert
next_request round c = elim c.convo_handler [
  | none ↦ (c, panic)
  | some h ↦ (
    record c {
      round_handlers = Rounds.insert round h c.round_handlers;
      calls = c.calls ++ next_convo_request h round ∷ [];
    },
    ok tt,
  )
]

-- A response for a round that no handler asked for is logged and dropped.
unfoldable pub deliver_convo_response : ℕ → Bytes → Call Client (Unit {0})
unfolding Rounds.lookup Rounds.delete
deliver_convo_response round onion c =
    let c' = record c { round_handlers = Rounds.delete round c.round_handlers } in
    elim (Rounds.lookup round c.round_handlers) [
      | none ↦ (c', ok tt)
      | some h ↦ (record c' { calls = c.calls ++ handle_convo_response h round onion ∷ [] }, ok tt)
    ]

unfoldable pub handle_response : ApiMessage → Call Client (Unit {0})
unfolding next_request deliver_convo_response ask_dial_handler
handle_response (announce_convo_round round) c = next_request round c
handle_response (announce_dial_round round buckets) c =
    ask_dial_handler (next_dial_request round buckets) c
handle_response (convo_response round onion) c = deliver_convo_response round onion c
handle_response (dial_bucket round intros) c = ask_dial_handler (handle_dial_bucket round intros) c
handle_response _ c = (c, ok tt)

abbrev pub SameHandlers : Client → Client → Type 0
SameHandlers c c' = (c'.convo_handler ≡ c.convo_handler) × (c'.dial_handler ≡ c.dial_handler)

pub connect-SameHandlers : (answers : Bool) (c : Client) → SameHandlers c (connect answers c).0
unfolding connect
connect-SameHandlers answers c = elim (Option-cases c.convo_handler) [
  | inl e ↦ simp (connect, e) (refl, refl)
  | inr (h, e) ↦ elim (Bool-cases c.dial_handler) [
    | inl d ↦ elim (Bool-cases answers) [
      | inl a ↦ simp (connect, e, d, a) (refl, refl)
      | inr a ↦ simp (connect, e, d, a) (refl, refl)
    ]
    | inr d ↦ simp (connect, e, d) (refl, refl)
  ]
]

next_request-SameHandlers : (round : ℕ) (c : Client) → SameHandlers c (next_request round c).0
unfolding next_request
next_request-SameHandlers round c = elim (Option-cases c.convo_handler) [
  | inl e ↦ simp (next_request, e) (refl, refl)
  | inr (h, e) ↦ simp (next_request, e) (refl, refl)
]

deliver-SameHandlers :
    (round : ℕ) (onion : Bytes) (c : Client)
    → SameHandlers c (deliver_convo_response round onion c).0
unfolding deliver_convo_response
deliver-SameHandlers round onion c = elim (Option-cases (Rounds.lookup round c.round_handlers)) [
  | inl e ↦ simp (deliver_convo_response, e) (refl, refl)
  | inr (h, e) ↦ simp (deliver_convo_response, e) (refl, refl)
]

ask_dial_handler-SameHandlers :
    (asked : HandlerCall) (c : Client) → SameHandlers c (ask_dial_handler asked c).0
unfolding ask_dial_handler
ask_dial_handler-SameHandlers asked c = elim (Bool-cases c.dial_handler) [
  | inl e ↦ simp (ask_dial_handler, e) (refl, refl)
  | inr e ↦ simp (ask_dial_handler, e) (refl, refl)
]

pub handle_response-SameHandlers :
    (message : ApiMessage) (c : Client) → SameHandlers c (handle_response message c).0
unfolding handle_response
handle_response-SameHandlers (announce_convo_round round) c = next_request-SameHandlers round c
handle_response-SameHandlers (announce_dial_round round buckets) c =
    ask_dial_handler-SameHandlers (next_dial_request round buckets) c
handle_response-SameHandlers (convo_response round onion) c = deliver-SameHandlers round onion c
handle_response-SameHandlers (dial_bucket round intros) c =
    ask_dial_handler-SameHandlers (handle_dial_bucket round intros) c
handle_response-SameHandlers (convo_request _ _) c = (refl, refl)
handle_response-SameHandlers (dial_request _ _) c = (refl, refl)
handle_response-SameHandlers (bad_request_error _) c = (refl, refl)
handle_response-SameHandlers (convo_error _ _) c = (refl, refl)
handle_response-SameHandlers (dial_error _ _) c = (refl, refl)

-- After a round was announced to a client with a handler, its first response goes to that handler,
-- whatever handler the user has changed to meanwhile; a second response is dropped.
pub handle_response-to_asker :
    (round : ℕ) (h h' : ℕ) (first second : Bytes) (c : Client)
    → c.convo_handler ≡ some h
    → (asked : Client) × (answered : Client) × (handle_response (announce_convo_round round) c
        ≡ (asked, ok tt))
      × (handle_response (convo_response round first) (set_convo_handler h' asked)
          ≡ (answered, ok tt))
      × (answered.calls
          ≡ (c.calls ++ next_convo_request h round ∷ [])
            ++ handle_convo_response h round first ∷ [])
      × (answered.convo_handler ≡ some h')
      × (handle_response (convo_response round second) answered ≡ (answered, ok tt))
unfolding handle_response next_request deliver_convo_response set_convo_handler
handle_response-to_asker round h h' first second c e =
    let kept = Rounds.insert round h c.round_handlers in
    let gone = Rounds.delete round kept in
    (
      record c { round_handlers = kept; calls = c.calls ++ next_convo_request h round ∷ [] },
      record c {
        round_handlers = gone;
        convo_handler = some h';
        calls =
            (c.calls ++ next_convo_request h round ∷ [])
            ++ handle_convo_response h round first ∷ [];
      },
      rw e,
      rw (deliver_convo_response, Rounds.lookup-inserted round h c.round_handlers),
      refl,
      refl,
      rw (
        deliver_convo_response,
        Rounds.lookup-deleted round kept,
        Rounds.delete-delete round kept,
      ),
    )
