-- ===== src/Client/Gui.antt =====
-- vuvuzela-client/gui.go and main.go: the state of the user interface, its handlers as steps on it,
-- and what it shows. A handler takes effect at once; `blocked` is a handler that waits for a channel.
pub mod Known
pub mod Switch
pub mod Keeps
pub mod Steps
pub mod Typed
use Prim.Native.String.{String, len, slice}
use text.Mathlib.Text.{◌==◌ as str_eq, starts_with}
use vuvuzela.Prelude.{
  ℕ, Bool, true, false, List, [], ◌∷◌, ◌++◌, Option, none, some, ◌==◌, length, get_elem?, set,
  if◌then◌else◌,
}
use vuvuzela.Run.{Run, ok, err, panic, blocked, Error, or_else}
use vuvuzela.Bytes.{Bytes}
use vuvuzela.Nacl.{Nacl}
use vuvuzela.Pki.{Pki, find_name}
use vuvuzela.Rpc.{Call, pure, lift, ◌>>=◌, ◌>>◌}
use vuvuzela.Client.Varint.{ℤ, pos}
use vuvuzela.Client.Text.{points, trim_space, utf8_bytes}
use vuvuzela.Client.Conversation.{Peer, Conversation, start_conversation, queue_text_message, solo}
use vuvuzela.Client.Handlers.{
  Client, new_client, set_convo_handler, set_dial_handler, connect as connect_client,
}
use vuvuzela.Client.Dialer.{Dialer, queue_request}

-- The config file: a missing field is the empty name or `none`.
pub record Conf : Type 0 where
  pub my_name : String
  pub my_public_key : Option Bytes
  pub my_private_key : Option Bytes

-- What does not change while the program runs.
pub record User : Type 0 where
  pub pki : Pki
  pub my_name : String
  pub my_public_key : Bytes
  pub my_private_key : Bytes

-- The check of `main`; `none` ends the program.
unfoldable pub user_of : Pki → Conf → Option User
user_of pki conf = elim conf.my_public_key [
  | none ↦ none
  | some mine ↦ elim conf.my_private_key [
    | none ↦ none
    | some secret ↦
        if str_eq conf.my_name ""
        then none
        else some (record {
          pki = pki;
          my_name = conf.my_name;
          my_public_key = mine;
          my_private_key = secret;
        })
  ]
]

-- What Warnf and Printf print, by their format string; a text that the user typed is its code points.
pub data Note : Type 0 where
  unknown_peer now_talking unknown_user dialing connected : String → Note
  failed_to_connect : Error → Note
  said : String → List ℕ → Note

-- A `*Conversation` is a position in `heap`; `main_view` says that the layout has made the main view.
pub record Gui : Type 0 where
  pub main_view : Bool
  pub shown : List Note
  pub heap : List (Peer × Conversation)
  pub conversations : List (String × ℕ)
  pub selected_convo : Option ℕ
  pub client : Option Client
  pub dialer : Option Dialer

-- How a handler of gocui's returns: nil, or the error `gocui.Quit`.
pub data Answer : Type 0 where
  go_on quit : Answer

-- The status line and the partner line. A round or a latency of 0 is shown as "-".
pub record Status : Type 0 where
  pub name : String
  pub round : Option ℕ
  pub latency : ℤ
  pub partner : Option String
  pub peer_responding : Bool

-- Without the main view nothing is printed.
unfoldable pub say : Note → Call Gui (Unit {0})
say note g = (record g { shown = if g.main_view then g.shown ++ note ∷ [] else g.shown }, ok tt)

-- A step of the conversation at `h`.
unfoldable pub with_convo : {A : Type 0} → ℕ → (Peer → Call Conversation A) → Call Gui A
with_convo h step g = elim (get_elem? g.heap h) [
  | none ↦ (g, panic)
  | some (p, c) ↦ (record g { heap = set g.heap h (p, (step p c).0) }, (step p c).1)
]

-- `gc.selectedConvo`, where a nil pointer is a panic as soon as it is used.
unfoldable pub selected : Call Gui ℕ
selected g = (g, or_else g.selected_convo panic)

unfoldable pub reset_convo : Peer → Call Conversation (Unit {0})
reset_convo p c = (record c { last_peer_responding = false; last_latency = pos 0 }, ok tt)

unfoldable pub use_handler : ℕ → Call Gui (Unit {0})
use_handler h g = elim g.client [
  | none ↦ (g, ok tt)
  | some c ↦ (record g { client = some (set_convo_handler h c) }, ok tt)
]

unfoldable pub activate_convo : ℕ → Call Gui (Unit {0})
unfolding with_convo use_handler
activate_convo h g = elim g.client [
  | none ↦ (g, ok tt)
  | some _ ↦ (with_convo h reset_convo >> use_handler h) g
]

-- The part of switchConversation after the conversation was found or made.
unfoldable pub select_convo : ℕ → String → Call Gui (Unit {0})
unfolding activate_convo say
select_convo h peer g =
    (activate_convo h >> say (now_talking peer)) (record g { selected_convo = some h })

unfoldable pub queue_dial : Bytes → Call Gui (Unit {0})
queue_dial key g = elim g.dialer [
  | none ↦ (g, panic)
  | some d ↦ (record g { dialer = some (queue_request key d).0 }, (queue_request key d).1)
]

-- `NewClient` and `SetDialHandler`, unless there is a client.
unfoldable pub make_client : Call Gui (Unit {0})
make_client g = elim g.client [
  | none ↦ (record g { client = some (set_dial_handler new_client) }, ok tt)
  | some _ ↦ (g, ok tt)
]

unfoldable pub dial_server : Bool → Call Gui (Unit {0})
unfolding connect_client
dial_server answers g = elim g.client [
  | none ↦ (g, panic)
  | some c ↦ (record g { client = some (connect_client answers c).0 }, (connect_client answers c).1)
]

-- `answers` says whether the entry server can be reached.
unfoldable pub connect : Bool → Call Gui (Unit {0})
connect answers = make_client >> selected >>= λ h. activate_convo h >> dial_server answers

-- The state before Run.
abbrev pub blank : Gui
blank = record {
  main_view = false;
  shown = [];
  heap = [];
  conversations = [];
  selected_convo = none;
  client = none;
  dialer = none;
}

module _ (me : User) where
  open me use {pki, my_name, my_public_key, my_private_key}

  unfoldable pub peer_of : String → Bytes → Peer
  peer_of name key = record {
    pki = pki;
    peer_name = name;
    peer_public_key = key;
    my_public_key = my_public_key;
    my_private_key = my_private_key;
  }

  -- A new conversation, with its place in the map.
  unfoldable pub add_convo : String → Bytes → Gui → Gui
  add_convo peer key g = record g {
    heap = g.heap ++ (peer_of peer key, start_conversation) ∷ [];
    conversations = g.conversations ++ (peer, length g.heap) ∷ [];
  }

  unfoldable pub switch_conversation : String → Call Gui (Unit {0})
  unfolding find_name select_convo say
  switch_conversation peer g = elim (find_name peer g.conversations) [
    | some h ↦ select_convo h peer g
    | none ↦ elim (find_name peer pki.people) [
      | none ↦ say (unknown_peer peer) g
      | some key ↦ select_convo (length g.heap) peer (add_convo peer key g)
    ]
  ]

  -- "/dial " of handleLine.
  unfoldable pub dial_user : String → Call Gui (Unit {0})
  unfolding find_name
  dial_user peer = elim (find_name peer pki.people) [
    | none ↦ say (unknown_user peer)
    | some key ↦ say (dialing peer) >> queue_dial key
  ]

  -- The default of handleLine.
  unfoldable pub send_text : String → Call Gui (Unit {0})
  unfolding trim_space utf8_bytes
  send_text line = do
    let msg = trim_space (points line)
    h ← selected
    with_convo h (λ _. queue_text_message (utf8_bytes msg))
    say (said my_name msg)

  -- `line[6:]`.
  abbrev pub argument : String → String
  argument line = slice line 6 (len line)

  unfoldable pub handle_line : String → Call Gui Answer
  handle_line line =
      if str_eq line "/quit"
      then pure quit
      else if starts_with line "/talk "
      then switch_conversation (argument line) >> pure go_on
      else if starts_with line "/dial "
      then dial_user (argument line) >> pure go_on
      else send_text line >> pure go_on

  -- `size` is the length of the view's buffer, and `above` the line above the cursor: without one, the
  -- error ends the main loop, and Run panics.
  unfoldable pub read_line : ℕ → Option String → Call Gui Answer
  unfolding handle_line
  read_line size above = if size == 0 then pure go_on else elim above [
    | none ↦ lift panic
    | some line ↦ if str_eq line "" then pure go_on else handle_line line
  ]

  unfoldable pub init_dialer : Call Gui (Unit {0})
  init_dialer g = (record g { dialer = some [] }, ok tt)

  -- Run up to the main loop.
  unfoldable pub start_gui : Call Gui (Unit {0})
  start_gui = switch_conversation my_name >> init_dialer

  -- What the goroutine of Run says after Connect.
  unfoldable pub tell_outcome : Run (Unit {0}) → Call Gui (Unit {0})
  unfolding say
  tell_outcome (ok _) = say (connected pki.entry_server)
  tell_outcome (err e) = say (failed_to_connect e) >> say (connected pki.entry_server)
  tell_outcome panic = lift panic
  tell_outcome blocked = lift blocked

  -- The goroutine of Run.
  unfoldable pub start_up : Bool → Call Gui (Unit {0})
  start_up answers g = tell_outcome (connect answers g).1 (connect answers g).0

module _ (box : Nacl) (hmac : Bytes → Bytes → Bytes) (me : User) where
  unfoldable pub status : Peer → Conversation → Status
  status p c = record {
    name = me.my_name;
    round = if c.last_round == 0 then none else some c.last_round;
    latency = c.last_latency;
    partner = if solo box hmac p then none else some p.peer_name;
    peer_responding = c.last_peer_responding;
  }

  unfoldable pub layout : Call Gui Status
  unfolding with_convo status
  layout g =
      (selected >>= λ h. with_convo h (λ p c. (c, ok (status p c)))) (record g { main_view = true })
