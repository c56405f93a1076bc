-- ===== src/Examples/Talking.antt =====
-- The user interface of a client, at concrete inputs.
use vuvuzela.Prelude.{ℕ, ◌≡◌, refl, [], ◌∷◌, ◌++◌, true, false, some, none, ◌⊎◌}
use vuvuzela.Run.{ok}
use vuvuzela.Bytes.{Bytes}
use vuvuzela.Pki.{find_name}
use vuvuzela.Envelope.{announce_convo_round}
use vuvuzela.Client.Conversation.{Peer, Conversation, start_conversation, solo}
use vuvuzela.Client.Varint.{pos}
use vuvuzela.Client.Handlers.{
  Client, new_client, set_convo_handler, set_dial_handler, handle_response, next_convo_request,
}
use vuvuzela.Client.Gui.{
  User, Gui, Status, layout, status, blank, start_gui, start_up, tell_outcome, connect, make_client,
  switch_conversation, add_convo, init_dialer, selected, reset_convo, dial_server, handle_line,
  go_on, peer_of,
}
use vuvuzela.Client.Gui.Known.{view, Consistent, IsWith}
use vuvuzela.Client.Gui.Switch.{waiting}
use vuvuzela.Client.Gui.Steps.{Step, Reachable, Reachable-Consistent}
use vuvuzela.Client.Gui.Typed.{Shows, IsQueued, handle_line-reaches_partner, handle_line-talks}
use vuvuzela.Examples.Toy.{toy, toy_public, total}

abbrev alice : User
alice = record {
  pki = record {
    people = ("alice", toy_public (1 ∷ [])) ∷ ("bob", toy_public (2 ∷ [])) ∷ [];
    servers = [];
    server_order = [];
    entry_server = "ws://localhost:8080";
  };
  my_name = "alice";
  my_public_key = toy_public (1 ∷ []);
  my_private_key = 1 ∷ [];
}

abbrev toy_hmac : Bytes → Bytes → Bytes
toy_hmac key message = total key ∷ message

abbrev begun : Gui
begun = (start_gui alice blank).0

abbrev running : Gui
running = (start_up alice true begun).0

starts : start_gui alice blank ≡ (begun, ok tt)
unfolding start_gui switch_conversation add_convo init_dialer
starts = refl

runs : start_up alice true begun ≡ (running, ok tt)
unfolding start_gui start_up tell_outcome connect make_client switch_conversation add_convo
    init_dialer selected reset_convo dial_server set_convo_handler set_dial_handler
runs = refl

reached : Reachable toy toy_hmac alice running
reached = Reachable.after (Reachable.ready starts) (Step.started true runs)

-- The screen, once it has been drawn.
abbrev drawn_gui : Gui
drawn_gui = record running { main_view = true }

abbrev own_status : Status
own_status = record {
  name = "alice";
  round = none;
  latency = pos 0;
  partner = none;
  peer_responding = false;
}

draws : layout toy toy_hmac alice running ≡ (drawn_gui, ok own_status)
unfolding start_gui start_up tell_outcome connect make_client switch_conversation add_convo
    init_dialer selected reset_convo dial_server set_convo_handler set_dial_handler layout status
    peer_of start_conversation solo
draws = refl

reached_drawn : Reachable toy toy_hmac alice drawn_gui
reached_drawn = Reachable.after reached (Step.drawn own_status draws)

abbrev connected_client : Client
connected_client = record new_client {
  convo_handler = some 0;
  dial_handler = true;
  connected = true;
}

has_client : running.client ≡ some connected_client
unfolding start_gui start_up tell_outcome connect make_client switch_conversation add_convo
    init_dialer selected reset_convo dial_server set_convo_handler set_dial_handler
has_client = refl

listed_alice : find_name "alice" alice.pki.people ≡ some (toy_public (1 ∷ []))
unfolding find_name
listed_alice = refl

listed_bob : find_name "bob" alice.pki.people ≡ some (toy_public (2 ∷ []))
unfolding find_name
listed_bob = refl

Reachable-Consistent_example : Consistent alice (view running)
Reachable-Consistent_example = Reachable-Consistent toy toy_hmac alice listed_alice reached

handle_line-reaches_partner_example :
    (h : ℕ) × (p : Peer) × (c : Conversation) × (shown : Shows toy toy_hmac alice drawn_gui h p c)
    × IsQueued alice " hello " refl refl refl drawn_gui refl h p c shown.0 shown.1
    × ((partner : Bytes) × IsWith alice p.peer_name partner p
        × (find_name p.peer_name alice.pki.people ≡ some partner))
    × (k' : Client) × (handle_response (announce_convo_round 9) connected_client ≡ (k', ok tt))
    × (k'.calls ≡ next_convo_request h 9 ∷ [])
unfolding new_client
handle_line-reaches_partner_example =
    handle_line-reaches_partner toy toy_hmac alice listed_alice reached_drawn " hello "
      connected_client 9 refl refl refl refl has_client

handle_line-talks_example :
    (g' : Gui) × (h : ℕ) × (p : Peer) × (c : Conversation) × (handle_line alice "/talk bob" running
      ≡ (g', ok go_on))
    × Shows toy toy_hmac alice g' h p c
    × IsWith alice "bob" (toy_public (2 ∷ [])) p
    × ((waiting g' ≡ waiting running)
        ⊎ ((find_name "bob" running.conversations ≡ none)
            × (waiting g' ≡ waiting running ++ [] ∷ [])))
handle_line-talks_example =
    handle_line-talks toy toy_hmac alice listed_alice reached "/talk bob" refl refl listed_bob
