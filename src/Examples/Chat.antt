-- ===== src/Examples/Chat.antt =====
-- A conversation of two clients, at concrete inputs.
use vuvuzela.Prelude.{sym, ◌+◌, ◌≡◌, ◌≢◌, refl, List, [], ◌∷◌, ◌++◌, true, replicate, some, arith}
use vuvuzela.Run.{ok}
use vuvuzela.Rounds
use vuvuzela.Bytes.{copy_zeros, Bytes, Random}
use vuvuzela.Wire.{ConvoExchange, marshal_exchange, forward_nonce, backward_nonce}
use vuvuzela.Onion.Layers.{peel_all, reply_onion}
use vuvuzela.Pki.{Pki, server_keys, keys_of, server_info}
use vuvuzela.Client.Varint.{pos}
use vuvuzela.Client.Message.{text_message, marshal, unmarshal, trim_right, unmarshal-marshal_text}
use vuvuzela.Client.Conversation.{
  Peer, PendingRound, Conversation, ConvoRequest, start_conversation, my_role, their_role,
  seal_message, open_message, dead_drop, exchange_for, next_convo_request, handle_convo_response,
}
use vuvuzela.Client.Roles.{ArePeers, open-seal_message, dead_drop-agrees}
use vuvuzela.Client.Talk.{next_convo_request-sends, IsFor, handle_convo_response-shows}
use vuvuzela.Examples.Toy.{toy, toy_laws, toy_public, total}

abbrev hello : Bytes
hello = 104 ∷ 105 ∷ []

hello_trimmed : trim_right hello ≡ hello
unfolding trim_right
hello_trimmed = refl

unmarshal-marshal_text_example :
    (padded : Bytes) × (unmarshal (marshal (text_message hello)) ≡ ok (text_message padded))
    × (trim_right padded ≡ hello)
unmarshal-marshal_text_example = unmarshal-marshal_text hello (omega arith) hello_trimmed

abbrev hmac : Bytes → Bytes → Bytes
hmac k m = replicate 32 (total k + total m)

abbrev pki : Pki
pki = record {
  people = [];
  servers = ("a", record { address = "a:1"; public_key = toy_public (5 ∷ []) }) ∷ [];
  server_order = "a" ∷ [];
  entry_server = "e";
}

abbrev alice : Peer
alice = record {
  pki = pki;
  peer_name = "bob";
  peer_public_key = toy_public (2 ∷ []);
  my_public_key = toy_public (1 ∷ []);
  my_private_key = 1 ∷ [];
}

abbrev bob : Peer
bob = record {
  pki = pki;
  peer_name = "alice";
  peer_public_key = toy_public (1 ∷ []);
  my_public_key = toy_public (2 ∷ []);
  my_private_key = 2 ∷ [];
}

friends : ArePeers toy alice bob
friends = record { mine = refl; yours = refl; knows = refl; known = refl }

strangers : toy_public (1 ∷ []) ≢ toy_public (2 ∷ [])
strangers e = cc

abbrev quiet : Random
quiet i = 9

open-seal_message_example :
    open_message toy hmac bob
      (seal_message toy hmac alice hello 3 (my_role toy hmac alice))
      3
      (their_role toy hmac bob)
    ≡ some hello
open-seal_message_example = open-seal_message toy toy_laws hmac alice bob friends hello 3

dead_drop-agrees_example : dead_drop toy hmac alice 3 quiet ≡ dead_drop toy hmac bob 3 (λ _. 8)
dead_drop-agrees_example =
    dead_drop-agrees toy toy_laws hmac alice bob friends 3 quiet (λ _. 8) strangers

abbrev typed : Conversation
typed = record start_conversation { out_queue = hello ∷ [] }

keys_known : server_keys pki ≡ ok (toy_public (5 ∷ []) ∷ [])
unfolding server_keys keys_of server_info
keys_known = refl

next_convo_request-sends_example :
    (request : ConvoRequest) × (keys : List Bytes) × (e : ConvoExchange) × (next_convo_request toy
        hmac alice 3
        (pos 0)
        quiet
        (λ _. quiet)
        typed
      ≡ (
        record typed {
          out_queue = [];
          last_round = 3;
          pending_rounds =
              Rounds.insert 3
                (record { onion_shared_keys = keys; sent_message = e.encrypted_message })
                typed.pending_rounds;
        },
        ok request,
      ))
    × (request.round ≡ 3)
    × (peel_all toy toy_laws request.onion (forward_nonce 3) ((5 ∷ []) ∷ [])
        ≡ some (marshal_exchange e, keys))
    × IsFor toy toy_laws hmac alice bob 3 hello e
unfolding start_conversation
next_convo_request-sends_example =
    next_convo_request-sends toy toy_laws hmac alice bob ((5 ∷ []) ∷ []) 3 (pos 0) quiet
      (λ _. quiet) typed hello [] friends strangers keys_known refl

abbrev waiting : PendingRound
waiting = record { onion_shared_keys = (6 ∷ []) ∷ (7 ∷ []) ∷ []; sent_message = [] }

abbrev bob_waits : Conversation
bob_waits = record start_conversation { pending_rounds = (3, waiting) ∷ [] }

not_empty : (exchange_for toy hmac alice 3 (text_message hello) quiet).encrypted_message ≢ []
unfolding exchange_for copy_zeros seal_message
not_empty e = cc

handle_convo_response-shows_example :
    handle_convo_response toy hmac bob
      (λ t. t)
      (record {
        round = 3;
        onion =
            reply_onion toy toy_laws
              (exchange_for toy hmac alice 3 (text_message hello) quiet).encrypted_message
              (backward_nonce 3)
              waiting.onion_shared_keys;
      })
      bob_waits
    ≡ (
      record bob_waits {
        pending_rounds = Rounds.delete 3 bob_waits.pending_rounds;
        shown = bob_waits.shown ++ ("alice", hello) ∷ [];
        last_peer_responding = true;
      },
      ok tt,
    )
unfolding Rounds.lookup
handle_convo_response-shows_example =
    handle_convo_response-shows toy toy_laws hmac bob alice 3 (λ t. t) quiet bob_waits waiting hello
      (record { mine = refl; yours = refl; knows = refl; known = refl }) (λ e. strangers (sym e))
      (omega arith) hello_trimmed refl not_empty
