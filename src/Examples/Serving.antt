-- ===== src/Examples/Serving.antt =====
-- The entry server, the envelopes and the handlers of a client, at concrete inputs.
use vuvuzela.Prelude.{
  arith, ℕ, ◌+◌, ◌≡◌, refl, List, [], ◌∷◌, ◌++◌, true, false, replicate, some, none, ◌==◌,
  if◌then◌else◌,
}
use vuvuzela.Run.{ok, err, blocked, round_exists, unknown_message_type}
use vuvuzela.Bytes.{u32}
use vuvuzela.Rounds
use vuvuzela.Node.{Node}
use vuvuzela.Convo.{new_convo, new_round}
use vuvuzela.Convo.State.{with_round}
use vuvuzela.Convo.Serve.{serve}
use vuvuzela.Convo.Delivery.{sent}
use vuvuzela.Convo.Stuck.{new_round-sticks}
use vuvuzela.Dial.{DialDraws, new_round as new_dial_round}
use vuvuzela.EntryServer.{Connection, Request, Server, start_server, run_convo, cut_convo}
use vuvuzela.EntryServer.Collect.{Arrival, requests_for, handle_all, cut_convo-collects}
use vuvuzela.EntryServer.Delivery.{IsSent, run_convo-delivers}
use vuvuzela.Envelope.{
  ApiMessage, convo_response, dial_error, announce_convo_round, Struct, struct_of, Json, JsonLaws,
  open_envelope, envelop, open_envelope-envelop,
}
use vuvuzela.Client.Handlers.{
  new_client, Client, next_convo_request, handle_convo_response, handle_response, set_convo_handler,
  handle_response-to_asker,
}
use vuvuzela.Examples.Toy.{toy, toy_laws}
use vuvuzela.Examples.Rounds.{
  only_server, nobody, no_noise, draws, busy, message_of, seed, kept_both, both_named,
}

abbrev conn : ℕ → Connection
conn i = record { id = i; public_key = replicate 32 i }

abbrev came : List Arrival
came =
    (record { conn = conn 1; round = 0; onion = 1 ∷ [] })
    ∷ (record { conn = conn 2; round = 5; onion = 2 ∷ [] })
    ∷ []

cut_convo-collects_example :
    ((cut_convo (handle_all (λ _. true) came start_server)).1 ≡ (0, [] ++ requests_for 0 came))
    × ((cut_convo (handle_all (λ _. true) came start_server)).0.convo_round ≡ u32 (0 + 1))
    × ((cut_convo (handle_all (λ _. true) came start_server)).0.convo_requests ≡ [])
unfolding start_server
cut_convo-collects_example = cut_convo-collects (λ _. true) came start_server

abbrev two_requests : List Request
two_requests =
    (record {
      conn = conn 1;
      onion = (sent toy toy_laws only_server [] refl tt 7 (message_of 10) (seed 1)).0;
    })
    ∷ (record {
      conn = conn 2;
      onion = (sent toy toy_laws only_server [] refl tt 7 (message_of 30) (seed 2)).0;
    })
    ∷ []

run_convo-delivers_example :
    (after : Server) × (s' : Node × Unit) × (run_convo
        (λ _. true)
        (serve toy only_server draws nobody)
        7
        two_requests
        (start_server, (with_round 7 new_convo busy, tt))
      ≡ ((after, s'), ok tt))
    × IsSent toy 7 start_server after 0
        (conn 1)
        (sent toy toy_laws only_server [] refl tt 7 (message_of 10) (seed 1)).1
        (replicate 256 30)
    × IsSent toy 7 start_server after 1
        (conn 2)
        (sent toy toy_laws only_server [] refl tt 7 (message_of 30) (seed 2)).1
        (replicate 256 10)
run_convo-delivers_example =
    run_convo-delivers (λ _. true) (λ _. refl) toy toy_laws only_server [] refl tt nobody draws 7
      two_requests start_server new_convo busy tt refl refl refl 0 1 0 1 (message_of 10)
      (message_of 30) (seed 1) (seed 2) (conn 1) (conn 2) [] (refl, refl) (refl, refl) refl refl
      kept_both refl refl both_named

abbrev no_dial_noise : DialDraws
no_dial_noise = record { bucket_noise = λ _. 0; entropy = λ _ _ _. 0 }

abbrev resting : Node
resting = record {
  idle = false;
  convo_rounds = (7, new_convo) ∷ [];
  dial_rounds = [];
  access_counts = [];
}

new_round-sticks_example :
    (stuck : Node) × (new_round toy only_server 7 no_noise resting ≡ (stuck, err (round_exists 7)))
    × (new_round toy only_server 8 no_noise stuck ≡ (stuck, blocked))
    × (new_dial_round toy only_server 9 no_dial_noise stuck ≡ (stuck, blocked))
unfolding Rounds.lookup
new_round-sticks_example =
    new_round-sticks toy only_server 7 no_noise resting 8 no_noise 9 no_dial_noise refl refl

-- Messages stand for their own encoding; what is decoded as another type is refused.
abbrev number_of : Struct → ℕ
number_of Struct.a_convo_request = 0
number_of Struct.a_dial_request = 1
number_of Struct.a_bad_request_error = 2
number_of Struct.a_convo_error = 3
number_of Struct.a_convo_response = 4
number_of Struct.a_dial_error = 5
number_of Struct.a_dial_bucket = 6
number_of Struct.an_announce_convo_round = 7
number_of Struct.an_announce_dial_round = 8

abbrev json : Json ApiMessage
json = record {
  encode = λ v. v;
  decode = λ s v. if number_of s == number_of (struct_of v) then some v else none;
}

same_number : (n : ℕ) (v : ApiMessage) → (if n == n then some v else none) ≡ some v
same_number n v = ground arith

json_laws : JsonLaws json
json_laws = record { decode-encode = λ v. same_number (number_of (struct_of v)) v }

open_envelope-envelop_example :
    open_envelope json (envelop json (dial_error 3 "late")) ≡ err unknown_message_type
open_envelope-envelop_example = open_envelope-envelop json json_laws (dial_error 3 "late")

abbrev client : Client
client = record new_client { convo_handler = some 1 }

handle_response-to_asker_example :
    (asked : Client) × (answered : Client) × (handle_response (announce_convo_round 4) client
      ≡ (asked, ok tt))
    × (handle_response (convo_response 4 (9 ∷ [])) (set_convo_handler 2 asked) ≡ (answered, ok tt))
    × (answered.calls
        ≡ (client.calls ++ next_convo_request 1 4 ∷ []) ++ handle_convo_response 1 4 (9 ∷ []) ∷ [])
    × (answered.convo_handler ≡ some 2)
    × (handle_response (convo_response 4 (8 ∷ [])) answered ≡ (answered, ok tt))
handle_response-to_asker_example = handle_response-to_asker 4 1 2 (9 ∷ []) (8 ∷ []) client refl
