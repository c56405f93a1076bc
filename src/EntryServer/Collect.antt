-- ===== src/EntryServer/Collect.antt =====
-- The requests that wait in vuvuzela-entry-server/server.go when a round is cut off.
use mathlib.Core.List.{append_assoc, append-nil}
use vuvuzela.Prelude.{
  ℕ, ◌+◌, ◌≡◌, refl, ap, sym, ◌∙◌, Bool, List, [], ◌∷◌, ◌++◌, ◌==◌, inl, inr, Bool-cases,
  if◌then◌else◌,
}
use vuvuzela.Bytes.{Bytes, u32}
use vuvuzela.EntryServer.{
  Connection, Request, Message, convo_error, wrong_round, Server, send, close, handle_convo_request,
  cut_convo,
}

-- A request as it comes: the round it is for, and the onion.
pub record Arrival : Type 0 where
  pub conn : Connection
  pub round : ℕ
  pub onion : Bytes

-- The requests among `came` that are for the round `k`.
abbrev pub requests_for : ℕ → List Arrival → List Request
requests_for k [] = []
requests_for k (a ∷ came) =
    if a.round == k
    then (record { conn = a.conn; onion = a.onion }) ∷ requests_for k came
    else requests_for k came

module _ (writable : ℕ → Bool) where
  pub handle_all : List Arrival → Server → Server
  unfolding handle_convo_request
  handle_all [] srv = srv
  handle_all (a ∷ came) srv =
      handle_all came (handle_convo_request writable a.conn a.round a.onion srv)

  send-keeps :
      (c : Connection) (m : Message) (srv : Server)
      → ((send writable c m srv).convo_round ≡ srv.convo_round)
        × ((send writable c m srv).convo_requests ≡ srv.convo_requests)
  unfolding send close
  send-keeps c m srv = elim (Bool-cases (writable c.id)) [
    | inl up ↦ (rw up, rw up)
    | inr down ↦ (rw down, rw down)
  ]

  handle_all-collects :
      (came : List Arrival) (srv : Server)
      → ((handle_all came srv).convo_round ≡ srv.convo_round)
        × ((handle_all came srv).convo_requests
            ≡ srv.convo_requests ++ requests_for srv.convo_round came)
  unfolding handle_all handle_convo_request
  handle_all-collects [] srv = (refl, sym (append-nil srv.convo_requests))
  handle_all-collects (a ∷ came) srv =
      let rest = handle_all-collects came in
      elim (Bool-cases (a.round == srv.convo_round)) [
        | inl current ↦
            let q : Request = record { conn = a.conn; onion = a.onion } in
            let (round, requests) =
              rest (record srv { convo_requests = srv.convo_requests ++ q ∷ [] }) in
            rw (handle_all, handle_convo_request, current)
              (
                round,
                requests
                    ∙ append_assoc srv.convo_requests (q ∷ []) (requests_for srv.convo_round came),
              )
        | inr late ↦
            let m = convo_error a.round (wrong_round srv.convo_round) in
            let (kept_round, kept) = send-keeps a.conn m srv in
            let (round, requests) = rest (send writable a.conn m srv) in
            rw (handle_all, handle_convo_request, late)
              (round ∙ kept_round, rw (kept_round, kept) at requests)
      ]

  -- When the round is cut off, its requests are those that waited before and, in the order in which
  -- they came, those of the clients that named the current round. The next round, modulo 2^32, then
  -- starts with none.
  pub cut_convo-collects :
      (came : List Arrival) (srv : Server)
      → ((cut_convo (handle_all came srv)).1
          ≡ (srv.convo_round, srv.convo_requests ++ requests_for srv.convo_round came))
        × ((cut_convo (handle_all came srv)).0.convo_round ≡ u32 (srv.convo_round + 1))
        × ((cut_convo (handle_all came srv)).0.convo_requests ≡ [])
  unfolding cut_convo
  cut_convo-collects came srv =
      let (round, requests) = handle_all-collects came srv in
      (cc, ap (λ k. u32 (k + 1)) round, refl)
