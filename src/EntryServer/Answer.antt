-- ===== src/EntryServer/Answer.antt =====
-- runConvoRound of vuvuzela-entry-server/server.go: the replies to the clients.
use native.Mathlib.Nat.{zero-add, suc-add}
use mathlib.Core.List.{append_assoc, append-nil}
use vuvuzela.Prelude.{
  ℕ, zero, suc, ◌+◌, ◌≡◌, refl, ap, sym, ◌∙◌, Bool, true, List, [], ◌∷◌, ◌++◌, some, map, length,
  length-map, length-append, get_elem?, get_elem?-map, arith,
}
use vuvuzela.Run.{ok}
use vuvuzela.Bytes.{Bytes}
use vuvuzela.ConvoClient.{ConvoNext, run_convo_round}
use vuvuzela.EntryServer.{
  Connection, Request, Message, convo_response, Server, send, send_replies, run_convo,
}

get_elem?-append {ℓ} :
    {A : Type ℓ} (xs ys : List A) (i : ℕ) → get_elem? (xs ++ ys) (length xs + i) ≡ get_elem? ys i
get_elem?-append [] ys i = rw (zero-add i)
get_elem?-append (x ∷ xs) ys i = rw (suc-add (length xs) i) (get_elem?-append xs ys i)

-- Each connection with its reply.
abbrev answers_to : ℕ → List Connection → List Bytes → List (ℕ × Message)
answers_to round (c ∷ cs) (onion ∷ onions) =
    (c.id, convo_response round onion) ∷ answers_to round cs onions
answers_to round _ _ = []

answers_to-get :
    (round i : ℕ) (cs : List Connection) (onions : List Bytes) {c : Connection} {onion : Bytes}
    → get_elem? cs i ≡ some c
    → get_elem? onions i ≡ some onion
    → get_elem? (answers_to round cs onions) i ≡ some (c.id, convo_response round onion)
answers_to-get round i [] onions e f = cc
answers_to-get round i (c ∷ cs) [] e f = cc
answers_to-get round zero (c ∷ cs) (onion ∷ onions) e f = cc
answers_to-get round (suc i) (c ∷ cs) (onion ∷ onions) e f = answers_to-get round i cs onions e f

length-answers_to :
    (round : ℕ) (cs : List Connection) (onions : List Bytes)
    → length onions ≡ length cs
    → length (answers_to round cs onions) ≡ length cs
length-answers_to round [] onions l = refl
length-answers_to round (c ∷ cs) [] l = absurd (omega arith)
length-answers_to round (c ∷ cs) (onion ∷ onions) l =
    ap suc (length-answers_to round cs onions (omega arith))

module _ (writable : ℕ → Bool) (all : (i : ℕ) → writable i ≡ true) where
  send-written :
      (c : Connection) (m : Message) (srv : Server)
      → send writable c m srv ≡ record srv { sent = srv.sent ++ (c.id, m) ∷ [] }
  unfolding send
  send-written c m srv = rw (all c.id)

  send_replies-written :
      (round : ℕ) (cs : List Connection) (onions : List Bytes) (srv : Server)
      → length onions ≡ length cs
      → send_replies writable round cs onions srv
        ≡ ok (record srv { sent = srv.sent ++ answers_to round cs onions })
  unfolding send_replies
  send_replies-written round [] [] srv l = rw (append-nil srv.sent)
  send_replies-written round [] (onion ∷ onions) srv l = absurd (omega arith)
  send_replies-written round (c ∷ cs) [] srv l = absurd (omega arith)
  send_replies-written round (c ∷ cs) (onion ∷ onions) srv l =
      let first : ℕ × Message = (c.id, convo_response round onion) in
      rw (send-written c (convo_response round onion) srv) (
        send_replies-written round cs onions (record srv { sent = srv.sent ++ first ∷ [] })
          (omega arith)
        ∙ ap (λ (l : List (ℕ × Message)). ok (record srv { sent = l }))
            (append_assoc srv.sent (first ∷ []) (answers_to round cs onions)))

  -- Where the first server returns as many replies as there are requests and all sockets are open, the
  -- client of request `i` is sent reply `i`, and nothing else is sent.
  pub run_convo-answers :
      {S : Type 0} (next : ConvoNext S) (round i : ℕ) (requests : List Request) (srv : Server)
      (s s' : S) (replies : List Bytes) {q : Request} {reply : Bytes}
      → run_convo_round next round (map Request.onion requests) s ≡ (s', ok replies)
      → length replies ≡ length requests
      → get_elem? requests i ≡ some q
      → get_elem? replies i ≡ some reply
      → (srv' : Server) × (run_convo writable next round requests (srv, s) ≡ ((srv', s'), ok tt))
        × (length srv'.sent ≡ length srv.sent + length requests)
        × (get_elem? srv'.sent (length srv.sent + i) ≡ some (q.conn.id, convo_response round reply))
  unfolding run_convo
  run_convo-answers next round i requests srv s s' replies {q} {reply} e l asked got =
      let conns = map Request.conn requests in
      let answers = answers_to round conns replies in
      let count = length-map requests Request.conn in
      (
        record srv { sent = srv.sent ++ answers },
        rw (run_convo, e, send_replies-written round conns replies srv (l ∙ sym count), e),
        length-append srv.sent answers
            ∙ ap (λ (k : ℕ). length srv.sent + k)
                (length-answers_to round conns replies (l ∙ sym count) ∙ count),
        get_elem?-append srv.sent answers i
            ∙ answers_to-get round i conns replies (get_elem?-map requests Request.conn i asked)
                got,
      )
