-- ===== src/Convo/Stuck.antt =====
-- convo.go: the errors that leave the mutex `Idle` locked, and the NewRound calls after them.
use vuvuzela.Prelude.{map, length, Option, List, ◌++◌, ℕ, ◌≡◌, refl, true, false, some}
use vuvuzela.Run.{Error, ok, err, blocked, round_exists, new_round_call}
use vuvuzela.Bytes.{Bytes}
use vuvuzela.Rounds
use vuvuzela.Shuffle.{Shuffler, new_shuffler, shuffle}
use vuvuzela.Filter.{filter_incoming}
use vuvuzela.Nacl.{Nacl}
use vuvuzela.Node.{Node, Config, ConvoRound, convo_round_open}
use vuvuzela.ConvoClient.{ConvoNext, new_convo_round}
use vuvuzela.Convo.{NoiseDraws, lock, new_round, put_round}
use vuvuzela.Convo.Close.{close_mix, close_round}
use vuvuzela.Convo.State.{get_round-found}
use vuvuzela.Convo.Mix.{sent_on}
use vuvuzela.Dial.{DialDraws, new_round as new_dial_round}

-- On a server with the mutex free, NewRound of a conversation round that exists returns an error and
-- leaves the mutex locked: each NewRound after it, of either service and for any round, waits.
pub new_round-sticks :
    (box : Nacl) (cfg : Config) (round : ℕ) (d : NoiseDraws) (node : Node) {r : ConvoRound}
    (later : ℕ) (d' : NoiseDraws) (dial : ℕ) (d'' : DialDraws)
    → node.idle ≡ false
    → Rounds.lookup round node.convo_rounds ≡ some r
    → (stuck : Node) × (new_round box cfg round d node ≡ (stuck, err (round_exists round)))
      × (new_round box cfg later d' stuck ≡ (stuck, blocked))
      × (new_dial_round box cfg dial d'' stuck ≡ (stuck, blocked))
unfolding new_round lock new_dial_round Rounds.lookup
new_round-sticks box cfg round d node later d' dial d'' free found =
    (record node { idle = true }, rw (free, found), refl, refl)

-- A server in the middle of the chain closes an open round: the mutex is locked, the filter and the
-- Shuffler end well, and NewRound of the next server fails with the error `e`. Close returns that error
-- and leaves the mutex locked: each NewRound after it, of either service and for any round, waits.
pub close_round-sticks :
    {S : Type 0} (box : Nacl) (cfg : Config) (next : ConvoNext S) (round : ℕ) (source : Bytes)
    (r : ConvoRound) (node : Node) (t t' : S) {e : Error} {valid : List Bytes}
    {index : List (Option ℕ)} {s : Shuffler} {rest : Bytes} {shuffled : List Bytes} (later : ℕ)
    (d : NoiseDraws) (dial : ℕ) (d' : DialDraws)
    → cfg.last_server ≡ false
    → node.idle ≡ true
    → Rounds.lookup round node.convo_rounds ≡ some r
    → r.status ≡ convo_round_open
    → filter_incoming r.incoming ≡ ok (valid, index)
    → new_shuffler source (length (valid ++ r.noise)) ≡ ok (s, rest)
    → shuffle s (valid ++ r.noise) ≡ ok shuffled
    → new_convo_round next round t ≡ (t', err e)
    → (stuck : Node) × (close_round next cfg round source (node, t)
        ≡ ((stuck, t'), err (new_round_call e)))
      × (new_round box cfg later d stuck ≡ (stuck, blocked))
      × (new_dial_round box cfg dial d' stuck ≡ (stuck, blocked))
unfolding new_round lock new_dial_round close_round close_mix put_round
close_round-sticks box cfg next round source r node t t' {e} {valid} {index} {s} {rest} {shuffled}
      later d dial d' mixing locked found is_open filtered drawn mixed failed =
    (
      record node {
        convo_rounds = Rounds.insert round (sent_on r valid index shuffled) (
            Rounds.insert round (record r { incoming = map some valid; incoming_index = index })
              node.convo_rounds);
      },
      rw (
        get_round-found round convo_round_open r node found is_open,
        filtered,
        mixing,
        drawn,
        mixed,
        failed,
      ),
      rw locked,
      rw locked,
    )
