-- ===== src/Convo/State.antt =====
-- A node with one round of its conversation service written out: what the handlers read and write.
use vuvuzela.Prelude.{◌≡◌, refl, true, some, ℕ}
use vuvuzela.Rounds
use vuvuzela.Rounds.{Rounds}
use vuvuzela.Run.{ok}
use vuvuzela.Node.{Node, ConvoRound, ConvoStatus, convo_status_eq}
use vuvuzela.Convo.{◌≡◌, get_round, put_round}

-- `node` with the round `r` under the number `round`.
abbrev pub with_round : ℕ → ConvoRound → Node → Node
with_round round r node = record node { convo_rounds = Rounds.insert round r node.convo_rounds }

convo_status_eq_refl : (s : ConvoStatus) → convo_status_eq s s ≡ true
unfolding convo_status_eq
convo_status_eq_refl ConvoStatus.convo_round_new = refl
convo_status_eq_refl ConvoStatus.convo_round_open = refl
convo_status_eq_refl ConvoStatus.convo_round_closed = refl

pub get_round-with_round :
    (round : ℕ) (status : ConvoStatus) (r : ConvoRound) (node : Node)
    → r.status ≡ status
    → get_round round status (with_round round r node) ≡ (with_round round r node, ok r)
unfolding get_round
get_round-with_round round status r node e = rw (
  Rounds.lookup-inserted round r node.convo_rounds,
  get_round,
  ← e,
  convo_status_eq_refl r.status,
)

pub get_round-found :
    (round : ℕ) (status : ConvoStatus) (r : ConvoRound) (node : Node)
    → Rounds.lookup round node.convo_rounds ≡ some r
    → r.status ≡ status
    → get_round round status node ≡ (node, ok r)
unfolding get_round
get_round-found round status r node found e =
    rw (found, get_round, ← e, convo_status_eq_refl r.status)

pub put_round-with_round :
    (round : ℕ) (r r' : ConvoRound) (node : Node)
    → put_round round r' (with_round round r node) ≡ (with_round round r' node, ok tt)
unfolding put_round
put_round-with_round round r r' node = rw (Rounds.insert-insert round r' r node.convo_rounds)
