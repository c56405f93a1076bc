-- ===== src/Dial/Resume.antt =====
-- dial.go: the rounds after one that the next server failed to run.
use vuvuzela.Prelude.{ℕ, ◌≡◌, ◌≢◌, refl, true, false, List, ◌++◌, Perm, length, none, some, arith}
use vuvuzela.Run.{Error, ok, err, run_round_call, round_exists}
use vuvuzela.Bytes.{Bytes}
use vuvuzela.Nacl.{Nacl}
use vuvuzela.Rounds
use vuvuzela.Shuffle.{Shuffler, new_shuffler, shuffle}
use vuvuzela.Shuffle.Undo.{unshuffle-shuffle}
use vuvuzela.Filter.{filter_dial_incoming}
use vuvuzela.Node.{Node, Config, DialRound, dial_round_open}
use vuvuzela.Convo.{lock}
use vuvuzela.DialClient.{DialNext, new_dial_round, run_dial_round}
use vuvuzela.Dial.{DialDraws, make_noise, new_round, add_round, put_round, close_round}
use vuvuzela.Dial.Close.{with_round}
use vuvuzela.Dial.Mix.{close_round-left_open}
use vuvuzela.Dial.Pair.{new_dial}

-- NewRound of a round that the server does not have, with the mutex free.
new_round-makes :
    (box : Nacl) (cfg : Config) (round : ℕ) (d : DialDraws) (node : Node) {noise : List Bytes}
    → node.idle ≡ false
    → Rounds.lookup round node.dial_rounds ≡ none
    → make_noise box cfg round d ≡ ok noise
    → new_round box cfg round d node
      ≡ (with_round round (new_dial noise) (record node { idle = true }), ok tt)
unfolding new_round lock add_round put_round Rounds.lookup
new_round-makes box cfg round d node free unknown noised =
    simp (new_round, lock, free) (simp (unknown, add_round, noised) refl)

-- NewRound of a round that the server has, with the mutex free.
new_round-refuses :
    (box : Nacl) (cfg : Config) (round : ℕ) (d : DialDraws) (node : Node) {r : DialRound}
    → node.idle ≡ false
    → Rounds.lookup round node.dial_rounds ≡ some r
    → new_round box cfg round d node ≡ (record node { idle = true }, err (round_exists round))
unfolding new_round lock Rounds.lookup
new_round-refuses box cfg round d node free found = rw (free, found)

lookup-beside :
    (k j : ℕ) (r : DialRound) (m : Rounds.Rounds DialRound)
    → j ≢ k
    → Rounds.lookup j m ≡ none
    → Rounds.lookup j (Rounds.insert k r m) ≡ none
lookup-beside k j r m other unknown = ground (arith, Rounds.lookup-insert k j r m)

-- A server in the middle closes an open dialing round, with its mutex locked; the filter can read what
-- came, the random bytes suffice for the Shuffler, and NewRound of the next server succeeds. The next
-- server is given a batch that holds what the filter kept and the noise, each as often as there, and
-- fails with the error `e` to run it. Close returns that error with the mutex free: NewRound of another
-- round, which the server does not have and can make the noise for, succeeds. NewRound of the failed
-- round is refused, since the round is still there.
pub close_round-resumes :
    {S : Type 0} (box : Nacl) (cfg : Config) (next : DialNext S) (round : ℕ) (source rest : Bytes)
    (r : DialRound) (node : Node) (t t' t'' : S) {valid mixed : List Bytes} {s : Shuffler}
    {e : Error} (later : ℕ) (d d' : DialDraws) {noise : List Bytes}
    → cfg.last_server ≡ false
    → r.status ≡ dial_round_open
    → node.idle ≡ true
    → filter_dial_incoming r.incoming ≡ ok valid
    → new_shuffler source (length (valid ++ r.noise)) ≡ ok (s, rest)
    → shuffle s (valid ++ r.noise) ≡ ok mixed
    → new_dial_round next round t ≡ (t', ok tt)
    → run_dial_round next round mixed t' ≡ (t'', err e)
    → later ≢ round
    → Rounds.lookup later node.dial_rounds ≡ none
    → make_noise box cfg later d ≡ ok noise
    → (left : Node) × (after : Node) × (stuck : Node) × Perm mixed (valid ++ r.noise)
      × (close_round next cfg round source (with_round round r node, t)
          ≡ ((left, t''), err (run_round_call e)))
      × (new_round box cfg later d left ≡ (after, ok tt))
      × (Rounds.lookup later after.dial_rounds ≡ some (new_dial noise))
      × (new_round box cfg round d' left ≡ (stuck, err (round_exists round)))
close_round-resumes box cfg next round source rest r node t t' t'' {valid} {mixed} {s} {e} later d
      d' {noise} mixing is_open locked filtered drawn shuffled made failed other unknown noised =
    let left = with_round round (record r { incoming = mixed }) (record node { idle = false }) in
    let still_unknown : Rounds.lookup later left.dial_rounds ≡ none =
      lookup-beside round later (record r { incoming = mixed }) node.dial_rounds other unknown in
    (
      left,
      with_round later (new_dial noise) (record left { idle = true }),
      record left { idle = true },
      (unshuffle-shuffle s (valid ++ r.noise) shuffled).0,
      close_round-left_open next cfg mixing round source rest r node t t' t'' is_open locked
          filtered drawn shuffled made failed,
      new_round-makes box cfg later d left refl still_unknown noised,
      Rounds.lookup-inserted later (new_dial noise) left.dial_rounds,
      new_round-refuses box cfg round d' left refl
          (Rounds.lookup-inserted round (record r { incoming = mixed }) node.dial_rounds),
    )
