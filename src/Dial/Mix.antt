-- ===== src/Dial/Mix.antt =====
-- dial.go: Close of a server in the middle of the chain.
use vuvuzela.Prelude.{ℕ, ◌≡◌, refl, true, false, List, [], ◌++◌, Perm, length}
use vuvuzela.Run.{Error, ok, err, run_round_call}
use vuvuzela.Bytes.{Bytes}
use vuvuzela.Shuffle.{Shuffler, new_shuffler, shuffle}
use vuvuzela.Shuffle.Undo.{unshuffle-shuffle}
use vuvuzela.Filter.{filter_dial_incoming}
use vuvuzela.Node.{Node, Config, DialRound, dial_round_open, dial_round_closed}
use vuvuzela.DialClient.{DialNext, new_dial_round, run_dial_round}
use vuvuzela.Dial.{close_mix, close_round}
use vuvuzela.Dial.Close.{with_round, get_round-with_round, put_round-with_round, unlock-locked}

-- The round that Close leaves once the next server has run it.
abbrev pub passed : DialRound
passed = record { status = dial_round_closed; incoming = []; noise = [] }

module _ {S : Type 0} (next : DialNext S) (cfg : Config) (mixing : cfg.last_server ≡ false)
    (round : ℕ) (source rest : Bytes) (r : DialRound) (node : Node) (t t' t'' : S)
    (is_open : r.status ≡ dial_round_open) (locked : node.idle ≡ true) {valid : List Bytes}
    (filtered : filter_dial_incoming r.incoming ≡ ok valid) {s : Shuffler}
    (drawn : new_shuffler source (length (valid ++ r.noise)) ≡ ok (s, rest)) {mixed : List Bytes}
    (shuffled : shuffle s (valid ++ r.noise) ≡ ok mixed) where
  abbrev mixed_round : DialRound
  mixed_round = record r { incoming = mixed }

  -- Close up to its branch for a server in the middle.
  pub close_round-mix :
      close_round next cfg round source (with_round round r node, t)
      ≡ close_mix next round mixed_round (with_round round mixed_round node, t)
  unfolding close_round
  close_round-mix =
      let all = valid ++ r.noise in
      rw
        (
          get_round-with_round round dial_round_open r node is_open,
          filtered,
          put_round-with_round round r (record r { incoming = valid }) node,
          put_round-with_round round (record r { incoming = valid }) (record r { incoming = all })
              node,
          drawn,
          shuffled,
          put_round-with_round round (record r { incoming = all }) mixed_round node,
          mixing,
        )
        refl

  module _ (made : new_dial_round next round t ≡ (t', ok tt)) where
    -- An open round of a server in the middle, with the mutex locked, whose messages the filter can read,
    -- and for which the random bytes suffice; NewRound of the next server succeeds. What the next server
    -- is given holds the messages that the filter kept and the noise, each as often as there, and if it
    -- runs the round, Close ends well: the mutex is free and the round closed, with nothing kept.
    pub close_round-passes_on :
        run_dial_round next round mixed t' ≡ (t'', ok tt)
        → Perm mixed (valid ++ r.noise)
          × (close_round next cfg round source (with_round round r node, t)
              ≡ ((with_round round passed (record node { idle = false }), t''), ok tt))
    unfolding close_mix
    close_round-passes_on ran = (
      (unshuffle-shuffle s (valid ++ r.noise) shuffled).0,
      rw
          (
            close_round-mix,
            made,
            unlock-locked round mixed_round node locked,
            ran,
            put_round-with_round round mixed_round passed (record node { idle = false }),
          )
          refl,
    )

    -- The same open round, but the next server fails with the error `e` on the onions that it is given.
    -- Close returns that error, with the mutex free and the round open, and the round keeps the mixed
    -- batch and its noise.
    pub close_round-left_open :
        {e : Error}
        → run_dial_round next round mixed t' ≡ (t'', err e)
        → (close_round next cfg round source (with_round round r node, t) ≡ (
          (with_round round (record r { incoming = mixed }) (record node { idle = false }), t''),
          err (run_round_call e),
        ))
    unfolding close_mix
    close_round-left_open ran =
        rw (close_round-mix, made, unlock-locked round mixed_round node locked, ran) refl
