-- ===== src/Dial/Close.antt =====
-- Close on the last server, and Buckets after it.
use mathlib.Core.List.{filter_map}
use mathlib.Core.List.Perm
use vuvuzela.Prelude.{ℕ, ◌<◌, ◌≡◌, refl, ap, sym, true, false, List, [], ◌∷◌, ◌++◌, Perm, length}
use vuvuzela.Run.{ok}
use vuvuzela.Bytes.{Bytes, u32_mod}
use vuvuzela.Rounds
use vuvuzela.Shuffle.{Shuffler, new_shuffler}
use vuvuzela.Shuffle.Draw.{new_shuffler-IsShuffler}
use vuvuzela.Shuffle.Undo.{shuffle-total, unshuffle-shuffle}
use vuvuzela.Filter.{filter_dial_incoming}
use vuvuzela.Node.{
  Node, Config, DialRound, DialStatus, dial_round_open, dial_round_closed, dial_status_eq, unlock,
}
use vuvuzela.DialClient.{DialNext}
use vuvuzela.Dial.{get_round, put_round, close_last, close_round, buckets}
use vuvuzela.Dial.Buckets.{intro_for, one_bucket}

-- `node` with the dialing round `r` under the number `round`.
abbrev pub with_round : ℕ → DialRound → Node → Node
with_round round r node = record node { dial_rounds = Rounds.insert round r node.dial_rounds }

dial_status_eq_refl : (s : DialStatus) → dial_status_eq s s ≡ true
unfolding dial_status_eq
dial_status_eq_refl DialStatus.dial_round_open = refl
dial_status_eq_refl DialStatus.dial_round_closed = refl

pub get_round-with_round :
    (round : ℕ) (status : DialStatus) (r : DialRound) (node : Node)
    → r.status ≡ status
    → get_round round status (with_round round r node) ≡ (with_round round r node, ok r)
unfolding get_round
get_round-with_round round status r node e =
    rw (
      Rounds.lookup-inserted round r node.dial_rounds,
      get_round,
      ← e,
      dial_status_eq_refl r.status,
    )

pub put_round-with_round :
    (round : ℕ) (r r' : DialRound) (node : Node)
    → put_round round r' (with_round round r node) ≡ (with_round round r' node, ok tt)
unfolding put_round
put_round-with_round round r r' node = rw (Rounds.insert-insert round r' r node.dial_rounds)

pub unlock-locked :
    (round : ℕ) (r : DialRound) (node : Node)
    → node.idle ≡ true
    → unlock (with_round round r node) ≡ (with_round round r (record node { idle = false }), ok tt)
unfolding unlock
unlock-locked round r node e = rw e

-- The round that Close of the last server leaves.
abbrev pub closed : List Bytes → DialRound → DialRound
closed mixed r = record { status = dial_round_closed; incoming = mixed; noise = [] }

module _ {S : Type 0} (next : DialNext S) (cfg : Config) (round : ℕ) (source rest : Bytes)
    {shuffler : Shuffler} (r : DialRound) (node : Node) (s : S) (valid : List Bytes)
    (last : cfg.last_server ≡ true) (is_open : r.status ≡ dial_round_open)
    (locked : node.idle ≡ true) (filtered : filter_dial_incoming r.incoming ≡ ok valid)
    (small : length (valid ++ r.noise) < u32_mod)
    (drawn : new_shuffler source (length (valid ++ r.noise)) ≡ ok (shuffler, rest)) where
  pub close_round-last :
      (mixed : List Bytes) × Perm mixed (valid ++ r.noise)
      × (close_round next cfg round source (with_round round r node, s)
          ≡ ((with_round round (closed mixed r) (record node { idle = false }), s), ok tt))
  unfolding close_round close_last
  close_round-last =
      let all = valid ++ r.noise in
      let (fits, count) = new_shuffler-IsShuffler source (length all) small drawn in
      let (mixed, e) = shuffle-total shuffler fits all (sym count) in
      let (perm, _) = unshuffle-shuffle shuffler all e in
      (
        mixed,
        perm,
        rw (
          get_round-with_round round dial_round_open r node is_open,
          filtered,
          put_round-with_round round r (record r { incoming = valid }) node,
          put_round-with_round round (record r { incoming = valid }) (record r { incoming = all })
              node,
          drawn,
          e,
          put_round-with_round round (record r { incoming = all }) (record r { incoming = mixed })
              node,
          last,
          close_last,
          unlock-locked round (record r { incoming = mixed }) node locked,
          put_round-with_round round (record r { incoming = mixed }) (closed mixed r)
              (record node { idle = false }),
        ),
      )

  -- Of a round that is open, with the mutex locked, whose messages the filter can read and which are
  -- with the noise fewer than 2^32, and with random bytes enough for the Shuffler: Close on the last
  -- server ends well and unlocks the mutex, and Buckets after it returns one bucket. It holds, in some order, the
  -- introductions for bucket 0 of the messages that the filter kept and of the noise, each as often
  -- as it occurs there.
  pub close-buckets :
      (after : Node) × (bucket : List Bytes) × (close_round next cfg round source
          (with_round round r node, s)
        ≡ ((after, s), ok tt))
      × (buckets cfg round after ≡ (after, ok (bucket ∷ [])))
      × Perm bucket (filter_map (intro_for 0) (valid ++ r.noise))
      × (after.idle ≡ false)
  unfolding buckets
  close-buckets =
      let (mixed, perm, e) = close_round-last in
      (
        with_round round (closed mixed r) (record node { idle = false }),
        filter_map (intro_for 0) mixed,
        e,
        rw
            (
              last,
              get_round-with_round round dial_round_closed (closed mixed r)
                  (record node { idle = false }) refl,
            )
            (ap
              (λ (bs : List (List Bytes)).
                (with_round round (closed mixed r) (record node { idle = false }), ok bs))
              (one_bucket mixed)),
        Perm.filter_map (intro_for 0) perm,
        refl,
      )
