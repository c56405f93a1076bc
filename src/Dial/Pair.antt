-- ===== src/Dial/Pair.antt =====
-- dial.go: a round of two servers, one in the middle of the chain and the last.
use mathlib.Core.List.{filter_map}
use vuvuzela.Prelude.{ℕ, ◌<◌, ◌≡◌, refl, true, false, List, [], ◌∷◌, ◌++◌, Perm, length, none}
use vuvuzela.Run.{ok}
use vuvuzela.Bytes.{Bytes, u32_mod}
use vuvuzela.Nacl.{Nacl}
use vuvuzela.Wire.{forward_nonce}
use vuvuzela.Rounds
use vuvuzela.Shuffle.{Shuffler, new_shuffler, shuffle}
use vuvuzela.Filter.{filter_dial_incoming}
use vuvuzela.Node.{Node, Config, DialRound, dial_round_open}
use vuvuzela.Convo.{lock}
use vuvuzela.DialClient.{DialNext, new_dial_round, run_dial_round}
use vuvuzela.Dial.{make_noise, new_round, add_round, put_round, open_onions, buckets}
use vuvuzela.Dial.Buckets.{intro_for}
use vuvuzela.Dial.Close.{with_round}
use vuvuzela.Dial.Mix.{passed, close_round-passes_on}
use vuvuzela.Dial.Whole.{Draws, serve, all_held, run_dial_round-buckets}

-- The round that NewRound makes.
abbrev pub new_dial : List Bytes → DialRound
new_dial noise = record { status = dial_round_open; incoming = []; noise = noise }

module _ (box : Nacl) (cfg : Config) {S : Type 0} (next : DialNext S) (draws : Draws) (round : ℕ)
    (node : Node) (s : S) (free : node.idle ≡ false)
    (unknown : Rounds.lookup round node.dial_rounds ≡ none) {noise : List Bytes}
    (noised : make_noise box cfg round (draws.noise round) ≡ ok noise) where
  new_dial_round-opens :
      new_dial_round (serve box cfg draws next) round (node, s)
      ≡ ((with_round round (new_dial noise) (record node { idle = true }), s), ok tt)
  unfolding new_dial_round serve new_round lock add_round put_round Rounds.lookup
  new_dial_round-opens =
      simp (new_dial_round, serve, new_round, lock, free)
        (simp (unknown, new_round, add_round, noised) refl)

module _ (box : Nacl) (cfg cfg' : Config) (mixing : cfg.last_server ≡ false)
    (last : cfg'.last_server ≡ true) {S : Type 0} (next : DialNext S) (draws draws' : Draws)
    (round : ℕ) (onions : List Bytes) (r : DialRound) (node node' : Node) (s : S)
    (is_open : r.status ≡ dial_round_open) (locked : node.idle ≡ true) (free : node'.idle ≡ false)
    (unknown : Rounds.lookup round node'.dial_rounds ≡ none) {valid : List Bytes}
    (filtered : filter_dial_incoming
        (r.incoming ++ open_onions box cfg (forward_nonce round) onions)
      ≡ ok valid)
    {swaps : Shuffler} {rest : Bytes}
    (drawn : new_shuffler (draws.shuffler round) (length (valid ++ r.noise)) ≡ ok (swaps, rest))
    {mixed : List Bytes} (shuffled : shuffle swaps (valid ++ r.noise) ≡ ok mixed)
    {noise : List Bytes} (noised : make_noise box cfg' round (draws'.noise round) ≡ ok noise)
    {valid' : List Bytes}
    (filtered' : filter_dial_incoming (open_onions box cfg' (forward_nonce round) mixed)
      ≡ ok valid')
    (small : length (valid' ++ noise) < u32_mod) {swaps' : Shuffler} {rest' : Bytes}
    (drawn' : new_shuffler (draws'.shuffler round) (length (valid' ++ noise))
      ≡ ok (swaps', rest')) where
  -- An open round of a server in the middle, with its mutex locked; the last server behind it is idle,
  -- does not know the round and can make its noise. The filters of both can read what came, and the
  -- random bytes suffice for both Shufflers, the last one on fewer than 2^32 entries. RunDialRound on
  -- the first of them ends well and leaves both mutexes free. The batch between them holds what the
  -- first server's filter kept and its noise, each as often as there. Buckets of the last server then
  -- returns one bucket: in some order, the introductions for bucket 0 of what the last server opened of
  -- that batch and its filter kept, and of its own noise, each as often as it occurs there.
  pub run_dial_round-through :
      (left : Node) × (after : Node) × (bucket : List Bytes) × (run_dial_round
          (serve box cfg draws (serve box cfg' draws' next))
          round
          onions
          (with_round round r node, (node', s))
        ≡ ((left, (after, s)), ok tt))
      × (left.idle ≡ false)
      × (after.idle ≡ false)
      × Perm mixed (valid ++ r.noise)
      × (buckets cfg' round after ≡ (after, ok (bucket ∷ [])))
      × Perm bucket (filter_map (intro_for 0) (valid' ++ noise))
  unfolding run_dial_round serve
  run_dial_round-through =
      let made = new_dial_round-opens box cfg' next draws' round node' s free unknown noised in
      let locked' = record node' { idle = true } in
      let (after, bucket, ran, read, perm, unlocked) =
        run_dial_round-buckets box cfg' round (new_dial noise) locked' refl next draws' s mixed last
          refl filtered' small drawn' in
      let holding = record r {
        incoming = r.incoming ++ open_onions box cfg (forward_nonce round) onions;
      } in
      let (kept, closes) =
        close_round-passes_on (serve box cfg' draws' next) cfg mixing round (draws.shuffler round)
          rest holding node (node', s) (with_round round (new_dial noise) locked', s) (after, s)
          is_open locked filtered drawn shuffled made ran in
      (
        with_round round passed (record node { idle = false }),
        after,
        bucket,
        rw
            (
              run_dial_round,
              all_held box cfg round r node is_open (serve box cfg' draws' next) draws (node', s)
                  onions,
              closes,
            )
            refl,
        refl,
        unlocked,
        kept,
        read,
        perm,
      )
