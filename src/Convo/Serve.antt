-- ===== src/Convo/Serve.antt =====
-- A server of the chain as its predecessor sees it: the handlers of its conversation service over
-- its own state and that of the servers behind it.
use vuvuzela.Prelude.{ℕ}
use vuvuzela.Bytes.{Bytes, Random}
use vuvuzela.Nacl.{Nacl}
use vuvuzela.Node.{Node, Config}
use vuvuzela.Rpc.{here}
use vuvuzela.ConvoClient.{ConvoNext}
use vuvuzela.Convo.{NoiseDraws, new_round, open_round, add}
use vuvuzela.Convo.Close.{close_round, get, delete}

-- What a server draws: the noise of a round, the bytes of its Shuffler, and the padding of each
-- slot of a round.
pub record Draws : Type 0 where
  pub noise : ℕ → NoiseDraws
  pub shuffler : ℕ → Bytes
  pub padding : ℕ → ℕ → Random

unfoldable pub serve : {S : Type 0} → Nacl → Config → Draws → ConvoNext S → ConvoNext (Node × S)
serve box cfg draws next = record {
  new_round = λ round. here (new_round box cfg round (draws.noise round));
  open_round = λ round n. here (open_round box cfg round n);
  add = λ round offset onions. here (add box cfg round offset onions);
  close_round = λ round. close_round next cfg round (draws.shuffler round);
  get = λ round offset count. here (get box cfg round offset count (draws.padding round));
  delete = λ round. here (delete round);
}
