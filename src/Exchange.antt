-- ===== src/Exchange.antt =====
-- The last server of convo.go, Close: the exchange of messages by dead drops.
pub mod Drops
pub mod Replies
use vuvuzela.Prelude.{
  ℕ, zero, suc, ◌+◌, ◌-◌, Bool, true, false, List, [], ◌∷◌, ◌++◌, Option, none, some, ◌==◌, length,
  get_elem?, replicate, map, if◌then◌else◌,
}
use vuvuzela.Run.{Run, ok, panic, or_else, ◌>>=◌}
use vuvuzela.Bytes.{Bytes, bytes_eq}
use vuvuzela.Wire.{ConvoExchange, unmarshal_exchange, size_encrypted_message}

pub record AccessCount : Type 0 where
  pub singles : ℕ
  pub doubles : ℕ

-- `new(ConvoExchange)`.
abbrev pub zero_exchange : ConvoExchange
zero_exchange = record {
  dead_drop = replicate 16 0;
  encrypted_message = replicate size_encrypted_message 0;
}

-- A message that is too short is logged, and the exchange stays zero.
unfoldable pub exchange_of_message : Bytes → ConvoExchange
unfolding unmarshal_exchange
exchange_of_message msg = elim (unmarshal_exchange msg) [ none ↦ zero_exchange | some e ↦ e ]

-- `map[DeadDrop][]int`: at most the first two accesses of each dead drop.
abbrev pub DeadDrops : Type 0
DeadDrops = List (Bytes × List ℕ)

-- `deadDrops[d]`, nil for a missing key.
unfoldable pub drop_at : Bytes → DeadDrops → List ℕ
unfolding bytes_eq
drop_at d [] = []
drop_at d ((e, is) ∷ m) = if bytes_eq e d then is else drop_at d m

-- `deadDrops[d] = append(drop, i)`.
unfoldable pub set_drop : Bytes → List ℕ → DeadDrops → DeadDrops
unfolding bytes_eq
set_drop d js [] = (d, js) ∷ []
set_drop d js ((e, is) ∷ m) = if bytes_eq e d then (e, js) ∷ m else (e, is) ∷ set_drop d js m

pub record Tally : Type 0 where
  pub drops : DeadDrops
  pub count : AccessCount

-- One round of the loop. A drop of one access was counted as a single, so `singles--` never meets 0.
unfoldable pub access : ℕ → ConvoExchange → Tally → Tally
access i ex t = elim (drop_at ex.dead_drop t.drops) [
  | [] ↦ record {
    drops = set_drop ex.dead_drop (i ∷ []) t.drops;
    count = record { singles = t.count.singles + 1; doubles = t.count.doubles };
  }
  | j ∷ js ↦ elim js [
    | [] ↦ record {
      drops = set_drop ex.dead_drop (j ∷ i ∷ []) t.drops;
      count = record { singles = t.count.singles - 1; doubles = t.count.doubles + 1 };
    }
    | _ ↦ t
  ]
]

-- The loop from exchange `i`.
unfoldable pub access_from : ℕ → List ConvoExchange → Tally → Tally
access_from i [] t = t
access_from i (ex ∷ exs) t = access_from (suc i) exs (access i ex t)

unfoldable pub tally : List ConvoExchange → Tally
tally exs = access_from 0 exs (record { drops = []; count = record { singles = 0; doubles = 0 } })

-- What exchange `i` gets: its own message if nobody else came, the other's if somebody did. The
-- reply stays nil for a drop of any other length, and there is none.
unfoldable pub reply_for : List ConvoExchange → ℕ → ConvoExchange → List ℕ → Run Bytes
reply_for exs i ex (j ∷ []) = ok ex.encrypted_message
reply_for exs i ex (j ∷ k ∷ []) = do
  other ← or_else (get_elem? exs (if i == j then k else j)) panic
  ok other.encrypted_message
reply_for exs i ex _ = ok []

-- The second loop, over the exchanges from `i` on; its rounds write separate entries.
unfoldable pub replies_from :
    List ConvoExchange → DeadDrops → ℕ → List ConvoExchange → Run (List Bytes)
replies_from all drops i [] = ok []
replies_from all drops i (ex ∷ exs) = do
  reply ← reply_for all i ex (drop_at ex.dead_drop drops)
  replies ← replies_from all drops (suc i) exs
  ok (reply ∷ replies)

unfoldable pub exchange_all : List ConvoExchange → Run (List Bytes × AccessCount)
exchange_all exs = do
  replies ← replies_from exs (tally exs).drops 0 exs
  ok (replies, (tally exs).count)
