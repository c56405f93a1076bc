-- ===== src/Examples/Starting.antt =====
-- The start of a server process, and its histogram, at concrete inputs.
use Prim.Native.String.{String}
use text.Mathlib.TextEquality.{eq_iff}
use vuvuzela.Prelude.{◌≡◌, ◌≢◌, refl, Bool, true, false, List, [], ◌∷◌, some, replicate, arith}
use vuvuzela.Run.{ok}
use vuvuzela.Pki.Reading.{AllReachable, read_pki-reachable}
use vuvuzela.Server.{Conf}
use vuvuzela.Server.Role.{StartsAs, start_server-of_order, start_server-unknown}
use vuvuzela.Server.Histogram.{Histogram, Event, resized, counted, run}
use vuvuzela.Server.Window.{IsDrawn, latest, run-latest}
use vuvuzela.Examples.Layers.{
  has_colon, join_port, bare_chain, read_chain, read_chain-read, join-ne, ne-ab, ne-ax, ne-bx,
  ne-cx,
}

abbrev conf_of : String → Conf
conf_of name = record {
  server_name = name;
  public_key = some (1 ∷ []);
  private_key = some (2 ∷ []);
}

abbrev always : String → Bool
always address = true

all_reachable : AllReachable has_colon join_port read_chain.servers read_chain.server_order
all_reachable =
    (read_pki-reachable has_colon join_port (λ a. refl) join-ne bare_chain read_chain-read).2

b_named : ◌≢◌ {A = String} "b" ""
b_named e = ground (arith, eq_iff "b" "")

x_named : ◌≢◌ {A = String} "x" ""
x_named e = ground (arith, eq_iff "x" "")

start_server-of_order_example :
    StartsAs has_colon join_port always read_chain
      (conf_of "b")
      refl
      refl
      b_named
      all_reachable
      (λ _. refl)
      false
start_server-of_order_example =
    start_server-of_order has_colon join_port always read_chain (conf_of "b") refl refl b_named
      all_reachable (λ _. refl) ("a" ∷ []) ("c" ∷ []) refl (ne-ab, tt)

start_server-unknown_example :
    StartsAs has_colon join_port always read_chain
      (conf_of "x")
      refl
      refl
      x_named
      all_reachable
      (λ _. refl)
      true
start_server-unknown_example =
    start_server-unknown has_colon join_port always read_chain (conf_of "x") refl refl x_named
      all_reachable (λ _. refl) (ne-ax, (ne-bx, (ne-cx, tt)))

abbrev some_events : List Event
some_events =
    counted (record { singles = 3; doubles = 4 })
    ∷ resized 40
    ∷ counted (record { singles = 5; doubles = 6 })
    ∷ []

run-latest_example :
    (h : Histogram) × (run 3 100 50 24 some_events ≡ ok h)
    × IsDrawn h
    × (h.rows ≡ 40)
    × (h.singles ≡ latest (replicate 512 0) (3 ∷ 5 ∷ []))
    × (h.doubles ≡ latest (replicate 512 0) (4 ∷ 6 ∷ []))
run-latest_example = run-latest 3 100 50 24 some_events
