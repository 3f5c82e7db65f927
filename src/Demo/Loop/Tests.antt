-- ===== src/Demo/Loop/Tests.antt =====
-- Three rounds over three edges, with thousandths as the floating numbers.
use semconv_graph.Base.{ℕ, none, some, List, [], ◌∷◌, leb, ok, err, ◌≡◌, refl, nat_eq}
use native.Mathlib.Decide.{ℕ_discrete}
use semconv_graph.Demo.Config.{
  pos, negsuc, Floats, Config, bad_edge_counts, bad_endpoint, starts_with, validate,
}
use semconv_graph.Demo.Topology.{make_topology, advance, choice, choices, remove, sample}
use semconv_graph.Demo.Loop.{
  Tick, exported, failed, uncaught, send_and_sleep, change, round, rounds, start,
}
use semconv_graph.Demo.Tests.{edges, first}

abbrev thousandths : Floats
thousandths = record { Float = ℕ; leq = leb; zero = 0; one = 1000 }

abbrev config : Config thousandths
config = record {
  endpoint = "http://collector:4318/v1/traces";
  emit_interval_seconds = 2000;
  topology_change_interval_seconds = 20000;
  initial_edges = pos 1;
  max_active_edges = pos 2;
  requests_per_tick = pos 2;
  error_rate = 80;
  namespace = "shop";
  instance_id = "demo";
  random_seed = none;
}

too_many_active :
    validate thousandths 3 (record config { max_active_edges = pos 3 }) ≡ err bad_edge_counts
unfolding validate starts_with ℕ_discrete
too_many_active = refl

negative_initial :
    validate thousandths 3 (record config { initial_edges = negsuc 0 }) ≡ err bad_edge_counts
unfolding validate starts_with ℕ_discrete
negative_initial = refl

other_scheme : validate thousandths 3 (record config { endpoint = "ftp://x" }) ≡ err bad_endpoint
unfolding validate starts_with ℕ_discrete
other_scheme = refl

-- The second export fails, which stops nothing.
abbrev ticks : List Tick
ticks =
    record { now = 0; sending = exported; sleeping = none }
    ∷ record { now = 20; sending = failed; sleeping = none }
    ∷ record { now = 40; sending = exported; sleeping = none }
    ∷ []

abbrev sleepless : List Tick
sleepless = record { now = 0; sending = failed; sleeping = some "ValueError" } ∷ ticks

abbrev same_state : List ℕ → ℕ → ℕ
same_state sent rng = rng

three_rounds :
    (rounds first same_state 20 2 ticks (start config edges 0 20) 0).0
    ≡ ok (
      (7 ∷ 7 ∷ []) ∷ (8 ∷ 7 ∷ []) ∷ (9 ∷ 8 ∷ []) ∷ [],
      record {
        topology = record {
          max_active_edges = 2;
          active = 8 ∷ 9 ∷ [];
          inactive = 7 ∷ [];
          pending = [];
        };
        next_change = 60;
      },
    )
unfolding rounds round send_and_sleep change start make_topology advance choice choices remove
    sample ℕ_discrete
three_rounds = refl

no_sleep :
    (rounds first same_state 20 2 sleepless (start config edges 0 20) 0).0
    ≡ err (uncaught "ValueError")
unfolding rounds round send_and_sleep change start make_topology advance choice choices remove
    sample ℕ_discrete
no_sleep = refl
