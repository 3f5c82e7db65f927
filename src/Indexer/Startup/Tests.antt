-- ===== src/Indexer/Startup/Tests.antt =====
-- Waits for a database in memory that answers from the third tick on.
use semconv_graph.Base.{
  ℕ, suc, ◌+◌, String, true, some, List, [], ◌∷◌, Result, ok, err, ltb, contains, false, ◌==◌,
  string_eq, string_dec, if◌then◌else◌, ◌≡◌, refl, arith,
}
use semconv_graph.Base.Actions.{Action}
use semconv_graph.Indexer.Database.{
  TopologyFailure, timed_out, no_such_database, client_error, Database,
}
use semconv_graph.Indexer.Database.Memory.{Memory, memory, empty, contents}
use semconv_graph.Indexer.Database.Memory.Laws.{memory-IsDocumented}
use semconv_graph.Indexer.Initialize.{Outcome}
use semconv_graph.Indexer.Initialize.Tests.{schema, normalized, normalized_lem}
use semconv_graph.Indexer.Initialize.Topology.{IsPrepared}
use semconv_graph.Indexer.Startup.Whole.{initialize-IsPrepared}
use semconv_graph.Indexer.Startup.{
  initialize, Clock, System, poll_version, wait_for_database, create_database,
}
use semconv_graph.Indexer.Startup.Waiting.{IsMonotonic, Ends, ticks, wait_for_database-Ends}

abbrev refused : {A : Type 0} → Action TopologyFailure ℕ A
refused t = (err (client_error "refused"), t)

abbrev late : Database
late = record {
  State = ℕ;
  version = λ t. (if ltb t 3 then err (client_error "refused") else ok "3.12", suc t);
  has_collection = λ c. refused;
  create_collection = λ c edge. refused;
  collection_type = λ c. refused;
  indexes = λ c. refused;
  add_persistent_index = λ c i. refused;
  has_document = λ c k. refused;
  insert_document = λ c fields. refused;
  has_graph = λ g. refused;
  create_graph = λ g ds orphans. refused;
  edge_definitions = λ g. refused;
  create_edge_definition = λ g d. refused;
}

abbrev clock : Clock ℕ
clock = record {
  monotonic = λ t. (t, t);
  sleep = λ n t. t + n;
  second = 2;
  is_retried = λ e. e == "refused";
}

waits : wait_for_database late clock 5 8 0 ≡ some (ok "3.12", 4)
unfolding wait_for_database poll_version string_dec
waits = refl

waits_in_vain : wait_for_database late clock 5 2 0 ≡ some (err timed_out, 2)
unfolding wait_for_database poll_version string_dec
waits_in_vain = refl

clock-IsMonotonic : IsMonotonic late clock
clock-IsMonotonic = record {
  time = λ t. t;
  read = λ t. (omega arith, refl);
  version_takes = λ t. omega arith;
  sleeps = λ n t. omega arith;
}

abbrev system : System
system = record {
  State = List String;
  has_database = λ name names. (ok (contains names name), names);
  create_database = λ name names. (ok tt, name ∷ names);
}

creation_disabled :
    create_database system false "servicegraph" ("_system" ∷ [])
    ≡ (err no_such_database, "_system" ∷ [])
unfolding create_database string_dec
creation_disabled = refl

created_once :
    (create_database system true "servicegraph" ("_system" ∷ [])).1
    ≡ "servicegraph" ∷ "_system" ∷ []
unfolding create_database string_dec
created_once = refl

wait_for_database-Ends_example :
    Ends late clock clock-IsMonotonic 8 (wait_for_database late clock 5 8 0)
unfolding ticks
wait_for_database-Ends_example =
    wait_for_database-Ends late clock clock-IsMonotonic 4 8 0 (omega arith)

abbrev memory_clock : Clock Memory
memory_clock = record {
  monotonic = λ s. (s.now, s);
  sleep = λ n s. record s { now = s.now + n };
  second = 2;
  is_retried = λ e. e == "refused";
}

memory_clock-IsMonotonic : IsMonotonic memory memory_clock
memory_clock-IsMonotonic = record {
  time = λ s. s.now;
  read = λ s. (omega arith, refl);
  version_takes = λ s. omega arith;
  sleeps = λ n s. omega arith;
}

initialize-IsPrepared_example :
    (r : Result TopologyFailure Outcome) × (t : Memory) × (initialize memory memory_clock 5 8 ""
        schema empty
      ≡ some (r, t))
    × ((o : Outcome) → r ≡ ok o → IsPrepared schema "g" normalized (contents t))
unfolding ticks memory-IsDocumented string_dec
initialize-IsPrepared_example =
    initialize-IsPrepared memory memory_clock memory-IsDocumented memory_clock-IsMonotonic 4 8 ""
      schema empty normalized (omega arith) normalized_lem
