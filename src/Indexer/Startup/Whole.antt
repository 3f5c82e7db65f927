-- ===== src/Indexer/Startup/Whole.antt =====
-- `initialize` as a whole.
use semconv_graph.Base.{
  ℕ, suc, ◌≤◌, String, some, [], Result, ok, ◌==◌, string_eq, if◌then◌else◌, ◌≡◌, refl, sym, ap,
  ◌∙◌,
}
use semconv_graph.Base.Actions.{continue, continue-eq-ok}
use semconv_graph.Base.Dict.{Dict}
use semconv_graph.Indexer.Schema.{GraphSchema}
use semconv_graph.Indexer.Database.{
  TopologyFailure, EdgeDefinition, Database, definitions_onto, as_definitions,
}
use semconv_graph.Indexer.Database.Documented.{IsDocumented}
use semconv_graph.Indexer.Initialize.{Outcome, desired_definitions, ensure_topology}
use semconv_graph.Indexer.Initialize.Topology.{IsPrepared, ensure_topology-IsPrepared}
use semconv_graph.Indexer.Startup.{Clock, initialize}
use semconv_graph.Indexer.Startup.Waiting.{IsMonotonic, ticks, wait_for_database-Ends}

abbrev pub graph_named : String → GraphSchema → String
graph_named arango_graph schema = if arango_graph == "" then schema.graph_name else arango_graph

module _ (D : Database) (C : Clock D.State) (L : IsDocumented D) (M : IsMonotonic D C) where
  -- With enough rounds for the deadline the initialization ends, and if it returns, the database holds the
  -- topology of the schema under the name of the settings, or of the schema if that is empty.
  pub initialize-IsPrepared :
      (fuel deadline_seconds : ℕ) (arango_graph : String) (schema : GraphSchema) (s : D.State)
      (d : Dict String EdgeDefinition)
      → deadline_seconds ≤ ticks fuel C.second
      → definitions_onto [] (as_definitions (desired_definitions schema.edge_collections)) ≡ ok d
      → (r : Result TopologyFailure Outcome) × (t : D.State) × (initialize D C
            (suc fuel)
            deadline_seconds
            arango_graph
            schema
            s
          ≡ some (r, t))
        × ((o : Outcome)
            → r ≡ ok o
            → IsPrepared schema (graph_named arango_graph schema) d (L.view t))
  unfolding initialize
  initialize-IsPrepared fuel deadline_seconds arango_graph schema s d enough desired =
      let (waited, t, ends, how) = wait_for_database-Ends D C M fuel deadline_seconds s enough in
      let run = λ (v : String). ensure_topology D schema (graph_named arango_graph schema) in
      rw (initialize, ends)
        (
          (continue waited run t).0,
          (continue waited run t).1,
          refl,
          λ o given.
              let (v, answered, same) = continue-eq-ok waited run t given in
              rw same
                (ensure_topology-IsPrepared D L schema (graph_named arango_graph schema) t d desired
                  o (ap (λ r. r.0) (sym same) ∙ given)).1,
        )
