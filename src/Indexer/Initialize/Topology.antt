-- ===== src/Indexer/Initialize/Topology.antt =====
-- `ensure_topology` as a whole: what the database holds after it has returned.
use semconv_graph.Base.{
  String, Bool, true, false, Option, some, [], string_eq, nat_eq, ok, ◌≡◌, refl, sym, ap, ◌∙◌,
  arith, All, Option-cases, List-cases, inl, inr,
}
use semconv_graph.Base.Actions.{Ensures, >>=-Ensures, if-Ensures, lift_err-Ensures, pure-Ensures}
use semconv_graph.Base.Dict.{Dict, lookup, keys, NodupKeys}
use semconv_graph.Indexer.Schema.{GraphSchema}
use semconv_graph.Indexer.Database.{EdgeDefinition, Database, definitions_onto, as_definitions}
use semconv_graph.Indexer.Database.Documented.{
  Store, Grows, GrowsAround, GrowsAround-trans, GrowsBeside, GrowsBeside-GrowsAround, HasDocument,
  Grows-HasDocument, IsDocumented,
}
use semconv_graph.Indexer.Initialize.{
  variables_collection, collection_number, Outcome, created, unexpected, desired_definitions,
  orphans, ensure_all, ensure_vertex, ensure_edge, ensure_tinkerpop_variables, ensure_collections,
  ensure_definition, ensure_definitions, ensure_graph, ensure_topology,
}
use semconv_graph.Indexer.Initialize.Prepared.{
  HasCollection, Grows-HasCollection, All-stable, Adds, >>=-Adds, ensure_all-Adds, ensure_both-Adds,
  ensure_tinkerpop_variables-Adds,
}
use semconv_graph.Indexer.Initialize.Graph.{
  HasGraph, AllNormal, definitions_onto-AllNormal, ensure_definitions-Becomes, unexpected-covers,
  Becomes, over,
}

-- The collections that a schema asks for, with their types and indexes, and the document of a graph.
pub record HasCollections (schema : GraphSchema) (graph_name : String) (v : Store) : Type 0 where
  pub variables : v.kind variables_collection ≡ some (collection_number false)
  pub document : HasDocument v variables_collection graph_name
  pub vertices :
      All
        (λ x. HasCollection x.collection false x.identifying_properties v)
        schema.vertex_collections
  pub edges : All (λ x. HasCollection x.collection true [] v) schema.edge_collections

Grows-HasCollections :
    (schema : GraphSchema) (graph_name : String) (v w : Store)
    → Grows v w
    → HasCollections schema graph_name v
    → HasCollections schema graph_name w
Grows-HasCollections schema graph_name v w g h = record {
  variables = g.kinds variables_collection _ h.variables;
  document = Grows-HasDocument variables_collection graph_name g h.document;
  vertices =
      All-stable (λ x u. HasCollection x.collection false x.identifying_properties u) v w
        (λ x. Grows-HasCollection x.collection false x.identifying_properties v w g) _ h.vertices;
  edges =
      All-stable (λ x u. HasCollection x.collection true [] u) v w
        (λ x. Grows-HasCollection x.collection true [] v w g) _ h.edges;
}

-- The contents that `ensure_topology` is for, `d` being the normalized definitions of the schema by name.
pub record IsPrepared (schema : GraphSchema) (graph_name : String) (d : Dict String EdgeDefinition)
    (v : Store) : Type 0 where
  pub collections : HasCollections schema graph_name v
  pub graph : HasGraph graph_name (λ n. lookup n d) v

module _ (D : Database) (L : IsDocumented D) (schema : GraphSchema) (graph_name : String) where
  ensure_collections-Adds :
      Adds D L (ensure_collections D schema graph_name) (HasCollections schema graph_name)
  unfolding ensure_collections ensure_vertex ensure_edge
  ensure_collections-Adds s a done =
      let V = λ (v : Store).
        (v.kind variables_collection ≡ some (collection_number false))
        × (HasDocument v variables_collection graph_name) in
      let N = λ (v : Store).
        All (λ x. HasCollection x.collection false x.identifying_properties v)
          schema.vertex_collections in
      let E =
        λ (v : Store). All (λ x. HasCollection x.collection true [] v) schema.edge_collections in
      let (grows, ((variables, document), (vertices, edges))) =
        >>=-Adds D L (ensure_tinkerpop_variables D graph_name) _ V (λ v. N v × E v)
          (λ v w g (p, q). (
            g.kinds variables_collection _ p,
            Grows-HasDocument variables_collection graph_name g q,
          ))
          (ensure_tinkerpop_variables-Adds D L graph_name)
          (λ c.
            >>=-Adds D L (ensure_all D (ensure_vertex D) schema.vertex_collections c) _ N E
              (λ v w g.
                All-stable (λ x u. HasCollection x.collection false x.identifying_properties u) v w
                  (λ x. Grows-HasCollection x.collection false x.identifying_properties v w g) _)
              (ensure_all-Adds D L (ensure_vertex D)
                (λ x u. HasCollection x.collection false x.identifying_properties u)
                (λ x. Grows-HasCollection x.collection false x.identifying_properties)
                (λ x. ensure_both-Adds D L x.collection false x.identifying_properties)
                schema.vertex_collections c)
              (λ c'.
                ensure_all-Adds D L (ensure_edge D) (λ x u. HasCollection x.collection true [] u)
                  (λ x. Grows-HasCollection x.collection true [])
                  (λ x. ensure_both-Adds D L x.collection true []) schema.edge_collections c'))
          s a done in
      (
        grows,
        record { variables = variables; document = document; vertices = vertices; edges = edges },
      )

  -- The graph has the definitions of `d` and no others.
  abbrev Settled : Dict String EdgeDefinition → D.State → Outcome → D.State → Type 0
  Settled d s = Becomes D L graph_name s (λ n. lookup n d)

  over-covering :
      (d existing : Dict String EdgeDefinition) (f : String → Option EdgeDefinition) (n : String)
      → unexpected d (keys existing) ≡ []
      → lookup n existing ≡ f n
      → over d f n ≡ lookup n d
  over-covering d existing f n covered reads = elim (Option-cases (lookup n d)) [
    | inl absent ↦
        let gone = unexpected-covers d existing n covered absent in
        rw (over, absent) (sym reads ∙ gone)
    | inr (m, there) ↦ rw (over, there) refl
  ]

  ensure_definitions-Settled :
      (d existing : Dict String EdgeDefinition) (changed : Bool) (s : D.State)
      (f : String → Option EdgeDefinition)
      → AllNormal d × NodupKeys d
      → (L.view s).graph graph_name ≡ some f
      → ((n : String) → lookup n existing ≡ f n)
      → Ensures (ensure_definitions D graph_name existing d changed) s (Settled d s)
  unfolding ensure_definitions
  ensure_definitions-Settled d existing changed s f (normal, once) has reads =
      elim (List-cases (unexpected d (keys existing))) [
        | inl covered ↦
            rw (ensure_definitions, covered)
              (>>=-Ensures (ensure_all D (ensure_definition D graph_name existing) d changed) _ s
                (Settled d s)
                λ changed' done.
                  let (grows, (g, is, same)) =
                    ensure_definitions-Becomes D L graph_name existing d changed s f normal once
                      (f, has, λ n. refl) (λ n m given. sym (reads n)) changed' done in
                  pure-Ensures _ _ (Settled d s)
                    (grows, (g, is, λ n. same n ∙ over-covering d existing f n covered (reads n))))
        | inr (name, names, surplus) ↦
            rw (ensure_definitions, surplus) (lift_err-Ensures _ s (Settled d s))
      ]

  ensure_graph-Settled :
      (changed : Bool) (s : D.State) (f : String → Option EdgeDefinition)
      (d : Dict String EdgeDefinition)
      → (L.view s).graph graph_name ≡ some f
      → definitions_onto [] (as_definitions (desired_definitions schema.edge_collections)) ≡ ok d
      → Ensures (ensure_graph D schema graph_name changed) s (Settled d s)
  unfolding ensure_graph
  ensure_graph-Settled changed s f d has desired =
      >>=-Ensures (D.edge_definitions graph_name) _ s (Settled d s) λ items asked.
        let t = (D.edge_definitions graph_name s).1 in
        let (says, same) = L.edge_definitions_lem graph_name s items asked in
        let (existing, read, reads) = says f has in
        let has' : (L.view t).graph graph_name ≡ some f = ap (λ v. v.graph graph_name) same ∙ has in
        rw (read, desired)
          (rw same at (
            ensure_definitions-Settled d existing changed t f
              (definitions_onto-AllNormal (desired_definitions schema.edge_collections) [] tt tt
                desired)
              has' reads))

  Settled-IsPrepared :
      (s t u : D.State) (d : Dict String EdgeDefinition) (o : Outcome) (w : D.State)
      → GrowsBeside (L.view s) (L.view t)
      → HasCollections schema graph_name (L.view t)
      → L.view u ≡ L.view t
      → Settled d u o w
      → GrowsAround graph_name (L.view s) (L.view w) × IsPrepared schema graph_name d (L.view w)
  Settled-IsPrepared s t u d o w grows collections same (kept, graph) =
      let kept' : GrowsAround graph_name (L.view t) (L.view w) = rw (sym same) kept in
      (
        GrowsAround-trans (GrowsBeside-GrowsAround graph_name grows) kept',
        record {
          collections =
              Grows-HasCollections schema graph_name (L.view t) (L.view w) kept'.grows collections;
          graph = graph;
        },
      )

  -- If the initialization returns, every collection of the database still has its type, and every index and
  -- document is as it was, no graph but the one of the given name is touched, every collection, index and document
  -- of the schema is there, and the graph has the normalized definitions of the schema by name and no others. The
  -- definitions of the schema are assumed to have names.
  pub ensure_topology-IsPrepared :
      (s : D.State) (d : Dict String EdgeDefinition)
      → definitions_onto [] (as_definitions (desired_definitions schema.edge_collections)) ≡ ok d
      → Ensures (ensure_topology D schema graph_name) s (λ _ t.
        GrowsAround graph_name (L.view s) (L.view t) × IsPrepared schema graph_name d (L.view t))
  unfolding ensure_topology
  ensure_topology-IsPrepared s d desired =
      let Q = λ (o : Outcome) (t : D.State).
        GrowsAround graph_name (L.view s) (L.view t) × IsPrepared schema graph_name d (L.view t) in
      >>=-Ensures (ensure_collections D schema graph_name) _ s Q λ changed done.
        let t = (ensure_collections D schema graph_name s).1 in
        let (grows, collections) = ensure_collections-Adds s changed done in
        >>=-Ensures (D.has_graph graph_name) _ t Q λ there asked.
          let u = (D.has_graph graph_name t).1 in
          let (says, same) = L.has_graph_lem graph_name t there asked in
          if-Ensures there _ _ u Q
            (λ old. elim (Option-cases ((L.view t).graph graph_name)) [
              | inl absent ↦ absurd (ground arith)
              | inr (f, has) ↦ λ o made. Settled-IsPrepared s t u d o _ grows collections same (
                  ensure_graph-Settled changed u f d (ap (λ v. v.graph graph_name) same ∙ has)
                    desired o made)
            ])
            (λ new.
              >>=-Ensures
                (D.create_graph graph_name (desired_definitions schema.edge_collections)
                  (orphans schema))
                _ u Q
                λ a made.
                  let (kept, given) =
                    L.create_graph_lem graph_name (desired_definitions schema.edge_collections)
                      (orphans schema) u d desired a made in
                  pure-Ensures created _ Q (
                    Settled-IsPrepared s t u d created _ grows collections same
                      (kept, ((λ n. lookup n d), given, λ n. refl))))
