-- ===== src/Indexer/Initialize/Again.antt =====
-- `ensure_topology` on a database that is prepared already.
use semconv_graph.Base.{
  String, Bool, true, false, none, some, [], ◌∷◌, ◌==◌, string_eq, nat_eq, ok, ◌≡◌, refl, sym, ap,
  ◌∙◌, arith, Bool-cases, inl, inr,
}
use semconv_graph.Base.Sorting.{same_texts_refl}
use semconv_graph.Base.Actions.{>>=-Answers, pure-Answers}
use semconv_graph.Base.Dict.{Dict, lookup, keys, has_key, NodupKeys}
use semconv_graph.Indexer.Schema.{GraphSchema}
use semconv_graph.Indexer.Database.{EdgeDefinition, Database, definitions_onto, as_definitions}
use semconv_graph.Indexer.Database.Documented.{IsDocumented, is_given}
use semconv_graph.Indexer.Initialize.{
  same_definition, unchanged, unexpected, desired_definitions, ensure_all, ensure_collections,
  ensure_definition, ensure_definitions, ensure_graph, ensure_topology,
}
use semconv_graph.Indexer.Initialize.Graph.{HasGraph, definitions_onto-AllNormal}
use semconv_graph.Indexer.Initialize.Topology.{IsPrepared}
use semconv_graph.Indexer.Initialize.Idle.{
  IsReadable, Leaves, Idle, read-Idle, Idle-then, ensure_collections-Idle,
}

same_definition_refl : (d : EdgeDefinition) → same_definition d d ≡ true
same_definition_refl d =
    ground
      (arith, same_texts_refl d.from_vertex_collections, same_texts_refl d.to_vertex_collections)

-- Every definition that exists is desired, if the two dicts give the same.
unexpected-nil :
    (desired existing : Dict String EdgeDefinition)
    → ((n : String) → has_key n existing ≡ true → has_key n desired ≡ true)
    → unexpected desired (keys existing) ≡ []
unfolding keys lookup
unexpected-nil desired [] h = refl
unexpected-nil desired ((k, m) ∷ existing) h =
    let wanted : has_key k desired ≡ true = h k (ground arith) in
    rw wanted (unexpected-nil desired existing (λ n there. h n (ground arith)))

found-later :
    (name n : String) (m w : EdgeDefinition) (d : Dict String EdgeDefinition)
    → lookup name d ≡ none
    → lookup n d ≡ some w
    → lookup n ((name, m) ∷ d) ≡ some w
unfolding lookup
found-later name n m w d fresh found = elim (Bool-cases (n == name)) [
  | inl same ↦
      let eq : n ≡ name = ground arith in
      let gone : lookup n d ≡ none = rw eq fresh in absurd (ground arith)
  | inr differ ↦ rw differ found
]

module _ (D : Database) (L : IsDocumented D) (R : IsReadable D) where
  ensure_each-Idle :
      (graph_name : String) (existing d : Dict String EdgeDefinition) (changed : Bool) (s : D.State)
      → NodupKeys d
      → ((n : String) (m : EdgeDefinition) → lookup n d ≡ some m → lookup n existing ≡ some m)
      → Idle D L R (ensure_all D (ensure_definition D graph_name existing) d changed) changed s
  unfolding ensure_all ensure_definition lookup
  ensure_each-Idle graph_name existing [] changed s once same =
      pure-Answers changed s (Leaves D L R s changed) (refl, refl)
  ensure_each-Idle graph_name existing ((name, m) ∷ d) changed s (fresh, once) same =
      let there : lookup name existing ≡ some m = same name m (ground arith) in
      Idle-then D L R (ensure_definition D graph_name existing (name, m)) _ s false changed
        (rw (ensure_definition, there, same_definition_refl m)
          (pure-Answers false s (Leaves D L R s false) (refl, refl)))
        λ t kept.
          ensure_each-Idle graph_name existing d changed t once
            (λ n w found. same n w (found-later name n m w d fresh found))

  ensure_definitions-Idle :
      (graph_name : String) (existing d : Dict String EdgeDefinition) (s : D.State)
      → NodupKeys d
      → ((n : String) → lookup n existing ≡ lookup n d)
      → Idle D L R (ensure_definitions D graph_name existing d false) unchanged s
  unfolding ensure_definitions
  ensure_definitions-Idle graph_name existing d s once same =
      let covered : unexpected d (keys existing) ≡ [] =
        unexpected-nil d existing (λ n there. rw (has_key, same n) at there) in
      rw (ensure_definitions, covered)
        (Idle-then D L R (ensure_all D (ensure_definition D graph_name existing) d false) _ s false
          unchanged
          (ensure_each-Idle graph_name existing d false s once (λ n m found. same n ∙ found))
          λ t kept. pure-Answers unchanged t (Leaves D L R t unchanged) (refl, refl))

  ensure_graph-Idle :
      (schema : GraphSchema) (graph_name : String) (d : Dict String EdgeDefinition) (s : D.State)
      → definitions_onto [] (as_definitions (desired_definitions schema.edge_collections)) ≡ ok d
      → HasGraph graph_name (λ n. lookup n d) (L.view s)
      → Idle D L R (ensure_graph D schema graph_name false) unchanged s
  unfolding ensure_graph
  ensure_graph-Idle schema graph_name d s desired (f, has, gives) =
      let (items, given) = R.edge_definitions_returns graph_name s in
      let (says, same) = L.edge_definitions_lem graph_name s items given in
      let (existing, read, reads) = says f has in
      let (normal, once) =
        definitions_onto-AllNormal (desired_definitions schema.edge_collections) [] tt tt desired in
      >>=-Answers (D.edge_definitions graph_name) _ s (λ is t. (is ≡ items) × (L.view t ≡ L.view s))
        (Leaves D L R s unchanged) (items, given, (refl, same))
        λ is (which, same').
          rw (which, read, desired, sym same')
            (ensure_definitions-Idle graph_name existing d (D.edge_definitions graph_name s).1 once
              (λ n. reads n ∙ gives n))

  -- On a database that is prepared and whose reads return, the initialization returns `unchanged` and leaves
  -- the contents. The definitions of the schema are assumed to have names.
  pub ensure_topology-Idle :
      (schema : GraphSchema) (graph_name : String) (d : Dict String EdgeDefinition) (s : D.State)
      → definitions_onto [] (as_definitions (desired_definitions schema.edge_collections)) ≡ ok d
      → IsPrepared schema graph_name d (L.view s)
      → ((ensure_topology D schema graph_name s).0 ≡ ok unchanged)
        × (L.view (ensure_topology D schema graph_name s).1 ≡ L.view s)
  unfolding ensure_topology
  ensure_topology-Idle schema graph_name d s desired h =
      let (g, has, gives) = h.graph in
      let (o, returned, (is, same)) =
        Idle-then D L R (ensure_collections D schema graph_name) _ s false unchanged
          (ensure_collections-Idle D L R schema graph_name s h.collections)
          λ t same.
            Idle-then D L R (D.has_graph graph_name) _ t true unchanged
              (read-Idle D L R (D.has_graph graph_name) t _ true (R.has_graph_returns graph_name t)
                (L.has_graph_lem graph_name t)
                (ap (λ v. is_given (v.graph graph_name)) same ∙ ap is_given has))
              λ u same'.
                ensure_graph-Idle schema graph_name d u desired
                  (rw (sym same, sym same') at h.graph) in
      (returned ∙ ap ok is, same)
