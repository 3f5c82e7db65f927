-- ===== src/Indexer/Initialize/Idle.antt =====
-- The calls of the initialization before the graph, on contents that have what they ask for.
use semconv_graph.Base.{
  ℕ, String, ◌<>◌, Bool, true, false, ◌||◌, Option, some, List, [], ◌∷◌, ◌==◌, string_eq, nat_eq,
  ok, ◌≡◌, refl, sym, ap, ◌∙◌, arith, All,
}
use semconv_graph.Base.Sorting.{same_texts_refl}
use semconv_graph.Base.Actions.{Action, pure, ◌>>=◌, Ensures, Answers, >>=-Answers, pure-Answers}
use semconv_graph.Indexer.Schema.{IdentifyingProperty, GraphSchema}
use semconv_graph.Indexer.Database.{TopologyFailure, Index, Definition, Database, find_index}
use semconv_graph.Indexer.Database.Documented.{
  HasDocument, Store, IsDocumented, IsIndexed, is_given,
}
use semconv_graph.Indexer.Initialize.{
  variables_collection, collection_number, same_bool, fits, make_index, element_index,
  identity_index, ensure_all, ensure_collection, ensure_index, ensure_indexes, ensure_vertex,
  ensure_edge, ensure_tinkerpop_variables, ensure_collections,
}
use semconv_graph.Indexer.Initialize.Prepared.{HasIndexes, HasCollection}
use semconv_graph.Indexer.Initialize.Topology.{HasCollections}

-- The calls that only read return.
pub record IsReadable (D : Database) : Type 0 where
  pub has_collection_returns :
      (c : String) (s : D.State) → (b : Bool) × ((D.has_collection c s).0 ≡ ok b)
  pub collection_type_returns :
      (c : String) (s : D.State) → (k : Option ℕ) × ((D.collection_type c s).0 ≡ ok k)
  pub indexes_returns : (c : String) (s : D.State) → (is : List Index) × ((D.indexes c s).0 ≡ ok is)
  pub has_document_returns :
      (c k : String) (s : D.State) → (b : Bool) × ((D.has_document c k s).0 ≡ ok b)
  pub has_graph_returns : (g : String) (s : D.State) → (b : Bool) × ((D.has_graph g s).0 ≡ ok b)
  pub edge_definitions_returns :
      (g : String) (s : D.State) → (ds : List Definition) × ((D.edge_definitions g s).0 ≡ ok ds)

same_bool_refl : (b : Bool) → same_bool b b ≡ true
same_bool_refl true = refl
same_bool_refl false = refl

IsIndexed-fits :
    (v : Store) (c name field : String) (unique sparse : Bool) (found : Index)
    → found.fields ≡ some (field ∷ [])
    → found.unique ≡ unique
    → found.sparse ≡ sparse
    → fits found (field ∷ []) (make_index name field unique sparse) ≡ true
IsIndexed-fits v c name field unique sparse found f u p =
    rw (u, p)
      (ground (arith, same_texts_refl (field ∷ []), same_bool_refl unique, same_bool_refl sparse))

same_nat : (n : ℕ) → (n == n) ≡ true
same_nat n = ground arith

module _ (D : Database) (L : IsDocumented D) (R : IsReadable D) where
  -- The call returns this value and leaves the contents.
  abbrev pub Leaves : {A : Type 0} → D.State → A → A → D.State → Type 0
  Leaves s a b t = (b ≡ a) × (L.view t ≡ L.view s)

  abbrev pub Idle : {A : Type 0} → Action TopologyFailure D.State A → A → D.State → Type 0
  Idle m a s = Answers m s (Leaves s a)

  pub answers :
      {A : Type 0} (m : Action TopologyFailure D.State A) (s : D.State) (Q : A → D.State → Type 0)
      → (a : A) × ((m s).0 ≡ ok a)
      → Ensures m s Q
      → Answers m s Q
  answers m s Q (a, given) law = (a, given, law a given)

  pub read-Idle :
      {A : Type 0} (m : Action TopologyFailure D.State A) (s : D.State) (a b : A)
      → (c : A) × ((m s).0 ≡ ok c)
      → Ensures m s (Leaves s a)
      → a ≡ b
      → Idle m b s
  read-Idle m s a b returns law is = rw (sym is) (answers m s (Leaves s a) returns law)

  -- A call after one that leaves the contents.
  pub Idle-then :
      {A B : Type 0} (m : Action TopologyFailure D.State A)
      (f : A → Action TopologyFailure D.State B) (s : D.State) (a : A) (b : B)
      → Idle m a s
      → ((t : D.State) → L.view t ≡ L.view s → Idle (f a) b t)
      → Idle (m >>= f) b s
  Idle-then m f s a b first rest =
      >>=-Answers m f s (Leaves s a) (Leaves s b) first λ a' (is, same).
        let (c, given, (right, same')) = rest (m s).1 same in
        rw is (c, given, (right, same' ∙ same))

  ensure_collection-Idle :
      (name : String) (edge : Bool) (s : D.State)
      → (L.view s).kind name ≡ some (collection_number edge)
      → Idle (ensure_collection D name edge) false s
  unfolding ensure_collection
  ensure_collection-Idle name edge s kind =
      Idle-then (D.has_collection name) _ s true false
        (read-Idle (D.has_collection name) s _ true (R.has_collection_returns name s)
          (L.has_collection_lem name s) (ap is_given kind))
        λ t same.
          Idle-then (D.collection_type name) _ t (some (collection_number edge)) false
            (read-Idle (D.collection_type name) t _ _ (R.collection_type_returns name t)
              (L.collection_type_lem name t) (ap (λ v. v.kind name) same ∙ kind))
            λ u same'.
              rw (same_nat (collection_number edge))
                (pure-Answers false u (Leaves u false) (refl, refl))

  ensure_index-Idle :
      (collection name field : String) (unique sparse : Bool) (s : D.State)
      → IsIndexed (L.view s) collection (make_index name field unique sparse)
      → Idle (ensure_index D collection (make_index name field unique sparse)) false s
  unfolding ensure_index
  ensure_index-Idle collection name field unique sparse s h =
      let i = make_index name field unique sparse in
      let (is, given) = R.indexes_returns collection s in
      let (says, same) = L.indexes_lem collection s is given in
      let found : find_index name is ≡ some h.found = says name ∙ h.there in
      >>=-Answers (D.indexes collection) _ s (λ is' t. (is' ≡ is) × (L.view t ≡ L.view s))
        (Leaves s false) (is, given, (refl, same))
        λ is' (which, same').
          rw
            (
              which,
              found,
              h.same_fields,
              IsIndexed-fits (L.view s) collection name field unique sparse h.found h.same_fields
                  h.same_unique h.same_sparse,
            )
            (pure-Answers false _ (Leaves s false) (refl, same'))

  ensure_all-Idle :
      {A : Type 0} (body : A → Action TopologyFailure D.State Bool) (P : A → Store → Type 0)
      → ((x : A) (t : D.State) → P x (L.view t) → Idle (body x) false t)
      → (xs : List A) (changed : Bool) (s : D.State) → All (λ x. P x (L.view s)) xs
      → Idle (ensure_all D body xs changed) changed s
  unfolding ensure_all
  ensure_all-Idle body P each [] changed s h =
      pure-Answers changed s (Leaves s changed) (refl, refl)
  ensure_all-Idle body P each (x ∷ xs) changed s (p, h) =
      Idle-then (body x) _ s false changed (each x s p)
        λ t same. ensure_all-Idle body P each xs changed t (rw (sym same) at h)

  ensure_indexes-Idle :
      (collection : String) (identifying : List IdentifyingProperty) (s : D.State)
      → HasIndexes collection identifying (L.view s)
      → Idle (ensure_indexes D collection identifying) false s
  unfolding ensure_indexes HasIndexes
  ensure_indexes-Idle collection identifying s (element, identity) =
      Idle-then (ensure_index D collection element_index) _ s false false
        (ensure_index-Idle collection "sg_element_id" "element_id" true false s element)
        λ t same.
          ensure_all-Idle _ (λ p v. IsIndexed v collection (identity_index p))
            (λ p u.
              ensure_index-Idle collection ("sg_identity_" <> p.property) p.property false true u)
            identifying false t (rw (sym same) at identity)

  ensure_both-Idle :
      (collection : String) (edge : Bool) (identifying : List IdentifyingProperty) (s : D.State)
      → HasCollection collection edge identifying (L.view s)
      → Idle
          (ensure_collection D collection edge >>= λ made.
            ensure_indexes D collection identifying >>= λ indexed. pure (indexed || made))
          false
          s
  unfolding HasCollection
  ensure_both-Idle collection edge identifying s (kind, indexes) =
      Idle-then (ensure_collection D collection edge) _ s false false
        (ensure_collection-Idle collection edge s kind)
        λ t same.
          Idle-then (ensure_indexes D collection identifying) _ t false false
            (ensure_indexes-Idle collection identifying t (rw (sym same) at indexes))
            λ u same'. pure-Answers false u (Leaves u false) (refl, refl)

  ensure_tinkerpop_variables-Idle :
      (graph_name : String) (s : D.State)
      → (L.view s).kind variables_collection ≡ some (collection_number false)
      → HasDocument (L.view s) variables_collection graph_name
      → Idle (ensure_tinkerpop_variables D graph_name) false s
  unfolding ensure_tinkerpop_variables
  ensure_tinkerpop_variables-Idle graph_name s kind document =
      Idle-then (ensure_collection D variables_collection false) _ s false false
        (ensure_collection-Idle variables_collection false s kind)
        λ t same.
          Idle-then (D.has_document variables_collection graph_name) _ t true false
            (read-Idle (D.has_document variables_collection graph_name) t _ true
              (R.has_document_returns variables_collection graph_name t)
              (L.has_document_lem variables_collection graph_name t)
              (ap (λ v. is_given (v.document variables_collection graph_name)) same ∙ document))
            λ u same'. pure-Answers false u (Leaves u false) (refl, refl)

  pub ensure_collections-Idle :
      (schema : GraphSchema) (graph_name : String) (s : D.State)
      → HasCollections schema graph_name (L.view s)
      → Idle (ensure_collections D schema graph_name) false s
  unfolding ensure_collections ensure_vertex ensure_edge
  ensure_collections-Idle schema graph_name s h =
      Idle-then (ensure_tinkerpop_variables D graph_name) _ s false false
        (ensure_tinkerpop_variables-Idle graph_name s h.variables h.document)
        λ t same.
          Idle-then (ensure_all D (ensure_vertex D) schema.vertex_collections false) _ t false false
            (ensure_all-Idle (ensure_vertex D)
              (λ x. HasCollection x.collection false x.identifying_properties)
              (λ x. ensure_both-Idle x.collection false x.identifying_properties)
              schema.vertex_collections false t (rw (sym same) at h.vertices))
            λ u same'.
              ensure_all-Idle (ensure_edge D) (λ x. HasCollection x.collection true [])
                (λ x. ensure_both-Idle x.collection true []) schema.edge_collections false u
                (rw (sym same, sym same') at h.edges)
