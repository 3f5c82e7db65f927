-- ===== src/Indexer/Initialize.antt =====
-- `ensure_topology` of initialize.py and what it calls.
pub mod Prepared
pub mod Graph
pub mod Topology
pub mod Idle
pub mod Again
pub mod Tests
use Prim.Native.String
use semconv_graph.Base.{
  ℕ, String, ◌<>◌, Bool, true, false, not, ◌||◌, ◌&&◌, Option, none, some, List, [], ◌∷◌, ◌++◌,
  ◌==◌, string_eq, nat_eq, if◌then◌else◌, Result, ok, err, contains,
}
use semconv_graph.Base.Actions.{Action, pure, lift, ◌>>=◌, ◌>>◌, continue, for_each}
use semconv_graph.Base.Dict.{Dict, lookup, insert, keys, has_key}
use semconv_graph.Base.Sorting.{same_texts, sorted, distinct}
use semconv_graph.Indexer.Schema.{
  IdentifyingProperty, VertexCollection, EdgeCollection, GraphSchema,
}
use semconv_graph.Indexer.Database.{
  TopologyFailure, not_a_document_collection, not_an_edge_collection, invalid_index_fields,
  incompatible_index, unexpected_definitions, definition_mismatch, Index, Definition,
  EdgeDefinition, Database, definitions_onto, as_definitions, find_index,
}

-- `TINKERPOP_VARIABLES_COLLECTION`
abbrev pub variables_collection : String
variables_collection = "TINKERPOP-GRAPH-VARIABLES"

-- `TINKERPOP_PROVIDER_VERSION`
abbrev pub provider_version : String
provider_version = "4.0.0"

-- `DOCUMENT_COLLECTION_TYPE` and `EDGE_COLLECTION_TYPE`
abbrev pub collection_number : Bool → ℕ
collection_number edge = if edge then 3 else 2

abbrev pub same_type : Option ℕ → ℕ → Bool
same_type none expected = false
same_type (some actual) expected = actual == expected

abbrev pub same_bool : Bool → Bool → Bool
same_bool true b = b
same_bool false b = not b

-- `actual == expected`, for an index with its fields.
abbrev pub fits : Index → List String → Index → Bool
fits found fields expected =
    elim expected.fields [ none ↦ false | some wanted ↦ same_texts fields wanted ]
    && same_bool found.unique expected.unique
    && same_bool found.sparse expected.sparse

-- An index as it is asked for.
abbrev pub make_index : String → String → Bool → Bool → Index
make_index name field unique sparse = record {
  name = name;
  fields = some (field ∷ []);
  unique = unique;
  sparse = sparse;
}

abbrev pub element_index : Index
element_index = make_index "sg_element_id" "element_id" true false

abbrev pub identity_index : IdentifyingProperty → Index
identity_index p = make_index ("sg_identity_" <> p.property) p.property false true

module _ (D : Database) where
  -- A loop whose rounds tell whether they changed something.
  unfoldable pub ensure_all :
      {A : Type 0}
      → (A → Action TopologyFailure D.State Bool)
      → List A
      → Bool
      → Action TopologyFailure D.State Bool
  ensure_all body [] changed = pure changed
  ensure_all body (x ∷ xs) changed = do c ← body x; ensure_all body xs (c || changed)

  -- `_ensure_collection`
  unfoldable pub ensure_collection : String → Bool → Action TopologyFailure D.State Bool
  ensure_collection name edge = do
    there ← D.has_collection name
    if there
        then (do
          actual ← D.collection_type name
          if same_type actual (collection_number edge)
              then pure false
              else lift (
                  err
                    (if edge then not_an_edge_collection name else not_a_document_collection name)))
        else (do D.create_collection name edge; pure true)

  -- `_ensure_index`
  unfoldable pub ensure_index : String → Index → Action TopologyFailure D.State Bool
  ensure_index collection expected = do
    indexes ← D.indexes collection
    elim (find_index expected.name indexes) [
      | none ↦ (do D.add_persistent_index collection expected; pure true)
      | some found ↦ elim found.fields [
        | none ↦ lift (err (invalid_index_fields expected.name))
        | some fields ↦
            if fits found fields expected
            then pure false
            else lift (err (incompatible_index expected.name))
      ]
    ]

  -- `_ensure_indexes`, for a vertex collection; an edge collection has no identifying property.
  unfoldable pub ensure_indexes :
      String → List IdentifyingProperty → Action TopologyFailure D.State Bool
  ensure_indexes collection identifying = do
    changed ← ensure_index collection element_index
    ensure_all (λ p. ensure_index collection (identity_index p)) identifying changed

  -- `_ensure_tinkerpop_variables`
  unfoldable pub ensure_tinkerpop_variables : String → Action TopologyFailure D.State Bool
  ensure_tinkerpop_variables graph_name = do
    changed ← ensure_collection variables_collection false
    there ← D.has_document variables_collection graph_name
    if there then pure changed else (do
      D.insert_document variables_collection
          (("_key", graph_name) ∷ ("_version", provider_version) ∷ [])
      pure true)

  -- The rounds of the first two loops of `ensure_topology`.
  unfoldable pub ensure_vertex : VertexCollection → Action TopologyFailure D.State Bool
  ensure_vertex vertex = do
    created ← ensure_collection vertex.collection false
    indexed ← ensure_indexes vertex.collection vertex.identifying_properties
    pure (indexed || created)

  unfoldable pub ensure_edge : EdgeCollection → Action TopologyFailure D.State Bool
  ensure_edge edge = do
    created ← ensure_collection edge.collection true
    indexed ← ensure_indexes edge.collection []
    pure (indexed || created)

-- `_edge_definition`
unfoldable pub edge_definition : EdgeCollection → EdgeDefinition
edge_definition edge = record {
  edge_collection = edge.collection;
  from_vertex_collections = edge.from_collections;
  to_vertex_collections = edge.to_collections;
}

unfoldable pub desired_definitions : List EdgeCollection → List EdgeDefinition
desired_definitions [] = []
desired_definitions (edge ∷ edges) = edge_definition edge ∷ desired_definitions edges

-- The collections at the ends of the definitions.
unfoldable pub covered_vertices : List EdgeDefinition → List String
covered_vertices [] = []
covered_vertices (d ∷ ds) =
    d.from_vertex_collections ++ (d.to_vertex_collections ++ covered_vertices ds)

abbrev pub without : List String → List String → List String
without covered [] = []
without covered (c ∷ cs) =
    let rest = without covered cs in if contains covered c then rest else c ∷ rest

abbrev pub vertex_names : List VertexCollection → List String
vertex_names [] = []
vertex_names (v ∷ vs) = v.collection ∷ vertex_names vs

unfoldable pub orphans : GraphSchema → List String
orphans schema = sorted (
    without (covered_vertices (desired_definitions schema.edge_collections))
      (distinct (vertex_names schema.vertex_collections)))

abbrev pub same_definition : EdgeDefinition → EdgeDefinition → Bool
same_definition d d' =
    d.edge_collection == d'.edge_collection
    && same_texts d.from_vertex_collections d'.from_vertex_collections
    && same_texts d.to_vertex_collections d'.to_vertex_collections

-- `set(existing) - set(desired)`, from the keys of `existing`.
abbrev pub unexpected : Dict String EdgeDefinition → List String → List String
unexpected desired [] = []
unexpected desired (name ∷ names) =
    let rest = unexpected desired names in if has_key name desired then rest else name ∷ rest

module _ (D : Database) (graph_name : String) (existing : Dict String EdgeDefinition) where
  -- One round of the loop over `desired.items()`.
  unfoldable pub ensure_definition : String × EdgeDefinition → Action TopologyFailure D.State Bool
  ensure_definition (name, definition) = elim (lookup name existing) [
    | none ↦ (do
      D.create_edge_definition graph_name (record definition { edge_collection = name })
      pure true)
    | some current ↦
        if same_definition current definition
        then pure false
        else lift (err (definition_mismatch name))
  ]

-- `"updated" if changed else "unchanged"`, and "created".
pub data Outcome : Type 0 where
  created updated unchanged : Outcome

module _ (D : Database) where
  -- What follows the reading of the two dicts of definitions.
  unfoldable pub ensure_definitions :
      String
      → Dict String EdgeDefinition
      → Dict String EdgeDefinition
      → Bool
      → Action TopologyFailure D.State Outcome
  ensure_definitions graph_name existing desired changed =
      elim (unexpected desired (keys existing)) [
        | name ∷ names ↦ lift (err (unexpected_definitions (sorted (name ∷ names))))
        | [] ↦ (do
          changed' ← ensure_all D (ensure_definition D graph_name existing) desired changed
          pure (if changed' then updated else unchanged))
      ]

  -- The part of `ensure_topology` for a graph that exists.
  unfoldable pub ensure_graph : GraphSchema → String → Bool → Action TopologyFailure D.State Outcome
  ensure_graph schema graph_name changed = do
    items ← D.edge_definitions graph_name
    existing ← lift (definitions_onto [] items)
    desired ←
        lift (definitions_onto [] (as_definitions (desired_definitions schema.edge_collections)))
    ensure_definitions graph_name existing desired changed

  -- The part of `ensure_topology` before the graph.
  unfoldable pub ensure_collections : GraphSchema → String → Action TopologyFailure D.State Bool
  ensure_collections schema graph_name = do
    variables ← ensure_tinkerpop_variables D graph_name
    vertices ← ensure_all D (ensure_vertex D) schema.vertex_collections variables
    ensure_all D (ensure_edge D) schema.edge_collections vertices

  unfoldable pub ensure_topology : GraphSchema → String → Action TopologyFailure D.State Outcome
  ensure_topology schema graph_name = do
    changed ← ensure_collections schema graph_name
    there ← D.has_graph graph_name
    if there then ensure_graph schema graph_name changed else (do
      D.create_graph graph_name (desired_definitions schema.edge_collections) (orphans schema)
      pure created)
