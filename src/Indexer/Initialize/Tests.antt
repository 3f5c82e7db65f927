-- ===== src/Indexer/Initialize/Tests.antt =====
-- The initialization of an empty database in memory.
use semconv_graph.Base.{
  String, true, false, [], ◌∷◌, string_eq, nat_eq, string_dec, ok, err, ◌≡◌, refl,
}
use semconv_graph.Base.Dict.{Dict, lookup, insert}
use semconv_graph.Base.Sorting.{same_texts, sorted, insert_sorted, text_leb}
use native.Mathlib.Decide.{ℕ_discrete}
use semconv_graph.Indexer.Schema.{GraphSchema}
use semconv_graph.Indexer.Database.{
  EdgeDefinition, definition_name, normalize_definition, definitions_onto, as_definition,
  as_definitions, find_index, last_part, after_slash, incompatible_index,
}
use semconv_graph.Indexer.Database.Documented.{GrowsAround}
use semconv_graph.Indexer.Database.Memory.{memory, empty, contents, Memory}
use semconv_graph.Indexer.Initialize.{
  created, unchanged, make_index, edge_definition, desired_definitions, ensure_all,
  ensure_collection, ensure_index, ensure_indexes, ensure_vertex, ensure_edge,
  ensure_tinkerpop_variables, ensure_collections, ensure_topology,
}
use semconv_graph.Indexer.Database.Memory.Laws.{memory-IsDocumented}
use semconv_graph.Indexer.Initialize.Topology.{IsPrepared, ensure_topology-IsPrepared}
use semconv_graph.Indexer.Initialize.Idle.{IsReadable}
use semconv_graph.Indexer.Initialize.Again.{ensure_topology-Idle}

abbrev pub schema : GraphSchema
schema = record {
  metadata = record { schema_version = "1"; upstream_registry_lock_sha256 = ""; schema_hash = "" };
  graph_name = "g";
  vertex_collections =
      record {
        semantic_type = "service";
        collection = "service";
        identifying_properties =
            record { attribute = "service.name"; property = "service_name" } ∷ [];
      }
      ∷ record { semantic_type = "host"; collection = "host"; identifying_properties = [] }
      ∷ [];
  edge_collections =
      record {
        semantic_type = "runs_on";
        collection = "runs_on";
        from_collections = "service" ∷ [];
        to_collections = "service" ∷ "host" ∷ [];
      }
      ∷ [];
  property_aliases = [];
  reserved_properties = [];
}

abbrev pub normalized : Dict String EdgeDefinition
normalized =
    (
      "runs_on",
      record {
        edge_collection = "runs_on";
        from_vertex_collections = "service" ∷ [];
        to_vertex_collections = "host" ∷ "service" ∷ [];
      },
    )
    ∷ []

pub normalized_lem :
    definitions_onto [] (as_definitions (desired_definitions schema.edge_collections))
    ≡ ok normalized
unfolding definitions_onto definition_name normalize_definition as_definition desired_definitions
    edge_definition sorted insert_sorted text_leb insert string_dec ℕ_discrete
normalized_lem = refl

first_run : (ensure_topology memory schema "g" empty).0 ≡ ok created
unfolding ensure_topology ensure_collections ensure_tinkerpop_variables ensure_collection
    ensure_index ensure_indexes ensure_vertex ensure_edge ensure_all find_index last_part
    after_slash lookup string_dec definitions_onto ℕ_discrete
first_run = refl

-- An index of the name with another field is refused.
incompatible :
    (ensure_index memory "host"
      (make_index "sg_element_id" "element_id" true false)
      (record empty { index_lists = λ c. make_index "sg_element_id" "other" true false ∷ [] })).0
    ≡ err (incompatible_index "sg_element_id")
unfolding ensure_index find_index last_part after_slash same_texts string_dec ℕ_discrete
incompatible = refl

memory-IsReadable : IsReadable memory
memory-IsReadable = record {
  has_collection_returns = λ c s. (_, refl);
  collection_type_returns = λ c s. (_, refl);
  indexes_returns = λ c s. (_, refl);
  has_document_returns = λ c k s. (_, refl);
  has_graph_returns = λ g s. (_, refl);
  edge_definitions_returns = λ g s. (_, refl);
}

abbrev after_first : Memory
after_first = (ensure_topology memory schema "g" empty).1

ensure_topology-IsPrepared_example :
    GrowsAround "g" (contents empty) (contents after_first)
    × IsPrepared schema "g" normalized (contents after_first)
unfolding memory-IsDocumented
ensure_topology-IsPrepared_example =
    ensure_topology-IsPrepared memory memory-IsDocumented schema "g" empty normalized normalized_lem
      created first_run

ensure_topology-Idle_example :
    ((ensure_topology memory schema "g" after_first).0 ≡ ok unchanged)
    × (contents (ensure_topology memory schema "g" after_first).1 ≡ contents after_first)
unfolding memory-IsDocumented
ensure_topology-Idle_example =
    ensure_topology-Idle memory memory-IsDocumented memory-IsReadable schema "g" normalized
      after_first normalized_lem
      (ensure_topology-IsPrepared memory memory-IsDocumented schema "g" empty normalized
        normalized_lem created first_run).1
