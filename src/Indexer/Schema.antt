-- ===== src/Indexer/Schema.antt =====
-- The generated graph topology
-- (services/servicegraph-indexer/src/servicegraph_indexer/schema.py).
use semconv_graph.Base.{String, List, [], ◌∷◌, string_eq}
use semconv_graph.Base.Dict.{Dict, insert}

pub record IdentifyingProperty : Type 0 where
  pub attribute : String
  pub property : String

pub record VertexCollection : Type 0 where
  pub semantic_type : String
  pub collection : String
  pub identifying_properties : List IdentifyingProperty

pub record EdgeCollection : Type 0 where
  pub semantic_type : String
  pub collection : String
  pub from_collections : List String
  pub to_collections : List String

pub record SchemaMetadata : Type 0 where
  pub schema_version : String
  pub upstream_registry_lock_sha256 : String
  pub schema_hash : String

pub record GraphSchema : Type 0 where
  pub metadata : SchemaMetadata
  pub graph_name : String
  pub vertex_collections : List VertexCollection
  pub edge_collections : List EdgeCollection
  pub property_aliases : Dict String String
  pub reserved_properties : List String

vertices_onto : Dict String VertexCollection → List VertexCollection → Dict String VertexCollection
vertices_onto d [] = d
vertices_onto d (item ∷ items) = vertices_onto (insert item.semantic_type item d) items

edges_onto : Dict String EdgeCollection → List EdgeCollection → Dict String EdgeCollection
edges_onto d [] = d
edges_onto d (item ∷ items) = edges_onto (insert item.semantic_type item d) items

unfoldable pub vertices_by_type : GraphSchema → Dict String VertexCollection
unfolding vertices_onto
vertices_by_type schema = vertices_onto [] schema.vertex_collections

unfoldable pub edges_by_type : GraphSchema → Dict String EdgeCollection
unfolding edges_onto
edges_by_type schema = edges_onto [] schema.edge_collections
