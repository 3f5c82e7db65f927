-- ===== src/Gremlin/Generated/Laws.antt =====
-- The generated tables agree with the generator and with each other.
use semconv_graph.Base.{
  String, Bool, true, ◌&&◌, some, ◌==◌, string_eq, nat_eq, triple_eq, string_dec, Result, ok, err,
  ◌≡◌, ◌≢◌, refl, ◌∙◌, arith,
}
use native.Mathlib.Decide.{ℕ_discrete}
use semconv_graph.Base.Dict.{lookup, has_key, every, lookup-every}
use semconv_graph.Codegen.Names.{python_class_name, class_name_from, lower_char, upper_char}
use semconv_graph.Codegen.Relationships.{edge_class_name}
use semconv_graph.Gremlin.Values.{Attributes}
use semconv_graph.Gremlin.Models.{EdgeModel, SemanticEdge, wrong_endpoint, semantic_edge_from_data}
use semconv_graph.Gremlin.Models.Edges.{
  IsEntityId, Registered, semantic_edge_from_data-matches, semantic_edge_from_data-IsTypedEdge,
}
use semconv_graph.Gremlin.Generated.Edges.{edge_models}
use semconv_graph.Gremlin.Generated.Entities.{entity_models}

-- What is tested of an edge class under its key.
unfoldable fits_key : String × String × String → EdgeModel → Bool
fits_key (s, r, t) m =
    m.source_entity_type == s
    && m.relationship_type == r
    && m.target_entity_type == t
    && has_key s entity_models
    && has_key t entity_models
    && m.name == edge_class_name s r t

every_edge : every fits_key edge_models ≡ true
unfolding fits_key edge_class_name python_class_name class_name_from lower_char upper_char lookup
    string_dec ℕ_discrete
every_edge = refl

-- An edge class of the package under a key of its table.
pub record IsGeneratedEdge (s r t : String) (m : EdgeModel) : Type 0 where
  pub same_source : m.source_entity_type ≡ s
  pub same_type : m.relationship_type ≡ r
  pub same_target : m.target_entity_type ≡ t
  pub source_class : has_key s entity_models ≡ true
  pub target_class : has_key t entity_models ≡ true
  pub named : m.name ≡ edge_class_name s r t

-- Every class of `EDGE_MODELS` stands under its own source, relationship and target, has the name that the
-- generator gives to these, and its ends are of types that `ENTITY_MODELS` has.
pub edge_models-IsGeneratedEdge :
    (s r t : String) (m : EdgeModel)
    → lookup (s, r, t) edge_models ≡ some m
    → IsGeneratedEdge s r t m
unfolding fits_key
edge_models-IsGeneratedEdge s r t m found =
    let fits = lookup-every fits_key edge_models (s, r, t) m every_edge found in
    record {
      same_source = ground arith;
      same_type = ground arith;
      same_target = ground arith;
      source_class = ground arith;
      target_class = ground arith;
      named = ground arith;
    }

module _ (validate_fields : SemanticEdge → Result String (Unit {0})) where
  edge_models-Registered : Registered (λ s r t. lookup (s, r, t) edge_models) validate_fields
  unfolding Registered
  edge_models-Registered s r t m found =
      let h = edge_models-IsGeneratedEdge s r t m found in (h.same_source, h.same_target)

  -- With the classes of the package no data are refused for the type of an end: once a class was found,
  -- the checks of the two ends pass.
  pub generated_matches :
      (relationship_type element_id source_id target_id : String) (attributes : Attributes)
      (expected given : String)
      → semantic_edge_from_data
          (λ s r t. lookup (s, r, t) edge_models)
          validate_fields
          relationship_type
          element_id
          source_id
          target_id
          attributes
        ≢ err (wrong_endpoint expected given)
  generated_matches =
      semantic_edge_from_data-matches (λ s r t. lookup (s, r, t) edge_models) validate_fields
        edge_models-Registered

  -- Every edge of a class of the package, with valid fields and ends of the types of the class, is rebuilt by
  -- `semantic_edge_from_data` from its relationship, identifiers and attributes.
  pub semantic_edge_from_data_rebuilds :
      (s r t : String) (edge : SemanticEdge)
      → lookup (s, r, t) edge_models ≡ some edge.model
      → IsEntityId edge.model.source_entity_type edge.source_id
      → IsEntityId edge.model.target_entity_type edge.target_id
      → validate_fields edge ≡ ok tt
      → semantic_edge_from_data
          (λ s r t. lookup (s, r, t) edge_models)
          validate_fields
          edge.model.relationship_type
          edge.element_id
          edge.source_id
          edge.target_id
          edge.attributes
        ≡ ok edge
  semantic_edge_from_data_rebuilds s r t edge found source target valid =
      let h = edge_models-IsGeneratedEdge s r t edge.model found in
      let same : lookup
            (
              edge.model.source_entity_type, edge.model.relationship_type,
              edge.model.target_entity_type,
            )
            edge_models
          ≡ lookup (s, r, t) edge_models =
        λ i. lookup (h.same_source i, h.same_type i, h.same_target i) edge_models in
      (semantic_edge_from_data-IsTypedEdge (λ s r t. lookup (s, r, t) edge_models) validate_fields
          edge.model.relationship_type edge.element_id edge.source_id edge.target_id edge.attributes
          edge).1
        record {
          same_id = refl;
          same_source = refl;
          same_target = refl;
          same_attributes = refl;
          from_source = source;
          to_target = target;
          registered = same ∙ found;
          valid = valid;
        }
