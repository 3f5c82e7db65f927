-- ===== src/Gremlin/Models/Edges.antt =====
-- The edges that `semantic_edge_from_data` gives.

use semconv_graph.Base.{
  String, Option, some, string_eq, nat_eq, Result, ok, err, ◌≡◌, ◌≢◌, sym, ap, ◌∙◌, arith,
  Result-cases, Option-cases, inl, inr, ◌↔◌,
}
use semconv_graph.Base.Text.{partition}
use semconv_graph.Gremlin.Values.{Attributes}
use semconv_graph.Gremlin.Models.{
  ModelError, wrong_endpoint, invalid_entity_id, entity_type_from_id, EdgeModel, SemanticEdge,
  validate_endpoint_types, semantic_edge_from_data,
}

-- An identifier names a type before its first colon, and something after it.
pub record IsEntityId (entity_type element_id : String) : Type 0 where
  pub identity : String
  pub split : partition 58 element_id ≡ some (entity_type, identity)
  pub typed : entity_type ≢ ""
  pub identified : identity ≢ ""

entity_type_from_id-IsEntityId :
    (element_id entity_type : String)
    → entity_type_from_id element_id ≡ ok entity_type
    → IsEntityId entity_type element_id
unfolding entity_type_from_id
entity_type_from_id-IsEntityId element_id entity_type h =
    elim (Option-cases (partition 58 element_id)) [
      | inl absent ↦ absurd (ground arith)
      | inr ((before, after), found) ↦
          let same : before ≡ entity_type = ground arith in
          record {
            identity = after;
            split = found ∙ ap (λ t. some (t, after)) same;
            typed = ground arith;
            identified = ground arith;
          }
    ]

entity_type_from_id-eq-err :
    (element_id : String) {e : ModelError}
    → entity_type_from_id element_id ≡ err e
    → e ≡ invalid_entity_id element_id
unfolding entity_type_from_id
entity_type_from_id-eq-err element_id h = ground arith

IsEntityId-entity_type_from_id :
    {element_id entity_type : String}
    → IsEntityId entity_type element_id
    → entity_type_from_id element_id ≡ ok entity_type
unfolding entity_type_from_id
IsEntityId-entity_type_from_id h =
    let split = h.split in let typed = h.typed in let identified = h.identified in ground arith

module _ (edge_models : String → String → String → Option EdgeModel)
    (validate_fields : SemanticEdge → Result String (Unit {0})) where
  -- Every class is registered under the types of its own ends.
  unfoldable pub Registered : Type 0
  Registered =
      (s r t : String) (m : EdgeModel)
      → edge_models s r t ≡ some m
      → (m.source_entity_type ≡ s) × (m.target_entity_type ≡ t)

  -- An edge of a registered class, with the given data, whose ends are of the types of the class.
  pub record IsTypedEdge (relationship_type element_id source_id target_id : String)
      (attributes : Attributes) (edge : SemanticEdge) : Type 0 where
    pub same_id : edge.element_id ≡ element_id
    pub same_source : edge.source_id ≡ source_id
    pub same_target : edge.target_id ≡ target_id
    pub same_attributes : edge.attributes ≡ attributes
    pub from_source : IsEntityId edge.model.source_entity_type source_id
    pub to_target : IsEntityId edge.model.target_entity_type target_id
    pub registered :
        edge_models edge.model.source_entity_type relationship_type edge.model.target_entity_type
        ≡ some edge.model
    pub valid : validate_fields edge ≡ ok tt

  edge-parts :
      (relationship_type element_id source_id target_id : String) (attributes : Attributes)
      {edge : SemanticEdge}
      → semantic_edge_from_data edge_models validate_fields relationship_type element_id source_id
          target_id attributes
        ≡ ok edge
      → (s : String) × (t : String) × (m : EdgeModel) × (entity_type_from_id source_id ≡ ok s)
        × (entity_type_from_id target_id ≡ ok t)
        × (edge_models s relationship_type t ≡ some m)
        × (edge ≡ record {
          model = m;
          element_id = element_id;
          source_id = source_id;
          target_id = target_id;
          attributes = attributes;
        })
        × (validate_fields edge ≡ ok tt)
        × (m.source_entity_type ≡ s)
        × (m.target_entity_type ≡ t)
  unfolding semantic_edge_from_data validate_endpoint_types
  edge-parts relationship_type element_id source_id target_id attributes {edge} h = ground arith

  semantic_edge_from_data-made :
      (relationship_type element_id source_id target_id : String) (attributes : Attributes)
      {edge : SemanticEdge}
      → semantic_edge_from_data edge_models validate_fields relationship_type element_id source_id
          target_id attributes
        ≡ ok edge
      → IsTypedEdge relationship_type element_id source_id target_id attributes edge
  semantic_edge_from_data-made relationship_type element_id source_id target_id attributes {edge}
        h =
      let (s, t, m, from, to, known, same, valid, source, target) =
        edge-parts relationship_type element_id source_id target_id attributes h in
      record {
        same_id = ap (λ e. e.element_id) same;
        same_source = ap (λ e. e.source_id) same;
        same_target = ap (λ e. e.target_id) same;
        same_attributes = ap (λ e. e.attributes) same;
        from_source =
            rw (ap (λ e. e.model.source_entity_type) same, source)
              (entity_type_from_id-IsEntityId source_id s from);
        to_target =
            rw (ap (λ e. e.model.target_entity_type) same, target)
              (entity_type_from_id-IsEntityId target_id t to);
        registered = rw (ap (λ e. e.model) same, source, target) known;
        valid = valid;
      }

  -- If every edge class is registered under the types of its ends, then no edge is refused for the
  -- type of an end: the checks of `validate_endpoint_types` hold once the class was found.
  pub semantic_edge_from_data-matches :
      Registered
      → (relationship_type element_id source_id target_id : String) (attributes : Attributes)
        (expected given : String)
      → semantic_edge_from_data edge_models validate_fields relationship_type element_id source_id
          target_id attributes
        ≢ err (wrong_endpoint expected given)
  unfolding semantic_edge_from_data validate_endpoint_types Registered
  semantic_edge_from_data-matches all relationship_type element_id source_id target_id attributes
        expected given h =
      elim (Result-cases (entity_type_from_id source_id)) [
        | inl (e, failed) ↦ let why = entity_type_from_id-eq-err source_id failed in ground arith
        | inr (s, from) ↦ elim (Result-cases (entity_type_from_id target_id)) [
          | inl (e, failed) ↦ let why = entity_type_from_id-eq-err target_id failed in ground arith
          | inr (t, to) ↦ elim (Option-cases (edge_models s relationship_type t)) [
            | inl unknown ↦ ground arith
            | inr (m, found) ↦
                let (source, target) = all s relationship_type t m found in ground arith
          ]
        ]
      ]

  semantic_edge_from_data-makes :
      {relationship_type element_id source_id target_id : String} {attributes : Attributes}
      {edge : SemanticEdge}
      → IsTypedEdge relationship_type element_id source_id target_id attributes edge
      → semantic_edge_from_data edge_models validate_fields relationship_type element_id source_id
          target_id attributes
        ≡ ok edge
  unfolding semantic_edge_from_data validate_endpoint_types
  semantic_edge_from_data-makes {relationship_type} {edge = edge} h =
      let from = IsEntityId-entity_type_from_id h.from_source in
      let to = IsEntityId-entity_type_from_id h.to_target in
      let known = h.registered in
      let valid = h.valid in
      rw (sym h.same_id, sym h.same_source, sym h.same_target, sym h.same_attributes)
        (let from' = rw (sym h.same_source) at from in
          let to' = rw (sym h.same_target) at to in ground arith)

  -- Reconstruction returns an edge exactly if both identifiers name types, a class is registered for
  -- these types and the relationship, the class has these types as its own, and its fields are valid;
  -- the edge then is one of this class with the given data.
  pub semantic_edge_from_data-IsTypedEdge :
      (relationship_type element_id source_id target_id : String) (attributes : Attributes)
      (edge : SemanticEdge)
      → (semantic_edge_from_data edge_models validate_fields relationship_type element_id source_id
            target_id attributes
          ≡ ok edge)
        ↔ IsTypedEdge relationship_type element_id source_id target_id attributes edge
  semantic_edge_from_data-IsTypedEdge relationship_type element_id source_id target_id attributes
        edge =
      (
        semantic_edge_from_data-made relationship_type element_id source_id target_id attributes,
        semantic_edge_from_data-makes,
      )
