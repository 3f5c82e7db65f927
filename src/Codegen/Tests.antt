-- ===== src/Codegen/Tests.antt =====
-- Runs of the generator's functions, and the theorems at concrete data.
use native.Mathlib.Decide.{ℕ_discrete}
use semconv_graph.Base.{◌↔◌, none, some, String, string_dec, ◌≡◌, refl, ok, err, [], ◌∷◌}
use semconv_graph.Base.Dict.{Dict, lookup, insert, keys, values}
use semconv_graph.Codegen.Aliases.{
  sanitize_from, unique_sanitized_names, refuse_reserved, property_aliases,
}
use semconv_graph.Codegen.Aliases.Laws.{IsSanitized, IsNaming, unique_sanitized_names-IsSanitized}
use semconv_graph.Codegen.Aliases.Reserved.{SparesReserved, property_aliases-IsNaming}
use semconv_graph.Codegen.Registry.{
  RelationshipDefinition, interaction, EntityDefinition, AttributeDefinition, identifying,
  primitive, RegistryDocument, attribute_group, entity_group, relationship_group, all_attributes,
  all_entities, all_relationships, index_onto, attributes_by_id, entities_by_name,
  relationships_by_id,
}
use semconv_graph.Codegen.Registry.Validation.{
  check_relationship, check_all, check_evidence, blank, connection_mismatch,
  validate_extension_model, no_duplicates, no_duplicate_entities, no_duplicate_relationships,
  has_triple, check_ref, supports_identity, merge,
}
use semconv_graph.Codegen.Registry.Validation.Accepted.{
  IsExtension, validate_extension_model-IsExtension,
}
use semconv_graph.Codegen.Registry.Validation.Laws.{
  IsRelationship, check_relationship-IsRelationship,
}
use semconv_graph.Codegen.Names.Safe.{
  IsDatabaseName, safe_arangodb_name-IsDatabaseName, safe_arangodb_name_idem,
}
use semconv_graph.Codegen.Names.{
  unconvertible, safe_arangodb_name, lower, python_field_name, python_class_name,
}

safe_name : safe_arangodb_name "_K8s..Pod-UID." ≡ ok "k8s_pod_uid"
unfolding safe_arangodb_name lower python_field_name string_dec ℕ_discrete
safe_name = refl

digit_name : safe_arangodb_name "-1.x" ≡ err (unconvertible "-1.x")
unfolding safe_arangodb_name lower python_field_name string_dec ℕ_discrete
digit_name = refl

class_name : python_class_name "k8s.podUID-x" ≡ "K8sPoduidX"
unfolding python_class_name ℕ_discrete
class_name = refl

safe_arangodb_name-IsDatabaseName_example : IsDatabaseName "k8s_pod_uid"
safe_arangodb_name-IsDatabaseName_example =
    safe_arangodb_name-IsDatabaseName "_K8s..Pod-UID." "k8s_pod_uid" safe_name

safe_arangodb_name_idem_example : safe_arangodb_name "k8s_pod_uid" ≡ ok "k8s_pod_uid"
safe_arangodb_name_idem_example = safe_arangodb_name_idem "_K8s..Pod-UID." "k8s_pod_uid" safe_name

unique_sanitized_names-IsSanitized_example :
    IsSanitized "vertex collection"
      ("a.b" ∷ "a-b" ∷ [])
      (unique_sanitized_names ("a.b" ∷ "a-b" ∷ []) "vertex collection")
unique_sanitized_names-IsSanitized_example =
    unique_sanitized_names-IsSanitized ("a.b" ∷ "a-b" ∷ []) "vertex collection"

abbrev aliases : Dict String String
aliases = ("service.name", "service_name") ∷ ("source.id", "source_id") ∷ []

-- An alias can be named like a field of an edge's document.
accepted : property_aliases ("service.name" ∷ "source.id" ∷ []) ≡ ok aliases
unfolding property_aliases unique_sanitized_names sanitize_from refuse_reserved insert lookup
    safe_arangodb_name lower python_field_name string_dec ℕ_discrete
accepted = refl

property_aliases-IsNaming_example :
    IsNaming ("service.name" ∷ "source.id" ∷ []) aliases × SparesReserved aliases
property_aliases-IsNaming_example =
    property_aliases-IsNaming ("service.name" ∷ "source.id" ∷ []) aliases accepted

abbrev pub calls : RelationshipDefinition
calls = record {
  id = "relationship.calls";
  name = "calls";
  source_entity = "service";
  target_entity = "service";
  source_signals = "trace" ∷ "service_graph" ∷ [];
  evidence_scope = some interaction;
  connection_type = some "http";
  stability = none;
  brief = none;
}

check_relationship-IsRelationship_example :
    (check_relationship ("service" ∷ []) calls ≡ ok tt) ↔ IsRelationship ("service" ∷ []) calls
check_relationship-IsRelationship_example = check_relationship-IsRelationship ("service" ∷ []) calls

calls_accepted : check_relationship ("service" ∷ []) calls ≡ ok tt
unfolding check_relationship check_all check_evidence blank string_dec ℕ_discrete
calls_accepted = refl

calls_without_type :
    check_relationship ("service" ∷ []) (record calls { connection_type = none })
    ≡ err (connection_mismatch "relationship.calls")
unfolding check_relationship check_all check_evidence blank string_dec ℕ_discrete
calls_without_type = refl

abbrev service : EntityDefinition
service = record {
  id = "entity.service";
  name = "service";
  stability = none;
  brief = none;
  attributes = record { ref = "service.name"; role = some identifying } ∷ [];
}

abbrev service_name : AttributeDefinition
service_name = record {
  id = "service.name";
  type = primitive "string";
  stability = none;
  brief = none;
}

abbrev upstream : RegistryDocument
upstream = attribute_group (record { id = "service"; attributes = service_name ∷ [] }) ∷ []

abbrev extension : RegistryDocument
extension = entity_group service ∷ relationship_group calls ∷ []

extension_accepted : validate_extension_model upstream extension ≡ ok tt
unfolding validate_extension_model no_duplicates no_duplicate_entities no_duplicate_relationships
    has_triple check_all check_ref check_relationship check_evidence supports_identity merge blank
    all_attributes all_entities all_relationships index_onto attributes_by_id entities_by_name
    relationships_by_id keys values insert lookup string_dec ℕ_discrete
extension_accepted = refl

validate_extension_model-IsExtension_example :
    (validate_extension_model upstream extension ≡ ok tt) ↔ IsExtension upstream extension
validate_extension_model-IsExtension_example =
    validate_extension_model-IsExtension upstream extension
