-- ===== src/Gremlin/Generated/Tests.antt =====
-- The tables at classes of services.
use semconv_graph.Base.{
  String, if◌then◌else◌, none, some, [], ◌∷◌, string_eq, nat_eq, triple_eq, string_dec, Result, ok,
  err, ◌≡◌, ◌≢◌, refl,
}
use native.Mathlib.Decide.{ℕ_discrete}
use semconv_graph.Base.Dict.{lookup, insert, NodupKeys}
use semconv_graph.Base.Text.{partition}
use semconv_graph.Gremlin.Values.{Attributes, text, sequence, tuple, cons, nil}
use semconv_graph.Gremlin.Models.{
  EntityModel, field_values, template_values, as_entries, remove_prefix, SemanticEdge,
  wrong_endpoint, semantic_edge_from_data,
}
use semconv_graph.Gremlin.Models.Edges.{IsEntityId}
use semconv_graph.Gremlin.Generated.Edges.{edge_models, k8s_pod_runs_service_edge}
use semconv_graph.Gremlin.Generated.Entities.{entity_models, k8s_pod_entity, app_endpoint_entity}
use semconv_graph.Gremlin.Models.Flattening.{
  semantic_attributes, attributes_from, add_field, add_items,
}
use semconv_graph.Gremlin.Models.Flattening.Whole.{covers, values_from}
use semconv_graph.Gremlin.Generated.Kept.{
  generated_entity_from_data, semantic_entity_from_data_keeps,
}
use semconv_graph.Gremlin.Models.Freezing.{freeze_value, freeze_containers}
use semconv_graph.Gremlin.Models.Freezing.Laws.{frozen}
use semconv_graph.Gremlin.Generated.Laws.{
  IsGeneratedEdge, edge_models-IsGeneratedEdge, generated_matches, semantic_edge_from_data_rebuilds,
}
use semconv_graph.Gremlin.Generated.Classes.{IsGeneratedEntity, entity_models-IsGeneratedEntity}

edge_there : lookup ("k8s.pod", "runs", "service") edge_models ≡ some k8s_pod_runs_service_edge
unfolding lookup string_dec
edge_there = refl

entity_there : lookup "app.endpoint" entity_models ≡ some app_endpoint_entity
unfolding lookup string_dec
entity_there = refl

edge_models-IsGeneratedEdge_example :
    IsGeneratedEdge "k8s.pod" "runs" "service" k8s_pod_runs_service_edge
edge_models-IsGeneratedEdge_example =
    edge_models-IsGeneratedEdge "k8s.pod" "runs" "service" k8s_pod_runs_service_edge edge_there

entity_models-IsGeneratedEntity_example : IsGeneratedEntity "app.endpoint" app_endpoint_entity
entity_models-IsGeneratedEntity_example =
    entity_models-IsGeneratedEntity "app.endpoint" app_endpoint_entity entity_there

abbrev all_valid : SemanticEdge → Result String (Unit {0})
all_valid e = ok tt

abbrev pod_runs : SemanticEdge
pod_runs = record {
  model = k8s_pod_runs_service_edge;
  element_id = "edge:1";
  source_id = "k8s.pod:p";
  target_id = "service:s";
  attributes = [];
}

pod_id : IsEntityId "k8s.pod" "k8s.pod:p"
unfolding partition ℕ_discrete
pod_id = record {
  identity = "p";
  split = refl;
  typed = λ p. absurd (cc);
  identified = λ p. absurd (cc);
}

service_id : IsEntityId "service" "service:s"
unfolding partition ℕ_discrete
service_id = record {
  identity = "s";
  split = refl;
  typed = λ p. absurd (cc);
  identified = λ p. absurd (cc);
}

generated_matches_example :
    semantic_edge_from_data
      (λ s r t. lookup (s, r, t) edge_models)
      all_valid
      "runs"
      "edge:1"
      "k8s.pod:p"
      "rack:1"
      []
    ≢ err (wrong_endpoint "service" "rack:1")
generated_matches_example =
    generated_matches all_valid "runs" "edge:1" "k8s.pod:p" "rack:1" [] "service" "rack:1"

semantic_edge_from_data_rebuilds_example :
    semantic_edge_from_data
      (λ s r t. lookup (s, r, t) edge_models)
      all_valid
      "runs"
      "edge:1"
      "k8s.pod:p"
      "service:s"
      []
    ≡ ok pod_runs
semantic_edge_from_data_rebuilds_example =
    semantic_edge_from_data_rebuilds all_valid "k8s.pod" "runs" "service" pod_runs edge_there pod_id
      service_id refl

-- A label, the identity, a list, which no field takes here, and a key that the class does not know.
abbrev pod_data : Attributes
pod_data =
    ("k8s.pod.label.app", text "shop")
    ∷ ("k8s.pod.uid", text "u1")
    ∷ ("unknown", sequence (cons (text "x") nil))
    ∷ []

abbrev validate : EntityModel → Attributes → Result String Attributes
validate m values = ok values

pod_attributes :
    semantic_attributes k8s_pod_entity (values_from k8s_pod_entity "k8s.pod:u1" pod_data)
    ≡ ("k8s.pod.label.app", text "shop") ∷ ("k8s.pod.uid", text "u1") ∷ []
unfolding semantic_attributes attributes_from add_field add_items field_values template_values
    as_entries remove_prefix lookup insert string_dec ℕ_discrete
pod_attributes = refl

list_frozen :
    freeze_containers "T.id" pod_data
    ≡ ("k8s.pod.label.app", text "shop")
      ∷ ("k8s.pod.uid", text "u1")
      ∷ ("unknown", tuple (cons (text "x") nil))
      ∷ []
unfolding freeze_containers freeze_value
list_frozen = refl

pod_data-NodupKeys : NodupKeys pod_data
unfolding lookup string_dec
pod_data-NodupKeys = (refl, (refl, (refl, tt)))

pod_known : lookup "k8s.pod" entity_models ≡ some k8s_pod_entity
unfolding lookup string_dec
pod_known = refl

semantic_entity_from_data_keeps_example :
    (e : Attributes) × (generated_entity_from_data "T.id" validate "k8s.pod" "k8s.pod:u1" pod_data
      ≡ ok e)
    × ((k : String)
        → lookup k (semantic_attributes k8s_pod_entity e) ≡ (
            if covers k8s_pod_entity.template_fields k8s_pod_entity.model_fields k
            then frozen "T.id" (lookup k pod_data)
            else none))
semantic_entity_from_data_keeps_example =
    semantic_entity_from_data_keeps "T.id" validate "k8s.pod" "k8s.pod:u1" pod_data k8s_pod_entity
      pod_data-NodupKeys refl pod_known (_, refl, refl)
