-- ===== src/Gremlin/Tests.antt =====
-- Runs of the client against a server in memory, and the theorems at concrete data.

use native.Mathlib.Decide.{ℕ_discrete}
use semconv_graph.Base.{
  String, Bool, true, false, ◌&&◌, Option, none, some, List, [], ◌∷◌, ◌==◌, string_eq,
  if◌then◌else◌, Result, ok, err, ◌≡◌, ◌⊎◌, inl, refl, string_dec, ◌↔◌, All,
}
use semconv_graph.Base.Text.{partition}
use semconv_graph.Base.Dict.{lookup, insert}
use semconv_graph.Gremlin.Steps.{
  vertex, edge, start_steps, navigation_steps, preserving_steps, transforming_steps, mutating_steps,
}
use semconv_graph.Gremlin.Traversal.{
  Instruction, text, nested, finish, new_step, operand, empty_traversal, unsupported, mutates,
  validate_element_traversal, kind_from, next_kind, unsupported_step,
}
use semconv_graph.Gremlin.Traversal.Laws.{Yields, validate_element_traversal-Yields}
use semconv_graph.Gremlin.Traversal.Refusals.{
  KeepsElements, validate_element_traversal-KeepsElements, StopsAt,
  validate_element_traversal-StopsAt,
}
use semconv_graph.Gremlin.Values
use semconv_graph.Gremlin.Values.{Value, Attributes, mapping, entry, end, name, token, get}
use semconv_graph.Gremlin.Models.{
  EntityModel, EdgeModel, SemanticEdge, semantic_edge_from_data, template_values,
  entity_type_from_id, validate_endpoint_types,
}
use semconv_graph.Gremlin.Models.Edges.{IsTypedEdge, semantic_edge_from_data-IsTypedEdge}
use semconv_graph.Gremlin.Models.Templates.{lookup-template_values}
use semconv_graph.Gremlin.Client.{
  GraphElement, QueryError, closed_client, Remote, ClientState, close, query, run_query,
  elements_from, semantic_element_from_map, entity_from_map, edge_from_map, required_string,
  required_object_map, object_map_onto,
}
use semconv_graph.Gremlin.Client.Laws.{IsAnswered, query-IsAnswered, query_unsent, close-closed}

-- `g.V().has("name").outE("calls")`
abbrev calls : List Instruction
calls = (text "V" ∷ []) ∷ (text "has" ∷ text "name" ∷ []) ∷ (text "outE" ∷ text "calls" ∷ []) ∷ []

calls_accepted : validate_element_traversal calls ≡ ok edge
unfolding validate_element_traversal kind_from next_kind lookup start_steps navigation_steps
    preserving_steps string_dec ℕ_discrete
calls_accepted = refl

validate_element_traversal-Yields_example :
    (validate_element_traversal calls ≡ ok edge) ↔ Yields calls edge
validate_element_traversal-Yields_example = validate_element_traversal-Yields calls edge

validate_element_traversal-KeepsElements_example : All KeepsElements calls
validate_element_traversal-KeepsElements_example =
    validate_element_traversal-KeepsElements calls calls_accepted

-- `g.V().where(__.drop())`, whose nested traversal is not looked into.
abbrev nested_drop : List Instruction
nested_drop =
    (text "V" ∷ []) ∷ (text "where" ∷ nested (new_step (operand (text "drop") finish)) ∷ []) ∷ []

nested_drop_accepted : validate_element_traversal nested_drop ≡ ok vertex
unfolding validate_element_traversal kind_from next_kind lookup start_steps navigation_steps
    preserving_steps string_dec ℕ_discrete
nested_drop_accepted = refl

-- `g.V().drop()`
abbrev drops : List Instruction
drops = (text "V" ∷ []) ∷ (text "drop" ∷ []) ∷ []

drops_refused : validate_element_traversal drops ≡ err (unsupported "drop" 1 mutates)
unfolding validate_element_traversal kind_from next_kind unsupported_step lookup start_steps
    navigation_steps preserving_steps transforming_steps mutating_steps string_dec ℕ_discrete
drops_refused = refl

validate_element_traversal-StopsAt_example :
    ((drops ≡ []) × (unsupported "drop" 1 mutates ≡ empty_traversal))
    ⊎ StopsAt 0 drops (unsupported "drop" 1 mutates)
validate_element_traversal-StopsAt_example = validate_element_traversal-StopsAt drops drops_refused

abbrev calls_edge : EdgeModel
calls_edge = record {
  name = "ServiceCallsServiceEdge";
  relationship_id = "relationship.service_calls_service";
  relationship_type = "calls";
  source_entity_type = "service";
  target_entity_type = "service";
}

abbrev one_edge_model : String → String → String → Option EdgeModel
one_edge_model s r t =
    if s == "service" && r == "calls" && t == "service" then some calls_edge else none

abbrev all_valid : SemanticEdge → Result String (Unit {0})
all_valid e = ok tt

abbrev a_calls_b : SemanticEdge
a_calls_b = record {
  model = calls_edge;
  element_id = "edge:ab";
  source_id = "service:a";
  target_id = "service:b";
  attributes = [];
}

semantic_edge_from_data-IsTypedEdge_example :
    (semantic_edge_from_data one_edge_model all_valid "calls" "edge:ab" "service:a" "service:b" []
      ≡ ok a_calls_b)
    ↔ IsTypedEdge one_edge_model all_valid "calls" "edge:ab" "service:a" "service:b" [] a_calls_b
semantic_edge_from_data-IsTypedEdge_example =
    semantic_edge_from_data-IsTypedEdge one_edge_model all_valid "calls" "edge:ab" "service:a"
      "service:b" [] a_calls_b

abbrev labels : Attributes
labels = ("k8s.pod.label.app", Values.text "shop") ∷ ("k8s.pod.name", Values.text "p") ∷ []

lookup-template_values_example :
    lookup "app" (template_values labels "k8s.pod.label") ≡ lookup "k8s.pod.label.app" labels
unfolding string_dec
lookup-template_values_example =
    lookup-template_values labels "k8s.pod.label" "app" (λ p. absurd (cc))

abbrev no_entity_models : String → Option EntityModel
no_entity_models t = none

abbrev model_validate : EntityModel → Attributes → Result String String
model_validate m values = err "no entity"

-- A server that answers every traversal with one edge.
abbrev answer : Value
answer = mapping (
    entry token (Values.text "calls") (
      entry (name "element_id") (Values.text "edge:ab") (
        entry (name "semantic_type") (Values.text "calls") (
          entry (name "attributes") (mapping end) (
            entry (name "source_id") (Values.text "service:a")
              (entry (name "target_id") (Values.text "service:b") end))))))

abbrev remote : Remote
remote = record {
  State = Bool;
  to_list = λ is s. (ok (answer ∷ []), s);
  disconnect = λ s. (ok tt, false);
}

-- A callback that returns a traversal and leaves the connection alone.
abbrev ask_calls : Bool → Result String (Option (List Instruction)) × Bool
ask_calls s = (ok (some calls), s)

abbrev client : ClientState Bool
client = record { closed = false; connection = true }

query-IsAnswered_example :
    IsAnswered no_entity_models model_validate one_edge_model all_valid remote ask_calls client
      (GraphElement.edge a_calls_b ∷ [])
unfolding query run_query validate_element_traversal kind_from next_kind lookup start_steps
    navigation_steps preserving_steps string_dec ℕ_discrete elements_from semantic_element_from_map
    entity_from_map edge_from_map required_string required_object_map object_map_onto get
    semantic_edge_from_data entity_type_from_id validate_endpoint_types partition insert
query-IsAnswered_example =
    query-IsAnswered no_entity_models model_validate one_edge_model all_valid remote ask_calls
      client refl

query_unsent_example :
    (e : QueryError) × (query remote no_entity_models model_validate one_edge_model all_valid
        ask_calls
        (record { closed = true; connection = true })
      ≡ (err e, record { closed = true; connection = true }))
query_unsent_example =
    query_unsent no_entity_models model_validate one_edge_model all_valid remote ask_calls
      (record { closed = true; connection = true }) (inl refl)

abbrev after : ClientState Bool
after = record { closed = true; connection = false }

close-closed_example :
    (close remote after ≡ (ok tt, after))
    × (query remote no_entity_models model_validate one_edge_model all_valid ask_calls after
        ≡ (err closed_client, after))
unfolding close
close-closed_example =
    close-closed remote no_entity_models model_validate one_edge_model all_valid client ask_calls
      refl
