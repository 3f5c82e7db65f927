-- ===== src/Indexer/Events.antt =====
-- Decoding and conversion of one event: `_decode_event`, `_validate_event_contract`,
-- `semantic_type_from_element_id`, `event_to_document` and `_object_map` of indexer.py. The hash of
-- an identifier (`hashlib.sha256(…).hexdigest()`) and `json.loads` are arguments.
pub mod Documents
pub mod Whole
use semconv_graph.Base.{
  String, ◌<>◌, Bool, true, false, not, ◌||◌, Option, none, some, List, [], ◌∷◌, ◌==◌, string_eq,
  if◌then◌else◌, Result, ok, err, ◌>>=◌, ◌>>◌, guard, expect,
}
use semconv_graph.Base.Dict.{Dict, lookup, has_key}
use semconv_graph.Base.Text.{partition}
use semconv_graph.Indexer.Failures.{
  Failure, json_decode_error, key_error, not_an_object, unsupported_schema, unsupported_event_type,
  upsert_only, no_element, carries_metrics, invalid_identity, unsupported_kind,
  attributes_not_an_object, invalid_endpoints, unknown_semantic_type, unknown_endpoint_types,
  no_type_prefix,
}
use semconv_graph.Indexer.Json.{
  Json, text, object, Fields, end, get, put, has, display, as_text, as_object,
}
use semconv_graph.Indexer.Schema.{
  VertexCollection, EdgeCollection, GraphSchema, vertices_by_type, edges_by_type,
}

-- `value == "…"`, for a value that may be missing or of any type.
abbrev pub is_text : String → Option Json → Bool
is_text s (some (text t)) = t == s
is_text s _ = false

unfoldable pub validate_event_contract : Fields → Result Failure (Unit {0})
validate_event_contract event = do
  guard (is_text "3.0" (get "schema_version" event)) unsupported_schema
  guard (is_text "graph_element_state_changed" (get "event_type" event)) unsupported_event_type

unfoldable pub decode_event : Option Json → Result Failure Fields
decode_event none = err json_decode_error
decode_event (some (object event)) = do validate_event_contract event; ok event
decode_event (some _) = err not_an_object

unfoldable pub semantic_type_from_element_id : String → Result Failure String
semantic_type_from_element_id element_id = elim (partition b':' element_id) [
  | none ↦ err (no_type_prefix element_id)
  | some (before, _) ↦ if before == "" then err (no_type_prefix element_id) else ok before
]

pub data Kind : Type 0 where
  node edge : Kind

abbrev pub kind_of : Option Json → Result Failure Kind
kind_of value =
    if is_text "node" value
    then ok node
    else if is_text "edge" value
    then ok edge
    else err unsupported_kind

-- The collection of `definition`, from the mapping that the kind selects.
unfoldable pub definition_of : GraphSchema → Kind → String → Result Failure String
definition_of schema node t = elim (lookup t (vertices_by_type schema)) [
  | none ↦ err (unknown_semantic_type t)
  | some definition ↦ ok definition.collection
]
definition_of schema edge t = elim (lookup t (edges_by_type schema)) [
  | none ↦ err (unknown_semantic_type t)
  | some definition ↦ ok definition.collection
]

-- `_object_map(element.get("attributes", {}), "attributes")`
unfoldable pub object_map : Option Json → Result Failure Fields
object_map none = ok end
object_map (some (object d)) = ok d
object_map (some _) = err attributes_not_an_object

-- `for canonical, alias in …: if canonical in attributes: document[alias] = attributes[canonical]`
unfoldable pub add_aliases : Dict String String → Fields → Fields → Fields
add_aliases [] attributes document = document
add_aliases ((canonical, alias) ∷ rest) attributes document =
    add_aliases rest attributes
      (elim (get canonical attributes) [ none ↦ document | some v ↦ put alias v document ])

-- `event[name]`
abbrev pub require : String → Fields → Result Failure Json
require name event = expect (get name event) (key_error name)

module _ (sha256_hex : String → String) where
  abbrev pub element_key : String → String
  element_key element_id = sha256_hex element_id

  -- The fields of every document.
  unfoldable pub base_document : Fields → String → String → Fields → Result Failure Fields
  base_document event element_id semantic_type attributes = do
    schema_version ← require "schema_version" event
    event_id ← require "event_id" event
    payload_hash ← require "payload_hash" event
    observed ← require "observed_at_unix_nano" event
    emitted ← require "emitted_at_unix_ms" event
    ok (
        display
          (("_key", text (element_key element_id))
            ∷ ("element_id", text element_id)
            ∷ ("semantic_type", text semantic_type)
            ∷ ("attributes", object attributes)
            ∷ ("schema_version", schema_version)
            ∷ ("event_id", event_id)
            ∷ ("payload_hash", payload_hash)
            ∷ ("observed_at_unix_nano", observed)
            ∷ ("emitted_at_unix_ms", emitted)
            ∷ [])
          end)

  -- `f"{vertices[t].collection}/{element_key(id)}"`
  abbrev pub handle : VertexCollection → String → String
  handle vertex element_id = vertex.collection <> "/" <> element_key element_id

  -- `vertices[source_type]` and `vertices[target_type]`, where both are there.
  abbrev both_vertices :
      GraphSchema → String → String → Result Failure (VertexCollection × VertexCollection)
  both_vertices schema s t = elim (lookup s (vertices_by_type schema)) [
    | none ↦ err (unknown_endpoint_types s t)
    | some source ↦ elim (lookup t (vertices_by_type schema)) [
      | none ↦ err (unknown_endpoint_types s t)
      | some target ↦ ok (source, target)
    ]
  ]

  -- `if kind == "edge"`: the handles of both ends.
  unfoldable pub add_endpoints : GraphSchema → Fields → Kind → Fields → Result Failure Fields
  add_endpoints schema element node document = ok document
  add_endpoints schema element edge document = do
    source_id ← expect (as_text (get "source_id" element)) invalid_endpoints
    target_id ← expect (as_text (get "target_id" element)) invalid_endpoints
    source_type ← semantic_type_from_element_id source_id
    target_type ← semantic_type_from_element_id target_id
    ends ← both_vertices schema source_type target_type
    ok (
        display
          (("_from", text (handle ends.0 source_id))
            ∷ ("_to", text (handle ends.1 target_id))
            ∷ ("source_id", text source_id)
            ∷ ("target_id", text target_id)
            ∷ [])
          document)

  -- The collection and the document of an upsert.
  unfoldable pub event_to_document : Fields → GraphSchema → Result Failure (String × Fields)
  event_to_document event schema = do
    validate_event_contract event
    guard (is_text "upsert" (get "operation" event)) upsert_only
    element ← expect (as_object (get "element" event)) no_element
    guard (not (has "metrics" element)) carries_metrics
    element_id ← expect (as_text (get "element_id" event)) invalid_identity
    semantic_type ← expect (as_text (get "type" element)) invalid_identity
    kind ← kind_of (get "kind" element)
    collection ← definition_of schema kind semantic_type
    attributes ← object_map (get "attributes" element)
    document ← base_document event element_id semantic_type attributes
    complete ←
        add_endpoints schema element kind (add_aliases schema.property_aliases attributes document)
    ok (collection, complete)
