-- ===== src/Gremlin/Client.antt =====
-- `SemanticGremlinClient` and the reconstruction of its results (gremlin/client.py). The connection, the
-- callback that builds a traversal and the server's evaluation of it are arguments.
pub mod Laws
use Prim.Native.String
use semconv_graph.Base.{
  ℕ, String, Bool, true, false, not, ◌&&◌, ◌||◌, Option, none, some, List, [], ◌∷◌, ◌==◌, string_eq,
  nat_eq, if◌then◌else◌, Result, ok, err, ◌>>=◌, ◌>>◌, expect, guard,
}
use semconv_graph.Base.Actions
use semconv_graph.Base.Actions.{Action}
use semconv_graph.Base.Dict.{insert}
use semconv_graph.Gremlin.Steps.{TraverserKind}
use semconv_graph.Gremlin.Traversal.{Instruction, TraversalError, validate_element_traversal}
use semconv_graph.Gremlin.Values.{
  Value, text, scalar, sequence, tuple, mapping, Entries, end, entry, name, token, get, has,
  Attributes,
}
use semconv_graph.Gremlin.Models.{
  ModelError, EntityModel, EdgeModel, SemanticEdge, semantic_entity_from_data,
  semantic_edge_from_data,
}

-- `SemanticGremlinResultError`, and the model errors that `query` turns into it.
pub data ResultError : Type 0 where
  not_a_mapping one_endpoint : ResultError
  missing_string missing_object non_string_key : String → ResultError
  cannot_reconstruct : ModelError → ResultError

-- `value` where it is a text other than "".
abbrev pub nonempty_text : Option Value → Option String
nonempty_text (some (text s)) = if s == "" then none else some s
nonempty_text _ = none

-- `_required_string`
unfoldable pub required_string : Entries → String → Result ResultError String
required_string item n = expect (nonempty_text (get n item)) (missing_string n)

-- The loop of `_required_object_map`, from the dict `result` on.
unfoldable pub object_map_onto : String → Attributes → Entries → Result ResultError Attributes
object_map_onto n result end = ok result
object_map_onto n result (entry token value rest) = err (non_string_key n)
object_map_onto n result (entry (name key) value rest) =
    object_map_onto n (insert key value result) rest

-- `_required_object_map`
unfoldable pub required_object_map : Entries → String → Result ResultError Attributes
required_object_map item n = elim (get n item) [
  | none ↦ err (missing_object n)
  | some value ↦ elim value [
    | mapping entries ↦ object_map_onto n [] entries
    | text _ ↦ err (missing_object n)
    | scalar _ ↦ err (missing_object n)
    | sequence _ ↦ err (missing_object n)
    | tuple _ ↦ err (missing_object n)
  ]
]

-- `SemanticGraphElement`
pub data GraphElement (Entity : Type 0) : Type 0 where
  entity : Entity → GraphElement Entity
  edge : SemanticEdge → GraphElement Entity

-- A model error where it is turned into a result error.
abbrev pub reconstruct : {A : Type 0} → Result ModelError A → Result ResultError A
reconstruct (ok a) = ok a
reconstruct (err e) = err (cannot_reconstruct e)

module _ {Entity : Type 0} (entity_models : String → Option EntityModel)
    (model_validate : EntityModel → Attributes → Result String Entity)
    (edge_models : String → String → String → Option EdgeModel)
    (validate_fields : SemanticEdge → Result String (Unit {0})) where
  -- The three uses of `item` in `_semantic_element_from_map` after its common part: the test that both
  -- ends or none are there, the edge and the entity.
  abbrev both_ends_or_none : Entries → Bool
  both_ends_or_none item =
      if has "source_id" item then has "target_id" item else not (has "target_id" item)

  unfoldable pub edge_from_map :
      String → String → Attributes → Entries → Result ResultError (GraphElement Entity)
  edge_from_map semantic_type element_id attributes item = do
    source_id ← required_string item "source_id"
    target_id ← required_string item "target_id"
    made ← reconstruct (
        semantic_edge_from_data edge_models validate_fields semantic_type element_id source_id
          target_id attributes)
    ok (edge made)

  unfoldable pub entity_from_map :
      String → String → Attributes → Result ResultError (GraphElement Entity)
  entity_from_map semantic_type element_id attributes = do
    made ←
        reconstruct (
          semantic_entity_from_data entity_models model_validate semantic_type element_id
            attributes)
    ok (entity made)

  -- `_semantic_element_from_map`
  unfoldable pub semantic_element_from_map : Value → Result ResultError (GraphElement Entity)
  semantic_element_from_map (mapping item) = do
    element_id ← required_string item "element_id"
    semantic_type ← required_string item "semantic_type"
    attributes ← required_object_map item "attributes"
    guard (both_ends_or_none item) one_endpoint
    if has "source_id" item
        then edge_from_map semantic_type element_id attributes item
        else entity_from_map semantic_type element_id attributes
  semantic_element_from_map _ = err not_a_mapping

  -- `[_semantic_element_from_map(result) for result in raw_results]`
  unfoldable pub elements_from : List Value → Result ResultError (List (GraphElement Entity))
  elements_from [] = ok []
  elements_from (result ∷ results) = do
    element ← semantic_element_from_map result
    elements ← elements_from results
    ok (element ∷ elements)

-- `SemanticGremlinError` and its subclasses, and what a callback or the connection raises itself.
pub data QueryError : Type 0 where
  closed_client not_a_traversal : QueryError
  not_supported : TraversalError → QueryError
  rejected : String → QueryError
  bad_result : ResultError → QueryError
  callback_error connection_error : String → QueryError

-- What the client calls: the evaluation of `candidate.element_map().to_list()` on the server, and the
-- closing of the connection.
pub record Remote : Type 1 where
  pub State : Type 0
  pub to_list : List Instruction → Action String State (List Value)
  pub disconnect : Action String State (Unit {0})

-- `SemanticGremlinClient`: `_closed`, and the connection with all that lies behind it.
pub record ClientState (Connection : Type 0) : Type 0 where
  pub closed : Bool
  pub connection : Connection

module _ (R : Remote) where
  -- `close`
  unfoldable pub close : Action QueryError (ClientState R.State) (Unit {0})
  close client =
      if client.closed
      then (ok tt, client)
      else (let (answer, connection) = R.disconnect client.connection in
          elim answer [
            | ok done ↦ (ok tt, record { closed = true; connection = connection })
            | err e ↦ (err (connection_error e), record client { connection = connection })
          ])

  module _ {Entity : Type 0} (entity_models : String → Option EntityModel)
      (model_validate : EntityModel → Attributes → Result String Entity)
      (edge_models : String → String → String → Option EdgeModel)
      (validate_fields : SemanticEdge → Result String (Unit {0})) where
    -- The part of `query` after the traversal is accepted.
    unfoldable pub run_query :
        List Instruction → Action QueryError (ClientState R.State) (List (GraphElement Entity))
    run_query candidate client =
        let (answer, connection) = R.to_list candidate client.connection in
        (
          elim answer [
            | err e ↦ err (rejected e)
            | ok raw_results ↦
                elim (elements_from entity_models model_validate edge_models validate_fields
                  raw_results) [ ok elements ↦ ok elements | err e ↦ err (bad_result e) ]
          ],
          record client { connection = connection },
        )

    -- `query`. The callback may use the connection, and returns a traversal or another value, or raises.
    unfoldable pub query :
        Action String R.State (Option (List Instruction))
        → Action QueryError (ClientState R.State) (List (GraphElement Entity))
    query build client =
        let (built, connection) = build client.connection in
        let called : ClientState R.State = record client { connection = connection } in
        if client.closed then (err closed_client, client) else (elim built [
          | err e ↦ (err (callback_error e), called)
          | ok candidate_value ↦ elim candidate_value [
            | none ↦ (err not_a_traversal, called)
            | some candidate ↦ elim (validate_element_traversal candidate) [
              | err e ↦ (err (not_supported e), called)
              | ok kind ↦ run_query candidate called
            ]
          ]
        ])
