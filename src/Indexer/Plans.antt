-- ===== src/Indexer/Plans.antt =====
-- The second loop of `project_poll` of indexer.py, which sorts the events that are left into the
-- calls to make.
pub mod Laws
pub mod Settling
use package.text.Mathlib.Text.{starts_with}
use semconv_graph.Base.{
  String, List, [], ◌∷◌, ◌++◌, ◌==◌, string_eq, if◌then◌else◌, Result, ok, err, ◌>>=◌, expect,
}
use semconv_graph.Base.Dict.{Dict, lookup, push}
use semconv_graph.Indexer.Failures.{Failure, delete_of_unknown_type}
use semconv_graph.Indexer.Json.{Fields}
use semconv_graph.Indexer.Schema.{GraphSchema, vertices_by_type}
use semconv_graph.Indexer.Events.{semantic_type_from_element_id, element_key, event_to_document}
use semconv_graph.Indexer.Intake.{PendingEvent}

-- What the second loop has sorted out.
pub record Plan : Type 0 where
  pub upserts : Dict String (List Fields)
  pub node_deletes : Dict String (List String)
  pub edge_delete_keys : List String

abbrev pub empty_plan : Plan
empty_plan = record { upserts = []; node_deletes = []; edge_delete_keys = [] }

module _ (sha256_hex : String → String) (schema : GraphSchema) where
  -- The collection that holds the node of a delete.
  unfoldable pub node_collection : String → Result Failure String
  node_collection element_id = do
    semantic_type ← semantic_type_from_element_id element_id
    vertex ←
        expect (lookup semantic_type (vertices_by_type schema))
          (delete_of_unknown_type semantic_type)
    ok vertex.collection

  -- One round of the loop over `pending.values()`: each of the three cases of the element.
  unfoldable pub plan_upsert : PendingEvent → Plan → Result Failure Plan
  plan_upsert item plan = do
    placed ← event_to_document sha256_hex item.event schema
    ok (record plan { upserts = push placed.0 placed.1 plan.upserts })

  unfoldable pub plan_node_delete : PendingEvent → Plan → Result Failure Plan
  plan_node_delete item plan = do
    collection ← node_collection item.element_id
    ok (record plan {
      node_deletes = push collection (element_key sha256_hex item.element_id) plan.node_deletes;
    })

  unfoldable pub plan_edge_delete : PendingEvent → Plan → Plan
  plan_edge_delete item plan = record plan {
    edge_delete_keys = plan.edge_delete_keys ++ (element_key sha256_hex item.element_id ∷ []);
  }

  unfoldable pub plan_item : PendingEvent → Plan → Result Failure Plan
  plan_item item plan =
      if item.operation == "upsert"
      then plan_upsert item plan
      else if starts_with item.element_id "edge:"
      then ok (plan_edge_delete item plan)
      else plan_node_delete item plan

  unfoldable pub plan_items : List PendingEvent → Plan → Result Failure Plan
  plan_items [] plan = ok plan
  plan_items (item ∷ items) plan = elim (plan_item item plan) [
    | err e ↦ err e
    | ok plan' ↦ plan_items items plan'
  ]
