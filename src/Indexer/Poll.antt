-- ===== src/Indexer/Poll.antt =====
-- `project_poll` of indexer.py. The consumer and the writer are the two boundary protocols of the
-- file, a record of calls on the state of the world outside, each of which may raise.
pub mod Writing
pub mod Outcome
pub mod Refusals
use semconv_graph.Base.{ℕ, String, Bool, true, false, Option, List, [], ◌∷◌, Eq, Result, ok}
use semconv_graph.Base.Actions.{Action, pure, lift, when, for_each, ◌>>=◌, ◌>>◌}
use semconv_graph.Base.Results
use semconv_graph.Base.Dict.{Dict, values}
use semconv_graph.Indexer.Failures.{Failure}
use semconv_graph.Indexer.Json.{Json, Fields}
use semconv_graph.Indexer.Schema.{GraphSchema, EdgeCollection}
use semconv_graph.Indexer.Intake.{KafkaRecord, OffsetAndMetadata, Gathered, nothing, gather}
use semconv_graph.Indexer.Plans.{Plan, empty_plan, plan_items}

-- `WriterBoundary` and `ConsumerBoundary`
pub record Boundary (TopicPartition : Type 0) : Type 1 where
  pub State : Type 0
  pub replace_many : String → List Fields → Action Failure State (Unit {0})
  pub delete_many : String → List String → Action Failure State (Unit {0})
  pub commit : Dict TopicPartition OffsetAndMetadata → Action Failure State (Unit {0})

abbrev pub nonempty {ℓ} : {A : Type ℓ} → List A → Bool
nonempty [] = false
nonempty (_ ∷ _) = true

module _ {TopicPartition : Type 0} (B : Boundary TopicPartition) where
  unfoldable pub write_plan : GraphSchema → Plan → Action Failure B.State (Unit {0})
  write_plan schema plan = do
    for_each (λ (entry : String × List Fields). B.replace_many entry.0 entry.1) plan.upserts
    for_each (λ (entry : String × List String). B.delete_many entry.0 entry.1) plan.node_deletes
    when (nonempty plan.edge_delete_keys) (
        for_each (λ (edge : EdgeCollection). B.delete_many edge.collection plan.edge_delete_keys)
          schema.edge_collections)

-- Everything that `project_poll` does before its first call of the writer.
module _ {Payload TopicPartition : Type 0} ⦃e : Eq TopicPartition⦄ (loads : Payload → Option Json)
    (sha256_hex : String → String) (schema : GraphSchema) where
  unfoldable pub prepare :
      Dict TopicPartition (List (KafkaRecord Payload))
      → Result Failure (Gathered TopicPartition × Plan)
  prepare records = Results.◌>>=◌ (gather loads records nothing) λ g.
      Results.◌>>=◌ (plan_items sha256_hex schema (values g.pending) empty_plan)
        λ plan. ok (g, plan)

  module _ (B : Boundary TopicPartition) where
    unfoldable pub project_poll :
        Dict TopicPartition (List (KafkaRecord Payload)) → Action Failure B.State ℕ
    project_poll records = do
      prepared ← lift (prepare records)
      write_plan B schema prepared.1
      when (nonempty prepared.0.offsets) (B.commit prepared.0.offsets)
      pure prepared.0.count
