-- ===== src/Indexer/Intake.antt =====
-- The first loop of `project_poll` of indexer.py, which reads the records of one poll and keeps the
-- last event of each element.
pub mod Laws
pub mod Gathering
use semconv_graph.Base.{
  ℕ, ◌+◌, String, ◌||◌, Option, none, some, List, [], ◌∷◌, Eq, ◌==◌, string_eq, if◌then◌else◌,
  Result, ok, err, ◌>>=◌, expect,
}
use semconv_graph.Base.Dict.{Dict, insert}
use semconv_graph.Indexer.Failures.{Failure, type_error, invalid_operation}
use semconv_graph.Indexer.Json.{Json, text, array, object, Fields, get, as_text}
use semconv_graph.Indexer.Events.{decode_event}

pub record KafkaRecord (Payload : Type 0) : Type 0 where
  pub offset : ℕ
  pub value : Payload

pub record OffsetAndMetadata : Type 0 where
  pub offset : ℕ
  pub metadata : String

pub record PendingEvent : Type 0 where
  pub element_id : String
  pub operation : String
  pub event : Fields

-- `operation not in {"upsert", "delete"}` hashes the value: a list or a dict raises TypeError.
unfoldable pub operation_of : Option Json → Result Failure String
operation_of (some (text s)) =
    if s == "upsert" || s == "delete" then ok s else err invalid_operation
operation_of (some (array _)) = err type_error
operation_of (some (object _)) = err type_error
operation_of _ = err invalid_operation

-- The body of the loop over one partition's records, up to the assignment.
unfoldable pub accept : Fields → Result Failure PendingEvent
accept event = do
  element_id ← expect (as_text (get "element_id" event)) invalid_operation
  operation ← operation_of (get "operation" event)
  ok (record { element_id = element_id; operation = operation; event = event })

-- What the first loop has gathered: `pending`, `offsets` and `count`.
pub record Gathered (TopicPartition : Type 0) : Type 0 where
  pub pending : Dict String PendingEvent
  pub offsets : Dict TopicPartition OffsetAndMetadata
  pub count : ℕ

abbrev pub nothing : {TopicPartition : Type 0} → Gathered TopicPartition
nothing = record { pending = []; offsets = []; count = 0 }

module _ {Payload : Type 0} (loads : Payload → Option Json) where
  -- `_decode_event(record.value)` and the check of its identity.
  unfoldable pub read : Payload → Result Failure PendingEvent
  read value = do event ← decode_event (loads value); accept event

  unfoldable pub gather_records :
      List (KafkaRecord Payload)
      → Dict String PendingEvent
      → ℕ
      → Result Failure (Dict String PendingEvent × ℕ)
  gather_records [] pending count = ok (pending, count)
  gather_records (r ∷ records) pending count = elim (read r.value) [
    | err e ↦ err e
    | ok item ↦ gather_records records (insert item.element_id item pending) (count + 1)
  ]

-- `partition_records[-1].offset + 1`, if there is a record.
abbrev pub next_offset : {Payload : Type 0} → List (KafkaRecord Payload) → Option ℕ
next_offset [] = none
next_offset (r ∷ []) = some (r.offset + 1)
next_offset (r ∷ r' ∷ records) = next_offset (r' ∷ records)

module _ {Payload TopicPartition : Type 0} ⦃e : Eq TopicPartition⦄ where
  -- `if partition_records: offsets[topic_partition] = …`
  abbrev pub note_offset :
      TopicPartition
      → List (KafkaRecord Payload)
      → Dict TopicPartition OffsetAndMetadata
      → Dict TopicPartition OffsetAndMetadata
  note_offset tp records offsets = elim (next_offset records) [
    | none ↦ offsets
    | some offset ↦ insert tp (record { offset = offset; metadata = "" }) offsets
  ]

  module _ (loads : Payload → Option Json) where
    -- The loop over `records.items()`.
    unfoldable pub gather :
        Dict TopicPartition (List (KafkaRecord Payload))
        → Gathered TopicPartition
        → Result Failure (Gathered TopicPartition)
    gather [] g = ok g
    gather ((tp, records) ∷ rest) g = elim (gather_records loads records g.pending g.count) [
      | err failure ↦ err failure
      | ok (pending, count) ↦
          gather rest (record {
            pending = pending;
            offsets = note_offset tp records g.offsets;
            count = count;
          })
    ]
