-- ===== src/Indexer/Tests.antt =====
-- Runs over a client in memory, and the theorems at concrete data. The hash of a text is the text
-- itself here, a partition is a number, and a payload is its decoded value.
use semconv_graph.Base.{
  arith, ℕ, String, ◌&&◌, Option, none, some, List, [], ◌∷◌, ◌≡◌, ◌⊎◌, ◌↔◌, refl, ◌==◌, string_eq,
  nat_eq, string_dec, if◌then◌else◌, Result, ok, err, contains,
}
use native.Mathlib.Decide.{ℕ_discrete}
use semconv_graph.Base.Dict.{Dict, lookup, insert, push, values}
use semconv_graph.Base.Text.{partition}
use semconv_graph.Base.Actions.{for_each}
use semconv_graph.Indexer.Failures.{Failure, delete_of_unknown_type}
use semconv_graph.Indexer.Json.{Json, null, number, text, object, Fields, end, display, get, put}
use semconv_graph.Indexer.Schema.{GraphSchema, vertices_by_type, edges_by_type}
use semconv_graph.Indexer.Events.{
  event_to_document, definition_of, object_map, base_document, add_aliases, add_endpoints,
  validate_event_contract, decode_event, semantic_type_from_element_id,
}
use semconv_graph.Indexer.Intake.Gathering.{IsGathered, gather-IsGathered}
use semconv_graph.Indexer.Intake.{
  PendingEvent, Gathered, nothing, KafkaRecord, OffsetAndMetadata, operation_of, accept, read,
  gather_records, gather,
}
use semconv_graph.Indexer.Plans.{
  plan_item, plan_items, plan_upsert, plan_node_delete, plan_edge_delete, node_collection,
}
use semconv_graph.Indexer.Plans.Laws.{request_of, find_document}
use semconv_graph.Indexer.Poll.{prepare, write_plan, project_poll}
use semconv_graph.Indexer.Events.Documents.{SparesAll}
use semconv_graph.Indexer.Events.Whole.{
  SparesWritten, IsInjective, IsProjection, event_to_document-IsProjection,
}
use semconv_graph.Indexer.Poll.Writing.{IsFaithful}
use semconv_graph.Indexer.Poll.Outcome.{IsProjected, project_poll-IsProjected}
use semconv_graph.Indexer.Poll.Refusals.{
  project_poll_unreadable, project_poll_unplannable, project_poll_raises, IsCommitFailure,
}
use semconv_graph.Indexer.Writer.{Harmless, server_error, document, check_delete-Harmless}
use semconv_graph.Indexer.Writer.{
  Client, all_true, listed, check_delete, delete_many, arango_writer,
}
use semconv_graph.Indexer.Writer.Faithful.{IsDocumented, arango_writer-IsFaithful}
use semconv_graph.Codegen.Names.{safe_arangodb_name, lower, python_field_name}
use semconv_graph.Codegen.Aliases.{
  sanitize_from, unique_sanitized_names, refuse_reserved, property_aliases,
}
use semconv_graph.Codegen.Aliases.Reserved.{generated_aliases-IsProjection}

record Memory : Type 0 where
  documents : String → String → Option Fields
  offsets : ℕ → Option OffsetAndMetadata

abbrev memory : Client ℕ
memory = record {
  State = Memory;
  insert_many = λ options c ds s. (
    ok tt,
    record s {
      documents = λ c' k.
          if c' == c
          then elim (find_document k ds) [ some d ↦ some d | none ↦ s.documents c' k ]
          else s.documents c' k;
    },
  );
  delete_many = λ options c ks s. (
    ok all_true,
    record s { documents = λ c' k. if c' == c && contains ks k then none else s.documents c' k },
  );
  commit = λ offsets s. (
    ok tt,
    record s { offsets = λ tp. elim (lookup tp offsets) [ some o ↦ some o | none ↦ s.offsets tp ] },
  );
}

memory-IsDocumented : IsDocumented memory
memory-IsDocumented = record {
  view = λ s. s.documents;
  committed = λ s. s.offsets;
  insert-view = λ c ds s h c' k. refl;
  delete-view = λ c ks s answer h harmless c' k. refl;
  commit-view = λ offsets s c k. refl;
  insert-committed = λ c ds s tp. refl;
  delete-committed = λ c ks s tp. refl;
  commit-committed = λ offsets s h tp. refl;
}

abbrev schema : GraphSchema
schema = record {
  metadata = record { schema_version = "3"; upstream_registry_lock_sha256 = ""; schema_hash = "" };
  graph_name = "servicegraph";
  vertex_collections =
      record { semantic_type = "service"; collection = "service"; identifying_properties = [] }
      ∷ [];
  edge_collections =
      record {
        semantic_type = "calls";
        collection = "calls";
        from_collections = "service" ∷ [];
        to_collections = "service" ∷ [];
      }
      ∷ [];
  property_aliases = ("service.name", "service_name") ∷ [];
  reserved_properties = "_key" ∷ [];
}

abbrev event : String → String → List (String × Json) → Json
event operation element_id more = object (
    display
      (("schema_version", text "3.0")
        ∷ ("event_type", text "graph_element_state_changed")
        ∷ ("operation", text operation)
        ∷ ("element_id", text element_id)
        ∷ ("event_id", text "e1")
        ∷ ("payload_hash", text "p1")
        ∷ ("observed_at_unix_nano", number "1")
        ∷ ("emitted_at_unix_ms", number "2")
        ∷ more)
      end)

abbrev fields : List (String × Json) → Json
fields entries = object (display entries end)

abbrev service_up : Json
service_up = event "upsert" "service:a" (
    (
      "element",
      fields (
          ("kind", text "node")
          ∷ ("type", text "service")
          ∷ ("attributes", fields (("service.name", text "a") ∷ []))
          ∷ []),
    )
    ∷ [])

abbrev call_up : Json
call_up = event "upsert" "edge:ab" (
    (
      "element",
      fields (
          ("kind", text "edge")
          ∷ ("type", text "calls")
          ∷ ("source_id", text "service:a")
          ∷ ("target_id", text "service:b")
          ∷ []),
    )
    ∷ [])

abbrev delete_of : String → Json
delete_of id = event "delete" id []

abbrev at : ℕ → Json → KafkaRecord Json
at offset value = record { offset = offset; value = value }

abbrev poll : Dict ℕ (List (KafkaRecord Json))
poll =
    (0, at 10 service_up ∷ at 11 (delete_of "service:b") ∷ [])
    ∷ (1, [])
    ∷ (2, at 5 (delete_of "edge:ab") ∷ at 6 call_up ∷ [])
    ∷ []

abbrev same_text : String → String
same_text s = s

run : Dict ℕ (List (KafkaRecord Json)) → Memory → Result Failure ℕ × Memory
unfolding project_poll gather gather_records read decode_event validate_event_contract accept
    operation_of insert lookup values get put string_dec ℕ_discrete prepare plan_items plan_item
    plan_upsert plan_node_delete plan_edge_delete node_collection event_to_document definition_of
    object_map base_document add_aliases add_endpoints semantic_type_from_element_id partition
    vertices_by_type edges_by_type push write_plan for_each delete_many check_delete
run = project_poll (λ (v : Json). some v) same_text schema (arango_writer memory)

abbrev empty : Memory
empty = record { documents = λ c k. none; offsets = λ tp. none }

poll_counts : (run poll empty).0 ≡ ok 4
unfolding run
poll_counts = refl

poll_places :
    ◌≡◌ {A = Option Json}
      (elim ((run poll empty).1.documents "calls" "edge:ab") [
        | none ↦ none
        | some d ↦ get "_from" d
      ])
      (some (text "service/service:a"))
unfolding run
poll_places = refl

poll_commits :
    ((run poll empty).1.offsets 2 ≡ some (record { offset = 7; metadata = "" }))
    × ((run poll empty).1.offsets 1 ≡ none)
unfolding run
poll_commits = (refl, refl)

abbrev faithful : IsFaithful (arango_writer memory)
faithful = arango_writer-IsFaithful memory memory-IsDocumented

arango_writer-IsFaithful_example : IsFaithful (arango_writer memory)
arango_writer-IsFaithful_example = arango_writer-IsFaithful memory memory-IsDocumented

spared : SparesAll schema.property_aliases
unfolding values string_dec
spared = record { key = refl; id = refl; type = refl; attributes = refl; version = refl }

written_spared : SparesWritten schema.property_aliases
unfolding values string_dec
written_spared = record {
  identity = spared;
  event_id = refl;
  payload_hash = refl;
  observed = refl;
  emitted = refl;
}

injective : IsInjective schema.property_aliases
unfolding lookup
injective = record { nodup = (refl, tt); apart = λ v w name p q. ground arith }

check_delete-Harmless_example :
    (check_delete "service" (listed (server_error 1202 ∷ document ∷ [])) ≡ ok tt)
    ↔ Harmless (listed (server_error 1202 ∷ document ∷ []))
check_delete-Harmless_example =
    check_delete-Harmless "service" (listed (server_error 1202 ∷ document ∷ []))

abbrev loads : Json → Option Json
loads v = some v

project_poll-IsProjected_example : IsProjected loads same_text schema faithful poll empty 4
unfolding run
project_poll-IsProjected_example =
    project_poll-IsProjected loads same_text schema faithful poll empty spared
      (refl, (refl, (refl, tt))) refl

abbrev item : String → String → Json → PendingEvent
item operation element_id v = record {
  element_id = element_id;
  operation = operation;
  event = elim v [ object d ↦ d | _ ↦ end ];
}

abbrev projected : Dict ℕ (List (KafkaRecord Json)) → Memory → Result Failure ℕ × Memory
projected = project_poll loads same_text schema (arango_writer memory)

abbrev torn : Dict ℕ (List (KafkaRecord Json))
torn = (0, at 10 service_up ∷ []) ∷ (1, at 3 null ∷ []) ∷ []

project_poll_unreadable_example : (first : Failure) × (projected torn empty ≡ (err first, empty))
unfolding run
project_poll_unreadable_example =
    project_poll_unreadable loads same_text schema (arango_writer memory) torn
      (at 10 service_up ∷ []) [] (at 3 null) empty refl refl

abbrev stray : Dict ℕ (List (KafkaRecord Json))
stray = (0, at 10 service_up ∷ at 11 (delete_of "rack:1") ∷ []) ∷ []

project_poll_unplannable_example : (first : Failure) × (projected stray empty ≡ (err first, empty))
unfolding run request_of
project_poll_unplannable_example =
    project_poll_unplannable loads same_text schema (arango_writer memory) stray
      (item "upsert" "service:a" service_up ∷ item "delete" "rack:1" (delete_of "rack:1") ∷ [])
      "rack:1" (item "delete" "rack:1" (delete_of "rack:1")) empty (refl, tt) refl refl refl

project_poll_raises_example :
    ((tp : ℕ) → faithful.committed (projected stray empty).1 tp ≡ faithful.committed empty tp)
    ⊎ IsCommitFailure loads same_text schema
        (arango_writer memory)
        stray
        empty
        (delete_of_unknown_type "rack")
unfolding run
project_poll_raises_example =
    project_poll_raises loads same_text schema (arango_writer memory) stray faithful empty refl

abbrev call_fields : Fields
call_fields = (item "upsert" "edge:ab" call_up).event

placed : String × Fields
unfolding run
placed = elim (event_to_document same_text call_fields schema) [ ok p ↦ p | err _ ↦ ("", end) ]

event_to_document-IsProjection_example : IsProjection same_text call_fields schema placed.0 placed.1
unfolding run placed
event_to_document-IsProjection_example =
    event_to_document-IsProjection same_text call_fields schema written_spared injective refl

gathered : Gathered ℕ
unfolding run
gathered = elim (gather loads poll nothing) [ ok g ↦ g | err _ ↦ nothing ]

gather-IsGathered_example : IsGathered loads poll gathered
unfolding run gathered
gather-IsGathered_example = gather-IsGathered loads poll (refl, (refl, (refl, tt))) refl

accepted : property_aliases ("service.name" ∷ []) ≡ ok schema.property_aliases
unfolding property_aliases unique_sanitized_names sanitize_from refuse_reserved insert lookup
    safe_arangodb_name lower python_field_name string_dec ℕ_discrete
accepted = refl

generated_aliases-IsProjection_example : IsProjection same_text call_fields schema placed.0 placed.1
unfolding run placed
generated_aliases-IsProjection_example =
    generated_aliases-IsProjection same_text ("service.name" ∷ []) call_fields schema accepted refl
