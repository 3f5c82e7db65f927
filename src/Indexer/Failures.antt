-- ===== src/Indexer/Failures.antt =====
-- The exceptions that leave `project_poll`: an `IndexingError` for each place that raises one, the
-- exceptions of Python's own operations, and those that the client libraries raise.
use semconv_graph.Base.{ℕ, String}

pub data Failure : Type 0 where
  json_decode_error type_error : Failure
  key_error : String → Failure
  not_an_object unsupported_schema unsupported_event_type invalid_operation : Failure
  upsert_only no_element carries_metrics invalid_identity unsupported_kind : Failure
  attributes_not_an_object invalid_endpoints : Failure
  unknown_semantic_type : String → Failure
  unknown_endpoint_types : String → String → Failure
  no_type_prefix : String → Failure
  delete_of_unknown_type : String → Failure
  invalid_delete_result : String → Failure
  delete_failed : String → ℕ → Failure
  client_error : String → Failure
