-- ===== src/Lib.antt =====
-- Verification of semconv-graph.
--
-- The program keeps a graph of services in a database. Its code generator
-- (tools/semconv_codegen) checks a registry of semantic conventions and writes, among other things, the
-- schema of the graph. Its indexer (services/servicegraph-indexer) reads change events from Kafka in
-- polls, turns each event into a document by that schema, writes the documents to ArangoDB, and then
-- commits the offsets. Its Gremlin client (packages/extended-opentelemetry-semconv) queries the
-- documents and rebuilds typed entities and edges from them.
--
-- Base holds what the parts share: the `==` and `in` of Python for types with decidable equality
-- (Base/Equality), code that may raise (Base/Results), calls that change the outside world and may
-- raise (Base/Actions), lists, dicts in insertion order (Base/Dict), `str.partition` (Base/Text), and
-- `sorted` and sets of texts (Base/Sorting).
--
-- Indexer models services/servicegraph-indexer/src/servicegraph_indexer:
--   Indexer/Json      decoded JSON, and dict lookup and assignment on it
--   Indexer/Schema    schema.py: the records of the schema, `vertices_by_type`, `edges_by_type`
--   Indexer/Failures  the exceptions that leave `project_poll`
--   Indexer/Events    indexer.py: `_decode_event`, `_validate_event_contract`, `event_to_document`
--   Indexer/Intake    indexer.py: the first loop of `project_poll`, over the records of a poll
--   Indexer/Plans     indexer.py: its second loop, over the last event of each element
--   Indexer/Poll      indexer.py: `project_poll`, over the two boundary protocols
--   Indexer/Writer    indexer.py: `ArangoWriter`, over a client of the database
--   Indexer/Database  initialize.py: the boundary protocols and the normalized edge definitions
--   Indexer/Initialize  initialize.py: `ensure_topology` and what it calls
--   Indexer/Startup   initialize.py: `create_database`, `wait_for_database`, `initialize`
-- A poll is a dict from partitions to lists of records. `json.loads`, the SHA-256 hash, the type of
-- partitions, the database and the broker are arguments. What a writer and a consumer must do is
-- `IsFaithful` in Indexer/Poll/Writing; what the client libraries document is `IsDocumented` in
-- Indexer/Writer/Faithful, and the first is proved from the second. What the initialization relies on
-- of the database is `IsDocumented` in Indexer/Database/Documented; Indexer/Database/Memory has it.
--
-- Codegen models tools/semconv_codegen:
--   Codegen/Names     `_safe_arangodb_name` of generator.py, `python_field_name` and
--                     `python_class_name` of semantic_schema.py
--   Codegen/Aliases   `_unique_sanitized_names` and `_property_aliases` of generator.py
--   Codegen/Registry  the documents of registry/model.py, and registry/validation.py
--   Codegen/Relationships  `_generated_relationship`, `_validate_relationship_class_names` of generator.py
--   Codegen/Models    `build_semantic_models` of semantic_schema.py, and its types
--   Codegen/Files     `write_files` and `check_files` of generator.py, where lines end as on POSIX
-- The regular expressions are passes over the characters; `lower` and `capitalize` are those of ASCII.
-- In Codegen/Aliases/Reserved the aliases meet the indexer, which takes them from the schema.
--
-- Gremlin models extended_otel_semconv of packages/extended-opentelemetry-semconv/src:
--   Gremlin/Steps      the tables of steps of gremlin/client.py
--   Gremlin/Traversal  `_validate_element_traversal` and `_unsupported_step` of gremlin/client.py
--   Gremlin/Values     the values that the driver returns
--   Gremlin/Models     `semantic_entity_from_data` of entities.py, `semantic_edge_from_data` of edges.py,
--                      and in Models/Flattening and Models/Freezing `semantic_attributes`, `_freeze_value`
--                      and `freeze_containers` of entities.py
--   Gremlin/Generated  the classes and tables of generated/_models.py, entities.py and edges.py
--   Gremlin/Client     `query`, `close` and the reconstruction of results of gremlin/client.py
-- The driver, the server, the callback that builds a traversal and the field checks of pydantic are
-- arguments; so are the tables of generated classes where nothing depends on what they hold. Of a
-- generated field the model has the name, the alias, the type, the least length and whether it has a
-- default, not the description.
--
-- Demo models services/servicegraph-demo/src/servicegraph_demo/main.py:
--   Demo/Topology  `Topology`: its constructor, `advance` and `sample`
--   Demo/Config    `Config` and `Config.validate`
--   Demo/Loop      the loop of `run`
-- The type of edges, the random generator, what `build_request` draws from it, the order of floating
-- numbers, and what the clock, `_send` and `time.sleep` do in each round are arguments.
--
-- Every function is structurally recursive, but for the loop of `wait_for_database`, which is on fuel: one
-- round for each second of the deadline and one more, since a round sleeps for a second or up to the
-- deadline. Times are numbers of ticks. Numbers of JSON are kept as their literals, since the indexer only
-- copies them; offsets are natural numbers without a bound, as in Python. A call that raises
-- keeps what was done before it: the state stands beside the exception.
--
-- Not modelled: the loop and the settings of the indexer, the traces that the demo sends, the text of the
-- generated modules and schemas, the selection of dimensions, the reading of YAML, the local tooling,
-- the benchmarks, the examples, and the stream processor, which is written in Java.
pub mod Base
pub mod Codegen
pub mod Demo
pub mod Gremlin
pub mod Indexer
