-- ===== src/Indexer/Plans/Laws.antt =====
-- What one event asks for, and what planning it changes for one key of one collection.
use package.text.Mathlib.Text.{starts_with}
use semconv_graph.Base.{
  String, Bool, Option, none, some, List, [], ◌∷◌, ◌++◌, ◌≡◌, ◌≢◌, inl, inr, refl, arith, ◌==◌,
  string_eq, if◌then◌else◌, Result, ok, err, ◌>>=◌, Result-cases, contains, contains-append,
}
use semconv_graph.Base.Dict.{items_at, push, items_at-push}
use semconv_graph.Indexer.Failures.{Failure}
use semconv_graph.Indexer.Json.{text, Fields, get}
use semconv_graph.Indexer.Schema.{GraphSchema}
use semconv_graph.Indexer.Events.{event_to_document, is_text}
use semconv_graph.Indexer.Events.Documents.{SparesAll, event_to_document-IsPlaced}
use semconv_graph.Indexer.Intake.{PendingEvent}
use semconv_graph.Indexer.Intake.Laws.{IsRead}
use semconv_graph.Indexer.Plans.{
  Plan, node_collection, plan_upsert, plan_node_delete, plan_edge_delete, plan_item,
}

-- What the last event of an element asks for.
pub data Request : Type 0 where
  replace : String → Fields → Request
  drop_node : String → Request
  drop_edge : Request

-- The last of the documents with this key.
abbrev pub find_document : String → List Fields → Option Fields
find_document k [] = none
find_document k (d ∷ ds) = elim (find_document k ds) [
  | some later ↦ some later
  | none ↦ if is_text k (get "_key" d) then some d else none
]

pub find_document-snoc :
    (k : String) (ds : List Fields) (d : Fields)
    → find_document k (ds ++ (d ∷ []))
      ≡ (if is_text k (get "_key" d) then some d else find_document k ds)
find_document-snoc k [] d = refl
find_document-snoc k (x ∷ ds) d = ground (arith, find_document-snoc k ds d)

abbrev pub carry_out : String → Request → Plan → Plan
carry_out key (replace c d) plan = record plan { upserts = push c d plan.upserts }
carry_out key (drop_node c) plan = record plan { node_deletes = push c key plan.node_deletes }
carry_out key drop_edge plan = record plan {
  edge_delete_keys = plan.edge_delete_keys ++ (key ∷ []);
}

-- A document of a request carries the key of its element.
abbrev pub Carries : String → Request → Type 0
Carries key (replace c d) = get "_key" d ≡ some (text key)
Carries key (drop_node c) = Unit
Carries key drop_edge = Unit

module _ (sha256_hex : String → String) (schema : GraphSchema) where
  unfoldable pub request_of : PendingEvent → Result Failure Request
  request_of item =
      if item.operation == "upsert"
      then (do
        placed ← event_to_document sha256_hex item.event schema
        ok (replace placed.0 placed.1))
      else if starts_with item.element_id "edge:"
      then ok drop_edge
      else (do
        collection ← node_collection sha256_hex schema item.element_id
        ok (drop_node collection))

  pub plan_item-request_of :
      (item : PendingEvent) (plan : Plan)
      → plan_item sha256_hex schema item plan ≡ elim (request_of item) [
        | err e ↦ err e
        | ok r ↦ ok (carry_out (sha256_hex item.element_id) r plan)
      ]
  unfolding plan_item plan_upsert plan_node_delete plan_edge_delete request_of
  plan_item-request_of item plan =
      elim (Result-cases (event_to_document sha256_hex item.event schema)) [
        | inl (e, failed) ↦
            elim (Result-cases (node_collection sha256_hex schema item.element_id)) [
              | inl (e', failed') ↦ ground arith
              | inr (c, found) ↦ ground arith
            ]
        | inr (placed, converted) ↦
            elim (Result-cases (node_collection sha256_hex schema item.element_id)) [
              | inl (e', failed') ↦ ground arith
              | inr (c, found) ↦ ground arith
            ]
      ]

  request_of-parts :
      (item : PendingEvent) {c : String} {d : Fields}
      → request_of item ≡ ok (replace c d)
      → event_to_document sha256_hex item.event schema ≡ ok (c, d)
  unfolding request_of
  request_of-parts item h = elim (Result-cases (event_to_document sha256_hex item.event schema)) [
    | inl (e, failed) ↦ ground arith
    | inr (placed, converted) ↦ ground arith
  ]

  pub request_of-Carries :
      (item : PendingEvent) (r : Request)
      → SparesAll schema.property_aliases
      → IsRead item
      → request_of item ≡ ok r
      → Carries (sha256_hex item.element_id) r
  request_of-Carries item (replace c d) spared given h =
      let p =
        event_to_document-IsPlaced sha256_hex item.event schema spared (request_of-parts item h) in
      let same : item.element_id ≡ p.element_id = ground (arith, given.names_element, p.has_id) in
      rw same p.keyed
  request_of-Carries item (drop_node c) spared given h = tt
  request_of-Carries item drop_edge spared given h = tt

-- The marks that a plan has for one key of one collection.
module _ (c k : String) where
  abbrev pub written : Plan → Option Fields
  written plan = find_document k (items_at c plan.upserts)

  abbrev pub node_gone : Plan → Bool
  node_gone plan = contains (items_at c plan.node_deletes) k

  abbrev pub edge_gone : Plan → Bool
  edge_gone plan = contains plan.edge_delete_keys k

  pub record SameMarks (p q : Plan) : Type 0 where
    pub same_written : written p ≡ written q
    pub same_node : node_gone p ≡ node_gone q
    pub same_edge : edge_gone p ≡ edge_gone q

  -- A request for another key leaves the marks alone.
  pub carry_out-SameMarks :
      (key : String) (r : Request) (plan : Plan)
      → Carries key r
      → key ≢ k
      → SameMarks (carry_out key r plan) plan
  carry_out-SameMarks key (replace c' d) plan carried differ = record {
    same_written = ground (
      arith,
      items_at-push c c' d plan.upserts,
      find_document-snoc k (items_at c plan.upserts) d,
    );
    same_node = refl;
    same_edge = refl;
  }
  carry_out-SameMarks key (drop_node c') plan carried differ = record {
    same_written = refl;
    same_node = ground (
      arith,
      items_at-push c c' key plan.node_deletes,
      contains-append (items_at c plan.node_deletes) (key ∷ []) k,
    );
    same_edge = refl;
  }
  carry_out-SameMarks key drop_edge plan carried differ = record {
    same_written = refl;
    same_node = refl;
    same_edge = ground (arith, contains-append plan.edge_delete_keys (key ∷ []) k);
  }
