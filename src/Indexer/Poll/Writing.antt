-- ===== src/Indexer/Poll/Writing.antt =====
-- What the calls of the writer and of the consumer do to the world outside, as far as the code
-- relies on it, and what a whole plan does by them.
use semconv_graph.Base.{
  String, ◌&&◌, Option, none, some, List, [], ◌∷◌, ◌≡◌, refl, sym, ap, ◌∙◌, arith, Eq, ◌==◌,
  string_eq, string_dec, if◌then◌else◌, ok, contains,
}
use semconv_graph.Base.Actions.{
  Action, continue-eq-ok, when, for_each, for_each-cons, for_each-keeps, >>=-keeps, when-keeps,
}
use semconv_graph.Base.Dict.{Dict, lookup, NodupKeys, items_at}
use semconv_graph.Indexer.Failures.{Failure}
use semconv_graph.Indexer.Json.{Fields}
use semconv_graph.Indexer.Schema.{GraphSchema, EdgeCollection}
use semconv_graph.Indexer.Intake.{OffsetAndMetadata}
use semconv_graph.Indexer.Plans.{Plan}
use semconv_graph.Indexer.Plans.Laws.{find_document}
use semconv_graph.Indexer.Plans.Settling.{cell, IsTidy}
use semconv_graph.Indexer.Poll.{Boundary, nonempty, write_plan}

-- ArangoDB and Kafka as their clients document them. A write that returns has replaced or removed
-- the documents with the given keys and no other; a write, returning or not, commits no offset; a
-- commit changes no document, and if it returns the given offsets are committed.
pub record IsFaithful {TopicPartition : Type 0} ⦃e : Eq TopicPartition⦄
    (B : Boundary TopicPartition) : Type 0 where
  pub view : B.State → String → String → Option Fields
  pub committed : B.State → TopicPartition → Option OffsetAndMetadata
  pub replace-view :
      (c : String) (ds : List Fields) (s : B.State)
      → (B.replace_many c ds s).0 ≡ ok tt
      → (c' k : String)
      → view (B.replace_many c ds s).1 c' k ≡ (
          if c' == c
          then elim (find_document k ds) [ some d ↦ some d | none ↦ view s c' k ]
          else view s c' k)
  pub delete-view :
      (c : String) (ks : List String) (s : B.State)
      → (B.delete_many c ks s).0 ≡ ok tt
      → (c' k : String)
      → view (B.delete_many c ks s).1 c' k
        ≡ (if c' == c && contains ks k then none else view s c' k)
  pub commit-view :
      (offsets : Dict TopicPartition OffsetAndMetadata) (s : B.State) (c k : String)
      → view (B.commit offsets s).1 c k ≡ view s c k
  pub replace-committed :
      (c : String) (ds : List Fields) (s : B.State) (tp : TopicPartition)
      → committed (B.replace_many c ds s).1 tp ≡ committed s tp
  pub delete-committed :
      (c : String) (ks : List String) (s : B.State) (tp : TopicPartition)
      → committed (B.delete_many c ks s).1 tp ≡ committed s tp
  pub commit-committed :
      (offsets : Dict TopicPartition OffsetAndMetadata) (s : B.State)
      → (B.commit offsets s).0 ≡ ok tt
      → (tp : TopicPartition)
      → committed (B.commit offsets s).1 tp
        ≡ elim (lookup tp offsets) [ some o ↦ some o | none ↦ committed s tp ]

abbrev pub collections : List EdgeCollection → List String
collections [] = []
collections (edge ∷ edges) = edge.collection ∷ collections edges

module _ {TopicPartition : Type 0} ⦃e : Eq TopicPartition⦄ {B : Boundary TopicPartition}
    (F : IsFaithful B) where
  abbrev replace_each : List (String × List Fields) → Action Failure B.State (Unit {0})
  replace_each = for_each (λ (entry : String × List Fields). B.replace_many entry.0 entry.1)

  abbrev delete_each : List (String × List String) → Action Failure B.State (Unit {0})
  delete_each = for_each (λ (entry : String × List String). B.delete_many entry.0 entry.1)

  abbrev delete_edges : List String → List EdgeCollection → Action Failure B.State (Unit {0})
  delete_edges ks = for_each (λ (edge : EdgeCollection). B.delete_many edge.collection ks)

  replace_each-absent :
      (c k : String) (upserts : Dict String (List Fields)) (s : B.State)
      → lookup c upserts ≡ none
      → (replace_each upserts s).0 ≡ ok tt
      → F.view (replace_each upserts s).1 c k ≡ F.view s c k
  unfolding lookup for_each
  replace_each-absent c k [] s absent h = refl
  replace_each-absent c k ((c', ds) ∷ upserts) s absent h =
      let (first, rest, same) = for_each-cons _ (c', ds) upserts s h in
      ap (λ t. F.view t c k) same
      ∙ replace_each-absent c k upserts _ (ground arith) rest
      ∙ F.replace-view c' ds s first c k
      ∙ ground arith

  replace_each-view :
      (c k : String) (upserts : Dict String (List Fields)) (s : B.State)
      → NodupKeys upserts
      → (replace_each upserts s).0 ≡ ok tt
      → F.view (replace_each upserts s).1 c k
        ≡ elim (find_document k (items_at c upserts)) [ some d ↦ some d | none ↦ F.view s c k ]
  unfolding lookup for_each
  replace_each-view c k [] s once h = refl
  replace_each-view c k ((c', ds) ∷ upserts) s (fresh, once) h =
      let (first, rest, same) = for_each-cons _ (c', ds) upserts s h in
      ap (λ t. F.view t c k) same ∙ elim (string_dec c c') [
        | yes here ↦
            replace_each-absent c k upserts _ (rw here fresh) rest
            ∙ F.replace-view c' ds s first c k
            ∙ ground arith
        | no there ↦
            replace_each-view c k upserts _ once rest
            ∙ ground (arith, F.replace-view c' ds s first c k)
      ]

  delete_each-view :
      (c k : String) (deletes : Dict String (List String)) (s : B.State)
      → NodupKeys deletes
      → (delete_each deletes s).0 ≡ ok tt
      → F.view (delete_each deletes s).1 c k
        ≡ (if contains (items_at c deletes) k then none else F.view s c k)
  unfolding lookup for_each
  delete_each-view c k [] s once h = refl
  delete_each-view c k ((c', ks) ∷ deletes) s (fresh, once) h =
      let (first, rest, same) = for_each-cons _ (c', ks) deletes s h in
      ap (λ t. F.view t c k) same
      ∙ delete_each-view c k deletes _ once rest
      ∙ rw (F.delete-view c' ks s first c k) (ground (arith, fresh))

  delete_edges-view :
      (c k : String) (ks : List String) (edges : List EdgeCollection) (s : B.State)
      → (delete_edges ks edges s).0 ≡ ok tt
      → F.view (delete_edges ks edges s).1 c k
        ≡ (if contains ks k && contains (collections edges) c then none else F.view s c k)
  unfolding for_each
  delete_edges-view c k ks [] s h = ground arith
  delete_edges-view c k ks (edge ∷ edges) s h =
      let (first, rest, same) = for_each-cons _ edge edges s h in
      ap (λ t. F.view t c k) same
      ∙ delete_edges-view c k ks edges _ rest
      ∙ rw (F.delete-view edge.collection ks s first c k) (ground arith)

  drop_edges-view :
      (c k : String) (ks : List String) (edges : List EdgeCollection) (s : B.State)
      → (when (nonempty ks) (delete_edges ks edges) s).0 ≡ ok tt
      → F.view (when (nonempty ks) (delete_edges ks edges) s).1 c k
        ≡ (if contains ks k && contains (collections edges) c then none else F.view s c k)
  drop_edges-view c k [] edges s h = refl
  drop_edges-view c k (j ∷ ks) edges s h = delete_edges-view c k (j ∷ ks) edges s h

  -- The calls of a whole plan: where they all return, each cell holds what the plan says of it.
  pub write_plan-view :
      (schema : GraphSchema) (plan : Plan) (s : B.State) (c k : String)
      → IsTidy plan
      → (done : Unit {0}) → (write_plan B schema plan s).0 ≡ ok done
      → F.view (write_plan B schema plan s).1 c k
        ≡ cell (collections schema.edge_collections) c k plan (F.view s c k)
  unfolding write_plan
  write_plan-view schema plan s c k tidy done h =
      let s1 = (replace_each plan.upserts s).1 in
      let (_, first, same1) = continue-eq-ok (replace_each plan.upserts s).0 _ s1 h in
      let s2 = (delete_each plan.node_deletes s1).1 in
      let (_, second, same2) =
        continue-eq-ok (delete_each plan.node_deletes s1).0 _ s2 (ap (λ r. r.0) (sym same1) ∙ h) in
      ap (λ r. F.view r.1 c k) (same1 ∙ same2)
      ∙ drop_edges-view c k plan.edge_delete_keys schema.edge_collections s2
          (ap (λ r. r.0) (sym (same1 ∙ same2)) ∙ h)
      ∙ ground (
        arith,
        delete_each-view c k plan.node_deletes s1 tidy.deletes_once second,
        replace_each-view c k plan.upserts s tidy.upserts_once first,
      )

  -- No call of the writer commits an offset.
  pub write_plan-committed :
      (schema : GraphSchema) (plan : Plan) (s : B.State) (tp : TopicPartition)
      → F.committed (write_plan B schema plan s).1 tp ≡ F.committed s tp
  unfolding write_plan
  write_plan-committed schema plan s tp =
      let f = λ (t : B.State). F.committed t tp in
      >>=-keeps f (replace_each plan.upserts) _ s
        (for_each-keeps f _ (λ entry t. F.replace-committed entry.0 entry.1 t tp) plan.upserts s)
        λ _ t.
          >>=-keeps f (delete_each plan.node_deletes) _ t
            (for_each-keeps f _ (λ entry t. F.delete-committed entry.0 entry.1 t tp)
              plan.node_deletes t)
            λ _ t.
              when-keeps f (nonempty plan.edge_delete_keys)
                (delete_edges plan.edge_delete_keys schema.edge_collections) t
                (for_each-keeps f _
                  (λ edge t. F.delete-committed edge.collection plan.edge_delete_keys t tp)
                  schema.edge_collections t)
