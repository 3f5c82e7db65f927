-- ===== src/Indexer/Writer/Faithful.antt =====
-- The writer over a client that behaves as ArangoDB and Kafka document it is what `project_poll`
-- relies on.
use semconv_graph.Base.{
  String, ◌&&◌, Option, none, some, List, ◌≡◌, refl, sym, ap, ◌∙◌, Eq, ◌==◌, string_eq,
  if◌then◌else◌, ok, contains,
}
use semconv_graph.Base.Actions.{continue-eq-ok, >>=-keeps, lift}
use semconv_graph.Base.Dict.{Dict, lookup}
use semconv_graph.Indexer.Json.{Fields}
use semconv_graph.Indexer.Intake.{OffsetAndMetadata}
use semconv_graph.Indexer.Plans.Laws.{find_document}
use semconv_graph.Indexer.Poll.Writing.{IsFaithful}
use semconv_graph.Indexer.Writer.{
  Client, DeleteResults, Harmless, replacing, unchecked, check_delete, check_delete-Harmless,
  delete_many, arango_writer,
}

-- A call that returns has done what it says: `insert_many`, if it is asked to replace and to raise on an error of a
-- document, has stored each document under its `_key`; `delete_many` without a check of revisions, if its answer shows no error but missing
-- documents, has removed the keys. Neither touches another document or an offset.
pub record IsDocumented {TopicPartition : Type 0} ⦃e : Eq TopicPartition⦄
    (C : Client TopicPartition) : Type 0 where
  pub view : C.State → String → String → Option Fields
  pub committed : C.State → TopicPartition → Option OffsetAndMetadata
  pub insert-view :
      (c : String) (ds : List Fields) (s : C.State)
      → (C.insert_many replacing c ds s).0 ≡ ok tt
      → (c' k : String)
      → view (C.insert_many replacing c ds s).1 c' k ≡ (
          if c' == c
          then elim (find_document k ds) [ some d ↦ some d | none ↦ view s c' k ]
          else view s c' k)
  pub delete-view :
      (c : String) (ks : List String) (s : C.State) (answer : DeleteResults)
      → (C.delete_many unchecked c ks s).0 ≡ ok answer
      → Harmless answer
      → (c' k : String)
      → view (C.delete_many unchecked c ks s).1 c' k
        ≡ (if c' == c && contains ks k then none else view s c' k)
  pub commit-view :
      (offsets : Dict TopicPartition OffsetAndMetadata) (s : C.State) (c k : String)
      → view (C.commit offsets s).1 c k ≡ view s c k
  pub insert-committed :
      (c : String) (ds : List Fields) (s : C.State) (tp : TopicPartition)
      → committed (C.insert_many replacing c ds s).1 tp ≡ committed s tp
  pub delete-committed :
      (c : String) (ks : List String) (s : C.State) (tp : TopicPartition)
      → committed (C.delete_many unchecked c ks s).1 tp ≡ committed s tp
  pub commit-committed :
      (offsets : Dict TopicPartition OffsetAndMetadata) (s : C.State)
      → (C.commit offsets s).0 ≡ ok tt
      → (tp : TopicPartition)
      → committed (C.commit offsets s).1 tp
        ≡ elim (lookup tp offsets) [ some o ↦ some o | none ↦ committed s tp ]

module _ {TopicPartition : Type 0} ⦃e : Eq TopicPartition⦄ (C : Client TopicPartition)
    (D : IsDocumented C) where
  delete-Harmless :
      (c : String) (ks : List String) (s : C.State)
      → (delete_many C c ks s).0 ≡ ok tt
      → (answer : DeleteResults) × ((C.delete_many unchecked c ks s).0 ≡ ok answer)
        × Harmless answer
        × ((delete_many C c ks s).1 ≡ (C.delete_many unchecked c ks s).1)
  unfolding delete_many
  delete-Harmless c ks s h =
      let (answer, given, same) =
        continue-eq-ok (C.delete_many unchecked c ks s).0 (λ results. lift (check_delete c results))
          (C.delete_many unchecked c ks s).1 h in
      (
        answer,
        given,
        (check_delete-Harmless c answer).0 (ap (λ r. r.0) (sym same) ∙ h),
        ap (λ r. r.1) same,
      )

  -- The writer and the consumer that the indexer builds keep the promises that a poll relies on, if the
  -- client of the database and of the broker does what it documents.
  pub arango_writer-IsFaithful : IsFaithful (arango_writer C)
  unfolding delete_many
  arango_writer-IsFaithful = record {
    view = D.view;
    committed = D.committed;
    replace-view = D.insert-view;
    delete-view = λ c ks s h c' k.
        let (answer, given, harmless, same) = delete-Harmless c ks s h in
        ap (λ t. D.view t c' k) same ∙ D.delete-view c ks s answer given harmless c' k;
    commit-view = D.commit-view;
    replace-committed = D.insert-committed;
    delete-committed = λ c ks s tp.
        >>=-keeps (λ t. D.committed t tp) (C.delete_many unchecked c ks)
          (λ results. lift (check_delete c results)) s (D.delete-committed c ks s tp) (λ _ _. refl);
    commit-committed = D.commit-committed;
  }
