-- ===== src/Indexer/Poll/Refusals.antt =====
-- What a poll leaves behind when `project_poll` raises.
use semconv_graph.Base.{
  ℕ, String, Option, some, List, [], ◌∷◌, ◌++◌, ◌≡◌, ◌⊎◌, inl, inr, ◌∙◌, arith, Eq, string_eq,
  string_dec, ok, err, Result-cases,
}
use semconv_graph.Base.Actions.{pure, when, ◌>>◌}
use semconv_graph.Base.Dict.{Dict, lookup, values, NodupKeys}
use semconv_graph.Indexer.Failures.{Failure}
use semconv_graph.Indexer.Json.{Json}
use semconv_graph.Indexer.Schema.{GraphSchema}
use semconv_graph.Indexer.Intake.{
  KafkaRecord, OffsetAndMetadata, PendingEvent, Gathered, nothing, read, gather,
}
use semconv_graph.Indexer.Intake.Laws.{all_records, last_event, read_all}
use semconv_graph.Indexer.Intake.Gathering.{gather-read_all, gather-IsGathered}
use semconv_graph.Indexer.Plans.{Plan, empty_plan, plan_item, plan_items}
use semconv_graph.Indexer.Plans.Laws.{request_of, plan_item-request_of}
use semconv_graph.Indexer.Poll.{Boundary, nonempty, write_plan, prepare, project_poll}
use semconv_graph.Indexer.Poll.Writing.{IsFaithful, write_plan-committed}

module _ {Payload : Type 0} (loads : Payload → Option Json) where
  read_all_fails :
      (before after : List (KafkaRecord Payload)) (r : KafkaRecord Payload) {failure : Failure}
      → read loads r.value ≡ err failure
      → (first : Failure) × (read_all loads (before ++ (r ∷ after)) ≡ err first)
  read_all_fails [] after r {failure} h = (failure, ground arith)
  read_all_fails (x ∷ before) after r h = elim (Result-cases (read loads x.value)) [
    | inl (first, failed) ↦ (first, ground arith)
    | inr (item, given) ↦
        let (first, failed) = read_all_fails before after r h in (first, ground arith)
  ]

module _ (sha256_hex : String → String) (schema : GraphSchema) where
  -- One event that cannot be planned stops the loop, wherever it stands.
  plan_items_fails :
      (id : String) (pending : Dict String PendingEvent) (p : Plan) {item : PendingEvent}
      {failure : Failure}
      → lookup id pending ≡ some item
      → request_of sha256_hex schema item ≡ err failure
      → (first : Failure) × (plan_items sha256_hex schema (values pending) p ≡ err first)
  unfolding plan_items values lookup
  plan_items_fails id [] p found h = absurd (ground arith)
  plan_items_fails id ((j, x) ∷ pending) p {item} {failure} found h =
      elim (Result-cases (plan_item sha256_hex schema x p)) [
        | inl (first, failed) ↦ (first, ground arith)
        | inr (q, planned) ↦ elim (string_dec id j) [
          | yes same ↦
              let here : x ≡ item = ground arith in
              absurd (ground (arith, plan_item-request_of sha256_hex schema x p))
          | no differ ↦
              let (first, failed) = plan_items_fails id pending q (ground arith) h in
              (first, ground arith)
        ]
      ]

module _ {Payload TopicPartition : Type 0} ⦃e : Eq TopicPartition⦄ (loads : Payload → Option Json)
    (sha256_hex : String → String) (schema : GraphSchema) (B : Boundary TopicPartition)
    (records : Dict TopicPartition (List (KafkaRecord Payload))) where
  -- A poll that holds a record which cannot be read, anywhere, makes no call: `project_poll` raises
  -- and the state is that before.
  pub project_poll_unreadable :
      (before after : List (KafkaRecord Payload)) (r : KafkaRecord Payload) (s : B.State)
      {failure : Failure}
      → all_records records ≡ before ++ (r ∷ after)
      → read loads r.value ≡ err failure
      → (first : Failure) × (project_poll loads sha256_hex schema B records s ≡ (err first, s))
  unfolding project_poll prepare
  project_poll_unreadable before after r s split h =
      let (first, failed) = read_all_fails loads before after r h in
      let refused : gather loads records nothing ≡ err first =
        gather-read_all loads records nothing ∙ rw (split, failed) in
      (first, rw refused)

  -- If the last event of some element cannot be planned (an upsert that does not convert, or a node
  -- delete of no known type), then the whole poll makes no call: `project_poll` raises and the state
  -- is that before. The partitions are distinct and every record is read.
  pub project_poll_unplannable :
      (items : List PendingEvent) (id : String) (item : PendingEvent) (s : B.State)
      {failure : Failure}
      → NodupKeys records
      → read_all loads (all_records records) ≡ ok items
      → last_event id items ≡ some item
      → request_of sha256_hex schema item ≡ err failure
      → (first : Failure) × (project_poll loads sha256_hex schema B records s ≡ (err first, s))
  unfolding project_poll prepare
  project_poll_unplannable items id item s once given found h =
      elim (Result-cases (gather loads records nothing)) [
        | inl (first, failed) ↦ (first, rw failed)
        | inr (g, gathered) ↦
            let known = gather-IsGathered loads records once gathered in
            let same : known.items ≡ items = ground (arith, known.all_read) in
            let (first, failed) =
              plan_items_fails sha256_hex schema id g.pending empty_plan
                (known.latest id ∙ rw same found) h in
            (first, rw (gathered, failed))
      ]

  -- A commit that raises after writes that all returned.
  pub record IsCommitFailure (s : B.State) (failure : Failure) : Type 0 where
    pub gathered : Gathered TopicPartition
    pub plan : Plan
    pub done : Unit {0}
    pub prepared : prepare loads sha256_hex schema records ≡ ok (gathered, plan)
    pub written : (write_plan B schema plan s).0 ≡ ok done
    pub raised : (B.commit gathered.offsets (write_plan B schema plan s).1).0 ≡ err failure

  commit_raises :
      (offsets : Dict TopicPartition OffsetAndMetadata) (count : ℕ) (t : B.State)
      {failure : Failure}
      → ((when (nonempty offsets) (B.commit offsets) >> pure count) t).0 ≡ err failure
      → (B.commit offsets t).0 ≡ err failure
  commit_raises [] count t h = absurd (ground arith)
  commit_raises (o ∷ offsets) count t h = elim (Result-cases (B.commit (o ∷ offsets) t).0) [
    | inl (first, failed) ↦ ground arith
    | inr (done, returned) ↦ absurd (ground arith)
  ]

  -- If `project_poll` raises, then no offset was committed, or all the writes returned and the call
  -- that raised is the commit itself.
  pub project_poll_raises :
      (F : IsFaithful B) (s : B.State) {failure : Failure}
      → (project_poll loads sha256_hex schema B records s).0 ≡ err failure
      → ((tp : TopicPartition)
          → F.committed (project_poll loads sha256_hex schema B records s).1 tp ≡ F.committed s tp)
        ⊎ IsCommitFailure s failure
  unfolding project_poll
  project_poll_raises F s {failure} h =
      elim (Result-cases (prepare loads sha256_hex schema records)) [
        | inl (first, failed) ↦ inl (λ tp. rw failed)
        | inr ((g, plan), prepared) ↦ elim (Result-cases (write_plan B schema plan s).0) [
          | inl (first, failed) ↦
              inl (λ tp. rw (prepared, failed) (write_plan-committed F schema plan s tp))
          | inr (done, written) ↦ inr (record {
            gathered = g;
            plan = plan;
            done = done;
            prepared = prepared;
            written = written;
            raised =
                commit_raises g.offsets g.count (write_plan B schema plan s).1
                  (rw (prepared, written) at h);
          })
        ]
      ]
