-- ===== src/Indexer/Poll/Outcome.antt =====
-- What a poll leaves behind, whether `project_poll` returns or raises.
use semconv_graph.Base.{
  ℕ, String, Option, none, some, List, [], ◌∷◌, ◌≡◌, ◌≢◌, inl, inr, refl, sym, ap, ◌∙◌, arith, Eq,
  string_eq, Result, ok, >>=-eq-ok, Option-cases, All, length,
}
use semconv_graph.Base.Actions.{Action, continue-eq-ok, when}
use semconv_graph.Base.Dict.{Dict, lookup, values, NodupKeys}
use semconv_graph.Indexer.Failures.{Failure}
use semconv_graph.Indexer.Json.{Json}
use semconv_graph.Indexer.Schema.{GraphSchema}
use semconv_graph.Indexer.Events.Documents.{SparesAll}
use semconv_graph.Indexer.Intake.{
  KafkaRecord, OffsetAndMetadata, PendingEvent, Gathered, nothing, gather,
}
use semconv_graph.Indexer.Intake.Laws.{all_records, last_event, read_all}
use semconv_graph.Indexer.Intake.Gathering.{committed_for, gather-IsGathered}
use semconv_graph.Indexer.Plans.{Plan, empty_plan, plan_items}
use semconv_graph.Indexer.Plans.Laws.{Request, request_of}
use semconv_graph.Indexer.Plans.Settling.{
  cell-empty_plan, cell-SameMarks, outcome, plan_items-cell, plan_items-SameMarks,
  plan_items-IsTidy,
}
use semconv_graph.Indexer.Poll.{Boundary, nonempty, write_plan, prepare, project_poll}
use semconv_graph.Indexer.Poll.Writing.{
  IsFaithful, collections, write_plan-view, write_plan-committed,
}

pub last_event-All :
    (P : PendingEvent → Type 0) (id : String) (items : List PendingEvent) {x : PendingEvent}
    → All P items
    → last_event id items ≡ some x
    → P x × (x.element_id ≡ id)
last_event-All P id [] h e = absurd (ground arith)
last_event-All P id (y ∷ items) {x} (h, hs) e = elim (Option-cases (last_event id items)) [
  | inl absent ↦ let same : y ≡ x = ground arith in (rw (sym same) h, ground arith)
  | inr (z, found) ↦
      let same : z ≡ x = ground arith in
      let (p, named) = last_event-All P id items hs found in (rw (sym same) p, rw (sym same) named)
]

-- What is known of the key of every present entry holds of all entries.
All-present :
    {V : Type 0} (Q : String → Type 0) (d : Dict String V)
    → NodupKeys d
    → ((k : String) (v : V) → lookup k d ≡ some v → Q k)
    → All (λ entry. Q entry.0) d
unfolding lookup
All-present Q [] once h = tt
All-present Q ((j, v) ∷ d) (fresh, once) h =
    (h j v (ground arith), All-present Q d once λ k w found. h k w (ground (arith, fresh)))

-- The hash of the identifier is the hash of no other identifier of the poll.
abbrev pub Unmixed : (String → String) → String → List PendingEvent → Type 0
Unmixed sha256_hex id items =
    All (λ x. sha256_hex x.element_id ≡ sha256_hex id → x.element_id ≡ id) items

module _ {Payload TopicPartition : Type 0} ⦃e : Eq TopicPartition⦄ (loads : Payload → Option Json)
    (sha256_hex : String → String) (schema : GraphSchema) {B : Boundary TopicPartition}
    (F : IsFaithful B) (records : Dict TopicPartition (List (KafkaRecord Payload))) where
  abbrev run : B.State → Result Failure ℕ × B.State
  run = project_poll loads sha256_hex schema B records

  -- A poll that returns: every record was read, in order, as `items`.
  pub record IsProjected (s : B.State) (n : ℕ) : Type 0 where
    pub items : List PendingEvent
    pub all_read : read_all loads (all_records records) ≡ ok items
    pub counted : n ≡ length items
    -- Each element's documents are what its last event asks for.
    pub placed :
        (c id : String) (item : PendingEvent)
        → last_event id items ≡ some item
        → Unmixed sha256_hex id items
        → (r : Request) × (request_of sha256_hex schema item ≡ ok r)
          × (F.view (run s).1 c (sha256_hex id)
              ≡ outcome
                  (collections schema.edge_collections)
                  c
                  (sha256_hex id)
                  r
                  (F.view s c (sha256_hex id)))
    -- Documents of other elements are left alone.
    pub kept :
        (c k : String)
        → All (λ x. sha256_hex x.element_id ≢ k) items
        → F.view (run s).1 c k ≡ F.view s c k
    -- Each partition is committed behind its last record.
    pub advanced :
        (tp : TopicPartition)
        → F.committed (run s).1 tp
          ≡ elim (committed_for (lookup tp records)) [ some o ↦ some o | none ↦ F.committed s tp ]

  prepare-parts :
      {g : Gathered TopicPartition} {plan : Plan}
      → prepare loads sha256_hex schema records ≡ ok (g, plan)
      → (gather loads records nothing ≡ ok g)
        × (plan_items sha256_hex schema (values g.pending) empty_plan ≡ ok plan)
  unfolding prepare
  prepare-parts {g} {plan} h =
      let (g', gathered, h1) = >>=-eq-ok (gather loads records nothing) _ h in
      let (plan', planned, h2) =
        >>=-eq-ok (plan_items sha256_hex schema (values g'.pending) empty_plan) _ h1 in
      let same : g' ≡ g = ground arith in
      let same' : plan' ≡ plan = ground arith in
      (
        gathered ∙ ap ok same,
        ap
              (λ (x : Gathered TopicPartition).
                plan_items sha256_hex schema (values x.pending) empty_plan)
              (sym same)
            ∙ planned
            ∙ ap ok same',
      )

  abbrev wrote : Plan → B.State → B.State
  wrote plan s = (write_plan B schema plan s).1

  abbrev finish : Gathered TopicPartition → Action Failure B.State (Unit {0})
  finish g = when (nonempty g.offsets) (B.commit g.offsets)

  run-parts :
      (s : B.State) {n : ℕ}
      → (run s).0 ≡ ok n
      → (g : Gathered TopicPartition) × (plan : Plan) × (prepare loads sha256_hex schema records
          ≡ ok (g, plan))
        × (done : Unit {0}) × ((write_plan B schema plan s).0 ≡ ok done)
        × ((finish g (wrote plan s)).0 ≡ ok tt)
        × (n ≡ g.count)
        × ((run s).1 ≡ (finish g (wrote plan s)).1)
  unfolding project_poll
  run-parts s {n} h =
      let ((g, plan), prepared, same0) =
        continue-eq-ok (prepare loads sha256_hex schema records) _ s h in
      let t = wrote plan s in
      let (done, written, same1) =
        continue-eq-ok (write_plan B schema plan s).0 _ t (ap (λ r. r.0) (sym same0) ∙ h) in
      let u = (finish g t).1 in
      let (_, finished, same2) =
        continue-eq-ok (finish g t).0 _ u (ap (λ r. r.0) (sym (same0 ∙ same1)) ∙ h) in
      let same = same0 ∙ same1 ∙ same2 in
      let returned : ◌≡◌ {A = Result Failure ℕ} (ok g.count) (ok n) =
        ap (λ r. r.0) (sym same) ∙ h in
      let counted : n ≡ g.count = ground arith in
      (g, plan, prepared, done, written, finished, counted, ap (λ r. r.1) same)

  finish-view :
      (offsets : Dict TopicPartition OffsetAndMetadata) (s : B.State) (c k : String)
      → F.view (when (nonempty offsets) (B.commit offsets) s).1 c k ≡ F.view s c k
  finish-view [] s c k = refl
  finish-view (o ∷ offsets) s c k = F.commit-view (o ∷ offsets) s c k

  finish-committed :
      (offsets : Dict TopicPartition OffsetAndMetadata) (s : B.State) (tp : TopicPartition)
      → (when (nonempty offsets) (B.commit offsets) s).0 ≡ ok tt
      → F.committed (when (nonempty offsets) (B.commit offsets) s).1 tp
        ≡ elim (lookup tp offsets) [ some o ↦ some o | none ↦ F.committed s tp ]
  unfolding lookup
  finish-committed [] s tp h = refl
  finish-committed (o ∷ offsets) s tp h = F.commit-committed (o ∷ offsets) s h tp

  -- If a poll with distinct partitions returns, over a writer and a consumer that are faithful and a
  -- schema whose aliases overwrite no field of the identity, then every record was read and counted;
  -- the documents of each element whose hash no other element of the poll shares are what its last event
  -- asks for; the documents at every other key are as before; and exactly the partitions with a record are
  -- committed, each behind its last record.
  pub project_poll-IsProjected :
      (s : B.State) {n : ℕ}
      → SparesAll schema.property_aliases
      → NodupKeys records
      → (run s).0 ≡ ok n
      → IsProjected s n
  project_poll-IsProjected s spared once h =
      let (g, plan, prepared, done, written, finished, counted, same) = run-parts s h in
      let (gathered, planned) = prepare-parts prepared in
      let known = gather-IsGathered loads records once gathered in
      let tidy =
        plan_items-IsTidy sha256_hex schema (values g.pending) empty_plan plan
          (record { upserts_once = tt; deletes_once = tt }) planned in
      let seen = λ (c k : String).
        ap (λ t. F.view t c k) same
        ∙ finish-view g.offsets (wrote plan s) c k
        ∙ write_plan-view F schema plan s c k tidy done written in
      record {
        items = known.items;
        all_read = known.all_read;
        counted = counted ∙ known.counted;
        placed = λ c id item found unmixed.
            let (r, asked, ends) =
              plan_items-cell sha256_hex schema spared (collections schema.edge_collections) c id
                g.pending empty_plan plan (F.view s c (sha256_hex id)) known.keyed known.once
                (All-present (λ j. sha256_hex j ≡ sha256_hex id → j ≡ id) g.pending known.once
                  λ j x there.
                    let (p, named) =
                      last_event-All
                        (λ x. sha256_hex x.element_id ≡ sha256_hex id → x.element_id ≡ id) j
                        known.items unmixed (sym (known.latest j) ∙ there) in
                    rw named at p)
                (record { same_written = refl; same_node = refl; same_edge = refl })
                (known.latest id ∙ found) planned in
            (r, asked, seen c (sha256_hex id) ∙ ends);
        kept = λ c k others.
            seen c k
            ∙ cell-SameMarks (collections schema.edge_collections) c k plan empty_plan
                (F.view s c k)
                (plan_items-SameMarks sha256_hex schema spared c k g.pending empty_plan plan
                  known.keyed
                  (All-present (λ j. sha256_hex j ≢ k) g.pending known.once
                    λ j x there.
                      let (p, named) =
                        last_event-All (λ x. sha256_hex x.element_id ≢ k) j known.items others
                          (sym (known.latest j) ∙ there) in
                      rw named at p)
                  planned)
            ∙ cell-empty_plan (collections schema.edge_collections) c k (F.view s c k);
        advanced = λ tp.
            ap (λ t. F.committed t tp) same
            ∙ finish-committed g.offsets (wrote plan s) tp finished
            ∙ ground (arith, known.behind tp, write_plan-committed F schema plan s tp);
      }
