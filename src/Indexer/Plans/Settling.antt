-- ===== src/Indexer/Plans/Settling.antt =====
-- What a whole plan leaves in one cell of the database, the document with key `k` of collection `c`.
use semconv_graph.Base.{
  String, ◌&&◌, Option, none, some, List, [], ◌∷◌, ◌≡◌, ◌≢◌, inl, inr, refl, sym, ap, ◌∙◌, arith,
  ◌==◌, string_eq, string_dec, if◌then◌else◌, ok, Result-cases, contains, contains-append, All,
}
use semconv_graph.Base.Dict.{
  Dict, lookup, values, NodupKeys, items_at, items_at-push, push-NodupKeys,
}
use semconv_graph.Indexer.Json.{Fields}
use semconv_graph.Indexer.Schema.{GraphSchema}
use semconv_graph.Indexer.Events.Documents.{SparesAll}
use semconv_graph.Indexer.Intake.{PendingEvent}
use semconv_graph.Indexer.Intake.Laws.{IsKeyed}
use semconv_graph.Indexer.Plans.{Plan, empty_plan, plan_item, plan_items}
use semconv_graph.Indexer.Plans.Laws.{
  Request, replace, drop_node, drop_edge, request_of, carry_out, plan_item-request_of, Carries,
  request_of-Carries, written, node_gone, edge_gone, SameMarks, carry_out-SameMarks,
  find_document-snoc,
}

module _ (edge_collections : List String) (c k : String) where
  -- The cell once the calls of the plan are made.
  abbrev pub cell : Plan → Option Fields → Option Fields
  cell plan before =
      if edge_gone c k plan && contains edge_collections c
      then none
      else if node_gone c k plan
      then none
      else elim (written c k plan) [ some d ↦ some d | none ↦ before ]

  -- The cell of an element once its last event is carried out.
  abbrev pub outcome : Request → Option Fields → Option Fields
  outcome (replace c' d) before = if c == c' then some d else before
  outcome (drop_node c') before = if c == c' then none else before
  outcome drop_edge before = if contains edge_collections c then none else before

  pub cell-SameMarks :
      (p q : Plan) (before : Option Fields) → SameMarks c k p q → cell p before ≡ cell q before
  cell-SameMarks p q before m = ground (arith, m.same_written, m.same_node, m.same_edge)

  pub cell-empty_plan : (before : Option Fields) → cell empty_plan before ≡ before
  unfolding lookup
  cell-empty_plan before = refl

  cell-carry_out :
      (r : Request) (plan : Plan) (before : Option Fields)
      → Carries k r
      → SameMarks c k plan empty_plan
      → cell (carry_out k r plan) before ≡ outcome r before
  unfolding lookup
  cell-carry_out (replace c' d) plan before carried clean = ground (
    arith,
    clean.same_written,
    clean.same_node,
    clean.same_edge,
    items_at-push c c' d plan.upserts,
    find_document-snoc k (items_at c plan.upserts) d,
  )
  cell-carry_out (drop_node c') plan before carried clean = ground (
    arith,
    clean.same_written,
    clean.same_node,
    clean.same_edge,
    items_at-push c c' k plan.node_deletes,
    contains-append (items_at c plan.node_deletes) (k ∷ []) k,
  )
  cell-carry_out drop_edge plan before carried clean = ground (
    arith,
    clean.same_written,
    clean.same_node,
    clean.same_edge,
    contains-append plan.edge_delete_keys (k ∷ []) k,
  )

SameMarks-trans :
    {c k : String} {p q r : Plan} → SameMarks c k p q → SameMarks c k q r → SameMarks c k p r
SameMarks-trans m n = record {
  same_written = m.same_written ∙ n.same_written;
  same_node = m.same_node ∙ n.same_node;
  same_edge = m.same_edge ∙ n.same_edge;
}

module _ (sha256_hex : String → String) (schema : GraphSchema) where
  -- A round that does not raise carries out the request of its event.
  plan_item-inv :
      (item : PendingEvent) (p : Plan) {q : Plan}
      → plan_item sha256_hex schema item p ≡ ok q
      → (r : Request) × (request_of sha256_hex schema item ≡ ok r)
        × (q ≡ carry_out (sha256_hex item.element_id) r p)
  plan_item-inv item p h = elim (Result-cases (request_of sha256_hex schema item)) [
    | inl (e, failed) ↦ absurd (ground (arith, plan_item-request_of sha256_hex schema item p))
    | inr (r, asked) ↦ (r, asked, ground (arith, plan_item-request_of sha256_hex schema item p))
  ]

  plan_items-cons :
      (item : PendingEvent) (items : List PendingEvent) (p : Plan) {q : Plan}
      → plan_items sha256_hex schema (item ∷ items) p ≡ ok q
      → (r : Request) × (request_of sha256_hex schema item ≡ ok r)
        × (plan_items sha256_hex schema items (carry_out (sha256_hex item.element_id) r p) ≡ ok q)
  unfolding plan_items
  plan_items-cons item items p h = elim (Result-cases (plan_item sha256_hex schema item p)) [
    | inl (e, failed) ↦ absurd (ground arith)
    | inr (p', planned) ↦
        let (r, asked, same) = plan_item-inv item p planned in
        (r, asked, rw (sym same) (ground arith))
  ]

module _ (sha256_hex : String → String) (schema : GraphSchema)
    (spared : SparesAll schema.property_aliases) where
  module _ (c k : String) where
    -- No element of the rest has the key.
    pub plan_items-SameMarks :
        (pending : Dict String PendingEvent) (p q : Plan)
        → All IsKeyed pending
        → All (λ entry. sha256_hex entry.0 ≢ k) pending
        → plan_items sha256_hex schema (values pending) p ≡ ok q
        → SameMarks c k q p
    unfolding plan_items values
    plan_items-SameMarks [] p q keyed others h =
        let same : p ≡ q = ground arith in
        rw same (record { same_written = refl; same_node = refl; same_edge = refl })
    plan_items-SameMarks ((id, item) ∷ pending) p q ((named, given), keyed) (other, others) h =
        let (r, asked, rest) = plan_items-cons sha256_hex schema item (values pending) p h in
        SameMarks-trans
          (plan_items-SameMarks pending (carry_out (sha256_hex item.element_id) r p) q keyed others
            rest)
          (carry_out-SameMarks c k (sha256_hex item.element_id) r p
            (request_of-Carries sha256_hex schema item r spared given asked) (rw (sym named) other))

  -- No other entry has the key of `id`.
  apart :
      (id : String) (pending : Dict String PendingEvent)
      → lookup id pending ≡ none
      → All (λ entry. sha256_hex entry.0 ≡ sha256_hex id → entry.0 ≡ id) pending
      → All (λ entry. sha256_hex entry.0 ≢ sha256_hex id) pending
  unfolding lookup
  apart id [] absent alone = tt
  apart id ((j, _) ∷ pending) absent (unmixed, alone) = elim (string_dec id j) [
    | yes same ↦ absurd (ground arith)
    | no differ ↦ (λ clash. differ (sym (unmixed clash)), apart id pending (ground arith) alone)
  ]

  -- A plan that was made leaves, in each cell of a pending element, what its last event asks for.
  pub plan_items-cell :
      (edge_collections : List String) (c id : String) (pending : Dict String PendingEvent)
      (p q : Plan) {item : PendingEvent} (before : Option Fields)
      → All IsKeyed pending
      → NodupKeys pending
      → All (λ entry. sha256_hex entry.0 ≡ sha256_hex id → entry.0 ≡ id) pending
      → SameMarks c (sha256_hex id) p empty_plan
      → lookup id pending ≡ some item
      → plan_items sha256_hex schema (values pending) p ≡ ok q
      → (r : Request) × (request_of sha256_hex schema item ≡ ok r)
        × (cell edge_collections c (sha256_hex id) q before
            ≡ outcome edge_collections c (sha256_hex id) r before)
  unfolding lookup values
  plan_items-cell es c id [] p q before keyed once alone clean found h = absurd (ground arith)
  plan_items-cell es c id ((j, x) ∷ pending) p q {item} before ((named, given), keyed) (fresh, once)
        (unmixed, alone) clean found h =
      let (r, asked, rest) = plan_items-cons sha256_hex schema x (values pending) p h in
      elim (string_dec id j) [
        | yes same ↦
            let here : x ≡ item = ground arith in
            let key : sha256_hex x.element_id ≡ sha256_hex id =
              ap sha256_hex (sym (same ∙ named)) in
            let carried : Carries (sha256_hex id) r =
              rw key at (request_of-Carries sha256_hex schema x r spared given asked) in
            let others = apart id pending (rw (sym same) at fresh) alone in
            (
              r,
              ap (request_of sha256_hex schema) (sym here) ∙ asked,
              cell-SameMarks es c (sha256_hex id) q _ before (
                    plan_items-SameMarks c (sha256_hex id) pending (carry_out (sha256_hex id) r p) q
                      keyed others (rw key at rest))
                  ∙ cell-carry_out es c (sha256_hex id) r p before carried clean,
            )
        | no differ ↦
            let other : sha256_hex x.element_id ≢ sha256_hex id =
              λ clash. differ (sym (unmixed (ap sha256_hex named ∙ clash))) in
            plan_items-cell es c id pending (carry_out (sha256_hex x.element_id) r p) q before keyed
              once alone
              (SameMarks-trans
                (carry_out-SameMarks c (sha256_hex id) (sha256_hex x.element_id) r p
                  (request_of-Carries sha256_hex schema x r spared given asked) other)
                clean)
              (ground arith) rest
      ]

-- No collection stands twice in a plan.
pub record IsTidy (plan : Plan) : Type 0 where
  pub upserts_once : NodupKeys plan.upserts
  pub deletes_once : NodupKeys plan.node_deletes

carry_out-IsTidy :
    (key : String) (r : Request) (plan : Plan) → IsTidy plan → IsTidy (carry_out key r plan)
carry_out-IsTidy key (replace c d) plan h = record {
  upserts_once = push-NodupKeys c d plan.upserts h.upserts_once;
  deletes_once = h.deletes_once;
}
carry_out-IsTidy key (drop_node c) plan h = record {
  upserts_once = h.upserts_once;
  deletes_once = push-NodupKeys c key plan.node_deletes h.deletes_once;
}
carry_out-IsTidy key drop_edge plan h = record {
  upserts_once = h.upserts_once;
  deletes_once = h.deletes_once;
}

module _ (sha256_hex : String → String) (schema : GraphSchema) where
  pub plan_items-IsTidy :
      (items : List PendingEvent) (p q : Plan)
      → IsTidy p
      → plan_items sha256_hex schema items p ≡ ok q
      → IsTidy q
  unfolding plan_items
  plan_items-IsTidy [] p q tidy h = let same : p ≡ q = ground arith in rw (sym same) tidy
  plan_items-IsTidy (item ∷ items) p q tidy h =
      let (r, asked, rest) = plan_items-cons sha256_hex schema item items p h in
      plan_items-IsTidy items (carry_out (sha256_hex item.element_id) r p) q
        (carry_out-IsTidy (sha256_hex item.element_id) r p tidy) rest
