-- ===== src/Indexer/Intake/Laws.antt =====
-- What the first loop of `project_poll` gathers: the last event of each element, the number of
-- records, and the offset behind the last record of each partition.
use semconv_graph.Base.{
  ℕ, ◌+◌, String, Option, none, some, List, [], ◌∷◌, ◌++◌, ◌≡◌, ◌⊎◌, inl, inr, refl, sym, ◌∙◌,
  arith, ◌==◌, string_eq, string_dec, if◌then◌else◌, Result, ok, err, >>=-eq-ok, Result-cases,
  length, All,
}
use mathlib.Core.Logic.{if_pos, if_neg}
use semconv_graph.Base.Dict.{Dict, lookup, insert, lookup-insert, NodupKeys, insert-NodupKeys}
use semconv_graph.Indexer.Failures.{Failure}
use semconv_graph.Indexer.Json.{Json, text, Fields, get}
use semconv_graph.Indexer.Events.{decode_event}
use semconv_graph.Indexer.Intake.{
  KafkaRecord, PendingEvent, operation_of, accept, read, gather_records,
}

-- The records of all partitions, in the order of the loops.
module _ {Payload TopicPartition : Type 0} where
  -- The records of all partitions, in the order of the loops.
  abbrev pub all_records :
      Dict TopicPartition (List (KafkaRecord Payload)) → List (KafkaRecord Payload)
  all_records [] = []
  all_records ((_, records) ∷ rest) = records ++ all_records rest

-- The last of the events that concern this element.
abbrev pub last_event : String → List PendingEvent → Option PendingEvent
last_event id [] = none
last_event id (x ∷ xs) = elim (last_event id xs) [
  | some later ↦ some later
  | none ↦ if id == x.element_id then some x else none
]

-- The event says of itself what the loop noted of it.
pub record IsRead (item : PendingEvent) : Type 0 where
  pub names_element : get "element_id" item.event ≡ some (text item.element_id)
  pub names_operation : get "operation" item.event ≡ some (text item.operation)
  pub known : (item.operation ≡ "upsert") ⊎ (item.operation ≡ "delete")

operation_of-text :
    (v : Option Json) {s : String}
    → operation_of v ≡ ok s
    → (v ≡ some (text s)) × ((s ≡ "upsert") ⊎ (s ≡ "delete"))
unfolding operation_of
operation_of-text v h = ground arith

accept-parts :
    (event : Fields) {item : PendingEvent}
    → accept event ≡ ok item
    → (get "element_id" event ≡ some (text item.element_id))
      × (operation_of (get "operation" event) ≡ ok item.operation)
      × (item.event ≡ event)
unfolding accept
accept-parts event h = ground arith

accept-IsRead : (event : Fields) {item : PendingEvent} → accept event ≡ ok item → IsRead item
accept-IsRead event {item} h =
    let (named, operated, same) = accept-parts event h in
    let (given, known) = operation_of-text (get "operation" event) operated in
    record { names_element = rw same named; names_operation = rw same given; known = known }

module _ {Payload : Type 0} (loads : Payload → Option Json) where
  -- Each record read in turn.
  abbrev pub read_all : List (KafkaRecord Payload) → Result Failure (List PendingEvent)
  read_all [] = ok []
  read_all (r ∷ records) = elim (read loads r.value) [
    | err e ↦ err e
    | ok item ↦ elim (read_all records) [ err e ↦ err e | ok items ↦ ok (item ∷ items) ]
  ]

-- The assignments `pending[element_id] = …`, one for each event.
abbrev pub note_all : List PendingEvent → Dict String PendingEvent → Dict String PendingEvent
note_all [] pending = pending
note_all (x ∷ xs) pending = note_all xs (insert x.element_id x pending)

pub lookup-note_all :
    (id : String) (items : List PendingEvent) (pending : Dict String PendingEvent)
    → lookup id (note_all items pending)
      ≡ elim (last_event id items) [ some x ↦ some x | none ↦ lookup id pending ]
lookup-note_all id [] pending = refl
lookup-note_all id (x ∷ xs) pending =
    lookup-note_all id xs (insert x.element_id x pending)
    ∙ ground (arith, lookup-insert id x.element_id x pending)

pub note_all-NodupKeys :
    (items : List PendingEvent) (pending : Dict String PendingEvent)
    → NodupKeys pending
    → NodupKeys (note_all items pending)
note_all-NodupKeys [] pending h = h
note_all-NodupKeys (x ∷ xs) pending h = note_all-NodupKeys xs _ (insert-NodupKeys _ x pending h)

-- Each entry stands under the identifier of its own event, and was read from a record.
abbrev pub IsKeyed : String × PendingEvent → Type 0
IsKeyed entry = (entry.0 ≡ entry.1.element_id) × IsRead entry.1

insert-IsKeyed :
    (x : PendingEvent) (pending : Dict String PendingEvent)
    → IsRead x
    → All IsKeyed pending
    → All IsKeyed (insert x.element_id x pending)
unfolding insert
insert-IsKeyed x [] r h = ((refl, r), tt)
insert-IsKeyed x ((id, y) ∷ pending) r ((e, ry), h) = elim (string_dec x.element_id id) [
  | yes same ↦ rw (if_pos _ same) ((sym same, r), h)
  | no differ ↦ rw (if_neg _ differ) ((e, ry), insert-IsKeyed x pending r h)
]

pub note_all-IsKeyed :
    (items : List PendingEvent) (pending : Dict String PendingEvent)
    → All IsRead items
    → All IsKeyed pending
    → All IsKeyed (note_all items pending)
note_all-IsKeyed [] pending r h = h
note_all-IsKeyed (x ∷ xs) pending (r, rs) h =
    note_all-IsKeyed xs _ rs (insert-IsKeyed x pending r h)

module _ {Payload : Type 0} (loads : Payload → Option Json) where
  read-IsRead : (value : Payload) {item : PendingEvent} → read loads value ≡ ok item → IsRead item
  unfolding read
  read-IsRead value h =
      let (event, _, accepted) = >>=-eq-ok (decode_event (loads value)) accept h in
      accept-IsRead event accepted

  pub read_all-IsRead :
      (records : List (KafkaRecord Payload)) {items : List PendingEvent}
      → read_all loads records ≡ ok items
      → All IsRead items
  read_all-IsRead [] {items} h = let e : items ≡ [] = ground arith in rw e tt
  read_all-IsRead (r ∷ records) {items} h = elim (Result-cases (read loads r.value)) [
    | inl (e, failed) ↦ absurd (ground arith)
    | inr (item, given) ↦ elim (Result-cases (read_all loads records)) [
      | inl (e, failed) ↦ absurd (ground arith)
      | inr (items', rest) ↦
          let e : items ≡ item ∷ items' = ground arith in
          rw e (read-IsRead r.value given, read_all-IsRead records rest)
    ]
  ]

  pub gather_records-read_all :
      (records : List (KafkaRecord Payload)) (pending : Dict String PendingEvent) (count : ℕ)
      → gather_records loads records pending count ≡ elim (read_all loads records) [
        | err e ↦ err e
        | ok items ↦ ok (note_all items pending, count + length items)
      ]
  unfolding gather_records
  gather_records-read_all [] pending count = ground arith
  gather_records-read_all (r ∷ records) pending count = elim (Result-cases (read loads r.value)) [
    | inl (e, failed) ↦ ground arith
    | inr (item, given) ↦ elim (Result-cases (read_all loads records)) [
      | inl (e, failed) ↦
          ground (
            arith,
            gather_records-read_all records (insert item.element_id item pending) (count + 1),
          )
      | inr (items, rest) ↦
          ground (
            arith,
            gather_records-read_all records (insert item.element_id item pending) (count + 1),
          )
    ]
  ]

  pub read_all-append :
      (xs ys : List (KafkaRecord Payload))
      → read_all loads (xs ++ ys) ≡ elim (read_all loads xs) [
        | err e ↦ err e
        | ok items ↦ elim (read_all loads ys) [ err e ↦ err e | ok more ↦ ok (items ++ more) ]
      ]
  read_all-append [] ys = elim (Result-cases (read_all loads ys)) [
    | inl (e, failed) ↦ ground arith
    | inr (items, given) ↦ ground arith
  ]
  read_all-append (x ∷ xs) ys = elim (Result-cases (read loads x.value)) [
    | inl (e, failed) ↦ ground arith
    | inr (item, given) ↦ elim (Result-cases (read_all loads xs)) [
      | inl (e, failed) ↦ ground (arith, read_all-append xs ys)
      | inr (items, ahead) ↦ elim (Result-cases (read_all loads ys)) [
        | inl (e, failed) ↦ ground (arith, read_all-append xs ys)
        | inr (more, behind) ↦ ground (arith, read_all-append xs ys)
      ]
    ]
  ]

pub note_all-append :
    (xs ys : List PendingEvent) (pending : Dict String PendingEvent)
    → note_all (xs ++ ys) pending ≡ note_all ys (note_all xs pending)
note_all-append [] ys pending = refl
note_all-append (x ∷ xs) ys pending = note_all-append xs ys (insert x.element_id x pending)
