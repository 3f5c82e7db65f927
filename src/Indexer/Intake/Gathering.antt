-- ===== src/Indexer/Intake/Gathering.antt =====
-- The whole first loop, over all partitions of a poll.
use semconv_graph.Indexer.Intake.Laws.{
  lookup-note_all, note_all-IsKeyed, note_all-NodupKeys, read_all-IsRead, last_event, IsKeyed,
  all_records, read_all, note_all, gather_records-read_all, read_all-append, note_all-append,
}
use semconv_graph.Base.{
  ◌+◌, String, Option, none, some, List, [], ◌∷◌, ◌≡◌, inl, inr, refl, ap, ◌∙◌, arith, Eq,
  string_eq, ok, err, Option-cases, Result-cases, length, length-append, All,
}
use semconv_graph.Base.Dict.{Dict, lookup, lookup-insert, NodupKeys}
use semconv_graph.Indexer.Json.{Json}
use semconv_graph.Indexer.Intake.{
  KafkaRecord, OffsetAndMetadata, PendingEvent, Gathered, nothing, gather, next_offset, note_offset,
}

-- The records of all partitions, in the order of the loops.

-- What is committed for one partition: the offset behind its last record, if it has one.
abbrev pub committed_for :
    {Payload : Type 0} → Option (List (KafkaRecord Payload)) → Option OffsetAndMetadata
committed_for none = none
committed_for (some records) = elim (next_offset records) [
  | none ↦ none
  | some offset ↦ some (record { offset = offset; metadata = "" })
]

from_nothing :
    {K V : Type 0} ⦃e : Eq K⦄ (k : K) (o : Option V)
    → (elim o [ some x ↦ some x | none ↦ lookup {V = V} k [] ]) ≡ o
unfolding lookup
from_nothing k (some x) = refl
from_nothing k none = refl

module _ {Payload TopicPartition : Type 0} ⦃e : Eq TopicPartition⦄ where
  -- The offsets noted on the way through the partitions.
  abbrev pub note_offsets :
      Dict TopicPartition (List (KafkaRecord Payload))
      → Dict TopicPartition OffsetAndMetadata
      → Dict TopicPartition OffsetAndMetadata
  note_offsets [] offsets = offsets
  note_offsets ((tp, records) ∷ rest) offsets = note_offsets rest (note_offset tp records offsets)

  -- What is gathered after one partition.
  abbrev step :
      TopicPartition
      → List (KafkaRecord Payload)
      → Gathered TopicPartition
      → List PendingEvent
      → Gathered TopicPartition
  step tp records g items = record {
    pending = note_all items g.pending;
    offsets = note_offset tp records g.offsets;
    count = g.count + length items;
  }

  pub gather-read_all :
      (loads : Payload → Option Json) (records : Dict TopicPartition (List (KafkaRecord Payload)))
      (g : Gathered TopicPartition)
      → gather loads records g ≡ elim (read_all loads (all_records records)) [
        | err e ↦ err e
        | ok items ↦ ok (record {
          pending = note_all items g.pending;
          offsets = note_offsets records g.offsets;
          count = g.count + length items;
        })
      ]
  unfolding gather
  gather-read_all loads [] g = ground arith
  gather-read_all loads ((tp, records) ∷ rest) g = elim (Result-cases (read_all loads records)) [
    | inl (e, failed) ↦ ground (
      arith,
      gather_records-read_all loads records g.pending g.count,
      read_all-append loads records (all_records rest),
    )
    | inr (items, ahead) ↦ elim (Result-cases (read_all loads (all_records rest))) [
      | inl (e, failed) ↦ ground (
        arith,
        gather_records-read_all loads records g.pending g.count,
        read_all-append loads records (all_records rest),
        gather-read_all loads rest (step tp records g items),
      )
      | inr (more, behind) ↦ ground (
        arith,
        gather_records-read_all loads records g.pending g.count,
        read_all-append loads records (all_records rest),
        gather-read_all loads rest (step tp records g items),
        note_all-append items more g.pending,
        length-append items more,
      )
    ]
  ]

  lookup-note_offsets :
      (tp : TopicPartition) (records : Dict TopicPartition (List (KafkaRecord Payload)))
      (offsets : Dict TopicPartition OffsetAndMetadata)
      → NodupKeys records
      → lookup tp (note_offsets records offsets)
        ≡ elim (committed_for (lookup tp records)) [ some o ↦ some o | none ↦ lookup tp offsets ]
  unfolding lookup
  lookup-note_offsets tp [] offsets h = refl
  lookup-note_offsets tp ((tp', records) ∷ rest) offsets (fresh, h) =
      lookup-note_offsets tp rest (note_offset tp' records offsets) h
      ∙ elim (Option-cases (next_offset records)) [
        | inl absent ↦ ground arith
        | inr (o, found) ↦
            ground (arith, lookup-insert tp tp' (record { offset = o; metadata = "" }) offsets)
      ]

  -- What the loop knows once it has gone through a poll.
  pub record IsGathered (loads : Payload → Option Json)
      (records : Dict TopicPartition (List (KafkaRecord Payload))) (g : Gathered TopicPartition)
      : Type 0 where
    pub items : List PendingEvent
    pub all_read : read_all loads (all_records records) ≡ ok items
    pub counted : g.count ≡ length items
    pub latest : (id : String) → lookup id g.pending ≡ last_event id items
    pub behind : (tp : TopicPartition) → lookup tp g.offsets ≡ committed_for (lookup tp records)
    pub keyed : All IsKeyed g.pending
    pub once : NodupKeys g.pending

  -- If the loop over a poll (a dict, so with distinct partitions) does not raise, then every record
  -- was read; `count` is their number; `pending` maps each element to its last event, and no other
  -- element to anything; and `offsets` holds, for exactly the partitions that have a record, the
  -- offset behind their last record.
  pub gather-IsGathered :
      (loads : Payload → Option Json) (records : Dict TopicPartition (List (KafkaRecord Payload)))
      {g : Gathered TopicPartition}
      → NodupKeys records
      → gather loads records nothing ≡ ok g
      → IsGathered loads records g
  gather-IsGathered loads records {g} h gathered =
      elim (Result-cases (read_all loads (all_records records))) [
        | inl (e, failed) ↦ absurd (ground (arith, gather-read_all loads records nothing))
        | inr (items, given) ↦
            let same : g ≡ record {
              pending = note_all items [];
              offsets = note_offsets records [];
              count = 0 + length items;
            } =
              ground (arith, gather-read_all loads records nothing) in
            record {
              items = items;
              all_read = given;
              counted = ap (λ (x : Gathered TopicPartition). x.count) same ∙ omega arith;
              latest = λ id.
                  ap (λ (x : Gathered TopicPartition). lookup id x.pending) same
                  ∙ lookup-note_all id items []
                  ∙ from_nothing id _;
              behind = λ tp.
                  ap (λ (x : Gathered TopicPartition). lookup tp x.offsets) same
                  ∙ lookup-note_offsets tp records [] h
                  ∙ from_nothing tp _;
              keyed = rw same (note_all-IsKeyed items [] (read_all-IsRead loads _ given) tt);
              once = rw same (note_all-NodupKeys items [] tt);
            }
      ]
