-- ===== src/Codegen/Aliases/Reserved.antt =====
-- The aliases of the generated schema against the fields of the documents: `_property_aliases` of
-- tools/semconv_codegen/generator.py, and what `event_to_document` of the indexer needs of its result.

use semconv_graph.Base.{
  String, true, false, string_eq, contains, some, List, [], ◌∷◌, ok, Bool-cases, ◌≡◌, refl, arith,
  inl, inr, All, All-contains, string_dec,
}
use semconv_graph.Base.Dict.{Dict, lookup, values}
use semconv_graph.Codegen.Names.{NameError, reserved_field}
use semconv_graph.Codegen.Aliases.{
  unique_sanitized_names, refuse_reserved, property_aliases, reserved_properties,
}
use semconv_graph.Codegen.Aliases.Laws.{IsNaming, IsSanitized, unique_sanitized_names-IsSanitized}
use semconv_graph.Indexer.Json.{Fields}
use semconv_graph.Indexer.Schema.{GraphSchema}
use semconv_graph.Indexer.Events.{event_to_document}
use semconv_graph.Indexer.Events.Documents.{Spares}
use semconv_graph.Indexer.Events.Whole.{SparesWritten, IsProjection, event_to_document-IsProjection}

-- No alias is a reserved field.
pub SparesReserved : Dict String String → Type 0
SparesReserved aliases = All (λ name. Spares name aliases) reserved_properties

-- The first reserved field that an alias takes.
IsReserved : Dict String String → NameError → Type 0
IsReserved aliases (reserved_field canonical alias) =
    (lookup canonical aliases ≡ some alias) × (contains reserved_properties alias ≡ true)
IsReserved aliases _ = ⊥

Spares-cons :
    (names : List String) (canonical alias : String) (rest : Dict String String)
    → contains names alias ≡ false
    → All (λ name. Spares name rest) names
    → All (λ name. Spares name ((canonical, alias) ∷ rest)) names
unfolding values
Spares-cons [] canonical alias rest h spared = tt
Spares-cons (name ∷ names) canonical alias rest h (here, spared) =
    (ground arith, Spares-cons names canonical alias rest (ground arith) spared)

Spares-none : (names : List String) → All (λ name. Spares name []) names
unfolding values
Spares-none [] = tt
Spares-none (name ∷ names) = (refl, Spares-none names)

refuse_reserved-SparesReserved :
    (aliases : Dict String String) → refuse_reserved aliases ≡ ok tt → SparesReserved aliases
unfolding refuse_reserved SparesReserved
refuse_reserved-SparesReserved [] h = Spares-none reserved_properties
refuse_reserved-SparesReserved ((canonical, alias) ∷ rest) h =
    elim (Bool-cases (contains reserved_properties alias)) [
      | inl taken ↦ absurd (ground arith)
      | inr free ↦
          let after : refuse_reserved rest ≡ ok tt = ground arith in
          Spares-cons reserved_properties canonical alias rest free
            (refuse_reserved-SparesReserved rest after)
    ]

property_aliases-parts :
    (values : List String) (aliases : Dict String String)
    → property_aliases values ≡ ok aliases
    → (unique_sanitized_names values "property alias" ≡ ok aliases)
      × (refuse_reserved aliases ≡ ok tt)
unfolding property_aliases
property_aliases-parts values aliases h = ground arith

-- Where the aliases are accepted, each value has its safe name as alias, no two values the same,
-- and no alias is a reserved field.
pub property_aliases-IsNaming :
    (values : List String) (aliases : Dict String String)
    → property_aliases values ≡ ok aliases
    → IsNaming values aliases × SparesReserved aliases
unfolding IsSanitized
property_aliases-IsNaming values aliases h =
    let parts = property_aliases-parts values aliases h in
    (
      rw parts.0 at (unique_sanitized_names-IsSanitized values "property alias"),
      refuse_reserved-SparesReserved aliases parts.1,
    )

SparesWritten-reserved :
    (aliases : Dict String String) → SparesReserved aliases → SparesWritten aliases
unfolding SparesReserved reserved_properties string_dec
SparesWritten-reserved aliases spared =
    let spares = All-contains (λ name. Spares name aliases) reserved_properties spared in
    record {
      identity = record {
        key = spares "_key" refl;
        id = spares "element_id" refl;
        type = spares "semantic_type" refl;
        attributes = spares "attributes" refl;
        version = spares "schema_version" refl;
      };
      event_id = spares "event_id" refl;
      payload_hash = spares "payload_hash" refl;
      observed = spares "observed_at_unix_nano" refl;
      emitted = spares "emitted_at_unix_ms" refl;
    }

module _ (sha256_hex : String → String) where
  -- An event becomes the document that it describes, for every schema whose aliases the code generator
  -- accepted: no alias overwrites a field that the document has before the aliases are added, each alias holds
  -- the value of the attribute it stands for, unless it is a field of the ends of an edge, and the document of
  -- an edge has both of its ends.
  pub generated_aliases-IsProjection :
      (canonical_names : List String) (event : Fields) (schema : GraphSchema) {collection : String}
      {document : Fields}
      → property_aliases canonical_names ≡ ok schema.property_aliases
      → event_to_document sha256_hex event schema ≡ ok (collection, document)
      → IsProjection sha256_hex event schema collection document
  generated_aliases-IsProjection canonical_names event schema accepted h =
      let (naming, spared) =
        property_aliases-IsNaming canonical_names schema.property_aliases accepted in
      event_to_document-IsProjection sha256_hex event schema
        (SparesWritten-reserved schema.property_aliases spared)
        record { nodup = naming.nodup; apart = naming.injective } h
