-- ===== src/Indexer/Events/Whole.antt =====
-- The whole document of an upsert: what `event_to_document` writes itself, and the aliases.
use semconv_graph.Base.{
  String, ◌==◌, string_eq, string_dec, true, false, none, some, [], ◌∷◌, ok, contains, ◌≡◌, refl,
  ◌∙◌, arith, Bool-cases, inl, inr,
}
use semconv_graph.Base.Dict.{Dict, lookup, values, NodupKeys}
use semconv_graph.Indexer.Json.{Json, Fields, get, put, get-put}
use semconv_graph.Indexer.Schema.{GraphSchema}
use semconv_graph.Indexer.Events.{edge, add_aliases, event_to_document}
use semconv_graph.Indexer.Events.Documents.{
  Spares, SparesAll, get-add_aliases, base_document-get, link_fields, unlinked, IsPlaced,
  event_to_document-IsPlaced,
}

-- No alias is a field that the document has before the aliases are added.
pub record SparesWritten (aliases : Dict String String) : Type 0 where
  pub identity : SparesAll aliases
  pub event_id : Spares "event_id" aliases
  pub payload_hash : Spares "payload_hash" aliases
  pub observed : Spares "observed_at_unix_nano" aliases
  pub emitted : Spares "emitted_at_unix_ms" aliases

-- No two canonical names share an alias.
pub record IsInjective (aliases : Dict String String) : Type 0 where
  pub nodup : NodupKeys aliases
  pub apart :
      (v w name : String) → lookup v aliases ≡ some name → lookup w aliases ≡ some name → v ≡ w

later-lookup :
    (c a : String) (rest : Dict String String) (k b : String)
    → lookup c rest ≡ none
    → lookup k rest ≡ some b
    → lookup k ((c, a) ∷ rest) ≡ some b
unfolding lookup
later-lookup c a rest k b fresh found = elim (Bool-cases (k == c)) [
  | inl same ↦
      let eq : k ≡ c = ground arith in
      let gone : lookup k rest ≡ none = rw eq fresh in absurd (ground arith)
  | inr differ ↦ rw (lookup, differ) found
]

IsInjective-rest :
    (c a : String) (rest : Dict String String) → IsInjective ((c, a) ∷ rest) → IsInjective rest
IsInjective-rest c a rest h =
    let (fresh, once) = h.nodup in
    record {
      nodup = once;
      apart = λ v w name p q.
          h.apart v w name (later-lookup c a rest v name fresh p)
            (later-lookup c a rest w name fresh q);
    }

values-lookup :
    (aliases : Dict String String) (a : String)
    → NodupKeys aliases
    → contains (values aliases) a ≡ true
    → (c : String) × (lookup c aliases ≡ some a)
unfolding values lookup
values-lookup [] a once h = absurd (ground arith)
values-lookup ((c, b) ∷ rest) a (fresh, once) h = elim (Bool-cases (a == b)) [
  | inl same ↦ let eq : b ≡ a = ground arith in (c, ground arith)
  | inr differ ↦
      let (d, found) = values-lookup rest a once (ground arith) in
      (d, later-lookup c b rest d a fresh found)
]

head-Spares :
    (c a : String) (rest : Dict String String) → IsInjective ((c, a) ∷ rest) → Spares a rest
unfolding lookup
head-Spares c a rest h = elim (Bool-cases (contains (values rest) a)) [
  | inr free ↦ free
  | inl taken ↦
      let (fresh, once) = h.nodup in
      let (d, found) = values-lookup rest a once taken in
      let same : d ≡ c =
        h.apart d c a (later-lookup c a rest d a fresh found) (unfold lookup in ground arith) in
      let gone : lookup d rest ≡ none = rw same fresh in absurd (ground arith)
]

get-add_aliases-some :
    (aliases : Dict String String) (attributes document : Fields) (c a : String) (v : Json)
    → IsInjective aliases
    → lookup c aliases ≡ some a
    → get c attributes ≡ some v
    → get a (add_aliases aliases attributes document) ≡ some v
unfolding add_aliases lookup
get-add_aliases-some [] attributes document c a v h found given = absurd (cc)
get-add_aliases-some ((k, b) ∷ rest) attributes document c a v h found given =
    elim (Bool-cases (c == k)) [
      | inl same ↦
          let eq : k ≡ c = ground arith in
          let alias : b ≡ a = ground arith in
          let free : Spares a rest = rw alias at (head-Spares k b rest h) in
          rw (eq, given, alias)
            (get-add_aliases a rest attributes (put a v document) free
              ∙ ground (arith, get-put a a v document))
      | inr differ ↦
          get-add_aliases-some rest attributes _ c a v (IsInjective-rest k b rest h) (ground arith)
            given
    ]

module _ (sha256_hex : String → String) where
  -- The document of an event, with every field that `event_to_document` writes itself.
  pub record IsProjection (event : Fields) (schema : GraphSchema) (collection : String)
      (document : Fields) : Type 0 where
    pub placed : IsPlaced sha256_hex event schema collection document
    pub event_id : get "event_id" document ≡ get "event_id" event
    pub payload_hash : get "payload_hash" document ≡ get "payload_hash" event
    pub observed : get "observed_at_unix_nano" document ≡ get "observed_at_unix_nano" event
    pub emitted : get "emitted_at_unix_ms" document ≡ get "emitted_at_unix_ms" event
    pub aliased :
        (canonical alias : String) (v : Json)
        → lookup canonical schema.property_aliases ≡ some alias
        → get canonical placed.attributes ≡ some v
        → contains (link_fields placed.kind) alias ≡ false
        → get alias document ≡ some v

  -- If `event_to_document` returns for an event, no alias is a field that the document has before the aliases
  -- are added, and no two canonical names share an alias, then the event satisfies the contract and is an upsert
  -- without metrics, the collection is the one that the schema gives for the element's kind and type, and the
  -- document holds the key, the identifier, the type and the attributes of the element, the schema version, the
  -- identifier, the hash of the payload and both times of the event, and under each alias the value of the
  -- attribute that it stands for; an edge's document has the identifiers and the handles of both ends, which
  -- overwrite an alias of the same name.
  pub event_to_document-IsProjection :
      (event : Fields) (schema : GraphSchema) {collection : String} {document : Fields}
      → SparesWritten schema.property_aliases
      → IsInjective schema.property_aliases
      → event_to_document sha256_hex event schema ≡ ok (collection, document)
      → IsProjection event schema collection document
  unfolding string_dec
  event_to_document-IsProjection event schema spared injective h =
      let p = event_to_document-IsPlaced sha256_hex event schema spared.identity h in
      let (_, _, _, _, _, b5, b6, b7, b8) =
        base_document-get sha256_hex event p.element_id p.semantic_type p.attributes p.has_base in
      let keep =
        λ (name : String) (free : Spares name schema.property_aliases)
            (a : contains (link_fields edge) name ≡ false).
          p.fields name (unlinked sha256_hex p.kind name a)
          ∙ get-add_aliases name schema.property_aliases p.attributes p.base free in
      record {
        placed = p;
        event_id = keep "event_id" spared.event_id refl ∙ b5;
        payload_hash = keep "payload_hash" spared.payload_hash refl ∙ b6;
        observed = keep "observed_at_unix_nano" spared.observed refl ∙ b7;
        emitted = keep "emitted_at_unix_ms" spared.emitted refl ∙ b8;
        aliased = λ c a v found given free.
            p.fields a free
            ∙ get-add_aliases-some schema.property_aliases p.attributes p.base c a v injective found
                given;
      }
