-- ===== src/Indexer/Events/Documents.antt =====
-- What a converted upsert holds, whatever its aliases are named.
use semconv_graph.Base.{
  String, ◌<>◌, true, false, Option, none, some, List, [], ◌∷◌, ◌≡◌, refl, ap, ◌∙◌, arith,
  string_eq, string_dec, ok, contains, Option-cases, inl, inr,
}
use semconv_graph.Base.Dict.{Dict, values, lookup}
use semconv_graph.Indexer.Json.{
  has, Json, text, null, bool, number, array, object, Fields, get, put, get-put,
}
use semconv_graph.Indexer.Schema.{GraphSchema, VertexCollection, vertices_by_type}
use semconv_graph.Indexer.Events.{
  Kind, node, edge, add_aliases, base_document, add_endpoints, event_to_document, kind_of,
  definition_of, object_map, is_text, validate_event_contract, semantic_type_from_element_id,
}

-- No alias of the schema is the field `name`.
abbrev pub Spares : String → Dict String String → Type 0
Spares name aliases = contains (values aliases) name ≡ false

-- `Spares`, for the fields that no alias may overwrite.
pub record SparesAll (aliases : Dict String String) : Type 0 where
  pub key : Spares "_key" aliases
  pub id : Spares "element_id" aliases
  pub type : Spares "semantic_type" aliases
  pub attributes : Spares "attributes" aliases
  pub version : Spares "schema_version" aliases

pub is_text-eq : (s : String) (v : Option Json) → is_text s v ≡ true → v ≡ some (text s)
is_text-eq s (some (text t)) h = ground arith
is_text-eq s none h = cc
is_text-eq s (some null) h = cc
is_text-eq s (some (bool b)) h = cc
is_text-eq s (some (number n)) h = cc
is_text-eq s (some (array n)) h = cc
is_text-eq s (some (object n)) h = cc

pub get-add_aliases :
    (name : String) (aliases : Dict String String) (attributes document : Fields)
    → Spares name aliases
    → get name (add_aliases aliases attributes document) ≡ get name document
unfolding add_aliases values
get-add_aliases name [] attributes document h = refl
get-add_aliases name ((canonical, alias) ∷ rest) attributes document h =
    let spared : Spares name rest = ground arith in
    elim (Option-cases (get canonical attributes)) [
      | inl absent ↦ rw absent (get-add_aliases name rest attributes document spared)
      | inr (v, found) ↦ rw found (
          get-add_aliases name rest attributes (put alias v document) spared
          ∙ ground (arith, get-put name alias v document))
    ]

-- The fields that are written after the aliases.
abbrev pub link_fields : Kind → List String
link_fields node = []
link_fields edge = "_from" ∷ "_to" ∷ "source_id" ∷ "target_id" ∷ []

module _ (sha256_hex : String → String) where
  pub base_document-get :
      (event : Fields) (element_id semantic_type : String) (attributes : Fields) {document : Fields}
      → base_document sha256_hex event element_id semantic_type attributes ≡ ok document
      → (get "_key" document ≡ some (text (sha256_hex element_id)))
        × (get "element_id" document ≡ some (text element_id))
        × (get "semantic_type" document ≡ some (text semantic_type))
        × (get "attributes" document ≡ some (object attributes))
        × (get "schema_version" document ≡ get "schema_version" event)
        × (get "event_id" document ≡ get "event_id" event)
        × (get "payload_hash" document ≡ get "payload_hash" event)
        × (get "observed_at_unix_nano" document ≡ get "observed_at_unix_nano" event)
        × (get "emitted_at_unix_ms" document ≡ get "emitted_at_unix_ms" event)
  unfolding base_document get put string_dec
  base_document-get event element_id semantic_type attributes h = ground arith

  -- `display` of the four fields of an edge keeps every other field.
  add_endpoints-get :
      (schema : GraphSchema) (element : Fields) (kind : Kind) (document : Fields)
      {complete : Fields}
      → add_endpoints sha256_hex schema element kind document ≡ ok complete
      → (name : String) → contains (link_fields kind) name ≡ false
      → get name complete ≡ get name document
  unfolding add_endpoints
  add_endpoints-get schema element node document h name _ = cc
  add_endpoints-get schema element edge document h name a = grind (arith, get-put)

  event_to_document-parts :
      (event : Fields) (schema : GraphSchema) {collection : String} {document : Fields}
      → event_to_document sha256_hex event schema ≡ ok (collection, document)
      → (element : Fields) × (element_id : String) × (semantic_type : String) × (kind : Kind)
        × (attributes : Fields) × (base : Fields) × (is_text "3.0" (get "schema_version" event)
            ≡ true)
        × (is_text "upsert" (get "operation" event) ≡ true)
        × (get "element" event ≡ some (object element))
        × (get "element_id" event ≡ some (text element_id))
        × (get "type" element ≡ some (text semantic_type))
        × (kind_of (get "kind" element) ≡ ok kind)
        × (definition_of schema kind semantic_type ≡ ok collection)
        × (object_map (get "attributes" element) ≡ ok attributes)
        × (base_document sha256_hex event element_id semantic_type attributes ≡ ok base)
        × (add_endpoints sha256_hex schema element kind
              (add_aliases schema.property_aliases attributes base)
            ≡ ok document)
  unfolding event_to_document validate_event_contract
  event_to_document-parts event schema h = ground arith

  event_to_document-guards :
      (event : Fields) (schema : GraphSchema) {collection : String} {document : Fields}
      {element : Fields}
      → event_to_document sha256_hex event schema ≡ ok (collection, document)
      → get "element" event ≡ some (object element)
      → (validate_event_contract event ≡ ok tt) × (has "metrics" element ≡ false)
  unfolding event_to_document
  event_to_document-guards event schema h he = ground arith

  -- Both ends of an edge: they are texts that name a type of the schema, and the document refers to
  -- the documents of these two elements.
  pub record IsLinked (schema : GraphSchema) (element document : Fields) : Type 0 where
    pub source_id : String
    pub target_id : String
    pub source_type : String
    pub target_type : String
    pub source : VertexCollection
    pub target : VertexCollection
    pub source_given : get "source_id" element ≡ some (text source_id)
    pub target_given : get "target_id" element ≡ some (text target_id)
    pub source_typed : semantic_type_from_element_id source_id ≡ ok source_type
    pub target_typed : semantic_type_from_element_id target_id ≡ ok target_type
    pub source_known : lookup source_type (vertices_by_type schema) ≡ some source
    pub target_known : lookup target_type (vertices_by_type schema) ≡ some target
    pub from_source :
        get "_from" document ≡ some (text (source.collection <> "/" <> sha256_hex source_id))
    pub to_target :
        get "_to" document ≡ some (text (target.collection <> "/" <> sha256_hex target_id))
    pub source_named : get "source_id" document ≡ some (text source_id)
    pub target_named : get "target_id" document ≡ some (text target_id)

  add_endpoints-parts :
      (schema : GraphSchema) (element document : Fields) {complete : Fields}
      → add_endpoints sha256_hex schema element edge document ≡ ok complete
      → (s : String) × (t : String) × (st : String) × (dt : String) × (source : VertexCollection)
        × (target : VertexCollection) × (get "source_id" element ≡ some (text s))
        × (get "target_id" element ≡ some (text t))
        × (semantic_type_from_element_id s ≡ ok st)
        × (semantic_type_from_element_id t ≡ ok dt)
        × (lookup st (vertices_by_type schema) ≡ some source)
        × (lookup dt (vertices_by_type schema) ≡ some target)
        × (complete
            ≡ put "target_id" (text t) (
                put "source_id" (text s) (
                  put "_to"
                    (text (target.collection <> "/" <> sha256_hex t))
                    (put "_from" (text (source.collection <> "/" <> sha256_hex s)) document))))
  unfolding add_endpoints
  add_endpoints-parts schema element document h = ground arith

  add_endpoints-IsLinked :
      (schema : GraphSchema) (element document : Fields) {complete : Fields}
      → add_endpoints sha256_hex schema element edge document ≡ ok complete
      → IsLinked schema element complete
  unfolding string_dec
  add_endpoints-IsLinked schema element document h =
      let (s, t, st, dt, source, target, hs, ht, hst, hdt, ks, kt, e) =
        add_endpoints-parts schema element document h in
      record {
        source_id = s;
        target_id = t;
        source_type = st;
        target_type = dt;
        source = source;
        target = target;
        source_given = hs;
        target_given = ht;
        source_typed = hst;
        target_typed = hdt;
        source_known = ks;
        target_known = kt;
        from_source = ap (get "_from") e ∙ simp get-put;
        to_target = ap (get "_to") e ∙ simp get-put;
        source_named = ap (get "source_id") e ∙ simp get-put;
        target_named = ap (get "target_id") e ∙ simp get-put;
      }

  abbrev pub LinkedIf : Kind → GraphSchema → Fields → Fields → Type 0
  LinkedIf node schema element document = Unit
  LinkedIf edge schema element document = IsLinked schema element document

  add_endpoints-LinkedIf :
      (kind : Kind) (schema : GraphSchema) (element document : Fields) {complete : Fields}
      → add_endpoints sha256_hex schema element kind document ≡ ok complete
      → LinkedIf kind schema element complete
  add_endpoints-LinkedIf node schema element document h = tt
  add_endpoints-LinkedIf edge schema element document h =
      add_endpoints-IsLinked schema element document h

  -- The document stands in the collection of its type, and repeats the event's identity.
  pub record IsPlaced (event : Fields) (schema : GraphSchema) (collection : String)
      (document : Fields) : Type 0 where
    pub element : Fields
    pub element_id : String
    pub semantic_type : String
    pub kind : Kind
    pub attributes : Fields
    pub contract : validate_event_contract event ≡ ok tt
    pub without_metrics : has "metrics" element ≡ false
    pub asked : get "operation" event ≡ some (text "upsert")
    pub has_element : get "element" event ≡ some (object element)
    pub has_id : get "element_id" event ≡ some (text element_id)
    pub has_type : get "type" element ≡ some (text semantic_type)
    pub has_kind : kind_of (get "kind" element) ≡ ok kind
    pub has_attributes : object_map (get "attributes" element) ≡ ok attributes
    pub has_definition : definition_of schema kind semantic_type ≡ ok collection
    pub keyed : get "_key" document ≡ some (text (sha256_hex element_id))
    pub identified : get "element_id" document ≡ some (text element_id)
    pub typed : get "semantic_type" document ≡ some (text semantic_type)
    pub attributed : get "attributes" document ≡ some (object attributes)
    pub versioned : get "schema_version" document ≡ some (text "3.0")
    pub linked : LinkedIf kind schema element document
    pub base : Fields
    pub has_base : base_document sha256_hex event element_id semantic_type attributes ≡ ok base
    pub fields :
        (name : String)
        → contains (link_fields kind) name ≡ false
        → get name document ≡ get name (add_aliases schema.property_aliases attributes base)

  -- What is said of a field holds from the first dict display to the finished document.
  kept :
      (name : String) (schema : GraphSchema) (element : Fields) (kind : Kind)
      (attributes base : Fields) {document : Fields}
      → add_endpoints sha256_hex schema element kind
          (add_aliases schema.property_aliases attributes base)
        ≡ ok document
      → Spares name schema.property_aliases
      → contains (link_fields kind) name ≡ false
      → get name document ≡ get name base
  kept name schema element kind attributes base h spares a =
      add_endpoints-get schema element kind _ h name a
      ∙ get-add_aliases name schema.property_aliases attributes base spares

  pub unlinked :
      (kind : Kind) (name : String)
      → contains (link_fields edge) name ≡ false
      → contains (link_fields kind) name ≡ false
  unlinked node name h = refl
  unlinked edge name h = h

  -- What the document of an event holds of its identity.
  pub event_to_document-IsPlaced :
      (event : Fields) (schema : GraphSchema) {collection : String} {document : Fields}
      → SparesAll schema.property_aliases
      → event_to_document sha256_hex event schema ≡ ok (collection, document)
      → IsPlaced event schema collection document
  unfolding string_dec
  event_to_document-IsPlaced event schema spared h =
      let (
        element, element_id, semantic_type, kind, attributes, base, versioned, asked, he, hid, ht,
        hk, hd, ha, hb, hc,
      ) =
        event_to_document-parts event schema h in
      let (b0, b1, b2, b3, b4, _, _, _, _) =
        base_document-get event element_id semantic_type attributes hb in
      let (contract, without_metrics) = event_to_document-guards event schema h he in
      let keep =
        λ (name : String) (spares : Spares name schema.property_aliases)
            (a : contains (link_fields edge) name ≡ false).
          kept name schema element kind attributes base hc spares (unlinked kind name a) in
      record {
        element = element;
        element_id = element_id;
        semantic_type = semantic_type;
        kind = kind;
        attributes = attributes;
        contract = contract;
        without_metrics = without_metrics;
        asked = is_text-eq "upsert" _ asked;
        has_element = he;
        has_id = hid;
        has_type = ht;
        has_kind = hk;
        has_attributes = ha;
        has_definition = hd;
        keyed = keep "_key" spared.key refl ∙ b0;
        identified = keep "element_id" spared.id refl ∙ b1;
        typed = keep "semantic_type" spared.type refl ∙ b2;
        attributed = keep "attributes" spared.attributes refl ∙ b3;
        versioned = keep "schema_version" spared.version refl ∙ b4 ∙ is_text-eq "3.0" _ versioned;
        linked = add_endpoints-LinkedIf kind schema element _ hc;
        base = base;
        has_base = hb;
        fields = add_endpoints-get schema element kind _ hc;
      }
