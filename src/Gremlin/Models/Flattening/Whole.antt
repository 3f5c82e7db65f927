-- ===== src/Gremlin/Models/Flattening/Whole.antt =====
-- The round trip of an entity's attributes through the fields of its class.
use semconv_graph.Base.{
  String, Bool, true, false, ◌||◌, Option, none, some, List, [], ◌∷◌, ◌==◌, string_eq,
  if◌then◌else◌, contains, ◌≡◌, refl, sym, ap, ◌∙◌, arith, Bool-cases, Option-cases, inl, inr,
}
use semconv_graph.Base.Dict.{lookup, insert, lookup-insert, NodupKeys, every, lookup-every}
use semconv_graph.Gremlin.Values.{Value, text, mapping, Attributes}
use semconv_graph.Gremlin.Models.{EntityModel, alias_of, template_values, as_entries, field_values}
use semconv_graph.Gremlin.Models.Flattening.{
  items, is_none, given, add_items, add_field, attributes_from, semantic_attributes,
}
use semconv_graph.Gremlin.Models.Flattening.Laws.{
  or_else, under, template_values-NodupKeys, lookup-add_items,
}
use semconv_graph.Gremlin.Models.Flattening.Kept.{
  as_template, chosen, reads, lookup-field_values, is_under, writes, under-template_values,
  items-as_template,
}

-- What a field with these values under its alias writes.
abbrev write_value : Bool → String → Option Value → Attributes → Attributes
write_value template alias none attributes = attributes
write_value template alias (some value) attributes =
    if is_none value
    then attributes
    else if template
    then add_items alias (items value) attributes
    else insert alias value attributes

under-nil : (alias k : String) → under alias [] k ≡ none
unfolding lookup
under-nil alias k = ground arith

as_template-none : (ts : Attributes) → as_template ts ≡ none → ts ≡ []
as_template-none [] h = refl
as_template-none (t ∷ ts) h = absurd (cc)

unwritten :
    (b : Bool) (old new : Option Value)
    → none ≡ (if b then new else none)
    → old ≡ (if b then or_else old new else old)
unwritten true old new h = ap (or_else old) h
unwritten false old new h = refl

overwritten :
    (b : Bool) (old new : Option Value)
    → or_else old (if b then new else none) ≡ (if b then or_else old new else old)
overwritten true old new = refl
overwritten false old new = refl

as_template-given : (ts : Attributes) (v : Value) → as_template ts ≡ some v → is_none v ≡ false
as_template-given [] v h = absurd (cc)
as_template-given (t ∷ ts) v h =
    let same : mapping (as_entries (t ∷ ts)) ≡ v = cc in rw (sym same) refl

lookup-write_template :
    (raw : Attributes) (alias k : String) (attributes : Attributes)
    → NodupKeys raw
    → lookup k (write_value true alias (as_template (template_values raw alias)) attributes) ≡ (
        if is_under alias k
        then or_else (lookup k attributes) (lookup k raw)
        else lookup k attributes)
lookup-write_template raw alias k attributes once =
    let given = under-template_values raw alias k in
    elim (Option-cases (as_template (template_values raw alias))) [
      | inl nothing ↦
          let empty : template_values raw alias ≡ [] =
            as_template-none (template_values raw alias) nothing in
          let given' : under alias [] k ≡ (if is_under alias k then lookup k raw else none) =
            rw empty at given in
          rw (write_value, nothing)
            (unwritten (is_under alias k) (lookup k attributes) (lookup k raw)
              (sym (under-nil alias k) ∙ given'))
      | inr (v, there) ↦
          rw
            (
              write_value,
              there,
              as_template-given (template_values raw alias) v there,
              items-as_template (template_values raw alias) v there,
            )
            (lookup-add_items alias (template_values raw alias) attributes k
                (template_values-NodupKeys raw alias once)
              ∙ ap (or_else (lookup k attributes)) given
              ∙ overwritten (is_under alias k) (lookup k attributes) (lookup k raw))
    ]

is_given :
    (raw : Attributes) (alias : String) (v : Value)
    → every given raw ≡ true
    → lookup alias raw ≡ some v
    → is_none v ≡ false
is_given raw alias v present there =
    let fits = lookup-every given raw alias v present there in ground arith

lookup-write_plain :
    (raw : Attributes) (alias k : String) (attributes : Attributes)
    → every given raw ≡ true
    → lookup k (write_value false alias (lookup alias raw) attributes)
      ≡ (if k == alias then or_else (lookup k attributes) (lookup k raw) else lookup k attributes)
lookup-write_plain raw alias k attributes present = elim (Bool-cases (k == alias)) [
  | inl same ↦
      let eq : k ≡ alias = ground arith in
      let at_alias : lookup k raw ≡ lookup alias raw = ap (λ j. lookup j raw) eq in
      elim (Option-cases (lookup alias raw)) [
        | inl absent ↦ rw (write_value, absent) (ground arith)
        | inr (v, there) ↦
            rw (write_value, there, is_given raw alias v present there)
              (lookup-insert k alias v attributes ∙ ground arith)
      ]
  | inr differ ↦ elim (Option-cases (lookup alias raw)) [
    | inl absent ↦ rw (write_value, absent) (ground arith)
    | inr (v, there) ↦
        rw (write_value, there, is_given raw alias v present there)
          (lookup-insert k alias v attributes ∙ ground arith)
  ]
]

-- Whether some field writes the key.
abbrev pub covers : List String → List (String × Option String) → String → Bool
covers templates [] k = false
covers templates (field ∷ fields) k = writes templates field k || covers templates fields k

add_field-write :
    (templates : List String) (field : String × Option String) (values attributes : Attributes)
    → add_field templates field values attributes ≡ (
        if field.0 == "element_id"
        then attributes
        else write_value
            (contains templates (alias_of field))
            (alias_of field)
            (lookup (alias_of field) values)
            attributes)
unfolding add_field
add_field-write templates field values attributes =
    elim (Option-cases (lookup (alias_of field) values)) [
      | inl absent ↦ rw (add_field, absent) refl
      | inr (v, there) ↦ rw (add_field, there) refl
    ]

lookup-add_field :
    (templates : List String) (field : String × Option String) (raw values attributes : Attributes)
    (k : String)
    → NodupKeys raw
    → every given raw ≡ true
    → ((field.0 == "element_id") ≡ false
        → lookup (alias_of field) values ≡ chosen templates raw (alias_of field))
    → lookup k (add_field templates field values attributes) ≡ (
        if writes templates field k
        then or_else (lookup k attributes) (lookup k raw)
        else lookup k attributes)
lookup-add_field templates field raw values attributes k once present chosen_there =
    ap (lookup k) (add_field-write templates field values attributes)
    ∙ elim (Bool-cases (field.0 == "element_id")) [
      | inl identifier ↦ rw (writes, identifier) refl
      | inr proper ↦ elim (Bool-cases (contains templates (alias_of field))) [
        | inl template ↦
            let got =
              chosen_there proper
              ∙ ap
                  (λ b.
                    if b
                    then as_template (template_values raw (alias_of field))
                    else lookup (alias_of field) raw)
                  template in
            rw (writes, proper, template, got)
              (lookup-write_template raw (alias_of field) k attributes once)
        | inr plain ↦
            let got =
              chosen_there proper
              ∙ ap
                  (λ b.
                    if b
                    then as_template (template_values raw (alias_of field))
                    else lookup (alias_of field) raw)
                  plain in
            rw (writes, proper, plain, got)
              (lookup-write_plain raw (alias_of field) k attributes present)
      ]
    ]

covered_again :
    (later first : Bool) (old new next : Option Value)
    → next ≡ (if first then or_else old new else old)
    → (if later then or_else next new else next) ≡ (if first || later then or_else old new else old)
covered_again later first old none next step = ground arith
covered_again later first old (some v) next step = ground arith

lookup-attributes_from :
    (templates : List String) (fields : List (String × Option String))
    (raw values attributes : Attributes) (k : String)
    → NodupKeys raw
    → every given raw ≡ true
    → ((j : String) → reads fields j ≡ true → lookup j values ≡ chosen templates raw j)
    → lookup k (attributes_from templates fields values attributes) ≡ (
        if covers templates fields k
        then or_else (lookup k attributes) (lookup k raw)
        else lookup k attributes)
unfolding attributes_from
lookup-attributes_from templates [] raw values attributes k once present chosen_there = refl
lookup-attributes_from templates (field ∷ fields) raw values attributes k once present
      chosen_there =
    lookup-attributes_from templates fields raw values (add_field templates field values attributes)
      k once present (λ j read. chosen_there j (ground arith))
    ∙ covered_again (covers templates fields k) (writes templates field k) (lookup k attributes)
        (lookup k raw) _
        (lookup-add_field templates field raw values attributes k once present
          (λ proper. chosen_there (alias_of field) (ground arith)))

-- The values that the fields of a class get from data.
abbrev pub values_from : EntityModel → String → Attributes → Attributes
values_from m element_id raw =
    field_values m.template_fields m.model_fields raw (("element_id", text element_id) ∷ [])

or_else-none :
    (b : Bool) (o : Option Value) → (if b then or_else none o else none) ≡ (if b then o else none)
or_else-none b none = refl
or_else-none b (some v) = refl

values_from-chosen :
    (m : EntityModel) (element_id : String) (raw : Attributes)
    → reads m.model_fields "element_id" ≡ false
    → (j : String) → reads m.model_fields j ≡ true
    → lookup j (values_from m element_id raw) ≡ chosen m.template_fields raw j
unfolding lookup
values_from-chosen m element_id raw apart j read =
    let other : (j == "element_id") ≡ false = elim (Bool-cases (j == "element_id")) [
      | inl same ↦
          let eq : j ≡ "element_id" = ground arith in
          let clash : reads m.model_fields "element_id" ≡ true = rw (sym eq) read in
          absurd (ground arith)
      | inr differ ↦ differ
    ] in
    lookup-field_values m.template_fields m.model_fields raw (("element_id", text element_id) ∷ [])
      j
    ∙ rw (read, other) (ground arith)

-- The attributes of an entity whose fields hold what `semantic_entity_from_data` took from the data are the
-- data themselves under every key that a field of the class writes, and there are no others, if no value of the
-- data is None, and no field but the identifier has the alias of the identifier.
pub lookup-semantic_attributes :
    (m : EntityModel) (element_id : String) (raw : Attributes) (k : String)
    → NodupKeys raw
    → every given raw ≡ true
    → reads m.model_fields "element_id" ≡ false
    → lookup k (semantic_attributes m (values_from m element_id raw))
      ≡ (if covers m.template_fields m.model_fields k then lookup k raw else none)
unfolding semantic_attributes lookup
lookup-semantic_attributes m element_id raw k once present apart =
    lookup-attributes_from m.template_fields m.model_fields raw (values_from m element_id raw) [] k
      once present (values_from-chosen m element_id raw apart)
    ∙ or_else-none (covers m.template_fields m.model_fields k) (lookup k raw)
