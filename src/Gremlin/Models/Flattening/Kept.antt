-- ===== src/Gremlin/Models/Flattening/Kept.antt =====
-- The attributes of an entity that was made of data are those data that its class has fields for.
use semconv_graph.Base.{
  String, ◌<>◌, Bool, true, false, not, ◌&&◌, ◌||◌, Option, none, some, List, [], ◌∷◌, ◌==◌,
  string_eq, if◌then◌else◌, contains, ◌≡◌, refl, sym, ap, ◌∙◌, arith, Bool-cases, Option-cases, inl,
  inr,
}
use semconv_graph.Base.Dict.{lookup, insert, lookup-insert}
use semconv_graph.Gremlin.Values.{Value, mapping, Attributes}
use semconv_graph.Gremlin.Models.{
  alias_of, remove_prefix, template_values, as_entries, field_values,
}
use semconv_graph.Gremlin.Models.Templates.{remove_prefix-eq-some, lookup-template_values}
use semconv_graph.Gremlin.Models.Flattening.{items}
use semconv_graph.Gremlin.Models.Flattening.Laws.{or_else, under, entries_of-as_entries}

-- What `semantic_entity_from_data` takes from the data for a field.
abbrev pub as_template : Attributes → Option Value
as_template [] = none
as_template (t ∷ ts) = some (mapping (as_entries (t ∷ ts)))

abbrev pub chosen : List String → Attributes → String → Option Value
chosen templates attributes alias =
    if contains templates alias
    then as_template (template_values attributes alias)
    else lookup alias attributes

-- Whether a field other than the identifier has the alias.
abbrev pub reads : List (String × Option String) → String → Bool
reads [] j = false
reads (field ∷ fields) j =
    (not (field.0 == "element_id") && (j == alias_of field)) || reads fields j

-- What a value changes in the dict of the fields.
abbrev pub put : String → Option Value → Attributes → Attributes
put alias none values = values
put alias (some v) values = insert alias v values

lookup-put :
    (alias : String) (o : Option Value) (values : Attributes) (j : String)
    → lookup j (put alias o values)
      ≡ (if j == alias then or_else (lookup j values) o else lookup j values)
lookup-put alias none values j = ground arith
lookup-put alias (some v) values j = lookup-insert j alias v values ∙ ground arith

pub field_values-put :
    (templates : List String) (field : String × Option String)
    (fields : List (String × Option String)) (attributes values : Attributes)
    → field_values templates (field ∷ fields) attributes values
      ≡ field_values templates fields attributes (
          if field.0 == "element_id"
          then values
          else put (alias_of field) (chosen templates attributes (alias_of field)) values)
unfolding field_values
field_values-put templates field fields attributes values = ground arith

merged :
    (element same later : Bool) (values next : Attributes) (j : String) (c o : Option Value)
    → (same ≡ true → c ≡ o)
    → lookup j next ≡ (if same then or_else (lookup j values) o else lookup j values)
    → (let d = if element then values else next in
        if later then or_else (lookup j d) c else lookup j d)
      ≡ (if (not element && same) || later then or_else (lookup j values) c else lookup j values)
merged true same later values next j c o eq step = ground arith
merged false true later values next j c o eq step = let eq' = eq refl in ground arith
merged false false later values next j c o eq step = ground arith

pub lookup-field_values :
    (templates : List String) (fields : List (String × Option String))
    (attributes values : Attributes) (j : String)
    → lookup j (field_values templates fields attributes values) ≡ (
        if reads fields j
        then or_else (lookup j values) (chosen templates attributes j)
        else lookup j values)
unfolding field_values
lookup-field_values templates [] attributes values j = refl
lookup-field_values templates (field ∷ fields) attributes values j =
    let alias = alias_of field in
    let o = chosen templates attributes alias in
    let values' = if field.0 == "element_id" then values else put alias o values in
    ap (λ d. lookup j d) (field_values-put templates field fields attributes values)
    ∙ lookup-field_values templates fields attributes values' j
    ∙ merged (field.0 == "element_id") (j == alias) (reads fields j) values (put alias o values) j
        (chosen templates attributes j) o (λ same. ap (chosen templates attributes) (ground arith))
        (lookup-put alias o values j)

lookup-template_values-nil :
    (attributes : Attributes) (prefix : String)
    → lookup "" (template_values attributes prefix) ≡ none
unfolding template_values lookup
lookup-template_values-nil [] prefix = refl
lookup-template_values-nil ((key, value) ∷ attributes) prefix =
    ground (arith, lookup-template_values-nil attributes prefix)

-- Whether a field writes the key.
abbrev pub is_under : String → String → Bool
is_under alias k = elim (remove_prefix (alias <> ".") k) [
  | none ↦ false
  | some suffix ↦ not (suffix == "")
]

abbrev pub writes : List String → String × Option String → String → Bool
writes templates field k =
    not (field.0 == "element_id")
    && (if contains templates (alias_of field)
        then is_under (alias_of field) k
        else k == alias_of field)

pub under-template_values :
    (attributes : Attributes) (alias k : String)
    → under alias (template_values attributes alias) k
      ≡ (if is_under alias k then lookup k attributes else none)
under-template_values attributes alias k = elim (Option-cases (remove_prefix (alias <> ".") k)) [
  | inl other ↦ rw (under, is_under, other) refl
  | inr (suffix, taken) ↦
      let spelled = remove_prefix-eq-some (alias <> ".") k taken in
      rw (under, is_under, taken, spelled)
        (elim (Bool-cases (suffix == "")) [
          | inl empty ↦
              let nothing : suffix ≡ "" = ground arith in
              rw (empty, nothing) (lookup-template_values-nil attributes alias)
          | inr named ↦ rw named (lookup-template_values attributes alias suffix (ground arith))
        ])
]

pub items-as_template : (ts : Attributes) (v : Value) → as_template ts ≡ some v → items v ≡ ts
items-as_template [] v h = absurd (cc)
items-as_template (t ∷ ts) v h =
    let same : mapping (as_entries (t ∷ ts)) ≡ v = cc in
    rw (sym same) (entries_of-as_entries (t ∷ ts))
