-- ===== src/Gremlin/Models.antt =====
-- Reconstruction of generated models: `semantic_entity_from_data` and `_template_values` of entities.py,
-- `semantic_edge_from_data`, `SemanticEdge.validate_endpoint_types` and `_entity_type_from_id` of
-- edges.py. The tables of generated models and pydantic's validation of their fields are arguments.
pub mod Edges
pub mod Templates
pub mod Flattening
pub mod Freezing
use Prim.Native.Char.{Char, code}
use Prim.Native.String
use semconv_graph.Base.{
  ℕ, String, ◌<>◌, Bool, true, false, not, ◌&&◌, ◌||◌, Option, none, some, List, [], ◌∷◌, ◌==◌,
  string_eq, nat_eq, if◌then◌else◌, Result, ok, err, ◌>>=◌, ◌>>◌, expect, guard, contains, ◌≡◌,
  refl, arith, Eq, string_dec,
}
use semconv_graph.Base.Dict.{Dict, lookup, insert, has_key}
use semconv_graph.Base.Text.{partition}
use semconv_graph.Gremlin.Values.{Value, text, mapping, Attributes, Entries, end, entry, name}

-- `SemanticModelError` and its subclasses. The last two are a `SemanticModelValidationError` that wraps
-- an error of pydantic or of the class's own validator.
pub data ModelError : Type 0 where
  unknown_entity : String → ModelError
  unknown_edge : String → String → String → ModelError
  invalid_entity_id : String → ModelError
  invalid_attributes : String → ModelError
  wrong_endpoint : String → String → ModelError

-- `_entity_type_from_id`
unfoldable pub entity_type_from_id : String → Result ModelError String
entity_type_from_id element_id = elim (partition b':' element_id) [
  | none ↦ err (invalid_entity_id element_id)
  | some (entity_type, identity) ↦
      if entity_type == "" || identity == ""
      then err (invalid_entity_id element_id)
      else ok entity_type
]

-- `key.removeprefix(p)`, if `key.startswith(p)`.
unfoldable pub remove_prefix : String → String → Option String
remove_prefix String.[] key = some key
remove_prefix (String.◌∷◌ c p) String.[] = none
remove_prefix (String.◌∷◌ c p) (String.◌∷◌ d key) =
    let rest = remove_prefix p key in if code c == code d then rest else none

-- `_template_values`
unfoldable pub template_values : Attributes → String → Attributes
template_values [] prefix = []
template_values ((key, value) ∷ attributes) prefix =
    let rest = template_values attributes prefix in
    elim (remove_prefix (prefix <> ".") key) [
      | none ↦ rest
      | some suffix ↦ if suffix == "" then rest else (suffix, value) ∷ rest
    ]

-- A generated entity class: its variables, and the fields of `model_fields`, each with its alias.
pub record EntityModel : Type 0 where
  pub name : String
  pub entity_type : String
  pub identity_fields : List String
  pub model_fields : List (String × Option String)
  pub template_fields : List String

-- The variables of a generated edge class.
pub record EdgeModel : Type 0 where
  pub name : String
  pub relationship_id : String
  pub relationship_type : String
  pub source_entity_type : String
  pub target_entity_type : String

-- A `dict[str, object]` as a value.
unfoldable pub as_entries : Attributes → Entries
as_entries [] = end
as_entries ((key, value) ∷ rest) = entry (name key) value (as_entries rest)

-- `field.alias or field_name`
abbrev pub alias_of : String × Option String → String
alias_of (field_name, none) = field_name
alias_of (field_name, some alias) = if alias == "" then field_name else alias

-- The loop over `model.model_fields`, from the dict `values` on.
unfoldable pub field_values :
    List String → List (String × Option String) → Attributes → Attributes → Attributes
unfolding template_values as_entries
field_values templates [] attributes values = values
field_values templates (field ∷ fields) attributes values =
    let alias = alias_of field in
    let chosen : Option Value =
      if contains templates alias
      then (elim (template_values attributes alias) [
        | [] ↦ none
        | v ∷ vs ↦ some (mapping (as_entries (v ∷ vs)))
      ])
      else lookup alias attributes in
    let next : Attributes = elim chosen [
      | none ↦ values
      | some value ↦ insert alias value values
    ] in
    field_values templates fields attributes (if field.0 == "element_id" then values else next)

module _ {Entity : Type 0} (entity_models : String → Option EntityModel)
    (model_validate : EntityModel → Attributes → Result String Entity) where
  unfoldable pub semantic_entity_from_data : String → String → Attributes → Result ModelError Entity
  semantic_entity_from_data entity_type element_id attributes = do
    model ← expect (entity_models entity_type) (unknown_entity entity_type)
    elim (model_validate model (
        field_values model.template_fields model.model_fields attributes
          (("element_id", text element_id) ∷ []))) [
            | ok entity ↦ ok entity
            | err reason ↦ err (invalid_attributes reason)
          ]

-- `SemanticEdge`
pub record SemanticEdge : Type 0 where
  pub model : EdgeModel
  pub element_id : String
  pub source_id : String
  pub target_id : String
  pub attributes : Attributes

-- `SemanticEdge.validate_endpoint_types`
unfoldable pub validate_endpoint_types : SemanticEdge → Result ModelError (Unit {0})
validate_endpoint_types edge = do
  source_type ← entity_type_from_id edge.source_id
  guard (source_type == edge.model.source_entity_type)
      (wrong_endpoint edge.model.source_entity_type edge.source_id)
  target_type ← entity_type_from_id edge.target_id
  guard (target_type == edge.model.target_entity_type)
      (wrong_endpoint edge.model.target_entity_type edge.target_id)

-- `EDGE_MODELS.get((source, relationship, target))` and the checks of pydantic on the fields.
module _ (edge_models : String → String → String → Option EdgeModel)
    (validate_fields : SemanticEdge → Result String (Unit {0})) where
  unfoldable pub semantic_edge_from_data :
      String → String → String → String → Attributes → Result ModelError SemanticEdge
  semantic_edge_from_data relationship_type element_id source_id target_id attributes = do
    source_type ← entity_type_from_id source_id
    target_type ← entity_type_from_id target_id
    model ←
        expect (edge_models source_type relationship_type target_type)
          (unknown_edge source_type relationship_type target_type)
    let edge : SemanticEdge = record {
      model = model;
      element_id = element_id;
      source_id = source_id;
      target_id = target_id;
      attributes = attributes;
    }
    elim (validate_fields edge) [
      | err reason ↦ err (invalid_attributes reason)
      | ok done ↦ validate_endpoint_types edge >> ok edge
    ]
