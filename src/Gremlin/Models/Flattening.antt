-- ===== src/Gremlin/Models/Flattening.antt =====
-- `SemanticEntity.semantic_attributes` of entities.py. The values of the fields stand under their aliases, as
-- `semantic_entity_from_data` gives them to the class; a field without a value is None, and so is one with the
-- value None.
pub mod Laws
pub mod Kept
pub mod Whole
use semconv_graph.Base.{
  String, ◌<>◌, Bool, false, not, Option, none, some, List, [], ◌∷◌, ◌==◌, string_eq, if◌then◌else◌,
  contains,
}
use semconv_graph.Base.Dict.{lookup, insert}
use semconv_graph.Gremlin.Values.{
  Value, text, scalar, mapping, sequence, tuple, Attributes, Entries, end, entry, name, token,
}
use semconv_graph.Gremlin.Models.{EntityModel, alias_of}

-- `value.items()` of the value of a template field, which is a mapping with texts as keys.
abbrev pub entries_of : Entries → Attributes
entries_of end = []
entries_of (entry (name n) v rest) = (n, v) ∷ entries_of rest
entries_of (entry token v rest) = entries_of rest

abbrev pub items : Value → Attributes
items (mapping entries) = entries_of entries
items (text s) = []
items (scalar s) = []
items (sequence vs) = []
items (tuple vs) = []

-- The inner loop, over the items of a template.
unfoldable pub add_items : String → Attributes → Attributes → Attributes
add_items alias [] attributes = attributes
add_items alias ((suffix, value) ∷ rest) attributes =
    add_items alias rest (insert ((alias <> ".") <> suffix) value attributes)

-- `value is None`; a scalar is given by its representation.
abbrev pub is_none : Value → Bool
is_none (scalar s) = s == "None"
is_none (text s) = false
is_none (mapping entries) = false
is_none (sequence vs) = false
is_none (tuple vs) = false

abbrev pub given : String → Value → Bool
given k v = not (is_none v)

-- One round of the loop over `model_fields`.
unfoldable pub add_field :
    List String → String × Option String → Attributes → Attributes → Attributes
add_field templates field values attributes =
    let alias = alias_of field in
    if field.0 == "element_id" then attributes else elim (lookup alias values) [
      | none ↦ attributes
      | some value ↦
          if is_none value
          then attributes
          else if contains templates alias
          then add_items alias (items value) attributes
          else insert alias value attributes
    ]

-- The loop over `model_fields`, from the dict `attributes` on.
unfoldable pub attributes_from :
    List String → List (String × Option String) → Attributes → Attributes → Attributes
attributes_from templates [] values attributes = attributes
attributes_from templates (field ∷ fields) values attributes =
    attributes_from templates fields values (add_field templates field values attributes)

unfoldable pub semantic_attributes : EntityModel → Attributes → Attributes
semantic_attributes model values =
    attributes_from model.template_fields model.model_fields values []
