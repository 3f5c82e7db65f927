-- ===== src/Gremlin/Generated.antt =====
-- The modules that the generator has written for the package: generated/_models.py, generated/entities.py
-- and generated/edges.py, as tables.
pub mod Fields1
pub mod Fields2
pub mod Fields3
pub mod Fields4
pub mod Entities
pub mod Declared
pub mod Edges
pub mod Laws
pub mod Classes
pub mod Kept
mod Tests
use semconv_graph.Base.{ℕ, String, Bool, true, false, Option, none, some, List, [], ◌∷◌}
use semconv_graph.Gremlin.Models.{EdgeModel, EntityModel}

-- The annotation of a field: the type before `| None`.
pub data FieldKind : Type 0 where
  strict_str strict_int strict_bool string_map string_sequence : FieldKind
  literal : List String → FieldKind

-- A field of a class: its name, the alias, the type, the least length of a text, and whether it has no default.
pub record Field : Type 0 where
  pub name : String
  pub alias : String
  pub kind : FieldKind
  pub min_length : ℕ
  pub is_required : Bool

abbrev pub required : String → String → FieldKind → ℕ → Field
required name alias kind min_length = record {
  name = name;
  alias = alias;
  kind = kind;
  min_length = min_length;
  is_required = true;
}

-- A field with the default None.
abbrev pub optional : String → String → FieldKind → Field
optional name alias kind = record {
  name = name;
  alias = alias;
  kind = kind;
  min_length = 0;
  is_required = false;
}

abbrev pub names_and_aliases : List Field → List (String × Option String)
names_and_aliases [] = []
names_and_aliases (f ∷ fs) = (f.name, some f.alias) ∷ names_and_aliases fs

-- `model_fields` of a class: the field of `SemanticEntity` and then its own.
abbrev pub model_fields_of : List Field → List (String × Option String)
model_fields_of fs = ("element_id", none) ∷ names_and_aliases fs

-- A class by its name and variables, and for an entity the fields that it declares.
abbrev pub edge_class : String → String → String → String → String → EdgeModel
edge_class name relationship_id relationship_type source_entity_type target_entity_type = record {
  name = name;
  relationship_id = relationship_id;
  relationship_type = relationship_type;
  source_entity_type = source_entity_type;
  target_entity_type = target_entity_type;
}

abbrev pub entity_class : String → String → List String → List String → List Field → EntityModel
entity_class name entity_type identity_fields template_fields fields = record {
  name = name;
  entity_type = entity_type;
  identity_fields = identity_fields;
  template_fields = template_fields;
  model_fields = model_fields_of fields;
}
