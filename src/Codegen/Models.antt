-- ===== src/Codegen/Models.antt =====
-- The models that the generator builds of entities: the types and `build_semantic_models` of
-- tools/semconv_codegen/semantic_schema.py.
pub mod Built
pub mod Whole
mod Tests
use semconv_graph.Base.{
  String, ◌<>◌, Bool, true, false, Option, none, some, List, [], ◌∷◌, ◌==◌, string_eq,
  if◌then◌else◌, contains, Result, ok, err, ◌>>=◌, ◌>>◌, expect,
}
use semconv_graph.Base.Dict.{Dict, lookup}
use semconv_graph.Base.Sorting.{text_leb}
use semconv_graph.Codegen.Names.{python_field_name, python_class_name}
use semconv_graph.Codegen.Registry.{
  MemberValue, text, int, float, bool, EnumMember, AttributeType, primitive, enumeration,
  AttributeDefinition, Role, identifying, descriptive, EntityAttributeRef, EntityDefinition,
}

pub data SemanticFieldKind : Type 0 where
  string integer number boolean : SemanticFieldKind
  string_array integer_array number_array boolean_array : SemanticFieldKind
  string_map integer_map number_map boolean_map : SemanticFieldKind
  string_array_map integer_array_map number_array_map boolean_array_map : SemanticFieldKind
  enum : SemanticFieldKind

pub record SemanticField : Type 0 where
  pub canonical_name : String
  pub python_name : String
  pub kind : SemanticFieldKind
  pub required : Bool
  pub description : Option String
  pub enum_values : List MemberValue

-- `SemanticField.is_template`
abbrev pub is_template : SemanticFieldKind → Bool
is_template string_map = true
is_template integer_map = true
is_template number_map = true
is_template boolean_map = true
is_template string_array_map = true
is_template integer_array_map = true
is_template number_array_map = true
is_template boolean_array_map = true
is_template _ = false

pub record SemanticModel : Type 0 where
  pub semantic_type : String
  pub class_name : String
  pub fields_class_name : String
  pub fields : List SemanticField
  pub identity_fields : List String

-- `SemanticModel.template_fields`
unfoldable pub template_fields : List SemanticField → List String
template_fields [] = []
template_fields (f ∷ fs) =
    let rest = template_fields fs in if is_template f.kind then f.canonical_name ∷ rest else rest

pub data BuildError : Type 0 where
  unknown_attribute : String → String → BuildError
  unsupported_type : String → String → BuildError
  no_members mixed_types : String → BuildError

-- The dict of `_field_kind`.
abbrev pub kinds : Dict String SemanticFieldKind
kinds =
    ("string", string)
    ∷ ("int", integer)
    ∷ ("double", number)
    ∷ ("boolean", boolean)
    ∷ ("string[]", string_array)
    ∷ ("int[]", integer_array)
    ∷ ("double[]", number_array)
    ∷ ("boolean[]", boolean_array)
    ∷ ("template[string]", string_map)
    ∷ ("template[int]", integer_map)
    ∷ ("template[double]", number_map)
    ∷ ("template[boolean]", boolean_map)
    ∷ ("template[string[]]", string_array_map)
    ∷ ("template[int[]]", integer_array_map)
    ∷ ("template[double[]]", number_array_map)
    ∷ ("template[boolean[]]", boolean_array_map)
    ∷ []

abbrev kind_of_type : String → AttributeType → Result BuildError SemanticFieldKind
kind_of_type id (enumeration members) = ok enum
kind_of_type id (primitive type) = expect (lookup type kinds) (unsupported_type type id)

-- `_field_kind`
unfoldable pub field_kind : AttributeDefinition → Result BuildError SemanticFieldKind
field_kind attribute = kind_of_type attribute.id attribute.type

-- `type(value)`, as a test of two values.
abbrev pub same_type : MemberValue → MemberValue → Bool
same_type (text _) (text _) = true
same_type (int _) (int _) = true
same_type (float _) (float _) = true
same_type (bool _) (bool _) = true
same_type _ _ = false

abbrev pub member_values : List EnumMember → List MemberValue
member_values [] = []
member_values (m ∷ ms) = m.value ∷ member_values ms

abbrev pub one_type : MemberValue → List MemberValue → Bool
one_type v [] = true
one_type v (w ∷ ws) = let rest = one_type v ws in if same_type v w then rest else false

abbrev checked_values : String → List MemberValue → Result BuildError (List MemberValue)
checked_values id [] = err (no_members id)
checked_values id (v ∷ vs) = if one_type v vs then ok (v ∷ vs) else err (mixed_types id)

abbrev values_of_type : String → AttributeType → Result BuildError (List MemberValue)
values_of_type id (primitive type) = ok []
values_of_type id (enumeration members) = checked_values id (member_values members)

-- `_enum_values`
unfoldable pub enum_values : AttributeDefinition → Result BuildError (List MemberValue)
enum_values attribute = values_of_type attribute.id attribute.type

-- `ref.role == "identifying"`
abbrev pub is_identifying : Option Role → Bool
is_identifying (some identifying) = true
is_identifying (some descriptive) = false
is_identifying none = false

unfoldable pub identifying_refs : List EntityAttributeRef → List String
identifying_refs [] = []
identifying_refs (r ∷ rs) =
    let rest = identifying_refs rs in if is_identifying r.role then r.ref ∷ rest else rest

-- One round of the loop over the attributes of an entity.
unfoldable pub build_field :
    Dict String AttributeDefinition → String → EntityAttributeRef → Result BuildError SemanticField
build_field attributes entity r = do
  attribute ← expect (lookup r.ref attributes) (unknown_attribute entity r.ref)
  kind ← field_kind attribute
  values ← enum_values attribute
  ok (record {
    canonical_name = r.ref;
    python_name = python_field_name r.ref;
    kind = kind;
    required = is_identifying r.role;
    description = attribute.brief;
    enum_values = values;
  })

unfoldable pub build_fields :
    Dict String AttributeDefinition
    → String
    → List EntityAttributeRef
    → Result BuildError (List SemanticField)
build_fields attributes entity [] = ok []
build_fields attributes entity (r ∷ rs) = do
  field ← build_field attributes entity r
  fields ← build_fields attributes entity rs
  ok (field ∷ fields)

-- The model of an entity that has identifying attributes.
unfoldable pub build_model :
    Dict String AttributeDefinition → EntityDefinition → Result BuildError SemanticModel
build_model attributes entity = do
  fields ← build_fields attributes entity.name entity.attributes
  ok (record {
    semantic_type = entity.name;
    class_name = python_class_name entity.name;
    fields_class_name = python_class_name entity.name <> "Fields";
    fields = fields;
    identity_fields = identifying_refs entity.attributes;
  })

-- The loop over the entities, which skips an entity without identifying attributes.
unfoldable pub build_models :
    Dict String AttributeDefinition → List EntityDefinition → Result BuildError (List SemanticModel)
build_models attributes [] = ok []
build_models attributes (entity ∷ entities) =
    let rest = build_models attributes entities in
    elim (identifying_refs entity.attributes) [
      | [] ↦ rest
      | r ∷ rs ↦ (do model ← build_model attributes entity; models ← rest; ok (model ∷ models))
    ]

-- `sorted(models, key=lambda model: model.semantic_type)`
unfoldable pub insert_model : SemanticModel → List SemanticModel → List SemanticModel
insert_model m [] = m ∷ []
insert_model m (n ∷ ns) =
    let rest = insert_model m ns in
    if text_leb m.semantic_type n.semantic_type then m ∷ n ∷ ns else n ∷ rest

unfoldable pub sort_models : List SemanticModel → List SemanticModel
sort_models [] = []
sort_models (m ∷ ms) = insert_model m (sort_models ms)

-- `build_semantic_models`
unfoldable pub build_semantic_models :
    List EntityDefinition → Dict String AttributeDefinition → Result BuildError (List SemanticModel)
build_semantic_models entities attributes = do
  models ← build_models attributes entities
  ok (sort_models models)
