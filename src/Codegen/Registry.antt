-- ===== src/Codegen/Registry.antt =====
-- The registry documents of tools/semconv_codegen/registry/model.py, as they are after parsing.
pub mod Validation
use semconv_graph.Base.{String, Option, none, some, List, [], ◌∷◌, ◌++◌, string_eq}
use semconv_graph.Base.Dict.{Dict, insert}

-- `str | int | float | bool`, each by its literal.
pub data MemberValue : Type 0 where
  text int float bool : String → MemberValue

pub record EnumMember : Type 0 where
  pub id : String
  pub value : MemberValue
  pub brief : Option String

-- `PrimitiveAttributeType | EnumAttributeType`
pub data AttributeType : Type 0 where
  primitive : String → AttributeType
  enumeration : List EnumMember → AttributeType

pub record AttributeDefinition : Type 0 where
  pub id : String
  pub type : AttributeType
  pub stability : Option String
  pub brief : Option String

pub data Role : Type 0 where
  identifying descriptive : Role

pub record EntityAttributeRef : Type 0 where
  pub ref : String
  pub role : Option Role

pub record AttributeGroup : Type 0 where
  pub id : String
  pub attributes : List AttributeDefinition

pub record EntityDefinition : Type 0 where
  pub id : String
  pub name : String
  pub stability : Option String
  pub brief : Option String
  pub attributes : List EntityAttributeRef

pub data EvidenceScope : Type 0 where
  observation interaction : EvidenceScope

pub record RelationshipDefinition : Type 0 where
  pub id : String
  pub name : String
  pub source_entity : String
  pub target_entity : String
  pub source_signals : List String
  pub evidence_scope : Option EvidenceScope
  pub connection_type : Option String
  pub stability : Option String
  pub brief : Option String

pub data RegistryGroup : Type 0 where
  attribute_group : AttributeGroup → RegistryGroup
  entity_group : EntityDefinition → RegistryGroup
  relationship_group : RelationshipDefinition → RegistryGroup

-- `RegistryDocument`, by its groups.
abbrev pub RegistryDocument : Type 0
RegistryDocument = List RegistryGroup

-- The attributes, the entities and the relationships of a document, in the order of its groups.
unfoldable pub all_attributes : RegistryDocument → List AttributeDefinition
all_attributes [] = []
all_attributes (attribute_group g ∷ groups) = g.attributes ++ all_attributes groups
all_attributes (entity_group e ∷ groups) = all_attributes groups
all_attributes (relationship_group r ∷ groups) = all_attributes groups

unfoldable pub all_entities : RegistryDocument → List EntityDefinition
all_entities [] = []
all_entities (attribute_group g ∷ groups) = all_entities groups
all_entities (entity_group e ∷ groups) = e ∷ all_entities groups
all_entities (relationship_group r ∷ groups) = all_entities groups

unfoldable pub all_relationships : RegistryDocument → List RelationshipDefinition
all_relationships [] = []
all_relationships (attribute_group g ∷ groups) = all_relationships groups
all_relationships (entity_group e ∷ groups) = all_relationships groups
all_relationships (relationship_group r ∷ groups) = r ∷ all_relationships groups

-- `{key(x): x for x in xs}`, from a dict on.
unfoldable pub index_onto : {A : Type 0} → (A → String) → Dict String A → List A → Dict String A
index_onto key d [] = d
index_onto key d (x ∷ xs) = index_onto key (insert (key x) x d) xs

unfoldable pub attributes_by_id : RegistryDocument → Dict String AttributeDefinition
attributes_by_id document = index_onto (λ a. a.id) [] (all_attributes document)

unfoldable pub entities_by_name : RegistryDocument → Dict String EntityDefinition
entities_by_name document = index_onto (λ e. e.name) [] (all_entities document)

unfoldable pub relationships_by_id : RegistryDocument → Dict String RelationshipDefinition
relationships_by_id document = index_onto (λ r. r.id) [] (all_relationships document)
