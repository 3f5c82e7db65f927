-- ===== src/Codegen/Registry/Validation.antt =====
-- `validate_extension_model` of tools/semconv_codegen/registry/validation.py, over the two documents
-- that it loads.
pub mod Laws
pub mod Duplicates
pub mod Triples
pub mod Accepted
use Prim.Native.Char.{Char, code}
use Prim.Native.String
use semconv_graph.Base.{
  ℕ, String, Bool, true, false, not, ◌&&◌, ◌||◌, Option, none, some, List, [], ◌∷◌, ◌==◌, string_eq,
  nat_eq, leb, contains, if◌then◌else◌, Result, ok, err, ◌>>=◌, ◌>>◌, guard,
}
use semconv_graph.Base.Dict.{Dict, lookup, insert, keys, values, has_key}
use semconv_graph.Codegen.Registry.{
  MemberValue, float, EnumMember, AttributeType, primitive, enumeration, AttributeDefinition, Role,
  identifying, descriptive, EntityAttributeRef, EntityDefinition, EvidenceScope, interaction,
  observation, RelationshipDefinition, RegistryDocument, all_attributes, all_entities,
  all_relationships, index_onto, attributes_by_id, entities_by_name, relationships_by_id,
}

-- The `AssertionError` of each check, with what its message names.
pub data InvalidModel : Type 0 where
  duplicate_attribute duplicate_entity_id duplicate_entity_name duplicate_relationship :
      String → InvalidModel
  duplicate_triple : String → String → String → InvalidModel
  redefines_attribute redefines_entity : String → InvalidModel
  unknown_attribute unfit_identity : String → String → InvalidModel
  unknown_source unknown_target unknown_signal : String → String → InvalidModel
  scope_mismatch interaction_signals connection_mismatch blank_connection : String → InvalidModel

-- `for x in xs: check(x)`
unfoldable pub check_all :
    {A : Type 0} → (A → Result InvalidModel (Unit {0})) → List A → Result InvalidModel (Unit {0})
check_all check [] = ok tt
check_all check (x ∷ xs) = check x >> check_all check xs

-- The loop of `_assert_no_duplicate_attributes`, with the set of the keys that it has seen.
unfoldable pub no_duplicates :
    {A : Type 0}
    → (A → String)
    → (String → InvalidModel)
    → List String
    → List A
    → Result InvalidModel (Unit {0})
no_duplicates key failure seen [] = ok tt
no_duplicates key failure seen (x ∷ xs) =
    guard (not (contains seen (key x))) (failure (key x))
    >> no_duplicates key failure (key x ∷ seen) xs

-- The loop of `_assert_no_duplicate_entities`.
unfoldable pub no_duplicate_entities :
    List String → List String → List EntityDefinition → Result InvalidModel (Unit {0})
no_duplicate_entities ids names [] = ok tt
no_duplicate_entities ids names (e ∷ entities) = do
  guard (not (contains ids e.id)) (duplicate_entity_id e.id)
  guard (not (contains names e.name)) (duplicate_entity_name e.name)
  no_duplicate_entities (e.id ∷ ids) (e.name ∷ names) entities

abbrev pub same_triple : RelationshipDefinition → RelationshipDefinition → Bool
same_triple r q =
    r.source_entity == q.source_entity && r.name == q.name && r.target_entity == q.target_entity

-- `triple in relationship_triples`
unfoldable pub has_triple : List RelationshipDefinition → RelationshipDefinition → Bool
has_triple [] r = false
has_triple (q ∷ seen) r = same_triple r q || has_triple seen r

-- The loop of `_assert_no_duplicate_relationships`.
unfoldable pub no_duplicate_relationships :
    List String
    → List RelationshipDefinition
    → List RelationshipDefinition
    → Result InvalidModel (Unit {0})
no_duplicate_relationships ids seen [] = ok tt
no_duplicate_relationships ids seen (r ∷ relationships) = do
  guard (not (contains ids r.id)) (duplicate_relationship r.id)
  guard (not (has_triple seen r)) (duplicate_triple r.source_entity r.name r.target_entity)
  no_duplicate_relationships (r.id ∷ ids) (r ∷ seen) relationships

abbrev pub is_float : MemberValue → Bool
is_float (float _) = true
is_float _ = false

abbrev pub no_float : List EnumMember → Bool
no_float [] = true
no_float (m ∷ members) = not (is_float m.value) && no_float members

-- `_supports_identity`
unfoldable pub supports_identity : AttributeType → Bool
supports_identity (enumeration members) = no_float members
supports_identity (primitive t) = contains ("string" ∷ "int" ∷ "boolean" ∷ []) t

-- `{**upstream, **extension}`
unfoldable pub merge : {A : Type 0} → Dict String A → Dict String A → Dict String A
merge d [] = d
merge d ((k, v) ∷ rest) = merge (insert k v d) rest

abbrev pub is_identifying : Option Role → Bool
is_identifying (some identifying) = true
is_identifying _ = false

-- The checks of one attribute reference of an entity.
unfoldable pub check_ref :
    Dict String AttributeDefinition → String → EntityAttributeRef → Result InvalidModel (Unit {0})
check_ref available name reference = elim (lookup reference.ref available) [
  | none ↦ err (unknown_attribute name reference.ref)
  | some attribute ↦
      guard (not (is_identifying reference.role) || supports_identity attribute.type)
        (unfit_identity name reference.ref)
]

-- `str.isspace` of one character.
abbrev pub is_space : Char → Bool
is_space c =
    (leb 9 (code c) && leb (code c) 13)
    || (leb 28 (code c) && leb (code c) 32)
    || code c == 133
    || code c == 160
    || code c == 5760
    || (leb 8192 (code c) && leb (code c) 8202)
    || code c == 8232
    || code c == 8233
    || code c == 8239
    || code c == 8287
    || code c == 12288

-- `not s.strip()`
unfoldable pub blank : String → Bool
blank String.[] = true
blank (String.◌∷◌ c s) = is_space c && blank s

abbrev pub is_interaction : Option EvidenceScope → Bool
is_interaction (some interaction) = true
is_interaction _ = false

abbrev pub given {ℓ} : {A : Type ℓ} → Option A → Bool
given none = false
given (some _) = true

abbrev pub blank_text : Option String → Bool
blank_text none = false
blank_text (some s) = blank s

abbrev pub same_bool : Bool → Bool → Bool
same_bool true b = b
same_bool false b = not b

-- The checks of a relationship's evidence, given whether its signals hold each of the two graph signals.
unfoldable pub check_evidence :
    String → Option EvidenceScope → Bool → Bool → Option String → Result InvalidModel (Unit {0})
check_evidence id scope service_graph span_metrics connection = do
  guard (same_bool (service_graph || span_metrics) (given scope)) (scope_mismatch id)
  guard (not (is_interaction scope) || (service_graph && not span_metrics)) (interaction_signals id)
  guard (same_bool (is_interaction scope) (given connection)) (connection_mismatch id)
  guard (not (blank_text connection)) (blank_connection id)

abbrev pub known_signals : List String
known_signals = "trace" ∷ "service_graph" ∷ "span_metrics" ∷ []

-- The checks of one relationship, given the names of the available entities.
unfoldable pub check_relationship :
    List String → RelationshipDefinition → Result InvalidModel (Unit {0})
check_relationship available r = do
  guard (contains available r.source_entity) (unknown_source r.id r.source_entity)
  guard (contains available r.target_entity) (unknown_target r.id r.target_entity)
  check_all (λ signal. guard (contains known_signals signal) (unknown_signal r.id signal))
      r.source_signals
  check_evidence r.id r.evidence_scope (contains r.source_signals "service_graph")
      (contains r.source_signals "span_metrics") r.connection_type

unfoldable pub validate_extension_model :
    RegistryDocument → RegistryDocument → Result InvalidModel (Unit {0})
validate_extension_model upstream extension = do
  no_duplicates (λ (a : AttributeDefinition). a.id) duplicate_attribute []
      (all_attributes extension)
  no_duplicate_entities [] [] (all_entities extension)
  no_duplicate_relationships [] [] (all_relationships extension)
  check_all (λ id. guard (not (has_key id (attributes_by_id upstream))) (redefines_attribute id))
      (keys (attributes_by_id extension))
  check_all (λ name. guard (not (has_key name (entities_by_name upstream))) (redefines_entity name))
      (keys (entities_by_name extension))
  check_all
      (λ (e : EntityDefinition).
        check_all
          (check_ref (merge (attributes_by_id upstream) (attributes_by_id extension)) e.name)
          e.attributes)
      (values (entities_by_name extension))
  check_all
      (λ r.
        check_relationship (keys (merge (entities_by_name upstream) (entities_by_name extension)))
          r)
      (values (relationships_by_id extension))
