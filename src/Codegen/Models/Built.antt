-- ===== src/Codegen/Models/Built.antt =====
-- What `build_semantic_models` returns.
use semconv_graph.Base.{
  String, ◌<>◌, Option, none, some, List, [], ◌∷◌, string_eq, if◌then◌else◌, Result, ok, expect,
  ◌≡◌, ◌≢◌, refl, sym, arith, >>=-eq-ok,
}
use semconv_graph.Base.Dict.{Dict, lookup}
use semconv_graph.Codegen.Names.{python_field_name, python_class_name}
use semconv_graph.Codegen.Registry.{
  MemberValue, primitive, enumeration, AttributeType, AttributeDefinition, EntityAttributeRef,
  EntityDefinition,
}
use semconv_graph.Codegen.Models.{
  SemanticFieldKind, SemanticField, SemanticModel, BuildError, enum, kinds, member_values,
  checked_values, values_of_type, kind_of_type, is_identifying, identifying_refs, field_kind,
  enum_values, build_field, build_fields, build_model,
}

-- The names of the fields that are required.
abbrev pub required_names : List SemanticField → List String
required_names [] = []
required_names (f ∷ fs) =
    let rest = required_names fs in if f.required then f.canonical_name ∷ rest else rest

-- The field of an attribute of an entity. An enumeration has values.
pub record IsField (attributes : Dict String AttributeDefinition) (r : EntityAttributeRef)
    (f : SemanticField) : Type 0 where
  pub attribute : AttributeDefinition
  pub known : lookup r.ref attributes ≡ some attribute
  pub canonical : f.canonical_name ≡ r.ref
  pub named : f.python_name ≡ python_field_name r.ref
  pub required_if : f.required ≡ is_identifying r.role
  pub described : f.description ≡ attribute.brief
  pub kind_given : field_kind attribute ≡ ok f.kind
  pub values_given : enum_values attribute ≡ ok f.enum_values
  pub inhabited : f.kind ≡ enum → f.enum_values ≢ []

abbrev pub AreFields :
    Dict String AttributeDefinition → List EntityAttributeRef → List SemanticField → Type 0
AreFields attributes [] [] = Unit
AreFields attributes (r ∷ rs) (f ∷ fs) = IsField attributes r f × AreFields attributes rs fs
AreFields attributes _ _ = ⊥

-- The model of one of the entities: the fields of its attributes in their order, its identity being those that are required.
pub record IsModel (attributes : Dict String AttributeDefinition) (e : EntityDefinition)
    (m : SemanticModel) : Type 0 where
  pub typed : m.semantic_type ≡ e.name
  pub class_named : m.class_name ≡ python_class_name e.name
  pub fields_named : m.fields_class_name ≡ python_class_name e.name <> "Fields"
  pub fields_of : AreFields attributes e.attributes m.fields
  pub identity_of : m.identity_fields ≡ identifying_refs e.attributes
  pub identity_required : m.identity_fields ≡ required_names m.fields
  pub identified : m.identity_fields ≢ []

checked_values-nonempty :
    (id : String) (vs : List MemberValue) {ws : List MemberValue}
    → checked_values id vs ≡ ok ws
    → ws ≢ []
checked_values-nonempty id [] h = absurd (cc)
checked_values-nonempty id (v ∷ vs) h = λ p. ground arith

expect-eq-ok : {A : Type 0} (o : Option A) (e : BuildError) {a : A} → expect o e ≡ ok a → o ≡ some a
expect-eq-ok none e h = absurd (cc)
expect-eq-ok (some b) e h = ground arith

-- No type that is given by a name is an enumeration.
kinds-apart : (type : String) (k : SemanticFieldKind) → lookup type kinds ≡ some k → k ≢ enum
unfolding lookup
kinds-apart type k h p = ground arith

by_type :
    (id : String) (t : AttributeType) {k : SemanticFieldKind} {vs : List MemberValue}
    → kind_of_type id t ≡ ok k
    → values_of_type id t ≡ ok vs
    → k ≡ enum
    → vs ≢ []
by_type id (primitive type) {k} h given is =
    absurd (kinds-apart type k (expect-eq-ok (lookup type kinds) _ h) is)
by_type id (enumeration members) h given is =
    checked_values-nonempty id (member_values members) given

values-inhabited :
    (a : AttributeDefinition) (k : SemanticFieldKind) (vs : List MemberValue)
    → field_kind a ≡ ok k
    → enum_values a ≡ ok vs
    → k ≡ enum
    → vs ≢ []
unfolding field_kind enum_values
values-inhabited a k vs h given is = by_type a.id a.type h given is

ok-injective : {A : Type 0} {a b : A} → ◌≡◌ {A = Result BuildError A} (ok a) (ok b) → a ≡ b
ok-injective h = cc

cons_identity :
    (r : EntityAttributeRef) (f : SemanticField) (rs : List EntityAttributeRef)
    (fs : List SemanticField)
    → f.canonical_name ≡ r.ref
    → f.required ≡ is_identifying r.role
    → identifying_refs rs ≡ required_names fs
    → identifying_refs (r ∷ rs) ≡ required_names (f ∷ fs)
unfolding identifying_refs
cons_identity r f rs fs canonical required rest = rw (rest, sym canonical, sym required) refl

build_field-IsField :
    (attributes : Dict String AttributeDefinition) (entity : String) (r : EntityAttributeRef)
    {f : SemanticField}
    → build_field attributes entity r ≡ ok f
    → IsField attributes r f
unfolding build_field
build_field-IsField attributes entity r {f} h =
    let (a, known, h1) = >>=-eq-ok (expect (lookup r.ref attributes) _) _ h in
    let (k, kind, h2) = >>=-eq-ok (field_kind a) _ h1 in
    let (vs, values, h3) = >>=-eq-ok (enum_values a) _ h2 in
    let same = ok-injective h3 in
    rw (sym same) record {
      attribute = a;
      known = expect-eq-ok (lookup r.ref attributes) _ known;
      canonical = refl;
      named = refl;
      required_if = refl;
      described = refl;
      kind_given = kind;
      values_given = values;
      inhabited = values-inhabited a k vs kind values;
    }

build_fields-AreFields :
    (attributes : Dict String AttributeDefinition) (entity : String) (rs : List EntityAttributeRef)
    {fs : List SemanticField}
    → build_fields attributes entity rs ≡ ok fs
    → AreFields attributes rs fs × (identifying_refs rs ≡ required_names fs)
unfolding build_fields identifying_refs
build_fields-AreFields attributes entity [] {fs} h =
    let same : [] ≡ fs = ground arith in rw (sym same) (tt, refl)
build_fields-AreFields attributes entity (r ∷ rs) {fs} h =
    let (f, first, h1) = >>=-eq-ok (build_field attributes entity r) _ h in
    let (gs, others, h2) = >>=-eq-ok (build_fields attributes entity rs) _ h1 in
    let same : f ∷ gs ≡ fs = ground arith in
    let field = build_field-IsField attributes entity r first in
    let (are, identity) = build_fields-AreFields attributes entity rs others in
    rw (sym same) ((field, are), cons_identity r f rs gs field.canonical field.required_if identity)

pub build_model-IsModel :
    (attributes : Dict String AttributeDefinition) (e : EntityDefinition) {m : SemanticModel}
    → identifying_refs e.attributes ≢ []
    → build_model attributes e ≡ ok m
    → IsModel attributes e m
unfolding build_model
build_model-IsModel attributes e {m} identified h =
    let (fs, fields, h1) = >>=-eq-ok (build_fields attributes e.name e.attributes) _ h in
    let (are, identity) = build_fields-AreFields attributes e.name e.attributes fields in
    rw (sym (ok-injective h1)) record {
      typed = refl;
      class_named = refl;
      fields_named = refl;
      fields_of = are;
      identity_of = refl;
      identity_required = identity;
      identified = identified;
    }
