-- ===== src/Gremlin/Generated/Classes.antt =====
-- The entity classes agree with their fields and with the generator.
use semconv_graph.Base.{
  String, Bool, true, false, not, ◌&&◌, Option, none, some, List, [], ◌∷◌, ◌==◌, string_eq, nat_eq,
  string_dec, if◌then◌else◌, contains, Distinct, ◌≡◌, refl, arith, Option-cases, inl, inr,
}
use native.Mathlib.Decide.{ℕ_discrete}
use semconv_graph.Base.Dict.{lookup, every, lookup-every}
use semconv_graph.Base.Sorting.{sorted, insert_sorted, text_leb, same_texts, same_texts-eq}
use semconv_graph.Codegen.Names.{
  python_field_name, python_class_name, sub_runs, strip_left, strip_right, class_name_from,
  lower_char, upper_char,
}
use semconv_graph.Gremlin.Models.{EntityModel, alias_of}
use semconv_graph.Gremlin.Generated.{Field, FieldKind, string_map}
use semconv_graph.Gremlin.Generated.Entities.{entity_models}
use semconv_graph.Gremlin.Generated.Declared.{entity_fields}

abbrev pub aliases : List Field → List String
aliases [] = []
aliases (f ∷ fs) = f.alias ∷ aliases fs

abbrev pub names : List Field → List String
names [] = []
names (f ∷ fs) = f.name ∷ names fs

-- The names in `model_fields`, and what `semantic_entity_from_data` reads the fields under.
abbrev pub model_names : List (String × Option String) → List String
model_names [] = []
model_names (f ∷ fs) = f.0 ∷ model_names fs

abbrev pub model_aliases : List (String × Option String) → List String
model_aliases [] = []
model_aliases (f ∷ fs) = alias_of f ∷ model_aliases fs

-- `python_field_name` of each.
abbrev pub field_names : List String → List String
field_names [] = []
field_names (a ∷ rest) = python_field_name a ∷ field_names rest

abbrev is_map : FieldKind → Bool
is_map string_map = true
is_map _ = false

-- The aliases of the fields that have no default, and of those that are maps.
abbrev pub required_aliases : List Field → List String
required_aliases [] = []
required_aliases (f ∷ fs) =
    let rest = required_aliases fs in if f.is_required then f.alias ∷ rest else rest

abbrev pub map_aliases : List Field → List String
map_aliases [] = []
map_aliases (f ∷ fs) = let rest = map_aliases fs in if is_map f.kind then f.alias ∷ rest else rest

abbrev no_repeats : List String → Bool
no_repeats [] = true
no_repeats (x ∷ xs) = not (contains xs x) && no_repeats xs

no_repeats-Distinct : (xs : List String) → no_repeats xs ≡ true → Distinct xs
no_repeats-Distinct [] h = tt
no_repeats-Distinct (x ∷ xs) h = (ground arith, no_repeats-Distinct xs (ground arith))

unfoldable fits_fields : EntityModel → List Field → Bool
fits_fields m fs =
    same_texts (model_names m.model_fields) ("element_id" ∷ names fs)
    && same_texts (model_aliases m.model_fields) ("element_id" ∷ aliases fs)
    && same_texts (names fs) (field_names (aliases fs))
    && same_texts (sorted m.identity_fields) (sorted (required_aliases fs))
    && same_texts (sorted m.template_fields) (sorted (map_aliases fs))
    && no_repeats (aliases fs)

unfoldable fits_type : String → EntityModel → Bool
fits_type t m =
    m.entity_type == t
    && m.name == python_class_name t
    && elim (lookup t entity_fields) [ none ↦ false | some fs ↦ fits_fields m fs ]

every_entity : every fits_type entity_models ≡ true
unfolding fits_type fits_fields python_class_name class_name_from lower_char upper_char
    python_field_name sub_runs strip_left strip_right same_texts sorted insert_sorted text_leb
    lookup string_dec ℕ_discrete
every_entity = refl

-- An entity class of the package, whose fields are `fields`.
pub record IsGeneratedEntity (t : String) (m : EntityModel) : Type 0 where
  pub fields : List Field
  pub declared : lookup t entity_fields ≡ some fields
  pub all_named : model_names m.model_fields ≡ "element_id" ∷ names fields
  pub all_aliased : model_aliases m.model_fields ≡ "element_id" ∷ aliases fields
  pub same_type : m.entity_type ≡ t
  pub named : m.name ≡ python_class_name t
  pub field_named : names fields ≡ field_names (aliases fields)
  pub identity : sorted m.identity_fields ≡ sorted (required_aliases fields)
  pub templates : sorted m.template_fields ≡ sorted (map_aliases fields)
  pub once : Distinct (aliases fields)

fits_fields-parts :
    (m : EntityModel) (fs : List Field)
    → fits_fields m fs ≡ true
    → (model_names m.model_fields ≡ "element_id" ∷ names fs)
      × (model_aliases m.model_fields ≡ "element_id" ∷ aliases fs)
      × (names fs ≡ field_names (aliases fs))
      × (sorted m.identity_fields ≡ sorted (required_aliases fs))
      × (sorted m.template_fields ≡ sorted (map_aliases fs))
      × Distinct (aliases fs)
unfolding fits_fields
fits_fields-parts m fs h = (
  same_texts-eq _ _ (ground arith),
  same_texts-eq _ _ (ground arith),
  same_texts-eq _ _ (ground arith),
  same_texts-eq _ _ (ground arith),
  same_texts-eq _ _ (ground arith),
  no_repeats-Distinct (aliases fs) (ground arith),
)

-- Every class of `ENTITY_MODELS` stands under its own type and has the name that the generator gives to it;
-- its fields have the names that the generator gives to their aliases, no alias twice, the identity of the
-- class are the fields without a default, and its templates are the fields that are maps.
pub entity_models-IsGeneratedEntity :
    (t : String) (m : EntityModel) → lookup t entity_models ≡ some m → IsGeneratedEntity t m
unfolding fits_type
entity_models-IsGeneratedEntity t m found =
    let fits = lookup-every fits_type entity_models t m every_entity found in
    elim (Option-cases (lookup t entity_fields)) [
      | inl absent ↦ absurd (ground arith)
      | inr (fs, declared) ↦
          let (all_named, all_aliased, field_named, identity, templates, once) =
            fits_fields-parts m fs (ground arith) in
          record {
            fields = fs;
            declared = declared;
            all_named = all_named;
            all_aliased = all_aliased;
            same_type = ground arith;
            named = ground arith;
            field_named = field_named;
            identity = identity;
            templates = templates;
            once = once;
          }
    ]
