-- ===== src/Codegen/Models/Whole.antt =====
-- `build_semantic_models` as a whole.
use semconv_graph.Base.{
  ℕ, suc, String, Bool, true, false, some, List, [], ◌∷◌, string_eq, if◌then◌else◌, get_elem?, ok,
  ◌>>=◌, ◌≡◌, refl, sym, ap, ◌∙◌, arith, All, Bool-cases, List-cases, inl, inr, >>=-eq-ok,
}
use semconv_graph.Base.Dict.{Dict}
use semconv_graph.Base.Sorting.{text_leb, sorted, insert_sorted}
use semconv_graph.Codegen.Registry.{AttributeDefinition, EntityDefinition}
use semconv_graph.Codegen.Models.{
  SemanticModel, identifying_refs, build_model, build_models, insert_model, sort_models,
  build_semantic_models,
}
use semconv_graph.Codegen.Models.Built.{IsModel, build_model-IsModel}

abbrev pub types : List SemanticModel → List String
types [] = []
types (m ∷ ms) = m.semantic_type ∷ types ms

abbrev pub nonempty : List String → Bool
nonempty [] = false
nonempty (s ∷ ss) = true

-- The names of the entities that have identifying attributes.
abbrev pub identified_names : List EntityDefinition → List String
identified_names [] = []
identified_names (e ∷ es) =
    let rest = identified_names es in
    if nonempty (identifying_refs e.attributes) then e.name ∷ rest else rest

-- A model of one of the entities.
abbrev pub IsModelOf :
    Dict String AttributeDefinition → List EntityDefinition → SemanticModel → Type 0
IsModelOf attributes es m =
    (i : ℕ) × (e : EntityDefinition) × (get_elem? es i ≡ some e) × IsModel attributes e m

All-map :
    (P Q : SemanticModel → Type 0) (ms : List SemanticModel)
    → ((m : SemanticModel) → P m → Q m)
    → All P ms
    → All Q ms
All-map P Q [] f h = tt
All-map P Q (m ∷ ms) f (p, h) = (f m p, All-map P Q ms f h)

All-insert_model :
    (P : SemanticModel → Type 0) (m : SemanticModel) (ms : List SemanticModel)
    → P m
    → All P ms
    → All P (insert_model m ms)
unfolding insert_model
All-insert_model P m [] p h = (p, tt)
All-insert_model P m (n ∷ ns) p (q, h) =
    elim (Bool-cases (text_leb m.semantic_type n.semantic_type)) [
      | inl le ↦ rw (insert_model, le) (p, (q, h))
      | inr gt ↦ rw (insert_model, gt) (q, All-insert_model P m ns p h)
    ]

All-sort_models :
    (P : SemanticModel → Type 0) (ms : List SemanticModel) → All P ms → All P (sort_models ms)
unfolding sort_models
All-sort_models P [] h = tt
All-sort_models P (m ∷ ms) (p, h) = All-insert_model P m (sort_models ms) p (All-sort_models P ms h)

types-insert_model :
    (m : SemanticModel) (ms : List SemanticModel)
    → types (insert_model m ms) ≡ insert_sorted m.semantic_type (types ms)
unfolding insert_model insert_sorted
types-insert_model m [] = refl
types-insert_model m (n ∷ ns) = ground (arith, types-insert_model m ns)

types-sort_models : (ms : List SemanticModel) → types (sort_models ms) ≡ sorted (types ms)
unfolding sort_models sorted
types-sort_models [] = refl
types-sort_models (m ∷ ms) =
    types-insert_model m (sort_models ms)
    ∙ ap (insert_sorted m.semantic_type) (types-sort_models ms)

cons-eq : {a b : String} {xs ys : List String} → a ≡ b → xs ≡ ys → (a ∷ xs) ≡ (b ∷ ys)
cons-eq p q = cc

build_models-IsModelOf :
    (attributes : Dict String AttributeDefinition) (es : List EntityDefinition)
    {ms : List SemanticModel}
    → build_models attributes es ≡ ok ms
    → (types ms ≡ identified_names es) × All (IsModelOf attributes es) ms
unfolding build_models
build_models-IsModelOf attributes [] {ms} h =
    let same : [] ≡ ms = ground arith in rw (sym same) (refl, tt)
build_models-IsModelOf attributes (e ∷ es) {ms} h =
    elim (List-cases (identifying_refs e.attributes)) [
      | inl unidentified ↦
          let skipped : build_models attributes es ≡ ok ms = rw (build_models, unidentified) at h in
          let (names, models) = build_models-IsModelOf attributes es skipped in
          rw unidentified (
            names,
            All-map (IsModelOf attributes es) (IsModelOf attributes (e ∷ es)) ms
                (λ m (i, a, at, is). (suc i, a, at, is)) models,
          )
      | inr (r, rs, identified) ↦
          let taken : (build_model attributes e >>= λ model.
          build_models attributes es >>= λ models. ok (model ∷ models))
              ≡ ok ms =
            rw (build_models, identified) at h in
          let (m, first, h1) = >>=-eq-ok (build_model attributes e) _ taken in
          let (ns, others, h2) = >>=-eq-ok (build_models attributes es) _ h1 in
          let same : m ∷ ns ≡ ms = ground arith in
          let is = build_model-IsModel attributes e (λ empty. absurd (ground arith)) first in
          let (names, models) = build_models-IsModelOf attributes es others in
          rw (sym same, identified)
            (
              cons-eq is.typed names,
              (
                (0, e, refl, is),
                All-map (IsModelOf attributes es) (IsModelOf attributes (e ∷ es)) ns
                    (λ n (i, a, at, of). (suc i, a, at, of)) models,
              ),
            )
    ]

-- The models that `build_semantic_models` returns: one for each entity with identifying attributes and no
-- others, in the order of their types. Each has the names that its type gives, the fields of the entity's
-- attributes in their order, each with the kind and values of its attribute, values if it is an enumeration,
-- and as its identity the required fields, of which there is one at least.
pub build_semantic_models-IsModelOf :
    (entities : List EntityDefinition) (attributes : Dict String AttributeDefinition)
    (ms : List SemanticModel)
    → build_semantic_models entities attributes ≡ ok ms
    → (types ms ≡ sorted (identified_names entities)) × All (IsModelOf attributes entities) ms
unfolding build_semantic_models
build_semantic_models-IsModelOf entities attributes ms h =
    let (unsorted, built, h1) = >>=-eq-ok (build_models attributes entities) _ h in
    let (names, models) = build_models-IsModelOf attributes entities built in
    let same : sort_models unsorted ≡ ms = ground arith in
    rw (sym same) (
      types-sort_models unsorted ∙ ap sorted names,
      All-sort_models (IsModelOf attributes entities) unsorted models,
    )
