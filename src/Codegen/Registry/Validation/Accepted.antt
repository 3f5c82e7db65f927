-- ===== src/Codegen/Registry/Validation/Accepted.antt =====
-- The extensions that `validate_extension_model` accepts.
use semconv_graph.Base.{
  String, true, not, some, List, [], ◌∷◌, string_eq, Result, ok, err, ◌>>◌, ◌≡◌, refl, sym, ap, ◌∙◌,
  arith, All, Distinct, ◌↔◌, Bool-cases, Option-cases, inl, inr,
}
use semconv_graph.Base.Dict.{Dict, lookup, keys, values, has_key}
use semconv_graph.Codegen.Registry.{
  AttributeDefinition, EntityAttributeRef, EntityDefinition, RelationshipDefinition,
  RegistryDocument, all_attributes, all_entities, all_relationships, attributes_by_id,
  entities_by_name, relationships_by_id,
}
use semconv_graph.Codegen.Registry.Validation.{
  InvalidModel, duplicate_attribute, has_triple, check_all, check_ref, supports_identity,
  is_identifying, merge, check_relationship, validate_extension_model,
}
use semconv_graph.Codegen.Registry.Validation.Laws.{
  check_all-All, All-guard, IsRelationship, check_relationship-IsRelationship,
}
use semconv_graph.Codegen.Registry.Validation.Duplicates.{
  map, Unseen-nil, no_duplicates-Distinct, no_duplicate_entities-Unseen, DistinctTriples,
  index_onto-Distinct, values-pairs, keys-pairs,
}
use semconv_graph.Codegen.Registry.Validation.Triples.{
  UnseenTriples, no_duplicate_relationships-Unseen,
}

-- A reference of an entity to an available attribute, one that can identify if the role says so.
pub IsRef : Dict String AttributeDefinition → EntityAttributeRef → Type 0
IsRef available reference =
    (attribute : AttributeDefinition) × (lookup reference.ref available ≡ some attribute)
    × (is_identifying reference.role ≡ true → supports_identity attribute.type ≡ true)

check_ref-IsRef :
    (available : Dict String AttributeDefinition) (name : String) (reference : EntityAttributeRef)
    → (check_ref available name reference ≡ ok tt) ↔ IsRef available reference
unfolding check_ref IsRef
check_ref-IsRef available name reference = elim (Option-cases (lookup reference.ref available)) [
  | inl unknown ↦ (λ h. absurd (ground arith), λ h. absurd (ground arith))
  | inr (attribute, found) ↦ (
    λ h. (attribute, found, λ p. ground arith),
    λ (other, there, fit). elim (Bool-cases (is_identifying reference.role)) [
      | inl named ↦
          let fits = fit named in
          let same : other ≡ attribute = ground arith in
          let suits = rw (ap (λ a. supports_identity a.type) same) at fits in ground arith
      | inr plain ↦ ground arith
    ],
  )
]

All-map :
    {A : Type 0} (P Q : A → Type 0) → ((x : A) → P x → Q x) → (xs : List A) → All P xs → All Q xs
All-map P Q f [] h = tt
All-map P Q f (x ∷ xs) (p, h) = (f x p, All-map P Q f xs h)

>>-ok : (m k : Result InvalidModel (Unit {0})) → ((m >> k) ≡ ok tt) ↔ ((m ≡ ok tt) × (k ≡ ok tt))
>>-ok (ok done) k = (λ h. (refl, h), λ h. h.1)
>>-ok (err e) k = (λ h. absurd (cc), λ h. absurd (cc))

module _ (upstream extension : RegistryDocument) where
  abbrev pub available_attributes : Dict String AttributeDefinition
  available_attributes = merge (attributes_by_id upstream) (attributes_by_id extension)

  abbrev pub available_entities : List String
  available_entities = keys (merge (entities_by_name upstream) (entities_by_name extension))

  -- An extension of the upstream model.
  pub record IsExtension : Type 0 where
    pub attributes_once : Distinct (map (λ a. a.id) (all_attributes extension))
    pub entity_ids_once : Distinct (map (λ e. e.id) (all_entities extension))
    pub entity_names_once : Distinct (map (λ e. e.name) (all_entities extension))
    pub relationship_ids_once : Distinct (map (λ r. r.id) (all_relationships extension))
    pub triples_once : DistinctTriples (all_relationships extension)
    pub attributes_new :
        All
          (λ id. not (has_key id (attributes_by_id upstream)) ≡ true)
          (map (λ a. a.id) (all_attributes extension))
    pub entities_new :
        All
          (λ name. not (has_key name (entities_by_name upstream)) ≡ true)
          (map (λ e. e.name) (all_entities extension))
    pub references :
        All (λ e. All (IsRef available_attributes) e.attributes) (all_entities extension)
    pub relationships : All (IsRelationship available_entities) (all_relationships extension)

  attribute_keys :
      Distinct (map (λ a. a.id) (all_attributes extension))
      → keys (attributes_by_id extension) ≡ map (λ a. a.id) (all_attributes extension)
  unfolding attributes_by_id
  attribute_keys once =
      ap keys (index_onto-Distinct (λ a. a.id) (all_attributes extension) once)
      ∙ keys-pairs (λ a. a.id) (all_attributes extension)

  entity_keys :
      Distinct (map (λ e. e.name) (all_entities extension))
      → keys (entities_by_name extension) ≡ map (λ e. e.name) (all_entities extension)
  unfolding entities_by_name
  entity_keys once =
      ap keys (index_onto-Distinct (λ e. e.name) (all_entities extension) once)
      ∙ keys-pairs (λ e. e.name) (all_entities extension)

  entity_values :
      Distinct (map (λ e. e.name) (all_entities extension))
      → values (entities_by_name extension) ≡ all_entities extension
  unfolding entities_by_name
  entity_values once =
      ap values (index_onto-Distinct (λ e. e.name) (all_entities extension) once)
      ∙ values-pairs (λ e. e.name) (all_entities extension)

  relationship_values :
      Distinct (map (λ r. r.id) (all_relationships extension))
      → values (relationships_by_id extension) ≡ all_relationships extension
  unfolding relationships_by_id
  relationship_values once =
      ap values (index_onto-Distinct (λ r. r.id) (all_relationships extension) once)
      ∙ values-pairs (λ r. r.id) (all_relationships extension)

  check_refs-All :
      (entities : List EntityDefinition)
      → (check_all
            (λ (e : EntityDefinition).
              check_all (check_ref available_attributes e.name) e.attributes)
            entities
          ≡ ok tt)
        ↔ All (λ e. All (IsRef available_attributes) e.attributes) entities
  check_refs-All entities = (
    λ h.
        All-map _ _
          (λ e k.
            All-map _ _ (λ x. (check_ref-IsRef available_attributes e.name x).0) e.attributes
              ((check_all-All _ e.attributes).0 k))
          entities ((check_all-All _ entities).0 h),
    λ h. (check_all-All _ entities).1 (
        All-map _ _
          (λ e k.
            (check_all-All (check_ref available_attributes e.name) e.attributes).1
              (All-map _ _ (λ x. (check_ref-IsRef available_attributes e.name x).1) e.attributes k))
          entities h),
  )

  check_relationships-All :
      (rs : List RelationshipDefinition)
      → (check_all (check_relationship available_entities) rs ≡ ok tt)
        ↔ All (IsRelationship available_entities) rs
  check_relationships-All rs = (
    λ h.
        All-map _ _ (λ r. (check_relationship-IsRelationship available_entities r).0) rs
          ((check_all-All _ rs).0 h),
    λ h.
        (check_all-All _ rs).1
          (All-map _ _ (λ r. (check_relationship-IsRelationship available_entities r).1) rs h),
  )

  entities_checked :
      Distinct (map (λ e. e.name) (all_entities extension))
      → (check_all
            (λ (e : EntityDefinition).
              check_all (check_ref available_attributes e.name) e.attributes)
            (values (entities_by_name extension))
          ≡ ok tt)
        ↔ All (λ e. All (IsRef available_attributes) e.attributes) (all_entities extension)
  entities_checked once = rw (entity_values once) (check_refs-All (all_entities extension))

  relationships_checked :
      Distinct (map (λ r. r.id) (all_relationships extension))
      → (check_all (check_relationship available_entities) (values (relationships_by_id extension))
          ≡ ok tt)
        ↔ All (IsRelationship available_entities) (all_relationships extension)
  relationships_checked once =
      rw (relationship_values once) (check_relationships-All (all_relationships extension))

  Unseen-triples-nil : (rs : List RelationshipDefinition) → UnseenTriples [] rs
  unfolding has_triple
  Unseen-triples-nil [] = tt
  Unseen-triples-nil (r ∷ rs) = (refl, Unseen-triples-nil rs)

  validate-IsExtension : validate_extension_model upstream extension ≡ ok tt → IsExtension
  unfolding validate_extension_model
  validate-IsExtension h =
      let (s1, h1) = (>>-ok _ _).0 h in
      let (s2, h2) = (>>-ok _ _).0 h1 in
      let (s3, h3) = (>>-ok _ _).0 h2 in
      let (s4, h4) = (>>-ok _ _).0 h3 in
      let (s5, h5) = (>>-ok _ _).0 h4 in
      let (s6, s7) = (>>-ok _ _).0 h5 in
      let once =
        (no_duplicates-Distinct (λ a. a.id) duplicate_attribute (all_attributes extension)).0 s1 in
      let (_, ids, _, names) = (no_duplicate_entities-Unseen [] [] (all_entities extension)).0 s2 in
      let (_, rids, _, triples) =
        (no_duplicate_relationships-Unseen [] [] (all_relationships extension)).0 s3 in
      record {
        attributes_once = once;
        entity_ids_once = ids;
        entity_names_once = names;
        relationship_ids_once = rids;
        triples_once = triples;
        attributes_new =
            rw (sym (attribute_keys once)) ((All-guard _ _ _).0 ((check_all-All _ _).0 s4));
        entities_new =
            rw (sym (entity_keys names)) ((All-guard _ _ _).0 ((check_all-All _ _).0 s5));
        references = (entities_checked names).0 s6;
        relationships = (relationships_checked rids).0 s7;
      }

  IsExtension-validate : IsExtension → validate_extension_model upstream extension ≡ ok tt
  unfolding validate_extension_model
  IsExtension-validate v =
      let s1 =
        (no_duplicates-Distinct (λ a. a.id) duplicate_attribute (all_attributes extension)).1
          v.attributes_once in
      let s2 = (no_duplicate_entities-Unseen [] [] (all_entities extension)).1 (
        Unseen-nil (λ e. e.id) _,
        v.entity_ids_once,
        Unseen-nil (λ e. e.name) _,
        v.entity_names_once,
      ) in
      let s3 =
        (no_duplicate_relationships-Unseen [] [] (all_relationships extension)).1 (
          Unseen-nil (λ r. r.id) _,
          v.relationship_ids_once,
          Unseen-triples-nil _,
          v.triples_once,
        ) in
      (>>-ok _ _).1 (
        s1,
        (>>-ok _ _).1 (
          s2,
          (>>-ok _ _).1 (
            s3,
            (>>-ok _ _).1 (
              (check_all-All _ _).1
                  ((All-guard _ _ _).1 (rw (attribute_keys v.attributes_once) v.attributes_new)),
              (>>-ok _ _).1 (
                (check_all-All _ _).1
                    ((All-guard _ _ _).1 (rw (entity_keys v.entity_names_once) v.entities_new)),
                (>>-ok _ _).1 (
                  (entities_checked v.entity_names_once).1 v.references,
                  (relationships_checked v.relationship_ids_once).1 v.relationships,
                ),
              ),
            ),
          ),
        ),
      )

  -- An extension passes the validation exactly if its attributes, entities and relationships are each
  -- declared once, no two relationships join the same entities under the same name, it redefines
  -- no attribute and no entity of the upstream model, its entities refer to attributes of one of
  -- both models which can identify where they have to, and its relationships are valid between the
  -- entities of both models.
  pub validate_extension_model-IsExtension :
      (validate_extension_model upstream extension ≡ ok tt) ↔ IsExtension
  validate_extension_model-IsExtension = (validate-IsExtension, IsExtension-validate)
