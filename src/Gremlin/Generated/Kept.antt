-- ===== src/Gremlin/Generated/Kept.antt =====
-- The entities of the classes of the package, made of data and flattened again.
use semconv_graph.Base.{
  String, Bool, true, false, not, none, some, string_eq, nat_eq, string_dec, if◌then◌else◌, Result,
  ok, ◌≡◌, refl, ap, ◌∙◌, arith,
}
use native.Mathlib.Decide.{ℕ_discrete}
use semconv_graph.Base.Dict.{lookup, every, lookup-every, NodupKeys}
use semconv_graph.Gremlin.Values.{Attributes}
use semconv_graph.Gremlin.Models.{ModelError, EntityModel, semantic_entity_from_data}
use semconv_graph.Gremlin.Models.Flattening.{given, semantic_attributes}
use semconv_graph.Gremlin.Models.Freezing.{freeze_containers, model_validate}
use semconv_graph.Gremlin.Models.Freezing.Laws.{
  frozen, lookup-freeze_containers, freeze_containers-NodupKeys, freeze_containers-given,
}
use semconv_graph.Gremlin.Models.Freezing.Fields.{freeze-values_from}
use semconv_graph.Gremlin.Models.Flattening.Kept.{reads}
use semconv_graph.Gremlin.Models.Flattening.Whole.{covers, values_from, lookup-semantic_attributes}
use semconv_graph.Gremlin.Generated.Entities.{entity_models}

abbrev spares_id : String → EntityModel → Bool
spares_id t m = not (reads m.model_fields "element_id")

every-spares_id : every spares_id entity_models ≡ true
unfolding string_dec ℕ_discrete
every-spares_id = refl

negated : (b : Bool) → not b ≡ true → b ≡ false
negated true h = absurd (cc)
negated false h = refl

-- `semantic_entity_from_data` with the classes of the package.
abbrev pub generated_entity_from_data :
    String
    → (EntityModel → Attributes → Result String Attributes)
    → String
    → String
    → Attributes
    → Result ModelError Attributes
generated_entity_from_data token_text validate_fields =
    semantic_entity_from_data (λ n. lookup n entity_models)
      (model_validate token_text validate_fields)

-- What freezing makes of the values that the validation returns is what it makes of the values that it was given.
abbrev pub IsKept :
    String
    → (EntityModel → Attributes → Result String Attributes)
    → EntityModel
    → Attributes
    → Type 0
IsKept token_text validate_fields m values =
    (valid : Attributes) × (validate_fields m values ≡ ok valid)
    × (freeze_containers token_text valid ≡ freeze_containers token_text values)

makes :
    (model_validate : EntityModel → Attributes → Result String Attributes) (t element_id : String)
    (raw : Attributes) (m : EntityModel) (e : Attributes)
    → lookup t entity_models ≡ some m
    → model_validate m (values_from m element_id raw) ≡ ok e
    → semantic_entity_from_data (λ n. lookup n entity_models) model_validate t element_id raw ≡ ok e
unfolding semantic_entity_from_data
makes model_validate t element_id raw m e found valid = ground arith

validated :
    (token_text : String) (validate_fields : EntityModel → Attributes → Result String Attributes)
    (m : EntityModel) (values valid : Attributes)
    → validate_fields m values ≡ ok valid
    → model_validate token_text validate_fields m values ≡ ok (freeze_containers token_text valid)
unfolding model_validate
validated token_text validate_fields m values valid accepted = rw accepted refl

module _ (token_text : String)
    (validate_fields : EntityModel → Attributes → Result String Attributes) where
  -- `semantic_entity_from_data` makes an entity of data whose type has a class in the package, if the validation
  -- of its fields accepts what they take from the data and changes it only by what freezing changes too, such as
  -- a list into a tuple; and then `semantic_attributes` gives back the data under every key that a field of the
  -- class writes, frozen, and nothing else. No key of the data occurs twice, and no value is None.
  pub semantic_entity_from_data_keeps :
      (t element_id : String) (raw : Attributes) (m : EntityModel)
      → NodupKeys raw
      → every given raw ≡ true
      → lookup t entity_models ≡ some m
      → IsKept token_text validate_fields m (values_from m element_id raw)
      → (e : Attributes) × (generated_entity_from_data token_text validate_fields t element_id raw
          ≡ ok e)
        × ((k : String)
            → lookup k (semantic_attributes m e) ≡ (
                if covers m.template_fields m.model_fields k
                then frozen token_text (lookup k raw)
                else none))
  semantic_entity_from_data_keeps t element_id raw m once present found (valid, accepted, kept) =
      let apart : reads m.model_fields "element_id" ≡ false =
        negated (reads m.model_fields "element_id")
          (lookup-every spares_id entity_models t m every-spares_id found) in
      let frozen_raw = freeze_containers token_text raw in
      let same : freeze_containers token_text valid ≡ values_from m element_id frozen_raw =
        kept ∙ freeze-values_from token_text m element_id raw once in
      (
        freeze_containers token_text valid,
        makes (model_validate token_text validate_fields) t element_id raw m
            (freeze_containers token_text valid) found
            (validated token_text validate_fields m (values_from m element_id raw) valid accepted),
        λ k.
            ap (λ v. lookup k (semantic_attributes m v)) same
            ∙ lookup-semantic_attributes m element_id frozen_raw k
                (freeze_containers-NodupKeys token_text raw once)
                (freeze_containers-given token_text raw present) apart
            ∙ ap (λ o. if covers m.template_fields m.model_fields k then o else none)
                (lookup-freeze_containers token_text k raw),
      )
