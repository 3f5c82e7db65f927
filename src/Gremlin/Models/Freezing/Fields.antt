-- ===== src/Gremlin/Models/Freezing/Fields.antt =====
-- What the fields of a class take from data, frozen, is what they take from the frozen data.
use semconv_graph.Base.{
  String, Bool, true, false, Option, none, some, List, [], ◌∷◌, ◌==◌, string_eq, if◌then◌else◌,
  contains, ◌≡◌, refl, sym, ap, ◌∙◌, Bool-cases, inl, inr,
}
use semconv_graph.Base.Dict.{NodupKeys}
use semconv_graph.Gremlin.Values.{Value, text, Attributes}
use semconv_graph.Gremlin.Models.{EntityModel, alias_of, template_values, field_values}
use semconv_graph.Gremlin.Models.Flattening.Laws.{template_values-NodupKeys}
use semconv_graph.Gremlin.Models.Flattening.Kept.{as_template, chosen, put, field_values-put}
use semconv_graph.Gremlin.Models.Flattening.Whole.{values_from}
use semconv_graph.Gremlin.Models.Freezing.{freeze_value, freeze_containers}
use semconv_graph.Gremlin.Models.Freezing.Laws.{
  frozen, lookup-freeze_containers, freeze_containers-insert, template_values-freeze,
  freeze-as_entries,
}

frozen-as_template :
    (t : String) (ts : Attributes)
    → NodupKeys ts
    → frozen t (as_template ts) ≡ as_template (freeze_containers t ts)
unfolding freeze_containers
frozen-as_template t [] once = refl
frozen-as_template t ((k, v) ∷ ts) once = ap some (freeze-as_entries t ((k, v) ∷ ts) once)

frozen-chosen :
    (t : String) (templates : List String) (raw : Attributes) (alias : String)
    → NodupKeys raw
    → frozen t (chosen templates raw alias) ≡ chosen templates (freeze_containers t raw) alias
frozen-chosen t templates raw alias once = elim (Bool-cases (contains templates alias)) [
  | inl template ↦
      rw (chosen, template)
        (frozen-as_template t (template_values raw alias) (template_values-NodupKeys raw alias once)
          ∙ ap as_template (sym (template_values-freeze t alias raw)))
  | inr plain ↦ rw (chosen, plain) (sym (lookup-freeze_containers t alias raw))
]

freeze-put :
    (t alias : String) (o : Option Value) (values : Attributes)
    → freeze_containers t (put alias o values) ≡ put alias (frozen t o) (freeze_containers t values)
freeze-put t alias none values = refl
freeze-put t alias (some v) values = freeze_containers-insert t alias v values

freeze-if :
    (t : String) (b : Bool) (d e : Attributes)
    → freeze_containers t (if b then d else e)
      ≡ (if b then freeze_containers t d else freeze_containers t e)
freeze-if t true d e = refl
freeze-if t false d e = refl

freeze-field_values :
    (t : String) (templates : List String) (fields : List (String × Option String))
    (raw values : Attributes)
    → NodupKeys raw
    → freeze_containers t (field_values templates fields raw values)
      ≡ field_values templates fields (freeze_containers t raw) (freeze_containers t values)
unfolding field_values
freeze-field_values t templates [] raw values once = refl
freeze-field_values t templates (field ∷ fields) raw values once =
    let alias = alias_of field in
    let o = chosen templates raw alias in
    let b = field.0 == "element_id" in
    let raw' = freeze_containers t raw in
    let step : freeze_containers t (if b then values else put alias o values) ≡ (
        if b
        then freeze_containers t values
        else put alias (chosen templates raw' alias) (freeze_containers t values)) =
      freeze-if t b values (put alias o values)
      ∙ ap (λ d. if b then freeze_containers t values else d)
          (freeze-put t alias o values
            ∙ ap (λ c. put alias c (freeze_containers t values))
                (frozen-chosen t templates raw alias once)) in
    ap (freeze_containers t) (field_values-put templates field fields raw values)
    ∙ freeze-field_values t templates fields raw (if b then values else put alias o values) once
    ∙ ap (field_values templates fields raw') step
    ∙ sym (field_values-put templates field fields raw' (freeze_containers t values))

pub freeze-values_from :
    (t : String) (m : EntityModel) (element_id : String) (raw : Attributes)
    → NodupKeys raw
    → freeze_containers t (values_from m element_id raw)
      ≡ values_from m element_id (freeze_containers t raw)
unfolding freeze_containers freeze_value
freeze-values_from t m element_id raw once =
    freeze-field_values t m.template_fields m.model_fields raw
      (("element_id", text element_id) ∷ []) once
