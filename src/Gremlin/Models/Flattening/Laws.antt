-- ===== src/Gremlin/Models/Flattening/Laws.antt =====
-- What the two loops over the fields of an entity leave under a key.
use semconv_graph.Base.{
  String, ◌<>◌, Option, none, some, [], ◌∷◌, ◌==◌, string_eq, string_dec, ◌≡◌, ◌≢◌, refl, ap, ◌∙◌,
  arith, Bool-cases, Option-cases, inl, inr,
}
use semconv_graph.Base.Dict.{lookup, insert, lookup-insert, NodupKeys}
use semconv_graph.Gremlin.Values.{Value, Attributes}
use semconv_graph.Gremlin.Models.{remove_prefix, template_values, as_entries}
use semconv_graph.Gremlin.Models.Templates.{
  remove_prefix-append, remove_prefix-eq-some, lookup-template_values,
}
use semconv_graph.Gremlin.Models.Flattening.{entries_of, add_items}

-- The second, where it has a value, and the first elsewhere.
abbrev pub or_else : Option Value → Option Value → Option Value
or_else old none = old
or_else old (some v) = some v

pub entries_of-as_entries : (ts : Attributes) → entries_of (as_entries ts) ≡ ts
unfolding as_entries
entries_of-as_entries [] = refl
entries_of-as_entries ((n, v) ∷ ts) = ap (λ r. (n, v) ∷ r) (entries_of-as_entries ts)

pub template_values-NodupKeys :
    (attributes : Attributes) (prefix : String)
    → NodupKeys attributes
    → NodupKeys (template_values attributes prefix)
unfolding template_values
template_values-NodupKeys [] prefix once = tt
template_values-NodupKeys ((key, value) ∷ attributes) prefix (fresh, once) =
    elim (Option-cases (remove_prefix (prefix <> ".") key)) [
      | inl other ↦ rw (template_values, other) (template_values-NodupKeys attributes prefix once)
      | inr (suffix, taken) ↦ elim (Bool-cases (suffix == "")) [
        | inl empty ↦
            rw (template_values, taken, empty) (template_values-NodupKeys attributes prefix once)
        | inr named ↦
            let spelled = remove_prefix-eq-some (prefix <> ".") key taken in
            let fresh' : lookup ((prefix <> ".") <> suffix) attributes ≡ none =
              rw spelled at fresh in
            rw (template_values, taken, named)
              (
                lookup-template_values attributes prefix suffix (ground arith) ∙ fresh',
                template_values-NodupKeys attributes prefix once,
              )
      ]
    ]

-- What a template gives under a key of the entity's attributes.
abbrev pub under : String → Attributes → String → Option Value
under alias ts k = elim (remove_prefix (alias <> ".") k) [
  | none ↦ none
  | some suffix ↦ lookup suffix ts
]

pub lookup-add_items :
    (alias : String) (ts attributes : Attributes) (k : String)
    → NodupKeys ts
    → lookup k (add_items alias ts attributes) ≡ or_else (lookup k attributes) (under alias ts k)
unfolding add_items lookup
lookup-add_items alias [] attributes k once = ground arith
lookup-add_items alias ((suffix, v) ∷ ts) attributes k (fresh, once) =
    let rest = lookup-add_items alias ts (insert ((alias <> ".") <> suffix) v attributes) k once in
    let put = lookup-insert k ((alias <> ".") <> suffix) v attributes in
    elim (string_dec k ((alias <> ".") <> suffix)) [
      | yes same ↦
          let taken : remove_prefix (alias <> ".") k ≡ some suffix =
            ap (remove_prefix (alias <> ".")) same ∙ remove_prefix-append (alias <> ".") suffix in
          ground arith
      | no differ ↦ elim (Option-cases (remove_prefix (alias <> ".") k)) [
        | inl other ↦ ground arith
        | inr (found, taken) ↦
            let spelled = remove_prefix-eq-some (alias <> ".") k taken in
            let apart : found ≢ suffix = λ p. differ (spelled ∙ ap (λ t. (alias <> ".") <> t) p) in
            ground arith
      ]
    ]
