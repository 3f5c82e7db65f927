-- ===== src/Gremlin/Models/Templates.antt =====
-- The values of a template field: the attributes below its prefix, under what follows the prefix.
use package.text.Mathlib.TextEquality.{Char-path}
use Prim.Native.Char.{code}
use Prim.Native.String.append
use semconv_graph.Base.{
  String, ◌<>◌, some, [], ◌∷◌, ◌==◌, string_eq, nat_eq, ◌≡◌, ◌≢◌, refl, sym, ap, ◌∙◌, arith,
  string_dec, Option-cases, Bool-cases, inl, inr,
}
use semconv_graph.Base.Dict.{lookup}
use semconv_graph.Gremlin.Values.{Attributes}
use semconv_graph.Gremlin.Models.{remove_prefix, template_values}

pub remove_prefix-append : (p s : String) → remove_prefix p (p <> s) ≡ some s
unfolding remove_prefix
remove_prefix-append String.[] s = ap some (append.nil s)
remove_prefix-append (String.◌∷◌ c p) s =
    rw (append.cons c p s) (ground (arith, remove_prefix-append p s))

pub remove_prefix-eq-some :
    (p key : String) {s : String} → remove_prefix p key ≡ some s → key ≡ p <> s
unfolding remove_prefix
remove_prefix-eq-some String.[] key {s} h =
    let same : key ≡ s = ground arith in same ∙ sym (append.nil s)
remove_prefix-eq-some (String.◌∷◌ c p) String.[] h = absurd (cc)
remove_prefix-eq-some (String.◌∷◌ c p) (String.◌∷◌ d key) {s} h =
    elim (Bool-cases (code c == code d)) [
      | inl same ↦
          let first : c ≡ d = Char-path c d (ground arith) in
          let later : remove_prefix p key ≡ some s = ground arith in
          rw (append.cons c p s, first)
            (ap (λ t. String.◌∷◌ d t) (remove_prefix-eq-some p key later))
      | inr differ ↦ absurd (ground arith)
    ]

-- The values of a template field hold, under every suffix but "", the attribute whose name is the
-- field's alias, a dot and the suffix.
pub lookup-template_values :
    (attributes : Attributes) (prefix suffix : String)
    → suffix ≢ ""
    → lookup suffix (template_values attributes prefix)
      ≡ lookup ((prefix <> ".") <> suffix) attributes
unfolding template_values lookup
lookup-template_values [] prefix suffix named = refl
lookup-template_values ((key, value) ∷ attributes) prefix suffix named =
    let rest = lookup-template_values attributes prefix suffix named in
    elim (string_dec ((prefix <> ".") <> suffix) key) [
      | yes same ↦
          let taken : remove_prefix (prefix <> ".") key ≡ some suffix =
            ap (remove_prefix (prefix <> ".")) (sym same)
            ∙ remove_prefix-append (prefix <> ".") suffix in
          ground arith
      | no differ ↦ elim (Option-cases (remove_prefix (prefix <> ".") key)) [
        | inl other ↦ ground arith
        | inr (found, taken) ↦
            let spelled = remove_prefix-eq-some (prefix <> ".") key taken in
            let apart : suffix ≢ found =
              λ p. differ (ap (λ t. (prefix <> ".") <> t) p ∙ sym spelled) in
            ground arith
      ]
    ]
