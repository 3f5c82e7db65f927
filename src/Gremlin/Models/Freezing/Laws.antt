-- ===== src/Gremlin/Models/Freezing/Laws.antt =====
-- Freezing the items of a dict one by one.
use semconv_graph.Base.{
  String, ◌<>◌, true, false, Option, none, some, [], ◌∷◌, ◌++◌, ◌==◌, string_eq, nat_eq, ◌≡◌, refl,
  sym, ap, ◌∙◌, arith, Bool-cases, Option-cases, inl, inr,
}
use semconv_graph.Base.Dict.{lookup, insert, NodupKeys, every}
use semconv_graph.Gremlin.Values.{Value, text, scalar, mapping, sequence, tuple, Attributes}
use semconv_graph.Gremlin.Models.{as_entries, remove_prefix, template_values}
use semconv_graph.Gremlin.Models.Flattening.{is_none, given}
use semconv_graph.Gremlin.Models.Freezing.{freeze_value, freeze_entries, freeze_containers}

-- The value frozen, if there is one.
abbrev pub frozen : String → Option Value → Option Value
frozen t none = none
frozen t (some v) = some (freeze_value t v)

pub lookup-freeze_containers :
    (t k : String) (d : Attributes) → lookup k (freeze_containers t d) ≡ frozen t (lookup k d)
unfolding freeze_containers lookup
lookup-freeze_containers t k [] = refl
lookup-freeze_containers t k ((j, v) ∷ d) = elim (Bool-cases (k == j)) [
  | inl same ↦ rw same refl
  | inr differ ↦ rw differ (lookup-freeze_containers t k d)
]

pub freeze_containers-NodupKeys :
    (t : String) (d : Attributes) → NodupKeys d → NodupKeys (freeze_containers t d)
unfolding freeze_containers
freeze_containers-NodupKeys t [] once = tt
freeze_containers-NodupKeys t ((k, v) ∷ d) (fresh, once) =
    (lookup-freeze_containers t k d ∙ ap (frozen t) fresh, freeze_containers-NodupKeys t d once)

pub freeze_containers-insert :
    (t k : String) (v : Value) (d : Attributes)
    → freeze_containers t (insert k v d) ≡ insert k (freeze_value t v) (freeze_containers t d)
unfolding freeze_containers insert
freeze_containers-insert t k v [] = refl
freeze_containers-insert t k v ((j, w) ∷ d) = elim (Bool-cases (k == j)) [
  | inl same ↦ rw same refl
  | inr differ ↦ rw differ (ap (λ e. (j, freeze_value t w) ∷ e) (freeze_containers-insert t k v d))
]

pub template_values-freeze :
    (t prefix : String) (d : Attributes)
    → template_values (freeze_containers t d) prefix
      ≡ freeze_containers t (template_values d prefix)
unfolding freeze_containers template_values
template_values-freeze t prefix [] = refl
template_values-freeze t prefix ((k, v) ∷ d) =
    elim (Option-cases (remove_prefix (prefix <> ".") k)) [
      | inl other ↦ rw (template_values, other) (template_values-freeze t prefix d)
      | inr (suffix, taken) ↦ elim (Bool-cases (suffix == "")) [
        | inl empty ↦ rw (template_values, taken, empty) (template_values-freeze t prefix d)
        | inr named ↦
            rw (template_values, taken, named)
              (ap (λ e. (suffix, freeze_value t v) ∷ e) (template_values-freeze t prefix d))
      ]
    ]

insert-fresh :
    (k : String) (v : Value) (d : Attributes)
    → lookup k d ≡ none
    → insert k v d ≡ d ++ ((k, v) ∷ [])
unfolding insert lookup
insert-fresh k v [] fresh = refl
insert-fresh k v ((j, w) ∷ d) fresh =
    let differ : (k == j) ≡ false = ground arith in
    rw differ (ap (λ e. (j, w) ∷ e) (insert-fresh k v d (ground arith)))

lookup-snoc :
    (j k : String) (v : Value) (d : Attributes)
    → lookup j d ≡ none
    → (j == k) ≡ false
    → lookup j (d ++ ((k, v) ∷ [])) ≡ none
unfolding lookup
lookup-snoc j k v [] fresh differ = rw differ refl
lookup-snoc j k v ((i, w) ∷ d) fresh differ = ground (arith, lookup-snoc j k v d)

append-nil : (d : Attributes) → d ++ [] ≡ d
append-nil [] = refl
append-nil (x ∷ d) = ap (λ e. x ∷ e) (append-nil d)

snoc-append :
    (d : Attributes) (x : String × Value) (rest : Attributes)
    → (d ++ (x ∷ [])) ++ rest ≡ d ++ (x ∷ rest)
snoc-append [] x rest = refl
snoc-append (y ∷ d) x rest = ap (λ e. y ∷ e) (snoc-append d x rest)

-- Every key of the first is no key of the second.
abbrev Apart : Attributes → Attributes → Type 0
Apart [] d = Unit
Apart ((k, v) ∷ ts) d = (lookup k d ≡ none) × Apart ts d

Apart-snoc :
    (ts d : Attributes) (k : String) (v : Value)
    → lookup k ts ≡ none
    → Apart ts d
    → Apart ts (d ++ ((k, v) ∷ []))
unfolding lookup
Apart-snoc [] d k v fresh apart = tt
Apart-snoc ((j, w) ∷ ts) d k v fresh (first, apart) =
    let differ : (j == k) ≡ false = ground arith in
    (lookup-snoc j k v d first differ, Apart-snoc ts d k v (ground arith) apart)

freeze_entries-as_entries :
    (t : String) (ts d : Attributes)
    → NodupKeys ts
    → Apart ts d
    → freeze_entries t (as_entries ts) d ≡ d ++ freeze_containers t ts
unfolding freeze_entries freeze_containers as_entries
freeze_entries-as_entries t [] d once apart = sym (append-nil d)
freeze_entries-as_entries t ((k, v) ∷ ts) d (fresh, once) (first, apart) =
    ap (freeze_entries t (as_entries ts)) (insert-fresh k (freeze_value t v) d first)
    ∙ freeze_entries-as_entries t ts (d ++ ((k, freeze_value t v) ∷ [])) once
        (Apart-snoc ts d k (freeze_value t v) fresh apart)
    ∙ snoc-append d (k, freeze_value t v) (freeze_containers t ts)

Apart-nil : (ts : Attributes) → Apart ts []
unfolding lookup
Apart-nil [] = tt
Apart-nil ((k, v) ∷ ts) = (refl, Apart-nil ts)

-- The values of a template, frozen.
pub freeze-as_entries :
    (t : String) (ts : Attributes)
    → NodupKeys ts
    → freeze_value t (mapping (as_entries ts)) ≡ mapping (as_entries (freeze_containers t ts))
unfolding freeze_value
freeze-as_entries t ts once =
    ap (λ d. mapping (as_entries d)) (freeze_entries-as_entries t ts [] once (Apart-nil ts))

is_none-freeze : (t : String) (v : Value) → is_none (freeze_value t v) ≡ is_none v
unfolding freeze_value
is_none-freeze t (text s) = refl
is_none-freeze t (scalar s) = refl
is_none-freeze t (mapping es) = refl
is_none-freeze t (sequence vs) = refl
is_none-freeze t (tuple vs) = refl

pub freeze_containers-given :
    (t : String) (d : Attributes)
    → every given d ≡ true
    → every given (freeze_containers t d) ≡ true
unfolding freeze_containers
freeze_containers-given t [] h = refl
freeze_containers-given t ((k, v) ∷ d) h =
    let same = is_none-freeze t v in
    let rest = freeze_containers-given t d (ground arith) in ground arith
