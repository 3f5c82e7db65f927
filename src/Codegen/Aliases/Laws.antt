-- ===== src/Codegen/Aliases/Laws.antt =====
-- What `_unique_sanitized_names` accepts, what it returns, and why it refuses.

use semconv_graph.Base.{
  String, true, ◌==◌, string_eq, contains, none, some, List, [], ◌∷◌, Result, ok, err, Result-cases,
  Option-cases, Bool-cases, ◌>>=◌, ◌≡◌, ◌≢◌, refl, ◌∙◌, ap, arith, ◌⊎◌, inl, inr, All,
}
use semconv_graph.Base.Dict.{Dict, lookup, insert, lookup-insert, NodupKeys, insert-NodupKeys}
use semconv_graph.Codegen.Names.{
  NameError, unconvertible, collision, reserved_field, safe_arangodb_name,
}
use semconv_graph.Codegen.Aliases.{sanitize_from, unique_sanitized_names}

-- The dict gives each value its safe name, and no two values the same.
pub record IsNaming (values : List String) (names : Dict String String) : Type 0 where
  pub named :
      (value : String)
      → contains values value ≡ true
      → (name : String) × (lookup value names ≡ some name)
  pub known :
      (value name : String)
      → lookup value names ≡ some name
      → (contains values value ≡ true) × (safe_arangodb_name value ≡ ok name)
  pub injective :
      (v w name : String) → lookup v names ≡ some name → lookup w names ≡ some name → v ≡ w
  pub nodup : NodupKeys names

-- Why the values cannot all have names of their own.
pub IsClash : String → List String → NameError → Type 0
IsClash kind values (unconvertible value) =
    (contains values value ≡ true) × (safe_arangodb_name value ≡ err (unconvertible value))
IsClash kind values (collision what previous value name) =
    (what ≡ kind)
    × (contains values previous ≡ true)
    × (contains values value ≡ true)
    × (previous ≢ value)
    × (safe_arangodb_name previous ≡ ok name)
    × (safe_arangodb_name value ≡ ok name)
IsClash kind values (reserved_field canonical alias) = ⊥

-- The outcome of giving every value a name.
unfoldable pub IsSanitized : String → List String → Result NameError (Dict String String) → Type 0
IsSanitized kind values (ok names) = IsNaming values names
IsSanitized kind values (err e) = IsClash kind values e

-- The two dicts of the loop, which has done the values `seen` out of `values`.
record Tracks (values : List String) (names owners : Dict String String) : Type 0 where
  forth : (value name : String) → lookup value names ≡ some name → lookup name owners ≡ some value
  back :
      (value name : String)
      → lookup name owners ≡ some value
      → (contains values value ≡ true) × (safe_arangodb_name value ≡ ok name)
  nodup : NodupKeys names

safe_arangodb_name-eq-err :
    (value : String) (e : NameError) → safe_arangodb_name value ≡ err e → e ≡ unconvertible value
unfolding safe_arangodb_name
safe_arangodb_name-eq-err value e h = ground arith

Tracks-insert :
    (values : List String) (value name : String) (names owners : Dict String String)
    → Tracks values names owners
    → contains values value ≡ true
    → safe_arangodb_name value ≡ ok name
    → (lookup name owners ≡ none) ⊎ (lookup name owners ≡ some value)
    → Tracks values (insert value name names) (insert name value owners)
Tracks-insert values value name names owners t listed safe free = record {
  forth = λ v n h.
      let at_v = lookup-insert v value name names in
      let at_n = lookup-insert n name value owners in
      let before = t.forth v n in let owned = t.back v n in ground arith;
  back = λ v n h.
      let at_n = lookup-insert n name value owners in let before = t.back v n in ground arith;
  nodup = insert-NodupKeys value name names t.nodup;
}

All-weaken :
    (x : String) (values todo : List String)
    → All (λ value. contains values value ≡ true) todo
    → All (λ value. contains (x ∷ values) value ≡ true) todo
All-weaken x values [] h = tt
All-weaken x values (y ∷ todo) (here, h) = (ground arith, All-weaken x values todo h)

All-self : (values : List String) → All (λ value. contains values value ≡ true) values
All-self [] = tt
All-self (x ∷ values) = (ground arith, All-weaken x values values (All-self values))

sanitize_from-IsSanitized :
    (kind : String) (values todo : List String) (names owners : Dict String String)
    → Tracks values names owners
    → All (λ value. contains values value ≡ true) todo
    → ((value : String)
        → contains values value ≡ true
        → (contains todo value ≡ true) ⊎ ((name : String) × (lookup value names ≡ some name)))
    → IsSanitized kind values (sanitize_from kind todo names owners)
unfolding sanitize_from IsSanitized IsClash
sanitize_from-IsSanitized kind values [] names owners t listed rest = record {
  named = λ value m. elim (rest value m) [ inl never ↦ absurd (cc) | inr found ↦ found ];
  known = λ value name h. t.back value name (t.forth value name h);
  injective =
      λ v w name hv hw. let fv = t.forth v name hv in let fw = t.forth w name hw in ground arith;
  nodup = t.nodup;
}
sanitize_from-IsSanitized kind values (value ∷ todo) names owners t (here, listed) rest =
    elim (Result-cases (safe_arangodb_name value)) [
      | inl (e, failed) ↦
          let what = safe_arangodb_name-eq-err value e failed in
          rw (failed, what) (here, failed ∙ ap err what)
      | inr (name, safe) ↦
          let go = λ (free : (lookup name owners ≡ none) ⊎ (lookup name owners ≡ some value)).
            sanitize_from-IsSanitized kind values todo (insert value name names)
              (insert name value owners)
              (Tracks-insert values value name names owners t here safe free) listed
              (λ v m.
                let before = rest v m in
                let after = lookup-insert v value name names in ground arith) in
          rw (safe, ◌>>=◌)
            (elim (Option-cases (lookup name owners)) [
              | inl none_yet ↦ rw none_yet (go (inl none_yet))
              | inr (previous, owned) ↦ elim (Bool-cases (previous == value)) [
                | inl same ↦ rw (owned, same) (go (inr (ground arith)))
                | inr differ ↦
                    rw (owned, differ)
                      (
                        refl,
                        (t.back previous name owned).0,
                        here,
                        ground arith,
                        (t.back previous name owned).1,
                        safe,
                      )
              ]
            ])
    ]

-- Values are given names of their own, or refused, each for its reason: if every value has a safe name
-- and no two values share one, the dict gives each value its safe name. Otherwise the exception
-- names a value without a safe name or two different values with the same.
pub unique_sanitized_names-IsSanitized :
    (values : List String) (kind : String)
    → IsSanitized kind values (unique_sanitized_names values kind)
unfolding unique_sanitized_names
unique_sanitized_names-IsSanitized values kind =
    sanitize_from-IsSanitized kind values values [] []
      (record {
        forth = λ value name h. unfold lookup in cc;
        back = λ value name h. unfold lookup in cc;
        nodup = tt;
      })
      (All-self values) (λ value m. inl m)
