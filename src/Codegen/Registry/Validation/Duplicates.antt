-- ===== src/Codegen/Registry/Validation/Duplicates.antt =====
-- The loops that refuse a repeated key, and the dicts that are built from distinct keys.
use semconv_graph.Base.{
  String, false, not, none, List, [], ◌∷◌, ◌++◌, ◌==◌, string_eq, contains, ok, guard, ◌≡◌, refl,
  sym, ap, ◌∙◌, arith, All, Distinct, ◌↔◌, guard-eq-ok, >>=-eq-ok,
}
use semconv_graph.Base.Dict.{Dict, lookup, insert, keys, values}
use semconv_graph.Codegen.Registry.{EntityDefinition, RelationshipDefinition, index_onto}
use semconv_graph.Codegen.Registry.Validation.{
  InvalidModel, no_duplicates, no_duplicate_entities, duplicate_entity_id, duplicate_entity_name,
  has_triple,
}

abbrev pub map : {A : Type 0} → (A → String) → List A → List String
map key [] = []
map key (x ∷ xs) = key x ∷ map key xs

module _ {A : Type 0} (key : A → String) where
  -- No item has a key of the list.
  abbrev pub Unseen : List String → List A → Type 0
  Unseen seen xs = All (λ x. contains seen (key x) ≡ false) xs

  pub Unseen-cons :
      (k : String) (seen : List String) (xs : List A)
      → Unseen (k ∷ seen) xs ↔ (Unseen seen xs × (contains (map key xs) k ≡ false))
  Unseen-cons k seen [] = (λ h. (tt, refl), λ h. tt)
  Unseen-cons k seen (x ∷ xs) = (
    λ h.
        let rest = (Unseen-cons k seen xs).0 h.1 in
        let first = h.0 in let later = rest.1 in ((ground arith, rest.0), ground arith),
    λ h.
        let first = h.0.0 in
        let other = h.1 in (ground arith, (Unseen-cons k seen xs).1 (h.0.1, ground arith)),
  )

  pub Unseen-nil : (xs : List A) → Unseen [] xs
  Unseen-nil [] = tt
  Unseen-nil (x ∷ xs) = (refl, Unseen-nil xs)

  no_duplicates-Unseen :
      (failure : String → InvalidModel) (seen : List String) (xs : List A)
      → (no_duplicates key failure seen xs ≡ ok tt) ↔ (Unseen seen xs × Distinct (map key xs))
  unfolding no_duplicates
  no_duplicates-Unseen failure seen [] = (λ h. (tt, tt), λ h. refl)
  no_duplicates-Unseen failure seen (x ∷ xs) = (
    λ h.
        let (_, first, more) =
          >>=-eq-ok (guard (not (contains seen (key x))) (failure (key x))) _ h in
        let fresh = guard-eq-ok _ _ first in
        let (unseen, once) = (no_duplicates-Unseen failure (key x ∷ seen) xs).0 more in
        let parts = (Unseen-cons (key x) seen xs).0 unseen in
        ((ground arith, parts.0), (parts.1, once)),
    λ h.
        let fresh = h.0.0 in
        let rest =
          (no_duplicates-Unseen failure (key x ∷ seen) xs).1
            ((Unseen-cons (key x) seen xs).1 (h.0.1, h.1.0), h.1.1) in
        ground arith,
  )

  -- The loop over all items passes exactly if their keys are distinct.
  pub no_duplicates-Distinct :
      (failure : String → InvalidModel) (xs : List A)
      → (no_duplicates key failure [] xs ≡ ok tt) ↔ Distinct (map key xs)
  no_duplicates-Distinct failure xs = (
    λ h. ((no_duplicates-Unseen failure [] xs).0 h).1,
    λ h. (no_duplicates-Unseen failure [] xs).1 (Unseen-nil xs, h),
  )

  -- The dict of items with distinct keys.
  abbrev pub pairs : List A → Dict String A
  pairs [] = []
  pairs (x ∷ xs) = (key x, x) ∷ pairs xs

  index-fresh :
      (k : String) (v : A) (d : Dict String A)
      → lookup k d ≡ none
      → insert k v d ≡ d ++ ((k, v) ∷ [])
  unfolding insert lookup
  index-fresh k v [] h = refl
  index-fresh k v ((j, w) ∷ d) h = ground (arith, index-fresh k v d)

  lookup-snoc :
      (j k : String) (v : A) (d : Dict String A)
      → lookup j d ≡ none
      → (j == k) ≡ false
      → lookup j (d ++ ((k, v) ∷ [])) ≡ none
  unfolding lookup
  lookup-snoc j k v [] h other = ground arith
  lookup-snoc j k v ((i, w) ∷ d) h other = ground (arith, lookup-snoc j k v d)

  still_fresh :
      (k : String) (v : A) (d : Dict String A) (xs : List A)
      → All (λ x. lookup (key x) d ≡ none) xs
      → contains (map key xs) k ≡ false
      → All (λ x. lookup (key x) (d ++ ((k, v) ∷ [])) ≡ none) xs
  still_fresh k v d [] h other = tt
  still_fresh k v d (x ∷ xs) (here, h) other =
      (lookup-snoc (key x) k v d here (ground arith), still_fresh k v d xs h (ground arith))

  append_nil : (d : Dict String A) → d ++ [] ≡ d
  append_nil [] = refl
  append_nil (p ∷ d) = ap (λ t. p ∷ t) (append_nil d)

  append_step :
      (d : Dict String A) (p : String × A) (rest : Dict String A)
      → (d ++ (p ∷ [])) ++ rest ≡ d ++ (p ∷ rest)
  append_step [] p rest = refl
  append_step (q ∷ d) p rest = ap (λ t. q ∷ t) (append_step d p rest)

  index_onto-pairs :
      (d : Dict String A) (xs : List A)
      → All (λ x. lookup (key x) d ≡ none) xs
      → Distinct (map key xs)
      → index_onto key d xs ≡ d ++ pairs xs
  unfolding index_onto
  index_onto-pairs d [] fresh once = sym (append_nil d)
  index_onto-pairs d (x ∷ xs) (here, fresh) (alone, once) =
      ap (λ t. index_onto key t xs) (index-fresh (key x) x d here)
      ∙ index_onto-pairs (d ++ ((key x, x) ∷ [])) xs (still_fresh (key x) x d xs fresh alone) once
      ∙ append_step d (key x, x) (pairs xs)

  All-fresh : (xs : List A) → All (λ x. lookup {V = A} (key x) [] ≡ none) xs
  unfolding lookup
  All-fresh [] = tt
  All-fresh (x ∷ xs) = (refl, All-fresh xs)

  -- With distinct keys the dict holds the items themselves, in order.
  pub index_onto-Distinct : (xs : List A) → Distinct (map key xs) → index_onto key [] xs ≡ pairs xs
  index_onto-Distinct xs once = index_onto-pairs [] xs (All-fresh xs) once

  pub values-pairs : (xs : List A) → values (pairs xs) ≡ xs
  unfolding values
  values-pairs [] = refl
  values-pairs (x ∷ xs) = ap (λ t. x ∷ t) (values-pairs xs)

  pub keys-pairs : (xs : List A) → keys (pairs xs) ≡ map key xs
  unfolding keys
  keys-pairs [] = refl
  keys-pairs (x ∷ xs) = ap (λ t. key x ∷ t) (keys-pairs xs)

pub no_duplicate_entities-Unseen :
    (ids names : List String) (xs : List EntityDefinition)
    → (no_duplicate_entities ids names xs ≡ ok tt) ↔ (
        Unseen (λ e. e.id) ids xs
        × Distinct (map (λ e. e.id) xs)
        × Unseen (λ e. e.name) names xs
        × Distinct (map (λ e. e.name) xs))
unfolding no_duplicate_entities
no_duplicate_entities-Unseen ids names [] = (λ h. (tt, tt, tt, tt), λ h. refl)
no_duplicate_entities-Unseen ids names (x ∷ xs) = (
  λ h.
      let (_, first, h1) =
        >>=-eq-ok (guard (not (contains ids x.id)) (duplicate_entity_id x.id)) _ h in
      let (_, second, h2) =
        >>=-eq-ok (guard (not (contains names x.name)) (duplicate_entity_name x.name)) _ h1 in
      let a = guard-eq-ok _ _ first in
      let b = guard-eq-ok _ _ second in
      let (u, d, v, e) = (no_duplicate_entities-Unseen (x.id ∷ ids) (x.name ∷ names) xs).0 h2 in
      let p = (Unseen-cons (λ e. e.id) x.id ids xs).0 u in
      let q = (Unseen-cons (λ e. e.name) x.name names xs).0 v in
      ((ground arith, p.0), (p.1, d), (ground arith, q.0), (q.1, e)),
  λ (u, d, v, e).
      let a = u.0 in
      let b = v.0 in
      let rest = (no_duplicate_entities-Unseen (x.id ∷ ids) (x.name ∷ names) xs).1 (
        (Unseen-cons (λ e. e.id) x.id ids xs).1 (u.1, d.0),
        d.1,
        (Unseen-cons (λ e. e.name) x.name names xs).1 (v.1, e.0),
        e.1,
      ) in
      ground arith,
)

-- No two relationships join the same entities under the same name.
abbrev pub DistinctTriples : List RelationshipDefinition → Type 0
DistinctTriples [] = Unit
DistinctTriples (r ∷ rs) = (has_triple rs r ≡ false) × DistinctTriples rs
