-- ===== src/Codegen/Registry/Validation/Triples.antt =====
-- The loop that refuses a repeated relationship.
use semconv_graph.Base.{
  String, Bool, true, false, not, ◌||◌, List, [], ◌∷◌, string_eq, contains, ok, guard, ◌≡◌, refl,
  sym, ◌∙◌, arith, All, Distinct, ◌↔◌, guard-eq-ok, >>=-eq-ok,
}
use semconv_graph.Codegen.Registry.{RelationshipDefinition}
use semconv_graph.Codegen.Registry.Validation.{
  no_duplicate_relationships, duplicate_relationship, duplicate_triple, same_triple, has_triple,
}
use semconv_graph.Codegen.Registry.Validation.Duplicates.{map, Unseen, Unseen-cons, DistinctTriples}

abbrev pub UnseenTriples : List RelationshipDefinition → List RelationshipDefinition → Type 0
UnseenTriples seen rs = All (λ r. has_triple seen r ≡ false) rs

same_triple-sym : (r q : RelationshipDefinition) → same_triple r q ≡ same_triple q r
same_triple-sym r q = ground arith

or-eq-false : (a b : Bool) → (a || b) ≡ false → (a ≡ false) × (b ≡ false)
or-eq-false true b h = absurd (cc)
or-eq-false false b h = (refl, h)

or-false : {a b : Bool} → a ≡ false → b ≡ false → (a || b) ≡ false
or-false p q = rw p q

UnseenTriples-cons :
    (q : RelationshipDefinition) (seen rs : List RelationshipDefinition)
    → UnseenTriples (q ∷ seen) rs ↔ (UnseenTriples seen rs × (has_triple rs q ≡ false))
unfolding has_triple
UnseenTriples-cons q seen [] = (λ h. (tt, refl), λ h. tt)
UnseenTriples-cons q seen (r ∷ rs) = (
  λ h.
      let rest = (UnseenTriples-cons q seen rs).0 h.1 in
      let first = h.0 in
      let later = rest.1 in
      let both = same_triple-sym r q in
      (((or-eq-false _ _ first).1, rest.0), or-false (sym both ∙ (or-eq-false _ _ first).0) later),
  λ h.
      let first = h.0.0 in
      let other = h.1 in
      let both = same_triple-sym r q in
      (
        or-false (both ∙ (or-eq-false _ _ other).0) first,
        (UnseenTriples-cons q seen rs).1 (h.0.1, (or-eq-false _ _ other).1),
      ),
)

pub no_duplicate_relationships-Unseen :
    (ids : List String) (seen rs : List RelationshipDefinition)
    → (no_duplicate_relationships ids seen rs ≡ ok tt) ↔ (
        Unseen (λ r. r.id) ids rs
        × Distinct (map (λ r. r.id) rs)
        × UnseenTriples seen rs
        × DistinctTriples rs)
unfolding no_duplicate_relationships
no_duplicate_relationships-Unseen ids seen [] = (λ h. (tt, tt, tt, tt), λ h. refl)
no_duplicate_relationships-Unseen ids seen (x ∷ xs) = (
  λ h.
      let (_, first, h1) =
        >>=-eq-ok (guard (not (contains ids x.id)) (duplicate_relationship x.id)) _ h in
      let (_, second, h2) =
        >>=-eq-ok
          (guard (not (has_triple seen x))
            (duplicate_triple x.source_entity x.name x.target_entity))
          _ h1 in
      let a = guard-eq-ok _ _ first in
      let b = guard-eq-ok _ _ second in
      let (u, d, v, e) = (no_duplicate_relationships-Unseen (x.id ∷ ids) (x ∷ seen) xs).0 h2 in
      let p = (Unseen-cons (λ r. r.id) x.id ids xs).0 u in
      let q = (UnseenTriples-cons x seen xs).0 v in
      ((ground arith, p.0), (p.1, d), (ground arith, q.0), (q.1, e)),
  λ (u, d, v, e).
      let a = u.0 in
      let b = v.0 in
      let rest = (no_duplicate_relationships-Unseen (x.id ∷ ids) (x ∷ seen) xs).1 (
        (Unseen-cons (λ r. r.id) x.id ids xs).1 (u.1, d.0),
        d.1,
        (UnseenTriples-cons x seen xs).1 (v.1, e.0),
        e.1,
      ) in
      ground arith,
)
