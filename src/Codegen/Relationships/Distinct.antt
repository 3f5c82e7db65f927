-- ===== src/Codegen/Relationships/Distinct.antt =====
-- What the check of the names of edge classes accepts.
use semconv_graph.Base.{
  String, none, List, [], ◌∷◌, string_eq, ok, ◌≡◌, ◌≢◌, ◌↔◌, refl, ◌∙◌, sym, arith, Option-cases,
  inl, inr, All,
}
use semconv_graph.Base.Dict.{Dict, lookup, insert, lookup-insert}
use semconv_graph.Codegen.Relationships.{
  GeneratedRelationship, class_names_from, validate_relationship_class_names,
}

-- No two relationships have one class.
abbrev pub AreDistinct : List GeneratedRelationship → Type 0
AreDistinct [] = Unit
AreDistinct (g ∷ gs) = All (λ h. h.class_name ≢ g.class_name) gs × AreDistinct gs

abbrev Free : Dict String String → List GeneratedRelationship → Type 0
Free owners gs = All (λ h. lookup h.class_name owners ≡ none) gs

Free-insert :
    (n i : String) (owners : Dict String String) (gs : List GeneratedRelationship)
    → Free (insert n i owners) gs
    → All (λ h. h.class_name ≢ n) gs × Free owners gs
Free-insert n i owners [] h = (tt, tt)
Free-insert n i owners (g ∷ gs) (p, h) =
    let (apart, free) = Free-insert n i owners gs h in
    let given = sym (lookup-insert g.class_name n i owners) ∙ p in
    ((ground arith, apart), (ground arith, free))

insert-Free :
    (n i : String) (owners : Dict String String) (gs : List GeneratedRelationship)
    → All (λ h. h.class_name ≢ n) gs
    → Free owners gs
    → Free (insert n i owners) gs
insert-Free n i owners [] apart free = tt
insert-Free n i owners (g ∷ gs) (p, apart) (q, free) =
    (lookup-insert g.class_name n i owners ∙ ground arith, insert-Free n i owners gs apart free)

class_names_from-Free :
    (owners : Dict String String) (gs : List GeneratedRelationship)
    → class_names_from owners gs ≡ ok tt
    → Free owners gs × AreDistinct gs
unfolding class_names_from
class_names_from-Free owners [] h = (tt, tt)
class_names_from-Free owners (g ∷ gs) h = elim (Option-cases (lookup g.class_name owners)) [
  | inr (previous, taken) ↦ absurd (ground arith)
  | inl absent ↦
      let (free, apart) =
        class_names_from-Free (insert g.class_name g.relationship.id owners) gs (ground arith) in
      let (fresh, free') = Free-insert g.class_name g.relationship.id owners gs free in
      ((absent, free'), (fresh, apart))
]

Free-class_names_from :
    (owners : Dict String String) (gs : List GeneratedRelationship)
    → Free owners gs
    → AreDistinct gs
    → class_names_from owners gs ≡ ok tt
unfolding class_names_from
Free-class_names_from owners [] free apart = refl
Free-class_names_from owners (g ∷ gs) (absent, free) (fresh, apart) =
    rw (class_names_from, absent)
      (Free-class_names_from (insert g.class_name g.relationship.id owners) gs
        (insert-Free g.class_name g.relationship.id owners gs fresh free) apart)

Free-nil : (gs : List GeneratedRelationship) → Free [] gs
unfolding lookup
Free-nil [] = tt
Free-nil (g ∷ gs) = (refl, Free-nil gs)

-- The check passes exactly if no two of the relationships get one class name.
pub validate_relationship_class_names-AreDistinct :
    (gs : List GeneratedRelationship)
    → (validate_relationship_class_names gs ≡ ok tt) ↔ AreDistinct gs
unfolding validate_relationship_class_names
validate_relationship_class_names-AreDistinct gs = (
  (λ h. (class_names_from-Free [] gs h).1),
  λ apart. Free-class_names_from [] gs (Free-nil gs) apart,
)
