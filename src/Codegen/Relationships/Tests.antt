-- ===== src/Codegen/Relationships/Tests.antt =====
-- Two relationships whose ends differ but get one class.
use semconv_graph.Base.{List, [], ◌∷◌, string_dec, err, ok, ◌≡◌, ◌↔◌, refl}
use native.Mathlib.Decide.{ℕ_discrete}
use semconv_graph.Base.Dict.{lookup, insert}
use semconv_graph.Codegen.Names.{python_class_name, class_name_from, lower_char, upper_char}
use semconv_graph.Codegen.Relationships.{
  GeneratedRelationship, edge_class_name, generated_relationship, class_collision, class_names_from,
  validate_relationship_class_names,
}
use semconv_graph.Codegen.Relationships.Distinct.{
  AreDistinct, validate_relationship_class_names-AreDistinct,
}
use semconv_graph.Codegen.Tests.{calls}

abbrev two_of_one_class : List GeneratedRelationship
two_of_one_class =
    generated_relationship (record calls { id = "r.1"; source_entity = "a.b" })
    ∷ generated_relationship (record calls { id = "r.2"; source_entity = "a_b" })
    ∷ []

one_class :
    validate_relationship_class_names two_of_one_class
    ≡ err (class_collision "r.1" "r.2" "ABCallsServiceEdge")
unfolding validate_relationship_class_names class_names_from generated_relationship edge_class_name
    python_class_name class_name_from lower_char upper_char lookup insert string_dec ℕ_discrete
one_class = refl

validate_relationship_class_names-AreDistinct_example :
    (validate_relationship_class_names two_of_one_class ≡ ok tt) ↔ AreDistinct two_of_one_class
validate_relationship_class_names-AreDistinct_example =
    validate_relationship_class_names-AreDistinct two_of_one_class
