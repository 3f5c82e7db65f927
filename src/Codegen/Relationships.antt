-- ===== src/Codegen/Relationships.antt =====
-- The edge classes that the generator writes: `GeneratedRelationship`, `_generated_relationship` and
-- `_validate_relationship_class_names` of tools/semconv_codegen/generator.py.
pub mod Distinct
mod Tests
use semconv_graph.Base.{String, ◌<>◌, Option, none, some, List, [], ◌∷◌, string_eq, Result, ok, err}
use semconv_graph.Base.Dict.{Dict, lookup, insert}
use semconv_graph.Codegen.Names.{python_class_name}
use semconv_graph.Codegen.Registry.{RelationshipDefinition}

pub record GeneratedRelationship : Type 0 where
  pub relationship : RelationshipDefinition
  pub class_name : String

-- `_class_name` of the three parts, and "Edge".
unfoldable pub edge_class_name : String → String → String → String
edge_class_name source name target =
    python_class_name source <> (python_class_name name <> (python_class_name target <> "Edge"))

-- `_generated_relationship`
unfoldable pub generated_relationship : RelationshipDefinition → GeneratedRelationship
generated_relationship r = record {
  relationship = r;
  class_name = edge_class_name r.source_entity r.name r.target_entity;
}

-- The collision of two relationships: their identifiers and the name of the class.
pub data ClassError : Type 0 where
  class_collision : String → String → String → ClassError

-- The loop of `_validate_relationship_class_names`, from the dict `owners` on.
unfoldable pub class_names_from :
    Dict String String → List GeneratedRelationship → Result ClassError (Unit {0})
class_names_from owners [] = ok tt
class_names_from owners (g ∷ gs) =
    let rest = class_names_from (insert g.class_name g.relationship.id owners) gs in
    elim (lookup g.class_name owners) [
      | some previous ↦ err (class_collision previous g.relationship.id g.class_name)
      | none ↦ rest
    ]

-- `_validate_relationship_class_names`
unfoldable pub validate_relationship_class_names :
    List GeneratedRelationship → Result ClassError (Unit {0})
validate_relationship_class_names gs = class_names_from [] gs
