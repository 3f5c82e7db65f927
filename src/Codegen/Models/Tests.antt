-- ===== src/Codegen/Models/Tests.antt =====
-- The models of a service and a host, of which only the first is identified.
use semconv_graph.Base.{
  String, true, false, some, none, List, [], ◌∷◌, string_eq, string_dec, ok, err, ◌≡◌, refl, All,
}
use native.Mathlib.Decide.{ℕ_discrete}
use semconv_graph.Base.Dict.{Dict, lookup}
use semconv_graph.Base.Sorting.{sorted, text_leb}
use semconv_graph.Codegen.Names.{
  python_field_name, python_class_name, sub_runs, strip_left, strip_right, class_name_from,
  lower_char, upper_char,
}
use semconv_graph.Codegen.Registry.{
  text, int, primitive, enumeration, AttributeDefinition, identifying, descriptive,
  EntityAttributeRef, EntityDefinition,
}
use semconv_graph.Codegen.Models.{
  string, enum, SemanticModel, unknown_attribute, mixed_types, identifying_refs, field_kind,
  enum_values, build_field, build_fields, build_model, build_models, insert_model, sort_models,
  build_semantic_models,
}
use semconv_graph.Codegen.Models.Whole.{
  types, identified_names, IsModelOf, build_semantic_models-IsModelOf,
}

abbrev attributes : Dict String AttributeDefinition
attributes =
    (
      "service.name",
      record { id = "service.name"; type = primitive "string"; stability = none; brief = none },
    )
    ∷ (
      "host.label",
      record {
        id = "host.label";
        type = primitive "template[string]";
        stability = none;
        brief = none;
      },
    )
    ∷ (
      "span.kind",
      record {
        id = "span.kind";
        type = enumeration (
            record { id = "server"; value = text "SERVER"; brief = none }
            ∷ record { id = "client"; value = text "CLIENT"; brief = none }
            ∷ []);
        stability = none;
        brief = some "The kind.";
      },
    )
    ∷ []

abbrev entity : String → List EntityAttributeRef → EntityDefinition
entity name refs = record {
  id = name;
  name = name;
  stability = none;
  brief = none;
  attributes = refs;
}

abbrev entities : List EntityDefinition
entities =
    entity "service.instance" (
      record { ref = "span.kind"; role = some identifying }
      ∷ record { ref = "service.name"; role = none }
      ∷ [])
    ∷ entity "host" (record { ref = "host.label"; role = some descriptive } ∷ [])
    ∷ entity "service" (record { ref = "service.name"; role = some identifying } ∷ [])
    ∷ []

abbrev models : List SemanticModel
models =
    record {
      semantic_type = "service";
      class_name = "Service";
      fields_class_name = "ServiceFields";
      fields =
          record {
            canonical_name = "service.name";
            python_name = "service_name";
            kind = string;
            required = true;
            description = none;
            enum_values = [];
          }
          ∷ [];
      identity_fields = "service.name" ∷ [];
    }
    ∷ record {
      semantic_type = "service.instance";
      class_name = "ServiceInstance";
      fields_class_name = "ServiceInstanceFields";
      fields =
          record {
            canonical_name = "span.kind";
            python_name = "span_kind";
            kind = enum;
            required = true;
            description = some "The kind.";
            enum_values = text "SERVER" ∷ text "CLIENT" ∷ [];
          }
          ∷ record {
            canonical_name = "service.name";
            python_name = "service_name";
            kind = string;
            required = false;
            description = none;
            enum_values = [];
          }
          ∷ [];
      identity_fields = "span.kind" ∷ [];
    }
    ∷ []

built : build_semantic_models entities attributes ≡ ok models
unfolding build_semantic_models build_models build_model build_fields build_field field_kind
    enum_values identifying_refs sort_models insert_model python_field_name python_class_name
    sub_runs strip_left strip_right class_name_from lower_char upper_char lookup string_dec
    ℕ_discrete text_leb
built = refl

unknown :
    build_semantic_models
      (entity "rack" (record { ref = "rack.id"; role = some identifying } ∷ []) ∷ [])
      attributes
    ≡ err (unknown_attribute "rack" "rack.id")
unfolding build_semantic_models build_models build_model build_fields build_field identifying_refs
    lookup string_dec
unknown = refl

mixed :
    enum_values (record {
      id = "x";
      type = enumeration (
          record { id = "a"; value = text "a"; brief = none }
          ∷ record { id = "b"; value = int "1"; brief = none }
          ∷ []);
      stability = none;
      brief = none;
    })
    ≡ err (mixed_types "x")
unfolding enum_values
mixed = refl

build_semantic_models-IsModelOf_example :
    (types models ≡ sorted (identified_names entities)) × All (IsModelOf attributes entities) models
build_semantic_models-IsModelOf_example =
    build_semantic_models-IsModelOf entities attributes models built
