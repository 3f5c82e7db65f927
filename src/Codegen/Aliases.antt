-- ===== src/Codegen/Aliases.antt =====
-- Names that must not clash: `_unique_sanitized_names`, `_property_aliases` and
-- `_validate_relationship_class_names` of tools/semconv_codegen/generator.py.
pub mod Laws
pub mod Reserved
use Prim.Native.String
use semconv_graph.Base.{
  String, ◌<>◌, Bool, true, false, not, ◌&&◌, ◌==◌, string_eq, contains, if◌then◌else◌, Option,
  none, some, List, [], ◌∷◌, Result, ok, err, ◌>>=◌, ◌>>◌,
}
use semconv_graph.Base.Dict.{Dict, lookup, insert}
use semconv_graph.Codegen.Names.{
  NameError, unconvertible, collision, reserved_field, safe_arangodb_name, python_class_name,
}

-- `ARANGODB_RESERVED_PROPERTIES`
unfoldable pub reserved_properties : List String
reserved_properties =
    "_key" ∷ "_id" ∷ "_rev" ∷ "_from" ∷ "_to" ∷ "attributes" ∷ "element_id" ∷ "semantic_type"
    ∷ "schema_version" ∷ "event_id" ∷ "payload_hash" ∷ "observed_at_unix_nano"
    ∷ "emitted_at_unix_ms" ∷ []

-- What the loop of `_unique_sanitized_names` does from the dicts `names` and `owners` on.
unfoldable pub sanitize_from :
    String
    → List String
    → Dict String String
    → Dict String String
    → Result NameError (Dict String String)
sanitize_from kind [] names owners = ok names
sanitize_from kind (value ∷ values) names owners = safe_arangodb_name value >>= λ name.
    let rest = sanitize_from kind values (insert value name names) (insert name value owners) in
    elim (lookup name owners) [
      | none ↦ rest
      | some previous ↦ if previous == value then rest else err (collision kind previous value name)
    ]

unfoldable pub unique_sanitized_names : List String → String → Result NameError (Dict String String)
unique_sanitized_names values kind = sanitize_from kind values [] []

-- The loop of `_property_aliases` over `aliases.items()`.
unfoldable pub refuse_reserved : Dict String String → Result NameError (Unit {0})
unfolding reserved_properties
refuse_reserved [] = ok tt
refuse_reserved ((canonical, alias) ∷ rest) =
    let later = refuse_reserved rest in
    if contains reserved_properties alias then err (reserved_field canonical alias) else later

unfoldable pub property_aliases : List String → Result NameError (Dict String String)
property_aliases values = unique_sanitized_names values "property alias" >>= λ aliases.
    refuse_reserved aliases >> ok aliases
