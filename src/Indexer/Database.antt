-- ===== src/Indexer/Database.antt =====
-- The database as initialize.py uses it: `DatabaseBoundary`, `GraphBoundary` and `CollectionBoundary`,
-- which are a record of calls on the state of the database, each of which may raise.
pub mod Documented
pub mod Memory
use Prim.Native.Char.{Char, code}
use Prim.Native.String
use semconv_graph.Base.{
  ℕ, String, Bool, true, false, not, ◌||◌, ◌&&◌, Option, none, some, List, [], ◌∷◌, ◌==◌, string_eq,
  nat_eq, if◌then◌else◌, Result, ok, err, ◌>>=◌, contains,
}
use semconv_graph.Base.Actions.{Action}
use semconv_graph.Base.Dict.{Dict, lookup, insert}
use semconv_graph.Base.Sorting.{sorted}

-- `TopologyInitializationError`, for each place that raises one, and what the client raises.
pub data TopologyFailure : Type 0 where
  timed_out no_such_database invalid_definition : TopologyFailure
  not_a_document_collection not_an_edge_collection : String → TopologyFailure
  invalid_index_fields incompatible_index : String → TopologyFailure
  unexpected_definitions : List String → TopologyFailure
  definition_mismatch : String → TopologyFailure
  client_error : String → TopologyFailure

-- An index as the code reads it: `str(index.get("name", ""))`, the fields by `str` if they are a
-- sequence other than a text, and the truth of `unique` and `sparse`.
pub record Index : Type 0 where
  pub name : String
  pub fields : Option (List String)
  pub unique : Bool
  pub sparse : Bool

-- A value under a key of an edge definition: none, a text, or another object that counts as true.
pub data Name : Type 0 where
  absent other : Name
  text : String → Name

-- An edge definition that the graph has, with the sequences under its two keys for vertex collections.
pub record Definition : Type 0 where
  pub edge_collection : Name
  pub collection : Name
  pub from_vertex_collections : List String
  pub to_vertex_collections : List String

-- A generated or normalized definition.
pub record EdgeDefinition : Type 0 where
  pub edge_collection : String
  pub from_vertex_collections : List String
  pub to_vertex_collections : List String

pub record Database : Type 1 where
  pub State : Type 0
  pub version : Action TopologyFailure State String
  pub has_collection : String → Action TopologyFailure State Bool
  pub create_collection : String → Bool → Action TopologyFailure State (Unit {0})
  -- `collection(name).properties().get("type")`
  pub collection_type : String → Action TopologyFailure State (Option ℕ)
  pub indexes : String → Action TopologyFailure State (List Index)
  pub add_persistent_index : String → Index → Action TopologyFailure State (Unit {0})
  -- `collection(name).get(key) is not None`
  pub has_document : String → String → Action TopologyFailure State Bool
  pub insert_document : String → Dict String String → Action TopologyFailure State (Unit {0})
  pub has_graph : String → Action TopologyFailure State Bool
  pub create_graph :
      String → List EdgeDefinition → List String → Action TopologyFailure State (Unit {0})
  pub edge_definitions : String → Action TopologyFailure State (List Definition)
  pub create_edge_definition : String → EdgeDefinition → Action TopologyFailure State (Unit {0})

-- The truth of a value.
abbrev pub truthy : Name → Bool
truthy absent = false
truthy other = true
truthy (text s) = not (s == "")

abbrev pub require_text : Name → Result TopologyFailure String
require_text (text s) = ok s
require_text absent = err invalid_definition
require_text other = err invalid_definition

-- `_definition_name`
unfoldable pub definition_name : Definition → Result TopologyFailure String
definition_name d =
    require_text (if truthy d.edge_collection then d.edge_collection else d.collection)

-- `_normalize_definition`
unfoldable pub normalize_definition : Definition → Result TopologyFailure EdgeDefinition
normalize_definition d = definition_name d >>= λ name. ok (record {
  edge_collection = name;
  from_vertex_collections = sorted d.from_vertex_collections;
  to_vertex_collections = sorted d.to_vertex_collections;
})

-- `{_definition_name(item): _normalize_definition(item) for item in items}`, from a dict on.
unfoldable pub definitions_onto :
    Dict String EdgeDefinition
    → List Definition
    → Result TopologyFailure (Dict String EdgeDefinition)
definitions_onto d [] = ok d
definitions_onto d (item ∷ items) = definition_name item >>= λ name.
    normalize_definition item >>= λ normalized. definitions_onto (insert name normalized d) items

-- `name.rsplit("/", maxsplit=1)[-1]`: what follows the last slash.
unfoldable pub after_slash : String → Option String
after_slash String.[] = none
after_slash (String.◌∷◌ c s) =
    let rest = after_slash s in
    elim rest [ some t ↦ some t | none ↦ if code c == b'/' then some s else none ]

unfoldable pub last_part : String → String
last_part s = elim (after_slash s) [ none ↦ s | some t ↦ t ]

-- The first index of the name.
unfoldable pub find_index : String → List Index → Option Index
find_index name [] = none
find_index name (index ∷ indexes) =
    let later = find_index name indexes in
    if last_part index.name == name then some index else later

-- A generated definition as `definition.get` reads it.
unfoldable pub as_definition : EdgeDefinition → Definition
as_definition e = record {
  edge_collection = text e.edge_collection;
  collection = absent;
  from_vertex_collections = e.from_vertex_collections;
  to_vertex_collections = e.to_vertex_collections;
}

abbrev pub as_definitions : List EdgeDefinition → List Definition
as_definitions [] = []
as_definitions (e ∷ es) = as_definition e ∷ as_definitions es
