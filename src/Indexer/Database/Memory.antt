-- ===== src/Indexer/Database/Memory.antt =====
-- A database in memory.
pub mod Laws
use semconv_graph.Base.{
  ℕ, String, Bool, true, false, not, ◌||◌, ◌&&◌, Option, none, some, List, [], ◌∷◌, ◌++◌, ◌==◌,
  string_eq, if◌then◌else◌, Result, ok, err, ◌≡◌, refl, sym, ap, ◌∙◌, arith, Bool-cases,
  Option-cases, Result-cases, inl, inr, >>=-eq-ok,
}
use semconv_graph.Base.Actions.{Action, Ensures}
use semconv_graph.Base.Dict.{Dict, lookup, insert, lookup-insert}
use semconv_graph.Indexer.Database.{
  TopologyFailure, client_error, Index, Definition, EdgeDefinition, Database, definition_name,
  normalize_definition, find_index, last_part, definitions_onto, as_definition, as_definitions,
}
use semconv_graph.Indexer.Database.Documented.{
  Store, Grows, Grows-refl, GrowsBeside, IsIndexed, IsDocumented, is_given, type_number,
}

pub record Memory : Type 0 where
  pub kinds : String → Option ℕ
  pub index_lists : String → List Index
  pub documents : String → String → Option (Dict String String)
  pub graphs : String → Option (List EdgeDefinition)
  pub now : ℕ

abbrev pub empty : Memory
empty = record {
  kinds = λ c. none;
  index_lists = λ c. [];
  documents = λ c k. none;
  graphs = λ g. none;
  now = 0;
}

abbrev pub as_graph :
    Result TopologyFailure (Dict String EdgeDefinition) → Option (String → Option EdgeDefinition)
as_graph (ok d) = some (λ n. lookup n d)
as_graph (err e) = none

abbrev pub graph_of : Option (List EdgeDefinition) → Option (String → Option EdgeDefinition)
graph_of none = none
graph_of (some es) = as_graph (definitions_onto [] (as_definitions es))

abbrev pub stored : Option (List EdgeDefinition) → List EdgeDefinition
stored none = []
stored (some es) = es

abbrev pub contents : Memory → Store
contents s = record {
  kind = s.kinds;
  index = λ c n. find_index n (s.index_lists c);
  document = s.documents;
  graph = λ g. graph_of (s.graphs g);
}

abbrev refused : {A : Type 0} → Action TopologyFailure Memory A
refused s = (err (client_error "refused"), s)

abbrev pub create_collection : String → Bool → Action TopologyFailure Memory (Unit {0})
create_collection c edge s =
    if is_given (s.kinds c)
    then refused s
    else (ok tt, record s { kinds = λ c'. if c' == c then some (type_number edge) else s.kinds c' })

abbrev pub add_persistent_index : String → Index → Action TopologyFailure Memory (Unit {0})
add_persistent_index c i s =
    if is_given (find_index i.name (s.index_lists c)) || not (last_part i.name == i.name)
    then refused s
    else (
      ok tt,
      record s { index_lists = λ c'. if c' == c then i ∷ s.index_lists c else s.index_lists c' },
    )

abbrev pub insert_document : String → Dict String String → Action TopologyFailure Memory (Unit {0})
insert_document c fields s = elim (lookup "_key" fields) [
  | none ↦ refused s
  | some k ↦ if is_given (s.documents c k) then refused s else (
    ok tt,
    record s { documents = λ c' k'. if c' == c && k' == k then some fields else s.documents c' k' },
  )
]

abbrev pub create_graph :
    String → List EdgeDefinition → List String → Action TopologyFailure Memory (Unit {0})
create_graph g ds orphans s =
    (ok tt, record s { graphs = λ g'. if g' == g then some ds else s.graphs g' })

abbrev pub create_edge_definition :
    String → EdgeDefinition → Action TopologyFailure Memory (Unit {0})
create_edge_definition g d s = (
  ok tt,
  record s {
    graphs = λ g'. if g' == g then some (stored (s.graphs g) ++ (d ∷ [])) else s.graphs g';
  },
)

abbrev pub memory : Database
memory = record {
  State = Memory;
  version = λ s. (ok "3.12", s);
  has_collection = λ c s. (ok (is_given (s.kinds c)), s);
  create_collection = create_collection;
  collection_type = λ c s. (ok (s.kinds c), s);
  indexes = λ c s. (ok (s.index_lists c), s);
  add_persistent_index = add_persistent_index;
  has_document = λ c k s. (ok (is_given (s.documents c k)), s);
  insert_document = insert_document;
  has_graph = λ g s. (ok (is_given (graph_of (s.graphs g))), s);
  create_graph = create_graph;
  edge_definitions = λ g s. (ok (as_definitions (stored (s.graphs g))), s);
  create_edge_definition = create_edge_definition;
}
