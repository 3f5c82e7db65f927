-- ===== src/Gremlin/Steps.antt =====
-- The tables of Gremlin steps of gremlin/client.py.

use semconv_graph.Base.{String, List, [], ◌∷◌}
use semconv_graph.Base.Dict.{Dict}

-- `TraverserKind`
pub data TraverserKind : Type 0 where
  vertex edge : TraverserKind

-- `_START_STEPS`
unfoldable pub start_steps : Dict String TraverserKind
start_steps = ("V", vertex) ∷ ("E", edge) ∷ []

-- `_NAVIGATION_STEPS`
unfoldable pub navigation_steps : Dict String TraverserKind
navigation_steps =
    ("out", vertex)
    ∷ ("in", vertex)
    ∷ ("both", vertex)
    ∷ ("outE", edge)
    ∷ ("inE", edge)
    ∷ ("bothE", edge)
    ∷ ("outV", vertex)
    ∷ ("inV", vertex)
    ∷ ("bothV", vertex)
    ∷ ("otherV", vertex)
    ∷ []

-- `_PRESERVING_STEPS`
unfoldable pub preserving_steps : List String
preserving_steps =
    "as" ∷ "and" ∷ "barrier" ∷ "by" ∷ "coin" ∷ "cyclicPath" ∷ "dedup" ∷ "filter" ∷ "has" ∷ "hasId"
    ∷ "hasKey" ∷ "hasLabel" ∷ "hasNot" ∷ "hasValue" ∷ "identity" ∷ "is" ∷ "limit" ∷ "not" ∷ "or"
    ∷ "order" ∷ "range" ∷ "sample" ∷ "shuffle" ∷ "simplePath" ∷ "skip" ∷ "tail" ∷ "timeLimit"
    ∷ "where" ∷ []

-- `_TRANSFORMING_STEPS`
unfoldable pub transforming_steps : List String
transforming_steps =
    "cap" ∷ "constant" ∷ "count" ∷ "elementMap" ∷ "flatMap" ∷ "fold" ∷ "group" ∷ "groupCount" ∷ "id"
    ∷ "key" ∷ "label" ∷ "map" ∷ "match" ∷ "math" ∷ "max" ∷ "mean" ∷ "min" ∷ "path" ∷ "project"
    ∷ "properties" ∷ "propertyMap" ∷ "sack" ∷ "select" ∷ "sum" ∷ "tree" ∷ "unfold" ∷ "value"
    ∷ "valueMap" ∷ "values" ∷ []

-- `_MUTATING_STEPS`
unfoldable pub mutating_steps : List String
mutating_steps = "addE" ∷ "addV" ∷ "drop" ∷ "mergeE" ∷ "mergeV" ∷ "property" ∷ []
