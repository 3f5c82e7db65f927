-- ===== src/Gremlin/Values.antt =====
-- The Python values that the driver returns, and the strings that the reconstruction takes apart.

use semconv_graph.Base.{
  String, Bool, true, false, Option, none, some, ◌==◌, string_eq, nat_eq, if◌then◌else◌,
}
use semconv_graph.Base.Dict.{Dict}

-- A key of a mapping: a text, or another object such as the token of a vertex's identifier.
pub data Key : Type 0 where
  name : String → Key
  token : Key

-- A value: a text, a mapping, a list, a tuple, or a scalar, given by its representation.
mutual
  pub data Value : Type 0 where
    text : String → Value
    scalar : String → Value
    mapping : Entries → Value
    sequence tuple : Items → Value

  pub data Items : Type 0 where
    nil : Items
    cons : Value → Items → Items

  pub data Entries : Type 0 where
    end : Entries
    entry : Key → Value → Entries → Entries

-- `item.get(n)` for a text `n`.
unfoldable pub get : String → Entries → Option Value
get n end = none
get n (entry token v rest) = get n rest
get n (entry (name m) v rest) = if n == m then some v else get n rest

-- `n in item`
abbrev pub has : String → Entries → Bool
has n item = elim (get n item) [ none ↦ false | some _ ↦ true ]

-- `dict[str, object]`
abbrev pub Attributes : Type 0
Attributes = Dict String Value
