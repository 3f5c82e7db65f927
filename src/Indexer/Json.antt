-- ===== src/Indexer/Json.antt =====
-- Decoded JSON, as `json.loads` returns it. A number is its literal, since the indexer copies
-- numbers and never computes with them; an object is a Python dict in insertion order.
use semconv_graph.Base.{
  String, Bool, true, false, Option, none, some, List, [], ◌∷◌, ◌≡◌, refl, arith, ◌==◌, string_eq,
  if◌then◌else◌,
}

mutual
  pub data Json : Type 0 where
    null : Json
    bool : Bool → Json
    number : String → Json
    text : String → Json
    array : Items → Json
    object : Fields → Json

  pub data Items : Type 0 where
    nil : Items
    cons : Json → Items → Items

  pub data Fields : Type 0 where
    end : Fields
    field : String → Json → Fields → Fields

-- `d.get(k)`
unfoldable pub get : String → Fields → Option Json
get k end = none
get k (field j v d) = if k == j then some v else get k d

-- `d[k] = v`
unfoldable pub put : String → Json → Fields → Fields
put k v end = field k v end
put k v (field j w d) = if k == j then field j v d else field j w (put k v d)

-- `k in d`
abbrev pub has : String → Fields → Bool
has k d = elim (get k d) [ none ↦ false | some _ ↦ true ]

-- A dict display, `{k: v, …}`.
abbrev pub display : List (String × Json) → Fields → Fields
display [] d = d
display ((k, v) ∷ rest) d = display rest (put k v d)

-- `isinstance(v, str)` and `isinstance(v, Mapping)`, with the value.
abbrev pub as_text : Option Json → Option String
as_text (some (text s)) = some s
as_text _ = none

abbrev pub as_object : Option Json → Option Fields
as_object (some (object d)) = some d
as_object _ = none

pub get-put :
    (j k : String) (v : Json) (d : Fields)
    → get j (put k v d) ≡ (if j == k then some v else get j d)
unfolding get put
get-put j k v end = refl
get-put j k v (field i w d) = ground (arith, get-put j k v d)
