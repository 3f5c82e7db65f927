-- ===== src/Base/Text.antt =====
-- Texts that the code takes apart character by character.
use Prim.Native.Char.{Char, code}
use Prim.Native.Nat.{ℕ}
use Prim.Native.String.{String}
use mathlib.Core.Option.{Option, none, some}
use semconv_graph.Base.Equality.{◌==◌, nat_eq, if◌then◌else◌}

-- The first part of `s.partition(sep)`, put before the rest.
abbrev prepend : Char → Option (String × String) → Option (String × String)
prepend c none = none
prepend c (some (before, after)) = some (String.◌∷◌ c before, after)

-- `s.partition(sep)` for a separator of one character, given by its code point: the parts before
-- and after the first separator, or nothing if there is none.
unfoldable pub partition : ℕ → String → Option (String × String)
partition sep String.[] = none
partition sep (String.◌∷◌ c s) =
    let rest = partition sep s in if code c == sep then some (String.[], s) else prepend c rest
