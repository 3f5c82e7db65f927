-- ===== src/Codegen/Names.antt =====
-- Names made out of semantic names: `_safe_arangodb_name` of tools/semconv_codegen/generator.py and
-- `python_field_name`, `python_class_name` of tools/semconv_codegen/semantic_schema.py.
pub mod Laws
pub mod Safe
use Prim.Native.Char.{Char, code}
use Prim.Native.String
use semconv_graph.Base.{
  ℕ, zero, suc, ◌+◌, ◌-◌, ◌<◌, String, ◌<>◌, Bool, true, false, not, ◌&&◌, ◌||◌, ◌==◌, nat_eq,
  string_eq, leb, if◌then◌else◌, Result, ok, err,
}

abbrev pub is_digit : Char → Bool
is_digit c = leb b'0' (code c) && leb (code c) b'9'

abbrev pub is_upper : Char → Bool
is_upper c = leb b'A' (code c) && leb (code c) b'Z'

abbrev pub is_lower : Char → Bool
is_lower c = leb b'a' (code c) && leb (code c) b'z'

-- `[0-9a-zA-Z]`
abbrev pub is_alnum : Char → Bool
is_alnum c = is_digit c || is_upper c || is_lower c

abbrev pub underscore : Char
underscore = "_"

abbrev pub is_underscore : Char → Bool
is_underscore c = code c == b'_'

-- `re.sub(r"[^0-9a-zA-Z]+", "_", value)`. The flag is set inside a run that has its underscore.
unfoldable pub sub_runs : Bool → String → String
sub_runs inside String.[] = String.[]
sub_runs inside (String.◌∷◌ c s) =
    let kept = String.◌∷◌ c (sub_runs false s) in
    let run = sub_runs true s in
    if is_alnum c then kept else if inside then run else String.◌∷◌ underscore run

-- `s.lstrip("_")`
unfoldable pub strip_left : String → String
strip_left String.[] = String.[]
strip_left (String.◌∷◌ c s) =
    let rest = strip_left s in if is_underscore c then rest else String.◌∷◌ c s

-- A character in front of what a right strip has left.
abbrev pub cons_right : Char → String → String
cons_right c String.[] = if is_underscore c then String.[] else String.◌∷◌ c String.[]
cons_right c (String.◌∷◌ d s) = String.◌∷◌ c (String.◌∷◌ d s)

-- `s.rstrip("_")`
unfoldable pub strip_right : String → String
strip_right String.[] = String.[]
strip_right (String.◌∷◌ c s) = cons_right c (strip_right s)

abbrev nth : ℕ → String → Char → Char
nth i String.[] default = default
nth zero (String.◌∷◌ c s) default = c
nth (suc i) (String.◌∷◌ c s) default = nth i s default

abbrev lowers : String
lowers = "abcdefghijklmnopqrstuvwxyz"

abbrev uppers : String
uppers = "ABCDEFGHIJKLMNOPQRSTUVWXYZ"

-- `c.lower()` and `c.upper()`, for ASCII.
unfoldable pub lower_char : Char → Char
lower_char c = if is_upper c then nth (code c - b'A') lowers c else c

unfoldable pub upper_char : Char → Char
upper_char c = if is_lower c then nth (code c - b'a') uppers c else c

unfoldable pub lower : String → String
unfolding lower_char
lower String.[] = String.[]
lower (String.◌∷◌ c s) = String.◌∷◌ (lower_char c) (lower s)

-- `re.sub(…).strip("_")`
unfoldable pub python_field_name : String → String
unfolding sub_runs strip_left strip_right
python_field_name value = strip_right (strip_left (sub_runs false value))

pub data NameError : Type 0 where
  unconvertible : String → NameError
  collision : String → String → String → String → NameError
  reserved_field : String → String → NameError

abbrev pub starts_with_digit : String → Bool
starts_with_digit String.[] = false
starts_with_digit (String.◌∷◌ c s) = is_digit c

unfoldable pub safe_arangodb_name : String → Result NameError String
safe_arangodb_name value =
    let name = lower (python_field_name value) in
    if name == "" || starts_with_digit name then err (unconvertible value) else ok name

-- `re.split(r"[._-]+", value)`, each part capitalized, joined. The flag is set where a part begins.
abbrev pub is_separator : Char → Bool
is_separator c = code c == b'.' || code c == b'_' || code c == b'-'

unfoldable pub class_name_from : Bool → String → String
unfolding lower_char upper_char
class_name_from start String.[] = String.[]
class_name_from start (String.◌∷◌ c s) =
    let next = class_name_from true s in
    let more = class_name_from false s in
    if is_separator c then next else String.◌∷◌ (if start then upper_char c else lower_char c) more

unfoldable pub python_class_name : String → String
unfolding class_name_from
python_class_name value = class_name_from true value
