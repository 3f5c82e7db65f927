-- ===== src/Codegen/Names/Safe.antt =====
-- Names in the database: what `_safe_arangodb_name` accepts and returns.
use Prim.Native.Char.{Char, code}
use native.Mathlib.Decide.{ℕ_discrete}
use semconv_graph.Base.{
  ℕ, zero, suc, ◌+◌, ◌-◌, ◌<◌, String, Bool, true, false, not, ◌&&◌, ◌==◌, nat_eq, string_eq, ◌≡◌,
  ◌≢◌, ◌⊎◌, inl, inr, refl, ap, ◌∙◌, arith, ok, Bool-cases,
}
use semconv_graph.Codegen.Names.{
  is_upper, is_alnum, is_underscore, nth, lowers, lower_char, lower, python_field_name,
  starts_with_digit, safe_arangodb_name,
}
use semconv_graph.Codegen.Names.Laws.{
  tidy, starts_with_underscore, ends_with_underscore, IsClean, python_field_name-IsClean,
  python_field_name-fixed,
}

-- The characters of a text have consecutive code points from `n` on.
abbrev consecutive : ℕ → String → Bool
consecutive n String.[] = true
consecutive n (String.◌∷◌ c s) = code c == n && consecutive (suc n) s

abbrev size : String → ℕ
size String.[] = 0
size (String.◌∷◌ c s) = suc (size s)

code-nth :
    (i n : ℕ) (s : String) (default : Char)
    → consecutive n s ≡ true
    → i < size s
    → code (nth i s default) ≡ n + i
code-nth i n String.[] default h below = ground arith
code-nth zero n (String.◌∷◌ c s) default h below = ground arith
code-nth (suc i) n (String.◌∷◌ c s) default h below = ground (arith, code-nth i (suc n) s default)

lower_char-cases :
    (c : Char)
    → (is_upper c ≡ true × code (lower_char c) ≡ code c + 32)
      ⊎ (is_upper c ≡ false × lower_char c ≡ c)
unfolding lower_char ℕ_discrete
lower_char-cases c = elim (Bool-cases (is_upper c)) [
  | inl upper ↦
      let found : code (nth (code c - b'A') lowers c) ≡ b'a' + (code c - b'A') =
        code-nth (code c - b'A') b'a' lowers c refl (ground arith) in
      inl (upper, rw upper (ground arith))
  | inr kept ↦ inr (kept, rw kept)
]

-- A lower-case name: no letter of it is a capital.
pub no_upper : String → Bool
no_upper String.[] = true
no_upper (String.◌∷◌ c s) = not (is_upper c) && no_upper s

lower-no_upper : (s : String) → no_upper (lower s) ≡ true
unfolding lower no_upper
lower-no_upper String.[] = refl
lower-no_upper (String.◌∷◌ c s) = ground (arith, lower_char-cases c, lower-no_upper s)

lower-fixed : (s : String) → no_upper s ≡ true → lower s ≡ s
unfolding lower no_upper
lower-fixed String.[] h = refl
lower-fixed (String.◌∷◌ c s) h = ground (arith, lower_char-cases c, lower-fixed s)

is_underscore-lower_char : (c : Char) → is_underscore (lower_char c) ≡ is_underscore c
is_underscore-lower_char c = ground (arith, lower_char-cases c)

is_alnum-lower_char : (c : Char) → is_alnum (lower_char c) ≡ is_alnum c
is_alnum-lower_char c = ground (arith, lower_char-cases c)

tidy-lower : (after : Bool) (s : String) → tidy after (lower s) ≡ tidy after s
unfolding tidy lower
tidy-lower after String.[] = refl
tidy-lower after (String.◌∷◌ c s) =
    rw (is_underscore-lower_char c, is_alnum-lower_char c, tidy-lower true s, tidy-lower false s)

starts_with_underscore-lower :
    (s : String) → starts_with_underscore (lower s) ≡ starts_with_underscore s
unfolding lower
starts_with_underscore-lower String.[] = refl
starts_with_underscore-lower (String.◌∷◌ c s) = is_underscore-lower_char c

ends_with_underscore-lower : (s : String) → ends_with_underscore (lower s) ≡ ends_with_underscore s
unfolding lower
ends_with_underscore-lower String.[] = refl
ends_with_underscore-lower (String.◌∷◌ c String.[]) = is_underscore-lower_char c
ends_with_underscore-lower (String.◌∷◌ c (String.◌∷◌ d s)) =
    ends_with_underscore-lower (String.◌∷◌ d s)

lower-IsClean : (s : String) → IsClean s → IsClean (lower s)
lower-IsClean s h = record {
  spaced = tidy-lower false s ∙ h.spaced;
  starts = starts_with_underscore-lower s ∙ h.starts;
  ends = ends_with_underscore-lower s ∙ h.ends;
}

-- A name that the database takes: words of lower-case letters and digits with one underscore between
-- two of them, at least one word, the first character no digit.
pub record IsDatabaseName (n : String) : Type 0 where
  pub clean : IsClean n
  pub lower_case : no_upper n ≡ true
  pub nonempty : n ≢ ""
  pub letter_first : starts_with_digit n ≡ false

safe_arangodb_name-parts :
    (value n : String)
    → safe_arangodb_name value ≡ ok n
    → (n ≡ lower (python_field_name value)) × (n ≢ "") × (starts_with_digit n ≡ false)
unfolding safe_arangodb_name
safe_arangodb_name-parts value n given = ground arith

-- A name that `_safe_arangodb_name` returns is not empty, does not start with a digit, and consists of
-- lower-case letters, digits and single underscores between them.
pub safe_arangodb_name-IsDatabaseName :
    (value n : String) → safe_arangodb_name value ≡ ok n → IsDatabaseName n
safe_arangodb_name-IsDatabaseName value n given =
    let parts = safe_arangodb_name-parts value n given in
    rw parts.0 (record {
      clean = lower-IsClean (python_field_name value) (python_field_name-IsClean value);
      lower_case = lower-no_upper (python_field_name value);
      nonempty = rw parts.0 at parts.1;
      letter_first = rw parts.0 at parts.2;
    })

-- A database name is its own safe name.
pub safe_arangodb_name-fixed : (n : String) → IsDatabaseName n → safe_arangodb_name n ≡ ok n
unfolding safe_arangodb_name
safe_arangodb_name-fixed n h =
    let same : lower (python_field_name n) ≡ n =
      ap lower (python_field_name-fixed n h.clean) ∙ lower-fixed n h.lower_case in
    let nonempty = h.nonempty in let letter = h.letter_first in rw same (ground arith)

-- Where `_safe_arangodb_name` returns a name, it returns that name for the name too.
pub safe_arangodb_name_idem :
    (value n : String) → safe_arangodb_name value ≡ ok n → safe_arangodb_name n ≡ ok n
safe_arangodb_name_idem value n given =
    safe_arangodb_name-fixed n (safe_arangodb_name-IsDatabaseName value n given)
