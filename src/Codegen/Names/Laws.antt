-- ===== src/Codegen/Names/Laws.antt =====
-- What a converted name looks like.
use package.text.Mathlib.TextEquality.{Char-path}
use Prim.Native.Char.{Char}
use semconv_graph.Base.{
  String, Bool, true, false, not, ◌&&◌, nat_eq, string_eq, ◌≡◌, inl, inr, refl, ap, ◌∙◌, arith,
  if◌then◌else◌, Bool-cases,
}
use semconv_graph.Codegen.Names.{
  is_alnum, underscore, is_underscore, sub_runs, strip_left, cons_right, strip_right,
  python_field_name,
}

-- Letters, digits and single underscores. The flag says that an underscore stands before.
unfoldable pub tidy : Bool → String → Bool
tidy after String.[] = true
tidy after (String.◌∷◌ c s) =
    let word = tidy false s in
    let gap = tidy true s in if is_underscore c then not after && gap else is_alnum c && word

sub_runs-tidy : (inside : Bool) (s : String) → tidy inside (sub_runs inside s) ≡ true
unfolding tidy sub_runs
sub_runs-tidy inside String.[] = refl
sub_runs-tidy inside (String.◌∷◌ c s) = ground (arith, sub_runs-tidy false s, sub_runs-tidy true s)

tidy-weaken : (s : String) → tidy true s ≡ true → tidy false s ≡ true
unfolding tidy
tidy-weaken String.[] h = refl
tidy-weaken (String.◌∷◌ c s) h = ground arith

abbrev pub starts_with_underscore : String → Bool
starts_with_underscore String.[] = false
starts_with_underscore (String.◌∷◌ c s) = is_underscore c

strip_left-tidy : (s : String) → tidy false s ≡ true → tidy false (strip_left s) ≡ true
unfolding tidy strip_left
strip_left-tidy String.[] h = refl
strip_left-tidy (String.◌∷◌ c s) h = ground (arith, tidy-weaken s, strip_left-tidy s)

strip_left-start : (s : String) → starts_with_underscore (strip_left s) ≡ false
unfolding strip_left
strip_left-start String.[] = refl
strip_left-start (String.◌∷◌ c s) = ground (arith, strip_left-start s)

abbrev pub ends_with_underscore : String → Bool
ends_with_underscore String.[] = false
ends_with_underscore (String.◌∷◌ c String.[]) = is_underscore c
ends_with_underscore (String.◌∷◌ c (String.◌∷◌ d s)) = ends_with_underscore (String.◌∷◌ d s)

cons_right-end :
    (c : Char) (t : String)
    → ends_with_underscore t ≡ false
    → ends_with_underscore (cons_right c t) ≡ false
cons_right-end c String.[] h = elim (Bool-cases (is_underscore c)) [
  | inl gap ↦ rw gap
  | inr word ↦ rw word word
]
cons_right-end c (String.◌∷◌ d t) h = h

strip_right-end : (s : String) → ends_with_underscore (strip_right s) ≡ false
unfolding strip_right
strip_right-end String.[] = refl
strip_right-end (String.◌∷◌ c s) = cons_right-end c (strip_right s) (strip_right-end s)

cons_right-tidy :
    (after : Bool) (c : Char) (t : String)
    → tidy after (String.◌∷◌ c t) ≡ true
    → tidy after (cons_right c t) ≡ true
unfolding tidy
cons_right-tidy after c String.[] h = elim (Bool-cases (is_underscore c)) [
  | inl gap ↦ rw gap
  | inr word ↦ rw word h
]
cons_right-tidy after c (String.◌∷◌ d t) h = h

tidy-cons :
    (after : Bool) (c : Char) (s t : String)
    → (tidy true s ≡ true → tidy true t ≡ true)
    → (tidy false s ≡ true → tidy false t ≡ true)
    → tidy after (String.◌∷◌ c s) ≡ true
    → tidy after (String.◌∷◌ c t) ≡ true
unfolding tidy
tidy-cons after c s t gap word h = ground arith

strip_right-tidy :
    (after : Bool) (s : String) → tidy after s ≡ true → tidy after (strip_right s) ≡ true
unfolding strip_right
strip_right-tidy after String.[] h = h
strip_right-tidy after (String.◌∷◌ c s) h =
    cons_right-tidy after c (strip_right s)
      (tidy-cons after c s (strip_right s) (strip_right-tidy true s) (strip_right-tidy false s) h)

cons_right-start :
    (c : Char) (t : String)
    → is_underscore c ≡ false
    → starts_with_underscore (cons_right c t) ≡ false
cons_right-start c String.[] h = ground arith
cons_right-start c (String.◌∷◌ d t) h = h

strip_right-start :
    (s : String) → starts_with_underscore s ≡ false → starts_with_underscore (strip_right s) ≡ false
unfolding strip_right
strip_right-start String.[] h = refl
strip_right-start (String.◌∷◌ c s) h = cons_right-start c (strip_right s) h

-- What `re.sub(r"[^0-9a-zA-Z]+", "_", …).strip("_")` gives: letters, digits and single underscores
-- between them.
pub record IsClean (s : String) : Type 0 where
  pub spaced : tidy false s ≡ true
  pub starts : starts_with_underscore s ≡ false
  pub ends : ends_with_underscore s ≡ false

pub python_field_name-IsClean : (value : String) → IsClean (python_field_name value)
unfolding python_field_name
python_field_name-IsClean value =
    let t = strip_left (sub_runs false value) in
    record {
      spaced =
          strip_right-tidy false t
            (strip_left-tidy (sub_runs false value) (sub_runs-tidy false value));
      starts = strip_right-start t (strip_left-start (sub_runs false value));
      ends = strip_right-end t;
    }

-- Such a name is its own field name.
sub_runs-fixed : (inside : Bool) (s : String) → tidy inside s ≡ true → sub_runs inside s ≡ s
unfolding sub_runs tidy
sub_runs-fixed inside String.[] h = refl
sub_runs-fixed inside (String.◌∷◌ c s) h = elim (Bool-cases (is_underscore c)) [
  | inl gap ↦
      let same : c ≡ underscore = Char-path c underscore (ground arith) in
      ground (arith, sub_runs-fixed true s)
  | inr word ↦ ground (arith, sub_runs-fixed false s)
]

strip_left-fixed : (s : String) → starts_with_underscore s ≡ false → strip_left s ≡ s
unfolding strip_left
strip_left-fixed String.[] h = refl
strip_left-fixed (String.◌∷◌ c s) h = ground arith

strip_right-fixed : (s : String) → ends_with_underscore s ≡ false → strip_right s ≡ s
unfolding strip_right
strip_right-fixed String.[] h = refl
strip_right-fixed (String.◌∷◌ c String.[]) h = ground arith
strip_right-fixed (String.◌∷◌ c (String.◌∷◌ d s)) h =
    ap (cons_right c) (strip_right-fixed (String.◌∷◌ d s) h)

pub python_field_name-fixed : (s : String) → IsClean s → python_field_name s ≡ s
unfolding python_field_name
python_field_name-fixed s h =
    ap strip_right (ap strip_left (sub_runs-fixed false s h.spaced) ∙ strip_left-fixed s h.starts)
    ∙ strip_right-fixed s h.ends
