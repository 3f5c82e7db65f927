-- ===== src/Base/Sorting.antt =====
-- `sorted` on texts, which compares them code point by code point, and sets of texts as lists.
use Prim.Native.Char.{code}
use Prim.Native.String.{String}
use mathlib.Core.Path.{◌≡◌, refl, ap, ◌∙◌}
use mathlib.Core.Bool.{Bool, true, false, ◌&&◌}
use mathlib.Core.Logic.{inl, inr}
use mathlib.Core.List.{List, [], ◌∷◌}
use native.Mathlib.Omega.{arith}
use semconv_graph.Base.Equality.{◌==◌, nat_eq, string_eq, contains, if◌then◌else◌, ltb, Bool-cases}
use semconv_graph.Base.Lists.{All}

-- `s <= t`
unfoldable pub text_leb : String → String → Bool
text_leb String.[] t = true
text_leb (String.◌∷◌ c s) String.[] = false
text_leb (String.◌∷◌ c s) (String.◌∷◌ d t) =
    let rest = text_leb s t in if code c == code d then rest else ltb (code c) (code d)

unfoldable pub insert_sorted : String → List String → List String
insert_sorted s [] = s ∷ []
insert_sorted s (t ∷ ts) =
    let later = insert_sorted s ts in if text_leb s t then s ∷ t ∷ ts else t ∷ later

-- `sorted(texts)`
unfoldable pub sorted : List String → List String
sorted [] = []
sorted (s ∷ ss) = insert_sorted s (sorted ss)

-- The texts of a list, each once: what iterating over `set(texts)` gives, in some order.
unfoldable pub distinct : List String → List String
distinct [] = []
distinct (s ∷ ss) = let rest = distinct ss in if contains rest s then rest else s ∷ rest

abbrev pub Ascending : List String → Type 0
Ascending [] = Unit
Ascending (s ∷ ss) = All (λ t. text_leb s t ≡ true) ss × Ascending ss

pub text_leb_refl : (s : String) → text_leb s s ≡ true
unfolding text_leb
text_leb_refl String.[] = refl
text_leb_refl (String.◌∷◌ c s) = ground (arith, text_leb_refl s)

pub text_leb_trans :
    (s t u : String) → text_leb s t ≡ true → text_leb t u ≡ true → text_leb s u ≡ true
unfolding text_leb
text_leb_trans String.[] t u p q = refl
text_leb_trans (String.◌∷◌ c s) String.[] u p q = absurd (cc)
text_leb_trans (String.◌∷◌ c s) (String.◌∷◌ d t) String.[] p q = absurd (cc)
text_leb_trans (String.◌∷◌ c s) (String.◌∷◌ d t) (String.◌∷◌ e u) p q =
    ground (arith, text_leb_trans s t u)

text_leb_total : (s t : String) → text_leb s t ≡ false → text_leb t s ≡ true
unfolding text_leb
text_leb_total String.[] t p = absurd (cc)
text_leb_total (String.◌∷◌ c s) String.[] p = refl
text_leb_total (String.◌∷◌ c s) (String.◌∷◌ d t) p = ground (arith, text_leb_total s t)

All-leb_trans :
    (s t : String) (ts : List String)
    → text_leb s t ≡ true
    → All (λ u. text_leb t u ≡ true) ts
    → All (λ u. text_leb s u ≡ true) ts
All-leb_trans s t [] p h = tt
All-leb_trans s t (u ∷ ts) p (q, h) = (text_leb_trans s t u p q, All-leb_trans s t ts p h)

All-insert_sorted :
    (s t : String) (ts : List String)
    → text_leb s t ≡ true
    → All (λ u. text_leb s u ≡ true) ts
    → All (λ u. text_leb s u ≡ true) (insert_sorted t ts)
unfolding insert_sorted
All-insert_sorted s t [] p h = (p, tt)
All-insert_sorted s t (u ∷ ts) p (q, h) = elim (Bool-cases (text_leb t u)) [
  | inl le ↦ rw le (p, (q, h))
  | inr gt ↦ rw gt (q, All-insert_sorted s t ts p h)
]

insert_sorted-Ascending :
    (s : String) (ts : List String) → Ascending ts → Ascending (insert_sorted s ts)
unfolding insert_sorted
insert_sorted-Ascending s [] h = (tt, tt)
insert_sorted-Ascending s (t ∷ ts) (least, h) = elim (Bool-cases (text_leb s t)) [
  | inl le ↦ rw le ((le, All-leb_trans s t ts le least), (least, h))
  | inr gt ↦
      rw gt (All-insert_sorted t s ts (text_leb_total s t gt) least, insert_sorted-Ascending s ts h)
]

pub sorted-Ascending : (ss : List String) → Ascending (sorted ss)
unfolding sorted
sorted-Ascending [] = tt
sorted-Ascending (s ∷ ss) = insert_sorted-Ascending s (sorted ss) (sorted-Ascending ss)

insert_sorted-least :
    (s : String) (ts : List String)
    → All (λ t. text_leb s t ≡ true) ts
    → insert_sorted s ts ≡ s ∷ ts
unfolding insert_sorted
insert_sorted-least s [] h = refl
insert_sorted-least s (t ∷ ts) (p, h) = rw p

sorted-fixed : (ss : List String) → Ascending ss → sorted ss ≡ ss
unfolding sorted
sorted-fixed [] h = refl
sorted-fixed (s ∷ ss) (least, h) =
    ap (insert_sorted s) (sorted-fixed ss h) ∙ insert_sorted-least s ss least

pub sorted_idem : (ss : List String) → sorted (sorted ss) ≡ sorted ss
sorted_idem ss = sorted-fixed (sorted ss) (sorted-Ascending ss)

contains-insert_sorted :
    (s t : String) (ts : List String)
    → contains (insert_sorted s ts) t ≡ (if t == s then true else contains ts t)
unfolding insert_sorted
contains-insert_sorted s t [] = ground arith
contains-insert_sorted s t (u ∷ ts) = ground (arith, contains-insert_sorted s t ts)

pub contains-sorted : (ss : List String) (t : String) → contains (sorted ss) t ≡ contains ss t
unfolding sorted
contains-sorted [] t = refl
contains-sorted (s ∷ ss) t =
    ground (arith, contains-insert_sorted s t (sorted ss), contains-sorted ss t)

pub contains-distinct : (ss : List String) (t : String) → contains (distinct ss) t ≡ contains ss t
unfolding distinct
contains-distinct [] t = refl
contains-distinct (s ∷ ss) t = ground (arith, contains-distinct ss t, contains-distinct ss s)

-- `a == b` for tuples of texts.
unfoldable pub same_texts : List String → List String → Bool
same_texts [] [] = true
same_texts (s ∷ ss) (t ∷ ts) = s == t && same_texts ss ts
same_texts _ _ = false

pub same_texts-eq : (ss ts : List String) → same_texts ss ts ≡ true → ss ≡ ts
unfolding same_texts
same_texts-eq [] [] h = refl
same_texts-eq [] (t ∷ ts) h = absurd (cc)
same_texts-eq (s ∷ ss) [] h = absurd (cc)
same_texts-eq (s ∷ ss) (t ∷ ts) h = ground (arith, same_texts-eq ss ts)

pub same_texts_refl : (ss : List String) → same_texts ss ss ≡ true
unfolding same_texts
same_texts_refl [] = refl
same_texts_refl (s ∷ ss) = ground (arith, same_texts_refl ss)
