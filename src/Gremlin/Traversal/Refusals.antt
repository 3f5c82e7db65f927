-- ===== src/Gremlin/Traversal/Refusals.antt =====
-- What the client never sends, and where a refused traversal goes wrong.

use semconv_graph.Base.{
  ℕ, zero, suc, ◌+◌, String, Bool, true, false, not, ◌&&◌, ◌||◌, Option, none, some, List, [], ◌∷◌,
  ◌++◌, ok, err, contains, string_eq, nat_eq, ◌≡◌, refl, ap, arith, ◌⊎◌, inl, inr, Result-cases,
  Option-cases, string_dec, All, All-append, All-contains, length,
}
use semconv_graph.Base.Dict.{has_key, keys, All-keys}
use semconv_graph.Gremlin.Steps.{
  TraverserKind, vertex, start_steps, navigation_steps, preserving_steps, transforming_steps,
  mutating_steps,
}
use semconv_graph.Gremlin.Traversal.{
  Instruction, TraversalError, empty_traversal, malformed, unsupported_step, step_name, next_kind,
  kind_from, validate_element_traversal,
}
use semconv_graph.Gremlin.Traversal.Laws.{
  Yields, start, navigate, preserve, validate_element_traversal-Yields,
}

-- The step neither changes the graph nor turns elements into something else.
pub KeepsElements : Instruction → Type 0
KeepsElements i =
    (step : String) × (step_name i ≡ some step)
    × (contains mutating_steps step ≡ false)
    × (contains transforming_steps step ≡ false)

abbrev Plain : String → Type 0
Plain step = (contains mutating_steps step ≡ false) × (contains transforming_steps step ≡ false)

abbrev plain : List String → Bool
plain [] = true
plain (step ∷ steps) =
    not (contains mutating_steps step || contains transforming_steps step) && plain steps

plain-Plain : (steps : List String) → plain steps ≡ true → All Plain steps
plain-Plain [] h = tt
plain-Plain (step ∷ steps) h = ((ground arith, ground arith), plain-Plain steps (ground arith))

start_steps-Plain : All Plain (keys start_steps)
start_steps-Plain =
    plain-Plain (keys start_steps)
      (unfold keys start_steps mutating_steps transforming_steps string_dec in refl)

navigation_steps-Plain : All Plain (keys navigation_steps)
navigation_steps-Plain =
    plain-Plain (keys navigation_steps)
      (unfold keys navigation_steps mutating_steps transforming_steps string_dec in refl)

preserving_steps-Plain : All Plain preserving_steps
preserving_steps-Plain =
    plain-Plain preserving_steps
      (unfold preserving_steps mutating_steps transforming_steps string_dec in refl)

Yields-KeepsElements :
    {is : List Instruction} {k : TraverserKind} → Yields is k → All KeepsElements is
unfolding KeepsElements
Yields-KeepsElements (start i step {k} named starts) =
    let p = All-keys Plain start_steps start_steps-Plain step k starts in
    ((step, named, p.0, p.1), tt)
Yields-KeepsElements (navigate before i step {j} {k} y named goes) =
    All-append KeepsElements before (i ∷ []) (Yields-KeepsElements y) (
      let p = All-keys Plain navigation_steps navigation_steps-Plain step k goes in
      ((step, named, p.0, p.1), tt))
Yields-KeepsElements (preserve before i step y named stays kept) =
    All-append KeepsElements before (i ∷ []) (Yields-KeepsElements y) (
      let p = All-contains Plain preserving_steps preserving_steps-Plain step kept in
      ((step, named, p.0, p.1), tt))

-- Among the steps of an accepted traversal itself none changes the graph, and none turns elements into other
-- results. The anonymous traversals among the arguments of its steps are not looked into, and may have any steps.
pub validate_element_traversal-KeepsElements :
    (is : List Instruction) {k : TraverserKind}
    → validate_element_traversal is ≡ ok k
    → All KeepsElements is
validate_element_traversal-KeepsElements is {k} h =
    Yields-KeepsElements ((validate_element_traversal-Yields is k).0 h)

-- Whether the step starts a traversal, at the first position, or navigates or keeps the elements, at another.
abbrev pub supported : ℕ → String → Bool
supported zero s = has_key s start_steps
supported (suc n) s = has_key s navigation_steps || contains preserving_steps s

-- What the loop says of the place at which it stops: its instruction has no name, or names a step that is not
-- supported there.
abbrev pub Says : Instruction → ℕ → TraversalError → Type 0
Says i position e =
    ((e ≡ malformed position) × (step_name i ≡ none))
    ⊎ ((s : String) × (e ≡ unsupported_step s position)
        × (step_name i ≡ some s)
        × (supported position s ≡ false))

-- Each instruction from the position on names a step that is supported where it stands.
pub AllSupported : ℕ → List Instruction → Type 0
AllSupported n [] = Unit
AllSupported n (i ∷ is) =
    ((s : String) × (step_name i ≡ some s) × (supported n s ≡ true)) × AllSupported (suc n) is

pub record StopsAt (n : ℕ) (is : List Instruction) (e : TraversalError) : Type 0 where
  pub before : List Instruction
  pub at : Instruction
  pub after : List Instruction
  pub split : is ≡ before ++ (at ∷ after)
  pub passed : AllSupported n before
  pub says : Says at (n + length before) e

next_kind-eq-err :
    (n : ℕ) (k : Option TraverserKind) (step : String) {e : TraversalError}
    → next_kind n k step ≡ err e
    → (e ≡ unsupported_step step n) × (supported n step ≡ false)
unfolding next_kind
next_kind-eq-err zero k step h = ground arith
next_kind-eq-err (suc n) k step h = ground arith

next_kind-supported :
    (n : ℕ) (k next : Option TraverserKind) (step : String)
    → next_kind n k step ≡ ok next
    → supported n step ≡ true
unfolding next_kind
next_kind-supported zero k next step h = ground arith
next_kind-supported (suc n) k next step h = ground arith

-- From the second round on a kind is known.
next_kind-some :
    (n : ℕ) (k : Option TraverserKind) (j : TraverserKind) (step : String)
    → (n ≡ 0) ⊎ (k ≡ some j)
    → {next : Option TraverserKind} → next_kind n k step ≡ ok next
    → (j' : TraverserKind) × (next ≡ some j')
unfolding next_kind
next_kind-some n k j step known h = ground arith

StopsAt-later :
    {n : ℕ} {is : List Instruction} {e : TraversalError} (i : Instruction) (step : String)
    → step_name i ≡ some step
    → supported n step ≡ true
    → StopsAt (suc n) is e
    → StopsAt n (i ∷ is) e
unfolding AllSupported
StopsAt-later {n} {is} {e} i step named fits s =
    let same : suc n + length s.before ≡ n + suc (length s.before) = omega arith in
    record {
      before = i ∷ s.before;
      at = s.at;
      after = s.after;
      split = ap (λ xs. i ∷ xs) s.split;
      passed = ((step, named, fits), s.passed);
      says = rw same at s.says;
    }

StopsAt-here :
    {n : ℕ} {e : TraversalError} (i : Instruction) (is : List Instruction)
    → Says i n e
    → StopsAt n (i ∷ is) e
unfolding AllSupported
StopsAt-here {n} {e} i is says =
    let same : n ≡ n + length {A = Instruction} [] = omega arith in
    record { before = []; at = i; after = is; split = refl; passed = tt; says = rw same at says }

kind_from-StopsAt :
    (n : ℕ) (j : TraverserKind) (is : List Instruction) {e : TraversalError}
    → kind_from (suc n) (some j) is ≡ err e
    → StopsAt (suc n) is e
unfolding kind_from AllSupported
kind_from-StopsAt n j [] h = absurd (cc)
kind_from-StopsAt n j (i ∷ is) {e} h = elim (Option-cases (step_name i)) [
  | inl unnamed ↦ StopsAt-here i is (inl (ground arith, unnamed))
  | inr (step, named) ↦ elim (Result-cases (next_kind (suc n) (some j) step)) [
    | inl (failure, failed) ↦
        let why = next_kind-eq-err (suc n) (some j) step failed in
        StopsAt-here i is (inr (step, ground (arith, why.0), named, why.1))
    | inr (next, stepped) ↦
        let (j', same) = next_kind-some (suc n) (some j) j step (inr refl) stepped in
        StopsAt-later i step named (next_kind-supported _ _ next step stepped)
          (kind_from-StopsAt (suc n) j' is (ground arith))
  ]
]

first-StopsAt :
    (i : Instruction) (is : List Instruction) {e : TraversalError}
    → kind_from 0 none (i ∷ is) ≡ err e
    → StopsAt 0 (i ∷ is) e
unfolding kind_from AllSupported
first-StopsAt i is {e} h = elim (Option-cases (step_name i)) [
  | inl unnamed ↦ StopsAt-here i is (inl (ground arith, unnamed))
  | inr (step, named) ↦ elim (Result-cases (next_kind 0 none step)) [
    | inl (failure, failed) ↦
        let why = next_kind-eq-err 0 none step failed in
        StopsAt-here i is (inr (step, ground (arith, why.0), named, why.1))
    | inr (next, stepped) ↦
        let (j, same) = next_kind-some 0 none vertex step (inl refl) stepped in
        StopsAt-later i step named (next_kind-supported _ _ next step stepped)
          (kind_from-StopsAt 0 j is (ground arith))
  ]
]

-- A traversal is refused because it is empty, or because of the first of its instructions that is not accepted,
-- whose position the exception gives: a malformed one, or a step that is not supported there, since it does not
-- start a traversal, or neither navigates nor keeps the elements. The assertion that the kind is known never
-- fails.
pub validate_element_traversal-StopsAt :
    (is : List Instruction) {e : TraversalError}
    → validate_element_traversal is ≡ err e
    → ((is ≡ []) × (e ≡ empty_traversal)) ⊎ StopsAt 0 is e
unfolding validate_element_traversal
validate_element_traversal-StopsAt [] h = inl (refl, ground arith)
validate_element_traversal-StopsAt (i ∷ is) h = inr (first-StopsAt i is h)
