-- ===== src/Gremlin/Traversal/Laws.antt =====
-- Which traversals the client accepts, as a language described step by step.

use native.Mathlib.Decide.{ℕ_discrete}
use semconv_graph.Base.{
  ℕ, suc, String, true, Option, none, some, List, [], ◌∷◌, ◌++◌, ok, ◌>>=◌, expect, contains,
  string_eq, nat_eq, ◌≡◌, refl, sym, ap, ◌∙◌, arith, ◌⊎◌, inl, inr, Result-cases, Option-cases, ◌↔◌,
}
use semconv_graph.Base.Dict.{lookup}
use semconv_graph.Gremlin.Steps.{TraverserKind, start_steps, navigation_steps, preserving_steps}
use semconv_graph.Gremlin.Traversal.{
  Instruction, step_name, next_kind, kind_from, validate_element_traversal,
}

-- The traversals that end in elements of one kind: a start step, then at each step a navigation to
-- elements of its kind, or a step that keeps the elements.
pub data Yields : List Instruction → TraverserKind → Type 0 where
  start :
      (i : Instruction) (step : String) {k : TraverserKind}
      → step_name i ≡ some step
      → lookup step start_steps ≡ some k
      → Yields (i ∷ []) k
  navigate :
      (before : List Instruction) (i : Instruction) (step : String) {j k : TraverserKind}
      → Yields before j
      → step_name i ≡ some step
      → lookup step navigation_steps ≡ some k
      → Yields (before ++ (i ∷ [])) k
  preserve :
      (before : List Instruction) (i : Instruction) (step : String) {k : TraverserKind}
      → Yields before k
      → step_name i ≡ some step
      → lookup step navigation_steps ≡ none
      → contains preserving_steps step ≡ true
      → Yields (before ++ (i ∷ [])) k

append-nil : (xs : List Instruction) → xs ++ [] ≡ xs
append-nil [] = refl
append-nil (x ∷ xs) = ap (λ ys. x ∷ ys) (append-nil xs)

append_assoc : (xs ys zs : List Instruction) → (xs ++ ys) ++ zs ≡ xs ++ (ys ++ zs)
append_assoc [] ys zs = refl
append_assoc (x ∷ xs) ys zs = ap (λ s. x ∷ s) (append_assoc xs ys zs)

-- A round after the first, from elements of one kind.
next_kind-cases :
    (n : ℕ) (j : TraverserKind) (step : String) {next : Option TraverserKind}
    → next_kind (suc n) (some j) step ≡ ok next
    → (k : TraverserKind) × (next ≡ some k)
      × ((lookup step navigation_steps ≡ some k)
          ⊎ ((lookup step navigation_steps ≡ none)
              × (contains preserving_steps step ≡ true)
              × (j ≡ k)))
unfolding next_kind
next_kind-cases n j step h = ground arith

kind_from-parts :
    (n : ℕ) (j : TraverserKind) (i : Instruction) (after : List Instruction) {k : TraverserKind}
    → kind_from (suc n) (some j) (i ∷ after) ≡ ok k
    → (step : String) × (next : TraverserKind) × (step_name i ≡ some step)
      × (next_kind (suc n) (some j) step ≡ ok (some next))
      × (kind_from (suc (suc n)) (some next) after ≡ ok k)
unfolding kind_from
kind_from-parts n j i after {k} h = elim (Option-cases (step_name i)) [
  | inl unnamed ↦ absurd (ground arith)
  | inr (step, named) ↦ elim (Result-cases (next_kind (suc n) (some j) step)) [
    | inl (failure, failed) ↦ absurd (ground arith)
    | inr (next, stepped) ↦
        let (kind, same, _) = next_kind-cases n j step stepped in
        (step, kind, named, stepped ∙ ap ok same, ground arith)
  ]
]

kind_from-append :
    (n : ℕ) (k : TraverserKind) (xs ys : List Instruction) {j : TraverserKind}
    → kind_from (suc n) (some k) xs ≡ ok j
    → (m : ℕ) × (kind_from (suc n) (some k) (xs ++ ys) ≡ kind_from (suc m) (some j) ys)
unfolding kind_from
kind_from-append n k [] ys h = (n, ground arith)
kind_from-append n k (x ∷ xs) ys h =
    let (step, next, named, stepped, more) = kind_from-parts n k x xs h in
    let (m, onward) = kind_from-append (suc n) next xs ys more in
    (m, rw (named, expect, ◌>>=◌, stepped, ◌>>=◌) onward)

kind_from-Yields :
    (n : ℕ) (j : TraverserKind) (before after : List Instruction) {k : TraverserKind}
    → Yields before j
    → kind_from (suc n) (some j) after ≡ ok k
    → Yields (before ++ after) k
unfolding kind_from
kind_from-Yields n j before [] {k} y h =
    let same : j ≡ k = ground arith in rw (append-nil before, sym same) y
kind_from-Yields n j before (x ∷ after) y h =
    let (step, next, named, stepped, more) = kind_from-parts n j x after h in
    let (k, same, how) = next_kind-cases n j step stepped in
    let is : k ≡ next = ground arith in
    let grown : Yields (before ++ (x ∷ [])) next = elim how [
      | inl goes ↦ navigate before x step y named (goes ∙ ap some is)
      | inr (stays, kept, still) ↦ rw (sym (still ∙ is)) (preserve before x step y named stays kept)
    ] in
    rw (sym (append_assoc before (x ∷ []) after))
      (kind_from-Yields (suc n) next (before ++ (x ∷ [])) after grown more)

first-parts :
    (i : Instruction) (after : List Instruction) {k : TraverserKind}
    → kind_from 0 none (i ∷ after) ≡ ok k
    → (step : String) × (next : TraverserKind) × (step_name i ≡ some step)
      × (lookup step start_steps ≡ some next)
      × (kind_from 1 (some next) after ≡ ok k)
unfolding kind_from next_kind ℕ_discrete
first-parts i after {k} h = elim (Option-cases (step_name i)) [
  | inl unnamed ↦ absurd (ground arith)
  | inr (step, named) ↦ elim (Option-cases (lookup step start_steps)) [
    | inl unknown ↦ absurd (ground arith)
    | inr (next, starts) ↦ (step, next, named, starts, ground arith)
  ]
]

validate-append :
    (before : List Instruction) (i : Instruction) (step : String) {j k : TraverserKind}
    → validate_element_traversal before ≡ ok j
    → step_name i ≡ some step
    → ((n : ℕ) → next_kind (suc n) (some j) step ≡ ok (some k))
    → validate_element_traversal (before ++ (i ∷ [])) ≡ ok k
unfolding validate_element_traversal kind_from
validate-append [] i step h named goes = absurd (cc)
validate-append (x ∷ xs) i step {j} {k} h named goes =
    let (first, next, called, starts, more) = first-parts x xs h in
    let (m, onward) = kind_from-append 0 next xs (i ∷ []) more in
    let begun : next_kind 0 none first ≡ ok (some next) =
      unfold next_kind ℕ_discrete in rw starts in
    rw (called, expect, ◌>>=◌, begun, ◌>>=◌, onward, named, expect, ◌>>=◌, goes m, ◌>>=◌)

Yields-validate :
    {is : List Instruction} {k : TraverserKind} → Yields is k → validate_element_traversal is ≡ ok k
unfolding validate_element_traversal kind_from
Yields-validate (start i step {k} named starts) =
    let begun : next_kind 0 none step ≡ ok (some k) = unfold next_kind ℕ_discrete in rw starts in
    rw (named, expect, ◌>>=◌, begun, ◌>>=◌)
Yields-validate (navigate before i step y named goes) =
    validate-append before i step (Yields-validate y) named (λ n. unfold next_kind in ground arith)
Yields-validate (preserve before i step y named stays kept) =
    validate-append before i step (Yields-validate y) named (λ n. unfold next_kind in ground arith)

validate-Yields :
    (is : List Instruction) {k : TraverserKind} → validate_element_traversal is ≡ ok k → Yields is k
unfolding validate_element_traversal
validate-Yields [] h = absurd (cc)
validate-Yields (i ∷ after) h =
    let (step, next, named, starts, more) = first-parts i after h in
    kind_from-Yields 0 next (i ∷ []) after (start i step named starts) more

-- A traversal is accepted with a kind of elements exactly if it starts at vertices or edges, each
-- further step navigates or keeps the elements, and the last navigation gives this kind.
pub validate_element_traversal-Yields :
    (is : List Instruction) (k : TraverserKind)
    → (validate_element_traversal is ≡ ok k) ↔ Yields is k
validate_element_traversal-Yields is k = (validate-Yields is, Yields-validate)
