-- ===== src/Gremlin/Traversal.antt =====
-- `_validate_element_traversal` and `_unsupported_step` of gremlin/client.py.
pub mod Laws
pub mod Refusals
use Prim.Native.String
use semconv_graph.Base.{
  ℕ, suc, String, Bool, true, false, Option, none, some, List, [], ◌∷◌, Result, ok, err, ◌>>=◌,
  expect, contains, string_eq, nat_eq, ◌==◌, if◌then◌else◌,
}
use semconv_graph.Base.Dict.{Dict, lookup}
use semconv_graph.Gremlin.Steps.{
  TraverserKind, start_steps, navigation_steps, preserving_steps, transforming_steps,
  mutating_steps,
}

-- One part of a bytecode instruction: a text, the bytecode of an anonymous traversal, or any other Python
-- object. The instructions of nested bytecode follow each other, each one opened by `new_step`.
mutual
  pub data Operand : Type 0 where
    text : String → Operand
    object : Operand
    nested : Bytecode → Operand

  pub data Bytecode : Type 0 where
    finish : Bytecode
    new_step : Bytecode → Bytecode
    operand : Operand → Bytecode → Bytecode

-- An instruction is a list, the name of the step first.
abbrev pub Instruction : Type 0
Instruction = List Operand

-- Why a step is not supported.
pub data Reason : Type 0 where
  transforms mutates ambiguous : Reason

pub data TraversalError : Type 0 where
  empty_traversal missing_kind : TraversalError
  malformed : ℕ → TraversalError
  unsupported : String → ℕ → Reason → TraversalError

unfoldable pub unsupported_step : String → ℕ → TraversalError
unsupported_step step position = unsupported step position (
    if contains transforming_steps step
    then transforms
    else if contains mutating_steps step
    then mutates
    else ambiguous)

-- `instruction[0]`, if it is there and is a text.
abbrev pub step_name : Instruction → Option String
step_name (text step ∷ _) = some step
step_name _ = none

-- The kind after one instruction.
unfoldable pub next_kind :
    ℕ → Option TraverserKind → String → Result TraversalError (Option TraverserKind)
next_kind position kind step =
    if position == 0
    then elim (lookup step start_steps) [
      | none ↦ err (unsupported_step step position)
      | some k ↦ ok (some k)
    ]
    else elim (lookup step navigation_steps) [
      | some k ↦ ok (some k)
      | none ↦
          if contains preserving_steps step then ok kind else err (unsupported_step step position)
    ]

-- The loop from one position on.
unfoldable pub kind_from :
    ℕ → Option TraverserKind → List Instruction → Result TraversalError TraverserKind
kind_from position kind [] = expect kind missing_kind
kind_from position kind (instruction ∷ rest) = do
  step ← expect (step_name instruction) (malformed position)
  next ← next_kind position kind step
  kind_from (suc position) next rest

unfoldable pub validate_element_traversal : List Instruction → Result TraversalError TraverserKind
validate_element_traversal [] = err empty_traversal
validate_element_traversal (instruction ∷ rest) = kind_from 0 none (instruction ∷ rest)
