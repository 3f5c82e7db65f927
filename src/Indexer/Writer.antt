-- ===== src/Indexer/Writer.antt =====
-- `ArangoWriter` of indexer.py, which makes the calls of the writer by those of an ArangoDB client.
-- The client is a record of two calls; its answer to a delete is `True`, a list with a result for
-- each key, or anything else.
pub mod Faithful
use semconv_graph.Base.{
  ℕ, String, Bool, true, false, not, ◌&&◌, ◌||◌, Option, none, some, List, [], ◌∷◌, ◌≡◌, ◌↔◌, refl,
  sym, ap, ◌∙◌, arith, Eq, ◌==◌, string_eq, nat_eq, if◌then◌else◌, Result, ok, err, contains, All,
}
use semconv_graph.Base.Actions.{Action, lift, continue, continue-eq-ok, >>=-keeps, ◌>>=◌}
use semconv_graph.Base.Dict.{Dict, lookup}
use semconv_graph.Indexer.Failures.{Failure, invalid_delete_result, delete_failed}
use semconv_graph.Indexer.Json.{Fields}
use semconv_graph.Indexer.Intake.{OffsetAndMetadata}
use semconv_graph.Indexer.Plans.Laws.{find_document}
use semconv_graph.Indexer.Poll.{Boundary}
use semconv_graph.Indexer.Poll.Writing.{IsFaithful}

pub data DeleteResult : Type 0 where
  document : DeleteResult
  server_error : ℕ → DeleteResult

pub data DeleteResults : Type 0 where
  all_true : DeleteResults
  listed : List DeleteResult → DeleteResults
  other : DeleteResults

-- The keyword arguments of `insert_many` and of `delete_many`.
pub record InsertOptions : Type 0 where
  pub overwrite_mode : String
  pub silent : Bool
  pub raise_on_document_error : Bool

pub record DeleteOptions : Type 0 where
  pub check_rev : Bool
  pub raise_on_document_error : Bool

pub record Client (TopicPartition : Type 0) : Type 1 where
  pub State : Type 0
  pub insert_many : InsertOptions → String → List Fields → Action Failure State (Unit {0})
  pub delete_many : DeleteOptions → String → List String → Action Failure State DeleteResults
  pub commit : Dict TopicPartition OffsetAndMetadata → Action Failure State (Unit {0})

abbrev pub replacing : InsertOptions
replacing = record { overwrite_mode = "replace"; silent = true; raise_on_document_error = true }

abbrev pub unchecked : DeleteOptions
unchecked = record { check_rev = false; raise_on_document_error = false }

abbrev pub document_not_found : ℕ
document_not_found = 1202

-- The loop over the results.
unfoldable pub check_results : String → List DeleteResult → Result Failure (Unit {0})
check_results collection [] = ok tt
check_results collection (document ∷ results) = check_results collection results
check_results collection (server_error code ∷ results) =
    let rest = check_results collection results in
    if not (code == document_not_found) then err (delete_failed collection code) else rest

unfoldable pub check_delete : String → DeleteResults → Result Failure (Unit {0})
check_delete collection all_true = ok tt
check_delete collection (listed results) = check_results collection results
check_delete collection other = err (invalid_delete_result collection)

module _ {TopicPartition : Type 0} (client : Client TopicPartition) where
  unfoldable pub delete_many : String → List String → Action Failure client.State (Unit {0})
  delete_many collection keys = do
    results ← client.delete_many unchecked collection keys
    lift (check_delete collection results)

  -- The boundary that `project_poll` is given.
  abbrev pub arango_writer : Boundary TopicPartition
  arango_writer = record {
    State = client.State;
    replace_many = client.insert_many replacing;
    delete_many = delete_many;
    commit = client.commit;
  }

-- No result is an error but that the document was not there.
abbrev pub IsHarmless : DeleteResult → Type 0
IsHarmless document = Unit
IsHarmless (server_error code) = code ≡ document_not_found

abbrev pub Harmless : DeleteResults → Type 0
Harmless all_true = Unit
Harmless (listed results) = All IsHarmless results
Harmless other = ⊥

check_results-Harmless :
    (c : String) (results : List DeleteResult)
    → (check_results c results ≡ ok tt) ↔ All IsHarmless results
unfolding check_results
check_results-Harmless c [] = (λ h. tt, λ h. refl)
check_results-Harmless c (document ∷ results) = (
  λ h. (tt, (check_results-Harmless c results).0 h),
  λ h. (check_results-Harmless c results).1 h.1,
)
check_results-Harmless c (server_error code ∷ results) = (
  λ h. (ground arith, (check_results-Harmless c results).0 (ground arith)),
  λ h. ground (arith, h.0, (check_results-Harmless c results).1 h.1),
)

-- `delete_many` returns exactly if the client's answer shows no error but missing documents.
pub check_delete-Harmless :
    (c : String) (answer : DeleteResults) → (check_delete c answer ≡ ok tt) ↔ Harmless answer
unfolding check_delete
check_delete-Harmless c all_true = (λ h. tt, λ h. refl)
check_delete-Harmless c (listed results) = check_results-Harmless c results
check_delete-Harmless c other = (λ h. cc, λ h. absurd h)
