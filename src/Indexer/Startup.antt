-- ===== src/Indexer/Startup.antt =====
-- The start of the initialization: `create_database`, `wait_for_database` and `initialize` of initialize.py.
-- Times are numbers of ticks.
pub mod Waiting
pub mod Whole
mod Tests
use semconv_graph.Base.{
  ℕ, zero, suc, ◌+◌, ◌-◌, String, Bool, true, false, Option, none, some, Result, ok, err, ltb, ◌==◌,
  string_eq, if◌then◌else◌,
}
use semconv_graph.Base.Actions.{Action, pure, lift, ◌>>=◌, ◌>>◌, continue, when}
use semconv_graph.Indexer.Schema.{GraphSchema}
use semconv_graph.Indexer.Database.{
  TopologyFailure, timed_out, no_such_database, client_error, Database,
}
use semconv_graph.Indexer.Initialize.{Outcome, ensure_topology}

-- `time.monotonic` and `time.sleep`, the ticks of a second, and which errors of the client are an
-- `OSError` or a `RuntimeError`.
pub record Clock (S : Type 0) : Type 0 where
  pub monotonic : S → ℕ × S
  pub sleep : ℕ → S → S
  pub second : ℕ
  pub is_retried : String → Bool

-- `except (OSError, RuntimeError)`. A `TopologyInitializationError` is a `RuntimeError`.
abbrev pub retried : (String → Bool) → TopologyFailure → Bool
retried is_retried (client_error e) = is_retried e
retried is_retried _ = true

abbrev pub minimum : ℕ → ℕ → ℕ
minimum a b = if ltb b a then b else a

module _ (D : Database) (C : Clock D.State) where
  -- The loop of `wait_for_database`, on fuel. The error that the message quotes is left out.
  unfoldable pub poll_version : ℕ → ℕ → D.State → Option (Result TopologyFailure String × D.State)
  poll_version zero deadline s = none
  poll_version (suc fuel) deadline s =
      let asked = C.monotonic s in
      let answer = D.version asked.1 in
      let failed = C.monotonic answer.1 in
      let rest =
        poll_version fuel deadline (C.sleep (minimum C.second (deadline - failed.0)) failed.1) in
      if ltb asked.0 deadline
      then elim answer.0 [
        | ok version ↦ some (ok version, answer.1)
        | err e ↦ if retried C.is_retried e then rest else some (err e, answer.1)
      ]
      else some (err timed_out, asked.1)

  unfoldable pub wait_for_database :
      ℕ → ℕ → D.State → Option (Result TopologyFailure String × D.State)
  wait_for_database fuel deadline_seconds s =
      let start = C.monotonic s in poll_version fuel (start.0 + deadline_seconds) start.1

  -- `initialize` with a database that is there, after the wait.
  unfoldable pub initialize :
      ℕ → ℕ → String → GraphSchema → D.State → Option (Result TopologyFailure Outcome × D.State)
  initialize fuel deadline_seconds arango_graph schema s =
      elim (wait_for_database fuel deadline_seconds s) [
        | none ↦ none
        | some r ↦ some (
            continue r.0
              (λ version.
                ensure_topology D schema
                  (if arango_graph == "" then schema.graph_name else arango_graph))
              r.1)
      ]

-- What `create_database` uses of the client: the databases that the server has.
pub record System : Type 1 where
  pub State : Type 0
  pub has_database : String → Action TopologyFailure State Bool
  pub create_database : String → Action TopologyFailure State (Unit {0})

-- `create_database`, which raises or makes the database if it is missing, before it connects.
module _ (system : System) where
  unfoldable pub create_database : Bool → String → Action TopologyFailure system.State (Unit {0})
  create_database allow_database_creation arango_database = do
    there ← system.has_database arango_database
    if there
        then pure tt
        else if allow_database_creation
        then system.create_database arango_database
        else lift (err no_such_database)
