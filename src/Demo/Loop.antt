-- ===== src/Demo/Loop.antt =====
-- The loop of `run` of main.py. A round is given by what `time.monotonic` reads in it, in ticks, and by what
-- `_send` and `time.sleep` do in it; `build_request` is what it does to the random generator.
pub mod Runs
mod Tests
use semconv_graph.Base.{
  ℕ, String, ◌+◌, zero, Option, none, some, List, [], ◌∷◌, Eq, if◌then◌else◌, leb, Result, ok, err,
}
use semconv_graph.Demo.Config.{ℤ, pos, negsuc, Floats, Config}
use semconv_graph.Demo.Topology.{Rng, TopologyError, Topology, make_topology, advance, sample}

-- A count of a valid configuration.
abbrev pub count_of : ℤ → ℕ
count_of (pos n) = n
count_of (negsuc n) = 0

-- `topology` and `next_change`.
pub record RunState (Edge : Type 0) : Type 0 where
  pub topology : Topology Edge
  pub next_change : ℕ

-- What `_send` does: it returns, or raises an `OSError` or another exception.
pub data Sending : Type 0 where
  exported failed : Sending
  raises : String → Sending

-- What a round meets: the clock, the sending, and what `time.sleep` raises, if it does.
pub record Tick : Type 0 where
  pub now : ℕ
  pub sending : Sending
  pub sleeping : Option String

-- An exception of the topology, or one of `_send` or `time.sleep` that `run` does not catch.
pub data LoopError : Type 0 where
  of_topology : TopologyError → LoopError
  uncaught : String → LoopError

-- The end of a round, from `try` on: what it raises. An `OSError` is caught and printed.
unfoldable pub send_and_sleep : Tick → Option String
send_and_sleep tick = elim tick.sending [
  | raises x ↦ some x
  | exported ↦ tick.sleeping
  | failed ↦ tick.sleeping
]

module _ {Edge : Type 0} ⦃e : Eq Edge⦄ (R : Rng) (build_request : List Edge → R.State → R.State)
    (change_interval requests_per_tick : ℕ) where
  -- The change of the topology, if it is due.
  unfoldable pub change :
      ℕ → RunState Edge → R.State → Result TopologyError (RunState Edge) × R.State
  change now s rng =
      let (advanced, next) = advance R s.topology rng in
      if leb s.next_change now
      then (
        elim advanced [
          | err failure ↦ err failure
          | ok (edges, topology) ↦
              ok (record { topology = topology; next_change = now + change_interval })
        ],
        next,
      )
      else (ok s, rng)

  -- One round of the loop: the edges of the traces that are sent, and the state after it.
  unfoldable pub round :
      Tick → RunState Edge → R.State → Result LoopError (List Edge × RunState Edge) × R.State
  round tick s rng =
      let (changed, next) = change tick.now s rng in
      elim changed [
        | err failure ↦ (err (of_topology failure), next)
        | ok s' ↦
            let (sampled, last) = sample R s'.topology requests_per_tick next in
            elim sampled [
              | err failure ↦ (err (of_topology failure), last)
              | ok (edges, topology) ↦ (
                elim (send_and_sleep tick) [
                  | some x ↦ err (uncaught x)
                  | none ↦ ok (edges, record s' { topology = topology })
                ],
                build_request edges last,
              )
            ]
      ]

  -- The rounds, until one raises.
  unfoldable pub rounds :
      List Tick
      → RunState Edge
      → R.State
      → Result LoopError (List (List Edge) × RunState Edge) × R.State
  rounds [] s rng = (ok ([], s), rng)
  rounds (tick ∷ ticks) s rng =
      let (done, next) = round tick s rng in
      elim done [
        | err failure ↦ (err failure, next)
        | ok (edges, s') ↦
            let (rest, last) = rounds ticks s' next in
            (
              elim rest [ err failure ↦ err failure | ok (sent, s'') ↦ ok (edges ∷ sent, s'') ],
              last,
            )
      ]

-- The state before the loop, for the edges as `shuffle` has put them and the first reading of the clock.
unfoldable pub start : {F : Floats} {Edge : Type 0} → Config F → List Edge → ℕ → ℕ → RunState Edge
start c shuffled now change_interval = record {
  topology = make_topology shuffled (count_of c.initial_edges) (count_of c.max_active_edges);
  next_change = now + change_interval;
}
