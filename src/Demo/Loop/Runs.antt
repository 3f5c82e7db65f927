-- ===== src/Demo/Loop/Runs.antt =====
-- The loop goes on until the sending or the sleeping of a round raises.
use semconv_graph.Base.{
  String, Option, none, some, Result, err, ℕ, ◌<◌, List, [], ◌∷◌, Eq, nat_eq, length, ok, ◌≡◌, All,
}
use semconv_graph.Demo.Config.{Config}
use semconv_graph.Demo.Topology.Laws.{IsTopology}
use semconv_graph.Demo.Loop.{RunState, Tick, LoopError, uncaught, send_and_sleep}

-- The first exception that sending or sleeping raises.
unfoldable pub first_raised : List Tick → Option String
first_raised [] = none
first_raised (tick ∷ ticks) =
    let later = first_raised ticks in elim (send_and_sleep tick) [ some x ↦ some x | none ↦ later ]

module _ {Edge : Type 0} ⦃e : Eq Edge⦄ where
  -- What holds between two rounds: an edge is active, and one is not.
  pub record IsRunning (edges : List Edge) (s : RunState Edge) : Type 0 where
    pub topology : IsTopology edges s.topology
    pub positive : 0 < s.topology.max_active_edges
    pub fewer : s.topology.max_active_edges < length edges
    pub alive : 0 < length s.topology.active

  -- The outcome of rounds, given the first exception that they meet.
  pub Goes :
      List Edge
      → ℕ
      → ℕ
      → Option String
      → Result LoopError (List (List Edge) × RunState Edge)
      → Type 0
  Goes edges requests many (some x) outcome = outcome ≡ err (uncaught x)
  Goes edges requests many none outcome =
      (sent : List (List Edge)) × (s' : RunState Edge) × (outcome ≡ ok (sent, s'))
      × (length sent ≡ many)
      × All (λ batch. length batch ≡ requests) sent
      × IsRunning edges s'
