-- ===== src/Demo/Tests.antt =====
-- The theorems at a topology of three edges, which are numbers here.
use native.Mathlib.Decide.{ℕ_discrete}
use semconv_graph.Base.{ℕ, suc, some, List, [], ◌∷◌, ok, ◌≡◌, refl, arith, nat_eq}
use semconv_graph.Demo.Topology.{Rng, make_topology, advance, choice, remove}
use semconv_graph.Demo.Topology.Sampling.{IsSampled, sample-IsSampled}
use semconv_graph.Demo.Topology.Laws.{
  Fair, IsAdvanced, make_topology-IsTopology, advance-IsAdvanced,
}

abbrev pub edges : List ℕ
edges = 7 ∷ 8 ∷ 9 ∷ []

-- A generator that always draws the first index.
abbrev pub first : Rng
first = record { State = ℕ; below = λ n s. (0, suc s) }

pub first-Fair : Fair first
unfolding Fair
first-Fair n s h = h

advance-IsAdvanced_example : IsAdvanced first edges (make_topology edges 1 2) 0
advance-IsAdvanced_example =
    advance-IsAdvanced first edges (make_topology edges 1 2) 0 first-Fair
      (make_topology-IsTopology edges 1 2 (ground arith)) (unfold make_topology in ground arith)
      (unfold make_topology in ground arith)

full_topology :
    (advance {Edge = ℕ} first
      (record { max_active_edges = 2; active = 7 ∷ 8 ∷ []; inactive = 9 ∷ []; pending = [] })
      0).0
    ≡ ok (
      (some 7, 9),
      record { max_active_edges = 2; active = 8 ∷ 9 ∷ []; inactive = 7 ∷ []; pending = 9 ∷ [] },
    )
unfolding advance choice remove ℕ_discrete
full_topology = refl

sample-IsSampled_example : IsSampled first (make_topology edges 1 2) 3 0
sample-IsSampled_example =
    sample-IsSampled first (make_topology edges 1 2) 3 0 first-Fair
      (unfold make_topology in ground arith)
