-- ===== src/Demo/Topology.antt =====
-- `Topology` of main.py. The type of edges and the random generator are arguments.
pub mod Laws
pub mod Sampling
use semconv_graph.Base.{
  ℕ, zero, suc, ◌+◌, ◌-◌, Bool, true, false, Option, none, some, List, [], ◌∷◌, ◌++◌, Eq, ◌==◌,
  if◌then◌else◌, Result, ok, err, leb, length, take, drop, get_elem?,
}

-- `random.Random`: an index below a bound, as `choice` draws it.
pub record Rng : Type 1 where
  pub State : Type 0
  pub below : ℕ → State → ℕ × State

-- `IndexError`, of `pop` and of `choice` on an empty list.
pub data TopologyError : Type 0 where
  pop_from_empty choice_from_empty : TopologyError

pub record Topology (Edge : Type 0) : Type 0 where
  pub max_active_edges : ℕ
  pub active : List Edge
  pub inactive : List Edge
  pub pending : List Edge

-- `__init__`, for the edges as `shuffle` has put them.
unfoldable pub make_topology : {Edge : Type 0} → List Edge → ℕ → ℕ → Topology Edge
make_topology shuffled initial_edges max_active_edges = record {
  max_active_edges = max_active_edges;
  active = take initial_edges shuffled;
  inactive = drop initial_edges shuffled;
  pending = take initial_edges shuffled;
}

module _ {Edge : Type 0} ⦃e : Eq Edge⦄ where
  -- `xs.remove(x)`, for an item of the list.
  unfoldable pub remove : Edge → List Edge → List Edge
  remove x [] = []
  remove x (y ∷ ys) = if x == y then ys else y ∷ remove x ys

  -- The end of `advance`, which introduces an edge.
  abbrev pub introduce : Edge → Topology Edge → Topology Edge
  introduce introduced t = record t {
    active = t.active ++ (introduced ∷ []);
    pending = t.pending ++ (introduced ∷ []);
  }

  abbrev pub retire : Edge → Topology Edge → Topology Edge
  retire retired t = record t {
    active = remove retired t.active;
    inactive = t.inactive ++ (retired ∷ []);
  }

  module _ (R : Rng) where
    -- `rng.choice(xs)`
    unfoldable pub choice : List Edge → R.State → Result TopologyError Edge × R.State
    choice xs rng =
        let (i, next) = R.below (length xs) rng in
        elim (get_elem? xs i) [ none ↦ (err choice_from_empty, rng) | some x ↦ (ok x, next) ]

    -- `advance`: the retired edge, if there is one, and the introduced edge.
    unfoldable pub advance :
        Topology Edge
        → R.State
        → Result TopologyError ((Option Edge × Edge) × Topology Edge) × R.State
    advance t rng = elim t.inactive [
      | [] ↦ (err pop_from_empty, rng)
      | introduced ∷ rest ↦
          let popped : Topology Edge = record t { inactive = rest } in
          if leb t.max_active_edges (length t.active)
          then (let (drawn, next) = choice t.active rng in
              elim drawn [
                | err failure ↦ (err failure, next)
                | ok retired ↦ (
                  ok ((some retired, introduced), introduce introduced (retire retired popped)),
                  next,
                )
              ])
          else (ok ((none, introduced), introduce introduced popped), rng)
    ]

module _ {Edge : Type 0} ⦃e : Eq Edge⦄ (R : Rng) where
  -- `rng.choice(xs)`, `n` times.
  unfoldable pub choices : ℕ → List Edge → R.State → Result TopologyError (List Edge) × R.State
  choices zero xs rng = (ok [], rng)
  choices (suc n) xs rng =
      let (drawn, next) = choice R xs rng in
      let (rest, last) = choices n xs next in
      elim drawn [
        | err failure ↦ (err failure, next)
        | ok x ↦ (elim rest [ err failure ↦ err failure | ok more ↦ ok (x ∷ more) ], last)
      ]

  -- `sample`: the pending edges first, then edges drawn from the active ones.
  unfoldable pub sample :
      Topology Edge → ℕ → R.State → Result TopologyError (List Edge × Topology Edge) × R.State
  sample t count rng =
      let selected = take count t.pending in
      let (drawn, next) = choices (count - length selected) t.active rng in
      (
        elim drawn [
          | err failure ↦ err failure
          | ok more ↦ ok (selected ++ more, record t { pending = drop count t.pending })
        ],
        next,
      )
