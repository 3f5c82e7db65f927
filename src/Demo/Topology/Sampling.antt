-- ===== src/Demo/Topology/Sampling.antt =====
-- The edges that are sampled for one tick.
use semconv_graph.Base.{
  ℕ, zero, suc, ◌-◌, ◌<◌, ◌≤◌, true, some, List, [], ◌∷◌, ◌++◌, Eq, ok, length, take, drop,
  get_elem?, length-append, ◌≡◌, refl, arith, contains, All,
}
use semconv_graph.Demo.Topology.{Rng, Topology, choice, choices, sample}
use semconv_graph.Demo.Topology.Laws.{Fair, choice-drawn}

module _ {Edge : Type 0} ⦃e : Eq Edge⦄ where
  contains-get_elem? :
      (xs : List Edge) (i : ℕ) {x : Edge} → get_elem? xs i ≡ some x → contains xs x ≡ true
  contains-get_elem? [] i h = absurd (cc)
  contains-get_elem? (y ∷ xs) zero h = ground arith
  contains-get_elem? (y ∷ xs) (suc i) h = ground (arith, contains-get_elem? xs i h)

  length-take_max : (n : ℕ) (xs : List Edge) → length (take n xs) ≤ n
  length-take_max zero xs = omega arith
  length-take_max (suc n) [] = omega arith
  length-take_max (suc n) (x ∷ xs) = omega (arith, length-take_max n xs)

  module _ (R : Rng) where
    choices-drawn :
        (n : ℕ) (xs : List Edge) (rng : R.State)
        → Fair R
        → 0 < length xs
        → (drawn : List Edge) × ((choices R n xs rng).0 ≡ ok drawn)
          × (length drawn ≡ n)
          × All (λ x. contains xs x ≡ true) drawn
    unfolding choices
    choices-drawn zero xs rng fair there = ([], refl, refl, tt)
    choices-drawn (suc n) xs rng fair there =
        let (i, x, found, given) = choice-drawn R xs rng fair there in
        let (rest, more, sized, active) = choices-drawn n xs (choice R xs rng).1 fair there in
        (x ∷ rest, ground arith, omega arith, (contains-get_elem? xs i found, active))

    -- What one sample takes.
    pub record IsSampled (t : Topology Edge) (count : ℕ) (rng : R.State) : Type 0 where
      pub drawn : List Edge
      pub returns :
          (sample R t count rng).0
          ≡ ok (take count t.pending ++ drawn, record t { pending = drop count t.pending })
      pub sized : length (take count t.pending ++ drawn) ≡ count
      pub active : All (λ x. contains t.active x ≡ true) drawn

    -- With an active edge, a sample never raises: it has as many edges as asked for, first the pending ones
    -- in their order, which are then no longer pending, and after them only active ones.
    pub sample-IsSampled :
        (t : Topology Edge) (count : ℕ) (rng : R.State)
        → Fair R
        → 0 < length t.active
        → IsSampled t count rng
    unfolding sample
    sample-IsSampled t count rng fair there =
        let (drawn, given, sized, active) =
          choices-drawn (count - length (take count t.pending)) t.active rng fair there in
        let most = length-take_max count t.pending in
        let total = length-append (take count t.pending) drawn in
        record { drawn = drawn; returns = ground arith; sized = omega arith; active = active }
