-- ===== src/Demo/Topology/Laws.antt =====
-- The topology changes without losing an edge or exceeding its bound.
use semconv_graph.Base.{
  ℕ, zero, suc, ◌+◌, ◌<◌, ◌≤◌, Option, none, some, List, [], ◌∷◌, ◌++◌, Eq, ◌==◌, if◌then◌else◌, ok,
  leb, length, take, drop, get_elem?, length-append, ◌≡◌, inl, inr, refl, sym, ap, arith,
  Bool-cases, ◌↔◌, List-cases,
}
use semconv_graph.Demo.Topology.{
  Rng, Topology, make_topology, remove, choice, introduce, retire, advance,
}

-- `below` draws an index that is below its bound.
unfoldable pub Fair : Rng → Type 0
Fair R = (n : ℕ) (s : R.State) → 0 < n → (R.below n s).0 < n

get_elem?-lt :
    {A : Type 0} (xs : List A) (i : ℕ) → i < length xs → (x : A) × (get_elem? xs i ≡ some x)
get_elem?-lt [] i h = absurd (ground arith)
get_elem?-lt (x ∷ xs) zero h = (x, refl)
get_elem?-lt (x ∷ xs) (suc i) h = get_elem?-lt xs i (ground arith)

module _ {Edge : Type 0} ⦃e : Eq Edge⦄ where
  -- How often an edge occurs.
  unfoldable pub count : Edge → List Edge → ℕ
  count x [] = 0
  count x (y ∷ ys) = (if x == y then 1 else 0) + count x ys

  count-append : (x : Edge) (xs ys : List Edge) → count x (xs ++ ys) ≡ count x xs + count x ys
  unfolding count
  count-append x [] ys = omega arith
  count-append x (y ∷ xs) ys = omega (arith, count-append x xs ys)

  count-remove :
      (x y : Edge) (xs : List Edge) (i : ℕ)
      → get_elem? xs i ≡ some y
      → count x (remove y xs) + count x (y ∷ []) ≡ count x xs
  unfolding count remove
  count-remove x y [] i h = absurd (cc)
  count-remove x y (z ∷ xs) zero h = ground arith
  count-remove x y (z ∷ xs) (suc i) h = ground (arith, count-remove x y xs i)

  length-remove :
      (y : Edge) (xs : List Edge) (i : ℕ)
      → get_elem? xs i ≡ some y
      → length (remove y xs) + 1 ≡ length xs
  unfolding remove
  length-remove y [] i h = absurd (cc)
  length-remove y (z ∷ xs) zero h = ground arith
  length-remove y (z ∷ xs) (suc i) h = ground (arith, length-remove y xs i)

  -- The edges are the active and the inactive ones together, and at most `max_active_edges` are active.
  pub record IsTopology (edges : List Edge) (t : Topology Edge) : Type 0 where
    pub complete : (x : Edge) → count x t.active + count x t.inactive ≡ count x edges
    pub sized : length t.active + length t.inactive ≡ length edges
    pub bounded : length t.active ≤ t.max_active_edges

  append-nil : (xs : List Edge) → xs ++ [] ≡ xs
  append-nil [] = refl
  append-nil (x ∷ xs) = ap (λ ys. x ∷ ys) (append-nil xs)

  IsTopology-introduce :
      (edges : List Edge) (t : Topology Edge) (introduced : Edge) (rest : List Edge)
      → IsTopology edges t
      → t.inactive ≡ introduced ∷ rest
      → length t.active < t.max_active_edges
      → IsTopology edges (introduce introduced (record t { inactive = rest }))
  unfolding count
  IsTopology-introduce edges t introduced rest h there below =
      let sizes = length-append t.active (introduced ∷ []) in
      let sized = h.sized in
      record {
        complete = λ x.
            let counts = count-append x t.active (introduced ∷ []) in
            let before = h.complete x in
            let same : count x t.inactive ≡ count x (introduced ∷ rest) = ap (count x) there in
            omega arith;
        sized = let same = ap length there in omega arith;
        bounded = omega arith;
      }

  IsTopology-retire :
      (edges : List Edge) (t : Topology Edge) (retired : Edge) (i : ℕ)
      → IsTopology edges t
      → get_elem? t.active i ≡ some retired
      → IsTopology edges (retire retired t)
  IsTopology-retire edges t retired i h drawn =
      let sizes = length-append t.inactive (retired ∷ []) in
      let less = length-remove retired t.active i drawn in
      let sized = h.sized in
      let bounded = h.bounded in
      record {
        complete = λ x.
            let counts = count-append x t.inactive (retired ∷ []) in
            let before = h.complete x in
            let fewer = count-remove x retired t.active i drawn in omega arith;
        sized = omega arith;
        bounded = omega arith;
      }

  module _ (R : Rng) where
    pub choice-drawn :
        (xs : List Edge) (rng : R.State)
        → Fair R
        → 0 < length xs
        → (i : ℕ) × (x : Edge) × (get_elem? xs i ≡ some x) × ((choice R xs rng).0 ≡ ok x)
    unfolding choice Fair
    choice-drawn xs rng fair some_there =
        let (x, found) =
          get_elem?-lt xs (R.below (length xs) rng).0 (fair (length xs) rng some_there) in
        ((R.below (length xs) rng).0, x, found, ground arith)

    -- The retired edge, if there is one, was active.
    pub WasActive : List Edge → Option Edge → Type 0
    WasActive active none = Unit
    WasActive active (some x) = (i : ℕ) × (get_elem? active i ≡ some x)

    abbrev pub as_list : Option Edge → List Edge
    as_list none = []
    as_list (some x) = x ∷ []

    -- One change of the topology, which keeps its invariant: the first inactive edge becomes active and
    -- pending, and the retired one becomes the last inactive edge.
    pub record IsAdvanced (edges : List Edge) (t : Topology Edge) (rng : R.State) : Type 0 where
      pub retired : Option Edge
      pub introduced : Edge
      pub after : Topology Edge
      pub returns : (advance R t rng).0 ≡ ok ((retired, introduced), after)
      pub kept : IsTopology edges after
      pub same_bound : after.max_active_edges ≡ t.max_active_edges
      pub running :
          after.active
          ≡ (elim retired [ none ↦ t.active | some x ↦ remove x t.active ]) ++ (introduced ∷ [])
      pub full : (retired ≡ none) ↔ (length t.active < t.max_active_edges)
      pub waiting : List Edge
      pub was_first : t.inactive ≡ introduced ∷ waiting
      pub at_rest : after.inactive ≡ waiting ++ as_list retired
      pub announced : after.pending ≡ t.pending ++ (introduced ∷ [])
      pub was_active : WasActive t.active retired

    -- If at least one edge may be active, and not all may be, then a change of the topology never raises: it
    -- activates the first inactive edge, as the last active and the last pending one, retires an active edge
    -- exactly if the bound is reached, which then is the last inactive one, and keeps every edge either active
    -- or inactive, and the number of active ones within the bound.
    pub advance-IsAdvanced :
        (edges : List Edge) (t : Topology Edge) (rng : R.State)
        → Fair R
        → IsTopology edges t
        → 0 < t.max_active_edges
        → t.max_active_edges < length edges
        → IsAdvanced edges t rng
    unfolding advance WasActive
    advance-IsAdvanced edges t rng fair h positive fewer =
        let sized = h.sized in
        let bounded = h.bounded in
        elim (List-cases t.inactive) [
          | inl none_left ↦ let none_left' = ap length none_left in absurd (omega arith)
          | inr (introduced, rest, there) ↦
              elim (Bool-cases (leb t.max_active_edges (length t.active))) [
                | inr below ↦
                    let room : length t.active < t.max_active_edges = ground arith in
                    record {
                      retired = none;
                      introduced = introduced;
                      after = introduce introduced (record t { inactive = rest });
                      returns = ground arith;
                      kept = IsTopology-introduce edges t introduced rest h there room;
                      same_bound = refl;
                      running = refl;
                      full = (λ p. room, λ p. refl);
                      waiting = rest;
                      was_first = there;
                      at_rest = sym (append-nil rest);
                      announced = refl;
                      was_active = tt;
                    }
                | inl reached ↦
                    let (i, retired, found, drawn) =
                      choice-drawn t.active rng fair (ground arith) in
                    let less = length-remove retired t.active i found in
                    let first : (retire retired t).inactive
                        ≡ introduced ∷ (rest ++ (retired ∷ [])) =
                      ap (λ xs. xs ++ (retired ∷ [])) there in
                    record {
                      retired = some retired;
                      introduced = introduced;
                      after = introduce introduced (retire retired (record t { inactive = rest }));
                      returns = ground arith;
                      kept =
                          IsTopology-introduce edges (retire retired t) introduced
                            (rest ++ (retired ∷ [])) (IsTopology-retire edges t retired i h found)
                            first (ground arith);
                      same_bound = refl;
                      running = refl;
                      full = (λ p. absurd (cc), λ p. absurd (ground arith));
                      waiting = rest;
                      was_first = there;
                      at_rest = refl;
                      announced = refl;
                      was_active = (i, found);
                    }
              ]
        ]

module _ {Edge : Type 0} ⦃e : Eq Edge⦄ where
  count-take-drop :
      (x : Edge) (n : ℕ) (xs : List Edge) → count x (take n xs) + count x (drop n xs) ≡ count x xs
  unfolding count
  count-take-drop x zero xs = omega arith
  count-take-drop x (suc n) [] = refl
  count-take-drop x (suc n) (y ∷ xs) = omega (arith, count-take-drop x n xs)

  length-take-drop :
      (n : ℕ) (xs : List Edge)
      → (length (take n xs) + length (drop n xs) ≡ length xs) × (length (take n xs) ≤ n)
  length-take-drop zero xs = (omega arith, omega arith)
  length-take-drop (suc n) [] = (refl, omega arith)
  length-take-drop (suc n) (y ∷ xs) =
      let (whole, part) = length-take-drop n xs in (omega arith, omega arith)

  -- A new topology has every edge either active or inactive, and at most `max_active_edges` active, if it
  -- starts with no more than that.
  pub make_topology-IsTopology :
      (edges : List Edge) (initial_edges max_active_edges : ℕ)
      → initial_edges ≤ max_active_edges
      → IsTopology edges (make_topology edges initial_edges max_active_edges)
  unfolding make_topology
  make_topology-IsTopology edges initial_edges max_active_edges within =
      let (whole, part) = length-take-drop initial_edges edges in
      record {
        complete = λ x. count-take-drop x initial_edges edges;
        sized = whole;
        bounded = omega arith;
      }
