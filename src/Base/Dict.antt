-- ===== src/Base/Dict.antt =====
-- Dicts in insertion order. Assigning to a present key keeps its place, as in Python.
use mathlib.Core.Path.{◌≡◌, refl, sym}
use mathlib.Core.Bool.{Bool, true, false, ◌&&◌}
use mathlib.Core.Option.{Option, none, some}
use mathlib.Core.List.{List, [], ◌∷◌, ◌++◌}
use native.Mathlib.Omega.{arith}
use semconv_graph.Base.Equality.{Eq, ◌==◌, if◌then◌else◌}
use semconv_graph.Base.Lists.{All}

abbrev pub Dict {ℓ κ} : Type ℓ → Type κ → Type (ℓ ⊔ κ)
Dict K V = List (K × V)

module _ {ℓ κ} {K : Type ℓ} {V : Type κ} where
  unfoldable pub keys : Dict K V → List K
  keys [] = []
  keys ((k, v) ∷ d) = k ∷ keys d

  unfoldable pub values : Dict K V → List V
  values [] = []
  values ((k, v) ∷ d) = v ∷ values d

module _ {ℓ κ} {K : Type ℓ} {V : Type κ} ⦃e : Eq K⦄ where
  -- `d.get(k)`
  unfoldable pub lookup : K → Dict K V → Option V
  lookup k [] = none
  lookup k ((j, v) ∷ d) = if k == j then some v else lookup k d

  -- `d[k] = v`
  unfoldable pub insert : K → V → Dict K V → Dict K V
  insert k v [] = (k, v) ∷ []
  insert k v ((j, w) ∷ d) = if k == j then (j, v) ∷ d else (j, w) ∷ insert k v d

  -- `k in d`
  abbrev pub has_key : K → Dict K V → Bool
  has_key k d = elim (lookup k d) [ none ↦ false | some _ ↦ true ]

  abbrev pub NodupKeys : Dict K V → Type κ
  NodupKeys [] = Unit
  NodupKeys ((k, _) ∷ d) = (lookup k d ≡ none) × NodupKeys d

  pub lookup-insert :
      (j k : K) (v : V) (d : Dict K V)
      → lookup j (insert k v d) ≡ (if j == k then some v else lookup j d)
  unfolding insert lookup
  lookup-insert j k v [] = refl
  lookup-insert j k v ((i, w) ∷ d) = ground (arith, lookup-insert j k v d)

  pub insert-NodupKeys : (k : K) (v : V) (d : Dict K V) → NodupKeys d → NodupKeys (insert k v d)
  unfolding insert
  insert-NodupKeys k v [] h = unfold lookup in (refl, tt)
  insert-NodupKeys k v ((j, w) ∷ d) (fresh, h) =
      ground (arith, insert-NodupKeys k v d h, lookup-insert j k v d)

module _ {ℓ κ} {K : Type ℓ} {V : Type κ} ⦃e : Eq K⦄ where
  -- `defaultdict(list)[k]`
  abbrev pub items_at : K → Dict K (List V) → List V
  items_at k d = elim (lookup k d) [ none ↦ [] | some xs ↦ xs ]

  -- `defaultdict(list)[k].append(x)`
  unfoldable pub push : K → V → Dict K (List V) → Dict K (List V)
  push k x d = insert k (items_at k d ++ (x ∷ [])) d

  pub items_at-push :
      (j k : K) (x : V) (d : Dict K (List V))
      → items_at j (push k x d) ≡ (if j == k then items_at j d ++ (x ∷ []) else items_at j d)
  unfolding push
  items_at-push j k x d = ground (arith, lookup-insert j k (items_at k d ++ (x ∷ [])) d)

  pub push-NodupKeys : (k : K) (x : V) (d : Dict K (List V)) → NodupKeys d → NodupKeys (push k x d)
  unfolding push
  push-NodupKeys k x d h = insert-NodupKeys k (items_at k d ++ (x ∷ [])) d h

module _ {ℓ κ} {K : Type ℓ} {V : Type κ} ⦃e : Eq K⦄ where
  -- What holds of every key holds of a key that is found.
  pub All-keys {μ} :
      (P : K → Type μ) (d : Dict K V) → All P (keys d) → (k : K) (v : V) → lookup k d ≡ some v → P k
  unfolding keys lookup
  All-keys P [] h k v found = absurd (cc)
  All-keys P ((j, w) ∷ d) (p, h) k v found = elim (e.dec k j) [
    | yes same ↦ rw same p
    | no differ ↦ All-keys P d h k v (ground arith)
  ]

module _ {ℓ κ} {K : Type ℓ} {V : Type κ} ⦃e : Eq K⦄ where
  -- A test of every item.
  abbrev pub every : (K → V → Bool) → Dict K V → Bool
  every test [] = true
  every test ((k, v) ∷ d) = test k v && every test d

  pub lookup-every :
      (test : K → V → Bool) (d : Dict K V) (k : K) (v : V)
      → every test d ≡ true
      → lookup k d ≡ some v
      → test k v ≡ true
  unfolding lookup
  lookup-every test [] k v h found = absurd (cc)
  lookup-every test ((j, w) ∷ d) k v h found = elim (e.dec k j) [
    | yes same ↦ let value : w ≡ v = ground arith in rw (same, sym value) (ground arith)
    | no differ ↦ lookup-every test d k v (ground arith) (ground arith)
  ]

module _ {ℓ κ} {K : Type ℓ} {V : Type κ} ⦃e : Eq K⦄ where
  -- `del d[k]`, if the key is there.
  unfoldable pub remove : K → Dict K V → Dict K V
  remove k [] = []
  remove k ((j, v) ∷ d) = let rest = remove k d in if k == j then rest else (j, v) ∷ rest

  pub lookup-remove :
      (j k : K) (d : Dict K V) → lookup j (remove k d) ≡ (if j == k then none else lookup j d)
  unfolding remove lookup
  lookup-remove j k [] = ground arith
  lookup-remove j k ((i, w) ∷ d) = ground (arith, lookup-remove j k d)
