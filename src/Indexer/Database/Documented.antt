-- ===== src/Indexer/Database/Documented.antt =====
-- What the initialization relies on of the database, and how its contents grow.
use semconv_graph.Base.{
  ℕ, String, Bool, true, false, Option, none, some, List, [], ◌==◌, string_eq, if◌then◌else◌, ok,
  ◌≡◌, ◌≢◌, refl, sym, ap, ◌∙◌, arith, Option-cases, inl, inr,
}
use semconv_graph.Base.Dict.{Dict, lookup}
use semconv_graph.Base.Actions.{Ensures}
use semconv_graph.Indexer.Database.{
  Database, Index, EdgeDefinition, find_index, definitions_onto, normalize_definition,
  as_definition, as_definitions,
}

-- The contents: the type of each collection, the index of each name of a collection, the fields of the documents
-- by collection and key, with their values as texts, and for each graph the normalized definition of each name.
pub record Store : Type 0 where
  pub kind : String → Option ℕ
  pub index : String → String → Option Index
  pub document : String → String → Option (Dict String String)
  pub graph : String → Option (String → Option EdgeDefinition)

-- No collection, index or document is lost or changed.
pub record Grows (v w : Store) : Type 0 where
  pub kinds : (c : String) (k : ℕ) → v.kind c ≡ some k → w.kind c ≡ some k
  pub indexes : (c n : String) (i : Index) → v.index c n ≡ some i → w.index c n ≡ some i
  pub documents :
      (c k : String) (d : Dict String String) → v.document c k ≡ some d → w.document c k ≡ some d

pub Grows-refl : (v : Store) → Grows v v
Grows-refl v = record { kinds = λ c k h. h; indexes = λ c n i h. h; documents = λ c k d h. h }

pub Grows-trans : {u v w : Store} → Grows u v → Grows v w → Grows u w
Grows-trans p q = record {
  kinds = λ c k h. q.kinds c k (p.kinds c k h);
  indexes = λ c n i h. q.indexes c n i (p.indexes c n i h);
  documents = λ c k d h. q.documents c k d (p.documents c k d h);
}

-- No collection, index or document is lost or changed, and no graph but `g` is touched.
pub record GrowsAround (g : String) (v w : Store) : Type 0 where
  pub grows : Grows v w
  pub others : (h : String) → h ≢ g → w.graph h ≡ v.graph h

pub GrowsAround-refl : (g : String) (v : Store) → GrowsAround g v v
GrowsAround-refl g v = record { grows = Grows-refl v; others = λ h differ. refl }

pub GrowsAround-trans :
    {g : String} {u v w : Store} → GrowsAround g u v → GrowsAround g v w → GrowsAround g u w
GrowsAround-trans p q = record {
  grows = Grows-trans p.grows q.grows;
  others = λ h differ. q.others h differ ∙ p.others h differ;
}

-- No collection, index or document is lost or changed, and no graph is touched.
pub record GrowsBeside (v w : Store) : Type 0 where
  pub grows : Grows v w
  pub same_graphs : v.graph ≡ w.graph

pub GrowsBeside-refl : (v : Store) → GrowsBeside v v
GrowsBeside-refl v = record { grows = Grows-refl v; same_graphs = refl }

pub GrowsBeside-trans : {u v w : Store} → GrowsBeside u v → GrowsBeside v w → GrowsBeside u w
GrowsBeside-trans p q = record {
  grows = Grows-trans p.grows q.grows;
  same_graphs = p.same_graphs ∙ q.same_graphs;
}

abbrev pub is_given {ℓ} : {A : Type ℓ} → Option A → Bool
is_given none = false
is_given (some _) = true

abbrev pub HasDocument : Store → String → String → Type 0
HasDocument v c k = is_given (v.document c k) ≡ true

pub Grows-HasDocument :
    {v w : Store} (c k : String) → Grows v w → HasDocument v c k → HasDocument w c k
Grows-HasDocument {v} {w} c k g h = elim (Option-cases (v.document c k)) [
  | inl absent ↦ absurd (ground arith)
  | inr (d, there) ↦ rw (g.documents c k d there) refl
]

pub GrowsBeside-GrowsAround : (g : String) {v w : Store} → GrowsBeside v w → GrowsAround g v w
GrowsBeside-GrowsAround g p = record {
  grows = p.grows;
  others = λ h differ. ap (λ f. f h) (sym p.same_graphs);
}

-- The collection has an index of the given one's name with its fields, uniqueness and sparseness.
pub record IsIndexed (v : Store) (c : String) (i : Index) : Type 0 where
  pub found : Index
  pub there : v.index c i.name ≡ some found
  pub same_fields : found.fields ≡ i.fields
  pub same_unique : found.unique ≡ i.unique
  pub same_sparse : found.sparse ≡ i.sparse

pub Grows-IsIndexed :
    {v w : Store} {c : String} {i : Index} → Grows v w → IsIndexed v c i → IsIndexed w c i
Grows-IsIndexed {c = c} {i = i} g h = record {
  found = h.found;
  there = g.indexes c i.name h.found h.there;
  same_fields = h.same_fields;
  same_unique = h.same_unique;
  same_sparse = h.same_sparse;
}

abbrev pub type_number : Bool → ℕ
type_number edge = if edge then 3 else 2

-- Each call that returns does what the database documents: reads answer by the contents and leave them,
-- creations add what they are asked for and lose nothing.
pub record IsDocumented (D : Database) : Type 0 where
  pub view : D.State → Store
  pub version_lem : (s : D.State) → Ensures D.version s (λ _ t. view t ≡ view s)
  pub has_collection_lem :
      (c : String) (s : D.State)
      → Ensures (D.has_collection c) s (λ b t. (b ≡ is_given ((view s).kind c)) × (view t ≡ view s))
  pub collection_type_lem :
      (c : String) (s : D.State)
      → Ensures (D.collection_type c) s (λ k t. (k ≡ (view s).kind c) × (view t ≡ view s))
  pub indexes_lem :
      (c : String) (s : D.State)
      → Ensures
          (D.indexes c)
          s
          (λ is t. ((n : String) → find_index n is ≡ (view s).index c n) × (view t ≡ view s))
  pub has_document_lem :
      (c k : String) (s : D.State)
      → Ensures
          (D.has_document c k)
          s
          (λ b t. (b ≡ is_given ((view s).document c k)) × (view t ≡ view s))
  pub has_graph_lem :
      (g : String) (s : D.State)
      → Ensures (D.has_graph g) s (λ b t. (b ≡ is_given ((view s).graph g)) × (view t ≡ view s))
  pub edge_definitions_lem :
      (g : String) (s : D.State)
      → Ensures (D.edge_definitions g) s (λ ds t.
        ((f : String → Option EdgeDefinition)
          → (view s).graph g ≡ some f
          → (d : Dict String EdgeDefinition) × (definitions_onto [] ds ≡ ok d)
            × ((n : String) → lookup n d ≡ f n))
        × (view t ≡ view s))
  pub create_collection_lem :
      (c : String) (edge : Bool) (s : D.State)
      → Ensures
          (D.create_collection c edge)
          s
          (λ _ t. GrowsBeside (view s) (view t) × ((view t).kind c ≡ some (type_number edge)))
  pub add_persistent_index_lem :
      (c : String) (i : Index) (s : D.State)
      → Ensures
          (D.add_persistent_index c i)
          s
          (λ _ t. GrowsBeside (view s) (view t) × IsIndexed (view t) c i)
  pub insert_document_lem :
      (c k : String) (fields : Dict String String) (s : D.State)
      → lookup "_key" fields ≡ some k
      → Ensures
          (D.insert_document c fields)
          s
          (λ _ t. GrowsBeside (view s) (view t) × ((view t).document c k ≡ some fields))
  pub create_graph_lem :
      (g : String) (ds : List EdgeDefinition) (orphans : List String) (s : D.State)
      (d : Dict String EdgeDefinition)
      → definitions_onto [] (as_definitions ds) ≡ ok d
      → Ensures
          (D.create_graph g ds orphans)
          s
          (λ _ t. GrowsAround g (view s) (view t) × ((view t).graph g ≡ some (λ n. lookup n d)))
  pub create_edge_definition_lem :
      (g : String) (d m : EdgeDefinition) (s : D.State) (f : String → Option EdgeDefinition)
      → (view s).graph g ≡ some f
      → normalize_definition (as_definition d) ≡ ok m
      → Ensures (D.create_edge_definition g d) s (λ _ t.
        GrowsAround g (view s) (view t)
        × ((view t).graph g ≡ some (λ n. if n == d.edge_collection then some m else f n)))
