-- ===== src/Indexer/Initialize/Graph.antt =====
-- The graph after `ensure_topology` has returned: it has the generated edge definitions and no others.
use semconv_graph.Base.{
  String, Bool, true, false, ◌||◌, Option, none, some, List, [], ◌∷◌, ◌==◌, string_eq, nat_eq,
  if◌then◌else◌, ok, ◌≡◌, ◌≢◌, refl, sym, ap, ◌∙◌, arith, Bool-cases, Option-cases, inl, inr,
  >>=-eq-ok,
}
use semconv_graph.Base.Actions.{Ensures, >>=-Ensures, if-Ensures, lift_err-Ensures, pure-Ensures}
use semconv_graph.Base.Dict.{Dict, lookup, insert, keys, NodupKeys, insert-NodupKeys}
use semconv_graph.Base.Sorting.{same_texts-eq, sorted, sorted_idem}
use semconv_graph.Indexer.Database.{
  EdgeDefinition, Database, definition_name, normalize_definition, definitions_onto, as_definition,
  as_definitions,
}
use semconv_graph.Indexer.Database.Documented.{
  Store, GrowsAround, GrowsAround-refl, GrowsAround-trans, IsDocumented,
}
use semconv_graph.Indexer.Initialize.{same_definition, unexpected, ensure_all, ensure_definition}

-- A normalized definition under its own name.
pub record IsNormal (name : String) (m : EdgeDefinition) : Type 0 where
  pub named : m.edge_collection ≡ name
  pub nonempty : name ≢ ""
  pub sorted_from : sorted m.from_vertex_collections ≡ m.from_vertex_collections
  pub sorted_to : sorted m.to_vertex_collections ≡ m.to_vertex_collections

abbrev pub AllNormal : Dict String EdgeDefinition → Type 0
AllNormal [] = Unit
AllNormal ((name, m) ∷ d) = IsNormal name m × AllNormal d

normalize-parts :
    (e : EdgeDefinition) {name : String} {m : EdgeDefinition}
    → definition_name (as_definition e) ≡ ok name
    → normalize_definition (as_definition e) ≡ ok m
    → (name ≡ e.edge_collection)
      × (e.edge_collection ≢ "")
      × (m ≡ record {
        edge_collection = e.edge_collection;
        from_vertex_collections = sorted e.from_vertex_collections;
        to_vertex_collections = sorted e.to_vertex_collections;
      })
unfolding definition_name normalize_definition as_definition
normalize-parts e h k = ground arith

normalize-IsNormal :
    (e : EdgeDefinition) {name : String} {m : EdgeDefinition}
    → definition_name (as_definition e) ≡ ok name
    → normalize_definition (as_definition e) ≡ ok m
    → IsNormal name m
normalize-IsNormal e {name} {m} h k =
    let (called, nonempty, same) = normalize-parts e h k in
    record {
      named = ap (λ x. x.edge_collection) same ∙ sym called;
      nonempty = rw (sym called) at nonempty;
      sorted_from = rw same (sorted_idem e.from_vertex_collections);
      sorted_to = rw same (sorted_idem e.to_vertex_collections);
    }

IsNormal-normalize :
    (name : String) (m : EdgeDefinition)
    → IsNormal name m
    → normalize_definition (as_definition (record m { edge_collection = name })) ≡ ok m
unfolding definition_name normalize_definition as_definition
IsNormal-normalize name m h =
    let b = h.nonempty in
    let fresh : (name == "") ≡ false = ground arith in
    rw (fresh, h.sorted_from, h.sorted_to, sym h.named) refl

insert-AllNormal :
    (name : String) (m : EdgeDefinition) (d : Dict String EdgeDefinition)
    → IsNormal name m
    → AllNormal d
    → AllNormal (insert name m d)
unfolding insert
insert-AllNormal name m [] p h = (p, tt)
insert-AllNormal name m ((k, w) ∷ d) p (q, h) = elim (Bool-cases (name == k)) [
  | inl same ↦ let eq : name ≡ k = ground arith in rw same (rw eq at p, h)
  | inr differ ↦ rw differ (q, insert-AllNormal name m d p h)
]

pub definitions_onto-AllNormal :
    (es : List EdgeDefinition) (d : Dict String EdgeDefinition) {d' : Dict String EdgeDefinition}
    → AllNormal d
    → NodupKeys d
    → definitions_onto d (as_definitions es) ≡ ok d'
    → AllNormal d' × NodupKeys d'
unfolding definitions_onto
definitions_onto-AllNormal [] d {d'} normal once h =
    let same : d ≡ d' = ground arith in rw (sym same) (normal, once)
definitions_onto-AllNormal (e ∷ es) d normal once h =
    let (name, called, h1) = >>=-eq-ok (definition_name (as_definition e)) _ h in
    let (m, made, h2) = >>=-eq-ok (normalize_definition (as_definition e)) _ h1 in
    definitions_onto-AllNormal es (insert name m d)
      (insert-AllNormal name m d (normalize-IsNormal e called made) normal)
      (insert-NodupKeys name m d once) h2

same_definition-eq : (d d' : EdgeDefinition) → same_definition d d' ≡ true → d ≡ d'
same_definition-eq d d' h =
    let name : d.edge_collection ≡ d'.edge_collection = ground arith in
    let from : d.from_vertex_collections ≡ d'.from_vertex_collections =
      same_texts-eq _ _ (ground arith) in
    let to : d.to_vertex_collections ≡ d'.to_vertex_collections =
      same_texts-eq _ _ (ground arith) in
    cc

pub unexpected-covers :
    (desired existing : Dict String EdgeDefinition) (n : String)
    → unexpected desired (keys existing) ≡ []
    → lookup n desired ≡ none
    → lookup n existing ≡ none
unfolding keys lookup
unexpected-covers desired [] n h fresh = refl
unexpected-covers desired ((k, m) ∷ existing) n h fresh = elim (Bool-cases (n == k)) [
  | inl same ↦
      let eq : n ≡ k = ground arith in
      let gone : lookup k desired ≡ none = rw (sym eq) fresh in absurd (ground arith)
  | inr differ ↦ rw differ (unexpected-covers desired existing n (ground arith) fresh)
]

-- The graph has exactly the definitions that `f` gives.
abbrev pub HasGraph : String → (String → Option EdgeDefinition) → Store → Type 0
HasGraph graph_name f v =
    (g : String → Option EdgeDefinition) × (v.graph graph_name ≡ some g)
    × ((n : String) → g n ≡ f n)

-- What `desired` gives, and `f` where it gives nothing.
abbrev pub over :
    Dict String EdgeDefinition → (String → Option EdgeDefinition) → String → Option EdgeDefinition
over d f n = elim (lookup n d) [ none ↦ f n | some m ↦ some m ]

module _ (D : Database) (L : IsDocumented D) (graph_name : String) where
  abbrev pub Becomes :
      {A : Type 0} → D.State → (String → Option EdgeDefinition) → A → D.State → Type 0
  Becomes s f a t = GrowsAround graph_name (L.view s) (L.view t) × HasGraph graph_name f (L.view t)

  kept :
      (f : String → Option EdgeDefinition) (existing : Dict String EdgeDefinition) (name : String)
      (m current : EdgeDefinition) (n : String)
      → f name ≡ lookup name existing
      → lookup name existing ≡ some current
      → same_definition current m ≡ true
      → f n ≡ (if n == name then some m else f n)
  kept f existing name m current n agrees there fit = elim (Bool-cases (n == name)) [
    | inl same ↦
        let eq : n ≡ name = ground arith in
        rw (same, eq) (agrees ∙ there ∙ ap some (same_definition-eq current m fit))
    | inr differ ↦ rw differ refl
  ]

  ensure_definition-Becomes :
      (existing : Dict String EdgeDefinition) (name : String) (m : EdgeDefinition) (s : D.State)
      (f : String → Option EdgeDefinition)
      → IsNormal name m
      → HasGraph graph_name f (L.view s)
      → f name ≡ lookup name existing
      → Ensures
          (ensure_definition D graph_name existing (name, m))
          s
          (Becomes s (λ n. if n == name then some m else f n))
  unfolding ensure_definition
  ensure_definition-Becomes existing name m s f normal (g, has, same) agrees =
      let Q = Becomes {A = Bool} s (λ n. if n == name then some m else f n) in
      elim (Option-cases (lookup name existing)) [
        | inl absent ↦
            rw (ensure_definition, absent)
              (>>=-Ensures
                (D.create_edge_definition graph_name (record m { edge_collection = name })) _ s Q
                λ done made.
                  let (grows, given) =
                    L.create_edge_definition_lem graph_name (record m { edge_collection = name }) m
                      s g has (IsNormal-normalize name m normal) done made in
                  pure-Ensures true _ Q (
                    grows,
                    (
                      (λ n. if n == name then some m else g n),
                      given,
                      λ n. ap (λ o. if n == name then some m else o) (same n),
                    ),
                  ))
        | inr (current, there) ↦
            rw (ensure_definition, there)
              (if-Ensures (same_definition current m) _ _ s Q
                (λ fit. pure-Ensures false s Q (
                  GrowsAround-refl graph_name (L.view s),
                  (g, has, λ n. same n ∙ kept f existing name m current n agrees there fit),
                ))
                (λ misfit. lift_err-Ensures _ s Q))
      ]

  over-cons :
      (name : String) (m : EdgeDefinition) (d : Dict String EdgeDefinition)
      (f : String → Option EdgeDefinition) (n : String)
      → lookup name d ≡ none
      → over d (λ j. if j == name then some m else f j) n ≡ over ((name, m) ∷ d) f n
  unfolding lookup
  over-cons name m d f n fresh = elim (Bool-cases (n == name)) [
    | inl same ↦
        let eq : n ≡ name = ground arith in
        let gone : lookup n d ≡ none = rw eq fresh in rw (over, same, gone) (ground arith)
    | inr differ ↦ elim (Option-cases (lookup n d)) [
      | inl none_there ↦ rw (over, none_there) (ground arith)
      | inr (w, there) ↦ rw (over, there) (ground arith)
    ]
  ]

  agrees-rest :
      (existing : Dict String EdgeDefinition) (name : String) (m : EdgeDefinition)
      (d : Dict String EdgeDefinition) (f : String → Option EdgeDefinition)
      → lookup name d ≡ none
      → ((n : String) (w : EdgeDefinition)
          → lookup n ((name, m) ∷ d) ≡ some w
          → f n ≡ lookup n existing)
      → (n : String) (w : EdgeDefinition) → lookup n d ≡ some w
      → (if n == name then some m else f n) ≡ lookup n existing
  unfolding lookup
  agrees-rest existing name m d f fresh agrees n w found = elim (Bool-cases (n == name)) [
    | inl same ↦
        let eq : n ≡ name = ground arith in
        let gone : lookup n d ≡ none = rw eq fresh in absurd (ground arith)
    | inr differ ↦ rw differ (agrees n w (ground arith))
  ]

  pub ensure_definitions-Becomes :
      (existing desired : Dict String EdgeDefinition) (changed : Bool) (s : D.State)
      (f : String → Option EdgeDefinition)
      → AllNormal desired
      → NodupKeys desired
      → HasGraph graph_name f (L.view s)
      → ((n : String) (m : EdgeDefinition) → lookup n desired ≡ some m → f n ≡ lookup n existing)
      → Ensures
          (ensure_all D (ensure_definition D graph_name existing) desired changed)
          s
          (Becomes s (over desired f))
  unfolding ensure_all lookup
  ensure_definitions-Becomes existing [] changed s f normal once has agrees =
      pure-Ensures changed s (Becomes s f) (GrowsAround-refl graph_name (L.view s), has)
  ensure_definitions-Becomes existing ((name, m) ∷ desired) changed s f (p, normal) (fresh, once)
        has agrees =
      >>=-Ensures (ensure_definition D graph_name existing (name, m)) _ s
        (Becomes s (over ((name, m) ∷ desired) f))
        λ c done a given.
          let t = (ensure_definition D graph_name existing (name, m) s).1 in
          let f' = λ (n : String). if n == name then some m else f n in
          let (grows, has') =
            ensure_definition-Becomes existing name m s f p has (agrees name m (ground arith)) c
              done in
          let (grows', (g, is, same)) =
            ensure_definitions-Becomes existing desired (c || changed) t f' normal once has'
              (agrees-rest existing name m desired f fresh agrees) a given in
          (
            GrowsAround-trans grows grows',
            (g, is, λ n. same n ∙ over-cons name m desired f n fresh),
          )
