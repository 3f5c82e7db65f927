-- ===== src/Indexer/Database/Memory/Laws.antt =====
-- The database in memory does what is documented.
use semconv_graph.Base.{
  ℕ, String, Bool, true, false, not, ◌||◌, ◌&&◌, Option, none, some, List, [], ◌∷◌, ◌++◌, ◌==◌,
  string_eq, if◌then◌else◌, Result, ok, err, ◌≡◌, ◌≢◌, refl, sym, ap, ◌∙◌, arith, Bool-cases, inl,
  inr, >>=-eq-ok,
}
use semconv_graph.Base.Actions.{Ensures}
use semconv_graph.Base.Dict.{Dict, lookup, insert, lookup-insert}
use semconv_graph.Indexer.Database.{
  TopologyFailure, Index, EdgeDefinition, definition_name, normalize_definition, find_index,
  last_part, definitions_onto, as_definition, as_definitions,
}
use semconv_graph.Indexer.Database.Documented.{
  GrowsAround, GrowsBeside, IsIndexed, IsDocumented, is_given, type_number,
}
use semconv_graph.Indexer.Database.Memory.{
  Memory, as_graph, graph_of, stored, contents, create_collection, add_persistent_index,
  insert_document, create_graph, create_edge_definition, memory,
}

same_text : (s : String) → (s == s) ≡ true
same_text s = ground arith

keeps :
    (f : String → Option ℕ) (c c' : String) (v w : ℕ)
    → is_given (f c) ≡ false
    → f c' ≡ some w
    → (if c' == c then some v else f c') ≡ some w
keeps f c c' v w free given = elim (Bool-cases (c' == c)) [
  | inl same ↦
      let eq : c' ≡ c = ground arith in
      let given' : f c ≡ some w = rw eq at given in absurd (ground arith)
  | inr differ ↦ rw differ given
]

find_index-cons :
    (i : Index) (is : List Index)
    → (last_part i.name == i.name) ≡ true
    → find_index i.name (i ∷ is) ≡ some i
unfolding find_index
find_index-cons i is plain = rw plain refl

keeps-index :
    (c c' n : String) (i j : Index) (lists : String → List Index)
    → (is_given (find_index i.name (lists c)) ≡ false) × ((last_part i.name == i.name) ≡ true)
    → find_index n (lists c') ≡ some j
    → find_index n (if c' == c then i ∷ lists c else lists c') ≡ some j
unfolding find_index
keeps-index c c' n i j lists (free, plain) given = elim (Bool-cases (c' == c)) [
  | inl same ↦
      let eq : c' ≡ c = ground arith in
      let given' : find_index n (lists c) ≡ some j = rw eq at given in
      rw same (elim (Bool-cases (last_part i.name == n)) [
        | inl named ↦
            let name : i.name ≡ n = ground arith in
            let free' : is_given (find_index n (lists c)) ≡ false = rw name at free in
            absurd (ground arith)
        | inr differ ↦ rw differ given'
      ])
  | inr differ ↦ rw differ given
]

pub create_collection-Ensures :
    (c : String) (edge : Bool) (s : Memory)
    → Ensures (create_collection c edge) s (λ _ t.
      GrowsBeside (contents s) (contents t) × ((contents t).kind c ≡ some (type_number edge)))
create_collection-Ensures c edge s a h = elim (Bool-cases (is_given (s.kinds c))) [
  | inl taken ↦ absurd (ground arith)
  | inr free ↦ rw free (
    record {
      grows = record {
        kinds = λ c' k given. keeps s.kinds c c' (type_number edge) k free given;
        indexes = λ c' n i given. given;
        documents = λ c' k d given. given;
      };
      same_graphs = refl;
    },
    rw (same_text c) refl,
  )
]

pub add_persistent_index-Ensures :
    (c : String) (i : Index) (s : Memory)
    → Ensures
        (add_persistent_index c i)
        s
        (λ _ t. GrowsBeside (contents s) (contents t) × IsIndexed (contents t) c i)
add_persistent_index-Ensures c i s a h =
    elim (Bool-cases
      (is_given (find_index i.name (s.index_lists c)) || not (last_part i.name == i.name))) [
        | inl taken ↦ absurd (ground arith)
        | inr free ↦ rw free (
          record {
            grows = record {
              kinds = λ c' k given. given;
              indexes = λ c' n j given. keeps-index c c' n i j s.index_lists (ground arith) given;
              documents = λ c' k d given. given;
            };
            same_graphs = refl;
          },
          record {
            found = i;
            there = rw (same_text c) (find_index-cons i (s.index_lists c) (ground arith));
            same_fields = refl;
            same_unique = refl;
            same_sparse = refl;
          },
        )
      ]

keeps-document :
    (f : String → String → Option (Dict String String)) (c c' k k' : String)
    (fields d : Dict String String)
    → is_given (f c k) ≡ false
    → f c' k' ≡ some d
    → (if c' == c && k' == k then some fields else f c' k') ≡ some d
keeps-document f c c' k k' fields d free given = elim (Bool-cases (c' == c && k' == k)) [
  | inl same ↦
      let eq : c' ≡ c = ground arith in
      let eq' : k' ≡ k = ground arith in
      let given' : f c k ≡ some d = rw (eq, eq') at given in absurd (ground arith)
  | inr differ ↦ rw differ given
]

other_graph : {A : Type 0} (g h : String) (a b : A) → h ≢ g → (if h == g then a else b) ≡ b
other_graph g h a b differ = ground arith

pub insert_document-Ensures :
    (c k : String) (fields : Dict String String) (s : Memory)
    → lookup "_key" fields ≡ some k
    → Ensures
        (insert_document c fields)
        s
        (λ _ t. GrowsBeside (contents s) (contents t) × ((contents t).document c k ≡ some fields))
insert_document-Ensures c k fields s key a h = elim (Bool-cases (is_given (s.documents c k))) [
  | inl taken ↦ absurd (ground arith)
  | inr free ↦
      rw (insert_document, key, free)
        (
          record {
            grows = record {
              kinds = λ c' k' given. given;
              indexes = λ c' n i given. given;
              documents = λ c' k' d given. keeps-document s.documents c c' k k' fields d free given;
            };
            same_graphs = refl;
          },
          rw (same_text c, same_text k) refl,
        )
]

pub create_graph-Ensures :
    (g : String) (ds : List EdgeDefinition) (orphans : List String) (s : Memory)
    (d : Dict String EdgeDefinition)
    → definitions_onto [] (as_definitions ds) ≡ ok d
    → Ensures (create_graph g ds orphans) s (λ _ t.
      GrowsAround g (contents s) (contents t) × ((contents t).graph g ≡ some (λ n. lookup n d)))
create_graph-Ensures g ds orphans s d h a made = (
  record {
    grows = record { kinds = λ c k p. p; indexes = λ c n i p. p; documents = λ c k d p. p };
    others = λ h differ. ap graph_of (other_graph g h (some ds) (s.graphs h) differ);
  },
  rw (same_text g, h) refl,
)

normalized-name :
    (d m : EdgeDefinition)
    → normalize_definition (as_definition d) ≡ ok m
    → definition_name (as_definition d) ≡ ok d.edge_collection
unfolding definition_name normalize_definition as_definition
normalized-name d m h = ground arith

definitions_onto-append :
    (es : List EdgeDefinition) (d m : EdgeDefinition) (e e' : Dict String EdgeDefinition)
    → normalize_definition (as_definition d) ≡ ok m
    → definitions_onto e (as_definitions es) ≡ ok e'
    → definitions_onto e (as_definitions (es ++ (d ∷ []))) ≡ ok (insert d.edge_collection m e')
unfolding definitions_onto
definitions_onto-append [] d m e e' h k =
    let same : e ≡ e' = ground arith in rw (normalized-name d m h, h, same) refl
definitions_onto-append (x ∷ es) d m e e' h k =
    let (name, called, k1) = >>=-eq-ok (definition_name (as_definition x)) _ k in
    let (w, made, k2) = >>=-eq-ok (normalize_definition (as_definition x)) _ k1 in
    rw (called, made) (definitions_onto-append es d m (insert name w e) e' h k2)

as_graph-eq :
    (r : Result TopologyFailure (Dict String EdgeDefinition)) {f : String → Option EdgeDefinition}
    → as_graph r ≡ some f
    → (e : Dict String EdgeDefinition) × (r ≡ ok e) × ((n : String) → lookup n e ≡ f n)
as_graph-eq (ok e) {f} h =
    let same : (λ (n : String). lookup n e) ≡ f = cc in (e, refl, λ n. ap (λ k. k n) same)
as_graph-eq (err e) h = absurd (cc)

extended :
    (o : Option (List EdgeDefinition)) (d m : EdgeDefinition) (f : String → Option EdgeDefinition)
    → graph_of o ≡ some f
    → normalize_definition (as_definition d) ≡ ok m
    → graph_of (some (stored o ++ (d ∷ [])))
      ≡ some (λ n. if n == d.edge_collection then some m else f n)
extended none d m f has normal = absurd (cc)
extended (some es) d m f has normal =
    let (e, made, gives) = as_graph-eq (definitions_onto [] (as_definitions es)) has in
    rw (definitions_onto-append es d m [] e normal made) (
      ap some (λ i n.
        (lookup-insert n d.edge_collection m e
            ∙ ap (λ o. if n == d.edge_collection then some m else o) (gives n))
          i))

pub graph_of-stored :
    (o : Option (List EdgeDefinition)) (f : String → Option EdgeDefinition)
    → graph_of o ≡ some f
    → (d : Dict String EdgeDefinition) × (definitions_onto [] (as_definitions (stored o)) ≡ ok d)
      × ((n : String) → lookup n d ≡ f n)
graph_of-stored none f h = absurd (cc)
graph_of-stored (some es) f h = as_graph-eq (definitions_onto [] (as_definitions es)) h

pub create_edge_definition-Ensures :
    (g : String) (d m : EdgeDefinition) (s : Memory) (f : String → Option EdgeDefinition)
    → (contents s).graph g ≡ some f
    → normalize_definition (as_definition d) ≡ ok m
    → Ensures (create_edge_definition g d) s (λ _ t.
      GrowsAround g (contents s) (contents t)
      × ((contents t).graph g ≡ some (λ n. if n == d.edge_collection then some m else f n)))
create_edge_definition-Ensures g d m s f has normal a made = (
  record {
    grows = record { kinds = λ c k p. p; indexes = λ c n i p. p; documents = λ c k d p. p };
    others = λ h differ.
        ap graph_of (other_graph g h (some (stored (s.graphs g) ++ (d ∷ []))) (s.graphs h) differ);
  },
  rw (same_text g) (extended (s.graphs g) d m f has normal),
)

pub ok-eq : {E A : Type 0} {a b : A} → ◌≡◌ {A = Result E A} (ok a) (ok b) → a ≡ b
ok-eq h = cc

unfoldable pub memory-IsDocumented : IsDocumented memory
memory-IsDocumented = record {
  view = contents;
  version_lem = λ s a h. refl;
  has_collection_lem = λ c s b h. (sym (ok-eq h), refl);
  collection_type_lem = λ c s b h. (sym (ok-eq h), refl);
  indexes_lem = λ c s is h. ((λ n. ap (find_index n) (sym (ok-eq h))), refl);
  has_document_lem = λ c k s b h. (sym (ok-eq h), refl);
  has_graph_lem = λ g s b h. (sym (ok-eq h), refl);
  edge_definitions_lem =
      λ g s ds h. ((λ f has. rw (sym (ok-eq h)) (graph_of-stored (s.graphs g) f has)), refl);
  create_collection_lem = create_collection-Ensures;
  add_persistent_index_lem = add_persistent_index-Ensures;
  insert_document_lem = insert_document-Ensures;
  create_graph_lem = create_graph-Ensures;
  create_edge_definition_lem = create_edge_definition-Ensures;
}
