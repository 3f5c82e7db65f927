-- ===== src/Indexer/Initialize/Prepared.antt =====
-- What the database holds after `ensure_topology` has returned.
use semconv_graph.Base.{
  ℕ, String, ◌<>◌, Bool, true, false, ◌||◌, Option, none, some, List, [], ◌∷◌, string_eq, nat_eq,
  ◌≡◌, refl, sym, ap, ◌∙◌, arith, All, Option-cases, inl, inr, string_dec,
}
use semconv_graph.Base.Sorting.{same_texts-eq}
use semconv_graph.Base.Actions.{
  Action, pure, ◌>>=◌, Ensures, >>=-Ensures, if-Ensures, lift_err-Ensures, pure-Ensures,
}
use semconv_graph.Base.Dict.{Dict, lookup}
use semconv_graph.Indexer.Schema.{IdentifyingProperty}
use semconv_graph.Indexer.Database.{TopologyFailure, Index, Database, find_index}
use semconv_graph.Indexer.Database.Documented.{
  Store, Grows, GrowsBeside, GrowsBeside-refl, GrowsBeside-trans, IsIndexed, Grows-IsIndexed,
  IsDocumented, is_given, HasDocument,
}
use semconv_graph.Indexer.Initialize.{
  variables_collection, provider_version, collection_number, same_type, same_bool, fits, make_index,
  element_index, identity_index, ensure_all, ensure_collection, ensure_index, ensure_indexes,
  ensure_tinkerpop_variables,
}

same_bool-eq : (a b : Bool) → same_bool a b ≡ true → a ≡ b
same_bool-eq true b h = sym h
same_bool-eq false true h = absurd (cc)
same_bool-eq false false h = refl

same_type-eq :
    (actual : Option ℕ) (expected : ℕ) (k : Option ℕ)
    → actual ≡ k
    → same_type actual expected ≡ true
    → k ≡ some expected
same_type-eq none expected k h fit = absurd (cc)
same_type-eq (some n) expected k h fit = ground arith

fits-IsIndexed :
    (c : String) (expected found : Index) (fields : List String) (v : Store)
    → v.index c expected.name ≡ some found
    → found.fields ≡ some fields
    → fits found fields expected ≡ true
    → IsIndexed v c expected
fits-IsIndexed c expected found fields v there given fit = elim (Option-cases expected.fields) [
  | inl unknown ↦ absurd (ground arith)
  | inr (wanted, asked) ↦
      let same : fields ≡ wanted = same_texts-eq fields wanted (ground arith) in
      record {
        found = found;
        there = there;
        same_fields = given ∙ ap some same ∙ sym asked;
        same_unique = same_bool-eq found.unique expected.unique (ground arith);
        same_sparse = same_bool-eq found.sparse expected.sparse (ground arith);
      }
]

abbrev variables_document : String → Dict String String
variables_document graph_name = ("_key", graph_name) ∷ ("_version", provider_version) ∷ []

variables_key :
    (graph_name : String) → lookup "_key" (variables_document graph_name) ≡ some graph_name
unfolding lookup string_dec
variables_key graph_name = refl

unfoldable pub HasIndexes : String → List IdentifyingProperty → Store → Type 0
HasIndexes collection identifying v =
    IsIndexed v collection element_index
    × All (λ p. IsIndexed v collection (identity_index p)) identifying

unfoldable pub HasCollection : String → Bool → List IdentifyingProperty → Store → Type 0
HasCollection collection edge identifying v =
    (v.kind collection ≡ some (collection_number edge)) × HasIndexes collection identifying v

pub All-stable :
    {A : Type 0} (P : A → Store → Type 0) (v w : Store)
    → ((x : A) → P x v → P x w)
    → (xs : List A) → All (λ x. P x v) xs
    → All (λ x. P x w) xs
All-stable P v w keep [] h = tt
All-stable P v w keep (x ∷ xs) (p, h) = (keep x p, All-stable P v w keep xs h)

pub Grows-HasCollection :
    (collection : String) (edge : Bool) (identifying : List IdentifyingProperty) (v w : Store)
    → Grows v w
    → HasCollection collection edge identifying v
    → HasCollection collection edge identifying w
unfolding HasCollection HasIndexes
Grows-HasCollection collection edge identifying v w g (kind, (element, identity)) = (
  g.kinds collection _ kind,
  (
    Grows-IsIndexed g element,
    All-stable (λ p u. IsIndexed u collection (identity_index p)) v w (λ p. Grows-IsIndexed g)
        identifying identity,
  ),
)

module _ (D : Database) (L : IsDocumented D) where
  abbrev pub view : D.State → Store
  view s = L.view s

  -- What a call that only adds has done to the contents, with the fact that it establishes.
  abbrev pub Added : {A : Type 0} → D.State → (Store → Type 0) → A → D.State → Type 0
  Added s P a t = GrowsBeside (view s) (view t) × P (view t)

  abbrev pub Adds : {A : Type 0} → Action TopologyFailure D.State A → (Store → Type 0) → Type 0
  Adds m P = (s : D.State) → Ensures m s (Added s P)

  Added-same :
      {A : Type 0} (s t : D.State) (P : Store → Type 0) (a : A)
      → view t ≡ view s
      → P (view t)
      → Added s P a t
  Added-same s t P a same p = (rw same (GrowsBeside-refl (view s)), p)

  Added-later :
      {A : Type 0} (s t u : D.State) (P : Store → Type 0) (a : A)
      → view t ≡ view s
      → Added t P a u
      → Added s P a u
  Added-later s t u P a same (grows, p) = (rw same at grows, p)

  ensure_collection-Adds :
      (name : String) (edge : Bool)
      → Adds (ensure_collection D name edge) (λ v. v.kind name ≡ some (collection_number edge))
  unfolding ensure_collection
  ensure_collection-Adds name edge s =
      let P = λ (v : Store). v.kind name ≡ some (collection_number edge) in
      let Q = Added {A = Bool} s P in
      let t = (D.has_collection name s).1 in
      >>=-Ensures (D.has_collection name) _ s Q λ there asked.
        let (says, same) = L.has_collection_lem name s there asked in
        if-Ensures there _ _ t Q
          (λ old. >>=-Ensures (D.collection_type name) _ t Q λ actual read.
            let (kind, same') = L.collection_type_lem name t actual read in
            if-Ensures (same_type actual (collection_number edge)) _ _ (D.collection_type name t).1
              Q
              (λ fit. pure-Ensures false _ Q (
                Added-same s (D.collection_type name t).1 P false (same' ∙ same)
                  (rw same' (same_type-eq actual _ _ kind fit))))
              (λ misfit. lift_err-Ensures _ _ Q))
          (λ new. >>=-Ensures (D.create_collection name edge) _ t Q λ done made.
            pure-Ensures true _ Q
              (Added-later s t _ P true same (L.create_collection_lem name edge t done made)))

  -- One call that only adds after another keeps what the first established.
  pub Added-trans :
      {A B : Type 0} (s t u : D.State) (P Q : Store → Type 0) (a : A) (b : B)
      → ((v w : Store) → Grows v w → P v → P w)
      → Added s P a t
      → Added t Q b u
      → Added s (λ v. P v × Q v) b u
  Added-trans s t u P Q a b stable (first, p) (next, q) =
      (GrowsBeside-trans first next, (stable (view t) (view u) next.grows p, q))

  pub >>=-Adds :
      {A B : Type 0} (m : Action TopologyFailure D.State A)
      (f : A → Action TopologyFailure D.State B) (P Q : Store → Type 0)
      → ((v w : Store) → Grows v w → P v → P w)
      → Adds m P
      → ((a : A) → Adds (f a) Q)
      → Adds (m >>= f) (λ v. P v × Q v)
  >>=-Adds m f P Q stable first rest s =
      >>=-Ensures m f s (Added s (λ v. P v × Q v)) λ a done b given.
        Added-trans s (m s).1 (f a (m s).1).1 P Q a b stable (first s a done)
          (rest a (m s).1 b given)

  ensure_index-Adds :
      (collection name field : String) (unique sparse : Bool)
      → Adds
          (ensure_index D collection (make_index name field unique sparse))
          (λ v. IsIndexed v collection (make_index name field unique sparse))
  unfolding ensure_index
  ensure_index-Adds collection name field unique sparse s =
      let expected = make_index name field unique sparse in
      let P = λ (v : Store). IsIndexed v collection expected in
      let Q = Added {A = Bool} s P in
      let t = (D.indexes collection s).1 in
      >>=-Ensures (D.indexes collection) _ s Q λ indexes asked.
        let (says, same) = L.indexes_lem collection s indexes asked in
        elim (Option-cases (find_index name indexes)) [
          | inl absent ↦ rw absent (
              >>=-Ensures (D.add_persistent_index collection expected) _ t Q λ done made.
                pure-Ensures true _ Q (
                  Added-later s t _ P true same
                    (L.add_persistent_index_lem collection expected t done made)))
          | inr (found, there) ↦ elim (Option-cases found.fields) [
            | inl none_given ↦ rw (there, none_given) (lift_err-Ensures _ t Q)
            | inr (fields, given) ↦
                rw (there, given)
                  (if-Ensures (fits found fields expected) _ _ t Q
                    (λ fit. pure-Ensures false t Q (
                      Added-same s t P false same (
                        fits-IsIndexed collection expected found fields (view t)
                          (ap (λ v. v.index collection name) same ∙ sym (says name) ∙ there) given
                          fit)))
                    (λ misfit. lift_err-Ensures _ t Q))
          ]
        ]

  pub ensure_all-Adds :
      {A : Type 0} (body : A → Action TopologyFailure D.State Bool) (P : A → Store → Type 0)
      → ((x : A) (v w : Store) → Grows v w → P x v → P x w)
      → ((x : A) → Adds (body x) (P x))
      → (xs : List A) (changed : Bool)
      → Adds (ensure_all D body xs changed) (λ v. All (λ x. P x v) xs)
  unfolding ensure_all
  ensure_all-Adds body P stable each [] changed s =
      pure-Ensures changed s (Added s (λ v. Unit {0})) (GrowsBeside-refl (view s), tt)
  ensure_all-Adds body P stable each (x ∷ xs) changed s =
      >>=-Adds (body x) _ (P x) (λ v. All (λ y. P y v) xs) (stable x) (each x)
        (λ c. ensure_all-Adds body P stable each xs (c || changed)) s

  ensure_indexes-Adds :
      (collection : String) (identifying : List IdentifyingProperty)
      → Adds (ensure_indexes D collection identifying) (HasIndexes collection identifying)
  unfolding ensure_indexes HasIndexes
  ensure_indexes-Adds collection identifying =
      >>=-Adds (ensure_index D collection element_index) _
        (λ v. IsIndexed v collection element_index)
        (λ v. All (λ p. IsIndexed v collection (identity_index p)) identifying)
        (λ v w. Grows-IsIndexed)
        (ensure_index-Adds collection "sg_element_id" "element_id" true false)
        (ensure_all-Adds (λ p. ensure_index D collection (identity_index p))
          (λ p v. IsIndexed v collection (identity_index p)) (λ p v w. Grows-IsIndexed)
          (λ p. ensure_index-Adds collection ("sg_identity_" <> p.property) p.property false true)
          identifying)

  pub ensure_both-Adds :
      (collection : String) (edge : Bool) (identifying : List IdentifyingProperty)
      → Adds
          (ensure_collection D collection edge >>= λ made.
            ensure_indexes D collection identifying >>= λ indexed. pure (indexed || made))
          (HasCollection collection edge identifying)
  unfolding HasCollection
  ensure_both-Adds collection edge identifying s =
      let Q = Added {A = Bool} s (HasCollection collection edge identifying) in
      >>=-Ensures (ensure_collection D collection edge) _ s Q λ c done.
        let t = (ensure_collection D collection edge s).1 in
        >>=-Ensures (ensure_indexes D collection identifying) _ t Q λ i done'.
          pure-Ensures (i || c) _ Q (
            Added-trans s t _ (λ v. v.kind collection ≡ some (collection_number edge))
              (HasIndexes collection identifying) c (i || c) (λ v w g. g.kinds collection _)
              (ensure_collection-Adds collection edge s c done)
              (ensure_indexes-Adds collection identifying t i done'))

  pub ensure_tinkerpop_variables-Adds :
      (graph_name : String)
      → Adds (ensure_tinkerpop_variables D graph_name) (λ v.
        (v.kind variables_collection ≡ some (collection_number false))
        × (HasDocument v variables_collection graph_name))
  unfolding ensure_tinkerpop_variables
  ensure_tinkerpop_variables-Adds graph_name s =
      let K = λ (v : Store). v.kind variables_collection ≡ some (collection_number false) in
      let P = λ (v : Store). HasDocument v variables_collection graph_name in
      let Q = Added {A = Bool} s (λ v. K v × P v) in
      >>=-Ensures (ensure_collection D variables_collection false) _ s Q λ c done.
        let t = (ensure_collection D variables_collection false s).1 in
        let first = ensure_collection-Adds variables_collection false s c done in
        >>=-Ensures (D.has_document variables_collection graph_name) _ t Q λ there asked.
          let u = (D.has_document variables_collection graph_name t).1 in
          let (says, same) = L.has_document_lem variables_collection graph_name t there asked in
          if-Ensures there _ _ u Q
            (λ old. pure-Ensures c u Q (
              Added-trans s t u K P c c (λ v w g. g.kinds variables_collection _) first
                (Added-same t u P c same (
                  ap (λ v. is_given (v.document variables_collection graph_name)) same
                  ∙ sym says
                  ∙ old))))
            (λ new. >>=-Ensures (D.insert_document variables_collection _) _ u Q λ done' made.
              let (grows, there') =
                L.insert_document_lem variables_collection graph_name
                  (variables_document graph_name) u (variables_key graph_name) done' made in
              pure-Ensures true _ Q (
                Added-trans s t _ K P c true (λ v w g. g.kinds variables_collection _) first
                  (Added-later t u _ P true same (grows, ap is_given there'))))
