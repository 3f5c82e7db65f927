-- ===== src/Gremlin/Client/Laws.antt =====
-- What a query returns, when it reaches the server, and what a closed client does.

use semconv_graph.Base.{
  String, true, false, Option, some, List, [], ◌∷◌, string_eq, nat_eq, Result, ok, err, ◌≡◌, ◌⊎◌,
  inl, inr, refl, none, if◌then◌else◌, sym, arith, Result-cases, Bool-cases, >>=-eq-ok,
}
use semconv_graph.Base.Actions.{Action}
use semconv_graph.Gremlin.Steps.{TraverserKind}
use semconv_graph.Gremlin.Traversal.{Instruction, validate_element_traversal}
use semconv_graph.Gremlin.Traversal.Laws.{Yields, validate_element_traversal-Yields}
use semconv_graph.Gremlin.Values.{Value, Attributes}
use semconv_graph.Gremlin.Models.{EntityModel, EdgeModel, SemanticEdge}
use semconv_graph.Gremlin.Client.{
  GraphElement, semantic_element_from_map, elements_from, QueryError, closed_client,
  not_a_traversal, not_supported, callback_error, Remote, ClientState, close, run_query, query,
}

module _ {Entity : Type 0} (entity_models : String → Option EntityModel)
    (model_validate : EntityModel → Attributes → Result String Entity)
    (edge_models : String → String → String → Option EdgeModel)
    (validate_fields : SemanticEdge → Result String (Unit {0})) where
  -- Each result became the element at its place.
  abbrev pub Reconstructed : List Value → List (GraphElement Entity) → Type 0
  Reconstructed [] [] = Unit
  Reconstructed (v ∷ vs) (e ∷ es) =
      (semantic_element_from_map entity_models model_validate edge_models validate_fields v ≡ ok e)
      × Reconstructed vs es
  Reconstructed _ _ = ⊥

  elements_from-Reconstructed :
      (results : List Value) (elements : List (GraphElement Entity))
      → elements_from entity_models model_validate edge_models validate_fields results ≡ ok elements
      → Reconstructed results elements
  unfolding elements_from
  elements_from-Reconstructed [] [] h = tt
  elements_from-Reconstructed [] (e ∷ es) h = absurd (cc)
  elements_from-Reconstructed (v ∷ vs) elements h =
      let (e, made, h1) =
        >>=-eq-ok
          (semantic_element_from_map entity_models model_validate edge_models validate_fields v) _
          h in
      let (es, rest, h2) =
        >>=-eq-ok (elements_from entity_models model_validate edge_models validate_fields vs) _
          h1 in
      let same : e ∷ es ≡ elements = ground arith in
      rw (sym same) (made, elements_from-Reconstructed vs es rest)

  module _ (R : Remote) where
    -- A query that was sent and answered.
    pub record IsAnswered (build : Action String R.State (Option (List Instruction)))
        (client : ClientState R.State) (elements : List (GraphElement Entity)) : Type 0 where
      pub candidate : List Instruction
      pub kind : TraverserKind
      pub raw_results : List Value
      pub is_open : client.closed ≡ false
      pub given : (build client.connection).0 ≡ ok (some candidate)
      pub accepted : Yields candidate kind
      pub evaluated : (R.to_list candidate (build client.connection).1).0 ≡ ok raw_results
      pub reconstructed : Reconstructed raw_results elements

    query-parts :
        (build : Action String R.State (Option (List Instruction))) (client : ClientState R.State)
        {elements : List (GraphElement Entity)}
        → (query R entity_models model_validate edge_models validate_fields build client).0
          ≡ ok elements
        → (candidate : List Instruction) × (kind : TraverserKind) × (raw_results : List Value)
          × (client.closed ≡ false)
          × ((build client.connection).0 ≡ ok (some candidate))
          × (validate_element_traversal candidate ≡ ok kind)
          × ((R.to_list candidate (build client.connection).1).0 ≡ ok raw_results)
          × (elements_from entity_models model_validate edge_models validate_fields raw_results
              ≡ ok elements)
    unfolding query run_query
    query-parts build client h = ground arith

    -- A query that returns was sent by an open client, for a traversal that yields vertices or edges,
    -- and gives one element for each result of the server, in order, each reconstructed from its own.
    pub query-IsAnswered :
        (build : Action String R.State (Option (List Instruction))) (client : ClientState R.State)
        {elements : List (GraphElement Entity)}
        → (query R entity_models model_validate edge_models validate_fields build client).0
          ≡ ok elements
        → IsAnswered build client elements
    query-IsAnswered build client h =
        let (candidate, kind, raw_results, is_open, given, accepted, evaluated, made) =
          query-parts build client h in
        record {
          candidate = candidate;
          kind = kind;
          raw_results = raw_results;
          is_open = is_open;
          given = given;
          accepted = (validate_element_traversal-Yields candidate kind).0 accepted;
          evaluated = evaluated;
          reconstructed = elements_from-Reconstructed raw_results _ made;
        }

    -- What the callback leaves of the client.
    abbrev pub called :
        Action String R.State (Option (List Instruction))
        → ClientState R.State
        → ClientState R.State
    called build client = record client { connection = (build client.connection).1 }

    outcomes :
        (r : Result String (Option (List Instruction)))
        → ((e : String) × (r ≡ err e))
          ⊎ ((r ≡ ok none) ⊎ ((candidate : List Instruction) × (r ≡ ok (some candidate))))
    outcomes (err e) = inl (e, refl)
    outcomes (ok none) = inr (inl refl)
    outcomes (ok (some candidate)) = inr (inr (candidate, refl))

    -- The server is asked only by an open client and for a traversal that yields vertices or edges: otherwise the
    -- query raises, and leaves a closed client as it was, and an open one but for what the callback did.
    pub query_unsent :
        (build : Action String R.State (Option (List Instruction))) (client : ClientState R.State)
        → (client.closed ≡ true)
          ⊎ ((candidate : List Instruction) (kind : TraverserKind)
              → (build client.connection).0 ≡ ok (some candidate)
              → ¬ Yields candidate kind)
        → (e : QueryError) × (query R entity_models model_validate edge_models validate_fields build
              client
            ≡ (err e, if client.closed then client else called build client))
    unfolding query
    query_unsent build client why = elim (Bool-cases client.closed) [
      | inl shut ↦ (closed_client, ground arith)
      | inr is_open ↦ elim (outcomes (build client.connection).0) [
        | inl (e, raised) ↦ (callback_error e, ground arith)
        | inr (inl nothing) ↦ (not_a_traversal, ground arith)
        | inr (inr (candidate, given)) ↦
            elim (Result-cases (validate_element_traversal candidate)) [
              | inl (e, refused) ↦ (not_supported e, ground arith)
              | inr (kind, accepted) ↦
                  let yields = (validate_element_traversal-Yields candidate kind).0 accepted in
                  elim why [
                    | inl shut ↦ absurd (cc)
                    | inr never ↦ absurd (never candidate kind given yields)
                  ]
            ]
      ]
    ]

-- Once `close` has returned, closing again calls nothing and changes nothing, and every query is refused.
pub close-closed :
    (R : Remote) {Entity : Type 0} (entity_models : String → Option EntityModel)
    (model_validate : EntityModel → Attributes → Result String Entity)
    (edge_models : String → String → String → Option EdgeModel)
    (validate_fields : SemanticEdge → Result String (Unit {0})) (client : ClientState R.State)
    (build : Action String R.State (Option (List Instruction)))
    → (close R client).0 ≡ ok tt
    → let after = (close R client).1 in
      (close R after ≡ (ok tt, after))
      × (query R entity_models model_validate edge_models validate_fields build after
          ≡ (err closed_client, after))
unfolding close query
close-closed R entity_models model_validate edge_models validate_fields client build h =
    let shut : (close R client).1.closed ≡ true = elim (Bool-cases client.closed) [
      | inl old ↦ ground arith
      | inr fresh ↦ elim (Result-cases (R.disconnect client.connection).0) [
        | inl (e, failed) ↦ absurd (ground arith)
        | inr (done, returned) ↦ ground arith
      ]
    ] in
    (ground arith, ground arith)
