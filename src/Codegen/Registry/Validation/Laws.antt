-- ===== src/Codegen/Registry/Validation/Laws.antt =====
-- Which evidence a relationship may declare.

use semconv_graph.Base.{
  String, Bool, true, false, ◌||◌, Option, none, some, List, [], ◌∷◌, string_eq, contains, Result,
  ok, ◌>>=◌, guard, ◌≡◌, refl, arith, All, ◌↔◌, guard-eq-ok, >>=-eq-ok,
}
use semconv_graph.Codegen.Registry.{EvidenceScope, interaction, observation, RelationshipDefinition}
use semconv_graph.Codegen.Registry.Validation.{
  InvalidModel, unknown_source, unknown_target, unknown_signal, check_all, blank, check_evidence,
  known_signals, check_relationship,
}

pub check_all-All :
    {A : Type 0} (check : A → Result InvalidModel (Unit {0})) (xs : List A)
    → (check_all check xs ≡ ok tt) ↔ All (λ x. check x ≡ ok tt) xs
unfolding check_all
check_all-All check [] = (λ h. tt, λ h. refl)
check_all-All check (x ∷ xs) = (
  λ h.
      let (done, first, rest) = >>=-eq-ok (check x) _ h in
      (ground arith, (check_all-All check xs).0 rest),
  λ h. let rest = (check_all-All check xs).1 h.1 in let first = h.0 in ground arith,
)

-- What the signals and the connection of a relationship must be for its evidence scope.
pub IsEvidenced : Option EvidenceScope → Bool → Bool → Option String → Type 0
IsEvidenced none service_graph span_metrics connection =
    (service_graph ≡ false) × (span_metrics ≡ false) × (connection ≡ none)
IsEvidenced (some observation) service_graph span_metrics connection =
    ((service_graph || span_metrics) ≡ true) × (connection ≡ none)
IsEvidenced (some interaction) service_graph span_metrics connection =
    (service_graph ≡ true)
    × (span_metrics ≡ false)
    × (c : String) × (connection ≡ some c)
    × (blank c ≡ false)

-- A relationship between known entities, with known signals, whose evidence fits its scope.
pub record IsRelationship (available : List String) (r : RelationshipDefinition) : Type 0 where
  pub source_known : contains available r.source_entity ≡ true
  pub target_known : contains available r.target_entity ≡ true
  pub signals_known : All (λ signal. contains known_signals signal ≡ true) r.source_signals
  pub evidenced :
      IsEvidenced r.evidence_scope
        (contains r.source_signals "service_graph")
        (contains r.source_signals "span_metrics")
        r.connection_type

-- The part of `check_relationship` about the evidence.
evidence-IsEvidenced :
    (id : String) (scope : Option EvidenceScope) (service_graph span_metrics : Bool)
    (connection : Option String)
    → (check_evidence id scope service_graph span_metrics connection ≡ ok tt)
      ↔ IsEvidenced scope service_graph span_metrics connection
unfolding check_evidence IsEvidenced
evidence-IsEvidenced id none true true none = (λ h. ground arith, λ h. ground arith)
evidence-IsEvidenced id none true false none = (λ h. ground arith, λ h. ground arith)
evidence-IsEvidenced id none false true none = (λ h. ground arith, λ h. ground arith)
evidence-IsEvidenced id none false false none = (λ h. ground arith, λ h. ground arith)
evidence-IsEvidenced id none sg sm (some c) = (λ h. ground arith, λ h. ground arith)
evidence-IsEvidenced id (some observation) sg sm none = (λ h. ground arith, λ h. ground arith)
evidence-IsEvidenced id (some observation) sg sm (some c) = (λ h. ground arith, λ h. ground arith)
evidence-IsEvidenced id (some interaction) sg sm none = (λ h. ground arith, λ h. ground arith)
evidence-IsEvidenced id (some interaction) sg sm (some c) = (λ h. ground arith, λ h. ground arith)

pub All-guard :
    {A : Type 0} (test : A → Bool) (failure : A → InvalidModel) (xs : List A)
    → All (λ x. guard (test x) (failure x) ≡ ok tt) xs ↔ All (λ x. test x ≡ true) xs
All-guard test failure [] = (λ h. tt, λ h. tt)
All-guard test failure (x ∷ xs) = (
  λ h. (guard-eq-ok (test x) (failure x) h.0, (All-guard test failure xs).0 h.1),
  λ h. (let holds = h.0 in ground arith, (All-guard test failure xs).1 h.1),
)

-- A relationship passes the checks exactly if both its entities and all its signals are known, and its
-- evidence fits its scope: without a scope neither a graph signal nor a connection type; for an
-- observation a graph signal and no connection type; for an interaction the service graph but no span
-- metrics, and a connection type that is not blank.
pub check_relationship-IsRelationship :
    (available : List String) (r : RelationshipDefinition)
    → (check_relationship available r ≡ ok tt) ↔ IsRelationship available r
unfolding check_relationship
check_relationship-IsRelationship available r = (
  λ h.
      let (_, source, h1) =
        >>=-eq-ok (guard (contains available r.source_entity) (unknown_source r.id r.source_entity))
          _ h in
      let (_, target, h2) =
        >>=-eq-ok (guard (contains available r.target_entity) (unknown_target r.id r.target_entity))
          _ h1 in
      let (_, signals, h3) =
        >>=-eq-ok
          (check_all (λ signal. guard (contains known_signals signal) (unknown_signal r.id signal))
            r.source_signals)
          _ h2 in
      record {
        source_known = guard-eq-ok _ _ source;
        target_known = guard-eq-ok _ _ target;
        signals_known =
            (All-guard (contains known_signals) (unknown_signal r.id) r.source_signals).0
              ((check_all-All _ r.source_signals).0 signals);
        evidenced = (evidence-IsEvidenced r.id _ _ _ _).0 h3;
      },
  λ v.
      let signals =
        (check_all-All
            (λ signal. guard (contains known_signals signal) (unknown_signal r.id signal))
            r.source_signals).1
          ((All-guard (contains known_signals) (unknown_signal r.id) r.source_signals).1
            v.signals_known) in
      let evidence =
        (evidence-IsEvidenced r.id r.evidence_scope (contains r.source_signals "service_graph")
            (contains r.source_signals "span_metrics") r.connection_type).1
          v.evidenced in
      rw (v.source_known, guard, ◌>>=◌, v.target_known, guard, ◌>>=◌, signals, ◌>>=◌) evidence,
)
