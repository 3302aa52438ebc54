-- ===== src/Risk/Treatment.antt =====
-- `TransitionStructuredRiskTreatmentHandler` of backend/app/modules/decision/application/risk.py, with
-- the repository's `transition`.
use smart_ao_v.Base.{
  ℕ, ◌+◌, String, not, Option, none, some, List, [], ◌∷◌, ◌++◌, str_eq, ◌==◌, find,
}
use smart_ao_v.Base.Result.{ok, err}
use smart_ao_v.Base.Method.{Method, pure, ◌>>=◌, ◌>>◌, raise_if, gets, modify}
use smart_ao_v.Events.Dispatcher.{HandlerOutcome}
use smart_ao_v.Risk.Domain.{
  RiskTreatment, treatment_value, treatment_of, validate_risk_treatment_transition,
}
use smart_ao_v.Risk.Tables.{
  Evidence, DecisionRiskTreatmentTransitionRecord, RiskTables, RiskError, CommandContext,
  patron_required, source_provenance_mismatch, risk_not_found_or_forbidden, risk_revision_conflict,
  invalid_treatment, risk_treatment_not_current, patron_membership, or_raise, single_outcome,
}
use smart_ao_v.Risk.Repository.{
  source_supports, is_risk, latest_treatment, current_treatment, current_revision, get_current,
}

pub record TransitionRiskTreatment : Type 0 where
  pub risk_id : ℕ
  pub case_id : ℕ
  pub expected_revision : ℕ
  pub to_treatment : String
  pub evidence : Evidence
  pub command_id : ℕ
  pub idempotency_key : ℕ

-- The two treatments, where a text that is no value or a move that is not allowed raises.
abbrev pub checked_treatments : String → String → Option (RiskTreatment × RiskTreatment)
checked_treatments before after = elim (treatment_of before) [
  | none ↦ none
  | some b ↦ elim (treatment_of after) [
    | none ↦ none
    | some a ↦ elim (validate_risk_treatment_transition b a) [ ok u ↦ some (b, a) | err e ↦ none ]
  ]
]

abbrev pub make_transition :
    TransitionRiskTreatment
    → CommandContext
    → ℕ
    → RiskTreatment × RiskTreatment
    → ℕ
    → DecisionRiskTreatmentTransitionRecord
make_transition m c membership (before, after) revision = record {
  id = m.command_id;
  tenant_id = c.tenant_id;
  risk_id = m.risk_id;
  from_treatment = treatment_value before;
  to_treatment = treatment_value after;
  evidence = m.evidence;
  aggregate_revision = revision;
  actor_id = c.actor_id;
  membership_id = membership;
  command_id = m.command_id;
  idempotency_key = m.idempotency_key;
  correlation_id = c.correlation_id;
}

-- `repository.transition`
unfoldable pub store_transition :
    DecisionRiskTreatmentTransitionRecord → Method RiskError RiskTables (Unit {0})
unfolding latest_treatment
store_transition t = do
  d ← gets (λ d. d)
  r ← or_raise risk_not_found_or_forbidden (find (is_risk t.tenant_id t.risk_id) d.risks)
  let latest = latest_treatment t.tenant_id t.risk_id d.transitions
  raise_if (not (str_eq (current_treatment r latest) t.from_treatment)) risk_treatment_not_current
  raise_if (not (current_revision latest + 1 == t.aggregate_revision)) risk_revision_conflict
  modify (λ d. record d { transitions = d.transitions ++ t ∷ [] })

module _ (encode_utf8 : String → List ℕ) (decode_utf8 : List ℕ → Option String) where
  -- `TransitionStructuredRiskTreatmentHandler.execute`
  unfoldable pub execute_transition :
      TransitionRiskTreatment → CommandContext → Method RiskError RiskTables HandlerOutcome
  unfolding get_current source_supports treatment_of validate_risk_treatment_transition
      store_transition
  execute_transition m c = do
    membership ← or_raise patron_required (patron_membership c)
    d ← gets (λ d. d)
    s ← or_raise risk_not_found_or_forbidden (get_current c.tenant_id m.case_id m.risk_id d)
    raise_if (not (s.revision == m.expected_revision)) risk_revision_conflict
    moves ← or_raise invalid_treatment (checked_treatments s.treatment m.to_treatment)
    raise_if
        (not (
          source_supports encode_utf8 decode_utf8 c.tenant_id s.dce_version_id s.source_fragment_id
            m.evidence.excerpt m.evidence.start_byte_offset m.evidence.end_byte_offset d))
        source_provenance_mismatch
    store_transition (make_transition m c membership moves (s.revision + 1))
    pure (
        single_outcome "DECISION_RISK_TREATMENT_TRANSITIONED" "DecisionRisk" m.risk_id
          (s.revision + 1) "DecisionRiskTreatmentTransitioned")
