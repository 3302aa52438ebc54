-- ===== src/Decision/Readiness.antt =====
-- When the gate of backend/app/modules/decision/domain/submission_gate.py opens, on any snapshot and
-- on one taken of a decision, and the path from a conditional approval through the gate.
use smart_ao_v.Base.{
  ℕ, ◌≡◌, ◌≢◌, ◌↔◌, refl, ◌⊎◌, Bool, true, String, List, [], ◌∷◌, arith, eq_iff, filter, length,
}
use smart_ao_v.Base.Int.{pos}
use smart_ao_v.Decision.{
  Decision, DecisionCondition, DecisionLifecycle, DecisionContextStatus, DecisionOutcome,
  DecisionConditionStatus, finalized, go, conditional_go, frozen, not_applicable, satisfied,
  is_open,
}
use smart_ao_v.Decision.Gate.{
  DecisionSubmissionGateSnapshot, blocked, can_submit, evaluate_submission_gate, snapshot_of,
  lifecycle_value, context_status_value, outcome_value, condition_status_value,
}
use smart_ao_v.Decision.Satisfaction.{AllSettled}

-- What the gate asks for, apart from the code.
pub record IsSubmittable (s : DecisionSubmissionGateSnapshot) : Type 0 where
  pub final : s.lifecycle ≡ "FINALIZED"
  pub on_frozen_context : s.context_status ≡ "FROZEN"
  pub confirmed : s.all_dce_requirements_confirmed ≡ true
  pub no_open_condition : s.open_condition_count ≡ pos 0
  pub no_unresolved_risk : s.unresolved_risk_action_count ≡ pos 0
  pub positive :
      (s.outcome ≡ "GO") × (s.condition_status ≡ "NOT_APPLICABLE")
      ⊎ (s.outcome ≡ "CONDITIONAL_GO") × (s.condition_status ≡ "SATISFIED")

go-ne-no_go : ◌≢◌ {A = String} "GO" "NO_GO"
go-ne-no_go = ground (arith, eq_iff "GO" "NO_GO")

conditional_go-ne-no_go : ◌≢◌ {A = String} "CONDITIONAL_GO" "NO_GO"
conditional_go-ne-no_go = ground (arith, eq_iff "CONDITIONAL_GO" "NO_GO")

go-ne-conditional_go : ◌≢◌ {A = String} "GO" "CONDITIONAL_GO"
go-ne-conditional_go = ground (arith, eq_iff "GO" "CONDITIONAL_GO")

-- The gate is open exactly for a submittable snapshot, and a closed gate names a reason.
pub gate_opens_iff :
    (s : DecisionSubmissionGateSnapshot)
    → ((can_submit (evaluate_submission_gate s) ≡ true) ↔ IsSubmittable s)
      × ((evaluate_submission_gate s).status ≡ blocked → (evaluate_submission_gate s).reasons ≢ [])
unfolding evaluate_submission_gate
gate_opens_iff s = ground (
  arith,
  eq_iff s.lifecycle "FINALIZED",
  eq_iff s.outcome "NO_GO",
  eq_iff s.outcome "GO",
  eq_iff s.outcome "CONDITIONAL_GO",
  eq_iff s.context_status "FROZEN",
  eq_iff s.condition_status "SATISFIED",
  eq_iff s.condition_status "NOT_APPLICABLE",
  go-ne-no_go,
  conditional_go-ne-no_go,
  go-ne-conditional_go,
)

pub count_open-of_settled :
    (cs : List DecisionCondition) → AllSettled cs → length (filter (λ c. is_open c.status) cs) ≡ 0
count_open-of_settled [] s = refl
count_open-of_settled (c ∷ cs) s = ground (arith, count_open-of_settled cs s.1)

-- What the gate asks of the decision itself.
abbrev pub IsCleared : Decision → Type 0
IsCleared d =
    (d.lifecycle ≡ finalized)
    × (d.context_status ≡ frozen)
    × (length (filter (λ c. is_open c.status) d.conditions) ≡ 0)
    × ((d.outcome ≡ go) × (d.condition_status ≡ not_applicable)
        ⊎ (d.outcome ≡ conditional_go) × (d.condition_status ≡ satisfied))

lifecycle_value-finalized :
    (l : DecisionLifecycle) → (lifecycle_value l ≡ "FINALIZED") ↔ (l ≡ finalized)
unfolding lifecycle_value
lifecycle_value-finalized finalized = ground arith
lifecycle_value-finalized l = ground (arith, eq_iff (lifecycle_value l) "FINALIZED")

context_status_value-frozen :
    (x : DecisionContextStatus) → (context_status_value x ≡ "FROZEN") ↔ (x ≡ frozen)
unfolding context_status_value
context_status_value-frozen frozen = ground arith
context_status_value-frozen x = ground (arith, eq_iff (context_status_value x) "FROZEN")

outcome_value-go : (o : DecisionOutcome) → (outcome_value o ≡ "GO") ↔ (o ≡ go)
unfolding outcome_value
outcome_value-go go = ground arith
outcome_value-go o = ground (arith, eq_iff (outcome_value o) "GO")

outcome_value-conditional_go :
    (o : DecisionOutcome) → (outcome_value o ≡ "CONDITIONAL_GO") ↔ (o ≡ conditional_go)
unfolding outcome_value
outcome_value-conditional_go conditional_go = ground arith
outcome_value-conditional_go o = ground (arith, eq_iff (outcome_value o) "CONDITIONAL_GO")

condition_status_value-not_applicable :
    (c : DecisionConditionStatus)
    → (condition_status_value c ≡ "NOT_APPLICABLE") ↔ (c ≡ not_applicable)
unfolding condition_status_value
condition_status_value-not_applicable not_applicable = ground arith
condition_status_value-not_applicable c =
    ground (arith, eq_iff (condition_status_value c) "NOT_APPLICABLE")

condition_status_value-satisfied :
    (c : DecisionConditionStatus) → (condition_status_value c ≡ "SATISFIED") ↔ (c ≡ satisfied)
unfolding condition_status_value
condition_status_value-satisfied satisfied = ground arith
condition_status_value-satisfied c = ground (arith, eq_iff (condition_status_value c) "SATISFIED")

values-IsCleared :
    (risks : ℕ) (confirmed : Bool) (d : Decision)
    → IsSubmittable (snapshot_of risks confirmed d)
      ↔ ((risks ≡ 0) × (confirmed ≡ true) × IsCleared d)
unfolding snapshot_of
values-IsCleared risks confirmed d = ground (
  arith,
  lifecycle_value-finalized d.lifecycle,
  context_status_value-frozen d.context_status,
  outcome_value-go d.outcome,
  outcome_value-conditional_go d.outcome,
  condition_status_value-not_applicable d.condition_status,
  condition_status_value-satisfied d.condition_status,
)

-- On the snapshot that the reader takes, the gate is open exactly for a final Go, or a conditional
-- Go with satisfied conditions, on a frozen context, with no open condition, no unresolved risk
-- action and all requirements confirmed.
pub decision_gate_opens_iff :
    (risks : ℕ) (confirmed : Bool) (d : Decision)
    → (can_submit (evaluate_submission_gate (snapshot_of risks confirmed d)) ≡ true)
      ↔ ((risks ≡ 0) × (confirmed ≡ true) × IsCleared d)
decision_gate_opens_iff risks confirmed d =
    let gate = (gate_opens_iff (snapshot_of risks confirmed d)).0 in
    let values = values-IsCleared risks confirmed d in
    (λ h. values.0 (gate.0 h), λ h. gate.1 (values.1 h))
