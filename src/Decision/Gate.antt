-- ===== src/Decision/Gate.antt =====
-- The submission gate: backend/app/modules/decision/domain/submission_gate.py, and the snapshot
-- that backend/app/modules/submission/infrastructure/decision_gate_reader.py takes of a decision.
use smart_ao_v.Base.{
  ℕ, Bool, true, false, not, ◌||◌, String, List, [], ◌∷◌, ◌++◌, str_eq, ◌==◌, is_nil, filter,
  length, if◌then◌else◌,
}
use smart_ao_v.Base.Int.{ℤ, pos, negsuc, ltb_ℤ}
use smart_ao_v.Decision.{
  Decision, DecisionLifecycle, DecisionOutcome, DecisionContextStatus, DecisionConditionStatus,
  draft, pending_patron, finalized, superseded, cancelled, undecided, go, conditional_go, no_go,
  accepted, rejected, authorized, not_authorized, incomplete, frozen, stale, not_applicable,
  open_condition, satisfied, failed, waived, is_open,
}

pub data SubmissionGateStatus : Type 0 where
  ready blocked : SubmissionGateStatus

-- The counts are integers: the `isinstance` tests of the source hold by their type.
pub record DecisionSubmissionGateSnapshot : Type 0 where
  pub lifecycle : String
  pub outcome : String
  pub context_status : String
  pub condition_status : String
  pub open_condition_count : ℤ
  pub unresolved_risk_action_count : ℤ
  pub all_dce_requirements_confirmed : Bool

pub data GateReason : Type 0 where
  invalid_decision_snapshot decision_not_finalized no_go_decision : GateReason
  decision_outcome_not_submittable decision_context_not_frozen : GateReason
  dce_requirements_not_confirmed conditional_go_open_conditions : GateReason
  unexpected_open_conditions unresolved_risk_actions : GateReason

pub record DecisionSubmissionGateResult : Type 0 where
  pub status : SubmissionGateStatus
  pub reasons : List GateReason

-- `can_submit`
abbrev pub can_submit : DecisionSubmissionGateResult → Bool
can_submit r = elim r.status [ ready ↦ true | blocked ↦ false ]

-- `if c: reasons.append(r)`
abbrev pub when : Bool → GateReason → List GateReason
when true r = r ∷ []
when false r = []

abbrev pub is_nonzero : ℤ → Bool
is_nonzero (pos n) = not (n == 0)
is_nonzero (negsuc n) = true

unfoldable pub gate_reasons : DecisionSubmissionGateSnapshot → List GateReason
gate_reasons s =
    when
      (ltb_ℤ s.open_condition_count (pos 0)
        || ltb_ℤ s.unresolved_risk_action_count (pos 0)
        || not s.all_dce_requirements_confirmed)
      invalid_decision_snapshot
    ++ (when (not (str_eq s.lifecycle "FINALIZED")) decision_not_finalized
        ++ ((if str_eq s.outcome "NO_GO"
              then no_go_decision ∷ []
              else when (not (str_eq s.outcome "GO" || str_eq s.outcome "CONDITIONAL_GO"))
                  decision_outcome_not_submittable)
            ++ (when (not (str_eq s.context_status "FROZEN")) decision_context_not_frozen
                ++ (when (not s.all_dce_requirements_confirmed) dce_requirements_not_confirmed
                    ++ ((if str_eq s.outcome "CONDITIONAL_GO"
                          then when
                              (not (str_eq s.condition_status "SATISFIED")
                                || is_nonzero s.open_condition_count)
                              conditional_go_open_conditions
                          else when
                              (not (str_eq s.condition_status "NOT_APPLICABLE")
                                || is_nonzero s.open_condition_count)
                              unexpected_open_conditions)
                        ++ when (is_nonzero s.unresolved_risk_action_count)
                            unresolved_risk_actions)))))

unfoldable pub evaluate_submission_gate :
    DecisionSubmissionGateSnapshot → DecisionSubmissionGateResult
unfolding gate_reasons
evaluate_submission_gate s = record {
  status = if is_nil (gate_reasons s) then ready else blocked;
  reasons = gate_reasons s;
}

-- The values of the enumerations, as they are stored.
unfoldable pub lifecycle_value : DecisionLifecycle → String
lifecycle_value draft = "DRAFT"
lifecycle_value pending_patron = "PENDING_PATRON"
lifecycle_value finalized = "FINALIZED"
lifecycle_value superseded = "SUPERSEDED"
lifecycle_value cancelled = "CANCELLED"

unfoldable pub outcome_value : DecisionOutcome → String
outcome_value undecided = "UNDECIDED"
outcome_value go = "GO"
outcome_value conditional_go = "CONDITIONAL_GO"
outcome_value no_go = "NO_GO"
outcome_value accepted = "ACCEPTED"
outcome_value rejected = "REJECTED"
outcome_value authorized = "AUTHORIZED"
outcome_value not_authorized = "NOT_AUTHORIZED"

unfoldable pub context_status_value : DecisionContextStatus → String
context_status_value incomplete = "INCOMPLETE"
context_status_value frozen = "FROZEN"
context_status_value stale = "STALE"

unfoldable pub condition_status_value : DecisionConditionStatus → String
condition_status_value not_applicable = "NOT_APPLICABLE"
condition_status_value open_condition = "OPEN"
condition_status_value satisfied = "SATISFIED"
condition_status_value failed = "FAILED"
condition_status_value waived = "WAIVED"

-- What the reader builds from the decision's row and its condition rows. The number of unresolved
-- risk actions and whether the requirements are confirmed come from its other queries.
unfoldable pub snapshot_of : ℕ → Bool → Decision → DecisionSubmissionGateSnapshot
snapshot_of risks confirmed d = record {
  lifecycle = lifecycle_value d.lifecycle;
  outcome = outcome_value d.outcome;
  context_status = context_status_value d.context_status;
  condition_status = condition_status_value d.condition_status;
  open_condition_count = pos (length (filter (λ c. is_open c.status) d.conditions));
  unresolved_risk_action_count = pos risks;
  all_dce_requirements_confirmed = confirmed;
}
