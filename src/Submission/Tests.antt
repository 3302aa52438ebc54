-- ===== src/Submission/Tests.antt =====
-- A case whose one risk has a completed action, and the theorems at it.
use smart_ao_v.Base.{
  ℕ, ◌≡◌, ◌↔◌, refl, String, true, none, some, List, [], ◌∷◌, ◌==◌, if◌then◌else◌,
}
use smart_ao_v.Decision.Gate.{can_submit, evaluate_submission_gate, DecisionSubmissionGateSnapshot}
use smart_ao_v.PatronAction.Transition.{
  PatronActionRecord, TransitionPatronActionCommand, CommandContext, Tables, find_latest,
}
use smart_ao_v.PatronAction.History.{run}
use smart_ao_v.Submission.GateReader.{
  DecisionRecord, CaseRecord, DecisionRiskRequirementLinkRecord, Rows, find_decision,
  unresolved_risk_action_count, all_dce_requirements_confirmed, read,
}
use smart_ao_v.Submission.Risks.{resolved_risks_stay}
use smart_ao_v.Submission.Requirements.{is_confirmed, confirmed-IsConfirmed}
use smart_ao_v.Submission.Reading.{IsReady, read_gate_opens_iff}

-- Texts of identifiers, for the run.
abbrev uuid_text : ℕ → String
uuid_text n = if◌then◌else◌ (n == 4) "four" "other"

abbrev treat : PatronActionRecord
treat = record {
  id = 1;
  tenant_id = 7;
  case_id = some 30;
  functional_key = "decision-risk-requirement:four";
  action_type = "DECIDE_GO_NO_GO";
  severity = "HIGH";
  state = "COMPLETED";
  aggregate_revision = 3;
}

abbrev call_back : PatronActionRecord
call_back = record treat { id = 2; functional_key = "other"; state = "OPEN" }

abbrev link : DecisionRiskRequirementLinkRecord
link = record {
  id = 4;
  tenant_id = 7;
  case_id = 30;
  risk_id = 85;
  requirement_id = 90;
  dce_version_id = 80;
  functional_key = "key";
  relationship = "IMPACTS";
  rationale = "It delays the works";
  source_refs = [];
  actor_id = 5;
  membership_id = 6;
  command_id = 20;
  idempotency_key = 50;
  correlation_id = none;
}

abbrev decided : DecisionRecord
decided = record {
  id = 50;
  tenant_id = 7;
  case_id = 30;
  decision_type = "GO_NO_GO";
  validity = "CURRENT";
  cycle_number = 2;
  updated_at = 900;
  lifecycle = "FINALIZED";
  outcome = "GO";
  context_status = "FROZEN";
  condition_status = "NOT_APPLICABLE";
  selected_final_context_id = some 60;
}

abbrev tables : Tables
tables = record { actions = treat ∷ call_back ∷ []; transitions = [] }

abbrev tender : CaseRecord
tender = record { id = 30; tenant_id = 7; applicable_dce_version_id = some 80 }

abbrev rows : Rows
rows = record {
  decisions = record decided { id = 49; cycle_number = 1; outcome = "NO_GO" } ∷ decided ∷ [];
  conditions = record { tenant_id = 7; decision_id = 49; status = "OPEN" } ∷ [];
  references =
      record {
        tenant_id = 7;
        decision_context_id = 60;
        aggregate_type = "DCE_REQUIREMENT";
        aggregate_id = 90;
      }
      ∷ [];
  links = link ∷ [];
  cases = tender ∷ [];
  requirements = record { id = 90; tenant_id = 7; dce_version_id = 80 } ∷ [];
  confirmations = record { tenant_id = 7; requirement_id = 90; outcome = "CONFIRMED" } ∷ [];
  patron_actions = tables;
}

abbrev patron : CommandContext
patron = record { tenant_id = 7; actor_id = 5; membership_id = some 6 }

abbrev reopen : TransitionPatronActionCommand
reopen = record {
  transition_id = 11;
  action_id = 1;
  expected_revision = 3;
  target_state = "IN_PROGRESS";
  reason_code = "AGAIN";
  command_id = 21;
  idempotency_key = 51;
  correlation_id = some 31;
}

abbrev commands : List (TransitionPatronActionCommand × CommandContext)
commands = (reopen, patron) ∷ (record reopen { action_id = 2 }, patron) ∷ []

none_unresolved : unresolved_risk_action_count uuid_text 7 30 (link ∷ []) tables ≡ 0
unfolding unresolved_risk_action_count find_latest
none_unresolved = refl

decided_found : find_decision 7 30 rows.decisions ≡ some decided
unfolding find_decision
decided_found = refl

all_confirmed : all_dce_requirements_confirmed 7 30 (some 60) rows ≡ true
unfolding all_dce_requirements_confirmed
all_confirmed = refl

resolved_risks_stay_example :
    unresolved_risk_action_count uuid_text 7 30 (link ∷ []) (run commands tables) ≡ 0
resolved_risks_stay_example =
    resolved_risks_stay uuid_text 7 30 commands tables (link ∷ []) refl none_unresolved

confirmed-IsConfirmed_example : is_confirmed 7 30 80 90 rows.confirmations rows.requirements ≡ true
confirmed-IsConfirmed_example =
    confirmed-IsConfirmed 7 30 rows 60 80 tender 90 refl refl refl refl all_confirmed refl

read_gate_opens_iff_example :
    ((s : DecisionSubmissionGateSnapshot) × (read uuid_text 7 30 rows ≡ some s)
      × (can_submit (evaluate_submission_gate s) ≡ true))
    ↔ ((r : DecisionRecord) × (find_decision 7 30 rows.decisions ≡ some r)
        × IsReady uuid_text 7 30 rows r)
read_gate_opens_iff_example = read_gate_opens_iff uuid_text 7 30 rows
