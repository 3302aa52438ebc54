-- ===== src/Risk/Tests.antt =====
-- A case with one registered risk: its treatment is changed, and it is linked to a requirement.
use smart_ao_v.PatronAction.Transition.{find_latest}
use smart_ao_v.Submission.GateReader.{find_decision}
use smart_ao_v.Base.{strip}
use smart_ao_v.Base.{
  ℕ, ◌≡◌, refl, String, true, false, Option, none, some, List, [], ◌∷◌, ◌==◌, ltb, text_length,
  if◌then◌else◌,
}
use smart_ao_v.Base.Json.{integer}
use smart_ao_v.Base.Int.{pos}
use smart_ao_v.Decision.Gate.{can_submit, evaluate_submission_gate, DecisionSubmissionGateSnapshot}
use smart_ao_v.Submission.GateReader.{DecisionRecord, CaseRecord, Rows, read}
use smart_ao_v.Risk.Domain.{RiskTreatment, treatment_value, is_allowed, ccap, high, likely, impacts}
use smart_ao_v.Risk.Tables.{DecisionRiskSnapshot, RiskTables, CommandContext}
use smart_ao_v.Risk.Repository.{get_current}
use smart_ao_v.Risk.Register.{RegisterStructuredRisk, risk_key, execute_register}
use smart_ao_v.Risk.Treatment.{TransitionRiskTreatment, execute_transition}
use smart_ao_v.Risk.ReadBack.{transition-get_current}
use smart_ao_v.Risk.Linking.{LinkRiskToRequirement, LinkTables, execute_link}
use smart_ao_v.Risk.Closing.{accepted_link_closes_gate}

-- A text of 36 characters for each identifier, and UTF-8 on the texts of the run.
abbrev uuid_text : ℕ → String
uuid_text n =
    if◌then◌else◌ (n == 85) "00000000-0000-0000-0000-000000000085"
      "00000000-0000-0000-0000-000000000000"

abbrev encode_utf8 : String → List ℕ
encode_utf8 s = 80 ∷ 69 ∷ 78 ∷ []

abbrev decode_utf8 : List ℕ → Option String
decode_utf8 [] = some ""
decode_utf8 (b ∷ _) = if◌then◌else◌ (b == 80) (some "PEN") none

abbrev tender : CaseRecord
tender = record { id = 30; tenant_id = 7; applicable_dce_version_id = some 80 }

abbrev patron : CommandContext
patron = record {
  tenant_id = 7;
  actor_id = 5;
  actor_kind = "PATRON_ADMIN";
  membership_id = some 6;
  correlation_id = none;
}

abbrev register : RegisterStructuredRisk
register = record {
  risk_id = 85;
  case_id = 30;
  dce_version_id = 80;
  source_fragment_id = 70;
  category = ccap;
  risk_code = "PENALTIES-OF-DELAY-ON-THE-WHOLE-OF-THE-WORKS-OF-LOT-2";
  title = "Penalties";
  statement = "Penalties are due from the first day";
  severity = high;
  likelihood = likely;
  source_excerpt = "PEN";
  source_locator = ("page", integer (pos 4)) ∷ [];
  start_byte_offset = pos 0;
  end_byte_offset = pos 3;
  due_at = none;
  command_id = 20;
  idempotency_key = 50;
}

abbrev empty : RiskTables
empty = record {
  cases = tender ∷ [];
  extractions = record { id = 60; tenant_id = 7; dce_version_id = 80; status = "COMPLETED" } ∷ [];
  fragments = record { id = 70; tenant_id = 7; extraction_id = 60; text = "PEN" } ∷ [];
  risks = [];
  transitions = [];
}

abbrev registered : RiskTables
registered = (execute_register uuid_text encode_utf8 decode_utf8 register patron empty).1

-- An accepted code of 53 characters makes a key of more than the 160 characters of its column.
key_overflows : ltb 160 (text_length (risk_key uuid_text register)) ≡ true
key_overflows = refl

abbrev accept_risk : TransitionRiskTreatment
accept_risk = record {
  risk_id = 85;
  case_id = 30;
  expected_revision = 1;
  to_treatment = "ACCEPTED";
  evidence = record {
    excerpt = "PEN";
    locator = ("page", integer (pos 4)) ∷ [];
    start_byte_offset = pos 0;
    end_byte_offset = pos 3;
    rationale = "The delay is in our hands";
  };
  command_id = 21;
  idempotency_key = 51;
}

abbrev treated : RiskTables
treated = (execute_transition encode_utf8 decode_utf8 accept_risk patron registered).1

transition-get_current_example :
    (s : DecisionRiskSnapshot) × (get_current 7 30 85 registered ≡ some s)
    × (get_current 7 30 85 treated
        ≡ some (record s {
          treatment = "ACCEPTED";
          revision = 2;
          latest_treatment_evidence = some accept_risk.evidence;
        }))
    × ((b : RiskTreatment) × (a : RiskTreatment) × (treatment_value b ≡ s.treatment)
        × (treatment_value a ≡ "ACCEPTED")
        × (is_allowed b a ≡ true))
unfolding execute_transition execute_register strip
transition-get_current_example =
    transition-get_current encode_utf8 decode_utf8 accept_risk patron registered refl

abbrev link : LinkRiskToRequirement
link = record {
  link_id = 4;
  case_id = 30;
  risk_id = 85;
  requirement_id = 90;
  dce_version_id = 80;
  relationship = impacts;
  rationale = "The penalties bear on the planning";
  command_id = 22;
  idempotency_key = 52;
}

abbrev decided : DecisionRecord
decided = record {
  id = 50;
  tenant_id = 7;
  case_id = 30;
  decision_type = "GO_NO_GO";
  validity = "CURRENT";
  cycle_number = 1;
  updated_at = 900;
  lifecycle = "FINALIZED";
  outcome = "GO";
  context_status = "FROZEN";
  condition_status = "NOT_APPLICABLE";
  selected_final_context_id = some 60;
}

abbrev rows : Rows
rows = record {
  decisions = decided ∷ [];
  conditions = [];
  references = [];
  links = [];
  cases = tender ∷ [];
  requirements = record { id = 90; tenant_id = 7; dce_version_id = 80 } ∷ [];
  confirmations = record { tenant_id = 7; requirement_id = 90; outcome = "CONFIRMED" } ∷ [];
  patron_actions = record { actions = []; transitions = [] };
}

abbrev before : LinkTables
before = record { risks = registered.risks; rows = rows }

abbrev linked : Rows
linked = (execute_link uuid_text link patron before).1.rows

abbrev reading : DecisionSubmissionGateSnapshot
reading = record {
  lifecycle = "FINALIZED";
  outcome = "GO";
  context_status = "FROZEN";
  condition_status = "NOT_APPLICABLE";
  open_condition_count = pos 0;
  unresolved_risk_action_count = pos 1;
  all_dce_requirements_confirmed = true;
}

read-linked : read uuid_text 7 30 linked ≡ some reading
unfolding read find_decision execute_link execute_register strip find_latest
read-linked = refl

accepted_link_closes_gate_example : can_submit (evaluate_submission_gate reading) ≡ false
unfolding execute_link execute_register strip find_latest
accepted_link_closes_gate_example =
    accepted_link_closes_gate uuid_text link patron before reading refl refl refl read-linked
