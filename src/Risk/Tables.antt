-- ===== src/Risk/Tables.antt =====
-- The tables that the risk handlers of backend/app/modules/decision/application read and write, and the
-- errors and outcomes that they share.
use smart_ao_v.Base.{ℕ, String, Option, none, some, List, [], ◌∷◌, str_eq, if◌then◌else◌}
use smart_ao_v.Base.Json.{Json}
use smart_ao_v.Base.Int.{ℤ}
use smart_ao_v.Base.Result.{ok, err}
use smart_ao_v.Base.Method.{Method}
use smart_ao_v.Submission.GateReader.{CaseRecord}
use smart_ao_v.Events.Dispatcher.{HandlerOutcome}
use smart_ao_v.Risk.Domain.{RiskValidationError, LinkValidationError}

pub record DceDocumentExtractionRecord : Type 0 where
  pub id : ℕ
  pub tenant_id : ℕ
  pub dce_version_id : ℕ
  pub status : String

pub record DceDocumentExtractionFragmentRecord : Type 0 where
  pub id : ℕ
  pub tenant_id : ℕ
  pub extraction_id : ℕ
  pub text : String

pub record DecisionRiskRecord : Type 0 where
  pub id : ℕ
  pub tenant_id : ℕ
  pub case_id : ℕ
  pub dce_version_id : ℕ
  pub source_fragment_id : ℕ
  pub functional_key : String
  pub category : String
  pub risk_code : String
  pub title : String
  pub statement : String
  pub severity : String
  pub likelihood : String
  pub treatment : String
  pub source_excerpt : String
  pub source_locator : List (String × Json)
  pub start_byte_offset : ℤ
  pub end_byte_offset : ℤ
  pub actor_id : ℕ
  pub membership_id : ℕ
  pub command_id : ℕ
  pub idempotency_key : ℕ
  pub correlation_id : Option ℕ
  pub due_at : Option ℕ

-- The evidence of a treatment, with the columns that hold it.
pub record Evidence : Type 0 where
  pub excerpt : String
  pub locator : List (String × Json)
  pub start_byte_offset : ℤ
  pub end_byte_offset : ℤ
  pub rationale : String

pub record DecisionRiskTreatmentTransitionRecord : Type 0 where
  pub id : ℕ
  pub tenant_id : ℕ
  pub risk_id : ℕ
  pub from_treatment : String
  pub to_treatment : String
  pub evidence : Evidence
  pub aggregate_revision : ℕ
  pub actor_id : ℕ
  pub membership_id : ℕ
  pub command_id : ℕ
  pub idempotency_key : ℕ
  pub correlation_id : Option ℕ

pub record RiskTables : Type 0 where
  pub cases : List CaseRecord
  pub extractions : List DceDocumentExtractionRecord
  pub fragments : List DceDocumentExtractionFragmentRecord
  pub risks : List DecisionRiskRecord
  pub transitions : List DecisionRiskTreatmentTransitionRecord

pub record DecisionRiskSnapshot : Type 0 where
  pub id : ℕ
  pub tenant_id : ℕ
  pub case_id : ℕ
  pub dce_version_id : ℕ
  pub source_fragment_id : ℕ
  pub risk_code : String
  pub category : String
  pub title : String
  pub severity : String
  pub likelihood : String
  pub treatment : String
  pub revision : ℕ
  pub due_at : Option ℕ
  pub latest_treatment_evidence : Option Evidence

-- The codes of `CommandExecutionError`, and the errors of `validate`.
pub data RiskError : Type 0 where
  patron_required not_found_or_forbidden stale_dce_context : RiskError
  source_fragment_not_found_or_forbidden source_provenance_mismatch : RiskError
  risk_already_registered risk_not_found_or_forbidden risk_revision_conflict : RiskError
  invalid_treatment risk_treatment_not_current requirement_not_confirmed : RiskError
  link_already_exists : RiskError
  invalid_risk : RiskValidationError → RiskError
  invalid_link : LinkValidationError → RiskError

pub record CommandContext : Type 0 where
  pub tenant_id : ℕ
  pub actor_id : ℕ
  pub actor_kind : String
  pub membership_id : Option ℕ
  pub correlation_id : Option ℕ

-- The membership of a patron, without which the handlers raise.
abbrev pub patron_membership : CommandContext → Option ℕ
patron_membership c = if str_eq c.actor_kind "PATRON_ADMIN" then c.membership_id else none

-- `if x is None: raise CommandExecutionError(e)`
abbrev pub or_raise : {A S : Type 0} → RiskError → Option A → Method RiskError S A
or_raise e none d = (err e, d)
or_raise e (some a) d = (ok a, d)

-- An outcome about one aggregate, with one event.
abbrev pub single_outcome : String → String → ℕ → ℕ → String → HandlerOutcome
single_outcome code aggregate_type id revision event_type = record {
  result_code = code;
  aggregate_refs =
      record { aggregate_type = aggregate_type; aggregate_id = id; aggregate_revision = revision }
      ∷ [];
  events =
      record {
        aggregate_type = aggregate_type;
        aggregate_id = id;
        aggregate_revision = revision;
        event_type = event_type;
        topic = "cockpit_projection";
        payload_version = 1;
      }
      ∷ [];
}
