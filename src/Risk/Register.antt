-- ===== src/Risk/Register.antt =====
-- `RegisterStructuredRiskHandler` of backend/app/modules/decision/application/risk.py.
use smart_ao_v.Base.{ℕ, String, Bool, not, Option, List, [], ◌∷◌, ◌++◌, str_eq, any, ◌==◌, ◌&&◌}
use smart_ao_v.Base.Json.{Json}
use smart_ao_v.Base.Int.{ℤ}
use smart_ao_v.Base.Result.{ok, err}
use smart_ao_v.Base.Method.{Method, pure, ◌>>=◌, ◌>>◌, raise_if, gets, modify}
use smart_ao_v.Events.Dispatcher.{HandlerOutcome}
use smart_ao_v.Risk.Domain.{
  RiskCategory, RiskSeverity, RiskLikelihood, untreated, category_value, severity_value,
  likelihood_value, treatment_value, StructuredRisk, validate_risk,
}
use smart_ao_v.Risk.Tables.{
  DecisionRiskRecord, RiskTables, RiskError, CommandContext, patron_required,
  not_found_or_forbidden, stale_dce_context, source_fragment_not_found_or_forbidden,
  source_provenance_mismatch, risk_already_registered, invalid_risk, patron_membership, or_raise,
  single_outcome,
}
use smart_ao_v.Risk.Repository.{case_exists, case_uses_dce_version, source_exists, source_supports}
use Prim.Native.String

pub record RegisterStructuredRisk : Type 0 where
  pub risk_id : ℕ
  pub case_id : ℕ
  pub dce_version_id : ℕ
  pub source_fragment_id : ℕ
  pub category : RiskCategory
  pub risk_code : String
  pub title : String
  pub statement : String
  pub severity : RiskSeverity
  pub likelihood : RiskLikelihood
  pub source_excerpt : String
  pub source_locator : List (String × Json)
  pub start_byte_offset : ℤ
  pub end_byte_offset : ℤ
  pub due_at : Option ℕ
  pub command_id : ℕ
  pub idempotency_key : ℕ

-- The risk of the command.
abbrev pub make_risk : RegisterStructuredRisk → StructuredRisk
make_risk m = record {
  category = m.category;
  risk_code = m.risk_code;
  title = m.title;
  statement = m.statement;
  severity = m.severity;
  likelihood = m.likelihood;
  treatment = untreated;
  source_excerpt = m.source_excerpt;
  start_byte_offset = m.start_byte_offset;
  end_byte_offset = m.end_byte_offset;
  source_locator = m.source_locator;
}

-- `repository.create`, on the draft of the command
abbrev pub make_row : RegisterStructuredRisk → CommandContext → ℕ → String → DecisionRiskRecord
make_row m c membership key = record {
  id = m.risk_id;
  tenant_id = c.tenant_id;
  case_id = m.case_id;
  dce_version_id = m.dce_version_id;
  source_fragment_id = m.source_fragment_id;
  functional_key = key;
  category = category_value m.category;
  risk_code = m.risk_code;
  title = m.title;
  statement = m.statement;
  severity = severity_value m.severity;
  likelihood = likelihood_value m.likelihood;
  treatment = treatment_value untreated;
  source_excerpt = m.source_excerpt;
  source_locator = m.source_locator;
  start_byte_offset = m.start_byte_offset;
  end_byte_offset = m.end_byte_offset;
  actor_id = c.actor_id;
  membership_id = membership;
  command_id = m.command_id;
  idempotency_key = m.idempotency_key;
  correlation_id = c.correlation_id;
  due_at = m.due_at;
}

-- `risk.validate()`
abbrev pub check_risk : StructuredRisk → Method RiskError RiskTables (Unit {0})
check_risk r d = elim (validate_risk r) [ ok u ↦ (ok tt, d) | err e ↦ (err (invalid_risk e), d) ]

-- `functional_exists`
abbrev pub is_registered : ℕ → String → DecisionRiskRecord → Bool
is_registered tenant key r = r.tenant_id == tenant && str_eq r.functional_key key

module _ (uuid_text : ℕ → String) where
  -- `":".join(…)`
  abbrev pub risk_key : RegisterStructuredRisk → String
  risk_key m = String.◌++◌ (uuid_text m.case_id) (
      String.◌++◌ ":" (
        String.◌++◌ (uuid_text m.dce_version_id) (
          String.◌++◌ ":"
            (String.◌++◌ (uuid_text m.source_fragment_id) (String.◌++◌ ":" m.risk_code)))))

  module _ (encode_utf8 : String → List ℕ) (decode_utf8 : List ℕ → Option String) where
    -- `RegisterStructuredRiskHandler.execute`
    unfoldable pub execute_register :
        RegisterStructuredRisk → CommandContext → Method RiskError RiskTables HandlerOutcome
    unfolding source_supports validate_risk category_value severity_value likelihood_value
        treatment_value
    execute_register m c = do
      membership ← or_raise patron_required (patron_membership c)
      d ← gets (λ d. d)
      raise_if (not (case_exists c.tenant_id m.case_id d.cases)) not_found_or_forbidden
      raise_if (not (case_uses_dce_version c.tenant_id m.case_id m.dce_version_id d.cases))
          stale_dce_context
      raise_if (not (source_exists c.tenant_id m.dce_version_id m.source_fragment_id d))
          source_fragment_not_found_or_forbidden
      raise_if
          (not (
            source_supports encode_utf8 decode_utf8 c.tenant_id m.dce_version_id
              m.source_fragment_id m.source_excerpt m.start_byte_offset m.end_byte_offset d))
          source_provenance_mismatch
      check_risk (make_risk m)
      raise_if (any (is_registered c.tenant_id (risk_key m)) d.risks) risk_already_registered
      modify (λ d. record d { risks = d.risks ++ make_row m c membership (risk_key m) ∷ [] })
      pure (
          single_outcome "DECISION_RISK_REGISTERED" "DecisionRisk" m.risk_id 1
            "DecisionRiskRegistered")
