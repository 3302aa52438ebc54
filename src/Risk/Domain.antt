-- ===== src/Risk/Domain.antt =====
-- backend/app/modules/decision/domain/risk.py and risk_requirement.py. The `isinstance` tests hold by
-- the types.
use smart_ao_v.Base.{
  ℕ, String, Bool, true, false, not, ◌||◌, Option, none, some, List, ltb, str_eq, is_blank, is_nil,
  strip, text_length, if◌then◌else◌,
}
use smart_ao_v.Base.Json.{Json}
use smart_ao_v.Base.Int.{ℤ, pos, ltb_ℤ}
use smart_ao_v.Base.Result.{Result, ◌>>◌, raise_if}

pub data RiskCategory : Type 0 where
  ccap cctp : RiskCategory

pub data RiskSeverity : Type 0 where
  low medium high critical : RiskSeverity

pub data RiskLikelihood : Type 0 where
  rare possible likely almost_certain : RiskLikelihood

pub data RiskTreatment : Type 0 where
  untreated accepted mitigated : RiskTreatment

unfoldable pub category_value : RiskCategory → String
category_value ccap = "CCAP"
category_value cctp = "CCTP"

unfoldable pub severity_value : RiskSeverity → String
severity_value low = "LOW"
severity_value medium = "MEDIUM"
severity_value high = "HIGH"
severity_value critical = "CRITICAL"

unfoldable pub likelihood_value : RiskLikelihood → String
likelihood_value rare = "RARE"
likelihood_value possible = "POSSIBLE"
likelihood_value likely = "LIKELY"
likelihood_value almost_certain = "ALMOST_CERTAIN"

unfoldable pub treatment_value : RiskTreatment → String
treatment_value untreated = "OPEN"
treatment_value accepted = "ACCEPTED"
treatment_value mitigated = "MITIGATED"

-- `RiskTreatment(text)`, where a text that is no value raises
unfoldable pub treatment_of : String → Option RiskTreatment
treatment_of s =
    if str_eq s "OPEN"
    then some untreated
    else if str_eq s "ACCEPTED"
    then some accepted
    else if str_eq s "MITIGATED"
    then some mitigated
    else none

-- `to_treatment in allowed[from_treatment]`
abbrev pub is_allowed : RiskTreatment → RiskTreatment → Bool
is_allowed untreated accepted = true
is_allowed untreated mitigated = true
is_allowed accepted mitigated = true
is_allowed _ _ = false

pub data RiskTreatmentTransitionError : Type 0 where
  invalid_risk_treatment_transition : RiskTreatmentTransitionError

unfoldable pub validate_risk_treatment_transition :
    RiskTreatment → RiskTreatment → Result RiskTreatmentTransitionError (Unit {0})
validate_risk_treatment_transition before after =
    raise_if (not (is_allowed before after)) invalid_risk_treatment_transition

pub record StructuredRisk : Type 0 where
  pub category : RiskCategory
  pub risk_code : String
  pub title : String
  pub statement : String
  pub severity : RiskSeverity
  pub likelihood : RiskLikelihood
  pub treatment : RiskTreatment
  pub source_excerpt : String
  pub start_byte_offset : ℤ
  pub end_byte_offset : ℤ
  pub source_locator : List (String × Json)

pub data RiskValidationError : Type 0 where
  risk_code_length title_length statement_empty source_excerpt_length : RiskValidationError
  offsets_not_ordered source_locator_empty : RiskValidationError

-- `StructuredRisk.validate`
unfoldable pub validate_risk : StructuredRisk → Result RiskValidationError (Unit {0})
validate_risk r =
    raise_if (is_blank r.risk_code || ltb 100 (text_length (strip r.risk_code))) risk_code_length
    >> raise_if (is_blank r.title || ltb 240 (text_length (strip r.title))) title_length
    >> raise_if (is_blank r.statement) statement_empty
    >> raise_if (is_blank r.source_excerpt || ltb 2000 (text_length r.source_excerpt))
        source_excerpt_length
    >> raise_if
        (ltb_ℤ r.start_byte_offset (pos 0) || not (ltb_ℤ r.start_byte_offset r.end_byte_offset))
        offsets_not_ordered
    >> raise_if (is_nil r.source_locator) source_locator_empty

pub data RiskRequirementRelation : Type 0 where
  impacts mitigates constrains : RiskRequirementRelation

unfoldable pub relation_value : RiskRequirementRelation → String
relation_value impacts = "IMPACTS"
relation_value mitigates = "MITIGATES"
relation_value constrains = "CONSTRAINS"

pub record RiskRequirementLink : Type 0 where
  pub risk_id : ℕ
  pub requirement_id : ℕ
  pub relationship : RiskRequirementRelation
  pub rationale : String

pub data LinkValidationError : Type 0 where
  rationale_empty rationale_too_long : LinkValidationError

-- `RiskRequirementLink.validate`
unfoldable pub validate_link : RiskRequirementLink → Result LinkValidationError (Unit {0})
validate_link l =
    raise_if (is_blank l.rationale) rationale_empty
    >> raise_if (ltb 4000 (text_length l.rationale)) rationale_too_long
