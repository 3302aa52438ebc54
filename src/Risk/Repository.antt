-- ===== src/Risk/Repository.antt =====
-- `SqlAlchemyDecisionRiskRepository` of backend/app/modules/decision/infrastructure/risk_repository.py.
-- UTF-8 is a parameter.
use smart_ao_v.Base.{
  ℕ, String, Bool, false, not, ◌&&◌, ◌||◌, Option, none, some, List, [], ◌∷◌, ◌==◌, ◌-◌, take, drop,
  ltb, str_eq, find, any, is_some, length, if◌then◌else◌,
}
use smart_ao_v.Base.Int.{ℤ, pos, pos_part, ltb_ℤ}
use smart_ao_v.Submission.GateReader.{CaseRecord}
use smart_ao_v.Risk.Tables.{
  DceDocumentExtractionRecord, DceDocumentExtractionFragmentRecord, DecisionRiskRecord, Evidence,
  DecisionRiskTreatmentTransitionRecord, RiskTables, DecisionRiskSnapshot,
}

abbrev pub is_case : ℕ → ℕ → CaseRecord → Bool
is_case tenant id c = c.tenant_id == tenant && c.id == id

abbrev pub has_version : ℕ → Option ℕ → Bool
has_version v none = false
has_version v (some w) = w == v

-- `case_exists` and `case_uses_dce_version`
abbrev pub case_exists : ℕ → ℕ → List CaseRecord → Bool
case_exists tenant id cases = any (is_case tenant id) cases

abbrev pub case_uses_dce_version : ℕ → ℕ → ℕ → List CaseRecord → Bool
case_uses_dce_version tenant id v cases =
    any (λ c. is_case tenant id c && has_version v c.applicable_dce_version_id) cases

abbrev pub is_extraction :
    ℕ → DceDocumentExtractionFragmentRecord → DceDocumentExtractionRecord → Bool
is_extraction v f e =
    e.tenant_id == f.tenant_id
    && e.id == f.extraction_id
    && e.dce_version_id == v
    && str_eq e.status "COMPLETED"

-- The fragment of a completed extraction of the version.
abbrev pub find_source : ℕ → ℕ → ℕ → RiskTables → Option DceDocumentExtractionFragmentRecord
find_source tenant v fragment d =
    find (λ f. f.tenant_id == tenant && f.id == fragment && any (is_extraction v f) d.extractions)
      d.fragments

abbrev pub source_exists : ℕ → ℕ → ℕ → RiskTables → Bool
source_exists tenant v fragment d = is_some (find_source tenant v fragment d)

-- `bytes[start:end]`
abbrev pub slice : ℕ → ℕ → List ℕ → List ℕ
slice start stop bytes = take (stop - start) (drop start bytes)

module _ (encode_utf8 : String → List ℕ) (decode_utf8 : List ℕ → Option String) where
  abbrev pub is_text : String → Option String → Bool
  is_text s none = false
  is_text s (some t) = str_eq t s

  -- `source_supports`: the excerpt is what the fragment has between the offsets.
  unfoldable pub source_supports : ℕ → ℕ → ℕ → String → ℤ → ℤ → RiskTables → Bool
  source_supports tenant v fragment excerpt start stop d = elim (find_source tenant v fragment d) [
    | none ↦ false
    | some f ↦
        let bytes = encode_utf8 f.text in
        if ltb_ℤ start (pos 0) || not (ltb_ℤ start stop) || ltb_ℤ (pos (length bytes)) stop
        then false
        else is_text excerpt (decode_utf8 (slice (pos_part start) (pos_part stop) bytes))
  ]

abbrev pub is_risk : ℕ → ℕ → DecisionRiskRecord → Bool
is_risk tenant id r = r.tenant_id == tenant && r.id == id

abbrev pub is_transition_of : ℕ → ℕ → DecisionRiskTreatmentTransitionRecord → Bool
is_transition_of tenant risk t = t.tenant_id == tenant && t.risk_id == risk

-- Of two transitions, the one with the higher revision.
abbrev pub later :
    DecisionRiskTreatmentTransitionRecord
    → Option DecisionRiskTreatmentTransitionRecord
    → DecisionRiskTreatmentTransitionRecord
later t none = t
later t (some u) = if ltb t.aggregate_revision u.aggregate_revision then u else t

-- The transition of the risk with the highest revision.
unfoldable pub latest_treatment :
    ℕ
    → ℕ
    → List DecisionRiskTreatmentTransitionRecord
    → Option DecisionRiskTreatmentTransitionRecord
latest_treatment tenant risk [] = none
latest_treatment tenant risk (t ∷ rows) =
    let rest = latest_treatment tenant risk rows in
    if is_transition_of tenant risk t then some (later t rest) else rest

abbrev pub current_treatment :
    DecisionRiskRecord → Option DecisionRiskTreatmentTransitionRecord → String
current_treatment r none = r.treatment
current_treatment r (some t) = t.to_treatment

abbrev pub current_revision : Option DecisionRiskTreatmentTransitionRecord → ℕ
current_revision none = 1
current_revision (some t) = t.aggregate_revision

abbrev pub evidence_of : Option DecisionRiskTreatmentTransitionRecord → Option Evidence
evidence_of none = none
evidence_of (some t) = some t.evidence

abbrev pub make_snapshot :
    DecisionRiskRecord → Option DecisionRiskTreatmentTransitionRecord → DecisionRiskSnapshot
make_snapshot r latest = record {
  id = r.id;
  tenant_id = r.tenant_id;
  case_id = r.case_id;
  dce_version_id = r.dce_version_id;
  source_fragment_id = r.source_fragment_id;
  risk_code = r.risk_code;
  category = r.category;
  title = r.title;
  severity = r.severity;
  likelihood = r.likelihood;
  treatment = current_treatment r latest;
  revision = current_revision latest;
  due_at = r.due_at;
  latest_treatment_evidence = evidence_of latest;
}

abbrev pub is_risk_of_case : ℕ → ℕ → ℕ → DecisionRiskRecord → Bool
is_risk_of_case tenant case id r = r.tenant_id == tenant && r.case_id == case && r.id == id

-- `get_current`
unfoldable pub get_current : ℕ → ℕ → ℕ → RiskTables → Option DecisionRiskSnapshot
unfolding latest_treatment
get_current tenant case id d = elim (find (is_risk_of_case tenant case id) d.risks) [
  | none ↦ none
  | some r ↦ some (make_snapshot r (latest_treatment tenant id d.transitions))
]
