-- ===== src/Submission/GateReader.antt =====
-- `SqlAlchemySubmissionDecisionGateReader` of
-- backend/app/modules/submission/infrastructure/decision_gate_reader.py: its queries over the rows of
-- the tables. The text of a UUID is a parameter.
use smart_ao_v.Base.{
  ℕ, String, Bool, true, false, not, ◌&&◌, Option, none, some, List, [], ◌∷◌, ◌++◌, map, ◌==◌, ltb,
  str_eq, is_empty, filter, length, contains, if◌then◌else◌,
}
use smart_ao_v.Base.Int.{pos}
use smart_ao_v.Decision.Gate.{DecisionSubmissionGateSnapshot}
use smart_ao_v.PatronAction.Transition.{
  PatronActionRecord, PatronActionTransitionRecord, Tables, find_latest, is_closed,
}
use Prim.Native.String

-- The columns that the reader reads; of a link, also those that make it.
pub record DecisionRecord : Type 0 where
  pub id : ℕ
  pub tenant_id : ℕ
  pub case_id : ℕ
  pub decision_type : String
  pub validity : String
  pub cycle_number : ℕ
  pub updated_at : ℕ
  pub lifecycle : String
  pub outcome : String
  pub context_status : String
  pub condition_status : String
  pub selected_final_context_id : Option ℕ

pub record DecisionConditionRecord : Type 0 where
  pub tenant_id : ℕ
  pub decision_id : ℕ
  pub status : String

pub record DecisionContextReferenceRecord : Type 0 where
  pub tenant_id : ℕ
  pub decision_context_id : ℕ
  pub aggregate_type : String
  pub aggregate_id : ℕ

pub record DecisionRiskRequirementLinkRecord : Type 0 where
  pub id : ℕ
  pub tenant_id : ℕ
  pub case_id : ℕ
  pub risk_id : ℕ
  pub requirement_id : ℕ
  pub dce_version_id : ℕ
  pub functional_key : String
  pub relationship : String
  pub rationale : String
  pub source_refs : List String
  pub actor_id : ℕ
  pub membership_id : ℕ
  pub command_id : ℕ
  pub idempotency_key : ℕ
  pub correlation_id : Option ℕ

pub record CaseRecord : Type 0 where
  pub id : ℕ
  pub tenant_id : ℕ
  pub applicable_dce_version_id : Option ℕ

pub record DceRequirementRecord : Type 0 where
  pub id : ℕ
  pub tenant_id : ℕ
  pub dce_version_id : ℕ

pub record DceRequirementConfirmationCurrentRecord : Type 0 where
  pub tenant_id : ℕ
  pub requirement_id : ℕ
  pub outcome : String

pub record Rows : Type 0 where
  pub decisions : List DecisionRecord
  pub conditions : List DecisionConditionRecord
  pub references : List DecisionContextReferenceRecord
  pub links : List DecisionRiskRequirementLinkRecord
  pub cases : List CaseRecord
  pub requirements : List DceRequirementRecord
  pub confirmations : List DceRequirementConfirmationCurrentRecord
  pub patron_actions : Tables

-- `(latest_state or base_state)`
abbrev pub effective_state : PatronActionRecord → Option PatronActionTransitionRecord → String
effective_state a none = a.state
effective_state a (some t) = if is_empty t.to_state then a.state else t.to_state

-- `column == id` of a column that may be NULL
abbrev pub has_id : ℕ → Option ℕ → Bool
has_id id none = false
has_id id (some n) = n == id

module _ (uuid_text : ℕ → String) (tenant_id case_id : ℕ) where
  abbrev pub action_key : DecisionRiskRequirementLinkRecord → String
  action_key l = String.◌++◌ "decision-risk-requirement:" (uuid_text l.id)

  -- The condition of the outer join.
  abbrev pub is_joined : DecisionRiskRequirementLinkRecord → PatronActionRecord → Bool
  is_joined l a =
      a.tenant_id == tenant_id && has_id case_id a.case_id && str_eq a.functional_key (action_key l)

  abbrev pub or_null : List PatronActionRecord → List (Option PatronActionRecord)
  or_null [] = none ∷ []
  or_null (a ∷ rows) = map some (a ∷ rows)

  abbrev pub is_link_of_case : DecisionRiskRequirementLinkRecord → Bool
  is_link_of_case l = l.tenant_id == tenant_id && l.case_id == case_id

  -- The rows of the query: each link of the case with each of its actions, or with none.
  unfoldable pub risk_rows :
      List DecisionRiskRequirementLinkRecord
      → List PatronActionRecord
      → List (Option PatronActionRecord)
  risk_rows [] actions = []
  risk_rows (l ∷ links) actions =
      let rest = risk_rows links actions in
      if is_link_of_case l then or_null (filter (is_joined l) actions) ++ rest else rest

  abbrev pub is_unresolved :
      (ℕ → Option PatronActionTransitionRecord) → Option PatronActionRecord → Bool
  is_unresolved latest none = true
  is_unresolved latest (some a) = not (is_closed (effective_state a (latest a.id)))

  -- `_unresolved_risk_action_count`
  unfoldable pub unresolved_risk_action_count : List DecisionRiskRequirementLinkRecord → Tables → ℕ
  unfolding risk_rows
  unresolved_risk_action_count links d = length (
      filter (is_unresolved (λ id. find_latest tenant_id id d.transitions))
        (risk_rows links d.actions))

module _ (tenant_id case_id : ℕ) where
  abbrev pub find_case : List CaseRecord → Option CaseRecord
  find_case [] = none
  find_case (c ∷ cases) =
      if c.tenant_id == tenant_id && c.id == case_id then some c else find_case cases

  abbrev pub requirement_ids : ℕ → List DecisionContextReferenceRecord → List ℕ
  requirement_ids context_id [] = []
  requirement_ids context_id (r ∷ references) =
      let rest = requirement_ids context_id references in
      if r.tenant_id == tenant_id
        && r.decision_context_id == context_id
        && str_eq r.aggregate_type "DCE_REQUIREMENT"
      then r.aggregate_id ∷ rest
      else rest

  abbrev pub is_confirmation : DceRequirementRecord → DceRequirementConfirmationCurrentRecord → Bool
  is_confirmation r c =
      c.tenant_id == r.tenant_id && c.requirement_id == r.id && str_eq c.outcome "CONFIRMED"

  -- The rows of the join of requirements and confirmations that are counted.
  abbrev pub confirmed_rows :
      ℕ
      → List ℕ
      → List DceRequirementConfirmationCurrentRecord
      → List DceRequirementRecord
      → List DceRequirementConfirmationCurrentRecord
  confirmed_rows version ids confirmations [] = []
  confirmed_rows version ids confirmations (r ∷ requirements) =
      let rest = confirmed_rows version ids confirmations requirements in
      if r.tenant_id == tenant_id && r.dce_version_id == version && contains ◌==◌ r.id ids
      then filter (is_confirmation r) confirmations ++ rest
      else rest

  -- `_all_dce_requirements_confirmed`
  unfoldable pub all_dce_requirements_confirmed : Option ℕ → Rows → Bool
  all_dce_requirements_confirmed none d = false
  all_dce_requirements_confirmed (some context_id) d = elim (find_case d.cases) [
    | none ↦ false
    | some c ↦ elim c.applicable_dce_version_id [
      | none ↦ false
      | some version ↦ elim (requirement_ids context_id d.references) [
        | [] ↦ true
        | i ∷ ids ↦
            length (confirmed_rows version (i ∷ ids) d.confirmations d.requirements)
            == length (i ∷ ids)
      ]
    ]
  ]

  abbrev pub is_candidate : DecisionRecord → Bool
  is_candidate r =
      r.tenant_id == tenant_id
      && r.case_id == case_id
      && str_eq r.decision_type "GO_NO_GO"
      && str_eq r.validity "CURRENT"

  -- `order_by(cycle_number.desc(), updated_at.desc())`: whether the first row comes after the second
  abbrev pub comes_after : DecisionRecord → DecisionRecord → Bool
  comes_after r s =
      if r.cycle_number == s.cycle_number
      then ltb r.updated_at s.updated_at
      else ltb r.cycle_number s.cycle_number

  abbrev pub first_of : DecisionRecord → Option DecisionRecord → DecisionRecord
  first_of r none = r
  first_of r (some s) = if comes_after r s then s else r

  -- The query with `limit(1)`.
  unfoldable pub find_decision : List DecisionRecord → Option DecisionRecord
  find_decision [] = none
  find_decision (r ∷ rows) =
      let rest = find_decision rows in if is_candidate r then some (first_of r rest) else rest

  abbrev pub is_open_condition : DecisionRecord → DecisionConditionRecord → Bool
  is_open_condition r c =
      c.tenant_id == tenant_id && c.decision_id == r.id && str_eq c.status "OPEN"

-- `read`
unfoldable pub read : (ℕ → String) → ℕ → ℕ → Rows → Option DecisionSubmissionGateSnapshot
unfolding unresolved_risk_action_count all_dce_requirements_confirmed
read uuid_text tenant_id case_id d = elim (find_decision tenant_id case_id d.decisions) [
  | none ↦ none
  | some r ↦ some (record {
    lifecycle = r.lifecycle;
    outcome = r.outcome;
    context_status = r.context_status;
    condition_status = r.condition_status;
    open_condition_count =
        pos (length (filter (is_open_condition tenant_id case_id r) d.conditions));
    unresolved_risk_action_count =
        pos (unresolved_risk_action_count uuid_text tenant_id case_id d.links d.patron_actions);
    all_dce_requirements_confirmed =
        all_dce_requirements_confirmed tenant_id case_id r.selected_final_context_id d;
  })
]
