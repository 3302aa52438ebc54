-- ===== src/Decision.antt =====
-- The Decision aggregate: the enumerations, contexts, conditions, events and fields of
-- backend/app/modules/decision/domain/decision.py, with the error classes of errors.py. The
-- children hold its methods, the submission gate, and what is proved of them.
pub mod Conditions
pub mod Approval
pub mod Review
pub mod Step
pub mod Invariant
pub mod Finality
pub mod Satisfaction
pub mod Gate
pub mod Readiness
pub mod Journey
mod Tests
use smart_ao_v.Base.{
  ℕ, ◌+◌, String, Bool, true, false, not, Option, none, some, List, [], ◌∷◌, ◌++◌, map, filter,
  is_blank, strip,
}
use smart_ao_v.Base.Method.{Method}

pub data DecisionError : Type 0 where
  context_incomplete stale_context already_finalized lifecycle_forbids : DecisionError
  condition_owner_required condition_consequence_required : DecisionError

pub data DecisionType : Type 0 where
  go_no_go risk_acceptance partner_selection pricing_approval : DecisionType
  submission_authorization : DecisionType

pub data DecisionLifecycle : Type 0 where
  draft pending_patron finalized superseded cancelled : DecisionLifecycle

pub data DecisionOutcome : Type 0 where
  undecided go conditional_go no_go accepted rejected authorized not_authorized : DecisionOutcome

pub data DecisionValidity : Type 0 where
  current review_required superseded_validity invalidated : DecisionValidity

pub data DecisionContextStatus : Type 0 where
  incomplete frozen stale : DecisionContextStatus

pub data DecisionConditionStatus : Type 0 where
  not_applicable open_condition satisfied failed waived : DecisionConditionStatus

-- A `datetime` is the number of microseconds since a fixed instant.
pub record DecisionContext : Type 0 where
  pub context_id : ℕ
  pub tenant_id : ℕ
  pub references : List String
  pub unknowns : List String
  pub risks : List String
  pub prepared_at : ℕ
  pub fingerprint : String

-- `tuple(x.strip() for x in xs if x.strip())`
abbrev pub normalize_texts : List String → List String
normalize_texts xs = map strip (filter (λ x. not (is_blank x)) xs)

-- `DecisionContext.build`. The digest of `_context_fingerprint` (JSON, then SHA-256) is the
-- argument `fingerprint_of`, of the tenant, the three lists and the time.
unfoldable pub build :
    (ℕ → List String → List String → List String → ℕ → String)
    → ℕ
    → ℕ
    → List String
    → List String
    → List String
    → ℕ
    → DecisionContext
build fingerprint_of id tenant references unknowns risks at = record {
  context_id = id;
  tenant_id = tenant;
  references = normalize_texts references;
  unknowns = normalize_texts unknowns;
  risks = normalize_texts risks;
  prepared_at = at;
  fingerprint =
      fingerprint_of tenant (normalize_texts references) (normalize_texts unknowns)
        (normalize_texts risks) at;
}

pub record DecisionCondition : Type 0 where
  pub id : ℕ
  pub label : String
  pub owner : Option String
  pub due_at : Option ℕ
  pub due_date_absence_reason : Option String
  pub failure_consequence : Option String
  pub status : DecisionConditionStatus
  pub evidence_reference : Option String
  pub observed_at : Option ℕ

pub data DecisionEvent : Type 0 where
  draft_created : ℕ → ℕ → DecisionEvent
  context_prepared : ℕ → ℕ → String → DecisionEvent
  go_approved conditional_go_approved no_go_approved : ℕ → DecisionEvent
  condition_satisfied : ℕ → ℕ → DecisionEvent
  marked_review_required : ℕ → DecisionEvent
  decision_superseded : ℕ → ℕ → DecisionEvent

pub record Decision : Type 0 where
  pub id : ℕ
  pub tenant_id : ℕ
  pub decision_type : DecisionType
  pub subject_reference : String
  pub scope_fingerprint : String
  pub created_by : String
  pub lifecycle : DecisionLifecycle
  pub outcome : DecisionOutcome
  pub validity : DecisionValidity
  pub context_status : DecisionContextStatus
  pub condition_status : DecisionConditionStatus
  pub context_history : List DecisionContext
  pub conditions : List DecisionCondition
  pub successor_decision_id : Option ℕ
  pub final_justification : Option String
  pub final_approved_by : Option String
  pub final_approved_at : Option ℕ
  pub aggregate_revision : ℕ
  pub pending_events : List DecisionEvent

abbrev pub DecisionMethod : Type 0 → Type 0
DecisionMethod A = Method DecisionError Decision A

-- `_increment_revision` and `_record`, which end every method.
abbrev pub increment_revision : Decision → Decision
increment_revision d = record d { aggregate_revision = d.aggregate_revision + 1 }

abbrev pub record_event : DecisionEvent → Decision → Decision
record_event e d = record d { pending_events = d.pending_events ++ e ∷ [] }

abbrev pub is_open : DecisionConditionStatus → Bool
is_open open_condition = true
is_open _ = false

abbrev pub is_finalized : DecisionLifecycle → Bool
is_finalized finalized = true
is_finalized _ = false
