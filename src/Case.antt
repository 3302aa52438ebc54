-- ===== src/Case.antt =====
-- The Case aggregate: the enumerations, events and fields of `Case` in
-- backend/app/modules/case/domain/case.py. The children hold its perimeter, its creation and its
-- methods, and what is proved of them.
pub mod Scope
pub mod Creation
pub mod Linking
pub mod Perimeter
pub mod Trace
mod Tests
use smart_ao_v.Base.{ℕ, String, Option, List}
use Scope.{AggregateReference, CaseScope, CaseOrigin}

pub data CaseLifecycle : Type 0 where
  active stopped archived : CaseLifecycle

pub data CaseStage : Type 0 where
  intake analysis awaiting_decision offer_preparation ready_for_pricing pricing : CaseStage
  ready_for_final_control ready_for_submission submitted outcome_known awarded : CaseStage
  execution : CaseStage

pub data DecisionReadiness : Type 0 where
  not_assessed not_ready ready_with_unknowns ready : DecisionReadiness

pub data DceFreshness : Type 0 where
  no_dce current review_required : DceFreshness

pub data ResponsibilityStatus : Type 0 where
  unassigned assigned assignment_review_required : ResponsibilityStatus

pub data CaseEvent : Type 0 where
  case_created : ℕ → ℕ → CaseEvent
  case_consultation_linked : ℕ → ℕ → ℕ → CaseEvent

pub record Case : Type 0 where
  pub id : ℕ
  pub tenant_id : ℕ
  pub title : String
  pub object_description : String
  pub scope : CaseScope
  pub origin : CaseOrigin
  pub consultation_reference : Option AggregateReference
  pub applicable_dce_version_reference : Option AggregateReference
  pub lifecycle : CaseLifecycle
  pub commercial_stage : CaseStage
  pub decision_readiness : DecisionReadiness
  pub dce_freshness : DceFreshness
  pub responsibility_status : ResponsibilityStatus
  pub aggregate_revision : ℕ
  pub pending_events : List CaseEvent
