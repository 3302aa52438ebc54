-- ===== src/Decision/Review.antt =====
-- The methods of a finalized `Decision`: satisfying a condition, requiring review, supersession, of
-- backend/app/modules/decision/domain/decision.py.
use smart_ao_v.Base.{ℕ, String, Bool, true, false, not, ◌||◌, some, ◌==◌, is_blank}
use smart_ao_v.Base.Method.{◌>>=◌, ◌>>◌, raise_if, gets, modify, lift}
use smart_ao_v.Decision.{
  DecisionMethod, DecisionOutcome, conditional_go, superseded, superseded_validity, review_required,
  stale, context_incomplete, lifecycle_forbids, condition_satisfied, marked_review_required,
  decision_superseded, increment_revision, record_event, is_finalized,
}
use smart_ao_v.Decision.Conditions.{satisfy_first, derive_condition_status}

abbrev pub is_conditional : DecisionOutcome → Bool
is_conditional conditional_go = true
is_conditional _ = false

unfoldable pub record_condition_satisfied : ℕ → String → ℕ → DecisionMethod (Unit {0})
record_condition_satisfied id evidence observed = do
  lifecycle ← gets (λ d. d.lifecycle)
  raise_if (not (is_finalized lifecycle)) lifecycle_forbids
  outcome ← gets (λ d. d.outcome)
  raise_if (not (is_conditional outcome)) lifecycle_forbids
  conditions ← gets (λ d. d.conditions)
  conditions' ← lift (satisfy_first id evidence observed conditions)
  modify (λ d. record d { conditions = conditions' })
  modify (λ d. record d { condition_status = derive_condition_status d.conditions })
  modify increment_revision
  modify (λ d. record_event (condition_satisfied d.id id) d)

unfoldable pub mark_review_required : String → DecisionMethod (Unit {0})
mark_review_required reason = do
  lifecycle ← gets (λ d. d.lifecycle)
  raise_if (not (is_finalized lifecycle)) lifecycle_forbids
  raise_if (is_blank reason) context_incomplete
  modify (λ d. record d { validity = review_required; context_status = stale })
  modify increment_revision
  modify (λ d. record_event (marked_review_required d.id) d)

unfoldable pub supersede : ℕ → String → DecisionMethod (Unit {0})
supersede successor rationale = do
  lifecycle ← gets (λ d. d.lifecycle)
  raise_if (not (is_finalized lifecycle)) lifecycle_forbids
  id ← gets (λ d. d.id)
  raise_if (successor == id || is_blank rationale) context_incomplete
  modify (λ d. record d {
    lifecycle = superseded;
    validity = superseded_validity;
    successor_decision_id = some successor;
  })
  modify increment_revision
  modify (λ d. record_event (decision_superseded d.id successor) d)
