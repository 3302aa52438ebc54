-- ===== src/Decision/Approval.antt =====
-- The methods of `Decision` up to its finalization: `create_draft`, `prepare_context` and the three
-- approvals, of backend/app/modules/decision/domain/decision.py.
use smart_ao_v.Base.{
  ℕ, String, Bool, true, false, not, ◌||◌, none, some, List, [], ◌∷◌, ◌++◌, map, ◌==◌, str_eq,
  is_blank, is_nil, is_unique, get_last?, strip, if◌then◌else◌,
}
use smart_ao_v.Base.Result.{Result, ok, err}
use smart_ao_v.Base.Method.{◌>>=◌, ◌>>◌, raise_if, gets, modify, lift}
use smart_ao_v.Decision.{
  Decision, DecisionMethod, DecisionError, DecisionType, DecisionContext, DecisionCondition,
  DecisionLifecycle, DecisionOutcome, draft, pending_patron, finalized, superseded, cancelled,
  undecided, go, conditional_go, no_go, current, incomplete, frozen, not_applicable, open_condition,
  context_incomplete, stale_context, already_finalized, lifecycle_forbids, draft_created,
  context_prepared, go_approved, conditional_go_approved, no_go_approved, increment_revision,
  record_event, is_finalized,
}
use smart_ao_v.Decision.Conditions.{validate_all}

unfoldable pub create_draft :
    ℕ → ℕ → DecisionType → String → String → String → Result DecisionError Decision
create_draft id tenant type subject scope creator =
    if is_blank subject || is_blank scope || is_blank creator
    then err context_incomplete
    else ok (record {
      id = id;
      tenant_id = tenant;
      decision_type = type;
      subject_reference = strip subject;
      scope_fingerprint = strip scope;
      created_by = strip creator;
      lifecycle = draft;
      outcome = undecided;
      validity = current;
      context_status = incomplete;
      condition_status = not_applicable;
      context_history = [];
      conditions = [];
      successor_decision_id = none;
      final_justification = none;
      final_approved_by = none;
      final_approved_at = none;
      aggregate_revision = 0;
      pending_events = draft_created id tenant ∷ [];
    })

-- `current_context`
unfoldable pub current_context : DecisionMethod DecisionContext
current_context d = elim (get_last? d.context_history) [
  | none ↦ (err context_incomplete, d)
  | some c ↦ (ok c, d)
]

abbrev pub is_retired : DecisionLifecycle → Bool
is_retired superseded = true
is_retired cancelled = true
is_retired _ = false

abbrev pub is_pending : DecisionLifecycle → Bool
is_pending pending_patron = true
is_pending _ = false

-- `_ensure_not_finalized`
unfoldable pub ensure_not_finalized : DecisionMethod (Unit {0})
ensure_not_finalized = do
  lifecycle ← gets (λ d. d.lifecycle)
  raise_if (is_finalized lifecycle) already_finalized
  raise_if (is_retired lifecycle) lifecycle_forbids

unfoldable pub prepare_context : DecisionContext → DecisionMethod (Unit {0})
unfolding ensure_not_finalized
prepare_context c = do
  ensure_not_finalized
  tenant ← gets (λ d. d.tenant_id)
  raise_if (not (c.tenant_id == tenant)) context_incomplete
  raise_if (is_nil c.references) context_incomplete
  modify (λ d. record d {
    context_history = d.context_history ++ c ∷ [];
    lifecycle = pending_patron;
    context_status = frozen;
  })
  modify increment_revision
  modify (λ d. record_event (context_prepared d.id c.context_id c.fingerprint) d)

-- `_ensure_pending_current_context`
unfoldable pub ensure_pending_current_context : String → DecisionMethod (Unit {0})
unfolding current_context
ensure_pending_current_context displayed = do
  lifecycle ← gets (λ d. d.lifecycle)
  raise_if (is_finalized lifecycle) already_finalized
  raise_if (not (is_pending lifecycle)) lifecycle_forbids
  context ← current_context
  raise_if (not (str_eq displayed context.fingerprint)) stale_context

-- `_finalize`
unfoldable pub finalize : DecisionOutcome → String → String → ℕ → DecisionMethod (Unit {0})
finalize outcome justification approver at = do
  raise_if (is_blank justification || is_blank approver) context_incomplete
  modify (λ d. record d {
    lifecycle = finalized;
    outcome = outcome;
    validity = current;
    final_justification = some (strip justification);
    final_approved_by = some (strip approver);
    final_approved_at = some at;
  })
  modify increment_revision

unfoldable pub approve_go : String → String → String → ℕ → DecisionMethod (Unit {0})
unfolding ensure_pending_current_context finalize
approve_go displayed justification approver at = do
  ensure_pending_current_context displayed
  finalize go justification approver at
  modify (λ d. record d { condition_status = not_applicable })
  modify (λ d. record_event (go_approved d.id) d)

unfoldable pub approve_no_go : String → String → String → ℕ → DecisionMethod (Unit {0})
unfolding ensure_pending_current_context finalize
approve_no_go displayed justification approver at = do
  ensure_pending_current_context displayed
  finalize no_go justification approver at
  modify (λ d. record d { condition_status = not_applicable })
  modify (λ d. record_event (no_go_approved d.id) d)

-- The conditions are assigned before `_finalize` makes its own checks.
unfoldable pub approve_conditional_go :
    String → String → List DecisionCondition → String → ℕ → DecisionMethod (Unit {0})
unfolding ensure_pending_current_context finalize validate_all
approve_conditional_go displayed justification conditions approver at = do
  ensure_pending_current_context displayed
  raise_if (is_nil conditions) context_incomplete
  raise_if (not (is_unique ◌==◌ (map (λ c. c.id) conditions))) context_incomplete
  lift (validate_all conditions)
  modify (λ d. record d { conditions = conditions })
  finalize conditional_go justification approver at
  modify (λ d. record d { condition_status = open_condition })
  modify (λ d. record_event (conditional_go_approved d.id) d)
