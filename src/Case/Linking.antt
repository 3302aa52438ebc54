-- ===== src/Case/Linking.antt =====
-- The methods of `Case` that change it: `register_consultation_link` and `clear_pending_events`.
use smart_ao_v.Base.{◌+◌, Bool, true, false, not, some, List, [], ◌∷◌, ◌++◌, str_eq}
use smart_ao_v.Base.Method.{Method, ◌>>=◌, ◌>>◌, raise_if, gets, modify, lift, pure}
use smart_ao_v.Case.{
  Case, CaseEvent, case_consultation_linked, CaseLifecycle, active, stopped, archived,
}
use smart_ao_v.Case.Scope.{CaseError, lifecycle_forbids_action, value_error, AggregateReference}
use smart_ao_v.Case.Creation.{validate_reference_tenant}

abbrev pub CaseMethod : Type 0 → Type 0
CaseMethod A = Method CaseError Case A

abbrev pub is_active : CaseLifecycle → Bool
is_active active = true
is_active stopped = false
is_active archived = false

-- `_ensure_active`
unfoldable pub ensure_active : CaseMethod (Unit {0})
ensure_active c = raise_if (not (is_active c.lifecycle)) lifecycle_forbids_action c

-- `_increment_revision`
abbrev pub increment_revision : Case → Case
increment_revision c = record c { aggregate_revision = c.aggregate_revision + 1 }

-- `_record`
abbrev pub record_event : CaseEvent → Case → Case
record_event e c = record c { pending_events = c.pending_events ++ e ∷ [] }

unfoldable pub register_consultation_link : AggregateReference → CaseMethod (Unit {0})
unfolding ensure_active validate_reference_tenant
register_consultation_link r = do
  ensure_active
  raise_if (not (str_eq r.aggregate_type "CONSULTATION")) value_error
  tenant ← gets (λ c. c.tenant_id)
  lift (validate_reference_tenant tenant (some r))
  modify (λ c. record c { consultation_reference = some r })
  modify increment_revision
  modify (λ c. record_event (case_consultation_linked c.id c.tenant_id r.aggregate_id) c)

-- Returns the events, and empties the queue.
unfoldable pub clear_pending_events : CaseMethod (List CaseEvent)
clear_pending_events = do
  events ← gets (λ c. c.pending_events)
  modify (λ c. record c { pending_events = [] })
  pure events
