-- ===== src/Membership/Assignment.antt =====
-- `_ensure_assignment`, which
-- backend/app/modules/membership/application/collab_work_task_handler.py and
-- collab_info_blockers_handler.py both have.
use smart_ao_v.Base.{
  ℕ, Bool, true, false, not, ◌||◌, Option, none, some, ◌==◌, ltb, leb, str_eq, find, contains,
}
use smart_ao_v.Base.Method.{Method, ◌>>=◌, ◌>>◌, raise_if, gets}
use smart_ao_v.Membership.Rows.{
  CaseAssignmentRecord, CollaboratorTaskRecord, Tables, CommandContext, WorkError, is_assignment,
  not_found_or_forbidden, assignment_inactive, assignment_scope_forbidden,
  assignment_classification_forbidden, case_context_mismatch, or_raise,
}

-- `assignment.membership_id != context.membership_id`
abbrev pub is_other : ℕ → Option ℕ → Bool
is_other m none = true
is_other m (some n) = not (m == n)

abbrev pub is_over : Option ℕ → ℕ → Bool
is_over none now = false
is_over (some t) now = leb t now

-- Whether the assignment does not hold at a time.
abbrev pub is_out_of_time : CaseAssignmentRecord → ℕ → Bool
is_out_of_time a now = ltb now a.starts_at || is_over a.ends_at now

-- `context.case_id is not None and context.case_id != task.case_id`
abbrev pub is_other_case : Option ℕ → ℕ → Bool
is_other_case none case = false
is_other_case (some c) case = not (c == case)

unfoldable pub ensure_assignment :
    CollaboratorTaskRecord → CommandContext → Method WorkError Tables (Unit {0})
ensure_assignment t c = do
  d ← gets (λ d. d)
  a ←
      or_raise not_found_or_forbidden
        (find (is_assignment c.tenant_id t.assignment_id) d.assignments)
  raise_if (is_other a.membership_id c.membership_id) not_found_or_forbidden
  raise_if (not (str_eq a.state "ACTIVE")) assignment_inactive
  raise_if (is_out_of_time a c.received_at) assignment_inactive
  raise_if (not (contains str_eq "work.task.write" a.scope_actions)) assignment_scope_forbidden
  raise_if (not (contains str_eq "INTERNAL_OPERATIONAL" a.scope_classifications))
      assignment_classification_forbidden
  raise_if (is_other_case c.case_id t.case_id) case_context_mismatch
