-- ===== src/Membership/WorkTask.antt =====
-- `CollaboratorWorkTaskHandler` of
-- backend/app/modules/membership/application/collab_work_task_handler.py. The text of a UUID is a
-- parameter.
use smart_ao_v.Base.{
  ℕ, ◌+◌, String, Bool, true, not, ◌&&◌, ◌||◌, Option, none, some, List, [], ◌∷◌, ◌++◌, ◌==◌,
  str_eq, find, any, contains, is_some, if◌then◌else◌,
}
use smart_ao_v.Base.Method.{Method, pure, ◌>>=◌, ◌>>◌, raise_if, gets, modify}
use smart_ao_v.Membership.Rows.{
  CaseAssignmentRecord, CaseRecord, DceRequirementRecord, CollaboratorTaskRecord,
  CollaboratorTaskResultRecord, Tables, CommandContext, WorkError, collaborator_required,
  not_found_or_forbidden, version_conflict, assignment_inactive, assignment_scope_forbidden,
  case_context_mismatch, stale_context, task_not_claimable, task_not_active, task_not_completable,
  evidence_of_completion_required, Value, text, number, PendingDomainEvent, HandlerOutcome,
  events_of, or_raise, is_task, is_assignment, set_task,
}
use smart_ao_v.Membership.Assignment.{is_other, ensure_assignment}
use smart_ao_v.Membership.TaskCommands.{
  CreateTaskFromRequirement, RecordTaskResult, TaskAction, WorkTaskCommand, claim_task,
  complete_task, record_task_result, create_task_from_requirement, on_task,
}
use Prim.Native.String

abbrev pub is_collaborator : CommandContext → Bool
is_collaborator c = str_eq c.actor_kind "COLLABORATEUR" && is_some c.membership_id

abbrev pub outcome_code : String → String
outcome_code state =
    if str_eq state "READY"
    then "TASK_CREATED"
    else if str_eq state "IN_PROGRESS"
    then "TASK_CLAIMED"
    else if str_eq state "COMPLETED"
    then "TASK_COMPLETED"
    else "TASK_UPDATED"

-- `_outcome`, with the code by default
abbrev pub outcome : CollaboratorTaskRecord → Option PendingDomainEvent → HandlerOutcome
outcome t event = record {
  result_code = outcome_code t.state;
  aggregate_type = "CollaboratorTask";
  aggregate_id = t.id;
  aggregate_revision = t.aggregate_revision;
  events = events_of event;
}

abbrev pub is_requirement : ℕ → ℕ → DceRequirementRecord → Bool
is_requirement tenant id r = r.tenant_id == tenant && r.id == id

abbrev pub is_case : ℕ → ℕ → CaseRecord → Bool
is_case tenant id c = c.tenant_id == tenant && c.id == id

-- `case.applicable_dce_version_id != requirement.dce_version_id`
abbrev pub is_stale : Option ℕ → ℕ → Bool
is_stale none v = true
is_stale (some w) v = not (w == v)

abbrev pub is_same_task : ℕ → ℕ → String → CollaboratorTaskRecord → Bool
is_same_task tenant assignment key t =
    t.tenant_id == tenant && t.assignment_id == assignment && str_eq t.functional_key key

abbrev pub is_result_of : ℕ → ℕ → CollaboratorTaskResultRecord → Bool
is_result_of tenant task r = r.tenant_id == tenant && r.task_id == task

-- `task.state in {"IN_PROGRESS", "READY"}`
abbrev pub is_active : String → Bool
is_active s = str_eq s "IN_PROGRESS" || str_eq s "READY"

module _ (uuid_text : ℕ → String) where
  abbrev pub task_event :
      CollaboratorTaskRecord → String → List (String × Value) → PendingDomainEvent
  task_event t event_type more = record {
    aggregate_type = "CollaboratorTask";
    aggregate_id = t.id;
    aggregate_revision = t.aggregate_revision;
    event_type = event_type;
    payload = ("task_id", text (uuid_text t.id)) ∷ more;
  }

  abbrev pub requirement_key : CreateTaskFromRequirement → ℕ → String
  requirement_key m assignment =
      String.◌++◌ (uuid_text m.requirement_id)
        (String.◌++◌ ":" (String.◌++◌ m.task_kind (String.◌++◌ ":" (uuid_text assignment))))

  -- The task that `_create` adds, and its outcome.
  abbrev pub add_task : CollaboratorTaskRecord → Method WorkError Tables HandlerOutcome
  add_task t = do
    modify (λ d. record d { tasks = d.tasks ++ t ∷ [] })
    pure (
        outcome t (
          some (
            task_event t "TaskCreatedFromRequirement" (
              ("case_id", text (uuid_text t.case_id))
              ∷ ("assignment_id", text (uuid_text t.assignment_id))
              ∷ ("requirement_id", text (uuid_text t.requirement_id))
              ∷ ("state", text t.state)
              ∷ []))))

  -- `if existing is not None: return …`
  abbrev pub reuse_or_add :
      Option CollaboratorTaskRecord
      → CollaboratorTaskRecord
      → Method WorkError Tables HandlerOutcome
  reuse_or_add none t = add_task t
  reuse_or_add (some existing) t = pure (outcome existing none)

  abbrev pub make_task :
      CreateTaskFromRequirement
      → CommandContext
      → CaseAssignmentRecord
      → DceRequirementRecord
      → CollaboratorTaskRecord
  make_task m c a r = record {
    id = m.task_id;
    tenant_id = c.tenant_id;
    case_id = a.case_id;
    assignment_id = a.id;
    requirement_id = r.id;
    task_kind = m.task_kind;
    title = m.title;
    objective = m.objective;
    priority = "NORMAL";
    state = "READY";
    functional_key = requirement_key m a.id;
    due_at = m.due_at;
    aggregate_revision = 0;
    claimed_at = none;
    completed_at = none;
  }

  -- `_create`
  unfoldable pub create :
      CreateTaskFromRequirement → CommandContext → Method WorkError Tables HandlerOutcome
  create m c = do
    d ← gets (λ d. d)
    a ←
        or_raise not_found_or_forbidden
          (find (is_assignment c.tenant_id m.assignment_id) d.assignments)
    raise_if (is_other a.membership_id c.membership_id) not_found_or_forbidden
    raise_if (not (str_eq a.state "ACTIVE")) assignment_inactive
    raise_if (not (a.case_id == m.case_id)) case_context_mismatch
    raise_if (not (contains str_eq "work.task.write" a.scope_actions)) assignment_scope_forbidden
    case ← or_raise not_found_or_forbidden (find (is_case c.tenant_id m.case_id) d.cases)
    raise_if (str_eq case.lifecycle "ARCHIVED") not_found_or_forbidden
    r ←
        or_raise not_found_or_forbidden
          (find (is_requirement c.tenant_id m.requirement_id) d.requirements)
    raise_if (is_stale case.applicable_dce_version_id r.dce_version_id) stale_context
    let key = requirement_key m a.id
    reuse_or_add (find (is_same_task c.tenant_id a.id key) d.tasks) (make_task m c a r)

  -- The outcome of a change of the task that was read.
  abbrev pub change_task :
      CollaboratorTaskRecord
      → (CollaboratorTaskRecord → CollaboratorTaskRecord)
      → CommandContext
      → String
      → Method WorkError Tables HandlerOutcome
  change_task t f c event_type = do
    set_task c.tenant_id t.id f
    let t' = f t
    pure (outcome t' (some (task_event t' event_type (("state", text t'.state) ∷ []))))

  -- `_claim`
  unfoldable pub claim :
      CollaboratorTaskRecord → CommandContext → Method WorkError Tables HandlerOutcome
  claim t c = do
    raise_if (not (str_eq t.state "READY")) task_not_claimable
    change_task t
        (λ t. record t {
          state = "IN_PROGRESS";
          aggregate_revision = t.aggregate_revision + 1;
          claimed_at = some c.received_at;
        })
        c "TaskClaimed"

  -- `_record_result`
  unfoldable pub record_result :
      CollaboratorTaskRecord
      → RecordTaskResult
      → CommandContext
      → Method WorkError Tables HandlerOutcome
  record_result t m c = do
    raise_if (not (is_active t.state)) task_not_active
    let revision = t.aggregate_revision + 1
    modify (λ d. record d {
      results =
          d.results
          ++ record {
            id = m.fresh_id;
            tenant_id = c.tenant_id;
            task_id = t.id;
            task_revision = revision;
            outcome = m.outcome;
            result_text = m.result_text;
            source_locator = m.source_locator;
            actor_id = c.actor_id;
            membership_id = c.membership_id;
            command_id = m.command_id;
            correlation_id = m.correlation_id;
          }
            ∷ [];
    })
    set_task c.tenant_id t.id (λ t. record t { aggregate_revision = t.aggregate_revision + 1 })
    let t' = record t { aggregate_revision = revision }
    pure
        (record (outcome t' (
          some (
            task_event t' "TaskResultRecorded"
              (("state", text t'.state) ∷ ("result_revision", number revision) ∷ [])))) {
                result_code = "TASK_UPDATED";
              })

  -- `_complete`
  unfoldable pub complete :
      CollaboratorTaskRecord → CommandContext → Method WorkError Tables HandlerOutcome
  complete t c = do
    raise_if (not (is_active t.state)) task_not_completable
    d ← gets (λ d. d)
    raise_if (not (any (is_result_of c.tenant_id t.id) d.results)) evidence_of_completion_required
    change_task t
        (λ t. record t {
          state = "COMPLETED";
          aggregate_revision = t.aggregate_revision + 1;
          completed_at = some c.received_at;
        })
        c "TaskCompleted"

  abbrev pub act :
      CollaboratorTaskRecord → TaskAction → CommandContext → Method WorkError Tables HandlerOutcome
  act t claim_task c = claim t c
  act t complete_task c = complete t c
  act t (record_task_result m) c = record_result t m c

  abbrev pub dispatch_work :
      WorkTaskCommand → CommandContext → Method WorkError Tables HandlerOutcome
  dispatch_work (create_task_from_requirement m) c = create m c
  dispatch_work (on_task id expected m) c = do
    d ← gets (λ d. d)
    t ← or_raise not_found_or_forbidden (find (is_task c.tenant_id id) d.tasks)
    ensure_assignment t c
    raise_if (not (t.aggregate_revision == expected)) version_conflict
    act t m c

  -- `execute`
  unfoldable pub execute_work :
      WorkTaskCommand → CommandContext → Method WorkError Tables HandlerOutcome
  unfolding create claim record_result complete ensure_assignment
  execute_work m c = raise_if (not (is_collaborator c)) collaborator_required >> dispatch_work m c
