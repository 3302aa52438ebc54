-- ===== src/Membership/Rows.antt =====
-- The tables of backend/app/modules/membership/infrastructure that the handlers of collaborators read
-- and write, their errors and their outcomes.
use smart_ao_v.Base.{ℕ, String, Bool, ◌&&◌, Option, none, some, List, [], ◌∷◌, ◌==◌, update_first}
use smart_ao_v.Base.Result.{ok, err}
use smart_ao_v.Base.Method.{Method, modify}

pub record CaseAssignmentRecord : Type 0 where
  pub id : ℕ
  pub tenant_id : ℕ
  pub case_id : ℕ
  pub membership_id : ℕ
  pub state : String
  pub starts_at : ℕ
  pub ends_at : Option ℕ
  pub scope_actions : List String
  pub scope_classifications : List String

pub record CaseRecord : Type 0 where
  pub id : ℕ
  pub tenant_id : ℕ
  pub lifecycle : String
  pub applicable_dce_version_id : Option ℕ

pub record DceRequirementRecord : Type 0 where
  pub id : ℕ
  pub tenant_id : ℕ
  pub dce_version_id : ℕ

pub record CollaboratorTaskRecord : Type 0 where
  pub id : ℕ
  pub tenant_id : ℕ
  pub case_id : ℕ
  pub assignment_id : ℕ
  pub requirement_id : ℕ
  pub task_kind : String
  pub title : String
  pub objective : String
  pub priority : String
  pub state : String
  pub functional_key : String
  pub due_at : Option ℕ
  pub aggregate_revision : ℕ
  pub claimed_at : Option ℕ
  pub completed_at : Option ℕ

pub record CollaboratorTaskResultRecord : Type 0 where
  pub id : ℕ
  pub tenant_id : ℕ
  pub task_id : ℕ
  pub task_revision : ℕ
  pub outcome : String
  pub result_text : String
  pub source_locator : Option String
  pub actor_id : ℕ
  pub membership_id : Option ℕ
  pub command_id : ℕ
  pub correlation_id : Option ℕ

pub record CollaboratorTaskBlockerRecord : Type 0 where
  pub id : ℕ
  pub tenant_id : ℕ
  pub task_id : ℕ
  pub task_revision : ℕ
  pub blocker_kind : String
  pub description : String
  pub source_locator : Option String
  pub resolution_owner : String
  pub state : String
  pub resolution_note : Option String
  pub resolved_at : Option ℕ
  pub actor_id : ℕ
  pub membership_id : Option ℕ
  pub command_id : ℕ
  pub correlation_id : Option ℕ

pub record CollaboratorInformationRequestRecord : Type 0 where
  pub id : ℕ
  pub tenant_id : ℕ
  pub task_id : ℕ
  pub request_kind : String
  pub subject : String
  pub question : String
  pub requested_object : String
  pub reason : String
  pub priority : String
  pub state : String
  pub functional_key : String
  pub due_at : Option ℕ
  pub aggregate_revision : ℕ
  pub actor_id : ℕ
  pub membership_id : Option ℕ
  pub command_id : ℕ
  pub correlation_id : Option ℕ

pub record CollaboratorInformationResponseRecord : Type 0 where
  pub id : ℕ
  pub tenant_id : ℕ
  pub request_id : ℕ
  pub request_revision : ℕ
  pub outcome : String
  pub response_text : String
  pub source_locator : Option String
  pub actor_id : ℕ
  pub membership_id : Option ℕ
  pub command_id : ℕ
  pub correlation_id : Option ℕ

pub record Tables : Type 0 where
  pub assignments : List CaseAssignmentRecord
  pub cases : List CaseRecord
  pub requirements : List DceRequirementRecord
  pub tasks : List CollaboratorTaskRecord
  pub results : List CollaboratorTaskResultRecord
  pub blockers : List CollaboratorTaskBlockerRecord
  pub requests : List CollaboratorInformationRequestRecord
  pub responses : List CollaboratorInformationResponseRecord

-- `CommandContext`, as far as the handlers read it.
pub record CommandContext : Type 0 where
  pub tenant_id : ℕ
  pub actor_id : ℕ
  pub actor_kind : String
  pub membership_id : Option ℕ
  pub case_id : Option ℕ
  pub received_at : ℕ

-- The codes of `CommandExecutionError`.
pub data WorkError : Type 0 where
  collaborator_required not_found_or_forbidden version_conflict : WorkError
  assignment_inactive assignment_scope_forbidden : WorkError
  assignment_classification_forbidden case_context_mismatch stale_context : WorkError
  task_not_claimable task_not_active task_not_completable : WorkError
  evidence_of_completion_required task_terminal blocker_already_resolved : WorkError
  request_not_open : WorkError

pub data Value : Type 0 where
  text : String → Value
  number : ℕ → Value

pub record PendingDomainEvent : Type 0 where
  pub aggregate_type : String
  pub aggregate_id : ℕ
  pub aggregate_revision : ℕ
  pub event_type : String
  pub payload : List (String × Value)

-- The one reference of `aggregate_refs`, and the events.
pub record HandlerOutcome : Type 0 where
  pub result_code : String
  pub aggregate_type : String
  pub aggregate_id : ℕ
  pub aggregate_revision : ℕ
  pub events : List PendingDomainEvent

-- `(event,) if event is not None else ()`
abbrev pub events_of : Option PendingDomainEvent → List PendingDomainEvent
events_of none = []
events_of (some e) = e ∷ []

-- `if x is None: raise CommandExecutionError(e)`
abbrev pub or_raise : {A : Type 0} → WorkError → Option A → Method WorkError Tables A
or_raise e none d = (err e, d)
or_raise e (some a) d = (ok a, d)

abbrev pub is_task : ℕ → ℕ → CollaboratorTaskRecord → Bool
is_task tenant id t = t.tenant_id == tenant && t.id == id

abbrev pub is_assignment : ℕ → ℕ → CaseAssignmentRecord → Bool
is_assignment tenant id a = a.tenant_id == tenant && a.id == id

-- The assignments to the task that was read.
abbrev pub set_task :
    ℕ → ℕ → (CollaboratorTaskRecord → CollaboratorTaskRecord) → Method WorkError Tables (Unit {0})
set_task tenant id f = modify (λ d. record d { tasks = update_first (is_task tenant id) f d.tasks })
