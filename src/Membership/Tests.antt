-- ===== src/Membership/Tests.antt =====
-- A collaborator with one assignment, a completed task, and the theorems at them.
use smart_ao_v.Base.{ℕ, ◌+◌, ◌≡◌, refl, String, none, some, List, [], ◌∷◌, find}
use smart_ao_v.Base.Result.{ok}
use smart_ao_v.Membership.Rows.{
  CaseAssignmentRecord, CollaboratorTaskRecord, CollaboratorTaskBlockerRecord, Tables,
  CommandContext, is_task,
}
use smart_ao_v.Membership.Assignment.{ensure_assignment}
use smart_ao_v.Membership.TaskCommands.{
  RecordTaskResult, claim_task, complete_task, on_task, record_task_result,
}
use smart_ao_v.Membership.WorkTask.{execute_work}
use smart_ao_v.Membership.Blockers.{
  DeclareTaskBlocker, ResolveTaskBlocker, on_blocker, declare_task_blocker, resolve_task_blocker,
  execute_blocker,
}
use smart_ao_v.Membership.Closing.{IsClosed}
use smart_ao_v.Membership.Reopening.{
  Command, work, info, step, run, run-IsClosed, resolving_reopens,
}

-- Stand-ins, for the run.
abbrev uuid_text : ℕ → String
uuid_text n = "uuid"

abbrev lower_text : String → String
lower_text s = s

abbrev given : CaseAssignmentRecord
given = record {
  id = 3;
  tenant_id = 7;
  case_id = 30;
  membership_id = 6;
  state = "ACTIVE";
  starts_at = 100;
  ends_at = some 900;
  scope_actions = "work.task.write" ∷ [];
  scope_classifications = "INTERNAL_OPERATIONAL" ∷ [];
}

abbrev visit : CollaboratorTaskRecord
visit = record {
  id = 1;
  tenant_id = 7;
  case_id = 30;
  assignment_id = 3;
  requirement_id = 90;
  task_kind = "SITE_VISIT";
  title = "Visit";
  objective = "See the site";
  priority = "NORMAL";
  state = "COMPLETED";
  functional_key = "key";
  due_at = none;
  aggregate_revision = 4;
  claimed_at = some 200;
  completed_at = some 300;
}

abbrev open_blocker : CollaboratorTaskBlockerRecord
open_blocker = record {
  id = 70;
  tenant_id = 7;
  task_id = 1;
  task_revision = 2;
  blocker_kind = "EXTERNAL_DEPENDENCY";
  description = "No access";
  source_locator = none;
  resolution_owner = "EXTERNAL_PARTY";
  state = "OPEN";
  resolution_note = none;
  resolved_at = none;
  actor_id = 5;
  membership_id = some 6;
  command_id = 20;
  correlation_id = none;
}

abbrev tables : Tables
tables = record {
  assignments = given ∷ [];
  cases = [];
  requirements = [];
  tasks = visit ∷ [];
  results = [];
  blockers = [];
  requests = [];
  responses = [];
}

abbrev blocked : Tables
blocked = record tables { blockers = open_blocker ∷ [] }

abbrev collaborator : CommandContext
collaborator = record {
  tenant_id = 7;
  actor_id = 5;
  actor_kind = "COLLABORATEUR";
  membership_id = some 6;
  case_id = some 30;
  received_at = 400;
}

abbrev block : DeclareTaskBlocker
block = record {
  blocker_id = 71;
  blocker_kind = "EXTERNAL_DEPENDENCY";
  description = "Closed";
  source_locator = none;
  resolution_owner = "EXTERNAL_PARTY";
  command_id = 22;
  correlation_id = none;
}

abbrev unblock : ResolveTaskBlocker
unblock = record { blocker_id = 70; resolution_note = "Open again" }

visit-IsClosed : IsClosed 7 1 visit tables
visit-IsClosed = record { found = refl; completed = refl; unblocked = refl }

held : ensure_assignment visit collaborator blocked ≡ (ok tt, blocked)
unfolding ensure_assignment
held = refl

abbrev started : Tables
started = record tables { tasks = record visit { state = "IN_PROGRESS" } ∷ [] }

abbrev result : RecordTaskResult
result = record {
  outcome = "RECORDED";
  result_text = "Seen";
  source_locator = none;
  command_id = 24;
  correlation_id = none;
  fresh_id = 80;
}

-- A task with two blockers is completed between the two resolutions, and is then in progress again.
reopened :
    let commands : List (Command × CommandContext) =
      (
        info (on_blocker 1 4 (declare_task_blocker (record block { blocker_id = 70 }))),
        collaborator,
      )
      ∷ (info (on_blocker 1 5 (declare_task_blocker block)), collaborator)
      ∷ (
        info (on_blocker 1 6 (resolve_task_blocker (record unblock { blocker_id = 71 }))),
        collaborator,
      )
      ∷ (work (on_task 1 7 (record_task_result result)), collaborator)
      ∷ (work (on_task 1 8 complete_task), collaborator)
      ∷ (info (on_blocker 1 9 (resolve_task_blocker unblock)), collaborator)
      ∷ [] in
    find (is_task 7 1) (run uuid_text lower_text commands started).tasks
    ≡ some
        (record visit { state = "IN_PROGRESS"; aggregate_revision = 10; completed_at = some 400 })
unfolding run step execute_work execute_blocker
reopened = refl

abbrev later : List (Command × CommandContext)
later =
    (work (on_task 1 4 claim_task), collaborator)
    ∷ (info (on_blocker 1 4 (declare_task_blocker block)), collaborator)
    ∷ []

run-IsClosed_example : IsClosed 7 1 visit (run uuid_text lower_text later tables)
run-IsClosed_example = run-IsClosed uuid_text lower_text later tables 7 1 visit visit-IsClosed

resolving_reopens_example :
    let d' =
      step uuid_text lower_text
        (info (on_blocker 1 4 (resolve_task_blocker unblock)))
        collaborator
        blocked in
    find (is_task 7 1) d'.tasks
    ≡ some (record visit { state = "IN_PROGRESS"; aggregate_revision = 4 + 1 })
resolving_reopens_example =
    resolving_reopens uuid_text lower_text collaborator blocked visit 1 open_blocker unblock refl
      refl held refl refl
