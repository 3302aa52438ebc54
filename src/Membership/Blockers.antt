-- ===== src/Membership/Blockers.antt =====
-- `CollaboratorInfoBlockerHandler` of
-- backend/app/modules/membership/application/collab_info_blockers_handler.py. `str.lower` and
-- the text of a UUID are parameters.
use smart_ao_v.Base.{
  ℕ, ◌+◌, String, Bool, not, ◌&&◌, ◌||◌, Option, none, some, List, [], ◌∷◌, ◌++◌, ◌==◌, str_eq,
  find, update_first,
}
use smart_ao_v.Base.Method.{Method, pure, ◌>>=◌, ◌>>◌, raise_if, gets, modify}
use smart_ao_v.Membership.Rows.{
  CollaboratorTaskRecord, CollaboratorTaskBlockerRecord, Tables, CommandContext, WorkError,
  collaborator_required, not_found_or_forbidden, version_conflict, task_terminal,
  blocker_already_resolved, Value, text, HandlerOutcome, or_raise, is_task, set_task,
}
use smart_ao_v.Membership.Assignment.{ensure_assignment}
use smart_ao_v.Membership.WorkTask.{is_collaborator, task_event}
use smart_ao_v.Membership.Requests.{InformationCommand, handle_request}

pub record DeclareTaskBlocker : Type 0 where
  pub blocker_id : ℕ
  pub blocker_kind : String
  pub description : String
  pub source_locator : Option String
  pub resolution_owner : String
  pub command_id : ℕ
  pub correlation_id : Option ℕ

pub record ResolveTaskBlocker : Type 0 where
  pub blocker_id : ℕ
  pub resolution_note : String

pub data BlockerAction : Type 0 where
  declare_task_blocker : DeclareTaskBlocker → BlockerAction
  resolve_task_blocker : ResolveTaskBlocker → BlockerAction

pub data InfoBlockerCommand : Type 0 where
  on_request : InformationCommand → InfoBlockerCommand
  on_blocker : ℕ → ℕ → BlockerAction → InfoBlockerCommand

-- `task.state in {"COMPLETED", "ABANDONED"}`
abbrev pub is_terminal : String → Bool
is_terminal s = str_eq s "COMPLETED" || str_eq s "ABANDONED"

abbrev pub is_blocker : ℕ → ℕ → ℕ → CollaboratorTaskBlockerRecord → Bool
is_blocker tenant task id b = b.tenant_id == tenant && b.id == id && b.task_id == task

abbrev pub make_blocker :
    CollaboratorTaskRecord → DeclareTaskBlocker → CommandContext → CollaboratorTaskBlockerRecord
make_blocker t m c = record {
  id = m.blocker_id;
  tenant_id = c.tenant_id;
  task_id = t.id;
  task_revision = t.aggregate_revision + 1;
  blocker_kind = m.blocker_kind;
  description = m.description;
  source_locator = m.source_locator;
  resolution_owner = m.resolution_owner;
  state = "OPEN";
  resolution_note = none;
  resolved_at = none;
  actor_id = c.actor_id;
  membership_id = c.membership_id;
  command_id = m.command_id;
  correlation_id = m.correlation_id;
}

module _ (uuid_text : ℕ → String) (lower_text : String → String) where
  -- The outcome of a move of the task that was read to a state.
  abbrev pub move_task :
      CollaboratorTaskRecord
      → String
      → CommandContext
      → String
      → String
      → ℕ
      → List (String × Value)
      → Method WorkError Tables HandlerOutcome
  move_task t state c code event_type blocker more = do
    set_task c.tenant_id t.id
        (λ t. record t { state = state; aggregate_revision = t.aggregate_revision + 1 })
    let t' = record t { state = state; aggregate_revision = t.aggregate_revision + 1 }
    pure (record {
      result_code = code;
      aggregate_type = "CollaboratorTask";
      aggregate_id = t'.id;
      aggregate_revision = t'.aggregate_revision;
      events =
          task_event uuid_text t' event_type
            (("blocker_id", text (uuid_text blocker)) ∷ ("state", text state) ∷ more)
          ∷ [];
    })

  -- `_declare_blocker`
  unfoldable pub declare_blocker :
      CollaboratorTaskRecord
      → DeclareTaskBlocker
      → CommandContext
      → Method WorkError Tables HandlerOutcome
  declare_blocker t m c = do
    raise_if (is_terminal t.state) task_terminal
    modify (λ d. record d { blockers = d.blockers ++ make_blocker t m c ∷ [] })
    move_task t "BLOCKED" c "TASK_BLOCKED" "TaskBlockerDeclared" m.blocker_id
        (("blocker_kind", text m.blocker_kind) ∷ [])

  -- `_resolve_blocker`
  unfoldable pub resolve_blocker :
      CollaboratorTaskRecord
      → ResolveTaskBlocker
      → CommandContext
      → Method WorkError Tables HandlerOutcome
  resolve_blocker t m c = do
    d ← gets (λ d. d)
    b ← or_raise not_found_or_forbidden (find (is_blocker c.tenant_id t.id m.blocker_id) d.blockers)
    raise_if (not (str_eq b.state "OPEN")) blocker_already_resolved
    modify (λ d. record d {
      blockers =
          update_first (is_blocker c.tenant_id t.id m.blocker_id)
            (λ b. record b {
              state = "RESOLVED";
              task_revision = t.aggregate_revision + 1;
              resolution_note = some m.resolution_note;
              resolved_at = some c.received_at;
            })
            d.blockers;
    })
    move_task t "IN_PROGRESS" c "TASK_UNBLOCKED" "TaskBlockerResolved" m.blocker_id []

  abbrev pub act_on_blocker :
      CollaboratorTaskRecord
      → BlockerAction
      → CommandContext
      → Method WorkError Tables HandlerOutcome
  act_on_blocker t (declare_task_blocker m) c = declare_blocker t m c
  act_on_blocker t (resolve_task_blocker m) c = resolve_blocker t m c

  abbrev pub dispatch_blocker :
      InfoBlockerCommand → CommandContext → Method WorkError Tables HandlerOutcome
  dispatch_blocker (on_request m) c = handle_request uuid_text lower_text m c
  dispatch_blocker (on_blocker id expected m) c = do
    d ← gets (λ d. d)
    t ← or_raise not_found_or_forbidden (find (is_task c.tenant_id id) d.tasks)
    ensure_assignment t c
    raise_if (not (t.aggregate_revision == expected)) version_conflict
    act_on_blocker t m c

  -- `execute`
  unfoldable pub execute_blocker :
      InfoBlockerCommand → CommandContext → Method WorkError Tables HandlerOutcome
  unfolding declare_blocker resolve_blocker ensure_assignment handle_request
  execute_blocker m c =
      raise_if (not (is_collaborator c)) collaborator_required >> dispatch_blocker m c
