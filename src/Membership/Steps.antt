-- ===== src/Membership/Steps.antt =====
-- Each command of backend/app/modules/membership/application/collab_work_task_handler.py and
-- collab_info_blockers_handler.py keeps a completed task that has no open blocker.
use smart_ao_v.Base.{
  ◌⊎◌, ℕ, ◌≡◌, ◌∙◌, ap, String, not, some, [], ◌∷◌, ◌++◌, ◌==◌, ==_iff, arith, find, Option-cases,
  inl, inr,
}
use smart_ao_v.Base.Rows.{find-holds, find-append}
use smart_ao_v.Membership.Rows.{
  CollaboratorTaskRecord, Tables, CommandContext, WorkError, HandlerOutcome, collaborator_required,
  version_conflict, is_task, is_assignment,
}
use smart_ao_v.Membership.Assignment.{ensure_assignment}
use smart_ao_v.Membership.TaskCommands.{
  CreateTaskFromRequirement, WorkTaskCommand, create_task_from_requirement, on_task,
}
use smart_ao_v.Membership.WorkTask.{
  is_collaborator, is_requirement, make_task, create, act, dispatch_work, execute_work,
}
use smart_ao_v.Membership.Blockers.{BlockerAction, InfoBlockerCommand, execute_blocker}
use smart_ao_v.Membership.Requests.{
  InformationCommand, create_information_request, record_information_response, handle_request,
}
use smart_ao_v.Base.Method.{Method, ◌>>◌, raise_if}
use smart_ao_v.Base.Keeps.{Keeps, then-Keeps, raise_if-Keeps, then-at, raise_if-at}
use smart_ao_v.Membership.Blockers.{
  on_request, on_blocker, declare_task_blocker, resolve_task_blocker, dispatch_blocker,
  act_on_blocker,
}
use smart_ao_v.Membership.Closing.{IsClosed}
use smart_ao_v.Membership.Kept.{act-IsClosed, declare_blocker-IsClosed, resolve_blocker-IsClosed}

ensure_assignment-same :
    (u : CollaboratorTaskRecord) (c : CommandContext) (d : Tables) → (ensure_assignment u c d).1 ≡ d
unfolding ensure_assignment
ensure_assignment-same u c d = ground arith

-- The task that a command is on, as it is read.
pub found_task :
    (c : CommandContext) (k : ℕ) (u : CollaboratorTaskRecord) (d : Tables)
    → find (is_task c.tenant_id k) d.tasks ≡ some u
    → find (is_task c.tenant_id u.id) d.tasks ≡ some u
found_task c k u d e =
    let here = find-holds (is_task c.tenant_id k) d.tasks u e in
    let same : u.id ≡ k = ground (arith, here, ==_iff u.id k) in
    ap (λ n. find (is_task c.tenant_id n) d.tasks) same ∙ e

module _ (uuid_text : ℕ → String) (lower_text : String → String) where
  handle_request-tasks :
      (m : InformationCommand) (c : CommandContext) (d : Tables)
      → let d' = (handle_request uuid_text lower_text m c d).1 in
        (d'.tasks ≡ d.tasks) × (d'.blockers ≡ d.blockers)
  unfolding handle_request
  handle_request-tasks (create_information_request m) c d = ground arith
  handle_request-tasks (record_information_response m) c d = ground arith

  module _ (tenant id : ℕ) (t : CollaboratorTaskRecord) where
    -- The task is the one that is found, and is closed.
    abbrev I : Tables → Type 0
    I d = IsClosed tenant id t d

    create-tasks :
        (m : CreateTaskFromRequirement) (c : CommandContext) (d : Tables)
        → let d' = (create uuid_text m c d).1 in
          ((d'.tasks ≡ d.tasks) ⊎ ((u : CollaboratorTaskRecord) × (d'.tasks ≡ d.tasks ++ u ∷ [])))
          × (d'.blockers ≡ d.blockers)
    unfolding create
    create-tasks m c d =
        elim (Option-cases (find (is_assignment c.tenant_id m.assignment_id) d.assignments)) [
          | inl e ↦ (inl (ground (arith, e)), ground (arith, e))
          | inr (a, e) ↦
              elim (Option-cases
                (find (is_requirement c.tenant_id m.requirement_id) d.requirements)) [
                  | inl f ↦ (inl (ground (arith, e, f)), ground (arith, e, f))
                  | inr (r, f) ↦
                      let d' = (create uuid_text m c d).1 in
                      let u = make_task uuid_text m c a r in
                      let added : (d'.tasks ≡ d.tasks) ⊎ (d'.tasks ≡ d.tasks ++ u ∷ []) =
                        ground (arith, e, f) in
                      (elim added [ inl q ↦ inl q | inr q ↦ inr (u, q) ], ground (arith, e, f))
                ]
        ]

    create-IsClosed :
        (m : CreateTaskFromRequirement) (c : CommandContext) → Keeps I (create uuid_text m c)
    create-IsClosed m c d k =
        let (tasks, blockers) = create-tasks m c d in
        let found : find (is_task tenant id) (create uuid_text m c d).1.tasks ≡ some t =
          elim tasks [
            | inl e ↦ rw e k.found
            | inr (u, e) ↦ rw e (find-append (is_task tenant id) d.tasks (u ∷ []) t k.found)
          ] in
        record { found = found; completed = k.completed; unblocked = rw blockers k.unblocked }

    collaborator_only :
        (c : CommandContext) (n : Method WorkError Tables HandlerOutcome)
        → Keeps I n
        → Keeps I (raise_if (not (is_collaborator c)) collaborator_required >> n)
    collaborator_only c n =
        then-Keeps I (raise_if (not (is_collaborator c)) collaborator_required) n
          (raise_if-Keeps I (not (is_collaborator c)) collaborator_required)

    -- The checks before a change of a task.
    assigned :
        (c : CommandContext) (u : CollaboratorTaskRecord) (expected : ℕ) (d : Tables)
        (n : Method WorkError Tables HandlerOutcome)
        → I d
        → I (n d).1
        → I
            ((ensure_assignment u c
                >> (raise_if (not (u.aggregate_revision == expected)) version_conflict >> n))
              d).1
    assigned c u expected d n i k =
        then-at I (ensure_assignment u c)
          (raise_if (not (u.aggregate_revision == expected)) version_conflict >> n) d
          (ensure_assignment-same u c d) i
          (raise_if-at I (not (u.aggregate_revision == expected)) version_conflict n d i k)

    pub execute_work-IsClosed :
        (m : WorkTaskCommand) (c : CommandContext) → Keeps I (execute_work uuid_text m c)
    unfolding execute_work
    execute_work-IsClosed (create_task_from_requirement m) c =
        collaborator_only c (create uuid_text m c) (create-IsClosed m c)
    execute_work-IsClosed (on_task k expected m) c =
        collaborator_only c (dispatch_work uuid_text (on_task k expected m) c) λ d i.
          elim (Option-cases (find (is_task c.tenant_id k) d.tasks)) [
            | inl e ↦
                let same : (dispatch_work uuid_text (on_task k expected m) c d).1 ≡ d =
                  ground (arith, e) in
                rw same i
            | inr (u, e) ↦
                let acted =
                  act-IsClosed uuid_text lower_text tenant id t d i c u (found_task c k u d e) m in
                rw e (assigned c u expected d (act uuid_text u m c) i acted)
          ]

    act_on_blocker-IsClosed :
        (m : BlockerAction) (d : Tables)
        → I d
        → (c : CommandContext) (u : CollaboratorTaskRecord)
        → find (is_task c.tenant_id u.id) d.tasks ≡ some u
        → I (act_on_blocker uuid_text lower_text u m c d).1
    act_on_blocker-IsClosed (declare_task_blocker m) d i c u g =
        declare_blocker-IsClosed uuid_text lower_text tenant id t d i c u g m
    act_on_blocker-IsClosed (resolve_task_blocker m) d i c u g =
        resolve_blocker-IsClosed uuid_text lower_text tenant id t d i c u g m

    pub execute_blocker-IsClosed :
        (m : InfoBlockerCommand) (c : CommandContext)
        → Keeps I (execute_blocker uuid_text lower_text m c)
    unfolding execute_blocker
    execute_blocker-IsClosed (on_request m) c =
        collaborator_only c (handle_request uuid_text lower_text m c) λ d i.
          let (tasks, blockers) = handle_request-tasks m c d in
          record {
            found = rw tasks i.found;
            completed = i.completed;
            unblocked = rw blockers i.unblocked;
          }
    execute_blocker-IsClosed (on_blocker k expected m) c =
        collaborator_only c (dispatch_blocker uuid_text lower_text (on_blocker k expected m) c)
          λ d i. elim (Option-cases (find (is_task c.tenant_id k) d.tasks)) [
            | inl e ↦
                let same : (dispatch_blocker uuid_text lower_text (on_blocker k expected m) c d).1
                    ≡ d =
                  ground (arith, e) in
                rw same i
            | inr (u, e) ↦
                let acted = act_on_blocker-IsClosed m d i c u (found_task c k u d e) in
                rw e (assigned c u expected d (act_on_blocker uuid_text lower_text u m c) i acted)
          ]
