-- ===== src/Membership/Kept.antt =====
-- Each operation of backend/app/modules/membership/application/collab_work_task_handler.py and
-- collab_info_blockers_handler.py keeps a completed task.
use smart_ao_v.Base.{
  ℕ, ◌+◌, ◌≡◌, ◌∙◌, refl, String, true, false, some, [], ◌∷◌, ==_iff, arith, eq_iff, str_eq, find,
  update_first, any, any-append, Bool-cases, Option-cases, inl, inr,
}
use smart_ao_v.Base.Rows.{find-holds, find-update_other}
use smart_ao_v.Membership.Rows.{
  CollaboratorTaskRecord, CollaboratorTaskBlockerRecord, Tables, CommandContext, is_task,
}
use smart_ao_v.Membership.TaskCommands.{
  RecordTaskResult, TaskAction, claim_task, complete_task, record_task_result,
}
use smart_ao_v.Membership.WorkTask.{claim, record_result, complete, act, is_active, is_result_of}
use smart_ao_v.Membership.Blockers.{
  DeclareTaskBlocker, ResolveTaskBlocker, is_terminal, is_blocker, make_blocker, declare_blocker,
  resolve_blocker,
}
use smart_ao_v.Membership.Closing.{
  is_open_of, IsClosed, other_state, active_state, other_task, no_open_resolved, found_open,
}

module _ (uuid_text : ℕ → String) (lower_text : String → String) (tenant id : ℕ)
    (t : CollaboratorTaskRecord) (d : Tables) where
  module _ (closed : IsClosed tenant id t d) (c : CommandContext) (u : CollaboratorTaskRecord)
      (g : find (is_task c.tenant_id u.id) d.tasks ≡ some u) where
    is_done : str_eq t.state "COMPLETED" ≡ true
    is_done = ground (arith, closed.completed, eq_iff t.state "COMPLETED")

    is_other_of : str_eq u.state "COMPLETED" ≡ false → is_task tenant id u ≡ false
    is_other_of k = other_task tenant id c.tenant_id u.id t u d.tasks closed.found g is_done k

    -- Assignments to another task that keep its identifiers.
    kept :
        (f : CollaboratorTaskRecord → CollaboratorTaskRecord)
        → str_eq u.state "COMPLETED" ≡ false
        → is_task tenant id (f u) ≡ is_task tenant id u
        → find (is_task tenant id) (update_first (is_task c.tenant_id u.id) f d.tasks) ≡ some t
    kept f k same =
        find-update_other (is_task tenant id) (is_task c.tenant_id u.id) f d.tasks t u closed.found
          g (is_other_of k) (same ∙ is_other_of k)

    -- The task with an open blocker is another one.
    blocked_elsewhere :
        any (is_open_of c.tenant_id u.id) d.blockers ≡ true → is_task tenant id u ≡ false
    blocked_elsewhere h = elim (Bool-cases (is_task tenant id u)) [
      | inr e ↦ e
      | inl e ↦
          let here = find-holds (is_task c.tenant_id u.id) d.tasks u g in
          let t_eq : c.tenant_id ≡ tenant =
            ground (arith, e, here, ==_iff u.tenant_id tenant, ==_iff u.tenant_id c.tenant_id) in
          let i_eq : u.id ≡ id = ground (arith, e, ==_iff u.id id) in
          let h' : any (is_open_of tenant id) d.blockers ≡ true = rw (t_eq, i_eq) at h in
          absurd (ground (arith, h', closed.unblocked))
    ]

    claim-IsClosed : IsClosed tenant id t (claim uuid_text u c d).1
    unfolding claim
    claim-IsClosed = elim (Bool-cases (str_eq u.state "READY")) [
      | inr e ↦ rw (claim, e) closed
      | inl e ↦
          rw (claim, e)
            (record {
              found = kept _ (other_state u.state "READY" e refl) refl;
              completed = closed.completed;
              unblocked = closed.unblocked;
            })
    ]

    record_result-IsClosed :
        (m : RecordTaskResult) → IsClosed tenant id t (record_result uuid_text u m c d).1
    unfolding record_result
    record_result-IsClosed m = elim (Bool-cases (is_active u.state)) [
      | inr e ↦ rw (record_result, e) closed
      | inl e ↦
          rw (record_result, e)
            (record {
              found = kept _ (active_state u.state e) refl;
              completed = closed.completed;
              unblocked = closed.unblocked;
            })
    ]

    complete-IsClosed : IsClosed tenant id t (complete uuid_text u c d).1
    unfolding complete
    complete-IsClosed = elim (Bool-cases (is_active u.state)) [
      | inr e ↦ rw (complete, e) closed
      | inl e ↦ elim (Bool-cases (any (is_result_of c.tenant_id u.id) d.results)) [
        | inr h ↦
            let same : (complete uuid_text u c d).1 ≡ d = ground (arith, e, h) in rw same closed
        | inl h ↦
            let f : CollaboratorTaskRecord → CollaboratorTaskRecord = λ t. record t {
              state = "COMPLETED";
              aggregate_revision = t.aggregate_revision + 1;
              completed_at = some c.received_at;
            } in
            let rows : (complete uuid_text u c d).1
                ≡ record d { tasks = update_first (is_task c.tenant_id u.id) f d.tasks } =
              ground (arith, e, h) in
            rw rows (record {
              found = kept f (active_state u.state e) refl;
              completed = closed.completed;
              unblocked = closed.unblocked;
            })
      ]
    ]

    pub act-IsClosed : (m : TaskAction) → IsClosed tenant id t (act uuid_text u m c d).1
    act-IsClosed claim_task = claim-IsClosed
    act-IsClosed complete_task = complete-IsClosed
    act-IsClosed (record_task_result m) = record_result-IsClosed m

    pub declare_blocker-IsClosed :
        (m : DeclareTaskBlocker)
        → IsClosed tenant id t (declare_blocker uuid_text lower_text u m c d).1
    unfolding declare_blocker
    declare_blocker-IsClosed m = elim (Bool-cases (is_terminal u.state)) [
      | inl e ↦ rw (declare_blocker, e) closed
      | inr e ↦
          let k : str_eq u.state "COMPLETED" ≡ false = ground arith in
          let other = is_other_of k in
          let here = find-holds (is_task c.tenant_id u.id) d.tasks u g in
          rw (declare_blocker, e)
            (record {
              found = kept _ k refl;
              completed = closed.completed;
              unblocked = ground (
                arith,
                any-append (is_open_of tenant id) d.blockers (make_blocker u m c ∷ []),
                other,
                here,
                ==_iff u.tenant_id c.tenant_id,
                closed.unblocked,
              );
            })
    ]

    pub resolve_blocker-IsClosed :
        (m : ResolveTaskBlocker)
        → IsClosed tenant id t (resolve_blocker uuid_text lower_text u m c d).1
    unfolding resolve_blocker
    resolve_blocker-IsClosed m =
        let is_it = is_blocker c.tenant_id u.id m.blocker_id in
        elim (Option-cases (find is_it d.blockers)) [
          | inl e ↦
              let same : (resolve_blocker uuid_text lower_text u m c d).1 ≡ d = ground (arith, e) in
              rw same closed
          | inr (b, e) ↦ elim (Bool-cases (str_eq b.state "OPEN")) [
            | inr h ↦
                let same : (resolve_blocker uuid_text lower_text u m c d).1 ≡ d =
                  ground (arith, e, h) in
                rw same closed
            | inl h ↦
                let f : CollaboratorTaskRecord → CollaboratorTaskRecord = λ t. record t {
                  state = "IN_PROGRESS";
                  aggregate_revision = t.aggregate_revision + 1;
                } in
                let r : CollaboratorTaskBlockerRecord → CollaboratorTaskBlockerRecord = λ b.
                  record b {
                    state = "RESOLVED";
                    task_revision = u.aggregate_revision + 1;
                    resolution_note = some m.resolution_note;
                    resolved_at = some c.received_at;
                  } in
                let rows : (resolve_blocker uuid_text lower_text u m c d).1 ≡ record d {
                  tasks = update_first (is_task c.tenant_id u.id) f d.tasks;
                  blockers = update_first is_it r d.blockers;
                } =
                  ground (arith, e, h) in
                let other =
                  blocked_elsewhere (found_open c.tenant_id u.id m.blocker_id d.blockers b e h) in
                rw rows (record {
                  found =
                      find-update_other (is_task tenant id) (is_task c.tenant_id u.id) f d.tasks t u
                        closed.found g other other;
                  completed = closed.completed;
                  unblocked =
                      no_open_resolved tenant id c.tenant_id u.id m.blocker_id c.received_at
                        (u.aggregate_revision + 1) m.resolution_note d.blockers closed.unblocked;
                })
          ]
        ]
