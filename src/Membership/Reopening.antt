-- ===== src/Membership/Reopening.antt =====
-- Completed tasks through sequences of commands of
-- backend/app/modules/membership/application/collab_work_task_handler.py and
-- collab_info_blockers_handler.py.
use smart_ao_v.Base.{
  ℕ, ◌+◌, ◌≡◌, ◌∙◌, ap, String, true, some, List, [], ◌∷◌, ==_iff, arith, eq_iff, find,
  update_first,
}
use smart_ao_v.Base.Result.{ok}
use smart_ao_v.Base.Rows.{find-holds, find-update_first}
use smart_ao_v.Membership.Rows.{
  CollaboratorTaskRecord, CollaboratorTaskBlockerRecord, Tables, CommandContext, is_task,
}
use smart_ao_v.Membership.Assignment.{ensure_assignment}
use smart_ao_v.Membership.TaskCommands.{WorkTaskCommand}
use smart_ao_v.Membership.WorkTask.{is_collaborator, execute_work}
use smart_ao_v.Membership.Blockers.{
  ResolveTaskBlocker, InfoBlockerCommand, is_blocker, execute_blocker,
}
use smart_ao_v.Membership.Blockers.{on_blocker, resolve_task_blocker}
use smart_ao_v.Membership.Closing.{IsClosed}
use smart_ao_v.Membership.Steps.{found_task, execute_work-IsClosed, execute_blocker-IsClosed}

-- A command of either handler, with its context.
pub data Command : Type 0 where
  work : WorkTaskCommand → Command
  info : InfoBlockerCommand → Command

module _ (uuid_text : ℕ → String) (lower_text : String → String) where
  unfoldable pub step : Command → CommandContext → Tables → Tables
  step (work m) c d = (execute_work uuid_text m c d).1
  step (info m) c d = (execute_blocker uuid_text lower_text m c d).1

  unfoldable pub run : List (Command × CommandContext) → Tables → Tables
  run [] d = d
  run ((m, c) ∷ commands) d = run commands (step m c d)

  step-IsClosed :
      (tenant id : ℕ) (t : CollaboratorTaskRecord) (m : Command) (c : CommandContext) (d : Tables)
      → IsClosed tenant id t d
      → IsClosed tenant id t (step m c d)
  unfolding step
  step-IsClosed tenant id t (work m) c d k =
      execute_work-IsClosed uuid_text lower_text tenant id t m c d k
  step-IsClosed tenant id t (info m) c d k =
      execute_blocker-IsClosed uuid_text lower_text tenant id t m c d k

  -- A completed task with no open blocker keeps its row, and no blocker opens on it, through every
  -- sequence of commands of collaborators, of any tenant, refused ones included.
  pub run-IsClosed :
      (commands : List (Command × CommandContext)) (d : Tables) (tenant id : ℕ)
      (t : CollaboratorTaskRecord)
      → IsClosed tenant id t d
      → IsClosed tenant id t (run commands d)
  unfolding run
  run-IsClosed [] d tenant id t k = k
  run-IsClosed ((m, c) ∷ commands) d tenant id t k =
      run-IsClosed commands (step m c d) tenant id t (step-IsClosed tenant id t m c d k)

  -- An open blocker of a task of any state, completed ones included, can be resolved by a
  -- collaborator whose assignment holds and who expects the current revision, and the task is
  -- then in progress.
  pub resolving_reopens :
      (c : CommandContext) (d : Tables) (u : CollaboratorTaskRecord) (k : ℕ)
      (b : CollaboratorTaskBlockerRecord) (m : ResolveTaskBlocker)
      → is_collaborator c ≡ true
      → find (is_task c.tenant_id k) d.tasks ≡ some u
      → ensure_assignment u c d ≡ (ok tt, d)
      → find (is_blocker c.tenant_id k m.blocker_id) d.blockers ≡ some b
      → b.state ≡ "OPEN"
      → let d' = step (info (on_blocker k u.aggregate_revision (resolve_task_blocker m))) c d in
        find (is_task c.tenant_id k) d'.tasks
        ≡ some (record u { state = "IN_PROGRESS"; aggregate_revision = u.aggregate_revision + 1 })
  unfolding step execute_blocker
  resolving_reopens c d u k b m who e held f' open_b =
      let f : CollaboratorTaskRecord → CollaboratorTaskRecord =
        λ t. record t { state = "IN_PROGRESS"; aggregate_revision = t.aggregate_revision + 1 } in
      let here = find-holds (is_task c.tenant_id k) d.tasks u e in
      let same : u.id ≡ k = ground (arith, here, ==_iff u.id k) in
      let found : find (is_blocker c.tenant_id u.id m.blocker_id) d.blockers ≡ some b =
        ap (λ n. find (is_blocker c.tenant_id n m.blocker_id) d.blockers) same ∙ f' in
      let rows : (step (info (on_blocker k u.aggregate_revision (resolve_task_blocker m))) c
            d).tasks
          ≡ update_first (is_task c.tenant_id u.id) f d.tasks =
        ground (
          arith,
          who,
          e,
          held,
          found,
          open_b,
          eq_iff b.state "OPEN",
          ==_iff u.aggregate_revision u.aggregate_revision,
        ) in
      ap (find (is_task c.tenant_id k)) rows
      ∙ find-update_first (is_task c.tenant_id k) (is_task c.tenant_id u.id) f d.tasks u e
          (found_task c k u d e) here
