-- ===== src/Membership/Closing.antt =====
-- What a completed task of backend/app/modules/membership is, and what queries find beside it.
use smart_ao_v.Base.{
  ℕ, ◌≡◌, refl, String, Bool, true, false, ◌&&◌, some, List, [], ◌∷◌, ◌==◌, ==_iff, arith, eq_iff,
  str_eq, find, update_first, any, Bool-cases, inl, inr,
}
use smart_ao_v.Base.Rows.{find-holds}
use smart_ao_v.Membership.Rows.{
  CollaboratorTaskRecord, CollaboratorTaskBlockerRecord, Tables, is_task,
}
use smart_ao_v.Membership.WorkTask.{is_active}
use smart_ao_v.Membership.Blockers.{is_blocker}

abbrev pub is_open_of : ℕ → ℕ → CollaboratorTaskBlockerRecord → Bool
is_open_of tenant task b = b.tenant_id == tenant && b.task_id == task && str_eq b.state "OPEN"

-- The task is completed and has no open blocker.
pub record IsClosed (tenant id : ℕ) (t : CollaboratorTaskRecord) (d : Tables) : Type 0 where
  pub found : find (is_task tenant id) d.tasks ≡ some t
  pub completed : t.state ≡ "COMPLETED"
  pub unblocked : any (is_open_of tenant id) d.blockers ≡ false

pub other_state :
    (s x : String) → str_eq s x ≡ true → str_eq x "COMPLETED" ≡ false → str_eq s "COMPLETED" ≡ false
other_state s x h k = rw ((eq_iff s x).0 h) k

pub active_state : (s : String) → is_active s ≡ true → str_eq s "COMPLETED" ≡ false
active_state s h = ground (
  arith,
  other_state s "READY",
  other_state s "IN_PROGRESS",
  Bool-cases (str_eq s "READY"),
  Bool-cases (str_eq s "IN_PROGRESS"),
)

-- A task found under another key, or in another state, is another task.
pub other_task :
    (tenant id tenant' id' : ℕ) (t u : CollaboratorTaskRecord) (rows : List CollaboratorTaskRecord)
    → find (is_task tenant id) rows ≡ some t
    → find (is_task tenant' id') rows ≡ some u
    → str_eq t.state "COMPLETED" ≡ true
    → str_eq u.state "COMPLETED" ≡ false
    → is_task tenant id u ≡ false
other_task tenant id tenant' id' t u rows f g h k = elim (Bool-cases (is_task tenant id u)) [
  | inr e ↦ e
  | inl e ↦
      let here = find-holds (is_task tenant' id') rows u g in
      let t_eq : tenant' ≡ tenant =
        ground (arith, e, here, ==_iff u.tenant_id tenant, ==_iff u.tenant_id tenant') in
      let i_eq : id' ≡ id = ground (arith, e, here, ==_iff u.id id, ==_iff u.id id') in
      let g' : find (is_task tenant id) rows ≡ some u = rw (t_eq, i_eq) at g in
      absurd (ground (arith, f, g', h, k))
]

pub no_open_resolved :
    (tenant id tenant' task blocker now n : ℕ) (note : String)
    (rows : List CollaboratorTaskBlockerRecord)
    → any (is_open_of tenant id) rows ≡ false
    → any (is_open_of tenant id) (
        update_first
          (is_blocker tenant' task blocker)
          (λ b. record b {
            state = "RESOLVED";
            task_revision = n;
            resolution_note = some note;
            resolved_at = some now;
          })
          rows)
      ≡ false
no_open_resolved tenant id tenant' task blocker now n note [] h = refl
no_open_resolved tenant id tenant' task blocker now n note (b ∷ rows) h =
    elim (Bool-cases (is_blocker tenant' task blocker b)) [
      | inl e ↦ ground (arith, e, h)
      | inr e ↦
          ground (arith, e, h, no_open_resolved tenant id tenant' task blocker now n note rows)
    ]

-- The blocker that is found is an open one of the task, if it is open.
pub found_open :
    (tenant task blocker : ℕ) (rows : List CollaboratorTaskBlockerRecord)
    (b : CollaboratorTaskBlockerRecord)
    → find (is_blocker tenant task blocker) rows ≡ some b
    → str_eq b.state "OPEN" ≡ true
    → any (is_open_of tenant task) rows ≡ true
found_open tenant task blocker [] b h k = ground arith
found_open tenant task blocker (x ∷ rows) b h k =
    elim (Bool-cases (is_blocker tenant task blocker x)) [
      | inl e ↦ ground (arith, e, h, k)
      | inr e ↦ ground (arith, e, h, k, found_open tenant task blocker rows b)
    ]
