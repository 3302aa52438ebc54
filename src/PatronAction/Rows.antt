-- ===== src/PatronAction/Rows.antt =====
-- The rows that a transition command of backend/app/modules/patron_action finds and writes.
use smart_ao_v.Base.{
  ℕ, ◌<◌, ◌≡◌, ◌≢◌, refl, ◌⊎◌, inl, inr, String, true, false, Option, none, some, List, [], ◌∷◌,
  ◌++◌, arith, Option-cases, ap,
}
use smart_ao_v.Base.Result.{ok, Result-cases}
use smart_ao_v.PatronAction.State.{ensure_transition_allowed}
use smart_ao_v.PatronAction.Transition.{
  PatronActionRecord, PatronActionTransitionRecord, TransitionPatronActionCommand, CommandContext,
  Tables, Transitioned, find_action, is_of, find_latest, current_state, current_revision,
  store_action, is_closed, apply_transition, execute,
}

-- The assigned row is found with its new state and revision.
pub find_action-store_self :
    (tenant id : ℕ) (s : String) (n : ℕ) (rows : List PatronActionRecord) (a : PatronActionRecord)
    → find_action tenant id rows ≡ some a
    → find_action tenant id (store_action tenant id s n rows)
      ≡ some (record a { state = s; aggregate_revision = n })
unfolding find_action store_action
find_action-store_self tenant id s n [] a h = ground arith
find_action-store_self tenant id s n (b ∷ rows) a h =
    ground (arith, find_action-store_self tenant id s n rows a)

-- Other rows are found as they were.
pub find_action-store_other :
    (tenant id tenant' id' : ℕ) (s : String) (n : ℕ) (rows : List PatronActionRecord)
    → (tenant' ≢ tenant) ⊎ (id' ≢ id)
    → find_action tenant' id' (store_action tenant id s n rows) ≡ find_action tenant' id' rows
unfolding find_action store_action
find_action-store_other tenant id tenant' id' s n [] h = refl
find_action-store_other tenant id tenant' id' s n (b ∷ rows) h =
    ground (arith, find_action-store_other tenant id tenant' id' s n rows h)

pub find_action-is_row :
    (tenant id : ℕ) (rows : List PatronActionRecord) (a : PatronActionRecord)
    → find_action tenant id rows ≡ some a
    → (a.tenant_id ≡ tenant) × (a.id ≡ id)
unfolding find_action
find_action-is_row tenant id [] a h = ground arith
find_action-is_row tenant id (b ∷ rows) a h = ground (arith, find_action-is_row tenant id rows a)

abbrev pub IsBelow : ℕ → Option PatronActionTransitionRecord → Type 0
IsBelow n none = Unit
IsBelow n (some u) = u.aggregate_revision < n

-- A transition with a revision above the latest becomes the latest of its action.
pub find_latest-snoc_self :
    (tenant id : ℕ) (rows : List PatronActionTransitionRecord) (t : PatronActionTransitionRecord)
    → is_of tenant id t ≡ true
    → IsBelow t.aggregate_revision (find_latest tenant id rows)
    → find_latest tenant id (rows ++ t ∷ []) ≡ some t
unfolding find_latest
find_latest-snoc_self tenant id [] t o h = ground arith
find_latest-snoc_self tenant id (r ∷ rows) t o h =
    ground
      (arith, find_latest-snoc_self tenant id rows t o, Option-cases (find_latest tenant id rows))

pub find_latest-snoc_other :
    (tenant id : ℕ) (rows : List PatronActionTransitionRecord) (t : PatronActionTransitionRecord)
    → is_of tenant id t ≡ false
    → find_latest tenant id (rows ++ t ∷ []) ≡ find_latest tenant id rows
unfolding find_latest
find_latest-snoc_other tenant id [] t o = ground arith
find_latest-snoc_other tenant id (r ∷ rows) t o =
    ground (arith, find_latest-snoc_other tenant id rows t o)

-- The latest transition of an action, where the handler looks for it.
abbrev pub latest_of :
    TransitionPatronActionCommand → CommandContext → Tables → Option PatronActionTransitionRecord
latest_of c x d = find_latest x.tenant_id c.action_id d.transitions

-- What the checks have established when a command is accepted, and what it writes.
pub execute-eq-ok :
    (c : TransitionPatronActionCommand) (x : CommandContext) (d : Tables) {event : Transitioned}
    → (execute c x d).0 ≡ ok event
    → (a : PatronActionRecord) × (find_action x.tenant_id c.action_id d.actions ≡ some a)
      × (current_revision a (latest_of c x d) ≡ c.expected_revision)
      × (is_closed (current_state a (latest_of c x d)) ≡ false)
      × (ensure_transition_allowed (current_state a (latest_of c x d)) c.target_state ≡ ok tt)
      × ((execute c x d).1
          ≡ (apply_transition c x a
              (current_state a (latest_of c x d))
              (current_revision a (latest_of c x d))
              d).1)
unfolding execute
execute-eq-ok c x d h = elim (Option-cases (find_action x.tenant_id c.action_id d.actions)) [
  | inl e ↦ ground arith
  | inr (a, e) ↦
      let parsed =
        Result-cases
          (ensure_transition_allowed (current_state a (latest_of c x d)) c.target_state) in
      let same : a.id ≡ c.action_id =
        (find_action-is_row x.tenant_id c.action_id d.actions a e).1 in
      let found : find_latest x.tenant_id a.id d.transitions ≡ latest_of c x d =
        ap (λ k. find_latest x.tenant_id k d.transitions) same in
      (
        a,
        e,
        ground (arith, found),
        ground (arith, found),
        ground (arith, found),
        ground (arith, found),
      )
]

-- A refused command writes nothing.
pub execute-eq-err :
    (c : TransitionPatronActionCommand) (x : CommandContext) (d : Tables)
    → ((event : Transitioned) × ((execute c x d).0 ≡ ok event)) ⊎ ((execute c x d).1 ≡ d)
unfolding execute
execute-eq-err c x d = elim (Option-cases (find_action x.tenant_id c.action_id d.actions)) [
  | inl e ↦ inr (ground arith)
  | inr (a, e) ↦ elim (Result-cases (execute c x d).0) [
    | inl ok_event ↦ inl ok_event
    | inr refused ↦ inr (ground arith)
  ]
]
