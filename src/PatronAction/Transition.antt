-- ===== src/PatronAction/Transition.antt =====
-- `TransitionPatronActionHandler.execute` of
-- backend/app/modules/patron_action/application/transition_service.py, over the rows of the two
-- tables: the actions, and the transitions in the order in which they were added.
use smart_ao_v.Base.{
  ℕ, ◌+◌, String, Bool, not, ◌&&◌, ◌||◌, Option, none, some, List, [], ◌∷◌, ◌++◌, ◌==◌, ltb, str_eq,
  if◌then◌else◌,
}
use smart_ao_v.Base.Result.{Result, ok, err}
use smart_ao_v.PatronAction.State.{ensure_transition_allowed}

-- The columns that the handler reads or writes, and those that say what an action is about.
pub record PatronActionRecord : Type 0 where
  pub id : ℕ
  pub tenant_id : ℕ
  pub case_id : Option ℕ
  pub functional_key : String
  pub action_type : String
  pub severity : String
  pub state : String
  pub aggregate_revision : ℕ

pub record PatronActionTransitionRecord : Type 0 where
  pub id : ℕ
  pub tenant_id : ℕ
  pub action_id : ℕ
  pub from_state : String
  pub to_state : String
  pub reason_code : String
  pub aggregate_revision : ℕ
  pub actor_id : ℕ
  pub membership_id : Option ℕ
  pub command_id : ℕ
  pub idempotency_key : ℕ
  pub correlation_id : Option ℕ

pub record TransitionPatronActionCommand : Type 0 where
  pub transition_id : ℕ
  pub action_id : ℕ
  pub expected_revision : ℕ
  pub target_state : String
  pub reason_code : String
  pub command_id : ℕ
  pub idempotency_key : ℕ
  pub correlation_id : Option ℕ

pub record CommandContext : Type 0 where
  pub tenant_id : ℕ
  pub actor_id : ℕ
  pub membership_id : Option ℕ

pub record Tables : Type 0 where
  pub actions : List PatronActionRecord
  pub transitions : List PatronActionTransitionRecord

pub data CommandExecutionError : Type 0 where
  not_found_or_forbidden version_conflict action_already_closed : CommandExecutionError
  invalid_state_transition : CommandExecutionError

-- The event of the outcome: the action, the two states and the revision.
pub record Transitioned : Type 0 where
  pub action_id : ℕ
  pub from_state : String
  pub to_state : String
  pub aggregate_revision : ℕ

abbrev pub is_row : ℕ → ℕ → PatronActionRecord → Bool
is_row tenant id a = a.tenant_id == tenant && a.id == id

-- The action of the tenant, if there is one.
unfoldable pub find_action : ℕ → ℕ → List PatronActionRecord → Option PatronActionRecord
find_action tenant id [] = none
find_action tenant id (a ∷ rows) = if is_row tenant id a then some a else find_action tenant id rows

abbrev pub is_of : ℕ → ℕ → PatronActionTransitionRecord → Bool
is_of tenant id t = t.tenant_id == tenant && t.action_id == id

-- Of two transitions, the one with the higher revision.
abbrev pub later :
    PatronActionTransitionRecord
    → Option PatronActionTransitionRecord
    → PatronActionTransitionRecord
later t none = t
later t (some u) = if ltb t.aggregate_revision u.aggregate_revision then u else t

-- The transition of the action with the highest revision.
unfoldable pub find_latest :
    ℕ → ℕ → List PatronActionTransitionRecord → Option PatronActionTransitionRecord
find_latest tenant id [] = none
find_latest tenant id (t ∷ rows) =
    let rest = find_latest tenant id rows in if is_of tenant id t then some (later t rest) else rest

-- `latest.to_state if latest is not None else action.state`, and the same for the revision
abbrev pub current_state : PatronActionRecord → Option PatronActionTransitionRecord → String
current_state a none = a.state
current_state a (some t) = t.to_state

abbrev pub current_revision : PatronActionRecord → Option PatronActionTransitionRecord → ℕ
current_revision a none = a.aggregate_revision
current_revision a (some t) = t.aggregate_revision

-- The assignments to the row that was read.
unfoldable pub store_action : ℕ → ℕ → String → ℕ → List PatronActionRecord → List PatronActionRecord
store_action tenant id s n [] = []
store_action tenant id s n (a ∷ rows) =
    if is_row tenant id a
    then record a { state = s; aggregate_revision = n } ∷ rows
    else a ∷ store_action tenant id s n rows

-- `current_state in {"COMPLETED", "ABANDONED"}`
abbrev pub is_closed : String → Bool
is_closed s = str_eq s "COMPLETED" || str_eq s "ABANDONED"

abbrev pub make_transition :
    TransitionPatronActionCommand
    → CommandContext
    → PatronActionRecord
    → String
    → ℕ
    → PatronActionTransitionRecord
make_transition c x a current n = record {
  id = c.transition_id;
  tenant_id = x.tenant_id;
  action_id = a.id;
  from_state = current;
  to_state = c.target_state;
  reason_code = c.reason_code;
  aggregate_revision = n + 1;
  actor_id = x.actor_id;
  membership_id = x.membership_id;
  command_id = c.command_id;
  idempotency_key = c.idempotency_key;
  correlation_id = c.correlation_id;
}

-- The part of `execute` that writes: the transition is added and the row is updated.
unfoldable pub apply_transition :
    TransitionPatronActionCommand
    → CommandContext
    → PatronActionRecord
    → String
    → ℕ
    → Tables
    → Transitioned × Tables
apply_transition c x a current n d = (
  record {
    action_id = a.id;
    from_state = current;
    to_state = c.target_state;
    aggregate_revision = n + 1;
  },
  record {
    actions = store_action x.tenant_id c.action_id c.target_state (n + 1) d.actions;
    transitions = d.transitions ++ make_transition c x a current n ∷ [];
  },
)

-- `TransitionPatronActionHandler.execute`
unfoldable pub execute :
    TransitionPatronActionCommand
    → CommandContext
    → Tables
    → Result CommandExecutionError Transitioned × Tables
unfolding apply_transition
execute c x d = elim (find_action x.tenant_id c.action_id d.actions) [
  | none ↦ (err not_found_or_forbidden, d)
  | some a ↦
      let latest = find_latest x.tenant_id a.id d.transitions in
      let current = current_state a latest in
      let n = current_revision a latest in
      if not (n == c.expected_revision)
      then (err version_conflict, d)
      else if is_closed current
      then (err action_already_closed, d)
      else elim (ensure_transition_allowed current c.target_state) [
        | err e ↦ (err invalid_state_transition, d)
        | ok u ↦ let (event, d') = apply_transition c x a current n d in (ok event, d')
      ]
]
