-- ===== src/PatronAction/Tests.antt =====
-- Two actions of tenant 7, one of them in progress, and the theorems at them.
use smart_ao_v.Base.{◌≡◌, ◌↔◌, refl, some, List, [], ◌∷◌}
use smart_ao_v.Base.Result.{ok, err}
use smart_ao_v.PatronAction.State.{ensure_transition_allowed}
use smart_ao_v.PatronAction.Transition.{
  PatronActionRecord, TransitionPatronActionCommand, CommandContext, Tables, Transitioned,
  version_conflict, find_action, find_latest, current_state, current_revision, execute,
}
use smart_ao_v.PatronAction.Rows.{latest_of}
use smart_ao_v.PatronAction.Moves.{IsMove, transition_accepted_iff}
use smart_ao_v.PatronAction.History.{
  IsConsistent, run, patron_action_run-IsConsistent, second_command_conflicts, closed_action_stays,
}

abbrev sign : PatronActionRecord
sign = record {
  id = 1;
  tenant_id = 7;
  case_id = some 30;
  functional_key = "decision-risk-requirement:a";
  action_type = "DECIDE_GO_NO_GO";
  severity = "HIGH";
  state = "OPEN";
  aggregate_revision = 1;
}

abbrev archived : PatronActionRecord
archived = record sign { id = 2; state = "COMPLETED"; aggregate_revision = 3 }

abbrev tables : Tables
tables = record { actions = sign ∷ archived ∷ []; transitions = [] }

abbrev patron : CommandContext
patron = record { tenant_id = 7; actor_id = 5; membership_id = some 6 }

abbrev start : TransitionPatronActionCommand
start = record {
  transition_id = 11;
  action_id = 1;
  expected_revision = 1;
  target_state = "IN_PROGRESS";
  reason_code = "STARTED";
  command_id = 21;
  idempotency_key = 51;
  correlation_id = some 31;
}

abbrev finish : TransitionPatronActionCommand
finish = record start { transition_id = 12; expected_revision = 2; target_state = "COMPLETED" }

abbrev postpone : TransitionPatronActionCommand
postpone = record start { transition_id = 13; target_state = "WAITING" }

abbrev started : Transitioned
started = record {
  action_id = 1;
  from_state = "OPEN";
  to_state = "IN_PROGRESS";
  aggregate_revision = 2;
}

start_accepted : (execute start patron tables).0 ≡ ok started
unfolding execute find_action find_latest ensure_transition_allowed
start_accepted = refl

tables-IsConsistent : IsConsistent tables
unfolding find_latest
tables-IsConsistent = record { agrees = λ tenant id a h. tt }

abbrev commands : List (TransitionPatronActionCommand × CommandContext)
commands = (start, patron) ∷ (postpone, patron) ∷ (finish, patron) ∷ []

transition_accepted_iff_example :
    ((event : Transitioned) × ((execute start patron tables).0 ≡ ok event)) ↔ (
      (a : PatronActionRecord) × (find_action 7 1 tables.actions ≡ some a)
      × (current_revision a (latest_of start patron tables) ≡ 1)
      × IsMove (current_state a (latest_of start patron tables)) "IN_PROGRESS")
transition_accepted_iff_example = transition_accepted_iff start patron tables

patron_action_run-IsConsistent_example : IsConsistent (run commands tables)
patron_action_run-IsConsistent_example =
    patron_action_run-IsConsistent commands tables tables-IsConsistent

second_command_conflicts_example :
    let d' = (execute start patron tables).1 in
    execute postpone patron d' ≡ (err version_conflict, d')
second_command_conflicts_example =
    second_command_conflicts start postpone patron patron tables start_accepted refl refl refl

archived_found : find_action 7 2 tables.actions ≡ some archived
unfolding find_action
archived_found = refl

closed_action_stays_example : find_action 7 2 (run commands tables).actions ≡ some archived
closed_action_stays_example =
    closed_action_stays commands tables 7 2 archived tables-IsConsistent archived_found refl
