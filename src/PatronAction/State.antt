-- ===== src/PatronAction/State.antt =====
-- The state machine of backend/app/modules/patron_action/domain/state.py.
use smart_ao_v.Base.{String, Bool, true, false, Option, none, some, str_eq, if◌then◌else◌}
use smart_ao_v.Base.Result.{Result, ok, err}

pub data PatronActionState : Type 0 where
  not_started in_progress waiting completed abandoned : PatronActionState

unfoldable pub value : PatronActionState → String
value not_started = "OPEN"
value in_progress = "IN_PROGRESS"
value waiting = "WAITING"
value completed = "COMPLETED"
value abandoned = "ABANDONED"

-- `PatronActionState(text)`, where a text that is no value raises
unfoldable pub from_value : String → Option PatronActionState
from_value s =
    if str_eq s "OPEN"
    then some not_started
    else if str_eq s "IN_PROGRESS"
    then some in_progress
    else if str_eq s "WAITING"
    then some waiting
    else if str_eq s "COMPLETED"
    then some completed
    else if str_eq s "ABANDONED"
    then some abandoned
    else none

-- `target in ALLOWED_TRANSITIONS[current]`
abbrev pub allowed_transitions : PatronActionState → PatronActionState → Bool
allowed_transitions not_started in_progress = true
allowed_transitions not_started waiting = true
allowed_transitions not_started abandoned = true
allowed_transitions in_progress waiting = true
allowed_transitions in_progress completed = true
allowed_transitions in_progress abandoned = true
allowed_transitions waiting in_progress = true
allowed_transitions waiting abandoned = true
allowed_transitions _ _ = false

pub data StateError : Type 0 where
  unknown_state transition_not_allowed : StateError

unfoldable pub ensure_transition_allowed : String → String → Result StateError (Unit {0})
unfolding from_value
ensure_transition_allowed current target = elim (from_value current) [
  | none ↦ err unknown_state
  | some c ↦ elim (from_value target) [
    | none ↦ err unknown_state
    | some t ↦ if allowed_transitions c t then ok tt else err transition_not_allowed
  ]
]
