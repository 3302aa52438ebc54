-- ===== src/PatronAction/Moves.antt =====
-- Which commands of backend/app/modules/patron_action are accepted.
use smart_ao_v.Base.{
  ◌≡◌, ◌↔◌, ◌∙◌, refl, sym, ap, inl, inr, String, true, false, some, arith, eq_iff, Option-cases,
}
use smart_ao_v.Base.Result.{ok}
use smart_ao_v.PatronAction.State.{
  PatronActionState, not_started, in_progress, waiting, completed, abandoned,
  ensure_transition_allowed, value, from_value, allowed_transitions,
}
use smart_ao_v.PatronAction.Transition.{
  PatronActionRecord, TransitionPatronActionCommand, CommandContext, Tables, Transitioned,
  find_action, find_latest, current_state, current_revision, is_closed, execute, apply_transition,
}
use smart_ao_v.PatronAction.Rows.{find_action-is_row, latest_of, execute-eq-ok}

from_value-value : (s : PatronActionState) → from_value (value s) ≡ some s
unfolding value from_value
from_value-value not_started = refl
from_value-value in_progress = refl
from_value-value waiting = refl
from_value-value completed = refl
from_value-value abandoned = refl

value-of_from : (x : String) (s : PatronActionState) → from_value x ≡ some s → value s ≡ x
unfolding value from_value
value-of_from x s h = ground (
  arith,
  eq_iff x "OPEN",
  eq_iff x "IN_PROGRESS",
  eq_iff x "WAITING",
  eq_iff x "COMPLETED",
  eq_iff x "ABANDONED",
)

-- A move of the lifecycle, between the values that two texts are.
abbrev pub IsMove : String → String → Type 0
IsMove x y =
    (s : PatronActionState) × (t : PatronActionState) × (value s ≡ x)
    × (value t ≡ y)
    × (allowed_transitions s t ≡ true)

ensure-accepted_iff : (x y : String) → (ensure_transition_allowed x y ≡ ok tt) ↔ IsMove x y
unfolding ensure_transition_allowed
ensure-accepted_iff x y = (
  λ h. elim (Option-cases (from_value x)) [
    | inl e ↦ absurd (ground (arith, e))
    | inr (s, e) ↦ elim (Option-cases (from_value y)) [
      | inl f ↦ absurd (ground (arith, e, f))
      | inr (t, f) ↦ (s, t, value-of_from x s e, value-of_from y t f, ground (arith, e, f))
    ]
  ],
  λ (s, t, e, f, m).
      let e' : from_value x ≡ some s = ap from_value (sym e) ∙ from_value-value s in
      let f' : from_value y ≡ some t = ap from_value (sym f) ∙ from_value-value t in
      ground (arith, e', f'),
)

move-open : (s t : PatronActionState) → allowed_transitions s t ≡ true → is_closed (value s) ≡ false
unfolding value
move-open not_started t h = refl
move-open in_progress t h = refl
move-open waiting t h = refl
move-open completed t h = ground arith
move-open abandoned t h = ground arith

-- A command is accepted exactly when its tenant has the action, it expects the current revision, and
-- the lifecycle has a move from the current state to the target.
pub transition_accepted_iff :
    (c : TransitionPatronActionCommand) (x : CommandContext) (d : Tables)
    → ((event : Transitioned) × ((execute c x d).0 ≡ ok event)) ↔ (
        (a : PatronActionRecord) × (find_action x.tenant_id c.action_id d.actions ≡ some a)
        × (current_revision a (latest_of c x d) ≡ c.expected_revision)
        × IsMove (current_state a (latest_of c x d)) c.target_state)
unfolding execute
transition_accepted_iff c x d = (
  λ (event, o).
      let (a, e, n, open_state, edge, writes) = execute-eq-ok c x d o in
      (a, e, n, (ensure-accepted_iff (current_state a (latest_of c x d)) c.target_state).0 edge),
  λ (a, e, n, m).
      let current = current_state a (latest_of c x d) in
      let (s, t, vs, vt, allowed) = m in
      let same : a.id ≡ c.action_id =
        (find_action-is_row x.tenant_id c.action_id d.actions a e).1 in
      let found : find_latest x.tenant_id a.id d.transitions ≡ latest_of c x d =
        ap (λ k. find_latest x.tenant_id k d.transitions) same in
      let edge = (ensure-accepted_iff current c.target_state).1 m in
      let open_state : is_closed current ≡ false = rw vs at (move-open s t allowed) in
      (
        (apply_transition c x a current (current_revision a (latest_of c x d)) d).0,
        ground (arith, found, edge, open_state),
      ),
)
