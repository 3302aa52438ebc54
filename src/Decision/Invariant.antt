-- ===== src/Decision/Invariant.antt =====
-- What holds of a `Decision` of backend/app/modules/decision/domain/decision.py between two calls.
use smart_ao_v.Base.{
  ℕ, ◌+◌, ◌≡◌, ◌≢◌, ◌⊎◌, false, String, List, [], ◌∷◌, length, arith, Option, none, some, is_blank,
  strip-strip, length-snoc, inl, inr,
}
use smart_ao_v.Base.Result.{ok, Result-cases}
use smart_ao_v.Decision.{
  Decision, DecisionType, DecisionContext, DecisionCondition, DecisionLifecycle, DecisionOutcome,
  DecisionValidity, DecisionContextStatus, DecisionConditionStatus, draft, pending_patron,
  finalized, superseded, cancelled, undecided, go, conditional_go, no_go, current, review_required,
  superseded_validity, incomplete, frozen, stale, not_applicable, context_prepared, go_approved,
  no_go_approved, conditional_go_approved, condition_satisfied, marked_review_required,
  decision_superseded,
}
use smart_ao_v.Decision.Conditions.{satisfy_first, derive_condition_status}
use smart_ao_v.Decision.Approval.{
  create_draft, prepare_context, approve_go, approve_no_go, approve_conditional_go,
}
use smart_ao_v.Decision.Review.{record_condition_satisfied, mark_review_required, supersede}
use smart_ao_v.Decision.Step.{
  Command, prepare, say_go, say_no_go, say_conditional_go, satisfy, require_review, replace_by,
  step, run,
}

-- The statuses that go together in each state of the lifecycle.
abbrev pub Agree :
    DecisionLifecycle
    → DecisionOutcome
    → DecisionValidity
    → DecisionContextStatus
    → DecisionConditionStatus
    → Type 0
Agree draft o v x c = (o ≡ undecided) × (v ≡ current) × (x ≡ incomplete) × (c ≡ not_applicable)
Agree pending_patron o v x c = (o ≡ undecided) × (v ≡ current) × (x ≡ frozen) × (c ≡ not_applicable)
Agree finalized o v x c =
    ((v ≡ current) × (x ≡ frozen) ⊎ (v ≡ review_required) × (x ≡ stale))
    × ((o ≡ conditional_go) × (c ≢ not_applicable)
        ⊎ (o ≡ go) × (c ≡ not_applicable)
        ⊎ (o ≡ no_go) × (c ≡ not_applicable))
Agree superseded o v x c =
    (v ≡ superseded_validity)
    × ((o ≡ conditional_go) × (c ≢ not_applicable)
        ⊎ (o ≡ go) × (c ≡ not_applicable)
        ⊎ (o ≡ no_go) × (c ≡ not_applicable))
Agree cancelled o v x c = ⊥

-- A final decision is signed; before that nothing is.
abbrev pub IsSigned : DecisionLifecycle → Option String → Option String → Option ℕ → Type 0
IsSigned draft j p at = (j ≡ none) × (p ≡ none) × (at ≡ none)
IsSigned pending_patron j p at = (j ≡ none) × (p ≡ none) × (at ≡ none)
IsSigned _ none p at = ⊥
IsSigned _ (some j) none at = ⊥
IsSigned _ (some j) (some p) none = ⊥
IsSigned _ (some j) (some p) (some at) = (is_blank j ≡ false) × (is_blank p ≡ false)

abbrev pub IsReplaced : DecisionLifecycle → ℕ → Option ℕ → Type 0
IsReplaced superseded id none = ⊥
IsReplaced superseded id (some successor) = successor ≢ id
IsReplaced _ id successor = successor ≡ none

pub record IsSound (d : Decision) : Type 0 where
  pub agree : Agree d.lifecycle d.outcome d.validity d.context_status d.condition_status
  pub signed : IsSigned d.lifecycle d.final_justification d.final_approved_by d.final_approved_at
  pub replaced : IsReplaced d.lifecycle d.id d.successor_decision_id
  pub announced : length d.pending_events ≡ d.aggregate_revision + 1

-- A draft that is created is sound, at revision 0.
pub create_draft-IsSound :
    (id tenant : ℕ) (type : DecisionType) (subject scope creator : String) {d : Decision}
    → create_draft id tenant type subject scope creator ≡ ok d
    → IsSound d × (d.lifecycle ≡ draft) × (d.aggregate_revision ≡ 0)
unfolding create_draft
create_draft-IsSound id tenant type subject scope creator h = ground arith

-- The methods, one by one. Each lemma lists what the method appends to the events.
prepare-IsSound : (c : DecisionContext) (d : Decision) → IsSound d → IsSound (prepare_context c d).1
unfolding prepare_context
prepare-IsSound c d s =
    ground (arith, length-snoc d.pending_events (context_prepared d.id c.context_id c.fingerprint))

approve_go-IsSound :
    (f j p : String) (at : ℕ) (d : Decision) → IsSound d → IsSound (approve_go f j p at d).1
unfolding approve_go
approve_go-IsSound f j p at d s =
    ground (arith, length-snoc d.pending_events (go_approved d.id), strip-strip j, strip-strip p)

approve_no_go-IsSound :
    (f j p : String) (at : ℕ) (d : Decision) → IsSound d → IsSound (approve_no_go f j p at d).1
unfolding approve_no_go
approve_no_go-IsSound f j p at d s =
    ground (arith, length-snoc d.pending_events (no_go_approved d.id), strip-strip j, strip-strip p)

approve_conditional_go-IsSound :
    (f j : String) (cs : List DecisionCondition) (p : String) (at : ℕ) (d : Decision)
    → IsSound d
    → IsSound (approve_conditional_go f j cs p at d).1
unfolding approve_conditional_go
approve_conditional_go-IsSound f j cs p at d s = ground (
  arith,
  length-snoc d.pending_events (conditional_go_approved d.id),
  strip-strip j,
  strip-strip p,
)

derive_condition_status-ne-not_applicable :
    (cs : List DecisionCondition) → derive_condition_status cs ≢ not_applicable
unfolding derive_condition_status
derive_condition_status-ne-not_applicable cs = ground arith

satisfied-IsSound :
    (c : ℕ) (e : String) (at : ℕ) (d : Decision)
    → IsSound d
    → IsSound (record_condition_satisfied c e at d).1
unfolding record_condition_satisfied
satisfied-IsSound c e at d s = elim (Result-cases (satisfy_first c e at d.conditions)) [
  | inl (cs, found) ↦ ground (
    arith,
    length-snoc d.pending_events (condition_satisfied d.id c),
    derive_condition_status-ne-not_applicable cs,
  )
  | inr (x, missing) ↦ ground arith
]

mark_review_required-IsSound :
    (r : String) (d : Decision) → IsSound d → IsSound (mark_review_required r d).1
unfolding mark_review_required
mark_review_required-IsSound r d s =
    ground (arith, length-snoc d.pending_events (marked_review_required d.id))

supersede-IsSound : (n : ℕ) (r : String) (d : Decision) → IsSound d → IsSound (supersede n r d).1
unfolding supersede
supersede-IsSound n r d s =
    ground (arith, length-snoc d.pending_events (decision_superseded d.id n))

pub step-IsSound : (c : Command) (d : Decision) → IsSound d → IsSound (step c d)
unfolding step
step-IsSound (prepare c) d s = prepare-IsSound c d s
step-IsSound (say_go f j p at) d s = approve_go-IsSound f j p at d s
step-IsSound (say_no_go f j p at) d s = approve_no_go-IsSound f j p at d s
step-IsSound (say_conditional_go f j cs p at) d s = approve_conditional_go-IsSound f j cs p at d s
step-IsSound (satisfy c e at) d s = satisfied-IsSound c e at d s
step-IsSound (require_review r) d s = mark_review_required-IsSound r d s
step-IsSound (replace_by n r) d s = supersede-IsSound n r d s

-- Every sequence of calls, refused ones included, keeps a sound decision sound: its statuses agree
-- with its lifecycle, it is signed exactly once it is final, a successor is another decision and
-- stands exactly once it is superseded, and it has one event more than its revision.
pub decision_run-IsSound : (cs : List Command) (d : Decision) → IsSound d → IsSound (run cs d)
unfolding run
decision_run-IsSound [] d s = s
decision_run-IsSound (c ∷ cs) d s = decision_run-IsSound cs (step c d) (step-IsSound c d s)
