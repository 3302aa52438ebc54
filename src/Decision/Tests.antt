-- ===== src/Decision/Tests.antt =====
-- A decision of tenant 7 on one context, approved under two conditions, and the theorems at it.
use smart_ao_v.Base.{
  ℕ, ◌≡◌, ◌≢◌, ◌↔◌, refl, true, false, String, List, [], ◌∷◌, some, none, arith, eq_iff, strip,
}
use smart_ao_v.Base.Result.{ok, err}
use smart_ao_v.Decision.{
  Decision, DecisionContext, DecisionCondition, go_no_go, draft, pending_patron, undecided, current,
  frozen, incomplete, not_applicable, open_condition, context_incomplete, stale_context,
  draft_created, context_prepared, build, condition_owner_required,
}
use smart_ao_v.Decision.Conditions.{
  proposed, validate_all, validate_for_approval, derive_condition_status, satisfy_first,
}
use smart_ao_v.Decision.Approval.{
  create_draft, prepare_context, approve_go, approve_no_go, approve_conditional_go,
}
use smart_ao_v.Decision.Review.{record_condition_satisfied}
use smart_ao_v.Decision.Step.{
  Command, prepare, say_go, say_conditional_go, satisfy, require_review, replace_by, step, run,
}
use smart_ao_v.Decision.Invariant.{IsSound, create_draft-IsSound, decision_run-IsSound}
use smart_ao_v.Decision.Finality.{
  IsShown, approve_go-accepted_iff, approval_stale_after_prepare, Edge, step-Edge,
}
use smart_ao_v.Decision.Satisfaction.{satisfy_each}
use smart_ao_v.Decision.Gate.{can_submit, evaluate_submission_gate, snapshot_of}
use smart_ao_v.Decision.Readiness.{IsCleared, decision_gate_opens_iff}
use smart_ao_v.Decision.Journey.{conditional_go_reaches_submission, refused_conditional_go_blocks}

-- A digest that tells contexts apart by their time alone.
abbrev by_time : ℕ → List String → List String → List String → ℕ → String
by_time tenant references unknowns risks at = "f1"

abbrev context : DecisionContext
context = build by_time 5 7 (" case:1 " ∷ " " ∷ []) [] ("delay" ∷ []) 100

abbrev empty_draft : Decision
empty_draft = record {
  id = 3;
  tenant_id = 7;
  decision_type = go_no_go;
  subject_reference = "case:1";
  scope_fingerprint = "s";
  created_by = "ana";
  lifecycle = draft;
  outcome = undecided;
  validity = current;
  context_status = incomplete;
  condition_status = not_applicable;
  context_history = [];
  conditions = [];
  successor_decision_id = none;
  final_justification = none;
  final_approved_by = none;
  final_approved_at = none;
  aggregate_revision = 0;
  pending_events = draft_created 3 7 ∷ [];
}

created : create_draft 3 7 go_no_go " case:1" "s" "ana " ≡ ok empty_draft
unfolding create_draft strip
created = refl

abbrev shown : DecisionContext
shown = record {
  context_id = 5;
  tenant_id = 7;
  references = "case:1" ∷ [];
  unknowns = [];
  risks = "delay" ∷ [];
  prepared_at = 100;
  fingerprint = "f1";
}

context_built : context ≡ shown
unfolding build strip
context_built = refl

abbrev pending : Decision
pending = record empty_draft {
  lifecycle = pending_patron;
  context_status = frozen;
  context_history = shown ∷ [];
  aggregate_revision = 1;
  pending_events = draft_created 3 7 ∷ context_prepared 3 5 "f1" ∷ [];
}

prepared : prepare_context shown empty_draft ≡ (ok tt, pending)
unfolding prepare_context
prepared = refl

pending-IsSound : IsSound pending
pending-IsSound = ground arith

abbrev bond : DecisionCondition
bond = record {
  id = 1;
  label = "bond";
  owner = some "ana";
  due_at = some 500;
  due_date_absence_reason = none;
  failure_consequence = some "withdraw";
  status = open_condition;
  evidence_reference = none;
  observed_at = none;
}

abbrev visit : DecisionCondition
visit = record bond { id = 2; label = "visit" }

bond_made : proposed 1 " bond" (some "ana") (some 500) none (some "withdraw ") ≡ bond
unfolding proposed strip
bond_made = refl

unowned : validate_for_approval (record bond { owner = some "" }) ≡ err condition_owner_required
unfolding validate_for_approval
unowned = refl

abbrev both : List DecisionCondition
both = bond ∷ visit ∷ []

approved : (approve_conditional_go "f1" "worth it" both "patron" 200 pending).0 ≡ ok tt
unfolding approve_conditional_go strip
approved = refl

one_satisfied :
    (record_condition_satisfied 2 "scan" 300
      (approve_conditional_go "f1" "worth it" both "patron" 200 pending).1).1.condition_status
    ≡ open_condition
unfolding record_condition_satisfied satisfy_first derive_condition_status approve_conditional_go
    strip
one_satisfied = refl

abbrev commands : List Command
commands =
    prepare shown
    ∷ say_conditional_go "f1" "worth it" both "patron" 200
    ∷ satisfy 1 "scan" 300
    ∷ require_review "new DCE"
    ∷ replace_by 9 "restart"
    ∷ []

decision_run-IsSound_example : IsSound (run commands empty_draft)
decision_run-IsSound_example =
    decision_run-IsSound commands empty_draft
      (create_draft-IsSound 3 7 go_no_go " case:1" "s" "ana " created).0

approve_go-accepted_iff_example : ((approve_go "f1" "yes" "patron" 200 pending).0 ≡ ok tt) ↔ (
    (pending.lifecycle ≡ pending_patron) × IsShown "f1" pending × (false ≡ false) × (false ≡ false))
unfolding strip
approve_go-accepted_iff_example = approve_go-accepted_iff "f1" "yes" "patron" 200 pending

f0-ne-f1 : ◌≢◌ {A = String} "f0" "f1"
f0-ne-f1 = ground (arith, eq_iff "f0" "f1")

approval_stale_after_prepare_example :
    let d' = (prepare_context shown empty_draft).1 in
    (approve_go "f0" "yes" "patron" 200 d' ≡ (err stale_context, d'))
    × (approve_no_go "f0" "yes" "patron" 200 d' ≡ (err stale_context, d'))
    × (approve_conditional_go "f0" "yes" both "patron" 200 d' ≡ (err stale_context, d'))
unfolding prepare_context
approval_stale_after_prepare_example =
    approval_stale_after_prepare shown "f0" "yes" "patron" both 200 empty_draft refl f0-ne-f1

step-Edge_example : Edge pending_patron (step (say_go "f1" "yes" "patron" 200) pending).lifecycle
step-Edge_example = step-Edge (say_go "f1" "yes" "patron" 200) pending

abbrev closed : Decision
closed = (approve_conditional_go "f1" "worth it" both "patron" 200 pending).1

decision_gate_opens_iff_example :
    (can_submit (evaluate_submission_gate (snapshot_of 1 true closed)) ≡ true)
    ↔ (◌≡◌ {A = ℕ} 1 0 × (true ≡ true) × IsCleared closed)
decision_gate_opens_iff_example = decision_gate_opens_iff 1 true closed

conditional_go_reaches_submission_example :
    can_submit
      (evaluate_submission_gate (snapshot_of 0 true (run (satisfy_each "scan" 300 both) closed)))
    ≡ true
unfolding approve_conditional_go strip
conditional_go_reaches_submission_example =
    conditional_go_reaches_submission "f1" "worth it" bond (visit ∷ []) "patron" 200 pending "scan"
      300 pending-IsSound refl (refl, (refl, tt)) refl

refused_conditional_go_blocks_example :
    let (refusal, d') = approve_conditional_go "f1" " " both "patron" 200 pending in
    let (approval, d'') = approve_go "f1" "yes" "patron" 210 d' in
    (refusal ≡ err context_incomplete)
    × (approval ≡ ok tt)
    × (can_submit (evaluate_submission_gate (snapshot_of 0 true d'')) ≢ true)
unfolding approve_go validate_all strip
refused_conditional_go_blocks_example =
    refused_conditional_go_blocks "f1" " " bond (visit ∷ []) "patron" 200 "yes" "patron" 210 pending
      0 true (refl, (refl, tt)) refl refl refl refl
