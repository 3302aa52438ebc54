-- ===== src/Decision/Journey.antt =====
-- From an approval to the gate: backend/app/modules/decision/domain/decision.py and
-- submission_gate.py put together.
use smart_ao_v.Base.{
  ℕ, ◌≡◌, ◌≢◌, ◌∙◌, refl, inr, Bool, true, false, String, List, [], ◌∷◌, arith, map, is_unique,
  contains, ◌==◌, is_blank, is_nil, filter, length,
}
use smart_ao_v.Base.Result.{ok, err}
use smart_ao_v.Decision.{
  Decision, DecisionCondition, pending_patron, finalized, conditional_go, frozen, open_condition,
  context_incomplete, is_open,
}
use smart_ao_v.Decision.Conditions.{validate_all}
use smart_ao_v.Decision.Approval.{approve_go, approve_conditional_go}
use smart_ao_v.Decision.Step.{run}
use smart_ao_v.Decision.Invariant.{IsSound}
use smart_ao_v.Decision.Satisfaction.{
  IsFresh, HasUniqueIds, AllOpen, satisfy_each, satisfy_each_settles,
}
use smart_ao_v.Decision.Gate.{can_submit, evaluate_submission_gate, snapshot_of}
use smart_ao_v.Decision.Readiness.{count_open-of_settled, decision_gate_opens_iff}

contains-IsFresh :
    (id : ℕ) (cs : List DecisionCondition)
    → contains ◌==◌ id (map (λ c. c.id) cs) ≡ false
    → IsFresh id cs
contains-IsFresh id [] h = tt
contains-IsFresh id (c ∷ cs) h = ground (arith, contains-IsFresh id cs)

is_unique-HasUniqueIds :
    (cs : List DecisionCondition) → is_unique ◌==◌ (map (λ c. c.id) cs) ≡ true → HasUniqueIds cs
is_unique-HasUniqueIds [] h = tt
is_unique-HasUniqueIds (c ∷ cs) h =
    ground (arith, contains-IsFresh c.id cs, is_unique-HasUniqueIds cs)

-- What an accepted conditional Go has established.
approve_conditional_go-eq-ok :
    (f j : String) (cs : List DecisionCondition) (p : String) (at : ℕ) (d : Decision)
    → (approve_conditional_go f j cs p at d).0 ≡ ok tt
    → let d' = (approve_conditional_go f j cs p at d).1 in
      (d.lifecycle ≡ pending_patron)
      × (is_unique ◌==◌ (map (λ c. c.id) cs) ≡ true)
      × (d'.lifecycle ≡ finalized)
      × (d'.outcome ≡ conditional_go)
      × (d'.conditions ≡ cs)
      × (d'.context_status ≡ d.context_status)
unfolding approve_conditional_go
approve_conditional_go-eq-ok f j cs p at d h = ground arith

pending-frozen :
    (d : Decision) → IsSound d → d.lifecycle ≡ pending_patron → d.context_status ≡ frozen
pending-frozen d s l = ground arith

-- From a sound decision, after an accepted conditional Go with open conditions, evidence that is
-- not blank for each condition in turn opens the gate, when no risk action is unresolved and the
-- requirements are confirmed.
pub conditional_go_reaches_submission :
    (f j : String) (c : DecisionCondition) (cs : List DecisionCondition) (p : String) (at : ℕ)
    (d : Decision) (evidence : String) (observed : ℕ)
    → IsSound d
    → (approve_conditional_go f j (c ∷ cs) p at d).0 ≡ ok tt
    → AllOpen (c ∷ cs)
    → is_blank evidence ≡ false
    → let d' = (approve_conditional_go f j (c ∷ cs) p at d).1 in
      let d'' = run (satisfy_each evidence observed (c ∷ cs)) d' in
      can_submit (evaluate_submission_gate (snapshot_of 0 true d'')) ≡ true
conditional_go_reaches_submission f j c cs p at d evidence observed s h o b =
    let d' = (approve_conditional_go f j (c ∷ cs) p at d).1 in
    let (pending, unique, l, g, e, x) = approve_conditional_go-eq-ok f j (c ∷ cs) p at d h in
    let d'' = run (satisfy_each evidence observed (c ∷ cs)) d' in
    let (k', s', l', g', x') =
      satisfy_each_settles evidence observed c cs d' b (is_unique-HasUniqueIds (c ∷ cs) unique) o l
        g e in
    (decision_gate_opens_iff 0 true d'').1 (
      refl,
      refl,
      (
        l',
        x' ∙ x ∙ pending-frozen d s pending,
        count_open-of_settled d''.conditions s',
        inr (g', k'),
      ),
    )

conditional_go_refused :
    (f j : String) (cs : List DecisionCondition) (p j' p' : String) (at at' : ℕ) (d : Decision)
    → is_nil cs ≡ false
    → is_unique ◌==◌ (map (λ k. k.id) cs) ≡ true
    → validate_all cs ≡ ok tt
    → is_blank j ≡ true
    → (approve_go f j' p' at' d).0 ≡ ok tt
    → approve_conditional_go f j cs p at d ≡ (err context_incomplete, record d { conditions = cs })
unfolding approve_conditional_go approve_go
conditional_go_refused f j cs p j' p' at at' d n u v b h = ground arith

go_with_conditions :
    (f j p : String) (at : ℕ) (cs : List DecisionCondition) (d : Decision)
    → (approve_go f j p at d).0 ≡ ok tt
    → let (result, d') = approve_go f j p at (record d { conditions = cs }) in
      (result ≡ ok tt) × (d'.conditions ≡ cs)
unfolding approve_go
go_with_conditions f j p at cs d h = ground arith

open_blocks :
    (c : DecisionCondition) (cs : List DecisionCondition)
    → c.status ≡ open_condition
    → length (filter (λ k. is_open k.status) (c ∷ cs)) ≢ 0
open_blocks c cs o = ground arith

-- A conditional Go on open, complete conditions that is refused for a blank justification leaves
-- them behind. A plain Go that would have been accepted is accepted all the same, but the gate
-- then stays closed, whatever the risks and the requirements.
pub refused_conditional_go_blocks :
    (f j : String) (c : DecisionCondition) (cs : List DecisionCondition) (p : String) (at : ℕ)
    (j' p' : String) (at' : ℕ) (d : Decision) (risks : ℕ) (confirmed : Bool)
    → AllOpen (c ∷ cs)
    → is_unique ◌==◌ (map (λ k. k.id) (c ∷ cs)) ≡ true
    → validate_all (c ∷ cs) ≡ ok tt
    → is_blank j ≡ true
    → (approve_go f j' p' at' d).0 ≡ ok tt
    → let (refusal, d') = approve_conditional_go f j (c ∷ cs) p at d in
      let (approval, d'') = approve_go f j' p' at' d' in
      (refusal ≡ err context_incomplete)
      × (approval ≡ ok tt)
      × (can_submit (evaluate_submission_gate (snapshot_of risks confirmed d'')) ≢ true)
refused_conditional_go_blocks f j c cs p at j' p' at' d risks confirmed o u v b h =
    let refused = conditional_go_refused f j (c ∷ cs) p j' p' at at' d refl u v b h in
    let (accepted, kept) = go_with_conditions f j' p' at' (c ∷ cs) d h in
    rw refused (
      refl,
      accepted,
      λ cleared.
          let d'' = (approve_go f j' p' at' (record d { conditions = c ∷ cs })).1 in
          let (_, _, (_, _, none_open, _)) =
            (decision_gate_opens_iff risks confirmed d'').0 cleared in
          open_blocks c cs o.0 (rw kept at none_open),
    )
