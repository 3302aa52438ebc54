-- ===== src/Decision/Finality.antt =====
-- When a `Decision` of backend/app/modules/decision/domain/decision.py may be approved, what a
-- refusal leaves behind, and what never changes once it is final.
use smart_ao_v.Base.{
  ℕ, ◌≡◌, ◌≢◌, ◌↔◌, ◌∙◌, ◌⊎◌, inl, inr, false, String, List, [], ◌∷◌, arith, some, is_blank,
  get_last?, get_last?-append, eq_iff, Option-cases, ap,
}
use smart_ao_v.Base.Result.{ok, err}
use smart_ao_v.Decision.{
  Decision, DecisionContext, DecisionCondition, DecisionLifecycle, draft, pending_patron, finalized,
  superseded, stale_context,
}
use smart_ao_v.Decision.Approval.{
  prepare_context, approve_go, approve_no_go, approve_conditional_go,
}
use smart_ao_v.Decision.Review.{record_condition_satisfied, mark_review_required, supersede}
use smart_ao_v.Decision.Step.{
  Command, prepare, say_go, say_no_go, say_conditional_go, satisfy, require_review, replace_by,
  execute, step, run,
}

-- The patron is shown the context that was prepared last.
abbrev pub IsShown : String → Decision → Type 0
IsShown f d = (c : DecisionContext) × (get_last? d.context_history ≡ some c) × (f ≡ c.fingerprint)

-- A Go is accepted exactly for a pending decision, on the context prepared last, with a
-- justification and a patron.
pub approve_go-accepted_iff :
    (f j p : String) (at : ℕ) (d : Decision)
    → ((approve_go f j p at d).0 ≡ ok tt)
      ↔ ((d.lifecycle ≡ pending_patron) × IsShown f d × (is_blank j ≡ false) × (is_blank p ≡ false))
unfolding approve_go
approve_go-accepted_iff f j p at d = elim (Option-cases (get_last? d.context_history)) [
  | inl no_context ↦ ground arith
  | inr (c, e) ↦ (
    λ h. (ground arith, (c, e, ground (arith, eq_iff f c.fingerprint)), ground arith, ground arith),
    λ (lifecycle, (c', e', shown), j', p').
        let same : c' ≡ c = cc in
        let matches : f ≡ c.fingerprint = shown ∙ ap (λ k. k.fingerprint) same in
        ground (arith, eq_iff f c.fingerprint),
  )
]

-- After an accepted preparation of a context, each approval that shows another fingerprint is
-- refused as stale, and the decision stays as the preparation left it.
pub approval_stale_after_prepare :
    (c : DecisionContext) (f j p : String) (cs : List DecisionCondition) (at : ℕ) (d : Decision)
    → (prepare_context c d).0 ≡ ok tt
    → f ≢ c.fingerprint
    → let d' = (prepare_context c d).1 in
      (approve_go f j p at d' ≡ (err stale_context, d'))
      × (approve_no_go f j p at d' ≡ (err stale_context, d'))
      × (approve_conditional_go f j cs p at d' ≡ (err stale_context, d'))
unfolding prepare_context approve_go approve_no_go approve_conditional_go
approval_stale_after_prepare c f j p cs at d h ne =
    ground (arith, eq_iff f c.fingerprint, get_last?-append d.context_history c)

-- The transitions of the lifecycle.
pub data Edge : DecisionLifecycle → DecisionLifecycle → Type 0 where
  stay : {l : DecisionLifecycle} → Edge l l
  freeze : Edge draft pending_patron
  decide : Edge pending_patron finalized
  retire : Edge finalized superseded

-- A call leaves the lifecycle as it is, or moves it along DRAFT, PENDING_PATRON, FINALIZED and
-- SUPERSEDED by one.
pub step-Edge : (c : Command) (d : Decision) → Edge d.lifecycle (step c d).lifecycle
unfolding step prepare_context approve_go approve_no_go approve_conditional_go mark_review_required
    supersede record_condition_satisfied
step-Edge (prepare c) d = grind (arith, stay, freeze)
step-Edge (say_go f j p at) d = grind (arith, stay, decide)
step-Edge (say_no_go f j p at) d = grind (arith, stay, decide)
step-Edge (say_conditional_go f j cs p at) d = grind (arith, stay, decide)
step-Edge (satisfy c e at) d = grind (arith, stay)
step-Edge (require_review r) d = grind (arith, stay)
step-Edge (replace_by n r) d = grind (arith, stay, retire)

abbrev pub Restores : Command → Decision → Decision → Type 0
Restores (say_conditional_go f j cs p at) d d' = (d' ≡ d) ⊎ (d' ≡ record d { conditions = cs })
Restores _ d d' = d' ≡ d

-- A call that is refused leaves the decision as it was, except that a conditional Go may have
-- replaced the conditions.
pub refused-Restores :
    (c : Command) (d : Decision) → (execute c d).0 ≢ ok tt → Restores c d (execute c d).1
unfolding execute prepare_context approve_go approve_no_go approve_conditional_go
    mark_review_required supersede record_condition_satisfied
refused-Restores (prepare c) d h = ground arith
refused-Restores (say_go f j p at) d h = ground arith
refused-Restores (say_no_go f j p at) d h = ground arith
refused-Restores (say_conditional_go f j cs p at) d h = ground arith
refused-Restores (satisfy c e at) d h = ground arith
refused-Restores (require_review r) d h = ground arith
refused-Restores (replace_by n r) d h = ground arith

abbrev pub IsClosed : DecisionLifecycle → Type 0
IsClosed finalized = Unit
IsClosed superseded = Unit
IsClosed _ = ⊥

-- What the patron decided, on which contexts, signed by whom and when.
pub record SameDecision (d d' : Decision) : Type 0 where
  pub same_outcome : d'.outcome ≡ d.outcome
  pub same_contexts : d'.context_history ≡ d.context_history
  pub same_justification : d'.final_justification ≡ d.final_justification
  pub same_approver : d'.final_approved_by ≡ d.final_approved_by
  pub same_time : d'.final_approved_at ≡ d.final_approved_at

SameDecision-trans :
    {d d' d'' : Decision} → SameDecision d d' → SameDecision d' d'' → SameDecision d d''
SameDecision-trans s s' = ground arith

step-IsClosed :
    (c : Command) (d : Decision)
    → IsClosed d.lifecycle
    → IsClosed (step c d).lifecycle × SameDecision d (step c d)
unfolding step prepare_context approve_go approve_no_go approve_conditional_go mark_review_required
    supersede record_condition_satisfied
step-IsClosed (prepare c) d h = ground arith
step-IsClosed (say_go f j p at) d h = ground arith
step-IsClosed (say_no_go f j p at) d h = ground arith
step-IsClosed (say_conditional_go f j cs p at) d h = ground arith
step-IsClosed (satisfy c e at) d h = ground arith
step-IsClosed (require_review r) d h = ground arith
step-IsClosed (replace_by n r) d h = ground arith

-- Once final, a decision is never reopened by any sequence of calls, and its outcome, contexts,
-- justification, approver and time of approval never change.
pub run-SameDecision :
    (cs : List Command) (d : Decision)
    → IsClosed d.lifecycle
    → IsClosed (run cs d).lifecycle × SameDecision d (run cs d)
unfolding run
run-SameDecision [] d h = (h, ground arith)
run-SameDecision (c ∷ cs) d h =
    let (closed, same) = step-IsClosed c d h in
    let (closed', same') = run-SameDecision cs (step c d) closed in
    (closed', SameDecision-trans same same')
