-- ===== src/Risk/Closing.antt =====
-- The submission gate of backend/app/modules/decision/domain/submission_gate.py after a risk is linked
-- to a requirement by backend/app/modules/decision/application/risk_requirement.py.
use smart_ao_v.Base.{
  ℕ, ◌≡◌, refl, sym, ap, ◌∙◌, String, Bool, true, false, not, ◌||◌, none, some, List, [], ◌∷◌, ◌++◌,
  ==_iff, arith, eq_iff, find, all, Option-cases, Bool-cases, inl, inr,
}
use smart_ao_v.Base.Result.{ok, Result-cases}
use smart_ao_v.Events.Dispatcher.{HandlerOutcome}
use smart_ao_v.PatronAction.Transition.{PatronActionRecord, Tables, find_latest}
use smart_ao_v.Decision.Gate.{can_submit, evaluate_submission_gate, DecisionSubmissionGateSnapshot}
use smart_ao_v.Submission.GateReader.{
  Rows, DecisionRiskRequirementLinkRecord, is_joined, is_link_of_case, read,
}
use smart_ao_v.Submission.Risks.{is_settled, is_resolved, all_resolved}
use smart_ao_v.Submission.Reading.{read_gate_opens_iff}
use smart_ao_v.Risk.Domain.{validate_link}
use smart_ao_v.Risk.Tables.{CommandContext, patron_membership}
use smart_ao_v.Risk.Linking.{
  LinkRiskToRequirement, LinkTables, has_key, make_link, link_row, writer_key, action_row,
  execute_link,
}

all-last :
    {A : Type 0} (p : A → Bool) (xs : List A) (x : A) → all p (xs ++ x ∷ []) ≡ true → p x ≡ true
all-last p [] x h = ground (arith, h)
all-last p (y ∷ xs) x h = ground (arith, h, all-last p xs x)

module _ (uuid_text : ℕ → String) where
  -- What an accepted link adds when the tenant has no action of its key.
  link-eq-ok :
      (m : LinkRiskToRequirement) (c : CommandContext) (d : LinkTables) {out : HandlerOutcome}
      → (execute_link uuid_text m c d).0 ≡ ok out
      → find (has_key c.tenant_id (writer_key uuid_text m.link_id)) d.rows.patron_actions.actions
        ≡ none
      → let d' = (execute_link uuid_text m c d).1 in
        (membership : ℕ) × (d'.rows.links ≡ d.rows.links ++ link_row uuid_text m c membership ∷ [])
        × (d'.rows.patron_actions.actions
            ≡ d.rows.patron_actions.actions ++ action_row uuid_text m c ∷ [])
        × (d'.rows.patron_actions.transitions ≡ d.rows.patron_actions.transitions)
  unfolding execute_link
  link-eq-ok m c d h k = elim (Option-cases (patron_membership c)) [
    | inl e ↦ absurd (ground (arith, e, h))
    | inr (membership, e) ↦ elim (Result-cases (validate_link (make_link m))) [
      | inr (x, g) ↦ absurd (ground (arith, e, g, h, k))
      | inl (u, g) ↦ (
        membership,
        ground (arith, e, g, h, k),
        ground (arith, e, g, h, k),
        ground (arith, e, g, h, k),
      )
    ]
  ]

  link_joined :
      (m : LinkRiskToRequirement) (c : CommandContext) (membership : ℕ)
      → is_joined uuid_text c.tenant_id m.case_id
          (link_row uuid_text m c membership)
          (action_row uuid_text m c)
        ≡ true
  link_joined m c membership = ground (
    arith,
    ==_iff c.tenant_id c.tenant_id,
    ==_iff m.case_id m.case_id,
    eq_iff (writer_key uuid_text m.link_id) (writer_key uuid_text m.link_id),
  )

  -- The action that is added is one of the link, and is open.
  not_settled :
      (m : LinkRiskToRequirement) (c : CommandContext) (membership : ℕ) (d : Tables)
      → find_latest c.tenant_id m.link_id d.transitions ≡ none
      → is_settled uuid_text c.tenant_id m.case_id
          (link_row uuid_text m c membership)
          (λ id. find_latest c.tenant_id id d.transitions)
          (action_row uuid_text m c)
        ≡ false
  not_settled m c membership d h = rw (link_joined m c membership, h) refl

  -- A link of the case whose last action is one of it and not settled.
  unsettled_link :
      (m : LinkRiskToRequirement) (c : CommandContext) (membership : ℕ) (x y : Rows)
      → x.links ≡ y.links ++ link_row uuid_text m c membership ∷ []
      → x.patron_actions.actions ≡ y.patron_actions.actions ++ action_row uuid_text m c ∷ []
      → find_latest c.tenant_id m.link_id x.patron_actions.transitions ≡ none
      → all_resolved uuid_text c.tenant_id m.case_id x.links x.patron_actions ≡ true
      → false ≡ true
  unsettled_link m c membership x y links actions n h =
      let l = link_row uuid_text m c membership in
      let tenant = c.tenant_id in
      let p : DecisionRiskRequirementLinkRecord → Bool = λ l.
        not (is_link_of_case uuid_text tenant m.case_id l)
        || is_resolved uuid_text tenant m.case_id l x.patron_actions in
      let here : p l ≡ true = all-last p y.links l (sym (ap (all p) links) ∙ h) in
      let q : PatronActionRecord → Bool =
        is_settled uuid_text tenant m.case_id l
          (λ id. find_latest tenant id x.patron_actions.transitions) in
      let settled : all q x.patron_actions.actions ≡ true =
        ground (arith, here, ==_iff tenant tenant, ==_iff m.case_id m.case_id) in
      sym (not_settled m c membership x.patron_actions n)
      ∙ all-last q y.patron_actions.actions (action_row uuid_text m c)
          (sym (ap (all q) actions) ∙ settled)

  -- After a risk is linked to a requirement, when the tenant had no action for the link, the gate is
  -- closed on whatever the reader reads of the case.
  pub accepted_link_closes_gate :
      (m : LinkRiskToRequirement) (c : CommandContext) (d : LinkTables)
      (s : DecisionSubmissionGateSnapshot) {out : HandlerOutcome}
      → (execute_link uuid_text m c d).0 ≡ ok out
      → find (has_key c.tenant_id (writer_key uuid_text m.link_id)) d.rows.patron_actions.actions
        ≡ none
      → find_latest c.tenant_id m.link_id d.rows.patron_actions.transitions ≡ none
      → let d' = (execute_link uuid_text m c d).1 in
        read uuid_text c.tenant_id m.case_id d'.rows ≡ some s
        → can_submit (evaluate_submission_gate s) ≡ false
  accepted_link_closes_gate m c d s h k n r =
      elim (Bool-cases (can_submit (evaluate_submission_gate s))) [
        | inr e ↦ e
        | inl e ↦
            let d' = (execute_link uuid_text m c d).1 in
            let (_, _, ready) =
              (read_gate_opens_iff uuid_text c.tenant_id m.case_id d'.rows).0 (s, r, e) in
            let (_, _, _, _, _, resolved, _) = ready in
            let (membership, links, actions, transitions) = link-eq-ok m c d h k in
            absurd (
              ground (
                arith,
                unsettled_link m c membership d'.rows d.rows links actions
                    (ap (find_latest c.tenant_id m.link_id) transitions ∙ n) resolved,
              ))
      ]
