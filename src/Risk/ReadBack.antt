-- ===== src/Risk/ReadBack.antt =====
-- What the register of backend/app/modules/decision/infrastructure/risk_repository.py gives back of
-- what the handlers of backend/app/modules/decision/application/risk.py have stored.
use smart_ao_v.Base.{
  ℕ, ◌+◌, ◌<◌, ◌≡◌, ◌∙◌, refl, sym, ap, String, true, Option, none, some, List, [], ◌∷◌, ◌++◌,
  ==_iff, arith, eq_iff, find, Option-cases, inl, inr,
}
use smart_ao_v.Base.Result.{ok}
use smart_ao_v.Events.Dispatcher.{HandlerOutcome}
use smart_ao_v.Risk.Domain.{
  RiskTreatment, untreated, accepted, mitigated, treatment_value, treatment_of, is_allowed,
  validate_risk_treatment_transition,
}
use smart_ao_v.Risk.Tables.{
  DecisionRiskTreatmentTransitionRecord, DecisionRiskSnapshot, RiskTables, CommandContext,
  patron_membership,
}
use smart_ao_v.Risk.Repository.{
  is_risk, is_risk_of_case, is_transition_of, latest_treatment, current_revision, make_snapshot,
  get_current,
}
use smart_ao_v.Risk.Treatment.{
  TransitionRiskTreatment, checked_treatments, make_transition, execute_transition,
}

treatment_of-treatment_value : (t : RiskTreatment) → treatment_of (treatment_value t) ≡ some t
unfolding treatment_of treatment_value
treatment_of-treatment_value untreated = refl
treatment_of-treatment_value accepted = refl
treatment_of-treatment_value mitigated = refl

value-of_treatment :
    (s : String) (t : RiskTreatment) → treatment_of s ≡ some t → treatment_value t ≡ s
unfolding treatment_of treatment_value
value-of_treatment s t h =
    ground (arith, h, eq_iff s "OPEN", eq_iff s "ACCEPTED", eq_iff s "MITIGATED")

abbrev IsBelow : ℕ → Option DecisionRiskTreatmentTransitionRecord → Type 0
IsBelow n none = Unit
IsBelow n (some u) = u.aggregate_revision < n

-- A transition with a revision above the latest becomes the latest of its risk.
latest_treatment-snoc :
    (tenant risk : ℕ) (rows : List DecisionRiskTreatmentTransitionRecord)
    (t : DecisionRiskTreatmentTransitionRecord)
    → is_transition_of tenant risk t ≡ true
    → IsBelow t.aggregate_revision (latest_treatment tenant risk rows)
    → latest_treatment tenant risk (rows ++ t ∷ []) ≡ some t
unfolding latest_treatment
latest_treatment-snoc tenant risk [] t o h = ground (arith, o)
latest_treatment-snoc tenant risk (r ∷ rows) t o h = ground (
  arith,
  o,
  h,
  latest_treatment-snoc tenant risk rows t o,
  Option-cases (latest_treatment tenant risk rows),
)

current_revision-IsBelow :
    (latest : Option DecisionRiskTreatmentTransitionRecord)
    → IsBelow (current_revision latest + 1) latest
current_revision-IsBelow none = tt
current_revision-IsBelow (some t) = omega arith

checked_treatments-eq :
    (before after : String) (b a : RiskTreatment)
    → checked_treatments before after ≡ some (b, a)
    → (treatment_value b ≡ before) × (treatment_value a ≡ after) × (is_allowed b a ≡ true)
unfolding validate_risk_treatment_transition
checked_treatments-eq before after b a h = elim (Option-cases (treatment_of before)) [
  | inl e ↦ absurd (ground (arith, e, h))
  | inr (b', e) ↦ elim (Option-cases (treatment_of after)) [
    | inl f ↦ absurd (ground (arith, e, f, h))
    | inr (a', f) ↦
        let p : b' ≡ b = ground (arith, e, f, h) in
        let q : a' ≡ a = ground (arith, e, f, h) in
        (
          value-of_treatment before b (e ∙ ap some p),
          value-of_treatment after a (f ∙ ap some q),
          ground (arith, e, f, h),
        )
  ]
]

module _ (encode_utf8 : String → List ℕ) (decode_utf8 : List ℕ → Option String) where
  -- What the checks have established when a transition is accepted, and what it adds.
  transition-eq-ok :
      (m : TransitionRiskTreatment) (c : CommandContext) (d : RiskTables) {out : HandlerOutcome}
      → (execute_transition encode_utf8 decode_utf8 m c d).0 ≡ ok out
      → (s : DecisionRiskSnapshot) × (get_current c.tenant_id m.case_id m.risk_id d ≡ some s)
        × (s.revision ≡ m.expected_revision)
        × ((membership : ℕ) × (b : RiskTreatment) × (a : RiskTreatment) × (checked_treatments
                s.treatment m.to_treatment
              ≡ some (b, a))
            × ((execute_transition encode_utf8 decode_utf8 m c d).1 ≡ record d {
              transitions =
                  d.transitions ++ make_transition m c membership (b, a) (s.revision + 1) ∷ [];
            }))
  unfolding execute_transition
  transition-eq-ok m c d h = elim (Option-cases (patron_membership c)) [
    | inl e ↦ absurd (ground (arith, e, h))
    | inr (membership, e) ↦ elim (Option-cases (get_current c.tenant_id m.case_id m.risk_id d)) [
      | inl f ↦ absurd (ground (arith, e, f, h))
      | inr (s, f) ↦ elim (Option-cases (checked_treatments s.treatment m.to_treatment)) [
        | inl g ↦ absurd (ground (arith, e, f, g, h))
        | inr ((b, a), g) ↦ elim (Option-cases (find (is_risk c.tenant_id m.risk_id) d.risks)) [
          | inl k ↦ absurd (ground (arith, e, f, g, h, k))
          | inr (r, k) ↦ (
            s,
            f,
            ground (arith, e, f, g, h, k, ==_iff s.revision m.expected_revision),
            (membership, b, a, g, ground (arith, e, f, g, h, k)),
          )
        ]
      ]
    ]
  ]

  get_current-added :
      (tenant case id : ℕ) (d : RiskTables) (s : DecisionRiskSnapshot)
      (t : DecisionRiskTreatmentTransitionRecord)
      → get_current tenant case id d ≡ some s
      → is_transition_of tenant id t ≡ true
      → t.aggregate_revision ≡ s.revision + 1
      → get_current tenant case id (record d { transitions = d.transitions ++ t ∷ [] })
        ≡ some (record s {
          treatment = t.to_treatment;
          revision = t.aggregate_revision;
          latest_treatment_evidence = some t.evidence;
        })
  unfolding get_current
  get_current-added tenant case id d s t h o n =
      elim (Option-cases (find (is_risk_of_case tenant case id) d.risks)) [
        | inl e ↦ absurd (ground (arith, e, h))
        | inr (r, e) ↦
            let latest = latest_treatment tenant id d.transitions in
            let same : make_snapshot r latest ≡ s = ground (arith, e, h) in
            let revision : t.aggregate_revision ≡ current_revision latest + 1 =
              n ∙ ap (λ s. s.revision + 1) (sym same) in
            let below : IsBelow t.aggregate_revision latest =
              rw revision (current_revision-IsBelow latest) in
            let added = latest_treatment-snoc tenant id d.transitions t o below in
            ground (arith, e, added, same)
      ]

  -- After an accepted change of treatment, the register gives the risk as it was, but for the new
  -- treatment, which is an allowed one after the former, the next revision, and the evidence of the
  -- command.
  pub transition-get_current :
      (m : TransitionRiskTreatment) (c : CommandContext) (d : RiskTables) {out : HandlerOutcome}
      → (execute_transition encode_utf8 decode_utf8 m c d).0 ≡ ok out
      → let d' = (execute_transition encode_utf8 decode_utf8 m c d).1 in
        (s : DecisionRiskSnapshot) × (get_current c.tenant_id m.case_id m.risk_id d ≡ some s)
        × (get_current c.tenant_id m.case_id m.risk_id d'
            ≡ some (record s {
              treatment = m.to_treatment;
              revision = m.expected_revision + 1;
              latest_treatment_evidence = some m.evidence;
            }))
        × ((b : RiskTreatment) × (a : RiskTreatment) × (treatment_value b ≡ s.treatment)
            × (treatment_value a ≡ m.to_treatment)
            × (is_allowed b a ≡ true))
  transition-get_current m c d o =
      let (s, f, n, (membership, b, a, g, rows)) = transition-eq-ok m c d o in
      let (before, after, edge) = checked_treatments-eq s.treatment m.to_treatment b a g in
      let t = make_transition m c membership (b, a) (s.revision + 1) in
      let is_it : is_transition_of c.tenant_id m.risk_id t ≡ true =
        ground (arith, ==_iff c.tenant_id c.tenant_id, ==_iff m.risk_id m.risk_id) in
      let added = get_current-added c.tenant_id m.case_id m.risk_id d s t f is_it refl in
      (
        s,
        f,
        ap (get_current c.tenant_id m.case_id m.risk_id) rows ∙ added ∙ (λ i. some (record s {
          treatment = after i;
          revision = n i + 1;
          latest_treatment_evidence = some m.evidence;
        })),
        (b, a, before, after, edge),
      )
