-- ===== src/Submission/Reading.antt =====
-- When the gate opens on what the reader of
-- backend/app/modules/submission/infrastructure/decision_gate_reader.py reads from the tables.
use smart_ao_v.Base.{
  ℕ, ◌≡◌, ◌↔◌, ◌⊎◌, refl, inl, inr, Bool, true, false, not, ◌&&◌, all, none, some, List, [], ◌∷◌,
  filter, length, arith, Option-cases, String,
}
use smart_ao_v.Base.Int.{pos}
use smart_ao_v.Decision.Gate.{can_submit, evaluate_submission_gate, DecisionSubmissionGateSnapshot}
use smart_ao_v.Decision.Readiness.{IsSubmittable, gate_opens_iff}
use smart_ao_v.Submission.GateReader.{
  Rows, DecisionRecord, find_decision, is_open_condition, all_dce_requirements_confirmed,
  unresolved_risk_action_count, read, is_candidate, comes_after,
}
use smart_ao_v.Submission.Risks.{all_resolved, no_unresolved_iff}

module _ (tenant case : ℕ) where
  -- The row is of the case and current, and no other such row has a higher cycle, or the same cycle
  -- and a later update.
  abbrev pub is_latest : List DecisionRecord → DecisionRecord → Bool
  is_latest rows r =
      is_candidate tenant case r
      && all (λ s. not (is_candidate tenant case s && comes_after tenant case r s)) rows

  abbrev is_last : DecisionRecord → List DecisionRecord → Bool
  is_last r rows = all (λ s. not (is_candidate tenant case s && comes_after tenant case r s)) rows

  is_last_mono :
      (r s : DecisionRecord) (rows : List DecisionRecord)
      → comes_after tenant case r s ≡ false
      → is_last s rows ≡ true
      → is_last r rows ≡ true
  is_last_mono r s [] h k = refl
  is_last_mono r s (x ∷ rows) h k = ground (arith, is_last_mono r s rows h)

  is_last-none :
      (r : DecisionRecord) (rows : List DecisionRecord)
      → find_decision tenant case rows ≡ none
      → is_last r rows ≡ true
  unfolding find_decision
  is_last-none r [] h = refl
  is_last-none r (x ∷ rows) h = ground (arith, is_last-none r rows)

  find_decision-is_latest :
      (rows : List DecisionRecord) (r : DecisionRecord)
      → find_decision tenant case rows ≡ some r
      → is_latest rows r ≡ true
  unfolding find_decision
  find_decision-is_latest [] r h = ground arith
  find_decision-is_latest (x ∷ rows) r h = elim (Option-cases (find_decision tenant case rows)) [
    | inl e ↦ ground (arith, e, is_last-none r rows e)
    | inr (s, e) ↦ ground (arith, e, find_decision-is_latest rows s e, is_last_mono r s rows)
  ]

module _ (uuid_text : ℕ → String) (tenant case : ℕ) (d : Rows) where
  -- What the gate asks of a row of the decisions and of the rows that belong to it.
  abbrev pub IsReady : DecisionRecord → Type 0
  IsReady r =
      (is_latest tenant case d.decisions r ≡ true)
      × (r.lifecycle ≡ "FINALIZED")
      × (r.context_status ≡ "FROZEN")
      × (all_dce_requirements_confirmed tenant case r.selected_final_context_id d ≡ true)
      × (length (filter (is_open_condition tenant case r) d.conditions) ≡ 0)
      × (all_resolved uuid_text tenant case d.links d.patron_actions ≡ true)
      × ((r.outcome ≡ "GO") × (r.condition_status ≡ "NOT_APPLICABLE")
          ⊎ (r.outcome ≡ "CONDITIONAL_GO") × (r.condition_status ≡ "SATISFIED"))

  abbrev snapshot : DecisionRecord → DecisionSubmissionGateSnapshot
  snapshot r = record {
    lifecycle = r.lifecycle;
    outcome = r.outcome;
    context_status = r.context_status;
    condition_status = r.condition_status;
    open_condition_count = pos (length (filter (is_open_condition tenant case r) d.conditions));
    unresolved_risk_action_count =
        pos (unresolved_risk_action_count uuid_text tenant case d.links d.patron_actions);
    all_dce_requirements_confirmed =
        all_dce_requirements_confirmed tenant case r.selected_final_context_id d;
  }

  snapshot-IsReady :
      (r : DecisionRecord)
      → find_decision tenant case d.decisions ≡ some r
      → IsSubmittable (snapshot r) ↔ IsReady r
  snapshot-IsReady r e = ground (
    arith,
    no_unresolved_iff uuid_text tenant case d.links d.patron_actions,
    find_decision-is_latest tenant case d.decisions r e,
  )

  read-snapshot :
      (r : DecisionRecord)
      → find_decision tenant case d.decisions ≡ some r
      → read uuid_text tenant case d ≡ some (snapshot r)
  unfolding read
  read-snapshot r e = rw (read, e) refl

  -- The reader finds a decision on which the gate is open exactly when the current Go/No-Go decision
  -- of the case with the highest cycle is a final Go, or a conditional Go with satisfied conditions,
  -- on a frozen context, with no open condition, its requirements confirmed, and each link of a risk
  -- of the case to a requirement has an action and only completed or abandoned ones.
  pub read_gate_opens_iff :
      ((s : DecisionSubmissionGateSnapshot) × (read uuid_text tenant case d ≡ some s)
        × (can_submit (evaluate_submission_gate s) ≡ true))
      ↔ ((r : DecisionRecord) × (find_decision tenant case d.decisions ≡ some r) × IsReady r)
  unfolding read
  read_gate_opens_iff = (
    λ (s, e, o). elim (Option-cases (find_decision tenant case d.decisions)) [
      | inl f ↦ absurd (ground (arith, e, f))
      | inr (r, f) ↦
          let same : snapshot r ≡ s = ground (arith, e, f, read-snapshot r f) in
          (r, f, (snapshot-IsReady r f).0 (rw same ((gate_opens_iff s).0.0 o)))
    ],
    λ (r, f, k). (
      snapshot r,
      read-snapshot r f,
      (gate_opens_iff (snapshot r)).0.1 ((snapshot-IsReady r f).1 k),
    ),
  )
