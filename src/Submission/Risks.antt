-- ===== src/Submission/Risks.antt =====
-- The risk actions that the reader of
-- backend/app/modules/submission/infrastructure/decision_gate_reader.py counts, while commands of
-- backend/app/modules/patron_action go on.
use smart_ao_v.Base.{
  ℕ, ◌+◌, ◌≡◌, ◌≢◌, ◌↔◌, refl, ◌⊎◌, inl, inr, String, Bool, true, false, not, ◌&&◌, ◌||◌, Option,
  none, some, List, [], ◌∷◌, ◌++◌, map, arith, ==_iff, any, all, filter, length, is_nil, is_empty,
  Bool-cases, sym, ap, ◌∙◌,
}
use smart_ao_v.Base.Result.{ok}
use smart_ao_v.PatronAction.State.{from_value, ensure_transition_allowed}
use smart_ao_v.PatronAction.Transition.{
  PatronActionRecord, PatronActionTransitionRecord, TransitionPatronActionCommand, CommandContext,
  Tables, is_row, find_action, find_latest, current_state, current_revision, store_action,
  is_closed, apply_transition, execute,
}
use smart_ao_v.PatronAction.Rows.{execute-eq-ok, execute-eq-err, latest_of}
use smart_ao_v.PatronAction.History.{execute-isolated, run}
use smart_ao_v.Submission.GateReader.{
  DecisionRiskRequirementLinkRecord, effective_state, is_joined, is_link_of_case, or_null,
  risk_rows, is_unresolved, unresolved_risk_action_count,
}

both_true : {p q : Bool} → p ≡ true → q ≡ true → (p && q) ≡ true
both_true h k = ground arith

and_true : {p q : Bool} → (p && q) ≡ true → (p ≡ true) × (q ≡ true)
and_true h = (ground arith, ground arith)

or_elim : {p q : Bool} → p ≡ true → q ≡ true → (not p || q) ≡ true
or_elim e h = ground arith

or_used : {p q : Bool} → p ≡ true → (not p || q) ≡ true → q ≡ true
or_used e h = ground arith

-- No two actions of a tenant have the same identifier.
abbrev pub is_keyed : List PatronActionRecord → Bool
is_keyed [] = true
is_keyed (a ∷ rows) = not (any (is_row a.tenant_id a.id) rows) && is_keyed rows

any-store :
    (p : PatronActionRecord → Bool) (tenant id : ℕ) (s : String) (n : ℕ)
    (rows : List PatronActionRecord)
    → ((a : PatronActionRecord) → p (record a { state = s; aggregate_revision = n }) ≡ p a)
    → any p (store_action tenant id s n rows) ≡ any p rows
unfolding store_action
any-store p tenant id s n [] h = refl
any-store p tenant id s n (a ∷ rows) h = ground (arith, any-store p tenant id s n rows h, h a)

store-keyed :
    (tenant id : ℕ) (s : String) (n : ℕ) (rows : List PatronActionRecord)
    → is_keyed rows ≡ true
    → is_keyed (store_action tenant id s n rows) ≡ true
unfolding store_action
store-keyed tenant id s n [] h = refl
store-keyed tenant id s n (a ∷ rows) h = ground (
  arith,
  store-keyed tenant id s n rows,
  any-store (is_row a.tenant_id a.id) tenant id s n rows (λ b. refl),
)

execute-keyed :
    (c : TransitionPatronActionCommand) (x : CommandContext) (d : Tables)
    → is_keyed d.actions ≡ true
    → is_keyed (execute c x d).1.actions ≡ true
unfolding apply_transition
execute-keyed c x d h = elim (execute-eq-err c x d) [
  | inr same ↦ rw same h
  | inl (event, o) ↦
      let (a, e, n, open_state, edge, writes) = execute-eq-ok c x d o in
      rw writes (
        store-keyed x.tenant_id c.action_id c.target_state
          (current_revision a (latest_of c x d) + 1) d.actions h)
]

-- A state from which a move is allowed is not empty.
ensure-not_empty : (x y : String) → ensure_transition_allowed x y ≡ ok tt → is_empty x ≡ false
unfolding ensure_transition_allowed from_value
ensure-not_empty String.[] y h = ground arith
ensure-not_empty (String.◌∷◌ c x) y h = refl

-- An accepted command is on an action that counts as unresolved.
accepted-open :
    (a : PatronActionRecord) (latest : Option PatronActionTransitionRecord) (target : String)
    → is_closed (current_state a latest) ≡ false
    → ensure_transition_allowed (current_state a latest) target ≡ ok tt
    → is_closed (effective_state a latest) ≡ false
accepted-open a none target h m = h
accepted-open a (some t) target h m = rw (ensure-not_empty t.to_state target m) h

-- The latest transition of each action of the tenant.
abbrev pub Latest : Type 0
Latest = ℕ → Option PatronActionTransitionRecord

module _ (uuid_text : ℕ → String) (tenant case : ℕ) where
  -- A row that is of the link is of a closed action.
  abbrev pub is_settled : DecisionRiskRequirementLinkRecord → Latest → PatronActionRecord → Bool
  is_settled l latest a =
      not (is_joined uuid_text tenant case l a) || is_closed (effective_state a (latest a.id))

  module _ (l : DecisionRiskRequirementLinkRecord) (f g : Latest) (id : ℕ) (s : String)
      (n : ℕ) where
    settled_other :
        (t : ℕ) (rows : List PatronActionRecord)
        → ((k : ℕ) → (tenant ≢ t) ⊎ (k ≢ id) → g k ≡ f k)
        → any (is_row t id) rows ≡ false
        → all (is_settled l f) rows ≡ true
        → all (is_settled l g) rows ≡ true
    settled_other t [] same free h = refl
    settled_other t (a ∷ rows) same free h = ground (
      arith,
      settled_other t rows same,
      same a.id,
      ==_iff a.tenant_id t,
      ==_iff a.tenant_id tenant,
      ==_iff a.id id,
    )

    settled_store :
        (t : ℕ) (rows : List PatronActionRecord) (b : PatronActionRecord)
        → ((k : ℕ) → (tenant ≢ t) ⊎ (k ≢ id) → g k ≡ f k)
        → is_keyed rows ≡ true
        → find_action t id rows ≡ some b
        → (tenant ≡ t → is_closed (effective_state b (f id)) ≡ false)
        → all (is_settled l f) rows ≡ true
        → all (is_settled l g) (store_action t id s n rows) ≡ true
    unfolding find_action store_action
    settled_store t [] b same keyed e open_b h = ground arith
    settled_store t (a ∷ rows) b same keyed e open_b h = elim (Bool-cases (is_row t id a)) [
      | inl r ↦
          let here : (a.tenant_id ≡ t) × (a.id ≡ id) =
            ground (arith, ==_iff a.tenant_id t, ==_iff a.id id) in
          let free : any (is_row a.tenant_id a.id) rows ≡ false = ground arith in
          let free' : any (is_row t id) rows ≡ false = rw (here.0, here.1) at free in
          let found : b ≡ a = ground arith in
          let rest = settled_other t rows same free' (ground arith) in
          let opened : tenant ≡ t → is_closed (effective_state a (f a.id)) ≡ false =
            λ q. rw (here.1, sym found) (open_b q) in
          ground (arith, rest, opened, here, ==_iff a.tenant_id tenant)
      | inr r ↦ ground (
        arith,
        settled_store t rows b same,
        same a.id,
        ==_iff a.tenant_id t,
        ==_iff a.tenant_id tenant,
        ==_iff a.id id,
      )
    ]

module _ (uuid_text : ℕ → String) (tenant case : ℕ) where
  -- Each link of the case has an action, and each of its actions is closed.
  abbrev pub is_resolved : DecisionRiskRequirementLinkRecord → Tables → Bool
  is_resolved l d =
      any (is_joined uuid_text tenant case l) d.actions
      && all (is_settled uuid_text tenant case l (λ id. find_latest tenant id d.transitions))
          d.actions

  execute-resolved :
      (c : TransitionPatronActionCommand) (x : CommandContext) (d : Tables)
      (l : DecisionRiskRequirementLinkRecord)
      → is_keyed d.actions ≡ true
      → is_resolved l d ≡ true
      → is_resolved l (execute c x d).1 ≡ true
  unfolding apply_transition
  execute-resolved c x d l keyed h = elim (execute-eq-err c x d) [
    | inr same ↦ rw same h
    | inl (event, o) ↦
        let (a, e, n, open_state, edge, writes) = execute-eq-ok c x d o in
        let latest : Latest = λ id. find_latest tenant id d.transitions in
        let latest' : Latest = λ id. find_latest tenant id (execute c x d).1.transitions in
        let revision = current_revision a (latest_of c x d) + 1 in
        let joined =
          any-store (is_joined uuid_text tenant case l) x.tenant_id c.action_id c.target_state
            revision d.actions (λ b. refl) in
        let opened = accepted-open a (latest_of c x d) c.target_state open_state edge in
        let settled =
          settled_store uuid_text tenant case l latest latest' c.action_id c.target_state revision
            x.tenant_id d.actions a (λ k q. (execute-isolated c x d tenant k q).1) keyed e
            (λ q. rw q opened) (and_true h).1 in
        let rows : (execute c x d).1.actions
            ≡ store_action x.tenant_id c.action_id c.target_state revision d.actions =
          ap (λ t. t.actions) writes in
        rw rows (both_true (joined ∙ (and_true h).0) settled)
  ]

  rows_settled :
      (l : DecisionRiskRequirementLinkRecord) (latest : Latest) (rows : List PatronActionRecord)
      → (length (
            filter
              (is_unresolved uuid_text tenant case latest)
              (map some (filter (is_joined uuid_text tenant case l) rows)))
          ≡ 0)
        ↔ (all (is_settled uuid_text tenant case l latest) rows ≡ true)
  rows_settled l latest [] = ground arith
  rows_settled l latest (a ∷ rows) = ground (arith, rows_settled l latest rows)

  filter_nil :
      (l : DecisionRiskRequirementLinkRecord) (rows : List PatronActionRecord)
      → any (is_joined uuid_text tenant case l) rows
        ≡ not (is_nil (filter (is_joined uuid_text tenant case l) rows))
  filter_nil l [] = refl
  filter_nil l (a ∷ rows) = ground (arith, filter_nil l rows)

  or_null-settled :
      (latest : Latest) (rows : List PatronActionRecord)
      → (length (
            filter
              (is_unresolved uuid_text tenant case latest)
              (or_null uuid_text tenant case rows))
          ≡ 0)
        ↔ ((not (is_nil rows) ≡ true)
            × (length (filter (is_unresolved uuid_text tenant case latest) (map some rows)) ≡ 0))
  or_null-settled latest [] = ground arith
  or_null-settled latest (a ∷ rows) = ground arith

  -- All the links of the case are resolved.
  abbrev pub all_resolved : List DecisionRiskRequirementLinkRecord → Tables → Bool
  all_resolved links d =
      all (λ l. not (is_link_of_case uuid_text tenant case l) || is_resolved l d) links

  length-filter_append :
      (latest : Latest) (xs ys : List (Option PatronActionRecord))
      → length (filter (is_unresolved uuid_text tenant case latest) (xs ++ ys))
        ≡ length (filter (is_unresolved uuid_text tenant case latest) xs)
          + length (filter (is_unresolved uuid_text tenant case latest) ys)
  length-filter_append latest [] ys = omega arith
  length-filter_append latest (x ∷ xs) ys = ground (arith, length-filter_append latest xs ys)

  link-resolved_iff :
      (l : DecisionRiskRequirementLinkRecord) (d : Tables)
      → (length (
            filter
              (is_unresolved uuid_text tenant case (λ id. find_latest tenant id d.transitions))
              (or_null uuid_text tenant case
                (filter (is_joined uuid_text tenant case l) d.actions)))
          ≡ 0)
        ↔ (is_resolved l d ≡ true)
  link-resolved_iff l d =
      let latest : Latest = λ id. find_latest tenant id d.transitions in
      let settled = rows_settled l latest d.actions in
      let null = or_null-settled latest (filter (is_joined uuid_text tenant case l) d.actions) in
      let nil = filter_nil l d.actions in
      (
        λ h. both_true (nil ∙ (null.0 h).0) (settled.0 (null.0 h).1),
        λ h. null.1 (sym nil ∙ (and_true h).0, settled.1 (and_true h).1),
      )

  -- The reader counts no unresolved risk action exactly when each link of the case has an action and
  -- each of its actions is completed or abandoned.
  pub no_unresolved_iff :
      (links : List DecisionRiskRequirementLinkRecord) (d : Tables)
      → (unresolved_risk_action_count uuid_text tenant case links d ≡ 0)
        ↔ (all_resolved links d ≡ true)
  unfolding unresolved_risk_action_count risk_rows
  no_unresolved_iff [] d = ground arith
  no_unresolved_iff (l ∷ links) d =
      let latest : Latest = λ id. find_latest tenant id d.transitions in
      let here = filter (is_joined uuid_text tenant case l) d.actions in
      let add =
        length-filter_append latest (or_null uuid_text tenant case here)
          (risk_rows uuid_text tenant case links d.actions) in
      elim (Bool-cases (is_link_of_case uuid_text tenant case l)) [
        | inl e ↦ ground (arith, no_unresolved_iff links d, e, add, link-resolved_iff l d)
        | inr e ↦ ground (arith, no_unresolved_iff links d, e)
      ]

  execute-all_resolved :
      (c : TransitionPatronActionCommand) (x : CommandContext) (d : Tables)
      (links : List DecisionRiskRequirementLinkRecord)
      → is_keyed d.actions ≡ true
      → all_resolved links d ≡ true
      → all_resolved links (execute c x d).1 ≡ true
  execute-all_resolved c x d [] keyed h = h
  execute-all_resolved c x d (l ∷ links) keyed h =
      elim (Bool-cases (is_link_of_case uuid_text tenant case l)) [
        | inl e ↦
            both_true (or_elim e (execute-resolved c x d l keyed (or_used e (and_true h).0)))
              (execute-all_resolved c x d links keyed (and_true h).1)
        | inr e ↦ both_true (rw e refl) (execute-all_resolved c x d links keyed (and_true h).1)
      ]

  -- When the identifiers of a tenant's actions are distinct and no risk action of a case is
  -- unresolved, no sequence of commands, of any tenant, makes one unresolved again.
  pub resolved_risks_stay :
      (commands : List (TransitionPatronActionCommand × CommandContext)) (d : Tables)
      (links : List DecisionRiskRequirementLinkRecord)
      → is_keyed d.actions ≡ true
      → unresolved_risk_action_count uuid_text tenant case links d ≡ 0
      → unresolved_risk_action_count uuid_text tenant case links (run commands d) ≡ 0
  unfolding run
  resolved_risks_stay [] d links keyed h = h
  resolved_risks_stay ((c, x) ∷ commands) d links keyed h =
      resolved_risks_stay commands (execute c x d).1 links (execute-keyed c x d keyed) (
        (no_unresolved_iff links (execute c x d).1).1
          (execute-all_resolved c x d links keyed ((no_unresolved_iff links d).0 h)))
