-- ===== src/Risk/Linking.antt =====
-- `LinkRiskToRequirementHandler` of backend/app/modules/decision/application/risk_requirement.py with
-- its repository, and `PatronActionWriter.create_from_risk_requirement_link` of
-- backend/app/modules/patron_action/application/service.py. The texts of an action that the patron
-- reads are left out.
use smart_ao_v.Base.{
  ℕ, String, Bool, not, ◌&&◌, Option, none, some, List, [], ◌∷◌, ◌++◌, str_eq, any, ◌==◌, find,
}
use smart_ao_v.Base.Result.{ok, err}
use smart_ao_v.Base.Method.{Method, pure, ◌>>=◌, ◌>>◌, raise_if, gets, modify}
use smart_ao_v.Events.Dispatcher.{HandlerOutcome}
use smart_ao_v.PatronAction.Transition.{PatronActionRecord}
use smart_ao_v.Submission.GateReader.{Rows, DecisionRiskRequirementLinkRecord, is_confirmation}
use smart_ao_v.Risk.Domain.{
  RiskRequirementRelation, RiskRequirementLink, relation_value, validate_link,
}
use smart_ao_v.Risk.Tables.{
  DecisionRiskRecord, RiskError, CommandContext, patron_required, not_found_or_forbidden,
  stale_dce_context, risk_not_found_or_forbidden, requirement_not_confirmed, link_already_exists,
  invalid_link, patron_membership, or_raise, single_outcome,
}
use smart_ao_v.Risk.Repository.{case_exists, case_uses_dce_version}
use Prim.Native.String

pub record LinkRiskToRequirement : Type 0 where
  pub link_id : ℕ
  pub case_id : ℕ
  pub risk_id : ℕ
  pub requirement_id : ℕ
  pub dce_version_id : ℕ
  pub relationship : RiskRequirementRelation
  pub rationale : String
  pub command_id : ℕ
  pub idempotency_key : ℕ

-- The register of risks, and the tables that the reader of the submission gate reads.
pub record LinkTables : Type 0 where
  pub risks : List DecisionRiskRecord
  pub rows : Rows

-- `risk_matches_case_and_version`
abbrev pub matches : ℕ → LinkRiskToRequirement → DecisionRiskRecord → Bool
matches tenant m r =
    r.tenant_id == tenant
    && r.id == m.risk_id
    && r.case_id == m.case_id
    && r.dce_version_id == m.dce_version_id

-- `requirement_is_confirmed`
abbrev pub requirement_is_confirmed : ℕ → ℕ → ℕ → Rows → Bool
requirement_is_confirmed tenant requirement v d =
    any
      (λ r.
        r.tenant_id == tenant
        && r.id == requirement
        && r.dce_version_id == v
        && any (is_confirmation tenant requirement r) d.confirmations)
      d.requirements

abbrev pub is_linked : ℕ → String → DecisionRiskRequirementLinkRecord → Bool
is_linked tenant key l = l.tenant_id == tenant && str_eq l.functional_key key

abbrev pub has_key : ℕ → String → PatronActionRecord → Bool
has_key tenant key a = a.tenant_id == tenant && str_eq a.functional_key key

-- `link.validate()`
abbrev pub check_link : RiskRequirementLink → Method RiskError LinkTables (Unit {0})
check_link l d = elim (validate_link l) [ ok u ↦ (ok tt, d) | err e ↦ (err (invalid_link e), d) ]

abbrev pub make_link : LinkRiskToRequirement → RiskRequirementLink
make_link m = record {
  risk_id = m.risk_id;
  requirement_id = m.requirement_id;
  relationship = m.relationship;
  rationale = m.rationale;
}

-- The outcome, with the action that the writer has added, if it has.
abbrev pub link_outcome : LinkRiskToRequirement → Option PatronActionRecord → HandlerOutcome
link_outcome m action =
    let linked =
      single_outcome "DECISION_RISK_REQUIREMENT_LINKED" "DecisionRiskRequirementLink" m.link_id 1
        "DecisionRiskRequirementLinked" in
    elim action [
      | none ↦ linked
      | some a ↦
          let created =
            single_outcome "DECISION_RISK_REQUIREMENT_LINKED" "PatronAction" a.id
              a.aggregate_revision "PatronActionCreated" in
          record {
            result_code = linked.result_code;
            aggregate_refs = linked.aggregate_refs ++ created.aggregate_refs;
            events = linked.events ++ created.events;
          }
    ]

module _ (uuid_text : ℕ → String) where
  -- `":".join(…)`
  abbrev pub link_key : LinkRiskToRequirement → String
  link_key m = String.◌++◌ (uuid_text m.case_id) (
      String.◌++◌ ":" (
        String.◌++◌ (uuid_text m.dce_version_id) (
          String.◌++◌ ":" (
            String.◌++◌ (uuid_text m.risk_id) (
              String.◌++◌ ":" (
                String.◌++◌ (uuid_text m.requirement_id)
                  (String.◌++◌ ":" (relation_value m.relationship))))))))

  -- `repository.create`, on the draft of the command
  abbrev pub link_row :
      LinkRiskToRequirement → CommandContext → ℕ → DecisionRiskRequirementLinkRecord
  link_row m c membership = record {
    id = m.link_id;
    tenant_id = c.tenant_id;
    case_id = m.case_id;
    risk_id = m.risk_id;
    requirement_id = m.requirement_id;
    dce_version_id = m.dce_version_id;
    functional_key = link_key m;
    relationship = relation_value m.relationship;
    rationale = m.rationale;
    source_refs =
        String.◌++◌ "decision-risk:" (uuid_text m.risk_id)
        ∷ String.◌++◌ "dce-requirement:" (uuid_text m.requirement_id)
        ∷ [];
    actor_id = c.actor_id;
    membership_id = membership;
    command_id = m.command_id;
    idempotency_key = m.idempotency_key;
    correlation_id = c.correlation_id;
  }

  abbrev pub add_link : DecisionRiskRequirementLinkRecord → Method RiskError LinkTables (Unit {0})
  add_link l = modify (λ d. record d { rows = record d.rows { links = d.rows.links ++ l ∷ [] } })

  abbrev pub writer_key : ℕ → String
  writer_key link = String.◌++◌ "decision-risk-requirement:" (uuid_text link)

  abbrev pub action_row : LinkRiskToRequirement → CommandContext → PatronActionRecord
  action_row m c = record {
    id = m.link_id;
    tenant_id = c.tenant_id;
    case_id = some m.case_id;
    functional_key = writer_key m.link_id;
    action_type = "DECIDE_GO_NO_GO";
    severity = "BLOCKING";
    state = "OPEN";
    aggregate_revision = 1;
  }

  abbrev pub add_action :
      PatronActionRecord → Method RiskError LinkTables (Option PatronActionRecord)
  add_action a = do
    modify (λ d. record d {
      rows = record d.rows {
        patron_actions = record d.rows.patron_actions {
          actions = d.rows.patron_actions.actions ++ a ∷ [];
        };
      };
    })
    pure (some a)

  -- `create_from_risk_requirement_link`: nothing is added when the tenant has an action of this key.
  unfoldable pub create_action :
      LinkRiskToRequirement
      → CommandContext
      → Method RiskError LinkTables (Option PatronActionRecord)
  create_action m c d =
      elim (find (has_key c.tenant_id (writer_key m.link_id)) d.rows.patron_actions.actions) [
        | some a ↦ (ok none, d)
        | none ↦ add_action (action_row m c) d
      ]

  -- `LinkRiskToRequirementHandler.execute`, with the writer that the application gives it
  unfoldable pub execute_link :
      LinkRiskToRequirement → CommandContext → Method RiskError LinkTables HandlerOutcome
  unfolding validate_link relation_value create_action
  execute_link m c = do
    membership ← or_raise patron_required (patron_membership c)
    d ← gets (λ d. d)
    raise_if (not (case_exists c.tenant_id m.case_id d.rows.cases)) not_found_or_forbidden
    raise_if (not (case_uses_dce_version c.tenant_id m.case_id m.dce_version_id d.rows.cases))
        stale_dce_context
    raise_if (not (any (matches c.tenant_id m) d.risks)) risk_not_found_or_forbidden
    raise_if (not (requirement_is_confirmed c.tenant_id m.requirement_id m.dce_version_id d.rows))
        requirement_not_confirmed
    check_link (make_link m)
    raise_if (any (is_linked c.tenant_id (link_key m)) d.rows.links) link_already_exists
    add_link (link_row m c membership)
    action ← create_action m c
    pure (link_outcome m action)
