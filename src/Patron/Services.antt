-- ===== src/Patron/Services.antt =====
-- The services that authorise a command of the patron and dispatch it: `PatronDecisionRiskService` and
-- `PatronDecisionRiskTreatmentService` of backend/app/modules/decision/application/risk.py,
-- `PatronDecisionRiskRequirementService`, `PatronDecisionLifecycleService` and
-- `PatronDecisionFinalizationService` beside it, the services of patron actions, of pricing scenarios
-- and of pricing imports, `SubmissionEvidenceService` and `SubmissionSignatureService`. They read a few
-- attributes of the command, which are parameters. The membership of an actor is always
-- there. The rows that the audit adds for a denial are left out.
use smart_ao_v.Base.{ℕ, String, Bool, true, false, not, ◌||◌, Option, none, some, str_eq}
use smart_ao_v.Base.Result.{ok, err}
use smart_ao_v.Base.Method.{Method, ◌>>◌, raise_if}
use smart_ao_v.Events.Dispatcher.{
  Command, Database, DispatchContext, DispatchError, DispatchResult, Handler, dispatch,
}
use smart_ao_v.Security.Authorization.{
  ActorContext, ActorKind, patron_admin, patron_delegate, collaborateur, partenaire_external,
  support_break_glass, system, AuthorizationRequest, DataClassification, internal_operational,
  security_restricted, authorize, is_patron_admin, is_active,
}

abbrev pub kind_value : ActorKind → String
kind_value patron_admin = "PATRON_ADMIN"
kind_value patron_delegate = "PATRON_DELEGATE"
kind_value collaborateur = "COLLABORATEUR"
kind_value partenaire_external = "PARTENAIRE_EXTERNAL"
kind_value support_break_glass = "SUPPORT_BREAK_GLASS"
kind_value system = "SYSTEM"

-- `PermissionError`, `CommandExecutionError`, and what the dispatcher raises.
pub data ServiceError : Type 0 where
  permission : String → ServiceError
  execution : String → ServiceError
  dispatching : DispatchError → ServiceError

abbrev pub make_request :
    String
    → String
    → ℕ
    → DataClassification
    → Option ℕ
    → Bool
    → ActorContext
    → ℕ
    → AuthorizationRequest
make_request action' type id class case mfa actor now = record {
  action = action';
  resource = record {
    resource_type = type;
    resource_id = id;
    tenant_id = actor.tenant_id;
    classification = class;
    case_id = case;
  };
  mfa_required = mfa;
  evaluated_at = some now;
}

-- The context of a command that a service dispatches.
abbrev pub context_of : ActorContext → ℕ → Option ℕ → DispatchContext
context_of actor now case = record {
  tenant_id = actor.tenant_id;
  actor_id = actor.actor_id;
  actor_kind = kind_value actor.actor_kind;
  received_at = now;
  identity_id = some actor.identity_id;
  membership_id = some actor.membership_id;
  session_id = actor.session_id;
  case_id = case;
  correlation_id = some actor.correlation_id;
}

-- `actor.actor_kind not in {PATRON_ADMIN, PATRON_DELEGATE}`, without the `not`
abbrev pub is_patron : ActorKind → Bool
is_patron patron_admin = true
is_patron patron_delegate = true
is_patron _ = false

-- `getattr(command, "provider", self.provider) != self.provider`
abbrev pub is_other : String → Option String → Bool
is_other provider none = false
is_other provider (some p) = not (str_eq p provider)

module _ {P S : Type 0} (canonical_request_hash : Command P → String)
    (handlers : String → Option (Handler P S)) where
  -- `self._dispatcher.dispatch`
  unfoldable pub dispatch_as :
      ActorContext → ℕ → Option ℕ → Command P → Method ServiceError (Database S) DispatchResult
  dispatch_as actor now case c db =
      let (r, db') = dispatch canonical_request_hash handlers c (context_of actor now case) db in
      elim r [ ok a ↦ (ok a, db') | err e ↦ (err (dispatching e), db') ]

  -- What the services have in common: the test of the actor, the policy, the dispatch.
  unfoldable pub serve :
      Bool
      → String
      → AuthorizationRequest
      → ActorContext
      → ℕ
      → Option ℕ
      → Command P
      → Method ServiceError (Database S) DispatchResult
  serve admitted text r actor now case c = do
    raise_if (not admitted) (permission text)
    raise_if (not (authorize actor r).allowed) (permission (authorize actor r).code)
    dispatch_as actor now case c

  module _ (case_id subject_id : P → ℕ) where
    unfoldable pub register_risk :
        ActorContext → ℕ → Command P → Method ServiceError (Database S) DispatchResult
    register_risk actor now c =
        let r =
          make_request "decision.risk.write" "CASE_RISK_REGISTER" (case_id c.payload)
            internal_operational (some (case_id c.payload)) false actor now in
        serve (is_patron_admin actor.actor_kind) "PATRON_REQUIRED" r actor now
          (some (case_id c.payload)) c

    unfoldable pub treat_risk :
        ActorContext → ℕ → Command P → Method ServiceError (Database S) DispatchResult
    treat_risk actor now c =
        let r =
          make_request "decision.risk.write" "CASE_RISK_REGISTER" (case_id c.payload)
            internal_operational (some (case_id c.payload)) false actor now in
        serve (is_patron_admin actor.actor_kind) "PATRON_REQUIRED" r actor now
          (some (case_id c.payload)) c

    unfoldable pub link_risk :
        ActorContext → ℕ → Command P → Method ServiceError (Database S) DispatchResult
    link_risk actor now c =
        let r =
          make_request "decision.risk.link.write" "CASE_RISK_REQUIREMENT_LINK"
            (subject_id c.payload) internal_operational (some (case_id c.payload)) false actor
            now in
        serve (is_patron_admin actor.actor_kind) "PATRON_REQUIRED" r actor now
          (some (case_id c.payload)) c

    unfoldable pub create_patron_action :
        ActorContext → ℕ → Command P → Method ServiceError (Database S) DispatchResult
    create_patron_action actor now c =
        let r =
          make_request "patron.action.write" "PATRON_ACTION" (subject_id c.payload)
            internal_operational (some (case_id c.payload)) false actor now in
        serve (is_patron_admin actor.actor_kind) "PATRON_REQUIRED" r actor now
          (some (case_id c.payload)) c

    unfoldable pub transition_patron_action :
        ActorContext → ℕ → Command P → Method ServiceError (Database S) DispatchResult
    transition_patron_action actor now c =
        let r =
          make_request "patron.action.write" "PATRON_ACTION" (subject_id c.payload)
            internal_operational none false actor now in
        serve (is_patron_admin actor.actor_kind) "PATRON_REQUIRED" r actor now none c

    unfoldable pub manage_decision :
        ActorContext → ℕ → Command P → Method ServiceError (Database S) DispatchResult
    manage_decision actor now c =
        let r =
          make_request "decision.manage" "DECISION" (subject_id c.payload) internal_operational
            (some (case_id c.payload)) false actor now in
        serve (is_patron_admin actor.actor_kind) "PATRON_REQUIRED" r actor now
          (some (case_id c.payload)) c

    unfoldable pub record_evidence :
        ActorContext → ℕ → Command P → Method ServiceError (Database S) DispatchResult
    record_evidence actor now c =
        let r =
          make_request "submission.authorize" "SUBMISSION_EVIDENCE" (subject_id c.payload)
            internal_operational none false actor now in
        serve (is_patron_admin actor.actor_kind) "PATRON_REQUIRED" r actor now none c

    unfoldable pub finalize_decision :
        ActorContext → ℕ → Command P → Method ServiceError (Database S) DispatchResult
    finalize_decision actor now c =
        let r =
          make_request "decision.finalize" "DECISION" (subject_id c.payload) internal_operational
            (some (case_id c.payload)) true actor now in
        serve (is_patron actor.actor_kind) "PATRON_REQUIRED" r actor now (some (case_id c.payload))
          c

    -- `SubmissionSignatureService.execute`; a command of no provider passes.
    unfoldable pub sign :
        (P → Option String)
        → String
        → ActorContext
        → ℕ
        → Command P
        → Method ServiceError (Database S) DispatchResult
    sign provider_of provider actor now c = do
      raise_if (not (is_patron_admin actor.actor_kind) || not (is_active actor.membership_state))
          (permission "PATRON_REQUIRED")
      raise_if (is_other provider (provider_of c.payload)) (execution "INVALID_PROVIDER")
      serve true ""
          (make_request "submission.signature.write" "SUBMISSION_SIGNATURE" (subject_id c.payload)
            security_restricted none true actor now)
          actor now none c
