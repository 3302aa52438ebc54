-- ===== src/Security/Authorization.antt =====
-- Actor contexts and the baseline policy: backend/app/platform/security/context.py and
-- authorization.py. A `frozenset` is its membership test, a `datetime` a number of microseconds.
use smart_ao_v.Base.{
  ℕ, ◌-◌, ◌*◌, String, Bool, true, false, not, ◌&&◌, Option, none, some, List, [], ◌∷◌, ◌==◌, leb,
  ltb, if◌then◌else◌,
}

pub data ActorKind : Type 0 where
  patron_admin patron_delegate collaborateur partenaire_external support_break_glass : ActorKind
  system : ActorKind

pub data MembershipState : Type 0 where
  invited active suspended revoked expired : MembershipState

pub data DataClassification : Type 0 where
  public_tender internal_operational personal_or_administrative : DataClassification
  financial_private security_restricted support_restricted : DataClassification

pub record AssignmentScope : Type 0 where
  pub case_id : ℕ
  pub allowed_actions : String → Bool
  pub allowed_classifications : DataClassification → Bool

pub record ActorContext : Type 0 where
  pub actor_id : ℕ
  pub identity_id : ℕ
  pub tenant_id : ℕ
  pub membership_id : ℕ
  pub actor_kind : ActorKind
  pub membership_state : MembershipState
  pub capabilities : String → Bool
  pub assigned_case_ids : ℕ → Bool
  pub session_id : Option ℕ
  pub authenticated_at : ℕ
  pub mfa_verified_at : Option ℕ
  pub correlation_id : ℕ
  pub assignment_scopes : List AssignmentScope

-- `membership_is_active`
abbrev pub is_active : MembershipState → Bool
is_active active = true
is_active _ = false

-- The first scope of the case.
unfoldable pub find_scope : ℕ → List AssignmentScope → Option AssignmentScope
find_scope id [] = none
find_scope id (s ∷ ss) = if s.case_id == id then some s else find_scope id ss

unfoldable pub assignment_scope_for : ActorContext → ℕ → Option AssignmentScope
assignment_scope_for c id = find_scope id c.assignment_scopes

-- `timedelta(minutes=15)`
abbrev pub mfa_maximum_age : ℕ
mfa_maximum_age = 15 * 60 * 1000000

unfoldable pub has_recent_mfa : ActorContext → ℕ → ℕ → Bool
has_recent_mfa c evaluated maximum_age = elim c.mfa_verified_at [
  | none ↦ false
  | some verified ↦ if ltb evaluated verified then false else leb (evaluated - verified) maximum_age
]

pub record AuthorizationResource : Type 0 where
  pub resource_type : String
  pub resource_id : ℕ
  pub tenant_id : ℕ
  pub classification : DataClassification
  pub case_id : Option ℕ

pub record AuthorizationRequest : Type 0 where
  pub action : String
  pub resource : AuthorizationResource
  pub mfa_required : Bool
  pub evaluated_at : Option ℕ

pub record AuthorizationDecision : Type 0 where
  pub allowed : Bool
  pub code : String
  pub http_status_code : ℕ
  pub reason : Option String

-- The class methods.
abbrev pub allow : AuthorizationDecision
allow = record { allowed = true; code = "ALLOWED"; http_status_code = 200; reason = none }

abbrev pub not_found_or_forbidden : AuthorizationDecision
not_found_or_forbidden = record {
  allowed = false;
  code = "NOT_FOUND_OR_FORBIDDEN";
  http_status_code = 404;
  reason = none;
}

abbrev pub denied : String → AuthorizationDecision
denied why = record {
  allowed = false;
  code = "AUTHORIZATION_DENIED";
  http_status_code = 403;
  reason = some why;
}

abbrev pub step_up_required : AuthorizationDecision
step_up_required = record {
  allowed = false;
  code = "STEP_UP_REQUIRED";
  http_status_code = 403;
  reason = none;
}

abbrev pub is_restricted : DataClassification → Bool
is_restricted security_restricted = true
is_restricted support_restricted = true
is_restricted _ = false

abbrev pub is_financial : DataClassification → Bool
is_financial financial_private = true
is_financial _ = false

abbrev pub is_patron_admin : ActorKind → Bool
is_patron_admin patron_admin = true
is_patron_admin _ = false

abbrev pub is_collaborateur : ActorKind → Bool
is_collaborateur collaborateur = true
is_collaborateur _ = false

-- The refusal of a collaborator, if there is one.
unfoldable pub refuse_scope : ActorContext → AuthorizationRequest → Option AuthorizationDecision
unfolding assignment_scope_for
refuse_scope c r = elim r.resource.case_id [
  | none ↦ some (denied "collaborator resource has no case scope")
  | some id ↦ elim (assignment_scope_for c id) [
    | none ↦ some (denied "case assignment is missing")
    | some s ↦
        if not (s.allowed_actions r.action)
        then some (denied "assignment action is missing")
        else if not (s.allowed_classifications r.resource.classification)
        then some (denied "assignment classification is missing")
        else none
  ]
]

-- `request.evaluated_at is None or not context.has_recent_mfa(...)`
unfoldable pub lacks_mfa : ActorContext → Option ℕ → Bool
unfolding has_recent_mfa
lacks_mfa c none = true
lacks_mfa c (some at) = not (has_recent_mfa c at mfa_maximum_age)

-- The last test of `authorize`.
unfoldable pub require_mfa : ActorContext → AuthorizationRequest → AuthorizationDecision
unfolding lacks_mfa
require_mfa c r = if r.mfa_required && lacks_mfa c r.evaluated_at then step_up_required else allow

-- `AuthorizationPolicy.authorize`
unfoldable pub authorize : ActorContext → AuthorizationRequest → AuthorizationDecision
unfolding refuse_scope require_mfa
authorize c r =
    if not (c.tenant_id == r.resource.tenant_id)
    then not_found_or_forbidden
    else if not (is_active c.membership_state)
    then denied "membership is not active"
    else if not (c.capabilities r.action)
    then denied "capability is missing"
    else if is_restricted r.resource.classification
    then denied "restricted classification requires a dedicated flow"
    else if is_financial r.resource.classification && not (is_patron_admin c.actor_kind)
    then denied "financial data requires patron access"
    else if is_collaborateur c.actor_kind
    then elim (refuse_scope c r) [ some d ↦ d | none ↦ require_mfa c r ]
    else require_mfa c r
