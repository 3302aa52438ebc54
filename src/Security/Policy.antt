-- ===== src/Security/Policy.antt =====
-- What the policy of backend/app/platform/security/authorization.py grants, apart from the code.
use smart_ao_v.Base.{
  ℕ, ◌+◌, ◌≤◌, ◌≡◌, ◌≢◌, ◌↔◌, inl, inr, true, false, arith, none, some, Option-cases, ap,
}
use smart_ao_v.Security.Authorization.{
  ActorContext, AssignmentScope, AuthorizationRequest, patron_admin, collaborateur, active,
  financial_private, security_restricted, support_restricted, find_scope, mfa_maximum_age,
  refuse_scope, require_mfa, lacks_mfa, authorize,
}

-- A collaborator acts on a case through a scope of it that allows the action and the class of data.
abbrev pub IsScoped : ActorContext → AuthorizationRequest → Type 0
IsScoped c r =
    (id : ℕ) × (s : AssignmentScope) × (r.resource.case_id ≡ some id)
    × (find_scope id c.assignment_scopes ≡ some s)
    × (s.allowed_actions r.action ≡ true)
    × (s.allowed_classifications r.resource.classification ≡ true)

-- A second factor was verified at most fifteen minutes before the evaluation, and not after it.
abbrev pub IsStrong : ActorContext → AuthorizationRequest → Type 0
IsStrong c r =
    (at : ℕ) × (verified : ℕ) × (r.evaluated_at ≡ some at)
    × (c.mfa_verified_at ≡ some verified)
    × (verified ≤ at)
    × (at ≤ verified + mfa_maximum_age)

pub record Permits (c : ActorContext) (r : AuthorizationRequest) : Type 0 where
  pub same_tenant : c.tenant_id ≡ r.resource.tenant_id
  pub member : c.membership_state ≡ active
  pub capable : c.capabilities r.action ≡ true
  pub open_class :
      (r.resource.classification ≢ security_restricted)
      × (r.resource.classification ≢ support_restricted)
  pub financial : r.resource.classification ≡ financial_private → c.actor_kind ≡ patron_admin
  pub scoped : c.actor_kind ≡ collaborateur → IsScoped c r
  pub strong : r.mfa_required ≡ true → IsStrong c r

refuse_scope-none_iff :
    (c : ActorContext) (r : AuthorizationRequest) → (refuse_scope c r ≡ none) ↔ IsScoped c r
unfolding refuse_scope
refuse_scope-none_iff c r = elim (Option-cases r.resource.case_id) [
  | inl no_case ↦ (λ h. ground arith, λ (id, s, e, f, a, d). ground arith)
  | inr (id, e) ↦ elim (Option-cases (find_scope id c.assignment_scopes)) [
    | inl no_scope ↦ (
      λ h. ground arith,
      λ (id', s, e', f, a, d).
          let same : id' ≡ id = cc in
          ground (arith, ap (λ k. find_scope k c.assignment_scopes) same),
    )
    | inr (s, f) ↦ (
      λ h. (id, s, e, f, ground arith, ground arith),
      λ (id', s', e', f', a, d).
          let same : id' ≡ id = cc in
          let scope : s' ≡ s = cc (ap (λ k. find_scope k c.assignment_scopes) same) in
          let a' : s.allowed_actions r.action ≡ true = rw scope at a in
          let d' : s.allowed_classifications r.resource.classification ≡ true = rw scope at d in
          ground arith,
    )
  ]
]

lacks_mfa_iff :
    (c : ActorContext) (r : AuthorizationRequest)
    → (lacks_mfa c r.evaluated_at ≡ false) ↔ IsStrong c r
unfolding lacks_mfa
lacks_mfa_iff c r = elim (Option-cases r.evaluated_at) [
  | inl no_time ↦ (λ h. ground arith, λ (at, v, e, f, a, b). ground arith)
  | inr (at, e) ↦ elim (Option-cases c.mfa_verified_at) [
    | inl no_factor ↦ (λ h. ground arith, λ (at', v, e', f, a, b). ground arith)
    | inr (v, f) ↦
        (λ h. (at, v, e, f, ground arith, ground arith), λ (at', v', e', f', a, b). ground arith)
  ]
]

-- A request is allowed exactly for an active member of the resource's tenant with the capability,
-- on data of no restricted class, financial only for the patron, for a collaborator within a scope
-- of the case, and with a recent second factor where one is required.
pub authorize-allowed_iff :
    (c : ActorContext) (r : AuthorizationRequest) → ((authorize c r).allowed ≡ true) ↔ Permits c r
unfolding authorize require_mfa
authorize-allowed_iff c r =
    let scope = refuse_scope-none_iff c r in
    let factor = lacks_mfa_iff c r in
    (
      λ h. record {
        same_tenant = ground arith;
        member = ground arith;
        capable = ground arith;
        open_class = ground arith;
        financial = ground arith;
        scoped = λ k. scope.0 (ground arith);
        strong = λ m. factor.0 (ground arith);
      },
      λ p. ground arith,
    )
