-- ===== src/Security/Tests.antt =====
-- A collaborator of tenant 7 with a scope on case 30, a limiter of two buckets, and the theorems at
-- them. A second has ten ticks.
use smart_ao_v.Base.{
  ◌+◌, ◌*◌, ◌≤◌, ◌<◌, ◌≡◌, ◌↔◌, refl, List, [], ◌∷◌, some, none, true, false, arith, str_eq, Bool,
}
use smart_ao_v.Base.Result.{ok, err}
use smart_ao_v.Security.Authorization.{
  ActorContext, AuthorizationRequest, authorize, find_scope, collaborateur, active,
  internal_operational, DataClassification,
}
use smart_ao_v.Security.Policy.{Permits, authorize-allowed_iff}
use smart_ao_v.Security.RateLimit.{
  Settings, FailureState, init, check, lookup, record_failure, base_above_maximum,
}
use smart_ao_v.Security.Limits.{Call, checked, failed, run, IsWithin, limiter_run-IsWithin}
use smart_ao_v.Security.Lockout.{failures_of, refused-HasFailed}
use smart_ao_v.Security.Streak.{fail_all, streak-IsRefused}

abbrev is_internal : DataClassification → Bool
is_internal internal_operational = true
is_internal _ = false

abbrev actor : ActorContext
actor = record {
  actor_id = 1;
  identity_id = 2;
  tenant_id = 7;
  membership_id = 3;
  actor_kind = collaborateur;
  membership_state = active;
  capabilities = λ a. str_eq a "case.read";
  assigned_case_ids = λ i. false;
  session_id = none;
  authenticated_at = 0;
  mfa_verified_at = some 1000;
  correlation_id = 9;
  assignment_scopes =
      record {
        case_id = 30;
        allowed_actions = λ a. str_eq a "case.read";
        allowed_classifications = is_internal;
      }
      ∷ [];
}

abbrev request : AuthorizationRequest
request = record {
  action = "case.read";
  resource = record {
    resource_type = "Case";
    resource_id = 30;
    tenant_id = 7;
    classification = internal_operational;
    case_id = some 30;
  };
  mfa_required = true;
  evaluated_at = some 2000;
}

granted : (authorize actor request).allowed ≡ true
unfolding authorize find_scope
granted = refl

stale_factor : (authorize actor (record request { evaluated_at = some 900001001 })).allowed ≡ false
unfolding authorize find_scope
stale_factor = refl

authorize-allowed_iff_example : ((authorize actor request).allowed ≡ true) ↔ Permits actor request
authorize-allowed_iff_example = authorize-allowed_iff actor request

abbrev settings : Settings
settings = record {
  max_failures = 2;
  failure_window_seconds = 9;
  base_lockout_seconds = 3;
  max_lockout_seconds = 9;
  max_buckets = 2;
  ticks = 10;
}

init-ok : init settings ≡ ok []
unfolding init
init-ok = refl

init-refuses : init (record settings { base_lockout_seconds = 10 }) ≡ err base_above_maximum
unfolding init
init-refuses = refl

abbrev calls : List Call
calls = failed 100 "ada" ∷ failed 110 "bob" ∷ failed 120 "ada" ∷ checked 130 "ada" ∷ []

locked : (check settings 149 "ada" (run settings calls [])).0.allowed ≡ false
unfolding check record_failure
locked = refl

expired : (check settings 150 "ada" (run settings calls [])).0.allowed ≡ true
unfolding check record_failure
expired = refl

forgotten : lookup "bob" (run settings (failed 121 "eve" ∷ []) (run settings calls [])) ≡ none
unfolding record_failure check
forgotten = refl

limiter_run-IsWithin_example : IsWithin settings (run settings calls [])
limiter_run-IsWithin_example = limiter_run-IsWithin settings calls init-ok

refused-HasFailed_example :
    (s : FailureState) × (lookup "ada" (run settings calls []) ≡ some s)
    × (2 ≤ s.failures)
    × (s.failures ≤ failures_of "ada" calls)
    × (149 < s.last_failure_at + 9 * 10)
    × (1 ≤ (check settings 149 "ada" (run settings calls [])).0.retry_after_seconds)
refused-HasFailed_example = refused-HasFailed settings calls 149 "ada" init-ok locked

streak-IsRefused_example :
    (check settings 215 "eve"
      (fail_all settings "eve" (100 ∷ 190 ∷ []) (run settings calls []))).0.allowed
    ≡ false
streak-IsRefused_example =
    streak-IsRefused settings 100 (190 ∷ []) "eve" (run settings calls []) 215 (omega arith)
      (omega arith, tt) (omega arith) (omega arith)
