-- ===== src/Case/Creation.antt =====
-- `Case.create` and the checks that it makes.
use smart_ao_v.Base.{
  ℕ, String, Bool, true, false, not, ◌&&◌, Option, none, some, [], ◌∷◌, ◌==◌, str_eq, is_blank,
  strip, is_some,
}
use smart_ao_v.Base.Result.{Result, ok, ◌>>◌, raise_if}
use smart_ao_v.Case.{Case, case_created, active, intake, not_assessed, no_dce, unassigned}
use smart_ao_v.Case.Scope.{
  CaseError, cross_tenant_reference, value_error, scope_ambiguous, AggregateReference, CaseScope,
  CaseOrigin, CaseOriginKind, manual, opportunity, imported, customer_request, validate_scope,
  validate_origin,
}

-- `_validate_optional_reference_tenant`
unfoldable pub validate_reference_tenant :
    ℕ → Option AggregateReference → Result CaseError (Unit {0})
validate_reference_tenant tenant none = ok tt
validate_reference_tenant tenant (some r) =
    raise_if (not (r.tenant_id == tenant)) cross_tenant_reference

-- `consultation_reference and consultation_reference.aggregate_type != "CONSULTATION"`
abbrev pub is_wrong_type : Option AggregateReference → Bool
is_wrong_type none = false
is_wrong_type (some r) = not (str_eq r.aggregate_type "CONSULTATION")

-- `origin.kind not in {MANUAL, OPPORTUNITY}`
abbrev pub needs_consultation : CaseOriginKind → Bool
needs_consultation manual = false
needs_consultation opportunity = false
needs_consultation imported = true
needs_consultation customer_request = true

unfoldable pub create :
    ℕ
    → ℕ
    → String
    → String
    → CaseScope
    → CaseOrigin
    → Option AggregateReference
    → Result CaseError Case
unfolding validate_reference_tenant
create id tenant title description scope origin reference = do
  raise_if (is_blank title) value_error
  raise_if (is_blank description) value_error
  validate_scope scope
  validate_origin origin
  validate_reference_tenant tenant reference
  raise_if (is_wrong_type reference) value_error
  raise_if (needs_consultation origin.kind && not (is_some reference)) scope_ambiguous
  ok (record {
    id = id;
    tenant_id = tenant;
    title = strip title;
    object_description = strip description;
    scope = scope;
    origin = origin;
    consultation_reference = reference;
    applicable_dce_version_reference = none;
    lifecycle = active;
    commercial_stage = intake;
    decision_readiness = not_assessed;
    dce_freshness = no_dce;
    responsibility_status = unassigned;
    aggregate_revision = 0;
    pending_events = case_created id tenant ∷ [];
  })
