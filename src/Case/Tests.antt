-- ===== src/Case/Tests.antt =====
-- A Case of tenant 7 created on lot "03", then linked, and the theorems at it.
use smart_ao_v.Base.{◌≡◌, refl, ◌↔◌, List, [], ◌∷◌, none, some}
use smart_ao_v.Base.Int.{pos, negsuc}
use smart_ao_v.Base.Result.{ok, err}
use smart_ao_v.Case.{Case, case_created, active, intake, not_assessed, no_dce, unassigned}
use smart_ao_v.Case.Scope.{
  CaseScope, CaseOrigin, AggregateReference, manual, imported, single_lot_scope, multi_lot_scope,
  scope_ambiguous, cross_tenant_reference, value_error, validate_scope, validate_origin,
  make_reference,
}
use smart_ao_v.Case.Creation.{create}
use smart_ao_v.Case.Linking.{register_consultation_link}
use smart_ao_v.Case.Perimeter.{IsExplicit, validate_scope-IsExplicit}
use smart_ao_v.Case.Trace.{IsSound, case_create-IsSound, Call, link, drain, run, case_run-IsSound}
use smart_ao_v.Base.{strip}

abbrev lot_three : CaseScope
lot_three = single_lot_scope " 03 "

abbrev by_hand : CaseOrigin
by_hand = record { kind = manual; rationale = some "walk-in"; origin_reference_id = none }

abbrev consultation : AggregateReference
consultation = record {
  aggregate_id = 40;
  aggregate_type = "CONSULTATION";
  tenant_id = 7;
  aggregate_revision = pos 2;
}

abbrev school : Case
school = record {
  id = 1;
  tenant_id = 7;
  title = "School roof";
  object_description = "Renewal";
  scope = lot_three;
  origin = by_hand;
  consultation_reference = none;
  applicable_dce_version_reference = none;
  lifecycle = active;
  commercial_stage = intake;
  decision_readiness = not_assessed;
  dce_freshness = no_dce;
  responsibility_status = unassigned;
  aggregate_revision = 0;
  pending_events = case_created 1 7 ∷ [];
}

school_made : create 1 7 " School roof" "Renewal " lot_three by_hand none ≡ ok school
unfolding create validate_scope validate_origin strip
school_made = refl

-- An imported Case needs its consultation, also where all else is given.
create_imported :
    create 1 7 "a" "b" lot_three
      (record { kind = imported; rationale = none; origin_reference_id = none })
      none
    ≡ err scope_ambiguous
unfolding create validate_scope validate_origin strip
create_imported = refl

link_foreign :
    (register_consultation_link (record consultation { tenant_id = 8 }) school).0
    ≡ err cross_tenant_reference
unfolding register_consultation_link
link_foreign = refl

reference_checked : make_reference 3 " " 7 (pos 0) ≡ err value_error
unfolding make_reference strip
reference_checked = refl

negative_revision : make_reference 3 "CASE" 7 (negsuc 0) ≡ err value_error
unfolding make_reference strip
negative_revision = refl

validate_scope-IsExplicit_example :
    let s = multi_lot_scope ("1" ∷ " " ∷ "2" ∷ []) "two trades" in
    (validate_scope s ≡ ok tt) ↔ IsExplicit s
validate_scope-IsExplicit_example =
    validate_scope-IsExplicit (multi_lot_scope ("1" ∷ " " ∷ "2" ∷ []) "two trades")

abbrev calls : List Call
calls = link consultation ∷ drain ∷ link consultation ∷ []

case_run-IsSound_example :
    IsSound (run calls school).1
    × ((run calls school).1.tenant_id ≡ 7)
    × ((run calls school).1.scope ≡ lot_three)
    × ((run calls school).1.origin ≡ by_hand)
case_run-IsSound_example =
    case_run-IsSound calls school
      (case_create-IsSound 1 7 " School roof" "Renewal " lot_three by_hand none school_made).0
