-- ===== src/Decision/Conditions.antt =====
-- The conditions of a conditional Go: `DecisionCondition` and the methods of `Decision` that read
-- and satisfy them, of backend/app/modules/decision/domain/decision.py. Conditions are values: the
-- objects that a caller may still hold after an approval are not followed.
use smart_ao_v.Base.{
  ℕ, String, Bool, true, false, not, ◌&&◌, Option, none, some, List, [], ◌∷◌, ◌==◌, any, all,
  is_empty, is_blank, is_some, strip, strip_or_none, if◌then◌else◌,
}
use smart_ao_v.Base.Result.{Result, ok, err, ◌>>=◌, ◌>>◌, raise_if}
use smart_ao_v.Decision.{
  DecisionError, context_incomplete, lifecycle_forbids, condition_owner_required,
  condition_consequence_required, DecisionCondition, DecisionConditionStatus, open_condition,
  satisfied, failed, waived, is_open,
}

-- `DecisionCondition.proposed`
unfoldable pub proposed :
    ℕ → String → Option String → Option ℕ → Option String → Option String → DecisionCondition
proposed id label owner due_at reason consequence = record {
  id = id;
  label = strip label;
  owner = strip_or_none owner;
  due_at = due_at;
  due_date_absence_reason = strip_or_none reason;
  failure_consequence = strip_or_none consequence;
  status = open_condition;
  evidence_reference = none;
  observed_at = none;
}

-- `not value`, for a text that may be missing.
abbrev pub is_absent : Option String → Bool
is_absent none = true
is_absent (some s) = is_empty s

unfoldable pub validate_for_approval : DecisionCondition → Result DecisionError (Unit {0})
validate_for_approval c = do
  raise_if (is_empty c.label) context_incomplete
  raise_if (is_absent c.owner) condition_owner_required
  raise_if (not (is_some c.due_at) && is_absent c.due_date_absence_reason)
      condition_consequence_required
  raise_if (is_absent c.failure_consequence) condition_consequence_required

-- `for condition in conditions: condition.validate_for_approval()`
unfoldable pub validate_all : List DecisionCondition → Result DecisionError (Unit {0})
unfolding validate_for_approval
validate_all [] = ok tt
validate_all (c ∷ cs) = validate_for_approval c >> validate_all cs

unfoldable pub mark_satisfied :
    String → ℕ → DecisionCondition → Result DecisionError DecisionCondition
mark_satisfied evidence observed c = do
  raise_if (not (is_open c.status)) lifecycle_forbids
  raise_if (is_blank evidence) context_incomplete
  ok (record c {
    status = satisfied;
    evidence_reference = some (strip evidence);
    observed_at = some observed;
  })

-- `_find_open_condition`, then `mark_satisfied` on what it finds: the first condition with the
-- identifier is replaced in the list.
unfoldable pub satisfy_first :
    ℕ → String → ℕ → List DecisionCondition → Result DecisionError (List DecisionCondition)
unfolding mark_satisfied
satisfy_first id evidence observed [] = err lifecycle_forbids
satisfy_first id evidence observed (c ∷ cs) =
    let marked = mark_satisfied evidence observed c >>= (λ c'. ok (c' ∷ cs)) in
    let later = satisfy_first id evidence observed cs >>= (λ cs'. ok (c ∷ cs')) in
    if c.id == id then marked else later

abbrev pub is_failed : DecisionConditionStatus → Bool
is_failed failed = true
is_failed _ = false

-- `status in {SATISFIED, WAIVED}`
abbrev pub is_settled : DecisionConditionStatus → Bool
is_settled satisfied = true
is_settled waived = true
is_settled _ = false

unfoldable pub derive_condition_status : List DecisionCondition → DecisionConditionStatus
derive_condition_status cs =
    if any (λ c. is_failed c.status) cs
    then failed
    else if all (λ c. is_settled c.status) cs
    then satisfied
    else open_condition
