-- ===== src/Pricing/CostBasis.antt =====
-- `CostBasisInput`, `CostBasisResult`, `calculate_cost_basis` and `_minimum_sales_for_margin` of
-- backend/app/modules/pricing/domain/cost_basis.py. Amounts are integers: the `isinstance` tests
-- of the source hold by their type.
use smart_ao_v.Base.{Bool, not, ◌&&◌, ◌||◌, List, [], ◌∷◌, if◌then◌else◌}
use smart_ao_v.Base.Int.{ℤ, pos, ◌+ℤ◌, ◌-ℤ◌, ◌*ℤ◌, ltb_ℤ, floor_div, sum}
use smart_ao_v.Base.Result.{Result, ok, ◌>>◌, raise_if}

pub data CostBasisError : Type 0 where
  negative_amount rate_out_of_range floor_above_target : CostBasisError

pub record CostBasisInput : Type 0 where
  pub sales_total_minor : ℤ
  pub direct_cost_total_minor : ℤ
  pub overhead_total_minor : ℤ
  pub subcontracting_total_minor : ℤ
  pub contingency_total_minor : ℤ
  pub penalty_reserve_minor : ℤ
  pub retention_reserve_minor : ℤ
  pub guarantee_reserve_minor : ℤ
  pub target_margin_rate_bps : ℤ
  pub floor_margin_rate_bps : ℤ

-- The costs that a cost basis adds up.
abbrev pub costs : CostBasisInput → List ℤ
costs i =
    i.direct_cost_total_minor ∷ i.overhead_total_minor ∷ i.subcontracting_total_minor
    ∷ i.contingency_total_minor ∷ i.penalty_reserve_minor ∷ i.retention_reserve_minor
    ∷ i.guarantee_reserve_minor ∷ []

-- The loop over the monetary fields.
unfoldable pub validate_amounts : List ℤ → Result CostBasisError (Unit {0})
validate_amounts [] = ok tt
validate_amounts (a ∷ rest) = raise_if (ltb_ℤ a (pos 0)) negative_amount >> validate_amounts rest

-- `not 0 <= value < 10_000`
abbrev pub is_bad_rate : ℤ → Bool
is_bad_rate r = ltb_ℤ r (pos 0) || not (ltb_ℤ r (pos 10000))

-- `CostBasisInput.validate`
unfoldable pub validate : CostBasisInput → Result CostBasisError (Unit {0})
unfolding validate_amounts
validate i = do
  validate_amounts (i.sales_total_minor ∷ costs i)
  raise_if (is_bad_rate i.target_margin_rate_bps) rate_out_of_range
  raise_if (is_bad_rate i.floor_margin_rate_bps) rate_out_of_range
  raise_if (ltb_ℤ i.target_margin_rate_bps i.floor_margin_rate_bps) floor_above_target

pub record CostBasisResult : Type 0 where
  pub sales_total_minor : ℤ
  pub direct_cost_total_minor : ℤ
  pub overhead_total_minor : ℤ
  pub subcontracting_total_minor : ℤ
  pub contingency_total_minor : ℤ
  pub penalty_reserve_minor : ℤ
  pub retention_reserve_minor : ℤ
  pub guarantee_reserve_minor : ℤ
  pub total_cost_minor : ℤ
  pub gross_margin_minor : ℤ
  pub gross_margin_rate_bps : ℤ
  pub break_even_sales_minor : ℤ
  pub floor_sales_minor : ℤ
  pub target_sales_minor : ℤ

-- `_minimum_sales_for_margin`
unfoldable pub minimum_sales_for_margin : ℤ → ℤ → ℤ
minimum_sales_for_margin total rate =
    let denominator = pos 10000 -ℤ rate in
    floor_div (total *ℤ pos 10000 +ℤ denominator -ℤ pos 1) denominator

abbrev pub is_zero : ℤ → Bool
is_zero a = not (ltb_ℤ a (pos 0)) && not (ltb_ℤ (pos 0) a)

-- `gross_margin * 10_000 // sales if sales else 0`
unfoldable pub margin_rate_bps : ℤ → ℤ → ℤ
margin_rate_bps margin sales =
    if is_zero sales then pos 0 else floor_div (margin *ℤ pos 10000) sales

unfoldable pub calculate_cost_basis : CostBasisInput → Result CostBasisError CostBasisResult
calculate_cost_basis i = do
  validate i
  let total = sum (costs i)
  let margin = i.sales_total_minor -ℤ total
  ok (record {
    sales_total_minor = i.sales_total_minor;
    direct_cost_total_minor = i.direct_cost_total_minor;
    overhead_total_minor = i.overhead_total_minor;
    subcontracting_total_minor = i.subcontracting_total_minor;
    contingency_total_minor = i.contingency_total_minor;
    penalty_reserve_minor = i.penalty_reserve_minor;
    retention_reserve_minor = i.retention_reserve_minor;
    guarantee_reserve_minor = i.guarantee_reserve_minor;
    total_cost_minor = total;
    gross_margin_minor = margin;
    gross_margin_rate_bps = margin_rate_bps margin i.sales_total_minor;
    break_even_sales_minor = total;
    floor_sales_minor = minimum_sales_for_margin total i.floor_margin_rate_bps;
    target_sales_minor = minimum_sales_for_margin total i.target_margin_rate_bps;
  })
