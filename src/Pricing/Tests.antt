-- ===== src/Pricing/Tests.antt =====
-- A cost basis of 900 over sales of 1000, in cents, and the theorems at it.
use smart_ao_v.Base.{◌-◌, ◌*◌, ◌≤◌, ◌≡◌, ◌↔◌, refl, arith}
use smart_ao_v.Base.Int.{ℤ, pos, negsuc, ◌+ℤ◌, ◌-ℤ◌, ◌*ℤ◌, ◌≤ℤ◌, floor_div, sum}
use smart_ao_v.Base.Result.{ok}
use smart_ao_v.Pricing.CostBasis.{
  CostBasisInput, CostBasisResult, calculate_cost_basis, validate, minimum_sales_for_margin,
  margin_rate_bps,
}
use smart_ao_v.Pricing.Margins.{minimum_sales_least, price_floors_are_exact}
use smart_ao_v.Pricing.Scenario.{adjust}

abbrev input : CostBasisInput
input = record {
  sales_total_minor = pos 1000;
  direct_cost_total_minor = pos 600;
  overhead_total_minor = pos 150;
  subcontracting_total_minor = pos 100;
  contingency_total_minor = pos 50;
  penalty_reserve_minor = pos 0;
  retention_reserve_minor = pos 0;
  guarantee_reserve_minor = pos 0;
  target_margin_rate_bps = pos 1500;
  floor_margin_rate_bps = pos 700;
}

abbrev result : CostBasisResult
result = record {
  sales_total_minor = pos 1000;
  direct_cost_total_minor = pos 600;
  overhead_total_minor = pos 150;
  subcontracting_total_minor = pos 100;
  contingency_total_minor = pos 50;
  penalty_reserve_minor = pos 0;
  retention_reserve_minor = pos 0;
  guarantee_reserve_minor = pos 0;
  total_cost_minor = pos 900;
  gross_margin_minor = pos 100;
  gross_margin_rate_bps = pos 1000;
  break_even_sales_minor = pos 900;
  floor_sales_minor = pos 968;
  target_sales_minor = pos 1059;
}

calculated : calculate_cost_basis input ≡ ok result
unfolding calculate_cost_basis validate minimum_sales_for_margin margin_rate_bps floor_div sum ◌-ℤ◌
    ◌*ℤ◌ ◌+ℤ◌
calculated = refl

minimum_sales_least_example :
    (minimum_sales_for_margin (pos 900) (pos 700) ≤ℤ pos 968) ↔ (900 * 10000 ≤ 968 * (10000 - 700))
minimum_sales_least_example =
    minimum_sales_least (pos 900) (pos 700) (pos 968) refl refl (omega arith) refl

price_floors_are_exact_example :
    ((pos 700 ≤ℤ pos 1000) ↔ (pos 968 ≤ℤ pos 1000))
    × ((pos 1500 ≤ℤ pos 1000) ↔ (pos 1059 ≤ℤ pos 1000))
price_floors_are_exact_example = price_floors_are_exact input calculated (λ e. ground arith)

abbrev raised : ℤ
raised = adjust (pos 1000) (pos 500)

abbrev lowered : ℤ
lowered = adjust (pos 600 +ℤ pos 150 +ℤ pos 100 +ℤ pos 50) (negsuc 999)
