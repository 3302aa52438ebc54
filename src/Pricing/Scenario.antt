-- ===== src/Pricing/Scenario.antt =====
-- `calculate_pricing_scenario_amounts` of backend/app/modules/pricing/domain/scenario.py, and how it
-- agrees with the cost basis that it rests on.
use smart_ao_v.Base.{◌≡◌, ◌↔◌, [], ◌∷◌, arith}
use smart_ao_v.Base.Int.{ℤ, pos, ◌+ℤ◌, ◌-ℤ◌, ◌*ℤ◌, floor_div, sum, IsNonneg, int_laws}
use smart_ao_v.Base.Result.{Result, ok, ◌>>=◌}
use smart_ao_v.Pricing.CostBasis.{
  CostBasisInput, CostBasisResult, CostBasisError, costs, validate, calculate_cost_basis,
  margin_rate_bps,
}
use smart_ao_v.Pricing.Margins.{validate-IsValid, calculate-eq-ok, sum-IsNonneg}

pub record PricingScenarioAmounts : Type 0 where
  pub sales_total_minor : ℤ
  pub total_cost_minor : ℤ
  pub gross_margin_minor : ℤ
  pub gross_margin_rate_bps : ℤ

-- `amount * (10000 + adjustment_bps) // 10000`
unfoldable pub adjust : ℤ → ℤ → ℤ
adjust amount bps = floor_div (amount *ℤ (pos 10000 +ℤ bps)) (pos 10000)

-- A cost basis over sales and direct costs alone; the other fields have their defaults.
abbrev pub direct_only : ℤ → ℤ → CostBasisInput
direct_only sales cost = record {
  sales_total_minor = sales;
  direct_cost_total_minor = cost;
  overhead_total_minor = pos 0;
  subcontracting_total_minor = pos 0;
  contingency_total_minor = pos 0;
  penalty_reserve_minor = pos 0;
  retention_reserve_minor = pos 0;
  guarantee_reserve_minor = pos 0;
  target_margin_rate_bps = pos 0;
  floor_margin_rate_bps = pos 0;
}

unfoldable pub calculate_pricing_scenario_amounts :
    ℤ → ℤ → ℤ → ℤ → ℤ → ℤ → ℤ → Result CostBasisError PricingScenarioAmounts
calculate_pricing_scenario_amounts sales direct overhead subcontracting contingency sales_bps
      cost_bps =
    do
      let sales' = adjust sales sales_bps
      let cost' = adjust (direct +ℤ overhead +ℤ subcontracting +ℤ contingency) cost_bps
      basis ← calculate_cost_basis (direct_only sales' cost')
      ok (record {
        sales_total_minor = sales';
        total_cost_minor = cost';
        gross_margin_minor = basis.gross_margin_minor;
        gross_margin_rate_bps = basis.gross_margin_rate_bps;
      })

direct_only-valid_iff :
    (sales cost : ℤ)
    → (validate (direct_only sales cost) ≡ ok tt) ↔ (IsNonneg sales × IsNonneg cost)
direct_only-valid_iff sales cost =
    let v = validate-IsValid (direct_only sales cost) in
    (λ h. ((v.0 h).sales, (v.0 h).amounts.0), λ h. v.1 (omega arith))

sum-direct_only : (sales cost : ℤ) → sum (costs (direct_only sales cost)) ≡ cost
unfolding sum
sum-direct_only sales cost = omega int_laws

-- A scenario is computed exactly when the adjusted sales and costs are not negative, and then its
-- margin is what the sales leave over the costs.
pub scenario_accepted_iff :
    (sales direct overhead subcontracting contingency sales_bps cost_bps : ℤ)
    → let cost = direct +ℤ overhead +ℤ subcontracting +ℤ contingency in
      let result =
        calculate_pricing_scenario_amounts sales direct overhead subcontracting contingency
          sales_bps cost_bps in
      let s = adjust sales sales_bps in
      let c = adjust cost cost_bps in
      (IsNonneg s × IsNonneg c) ↔ (
        result
        ≡ ok (record {
          sales_total_minor = s;
          total_cost_minor = c;
          gross_margin_minor = s -ℤ c;
          gross_margin_rate_bps = margin_rate_bps (s -ℤ c) s;
        }))
unfolding calculate_pricing_scenario_amounts calculate_cost_basis
scenario_accepted_iff sales direct overhead subcontracting contingency sales_bps cost_bps =
    let s = adjust sales sales_bps in
    let c = adjust (direct +ℤ overhead +ℤ subcontracting +ℤ contingency) cost_bps in
    ground (arith, direct_only-valid_iff s c, sum-direct_only s c)

adjust-zero : (a : ℤ) → adjust a (pos 0) ≡ a
unfolding adjust floor_div ◌+ℤ◌ ◌*ℤ◌
adjust-zero a = ground arith

scenario_neutral :
    (sales direct overhead subcontracting contingency : ℤ)
    → IsNonneg sales
    → IsNonneg (direct +ℤ overhead +ℤ subcontracting +ℤ contingency)
    → let cost = direct +ℤ overhead +ℤ subcontracting +ℤ contingency in
      calculate_pricing_scenario_amounts sales direct overhead subcontracting contingency
        (pos 0)
        (pos 0)
      ≡ ok (record {
        sales_total_minor = sales;
        total_cost_minor = cost;
        gross_margin_minor = sales -ℤ cost;
        gross_margin_rate_bps = margin_rate_bps (sales -ℤ cost) sales;
      })
scenario_neutral sales direct overhead subcontracting contingency s c =
    let cost = direct +ℤ overhead +ℤ subcontracting +ℤ contingency in
    let run =
      (scenario_accepted_iff sales direct overhead subcontracting contingency (pos 0) (pos 0)).0 in
    (rw (adjust-zero sales, adjust-zero cost) at run) (s, c)

unreserved_sum : (a b c d : ℤ) → sum (a ∷ b ∷ c ∷ d ∷ pos 0 ∷ pos 0 ∷ pos 0 ∷ []) ≡ a +ℤ b +ℤ c +ℤ d
unfolding sum
unreserved_sum a b c d = omega int_laws

unreserved_total :
    (i : CostBasisInput)
    → i.penalty_reserve_minor ≡ pos 0
    → i.retention_reserve_minor ≡ pos 0
    → i.guarantee_reserve_minor ≡ pos 0
    → sum (costs i)
      ≡ i.direct_cost_total_minor +ℤ i.overhead_total_minor +ℤ i.subcontracting_total_minor
        +ℤ i.contingency_total_minor
unreserved_total i p r g =
    simp (p, r, g)
      (unreserved_sum i.direct_cost_total_minor i.overhead_total_minor i.subcontracting_total_minor
        i.contingency_total_minor)

-- Where a cost basis without reserves is accepted, the scenario of its amounts with no adjustment
-- is accepted and repeats its sales, cost, margin and margin rate.
pub scenario_matches_cost_basis :
    (i : CostBasisInput) {r : CostBasisResult}
    → calculate_cost_basis i ≡ ok r
    → i.penalty_reserve_minor ≡ pos 0
    → i.retention_reserve_minor ≡ pos 0
    → i.guarantee_reserve_minor ≡ pos 0
    → calculate_pricing_scenario_amounts i.sales_total_minor i.direct_cost_total_minor
        i.overhead_total_minor i.subcontracting_total_minor i.contingency_total_minor
        (pos 0)
        (pos 0)
      ≡ ok (record {
        sales_total_minor = r.sales_total_minor;
        total_cost_minor = r.total_cost_minor;
        gross_margin_minor = r.gross_margin_minor;
        gross_margin_rate_bps = r.gross_margin_rate_bps;
      })
scenario_matches_cost_basis i h p r g =
    let total = unreserved_total i p r g in
    let (v, cost, rate, _, _, _, sales, margin) = calculate-eq-ok i h in
    rw (cost, rate, sales, margin, total)
      (scenario_neutral i.sales_total_minor i.direct_cost_total_minor i.overhead_total_minor
        i.subcontracting_total_minor i.contingency_total_minor v.sales
        (rw total at (sum-IsNonneg (costs i) v.amounts)))
