-- ===== src/Pricing/Margins.antt =====
-- What the floor and the target price of a cost basis mean:
-- backend/app/modules/pricing/domain/cost_basis.py.
use smart_ao_v.Base.{
  ℕ, suc, ◌+◌, ◌-◌, ◌*◌, ◌/◌, ◌≤◌, ◌<◌, ◌≡◌, ◌≢◌, ◌↔◌, refl, ap, List, [], ◌∷◌, arith,
}
use native.Mathlib.Nat.{le-div_iff_mul-le, div-lt_iff_lt-mul, mul-le-mul_left}
use native.Mathlib.Decide.{dec_lt}
use smart_ao_v.Base.Int.{
  ℤ, pos, negsuc, pos_part, ◌+ℤ◌, ◌-ℤ◌, ◌*ℤ◌, ◌≤ℤ◌, floor_div, sum, IsNonneg, +ℤ-IsNonneg,
  pos-of_nonneg,
}
use smart_ao_v.Base.Result.{ok}
use smart_ao_v.Pricing.CostBasis.{
  CostBasisInput, CostBasisResult, costs, validate_amounts, validate, minimum_sales_for_margin,
  margin_rate_bps, calculate_cost_basis,
}

-- Amounts that are not negative.
abbrev pub AllNonneg : List ℤ → Type 0
AllNonneg [] = Unit
AllNonneg (a ∷ rest) = IsNonneg a × AllNonneg rest

-- The inputs that a cost basis accepts.
pub record IsValid (i : CostBasisInput) : Type 0 where
  pub sales : IsNonneg i.sales_total_minor
  pub amounts : AllNonneg (costs i)
  pub target : IsNonneg i.target_margin_rate_bps × (pos_part i.target_margin_rate_bps < 10000)
  pub floor : IsNonneg i.floor_margin_rate_bps × (pos_part i.floor_margin_rate_bps < 10000)
  pub ordered : pos_part i.floor_margin_rate_bps ≤ pos_part i.target_margin_rate_bps

validate_amounts_iff : (rest : List ℤ) → (validate_amounts rest ≡ ok tt) ↔ AllNonneg rest
unfolding validate_amounts
validate_amounts_iff [] = ground arith
validate_amounts_iff (a ∷ rest) = ground (arith, validate_amounts_iff rest)

-- Validation accepts exactly the valid inputs.
pub validate-IsValid : (i : CostBasisInput) → (validate i ≡ ok tt) ↔ IsValid i
unfolding validate
validate-IsValid i = ground arith

pub sum-IsNonneg : (rest : List ℤ) → AllNonneg rest → IsNonneg (sum rest)
unfolding sum
sum-IsNonneg [] h = refl
sum-IsNonneg (a ∷ rest) h = (+ℤ-IsNonneg a (sum rest) h.0 (sum-IsNonneg rest h.1)).0

-- The price for a margin, over natural numbers.
minimum_sales-of_pos :
    (c m : ℕ)
    → m < 10000
    → minimum_sales_for_margin (pos c) (pos m) ≡ pos ((c * 10000 + (10000 - m) - 1) / (10000 - m))
unfolding minimum_sales_for_margin floor_div ◌+ℤ◌ ◌-ℤ◌ ◌*ℤ◌
minimum_sales-of_pos c m h = ground arith

-- Rounding up: the least `s` with `x ≤ s * d`.
ceil-le_iff : (x d s : ℕ) → 0 < d → ((x + d - 1) / d ≤ s) ↔ (x ≤ s * d)
ceil-le_iff x d s p =
    let half : ((x + d - 1) / d < suc s) ↔ (x + d - 1 < suc s * d) = div-lt_iff_lt-mul p in
    (λ h. omega (arith, half.0 (omega arith)), λ h. omega (arith, half.1 (omega arith)))

-- For a rate below 100 % and amounts that are not negative, sales reach the price for a margin
-- exactly when they leave that margin over the cost: the price is the least such sales.
pub minimum_sales_least :
    (total rate sales : ℤ)
    → IsNonneg total
    → IsNonneg rate
    → pos_part rate < 10000
    → IsNonneg sales
    → (minimum_sales_for_margin total rate ≤ℤ sales)
      ↔ (pos_part total * 10000 ≤ pos_part sales * (10000 - pos_part rate))
minimum_sales_least total rate sales t r b s =
    let c = pos_part total in
    let m = pos_part rate in
    rw
      (
        pos-of_nonneg total t,
        pos-of_nonneg rate r,
        pos-of_nonneg sales s,
        minimum_sales-of_pos c m b,
      )
      (let core = ceil-le_iff (c * 10000) (10000 - m) (pos_part sales) (omega arith) in
        (λ h. core.0 (omega arith), λ h. omega (arith, core.1 h)))

-- A rate over sales is reached when the cost leaves that share of them.
rate-le_iff :
    (s c m d : ℕ) → 0 < s → m + d ≡ 10000 → c ≤ s → (m ≤ (s - c) * 10000 / s) ↔ (c * 10000 ≤ s * d)
rate-le_iff s c m d p e h =
    let bound : (m ≤ (s - c) * 10000 / s) ↔ (m * s ≤ (s - c) * 10000) = le-div_iff_mul-le p in
    let split : s * m + s * d ≡ s * 10000 = omega (arith, ap (λ t. s * t) e) in
    (λ q. omega (arith, bound.0 q), λ q. bound.1 (omega arith))

margin_rate-of_profit :
    (s c : ℕ) → 0 < s → c ≤ s → margin_rate_bps (pos s -ℤ pos c) (pos s) ≡ pos ((s - c) * 10000 / s)
unfolding margin_rate_bps floor_div ◌-ℤ◌ ◌*ℤ◌
margin_rate-of_profit s c p h = ground arith

margin_rate-of_loss :
    (s c : ℕ)
    → 0 < s
    → s < c
    → margin_rate_bps (pos s -ℤ pos c) (pos s) ≡ negsuc (((c - s) * 10000 - 1) / s)
unfolding margin_rate_bps floor_div ◌-ℤ◌ ◌*ℤ◌
margin_rate-of_loss s c p h = ground arith

share_le : (m : ℕ) → 10000 - m ≤ 10000
share_le m = omega arith

positive : (a : ℤ) → IsNonneg a → a ≢ pos 0 → 0 < pos_part a
positive a h n = ground arith

margin_rate-of_pos :
    (s c m : ℕ)
    → 0 < s
    → m < 10000
    → (pos m ≤ℤ margin_rate_bps (pos s -ℤ pos c) (pos s)) ↔ (c * 10000 ≤ s * (10000 - m))
margin_rate-of_pos s c m p h = elim (dec_lt s c) [
  | yes loss ↦
      rw (margin_rate-of_loss s c p loss)
        (λ q. absurd (omega arith), λ q. absurd (omega (arith, mul-le-mul_left s (share_le m))))
  | no profit ↦ rw (margin_rate-of_profit s c p (omega arith)) (
      let core = rate-le_iff s c m (10000 - m) p (omega arith) (omega arith) in
      (λ q. core.0 (omega arith), λ q. omega (arith, core.1 q)))
]

margin_rate-le_iff :
    (total rate sales : ℤ)
    → IsNonneg total
    → IsNonneg rate
    → pos_part rate < 10000
    → IsNonneg sales
    → 0 < pos_part sales
    → (rate ≤ℤ margin_rate_bps (sales -ℤ total) sales)
      ↔ (pos_part total * 10000 ≤ pos_part sales * (10000 - pos_part rate))
margin_rate-le_iff (pos c) (pos m) (pos s) t r b n p = margin_rate-of_pos s c m p b
margin_rate-le_iff _ _ _ t r b n p = absurd (omega arith)

-- What the inputs give, once they are valid.
pub calculate-eq-ok :
    (i : CostBasisInput) {r : CostBasisResult}
    → calculate_cost_basis i ≡ ok r
    → IsValid i
      × (r.total_cost_minor ≡ sum (costs i))
      × (r.gross_margin_rate_bps
          ≡ margin_rate_bps (i.sales_total_minor -ℤ sum (costs i)) i.sales_total_minor)
      × (r.floor_sales_minor ≡ minimum_sales_for_margin (sum (costs i)) i.floor_margin_rate_bps)
      × (r.target_sales_minor ≡ minimum_sales_for_margin (sum (costs i)) i.target_margin_rate_bps)
      × (r.break_even_sales_minor ≡ sum (costs i))
      × (r.sales_total_minor ≡ i.sales_total_minor)
      × (r.gross_margin_minor ≡ i.sales_total_minor -ℤ sum (costs i))
unfolding calculate_cost_basis
calculate-eq-ok i h = ground (arith, validate-IsValid i)

-- The computed margin reaches a rate exactly when the sales reach the price computed for it.
margin-reached_iff :
    (total rate sales : ℤ)
    → IsNonneg total
    → IsNonneg rate × (pos_part rate < 10000)
    → IsNonneg sales
    → 0 < pos_part sales
    → (rate ≤ℤ margin_rate_bps (sales -ℤ total) sales)
      ↔ (minimum_sales_for_margin total rate ≤ℤ sales)
margin-reached_iff total rate sales t (r, b) s p =
    let price = minimum_sales_least total rate sales t r b s in
    let margin = margin_rate-le_iff total rate sales t r b s p in
    (λ q. price.1 (margin.0 q), λ q. margin.1 (price.0 q))

-- In an accepted cost basis with some sales, the gross margin rate reaches the floor rate exactly
-- when the sales reach the floor price, and the target rate exactly when they reach the target
-- price.
pub price_floors_are_exact :
    (i : CostBasisInput) {r : CostBasisResult}
    → calculate_cost_basis i ≡ ok r
    → i.sales_total_minor ≢ pos 0
    → ((i.floor_margin_rate_bps ≤ℤ r.gross_margin_rate_bps)
        ↔ (r.floor_sales_minor ≤ℤ i.sales_total_minor))
      × ((i.target_margin_rate_bps ≤ℤ r.gross_margin_rate_bps)
          ↔ (r.target_sales_minor ≤ℤ i.sales_total_minor))
price_floors_are_exact i h n =
    let (v, _, rate, floor, target, _, _, _) = calculate-eq-ok i h in
    let total = sum-IsNonneg (costs i) v.amounts in
    let sold : 0 < pos_part i.sales_total_minor = positive i.sales_total_minor v.sales n in
    rw (rate, floor, target)
      (
        margin-reached_iff (sum (costs i)) i.floor_margin_rate_bps i.sales_total_minor total v.floor
            v.sales sold,
        margin-reached_iff (sum (costs i)) i.target_margin_rate_bps i.sales_total_minor total
            v.target v.sales sold,
      )
