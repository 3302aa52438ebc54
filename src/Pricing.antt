-- ===== src/Pricing.antt =====
-- Cost bases, price floors and scenarios: backend/app/modules/pricing/domain.
pub mod CostBasis
pub mod Margins
pub mod Scenario
mod Tests
