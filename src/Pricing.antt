-- ===== src/Pricing.antt =====
-- Pricing: apps/api/src/pricing-governance-service.ts and bulk-pricing-formula.ts.
pub mod Governance
pub mod Formula
