-- ===== src/Market.antt =====
-- apps/api/src/domain/matching.ts, apps/api/src/domain/analytics.ts and the choice of competitors
-- in apps/api/src/pricing-service.ts. A text whose characters are read is its list of code points.
pub mod Matching
pub mod Analytics
