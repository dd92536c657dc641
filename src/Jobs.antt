-- ===== src/Jobs.antt =====
-- The background jobs: apps/api/src/job-runtime.ts, pricing-service.ts and bulk-pricing-service.ts.
pub mod Retry
pub mod Pricing
pub mod Bulk
