-- ===== src/Examples.antt =====
-- Small databases and requests, and what the code makes of them.
mod Data
mod Jobs
mod Pricing
mod Delivery
mod Access
mod Team
mod Edges
mod Catalog
mod Bulk
mod Formula
mod Idempotency
mod Accounts
mod Fitment
