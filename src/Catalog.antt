-- ===== src/Catalog.antt =====
-- The catalog of parts.
pub mod Sku
