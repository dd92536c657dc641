-- ===== src/Delivery.antt =====
-- What the workers deliver later: failed items and outbox events.
pub mod DeadLetter
pub mod Outbox
pub mod Idempotency
