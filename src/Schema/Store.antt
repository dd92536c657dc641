-- ===== src/Schema/Store.antt =====
-- The tables of the database that the pricing services share, and the writes that every service
-- makes: an audit event (apps/api/src/audit-service.ts) and an outbox event
-- (apps/api/src/outbox-service.ts).
pub mod Writes
use ebay_pricing_intelligenc.Prelude.{
  value_in, err, Failure, ap, ◌≡◌, ℕ, ◌+◌, String, Bool, false, List, Option, none, some, Result,
  ok,
}
pub use ebay_pricing_intelligenc.Database.{p2002, p2025}
use ebay_pricing_intelligenc.Database.{Prisma}
use ebay_pricing_intelligenc.Schema.{
  Part, PricingJob, PricingJobItem, Snapshot, PricingRule, PricingProposal, OutboxEvent,
  OutboxStatus, DeadLetterEntry, AuditEvent, FitmentJob, FitmentJobItem,
}

-- model InventoryItem
pub record InventoryItem (W : Type 0) : Type 0 where
  pub part_id : ℕ
  pub cost : W
  pub currency : String

-- `next_id` stands for `cuid()`, which makes an identifier that no row has.
pub record Store (W : Type 0) : Type 0 where
  pub parts : List Part
  pub jobs : List PricingJob
  pub items : List (PricingJobItem W)
  pub snapshots : List (Snapshot W)
  pub rules : List (ℕ × PricingRule W)
  pub inventory : List (InventoryItem W)
  pub fitment_jobs : List FitmentJob
  pub fitment_items : List FitmentJobItem
  -- model FitmentCandidate, by its item
  pub fitment_candidates : List ℕ
  pub proposals : List (PricingProposal W)
  pub outbox : List OutboxEvent
  pub dead_letters : List DeadLetterEntry
  pub audit : List AuditEvent
  pub next_id : ℕ

abbrev pub of_option {ℓ} : {A : Type ℓ} → Result A → Option A → Result A
of_option missing none = missing
of_option missing (some a) = ok a

pub of_option-eq-ok :
    {A : Type 0} (x : Failure) (o : Option A) (a : A) → of_option (err x) o ≡ ok a → o ≡ some a
of_option-eq-ok x none a e = cc
of_option-eq-ok x (some b) a e = ap some (ap (value_in b) e)

module _ (db : Prisma) {W : Type 0} where
  -- `recordAuditEvent`; the table has no unique index but that of its identifiers.
  unfoldable pub record_audit_event : AuditEvent → Store W → Result (Store W)
  record_audit_event input s = elim (db.create (λ x y. false) input s.audit) [
    | none ↦ p2002
    | some audit ↦ ok (record s { audit = audit })
  ]

  -- `enqueueOutboxEvent`
  unfoldable pub enqueue_outbox_event : ℕ → String → ℕ → ℕ → Store W → Result (Store W)
  enqueue_outbox_event organization_id topic aggregate_id now s =
      let event : OutboxEvent = record {
        id = s.next_id;
        organization_id = organization_id;
        topic = topic;
        aggregate_id = aggregate_id;
        status = OutboxStatus.pending;
        attempt_count = 0;
        next_attempt_at = now;
        lease_owner = none;
        lease_expires_at = none;
        last_error = none;
        published_at = none;
      } in
      elim (db.create (λ x y. false) event s.outbox) [
        | none ↦ p2002
        | some outbox ↦ ok (record s { outbox = outbox; next_id = s.next_id + 1 })
      ]
