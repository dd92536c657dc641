-- ===== src/Delivery/DeadLetter/Requeue.antt =====
-- `requeueDeadLetter` of apps/api/src/dead-letter-service.ts. `meanwhile` is what other requests do
-- between the reads and the transaction.
pub mod Back
pub mod Reset
pub mod Laws
use ebay_pricing_intelligenc.Prelude.{
  ℕ, ◌+◌, String, Bool, true, false, not, ◌&&◌, ◌||◌, Option, none, some, List, ◌==◌, Result, ok,
  err, Failure, fail, require, ◌>>=◌, ◌>>◌, if◌then◌else◌,
}
use text.Mathlib.Text.{◌==◌ as str_eq}
use ebay_pricing_intelligenc.Database.{Prisma}
use ebay_pricing_intelligenc.Schema.{
  fitment_is_active, fitment_item_failed, FitmentItemStatus, FitmentJobStatus, JobStatus,
  ItemStatus, PricingJob, PricingJobItem, FitmentJob, FitmentJobItem, is_active, is_failed,
  DeadLetterType, DeadLetterEntry, DeadLetterStatus, requeued, is_open, warning,
}
use ebay_pricing_intelligenc.Schema.Store.{
  Store, p2025, of_option, record_audit_event, enqueue_outbox_event,
}

-- The unique index on the active job of an organization.
abbrev pub same_active_job : PricingJob → PricingJob → Bool
same_active_job a b =
    a.organization_id == b.organization_id && is_active a.status && is_active b.status

abbrev pub same_active_fitment_job : FitmentJob → FitmentJob → Bool
same_active_fitment_job a b =
    a.organization_id == b.organization_id
    && fitment_is_active a.status
    && fitment_is_active b.status

abbrev pub is_p2002 : Failure → Bool
is_p2002 e = str_eq e.message "P2002"

topic_of : DeadLetterEntry → String
topic_of entry = elim entry.kind [
  | DeadLetterType.pricing_item ↦ "pricing.job.requeued"
  | DeadLetterType.fitment_item ↦ "fitment.job.requeued"
]

-- The `catch` block.
abbrev recaught : {W : Type 0} → Result (Unit {0}) × Store W → Result (Unit {0}) × Store W
recaught (ok u, s) = (ok u, s)
recaught (err e, s) = (
  if is_p2002 e then fail 409 "Another job is already active for this organization" else err e,
  s,
)

module _ (db : Prisma) {W : Type 0} (organization_id : ℕ) (actor : Option ℕ) (now : ℕ) where
  -- The writes that end both transactions: the entry, the event and the audit event.
  close_requeue : DeadLetterEntry → String → Store W → Result (Store W)
  unfolding enqueue_outbox_event record_audit_event
  close_requeue entry topic s = do
    dead_letters ←
        db.update (λ x y. false) (λ e. e.id == entry.id)
          (λ e. record e { status = requeued; requeued_at = some now; resolved_at = none })
          s.dead_letters
    s₁ ←
        enqueue_outbox_event db organization_id topic entry.job_id now
          (record s { dead_letters = dead_letters })
    record_audit_event db
        (record {
          organization_id = organization_id;
          actor_user_id = actor;
          action = "admin.dead_letter.requeued";
          resource_id = entry.id;
          severity = warning;
        })
        s₁

  -- The writes that put the item back in the queue of its job.
  reset_pricing_item : DeadLetterEntry → PricingJobItem W → Store W → Result (Store W)
  reset_pricing_item entry item s = do
    items ←
        db.update (λ x y. false) (λ i. i.id == item.id)
          (λ i. record i {
            status = ItemStatus.queued;
            error = none;
            started_at = none;
            completed_at = none;
          })
          s.items
    jobs ←
        db.update same_active_job (λ j. j.id == entry.job_id)
          (λ j. record j {
            status = JobStatus.queued;
            completed_at = none;
            lease_owner = none;
            lease_expires_at = none;
            last_error = none;
          })
          s.jobs
    ok (record s {
      snapshots = (db.delete_many (λ row. row.pricing_job_item_id == item.id) s.snapshots).0;
      items = items;
      jobs = jobs;
    })

  reset_fitment_item : DeadLetterEntry → FitmentJobItem → Store W → Result (Store W)
  reset_fitment_item entry item s = do
    items ←
        db.update (λ x y. false) (λ i. i.id == item.id)
          (λ i. record i {
            status = FitmentItemStatus.queued;
            error = none;
            started_at = none;
            completed_at = none;
          })
          s.fitment_items
    jobs ←
        db.update same_active_fitment_job (λ j. j.id == entry.job_id)
          (λ j. record j {
            status = FitmentJobStatus.queued;
            completed_at = none;
            lease_owner = none;
            lease_expires_at = none;
            last_error = none;
          })
          s.fitment_jobs
    ok (record s {
      fitment_candidates = (db.delete_many (λ row. row == item.id) s.fitment_candidates).0;
      fitment_items = items;
      fitment_jobs = jobs;
    })

  -- The checks of the two branches, which read before the transaction; the foreign key of an item
  -- makes sure that its job is there.
  pricing_item_ready : DeadLetterEntry → Store W → Result (PricingJobItem W)
  pricing_item_ready entry s = do
    item ← of_option (fail 404 "Pricing job item no longer exists") (
        db.find_first
          (λ i.
            i.id == entry.item_id
            && i.organization_id == organization_id
            && i.pricing_job_id == entry.job_id)
          s.items)
    job ← of_option p2025 (db.find_first (λ j. j.id == item.pricing_job_id) s.jobs)
    require (is_failed item.status && not (is_active job.status)) 409
        "Pricing job item is not ready to be requeued"
    ok item

  fitment_item_ready : DeadLetterEntry → Store W → Result FitmentJobItem
  fitment_item_ready entry s = do
    item ← of_option (fail 404 "Fitment job item no longer exists") (
        db.find_first
          (λ i.
            i.id == entry.item_id
            && i.organization_id == organization_id
            && i.fitment_job_id == entry.job_id)
          s.fitment_items)
    job ← of_option p2025 (db.find_first (λ j. j.id == item.fitment_job_id) s.fitment_jobs)
    require (fitment_item_failed item.status && not (fitment_is_active job.status)) 409
        "Fitment job item is not ready to be requeued"
    ok item

  -- The branch of the entry's kind: its check of the tables that it reads, and the reset that its
  -- transaction starts with.
  pub put_back : DeadLetterEntry → Store W → Result (Store W → Result (Store W))
  unfolding pricing_item_ready fitment_item_ready reset_pricing_item reset_fitment_item
  put_back entry s = elim entry.kind [
    | DeadLetterType.pricing_item ↦ do
      item ← pricing_item_ready entry s
      ok (reset_pricing_item entry item)
    | DeadLetterType.fitment_item ↦ do
      item ← fitment_item_ready entry s
      ok (reset_fitment_item entry item)
  ]

  requeue_tx :
      DeadLetterEntry → (Store W → Result (Store W)) → Store W → Result (Unit {0} × Store W)
  unfolding close_requeue topic_of
  requeue_tx entry reset s = do
    s₁ ← reset s
    s₂ ← close_requeue entry (topic_of entry) s₁
    ok (tt, s₂)

  requeue_checked :
      (Store W → Store W)
      → DeadLetterEntry
      → Store W
      → Result (Store W → Result (Store W))
      → Result (Unit {0}) × Store W
  unfolding requeue_tx
  requeue_checked meanwhile entry s (err e) = recaught (err e, s)
  requeue_checked meanwhile entry s (ok reset) =
      recaught (db.transaction (requeue_tx entry reset) (meanwhile s))

  unfoldable pub requeue_dead_letter :
      (Store W → Store W) → ℕ → Store W → Result (Unit {0}) × Store W
  unfolding put_back requeue_checked
  requeue_dead_letter meanwhile entry_id s =
      elim (db.find_first (λ e. e.id == entry_id && e.organization_id == organization_id)
        s.dead_letters) [
          | none ↦ (fail 404 "Dead-letter entry not found", s)
          | some entry ↦
              if not (is_open entry.status)
              then (fail 409 "Only open dead-letter entries can be requeued", s)
              else requeue_checked meanwhile entry s (put_back entry s)
        ]
