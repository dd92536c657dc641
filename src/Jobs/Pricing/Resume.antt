-- ===== src/Jobs/Pricing/Resume.antt =====
-- `resumeInterruptedPricingJobs` and `startQueuedPricingJobs` of apps/api/src/pricing-service.ts.
pub mod Reclaims
use ebay_pricing_intelligenc.Prelude.{
  ℕ, String, Bool, true, false, ◌&&◌, List, [], ◌∷◌, Option, none, some, Result, ok, ◌==◌, ltb, map,
  any, if◌then◌else◌,
}
use ebay_pricing_intelligenc.Database.{Prisma}
use ebay_pricing_intelligenc.Schema.{
  JobStatus, ItemStatus, PricingJob, PricingJobItem, job_is_running, job_is_queued, is_running,
}
use ebay_pricing_intelligenc.Schema.Store.{Store}

-- OR: [{ leaseExpiresAt: null }, { leaseExpiresAt: { lt: new Date() } }]
abbrev pub is_expired : Option ℕ → ℕ → Bool
is_expired none now = true
is_expired (some t) now = ltb t now

abbrev pub is_stale : ℕ → PricingJob → Bool
is_stale now j = job_is_running j.status && is_expired j.lease_expires_at now

abbrev pub requeued : PricingJob → PricingJob
requeued j = record j {
  status = JobStatus.queued;
  started_at = none;
  lease_owner = none;
  lease_expires_at = none;
  last_error = some "Worker lease expired; job requeued";
}

abbrev pub item_requeued : {W : Type 0} → PricingJobItem W → PricingJobItem W
item_requeued i = record i { status = ItemStatus.queued; started_at = none }

module _ (db : Prisma) {W : Type 0} where
  abbrev pub reclaim_items : ℕ → List PricingJob × ℕ → Store W → Store W
  reclaim_items id (jobs, reclaimed) s =
      if reclaimed == 0 then record s { jobs = jobs } else record s {
        jobs = jobs;
        items =
            (db.update_many (λ i. i.pricing_job_id == id && is_running i.status)
              (λ i. item_requeued i) s.items).0;
      }

  -- The transaction for one job; its callback throws nothing.
  unfoldable pub reclaim : ℕ → ℕ → Store W → Store W
  reclaim id now s =
      (db.transaction
        (λ t. ok (
          tt,
          reclaim_items id
              (db.update_many (λ j. j.id == id && is_stale now j) (λ j. requeued j) t.jobs) t,
        ))
        s).1

  unfoldable pub reclaim_all : (ℕ → ℕ) → List ℕ → Store W → Store W
  reclaim_all clock [] s = s
  reclaim_all clock (id ∷ ids) s = reclaim_all clock ids (reclaim id (clock id) s)

  -- The jobs that are started, in the order of creation; the service returns their number.
  unfoldable pub start_queued_pricing_jobs : Store W → List ℕ
  start_queued_pricing_jobs s = map (λ j. j.id) (db.find_many (λ j. job_is_queued j.status) s.jobs)

  unfoldable pub resume_interrupted_pricing_jobs : (ℕ → ℕ) → ℕ → Store W → List ℕ × Store W
  resume_interrupted_pricing_jobs clock now s =
      let s' = reclaim_all clock (map (λ j. j.id) (db.find_many (λ j. is_stale now j) s.jobs)) s in
      (start_queued_pricing_jobs s', s')
