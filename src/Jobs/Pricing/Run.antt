-- ===== src/Jobs/Pricing/Run.antt =====
-- `runPricingJob` of apps/api/src/pricing-service.ts. A run of the loop takes the time at which
-- each item is processed from a clock.
pub mod Claims
pub mod Ended
pub mod Settled
use ebay_pricing_intelligenc.Prelude.{
  ℕ, ◌+◌, String, Bool, true, false, List, [], ◌∷◌, ◌&&◌, Option, none, some, ◌==◌, any,
  if◌then◌else◌,
}
use ebay_pricing_intelligenc.Database.{Prisma}
use ebay_pricing_intelligenc.Schema.{
  JobStatus, job_is_queued, is_queued, PricingJob, PricingJobItem,
}
use ebay_pricing_intelligenc.Schema.Double.{Double}
use ebay_pricing_intelligenc.Schema.Store.{Store}
use ebay_pricing_intelligenc.Jobs.Retry.{
  JobRunOptions, lease_expiry, Attempt, returned, threw, ended, Thrown,
}
use ebay_pricing_intelligenc.Jobs.Pricing.{Surroundings, message_of, runs_for, refresh_job_progress}
use ebay_pricing_intelligenc.Jobs.Pricing.Item.{process_pricing_item, loop_ended}

module _ (db : Prisma) {W : Type 0} ⦃d : Double W⦄ (around : Surroundings W)
    (options : JobRunOptions) where
  -- `updateMany({ where: { id, status: "QUEUED" } })`: the claim of the job, and its count.
  unfoldable pub claim : ℕ → ℕ → Store W → Store W × ℕ
  claim job_id now s =
      let claimed =
        db.update_many (λ j. j.id == job_id && job_is_queued j.status)
          (λ j. record j {
            status = JobStatus.running;
            started_at = some now;
            completed_at = none;
            attempt_count = j.attempt_count + 1;
            lease_owner = some options.lease_owner;
            lease_expires_at = some (lease_expiry options now);
            last_error = none;
          })
          s.jobs in
      (record s { jobs = claimed.0 }, claimed.1)

  unfoldable pub renew_lease : ℕ → ℕ → Store W → Store W
  renew_lease job_id now s = record s {
    jobs =
        (db.update_many (runs_for job_id options.lease_owner)
          (λ j. record j { lease_expires_at = some (lease_expiry options now) }) s.jobs).0;
  }

  -- What the loop does after an item, which an exception skips.
  unfoldable pub after_item : ℕ → ℕ → Store W → Store W
  after_item job_id now s =
      refresh_job_progress db job_id options.lease_owner now (renew_lease job_id now s)

  abbrev pub continued :
      Attempt (Unit {0}) × Store W
      → (Store W → Attempt (Unit {0}) × Store W)
      → Attempt (Unit {0}) × Store W
  continued (returned u, s) next = next s
  continued (threw e, s) next = (threw e, s)
  continued (ended, s) next = (ended, s)

  unfoldable pub run_items :
      ℕ → String → (ℕ → ℕ) → List (PricingJobItem W) → Store W → Attempt (Unit {0}) × Store W
  run_items job_id marketplace clock [] s = (returned tt, s)
  run_items job_id marketplace clock (item ∷ items) s =
      continued (process_pricing_item db around options marketplace item (clock item.id) s)
        (λ s'. run_items job_id marketplace clock items (after_item job_id (clock item.id) s'))

  -- The `catch` block of the run.
  unfoldable pub fail_job : ℕ → ℕ → Thrown → Store W → Store W
  fail_job job_id now error s = record s {
    jobs =
        (db.update_many (runs_for job_id options.lease_owner)
          (λ j. record j {
            status = JobStatus.failed;
            completed_at = some now;
            last_error = some (message_of around "Unknown pricing job error" error);
            lease_owner = none;
            lease_expires_at = none;
          })
          s.jobs).0;
  }

  abbrev pub settled : ℕ → ℕ → Attempt (Unit {0}) × Store W → Store W
  settled job_id now (returned u, s) = s
  settled job_id now (threw e, s) = fail_job job_id now e s
  settled job_id now (ended, s) = fail_job job_id now loop_ended s

  -- The items of the job that is found, in the order of creation.
  abbrev pub run_found : ℕ → (ℕ → ℕ) → ℕ → Option PricingJob → Store W → Store W
  run_found job_id clock now none s = s
  run_found job_id clock now (some job) s = settled job_id now (
      run_items job_id job.marketplace clock
        (db.find_many (λ i. i.pricing_job_id == job_id && is_queued i.status) s.items) s)

  unfoldable pub run_claimed : ℕ → (ℕ → ℕ) → ℕ → Store W → Store W
  run_claimed job_id clock now s =
      run_found job_id clock now (db.find_first (λ j. j.id == job_id) s.jobs) s

  -- `active` is the set of jobs that the process is running; it is as before at the end.
  unfoldable pub run_pricing_job : List ℕ → ℕ → (ℕ → ℕ) → ℕ → Store W → Store W
  run_pricing_job active job_id clock now s =
      if any (λ id. id == job_id) active
      then s
      else if (claim job_id now s).1 == 0
      then (claim job_id now s).0
      else run_claimed job_id clock now (claim job_id now s).0
