-- ===== src/Jobs/Pricing/Run/Claims.antt =====
-- Two workers and one job: what a run does of a job that another worker has claimed.
use ebay_pricing_intelligenc.Prelude.{
  ℕ, ◌≡◌, refl, Bool, ◌&&◌, ◌==◌, List, arith, count, count-revise_none, revise-count_none,
  if◌then◌else◌, some, none, ◌+◌, any, Bool-cases, inl, inr, ap,
}
use ebay_pricing_intelligenc.Database.{Prisma, IsDocumented}
use ebay_pricing_intelligenc.Database.Memory.{memory, of_memory}
use ebay_pricing_intelligenc.Schema.{JobStatus, PricingJob, job_is_queued}
use ebay_pricing_intelligenc.Schema.Double.{Double}
use ebay_pricing_intelligenc.Schema.Store.{Store}
use ebay_pricing_intelligenc.Jobs.Retry.{JobRunOptions, lease_expiry}
use ebay_pricing_intelligenc.Jobs.Pricing.{Surroundings}
use ebay_pricing_intelligenc.Jobs.Pricing.Run.{claim, run_claimed, run_pricing_job}

-- The job with this identifier is queued.
abbrev pub awaits : ℕ → PricingJob → Bool
awaits job_id j = j.id == job_id && job_is_queued j.status

-- The change of a claim.
abbrev claimed_by : JobRunOptions → ℕ → PricingJob → PricingJob
claimed_by options now j = record j {
  status = JobStatus.running;
  started_at = some now;
  completed_at = none;
  attempt_count = j.attempt_count + 1;
  lease_owner = some options.lease_owner;
  lease_expires_at = some (lease_expiry options now);
  last_error = none;
}

module _ {W : Type 0} ⦃d : Double W⦄ (around : Surroundings W) (job_id : ℕ) where
  claim-none :
      (options : JobRunOptions) (now : ℕ) (s : Store W)
      → count (awaits job_id) s.jobs ≡ 0
      → claim memory around options job_id now s ≡ (s, 0)
  unfolding claim
  claim-none options now s e = λ i. (
    record s { jobs = revise-count_none (awaits job_id) (claimed_by options now) s.jobs e i },
    e i,
  )

  claim-leaves_none :
      (options : JobRunOptions) (now : ℕ) (s : Store W)
      → count (awaits job_id) (claim memory around options job_id now s).0.jobs ≡ 0
  unfolding claim
  claim-leaves_none options now s =
      count-revise_none (awaits job_id) (awaits job_id) (claimed_by options now) s.jobs
        (λ j h. ground arith) (λ j h. h)

  run-unclaimed :
      (options : JobRunOptions) (active : List ℕ) (clock : ℕ → ℕ) (now : ℕ) (s : Store W)
      → count (awaits job_id) s.jobs ≡ 0
      → run_pricing_job memory around options active job_id clock now s ≡ s
  unfolding run_pricing_job
  run-unclaimed options active clock now s e = elim (Bool-cases (any (λ id. id == job_id) active)) [
    | inl running ↦ rw running refl
    | inr idle ↦ rw idle (
        ap (λ c. if c.1 == 0 then c.0 else run_claimed memory around options job_id clock now c.0)
          (claim-none options now s e))
  ]

  -- Two workers take one job from the queue at the same time: the one whose claim comes second
  -- runs nothing. Its run returns the database exactly as the first one's claim left it, whatever
  -- the two workers' options, clocks and jobs in progress are.
  pub run_pricing_job-claimed_once :
      (db : Prisma)
      → IsDocumented db
      → (first second : JobRunOptions) (active : List ℕ) (clock : ℕ → ℕ) (now later : ℕ)
        (s : Store W)
      → run_pricing_job db around second active job_id clock later
          (claim db around first job_id now s).0
        ≡ (claim db around first job_id now s).0
  run_pricing_job-claimed_once = of_memory _ (λ first second active clock now later s.
      run-unclaimed second active clock later (claim memory around first job_id now s).0
        (claim-leaves_none first now s))
