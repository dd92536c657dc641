-- ===== src/Examples/Jobs.antt =====
-- A job is run, claimed twice, and taken from a worker that died.
use ebay_pricing_intelligenc.Prelude.{
  ℕ, ◌∷◌, ◌+◌, ◌≡◌, refl, inr, true, none, [], arith, map, select, revise, Pairwise,
}
use ebay_pricing_intelligenc.Database.Memory.{memory, memory-IsDocumented}
use ebay_pricing_intelligenc.Schema.{PricingJob, job_is_queued}
use ebay_pricing_intelligenc.Schema.Double.{fixed_double}
use ebay_pricing_intelligenc.Jobs.Retry.{Thrown, Attempt, returned, threw, run_with_retry}
use ebay_pricing_intelligenc.Jobs.Retry.Attempts.{
  IsSound, IsReal, IsCounter, IsClock, Spent, WaitedAtMost, run_with_retry_calls,
  run_with_retry_waits,
}
use ebay_pricing_intelligenc.Jobs.Pricing.{match_part}
use ebay_pricing_intelligenc.Jobs.Pricing.Create.{CreatePricingJobInput, create_pricing_job}
use ebay_pricing_intelligenc.Jobs.Pricing.Create.Laws.{Outcome, create_pricing_job-Outcome}
use ebay_pricing_intelligenc.Jobs.Pricing.Run.{claim, run_pricing_job}
use ebay_pricing_intelligenc.Jobs.Pricing.Run.Claims.{run_pricing_job-claimed_once}
use ebay_pricing_intelligenc.Jobs.Pricing.Run.Settled.{IsLeft, run_pricing_job-IsLeft}
use ebay_pricing_intelligenc.Jobs.Pricing.Resume.{requeued, resume_interrupted_pricing_jobs}
use ebay_pricing_intelligenc.Jobs.Pricing.Resume.Reclaims.{
  is_taken, stale_ids, IsRecovery, resume_interrupted_pricing_jobs-reclaims,
}
use ebay_pricing_intelligenc.Examples.Data.{one_part, queued_job, stale_job, worker, around}

abbrev request : CreatePricingJobInput
request = record {
  organization_id = 9;
  created_by_id = 5;
  part_ids = 3 ∷ 3 ∷ [];
  marketplace = "EBAY_US";
  condition_mode = match_part;
}

create_pricing_job-Outcome_example :
    Outcome around request one_part one_part
      (create_pricing_job memory around (λ s. s) request 20 one_part)
create_pricing_job-Outcome_example =
    create_pricing_job-Outcome around request memory memory-IsDocumented (λ s. s) 20 one_part refl

run_pricing_job-IsLeft_example :
    IsLeft around worker 1 memory
      (λ id. 20 + id)
      20
      queued_job
      (run_pricing_job memory around worker [] 1 (λ id. 20 + id) 20 queued_job)
run_pricing_job-IsLeft_example =
    run_pricing_job-IsLeft around worker 1 memory memory-IsDocumented [] (λ id. 20 + id) 20
      queued_job refl (omega arith) (λ own. inr refl, tt) (omega arith)

run_pricing_job-claimed_once_example :
    run_pricing_job memory around
      (record worker { lease_owner = 8 })
      []
      1
      (λ id. 20)
      30
      (claim memory around worker 1 20 queued_job).0
    ≡ (claim memory around worker 1 20 queued_job).0
run_pricing_job-claimed_once_example =
    run_pricing_job-claimed_once around 1 memory memory-IsDocumented worker
      (record worker { lease_owner = 8 }) [] (λ id. 20) 20 30 queued_job

resume_interrupted_pricing_jobs-reclaims_example :
    ((resume_interrupted_pricing_jobs memory (λ id. 90) 90 stale_job).1.jobs
      ≡ revise (is_taken (λ id. 90) (stale_ids 90 stale_job)) (λ j. requeued j) stale_job.jobs)
    × Pairwise IsRecovery stale_job.items
        (resume_interrupted_pricing_jobs memory (λ id. 90) 90 stale_job).1.items
    × ((resume_interrupted_pricing_jobs memory (λ id. 90) 90 stale_job).0
        ≡ map
            (λ (j : PricingJob). j.id)
            (select
              (λ j. job_is_queued j.status)
              (resume_interrupted_pricing_jobs memory (λ id. 90) 90 stale_job).1.jobs))
resume_interrupted_pricing_jobs-reclaims_example =
    resume_interrupted_pricing_jobs-reclaims memory memory-IsDocumented (λ id. 90) 90 stale_job

-- An operation that always times out, over the number of its calls and the time waited.
abbrev timeout : Thrown
timeout = record { is_type_error = true; name = none; status = none; message = none }

abbrev refuse : ℕ → ℕ × ℕ → Attempt ℕ × (ℕ × ℕ)
refuse n s = (threw timeout, (s.0 + 1, s.1))

abbrev report : Thrown → ℕ → ℕ → ℕ × ℕ → Attempt (Unit {0}) × (ℕ × ℕ)
report e n d s = (returned tt, (s.0, s.1 + d))

refuse-IsSound : IsSound report refuse
refuse-IsSound = record { silent = λ e n d s. refl; real = λ n s e. cc }

refuse-IsReal : IsReal report refuse
refuse-IsReal = record { told = λ e n d s k. cc; real = λ n s e. cc }

refuse-IsCounter : IsCounter report refuse (λ s. s.0)
refuse-IsCounter = record { counts = λ n s. refl; kept = λ e n d s. refl }

refuse-IsClock : IsClock report refuse (λ s. s.1)
refuse-IsClock = record { idle = λ n s. refl; adds = λ e n d s. refl }

run_with_retry_calls_example :
    Spent worker report refuse refuse-IsReal
      (λ s. s.0)
      refuse-IsCounter
      (run_with_retry worker report refuse (0, 0))
run_with_retry_calls_example =
    run_with_retry_calls worker report refuse refuse-IsReal (λ s. s.0) refuse-IsCounter (0, 0)
      (omega arith) refl

run_with_retry_waits_example :
    WaitedAtMost worker report refuse refuse-IsSound
      (λ s. s.1)
      refuse-IsClock
      (run_with_retry worker report refuse (0, 0))
run_with_retry_waits_example =
    run_with_retry_waits worker report refuse refuse-IsSound (λ s. s.1) refuse-IsClock (0, 0)
      (omega arith) refl
