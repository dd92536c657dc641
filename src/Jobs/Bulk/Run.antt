-- ===== src/Jobs/Bulk/Run.antt =====
-- `runBulkPricingJob`, `startQueuedBulkPricingJobs` and `resumeInterruptedBulkPricingJobs` of
-- apps/api/src/bulk-pricing-service.ts. The timeout of the claim guards a call that never returns,
-- and is left out: a call of the client returns.
pub mod Unpaused
pub mod Pause
use ebay_pricing_intelligenc.Prelude.{
  ℕ, ◌-◌, ◌*◌, String, Bool, true, false, List, [], ◌∷◌, Option, none, some, Result, ok, err, ◌>>=◌,
  ◌==◌, ltb, ◌&&◌, ◌||◌, any, map, if◌then◌else◌,
}
use ebay_pricing_intelligenc.Database.{Prisma}
use ebay_pricing_intelligenc.Schema.{
  JobStatus, ItemStatus, is_queued, is_running, job_is_queued, job_is_running,
}
use ebay_pricing_intelligenc.Schema.Double.{Double}
use ebay_pricing_intelligenc.Pricing.Formula.{
  ParsedFormula, normalize_bulk_pricing_formula, or_else,
}
use ebay_pricing_intelligenc.Pricing.Formula.Plan.{is_zero}
use ebay_pricing_intelligenc.Pricing.Formula.Price.{reparsed_formula}
use ebay_pricing_intelligenc.Jobs.Retry.{JobRunOptions, Attempt, returned, threw, ended, Thrown}
use ebay_pricing_intelligenc.Jobs.Pricing.{Surroundings, message_of, thrown_of}
use ebay_pricing_intelligenc.Jobs.Pricing.Item.{loop_ended}
use ebay_pricing_intelligenc.Jobs.Bulk.{
  BulkJob, BulkItem, BulkStore, Messages, is_rate_limit_error, written, update_job, update_item,
  update_jobs, update_items, refresh_bulk_progress,
}
use ebay_pricing_intelligenc.Jobs.Bulk.Item.{Terms, put_back, process_bulk_item}

abbrev pub job_is_paused : JobStatus → Bool
job_is_paused JobStatus.paused = true
job_is_paused _ = false

-- { id: jobId, status: { in: ["QUEUED", "PAUSED"] } }
abbrev pub is_startable : {W : Type 0} → ℕ → BulkJob W → Bool
is_startable job_id j = j.id == job_id && (job_is_queued j.status || job_is_paused j.status)

abbrev pub started_at : {W : Type 0} → ℕ → BulkJob W → BulkJob W
started_at now j = record j {
  status = JobStatus.running;
  started_at = some now;
  completed_at = none;
  last_error = none;
  updated_at = now;
}

abbrev pub paused_at : {W : Type 0} → ℕ → BulkJob W → BulkJob W
paused_at now j = record j {
  status = JobStatus.paused;
  last_error = some "Paused: eBay API rate limit reached (HTTP 429). Please wait before resuming.";
  updated_at = now;
}

-- The rows of a job in the order of the sheet.
abbrev pub insert_row : {W : Type 0} → BulkItem W → List (BulkItem W) → List (BulkItem W)
insert_row i [] = i ∷ []
insert_row i (x ∷ xs) =
    let rest = insert_row i xs in if ltb x.row_number i.row_number then x ∷ rest else i ∷ x ∷ xs

abbrev pub by_row : {W : Type 0} → List (BulkItem W) → List (BulkItem W)
by_row [] = []
by_row (i ∷ is) = insert_row i (by_row is)

module _ (db : Prisma) {W : Type 0} ⦃d : Double W⦄ (around : Surroundings W) (messages : Messages)
    (options : JobRunOptions) where
  -- The claim, and its count.
  unfoldable pub claim_bulk : ℕ → ℕ → BulkStore W → BulkStore W × ℕ
  claim_bulk job_id now s =
      let claimed = db.update_many (is_startable job_id) (started_at now) s.jobs in
      (record s { jobs = claimed.0 }, claimed.1)

  -- The answer to a rate limit, which ends the loop.
  unfoldable pub pause : ℕ → BulkItem W → ℕ → BulkStore W → Attempt (Unit {0}) × BulkStore W
  pause job_id item now s = written (update_item db item.id put_back s) s (λ s₁.
      written (update_job db job_id (paused_at now) s₁) s₁
        (λ s₂. written (refresh_bulk_progress db job_id now s₂) s₂ (λ s₃. (returned tt, s₃))))

  -- The `catch` block of the loop, which goes on after any other error.
  abbrev pub on_item_error :
      ℕ
      → BulkItem W
      → ℕ
      → Thrown
      → BulkStore W
      → (BulkStore W → Attempt (Unit {0}) × BulkStore W)
      → Attempt (Unit {0}) × BulkStore W
  on_item_error job_id item now error s next =
      if is_rate_limit_error messages error then pause job_id item now s else next s

  abbrev pub after_refresh :
      ℕ
      → BulkItem W
      → ℕ
      → BulkStore W
      → Result (BulkStore W)
      → (BulkStore W → Attempt (Unit {0}) × BulkStore W)
      → Attempt (Unit {0}) × BulkStore W
  after_refresh job_id item now s (ok s') next = next s'
  after_refresh job_id item now s (err e) next = on_item_error job_id item now (thrown_of e) s next

  abbrev pub after_item :
      ℕ
      → BulkItem W
      → ℕ
      → Attempt (Unit {0}) × BulkStore W
      → (BulkStore W → Attempt (Unit {0}) × BulkStore W)
      → Attempt (Unit {0}) × BulkStore W
  after_item job_id item now (returned u, s) next =
      after_refresh job_id item now s (refresh_bulk_progress db job_id now s) next
  after_item job_id item now (threw e, s) next = on_item_error job_id item now e s next
  after_item job_id item now (ended, s) next = on_item_error job_id item now loop_ended s next

  unfoldable pub run_bulk_items :
      ℕ → Terms W → (ℕ → ℕ) → List (BulkItem W) → BulkStore W → Attempt (Unit {0}) × BulkStore W
  run_bulk_items job_id terms clock [] s = (returned tt, s)
  run_bulk_items job_id terms clock (item ∷ items) s =
      after_item job_id item (clock item.id)
        (process_bulk_item db around messages options terms item (clock item.id) s)
        (λ s'. run_bulk_items job_id terms clock items s')

  -- The `catch` block of the run.
  unfoldable pub fail_bulk_job : ℕ → ℕ → Thrown → BulkStore W → BulkStore W
  fail_bulk_job job_id now error s =
      update_jobs db (λ j. j.id == job_id && job_is_running j.status)
        (λ j. record j {
          status = JobStatus.failed;
          completed_at = some now;
          last_error = some (message_of around "Unknown bulk pricing job error" error);
          updated_at = now;
        })
        s

  abbrev pub bulk_settled : ℕ → ℕ → Attempt (Unit {0}) × BulkStore W → BulkStore W
  bulk_settled job_id now (returned u, s) = s
  bulk_settled job_id now (threw e, s) = fail_bulk_job job_id now e s
  bulk_settled job_id now (ended, s) = fail_bulk_job job_id now loop_ended s

  -- The formula of a job, normalized again.
  abbrev pub formula_of : Option (ParsedFormula W) → Result (Option (ParsedFormula W))
  formula_of none = ok none
  formula_of (some formula) = do
    normal ← normalize_bulk_pricing_formula is_zero formula
    ok (some (reparsed_formula normal))

  abbrev pub terms_of : BulkJob W → Option (ParsedFormula W) → Terms W
  terms_of job formula = record {
    marketplace = job.marketplace;
    target_margin_percent = or_else (d.ratio 20 1) job.target_margin_percent;
    buffer_percent = or_else (d.ratio 0 1) job.buffer_percent;
    pricing_strategy = job.pricing_strategy;
    pricing_formula = formula;
  }

  abbrev pub run_with_formula :
      ℕ
      → (ℕ → ℕ)
      → BulkJob W
      → BulkStore W
      → Result (Option (ParsedFormula W))
      → Attempt (Unit {0}) × BulkStore W
  run_with_formula job_id clock job s (err e) = (threw (thrown_of e), s)
  run_with_formula job_id clock job s (ok formula) =
      run_bulk_items job_id (terms_of job formula) clock
        (by_row (db.find_many (λ i. i.bulk_pricing_job_id == job_id && is_queued i.status) s.items))
        s

  abbrev pub run_bulk_found : ℕ → (ℕ → ℕ) → ℕ → Option (BulkJob W) → BulkStore W → BulkStore W
  run_bulk_found job_id clock now none s = s
  run_bulk_found job_id clock now (some job) s =
      bulk_settled job_id now (run_with_formula job_id clock job s (formula_of job.pricing_formula))

  unfoldable pub run_bulk_claimed : ℕ → (ℕ → ℕ) → ℕ → BulkStore W → BulkStore W
  run_bulk_claimed job_id clock now s =
      run_bulk_found job_id clock now (db.find_first (λ j. j.id == job_id) s.jobs) s

  -- `active` is the set of jobs that the process is running; it is as before at the end.
  unfoldable pub run_bulk_pricing_job : List ℕ → ℕ → (ℕ → ℕ) → ℕ → BulkStore W → BulkStore W
  run_bulk_pricing_job active job_id clock now s =
      if any (λ id. id == job_id) active
      then s
      else if (claim_bulk job_id now s).1 == 0
      then (claim_bulk job_id now s).0
      else run_bulk_claimed job_id clock now (claim_bulk job_id now s).0

module _ (db : Prisma) {W : Type 0} where
  -- The identifiers of the jobs that are started; it returns their count.
  abbrev pub start_queued_bulk_pricing_jobs : BulkStore W → List ℕ
  start_queued_bulk_pricing_jobs s =
      map (λ (j : BulkJob W). j.id) (db.find_many (λ j. job_is_queued j.status) s.jobs)

  -- { status: "RUNNING", updatedAt: { lt: staleBefore } }, and the same for one job
  abbrev pub bulk_is_stale : ℕ → BulkJob W → Bool
  bulk_is_stale stale_before j = job_is_running j.status && ltb j.updated_at stale_before

  abbrev pub requeue_rows : ℕ → BulkStore W → BulkStore W
  requeue_rows id s =
      update_items db (λ i. i.bulk_pricing_job_id == id && is_running i.status)
        (λ i. record i {
          status = ItemStatus.queued;
          started_at = none;
          completed_at = none;
          error = none;
        })
        s

  -- The callback of the transaction; its calls do not throw.
  unfoldable pub reclaim_bulk : ℕ → ℕ → ℕ → BulkStore W → Result (Unit {0} × BulkStore W)
  reclaim_bulk stale_before now id s =
      let reclaimed =
        db.update_many (λ j. j.id == id && bulk_is_stale stale_before j)
          (λ j. record j {
            status = JobStatus.queued;
            started_at = none;
            completed_at = none;
            last_error = some "Worker interrupted; bulk pricing job requeued";
            updated_at = now;
          })
          s.jobs in
      if reclaimed.1 == 0
      then ok (tt, record s { jobs = reclaimed.0 })
      else ok (tt, requeue_rows id (record s { jobs = reclaimed.0 }))

  unfoldable pub reclaim_all_bulk : List ℕ → ℕ → ℕ → List (BulkJob W) → BulkStore W → BulkStore W
  reclaim_all_bulk active stale_before now [] s = s
  reclaim_all_bulk active stale_before now (j ∷ js) s =
      reclaim_all_bulk active stale_before now js (
        if any (λ id. id == j.id) active
        then s
        else (db.transaction (reclaim_bulk stale_before now j.id) s).1)

  unfoldable pub resume_interrupted_bulk_pricing_jobs :
      List ℕ → ℕ → BulkStore W → List ℕ × BulkStore W
  resume_interrupted_bulk_pricing_jobs active now s =
      let stale_before = now - 30 * 60_000 in
      let s' =
        reclaim_all_bulk active stale_before now (db.find_many (bulk_is_stale stale_before) s.jobs)
          s in
      (start_queued_bulk_pricing_jobs s', s')
