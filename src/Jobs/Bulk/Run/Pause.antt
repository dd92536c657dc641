-- ===== src/Jobs/Bulk/Run/Pause.antt =====
-- What becomes of the status PAUSED that a run writes when eBay limits its rate.
use ebay_pricing_intelligenc.Prelude.{
  ℕ, ◌≡◌, refl, true, false, List, [], ◌∷◌, Option, none, some, Result, ok, err, ◌==◌, ◌&&◌, arith,
  any, All-revise, All_of_every, Bool-cases, inl, inr,
}
use ebay_pricing_intelligenc.Database.{Prisma, IsDocumented}
use ebay_pricing_intelligenc.Database.Memory.{memory, of_memory}
use ebay_pricing_intelligenc.Schema.{job_is_running}
use ebay_pricing_intelligenc.Schema.Double.{Double}
use ebay_pricing_intelligenc.Pricing.Formula.{ParsedFormula}
use ebay_pricing_intelligenc.Jobs.Retry.{JobRunOptions, Attempt, returned, threw, ended, Thrown}
use ebay_pricing_intelligenc.Jobs.Pricing.{Surroundings, thrown_of}
use ebay_pricing_intelligenc.Jobs.Pricing.Item.{loop_ended}
use ebay_pricing_intelligenc.Jobs.Bulk.{
  BulkJob, BulkItem, BulkStore, Messages, is_rate_limit_error, update_job, update_item,
  refresh_bulk_progress,
}
use ebay_pricing_intelligenc.Jobs.Bulk.Item.{Terms, put_back}
use ebay_pricing_intelligenc.Jobs.Bulk.Run.{
  job_is_paused, is_startable, started_at, paused_at, claim_bulk, pause, on_item_error,
  after_refresh, after_item, run_bulk_items, fail_bulk_job, bulk_settled, formula_of,
  run_with_formula, run_bulk_found, run_bulk_claimed, run_bulk_pricing_job,
}
use ebay_pricing_intelligenc.Jobs.Bulk.Run.Unpaused.{
  written-post, IsUnpaused, IsUnpaused-jobs, update_item-jobs, refresh-IsUnpaused,
  after_pause-IsUnpaused, process-IsUnpaused,
}

module _ {W : Type 0} ⦃d : Double W⦄ (around : Surroundings W) (messages : Messages)
    (options : JobRunOptions) (job_id : ℕ) where
  pause-IsUnpaused :
      (item : BulkItem W) (now : ℕ) (s : BulkStore W)
      → IsUnpaused job_id s
      → IsUnpaused job_id (pause memory around messages options job_id item now s).1
  unfolding pause
  pause-IsUnpaused item now s h =
      written-post (IsUnpaused job_id) (update_item memory item.id put_back s) s _ h (λ s₁ e₁.
        let h₁ = IsUnpaused-jobs job_id s s₁ (update_item-jobs job_id item.id put_back s s₁ e₁) h in
        written-post (IsUnpaused job_id) (update_job memory job_id (paused_at now) s₁) s₁ _ h₁
          (λ s₂ e₂.
            after_pause-IsUnpaused around messages options job_id now s₂
              (refresh_bulk_progress memory job_id now s₂) refl))

  -- What follows an item keeps the property, if the rest of the loop does.
  on_item_error-IsUnpaused :
      (item : BulkItem W) (now : ℕ) (error : Thrown) (s : BulkStore W)
      (next : BulkStore W → Attempt (Unit {0}) × BulkStore W)
      → ((s' : BulkStore W) → IsUnpaused job_id s' → IsUnpaused job_id (next s').1)
      → IsUnpaused job_id s
      → IsUnpaused job_id
          (on_item_error memory around messages options job_id item now error s next).1
  on_item_error-IsUnpaused item now error s next k h =
      elim (Bool-cases (is_rate_limit_error messages error)) [
        | inl limited ↦ rw limited (pause-IsUnpaused item now s h)
        | inr other ↦ rw other (k s h)
      ]

  after_refresh-IsUnpaused :
      (item : BulkItem W) (now : ℕ) (s : BulkStore W) (r : Result (BulkStore W))
      (next : BulkStore W → Attempt (Unit {0}) × BulkStore W)
      → ((s' : BulkStore W) → IsUnpaused job_id s' → IsUnpaused job_id (next s').1)
      → refresh_bulk_progress memory job_id now s ≡ r
      → IsUnpaused job_id s
      → IsUnpaused job_id (after_refresh memory around messages options job_id item now s r next).1
  after_refresh-IsUnpaused item now s (ok s') next k e h =
      k s' (refresh-IsUnpaused job_id now s s' e)
  after_refresh-IsUnpaused item now s (err x) next k e h =
      on_item_error-IsUnpaused item now (thrown_of x) s next k h

  after_item-IsUnpaused :
      (item : BulkItem W) (now : ℕ) (r : Attempt (Unit {0}) × BulkStore W)
      (next : BulkStore W → Attempt (Unit {0}) × BulkStore W)
      → ((s' : BulkStore W) → IsUnpaused job_id s' → IsUnpaused job_id (next s').1)
      → IsUnpaused job_id r.1
      → IsUnpaused job_id (after_item memory around messages options job_id item now r next).1
  after_item-IsUnpaused item now (returned u, s) next k h =
      after_refresh-IsUnpaused item now s (refresh_bulk_progress memory job_id now s) next k refl h
  after_item-IsUnpaused item now (threw e, s) next k h =
      on_item_error-IsUnpaused item now e s next k h
  after_item-IsUnpaused item now (ended, s) next k h =
      on_item_error-IsUnpaused item now loop_ended s next k h

  run_bulk_items-IsUnpaused :
      (terms : Terms W) (clock : ℕ → ℕ) (items : List (BulkItem W)) (s : BulkStore W)
      → IsUnpaused job_id s
      → IsUnpaused job_id
          (run_bulk_items memory around messages options job_id terms clock items s).1
  unfolding run_bulk_items
  run_bulk_items-IsUnpaused terms clock [] s h = h
  run_bulk_items-IsUnpaused terms clock (item ∷ items) s h =
      after_item-IsUnpaused item (clock item.id) _
        (run_bulk_items memory around messages options job_id terms clock items)
        (λ s' h'. run_bulk_items-IsUnpaused terms clock items s' h')
        (process-IsUnpaused around messages options job_id terms item (clock item.id) s h)

  fail_bulk_job-IsUnpaused :
      (now : ℕ) (error : Thrown) (s : BulkStore W)
      → IsUnpaused job_id s
      → IsUnpaused job_id (fail_bulk_job memory around messages options job_id now error s)
  unfolding fail_bulk_job
  fail_bulk_job-IsUnpaused now error s h =
      All-revise _ _ (λ j. j.id == job_id && job_is_running j.status) _ s.jobs
        (λ j _ pass own. refl) (λ j k miss own. k own) h

  bulk_settled-IsUnpaused :
      (now : ℕ) (r : Attempt (Unit {0}) × BulkStore W)
      → IsUnpaused job_id r.1
      → IsUnpaused job_id (bulk_settled memory around messages options job_id now r)
  bulk_settled-IsUnpaused now (returned u, s) h = h
  bulk_settled-IsUnpaused now (threw e, s) h = fail_bulk_job-IsUnpaused now e s h
  bulk_settled-IsUnpaused now (ended, s) h = fail_bulk_job-IsUnpaused now loop_ended s h

  run_with_formula-IsUnpaused :
      (clock : ℕ → ℕ) (job : BulkJob W) (s : BulkStore W) (r : Result (Option (ParsedFormula W)))
      → IsUnpaused job_id s
      → IsUnpaused job_id (run_with_formula memory around messages options job_id clock job s r).1
  run_with_formula-IsUnpaused clock job s (err e) h = h
  run_with_formula-IsUnpaused clock job s (ok formula) h = run_bulk_items-IsUnpaused _ clock _ s h

  run_bulk_found-IsUnpaused :
      (clock : ℕ → ℕ) (now : ℕ) (found : Option (BulkJob W)) (s : BulkStore W)
      → IsUnpaused job_id s
      → IsUnpaused job_id (run_bulk_found memory around messages options job_id clock now found s)
  run_bulk_found-IsUnpaused clock now none s h = h
  run_bulk_found-IsUnpaused clock now (some job) s h =
      let formula = formula_of memory around messages options job.pricing_formula in
      bulk_settled-IsUnpaused now
        (run_with_formula memory around messages options job_id clock job s formula)
        (run_with_formula-IsUnpaused clock job s formula h)

  claim_bulk-IsUnpaused :
      (now : ℕ) (s : BulkStore W)
      → IsUnpaused job_id (claim_bulk memory around messages options job_id now s).0
  unfolding claim_bulk
  claim_bulk-IsUnpaused now s =
      All-revise (λ j. Unit)
        (λ (j : BulkJob W). (j.id == job_id) ≡ true → job_is_paused j.status ≡ false)
        (is_startable job_id) (started_at now) s.jobs (λ j _ pass own. refl)
        (λ j _ miss own. ground (arith, miss, own)) (All_of_every (λ j. Unit) s.jobs (λ j. tt))

-- A run that this process has not begun yet leaves no paused job with its identifier, even if eBay
-- limits its rate and the run writes PAUSED: the refresh of the progress that follows writes
-- RUNNING, or a final status, over it.
pub run_bulk_pricing_job-IsUnpaused :
    {W : Type 0} ⦃d : Double W⦄ (db : Prisma)
    → IsDocumented db
    → (around : Surroundings W) (messages : Messages) (options : JobRunOptions) (active : List ℕ)
      (job_id : ℕ) (clock : ℕ → ℕ) (now : ℕ) (s : BulkStore W)
    → any (λ id. id == job_id) active ≡ false
    → IsUnpaused job_id (run_bulk_pricing_job db around messages options active job_id clock now s)
unfolding run_bulk_pricing_job run_bulk_claimed
run_bulk_pricing_job-IsUnpaused =
    of_memory _ (λ around messages options active job_id clock now s idle.
      let claimed = claim_bulk-IsUnpaused around messages options job_id now s in
      rw idle (elim (Bool-cases ((claim_bulk memory around messages options job_id now s).1 == 0)) [
        | inl zero ↦ rw zero claimed
        | inr some' ↦
            rw some'
              (run_bulk_found-IsUnpaused around messages options job_id clock now _ _ claimed)
      ]))
