-- ===== src/Jobs/Bulk/Requests.antt =====
-- `resumeBulkPricingJob`, `cancelStuckBulkPricingJobs`, `cleanupExpiredBulkPricingJobs` and
-- `updateBulkPricingItemSellingPrice` of apps/api/src/bulk-pricing-service.ts.
use ebay_pricing_intelligenc.Prelude.{
  ℕ, String, Bool, false, Option, none, some, Result, ok, err, fail, ◌>>=◌, ◌==◌, leb, ltb, ◌&&◌,
  any,
}
use ebay_pricing_intelligenc.Database.{Prisma}
use ebay_pricing_intelligenc.Schema.{JobStatus, is_failed, is_active}
use ebay_pricing_intelligenc.Schema.Double.{Double, money}
use ebay_pricing_intelligenc.Pricing.Formula.{or_else}
use ebay_pricing_intelligenc.Pricing.Formula.Price.{calculate_net_margin}
use ebay_pricing_intelligenc.Jobs.Bulk.{
  BulkPricingStrategy, custom_formula, market_mean, BulkJob, BulkItem, BulkStore, Messages,
  bulk_pricing_retention_cutoff, update_job, update_item, update_jobs, update_items,
}
use ebay_pricing_intelligenc.Jobs.Bulk.Item.{put_back}
use ebay_pricing_intelligenc.Jobs.Bulk.Prices.{
  no_context, calculate_automatic_market_price, calculate_bulk_margin_percent, price_with,
}

-- error: { contains: "429" }
abbrev pub mentions_429 : Messages → Option String → Bool
mentions_429 messages none = false
mentions_429 messages (some error) = messages.contains error "429"

module _ (db : Prisma) {W : Type 0} (messages : Messages) where
  abbrev pub is_retained : ℕ → ℕ → ℕ → BulkJob W → Bool
  is_retained organization_id job_id now j =
      j.id == job_id
      && j.organization_id == organization_id
      && ltb (bulk_pricing_retention_cutoff now) j.created_at

  abbrev pub retry_limited : ℕ → BulkStore W → BulkStore W
  retry_limited job_id s =
      update_items db
        (λ i.
          i.bulk_pricing_job_id == job_id && is_failed i.status && mentions_429 messages i.error)
        put_back s

  abbrev pub queue_again : ℕ → BulkJob W → BulkJob W
  queue_again now j = record j {
    status = JobStatus.queued;
    last_error = none;
    completed_at = none;
    updated_at = now;
  }

  abbrev pub resumed : ℕ → BulkStore W → Result (BulkStore W) → Result ℕ × BulkStore W
  resumed job_id s (ok s') = (ok job_id, s')
  resumed job_id s (err e) = (err e, s)

  abbrev pub resume_found : ℕ → ℕ → BulkStore W → Option (BulkJob W) → Result ℕ × BulkStore W
  resume_found job_id now s none = (fail 404 "Bulk pricing job not found", s)
  resume_found job_id now s (some job) =
      resumed job_id (retry_limited job_id s)
        (update_job db job_id (queue_again now) (retry_limited job_id s))

  -- The identifier of the job that is started.
  unfoldable pub resume_bulk_pricing_job : ℕ → ℕ → ℕ → BulkStore W → Result ℕ × BulkStore W
  resume_bulk_pricing_job organization_id job_id now s =
      resume_found job_id now s (db.find_first (is_retained organization_id job_id now) s.jobs)

  unfoldable pub cancel_stuck_bulk_pricing_jobs : ℕ → ℕ → BulkStore W → BulkStore W
  cancel_stuck_bulk_pricing_jobs organization_id now s =
      update_jobs db (λ j. j.organization_id == organization_id && is_active j.status)
        (λ j. record j {
          status = JobStatus.failed;
          last_error = some "Cancelled by user to start a new job";
          completed_at = some now;
          updated_at = now;
        })
        s

  -- The count of jobs, whose items go with them (`onDelete: Cascade`).
  unfoldable pub cleanup_expired_bulk_pricing_jobs : ℕ → BulkStore W → ℕ × BulkStore W
  cleanup_expired_bulk_pricing_jobs now s =
      let is_expired : BulkJob W → Bool =
        λ j. leb j.created_at (bulk_pricing_retention_cutoff now) in
      let kept = db.delete_many is_expired s.jobs in
      (
        kept.1,
        record s {
          jobs = kept.0;
          items =
              (db.delete_many
                (λ (i : BulkItem W).
                  any (λ j. is_expired j && j.id == i.bulk_pricing_job_id) s.jobs)
                s.items).0;
        },
      )

-- A selling price with its margin.
abbrev pub Priced : Type 0 → Type 0
Priced W = Option W × Option W

module _ (db : Prisma) {W : Type 0} ⦃d : Double W⦄ where
  abbrev pub market_price : W → Option W → Priced W
  market_price cost none = (none, none)
  market_price cost (some average) = (
    some (calculate_automatic_market_price cost average).selling_price,
    (calculate_automatic_market_price cost average).margin_percent,
  )

  abbrev pub automatic_again : BulkJob W → W → Option W → BulkPricingStrategy → Result (Priced W)
  automatic_again job cost average market_mean = ok (market_price cost average)
  automatic_again job cost average custom_formula = do
    price ←
        price_with cost (or_else (d.ratio 20 1) job.target_margin_percent)
          (some (or_else (d.ratio 0 1) job.buffer_percent)) job.pricing_formula
    ok (some price.selling_price, price.actual_profit_percent)

  abbrev pub margin_at : BulkJob W → W → W → BulkPricingStrategy → Result (Option W)
  margin_at job cost price market_mean =
      ok (calculate_automatic_market_price cost price).margin_percent
  margin_at job cost price custom_formula = elim job.pricing_formula [
    | none ↦ calculate_bulk_margin_percent cost price
    | some formula ↦ calculate_net_margin price cost formula no_context
  ]

  -- `null` asks for the automatic price.
  abbrev pub new_price : BulkJob W → BulkItem W → Option W → Result (Priced W)
  new_price job item none = automatic_again job item.cost_price item.average job.pricing_strategy
  new_price job item (some input) =
      let price = money (d.max (d.ratio 0 1) input) in
      do margin ← margin_at job item.cost_price price job.pricing_strategy; ok (some price, margin)

  abbrev pub with_price : (Priced W) → BulkItem W → BulkItem W
  with_price price i = record i { selling_price = price.0; margin_percent = price.1 }

  -- `include` reads the job of the item, which a foreign key keeps.
  abbrev pub update_item_found : Option W → BulkStore W → Option (BulkItem W) → Result (BulkStore W)
  update_item_found input s none = fail 404 "Bulk pricing item not found"
  update_item_found input s (some item) =
      elim (db.find_first (λ (j : BulkJob W). j.id == item.bulk_pricing_job_id) s.jobs) [
        | none ↦ fail 404 "Bulk pricing item not found"
        | some job ↦ (do
          price ← new_price job item input
          update_item db item.id (with_price price) s)
      ]

  unfoldable pub update_bulk_pricing_item_selling_price :
      ℕ → ℕ → Option W → BulkStore W → Result (BulkStore W)
  update_bulk_pricing_item_selling_price organization_id item_id selling_price s =
      update_item_found selling_price s
        (db.find_first (λ i. i.id == item_id && i.organization_id == organization_id) s.items)
