-- ===== src/Jobs/Bulk.antt =====
-- apps/api/src/bulk-pricing-service.ts: the jobs that price the rows of an uploaded sheet. The
-- competitors that an item keeps for display are left out.
pub mod Prices
pub mod Item
pub mod Run
pub mod Requests
pub mod Create
use ebay_pricing_intelligenc.Prelude.{
  ℕ, ◌-◌, ◌*◌, String, Bool, true, false, not, List, [], ◌∷◌, Option, none, some, Failure, Result,
  ok, err, ◌>>=◌, ◌==◌, ltb, leb, ◌&&◌, ◌||◌, count, length, all, map, if◌then◌else◌,
}
use ebay_pricing_intelligenc.Schema.{
  JobStatus, ItemStatus, ListingCondition, is_completed, is_no_matches, is_failed, job_is_queued,
  job_is_running, is_active,
}
use ebay_pricing_intelligenc.Database.{Prisma}
use ebay_pricing_intelligenc.Jobs.Retry.{Attempt, threw, Thrown}
use ebay_pricing_intelligenc.Jobs.Pricing.{thrown_of, is_terminal}
use ebay_pricing_intelligenc.Market.Matching.{Text}
use ebay_pricing_intelligenc.Pricing.Formula.{ParsedFormula}

-- type BulkPricingStrategy
pub data BulkPricingStrategy : Type 0 where
  custom_formula market_mean : BulkPricingStrategy

-- model BulkPricingJob; the formula is as the schemas parse its JSON.
pub record BulkJob (W : Type 0) : Type 0 where
  pub id : ℕ
  pub organization_id : ℕ
  pub created_by_id : ℕ
  pub marketplace : String
  pub status : JobStatus
  pub total_items : ℕ
  pub completed_items : ℕ
  pub no_match_items : ℕ
  pub failed_items : ℕ
  pub pricing_strategy : BulkPricingStrategy
  pub target_margin_percent : Option W
  pub buffer_percent : Option W
  pub pricing_formula : Option (ParsedFormula W)
  pub last_error : Option String
  pub started_at : Option ℕ
  pub completed_at : Option ℕ
  pub created_at : ℕ
  pub updated_at : ℕ

-- model BulkPricingJobItem
pub record BulkItem (W : Type 0) : Type 0 where
  pub id : ℕ
  pub organization_id : ℕ
  pub bulk_pricing_job_id : ℕ
  pub row_number : ℕ
  pub part_number : Text
  pub cost_price : W
  pub condition : ListingCondition
  pub catalog_part_id : Option ℕ
  pub status : ItemStatus
  pub competitor_count : ℕ
  pub lowest : Option W
  pub average : Option W
  pub median : Option W
  pub highest : Option W
  pub market_recommended : Option W
  pub selling_price : Option W
  pub floor_price : Option W
  pub margin_percent : Option W
  pub error : Option String
  pub started_at : Option ℕ
  pub completed_at : Option ℕ

-- `next_id` stands for `cuid()`.
pub record BulkStore (W : Type 0) : Type 0 where
  pub jobs : List (BulkJob W)
  pub items : List (BulkItem W)
  pub next_id : ℕ

-- Tests on messages: `message.toLowerCase().includes(part)`, and the filter `contains` of the client.
pub record Messages : Type 0 where
  pub includes : String → String → Bool
  pub contains : String → String → Bool

-- `bulkPricingRetentionCutoff`
abbrev pub bulk_pricing_retention_cutoff : ℕ → ℕ
bulk_pricing_retention_cutoff now = now - 30 * 86_400_000

abbrev includes_any : Messages → Option String → Bool
includes_any messages none = false
includes_any messages (some message) =
    messages.includes message "429"
    || messages.includes message "rate limit"
    || messages.includes message "request limit"

-- `isRateLimitError`; an Error has a name.
unfoldable pub is_rate_limit_error : Messages → Thrown → Bool
is_rate_limit_error messages error = includes_any messages error.message

-- The status that `refreshJobProgress` writes.
abbrev pub bulk_job_status : List ItemStatus → JobStatus
bulk_job_status statuses =
    let failed = count is_failed statuses in
    if all is_terminal statuses
    then (if failed == length statuses
        then JobStatus.failed
        else if ltb 0 failed
        then JobStatus.partial
        else JobStatus.completed)
    else JobStatus.running

abbrev pub refreshed : {W : Type 0} → List ItemStatus → ℕ → BulkJob W → BulkJob W
refreshed statuses now j = record j {
  status = bulk_job_status statuses;
  completed_items = count is_completed statuses;
  no_match_items = count is_no_matches statuses;
  failed_items = count is_failed statuses;
  completed_at = if all is_terminal statuses then some now else j.completed_at;
  updated_at = now;
}

-- An awaited write that throws ends the operation that awaits it.
abbrev pub written : {S A : Type 0} → Result S → S → (S → Attempt A × S) → Attempt A × S
written (ok s') s next = next s'
written (err e) s next = (threw (thrown_of e), s)

module _ (db : Prisma) {W : Type 0} where
  -- `update({ where: { id }, data })` of a job, and of an item
  abbrev pub update_job : ℕ → (BulkJob W → BulkJob W) → BulkStore W → Result (BulkStore W)
  update_job id f s = do
    jobs ← db.update (λ x y. false) (λ j. j.id == id) f s.jobs
    ok (record s { jobs = jobs })

  abbrev pub update_item : ℕ → (BulkItem W → BulkItem W) → BulkStore W → Result (BulkStore W)
  update_item id f s = do
    items ← db.update (λ x y. false) (λ i. i.id == id) f s.items
    ok (record s { items = items })

  abbrev pub update_jobs : (BulkJob W → Bool) → (BulkJob W → BulkJob W) → BulkStore W → BulkStore W
  update_jobs p f s = record s { jobs = (db.update_many p f s.jobs).0 }

  abbrev pub update_items :
      (BulkItem W → Bool) → (BulkItem W → BulkItem W) → BulkStore W → BulkStore W
  update_items p f s = record s { items = (db.update_many p f s.items).0 }

  -- `refreshJobProgress`
  unfoldable pub refresh_bulk_progress : ℕ → ℕ → BulkStore W → Result (BulkStore W)
  refresh_bulk_progress job_id now s =
      let statuses : List ItemStatus =
        map (λ i. i.status) (db.find_many (λ i. i.bulk_pricing_job_id == job_id) s.items) in
      update_job job_id (refreshed statuses now) s
