-- ===== src/Jobs/Pricing/Create.antt =====
-- `createPricingJob` of apps/api/src/pricing-service.ts.
pub mod Laws
use ebay_pricing_intelligenc.Prelude.{
  ℕ, ◌+◌, String, Bool, not, ◌&&◌, List, [], ◌∷◌, none, Failure, Result, ok, err, fail, ◌>>=◌, ◌==◌,
  any, length, is_some, if◌then◌else◌,
}
use ebay_pricing_intelligenc.Database.{Prisma}
use ebay_pricing_intelligenc.Schema.{
  JobStatus, ItemStatus, Part, PricingJob, PricingJobItem, is_active,
}
use ebay_pricing_intelligenc.Schema.Store.{Store, p2002, of_option, enqueue_outbox_event}
use ebay_pricing_intelligenc.Market.Matching.{normalize_part_number, is_empty}
use ebay_pricing_intelligenc.Delivery.DeadLetter.Requeue.{same_active_job, is_p2002}
use ebay_pricing_intelligenc.Jobs.Pricing.{Surroundings, ConditionMode, resolve_pricing_condition}

pub record CreatePricingJobInput : Type 0 where
  pub organization_id : ℕ
  pub created_by_id : ℕ
  pub part_ids : List ℕ
  pub marketplace : String
  pub condition_mode : ConditionMode

abbrev pub includes : List ℕ → ℕ → Bool
includes ids id = any (λ i. i == id) ids

-- `[...new Set(ids)]`
unfoldable pub distinct_from : List ℕ → List ℕ → List ℕ
distinct_from seen [] = []
distinct_from seen (i ∷ ids) =
    if includes seen i then distinct_from seen ids else i ∷ distinct_from (i ∷ seen) ids

abbrev pub same_item_part : {W : Type 0} → PricingJobItem W → PricingJobItem W → Bool
same_item_part a b = a.pricing_job_id == b.pricing_job_id && a.part_id == b.part_id

abbrev pub already_running : Failure
already_running = record {
  status_code = 409;
  message = "Another pricing job is already running for this organization";
}

module _ (db : Prisma) {W : Type 0} (around : Surroundings W) where
  unfoldable pub new_item : CreatePricingJobInput → ℕ → ℕ → Part → PricingJobItem W
  new_item input job_id id part = record {
    id = id;
    organization_id = input.organization_id;
    pricing_job_id = job_id;
    part_id = part.id;
    query_part_number =
        if is_empty part.normalized_part_number
        then normalize_part_number around.to_upper part.primary_part_number
        else part.normalized_part_number;
    condition = resolve_pricing_condition input.condition_mode part.condition;
    status = ItemStatus.queued;
    analytics = none;
    error = none;
    attempt_count = 0;
    started_at = none;
    completed_at = none;
  }

  unfoldable pub create_items :
      CreatePricingJobInput
      → ℕ
      → List Part
      → ℕ
      → List (PricingJobItem W)
      → Result (List (PricingJobItem W) × ℕ)
  create_items input job_id [] next rows = ok (rows, next)
  create_items input job_id (part ∷ parts) next rows = do
    rows' ← of_option p2002 (db.create same_item_part (new_item input job_id next part) rows)
    create_items input job_id parts (next + 1) rows'

  unfoldable pub new_job : CreatePricingJobInput → ℕ → List Part → PricingJob
  new_job input id parts = record {
    id = id;
    organization_id = input.organization_id;
    created_by_id = input.created_by_id;
    marketplace = input.marketplace;
    status = JobStatus.queued;
    total_items = length parts;
    completed_items = 0;
    no_match_items = 0;
    failed_items = 0;
    attempt_count = 0;
    lease_owner = none;
    lease_expires_at = none;
    last_error = none;
    started_at = none;
    completed_at = none;
  }

  unfoldable pub create_tx :
      CreatePricingJobInput → List Part → ℕ → Store W → Result (PricingJob × Store W)
  create_tx input parts now s =
      let job = new_job input s.next_id parts in
      do
        jobs ← of_option p2002 (db.create same_active_job job s.jobs)
        created ← create_items input job.id parts (s.next_id + 1) s.items
        s' ←
            enqueue_outbox_event db input.organization_id "pricing.job.created" job.id now
              (record s { jobs = jobs; items = created.0; next_id = created.1 })
        ok (job, s')

  unfoldable pub find_parts : CreatePricingJobInput → List ℕ → Store W → List Part
  find_parts input part_ids s =
      db.find_many
        (λ part.
          part.organization_id == input.organization_id
          && includes part_ids part.id
          && not part.is_archived)
        s.parts

  abbrev pub recaught : Result PricingJob × Store W → Result PricingJob × Store W
  recaught (ok job, s) = (ok job, s)
  recaught (err e, s) = (if is_p2002 e then err already_running else err e, s)

  -- `meanwhile` is what other requests do between the checks and the transaction.
  unfoldable pub create_pricing_job :
      (Store W → Store W) → CreatePricingJobInput → ℕ → Store W → Result PricingJob × Store W
  create_pricing_job meanwhile input now s =
      let part_ids = distinct_from [] input.part_ids in
      let active =
        db.find_first (λ j. j.organization_id == input.organization_id && is_active j.status)
          s.jobs in
      let parts = find_parts input part_ids s in
      if is_some active
      then (err already_running, s)
      else if not (length parts == length part_ids)
      then (fail 404 "One or more selected parts are unavailable or archived", s)
      else recaught (db.transaction (create_tx input parts now) (meanwhile s))
