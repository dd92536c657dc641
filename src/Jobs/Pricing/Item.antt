-- ===== src/Jobs/Pricing/Item.antt =====
-- `processPricingItem` of apps/api/src/pricing-service.ts.
pub mod Touch
pub mod Settles
use ebay_pricing_intelligenc.Prelude.{
  ℕ, suc, ◌+◌, String, Bool, true, false, not, ◌&&◌, List, [], ◌∷◌, ◌++◌, Option, none, some,
  Failure, Result, ok, err, ◌>>=◌, ◌>>◌, ◌==◌, if◌then◌else◌,
}
use text.Mathlib.Text.{◌==◌ as str_eq}
use ebay_pricing_intelligenc.Database.{Prisma}
use ebay_pricing_intelligenc.Schema.{
  ItemStatus, Analytics, PricingJob, PricingJobItem, Snapshot, DeadLetterType,
}
use ebay_pricing_intelligenc.Schema.Double.{Double}
use ebay_pricing_intelligenc.Schema.Store.{Store, p2002, p2025, of_option}
use ebay_pricing_intelligenc.Market.Matching.{RawListing, MatchedListing, select_exact_competitors}
use ebay_pricing_intelligenc.Market.Analytics.{calculate_analytics}
use ebay_pricing_intelligenc.Pricing.Governance.Proposals.{create_pricing_proposal}
use ebay_pricing_intelligenc.Delivery.DeadLetter.{capture_dead_letter, resolve_dead_letter}
use ebay_pricing_intelligenc.Jobs.Retry.{
  JobRunOptions, Attempt, returned, threw, ended, Thrown, run_with_retry,
}
use ebay_pricing_intelligenc.Jobs.Pricing.{Surroundings, message_of, thrown_of}

abbrev pub same_listing : {W : Type 0} → Snapshot W → Snapshot W → Bool
same_listing a b =
    a.pricing_job_item_id == b.pricing_job_item_id && str_eq a.listing_id b.listing_id

-- `throw new Error("Retry loop ended unexpectedly")`
abbrev pub loop_ended : Thrown
loop_ended = record {
  is_type_error = false;
  name = some "Error";
  status = none;
  message = some "Retry loop ended unexpectedly";
}

-- What the writes to an item change.
module _ {W : Type 0} where
  abbrev pub started : ℕ → PricingJobItem W → PricingJobItem W
  started now i = record i { status = ItemStatus.running; started_at = some now; error = none }

  abbrev pub tried_again : PricingJobItem W → PricingJobItem W
  tried_again i = record i { attempt_count = i.attempt_count + 1 }

  abbrev pub noted : String → PricingJobItem W → PricingJobItem W
  noted notice i = record i { error = some notice }

  abbrev pub status_for : Option (Analytics W) → ItemStatus
  status_for none = ItemStatus.no_matches
  status_for (some a) = ItemStatus.completed

  abbrev pub priced_with : Option (Analytics W) → ℕ → PricingJobItem W → PricingJobItem W
  priced_with analytics now i = record i {
    status = status_for analytics;
    analytics = analytics;
    completed_at = some now;
  }

  abbrev pub failed_with : String → ℕ → PricingJobItem W → PricingJobItem W
  failed_with message now i = record i {
    status = ItemStatus.failed;
    error = some message;
    completed_at = some now;
  }

-- An awaited write that throws ends the operation that awaits it.
abbrev pub tried :
    {W A : Type 0}
    → Result (Store W)
    → Store W
    → (Store W → Attempt A × Store W)
    → Attempt A × Store W
tried (ok s') s next = next s'
tried (err e) s next = (threw (thrown_of e), s)

module _ (db : Prisma) {W : Type 0} where
  -- `prisma.pricingJobItem.update({ where: { id }, data })`
  unfoldable pub update_item :
      ℕ → (PricingJobItem W → PricingJobItem W) → Store W → Result (Store W)
  update_item id f s = do
    items ← db.update (λ x y. false) (λ i. i.id == id) f s.items
    ok (record s { items = items })

module _ (db : Prisma) {W : Type 0} ⦃d : Double W⦄ (around : Surroundings W)
    (options : JobRunOptions) (marketplace : String) where
  abbrev pub listings_of :
      PricingJobItem W → Attempt (List (RawListing W)) → Attempt (List (MatchedListing W))
  listings_of item (returned candidates) = returned (
      select_exact_competitors around.to_upper around.to_lower around.own_sellers candidates
        item.query_part_number)
  listings_of item (threw e) = threw e
  listings_of item ended = ended

  -- The operation that is retried.
  unfoldable pub search :
      PricingJobItem W → ℕ → Store W → Attempt (List (MatchedListing W)) × Store W
  search item attempt s = tried (update_item db item.id tried_again s) s (λ s'. (
    listings_of item (around.search_ebay attempt item.query_part_number marketplace item.condition),
    s',
  ))

  unfoldable pub on_retry :
      PricingJobItem W → Thrown → ℕ → ℕ → Store W → Attempt (Unit {0}) × Store W
  on_retry item error attempt delay_ms s =
      tried
        (update_item db item.id
          (noted (
            around.retry_notice attempt delay_ms (message_of around "Unknown pricing error" error)))
          s)
        s (λ s'. (returned tt, s'))

  -- `createMany`
  unfoldable pub snapshot_all :
      ℕ → ℕ → List (MatchedListing W) → List (Snapshot W) → Result (List (Snapshot W))
  snapshot_all item_id now [] rows = ok rows
  snapshot_all item_id now (listing ∷ listings) rows = do
    rows' ← of_option p2002 (
        db.create same_listing
          (record {
            pricing_job_item_id = item_id;
            listing_id = listing.raw.id;
            price = listing.raw.price;
            landed_price = listing.landed_price;
            captured_at = now;
          })
          rows)
    snapshot_all item_id now listings rows'

  unfoldable pub propose : PricingJobItem W → ℕ → Option (Analytics W) → Store W → Result (Store W)
  propose item now none s = ok s
  propose item now (some a) s = do
    -- `findUniqueOrThrow`
    job_item ← of_option p2025 (db.find_first (λ i. i.id == item.id) s.items)
    job ← of_option p2025 (db.find_first (λ j. j.id == job_item.pricing_job_id) s.jobs)
    created ←
        create_pricing_proposal db
          (record {
            organization_id = item.organization_id;
            part_id = job_item.part_id;
            pricing_job_item_id = item.id;
            marketplace = job.marketplace;
            market_recommended_price = a.recommended_price;
            currency = a.currency;
          })
          now s
    ok created.1

  -- The callback of the transaction that records the prices.
  unfoldable pub record_prices :
      PricingJobItem W → ℕ → List (MatchedListing W) → Store W → Result (Unit {0} × Store W)
  record_prices item now listings s =
      let analytics = calculate_analytics listings in
      do
        snapshots ← snapshot_all item.id now listings s.snapshots
        s₁ ← update_item db item.id (priced_with analytics now) (record s { snapshots = snapshots })
        s₂ ← propose item now analytics s₁
        ok (tt, resolve_dead_letter db DeadLetterType.pricing_item item.id now s₂)

  -- The callback of the transaction that records the failure.
  unfoldable pub record_failure :
      PricingJobItem W → ℕ → Thrown → Store W → Result (Unit {0} × Store W)
  record_failure item now error s =
      let message = message_of around "Unknown pricing error" error in
      do
        s₁ ← update_item db item.id (failed_with message now) s
        failed ← of_option p2025 (db.find_first (λ i. i.id == item.id) s₁.items)
        ok (
          tt,
          capture_dead_letter db
              (record {
                organization_id = item.organization_id;
                kind = DeadLetterType.pricing_item;
                job_id = failed.pricing_job_id;
                item_id = item.id;
                error = message;
                attempts = failed.attempt_count;
              })
              s₁,
        )

  -- What the `catch` block throws itself reaches the caller.
  abbrev pub rethrown : Result (Unit {0}) × Store W → Attempt (Unit {0}) × Store W
  rethrown (ok u, s) = (returned tt, s)
  rethrown (err e, s) = (threw (thrown_of e), s)

  -- The `catch` block.
  unfoldable pub on_failure : PricingJobItem W → ℕ → Thrown → Store W → Attempt (Unit {0}) × Store W
  on_failure item now error s = rethrown (db.transaction (record_failure item now error) s)

  abbrev pub priced :
      PricingJobItem W → ℕ → Result (Unit {0}) × Store W → Attempt (Unit {0}) × Store W
  priced item now (ok u, s) = (returned tt, s)
  priced item now (err e, s) = on_failure item now (thrown_of e) s

  -- What follows the search.
  unfoldable pub after_search :
      PricingJobItem W
      → ℕ
      → Attempt (List (MatchedListing W)) × Store W
      → Attempt (Unit {0}) × Store W
  after_search item now (returned listings, s) =
      priced item now (db.transaction (record_prices item now listings) s)
  after_search item now (threw e, s) = on_failure item now e s
  after_search item now (ended, s) = on_failure item now loop_ended s

  unfoldable pub process_pricing_item :
      PricingJobItem W → ℕ → Store W → Attempt (Unit {0}) × Store W
  process_pricing_item item now s =
      tried (update_item db item.id (started now) s) s
        (λ s'. after_search item now (run_with_retry options (on_retry item) (search item) s'))
