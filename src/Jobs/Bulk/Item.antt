-- ===== src/Jobs/Bulk/Item.antt =====
-- `processBulkItem` of apps/api/src/bulk-pricing-service.ts.
use ebay_pricing_intelligenc.Prelude.{
  ℕ, String, List, Option, none, some, Result, ok, err, ◌>>=◌, if◌then◌else◌,
}
use ebay_pricing_intelligenc.Database.{Prisma}
use ebay_pricing_intelligenc.Schema.{ItemStatus, Analytics}
use ebay_pricing_intelligenc.Schema.Double.{Double}
use ebay_pricing_intelligenc.Market.Matching.{RawListing, MatchedListing, select_exact_competitors}
use ebay_pricing_intelligenc.Market.Analytics.{calculate_analytics}
use ebay_pricing_intelligenc.Pricing.Formula.{ParsedFormula}
use ebay_pricing_intelligenc.Jobs.Retry.{
  JobRunOptions, Attempt, returned, threw, ended, Thrown, run_with_retry,
}
use ebay_pricing_intelligenc.Jobs.Pricing.{Surroundings, message_of, thrown_of}
use ebay_pricing_intelligenc.Jobs.Pricing.Item.{loop_ended}
use ebay_pricing_intelligenc.Jobs.Bulk.{
  BulkPricingStrategy, custom_formula, market_mean, BulkItem, BulkStore, Messages,
  is_rate_limit_error, written, update_item,
}
use ebay_pricing_intelligenc.Jobs.Bulk.Prices.{
  FormulaPrice, AutomaticPrice, formula_price, calculate_automatic_market_price,
}

-- The values that a run takes from its job.
pub record Terms (W : Type 0) : Type 0 where
  pub marketplace : String
  pub target_margin_percent : W
  pub buffer_percent : W
  pub pricing_strategy : BulkPricingStrategy
  pub pricing_formula : Option (ParsedFormula W)

-- What the writes to an item change.
module _ {W : Type 0} where
  abbrev pub started : ℕ → BulkItem W → BulkItem W
  started now i = record i { status = ItemStatus.running; started_at = some now; error = none }

  abbrev pub put_back : BulkItem W → BulkItem W
  put_back i = record i { status = ItemStatus.queued; error = none }

  abbrev pub failed_with : String → ℕ → BulkItem W → BulkItem W
  failed_with message now i = record i {
    status = ItemStatus.failed;
    error = some message;
    completed_at = some now;
  }

  abbrev pub selling_price_in : Option (FormulaPrice W) → Option W
  selling_price_in none = none
  selling_price_in (some p) = some p.selling_price

  abbrev pub floor_price_in : Option (FormulaPrice W) → Option W
  floor_price_in none = none
  floor_price_in (some p) = some p.formula_floor_price

  abbrev pub margin_in : Option (FormulaPrice W) → Option W
  margin_in none = none
  margin_in (some p) = p.actual_profit_percent

  abbrev pub unmatched : Option (FormulaPrice W) → ℕ → BulkItem W → BulkItem W
  unmatched price now i = record i {
    status = ItemStatus.no_matches;
    competitor_count = 0;
    selling_price = selling_price_in price;
    floor_price = floor_price_in price;
    margin_percent = margin_in price;
    completed_at = some now;
  }

  -- a ?? b ?? null
  abbrev pub first_of : Option W → Option W → Option W
  first_of none b = b
  first_of (some a) b = some a

  abbrev pub automatic_price : Option (AutomaticPrice W) → Option W
  automatic_price none = none
  automatic_price (some a) = some a.selling_price

  abbrev pub automatic_margin : Option (AutomaticPrice W) → Option W
  automatic_margin none = none
  automatic_margin (some a) = a.margin_percent

  abbrev pub recommended : BulkPricingStrategy → Analytics W → W
  recommended market_mean a = a.average
  recommended custom_formula a = a.recommended_price

  abbrev pub matched :
      BulkPricingStrategy
      → Analytics W
      → Option (AutomaticPrice W)
      → Option (FormulaPrice W)
      → ℕ
      → BulkItem W
      → BulkItem W
  matched strategy a automatic price now i = record i {
    status = ItemStatus.completed;
    competitor_count = a.count;
    lowest = some a.lowest;
    average = some a.average;
    median = some a.median;
    highest = some a.highest;
    market_recommended = some (recommended strategy a);
    selling_price = first_of (automatic_price automatic) (selling_price_in price);
    floor_price = floor_price_in price;
    margin_percent = first_of (automatic_margin automatic) (margin_in price);
    error = none;
    completed_at = some now;
  }

module _ {W : Type 0} ⦃d : Double W⦄ where
  abbrev pub automatic_for : BulkPricingStrategy → W → Analytics W → Option (AutomaticPrice W)
  automatic_for market_mean cost a = some (calculate_automatic_market_price cost a.average)
  automatic_for custom_formula cost a = none

  -- The change of an item whose search has returned and whose price is calculated.
  abbrev pub outcome :
      BulkPricingStrategy
      → W
      → Option (Analytics W)
      → Option (FormulaPrice W)
      → ℕ
      → BulkItem W
      → BulkItem W
  outcome strategy cost none price now = unmatched price now
  outcome strategy cost (some a) price now =
      matched strategy a (automatic_for strategy cost a) price now

module _ (db : Prisma) {W : Type 0} ⦃d : Double W⦄ (around : Surroundings W) (messages : Messages)
    (options : JobRunOptions) (terms : Terms W) where
  abbrev pub competitors :
      BulkItem W → Attempt (List (RawListing W)) → Attempt (List (MatchedListing W))
  competitors item (returned candidates) = returned (
      select_exact_competitors around.to_upper around.to_lower around.own_sellers candidates
        item.part_number)
  competitors item (threw e) = threw e
  competitors item ended = ended

  -- The operation that is retried; it changes nothing.
  unfoldable pub search :
      BulkItem W → ℕ → BulkStore W → Attempt (List (MatchedListing W)) × BulkStore W
  search item attempt s = (
    competitors item (around.search_ebay attempt item.part_number terms.marketplace item.condition),
    s,
  )

  -- `runWithRetry` without an `onRetry`
  abbrev pub no_notice : Thrown → ℕ → ℕ → BulkStore W → Attempt (Unit {0}) × BulkStore W
  no_notice error attempt delay_ms s = (returned tt, s)

  -- The writes that follow the search.
  unfoldable pub record_price :
      BulkItem W → ℕ → List (MatchedListing W) → BulkStore W → Result (BulkStore W)
  record_price item now listings s = do
    price ←
        formula_price terms.pricing_strategy item.cost_price terms.target_margin_percent
          terms.buffer_percent terms.pricing_formula
    update_item db item.id
        (outcome terms.pricing_strategy item.cost_price (calculate_analytics listings) price now) s

  -- The `catch` block.
  unfoldable pub on_failure :
      BulkItem W → ℕ → Thrown → BulkStore W → Attempt (Unit {0}) × BulkStore W
  on_failure item now error s =
      if is_rate_limit_error messages error
      then (threw error, s)
      else written
          (update_item db item.id
            (failed_with (message_of around "Unknown bulk pricing error" error) now) s)
          s (λ s'. (returned tt, s'))

  abbrev pub recorded :
      BulkItem W → ℕ → BulkStore W → Result (BulkStore W) → Attempt (Unit {0}) × BulkStore W
  recorded item now s (ok s') = (returned tt, s')
  recorded item now s (err e) = on_failure item now (thrown_of e) s

  abbrev pub after_search :
      BulkItem W
      → ℕ
      → Attempt (List (MatchedListing W)) × BulkStore W
      → Attempt (Unit {0}) × BulkStore W
  after_search item now (returned listings, s) =
      recorded item now s (record_price item now listings s)
  after_search item now (threw e, s) = on_failure item now e s
  after_search item now (ended, s) = on_failure item now loop_ended s

  unfoldable pub process_bulk_item : BulkItem W → ℕ → BulkStore W → Attempt (Unit {0}) × BulkStore W
  process_bulk_item item now s =
      written (update_item db item.id (started now) s) s
        (λ s'. after_search item now (run_with_retry options no_notice (search item) s'))
