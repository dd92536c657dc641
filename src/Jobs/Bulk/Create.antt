-- ===== src/Jobs/Bulk/Create.antt =====
-- `createBulkPricingJob` of apps/api/src/bulk-pricing-service.ts. Columns of a row that no modelled
-- code reads are left out; `parts` is the catalog.
pub mod Laws
use ebay_pricing_intelligenc.Prelude.{
  ℕ, ◌+◌, ◌-◌, ◌*◌, String, Bool, true, false, not, List, [], ◌∷◌, ◌++◌, Option, none, some, Result,
  ok, err, fail, Failure, ◌>>=◌, ◌>>◌, require, ◌==◌, leb, ltb, ◌&&◌, any, length, find, is_some,
  map, if◌then◌else◌,
}
use ebay_pricing_intelligenc.Database.{Prisma}
use ebay_pricing_intelligenc.Schema.Store.{p2002, of_option}
use ebay_pricing_intelligenc.Schema.{
  JobStatus, ItemStatus, ListingCondition, is_active, job_is_queued,
}
use ebay_pricing_intelligenc.Schema.Double.{Double}
use ebay_pricing_intelligenc.Market.Matching.{Text, same_text, upper_text}
use ebay_pricing_intelligenc.Catalog.Sku.{trim_start, trim_end}
use ebay_pricing_intelligenc.Pricing.Formula.{
  ComponentKind, buffer_percent, Component, Formula, ParsedFormula, is_profit_margin, or_else,
  normalize_bulk_pricing_formula,
}
use ebay_pricing_intelligenc.Pricing.Formula.Plan.{is_zero}
use ebay_pricing_intelligenc.Pricing.Formula.Price.{reparsed_formula}
use ebay_pricing_intelligenc.Jobs.Bulk.{
  BulkPricingStrategy, custom_formula, market_mean, BulkJob, BulkItem, BulkStore, update_jobs,
}
use ebay_pricing_intelligenc.Jobs.Bulk.Prices.{
  create_default_bulk_pricing_formula, evaluate_bulk_pricing_formula,
}

-- BulkPricingRowInput
pub record RowInput (W : Type 0) : Type 0 where
  pub row_number : ℕ
  pub sku : Text
  pub part_number : Text
  pub cost_price : W
  pub condition : ListingCondition

-- The columns of model Part that the service reads.
pub record StockedPart : Type 0 where
  pub id : ℕ
  pub organization_id : ℕ
  pub normalized_sku : Text
  pub is_archived : Bool

pub record BulkInput (W : Type 0) : Type 0 where
  pub organization_id : ℕ
  pub user_id : ℕ
  pub marketplace : String
  pub target_margin_percent : Option W
  pub buffer_percent : Option W
  pub pricing_strategy : BulkPricingStrategy
  pub pricing_formula : Option (ParsedFormula W)
  pub rows : List (RowInput W)

abbrev pub is_buffer : ComponentKind → Bool
is_buffer buffer_percent = true
is_buffer _ = false

abbrev pub configured : {W : Type 0} → (ComponentKind → Bool) → Option (Formula W) → Option W
configured is_kind none = none
configured is_kind (some formula) =
    elim (find (λ c. c.enabled && is_kind c.kind) formula.components) [
      | none ↦ none
      | some c ↦ some c.value
    ]

-- a ?? b ?? null
abbrev pub either : {W : Type 0} → Option W → Option W → Option W
either none b = b
either (some a) b = some a

-- row.sku.trim().toUpperCase()
abbrev pub row_sku : {W : Type 0} → (ℕ → Text) → RowInput W → Text
row_sku upper row = upper_text upper (trim_end (trim_start row.sku))

-- The entry of a Map, where the last one with a key stays.
abbrev pub part_for : Text → List StockedPart → Option ℕ
part_for sku [] = none
part_for sku (p ∷ ps) = elim (part_for sku ps) [
  | some id ↦ some id
  | none ↦ if same_text p.normalized_sku sku then some p.id else none
]

-- The queued jobs that no worker has taken for ten minutes.
abbrev pub is_orphaned : {W : Type 0} → ℕ → ℕ → BulkJob W → Bool
is_orphaned organization_id now j =
    j.organization_id == organization_id
    && job_is_queued j.status
    && not (is_some j.started_at)
    && ltb j.created_at (now - 10 * 60 * 1000)

abbrev pub expired_at : {W : Type 0} → ℕ → BulkJob W → BulkJob W
expired_at now j = record j {
  status = JobStatus.failed;
  last_error = some "Job never started and expired";
  completed_at = some now;
  updated_at = now;
}

-- The `catch` of the check of a price; its message leaves out the number of the row.
abbrev pub as_row_error : {A : Type 0} → Result A → Result (Unit {0})
as_row_error (ok a) = ok tt
as_row_error (err e) = fail 400 e.message

module _ {W : Type 0} ⦃d : Double W⦄ where
  abbrev pub lowest_row : RowInput W → List (RowInput W) → RowInput W
  lowest_row lowest [] = lowest
  lowest_row lowest (row ∷ rows) =
      lowest_row (if d.lt row.cost_price lowest.cost_price then row else lowest) rows

  abbrev pub new_formula : BulkInput W → BulkPricingStrategy → Result (Option (Formula W))
  new_formula input market_mean = ok none
  new_formula input custom_formula = elim input.pricing_formula [
    | some formula ↦ (do normal ← normalize_bulk_pricing_formula is_zero formula; ok (some normal))
    | none ↦ ok (
        some (
          create_default_bulk_pricing_formula
            (some (or_else (d.ratio 20 1) input.target_margin_percent))
            (some (or_else (d.ratio 1 1) input.buffer_percent))))
  ]

  abbrev pub check_price : RowInput W → Option (Formula W) → Result (Unit {0})
  check_price row none = ok tt
  check_price row (some formula) =
      as_row_error (evaluate_bulk_pricing_formula row.cost_price (reparsed_formula formula))

  -- The checks before the database is used; it returns the formula of the job.
  unfoldable pub check_input : BulkInput W → List (RowInput W) → Result (Option (Formula W))
  check_input input [] = fail 400 "At least one row is required."
  check_input input (row ∷ rows) = do
    formula ← new_formula input input.pricing_strategy
    check_price (lowest_row row rows) formula
    ok formula

  abbrev pub stored_formula : Option (Formula W) → Option (ParsedFormula W)
  stored_formula none = none
  stored_formula (some formula) = some (reparsed_formula formula)

  abbrev pub new_job : BulkInput W → Option (Formula W) → ℕ → ℕ → BulkJob W
  new_job input formula id now = record {
    id = id;
    organization_id = input.organization_id;
    created_by_id = input.user_id;
    marketplace = input.marketplace;
    status = JobStatus.queued;
    total_items = length input.rows;
    completed_items = 0;
    no_match_items = 0;
    failed_items = 0;
    pricing_strategy = input.pricing_strategy;
    target_margin_percent =
        either (configured is_profit_margin formula) input.target_margin_percent;
    buffer_percent = either (configured is_buffer formula) input.buffer_percent;
    pricing_formula = stored_formula formula;
    last_error = none;
    started_at = none;
    completed_at = none;
    created_at = now;
    updated_at = now;
  }

  abbrev pub new_item : BulkInput W → ℕ → ℕ → Option ℕ → RowInput W → BulkItem W
  new_item input job_id id part_id row = record {
    id = id;
    organization_id = input.organization_id;
    bulk_pricing_job_id = job_id;
    row_number = row.row_number;
    part_number = row.part_number;
    cost_price = row.cost_price;
    condition = row.condition;
    catalog_part_id = part_id;
    status = ItemStatus.queued;
    competitor_count = 0;
    lowest = none;
    average = none;
    median = none;
    highest = none;
    market_recommended = none;
    selling_price = none;
    floor_price = none;
    margin_percent = none;
    error = none;
    started_at = none;
    completed_at = none;
  }

-- @@unique([bulkPricingJobId, rowNumber])
abbrev pub same_row : {W : Type 0} → BulkItem W → BulkItem W → Bool
same_row a b = a.bulk_pricing_job_id == b.bulk_pricing_job_id && a.row_number == b.row_number

module _ (db : Prisma) {W : Type 0} ⦃d : Double W⦄ (upper : ℕ → Text)
    (parts : List StockedPart) where
  abbrev pub catalog_parts : BulkInput W → List StockedPart
  catalog_parts input =
      db.find_many
        (λ p.
          p.organization_id == input.organization_id
          && any (λ (row : RowInput W). same_text (row_sku upper row) p.normalized_sku) input.rows
          && not p.is_archived)
        parts

  -- The nested `create` of the items.
  unfoldable pub create_rows :
      BulkInput W → ℕ → ℕ → List (RowInput W) → List (BulkItem W) → Result (List (BulkItem W))
  create_rows input job_id id [] items = ok items
  create_rows input job_id id (row ∷ rows) items = do
    items' ← of_option p2002 (
        db.create same_row
          (new_item input job_id id (part_for (row_sku upper row) (catalog_parts input)) row) items)
    create_rows input job_id (id + 1) rows items'

  -- The `create` of the job with its items, which is one statement.
  unfoldable pub create_job :
      BulkInput W → Option (Formula W) → ℕ → BulkStore W → Result (BulkJob W × BulkStore W)
  create_job input formula now s =
      let job = new_job input formula s.next_id now in
      do
        jobs ← of_option p2002 (db.create (λ x y. false) job s.jobs)
        items ← create_rows input s.next_id (s.next_id + 1) input.rows s.items
        ok (
          job,
          record s { jobs = jobs; items = items; next_id = s.next_id + 1 + length input.rows },
        )

  abbrev pub created :
      BulkStore W → Result (BulkJob W × BulkStore W) → Result (BulkJob W) × BulkStore W
  created s (ok r) = (ok r.0, r.1)
  created s (err e) = (err e, s)

  abbrev pub expire_orphaned : BulkInput W → ℕ → BulkStore W → BulkStore W
  expire_orphaned input now =
      update_jobs db (is_orphaned input.organization_id now) (expired_at now)

  abbrev pub create_if_idle :
      (BulkStore W → BulkStore W)
      → BulkInput W
      → Option (Formula W)
      → ℕ
      → BulkStore W
      → Option (BulkJob W)
      → Result (BulkJob W) × BulkStore W
  create_if_idle meanwhile input formula now s (some active) =
      (fail 409 "Another bulk pricing job is already running for this organization", s)
  create_if_idle meanwhile input formula now s none =
      created (meanwhile s) (create_job input formula now (meanwhile s))

  abbrev pub create_checked :
      (BulkStore W → BulkStore W)
      → BulkInput W
      → ℕ
      → BulkStore W
      → Result (Option (Formula W))
      → Result (BulkJob W) × BulkStore W
  create_checked meanwhile input now s (err e) = (err e, s)
  create_checked meanwhile input now s (ok formula) =
      let s' = expire_orphaned input now s in
      create_if_idle meanwhile input formula now s' (
        db.find_first (λ j. j.organization_id == input.organization_id && is_active j.status)
          s'.jobs)

  -- `meanwhile` is what other requests do between the check for an active job and the creation.
  unfoldable pub create_bulk_pricing_job :
      (BulkStore W → BulkStore W) → BulkInput W → ℕ → BulkStore W → Result (BulkJob W) × BulkStore W
  create_bulk_pricing_job meanwhile input now s =
      create_checked meanwhile input now s (check_input input input.rows)
