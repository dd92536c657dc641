-- ===== src/Examples/Bulk.antt =====
-- A sheet of one row: its creation, and a run that eBay's rate limit stops.
use ebay_pricing_intelligenc.Prelude.{ℕ, ◌≡◌, refl, true, false, List, [], ◌∷◌, none, some, ok}
use ebay_pricing_intelligenc.Database.Memory.{memory, memory-IsDocumented}
use ebay_pricing_intelligenc.Schema.{JobStatus, any_condition}
use ebay_pricing_intelligenc.Schema.Double.{Fixed, fixed_double}
use ebay_pricing_intelligenc.Market.Matching.{Text, upper_text}
use ebay_pricing_intelligenc.Catalog.Sku.{trim_start, trim_end}
use ebay_pricing_intelligenc.Jobs.Retry.{
  JobRunOptions, threw, Thrown, run_with_retry, is_retryable_job_error,
}
use ebay_pricing_intelligenc.Jobs.Pricing.{Surroundings}
use ebay_pricing_intelligenc.Jobs.Bulk.{
  market_mean, BulkJob, BulkStore, Messages, is_rate_limit_error, refresh_bulk_progress,
}
use ebay_pricing_intelligenc.Jobs.Bulk.Item.{search, on_failure, process_bulk_item}
use ebay_pricing_intelligenc.Jobs.Bulk.Run.{
  claim_bulk, pause, run_bulk_items, run_bulk_claimed, run_bulk_pricing_job,
}
use ebay_pricing_intelligenc.Jobs.Bulk.Run.Unpaused.{IsUnpaused}
use ebay_pricing_intelligenc.Jobs.Bulk.Run.Pause.{run_bulk_pricing_job-IsUnpaused}
use ebay_pricing_intelligenc.Jobs.Bulk.Create.{
  RowInput, StockedPart, BulkInput, new_job, new_item, check_input, create_rows, create_job,
  expire_orphaned, create_bulk_pricing_job,
}
use ebay_pricing_intelligenc.Jobs.Bulk.Create.Laws.{IsCreated, create_bulk_pricing_job-IsCreated}

abbrev as_is : ℕ → Text
as_is c = c ∷ []

abbrev row : RowInput Fixed
row = record {
  row_number = 1;
  sku = 65 ∷ [];
  part_number = 65 ∷ 49 ∷ [];
  cost_price = 450_000;
  condition = any_condition;
}

abbrev input : BulkInput Fixed
input = record {
  organization_id = 9;
  user_id = 5;
  marketplace = "EBAY_US";
  target_margin_percent = none;
  buffer_percent = none;
  pricing_strategy = market_mean;
  pricing_formula = none;
  rows = row ∷ [];
}

abbrev catalog : List StockedPart
catalog = record { id = 3; organization_id = 9; normalized_sku = 65 ∷ []; is_archived = false } ∷ []

-- A job that was queued long ago and never started.
abbrev orphan : BulkJob Fixed
orphan = record (new_job input none 1 0) { total_items = 0 }

abbrev stocked : BulkStore Fixed
stocked = record { jobs = orphan ∷ []; items = []; next_id = 100 }

abbrev unchanged : BulkStore Fixed → BulkStore Fixed
unchanged s = s

abbrev created_job : BulkJob Fixed
created_job = new_job input none 100 700_000

abbrev with_job : BulkStore Fixed
with_job = record {
  jobs =
      record orphan {
        status = JobStatus.failed;
        last_error = some "Job never started and expired";
        completed_at = some 700_000;
        updated_at = 700_000;
      }
      ∷ created_job
      ∷ [];
  items = new_item input 100 101 (some 3) row ∷ [];
  next_id = 102;
}

creates :
    create_bulk_pricing_job memory as_is catalog unchanged input 700_000 stocked
    ≡ (ok created_job, with_job)
unfolding create_bulk_pricing_job check_input create_job create_rows trim_start trim_end upper_text
creates = refl

create_bulk_pricing_job-IsCreated_example :
    IsCreated as_is catalog input 700_000
      (expire_orphaned memory as_is catalog input 700_000 stocked)
      (expire_orphaned memory as_is catalog input 700_000 stocked)
      created_job
      with_job
create_bulk_pricing_job-IsCreated_example =
    create_bulk_pricing_job-IsCreated as_is catalog input memory memory-IsDocumented unchanged
      700_000 stocked with_job created_job creates

abbrev too_many : Thrown
too_many = record {
  is_type_error = false;
  name = some "Error";
  status = some 400;
  message = some "request limit";
}

abbrev limited : Surroundings Fixed
limited = record {
  search_ebay = λ attempt part marketplace condition. threw too_many;
  own_sellers = λ s. false;
  to_upper = as_is;
  to_lower = λ t. t;
  cut = λ s. s;
  retry_notice = λ n ms m. m;
}

abbrev messages : Messages
messages = record { includes = λ m part. true; contains = λ m part. true }

abbrev worker : JobRunOptions
worker = record {
  lease_owner = 1;
  lease_duration_ms = 1000;
  max_attempts = 2;
  retry_base_delay_ms = 10;
}

abbrev clock : ℕ → ℕ
clock id = 800_000

-- The run puts its item back, and its job is running although nothing runs.
limited_run :
    (run_bulk_pricing_job memory limited messages worker [] 100 clock 800_000
      (record { jobs = created_job ∷ []; items = with_job.items; next_id = 102 })).jobs
    ≡ record created_job {
      status = JobStatus.running;
      started_at = some 800_000;
      last_error =
          some "Paused: eBay API rate limit reached (HTTP 429). Please wait before resuming.";
      updated_at = 800_000;
    }
      ∷ []
unfolding run_bulk_pricing_job claim_bulk run_bulk_claimed run_bulk_items process_bulk_item search
    on_failure pause refresh_bulk_progress is_rate_limit_error run_with_retry is_retryable_job_error
limited_run = refl

run_bulk_pricing_job-IsUnpaused_example :
    IsUnpaused 100
      (run_bulk_pricing_job memory limited messages worker [] 100 clock 800_000 with_job)
run_bulk_pricing_job-IsUnpaused_example =
    run_bulk_pricing_job-IsUnpaused memory memory-IsDocumented limited messages worker [] 100 clock
      800_000 with_job refl
