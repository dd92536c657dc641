-- ===== src/Jobs/Pricing.antt =====
-- apps/api/src/pricing-service.ts: the jobs that price catalog parts against the market.
pub mod Create
pub mod Item
pub mod Run
pub mod Resume
use ebay_pricing_intelligenc.Prelude.{
  ℕ, ◌+◌, String, Bool, true, false, List, [], ◌∷◌, Option, none, some, Failure, ◌==◌, ltb, ◌&&◌,
  count, length, all, map, if◌then◌else◌,
}
use ebay_pricing_intelligenc.Schema.{
  JobStatus, ItemStatus, PricingJob, PricingJobItem, ListingCondition, any_condition, new_condition,
  used_condition, PartCondition, new_part, used_part, is_completed, is_no_matches, is_failed,
  job_is_running,
}
use ebay_pricing_intelligenc.Schema.Store.{Store}
use ebay_pricing_intelligenc.Database.{Prisma}
use ebay_pricing_intelligenc.Jobs.Retry.{Attempt, Thrown}
use ebay_pricing_intelligenc.Market.Matching.{Text, RawListing}

-- What the services take from their surroundings: the eBay search of an attempt, the
-- organization's own sellers, and operations on texts of JavaScript.
pub record Surroundings (W : Type 0) : Type 0 where
  pub search_ebay : ℕ → Text → String → ListingCondition → Attempt (List (RawListing W))
  pub own_sellers : Text → Bool
  pub to_upper : ℕ → Text
  pub to_lower : Text → Text
  -- `error.message.slice(0, 500)`
  pub cut : String → String
  -- `Attempt ${attempt} failed; retrying in ${delayMs}ms: ${message}`
  pub retry_notice : ℕ → ℕ → String → String

-- enum PricingConditionMode
pub data ConditionMode : Type 0 where
  match_part any_mode new_mode used_mode : ConditionMode

abbrev pub resolve_pricing_condition : ConditionMode → PartCondition → ListingCondition
resolve_pricing_condition match_part new_part = new_condition
resolve_pricing_condition match_part used_part = used_condition
resolve_pricing_condition any_mode _ = any_condition
resolve_pricing_condition new_mode _ = new_condition
resolve_pricing_condition used_mode _ = used_condition

abbrev pub is_terminal : ItemStatus → Bool
is_terminal ItemStatus.completed = true
is_terminal ItemStatus.no_matches = true
is_terminal ItemStatus.failed = true
is_terminal _ = false

unfoldable pub public_job_status : List ItemStatus → JobStatus
public_job_status statuses =
    let failed = count is_failed statuses in
    if all is_terminal statuses
    then (if failed == length statuses
        then JobStatus.failed
        else if ltb 0 failed
        then JobStatus.partial
        else JobStatus.completed)
    else JobStatus.running

abbrev pub is_settled : JobStatus → Bool
is_settled JobStatus.completed = true
is_settled JobStatus.partial = true
is_settled JobStatus.failed = true
is_settled _ = false

-- `message` of a caught value.
abbrev pub message_of : {W : Type 0} → Surroundings W → String → Thrown → String
message_of around unknown error = elim error.message [
  | none ↦ unknown
  | some message ↦ around.cut message
]

-- An error of a service or of the client, as a `catch` block receives it: it has no `status`.
abbrev pub thrown_of : Failure → Thrown
thrown_of e = record {
  is_type_error = false;
  name = some "Error";
  status = none;
  message = some e.message;
}

-- { id: jobId, status: "RUNNING", leaseOwner }
abbrev pub runs_for : ℕ → ℕ → PricingJob → Bool
runs_for job_id lease_owner j =
    j.id == job_id
    && job_is_running j.status
    && elim j.lease_owner [ none ↦ false | some owner ↦ owner == lease_owner ]

module _ (db : Prisma) {W : Type 0} where
  -- `refreshJobProgress`
  unfoldable pub refresh_job_progress : ℕ → ℕ → ℕ → Store W → Store W
  unfolding public_job_status
  refresh_job_progress job_id lease_owner now s =
      let statuses : List ItemStatus =
        map (λ i. i.status) (db.find_many (λ i. i.pricing_job_id == job_id) s.items) in
      let status = public_job_status statuses in
      record s {
        jobs =
            (db.update_many (λ j. runs_for job_id lease_owner j)
              (λ j. record j {
                status = status;
                completed_items = count is_completed statuses;
                no_match_items = count is_no_matches statuses;
                failed_items = count is_failed statuses;
                completed_at = if is_settled status then some now else j.completed_at;
                lease_owner = if is_settled status then none else j.lease_owner;
                lease_expires_at = if is_settled status then none else j.lease_expires_at;
              })
              s.jobs).0;
      }
