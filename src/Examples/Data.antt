-- ===== src/Examples/Data.antt =====
-- A database with one job of one item, one pending proposal and one failed item.
use ebay_pricing_intelligenc.Prelude.{false, [], ◌∷◌, none, some}
use ebay_pricing_intelligenc.Schema.{
  JobStatus, ItemStatus, PricingJob, PricingJobItem, PricingProposal, ProposalStatus, any_condition,
  used_part, DeadLetterEntry, DeadLetterStatus, DeadLetterType, OutboxEvent, OutboxStatus,
}
use ebay_pricing_intelligenc.Schema.Double.{Fixed}
use ebay_pricing_intelligenc.Schema.Store.{Store}
use ebay_pricing_intelligenc.Jobs.Retry.{JobRunOptions, returned}
use ebay_pricing_intelligenc.Jobs.Pricing.{Surroundings}

abbrev pub empty : Store Fixed
empty = record {
  parts = [];
  jobs = [];
  items = [];
  snapshots = [];
  rules = [];
  inventory = [];
  fitment_jobs = [];
  fitment_items = [];
  fitment_candidates = [];
  proposals = [];
  outbox = [];
  dead_letters = [];
  audit = [];
  next_id = 100;
}

abbrev pub job : PricingJob
job = record {
  id = 1;
  organization_id = 9;
  created_by_id = 5;
  marketplace = "EBAY_US";
  status = JobStatus.queued;
  total_items = 1;
  completed_items = 0;
  no_match_items = 0;
  failed_items = 0;
  attempt_count = 0;
  lease_owner = none;
  lease_expires_at = none;
  last_error = none;
  started_at = none;
  completed_at = none;
}

abbrev pub item : PricingJobItem Fixed
item = record {
  id = 2;
  organization_id = 9;
  pricing_job_id = 1;
  part_id = 3;
  query_part_number = 65 ∷ 49 ∷ [];
  condition = any_condition;
  status = ItemStatus.queued;
  analytics = none;
  error = none;
  attempt_count = 0;
  started_at = none;
  completed_at = none;
}

abbrev pub one_part : Store Fixed
one_part = record empty {
  parts =
      record {
        id = 3;
        organization_id = 9;
        is_archived = false;
        primary_part_number = 65 ∷ 49 ∷ [];
        normalized_part_number = 65 ∷ 49 ∷ [];
        condition = used_part;
      }
      ∷ [];
}

abbrev pub queued_job : Store Fixed
queued_job = record empty { jobs = job ∷ []; items = item ∷ [] }

abbrev pub stale_job : Store Fixed
stale_job = record empty {
  jobs =
      record job { status = JobStatus.running; lease_owner = some 7; lease_expires_at = some 50 }
      ∷ [];
  items = record item { status = ItemStatus.running } ∷ [];
}

abbrev pub worker : JobRunOptions
worker = record {
  lease_owner = 7;
  lease_duration_ms = 60_000;
  max_attempts = 3;
  retry_base_delay_ms = 1_000;
}

-- A market without a listing.
abbrev pub around : Surroundings Fixed
around = record {
  search_ebay = λ attempt part_number marketplace condition. returned [];
  own_sellers = λ seller. false;
  to_upper = λ c. c ∷ [];
  to_lower = λ s. s;
  cut = λ s. s;
  retry_notice = λ attempt delay_ms message. message;
}

abbrev pub proposal : PricingProposal Fixed
proposal = record {
  id = 4;
  organization_id = 9;
  part_id = 3;
  pricing_job_item_id = 2;
  marketplace = "EBAY_US";
  currency = "USD";
  status = ProposalStatus.pending;
  market_recommended_price = 300_000;
  cost_amount = some 100_000;
  floor_price = some 200_000;
  proposed_price = 300_000;
  approved_price = none;
  below_floor = false;
  floor_unavailable_reason = none;
  decision_reason = none;
  decided_by_id = none;
  decided_at = none;
}

abbrev pub proposed : Store Fixed
proposed = record empty { proposals = proposal ∷ [] }

abbrev pub approved_proposal : PricingProposal Fixed
approved_proposal = record proposal {
  status = ProposalStatus.approved;
  approved_price = some 300_000;
  decision_reason = some "Approved proposed price";
  decided_by_id = some 5;
  decided_at = some 60;
}

abbrev pub entry : DeadLetterEntry
entry = record {
  id = 6;
  organization_id = 9;
  kind = DeadLetterType.pricing_item;
  job_id = 1;
  item_id = 2;
  error = "eBay is unavailable";
  attempts = 3;
  status = DeadLetterStatus.open_entry;
  requeued_at = none;
  resolved_at = none;
}

abbrev pub failed_item : Store Fixed
failed_item = record empty {
  jobs = record job { status = JobStatus.failed } ∷ [];
  items = record item { status = ItemStatus.failed } ∷ [];
  dead_letters = entry ∷ [];
}

abbrev pub event : OutboxEvent
event = record {
  id = 8;
  organization_id = 9;
  topic = "pricing.proposal.created";
  aggregate_id = 4;
  status = OutboxStatus.pending;
  attempt_count = 0;
  next_attempt_at = 10;
  lease_owner = none;
  lease_expires_at = none;
  last_error = none;
  published_at = none;
}
