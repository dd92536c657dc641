-- ===== src/Schema.antt =====
-- The rows of apps/api/prisma/schema.prisma that the services read and write, and their enums.
-- Identifiers are opaque texts that are only compared, and stand as numbers; so do times, in
-- milliseconds. `W` is the type of prices. Columns that no modelled code reads are left out.
pub mod Double
pub mod Store
use ebay_pricing_intelligenc.Prelude.{ℕ, String, Bool, true, false, List, Option}

pub data JobStatus : Type 0 where
  queued running completed partial failed paused : JobStatus

abbrev pub job_is_queued : JobStatus → Bool
job_is_queued JobStatus.queued = true
job_is_queued _ = false

abbrev pub job_is_running : JobStatus → Bool
job_is_running JobStatus.running = true
job_is_running _ = false

-- status: { in: ["QUEUED", "RUNNING"] }
abbrev pub is_active : JobStatus → Bool
is_active JobStatus.queued = true
is_active JobStatus.running = true
is_active _ = false

pub data ItemStatus : Type 0 where
  queued running completed no_matches failed : ItemStatus

abbrev pub is_queued : ItemStatus → Bool
is_queued ItemStatus.queued = true
is_queued _ = false

abbrev pub is_running : ItemStatus → Bool
is_running ItemStatus.running = true
is_running _ = false

abbrev pub is_completed : ItemStatus → Bool
is_completed ItemStatus.completed = true
is_completed _ = false

abbrev pub is_no_matches : ItemStatus → Bool
is_no_matches ItemStatus.no_matches = true
is_no_matches _ = false

abbrev pub is_failed : ItemStatus → Bool
is_failed ItemStatus.failed = true
is_failed _ = false

-- model PricingJob
pub record PricingJob : Type 0 where
  pub id : ℕ
  pub organization_id : ℕ
  pub created_by_id : ℕ
  pub marketplace : String
  pub status : JobStatus
  pub total_items : ℕ
  pub completed_items : ℕ
  pub no_match_items : ℕ
  pub failed_items : ℕ
  pub attempt_count : ℕ
  pub lease_owner : Option ℕ
  pub lease_expires_at : Option ℕ
  pub last_error : Option String
  pub started_at : Option ℕ
  pub completed_at : Option ℕ

-- interface Analytics of apps/api/src/types.ts
pub record Analytics (W : Type 0) : Type 0 where
  pub count : ℕ
  pub lowest : W
  pub average : W
  pub median : W
  pub highest : W
  pub recommended_price : W
  pub currency : String

-- type ListingCondition of apps/api/src/types.ts
pub data ListingCondition : Type 0 where
  any_condition new_condition used_condition : ListingCondition

-- enum PartCondition
pub data PartCondition : Type 0 where
  new_part used_part : PartCondition

-- model Part; part numbers are lists of code points.
pub record Part : Type 0 where
  pub id : ℕ
  pub organization_id : ℕ
  pub is_archived : Bool
  pub primary_part_number : List ℕ
  pub normalized_part_number : List ℕ
  pub condition : PartCondition

-- model PricingJobItem; the six price columns are set together, from one `Analytics`.
pub record PricingJobItem (W : Type 0) : Type 0 where
  pub id : ℕ
  pub organization_id : ℕ
  pub pricing_job_id : ℕ
  pub part_id : ℕ
  pub query_part_number : List ℕ
  pub condition : ListingCondition
  pub status : ItemStatus
  pub analytics : Option (Analytics W)
  pub error : Option String
  pub attempt_count : ℕ
  pub started_at : Option ℕ
  pub completed_at : Option ℕ

pub data FitmentJobStatus : Type 0 where
  queued running review_required completed partial failed : FitmentJobStatus

-- The fitment job is queued or running.
abbrev pub fitment_is_active : FitmentJobStatus → Bool
fitment_is_active FitmentJobStatus.queued = true
fitment_is_active FitmentJobStatus.running = true
fitment_is_active _ = false

pub data FitmentItemStatus : Type 0 where
  queued running review_required no_candidate approved failed : FitmentItemStatus

abbrev pub fitment_item_failed : FitmentItemStatus → Bool
fitment_item_failed FitmentItemStatus.failed = true
fitment_item_failed _ = false

-- model FitmentJob
pub record FitmentJob : Type 0 where
  pub id : ℕ
  pub organization_id : ℕ
  pub status : FitmentJobStatus
  pub completed_at : Option ℕ
  pub lease_owner : Option ℕ
  pub lease_expires_at : Option ℕ
  pub last_error : Option String

-- model FitmentJobItem
pub record FitmentJobItem : Type 0 where
  pub id : ℕ
  pub organization_id : ℕ
  pub fitment_job_id : ℕ
  pub status : FitmentItemStatus
  pub error : Option String
  pub started_at : Option ℕ
  pub completed_at : Option ℕ

-- model CompetitorListingSnapshot
pub record Snapshot (W : Type 0) : Type 0 where
  pub pricing_job_item_id : ℕ
  pub listing_id : String
  pub price : W
  pub landed_price : W
  pub captured_at : ℕ

pub data ProposalStatus : Type 0 where
  pending approved rejected overridden superseded : ProposalStatus

-- model PricingRule
pub record PricingRule (W : Type 0) : Type 0 where
  pub market_adjustment_percent : W
  pub minimum_margin_percent : W
  pub minimum_profit_amount : W
  pub require_approval : Bool

-- model PricingProposal
pub record PricingProposal (W : Type 0) : Type 0 where
  pub id : ℕ
  pub organization_id : ℕ
  pub part_id : ℕ
  pub pricing_job_item_id : ℕ
  pub marketplace : String
  pub currency : String
  pub status : ProposalStatus
  pub market_recommended_price : W
  pub cost_amount : Option W
  pub floor_price : Option W
  pub proposed_price : W
  pub approved_price : Option W
  pub below_floor : Bool
  pub floor_unavailable_reason : Option String
  pub decision_reason : Option String
  pub decided_by_id : Option ℕ
  pub decided_at : Option ℕ

pub data OutboxStatus : Type 0 where
  pending processing published failed : OutboxStatus

-- model OutboxEvent; the payload is data of the publisher, and no code here reads it.
pub record OutboxEvent : Type 0 where
  pub id : ℕ
  pub organization_id : ℕ
  pub topic : String
  pub aggregate_id : ℕ
  pub status : OutboxStatus
  pub attempt_count : ℕ
  pub next_attempt_at : ℕ
  pub lease_owner : Option ℕ
  pub lease_expires_at : Option ℕ
  pub last_error : Option String
  pub published_at : Option ℕ

pub data DeadLetterStatus : Type 0 where
  open_entry requeued resolved : DeadLetterStatus

pub data DeadLetterType : Type 0 where
  pricing_item fitment_item : DeadLetterType

-- model DeadLetterEntry
pub record DeadLetterEntry : Type 0 where
  pub id : ℕ
  pub organization_id : ℕ
  pub kind : DeadLetterType
  pub job_id : ℕ
  pub item_id : ℕ
  pub error : String
  pub attempts : ℕ
  pub status : DeadLetterStatus
  pub requeued_at : Option ℕ
  pub resolved_at : Option ℕ

pub data AuditSeverity : Type 0 where
  info warning critical : AuditSeverity

-- model OrganizationAuditEvent
pub record AuditEvent : Type 0 where
  pub organization_id : ℕ
  pub actor_user_id : Option ℕ
  pub action : String
  pub resource_id : ℕ
  pub severity : AuditSeverity

abbrev pub same_kind : DeadLetterType → DeadLetterType → Bool
same_kind DeadLetterType.pricing_item DeadLetterType.pricing_item = true
same_kind DeadLetterType.fitment_item DeadLetterType.fitment_item = true
same_kind _ _ = false

abbrev pub is_open : DeadLetterStatus → Bool
is_open DeadLetterStatus.open_entry = true
is_open _ = false

abbrev pub is_requeued : DeadLetterStatus → Bool
is_requeued DeadLetterStatus.requeued = true
is_requeued _ = false

abbrev pub is_pending : ProposalStatus → Bool
is_pending ProposalStatus.pending = true
is_pending _ = false

-- status: { in: ["PENDING", "APPROVED", "OVERRIDDEN"] }
abbrev pub is_current : ProposalStatus → Bool
is_current ProposalStatus.pending = true
is_current ProposalStatus.approved = true
is_current ProposalStatus.overridden = true
is_current _ = false

-- status: { in: ["APPROVED", "OVERRIDDEN"] }
abbrev pub is_approval : ProposalStatus → Bool
is_approval ProposalStatus.approved = true
is_approval ProposalStatus.overridden = true
is_approval _ = false
