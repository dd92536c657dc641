-- ===== src/Examples/Fitment.antt =====
-- An application that waits for a decision, a draft of its part, and two decisions on it.
use ebay_pricing_intelligenc.Prelude.{
  ℕ, length, false, String, count, ◌≡◌, refl, true, [], ◌∷◌, none, some, Result, ok, err, Failure,
}
use ebay_pricing_intelligenc.Database.Memory.{memory, memory-IsDocumented}
use ebay_pricing_intelligenc.Schema.Double.{Fixed}
use ebay_pricing_intelligenc.Schema.Store.{record_audit_event, enqueue_outbox_event}
use ebay_pricing_intelligenc.Access.{OrganizationRole}
use ebay_pricing_intelligenc.Fitment.{
  Application, ApplicationSource, ApplicationStatus, DraftStatus, FitmentStore, invalidate_draft,
  readiness_issues,
}
use ebay_pricing_intelligenc.Market.Matching.{is_empty}
use ebay_pricing_intelligenc.Fitment.Properties.{Texts}
use ebay_pricing_intelligenc.Fitment.Manual.{find_application}
use ebay_pricing_intelligenc.Fitment.Decide.{
  Decision, DecideInput, decided, next_status, is_decidable, decide_tx, decide_manual_fitment,
}
use ebay_pricing_intelligenc.Fitment.Invalidated.{is_usable}
use ebay_pricing_intelligenc.Fitment.Cleared.{is_other, decide_manual_fitment-IsCleared}
use ebay_pricing_intelligenc.Catalog.Sku.{trim_start, trim_end}
use ebay_pricing_intelligenc.Schema.{FitmentItemStatus, FitmentJobStatus}
use ebay_pricing_intelligenc.Fitment.Discovery.{
  ReviewJob, ReviewStore, Words, refreshed, job_status, normalize_fitment_applications,
}
use ebay_pricing_intelligenc.Fitment.Approve.{
  is_current, Compatibility, ApproveInput, Review, check_approve, approve_tx, refresh_fitment_job,
  approve_fitment_candidate,
}
use ebay_pricing_intelligenc.Fitment.Current.{is_foreign, approve_fitment_candidate-IsSettled}
use ebay_pricing_intelligenc.Fitment.Once.{decide_manual_fitment-once}
use ebay_pricing_intelligenc.Examples.Data.{empty}

abbrev texts : Texts
texts = record {
  to_lower = λ t. t;
  comes_before = λ a b. true;
  fingerprint_of = λ es. 1;
  replaced_by = λ id. id ∷ [];
}

abbrev application : Application
application = record {
  id = 30;
  organization_id = 9;
  item_id = none;
  part_id = 2;
  marketplace = "EBAY_US";
  source = ApplicationSource.manual;
  status = ApplicationStatus.pending;
  fingerprint = 1;
  properties = [];
  notes = none;
  source_vehicle_id = none;
  revision = 1;
  created_by_id = 5;
  approved_by_id = none;
  approved_at = none;
  decision_reason = none;
}

abbrev fitments : FitmentStore Fixed
fitments = record {
  applications = application ∷ [];
  revisions = [];
  drafts =
      record {
        id = 31;
        organization_id = 9;
        part_id = 2;
        status = DraftStatus.ready;
        validation_issues = [];
        validated_at = none;
        live_validated_at = some 1;
        updated_by_id = 5;
        version = 1;
        content = 0;
      }
      ∷ [];
  draft_versions = [];
  vehicles = [];
  shared = empty;
}

abbrev decision : Decision → DecideInput
decision action = record {
  organization_id = 9;
  user_id = 5;
  role = OrganizationRole.owner;
  application_id = 30;
  action = action;
  reason = [];
  replace_existing = true;
}

abbrev decision_run : Result Application × FitmentStore Fixed
decision_run =
    decide_manual_fitment texts memory (λ s. s) (decision Decision.approve) 2_000 fitments

abbrev decided_application : Application
decided_application = decided (decision Decision.approve) 2 2_000 application

decides : decision_run ≡ (ok decided_application, decision_run.1)
unfolding decide_manual_fitment decide_tx invalidate_draft readiness_issues record_audit_event
    enqueue_outbox_event
decides = refl

decide_manual_fitment-once_example :
    (current : Application) × (find_application memory 9 30 fitments ≡ ok current)
    × (is_decidable Decision.approve current.status ≡ true)
    × (decided_application.status ≡ next_status Decision.approve)
    × ((second : DecideInput)
        → second.organization_id ≡ 9
        → second.application_id ≡ 30
        → (later : ℕ)
        → (e : Failure) × (decide_manual_fitment texts memory
              (λ t. decision_run.1)
              second
              later
              fitments
            ≡ (err e, decision_run.1)))
decide_manual_fitment-once_example =
    decide_manual_fitment-once memory memory-IsDocumented texts (λ s. s) (decision Decision.approve)
      2_000 fitments decision_run.1 decided_application decides

decide_manual_fitment-IsCleared_example :
    (current : Application) × (find_application memory 9 30 fitments ≡ ok current)
    × (count (is_usable 9 current.part_id) decision_run.1.drafts ≡ 0)
    × (true ≡ true → count (is_other 9 current) decision_run.1.applications ≡ 0)
decide_manual_fitment-IsCleared_example =
    decide_manual_fitment-IsCleared memory memory-IsDocumented texts (λ s. s)
      (decision Decision.approve) 2_000 fitments decision_run.1 decided_application decides refl

abbrev words : Words
words = record {
  texts = texts;
  upper = λ c. c ∷ [];
  aspect_names = [];
  replaced_by_candidate = λ epid. epid ∷ [];
}

abbrev review_job : ReviewJob
review_job = record {
  id = 40;
  organization_id = 9;
  marketplace = "EBAY_US";
  status = FitmentJobStatus.review_required;
  reviewed_items = 0;
  no_candidate_items = 0;
  failed_items = 0;
  completed_at = none;
  lease_owner = none;
  lease_expires_at = none;
}

abbrev reviews : ReviewStore Fixed
reviews = record {
  jobs = review_job ∷ [];
  items =
      record {
        id = 41;
        organization_id = 9;
        job_id = 40;
        part_id = 2;
        status = FitmentItemStatus.review_required;
        approved_candidate_id = none;
        metadata_version = none;
        application_count = 0;
        completed_at = none;
        error = none;
      }
      ∷ [];
  candidates = record { id = 42; item_id = 41; epid = 7 } ∷ [];
  fitments = fitments;
}

abbrev lookup : ℕ → String → Result Compatibility
lookup epid marketplace =
    ok (record { metadata_version = []; applications = ((1 ∷ [], 2 ∷ []) ∷ []) ∷ [] })

abbrev approval : ApproveInput
approval = record { organization_id = 9; user_id = 5; item_id = 41; candidate_id = 42 }

abbrev approval_run : Result ReviewJob × ReviewStore Fixed
approval_run = approve_fitment_candidate memory words (λ s. s) lookup approval 2_000 reviews

abbrev reviewed_job : ReviewJob
reviewed_job = refreshed (FitmentItemStatus.approved ∷ []) 2_000 review_job

approves : approval_run ≡ (ok reviewed_job, approval_run.1)
unfolding approve_fitment_candidate approve_tx refresh_fitment_job job_status
    normalize_fitment_applications invalidate_draft readiness_issues record_audit_event
    enqueue_outbox_event trim_start trim_end
approves = refl

approve_fitment_candidate-IsSettled_example :
    (review : Review) × (check_approve memory words lookup approval reviews ≡ ok review)
    × (count (is_usable 9 review.item.part_id) approval_run.1.fitments.drafts ≡ 0)
    × (count (is_foreign review 9) approval_run.1.fitments.applications ≡ 0)
    × (count (is_current review 9) approval_run.1.fitments.applications
        ≡ length review.applications)
    × (is_empty review.applications ≡ false)
approve_fitment_candidate-IsSettled_example =
    approve_fitment_candidate-IsSettled words memory memory-IsDocumented (λ s. s) lookup approval
      2_000 reviews approval_run.1 reviewed_job approves
