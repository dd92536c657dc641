-- ===== src/Fitment.antt =====
-- The compatibility of a part with vehicles: the tables of apps/api/src/manual-fitment-service.ts, and
-- `invalidateFitmentDrafts`.
pub mod Properties
pub mod Manual
pub mod Create
pub mod Revise
pub mod Decide
pub mod Kept
pub mod Once
pub mod Invalidated
pub mod Decided
pub mod Cleared
pub mod Discovery
pub mod Approve
pub mod Current
use ebay_pricing_intelligenc.Prelude.{
  ℕ, ◌+◌, String, Bool, true, false, not, ◌&&◌, List, [], ◌∷◌, ◌++◌, Option, none, some, Result, ok,
  err, fail, Failure, ◌>>=◌, ◌==◌, select, if◌then◌else◌,
}
use text.Mathlib.Text.{◌==◌ as str_eq}
use ebay_pricing_intelligenc.Database.{Prisma, p2002}
use ebay_pricing_intelligenc.Schema.Store.{Store, of_option, enqueue_outbox_event}
use ebay_pricing_intelligenc.Market.Matching.{Text}

-- enum FitmentApplicationSource
pub data ApplicationSource : Type 0 where
  ebay_catalog manual donor_vehicle : ApplicationSource

-- enum FitmentApplicationStatus
pub data ApplicationStatus : Type 0 where
  pending approved rejected superseded : ApplicationStatus

-- model FitmentApplication
pub record Application : Type 0 where
  pub id : ℕ
  pub organization_id : ℕ
  pub item_id : Option ℕ
  pub part_id : ℕ
  pub marketplace : String
  pub source : ApplicationSource
  pub status : ApplicationStatus
  pub fingerprint : ℕ
  pub properties : List (Text × Text)
  pub notes : Option Text
  pub source_vehicle_id : Option ℕ
  pub revision : ℕ
  pub created_by_id : ℕ
  pub approved_by_id : Option ℕ
  pub approved_at : Option ℕ
  pub decision_reason : Option Text

-- model FitmentApplicationRevision; the snapshot is the application as it was written.
pub record Revision : Type 0 where
  pub organization_id : ℕ
  pub application_id : ℕ
  pub revision : ℕ
  pub snapshot : Application
  pub reason : Text
  pub created_by_id : ℕ

-- enum ListingDraftStatus
pub data DraftStatus : Type 0 where
  draft ready blocked : DraftStatus

pub record Issue : Type 0 where
  pub code : String
  pub message : String

-- model ListingDraft; `content` stands for what a listing shows, from the title to the location.
pub record Draft : Type 0 where
  pub id : ℕ
  pub organization_id : ℕ
  pub part_id : ℕ
  pub status : DraftStatus
  pub validation_issues : List Issue
  pub validated_at : Option ℕ
  pub live_validated_at : Option ℕ
  pub updated_by_id : ℕ
  pub version : ℕ
  pub content : ℕ

-- model ListingDraftVersion; the snapshot is the content and the issues.
pub record DraftVersion : Type 0 where
  pub organization_id : ℕ
  pub draft_id : ℕ
  pub version : ℕ
  pub snapshot : ℕ × List Issue
  pub reason : String
  pub created_by_id : ℕ

-- The columns of model Vehicle that the service reads; a year is the text that `String` makes of it.
pub record Vehicle : Type 0 where
  pub id : ℕ
  pub part_id : ℕ
  pub year : Option Text
  pub make : Option Text
  pub model_name : Option Text
  pub trim_name : Option Text
  pub engine : Option Text

pub record FitmentStore (W : Type 0) : Type 0 where
  pub applications : List Application
  pub revisions : List Revision
  pub drafts : List Draft
  pub draft_versions : List DraftVersion
  pub vehicles : List Vehicle
  pub shared : Store W

abbrev pub revalidation_code : String
revalidation_code = "FITMENT_REVALIDATION_REQUIRED"

unfoldable pub readiness_issues : List Issue → String → List Issue
readiness_issues issues message =
    select (λ i. not (str_eq i.code revalidation_code)) issues
    ++ record { code = revalidation_code; message = message } ∷ []

abbrev pub blocked_draft : List Issue → ℕ → ℕ → ℕ → Draft → Draft
blocked_draft issues version user_id now d = record d {
  status = blocked;
  validation_issues = issues;
  validated_at = some now;
  live_validated_at = none;
  updated_by_id = user_id;
  version = version;
}

abbrev pub same_version : DraftVersion → DraftVersion → Bool
same_version a b = a.draft_id == b.draft_id && a.version == b.version

module _ (db : Prisma) {W : Type 0} where
  -- The body of the loop.
  unfoldable pub invalidate_draft :
      String → ℕ → ℕ → Draft → FitmentStore W → Result (FitmentStore W)
  invalidate_draft message user_id now d s = do
    let issues = readiness_issues d.validation_issues message
    drafts ←
        db.update (λ a b. false) (λ (r : Draft). r.id == d.id)
          (blocked_draft issues (d.version + 1) user_id now) s.drafts
    draft_versions ← of_option p2002 (
        db.create same_version
          (record {
            organization_id = d.organization_id;
            draft_id = d.id;
            version = d.version + 1;
            snapshot = (d.content, issues);
            reason = message;
            created_by_id = user_id;
          })
          s.draft_versions)
    shared ←
        enqueue_outbox_event db d.organization_id "listing.draft.fitment_invalidated" d.id now
          s.shared
    ok (record s { drafts = drafts; draft_versions = draft_versions; shared = shared })

  abbrev pub invalidate_all : String → ℕ → ℕ → List Draft → FitmentStore W → Result (FitmentStore W)
  invalidate_all message user_id now [] s = ok s
  invalidate_all message user_id now (d ∷ ds) s = do
    s₁ ← invalidate_draft message user_id now d s
    invalidate_all message user_id now ds s₁

  abbrev pub invalidate_fitment_drafts :
      ℕ → ℕ → String → ℕ → ℕ → FitmentStore W → Result (FitmentStore W)
  invalidate_fitment_drafts organization_id part_id message user_id now s =
      invalidate_all message user_id now
        (db.find_many (λ d. d.organization_id == organization_id && d.part_id == part_id) s.drafts)
        s
