-- ===== src/Fitment/Approve.antt =====
-- `refreshFitmentJob` and `approveFitmentCandidate` of apps/api/src/fitment-service.ts. `meanwhile` is
-- what other requests do between the reads and the transaction.
use ebay_pricing_intelligenc.Prelude.{
  ℕ, ◌+◌, String, Bool, true, false, not, ◌&&◌, List, [], ◌∷◌, Option, none, some, Result, ok, err,
  fail, ◌>>=◌, ◌>>◌, require, ◌==◌, map, length,
}
use text.Mathlib.Text.{◌==◌ as str_eq}
use ebay_pricing_intelligenc.Database.{Prisma, p2002}
use ebay_pricing_intelligenc.Schema.{AuditSeverity, FitmentItemStatus, FitmentJobStatus}
use ebay_pricing_intelligenc.Schema.Store.{of_option}
use ebay_pricing_intelligenc.Market.Matching.{Text, is_empty}
use ebay_pricing_intelligenc.Fitment.{
  ApplicationSource, ApplicationStatus, Application, FitmentStore, invalidate_fitment_drafts,
}
use ebay_pricing_intelligenc.Fitment.Properties.{Entries}
use ebay_pricing_intelligenc.Fitment.Manual.{is_approved, fitment_event, audit_fitment}
use ebay_pricing_intelligenc.Fitment.Discovery.{
  ReviewJob, ReviewItem, CandidateRow, ReviewStore, Words, normalize_fitment_applications,
  needs_review, item_is_approved, refreshed,
}

-- What eBay answers for a product: the version of its data, and the applications.
pub record Compatibility : Type 0 where
  pub metadata_version : Text
  pub applications : List Entries

pub record ApproveInput : Type 0 where
  pub organization_id : ℕ
  pub user_id : ℕ
  pub item_id : ℕ
  pub candidate_id : ℕ

-- What is read before the transaction.
pub record Review : Type 0 where
  pub item : ReviewItem
  pub job : ReviewJob
  pub candidate : CandidateRow
  pub metadata_version : Text
  pub applications : List (ℕ × Entries)

abbrev pub runs_under : ℕ → Option ℕ → ReviewJob → Bool
runs_under job_id none j = j.id == job_id
runs_under job_id (some owner) j =
    j.id == job_id
    && elim j.status [ FitmentJobStatus.running ↦ true | _ ↦ false ]
    && elim j.lease_owner [ none ↦ false | some o ↦ o == owner ]

abbrev pub same_application : Application → Application → Bool
same_application a b = elim a.item_id [
  | none ↦ false
  | some i ↦ elim b.item_id [ none ↦ false | some j ↦ i == j && a.fingerprint == b.fingerprint ]
]

abbrev pub is_current : Review → ℕ → Application → Bool
is_current review organization_id a =
    a.organization_id == organization_id
    && a.part_id == review.item.part_id
    && str_eq a.marketplace review.job.marketplace
    && is_approved a.status

abbrev pub approved_item : Review → ℕ → ReviewItem → ReviewItem
approved_item review now i = record i {
  status = FitmentItemStatus.approved;
  approved_candidate_id = some review.candidate.id;
  metadata_version = some review.metadata_version;
  application_count = length review.applications;
  completed_at = some now;
  error = none;
}

abbrev pub catalog_application : ApproveInput → Review → ℕ → ℕ → ℕ × Entries → Application
catalog_application input review now id found = record {
  id = id;
  organization_id = input.organization_id;
  item_id = some review.item.id;
  part_id = review.item.part_id;
  marketplace = review.job.marketplace;
  source = ApplicationSource.ebay_catalog;
  status = ApplicationStatus.approved;
  fingerprint = found.0;
  properties = found.1;
  notes = none;
  source_vehicle_id = none;
  revision = 1;
  created_by_id = input.user_id;
  approved_by_id = some input.user_id;
  approved_at = some now;
  decision_reason = none;
}

module _ (db : Prisma) {W : Type 0} where
  unfoldable pub refresh_fitment_job : ℕ → Option ℕ → ℕ → ReviewStore W → ReviewStore W
  refresh_fitment_job job_id lease_owner now s =
      let statuses =
        map (λ (i : ReviewItem). i.status)
          (db.find_many (λ (i : ReviewItem). i.job_id == job_id) s.items) in
      record s {
        jobs = (db.update_many (runs_under job_id lease_owner) (refreshed statuses now) s.jobs).0;
      }

  -- `createMany`
  abbrev pub create_applications :
      ApproveInput → Review → ℕ → List (ℕ × Entries) → FitmentStore W → Result (FitmentStore W)
  create_applications input review now [] s = ok s
  create_applications input review now (found ∷ rest) s = do
    applications ← of_option p2002 (
        db.create same_application (catalog_application input review now s.shared.next_id found)
          s.applications)
    create_applications input review now rest (record s {
      applications = applications;
      shared = record s.shared { next_id = s.shared.next_id + 1 };
    })

  module _ (words : Words) where
    abbrev pub supersede_current : ApproveInput → Review → FitmentStore W → FitmentStore W
    supersede_current input review s = record s {
      applications =
          (db.update_many (is_current review input.organization_id)
            (λ a. record a {
              status = ApplicationStatus.superseded;
              decision_reason = some (words.replaced_by_candidate review.candidate.epid);
            })
            s.applications).0;
    }

    -- The callback of the transaction.
    unfoldable pub approve_tx :
        ApproveInput → Review → ℕ → ReviewStore W → Result (Bool × ReviewStore W)
    approve_tx input review now s = do
      created ←
          create_applications input review now review.applications
            (supersede_current input review s.fitments)
      items ←
          db.update (λ a b. false) (λ (i : ReviewItem). i.id == review.item.id)
            (approved_item review now) s.items
      invalidated ←
          invalidate_fitment_drafts db input.organization_id review.item.part_id
            "eBay catalog compatibility was approved; run live validation before preparing inventory"
            input.user_id now created
      audited ←
          audit_fitment db
            (fitment_event input.organization_id input.user_id "fitment.catalog_candidate.approved"
              review.item.id AuditSeverity.info)
            invalidated
      ok (true, record s { items = items; fitments = audited })

    -- `lookup` is the call of eBay; a failure of it is one of status 502.
    abbrev pub check_approve :
        (ℕ → String → Result Compatibility) → ApproveInput → ReviewStore W → Result Review
    check_approve lookup input s = do
      item ← of_option (fail 404 "Fitment review item not found") (
          db.find_first
            (λ (i : ReviewItem).
              i.id == input.item_id && i.organization_id == input.organization_id)
            s.items)
      -- the relation `fitmentJob`, which a foreign key keeps
      job ←
          of_option (fail 404 "Fitment review item not found")
            (db.find_first (λ (j : ReviewJob). j.id == item.job_id) s.jobs)
      require (not (item_is_approved item.status)) 409 "This fitment item has already been approved"
      require (needs_review item.status) 409 "This fitment item is not ready for review"
      candidate ← of_option (fail 404 "Candidate does not belong to this fitment item") (
          db.find_first (λ (c : CandidateRow). c.id == input.candidate_id && c.item_id == item.id)
            s.candidates)
      compatibility ← lookup candidate.epid job.marketplace
      let applications = normalize_fitment_applications words compatibility.applications
      require (not (is_empty applications)) 400
          "eBay returned no compatibility applications for this product candidate"
      ok (record {
        item = item;
        job = job;
        candidate = candidate;
        metadata_version = compatibility.metadata_version;
        applications = applications;
      })

    abbrev pub job_after :
        ApproveInput → Review → ℕ → Result Bool × ReviewStore W → Result ReviewJob × ReviewStore W
    job_after input review now (err e, s) = (err e, s)
    job_after input review now (ok done, s) =
        let s₁ = refresh_fitment_job review.job.id none now s in
        (
          of_option (fail 404 "Fitment job not found") (
              db.find_first
                (λ (j : ReviewJob).
                  j.id == review.job.id && j.organization_id == input.organization_id)
                s₁.jobs),
          s₁,
        )

    abbrev pub approve_checked :
        (ReviewStore W → ReviewStore W)
        → ApproveInput
        → ℕ
        → Result Review
        → ReviewStore W
        → Result ReviewJob × ReviewStore W
    approve_checked meanwhile input now (err e) s = (err e, meanwhile s)
    approve_checked meanwhile input now (ok review) s =
        job_after input review now (db.transaction (approve_tx input review now) (meanwhile s))

    unfoldable pub approve_fitment_candidate :
        (ReviewStore W → ReviewStore W)
        → (ℕ → String → Result Compatibility)
        → ApproveInput
        → ℕ
        → ReviewStore W
        → Result ReviewJob × ReviewStore W
    approve_fitment_candidate meanwhile lookup input now s =
        approve_checked meanwhile input now (check_approve lookup input s) s
