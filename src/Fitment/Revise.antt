-- ===== src/Fitment/Revise.antt =====
-- `reviseManualFitment` of apps/api/src/manual-fitment-service.ts.
use ebay_pricing_intelligenc.Prelude.{
  ℕ, ◌+◌, not, ◌&&◌, Option, none, some, Result, ok, ◌>>=◌, ◌>>◌, require, ◌==◌, is_some,
}
use ebay_pricing_intelligenc.Database.{Prisma}
use ebay_pricing_intelligenc.Schema.{AuditSeverity}
use ebay_pricing_intelligenc.Market.Matching.{Text}
use ebay_pricing_intelligenc.Fitment.{pending, Application, FitmentStore}
use ebay_pricing_intelligenc.Fitment.Properties.{
  Entries, Texts, trimmed_text, normalize_manual_fitment_properties, required_vehicle_properties,
}
use ebay_pricing_intelligenc.Fitment.Manual.{
  is_approved, is_superseded, is_from_catalog, kept_notes, fitment_event, is_duplicate,
  update_application, create_revision, audit_fitment, checked_in, find_application, invalidate_if,
}

pub record ReviseInput : Type 0 where
  pub organization_id : ℕ
  pub user_id : ℕ
  pub application_id : ℕ
  pub properties : Entries
  -- `undefined` is `none`, and null an empty text.
  pub notes : Option Text
  pub reason : Text

abbrev pub notes_after : Option Text → Option Text → Option Text
notes_after none current = current
notes_after (some notes) current = kept_notes (some notes)

module _ (texts : Texts) where
  abbrev pub revised : ReviseInput → Application → Entries × ℕ → Application → Application
  revised input current normalized a = record a {
    properties = normalized.0;
    fingerprint = normalized.1;
    notes = notes_after input.notes current.notes;
    status = pending;
    revision = current.revision + 1;
    approved_by_id = none;
    approved_at = none;
    decision_reason = none;
  }

  module _ (db : Prisma) {W : Type 0} where
    -- The callback of the transaction; `current` was read before it.
    unfoldable pub revise_tx :
        ReviseInput
        → Application
        → Entries × ℕ
        → ℕ
        → FitmentStore W
        → Result (Application × FitmentStore W)
    revise_tx input current normalized now s = do
      updated ← update_application db current.id (revised input current normalized) s
      s₁ ←
          create_revision db
            (record {
              organization_id = input.organization_id;
              application_id = current.id;
              revision = current.revision + 1;
              snapshot = updated.0;
              reason = trimmed_text input.reason;
              created_by_id = input.user_id;
            })
            updated.1
      s₂ ←
          invalidate_if db (is_approved current.status) input.organization_id current.part_id
            "Approved compatibility was edited and requires review and live validation"
            input.user_id now s₁
      s₃ ←
          audit_fitment db
            (fitment_event input.organization_id input.user_id "fitment.application.revised"
              current.id AuditSeverity.warning)
            s₂
      ok (updated.0, s₃)

    abbrev pub check_revise : ReviseInput → FitmentStore W → Result (Application × (Entries × ℕ))
    check_revise input s = do
      current ← find_application db input.organization_id input.application_id s
      require (not (is_from_catalog current.source)) 409
          "eBay catalog applications are immutable; create a manual replacement"
      require (not (is_superseded current.status)) 409 "A superseded application cannot be edited"
      normalized ← normalize_manual_fitment_properties texts input.properties
      required_vehicle_properties texts normalized.0
      require
          (not (
            is_some (
              db.find_first
                (λ a.
                  is_duplicate input.organization_id current.part_id current.marketplace
                    normalized.1 a
                  && not (a.id == current.id))
                s.applications)))
          409 "An active application with the same compatibility already exists"
      ok (current, normalized)

    unfoldable pub revise_manual_fitment :
        (FitmentStore W → FitmentStore W)
        → ReviseInput
        → ℕ
        → FitmentStore W
        → Result Application × FitmentStore W
    revise_manual_fitment meanwhile input now s =
        checked_in meanwhile s (check_revise input s)
          (λ checked t. db.transaction (revise_tx input checked.0 checked.1 now) t)
