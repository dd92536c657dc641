-- ===== src/Fitment/Decide.antt =====
-- `decideManualFitment` of apps/api/src/manual-fitment-service.ts.
use ebay_pricing_intelligenc.Prelude.{
  ℕ, ◌+◌, String, Bool, true, false, not, ◌&&◌, ◌||◌, none, some, Result, ok, ◌>>=◌, ◌>>◌, require,
  ◌==◌, if◌then◌else◌,
}
use text.Mathlib.Text.{◌==◌ as str_eq}
use ebay_pricing_intelligenc.Database.{Prisma}
use ebay_pricing_intelligenc.Schema.{AuditSeverity}
use ebay_pricing_intelligenc.Market.Matching.{Text}
use ebay_pricing_intelligenc.Access.{OrganizationRole}
use ebay_pricing_intelligenc.Fitment.{
  ApplicationStatus, approved, rejected, superseded, Application, FitmentStore,
}
use ebay_pricing_intelligenc.Fitment.Properties.{Texts, trimmed_text}
use ebay_pricing_intelligenc.Fitment.Manual.{
  is_approved, is_pending, fitment_event, update_application, create_revision, audit_fitment,
  publish_fitment, checked_in, find_application, invalidate_if,
}

pub data Decision : Type 0 where
  approve reject supersede : Decision

pub record DecideInput : Type 0 where
  pub organization_id : ℕ
  pub user_id : ℕ
  pub role : OrganizationRole
  pub application_id : ℕ
  pub action : Decision
  pub reason : Text
  pub replace_existing : Bool

abbrev pub is_supersede : Decision → Bool
is_supersede supersede = true
is_supersede _ = false

abbrev pub is_approve : Decision → Bool
is_approve approve = true
is_approve _ = false

abbrev pub next_status : Decision → ApplicationStatus
next_status approve = approved
next_status reject = rejected
next_status supersede = superseded

abbrev pub may_replace : OrganizationRole → Bool
may_replace OrganizationRole.owner = true
may_replace OrganizationRole.admin = true
may_replace OrganizationRole.manager = true
may_replace _ = false

abbrev pub action_of : Decision → String
action_of approve = "fitment.application.approved"
action_of reject = "fitment.application.rejected"
action_of supersede = "fitment.application.superseded"

abbrev pub decided : DecideInput → ℕ → ℕ → Application → Application
decided input revision now a = record a {
  status = next_status input.action;
  revision = revision;
  approved_by_id = if is_approve input.action then some input.user_id else none;
  approved_at = if is_approve input.action then some now else none;
  decision_reason = some (trimmed_text input.reason);
}

abbrev pub severity_of : DecideInput → AuditSeverity
severity_of input =
    if is_supersede input.action || input.replace_existing
    then AuditSeverity.warning
    else AuditSeverity.info

abbrev pub message_for : Decision → String
message_for supersede =
    "Approved compatibility was removed; run live validation before preparing inventory"
message_for _ = "Approved compatibility changed; run live validation before preparing inventory"

abbrev pub is_decidable : Decision → ApplicationStatus → Bool
is_decidable supersede status = is_approved status
is_decidable _ status = is_pending status

module _ (texts : Texts) where
  module _ (db : Prisma) {W : Type 0} where
    -- updateMany of the other approved applications of the part and the marketplace
    abbrev pub supersede_others : Application → ℕ → FitmentStore W → FitmentStore W
    supersede_others current organization_id s = record s {
      applications =
          (db.update_many
            (λ (a : Application).
              a.organization_id == organization_id
              && a.part_id == current.part_id
              && str_eq a.marketplace current.marketplace
              && is_approved a.status
              && not (a.id == current.id))
            (λ a. record a {
              status = superseded;
              decision_reason = some (texts.replaced_by current.id);
            })
            s.applications).0;
    }

    abbrev pub replaced : DecideInput → Application → FitmentStore W → FitmentStore W
    replaced input current s =
        if is_approve input.action && input.replace_existing
        then supersede_others current input.organization_id s
        else s

    -- The callback of the transaction; `current` was read before it.
    unfoldable pub decide_tx :
        DecideInput → Application → ℕ → FitmentStore W → Result (Application × FitmentStore W)
    decide_tx input current now s = do
      updated ←
          update_application db current.id (decided input (current.revision + 1) now)
            (replaced input current s)
      s₁ ←
          create_revision db
            (record {
              organization_id = input.organization_id;
              application_id = current.id;
              revision = current.revision + 1;
              snapshot = updated.0;
              reason = trimmed_text input.reason;
              created_by_id = input.user_id;
            })
            updated.1
      s₂ ←
          invalidate_if db (is_approve input.action || is_supersede input.action)
            input.organization_id current.part_id (message_for input.action) input.user_id now s₁
      s₃ ←
          audit_fitment db
            (fitment_event input.organization_id input.user_id (action_of input.action) current.id
              (severity_of input))
            s₂
      s₄ ← publish_fitment db input.organization_id (action_of input.action) current.id now s₃
      ok (updated.0, s₄)

    abbrev pub check_decide : DecideInput → FitmentStore W → Result Application
    check_decide input s = do
      current ← find_application db input.organization_id input.application_id s
      require
          (not
            ((is_supersede input.action || input.replace_existing) && not (may_replace input.role)))
          403 "Only an owner, admin, or manager can replace or remove approved compatibility"
      require (is_decidable input.action current.status) 409
          "The fitment application is not in a valid state for this decision"
      ok current

    unfoldable pub decide_manual_fitment :
        (FitmentStore W → FitmentStore W)
        → DecideInput
        → ℕ
        → FitmentStore W
        → Result Application × FitmentStore W
    decide_manual_fitment meanwhile input now s =
        checked_in meanwhile s (check_decide input s)
          (λ current t. db.transaction (decide_tx input current now) t)
