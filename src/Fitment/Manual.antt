-- ===== src/Fitment/Manual.antt =====
-- What the operations on manual compatibility share: apps/api/src/manual-fitment-service.ts.
-- `meanwhile` is what other requests do between the reads and the transaction.
use ebay_pricing_intelligenc.Prelude.{
  ℕ, String, Bool, true, false, ◌&&◌, ◌||◌, Option, none, some, Result, ok, err, fail, ◌>>=◌, ◌==◌,
  if◌then◌else◌,
}
use text.Mathlib.Text.{◌==◌ as str_eq}
use ebay_pricing_intelligenc.Database.{Prisma, p2002, p2025}
use ebay_pricing_intelligenc.Schema.{AuditEvent, AuditSeverity}
use ebay_pricing_intelligenc.Schema.Store.{of_option, record_audit_event, enqueue_outbox_event}
use ebay_pricing_intelligenc.Market.Matching.{Text, is_empty}
use ebay_pricing_intelligenc.Fitment.{
  ApplicationSource, ApplicationStatus, ebay_catalog, pending, approved, superseded, Application,
  Revision, FitmentStore, invalidate_fitment_drafts,
}
use ebay_pricing_intelligenc.Fitment.Properties.{trimmed_text}

abbrev pub is_approved : ApplicationStatus → Bool
is_approved approved = true
is_approved _ = false

abbrev pub is_pending : ApplicationStatus → Bool
is_pending pending = true
is_pending _ = false

abbrev pub is_superseded : ApplicationStatus → Bool
is_superseded superseded = true
is_superseded _ = false

abbrev pub is_from_catalog : ApplicationSource → Bool
is_from_catalog ebay_catalog = true
is_from_catalog _ = false

-- `notes?.trim() || null`
abbrev pub kept_notes : Option Text → Option Text
kept_notes none = none
kept_notes (some notes) = if is_empty (trimmed_text notes) then none else some (trimmed_text notes)

abbrev pub fitment_event : ℕ → ℕ → String → ℕ → AuditSeverity → AuditEvent
fitment_event organization_id user_id action resource_id severity = record {
  organization_id = organization_id;
  actor_user_id = some user_id;
  action = action;
  resource_id = resource_id;
  severity = severity;
}

abbrev pub same_revision : Revision → Revision → Bool
same_revision a b = a.application_id == b.application_id && a.revision == b.revision

-- An active application of the part with the same compatibility.
abbrev pub is_duplicate : ℕ → ℕ → String → ℕ → Application → Bool
is_duplicate organization_id part_id marketplace fingerprint a =
    a.organization_id == organization_id
    && a.part_id == part_id
    && str_eq a.marketplace marketplace
    && a.fingerprint == fingerprint
    && (is_pending a.status || is_approved a.status)

abbrev pub checked_in :
    {W A : Type 0}
    → (FitmentStore W → FitmentStore W)
    → FitmentStore W
    → Result A
    → (A → FitmentStore W → Result Application × FitmentStore W)
    → Result Application × FitmentStore W
checked_in meanwhile s (err e) next = (err e, meanwhile s)
checked_in meanwhile s (ok a) next = next a (meanwhile s)

module _ (db : Prisma) {W : Type 0} where
  abbrev pub update_application :
      ℕ → (Application → Application) → FitmentStore W → Result (Application × FitmentStore W)
  update_application id f s = do
    applications ← db.update (λ a b. false) (λ (a : Application). a.id == id) f s.applications
    updated ← of_option p2025 (db.find_first (λ (a : Application). a.id == id) applications)
    ok (updated, record s { applications = applications })

  abbrev pub create_revision : Revision → FitmentStore W → Result (FitmentStore W)
  create_revision row s = do
    revisions ← of_option p2002 (db.create same_revision row s.revisions)
    ok (record s { revisions = revisions })

  abbrev pub audit_fitment : AuditEvent → FitmentStore W → Result (FitmentStore W)
  audit_fitment event s = do
    shared ← record_audit_event db event s.shared
    ok (record s { shared = shared })

  abbrev pub publish_fitment : ℕ → String → ℕ → ℕ → FitmentStore W → Result (FitmentStore W)
  publish_fitment organization_id topic id now s = do
    shared ← enqueue_outbox_event db organization_id topic id now s.shared
    ok (record s { shared = shared })

  abbrev pub find_application : ℕ → ℕ → FitmentStore W → Result Application
  find_application organization_id id s = of_option (fail 404 "Fitment application not found") (
      db.find_first (λ (a : Application). a.id == id && a.organization_id == organization_id)
        s.applications)

  abbrev pub invalidate_if :
      Bool → ℕ → ℕ → String → ℕ → ℕ → FitmentStore W → Result (FitmentStore W)
  invalidate_if false organization_id part_id message user_id now s = ok s
  invalidate_if true organization_id part_id message user_id now s =
      invalidate_fitment_drafts db organization_id part_id message user_id now s
