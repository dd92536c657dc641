-- ===== src/Fitment/Create.antt =====
-- `createManualFitment` of apps/api/src/manual-fitment-service.ts.
use ebay_pricing_intelligenc.Prelude.{
  ℕ, ◌+◌, String, Bool, false, not, ◌&&◌, [], ◌∷◌, ◌++◌, Option, none, some, Result, ok, fail,
  ◌>>=◌, ◌>>◌, require, ◌==◌, is_some, if◌then◌else◌,
}
use ebay_pricing_intelligenc.Database.{Prisma, p2002}
use ebay_pricing_intelligenc.Schema.{AuditSeverity, Part}
use ebay_pricing_intelligenc.Schema.Store.{of_option}
use ebay_pricing_intelligenc.Market.Matching.{Text, is_empty}
use ebay_pricing_intelligenc.Fitment.{
  manual, donor_vehicle, pending, Application, Vehicle, FitmentStore,
}
use ebay_pricing_intelligenc.Fitment.Properties.{
  Entries, Texts, from_entries, normalize_manual_fitment_properties, required_vehicle_properties,
}
use ebay_pricing_intelligenc.Fitment.Manual.{
  kept_notes, fitment_event, is_duplicate, create_revision, audit_fitment, checked_in,
}

pub record CreateInput : Type 0 where
  pub organization_id : ℕ
  pub user_id : ℕ
  pub part_id : ℕ
  pub marketplace : String
  -- The source is DONOR_VEHICLE, or else MANUAL.
  pub from_donor : Bool
  pub properties : Entries
  pub notes : Option Text

abbrev pub entry_of : Text → Option Text → Entries
entry_of name none = []
entry_of name (some value) = if is_empty value then [] else (name, value) ∷ []

abbrev pub new_application : CreateInput → Option ℕ → Entries × ℕ → ℕ → Application
new_application input vehicle_id normalized id = record {
  id = id;
  organization_id = input.organization_id;
  item_id = none;
  part_id = input.part_id;
  marketplace = input.marketplace;
  source = if input.from_donor then donor_vehicle else manual;
  status = pending;
  fingerprint = normalized.1;
  properties = normalized.0;
  notes = kept_notes input.notes;
  source_vehicle_id = if input.from_donor then vehicle_id else none;
  revision = 1;
  created_by_id = input.user_id;
  approved_by_id = none;
  approved_at = none;
  decision_reason = none;
}

module _ (texts : Texts) where
  -- The properties of the donor vehicle, spelled as the service does: Year, Make, Model, Trim, Engine.
  abbrev pub donor_properties : Option Vehicle → Entries
  donor_properties none = []
  donor_properties (some v) =
      entry_of (89 ∷ 101 ∷ 97 ∷ 114 ∷ []) v.year
      ++ entry_of (77 ∷ 97 ∷ 107 ∷ 101 ∷ []) v.make
      ++ entry_of (77 ∷ 111 ∷ 100 ∷ 101 ∷ 108 ∷ []) v.model_name
      ++ entry_of (84 ∷ 114 ∷ 105 ∷ 109 ∷ []) v.trim_name
      ++ entry_of (69 ∷ 110 ∷ 103 ∷ 105 ∷ 110 ∷ 101 ∷ []) v.engine

  module _ (db : Prisma) {W : Type 0} where
    unfoldable pub create_tx :
        CreateInput → Application → Text → FitmentStore W → Result (Application × FitmentStore W)
    create_tx input a reason s = do
      applications ← of_option p2002 (db.create (λ x y. false) a s.applications)
      s₁ ←
          create_revision db
            (record {
              organization_id = input.organization_id;
              application_id = a.id;
              revision = a.revision;
              snapshot = a;
              reason = reason;
              created_by_id = input.user_id;
            })
            (record s {
              applications = applications;
              shared = record s.shared { next_id = s.shared.next_id + 1 };
            })
      s₂ ←
          audit_fitment db
            (fitment_event input.organization_id input.user_id "fitment.application.created" a.id
              AuditSeverity.info)
            s₁
      ok (a, s₂)

    -- What `createManualFitment` checks before its transaction: the vehicle and the properties.
    abbrev pub check_create : CreateInput → FitmentStore W → Result (Option ℕ × (Entries × ℕ))
    check_create input s = do
      part ← of_option (fail 404 "Catalog part not found or archived") (
          db.find_first
            (λ (p : Part).
              p.id == input.part_id
              && p.organization_id == input.organization_id
              && not p.is_archived)
            s.shared.parts)
      let donor = db.find_first (λ (v : Vehicle). v.part_id == part.id) s.vehicles
      require (not (input.from_donor && not (is_some donor))) 409
          "This part has no donor vehicle; add a VIN-backed vehicle or use manual fitment"
      normalized ← normalize_manual_fitment_properties texts (
          from_entries []
            ((if input.from_donor then donor_properties donor else []) ++ input.properties))
      required_vehicle_properties texts normalized.0
      require
          (not (
            is_some (
              db.find_first
                (is_duplicate input.organization_id input.part_id input.marketplace normalized.1)
                s.applications)))
          409 "An active application with the same compatibility already exists"
      ok (elim donor [ none ↦ none | some v ↦ some v.id ], normalized)

    -- `reason` is "Manual fitment application created".
    unfoldable pub create_manual_fitment :
        (FitmentStore W → FitmentStore W)
        → CreateInput
        → Text
        → FitmentStore W
        → Result Application × FitmentStore W
    create_manual_fitment meanwhile input reason s =
        checked_in meanwhile s (check_create input s) (λ checked t.
          db.transaction
            (λ s₁.
              create_tx input (new_application input checked.0 checked.1 s₁.shared.next_id) reason
                s₁)
            t)
