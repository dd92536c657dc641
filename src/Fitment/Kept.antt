-- ===== src/Fitment/Kept.antt =====
-- What the writes of a decision leave as it was: apps/api/src/manual-fitment-service.ts.
use ebay_pricing_intelligenc.Prelude.{
  revise, ℕ, ◌≡◌, ◌+◌, ◌∙◌, refl, sym, ap, subst, String, Bool, true, false, List, [], ◌∷◌, ◌++◌,
  Result, ok, err, >>=-eq-ok, ◌==◌, ◌&&◌, arith, any, find, find-revised, Bool-cases, inl, inr,
}
use ebay_pricing_intelligenc.Schema.Store.{
  of_option-eq-ok, of_option, record_audit_event, enqueue_outbox_event,
}
use ebay_pricing_intelligenc.Database.{p2002, p2025}
use ebay_pricing_intelligenc.Database.Memory.{memory, update-eq-ok}
use ebay_pricing_intelligenc.Schema.{AuditEvent}
use ebay_pricing_intelligenc.Fitment.{
  Application, Draft, Revision, FitmentStore, invalidate_draft, invalidate_all, readiness_issues,
  blocked_draft, same_version,
}
use ebay_pricing_intelligenc.Fitment.Properties.{Texts}
use ebay_pricing_intelligenc.Fitment.Manual.{
  same_revision, update_application, create_revision, audit_fitment, publish_fitment, invalidate_if,
}
use ebay_pricing_intelligenc.Fitment.Decide.{DecideInput, is_approve, replaced}

module _ {W : Type 0} where
  -- What the writes to the drafts, the events and the outbox leave.
  abbrev pub IsKept : FitmentStore W → FitmentStore W → Type 0
  IsKept s s' = (s'.applications ≡ s.applications) × (s'.revisions ≡ s.revisions)

  pub IsKept-trans : (s t u : FitmentStore W) → IsKept s t → IsKept t u → IsKept s u
  IsKept-trans s t u h k = (k.0 ∙ h.0, k.1 ∙ h.1)

  abbrev pub store_in : FitmentStore W → Result (FitmentStore W) → FitmentStore W
  store_in default (err x) = default
  store_in default (ok s) = s

  abbrev pub pair_in :
      Application × FitmentStore W
      → Result (Application × FitmentStore W)
      → Application × FitmentStore W
  pair_in default (err x) = default
  pair_in default (ok r) = r

  -- A store that is another with new drafts, versions and shared tables.
  abbrev pub IsKept_of : (s s' t : FitmentStore W) → ok s' ≡ ok t → IsKept s s' → IsKept s t
  IsKept_of s s' t e h = subst (IsKept s) (ap (store_in s') e) h

  invalidate_draft-IsKept :
      (message : String) (user_id now : ℕ) (d : Draft) (s s' : FitmentStore W)
      → invalidate_draft memory message user_id now d s ≡ ok s'
      → IsKept s s'
  unfolding invalidate_draft
  invalidate_draft-IsKept message user_id now d s s' e =
      let (drafts, written, e₁) =
        >>=-eq-ok
          (memory.update (λ a b. false) (λ (r : Draft). r.id == d.id)
            (blocked_draft (readiness_issues d.validation_issues message) (d.version + 1) user_id
              now)
            s.drafts)
          _ e in
      let (versions, created, e₂) =
        >>=-eq-ok
          (of_option p2002 (
            memory.create same_version
              (record {
                organization_id = d.organization_id;
                draft_id = d.id;
                version = d.version + 1;
                snapshot = (d.content, readiness_issues d.validation_issues message);
                reason = message;
                created_by_id = user_id;
              })
              s.draft_versions))
          _ e₁ in
      let (shared, published, e₃) =
        >>=-eq-ok
          (enqueue_outbox_event memory d.organization_id "listing.draft.fitment_invalidated" d.id
            now s.shared)
          _ e₂ in
      IsKept_of s _ s' e₃ (refl, refl)

  pub invalidate_all-IsKept :
      (message : String) (user_id now : ℕ) (ds : List Draft) (s s' : FitmentStore W)
      → invalidate_all memory message user_id now ds s ≡ ok s'
      → IsKept s s'
  invalidate_all-IsKept message user_id now [] s s' e = IsKept_of s s s' e (refl, refl)
  invalidate_all-IsKept message user_id now (d ∷ ds) s s' e =
      let (s₁, first, e₁) = >>=-eq-ok (invalidate_draft memory message user_id now d s) _ e in
      IsKept-trans s s₁ s' (invalidate_draft-IsKept message user_id now d s s₁ first)
        (invalidate_all-IsKept message user_id now ds s₁ s' e₁)

  -- A revision is new to the index, and in the table afterwards.
  pub create_revision-eq-ok :
      (row : Revision) (s s' : FitmentStore W)
      → create_revision memory row s ≡ ok s'
      → (any (same_revision row) s.revisions ≡ false) × (s'.revisions ≡ s.revisions ++ row ∷ [])
  create_revision-eq-ok row s s' e = elim (Bool-cases (any (same_revision row) s.revisions)) [
    | inl taken ↦ ground (arith, rw taken at e)
    | inr free ↦ (free, sym (ap (λ r. (store_in s r).revisions) (rw free at e)))
  ]

  pub create_revision-applications :
      (row : Revision) (s s' : FitmentStore W)
      → create_revision memory row s ≡ ok s'
      → s'.applications ≡ s.applications
  create_revision-applications row s s' e =
      let (rows, created, e₁) =
        >>=-eq-ok (of_option p2002 (memory.create same_revision row s.revisions)) _ e in
      sym (ap (λ r. (store_in s r).applications) e₁)

  pub audit_fitment-IsKept :
      (event : AuditEvent) (s s' : FitmentStore W)
      → audit_fitment memory event s ≡ ok s'
      → IsKept s s'
  audit_fitment-IsKept event s s' e =
      let (shared, written, e₁) = >>=-eq-ok (record_audit_event memory event s.shared) _ e in
      IsKept_of s _ s' e₁ (refl, refl)

  pub publish_fitment-IsKept :
      (organization_id : ℕ) (topic : String) (id now : ℕ) (s s' : FitmentStore W)
      → publish_fitment memory organization_id topic id now s ≡ ok s'
      → IsKept s s'
  publish_fitment-IsKept organization_id topic id now s s' e =
      let (shared, written, e₁) =
        >>=-eq-ok (enqueue_outbox_event memory organization_id topic id now s.shared) _ e in
      IsKept_of s _ s' e₁ (refl, refl)

  pub audit_fitment-drafts :
      (event : AuditEvent) (s s' : FitmentStore W)
      → audit_fitment memory event s ≡ ok s'
      → s'.drafts ≡ s.drafts
  audit_fitment-drafts event s s' e =
      let (shared, written, e₁) = >>=-eq-ok (record_audit_event memory event s.shared) _ e in
      sym (ap (λ r. (store_in s r).drafts) e₁)

  pub publish_fitment-drafts :
      (organization_id : ℕ) (topic : String) (id now : ℕ) (s s' : FitmentStore W)
      → publish_fitment memory organization_id topic id now s ≡ ok s'
      → s'.drafts ≡ s.drafts
  publish_fitment-drafts organization_id topic id now s s' e =
      let (shared, written, e₁) =
        >>=-eq-ok (enqueue_outbox_event memory organization_id topic id now s.shared) _ e in
      sym (ap (λ r. (store_in s r).drafts) e₁)

  pub invalidate_if-IsKept :
      (b : Bool) (organization_id part_id : ℕ) (message : String) (user_id now : ℕ)
      (s s' : FitmentStore W)
      → invalidate_if memory b organization_id part_id message user_id now s ≡ ok s'
      → IsKept s s'
  invalidate_if-IsKept false organization_id part_id message user_id now s s' e =
      IsKept_of s s s' e (refl, refl)
  invalidate_if-IsKept true organization_id part_id message user_id now s s' e =
      invalidate_all-IsKept message user_id now _ s s' e

  pub replaced-revisions :
      (texts : Texts) (input : DecideInput) (current : Application) (s : FitmentStore W)
      → (replaced texts memory input current s).revisions ≡ s.revisions
  replaced-revisions texts input current s =
      elim (Bool-cases (is_approve input.action && input.replace_existing)) [
        | inl here ↦ rw here refl
        | inr there ↦ rw there refl
      ]

  pub update_application-eq-ok :
      (id : ℕ) (f : Application → Application) (s : FitmentStore W)
      (r : Application × FitmentStore W)
      → ((a : Application) → (f a).id ≡ a.id)
      → update_application memory id f s ≡ ok r
      → (r.1.revisions ≡ s.revisions)
        × ((a : Application) × (r.0 ≡ f a))
        × (r.1.applications ≡ revise (λ a. a.id == id) f s.applications)
  update_application-eq-ok id f s r same e =
      let (rows, written, e₁) =
        >>=-eq-ok (memory.update (λ a b. false) (λ (a : Application). a.id == id) f s.applications)
          _ e in
      let (updated, found, e₂) =
        >>=-eq-ok (of_option p2025 (find (λ (a : Application). a.id == id) rows)) _ e₁ in
      let changed =
        (update-eq-ok (λ a b. false) (λ (a : Application). a.id == id) f s.applications rows
          written).0 in
      let (a, made) =
        find-revised (λ (a : Application). a.id == id) f s.applications updated
          (λ a. ap (λ n. n == id) (same a))
          (sym (ap (find (λ (a : Application). a.id == id)) changed)
            ∙ of_option-eq-ok _ _ updated found) in
      subst
        (λ (k : Application × FitmentStore W).
          (k.1.revisions ≡ s.revisions)
          × ((a : Application) × (k.0 ≡ f a))
          × (k.1.applications ≡ revise (λ a. a.id == id) f s.applications))
        (ap (pair_in r) e₂) (refl, (a, made), changed)
