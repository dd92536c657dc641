-- ===== src/Fitment/Decided.antt =====
-- What a decision on an application writes: `decideManualFitment` of
-- apps/api/src/manual-fitment-service.ts.
use ebay_pricing_intelligenc.Prelude.{
  value_in, ℕ, ◌≡◌, ◌+◌, ◌∙◌, refl, sym, ap, subst, Bool, true, false, [], ◌∷◌, ◌++◌, ok, >>=-eq-ok,
  require, not, ◌&&◌, ◌||◌, arith, any, Bool-cases, Result-cases, inl, inr, count, revise, String,
  ◌==◌,
}
use ebay_pricing_intelligenc.Database.Memory.{memory, transaction-eq-ok}
use ebay_pricing_intelligenc.Fitment.{Application, Revision, FitmentStore}
use ebay_pricing_intelligenc.Fitment.Properties.{Texts, trimmed_text}
use ebay_pricing_intelligenc.Fitment.Manual.{
  fitment_event, same_revision, update_application, create_revision, audit_fitment, publish_fitment,
  invalidate_if, find_application,
}
use ebay_pricing_intelligenc.Fitment.Decide.{
  DecideInput, is_approve, is_supersede, message_for, action_of, severity_of, next_status, decided,
  replaced, decide_tx, decide_manual_fitment, check_decide, is_decidable, may_replace,
}
use ebay_pricing_intelligenc.Fitment.Kept.{
  IsKept, pair_in, IsKept-trans, create_revision-eq-ok, audit_fitment-IsKept,
  publish_fitment-IsKept, invalidate_if-IsKept, replaced-revisions, update_application-eq-ok,
  audit_fitment-drafts, publish_fitment-drafts, create_revision-applications,
}
use ebay_pricing_intelligenc.Fitment.Invalidated.{is_usable, invalidate_fitment_drafts_none}

abbrev pub row_of : DecideInput → Application → Application → Revision
row_of input current snapshot = record {
  organization_id = input.organization_id;
  application_id = current.id;
  revision = current.revision + 1;
  snapshot = snapshot;
  reason = trimmed_text input.reason;
  created_by_id = input.user_id;
}

module _ {W : Type 0} where
  invalidate_if_none :
      (b : Bool) (organization_id part_id : ℕ) (message : String) (user_id now : ℕ)
      (s s' : FitmentStore W)
      → b ≡ true
      → invalidate_if memory b organization_id part_id message user_id now s ≡ ok s'
      → count (is_usable organization_id part_id) s'.drafts ≡ 0
  invalidate_if_none false organization_id part_id message user_id now s s' valid e = ground arith
  invalidate_if_none true organization_id part_id message user_id now s s' valid e =
      invalidate_fitment_drafts_none organization_id part_id message user_id now s s' e

  module _ (texts : Texts) where
    abbrev pub IsDecided :
        DecideInput → Application → ℕ → FitmentStore W → Application × FitmentStore W → Type 0
    IsDecided input current now s r =
        (r.0.status ≡ next_status input.action)
        × (any (same_revision (row_of input current r.0)) s.revisions ≡ false)
        × (r.1.revisions ≡ s.revisions ++ row_of input current r.0 ∷ [])
        × (r.1.applications
            ≡ revise (λ a. a.id == current.id) (decided input (current.revision + 1) now)
                (replaced texts memory input current s).applications)
        × ((is_approve input.action || is_supersede input.action) ≡ true
            → count (is_usable input.organization_id current.part_id) r.1.drafts ≡ 0)

    -- The revision that a decision writes was free before it and is taken after it.
    pub decide_tx-eq-ok :
        (input : DecideInput) (current : Application) (now : ℕ) (s s' : FitmentStore W)
        (a : Application)
        → decide_tx texts memory input current now s ≡ ok (a, s')
        → IsDecided input current now s (a, s')
    unfolding decide_tx
    decide_tx-eq-ok input current now s s' a e =
        let f = decided input (current.revision + 1) now in
        let (updated, wrote, e₁) =
          >>=-eq-ok (update_application memory current.id f (replaced texts memory input current s))
            _ e in
        let (s₁, revised, e₂) =
          >>=-eq-ok (create_revision memory (row_of input current updated.0) updated.1) _ e₁ in
        let (s₂, invalidated, e₃) =
          >>=-eq-ok
            (invalidate_if memory (is_approve input.action || is_supersede input.action)
              input.organization_id current.part_id (message_for input.action) input.user_id now s₁)
            _ e₂ in
        let (s₃, audited, e₄) =
          >>=-eq-ok
            (audit_fitment memory
              (fitment_event input.organization_id input.user_id (action_of input.action) current.id
                (severity_of input))
              s₂)
            _ e₃ in
        let (s₄, published, e₅) =
          >>=-eq-ok
            (publish_fitment memory input.organization_id (action_of input.action) current.id now
              s₃)
            _ e₄ in
        let (kept, (b, made), rows) =
          update_application-eq-ok current.id f (replaced texts memory input current s) updated
            (λ k. refl) wrote in
        let before : updated.1.revisions ≡ s.revisions =
          kept ∙ replaced-revisions texts input current s in
        let (free, added) =
          create_revision-eq-ok (row_of input current updated.0) updated.1 s₁ revised in
        let last : IsKept s₁ s₄ =
          IsKept-trans s₁ s₂ s₄ (invalidate_if-IsKept _ _ _ _ _ _ s₁ s₂ invalidated) (
            IsKept-trans s₂ s₃ s₄ (audit_fitment-IsKept _ s₂ s₃ audited)
              (publish_fitment-IsKept _ _ _ _ s₃ s₄ published)) in
        subst (IsDecided input current now s) (ap (pair_in (a, s')) e₅) (
          ap (λ k. k.status) made,
          ap (any (same_revision (row_of input current updated.0))) (sym before) ∙ free,
          last.1 ∙ added ∙ ap (λ rows. rows ++ row_of input current updated.0 ∷ []) before,
          last.0
              ∙ create_revision-applications (row_of input current updated.0) updated.1 s₁ revised
              ∙ rows,
          λ valid.
              ap (count (is_usable input.organization_id current.part_id)) (
                publish_fitment-drafts _ _ _ _ s₃ s₄ published
                ∙ audit_fitment-drafts _ s₂ s₃ audited)
              ∙ invalidate_if_none _ _ _ _ _ _ s₁ s₂ valid invalidated,
        )

    pub check_decide-eq-ok :
        (input : DecideInput) (s : FitmentStore W) (current : Application)
        → check_decide texts memory input s ≡ ok current
        → (find_application memory input.organization_id input.application_id s ≡ ok current)
          × (is_decidable input.action current.status ≡ true)
    check_decide-eq-ok input s current e =
        let (c, found, e₁) =
          >>=-eq-ok (find_application memory input.organization_id input.application_id s) _ e in
        let (u, may, e₂) =
          >>=-eq-ok
            (require
              (not (
                (is_supersede input.action || input.replace_existing)
                && not (may_replace input.role)))
              403 "Only an owner, admin, or manager can replace or remove approved compatibility")
            _ e₁ in
        elim (Bool-cases (is_decidable input.action c.status)) [
          | inl right ↦
              subst
                (λ k.
                  (find_application memory input.organization_id input.application_id s ≡ ok k)
                  × (is_decidable input.action k.status ≡ true))
                (ap (value_in c) (rw right at e₂)) (found, right)
          | inr wrong ↦ ground (arith, rw wrong at e₂)
        ]

    pub decided_by :
        (meanwhile : FitmentStore W → FitmentStore W) (input : DecideInput) (now : ℕ)
        (s s' : FitmentStore W) (a : Application)
        → decide_manual_fitment texts memory meanwhile input now s ≡ (ok a, s')
        → (current : Application) × (check_decide texts memory input s ≡ ok current)
          × (decide_tx texts memory input current now (meanwhile s) ≡ ok (a, s'))
    unfolding decide_manual_fitment
    decided_by meanwhile input now s s' a e =
        elim (Result-cases (check_decide texts memory input s)) [
          | inr (x, failed) ↦ ground (arith, rw failed at e)
          | inl (c, passed) ↦ (
            c,
            passed,
            transaction-eq-ok (decide_tx texts memory input c now) (meanwhile s) s' a
                (rw passed at e),
          )
        ]
