-- ===== src/Fitment/Invalidated.antt =====
-- What a decision leaves of the listing drafts of its part: `invalidateFitmentDrafts` and
-- `decideManualFitment` of apps/api/src/manual-fitment-service.ts.
use ebay_pricing_intelligenc.Prelude.{
  ℕ, ◌≡◌, ◌+◌, ◌∙◌, refl, sym, ap, subst, String, Bool, true, false, List, [], ◌∷◌, ok, >>=-eq-ok,
  ◌==◌, ==_iff, not, ◌&&◌, ◌||◌, is_some, arith, any, count, select, revise, All, All-map,
  All-revise, Bool-cases, inl, inr, value_in,
}
use ebay_pricing_intelligenc.Database.{p2002}
use ebay_pricing_intelligenc.Database.Memory.{memory, update-eq-ok}
use ebay_pricing_intelligenc.Schema.Store.{of_option, enqueue_outbox_event}
use ebay_pricing_intelligenc.Fitment.{
  DraftStatus, blocked, Draft, FitmentStore, invalidate_draft, invalidate_all,
  invalidate_fitment_drafts, readiness_issues, blocked_draft, same_version,
}

abbrev pub is_blocked : DraftStatus → Bool
is_blocked blocked = true
is_blocked _ = false

abbrev pub is_draft_of : ℕ → ℕ → Draft → Bool
is_draft_of organization_id part_id d = d.organization_id == organization_id && d.part_id == part_id

-- A draft of the part that could still be prepared for a listing.
abbrev pub is_usable : ℕ → ℕ → Draft → Bool
is_usable organization_id part_id d =
    is_draft_of organization_id part_id d
    && (not (is_blocked d.status) || is_some d.live_validated_at)

abbrev IsListed : ℕ → ℕ → List Draft → Draft → Type 0
IsListed organization_id part_id ds d =
    is_usable organization_id part_id d ≡ true → any (λ e. d.id == e.id) ds ≡ true

any-select_cons :
    (p q : Draft → Bool) (d : Draft) (ds : List Draft)
    → any p (select q ds) ≡ true
    → any p (select q (d ∷ ds)) ≡ true
any-select_cons p q d ds h = elim (Bool-cases (q d)) [
  | inl here ↦ ground (arith, here, h)
  | inr other ↦ ground (arith, other, h)
]

first_IsListed :
    (organization_id part_id : ℕ) (d : Draft) (ds : List Draft)
    → IsListed organization_id part_id (select (is_draft_of organization_id part_id) (d ∷ ds)) d
first_IsListed organization_id part_id d ds u =
    let self : (d.id == d.id) ≡ true = (==_iff d.id d.id).1 refl in
    elim (Bool-cases (is_draft_of organization_id part_id d)) [
      | inl here ↦ rw here (rw self refl)
      | inr other ↦ ground (arith, rw other at u)
    ]

selected_IsListed :
    (organization_id part_id : ℕ) (ds : List Draft)
    → All (IsListed organization_id part_id (select (is_draft_of organization_id part_id) ds)) ds
selected_IsListed organization_id part_id [] = tt
selected_IsListed organization_id part_id (d ∷ ds) = (
  first_IsListed organization_id part_id d ds,
  All-map (IsListed organization_id part_id (select (is_draft_of organization_id part_id) ds))
      (IsListed organization_id part_id (select (is_draft_of organization_id part_id) (d ∷ ds))) ds
      (λ e h u.
        any-select_cons (λ k. e.id == k.id) (is_draft_of organization_id part_id) d ds (h u))
      (selected_IsListed organization_id part_id ds),
)

none_usable :
    (organization_id part_id : ℕ) (ds : List Draft)
    → All (IsListed organization_id part_id []) ds
    → count (is_usable organization_id part_id) ds ≡ 0
none_usable organization_id part_id [] h = refl
none_usable organization_id part_id (d ∷ ds) h =
    elim (Bool-cases (is_usable organization_id part_id d)) [
      | inl usable ↦ let no = h.0 usable in ground (arith, no)
      | inr unusable ↦
          let rest = none_usable organization_id part_id ds h.1 in ground (arith, unusable, rest)
    ]

module _ {W : Type 0} (organization_id part_id : ℕ) (message : String) (user_id now : ℕ) where
  invalidated_drafts :
      (d : Draft) (s s' : FitmentStore W)
      → invalidate_draft memory message user_id now d s ≡ ok s'
      → s'.drafts
        ≡ revise
            (λ r. r.id == d.id)
            (blocked_draft
              (readiness_issues d.validation_issues message)
              (d.version + 1)
              user_id
              now)
            s.drafts
  unfolding invalidate_draft
  invalidated_drafts d s s' e =
      let f =
        blocked_draft (readiness_issues d.validation_issues message) (d.version + 1) user_id now in
      let (drafts, written, e₁) =
        >>=-eq-ok (memory.update (λ a b. false) (λ (r : Draft). r.id == d.id) f s.drafts) _ e in
      let (versions, created, e₂) =
        >>=-eq-ok
          (of_option p2002 (
            memory.create same_version
              (record {
                organization_id = d.organization_id;
                draft_id = d.id;
                version = d.version + 1;
                snapshot = (d.content, readiness_issues d.validation_issues message);
                reason = message;
                created_by_id = user_id;
              })
              s.draft_versions))
          _ e₁ in
      let (shared, published, e₃) =
        >>=-eq-ok
          (enqueue_outbox_event memory d.organization_id "listing.draft.fitment_invalidated" d.id
            now s.shared)
          _ e₂ in
      sym (ap (λ r. (value_in s r).drafts) e₃)
      ∙ (update-eq-ok (λ a b. false) (λ (r : Draft). r.id == d.id) f s.drafts drafts written).0

  invalidate_all_none :
      (ds : List Draft) (s s' : FitmentStore W)
      → invalidate_all memory message user_id now ds s ≡ ok s'
      → All (IsListed organization_id part_id ds) s.drafts
      → count (is_usable organization_id part_id) s'.drafts ≡ 0
  invalidate_all_none [] s s' e h =
      subst (λ t. count (is_usable organization_id part_id) t.drafts ≡ 0) (ap (value_in s) e)
        (none_usable organization_id part_id s.drafts h)
  invalidate_all_none (d ∷ ds) s s' e h =
      let (s₁, first, e₁) = >>=-eq-ok (invalidate_draft memory message user_id now d s) _ e in
      invalidate_all_none ds s₁ s' e₁ (
        subst (All (IsListed organization_id part_id ds)) (sym (invalidated_drafts d s s₁ first)) (
          All-revise (IsListed organization_id part_id (d ∷ ds))
            (IsListed organization_id part_id ds) (λ r. r.id == d.id) _ s.drafts
            (λ r listed here u. ground (arith, u))
            (λ r listed other u. ground (arith, listed u, other)) h))

  -- An invalidation leaves no draft of the part that could be prepared for a listing.
  pub invalidate_fitment_drafts_none :
      (s s' : FitmentStore W)
      → invalidate_fitment_drafts memory organization_id part_id message user_id now s ≡ ok s'
      → count (is_usable organization_id part_id) s'.drafts ≡ 0
  invalidate_fitment_drafts_none s s' e =
      invalidate_all_none (select (is_draft_of organization_id part_id) s.drafts) s s' e
        (selected_IsListed organization_id part_id s.drafts)
