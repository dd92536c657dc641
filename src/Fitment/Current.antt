-- ===== src/Fitment/Current.antt =====
-- What an approved candidate leaves of the compatibility of its part: `approveFitmentCandidate` of
-- apps/api/src/fitment-service.ts.
use ebay_pricing_intelligenc.Prelude.{
  ℕ, ◌≡◌, ◌∙◌, refl, sym, ap, subst, String, Bool, true, false, List, [], ◌∷◌, Option, none, some,
  Result, ok, err, >>=-eq-ok, ◌==◌, ==_iff, not, ◌&&◌, arith, count, count-append,
  count-revise_none, Bool-cases, Result-cases, inl, inr, value_in, fail, find, ◌+◌, length, require,
}
use ebay_pricing_intelligenc.Database.{Prisma, IsDocumented, p2002}
use ebay_pricing_intelligenc.Database.Memory.{memory, of_memory, transaction-eq-ok}
use ebay_pricing_intelligenc.Schema.{AuditSeverity}
use ebay_pricing_intelligenc.Schema.Store.{of_option}
use ebay_pricing_intelligenc.Schema.Store.Writes.{create-eq-ok}
use text.Mathlib.TextPositions.{eq_refl}
use ebay_pricing_intelligenc.Market.Matching.{is_empty}
use ebay_pricing_intelligenc.Fitment.{
  Application, ApplicationStatus, FitmentStore, invalidate_fitment_drafts,
}
use ebay_pricing_intelligenc.Fitment.Properties.{Entries}
use ebay_pricing_intelligenc.Fitment.Manual.{fitment_event, audit_fitment}
use ebay_pricing_intelligenc.Fitment.Kept.{
  audit_fitment-drafts, audit_fitment-IsKept, invalidate_all-IsKept,
}
use ebay_pricing_intelligenc.Fitment.Invalidated.{is_usable, invalidate_fitment_drafts_none}
use ebay_pricing_intelligenc.Fitment.Discovery.{
  item_is_approved, needs_review, CandidateRow, normalize_fitment_applications, ReviewJob,
  ReviewItem, ReviewStore, Words,
}
use ebay_pricing_intelligenc.Fitment.Approve.{
  Compatibility, ApproveInput, Review, same_application, is_current, approved_item,
  catalog_application, refresh_fitment_job, create_applications, supersede_current, approve_tx,
  check_approve, job_after, approve_fitment_candidate,
}

abbrev is_of_item : ℕ → Option ℕ → Bool
is_of_item id none = false
is_of_item id (some i) = i == id

-- An approved application of the part and the marketplace that does not come from the review.
abbrev pub is_foreign : Review → ℕ → Application → Bool
is_foreign review organization_id a =
    is_current review organization_id a && not (is_of_item review.item.id a.item_id)

none_foreign :
    (review : Review) (organization_id : ℕ) (rows : List Application)
    → count (is_current review organization_id) rows ≡ 0
    → count (is_foreign review organization_id) rows ≡ 0
none_foreign review organization_id [] h = refl
none_foreign review organization_id (a ∷ rows) h =
    elim (Bool-cases (is_current review organization_id a)) [
      | inl current ↦ ground (arith, current, h)
      | inr other ↦
          let rest = none_foreign review organization_id rows (ground (arith, other, h)) in
          ground (arith, other, rest)
    ]

module _ {W : Type 0} where
  create_applications_none :
      (input : ApproveInput) (review : Review) (now : ℕ) (found : List (ℕ × Entries))
      (s s' : FitmentStore W)
      → create_applications memory input review now found s ≡ ok s'
      → count (is_foreign review input.organization_id) s.applications ≡ 0
      → count (is_foreign review input.organization_id) s'.applications ≡ 0
  create_applications_none input review now [] s s' e h =
      subst (λ t. count (is_foreign review input.organization_id) t.applications ≡ 0)
        (ap (value_in s) e) h
  create_applications_none input review now (f ∷ fs) s s' e h =
      let row = catalog_application input review now s.shared.next_id f in
      let (rows, created, e₁) =
        >>=-eq-ok (of_option p2002 (memory.create same_application row s.applications)) _ e in
      let self : (review.item.id == review.item.id) ≡ true = (==_iff _ _).1 refl in
      let own : count (is_foreign review input.organization_id) (row ∷ []) ≡ 0 =
        ground (arith, self) in
      let added = create-eq-ok same_application row s.applications rows created in
      create_applications_none input review now fs _ s' e₁ (
        ap (count (is_foreign review input.organization_id)) added
        ∙ count-append (is_foreign review input.organization_id) s.applications (row ∷ [])
        ∙ omega (arith, own, h))

  -- The created applications are approved ones of the part and the marketplace.
  create_applications_count :
      (input : ApproveInput) (review : Review) (now : ℕ) (found : List (ℕ × Entries))
      (s s' : FitmentStore W)
      → create_applications memory input review now found s ≡ ok s'
      → count (is_current review input.organization_id) s'.applications
        ≡ count (is_current review input.organization_id) s.applications + length found
  create_applications_count input review now [] s s' e =
      subst
        (λ t.
          count (is_current review input.organization_id) t.applications
          ≡ count (is_current review input.organization_id) s.applications + 0)
        (ap (value_in s) e) (omega arith)
  create_applications_count input review now (f ∷ fs) s s' e =
      let row = catalog_application input review now s.shared.next_id f in
      let (rows, created, e₁) =
        >>=-eq-ok (of_option p2002 (memory.create same_application row s.applications)) _ e in
      let market = eq_refl review.job.marketplace in
      let organization : (input.organization_id == input.organization_id) ≡ true =
        (==_iff _ _).1 refl in
      let part : (review.item.part_id == review.item.part_id) ≡ true = (==_iff _ _).1 refl in
      let own : count (is_current review input.organization_id) (row ∷ []) ≡ 1 =
        rw (organization, part, market) refl in
      let added = create-eq-ok same_application row s.applications rows created in
      create_applications_count input review now fs _ s' e₁
      ∙ ap (λ l. count (is_current review input.organization_id) l + length fs) added
      ∙ omega (
        arith,
        own,
        count-append (is_current review input.organization_id) s.applications (row ∷ []),
      )

  -- What the transaction leaves.
  abbrev IsSettled : ℕ → Review → ReviewStore W → Type 0
  IsSettled organization_id review s =
      (count (is_usable organization_id review.item.part_id) s.fitments.drafts ≡ 0)
      × (count (is_foreign review organization_id) s.fitments.applications ≡ 0)
      × (count (is_current review organization_id) s.fitments.applications
          ≡ length review.applications)

  module _ (words : Words) where
    approve_tx-IsSettled :
        (input : ApproveInput) (review : Review) (now : ℕ) (s s' : ReviewStore W) (b : Bool)
        → approve_tx memory words input review now s ≡ ok (b, s')
        → IsSettled input.organization_id review s'
    unfolding approve_tx
    approve_tx-IsSettled input review now s s' b e =
        let before = supersede_current memory words input review s.fitments in
        let (created, wrote, e₁) =
          >>=-eq-ok (create_applications memory input review now review.applications before) _ e in
        let (items, updated, e₂) =
          >>=-eq-ok
            (memory.update (λ a b. false) (λ (i : ReviewItem). i.id == review.item.id)
              (approved_item review now) s.items)
            _ e₁ in
        let (invalidated, blocked, e₃) =
          >>=-eq-ok
            (invalidate_fitment_drafts memory input.organization_id review.item.part_id
              "eBay catalog compatibility was approved; run live validation before preparing inventory"
              input.user_id now created)
            _ e₂ in
        let (audited, event, e₄) =
          >>=-eq-ok
            (audit_fitment memory
              (fitment_event input.organization_id input.user_id
                "fitment.catalog_candidate.approved" review.item.id AuditSeverity.info)
              invalidated)
            _ e₃ in
        let none_current =
          count-revise_none (is_current review input.organization_id)
            (is_current review input.organization_id)
            (λ a. record a {
              status = ApplicationStatus.superseded;
              decision_reason = some (words.replaced_by_candidate review.candidate.epid);
            })
            s.fitments.applications (λ a h. ground arith) (λ a h. h) in
        let old = none_foreign review input.organization_id before.applications none_current in
        let kept =
          (audit_fitment-IsKept _ invalidated audited event).0
          ∙ (invalidate_all-IsKept _ _ now _ created invalidated blocked).0 in
        subst (IsSettled input.organization_id review)
          (ap (λ r. (value_in {A = Bool × ReviewStore W} (b, s') r).1) e₄)
          (
            ap (count (is_usable input.organization_id review.item.part_id))
                  (audit_fitment-drafts _ invalidated audited event)
                ∙ invalidate_fitment_drafts_none input.organization_id review.item.part_id _ _ now
                    created invalidated blocked,
            ap (count (is_foreign review input.organization_id)) kept
                ∙ create_applications_none input review now review.applications before created wrote
                    old,
            ap (count (is_current review input.organization_id)) kept
                ∙ create_applications_count input review now review.applications before created
                    wrote
                ∙ omega (arith, none_current),
          )

    check_approve-some :
        (lookup : ℕ → String → Result Compatibility) (input : ApproveInput) (s : ReviewStore W)
        (review : Review)
        → check_approve memory words lookup input s ≡ ok review
        → is_empty review.applications ≡ false
    check_approve-some lookup input s review e =
        let (item, e₀, r₀) =
          >>=-eq-ok
            (of_option (fail 404 "Fitment review item not found") (
              find
                (λ (i : ReviewItem).
                  i.id == input.item_id && i.organization_id == input.organization_id)
                s.items))
            _ e in
        let (job, e₁, r₁) =
          >>=-eq-ok
            (of_option (fail 404 "Fitment review item not found")
              (find (λ (j : ReviewJob). j.id == item.job_id) s.jobs))
            _ r₀ in
        let (u, e₂, r₂) = >>=-eq-ok (require (not (item_is_approved item.status)) 409 _) _ r₁ in
        let (v, e₃, r₃) = >>=-eq-ok (require (needs_review item.status) 409 _) _ r₂ in
        let (candidate, e₄, r₄) =
          >>=-eq-ok
            (of_option (fail 404 "Candidate does not belong to this fitment item") (
              find (λ (c : CandidateRow). c.id == input.candidate_id && c.item_id == item.id)
                s.candidates))
            _ r₃ in
        let (found, e₅, r₅) = >>=-eq-ok (lookup candidate.epid job.marketplace) _ r₄ in
        let applications = normalize_fitment_applications words found.applications in
        let (w, e₆, r₆) = >>=-eq-ok (require (not (is_empty applications)) 400 _) _ r₅ in
        let some' : is_empty applications ≡ false = ground (arith, e₆) in
        ap (λ x. is_empty (value_in review x).applications) (sym r₆) ∙ some'

    job_after-IsSettled :
        (input : ApproveInput) (review : Review) (now : ℕ) (r : Result Bool × ReviewStore W)
        (j : ReviewJob) (s' : ReviewStore W)
        → job_after memory words input review now r ≡ (ok j, s')
        → ((b : Bool) → r.0 ≡ ok b → IsSettled input.organization_id review r.1)
        → IsSettled input.organization_id review s'
    unfolding refresh_fitment_job
    job_after-IsSettled input review now (err x, s) j s' e h = ground (arith, e)
    job_after-IsSettled input review now (ok b, s) j s' e h =
        subst (IsSettled input.organization_id review) (ap (λ r. r.1) e) (h b refl)

    -- When the approval of a candidate succeeds, whatever other requests did between its reads and
    -- its transaction, no draft of the part is left that is not blocked or is validated, every
    -- approved application of the part and the marketplace comes from the reviewed item, and there
    -- are as many of them as the checked list of eBay's applications is long, which is not empty.
    pub approve_fitment_candidate-IsSettled :
        (db : Prisma)
        → IsDocumented db
        → (meanwhile : ReviewStore W → ReviewStore W) (lookup : ℕ → String → Result Compatibility)
          (input : ApproveInput) (now : ℕ) (s s' : ReviewStore W) (j : ReviewJob)
        → approve_fitment_candidate db words meanwhile lookup input now s ≡ (ok j, s')
        → (review : Review) × (check_approve db words lookup input s ≡ ok review)
          × (count (is_usable input.organization_id review.item.part_id) s'.fitments.drafts ≡ 0)
          × (count (is_foreign review input.organization_id) s'.fitments.applications ≡ 0)
          × (count (is_current review input.organization_id) s'.fitments.applications
              ≡ length review.applications)
          × (is_empty review.applications ≡ false)
    unfolding approve_fitment_candidate
    approve_fitment_candidate-IsSettled = of_memory _ (λ meanwhile lookup input now s s' j e.
        elim (Result-cases (check_approve memory words lookup input s)) [
          | inr (x, failed) ↦ ground (arith, rw failed at e)
          | inl (review, passed) ↦
              let settled =
                job_after-IsSettled input review now
                  (memory.transaction (approve_tx memory words input review now) (meanwhile s)) j s'
                  (rw passed at e)
                  (λ b done. approve_tx-IsSettled input review now (meanwhile s) _ b (
                    transaction-eq-ok (approve_tx memory words input review now) (meanwhile s) _ b (
                      ap
                        (λ r. (
                          r,
                          (memory.transaction (approve_tx memory words input review now)
                              (meanwhile s)).1,
                        ))
                        done))) in
              (
                review,
                passed,
                settled.0,
                settled.1,
                settled.2,
                check_approve-some lookup input s review passed,
              )
        ])
