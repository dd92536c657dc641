-- ===== src/Delivery/DeadLetter/Requeue/Reset.antt =====
-- The reset of an item and its job in `requeueDeadLetter` of apps/api/src/dead-letter-service.ts.
use ebay_pricing_intelligenc.Prelude.{
  ℕ, ◌≡◌, refl, ap, subst, true, false, not, ◌&&◌, Option, ◌==◌, Result, ok, require, >>=-eq-ok,
  value_in, arith, count-select_none, find, some, ◌∙◌,
}
use ebay_pricing_intelligenc.Database.{clashes}
use ebay_pricing_intelligenc.Database.Memory.{memory}
use ebay_pricing_intelligenc.Schema.{
  PricingJob, PricingJobItem, FitmentJob, FitmentJobItem, is_active, is_failed, fitment_is_active,
  fitment_item_failed, DeadLetterType, DeadLetterEntry,
}
use ebay_pricing_intelligenc.Schema.Store.{Store, of_option, of_option-eq-ok}
use ebay_pricing_intelligenc.Delivery.DeadLetter.Requeue.{
  same_active_job, same_active_fitment_job, reset_pricing_item, reset_fitment_item,
  pricing_item_ready, fitment_item_ready, put_back,
}
use ebay_pricing_intelligenc.Delivery.DeadLetter.Requeue.Back.{
  is_item_of, is_fitment_item_of, IsBack, update-IsChanged,
}

module _ {W : Type 0} (organization_id : ℕ) (actor : Option ℕ) (now : ℕ) where
  pricing_item_ready-ok :
      (entry : DeadLetterEntry) (s : Store W) (item : PricingJobItem W)
      → pricing_item_ready memory organization_id actor now entry s ≡ ok item
      → (job : PricingJob) × (find (is_item_of organization_id entry) s.items ≡ some item)
        × (is_failed item.status ≡ true)
        × (find (λ j. j.id == item.pricing_job_id) s.jobs ≡ some job)
        × (is_active job.status ≡ false)
  unfolding pricing_item_ready
  pricing_item_ready-ok entry s item e =
      let (found, is, e₁) =
        >>=-eq-ok (of_option _ (find (is_item_of organization_id entry) s.items)) _ e in
      let (job, has, e₂) =
        >>=-eq-ok (of_option _ (find (λ j. j.id == found.pricing_job_id) s.jobs)) _ e₁ in
      let (u, passed, e₃) =
        >>=-eq-ok (require (is_failed found.status && not (is_active job.status)) 409 _) _ e₂ in
      let same : found ≡ item = ap (value_in found) e₃ in
      subst
        (λ (x : PricingJobItem W).
          (job : PricingJob) × (find (is_item_of organization_id entry) s.items ≡ some x)
          × (is_failed x.status ≡ true)
          × (find (λ j. j.id == x.pricing_job_id) s.jobs ≡ some job)
          × (is_active job.status ≡ false))
        same
        (
          job,
          of_option-eq-ok _ _ found is,
          ground (arith, passed),
          of_option-eq-ok _ _ job has,
          ground (arith, passed),
        )

  fitment_item_ready-ok :
      (entry : DeadLetterEntry) (s : Store W) (item : FitmentJobItem)
      → fitment_item_ready memory organization_id actor now entry s ≡ ok item
      → (job : FitmentJob) × (find (is_fitment_item_of organization_id entry) s.fitment_items
          ≡ some item)
        × (fitment_item_failed item.status ≡ true)
        × (find (λ j. j.id == item.fitment_job_id) s.fitment_jobs ≡ some job)
        × (fitment_is_active job.status ≡ false)
  unfolding fitment_item_ready
  fitment_item_ready-ok entry s item e =
      let (found, is, e₁) =
        >>=-eq-ok (of_option _ (find (is_fitment_item_of organization_id entry) s.fitment_items)) _
          e in
      let (job, has, e₂) =
        >>=-eq-ok (of_option _ (find (λ j. j.id == found.fitment_job_id) s.fitment_jobs)) _ e₁ in
      let (u, passed, e₃) =
        >>=-eq-ok
          (require (fitment_item_failed found.status && not (fitment_is_active job.status)) 409 _) _
          e₂ in
      let same : found ≡ item = ap (value_in found) e₃ in
      subst
        (λ (x : FitmentJobItem).
          (job : FitmentJob) × (find (is_fitment_item_of organization_id entry) s.fitment_items
            ≡ some x)
          × (fitment_item_failed x.status ≡ true)
          × (find (λ j. j.id == x.fitment_job_id) s.fitment_jobs ≡ some job)
          × (fitment_is_active job.status ≡ false))
        same
        (
          job,
          of_option-eq-ok _ _ found is,
          ground (arith, passed),
          of_option-eq-ok _ _ job has,
          ground (arith, passed),
        )

  -- What the reset of the item leaves alone, and the index that it keeps.
  abbrev pub IsReset : Store W → Store W → Type 0
  IsReset s s' =
      (s'.outbox ≡ s.outbox)
      × (s'.audit ≡ s.audit)
      × (clashes same_active_job s.jobs ≡ false → clashes same_active_job s'.jobs ≡ false)
      × (clashes same_active_fitment_job s.fitment_jobs ≡ false
          → clashes same_active_fitment_job s'.fitment_jobs ≡ false)

  reset_pricing_item-IsReset :
      (entry : DeadLetterEntry) (item : PricingJobItem W) (s s' : Store W)
      → reset_pricing_item memory organization_id actor now entry item s ≡ ok s'
      → IsReset s s'
  unfolding reset_pricing_item
  reset_pricing_item-IsReset entry item s s' e =
      (ground arith, ground arith, λ h. ground arith, λ h. ground arith)

  reset_fitment_item-IsReset :
      (entry : DeadLetterEntry) (item : FitmentJobItem) (s s' : Store W)
      → reset_fitment_item memory organization_id actor now entry item s ≡ ok s'
      → IsReset s s'
  unfolding reset_fitment_item
  reset_fitment_item-IsReset entry item s s' e =
      (ground arith, ground arith, λ h. ground arith, λ h. ground arith)

  reset_pricing_item-IsBack :
      (entry : DeadLetterEntry) (item : PricingJobItem W) (s t s' : Store W)
      → pricing_item_ready memory organization_id actor now entry s ≡ ok item
      → reset_pricing_item memory organization_id actor now entry item t ≡ ok s'
      → IsBack organization_id DeadLetterType.pricing_item entry s t s'
  unfolding reset_pricing_item
  reset_pricing_item-IsBack entry item s t s' ready e =
      let (job, found, failed, has, idle) = pricing_item_ready-ok entry s item ready in
      let (items, changed, e₁) =
        >>=-eq-ok (memory.update (λ x y. false) (λ i. i.id == item.id) _ t.items) _ e in
      let (jobs, freed, e₂) =
        >>=-eq-ok (memory.update same_active_job (λ j. j.id == entry.job_id) _ t.jobs) _ e₁ in
      subst (λ (x : Store W). IsBack organization_id DeadLetterType.pricing_item entry s t x)
        (ap (value_in t) e₂)
        (
          item,
          job,
          found,
          failed,
          has,
          idle,
          update-IsChanged (λ x y. false) (λ i. i.id == item.id) _ _ t.items items (λ x. refl)
              (λ x. (refl, refl, refl, refl)) changed,
          update-IsChanged same_active_job (λ j. j.id == entry.job_id) _ _ t.jobs jobs (λ x. refl)
              (λ x. (refl, refl, refl, refl, refl)) freed,
          count-select_none (λ row. row.pricing_job_item_id == item.id) t.snapshots,
        )

  reset_fitment_item-IsBack :
      (entry : DeadLetterEntry) (item : FitmentJobItem) (s t s' : Store W)
      → fitment_item_ready memory organization_id actor now entry s ≡ ok item
      → reset_fitment_item memory organization_id actor now entry item t ≡ ok s'
      → IsBack organization_id DeadLetterType.fitment_item entry s t s'
  unfolding reset_fitment_item
  reset_fitment_item-IsBack entry item s t s' ready e =
      let (job, found, failed, has, idle) = fitment_item_ready-ok entry s item ready in
      let (items, changed, e₁) =
        >>=-eq-ok (memory.update (λ x y. false) (λ i. i.id == item.id) _ t.fitment_items) _ e in
      let (jobs, freed, e₂) =
        >>=-eq-ok
          (memory.update same_active_fitment_job (λ j. j.id == entry.job_id) _ t.fitment_jobs) _
          e₁ in
      subst (λ (x : Store W). IsBack organization_id DeadLetterType.fitment_item entry s t x)
        (ap (value_in t) e₂)
        (
          item,
          job,
          found,
          failed,
          has,
          idle,
          update-IsChanged (λ x y. false) (λ i. i.id == item.id) _ _ t.fitment_items items
              (λ x. refl) (λ x. (refl, refl, refl, refl)) changed,
          update-IsChanged same_active_fitment_job (λ j. j.id == entry.job_id) _ _ t.fitment_jobs
              jobs (λ x. refl) (λ x. (refl, refl, refl, refl, refl)) freed,
          count-select_none (λ row. row == item.id) t.fitment_candidates,
        )

  pub put_back-ok :
      (kind : DeadLetterType) (entry : DeadLetterEntry) (s : Store W)
      (reset : Store W → Result (Store W)) (t s' : Store W)
      → entry.kind ≡ kind
      → put_back memory organization_id actor now entry s ≡ ok reset
      → reset t ≡ ok s'
      → IsReset t s' × IsBack organization_id kind entry s t s'
  unfolding put_back
  put_back-ok DeadLetterType.pricing_item entry s reset t s' k e done =
      let (item, ready, rest) =
        >>=-eq-ok (pricing_item_ready memory organization_id actor now entry s)
          (λ item. ok (reset_pricing_item memory organization_id actor now entry item))
          (rw (k, put_back) at e) in
      let run : reset_pricing_item memory organization_id actor now entry item t ≡ ok s' =
        ap (λ r. value_in reset r t) rest ∙ done in
      (
        reset_pricing_item-IsReset entry item t s' run,
        reset_pricing_item-IsBack entry item s t s' ready run,
      )
  put_back-ok DeadLetterType.fitment_item entry s reset t s' k e done =
      let (item, ready, rest) =
        >>=-eq-ok (fitment_item_ready memory organization_id actor now entry s)
          (λ item. ok (reset_fitment_item memory organization_id actor now entry item))
          (rw (k, put_back) at e) in
      let run : reset_fitment_item memory organization_id actor now entry item t ≡ ok s' =
        ap (λ r. value_in reset r t) rest ∙ done in
      (
        reset_fitment_item-IsReset entry item t s' run,
        reset_fitment_item-IsBack entry item s t s' ready run,
      )
