-- ===== src/Jobs/Pricing/Item/Touch.antt =====
-- The rows that `processPricingItem` of apps/api/src/pricing-service.ts writes.
use ebay_pricing_intelligenc.Prelude.{
  ℕ, ◌≡◌, refl, ◌∙◌, String, false, Option, none, some, ok, >>=-eq-ok, ◌==◌, arith, revise,
  Pairwise, Pairwise-revise, Pairwise-refl, Pairwise-trans, Result-cases, inl, inr,
}
use ebay_pricing_intelligenc.Database.Memory.{memory, update-eq-ok}
use ebay_pricing_intelligenc.Schema.{Analytics, PricingJobItem, PricingProposal}
use ebay_pricing_intelligenc.Schema.Double.{Double}
use ebay_pricing_intelligenc.Schema.Store.{Store, of_option, p2025}
use ebay_pricing_intelligenc.Schema.Store.Writes.{writes}
use ebay_pricing_intelligenc.Pricing.Governance.Proposals.{ProposalInput, create_pricing_proposal}
use ebay_pricing_intelligenc.Jobs.Retry.{JobRunOptions, Thrown, run_with_retry}
use ebay_pricing_intelligenc.Jobs.Retry.Laws.{run_with_retry-keeps}
use ebay_pricing_intelligenc.Jobs.Pricing.{Surroundings, message_of}
use ebay_pricing_intelligenc.Jobs.Pricing.Item.{
  update_item, tried_again, noted, search, on_retry, propose,
}

module _ {W : Type 0} where
  abbrev pub Touch : ℕ → PricingJobItem W → PricingJobItem W → Type 0
  Touch id a b =
      (b.id ≡ a.id) × (b.pricing_job_id ≡ a.pricing_job_id) × ((a.id == id) ≡ false → b ≡ a)

  abbrev pub IsTouch : ℕ → Store W → Store W → Type 0
  IsTouch id s t = (t.jobs ≡ s.jobs) × Pairwise (Touch id) s.items t.items

  pub IsTouch-refl : (id : ℕ) (s : Store W) → IsTouch id s s
  IsTouch-refl id s = (refl, Pairwise-refl (Touch id) (λ x. (refl, refl, λ h. refl)) s.items)

  Touch-trans : (id : ℕ) (x y z : PricingJobItem W) → Touch id x y → Touch id y z → Touch id x z
  Touch-trans id x y z h k = (k.0 ∙ h.0, k.1 ∙ h.1, λ e. k.2 (rw h.0 e) ∙ h.2 e)

  pub IsTouch-trans : (id : ℕ) (s t u : Store W) → IsTouch id s t → IsTouch id t u → IsTouch id s u
  IsTouch-trans id s t u h k =
      (k.0 ∙ h.0, Pairwise-trans (Touch id) (Touch-trans id) s.items t.items u.items h.1 k.1)

  -- A change of a row that keeps its identifier and its job.
  abbrev pub KeepsKeys : (PricingJobItem W → PricingJobItem W) → Type 0
  KeepsKeys f =
      (i : PricingJobItem W) → ((f i).id ≡ i.id) × ((f i).pricing_job_id ≡ i.pricing_job_id)

  pub update_item_writes :
      (id : ℕ) (f : PricingJobItem W → PricingJobItem W) (s s' : Store W)
      → update_item memory id f s ≡ ok s'
      → (s'.items ≡ revise (λ i. i.id == id) f s.items) × (s'.jobs ≡ s.jobs)
  unfolding update_item
  update_item_writes id f s s' e =
      let (rows, updated, e₁) =
        >>=-eq-ok (memory.update (λ x y. false) (λ i. i.id == id) f s.items) _ e in
      let (written, _, _) = update-eq-ok (λ x y. false) (λ i. i.id == id) f s.items rows updated in
      (ground (arith, e₁, written), ground (arith, e₁))

  pub update_item-IsTouch :
      (id : ℕ) (f : PricingJobItem W → PricingJobItem W) (s s' : Store W)
      → KeepsKeys f
      → update_item memory id f s ≡ ok s'
      → IsTouch id s s'
  update_item-IsTouch id f s s' keeps e =
      let (items, jobs) = update_item_writes id f s s' e in
      (
        jobs,
        rw items (
            Pairwise-revise (Touch id) (λ i. i.id == id) f s.items
              (λ i h. ((keeps i).0, (keeps i).1, λ k. ground (arith, h, k)))
              (λ i. (refl, refl, λ k. refl))),
      )

  -- A proposal is written beside the items and the jobs.
  create_pricing_proposal-beside :
      ⦃d : Double W⦄ (input : ProposalInput W) (now : ℕ) (s s' : Store W) (p : PricingProposal W)
      → create_pricing_proposal memory input now s ≡ ok (p, s')
      → (s'.items ≡ s.items) × (s'.jobs ≡ s.jobs)
  unfolding create_pricing_proposal
  create_pricing_proposal-beside input now s s' p e =
      let e' = simp writes at e in (ground arith, ground arith)

module _ {W : Type 0} ⦃d : Double W⦄ (around : Surroundings W) (options : JobRunOptions)
    (marketplace : String) where
  search-IsTouch :
      (item : PricingJobItem W) (attempt : ℕ) (s : Store W)
      → IsTouch item.id s (search memory around options marketplace item attempt s).1
  unfolding search
  search-IsTouch item attempt s = elim (Result-cases (update_item memory item.id tried_again s)) [
    | inl (s', e) ↦ rw e (update_item-IsTouch item.id tried_again s s' (λ i. (refl, refl)) e)
    | inr (x, e) ↦ rw e (IsTouch-refl item.id s)
  ]

  on_retry-IsTouch :
      (item : PricingJobItem W) (error : Thrown) (attempt delay : ℕ) (s : Store W)
      → IsTouch item.id s (on_retry memory around options marketplace item error attempt delay s).1
  unfolding on_retry
  on_retry-IsTouch item error attempt delay s =
      let f : PricingJobItem W → PricingJobItem W =
        noted
          (around.retry_notice attempt delay (message_of around "Unknown pricing error" error)) in
      elim (Result-cases (update_item memory item.id f s)) [
        | inl (s', e) ↦ rw e (update_item-IsTouch item.id f s s' (λ i. (refl, refl)) e)
        | inr (x, e) ↦ rw e (IsTouch-refl item.id s)
      ]

  pub run_with_retry-IsTouch :
      (item : PricingJobItem W) (s : Store W)
      → IsTouch item.id s
          (run_with_retry options
            (on_retry memory around options marketplace item)
            (search memory around options marketplace item)
            s).1
  run_with_retry-IsTouch item s =
      run_with_retry-keeps options (on_retry memory around options marketplace item)
        (search memory around options marketplace item) (λ t. IsTouch item.id s t)
        (λ n t h.
          IsTouch-trans item.id s t (search memory around options marketplace item n t).1 h
            (search-IsTouch item n t))
        (λ e n w t h.
          IsTouch-trans item.id s t (on_retry memory around options marketplace item e n w t).1 h
            (on_retry-IsTouch item e n w t))
        s (IsTouch-refl item.id s)

  pub propose-beside :
      (item : PricingJobItem W) (now : ℕ) (a : Option (Analytics W)) (s s' : Store W)
      → propose memory around options marketplace item now a s ≡ ok s'
      → (s'.items ≡ s.items) × (s'.jobs ≡ s.jobs)
  unfolding propose
  propose-beside item now none s s' e = (ground (arith, e), ground (arith, e))
  propose-beside item now (some a) s s' e =
      let (job_item, _, e₁) =
        >>=-eq-ok (of_option p2025 (memory.find_first (λ i. i.id == item.id) s.items)) _ e in
      let (job, _, e₂) =
        >>=-eq-ok
          (of_option p2025 (memory.find_first (λ j. j.id == job_item.pricing_job_id) s.jobs)) _
          e₁ in
      let (created, done, e₃) =
        >>=-eq-ok
          (create_pricing_proposal memory
            (record {
              organization_id = item.organization_id;
              part_id = job_item.part_id;
              pricing_job_item_id = item.id;
              marketplace = job.marketplace;
              market_recommended_price = a.recommended_price;
              currency = a.currency;
            })
            now s)
          _ e₂ in
      let (items, jobs) = create_pricing_proposal-beside _ now s created.1 created.0 done in
      (ground (arith, e₃, items), ground (arith, e₃, jobs))
