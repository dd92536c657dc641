-- ===== src/Jobs/Pricing/Item/Settles.antt =====
-- The status of an item after `processPricingItem` of apps/api/src/pricing-service.ts.
use ebay_pricing_intelligenc.Prelude.{
  ℕ, ◌≡◌, refl, ◌∙◌, subst, String, true, List, Option, none, some, ok, >>=-eq-ok, ◌==◌, arith, All,
  All-revise, All_of_every, Result-cases, inl, inr,
}
use ebay_pricing_intelligenc.Database.Memory.{memory, transaction_ok, transaction_err}
use ebay_pricing_intelligenc.Schema.{Analytics, PricingJobItem}
use ebay_pricing_intelligenc.Schema.Double.{Double}
use ebay_pricing_intelligenc.Schema.Store.{Store, of_option, p2025}
use ebay_pricing_intelligenc.Market.Matching.{MatchedListing}
use ebay_pricing_intelligenc.Market.Analytics.{calculate_analytics}
use ebay_pricing_intelligenc.Delivery.DeadLetter.{capture_dead_letter, resolve_dead_letter}
use ebay_pricing_intelligenc.Jobs.Retry.{
  JobRunOptions, Attempt, returned, threw, ended, Thrown, run_with_retry,
}
use ebay_pricing_intelligenc.Jobs.Pricing.{Surroundings, is_terminal, message_of, thrown_of}
use ebay_pricing_intelligenc.Jobs.Pricing.Item.{
  update_item, started, priced_with, failed_with, search, on_retry, snapshot_all, propose,
  record_prices, record_failure, rethrown, on_failure, priced, after_search, process_pricing_item,
  loop_ended,
}
use ebay_pricing_intelligenc.Jobs.Pricing.Item.Touch.{
  IsTouch, IsTouch-refl, IsTouch-trans, update_item_writes, update_item-IsTouch,
  run_with_retry-IsTouch, propose-beside,
}

module _ {W : Type 0} where
  abbrev pub IsTerminal : ℕ → Store W → Type 0
  IsTerminal id s =
      All (λ (i : PricingJobItem W). (i.id == id) ≡ true → is_terminal i.status ≡ true) s.items

  -- A write to the item that ends it.
  update_item-IsTerminal :
      (id : ℕ) (f : PricingJobItem W → PricingJobItem W) (s s' : Store W)
      → ((i : PricingJobItem W) → is_terminal (f i).status ≡ true)
      → update_item memory id f s ≡ ok s'
      → IsTerminal id s'
  update_item-IsTerminal id f s s' ends e = rw (update_item_writes id f s s' e).0 (
      All-revise (λ i. Unit {0}) (λ i. (i.id == id) ≡ true → is_terminal i.status ≡ true)
        (λ i. i.id == id) f s.items (λ i _ h k. ends i) (λ i _ h k. ground (arith, h, k))
        (All_of_every (λ i. Unit {0}) s.items (λ i. tt)))

  -- What an attempt leaves of the tables: other items and the jobs as they were, and the item
  -- ended if it returned.
  abbrev pub Ends : {A : Type 0} → ℕ → Store W → Attempt A × Store W → Type 0
  Ends {A} id s r = IsTouch id s r.1 × ((u : A) → r.0 ≡ returned u → IsTerminal id r.1)

  same_rows :
      (id : ℕ) (s t u : Store W)
      → (u.items ≡ t.items)
      → (u.jobs ≡ t.jobs)
      → IsTouch id s t
      → IsTouch id s u
  same_rows id s t u items jobs h = (jobs ∙ h.0, rw items h.1)

module _ {W : Type 0} ⦃d : Double W⦄ (around : Surroundings W) (options : JobRunOptions)
    (marketplace : String) (item : PricingJobItem W) where
  priced_with-ends :
      (a : Option (Analytics W)) (now : ℕ) (i : PricingJobItem W)
      → is_terminal (priced_with a now i).status ≡ true
  priced_with-ends none now i = refl
  priced_with-ends (some a) now i = refl

  record_prices-ends :
      (now : ℕ) (listings : List (MatchedListing W)) (s s' : Store W) (u : Unit {0})
      → record_prices memory around options marketplace item now listings s ≡ ok (u, s')
      → IsTouch item.id s s' × IsTerminal item.id s'
  unfolding record_prices resolve_dead_letter
  record_prices-ends now listings s s' u e =
      let a = calculate_analytics listings in
      let (snapshots, _, e₁) =
        >>=-eq-ok (snapshot_all memory around options marketplace item.id now listings s.snapshots)
          _ e in
      let t : Store W = record s { snapshots = snapshots } in
      let (s₁, updated, e₂) = >>=-eq-ok (update_item memory item.id (priced_with a now) t) _ e₁ in
      let (s₂, proposed, e₃) =
        >>=-eq-ok (propose memory around options marketplace item now a s₁) _ e₂ in
      let (items, jobs) = propose-beside around options marketplace item now a s₁ s₂ proposed in
      let items' : s'.items ≡ s₁.items = ground (arith, e₃, items) in
      let jobs' : s'.jobs ≡ s₁.jobs = ground (arith, e₃, jobs) in
      (
        same_rows item.id s s₁ s' items' jobs'
            (update_item-IsTouch item.id (priced_with a now) t s₁ (λ i. (refl, refl)) updated),
        rw items' (
            update_item-IsTerminal item.id (priced_with a now) t s₁ (priced_with-ends a now)
              updated),
      )

  record_failure-ends :
      (now : ℕ) (error : Thrown) (s s' : Store W) (u : Unit {0})
      → record_failure memory around options marketplace item now error s ≡ ok (u, s')
      → IsTouch item.id s s' × IsTerminal item.id s'
  unfolding record_failure capture_dead_letter
  record_failure-ends now error s s' u e =
      let f : PricingJobItem W → PricingJobItem W =
        failed_with (message_of around "Unknown pricing error" error) now in
      let (s₁, updated, e₁) = >>=-eq-ok (update_item memory item.id f s) _ e in
      let (failed, _, e₂) =
        >>=-eq-ok (of_option p2025 (memory.find_first (λ i. i.id == item.id) s₁.items)) _ e₁ in
      let items : s'.items ≡ s₁.items = ground (arith, e₂) in
      let jobs : s'.jobs ≡ s₁.jobs = ground (arith, e₂) in
      (
        same_rows item.id s s₁ s' items jobs
            (update_item-IsTouch item.id f s s₁ (λ i. (refl, refl)) updated),
        rw items (update_item-IsTerminal item.id f s s₁ (λ i. refl) updated),
      )

  on_failure-Ends :
      (now : ℕ) (error : Thrown) (s : Store W)
      → Ends item.id s (on_failure memory around options marketplace item now error s)
  unfolding on_failure
  on_failure-Ends now error s =
      elim (Result-cases (record_failure memory around options marketplace item now error s)) [
        | inl ((u, s'), done) ↦
            let (touch, terminal) = record_failure-ends now error s s' u done in
            subst (λ r. Ends item.id s (rethrown memory around options marketplace r))
              (transaction_ok (record_failure memory around options marketplace item now error) s
                (u, s') done)
              (touch, λ v h. terminal)
        | inr (x, failed) ↦
            subst (λ r. Ends item.id s (rethrown memory around options marketplace r))
              (transaction_err (record_failure memory around options marketplace item now error) s x
                failed)
              (IsTouch-refl item.id s, λ v h. cc)
      ]

  after_search-Ends :
      (now : ℕ) (found : Attempt (List (MatchedListing W))) (s : Store W)
      → Ends item.id s (after_search memory around options marketplace item now (found, s))
  unfolding after_search
  after_search-Ends now (returned listings) s =
      elim (Result-cases (record_prices memory around options marketplace item now listings s)) [
        | inl ((u, s'), done) ↦
            let (touch, terminal) = record_prices-ends now listings s s' u done in
            subst (λ r. Ends item.id s (priced memory around options marketplace item now r))
              (transaction_ok (record_prices memory around options marketplace item now listings) s
                (u, s') done)
              (touch, λ v h. terminal)
        | inr (x, failed) ↦
            subst (λ r. Ends item.id s (priced memory around options marketplace item now r))
              (transaction_err (record_prices memory around options marketplace item now listings) s
                x failed)
              (on_failure-Ends now (thrown_of x) s)
      ]
  after_search-Ends now (threw e) s = on_failure-Ends now e s
  after_search-Ends now ended s = on_failure-Ends now loop_ended s

  pub process_pricing_item-Ends :
      (now : ℕ) (s : Store W)
      → Ends item.id s (process_pricing_item memory around options marketplace item now s)
  unfolding process_pricing_item
  process_pricing_item-Ends now s =
      elim (Result-cases (update_item memory item.id (started now) s)) [
        | inl (s', done) ↦
            let found =
              run_with_retry options (on_retry memory around options marketplace item)
                (search memory around options marketplace item) s' in
            let (touch, terminal) = after_search-Ends now found.0 found.1 in
            let before =
              IsTouch-trans item.id s s' found.1
                (update_item-IsTouch item.id (started now) s s' (λ i. (refl, refl)) done)
                (run_with_retry-IsTouch around options marketplace item s') in
            rw done (
              IsTouch-trans item.id s found.1
                  (after_search memory around options marketplace item now found).1 before touch,
              terminal,
            )
        | inr (x, failed) ↦ rw failed (IsTouch-refl item.id s, λ v h. cc)
      ]
