-- ===== src/Jobs/Bulk/Run/Unpaused.antt =====
-- The status PAUSED through the writes of a bulk run other than its own pause.
use ebay_pricing_intelligenc.Prelude.{
  ℕ, ◌≡◌, refl, sym, subst, Bool, true, false, List, [], ◌∷◌, Result, ok, err, Failure, ◌==◌, arith,
  any, any_never, map, select, revise, All, All-revise, All_of_every, >>=-eq-ok, Bool-cases, inl,
  inr,
}
use ebay_pricing_intelligenc.Database.{clashes}
use ebay_pricing_intelligenc.Database.Memory.{memory, update-eq-ok}
use ebay_pricing_intelligenc.Schema.{ItemStatus}
use ebay_pricing_intelligenc.Schema.Double.{Double}
use ebay_pricing_intelligenc.Market.Matching.{MatchedListing}
use ebay_pricing_intelligenc.Jobs.Bulk.Prices.{formula_price}
use ebay_pricing_intelligenc.Jobs.Retry.{
  JobRunOptions, Attempt, returned, threw, ended, Thrown, run_with_retry,
}
use ebay_pricing_intelligenc.Jobs.Retry.Laws.{run_with_retry-keeps}
use ebay_pricing_intelligenc.Jobs.Pricing.{Surroundings, thrown_of, message_of}
use ebay_pricing_intelligenc.Jobs.Pricing.Item.{loop_ended}
use ebay_pricing_intelligenc.Jobs.Bulk.{
  BulkJob, BulkItem, BulkStore, Messages, is_rate_limit_error, written, bulk_job_status, refreshed,
  update_job, update_item, refresh_bulk_progress,
}
use ebay_pricing_intelligenc.Jobs.Bulk.Item.{
  Terms, started, failed_with, search, no_notice, record_price, on_failure, recorded, after_search,
  process_bulk_item,
}
use ebay_pricing_intelligenc.Jobs.Bulk.Run.{job_is_paused}

pub written-post :
    {S A : Type 0} (P : S → Type 0) (r : Result S) (s : S) (next : S → Attempt A × S)
    → P s
    → ((s' : S) → r ≡ ok s' → P (next s').1)
    → P (written r s next).1
written-post P (ok s') s next before after = after s' refl
written-post P (err e) s next before after = before

clashes_never : {Row : Type 0} (rows : List Row) → clashes (λ x y. false) rows ≡ false
clashes_never [] = refl
clashes_never (row ∷ rows) = rw (any_never rows) (clashes_never rows)

All-any_none :
    {A : Type 0} (P : A → Type 0) (p : A → Bool) (xs : List A)
    → any p xs ≡ false
    → All (λ x. p x ≡ true → P x) xs
All-any_none P p [] e = tt
All-any_none P p (x ∷ xs) e = (λ h. ground (arith, e, h), All-any_none P p xs (ground (arith, e)))

bulk_job_status-unpaused :
    (statuses : List ItemStatus) → job_is_paused (bulk_job_status statuses) ≡ false
bulk_job_status-unpaused statuses = ground arith

module _ {W : Type 0} (job_id : ℕ) where
  -- No job with the identifier is paused.
  abbrev pub IsUnpaused : BulkStore W → Type 0
  IsUnpaused s =
      All (λ (j : BulkJob W). (j.id == job_id) ≡ true → job_is_paused j.status ≡ false) s.jobs

  pub IsUnpaused-jobs : (s s' : BulkStore W) → s'.jobs ≡ s.jobs → IsUnpaused s → IsUnpaused s'
  IsUnpaused-jobs s s' e h =
      subst
        (λ js. All (λ (j : BulkJob W). (j.id == job_id) ≡ true → job_is_paused j.status ≡ false) js)
        (sym e) h

  pub update_item-jobs :
      (id : ℕ) (f : BulkItem W → BulkItem W) (s s' : BulkStore W)
      → update_item memory id f s ≡ ok s'
      → s'.jobs ≡ s.jobs
  update_item-jobs id f s s' e =
      let (rows, _, e1) =
        >>=-eq-ok (memory.update (λ x y. false) (λ i. i.id == id) f s.items) _ e in
      ground (arith, e1)

  -- The update of the job fails only where there is no such job.
  update_job-err :
      (f : BulkJob W → BulkJob W) (s : BulkStore W) (x : Failure)
      → update_job memory job_id f s ≡ err x
      → IsUnpaused s
  update_job-err f s x e = elim (Bool-cases (any (λ j. j.id == job_id) s.jobs)) [
    | inl there ↦
        let clear = clashes_never (revise (λ j. j.id == job_id) f s.jobs) in
        ground (arith, rw (there, clear) at e)
    | inr absent ↦
        All-any_none (λ j. job_is_paused j.status ≡ false) (λ j. j.id == job_id) s.jobs absent
  ]

  update_job-jobs :
      (f : BulkJob W → BulkJob W) (s s' : BulkStore W)
      → update_job memory job_id f s ≡ ok s'
      → s'.jobs ≡ revise (λ j. j.id == job_id) f s.jobs
  update_job-jobs f s s' e =
      let (rows, updated, e1) =
        >>=-eq-ok (memory.update (λ x y. false) (λ j. j.id == job_id) f s.jobs) _ e in
      let (rewritten, _, _) =
        update-eq-ok (λ x y. false) (λ j. j.id == job_id) f s.jobs rows updated in
      ground (arith, e1, rewritten)

  -- The refresh leaves no paused job, whatever there was before.
  pub refresh-IsUnpaused :
      (now : ℕ) (s s' : BulkStore W)
      → refresh_bulk_progress memory job_id now s ≡ ok s'
      → IsUnpaused s'
  unfolding refresh_bulk_progress
  refresh-IsUnpaused now s s' e =
      let statuses = map (λ i. i.status) (select (λ i. i.bulk_pricing_job_id == job_id) s.items) in
      subst
        (λ js. All (λ (j : BulkJob W). (j.id == job_id) ≡ true → job_is_paused j.status ≡ false) js)
        (sym (update_job-jobs (refreshed statuses now) s s' e))
        (All-revise (λ j. Unit)
          (λ (j : BulkJob W). (j.id == job_id) ≡ true → job_is_paused j.status ≡ false)
          (λ j. j.id == job_id) (refreshed statuses now) s.jobs
          (λ j _ here own. bulk_job_status-unpaused statuses)
          (λ j _ other own. ground (arith, other, own)) (All_of_every (λ j. Unit) s.jobs (λ j. tt)))

module _ {W : Type 0} ⦃d : Double W⦄ (around : Surroundings W) (messages : Messages)
    (options : JobRunOptions) (job_id : ℕ) where
  on_failure-IsUnpaused :
      (terms : Terms W) (item : BulkItem W) (now : ℕ) (error : Thrown) (s : BulkStore W)
      → IsUnpaused job_id s
      → IsUnpaused job_id (on_failure memory around messages options terms item now error s).1
  unfolding on_failure
  on_failure-IsUnpaused terms item now error s h =
      elim (Bool-cases (is_rate_limit_error messages error)) [
        | inl limited ↦ rw limited h
        | inr other ↦ rw other (
            written-post (IsUnpaused job_id)
              (update_item memory item.id
                (failed_with (message_of around "Unknown bulk pricing error" error) now) s)
              s (λ s'. (returned tt, s')) h
              (λ s' e. IsUnpaused-jobs job_id s s' (update_item-jobs job_id item.id _ s s' e) h))
      ]

  search-keeps :
      (terms : Terms W) (item : BulkItem W) (attempt : ℕ) (s : BulkStore W)
      → IsUnpaused job_id s
      → IsUnpaused job_id (search memory around messages options terms item attempt s).1
  unfolding search
  search-keeps terms item attempt s h = h

  record_price-jobs :
      (terms : Terms W) (item : BulkItem W) (now : ℕ) (listings : List (MatchedListing W))
      (s s' : BulkStore W)
      → record_price memory around messages options terms item now listings s ≡ ok s'
      → s'.jobs ≡ s.jobs
  unfolding record_price
  record_price-jobs terms item now listings s s' e =
      let (price, _, e1) =
        >>=-eq-ok
          (formula_price terms.pricing_strategy item.cost_price terms.target_margin_percent
            terms.buffer_percent terms.pricing_formula)
          _ e in
      update_item-jobs job_id item.id _ s s' e1

  recorded-IsUnpaused :
      (terms : Terms W) (item : BulkItem W) (now : ℕ) (listings : List (MatchedListing W))
      (s : BulkStore W) (r : Result (BulkStore W))
      → record_price memory around messages options terms item now listings s ≡ r
      → IsUnpaused job_id s
      → IsUnpaused job_id (recorded memory around messages options terms item now s r).1
  recorded-IsUnpaused terms item now listings s (ok s') e h =
      IsUnpaused-jobs job_id s s' (record_price-jobs terms item now listings s s' e) h
  recorded-IsUnpaused terms item now listings s (err x) e h =
      on_failure-IsUnpaused terms item now (thrown_of x) s h

  after_search-IsUnpaused :
      (terms : Terms W) (item : BulkItem W) (now : ℕ)
      (r : Attempt (List (MatchedListing W)) × BulkStore W)
      → IsUnpaused job_id r.1
      → IsUnpaused job_id (after_search memory around messages options terms item now r).1
  after_search-IsUnpaused terms item now (returned listings, s) h =
      recorded-IsUnpaused terms item now listings s _ refl h
  after_search-IsUnpaused terms item now (threw e, s) h = on_failure-IsUnpaused terms item now e s h
  after_search-IsUnpaused terms item now (ended, s) h =
      on_failure-IsUnpaused terms item now loop_ended s h

  pub process-IsUnpaused :
      (terms : Terms W) (item : BulkItem W) (now : ℕ) (s : BulkStore W)
      → IsUnpaused job_id s
      → IsUnpaused job_id (process_bulk_item memory around messages options terms item now s).1
  unfolding process_bulk_item
  process-IsUnpaused terms item now s h =
      written-post (IsUnpaused job_id) (update_item memory item.id (started now) s) s
        (λ s'. after_search memory around messages options terms item now (
          run_with_retry options (no_notice memory around messages options terms)
            (search memory around messages options terms item) s'))
        h
        (λ s' e. after_search-IsUnpaused terms item now _ (
          run_with_retry-keeps options (no_notice memory around messages options terms)
            (search memory around messages options terms item) (IsUnpaused job_id)
            (search-keeps terms item) (λ x n delay t k. k) s'
            (IsUnpaused-jobs job_id s s' (update_item-jobs job_id item.id _ s s' e) h)))

  pub refresh-err :
      (now : ℕ) (s : BulkStore W) (x : Failure)
      → refresh_bulk_progress memory job_id now s ≡ err x
      → IsUnpaused job_id s
  unfolding refresh_bulk_progress
  refresh-err now s x e = update_job-err job_id _ s x e

  pub after_pause-IsUnpaused :
      (now : ℕ) (s : BulkStore W) (r : Result (BulkStore W))
      → refresh_bulk_progress memory job_id now s ≡ r
      → IsUnpaused job_id (written {A = Unit {0}} r s (λ s'. (returned tt, s'))).1
  after_pause-IsUnpaused now s (ok s') e = refresh-IsUnpaused job_id now s s' e
  after_pause-IsUnpaused now s (err x) e = refresh-err now s x e
