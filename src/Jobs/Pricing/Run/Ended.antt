-- ===== src/Jobs/Pricing/Run/Ended.antt =====
-- The items of a job that have ended, wait, or are in the hands of the loop of `runPricingJob` of
-- apps/api/src/pricing-service.ts.
use ebay_pricing_intelligenc.Prelude.{
  ℕ, ◌≡◌, ◌⊎◌, inl, inr, refl, Bool, true, ◌&&◌, List, [], ◌∷◌, none, ◌==◌, arith, any, all, map,
  select, count, find, revise, All, All-map, All-apply, All-Pairwise, count-revise_none, Bool-cases,
}
use ebay_pricing_intelligenc.Database.Memory.{memory}
use ebay_pricing_intelligenc.Schema.{ItemStatus, PricingJob, PricingJobItem, is_queued}
use ebay_pricing_intelligenc.Schema.Store.{Store}
use ebay_pricing_intelligenc.Jobs.Pricing.{
  is_terminal, is_settled, public_job_status, runs_for, refresh_job_progress,
}
use ebay_pricing_intelligenc.Jobs.Pricing.Item.Touch.{Touch, IsTouch}
use ebay_pricing_intelligenc.Jobs.Pricing.Item.Settles.{IsTerminal}
use ebay_pricing_intelligenc.Jobs.Pricing.Run.Claims.{awaits}

public_job_status-settled :
    (statuses : List ItemStatus)
    → all is_terminal statuses ≡ true
    → is_settled (public_job_status statuses) ≡ true
unfolding public_job_status
public_job_status-settled statuses h = ground (arith, h)

module _ {W : Type 0} (job_id : ℕ) where
  -- The item is of another job, or has ended, or is still to be processed.
  abbrev pub IsAccounted : List (PricingJobItem W) → PricingJobItem W → Type 0
  IsAccounted todo i =
      (i.pricing_job_id == job_id) ≡ true
      → (is_terminal i.status ≡ true) ⊎ (any (λ (t : PricingJobItem W). t.id == i.id) todo ≡ true)

  -- Every item of the job has ended.
  abbrev pub AllEnded : Store W → Type 0
  AllEnded s =
      All
        (λ (i : PricingJobItem W).
          (i.pricing_job_id == job_id) ≡ true → is_terminal i.status ≡ true)
        s.items

  -- Processing the first item leaves the others to do.
  IsAccounted-step :
      (t a b : PricingJobItem W) (todo : List (PricingJobItem W))
      → IsAccounted (t ∷ todo) a
      → Touch t.id a b
      → ((b.id == t.id) ≡ true → is_terminal b.status ≡ true)
      → IsAccounted todo b
  IsAccounted-step t a b todo h touch ends own = elim (Bool-cases (b.id == t.id)) [
    | inl same ↦ inl (ends same)
    | inr other ↦
        let e : b ≡ a = touch.2 (rw (← touch.0) other) in
        elim (h (rw (← touch.1) own)) [
          | inl terminal ↦ inl (rw e terminal)
          | inr waits ↦ inr (rw touch.0 (ground (arith, waits, other, touch.0)))
        ]
  ]

  pub IsAccounted-steps :
      (t : PricingJobItem W) (todo : List (PricingJobItem W)) (s s' : Store W)
      → IsTouch t.id s s'
      → IsTerminal t.id s'
      → All (IsAccounted (t ∷ todo)) s.items
      → All (IsAccounted todo) s'.items
  IsAccounted-steps t todo s s' touch ends h =
      All-apply (λ b. (b.id == t.id) ≡ true → is_terminal b.status ≡ true) (IsAccounted todo)
        s'.items
        (All-Pairwise (Touch t.id) (IsAccounted (t ∷ todo))
          (λ b. ((b.id == t.id) ≡ true → is_terminal b.status ≡ true) → IsAccounted todo b) s.items
          s'.items (λ a b k touched. IsAccounted-step t a b todo k touched) h touch.1)
        ends

  pub accounted-all : (s : Store W) → All (IsAccounted []) s.items → AllEnded s
  accounted-all s h =
      All-map (IsAccounted [])
        (λ i. (i.pricing_job_id == job_id) ≡ true → is_terminal i.status ≡ true) s.items
        (λ i k own. elim (k own) [ inl terminal ↦ terminal | inr waits ↦ cc ]) h

  -- The items of the job that the query returns have ended.
  ended-statuses :
      (items : List (PricingJobItem W))
      → All
          (λ (i : PricingJobItem W).
            (i.pricing_job_id == job_id) ≡ true → is_terminal i.status ≡ true)
          items
      → all is_terminal (
          map (λ (i : PricingJobItem W). i.status) (select (λ i. i.pricing_job_id == job_id) items))
        ≡ true
  ended-statuses [] h = refl
  ended-statuses (i ∷ items) h = elim (Bool-cases (i.pricing_job_id == job_id)) [
    | inl own ↦ rw own (ground (arith, h.0 own, ended-statuses items h.1))
    | inr other ↦ rw other (ended-statuses items h.1)
  ]

  -- A refresh after the last item takes the job from its worker.
  pub refresh-released :
      (owner now : ℕ) (s : Store W)
      → AllEnded s
      → count (runs_for job_id owner) (refresh_job_progress memory job_id owner now s).jobs ≡ 0
  unfolding refresh_job_progress
  refresh-released owner now s h =
      let statuses =
        map (λ (i : PricingJobItem W). i.status)
          (select (λ i. i.pricing_job_id == job_id) s.items) in
      let ends : is_settled (public_job_status statuses) ≡ true =
        public_job_status-settled statuses (ended-statuses s.items h) in
      count-revise_none (runs_for job_id owner) (runs_for job_id owner) _ s.jobs
        (λ j k. ground (arith, ends)) (λ j k. k)

  abbrev pub waits : PricingJobItem W → Bool
  waits i = i.pricing_job_id == job_id && is_queued i.status

  -- The items that wait are those that the query returns.
  abbrev IsFound : List (PricingJobItem W) → PricingJobItem W → Type 0
  IsFound items i =
      waits i ≡ true → any (λ (t : PricingJobItem W). t.id == i.id) (select waits items) ≡ true

  IsFound-later :
      (i k : PricingJobItem W) (items : List (PricingJobItem W))
      → IsFound items k
      → IsFound (i ∷ items) k
  IsFound-later i k items h own =
      let later = h own in
      elim (Bool-cases (waits i)) [
        | inl first ↦ rw first (ground (arith, later))
        | inr other ↦ rw other later
      ]

  IsFound-first : (i : PricingJobItem W) (items : List (PricingJobItem W)) → IsFound (i ∷ items) i
  IsFound-first i items own = rw own (ground arith)

  queued-IsFound : (items : List (PricingJobItem W)) → All (IsFound items) items
  queued-IsFound [] = tt
  queued-IsFound (i ∷ items) = (
    IsFound-first i items,
    All-map (IsFound items) (IsFound (i ∷ items)) items (λ k h. IsFound-later i k items h)
        (queued-IsFound items),
  )

  -- Every item of the job has ended or waits in the queue.
  abbrev pub IsReady : Store W → Type 0
  IsReady s =
      All
        (λ (i : PricingJobItem W).
          (i.pricing_job_id == job_id) ≡ true
          → (is_terminal i.status ≡ true) ⊎ (is_queued i.status ≡ true))
        s.items

  pub ready-IsAccounted :
      (s : Store W) → IsReady s → All (IsAccounted (select waits s.items)) s.items
  ready-IsAccounted s h =
      All-apply (IsFound s.items) (IsAccounted (select waits s.items)) s.items
        (All-map
          (λ i.
            (i.pricing_job_id == job_id) ≡ true
            → (is_terminal i.status ≡ true) ⊎ (is_queued i.status ≡ true))
          (λ i. IsFound s.items i → IsAccounted (select waits s.items) i) s.items
          (λ i k found own. elim (k own) [
            | inl terminal ↦ inl terminal
            | inr queued ↦ inr (found (ground (arith, own, queued)))
          ])
          h)
        (queued-IsFound s.items)

find-none-count :
    (job_id owner : ℕ) (jobs : List PricingJob)
    → find (λ j. j.id == job_id) jobs ≡ none
    → count (runs_for job_id owner) jobs ≡ 0
find-none-count job_id owner [] e = refl
find-none-count job_id owner (j ∷ jobs) e = ground (arith, find-none-count job_id owner jobs)

pub find-claimed :
    (job_id : ℕ) (f : PricingJob → PricingJob) (jobs : List PricingJob)
    → ((j : PricingJob) → (f j).id ≡ j.id)
    → find (λ j. j.id == job_id) (revise (awaits job_id) f jobs) ≡ none
    → count (awaits job_id) jobs ≡ 0
find-claimed job_id f [] keeps e = refl
find-claimed job_id f (j ∷ jobs) keeps e = ground (arith, keeps j, find-claimed job_id f jobs keeps)
