-- ===== src/Jobs/Pricing/Resume/Reclaims.antt =====
-- Which jobs the recovery takes from their workers.
use ebay_pricing_intelligenc.Prelude.{
  ℕ, ◌≡◌, ◌⊎◌, inl, inr, refl, sym, ap, ◌∙◌, Bool, true, false, ◌&&◌, List, [], ◌∷◌, ==_iff, ◌==◌,
  arith, map, select, count, revise, Pairwise, Pairwise-revise, Pairwise-refl, Pairwise-trans,
  Bool-cases, if◌then◌else◌,
}
use ebay_pricing_intelligenc.Database.{Prisma, IsDocumented}
use ebay_pricing_intelligenc.Database.Memory.{memory, of_memory}
use ebay_pricing_intelligenc.Schema.{PricingJob, PricingJobItem, is_running, job_is_queued}
use ebay_pricing_intelligenc.Schema.Store.{Store}
use ebay_pricing_intelligenc.Jobs.Pricing.Create.{includes}
use ebay_pricing_intelligenc.Jobs.Pricing.Resume.{
  is_stale, requeued, item_requeued, reclaim, reclaim_all, start_queued_pricing_jobs,
  resume_interrupted_pricing_jobs,
}

-- The job is one of those listed, and is stale when its turn comes.
abbrev pub is_taken : (ℕ → ℕ) → List ℕ → PricingJob → Bool
is_taken clock ids j = includes ids j.id && is_stale (clock j.id) j

abbrev one_taken : ℕ → ℕ → PricingJob → PricingJob
one_taken id now j = if j.id == id && is_stale now j then requeued j else j

-- A job that is requeued is not stale any more.
requeued-once :
    (clock : ℕ → ℕ) (id : ℕ) (ids : List ℕ) (j : PricingJob)
    → (if is_taken clock ids (one_taken id (clock id) j)
        then requeued (one_taken id (clock id) j)
        else one_taken id (clock id) j)
      ≡ (if is_taken clock (id ∷ ids) j then requeued j else j)
requeued-once clock id ids j = elim (Bool-cases (j.id == id)) [
  | inl same ↦
      let e : id ≡ j.id = sym ((==_iff j.id id).0 same) in
      let here : (j.id == j.id) ≡ true = ground arith in
      rw (e, here)
        (elim (Bool-cases (is_stale (clock j.id) j)) [
          | inl stale ↦ rw stale (ground arith)
          | inr live ↦ rw live (ground (arith, live))
        ])
  | inr other ↦ let flipped : (id == j.id) ≡ false = ground arith in rw (other, flipped) refl
]

revise-taken :
    (clock : ℕ → ℕ) (id : ℕ) (ids : List ℕ) (jobs : List PricingJob)
    → revise
        (is_taken clock ids)
        (λ j. requeued j)
        (revise (λ j. j.id == id && is_stale (clock id) j) (λ j. requeued j) jobs)
      ≡ revise (is_taken clock (id ∷ ids)) (λ j. requeued j) jobs
revise-taken clock id ids [] = refl
revise-taken clock id ids (j ∷ jobs) =
    λ i. requeued-once clock id ids j i ∷ revise-taken clock id ids jobs i

none-taken :
    (clock : ℕ → ℕ) (jobs : List PricingJob)
    → jobs ≡ revise (is_taken clock []) (λ j. requeued j) jobs
none-taken clock [] = refl
none-taken clock (j ∷ jobs) = ap (λ r. j ∷ r) (none-taken clock jobs)

module _ {W : Type 0} where
  reclaim-jobs :
      (id now : ℕ) (s : Store W)
      → (reclaim memory id now s).jobs
        ≡ revise (λ j. j.id == id && is_stale now j) (λ j. requeued j) s.jobs
  unfolding reclaim
  reclaim-jobs id now s =
      elim (Bool-cases (count (λ (j : PricingJob). j.id == id && is_stale now j) s.jobs == 0)) [
        | inl lost ↦ rw lost refl
        | inr won ↦ rw won refl
      ]

  -- An item is left as it is, or was running and waits again.
  abbrev pub IsRecovery : PricingJobItem W → PricingJobItem W → Type 0
  IsRecovery a b = (b ≡ a) ⊎ ((is_running a.status ≡ true) × (b ≡ item_requeued a))

  reclaim-items :
      (id now : ℕ) (s : Store W) → Pairwise IsRecovery s.items (reclaim memory id now s).items
  unfolding reclaim
  reclaim-items id now s =
      elim (Bool-cases (count (λ (j : PricingJob). j.id == id && is_stale now j) s.jobs == 0)) [
        | inl lost ↦ rw lost (Pairwise-refl IsRecovery (λ i. inl refl) s.items)
        | inr won ↦ rw won (
            Pairwise-revise IsRecovery (λ i. i.pricing_job_id == id && is_running i.status)
              (λ i. item_requeued i) s.items (λ i h. inr (ground (arith, h), refl)) (λ i. inl refl))
      ]

  IsRecovery-trans : (a b c : PricingJobItem W) → IsRecovery a b → IsRecovery b c → IsRecovery a c
  IsRecovery-trans a b c (inl e) k = rw (← e) k
  IsRecovery-trans a b c (inr h) (inl e) = inr (h.0, e ∙ h.1)
  IsRecovery-trans a b c (inr h) (inr k) = inr (h.0, k.1 ∙ ap (λ i. item_requeued i) h.1)

  reclaim_all-jobs :
      (clock : ℕ → ℕ) (ids : List ℕ) (s : Store W)
      → (reclaim_all memory clock ids s).jobs ≡ revise (is_taken clock ids) (λ j. requeued j) s.jobs
  unfolding reclaim_all
  reclaim_all-jobs clock [] s = none-taken clock s.jobs
  reclaim_all-jobs clock (id ∷ ids) s =
      reclaim_all-jobs clock ids (reclaim memory id (clock id) s)
      ∙ ap (λ jobs. revise (is_taken clock ids) (λ j. requeued j) jobs)
          (reclaim-jobs id (clock id) s)
      ∙ revise-taken clock id ids s.jobs

  reclaim_all-items :
      (clock : ℕ → ℕ) (ids : List ℕ) (s : Store W)
      → Pairwise IsRecovery s.items (reclaim_all memory clock ids s).items
  unfolding reclaim_all
  reclaim_all-items clock [] s = Pairwise-refl IsRecovery (λ i. inl refl) s.items
  reclaim_all-items clock (id ∷ ids) s =
      let t = reclaim memory id (clock id) s in
      Pairwise-trans IsRecovery IsRecovery-trans s.items t.items
        (reclaim_all memory clock ids t).items (reclaim-items id (clock id) s)
        (reclaim_all-items clock ids t)

  abbrev pub stale_ids : ℕ → Store W → List ℕ
  stale_ids now s = map (λ (j : PricingJob). j.id) (select (λ j. is_stale now j) s.jobs)

  -- The recovery is one change of the jobs: it puts back in the queue, without a worker, the jobs
  -- that were stale when it began and are stale when their turn comes, and leaves every other job
  -- as it was, among them each job whose lease is good. An item stays as it was, or was running
  -- and waits again. The jobs that are started are those that are queued then.
  pub resume_interrupted_pricing_jobs-reclaims :
      (db : Prisma)
      → IsDocumented db
      → (clock : ℕ → ℕ) (now : ℕ) (s : Store W)
      → ((resume_interrupted_pricing_jobs db clock now s).1.jobs
          ≡ revise (is_taken clock (stale_ids now s)) (λ j. requeued j) s.jobs)
        × Pairwise IsRecovery s.items (resume_interrupted_pricing_jobs db clock now s).1.items
        × ((resume_interrupted_pricing_jobs db clock now s).0
            ≡ map
                (λ (j : PricingJob). j.id)
                (select
                  (λ j. job_is_queued j.status)
                  (resume_interrupted_pricing_jobs db clock now s).1.jobs))
  unfolding resume_interrupted_pricing_jobs start_queued_pricing_jobs
  resume_interrupted_pricing_jobs-reclaims = of_memory _ (λ clock now s. (
    reclaim_all-jobs clock (stale_ids now s) s,
    reclaim_all-items clock (stale_ids now s) s,
    refl,
  ))
