-- ===== src/Jobs/Pricing/Run/Settled.antt =====
-- What `runPricingJob` of apps/api/src/pricing-service.ts leaves of a job and its items.
use ebay_pricing_intelligenc.Prelude.{
  ℕ, ◌≡◌, ◌⊎◌, ◌<◌, inl, inr, refl, String, true, false, List, [], ◌∷◌, Option, none, some, ◌==◌,
  arith, any, select, count, find, All, Pairwise, Pairwise-revise, count-revise_none, length,
}
use ebay_pricing_intelligenc.Database.{Prisma, IsDocumented}
use ebay_pricing_intelligenc.Database.Memory.{memory, of_memory}
use ebay_pricing_intelligenc.Schema.{JobStatus, PricingJob, PricingJobItem}
use ebay_pricing_intelligenc.Schema.Double.{Double}
use ebay_pricing_intelligenc.Schema.Store.{Store}
use ebay_pricing_intelligenc.Jobs.Retry.{JobRunOptions, Attempt, returned, threw, ended, Thrown}
use ebay_pricing_intelligenc.Jobs.Pricing.{message_of, Surroundings, runs_for, refresh_job_progress}
use ebay_pricing_intelligenc.Jobs.Pricing.Item.{loop_ended}
use ebay_pricing_intelligenc.Jobs.Pricing.Item.Settles.{Ends, process_pricing_item-Ends}
use ebay_pricing_intelligenc.Jobs.Pricing.Run.Claims.{awaits}
use ebay_pricing_intelligenc.Jobs.Pricing.Run.{
  claim, renew_lease, after_item, continued, run_items, fail_job, settled, run_found, run_claimed,
  run_pricing_job,
}
use ebay_pricing_intelligenc.Jobs.Pricing.Run.Ended.{
  IsAccounted, AllEnded, IsAccounted-steps, accounted-all, refresh-released, waits, IsReady,
  ready-IsAccounted, find-claimed,
}

module _ {W : Type 0} ⦃d : Double W⦄ (around : Surroundings W) (options : JobRunOptions)
    (job_id : ℕ) where
  -- What a run of the loop that returns has made of the tables.
  abbrev IsGood : Attempt (Unit {0}) × Store W → Type 0
  IsGood r =
      (u : Unit {0})
      → r.0 ≡ returned u
      → AllEnded job_id r.1 × (count (runs_for job_id options.lease_owner) r.1.jobs ≡ 0)

  continued-IsGood :
      (t : PricingJobItem W) (todo : List (PricingJobItem W)) (s : Store W)
      (found : Attempt (Unit {0}) × Store W) (next : Store W → Attempt (Unit {0}) × Store W)
      → Ends t.id s found
      → All (IsAccounted job_id (t ∷ todo)) s.items
      → ((s₁ : Store W) → All (IsAccounted job_id todo) s₁.items → IsGood (next s₁))
      → IsGood (continued memory around options found next)
  continued-IsGood t todo s (returned u, s₁) next ends h k =
      k s₁ (IsAccounted-steps job_id t todo s s₁ ends.0 (ends.1 u refl) h)
  continued-IsGood t todo s (threw e, s₁) next ends h k = λ u e. cc
  continued-IsGood t todo s (ended, s₁) next ends h k = λ u e. cc

  after_item-items :
      (now : ℕ) (s : Store W) → (after_item memory around options job_id now s).items ≡ s.items
  unfolding after_item refresh_job_progress renew_lease
  after_item-items now s = refl

  after_item-released :
      (now : ℕ) (s : Store W)
      → AllEnded job_id s
      → count
          (runs_for job_id options.lease_owner)
          (after_item memory around options job_id now s).jobs
        ≡ 0
  unfolding after_item renew_lease
  after_item-released now s h =
      refresh-released job_id options.lease_owner now
        (renew_lease memory around options job_id now s) h

  run_items-IsGood :
      (marketplace : String) (clock : ℕ → ℕ) (t : PricingJobItem W) (todo : List (PricingJobItem W))
      (s : Store W)
      → All (IsAccounted job_id (t ∷ todo)) s.items
      → IsGood (run_items memory around options job_id marketplace clock (t ∷ todo) s)
  unfolding run_items
  run_items-IsGood marketplace clock t [] s h =
      continued-IsGood t [] s _ _
        (process_pricing_item-Ends around options marketplace t (clock t.id) s) h
        (λ s₁ all u e.
          let all_ended = accounted-all job_id s₁ all in
          (
            rw (after_item-items (clock t.id) s₁) all_ended,
            after_item-released (clock t.id) s₁ all_ended,
          ))
  run_items-IsGood marketplace clock t (t' ∷ todo) s h =
      continued-IsGood t (t' ∷ todo) s _ _
        (process_pricing_item-Ends around options marketplace t (clock t.id) s) h
        (λ s₁ all.
          run_items-IsGood marketplace clock t' todo
            (after_item memory around options job_id (clock t.id) s₁)
            (rw (after_item-items (clock t.id) s₁) all))

  fail_job-released :
      (now : ℕ) (e : Thrown) (s : Store W)
      → count
          (runs_for job_id options.lease_owner)
          (fail_job memory around options job_id now e s).jobs
        ≡ 0
  unfolding fail_job
  fail_job-released now e s =
      count-revise_none (runs_for job_id options.lease_owner) (runs_for job_id options.lease_owner)
        _ s.jobs (λ j k. ground arith) (λ j k. k)

  -- How the loop was stopped: an exception of an item, or the end of its attempts.
  abbrev pub IsStopped : Attempt (Unit {0}) × Store W → Thrown → Store W → Type 0
  IsStopped r e t = (r ≡ (threw e, t)) ⊎ ((r ≡ (ended, t)) × (e ≡ loop_ended))

  -- From `t` to `s'` the rows of the job that ran for the worker were marked as failed with the
  -- message of the exception; no other job and no item was changed.
  abbrev pub IsFailed : Thrown → Store W → Store W → Type 0
  IsFailed e t s' =
      Pairwise
        (λ (a b : PricingJob).
          ((runs_for job_id options.lease_owner a ≡ true)
            × (b.status ≡ JobStatus.failed)
            × (b.last_error ≡ some (message_of around "Unknown pricing job error" e)))
          ⊎ (b ≡ a))
        t.jobs s'.jobs
      × (s'.items ≡ t.items)

  -- The loop whose result is `r` has left the tables `s'`.
  abbrev WasLeft : Attempt (Unit {0}) × Store W → Store W → Type 0
  WasLeft r s' =
      (count (runs_for job_id options.lease_owner) s'.jobs ≡ 0)
      × (AllEnded job_id s' ⊎ ((e : Thrown) × (t : Store W) × IsStopped r e t × IsFailed e t s'))

  -- The worker has let go of the job that it claimed in `s`: its items have ended, or an exception
  -- has stopped the loop over the items that waited, and the job was marked as failed.
  abbrev pub IsLeft : Prisma → (ℕ → ℕ) → ℕ → Store W → Store W → Type 0
  IsLeft db clock now s s' =
      let claimed = (claim db around options job_id now s).0 in
      (count (runs_for job_id options.lease_owner) s'.jobs ≡ 0)
      × (AllEnded job_id s'
          ⊎ ((job : PricingJob) × (find (λ (j : PricingJob). j.id == job_id) claimed.jobs
                ≡ some job)
              × (e : Thrown) × (t : Store W) × IsStopped
                  (run_items db around options job_id job.marketplace clock
                    (select (waits job_id) claimed.items) claimed)
                  e t
              × IsFailed e t s'))

  fail_job-IsFailed :
      (now : ℕ) (e : Thrown) (t : Store W)
      → IsFailed e t (fail_job memory around options job_id now e t)
  unfolding fail_job
  fail_job-IsFailed now e t = (
    Pairwise-revise _ (runs_for job_id options.lease_owner) _ t.jobs
        (λ j runs. inl (runs, refl, refl)) (λ j. inr refl),
    refl,
  )

  settled-WasLeft :
      (now : ℕ) (r : Attempt (Unit {0}) × Store W)
      → IsGood r
      → WasLeft r (settled memory around options job_id now r)
  settled-WasLeft now (returned u, s) good = ((good u refl).1, inl (good u refl).0)
  settled-WasLeft now (threw e, s) good =
      (fail_job-released now e s, inr (e, s, inl refl, fail_job-IsFailed now e s))
  settled-WasLeft now (ended, s) good = (
    fail_job-released now loop_ended s,
    inr (loop_ended, s, inr (refl, refl), fail_job-IsFailed now loop_ended s),
  )

  run_items-WasLeft :
      (marketplace : String) (clock : ℕ → ℕ) (now : ℕ) (todo : List (PricingJobItem W))
      (s : Store W)
      → 0 < length todo
      → All (IsAccounted job_id todo) s.items
      → WasLeft (run_items memory around options job_id marketplace clock todo s) (
          settled memory around options job_id now
            (run_items memory around options job_id marketplace clock todo s))
  run_items-WasLeft marketplace clock now [] s pos h = absurd (omega arith)
  run_items-WasLeft marketplace clock now (t ∷ todo) s pos h =
      settled-WasLeft now _ (run_items-IsGood marketplace clock t todo s h)

  run_found-IsLeft :
      (clock : ℕ → ℕ) (now : ℕ) (found : Option PricingJob) (s : Store W)
      → find (λ (j : PricingJob). j.id == job_id) (claim memory around options job_id now s).0.jobs
        ≡ found
      → (found ≡ none → ⊥)
      → IsReady job_id (claim memory around options job_id now s).0
      → 0 < length (select (waits job_id) (claim memory around options job_id now s).0.items)
      → IsLeft memory clock now s (
          run_found memory around options job_id clock now found
            (claim memory around options job_id now s).0)
  run_found-IsLeft clock now none s is there ready pos = absurd (there refl)
  run_found-IsLeft clock now (some job) s is there ready pos =
      let claimed = (claim memory around options job_id now s).0 in
      let (free, left) =
        run_items-WasLeft job.marketplace clock now (select (waits job_id) claimed.items) claimed
          pos (ready-IsAccounted job_id claimed ready) in
      (
        free,
        elim left [
          | inl ends ↦ inl ends
          | inr (e, t, stopped, failed) ↦ inr (job, is, e, t, stopped, failed)
        ],
      )

  -- A worker that takes a queued job from the queue lets go of it at the end of its run: no
  -- job with this identifier is running for the worker. Every item of the job has ended, unless an
  -- exception came out of the loop over the items that were queued when the job was claimed; then
  -- each row of the job that the loop left running for the worker was marked as failed with the
  -- exception's message, and no other job and no item was changed after the loop. The job has at
  -- least one queued item, and its items are queued or have ended, as creation and the recovery of
  -- interrupted jobs leave them; the process is not running the job already.
  pub run_pricing_job-IsLeft :
      (db : Prisma)
      → IsDocumented db
      → (active : List ℕ) (clock : ℕ → ℕ) (now : ℕ) (s : Store W)
      → any (λ id. id == job_id) active ≡ false
      → 0 < count (awaits job_id) s.jobs
      → IsReady job_id s
      → 0 < length (select (waits job_id) s.items)
      → IsLeft db clock now s (run_pricing_job db around options active job_id clock now s)
  unfolding run_pricing_job run_claimed claim
  run_pricing_job-IsLeft = of_memory _ (λ active clock now s idle queued ready pos.
      let won : (count (awaits job_id) s.jobs == 0) ≡ false = ground arith in
      rw (idle, won)
        (run_found-IsLeft clock now _ s refl
          (λ absent. omega (arith, queued, find-claimed job_id _ s.jobs (λ j. refl) absent)) ready
          pos))
