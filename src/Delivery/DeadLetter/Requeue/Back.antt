-- ===== src/Delivery/DeadLetter/Requeue/Back.antt =====
-- An item and its job after `requeueDeadLetter` of apps/api/src/dead-letter-service.ts.
use ebay_pricing_intelligenc.Prelude.{
  ℕ, ◌≡◌, ◌⊎◌, refl, sym, subst, Bool, true, false, ◌&&◌, none, List, [], ◌∷◌, ◌==◌, ok, arith, All,
  All-revise, All_of_every, Pairwise, Pairwise-revise, any, count, find, revise, inl, inr, some,
}
use ebay_pricing_intelligenc.Database.Memory.{memory, update-eq-ok}
use ebay_pricing_intelligenc.Schema.{
  JobStatus, ItemStatus, FitmentItemStatus, FitmentJobStatus, PricingJob, PricingJobItem,
  FitmentJob, FitmentJobItem, is_active, is_failed, fitment_is_active, fitment_item_failed,
  DeadLetterType, DeadLetterEntry,
}
use ebay_pricing_intelligenc.Schema.Store.{Store}

-- Some row passes the test afterwards, each that does has the property, and the others are as
-- before.
abbrev pub IsChanged : {Row : Type 0} → (Row → Bool) → (Row → Type 0) → List Row → List Row → Type 0
IsChanged p Q rows rows' =
    (any p rows' ≡ true)
    × All (λ row. p row ≡ true → Q row) rows'
    × Pairwise (λ a b. (p a ≡ true) ⊎ (b ≡ a)) rows rows'

any-revise :
    {Row : Type 0} (p : Row → Bool) (f : Row → Row) (rows : List Row)
    → ((x : Row) → p (f x) ≡ p x)
    → any p rows ≡ true
    → any p (revise p f rows) ≡ true
any-revise p f [] same h = h
any-revise p f (x ∷ rows) same h = ground (arith, same x, any-revise p f rows same)

revise-IsChanged :
    {Row : Type 0} (p : Row → Bool) (f : Row → Row) (Q : Row → Type 0) (rows : List Row)
    → ((x : Row) → p (f x) ≡ p x)
    → ((x : Row) → Q (f x))
    → any p rows ≡ true
    → IsChanged p Q rows (revise p f rows)
revise-IsChanged p f Q rows same new there = (
  any-revise p f rows same there,
  All-revise (λ x. Unit {0}) (λ row. p row ≡ true → Q row) p f rows (λ x u pass h. new x)
      (λ x u miss h. cc) (All_of_every _ rows (λ x. tt)),
  Pairwise-revise (λ a b. (p a ≡ true) ⊎ (b ≡ a)) p f rows (λ x pass. inl pass) (λ x. inr refl),
)

pub update-IsChanged :
    {Row : Type 0} (same : Row → Row → Bool) (p : Row → Bool) (f : Row → Row) (Q : Row → Type 0)
    (rows rows' : List Row)
    → ((x : Row) → p (f x) ≡ p x)
    → ((x : Row) → Q (f x))
    → memory.update same p f rows ≡ ok rows'
    → IsChanged p Q rows rows'
update-IsChanged same p f Q rows rows' keeps new e =
    let (made, unique, there) = update-eq-ok same p f rows rows' e in
    subst (λ l. IsChanged p Q rows l) (sym made) (revise-IsChanged p f Q rows keeps new there)

abbrev pub is_fitment_item_of : ℕ → DeadLetterEntry → FitmentJobItem → Bool
is_fitment_item_of organization_id entry i =
    i.id == entry.item_id
    && i.organization_id == organization_id
    && i.fitment_job_id == entry.job_id

module _ {W : Type 0} (organization_id : ℕ) where
  abbrev pub is_item_of : DeadLetterEntry → PricingJobItem W → Bool
  is_item_of entry i =
      i.id == entry.item_id
      && i.organization_id == organization_id
      && i.pricing_job_id == entry.job_id

  -- The tables `s` that the check read allow the reset: the item had failed, and its job was
  -- neither queued nor running. From `t` to `s'` the item went back to the queue without error and
  -- times, its job went back to the queue without lease, error and end, what the item had found is
  -- gone, and the rows of the other items and jobs are as before.
  abbrev pub IsBack : DeadLetterType → DeadLetterEntry → Store W → Store W → Store W → Type 0
  IsBack DeadLetterType.pricing_item entry s t s' =
      (item : PricingJobItem W) × (job : PricingJob) × (find (is_item_of entry) s.items ≡ some item)
      × (is_failed item.status ≡ true)
      × (find (λ j. j.id == item.pricing_job_id) s.jobs ≡ some job)
      × (is_active job.status ≡ false)
      × IsChanged (λ i. i.id == item.id)
          (λ i.
            (i.status ≡ ItemStatus.queued)
            × (i.error ≡ none)
            × (i.started_at ≡ none)
            × (i.completed_at ≡ none))
          t.items s'.items
      × IsChanged (λ j. j.id == entry.job_id)
          (λ j.
            (j.status ≡ JobStatus.queued)
            × (j.lease_owner ≡ none)
            × (j.lease_expires_at ≡ none)
            × (j.last_error ≡ none)
            × (j.completed_at ≡ none))
          t.jobs s'.jobs
      × (count (λ row. row.pricing_job_item_id == item.id) s'.snapshots ≡ 0)
  IsBack DeadLetterType.fitment_item entry s t s' =
      (item : FitmentJobItem) × (job : FitmentJob) × (find
          (is_fitment_item_of organization_id entry) s.fitment_items
        ≡ some item)
      × (fitment_item_failed item.status ≡ true)
      × (find (λ j. j.id == item.fitment_job_id) s.fitment_jobs ≡ some job)
      × (fitment_is_active job.status ≡ false)
      × IsChanged (λ i. i.id == item.id)
          (λ i.
            (i.status ≡ FitmentItemStatus.queued)
            × (i.error ≡ none)
            × (i.started_at ≡ none)
            × (i.completed_at ≡ none))
          t.fitment_items s'.fitment_items
      × IsChanged (λ j. j.id == entry.job_id)
          (λ j.
            (j.status ≡ FitmentJobStatus.queued)
            × (j.lease_owner ≡ none)
            × (j.lease_expires_at ≡ none)
            × (j.last_error ≡ none)
            × (j.completed_at ≡ none))
          t.fitment_jobs s'.fitment_jobs
      × (count (λ row. row == item.id) s'.fitment_candidates ≡ 0)
