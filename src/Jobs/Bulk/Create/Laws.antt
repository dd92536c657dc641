-- ===== src/Jobs/Bulk/Create/Laws.antt =====
-- What `createBulkPricingJob` of apps/api/src/bulk-pricing-service.ts adds to the tables.
use ebay_pricing_intelligenc.Prelude.{
  ℕ, ◌+◌, ◌≡◌, refl, sym, ap, ◌∙◌, value_in, append-nil, snoc-append, subst, Bool, false, List, [],
  ◌∷◌, ◌++◌, Option, none, Result, ok, err, ◌==◌, ◌&&◌, arith, count, count-append, find, >>=-eq-ok,
  Bool-cases, Option-cases, inl, inr,
}
use ebay_pricing_intelligenc.Database.{Prisma, IsDocumented}
use ebay_pricing_intelligenc.Database.Memory.{memory, of_memory}
use ebay_pricing_intelligenc.Schema.{is_active}
use ebay_pricing_intelligenc.Schema.Double.{Double}
use ebay_pricing_intelligenc.Market.Matching.{Text}
use ebay_pricing_intelligenc.Pricing.Formula.{Formula}
use ebay_pricing_intelligenc.Schema.Store.{p2002, of_option}
use ebay_pricing_intelligenc.Schema.Store.Writes.{create-eq-ok}
use ebay_pricing_intelligenc.Jobs.Bulk.{BulkJob, BulkItem, BulkStore}
use ebay_pricing_intelligenc.Jobs.Bulk.Create.{
  RowInput, StockedPart, BulkInput, row_sku, part_for, catalog_parts, new_job, new_item, same_row,
  create_rows, create_job, created, expire_orphaned, create_checked, check_input,
  create_bulk_pricing_job,
}

find-none_count : {A : Type 0} (p : A → Bool) (xs : List A) → find p xs ≡ none → count p xs ≡ 0
find-none_count p [] e = refl
find-none_count p (x ∷ xs) e = elim (Bool-cases (p x)) [
  | inl pass ↦ ground (arith, pass, e)
  | inr miss ↦ rw miss (omega (arith, find-none_count p xs (rw miss at e)))
]

-- The organization's jobs that are queued or running.
abbrev pub is_active_of : {W : Type 0} → ℕ → BulkJob W → Bool
is_active_of organization_id j = j.organization_id == organization_id && is_active j.status

module _ {W : Type 0} ⦃d : Double W⦄ (upper : ℕ → Text) (parts : List StockedPart)
    (input : BulkInput W) where
  -- The items of a new job: one for each row of the sheet, in order.
  abbrev pub items_for : ℕ → ℕ → List (RowInput W) → List (BulkItem W)
  items_for job_id id [] = []
  items_for job_id id (row ∷ rows) =
      new_item input job_id id
        (part_for (row_sku upper row) (catalog_parts memory upper parts input)) row
      ∷ items_for job_id (id + 1) rows

  create_rows-items :
      (job_id id : ℕ) (rows : List (RowInput W)) (items items' : List (BulkItem W))
      → create_rows memory upper parts input job_id id rows items ≡ ok items'
      → items' ≡ items ++ items_for job_id id rows
  unfolding create_rows
  create_rows-items job_id id [] items items' e =
      sym (ap (value_in items) e) ∙ sym (append-nil items)
  create_rows-items job_id id (row ∷ rows) items items' e =
      let item =
        new_item input job_id id
          (part_for (row_sku upper row) (catalog_parts memory upper parts input)) row in
      let (items1, added, rest) =
        >>=-eq-ok (of_option p2002 (memory.create same_row item items))
          (λ items1. create_rows memory upper parts input job_id (id + 1) rows items1) e in
      create_rows-items job_id (id + 1) rows items1 items' rest
      ∙ ap (λ l. l ++ items_for job_id (id + 1) rows)
          (create-eq-ok same_row item items items1 added)
      ∙ snoc-append items item (items_for job_id (id + 1) rows)

  create_job-ok :
      (formula : Option (Formula W)) (now : ℕ) (s : BulkStore W) (r : BulkJob W × BulkStore W)
      → create_job memory upper parts input formula now s ≡ ok r
      → (r.0 ≡ new_job input formula s.next_id now)
        × (r.1.jobs ≡ s.jobs ++ new_job input formula s.next_id now ∷ [])
        × (r.1.items ≡ s.items ++ items_for s.next_id (s.next_id + 1) input.rows)
  unfolding create_job
  create_job-ok formula now s r e =
      let job = new_job input formula s.next_id now in
      let (jobs, added, e1) =
        >>=-eq-ok (of_option p2002 (memory.create (λ x y. false) job s.jobs)) _ e in
      let (items, rows, e2) =
        >>=-eq-ok
          (create_rows memory upper parts input s.next_id (s.next_id + 1) input.rows s.items) _
          e1 in
      (
        sym (ap (λ x. (value_in r x).0) e2),
        sym (ap (λ x. (value_in r x).1.jobs) e2)
            ∙ create-eq-ok (λ x y. false) job s.jobs jobs added,
        sym (ap (λ x. (value_in r x).1.items) e2)
            ∙ create_rows-items s.next_id (s.next_id + 1) input.rows s.items items rows,
      )

  -- What a creation that succeeds has done. `before` are the tables when the orphaned jobs have
  -- expired, and `s` those that the creation finds, which others may have changed in between.
  abbrev pub IsCreated : ℕ → BulkStore W → BulkStore W → BulkJob W → BulkStore W → Type 0
  IsCreated now before s job s' =
      (count (is_active_of input.organization_id) before.jobs ≡ 0)
      × ((formula : Option (Formula W)) × (check_input input input.rows ≡ ok formula)
          × (job ≡ new_job input formula s.next_id now))
      × (s'.jobs ≡ s.jobs ++ job ∷ [])
      × (s'.items ≡ s.items ++ items_for s.next_id (s.next_id + 1) input.rows)
      × (count (is_active_of input.organization_id) s'.jobs
          ≡ count (is_active_of input.organization_id) s.jobs + 1)

  created-IsCreated :
      (formula : Option (Formula W)) (now : ℕ) (before s s' : BulkStore W) (job : BulkJob W)
      (r : Result (BulkJob W × BulkStore W))
      → check_input input input.rows ≡ ok formula
      → count (is_active_of input.organization_id) before.jobs ≡ 0
      → create_job memory upper parts input formula now s ≡ r
      → created memory upper parts s r ≡ (ok job, s')
      → IsCreated now before s job s'
  created-IsCreated formula now before s s' job (err x) checked idle made e =
      ground (arith, ap (λ t. t.0) e)
  created-IsCreated formula now before s s' job (ok r) checked idle made e =
      let (is_job, jobs, items) = create_job-ok formula now s r made in
      let new = new_job input formula s.next_id now in
      let one =
        ap (count (is_active_of input.organization_id)) jobs
        ∙ (count-append (is_active_of input.organization_id) s.jobs (new ∷ []) ∙ ground arith) in
      subst (λ t. IsCreated now before s job t) (ap (λ t. t.1) e)
        (subst (λ j. IsCreated now before s j r.1) (sym is_job ∙ ap (λ t. value_in r.0 t.0) e)
          (idle, (formula, checked, refl), jobs, items, one))

  create_checked-IsCreated :
      (meanwhile : BulkStore W → BulkStore W) (now : ℕ) (s s' : BulkStore W) (job : BulkJob W)
      (checked : Result (Option (Formula W)))
      → check_input input input.rows ≡ checked
      → create_checked memory upper parts meanwhile input now s checked ≡ (ok job, s')
      → IsCreated now
          (expire_orphaned memory upper parts input now s)
          (meanwhile (expire_orphaned memory upper parts input now s))
          job
          s'
  create_checked-IsCreated meanwhile now s s' job (err x) c e = ground (arith, ap (λ t. t.0) e)
  create_checked-IsCreated meanwhile now s s' job (ok formula) c e =
      let before = expire_orphaned memory upper parts input now s in
      elim (Option-cases (find (is_active_of input.organization_id) before.jobs)) [
        | inl idle ↦
            created-IsCreated formula now before (meanwhile before) s' job
              (create_job memory upper parts input formula now (meanwhile before)) c
              (find-none_count (is_active_of input.organization_id) before.jobs idle) refl
              (rw idle at e)
        | inr (active, found) ↦ ground (arith, ap (λ t. t.0) (rw found at e))
      ]

  -- If a bulk job is created, the organization had no queued or running job once those that were
  -- never started had expired. The input passed its checks, the new job is queued and holds the
  -- formula in normal form, and it is added with one queued item for each row, in the order of the
  -- sheet, to the tables as others have left them since; the organization has one active job more
  -- than in those, so exactly one if nobody interfered.
  pub create_bulk_pricing_job-IsCreated :
      (db : Prisma)
      → IsDocumented db
      → (meanwhile : BulkStore W → BulkStore W) (now : ℕ) (s s' : BulkStore W) (job : BulkJob W)
      → create_bulk_pricing_job db upper parts meanwhile input now s ≡ (ok job, s')
      → IsCreated now
          (expire_orphaned db upper parts input now s)
          (meanwhile (expire_orphaned db upper parts input now s))
          job
          s'
  unfolding create_bulk_pricing_job
  create_bulk_pricing_job-IsCreated = of_memory _ (λ meanwhile now s s' job e.
      create_checked-IsCreated meanwhile now s s' job (check_input input input.rows) refl e)
