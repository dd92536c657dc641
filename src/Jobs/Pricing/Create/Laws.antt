-- ===== src/Jobs/Pricing/Create/Laws.antt =====
-- What the creation of a job writes.
use ebay_pricing_intelligenc.Prelude.{
  ℕ, ◌+◌, ◌≡◌, ◌⊎◌, inl, inr, refl, subst, sym, ap, ◌∙◌, select, not, value_in, append-nil,
  snoc-append, Bool, true, false, ◌&&◌, ◌||◌, List, [], ◌∷◌, ◌++◌, Result, ok, err, >>=-eq-ok, ◌==◌,
  arith, any, length, length-snoc, Bool-cases, is_some, ==_iff,
}
use ebay_pricing_intelligenc.Database.{Prisma, IsDocumented, clashes, p2002}
use ebay_pricing_intelligenc.Database.Memory.{memory, of_memory}
use ebay_pricing_intelligenc.Schema.{
  is_queued, Part, PricingJob, PricingJobItem, job_is_queued, is_active,
}
use ebay_pricing_intelligenc.Schema.Store.{Store, of_option}
use ebay_pricing_intelligenc.Schema.Store.Writes.{create-eq-ok}
use ebay_pricing_intelligenc.Schema.Store.Writes.{writes}
use ebay_pricing_intelligenc.Delivery.DeadLetter.Requeue.{same_active_job, is_p2002}
use ebay_pricing_intelligenc.Jobs.Pricing.{Surroundings, resolve_pricing_condition}
use ebay_pricing_intelligenc.Jobs.Pricing.Create.{
  CreatePricingJobInput, includes, same_item_part, distinct_from, new_item, create_items, new_job,
  create_tx, find_parts, recaught, create_pricing_job,
}

any-snoc :
    {A : Type 0} (p : A → Bool) (xs : List A) (x : A) → any p (xs ++ x ∷ []) ≡ (any p xs || p x)
any-snoc p [] x = ground arith
any-snoc p (y ∷ xs) x = ground (arith, any-snoc p xs x)

same_active_job_comm : (a b : PricingJob) → same_active_job a b ≡ same_active_job b a
same_active_job_comm a b = ground arith

-- A new row that clashes with no other leaves the index as it holds.
clashes-snoc :
    (job : PricingJob) (jobs : List PricingJob)
    → any (same_active_job job) jobs ≡ false
    → clashes same_active_job jobs ≡ false
    → clashes same_active_job (jobs ++ job ∷ []) ≡ false
clashes-snoc job [] e h = refl
clashes-snoc job (j ∷ jobs) e h = ground (
  arith,
  e,
  h,
  any-snoc (same_active_job j) jobs job,
  same_active_job_comm j job,
  clashes-snoc job jobs,
)

-- The identifiers without repetition are those of the list.
includes-distinct_from :
    (seen ids : List ℕ) (i : ℕ)
    → (includes seen i || includes (distinct_from seen ids) i) ≡ (includes seen i || includes ids i)
unfolding distinct_from
includes-distinct_from seen [] i = refl
includes-distinct_from seen (x ∷ ids) i = elim (Bool-cases (includes seen x)) [
  | inl known ↦ elim (Bool-cases (x == i)) [
    | inl same ↦
        let is : x ≡ i = ((==_iff x i).0 same) in
        let there : includes seen i ≡ true = rw (← is) known in rw (known, there) refl
    | inr other ↦ rw (known, other) (includes-distinct_from seen ids i)
  ]
  | inr fresh ↦
      let later = includes-distinct_from (x ∷ seen) ids i in rw fresh (ground (arith, later))
]

select-same :
    {A : Type 0} (p q : A → Bool) (xs : List A) → ((x : A) → p x ≡ q x) → select p xs ≡ select q xs
select-same p q [] h = refl
select-same p q (x ∷ xs) h = rw (h x, select-same p q xs h) refl

module _ {W : Type 0} (around : Surroundings W) (input : CreatePricingJobInput) where
  -- The item waits for the part, in the job with the identifier.
  abbrev pub IsItemFor : ℕ → Part → PricingJobItem W → Type 0
  IsItemFor job_id part item =
      (item.pricing_job_id ≡ job_id)
      × (item.organization_id ≡ input.organization_id)
      × (item.part_id ≡ part.id)
      × (is_queued item.status ≡ true)
      × (item.condition ≡ resolve_pricing_condition input.condition_mode part.condition)
      × (item.attempt_count ≡ 0)

  -- One item for each part, in order.
  abbrev pub AreItemsFor : ℕ → List Part → List (PricingJobItem W) → Type 0
  AreItemsFor job_id [] [] = Unit
  AreItemsFor job_id (part ∷ parts) (item ∷ items) =
      IsItemFor job_id part item × AreItemsFor job_id parts items
  AreItemsFor job_id _ _ = ⊥

  -- The part is one that the request names, of its organization, and not archived.
  abbrev pub is_asked : Part → Bool
  is_asked part =
      part.organization_id == input.organization_id
      && includes input.part_ids part.id
      && not part.is_archived

  -- The rows of the items after the parts' were added.
  abbrev IsExtended : ℕ → List Part → List (PricingJobItem W) → List (PricingJobItem W) → Type 0
  IsExtended job_id parts rows rows' =
      (added : List (PricingJobItem W)) × (rows' ≡ rows ++ added) × AreItemsFor job_id parts added

  new_item-IsItemFor :
      (job_id id : ℕ) (part : Part)
      → IsItemFor job_id part (new_item memory around input job_id id part)
  unfolding new_item
  new_item-IsItemFor job_id id part = (refl, refl, refl, refl, refl, refl)

  IsExtended-step :
      (job_id : ℕ) (part : Part) (parts : List Part) (item : PricingJobItem W)
      (rows rows₁ rows' : List (PricingJobItem W))
      → IsItemFor job_id part item
      → rows₁ ≡ rows ++ item ∷ []
      → IsExtended job_id parts rows₁ rows'
      → IsExtended job_id (part ∷ parts) rows rows'
  IsExtended-step job_id part parts item rows rows₁ rows' is e (added, more, all) =
      (item ∷ added, more ∙ ap (λ l. l ++ added) e ∙ snoc-append rows item added, (is, all))

  create_items-IsExtended :
      (job_id : ℕ) (parts : List Part) (next : ℕ) (rows : List (PricingJobItem W))
      (r : List (PricingJobItem W) × ℕ)
      → create_items memory around input job_id parts next rows ≡ ok r
      → IsExtended job_id parts rows r.0
  unfolding create_items
  create_items-IsExtended job_id [] next rows r e =
      ([], sym (ap (λ x. (value_in r x).0) e) ∙ sym (append-nil rows), tt)
  create_items-IsExtended job_id (part ∷ parts) next rows r e =
      let item = new_item memory around input job_id next part in
      let (rows₁, created, e₁) =
        >>=-eq-ok (of_option p2002 (memory.create same_item_part item rows)) _ e in
      IsExtended-step job_id part parts item rows rows₁ r.0 (new_item-IsItemFor job_id next part)
        (create-eq-ok same_item_part item rows rows₁ created)
        (create_items-IsExtended job_id parts (next + 1) rows₁ r e₁)

  -- The tables after a job with an item for each part was created.
  abbrev pub IsCreated : List Part → Store W → PricingJob → Store W → Type 0
  IsCreated parts t job after =
      (after.jobs ≡ t.jobs ++ job ∷ [])
      × (clashes same_active_job after.jobs ≡ false)
      × (job_is_queued job.status ≡ true)
      × (job.organization_id ≡ input.organization_id)
      × (job.id ≡ t.next_id)
      × (job.total_items ≡ length parts)
      × ((added : List (PricingJobItem W)) × (after.items ≡ t.items ++ added)
          × AreItemsFor job.id parts added)
      × (length after.outbox ≡ length t.outbox + 1)

  abbrev pub Outcome : Store W → Store W → Result PricingJob × Store W → Type 0
  Outcome s t (ok job, after) =
      (length (select is_asked s.parts) ≡ length (distinct_from [] input.part_ids))
      × IsCreated (select is_asked s.parts) t job after
  Outcome s t (err e, after) = (after ≡ s) ⊎ (after ≡ t)

  find_parts-asked :
      (s : Store W)
      → find_parts memory around input (distinct_from [] input.part_ids) s ≡ select is_asked s.parts
  unfolding find_parts
  find_parts-asked s =
      select-same _ is_asked s.parts
        (λ part. rw (includes-distinct_from [] input.part_ids part.id) refl)

  create_tx-IsCreated :
      (parts : List Part) (now : ℕ) (t after : Store W) (job : PricingJob)
      → clashes same_active_job t.jobs ≡ false
      → create_tx memory around input parts now t ≡ ok (job, after)
      → IsCreated parts t job after
  unfolding create_tx new_job
  create_tx-IsCreated parts now t after job h e =
      let new = new_job memory around input t.next_id parts in
      let (jobs, created, e₁) =
        >>=-eq-ok (of_option p2002 (memory.create same_active_job new t.jobs)) _ e in
      let (items, rows, e₂) =
        >>=-eq-ok (create_items memory around input t.next_id parts (t.next_id + 1) t.items) _ e₁ in
      let (added, more, all) =
        create_items-IsExtended t.next_id parts (t.next_id + 1) t.items items rows in
      let fresh : any (same_active_job new) t.jobs ≡ false = ground (arith, created) in
      let e₃ = simp writes at e₂ in
      let made : new ≡ job = ground arith in
      let jobs' : after.jobs ≡ t.jobs ++ new ∷ [] = ground (arith, created, fresh) in
      let items' : after.items ≡ items.0 = ground arith in
      let outbox : length after.outbox ≡ length t.outbox + 1 = grind (arith, length-snoc) in
      subst (λ j. IsCreated parts t j after) made
        (
          jobs',
          rw jobs' (clashes-snoc new t.jobs fresh h),
          refl,
          refl,
          refl,
          refl,
          (added, items' ∙ more, all),
          outbox,
        )

  caught-Outcome :
      (s t : Store W) (r : Result (PricingJob × Store W))
      → ((job : PricingJob) (after : Store W)
          → r ≡ ok (job, after)
          → (length (select is_asked s.parts) ≡ length (distinct_from [] input.part_ids))
            × IsCreated (select is_asked s.parts) t job after)
      → Outcome s t (recaught memory around (elim r [ ok c ↦ (ok c.0, c.1) | err e ↦ (err e, t) ]))
  caught-Outcome s t (ok (job, after)) h = h job after refl
  caught-Outcome s t (err e) h = elim (Bool-cases (is_p2002 e)) [
    | inl clash ↦ rw clash (inr refl)
    | inr other ↦ rw other (inr refl)
  ]

  create_in_memory :
      (meanwhile : Store W → Store W) (now : ℕ) (s : Store W)
      → clashes same_active_job (meanwhile s).jobs ≡ false
      → Outcome s (meanwhile s) (create_pricing_job memory around meanwhile input now s)
  unfolding create_pricing_job
  create_in_memory meanwhile now s h =
      let part_ids = distinct_from [] input.part_ids in
      let parts = find_parts memory around input part_ids s in
      elim (Bool-cases (
        is_some (
          memory.find_first
            (λ (j : PricingJob). j.organization_id == input.organization_id && is_active j.status)
            s.jobs))) [
              | inl active ↦ rw active (inl refl)
              | inr idle ↦ elim (Bool-cases (length parts == length part_ids)) [
                | inr missing ↦ rw (idle, missing) (inl refl)
                | inl found ↦
                    rw (idle, found)
                      (caught-Outcome s (meanwhile s)
                        (create_tx memory around input parts now (meanwhile s))
                        (λ job after e.
                          subst
                            (λ (l : List Part).
                              (length l ≡ length part_ids) × IsCreated l (meanwhile s) job after)
                            (find_parts-asked s)
                            (
                              (==_iff (length parts) (length part_ids)).0 found,
                              create_tx-IsCreated parts now (meanwhile s) after job h e,
                            )))
              ]
            ]

  -- Where each organization has one active job at most when the transaction starts, it has at the
  -- end. Where a creation succeeds, the catalog had as many parts that the request names, of its
  -- organization and not archived, as the request has distinct identifiers; it adds one queued job
  -- of the organization with their number, one queued item of that job for each of these parts, in
  -- order and in the resolved condition, and one outbox event. One that is refused writes nothing,
  -- whatever other requests did between the checks and the transaction.
  pub create_pricing_job-Outcome :
      (db : Prisma)
      → IsDocumented db
      → (meanwhile : Store W → Store W) (now : ℕ) (s : Store W)
      → clashes same_active_job (meanwhile s).jobs ≡ false
      → Outcome s (meanwhile s) (create_pricing_job db around meanwhile input now s)
  create_pricing_job-Outcome = of_memory _ create_in_memory
