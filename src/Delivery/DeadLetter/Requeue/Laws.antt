-- ===== src/Delivery/DeadLetter/Requeue/Laws.antt =====
-- The outcomes of `requeueDeadLetter` of apps/api/src/dead-letter-service.ts.
use ebay_pricing_intelligenc.Prelude.{
  ℕ, ◌+◌, ◌≡◌, ◌⊎◌, refl, ap, String, Bool, true, false, ◌&&◌, Option, none, some, List, ◌==◌,
  Result, ok, err, ◌>>=◌, >>=-eq-ok, arith, All, All-revise, All_of_every, length, length-snoc,
  Bool-cases, Option-cases, find, find_holds, revise, inl, inr, subst,
}
use ebay_pricing_intelligenc.Database.{Prisma, IsDocumented, clashes}
use ebay_pricing_intelligenc.Database.Memory.{memory, of_memory}
use ebay_pricing_intelligenc.Schema.{
  DeadLetterEntry, requeued, is_requeued, is_open, DeadLetterType, OutboxEvent, AuditEvent,
}
use ebay_pricing_intelligenc.Schema.Store.{Store}
use ebay_pricing_intelligenc.Schema.Store.Writes.{writes}
use ebay_pricing_intelligenc.Delivery.DeadLetter.Requeue.{
  same_active_job, same_active_fitment_job, close_requeue, put_back, topic_of, requeue_tx,
  requeue_checked, requeue_dead_letter, recaught, is_p2002,
}
use ebay_pricing_intelligenc.Delivery.DeadLetter.Requeue.Back.{IsBack}
use ebay_pricing_intelligenc.Delivery.DeadLetter.Requeue.Reset.{put_back-ok}

abbrev marked : ℕ → DeadLetterEntry → DeadLetterEntry
marked now e = record e { status = requeued; requeued_at = some now; resolved_at = none }

-- The entry that the request names, in its organization.
abbrev pub is_named : ℕ → ℕ → DeadLetterEntry → Bool
is_named organization_id entry_id e = e.id == entry_id && e.organization_id == organization_id

abbrev AreMarked : ℕ → List DeadLetterEntry → Type 0
AreMarked entry_id entries =
    All (λ e. (e.id == entry_id) ≡ true → is_requeued e.status ≡ true) entries

module _ {W : Type 0} (organization_id : ℕ) where
  -- The rows that others than the reset write.
  abbrev IsRequeued : ℕ → Store W → Store W → Type 0
  IsRequeued entry_id t s' =
      AreMarked entry_id s'.dead_letters
      × (length s'.outbox ≡ length t.outbox + 1)
      × (length s'.audit ≡ length t.audit + 1)
      × (clashes same_active_job t.jobs ≡ false → clashes same_active_job s'.jobs ≡ false)
      × (clashes same_active_fitment_job t.fitment_jobs ≡ false
          → clashes same_active_fitment_job s'.fitment_jobs ≡ false)

  -- The request named an open entry, and its item is back in the queue of its job.
  abbrev pub WasOpen : ℕ → Store W → Store W → Store W → Type 0
  WasOpen entry_id s t s' =
      (entry : DeadLetterEntry) × (find (is_named organization_id entry_id) s.dead_letters
        ≡ some entry)
      × (is_open entry.status ≡ true)
      × IsBack organization_id entry.kind entry s t s'

  abbrev Outcome : ℕ → Store W → Store W → Result (Unit {0}) × Store W → Type 0
  Outcome entry_id s t (ok u, s') = IsRequeued entry_id t s' × WasOpen entry_id s t s'
  Outcome entry_id s t (err e, s') = (s' ≡ s) ⊎ (s' ≡ t)

  -- What a request to requeue an entry comes to: `s` are the tables that it reads, and `t` those
  -- that its transaction finds.
  abbrev pub RequeueOutcome : ℕ → Store W → Store W → Result (Unit {0}) × Store W → Type 0
  RequeueOutcome entry_id s t (ok u, s') =
      All (λ e. (e.id == entry_id) ≡ true → is_requeued e.status ≡ true) s'.dead_letters
      × (length s'.outbox ≡ length t.outbox + 1)
      × (length s'.audit ≡ length t.audit + 1)
      × (clashes same_active_job s'.jobs ≡ false)
      × (clashes same_active_fitment_job s'.fitment_jobs ≡ false)
      × WasOpen entry_id s t s'
  RequeueOutcome entry_id s t (err e, s') = (s' ≡ s) ⊎ (s' ≡ t)

  -- The writes that end a transaction touch no item, no job and nothing found for an item.
  abbrev IsClosed : Store W → Store W → Type 0
  IsClosed s₁ s' =
      (s'.items ≡ s₁.items)
      × (s'.jobs ≡ s₁.jobs)
      × (s'.snapshots ≡ s₁.snapshots)
      × (s'.fitment_items ≡ s₁.fitment_items)
      × (s'.fitment_jobs ≡ s₁.fitment_jobs)
      × (s'.fitment_candidates ≡ s₁.fitment_candidates)

  closed-IsBack :
      (kind : DeadLetterType) (entry : DeadLetterEntry) (s t s₁ s' : Store W)
      → IsClosed s₁ s'
      → IsBack organization_id kind entry s t s₁
      → IsBack organization_id kind entry s t s'
  closed-IsBack DeadLetterType.pricing_item entry s t s₁ s' (items, jobs, snapshots, i, j, k) h =
      rw (items, jobs, snapshots) h
  closed-IsBack DeadLetterType.fitment_item entry s t s₁ s' (i, j, k, items, jobs, candidates) h =
      rw (items, jobs, candidates) h

  module _ (actor : Option ℕ) (now : ℕ) where
    close_requeue_writes :
        (entry : DeadLetterEntry) (topic : String) (s s' : Store W)
        → close_requeue memory organization_id actor now entry topic s ≡ ok s'
        → AreMarked entry.id s'.dead_letters
          × (length s'.outbox ≡ length s.outbox + 1)
          × (length s'.audit ≡ length s.audit + 1)
          × IsClosed s s'
    unfolding close_requeue
    close_requeue_writes entry topic s s' e =
        let e' = simp writes at e in
        (
          rw
              (let same : s'.dead_letters
                    ≡ revise (λ x. x.id == entry.id) (marked now) s.dead_letters =
                  ground arith in
                same)
              (All-revise (λ x. Unit {0})
                (λ x. (x.id == entry.id) ≡ true → is_requeued x.status ≡ true)
                (λ x. x.id == entry.id) (marked now) s.dead_letters (λ x u h k. refl)
                (λ x u h k. cc) (All_of_every _ s.dead_letters (λ x. tt))),
          grind (arith, length-snoc),
          grind (arith, length-snoc),
          (ground arith, ground arith, ground arith, ground arith, ground arith, ground arith),
        )

    requeue_tx-IsRequeued :
        (entry : DeadLetterEntry) (reset : Store W → Result (Store W)) (s t s' : Store W)
        → put_back memory organization_id actor now entry s ≡ ok reset
        → requeue_tx memory organization_id actor now entry reset t ≡ ok (tt, s')
        → IsRequeued entry.id t s' × IsBack organization_id entry.kind entry s t s'
    unfolding requeue_tx
    requeue_tx-IsRequeued entry reset s t s' ready e =
        let (s₁, back, rest) =
          >>=-eq-ok (reset t)
            (λ x. close_requeue memory organization_id actor now entry (topic_of entry) x >>= λ x'.
              ok (tt, x'))
            e in
        let (s₂, closed, last) =
          >>=-eq-ok (close_requeue memory organization_id actor now entry (topic_of entry) s₁)
            (λ x'. ok (tt, x')) rest in
        let same : s₂ ≡ s' = cc in
        let ((outbox, audit, index, fitment_index), is_back) =
          put_back-ok organization_id actor now entry.kind entry s reset t s₁ refl ready back in
        let (rows, events, audits, is_closed) =
          close_requeue_writes entry (topic_of entry) s₁ s₂ closed in
        let jobs : s₂.jobs ≡ s₁.jobs = is_closed.1 in
        let fitment_jobs : s₂.fitment_jobs ≡ s₁.fitment_jobs = is_closed.4 in
        subst
          (λ (x : Store W). IsRequeued entry.id t x × IsBack organization_id entry.kind entry s t x)
          same
          (
            (
              rows,
              rw events (ap (λ (l : List OutboxEvent). length l + 1) outbox),
              rw audits (ap (λ (l : List AuditEvent). length l + 1) audit),
              λ h. rw jobs (index h),
              λ h. rw fitment_jobs (fitment_index h),
            ),
            closed-IsBack entry.kind entry s t s₁ s₂ is_closed is_back,
          )

    recaught-Outcome :
        (entry_id : ℕ) (s t : Store W) (r : Result (Unit {0} × Store W))
        → ((s' : Store W) → r ≡ ok (tt, s') → IsRequeued entry_id t s' × WasOpen entry_id s t s')
        → Outcome entry_id s t (recaught (elim r [ ok a ↦ (ok a.0, a.1) | err e ↦ (err e, t) ]))
    recaught-Outcome entry_id s t (ok (tt, s')) h = h s' refl
    recaught-Outcome entry_id s t (err e) h = elim (Bool-cases (is_p2002 e)) [
      | inl duplicate ↦ rw duplicate (inr refl)
      | inr other ↦ rw other (inr refl)
    ]

    requeue_checked-Outcome :
        (meanwhile : Store W → Store W) (entry : DeadLetterEntry) (entry_id : ℕ) (s : Store W)
        (checked : Result (Store W → Result (Store W)))
        → find (is_named organization_id entry_id) s.dead_letters ≡ some entry
        → is_open entry.status ≡ true
        → put_back memory organization_id actor now entry s ≡ checked
        → Outcome entry_id s
            (meanwhile s)
            (requeue_checked memory organization_id actor now meanwhile entry s checked)
    unfolding requeue_checked
    requeue_checked-Outcome meanwhile entry entry_id s (err e) found is ready =
        elim (Bool-cases (is_p2002 e)) [
          | inl duplicate ↦ rw duplicate (inl refl)
          | inr other ↦ rw other (inl refl)
        ]
    requeue_checked-Outcome meanwhile entry entry_id s (ok reset) found is ready =
        let id : entry.id ≡ entry_id =
          ground
            (arith, find_holds (is_named organization_id entry_id) s.dead_letters entry found) in
        recaught-Outcome entry_id s (meanwhile s)
          (requeue_tx memory organization_id actor now entry reset (meanwhile s))
          (λ s' e.
            let (done, back) = requeue_tx-IsRequeued entry reset s (meanwhile s) s' ready e in
            (subst (λ (k : ℕ). IsRequeued k (meanwhile s) s') id done, (entry, found, is, back)))

    requeue_in_memory :
        (meanwhile : Store W → Store W) (entry_id : ℕ) (s : Store W)
        → Outcome entry_id s
            (meanwhile s)
            (requeue_dead_letter memory organization_id actor now meanwhile entry_id s)
    unfolding requeue_dead_letter
    requeue_in_memory meanwhile entry_id s =
        elim (Option-cases (find (is_named organization_id entry_id) s.dead_letters)) [
          | inl absent ↦ rw (absent, requeue_dead_letter) (inl refl)
          | inr (entry, found) ↦ elim (Bool-cases (is_open entry.status)) [
            | inl is ↦
                rw (found, requeue_dead_letter)
                  (rw is (requeue_checked-Outcome meanwhile entry entry_id s _ found is refl))
            | inr closed ↦ rw (found, requeue_dead_letter) (rw closed (inl refl))
          ]
        ]

    kept :
        (entry_id : ℕ) (s t : Store W) (r : Result (Unit {0}) × Store W)
        → Outcome entry_id s t r
        → clashes same_active_job t.jobs ≡ false
        → clashes same_active_fitment_job t.fitment_jobs ≡ false
        → RequeueOutcome entry_id s t r
    kept entry_id s t (ok u, s') ((entries, events, audits, jobs, fitments), was) h k =
        (entries, events, audits, jobs h, fitments k, was)
    kept entry_id s t (err e, s') o h k = o

    -- A success means that the request named an open entry of its organization whose item had
    -- failed in a job that was neither queued nor running when it was read. It leaves the entry
    -- requeued; the item is back in the queue without error and times, what had been found for it
    -- is gone, its job is back in the queue without lease, error and end, and every other item and
    -- job of that kind is as the transaction found it; one outbox event and one audit event are
    -- added. A refusal writes nothing. Both hold whatever other requests did between the reads and
    -- the transaction, `t` being the tables that it then finds. Where each organization has one
    -- active job of each kind at most in `t`, it has after a success.
    pub requeue_dead_letter-Outcome :
        (db : Prisma)
        → IsDocumented db
        → (meanwhile : Store W → Store W) (entry_id : ℕ) (s : Store W)
        → clashes same_active_job (meanwhile s).jobs ≡ false
        → clashes same_active_fitment_job (meanwhile s).fitment_jobs ≡ false
        → RequeueOutcome entry_id s
            (meanwhile s)
            (requeue_dead_letter db organization_id actor now meanwhile entry_id s)
    requeue_dead_letter-Outcome = of_memory _ (λ meanwhile entry_id s h k.
        kept entry_id s (meanwhile s) _ (requeue_in_memory meanwhile entry_id s) h k)
