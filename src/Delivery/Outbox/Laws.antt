-- ===== src/Delivery/Outbox/Laws.antt =====
-- What publication does to the rows of the outbox.
use ebay_pricing_intelligenc.Prelude.{
  ℕ, ◌≡◌, ◌≤◌, ◌⊎◌, inl, inr, refl, ◌∙◌, true, false, ◌&&◌, List, [], ◌∷◌, Option, none, some, ◌==◌,
  arith, Bool-cases, All, All-revise, Pairwise, Pairwise-revise, Pairwise-refl, Pairwise-trans,
  revise, count, revise-count_none,
}
use ebay_pricing_intelligenc.Database.{Prisma, IsDocumented}
use ebay_pricing_intelligenc.Database.Memory.{memory, of_memory}
use ebay_pricing_intelligenc.Schema.{OutboxEvent}
use ebay_pricing_intelligenc.Jobs.Retry.{Thrown}
use ebay_pricing_intelligenc.Delivery.Outbox.{
  Publisher, Report, is_published, is_processing, is_owned_by, is_claimable, is_held, claimed,
  delivered, put_off, record_outcome, publish_event, publish_events, publish_outbox_events,
}

module _ (input : Publisher) where
  -- From a row before a run to the row after it.
  pub record Progress (a b : OutboxEvent) : Type 0 where
    pub same_id : b.id ≡ a.id
    -- A published event is never touched again.
    pub final : is_published a.status ≡ true → b ≡ a
    pub counts_up : a.attempt_count ≤ b.attempt_count
    pub within_limit : a.attempt_count ≤ input.max_attempts → b.attempt_count ≤ input.max_attempts
    -- What is published was published before, or a call of `publish` has returned for it.
    pub was_published :
        is_published b.status ≡ true
        → (is_published a.status ≡ true)
          ⊎ ((event : OutboxEvent) × (event.id ≡ a.id) × (input.publish event ≡ none))

  Progress-refl : (a : OutboxEvent) → Progress a a
  Progress-refl a = record {
    same_id = refl;
    final = λ h. refl;
    counts_up = omega arith;
    within_limit = λ h. h;
    was_published = λ h. inl h;
  }

  Progress-trans : (a b c : OutboxEvent) → Progress a b → Progress b c → Progress a c
  Progress-trans a b c h k = record {
    same_id = k.same_id ∙ h.same_id;
    final = λ p. let e = h.final p in k.final (rw e p) ∙ e;
    counts_up = omega (arith, h.counts_up, k.counts_up);
    within_limit = λ p. k.within_limit (h.within_limit p);
    was_published = λ p. elim (k.was_published p) [
      | inl before ↦ h.was_published before
      | inr (event, same, delivered) ↦ inr (event, same ∙ h.same_id, delivered)
    ];
  }

  claimed-Progress :
      (id now : ℕ) (e : OutboxEvent)
      → is_claimable input id now e ≡ true
      → Progress e (claimed input now e)
  claimed-Progress id now e h = record {
    same_id = refl;
    final = λ p. ground arith;
    counts_up = omega arith;
    within_limit = λ p. ground arith;
    was_published = λ p. cc;
  }

  delivered-Progress :
      (event : OutboxEvent) (now : ℕ) (e : OutboxEvent)
      → input.publish event ≡ none
      → is_held input event.id e ≡ true
      → Progress e (delivered now e)
  delivered-Progress event now e sent h = record {
    same_id = refl;
    final = λ p. ground arith;
    counts_up = omega arith;
    within_limit = λ p. p;
    was_published = λ p. inr (event, ground arith, sent);
  }

  put_off-Progress :
      (event : OutboxEvent) (error : Thrown) (now : ℕ) (e : OutboxEvent)
      → is_held input event.id e ≡ true
      → Progress e (put_off input event error now e)
  put_off-Progress event error now e h = record {
    same_id = refl;
    final = λ p. ground arith;
    counts_up = omega arith;
    within_limit = λ p. p;
    was_published = λ p. cc;
  }

  record_outcome-Progress :
      (event : OutboxEvent) (now : ℕ) (o : Option Thrown) (rows : List OutboxEvent)
      (report : Report)
      → input.publish event ≡ o
      → Pairwise Progress rows (record_outcome memory input event now o (rows, report)).0
  record_outcome-Progress event now none rows report e =
      Pairwise-revise Progress (is_held input event.id) (delivered now) rows
        (λ row h. delivered-Progress event now row e h) Progress-refl
  record_outcome-Progress event now (some error) rows report e =
      Pairwise-revise Progress (is_held input event.id) (put_off input event error now) rows
        (put_off-Progress event error now) Progress-refl

  publish_event-Progress :
      (event : OutboxEvent) (now : ℕ) (rows : List OutboxEvent) (report : Report)
      → Pairwise Progress rows (publish_event memory input event now (rows, report)).0
  unfolding publish_event
  publish_event-Progress event now rows report =
      let rows' = revise (is_claimable input event.id now) (claimed input now) rows in
      let claim : Pairwise Progress rows rows' =
        Pairwise-revise Progress (is_claimable input event.id now) (claimed input now) rows
          (claimed-Progress event.id now) Progress-refl in
      elim (Bool-cases (count (is_claimable input event.id now) rows == 0)) [
        | inl lost ↦ rw lost claim
        | inr won ↦ rw won (
            Pairwise-trans Progress Progress-trans rows rows'
              (record_outcome memory input event now (input.publish event) (rows', report)).0 claim
              (record_outcome-Progress event now (input.publish event) rows' report refl))
      ]

  publish_events-Progress :
      (clock : ℕ → ℕ) (events rows : List OutboxEvent) (report : Report)
      → Pairwise Progress rows (publish_events memory input clock events (rows, report)).0
  unfolding publish_events
  publish_events-Progress clock [] rows report = Pairwise-refl Progress Progress-refl rows
  publish_events-Progress clock (event ∷ events) rows report =
      let state = publish_event memory input event (clock event.id) (rows, report) in
      Pairwise-trans Progress Progress-trans rows state.0
        (publish_events memory input clock events state).0
        (publish_event-Progress event (clock event.id) rows report)
        (publish_events-Progress clock events state.0 state.1)

  -- A run of the publisher keeps every row in place with its identifier; it leaves a published
  -- event exactly as it is, never lowers the count of attempts and never takes it above the
  -- limit, and marks an event as published only if `publish` has returned for an event with its
  -- identifier.
  pub publish_outbox_events-Progress :
      (db : Prisma)
      → IsDocumented db
      → (clock : ℕ → ℕ) (now : ℕ) (rows : List OutboxEvent)
      → Pairwise Progress rows (publish_outbox_events db input clock now rows).0
  unfolding publish_outbox_events
  publish_outbox_events-Progress =
      of_memory _ (λ clock now rows. publish_events-Progress clock _ rows _)

  -- The row is not in this worker's hands.
  abbrev pub IsReleased : OutboxEvent → Type 0
  IsReleased e = (is_processing e.status && is_owned_by input.instance_id e.lease_owner) ≡ false

  abbrev IsReleasedExcept : ℕ → OutboxEvent → Type 0
  IsReleasedExcept id e = (e.id == id) ≡ false → IsReleased e

  record_outcome-IsReleased :
      (event : OutboxEvent) (now : ℕ) (o : Option Thrown) (rows : List OutboxEvent)
      (report : Report)
      → All (IsReleasedExcept event.id) rows
      → All IsReleased (record_outcome memory input event now o (rows, report)).0
  record_outcome-IsReleased event now none rows report h =
      All-revise (IsReleasedExcept event.id) IsReleased (is_held input event.id) (delivered now)
        rows (λ e k p. refl) (λ e k p. ground (arith, k, p)) h
  record_outcome-IsReleased event now (some error) rows report h =
      All-revise (IsReleasedExcept event.id) IsReleased (is_held input event.id)
        (put_off input event error now) rows (λ e k p. refl) (λ e k p. ground (arith, k, p)) h

  publish_event-IsReleased :
      (event : OutboxEvent) (now : ℕ) (rows : List OutboxEvent) (report : Report)
      → All IsReleased rows
      → All IsReleased (publish_event memory input event now (rows, report)).0
  unfolding publish_event
  publish_event-IsReleased event now rows report h =
      elim (Bool-cases (count (is_claimable input event.id now) rows == 0)) [
        | inl lost ↦
            rw
              (
                lost,
                revise-count_none (is_claimable input event.id now) (claimed input now) rows
                    (ground (arith, lost)),
              )
              h
        | inr won ↦ rw won (
            record_outcome-IsReleased event now (input.publish event) _ report (
              All-revise IsReleased (IsReleasedExcept event.id) (is_claimable input event.id now)
                (claimed input now) rows (λ e k p q. ground arith) (λ e k p q. k) h))
      ]

  publish_events-IsReleased :
      (clock : ℕ → ℕ) (events rows : List OutboxEvent) (report : Report)
      → All IsReleased rows
      → All IsReleased (publish_events memory input clock events (rows, report)).0
  unfolding publish_events
  publish_events-IsReleased clock [] rows report h = h
  publish_events-IsReleased clock (event ∷ events) rows report h =
      publish_events-IsReleased clock events _ _
        (publish_event-IsReleased event (clock event.id) rows report h)

  -- A worker that holds no event when it starts to publish holds none at the end: each event
  -- that it claims it marks as published or as failed, so that none waits for a lease to expire.
  pub publish_outbox_events-IsReleased :
      (db : Prisma)
      → IsDocumented db
      → (clock : ℕ → ℕ) (now : ℕ) (rows : List OutboxEvent) → All IsReleased rows
      → All IsReleased (publish_outbox_events db input clock now rows).0
  unfolding publish_outbox_events
  publish_outbox_events-IsReleased =
      of_memory _ (λ clock now rows h. publish_events-IsReleased clock _ rows _ h)
