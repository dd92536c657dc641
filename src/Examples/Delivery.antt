-- ===== src/Examples/Delivery.antt =====
-- A failed item goes back to its job, and an event is published.
use ebay_pricing_intelligenc.Prelude.{refl, [], ◌∷◌, none, some, All, Pairwise}
use ebay_pricing_intelligenc.Database.Memory.{memory, memory-IsDocumented}
use ebay_pricing_intelligenc.Delivery.DeadLetter.Requeue.{requeue_dead_letter}
use ebay_pricing_intelligenc.Delivery.DeadLetter.Requeue.Laws.{
  RequeueOutcome, requeue_dead_letter-Outcome,
}
use ebay_pricing_intelligenc.Delivery.Outbox.{Publisher, publish_outbox_events}
use ebay_pricing_intelligenc.Delivery.Outbox.Laws.{
  Progress, publish_outbox_events-Progress, IsReleased, publish_outbox_events-IsReleased,
}
use ebay_pricing_intelligenc.Examples.Data.{failed_item, event}

requeue_dead_letter-Outcome_example :
    RequeueOutcome 9 6 failed_item failed_item
      (requeue_dead_letter memory 9 (some 5) 70 (λ s. s) 6 failed_item)
requeue_dead_letter-Outcome_example =
    requeue_dead_letter-Outcome 9 (some 5) 70 memory memory-IsDocumented (λ s. s) 6 failed_item refl
      refl

abbrev publisher : Publisher
publisher = record {
  instance_id = 7;
  lease_duration_ms = 60_000;
  max_attempts = 3;
  batch_size = none;
  publish = λ event. none;
  cut = λ s. s;
}

publish_outbox_events-Progress_example :
    Pairwise
      (Progress publisher)
      (event ∷ [])
      (publish_outbox_events memory publisher (λ id. 20) 20 (event ∷ [])).0
publish_outbox_events-Progress_example =
    publish_outbox_events-Progress publisher memory memory-IsDocumented (λ id. 20) 20 (event ∷ [])

publish_outbox_events-IsReleased_example :
    All (IsReleased publisher) (publish_outbox_events memory publisher (λ id. 20) 20 (event ∷ [])).0
publish_outbox_events-IsReleased_example =
    publish_outbox_events-IsReleased publisher memory memory-IsDocumented (λ id. 20) 20 (event ∷ [])
      (refl, tt)
