-- ===== src/Delivery/Outbox.antt =====
-- `publishOutboxEvents` of apps/api/src/outbox-service.ts. The times at which an event is claimed,
-- delivered or put off are one time, which the clock gives for the event.
pub mod Laws
use ebay_pricing_intelligenc.Prelude.{
  ℕ, ◌+◌, ◌*◌, ◌^◌, String, Bool, true, false, ◌&&◌, ◌||◌, List, [], ◌∷◌, Option, none, some, ◌==◌,
  ltb, leb, take, if◌then◌else◌,
}
use ebay_pricing_intelligenc.Database.{Prisma}
use ebay_pricing_intelligenc.Schema.{OutboxEvent, OutboxStatus}
use ebay_pricing_intelligenc.Jobs.Retry.{Thrown}

-- The argument of `publishOutboxEvents`. `publish` says what it throws, if it throws; `cut` is
-- `error.message.slice(0, 1_000)`.
pub record Publisher : Type 0 where
  pub instance_id : ℕ
  pub lease_duration_ms : ℕ
  pub max_attempts : ℕ
  pub batch_size : Option ℕ
  pub publish : OutboxEvent → Option Thrown
  pub cut : String → String

pub record Report : Type 0 where
  pub published : ℕ
  pub failed : ℕ

-- status: { in: ["PENDING", "FAILED"] }
abbrev pub is_waiting : OutboxStatus → Bool
is_waiting OutboxStatus.pending = true
is_waiting OutboxStatus.failed = true
is_waiting _ = false

abbrev pub is_processing : OutboxStatus → Bool
is_processing OutboxStatus.processing = true
is_processing _ = false

abbrev pub is_published : OutboxStatus → Bool
is_published OutboxStatus.published = true
is_published _ = false

-- leaseExpiresAt: { lt: now }, which NULL does not pass
abbrev pub expires_before : ℕ → Option ℕ → Bool
expires_before now none = false
expires_before now (some t) = ltb t now

abbrev pub is_owned_by : ℕ → Option ℕ → Bool
is_owned_by owner none = false
is_owned_by owner (some o) = o == owner

abbrev pub is_candidate : Publisher → ℕ → OutboxEvent → Bool
is_candidate input now e =
    leb e.next_attempt_at now
    && ltb e.attempt_count input.max_attempts
    && (is_waiting e.status || is_processing e.status && expires_before now e.lease_expires_at)

abbrev pub is_claimable : Publisher → ℕ → ℕ → OutboxEvent → Bool
is_claimable input id now e =
    e.id == id
    && ltb e.attempt_count input.max_attempts
    && (is_waiting e.status && leb e.next_attempt_at now
        || is_processing e.status && expires_before now e.lease_expires_at)

-- { id: event.id, status: "PROCESSING", leaseOwner: input.instanceId }
abbrev pub is_held : Publisher → ℕ → OutboxEvent → Bool
is_held input id e =
    e.id == id && is_processing e.status && is_owned_by input.instance_id e.lease_owner

abbrev pub claimed : Publisher → ℕ → OutboxEvent → OutboxEvent
claimed input now e = record e {
  status = OutboxStatus.processing;
  lease_owner = some input.instance_id;
  lease_expires_at = some (now + input.lease_duration_ms);
  attempt_count = e.attempt_count + 1;
}

abbrev pub delivered : ℕ → OutboxEvent → OutboxEvent
delivered now e = record e {
  status = OutboxStatus.published;
  published_at = some now;
  lease_owner = none;
  lease_expires_at = none;
  last_error = none;
}

abbrev pub message_of : Publisher → Thrown → String
message_of input error = elim error.message [
  | none ↦ "Unknown outbox publication error"
  | some message ↦ input.cut message
]

-- The wait until the next attempt; `attempts` is the count that the candidate was read with.
abbrev pub delay : Publisher → ℕ → ℕ
delay input attempts =
    if leb input.max_attempts (attempts + 1) then 24 * 60 * 60000 else 1000 * 2 ^ attempts

abbrev pub put_off : Publisher → OutboxEvent → Thrown → ℕ → OutboxEvent → OutboxEvent
put_off input event error now e = record e {
  status = OutboxStatus.failed;
  last_error = some (message_of input error);
  next_attempt_at = now + delay input event.attempt_count;
  lease_owner = none;
  lease_expires_at = none;
}

module _ (db : Prisma) (input : Publisher) where
  -- After `publish`.
  abbrev pub record_outcome :
      OutboxEvent → ℕ → Option Thrown → List OutboxEvent × Report → List OutboxEvent × Report
  record_outcome event now none (rows, report) = (
    (db.update_many (is_held input event.id) (delivered now) rows).0,
    record report { published = report.published + 1 },
  )
  record_outcome event now (some error) (rows, report) = (
    (db.update_many (is_held input event.id) (put_off input event error now) rows).0,
    record report { failed = report.failed + 1 },
  )

  -- The body of the loop.
  unfoldable pub publish_event :
      OutboxEvent → ℕ → List OutboxEvent × Report → List OutboxEvent × Report
  publish_event event now (rows, report) =
      let claim = db.update_many (is_claimable input event.id now) (claimed input now) rows in
      if claim.1 == 0
      then (claim.0, report)
      else record_outcome event now (input.publish event) (claim.0, report)

  unfoldable pub publish_events :
      (ℕ → ℕ) → List OutboxEvent → List OutboxEvent × Report → List OutboxEvent × Report
  publish_events clock [] state = state
  publish_events clock (event ∷ events) state =
      publish_events clock events (publish_event event (clock event.id) state)

  abbrev batch_limit : Option ℕ → ℕ
  batch_limit none = 25
  batch_limit (some n) = n

  -- Rows are in the order of creation, as the query wants them.
  unfoldable pub publish_outbox_events : (ℕ → ℕ) → ℕ → List OutboxEvent → List OutboxEvent × Report
  publish_outbox_events clock now rows =
      publish_events clock
        (take (batch_limit input.batch_size) (db.find_many (is_candidate input now) rows))
        (rows, record { published = 0; failed = 0 })
