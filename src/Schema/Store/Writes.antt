-- ===== src/Schema/Store/Writes.antt =====
-- What an audit event, an outbox event and the creation of a row write.
use ebay_pricing_intelligenc.Prelude.{
  ℕ, ◌+◌, ◌≡◌, String, none, ok, ◌++◌, ◌∷◌, [], any_never, arith, List, Bool, Bool-cases, any, inl,
  inr, sym, ap, value_in,
}
use ebay_pricing_intelligenc.Database.Memory.{memory}
use ebay_pricing_intelligenc.Schema.{OutboxEvent, OutboxStatus, AuditEvent}
use ebay_pricing_intelligenc.Schema.Store.{
  of_option, p2002, Store, record_audit_event, enqueue_outbox_event,
}

abbrev pub new_event : ℕ → ℕ → String → ℕ → ℕ → OutboxEvent
new_event id organization_id topic aggregate_id now = record {
  id = id;
  organization_id = organization_id;
  topic = topic;
  aggregate_id = aggregate_id;
  status = OutboxStatus.pending;
  attempt_count = 0;
  next_attempt_at = now;
  lease_owner = none;
  lease_expires_at = none;
  last_error = none;
  published_at = none;
}

module _ {W : Type 0} where
  pub record_audit_event_lem :
      (e : AuditEvent) (s : Store W)
      → record_audit_event memory e s ≡ ok (record s { audit = s.audit ++ e ∷ [] })
  unfolding record_audit_event
  record_audit_event_lem e s = rw (any_never s.audit, record_audit_event)

  pub enqueue_outbox_event_lem :
      (organization_id : ℕ) (topic : String) (aggregate_id now : ℕ) (s : Store W)
      → enqueue_outbox_event memory organization_id topic aggregate_id now s
        ≡ ok (record s {
          outbox = s.outbox ++ new_event s.next_id organization_id topic aggregate_id now ∷ [];
          next_id = s.next_id + 1;
        })
  unfolding enqueue_outbox_event
  enqueue_outbox_event_lem organization_id topic aggregate_id now s =
      rw (any_never s.outbox, enqueue_outbox_event)

pub ruleset writes = (record_audit_event_lem, enqueue_outbox_event_lem)

-- A row that is created stands at the end of its table.
pub create-eq-ok :
    {Row : Type 0} (same : Row → Row → Bool) (row : Row) (rows rows' : List Row)
    → of_option p2002 (memory.create same row rows) ≡ ok rows'
    → rows' ≡ rows ++ row ∷ []
create-eq-ok same row rows rows' e = elim (Bool-cases (any (same row) rows)) [
  | inl clash ↦ ground (arith, clash, e)
  | inr new ↦ sym (ap (value_in rows) (rw new at e))
]
