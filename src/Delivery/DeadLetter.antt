-- ===== src/Delivery/DeadLetter.antt =====
-- apps/api/src/dead-letter-service.ts: the items that used up their attempts.
pub mod Requeue
use ebay_pricing_intelligenc.Prelude.{
  ℕ, ◌+◌, String, Bool, true, false, ◌&&◌, Option, none, some, List, ◌==◌,
}
use ebay_pricing_intelligenc.Database.{Prisma}
use ebay_pricing_intelligenc.Schema.{
  DeadLetterType, DeadLetterEntry, DeadLetterStatus, open_entry, requeued, resolved, same_kind,
  is_requeued,
}
use ebay_pricing_intelligenc.Schema.Store.{Store}

-- The argument of `captureDeadLetter`, less the payload.
pub record Capture : Type 0 where
  pub organization_id : ℕ
  pub kind : DeadLetterType
  pub job_id : ℕ
  pub item_id : ℕ
  pub error : String
  pub attempts : ℕ

abbrev pub is_entry_of : DeadLetterType → ℕ → DeadLetterEntry → Bool
is_entry_of kind item_id entry = same_kind entry.kind kind && entry.item_id == item_id

module _ (db : Prisma) {W : Type 0} where
  unfoldable pub capture_dead_letter : Capture → Store W → Store W
  capture_dead_letter input s = record s {
    dead_letters =
        db.upsert (is_entry_of input.kind input.item_id)
          (record {
            id = s.next_id;
            organization_id = input.organization_id;
            kind = input.kind;
            job_id = input.job_id;
            item_id = input.item_id;
            error = input.error;
            attempts = input.attempts;
            status = open_entry;
            requeued_at = none;
            resolved_at = none;
          })
          (λ entry. record entry {
            error = input.error;
            attempts = input.attempts;
            status = open_entry;
            requeued_at = none;
            resolved_at = none;
          })
          s.dead_letters;
    next_id = s.next_id + 1;
  }

  unfoldable pub resolve_dead_letter : DeadLetterType → ℕ → ℕ → Store W → Store W
  resolve_dead_letter kind item_id now s = record s {
    dead_letters =
        (db.update_many (λ entry. is_entry_of kind item_id entry && is_requeued entry.status)
          (λ entry. record entry { status = resolved; resolved_at = some now }) s.dead_letters).0;
  }
