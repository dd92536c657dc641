-- ===== src/Delivery/Idempotency.antt =====
-- `executeIdempotent` of apps/api/src/idempotency-service.ts. The hash of the request (`requestHash`)
-- is SHA-256 of its JSON and comes with the input; `as_json` is `asJson`. A key that is missing or
-- empty is `none`. `meanwhile` is what other requests do between the first read and the reservation.
pub mod Replay
use ebay_pricing_intelligenc.Prelude.{
  ℕ, ◌≡◌, ◌+◌, ◌*◌, Bool, true, false, ◌&&◌, List, [], ◌∷◌, Option, none, some, Result, ok, err,
  Failure, fail, ◌==◌, leb, not, if◌then◌else◌,
}
use ebay_pricing_intelligenc.Database.{Prisma, p2002}

pub data IdempotencyStatus : Type 0 where
  in_progress completed : IdempotencyStatus

abbrev pub is_in_progress : IdempotencyStatus → Bool
is_in_progress in_progress = true
is_in_progress completed = false

-- model IdempotencyRecord
pub record IdempotencyRecord (A : Type 0) : Type 0 where
  pub id : ℕ
  pub organization_id : ℕ
  pub operation : ℕ
  pub key : ℕ
  pub request_hash : ℕ
  pub status : IdempotencyStatus
  pub response_status : Option ℕ
  pub response_body : Option A
  pub expires_at : ℕ

pub record Response (A : Type 0) : Type 0 where
  pub value : A
  pub replayed : Bool

-- The argument of `executeIdempotent`, less `execute`.
pub record Request : Type 0 where
  pub organization_id : ℕ
  pub operation : ℕ
  pub key : Option ℕ
  pub request_hash : ℕ
  pub response_status : ℕ

-- organizationId_operation_key
abbrev pub is_keyed : {A : Type 0} → ℕ → ℕ → ℕ → IdempotencyRecord A → Bool
is_keyed organization_id operation key row =
    organization_id == row.organization_id && operation == row.operation && key == row.key

abbrev pub same_key : {A : Type 0} → IdempotencyRecord A → IdempotencyRecord A → Bool
same_key row = is_keyed row.organization_id row.operation row.key

abbrev pub replay_body : {A : Type 0} → IdempotencyStatus → Option A → Result (Response A)
replay_body completed (some body) = ok (record { value = body; replayed = true })
replay_body completed none = fail 409 "A request with this idempotency key is still in progress"
replay_body in_progress body = fail 409 "A request with this idempotency key is still in progress"

unfoldable pub replay : {A : Type 0} → IdempotencyRecord A → ℕ → Result (Response A)
replay row hash =
    if row.request_hash == hash
    then replay_body row.status row.response_body
    else fail 409 "Idempotency key was already used with a different request"

-- The record that `create` makes, and what the completion writes into it.
abbrev pub reservation : {A : Type 0} → Request → ℕ → ℕ → ℕ → IdempotencyRecord A
reservation input key id now = record {
  id = id;
  organization_id = input.organization_id;
  operation = input.operation;
  key = key;
  request_hash = input.request_hash;
  status = in_progress;
  response_status = none;
  response_body = none;
  expires_at = now + 24 * 60 * 60_000;
}

abbrev pub completed_with : {A : Type 0} → ℕ → A → IdempotencyRecord A → IdempotencyRecord A
completed_with response_status body row = record row {
  status = completed;
  response_status = some response_status;
  response_body = some body;
}

-- `World` is what the operation itself changes.
module _ {A World : Type 0} (db : Prisma) (as_json : A → A)
    (execute : World → Result A × World) where
  -- The handler of an error in the second `try`.
  abbrev pub release :
      ℕ
      → Failure
      → List (IdempotencyRecord A)
      → World
      → Result (Response A) × List (IdempotencyRecord A) × World
  release id e rows w =
      (err e, (db.delete_many (λ row. row.id == id && is_in_progress row.status) rows).0, w)

  abbrev pub after_update :
      A
      → ℕ
      → List (IdempotencyRecord A)
      → World
      → Result (List (IdempotencyRecord A))
      → Result (Response A) × List (IdempotencyRecord A) × World
  after_update value id rows w (ok rows') =
      (ok (record { value = value; replayed = false }), rows', w)
  after_update value id rows w (err e) = release id e rows w

  abbrev pub after_execute :
      Request
      → ℕ
      → List (IdempotencyRecord A)
      → World
      → Result A
      → Result (Response A) × List (IdempotencyRecord A) × World
  after_execute input id rows w (err e) = release id e rows w
  after_execute input id rows w (ok value) = after_update value id rows w (
      db.update (λ x y. false) (λ row. row.id == id)
        (completed_with input.response_status (as_json value)) rows)

  -- After P2002: the record that another request made, if it is still there.
  abbrev pub replay_concurrent : Option (IdempotencyRecord A) → ℕ → Result (Response A)
  replay_concurrent none hash = p2002
  replay_concurrent (some concurrent) hash = replay concurrent hash

  abbrev pub after_reservation :
      Request
      → ℕ
      → ℕ
      → List (IdempotencyRecord A)
      → World
      → Option (List (IdempotencyRecord A))
      → Result (Response A) × List (IdempotencyRecord A) × World
  after_reservation input key id rows w none = (
    replay_concurrent (db.find_first (is_keyed input.organization_id input.operation key) rows)
        input.request_hash,
    rows,
    w,
  )
  after_reservation input key id rows w (some rows') =
      after_execute input id rows' (execute w).1 (execute w).0

  abbrev pub reserve :
      Request
      → ℕ
      → ℕ
      → ℕ
      → List (IdempotencyRecord A)
      → World
      → Result (Response A) × List (IdempotencyRecord A) × World
  reserve input key id now rows w =
      after_reservation input key id rows w (db.create same_key (reservation input key id now) rows)

  abbrev pub after_find :
      (List (IdempotencyRecord A) → List (IdempotencyRecord A))
      → Request
      → ℕ
      → ℕ
      → ℕ
      → List (IdempotencyRecord A)
      → World
      → Option (IdempotencyRecord A)
      → Result (Response A) × List (IdempotencyRecord A) × World
  after_find meanwhile input key id now rows w none = reserve input key id now (meanwhile rows) w
  after_find meanwhile input key id now rows w (some existing) =
      if leb existing.expires_at now
      then reserve input key id now
          (meanwhile
            (db.delete_many (λ row. row.id == existing.id && leb row.expires_at now) rows).0)
          w
      else (replay existing input.request_hash, rows, w)

  abbrev pub without_key :
      List (IdempotencyRecord A)
      → Result A × World
      → Result (Response A) × List (IdempotencyRecord A) × World
  without_key rows (ok value, w) = (ok (record { value = value; replayed = false }), rows, w)
  without_key rows (err e, w) = (err e, rows, w)

  abbrev pub execute_keyed :
      (List (IdempotencyRecord A) → List (IdempotencyRecord A))
      → Request
      → ℕ
      → ℕ
      → List (IdempotencyRecord A)
      → World
      → Option ℕ
      → Result (Response A) × List (IdempotencyRecord A) × World
  execute_keyed meanwhile input id now rows w none = without_key rows (execute w)
  execute_keyed meanwhile input id now rows w (some key) =
      after_find meanwhile input key id now rows w
        (db.find_first (is_keyed input.organization_id input.operation key) rows)

  -- `id` is the identifier that a new record gets.
  unfoldable pub execute_idempotent :
      (List (IdempotencyRecord A) → List (IdempotencyRecord A))
      → Request
      → ℕ
      → ℕ
      → List (IdempotencyRecord A)
      → World
      → Result (Response A) × List (IdempotencyRecord A) × World
  execute_idempotent meanwhile input id now rows w =
      execute_keyed meanwhile input id now rows w input.key
