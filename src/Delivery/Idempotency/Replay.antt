-- ===== src/Delivery/Idempotency/Replay.antt =====
-- What the record of a request answers later: `executeIdempotent` of
-- apps/api/src/idempotency-service.ts.
use ebay_pricing_intelligenc.Prelude.{
  ℕ, ◌+◌, ◌≡◌, ◌<◌, inl, inr, refl, ap, subst, Bool, true, false, List, [], ◌∷◌, ◌++◌, Option, none,
  some, Result, ok, err, fail, ◌==◌, arith, leb, any, find, revise, Bool-cases, Option-cases,
  if◌then◌else◌,
}
use ebay_pricing_intelligenc.Database.{Prisma, IsDocumented}
use ebay_pricing_intelligenc.Database.Memory.{memory, of_memory, update-eq-ok}
use ebay_pricing_intelligenc.Delivery.Idempotency.{
  IdempotencyRecord, IdempotencyStatus, Response, Request, in_progress, completed, is_keyed,
  same_key, replay_body, replay, reservation, completed_with, after_update, after_execute,
  replay_concurrent, reserve, execute_keyed, execute_idempotent,
}

find-revised :
    {A : Type 0} (p q : A → Bool) (f : A → A) (row : A) (rows : List A)
    → ((x : A) → p (f x) ≡ p x)
    → p row ≡ true
    → q row ≡ true
    → any p rows ≡ false
    → find p (revise q f (rows ++ row ∷ [])) ≡ some (f row)
find-revised p q f row [] keep yes' here miss = rw here (rw (keep row) (rw yes' refl))
find-revised p q f row (x ∷ rows) keep yes' here miss =
    let other : p x ≡ false = ground arith in
    let rest = find-revised p q f row rows keep yes' here (ground arith) in
    elim (Bool-cases (q x)) [
      | inl pass ↦ rw pass (rw (keep x) (rw other rest))
      | inr fail' ↦ rw fail' (rw other rest)
    ]

abbrev is_replayed : {A : Type 0} → Result (Response A) → Bool
is_replayed (ok r) = r.replayed
is_replayed (err e) = true

abbrev value_in : {A : Type 0} → A → Result (Response A) → A
value_in default (ok r) = r.value
value_in default (err e) = default

-- A replay says that it is one.
replay_body-replayed :
    {A : Type 0} (status : IdempotencyStatus) (body : Option A) (value : A)
    → replay_body status body ≡ ok (record { value = value; replayed = false })
    → ⊥
replay_body-replayed in_progress body value e = ground arith
replay_body-replayed completed none value e = ground arith
replay_body-replayed completed (some body) value e = ground (arith, ap is_replayed e)

replay-replayed :
    {A : Type 0} (row : IdempotencyRecord A) (hash : ℕ) (value : A)
    → replay row hash ≡ ok (record { value = value; replayed = false })
    → ⊥
unfolding replay
replay-replayed row hash value e = elim (Bool-cases (row.request_hash == hash)) [
  | inl same ↦ replay_body-replayed row.status row.response_body value (rw same at e)
  | inr other ↦ ground (arith, other, e)
]

module _ {A World : Type 0} (as_json : A → A) (execute : World → Result A × World) (input : Request)
    (key id now : ℕ) (value : A) (rows' : List (IdempotencyRecord A)) (w' : World) where
  abbrev answered : Result (Response A) × List (IdempotencyRecord A) × World
  answered = (ok (record { value = value; replayed = false }), rows', w')

  after_update-ok :
      (v : A) (rows : List (IdempotencyRecord A)) (w : World)
      (u : Result (List (IdempotencyRecord A)))
      → after_update memory as_json execute v id rows w u ≡ answered
      → (u ≡ ok rows') × (v ≡ value) × (w ≡ w')
  after_update-ok v rows w (ok rows1) e =
      (ap ok (ap (λ t. t.1) e), ap (λ t. value_in v t.0) e, ap (λ t. t.2) e)
  after_update-ok v rows w (err x) e = ground (arith, ap (λ t. is_replayed t.0) e)

  abbrev stored : IdempotencyRecord A
  stored = completed_with input.response_status (as_json value) (reservation input key id now)

  after_execute-stored :
      (r : Result A) (rows : List (IdempotencyRecord A)) (w : World)
      → any (same_key {A = A} (reservation input key id now)) rows ≡ false
      → after_execute memory as_json execute input id
          (rows ++ reservation input key id now ∷ [])
          w
          r
        ≡ answered
      → (find (is_keyed input.organization_id input.operation key) rows' ≡ some stored)
        × (r ≡ ok value)
        × (w ≡ w')
  after_execute-stored (err x) rows w new e = ground (arith, ap (λ t. is_replayed t.0) e)
  after_execute-stored (ok v) rows w new e =
      let change = completed_with input.response_status (as_json v) in
      let all_rows = rows ++ reservation input key id now ∷ [] in
      let (updated, same_value, same_world) = after_update-ok v all_rows w _ e in
      let (written, _, _) =
        update-eq-ok (λ x y. false) (λ row. row.id == id) change all_rows rows' updated in
      (
        subst
            (λ u.
              find (is_keyed input.organization_id input.operation key) rows'
              ≡ some
                  (completed_with input.response_status (as_json u) (reservation input key id now)))
            same_value
            (rw written (
              find-revised (is_keyed input.organization_id input.operation key)
                (λ row. row.id == id) change (reservation input key id now) rows (λ x. refl)
                (ground arith) (ground arith) new)),
        ap ok same_value,
        same_world,
      )

  replay_concurrent-not :
      (found : Option (IdempotencyRecord A)) (hash : ℕ)
      → replay_concurrent memory as_json execute found hash
        ≡ ok (record { value = value; replayed = false })
      → ⊥
  replay_concurrent-not none hash e = ground arith
  replay_concurrent-not (some row) hash e = replay-replayed row hash value e

  reserve-stored :
      (rows : List (IdempotencyRecord A)) (w : World)
      → reserve memory as_json execute input key id now rows w ≡ answered
      → (find (is_keyed input.organization_id input.operation key) rows' ≡ some stored)
        × (execute w ≡ (ok value, w'))
  reserve-stored rows w e =
      elim (Bool-cases (any (same_key {A = A} (reservation input key id now)) rows)) [
        | inl clash ↦ absurd (replay_concurrent-not _ _ (ap (λ t. t.0) (rw clash at e)))
        | inr new ↦
            let (found, result, world) =
              after_execute-stored (execute w).0 rows (execute w).1 new (rw new at e) in
            (found, λ i. (result i, world i))
      ]

  -- What a call with the key leaves if it has executed the operation.
  execute_keyed-stored :
      (meanwhile : List (IdempotencyRecord A) → List (IdempotencyRecord A))
      (rows : List (IdempotencyRecord A)) (w : World)
      → execute_keyed memory as_json execute meanwhile input id now rows w (some key) ≡ answered
      → (find (is_keyed input.organization_id input.operation key) rows' ≡ some stored)
        × (execute w ≡ (ok value, w'))
  execute_keyed-stored meanwhile rows w e =
      elim (Option-cases (find (is_keyed input.organization_id input.operation key) rows)) [
        | inl none' ↦ reserve-stored _ w (rw none' at e)
        | inr (row, found) ↦ elim (Bool-cases (leb row.expires_at now)) [
          | inl expired ↦ reserve-stored _ w (rw expired at (rw found at e))
          | inr live ↦ absurd (
              replay-replayed row input.request_hash value
                (ap (λ t. t.0) (rw live at (rw found at e))))
        ]
      ]

-- Where a call with an idempotency key has executed its operation and succeeded, every later call of
-- the organization and the operation with the key leaves the table and the world as they are, until
-- a day after the first has passed: with the same request hash it returns the first value, as JSON
-- keeps it, marked as replayed, and with another hash it fails with 409. The table is the one that
-- the first call has left; others may have changed it before the reservation of the first.
pub execute_idempotent-once :
    {A World : Type 0} (db : Prisma)
    → IsDocumented db
    → (as_json : A → A) (execute : World → Result A × World)
      (meanwhile : List (IdempotencyRecord A) → List (IdempotencyRecord A)) (input : Request)
      (key id now : ℕ) (rows rows' : List (IdempotencyRecord A)) (w w' : World) (value : A)
    → input.key ≡ some key
    → execute_idempotent db as_json execute meanwhile input id now rows w
      ≡ (ok (record { value = value; replayed = false }), rows', w')
    → (execute' : World → Result A × World)
      (meanwhile' : List (IdempotencyRecord A) → List (IdempotencyRecord A)) (hash id' now' : ℕ)
      (w1 : World)
    → now' < now + 86_400_000
    → (execute w ≡ (ok value, w'))
      × (execute_idempotent db as_json execute' meanwhile'
            (record input { request_hash = hash })
            id'
            now'
            rows'
            w1
          ≡ (
            (if input.request_hash == hash
                then ok (record { value = as_json value; replayed = true })
                else fail 409 "Idempotency key was already used with a different request"),
            rows',
            w1,
          ))
unfolding execute_idempotent replay
execute_idempotent-once {A} {World} =
    of_memory _
      (λ as_json execute meanwhile input key id now rows rows' w w' value keyed e execute'
          meanwhile' hash id' now' w1 before.
        let (found, executed) =
          execute_keyed-stored as_json execute input key id now value rows' w' meanwhile rows w
            (rw keyed at e) in
        let live : leb (now + 86_400_000) now' ≡ false = ground (arith, before) in
        (executed, rw keyed (rw found (rw live refl))))
