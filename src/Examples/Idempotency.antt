-- ===== src/Examples/Idempotency.antt =====
-- A request that is sent twice with one key.
use ebay_pricing_intelligenc.Prelude.{
  true, false, ℕ, ◌≡◌, refl, suc, List, [], ◌∷◌, some, Result, ok, fail, arith,
}
use ebay_pricing_intelligenc.Database.Memory.{memory, memory-IsDocumented}
use ebay_pricing_intelligenc.Delivery.Idempotency.{
  IdempotencyRecord, Request, reservation, completed_with, execute_idempotent,
}
use ebay_pricing_intelligenc.Delivery.Idempotency.Replay.{execute_idempotent-once}

-- The operation counts its calls and returns the count.
abbrev counting : ℕ → Result ℕ × ℕ
counting calls = (ok (suc calls), suc calls)

abbrev failing : ℕ → Result ℕ × ℕ
failing calls = (fail 500 "failed", suc calls)

abbrev request : Request
request = record {
  organization_id = 9;
  operation = 1;
  key = some 5;
  request_hash = 77;
  response_status = 202;
}

-- A record of the key that has expired.
abbrev expired : IdempotencyRecord ℕ
expired = reservation request 5 1 0

abbrev answered_row : IdempotencyRecord ℕ
answered_row = completed_with 202 4 (reservation request 5 2 86_400_000)

abbrev unchanged : List (IdempotencyRecord ℕ) → List (IdempotencyRecord ℕ)
unchanged rows = rows

executes :
    execute_idempotent memory (λ n. n) counting unchanged request 2 86_400_000 (expired ∷ []) 3
    ≡ (ok (record { value = 4; replayed = false }), answered_row ∷ [], 4)
unfolding execute_idempotent
executes = refl

-- An operation that fails frees its key.
frees_key :
    execute_idempotent memory (λ n. n) failing unchanged request 2 86_400_000 (expired ∷ []) 3
    ≡ (fail 500 "failed", [], 4)
unfolding execute_idempotent
frees_key = refl

execute_idempotent-once_example :
    (counting 3 ≡ (ok 4, 4))
    × (execute_idempotent memory
          (λ n. n)
          failing
          unchanged
          (record request { request_hash = 77 })
          3
          86_400_001
          (answered_row ∷ [])
          4
        ≡ (ok (record { value = 4; replayed = true }), answered_row ∷ [], 4))
execute_idempotent-once_example =
    execute_idempotent-once memory memory-IsDocumented (λ n. n) counting unchanged request 5 2
      86_400_000 (expired ∷ []) (answered_row ∷ []) 3 4 4 refl executes failing unchanged 77 3
      86_400_001 4 (omega arith)
