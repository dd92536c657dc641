-- ===== src/Jobs/Retry.antt =====
-- apps/api/src/job-runtime.ts: which errors a job retries, and the loop of attempts.
-- The wait between two attempts changes no state, and is the third argument of `on_retry`.
pub mod Laws
pub mod Attempts
use ebay_pricing_intelligenc.Prelude.{
  ℕ, zero, suc, ◌+◌, ◌-◌, ◌*◌, ◌^◌, String, Bool, true, false, Option, none, some, ◌||◌, not, leb,
  ◌==◌, is_some, if◌then◌else◌,
}
use text.Mathlib.Text.{◌==◌ as str_eq}

pub record JobRunOptions : Type 0 where
  pub lease_owner : ℕ
  pub lease_duration_ms : ℕ
  pub max_attempts : ℕ
  pub retry_base_delay_ms : ℕ

unfoldable pub lease_expiry : JobRunOptions → ℕ → ℕ
lease_expiry options now = now + options.lease_duration_ms

-- A thrown value: whether it is a TypeError, its name if it is an Error, the value of
-- `Number(error.status)` if it is an object with that property (`none` for NaN too).
pub record Thrown : Type 0 where
  pub is_type_error : Bool
  pub name : Option String
  pub status : Option ℕ
  pub message : Option String

abbrev is_timeout_name : Option String → Bool
is_timeout_name none = false
is_timeout_name (some name) = str_eq name "AbortError" || str_eq name "TimeoutError"

abbrev is_retryable_status : Option ℕ → Bool
is_retryable_status none = false
is_retryable_status (some status) =
    status == 408 || status == 409 || status == 425 || status == 429 || leb 500 status

unfoldable pub is_retryable_job_error : Thrown → Bool
is_retryable_job_error error =
    if error.is_type_error
    then true
    else if is_timeout_name error.name
    then true
    else is_retryable_status error.status

-- What an awaited operation comes to.
pub data Attempt (A : Type 0) : Type 0 where
  returned : A → Attempt A
  threw : Thrown → Attempt A
  -- `throw new Error("Retry loop ended unexpectedly")`
  ended : Attempt A

module _ {S A : Type 0} where
  -- `await onRetry(…)`, then the next round.
  after_retry : Attempt (Unit {0}) × S → (S → Attempt A × S) → Attempt A × S
  after_retry (returned _, s) next = next s
  after_retry (threw error, s) next = (threw error, s)
  after_retry (ended, s) next = (ended, s)

  module _ (options : JobRunOptions) (on_retry : Thrown → ℕ → ℕ → S → Attempt (Unit {0}) × S) where
    -- The `catch` block.
    on_caught : Thrown → ℕ → S → (S → Attempt A × S) → Attempt A × S
    on_caught error attempt s next =
        if leb options.max_attempts attempt || not (is_retryable_job_error error)
        then (threw error, s)
        else after_retry
            (on_retry error attempt (options.retry_base_delay_ms * 2 ^ (attempt - 1)) s) next

    after_operation : Attempt A × S → ℕ → (S → Attempt A × S) → Attempt A × S
    after_operation (returned a, s) attempt next = (returned a, s)
    after_operation (threw error, s) attempt next = on_caught error attempt s next
    after_operation (ended, s) attempt next = (ended, s)

    module _ (operation : ℕ → S → Attempt A × S) where
      -- The loop; the first argument counts the rounds that `attempt <= maxAttempts` allows.
      pub attempts : ℕ → ℕ → S → Attempt A × S
      unfolding after_retry on_caught after_operation
      attempts zero attempt s = (ended, s)
      attempts (suc left) attempt s =
          after_operation (operation attempt s) attempt (λ s'. attempts left (attempt + 1) s')

      unfoldable pub run_with_retry : S → Attempt A × S
      unfolding attempts
      run_with_retry s = attempts options.max_attempts 1 s
