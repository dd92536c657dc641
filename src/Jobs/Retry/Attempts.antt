-- ===== src/Jobs/Retry/Attempts.antt =====
-- How often the operation is called, how long the loop waits, and which errors come out of it.
use ebay_pricing_intelligenc.Prelude.{
  ℕ, zero, suc, ◌+◌, ◌-◌, ◌*◌, ◌^◌, ◌≤◌, ◌<◌, ◌≡◌, ◌≢◌, refl, ap, true, false, arith, ◌⊎◌, inl, inr,
  Bool-cases,
}
use native.Mathlib.Nat.{pow-le-pow_right, two-pow-succ, mul-le-mul_left}
use ebay_pricing_intelligenc.Jobs.Retry.{
  JobRunOptions, Thrown, is_retryable_job_error, Attempt, returned, threw, ended, run_with_retry,
}
use ebay_pricing_intelligenc.Jobs.Retry.Laws.{run_with_retry-post, Round, Told, silent-Told}

-- The operation comes to a value or an error, and the report of a retry to no error.
pub record IsSound {S A : Type 0} (on_retry : Thrown → ℕ → ℕ → S → Attempt (Unit {0}) × S)
    (operation : ℕ → S → Attempt A × S) : Type 0 where
  pub silent : (e : Thrown) (n d : ℕ) (s : S) → (on_retry e n d s).0 ≡ returned tt
  pub real : (n : ℕ) (s : S) → (operation n s).0 ≢ ended

-- The operation and the report of a retry come to a value or an error.
pub record IsReal {S A : Type 0} (on_retry : Thrown → ℕ → ℕ → S → Attempt (Unit {0}) × S)
    (operation : ℕ → S → Attempt A × S) : Type 0 where
  pub told : (e : Thrown) (n d : ℕ) (s : S) → (on_retry e n d s).0 ≢ ended
  pub real : (n : ℕ) (s : S) → (operation n s).0 ≢ ended

-- `calls` counts the calls of the operation.
pub record IsCounter {S A : Type 0} (on_retry : Thrown → ℕ → ℕ → S → Attempt (Unit {0}) × S)
    (operation : ℕ → S → Attempt A × S) (calls : S → ℕ) : Type 0 where
  pub counts : (n : ℕ) (s : S) → calls (operation n s).1 ≡ calls s + 1
  pub kept : (e : Thrown) (n d : ℕ) (s : S) → calls (on_retry e n d s).1 ≡ calls s

-- `waited` adds up the delays that are reported.
pub record IsClock {S A : Type 0} (on_retry : Thrown → ℕ → ℕ → S → Attempt (Unit {0}) × S)
    (operation : ℕ → S → Attempt A × S) (waited : S → ℕ) : Type 0 where
  pub idle : (n : ℕ) (s : S) → waited (operation n s).1 ≡ waited s
  pub adds : (e : Thrown) (n d : ℕ) (s : S) → waited (on_retry e n d s).1 ≡ waited s + d

module _ {S A : Type 0} (options : JobRunOptions)
    (on_retry : Thrown → ℕ → ℕ → S → Attempt (Unit {0}) × S)
    (operation : ℕ → S → Attempt A × S) where
  module _ (both : IsReal on_retry operation) (calls : S → ℕ)
      (counter : IsCounter on_retry operation calls) where
    -- The report of a retryable error, with the delay that follows it, has thrown `e`, and left `s`.
    abbrev pub IsReported : Thrown → S → Type 0
    IsReported e s =
        (x : Thrown) × (n : ℕ) × (before : S) × (is_retryable_job_error x ≡ true)
        × (on_retry x n (options.retry_base_delay_ms * 2 ^ (n - 1)) before ≡ (threw e, s))

    abbrev pub Spent : Attempt A × S → Type 0
    Spent (returned a, s) = (1 ≤ calls s) × (calls s ≤ options.max_attempts)
    Spent (threw e, s) =
        (1 ≤ calls s)
        × (calls s ≤ options.max_attempts)
        × ((is_retryable_job_error e ≡ false) ⊎ ((calls s ≡ options.max_attempts) ⊎ IsReported e s))
    Spent (ended, s) = ⊥

    -- A report goes on to the next round, or its error comes out.
    Told-Spent :
        (x : Thrown) (n : ℕ) (before : S) (r : Attempt (Unit {0}) × S)
        → is_retryable_job_error x ≡ true
        → on_retry x n (options.retry_base_delay_ms * 2 ^ (n - 1)) before ≡ r
        → r.0 ≢ ended
        → calls r.1 ≡ n
        → 1 ≤ n
        → n ≤ options.max_attempts
        → Told options on_retry operation (λ n s. calls s + 1 ≡ n) Spent n r
    Told-Spent x n before (returned _, s) retry e ne c pos le = omega arith
    Told-Spent x n before (threw y, s) retry e ne c pos le =
        (omega arith, omega arith, inr (inr (x, n, before, retry, e)))
    Told-Spent x n before (ended, s) retry e ne c pos le = ne refl

    Round-Spent :
        (n : ℕ) (c : ℕ) (r : Attempt A × S)
        → n ≤ options.max_attempts
        → c + 1 ≡ n
        → r.0 ≢ ended
        → calls r.1 ≡ c + 1
        → Round options on_retry operation (λ n s. calls s + 1 ≡ n) Spent n r
    Round-Spent n c (returned a, s) le h ne e = omega arith
    Round-Spent n c (ended, s) le h ne e = ne refl
    Round-Spent n c (threw x, s) le h ne e = (
      λ g. (
        omega arith,
        omega arith,
        elim (Bool-cases (is_retryable_job_error x)) [
          | inl retry ↦ inr (inl (ground arith))
          | inr not_retry ↦ inl not_retry
        ],
      ),
      λ g.
          Told-Spent x n s _ (ground arith) refl (both.told x n _ s)
            (omega (arith, counter.kept x n (options.retry_base_delay_ms * 2 ^ (n - 1)) s))
            (omega arith) (omega arith),
    )

    -- With at least one attempt allowed, the operation is called once at least and `maxAttempts`
    -- times at most, the final `throw` of the loop is not reached, and an error comes out only if
    -- it is not retryable, if every attempt is used up, or if the report of a retryable error threw
    -- it. `calls` counts the calls of the operation, which reports leave alone; the operation and
    -- the report each come to a value or an error.
    pub run_with_retry_calls :
        (s : S)
        → 0 < options.max_attempts
        → calls s ≡ 0
        → Spent (run_with_retry options on_retry operation s)
    run_with_retry_calls s pos start =
        run_with_retry-post options on_retry operation (λ n s. calls s + 1 ≡ n) Spent
          (λ n s le h.
            Round-Spent n (calls s) (operation n s) le h (both.real n s) (counter.counts n s))
          s pos (omega arith)

  module _ (sound : IsSound on_retry operation) (waited : S → ℕ)
      (clock : IsClock on_retry operation waited) where
    abbrev Waiting : ℕ → S → Type 0
    Waiting n s =
        (waited s + options.retry_base_delay_ms ≡ options.retry_base_delay_ms * 2 ^ (n - 1))
        × (1 ≤ n)
        × (n ≤ options.max_attempts)

    abbrev pub WaitedAtMost : Attempt A × S → Type 0
    WaitedAtMost r =
        waited r.1 + options.retry_base_delay_ms
        ≤ options.retry_base_delay_ms * 2 ^ (options.max_attempts - 1)

    delay-le :
        (n : ℕ)
        → 1 ≤ n
        → n ≤ options.max_attempts
        → options.retry_base_delay_ms * 2 ^ (n - 1)
          ≤ options.retry_base_delay_ms * 2 ^ (options.max_attempts - 1)
    delay-le n pos le = mul-le-mul_left _ (pow-le-pow_right {n = 2} (omega arith) (omega arith))

    delay-double :
        (n : ℕ)
        → 1 ≤ n
        → options.retry_base_delay_ms * 2 ^ (n + 1 - 1)
          ≡ options.retry_base_delay_ms * 2 ^ (n - 1) + options.retry_base_delay_ms * 2 ^ (n - 1)
    delay-double zero pos = absurd (omega arith)
    delay-double (suc m) pos =
        let less : suc m - 1 ≡ m = omega arith in
        let same : suc m + 1 - 1 ≡ suc m = omega arith in
        rw (less, same)
          (omega (arith, ap (λ (t : ℕ). options.retry_base_delay_ms * t) (two-pow-succ m)))

    Round-WaitedAtMost :
        (n w : ℕ) (r : Attempt A × S)
        → 1 ≤ n
        → n ≤ options.max_attempts
        → w + options.retry_base_delay_ms ≡ options.retry_base_delay_ms * 2 ^ (n - 1)
        → waited r.1 ≡ w
        → Round options on_retry operation Waiting WaitedAtMost n r
    Round-WaitedAtMost n w (returned a, s) pos le h e = omega (arith, delay-le n pos le)
    Round-WaitedAtMost n w (ended, s) pos le h e = omega (arith, delay-le n pos le)
    Round-WaitedAtMost n w (threw x, s) pos le h e = (
      λ g. omega (arith, delay-le n pos le),
      λ g. silent-Told options on_retry operation Waiting WaitedAtMost n _ (sound.silent x n _ s) (
        omega (
          arith,
          delay-double n pos,
          clock.adds x n (options.retry_base_delay_ms * 2 ^ (n - 1)) s,
        ),
        omega arith,
        ground arith,
      ),
    )

    -- With at least one attempt allowed and reports that do not throw, the delays that are reported
    -- add up to at most `retryBaseDelayMs * (2 ** (maxAttempts - 1) - 1)`.
    pub run_with_retry_waits :
        (s : S)
        → 0 < options.max_attempts
        → waited s ≡ 0
        → WaitedAtMost (run_with_retry options on_retry operation s)
    run_with_retry_waits s pos start =
        run_with_retry-post options on_retry operation Waiting WaitedAtMost
          (λ n s le h. Round-WaitedAtMost n (waited s) (operation n s) h.1 le h.0 (clock.idle n s))
          s pos (omega arith, omega arith, omega arith)
