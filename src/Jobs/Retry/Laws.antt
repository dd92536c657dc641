-- ===== src/Jobs/Retry/Laws.antt =====
-- What the loop of attempts guarantees.
use ebay_pricing_intelligenc.Prelude.{
  ℕ, zero, suc, ◌+◌, ◌-◌, ◌*◌, ◌^◌, ◌≤◌, ◌<◌, ◌≡◌, true, false, Bool-cases, leb, ◌||◌, not, arith,
  inl, inr, Bool,
}
use ebay_pricing_intelligenc.Jobs.Retry.{
  JobRunOptions, Thrown, is_retryable_job_error, Attempt, returned, threw, ended, after_retry,
  on_caught, after_operation, attempts, run_with_retry,
}

-- The test of the `catch` block.
abbrev pub gives_up : JobRunOptions → ℕ → Thrown → Bool
gives_up options n e = leb options.max_attempts n || not (is_retryable_job_error e)

module _ {S A : Type 0} (options : JobRunOptions)
    (on_retry : Thrown → ℕ → ℕ → S → Attempt (Unit {0}) × S) (operation : ℕ → S → Attempt A × S)
    (P : ℕ → S → Type 0) (Q : Attempt A × S → Type 0) where
  abbrev pub Told : ℕ → Attempt (Unit {0}) × S → Type 0
  Told n (returned _, s) = P (n + 1) s
  Told n (threw e, s) = Q (threw e, s)
  Told n (ended, s) = Q (ended, s)

  -- What a round has to establish: `Q` if it ends the loop, else `P` for the next round.
  abbrev pub Round : ℕ → Attempt A × S → Type 0
  Round n (returned a, s) = Q (returned a, s)
  Round n (ended, s) = Q (ended, s)
  Round n (threw e, s) =
      (gives_up options n e ≡ true → Q (threw e, s))
      × (gives_up options n e ≡ false
          → Told n (on_retry e n (options.retry_base_delay_ms * 2 ^ (n - 1)) s))

  pub silent-Told :
      (n : ℕ) (r : Attempt (Unit {0}) × S) → r.0 ≡ returned tt → P (n + 1) r.1 → Told n r
  silent-Told n (returned _, s) e h = h
  silent-Told n (threw x, s) e h = cc
  silent-Told n (ended, s) e h = cc

  after_retry-post :
      (n : ℕ) (r : Attempt (Unit {0}) × S) (next : S → Attempt A × S)
      → ((s : S) → P (n + 1) s → Q (next s))
      → Told n r
      → Q (after_retry r next)
  unfolding after_retry
  after_retry-post n (returned _, s) next k h = k s h
  after_retry-post n (threw e, s) next k h = h
  after_retry-post n (ended, s) next k h = h

  after_operation-post :
      (n : ℕ) (r : Attempt A × S) (next : S → Attempt A × S)
      → ((s : S) → (e : Thrown) → gives_up options n e ≡ false → P (n + 1) s → Q (next s))
      → Round n r
      → Q (after_operation options on_retry r n next)
  unfolding after_operation on_caught
  after_operation-post n (returned a, s) next k h = h
  after_operation-post n (ended, s) next k h = h
  after_operation-post n (threw e, s) next k h = elim (Bool-cases (gives_up options n e)) [
    | inl last ↦ rw last (h.0 last)
    | inr more ↦ rw more (after_retry-post n _ next (λ s'. k s' e more) (h.1 more))
  ]

  module _
      (round : (n : ℕ) (s : S) → n ≤ options.max_attempts → P n s → Round n (operation n s)) where
    attempts-post :
        (left n : ℕ) (s : S)
        → 0 < left
        → n + left ≡ options.max_attempts + 1
        → P n s
        → Q (attempts options on_retry operation left n s)
    unfolding attempts
    attempts-post zero n s pos sum h = absurd (omega arith)
    attempts-post (suc left) n s pos sum h =
        after_operation-post n (operation n s) _
          (λ s' e more h'. attempts-post left (n + 1) s' (ground arith) (omega arith) h')
          (round n s (omega arith) h)

    pub run_with_retry-post :
        (s : S) → 0 < options.max_attempts → P 1 s → Q (run_with_retry options on_retry operation s)
    unfolding run_with_retry
    run_with_retry-post s pos h = attempts-post options.max_attempts 1 s pos (omega arith) h

-- A run keeps what its two callbacks keep.
module _ {S A : Type 0} (options : JobRunOptions)
    (on_retry : Thrown → ℕ → ℕ → S → Attempt (Unit {0}) × S) (operation : ℕ → S → Attempt A × S)
    (P : S → Type 0) (op : (n : ℕ) (s : S) → P s → P (operation n s).1)
    (re : (e : Thrown) (n d : ℕ) (s : S) → P s → P (on_retry e n d s).1) where
  after_retry-keeps :
      (r : Attempt (Unit {0}) × S) (next : S → Attempt A × S)
      → ((s : S) → P s → P (next s).1)
      → P r.1
      → P (after_retry r next).1
  unfolding after_retry
  after_retry-keeps (returned _, s) next k h = k s h
  after_retry-keeps (threw e, s) next k h = h
  after_retry-keeps (ended, s) next k h = h

  after_operation-keeps :
      (n : ℕ) (r : Attempt A × S) (next : S → Attempt A × S)
      → ((s : S) → P s → P (next s).1)
      → P r.1
      → P (after_operation options on_retry r n next).1
  unfolding after_operation on_caught
  after_operation-keeps n (returned a, s) next k h = h
  after_operation-keeps n (ended, s) next k h = h
  after_operation-keeps n (threw e, s) next k h = elim (Bool-cases (gives_up options n e)) [
    | inl last ↦ rw last h
    | inr more ↦ rw more (after_retry-keeps _ next k (re e n _ s h))
  ]

  attempts-keeps : (left n : ℕ) (s : S) → P s → P (attempts options on_retry operation left n s).1
  unfolding attempts
  attempts-keeps zero n s h = h
  attempts-keeps (suc left) n s h =
      after_operation-keeps n (operation n s) _ (λ s' h'. attempts-keeps left (n + 1) s' h')
        (op n s h)

  pub run_with_retry-keeps : (s : S) → P s → P (run_with_retry options on_retry operation s).1
  unfolding run_with_retry
  run_with_retry-keeps s h = attempts-keeps options.max_attempts 1 s h
