-- ===== src/Fitment/Once.antt =====
-- Two decisions that read the same application: `decideManualFitment` of
-- apps/api/src/manual-fitment-service.ts.
use ebay_pricing_intelligenc.Prelude.{
  value_in, ℕ, ◌≡◌, ◌∙◌, refl, sym, ap, subst, Bool, true, List, [], ◌∷◌, ◌++◌, ok, err, Failure,
  arith, any, Result-cases, inl, inr,
}
use ebay_pricing_intelligenc.Database.{Prisma, IsDocumented}
use ebay_pricing_intelligenc.Database.Memory.{memory, of_memory, transaction_err}
use ebay_pricing_intelligenc.Fitment.{Application, Revision, FitmentStore}
use ebay_pricing_intelligenc.Fitment.Properties.{Texts}
use ebay_pricing_intelligenc.Fitment.Manual.{same_revision, find_application}
use ebay_pricing_intelligenc.Fitment.Decide.{
  DecideInput, next_status, decide_tx, decide_manual_fitment, check_decide, is_decidable,
}
use ebay_pricing_intelligenc.Fitment.Decided.{
  row_of, decide_tx-eq-ok, check_decide-eq-ok, decided_by,
}

any-snoc :
    (p : Revision → Bool) (rows : List Revision) (row : Revision)
    → p row ≡ true
    → any p (rows ++ row ∷ []) ≡ true
any-snoc p [] row e = rw e refl
any-snoc p (r ∷ rows) row e = let rest = any-snoc p rows row e in ground (arith, rest)

module _ {W : Type 0} where
  module _ (texts : Texts) where
    -- A decision on an application whose next revision is taken.
    taken :
        (second : DecideInput) (current : Application) (later : ℕ) (s : FitmentStore W)
        → ((a : Application) → any (same_revision (row_of second current a)) s.revisions ≡ true)
        → (e : Failure) × (memory.transaction (decide_tx texts memory second current later) s
            ≡ (err e, s))
    taken second current later s h =
        elim (Result-cases (decide_tx texts memory second current later s)) [
          | inl ((a, s'), done) ↦
              let free = (decide_tx-eq-ok texts second current later s s' a done).1 in
              ground (arith, h a, free)
          | inr (x, failed) ↦
              (x, sym (transaction_err (decide_tx texts memory second current later) s x failed))
        ]

    stale :
        (second : DecideInput) (current : Application) (later : ℕ) (s s' : FitmentStore W)
        → find_application memory second.organization_id second.application_id s ≡ ok current
        → ((a : Application) → any (same_revision (row_of second current a)) s'.revisions ≡ true)
        → (e : Failure) × (decide_manual_fitment texts memory (λ t. s') second later s
            ≡ (err e, s'))
    unfolding decide_manual_fitment
    stale second current later s s' found h =
        elim (Result-cases (check_decide texts memory second s)) [
          | inr (x, failed) ↦ (x, rw failed refl)
          | inl (c, passed) ↦
              let same : current ≡ c =
                ap (value_in current)
                  (sym found ∙ (check_decide-eq-ok texts second s c passed).0) in
              let (x, fails) = taken second c later s' (
                subst
                  (λ k.
                    (a : Application) → any (same_revision (row_of second k a)) s'.revisions ≡ true)
                  same h) in
              (x, rw passed fails)
        ]

  -- Of two decisions on the application that both have read, one is made. When a decision succeeds,
  -- whatever other requests did between its read and its transaction, the application that it read
  -- was in a state for the decision, and the returned one has the decided status. Every decision of
  -- the same application that read the same tables, and whose transaction comes after it, fails and
  -- changes nothing.
  pub decide_manual_fitment-once :
      (db : Prisma)
      → IsDocumented db
      → (texts : Texts) (meanwhile : FitmentStore W → FitmentStore W) (input : DecideInput)
        (now : ℕ) (s s' : FitmentStore W) (a : Application)
      → decide_manual_fitment texts db meanwhile input now s ≡ (ok a, s')
      → (current : Application) × (find_application db input.organization_id input.application_id s
          ≡ ok current)
        × (is_decidable input.action current.status ≡ true)
        × (a.status ≡ next_status input.action)
        × ((second : DecideInput)
            → second.organization_id ≡ input.organization_id
            → second.application_id ≡ input.application_id
            → (later : ℕ)
            → (e : Failure) × (decide_manual_fitment texts db (λ t. s') second later s
                ≡ (err e, s')))
  decide_manual_fitment-once = of_memory _ (λ texts meanwhile input now s s' a e.
      let (current, passed, done) = decided_by texts meanwhile input now s s' a e in
      let (found, right) = check_decide-eq-ok texts input s current passed in
      let (status, free, added, rows, drafts) =
        decide_tx-eq-ok texts input current now (meanwhile s) s' a done in
      (
        current,
        found,
        right,
        status,
        λ second organization application later.
            stale texts second current later s s' (rw organization (rw application found)) (λ b.
              ap (any (same_revision (row_of second current b))) added
              ∙ any-snoc (same_revision (row_of second current b)) (meanwhile s).revisions
                  (row_of input current a) (ground arith)),
      ))
