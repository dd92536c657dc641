-- ===== src/Fitment/Cleared.antt =====
-- What a decision on an application takes from the rest of its part: `decideManualFitment` of
-- apps/api/src/manual-fitment-service.ts.
use text.Mathlib.Text.{◌==◌ as str_eq}
use ebay_pricing_intelligenc.Prelude.{
  ℕ, ◌≡◌, ◌+◌, ◌∙◌, ap, Bool, true, List, some, ok, ◌==◌, not, ◌&&◌, ◌||◌, arith, count, revise,
  count-revise_le, count-revise_none,
}
use ebay_pricing_intelligenc.Database.{Prisma, IsDocumented}
use ebay_pricing_intelligenc.Database.Memory.{memory, of_memory}
use ebay_pricing_intelligenc.Fitment.{Application, FitmentStore, superseded}
use ebay_pricing_intelligenc.Fitment.Properties.{Texts}
use ebay_pricing_intelligenc.Fitment.Manual.{is_approved, find_application}
use ebay_pricing_intelligenc.Fitment.Decide.{
  DecideInput, is_approve, is_supersede, decided, replaced, decide_manual_fitment,
}
use ebay_pricing_intelligenc.Fitment.Invalidated.{is_usable}
use ebay_pricing_intelligenc.Fitment.Decided.{decide_tx-eq-ok, check_decide-eq-ok, decided_by}

-- Another application of the part and the marketplace that is approved.
abbrev pub is_other : ℕ → Application → Application → Bool
is_other organization_id current a =
    a.organization_id == organization_id
    && a.part_id == current.part_id
    && str_eq a.marketplace current.marketplace
    && is_approved a.status
    && not (a.id == current.id)

decided_none :
    (input : DecideInput) (current : Application) (revision now : ℕ) (rows : List Application)
    → count (is_other input.organization_id current) rows ≡ 0
    → count
        (is_other input.organization_id current)
        (revise (λ a. a.id == current.id) (decided input revision now) rows)
      ≡ 0
decided_none input current revision now rows h =
    let le =
      count-revise_le (is_other input.organization_id current) (λ a. a.id == current.id)
        (decided input revision now) rows (λ a here other. ground (arith, here, other)) in
    omega (arith, le, h)

module _ {W : Type 0} where
  replaced_none :
      (texts : Texts) (input : DecideInput) (current : Application) (s : FitmentStore W)
      → (is_approve input.action && input.replace_existing) ≡ true
      → count
          (is_other input.organization_id current)
          (replaced texts memory input current s).applications
        ≡ 0
  replaced_none texts input current s e = rw e (
      count-revise_none (is_other input.organization_id current)
        (is_other input.organization_id current)
        (λ a. record a {
          status = superseded;
          decision_reason = some (texts.replaced_by current.id);
        })
        s.applications (λ a h. ground arith) (λ a h. h))

  -- A decision changes what may be sold. When an approval or a removal of an application succeeds,
  -- whatever other requests did between its read and its transaction, no draft of the part of the
  -- application that it read is left that is not blocked or is validated; and when it is an
  -- approval that replaces, no other application of that part and marketplace is left approved.
  pub decide_manual_fitment-IsCleared :
      (db : Prisma)
      → IsDocumented db
      → (texts : Texts) (meanwhile : FitmentStore W → FitmentStore W) (input : DecideInput)
        (now : ℕ) (s s' : FitmentStore W) (a : Application)
      → decide_manual_fitment texts db meanwhile input now s ≡ (ok a, s')
      → (is_approve input.action || is_supersede input.action) ≡ true
      → (current : Application) × (find_application db input.organization_id input.application_id s
          ≡ ok current)
        × (count (is_usable input.organization_id current.part_id) s'.drafts ≡ 0)
        × ((is_approve input.action && input.replace_existing) ≡ true
            → count (is_other input.organization_id current) s'.applications ≡ 0)
  decide_manual_fitment-IsCleared = of_memory _ (λ texts meanwhile input now s s' a e valid.
      let (current, passed, done) = decided_by texts meanwhile input now s s' a e in
      let (found, right) = check_decide-eq-ok texts input s current passed in
      let (status, free, added, rows, drafts) =
        decide_tx-eq-ok texts input current now (meanwhile s) s' a done in
      (
        current,
        found,
        drafts valid,
        λ replacing.
            ap (count (is_other input.organization_id current)) rows
            ∙ decided_none input current (current.revision + 1) now
                (replaced texts memory input current (meanwhile s)).applications
                (replaced_none texts input current (meanwhile s) replacing),
      ))
