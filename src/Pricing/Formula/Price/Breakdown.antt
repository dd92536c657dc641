-- ===== src/Pricing/Formula/Price/Breakdown.antt =====
-- The entries of `calculateFeeBreakdown` of apps/api/src/bulk-pricing-formula.ts.
use ebay_pricing_intelligenc.Prelude.{
  ℕ, ◌+◌, ◌≡◌, refl, sym, ap, ◌∙◌, Bool, List, [], ◌∷◌, ◌++◌, Result, ok, err, require, arith,
  count-append, >>=-eq-ok, Bool-cases, inl, inr, leb,
}
use ebay_pricing_intelligenc.Schema.Double.{Double, money}
use ebay_pricing_intelligenc.Pricing.Formula.{
  Component, Formula, ParsedFormula, normalize_bulk_pricing_formula,
}
use ebay_pricing_intelligenc.Pricing.Formula.Plan.{
  is_target, ContextInput, Entry, FeeExpression, CalculationPlan, is_zero, is_amount, plan_for,
  build_calculation_plan, add_components, all_fees, normalize_context,
}
use ebay_pricing_intelligenc.Pricing.Formula.Plan.Complete.{
  entries, fees, targets, enabled, add_components-held, all_fees-fees,
}
use ebay_pricing_intelligenc.Pricing.Formula.Price.{
  place_of, insert_entry, sort_entries, fee_entries, target_entries, breakdown_of,
  calculate_fee_breakdown,
}

module _ {W : Type 0} (q : ℕ → Bool) where
  entries-append : (es fs : List (Entry W)) → entries q (es ++ fs) ≡ entries q es + entries q fs
  entries-append es fs = count-append (λ e. q e.component.id) es fs

  insert_entry-entries :
      (cs : List (Component W)) (e : Entry W) (es : List (Entry W))
      → entries q (insert_entry cs e es) ≡ entries q (e ∷ es)
  unfolding insert_entry
  insert_entry-entries cs e [] = refl
  insert_entry-entries cs e (x ∷ es) =
      elim (Bool-cases (leb (place_of e.component.id cs) (place_of x.component.id cs))) [
        | inl before ↦ rw before refl
        | inr after ↦ rw after (omega (arith, insert_entry-entries cs e es))
      ]

  sort_entries-entries :
      (cs : List (Component W)) (es : List (Entry W))
      → entries q (sort_entries cs es) ≡ entries q es
  unfolding sort_entries
  sort_entries-entries cs [] = refl
  sort_entries-entries cs (e ∷ es) =
      omega (arith, insert_entry-entries cs e (sort_entries cs es), sort_entries-entries cs es)

abbrev plan_in : {W : Type 0} → CalculationPlan W → Result (CalculationPlan W) → CalculationPlan W
plan_in default (ok plan) = plan
plan_in default (err e) = default

abbrev entries_in : {W : Type 0} → Result (List (Entry W)) → List (Entry W)
entries_in (ok es) = es
entries_in (err e) = []

module _ {W : Type 0} ⦃d : Double W⦄ (q : ℕ → Bool) where
  fee_entries-entries :
      (price : W) (list : List (FeeExpression W)) → entries q (fee_entries price list) ≡ fees q list
  unfolding fee_entries
  fee_entries-entries price [] = refl
  fee_entries-entries price (fee ∷ list) = omega (arith, fee_entries-entries price list)

  target_entries-entries :
      (price : W) (cs : List (Component W)) → entries q (target_entries price cs) ≡ targets q cs
  unfolding target_entries
  target_entries-entries price [] = refl
  target_entries-entries price (c ∷ cs) = elim (Bool-cases (is_target c)) [
    | inl target ↦ rw target (omega (arith, target_entries-entries price cs))
    | inr other ↦ rw other (omega (arith, target_entries-entries price cs))
  ]

  -- The shares of a plan, which the breakdown joins.
  plan_for-entries :
      (cost_price : W) (context_input : ContextInput W) (formula : Formula W)
      (plan : CalculationPlan W)
      → plan_for cost_price context_input formula ≡ ok plan
      → (plan.formula ≡ formula)
        × (entries q plan.fixed_breakdown
              + entries q plan.markup_breakdown
              + fees q plan.fee_expressions
              + targets q formula.components
            ≡ enabled q formula.components)
  unfolding plan_for
  plan_for-entries cost_price context_input formula plan e =
      let (context, _, e1) = >>=-eq-ok (normalize_context cost_price context_input) _ e in
      let (totals, t1, e2) = >>=-eq-ok (add_components _ context formula.components _) _ e1 in
      let (list, f1, e3) = >>=-eq-ok (all_fees _ context totals.external_fees) _ e2 in
      (
        sym (ap (λ r. (plan_in plan r).formula) e3),
        omega (
          arith,
          ap (λ r. entries q (plan_in plan r).fixed_breakdown) e3,
          ap (λ r. entries q (plan_in plan r).markup_breakdown) e3,
          ap (λ r. fees q (plan_in plan r).fee_expressions) e3,
          add_components-held q _ context formula.components _ totals t1,
          all_fees-fees q _ context totals.external_fees list f1,
        ),
      )

  breakdown_of-entries :
      (price : W) (plan : CalculationPlan W)
      → entries q (breakdown_of price plan)
        ≡ entries q plan.fixed_breakdown
          + entries q plan.markup_breakdown
          + fees q plan.fee_expressions
          + targets q plan.formula.components
  unfolding breakdown_of
  breakdown_of-entries price plan =
      let cs = plan.formula.components in
      let fee_list = fee_entries price plan.fee_expressions in
      let target_list = target_entries price cs in
      sort_entries-entries q cs
        (plan.fixed_breakdown ++ fee_list ++ plan.markup_breakdown ++ target_list)
      ∙ omega (
        arith,
        entries-append q (plan.fixed_breakdown ++ fee_list ++ plan.markup_breakdown) target_list,
        entries-append q (plan.fixed_breakdown ++ fee_list) plan.markup_breakdown,
        entries-append q plan.fixed_breakdown fee_list,
        fee_entries-entries price plan.fee_expressions,
        target_entries-entries price cs,
      )

  -- If the fee breakdown of a formula is calculated, the formula has a normal form, and for every
  -- choice of identifiers the breakdown has as many entries with a chosen identifier as the normal
  -- form has enabled components with one: each enabled component has its entry, and no other has.
  pub calculate_fee_breakdown_complete :
      (price cost_price : W) (input : ParsedFormula W) (context_input : ContextInput W)
      (es : List (Entry W))
      → calculate_fee_breakdown price cost_price input context_input ≡ ok es
      → (formula : Formula W) × (normalize_bulk_pricing_formula is_zero input ≡ ok formula)
        × (entries q es ≡ enabled q formula.components)
  unfolding calculate_fee_breakdown build_calculation_plan
  calculate_fee_breakdown_complete price cost_price input context_input es e =
      let (plan, planned, e1) =
        >>=-eq-ok (build_calculation_plan cost_price input context_input) _ e in
      let (formula, normal, rest) =
        >>=-eq-ok (normalize_bulk_pricing_formula is_zero input) (plan_for cost_price context_input)
          planned in
      let (_, _, e2) =
        >>=-eq-ok (require (is_amount price) 500 "Selling price must be a non-negative number") _
          e1 in
      let (same, shares) = plan_for-entries cost_price context_input formula plan rest in
      (
        formula,
        normal,
        omega (
          arith,
          ap (λ r. entries q (entries_in r)) e2,
          breakdown_of-entries (money price) plan,
          ap (λ (f : Formula W). targets q f.components) same,
          shares,
        ),
      )
