-- ===== src/Pricing/Formula/Price/Normalized.antt =====
-- The plans that `calculateSellingPrice` of apps/api/src/bulk-pricing-formula.ts builds.
use ebay_pricing_intelligenc.Prelude.{
  ◌≡◌, refl, sym, ap, subst, Result, ok, err, require, ◌>>=◌, ◌>>◌, not, >>=-eq-ok, Result-cases,
  inl, inr, Bool-cases,
}
use ebay_pricing_intelligenc.Schema.Double.{Double, money}
use ebay_pricing_intelligenc.Pricing.Formula.{
  Formula, ParsedFormula, normalize_bulk_pricing_formula,
}
use ebay_pricing_intelligenc.Pricing.Formula.Normal.{normalize_bulk_pricing_formula-idempotent}
use ebay_pricing_intelligenc.Pricing.Formula.Plan.{
  ContextInput, CalculationPlan, is_zero, is_amount, plan_for, build_calculation_plan,
  add_components, all_fees, normalize_context,
}
use ebay_pricing_intelligenc.Pricing.Formula.Price.{
  Calculation, reparsed_formula, consumed_rate, price_of, is_supported, calculated, breakdown_of,
  net_profit_of, calculate_fee_breakdown, calculate_net_profit, price_plan, calculate_selling_price,
}

module _ {W : Type 0} ⦃d : Double W⦄ where
  -- The reference: the checks of the price, and the calculation from the plan at hand.
  abbrev pub price_once : CalculationPlan W → Result (Calculation W)
  price_once plan = do
    require (not (d.le (d.ratio 1 1) (consumed_rate plan))) 500
        "Selected fees and target margin consume the selling price. Reduce fees or target margin."
    require (is_supported (price_of plan)) 500
        "Pricing formula result is outside the supported range"
    require (is_amount (price_of plan)) 500 "Selling price must be a non-negative number"
    ok (
        calculated plan (price_of plan) (breakdown_of (money (price_of plan)) plan)
          (net_profit_of (money (price_of plan)) plan))

  abbrev formula_in : Formula W → Result (CalculationPlan W) → Formula W
  formula_in default (ok plan) = plan.formula
  formula_in default (err e) = default

  -- A plan holds the formula that it is made for.
  plan_for-formula :
      (cost_price : W) (context_input : ContextInput W) (formula : Formula W)
      (plan : CalculationPlan W)
      → plan_for cost_price context_input formula ≡ ok plan
      → plan.formula ≡ formula
  unfolding plan_for
  plan_for-formula cost_price context_input formula plan e =
      let (context, _, e1) = >>=-eq-ok (normalize_context cost_price context_input) _ e in
      let (totals, _, e2) = >>=-eq-ok (add_components _ context formula.components _) _ e1 in
      let (fees, _, e3) = >>=-eq-ok (all_fees _ context totals.external_fees) _ e2 in
      sym (ap (formula_in formula) e3)

  build_calculation_plan-again :
      (cost_price : W) (input : ParsedFormula W) (context_input : ContextInput W)
      (plan : CalculationPlan W)
      → build_calculation_plan cost_price input context_input ≡ ok plan
      → build_calculation_plan cost_price (reparsed_formula plan.formula) context_input ≡ ok plan
  unfolding build_calculation_plan
  build_calculation_plan-again cost_price input context_input plan e =
      let (formula, normal, rest) = >>=-eq-ok (normalize_bulk_pricing_formula is_zero input) _ e in
      let same = plan_for-formula cost_price context_input formula plan rest in
      let again = normalize_bulk_pricing_formula-idempotent is_zero input formula normal in
      subst
        (λ f.
          (normalize_bulk_pricing_formula is_zero (reparsed_formula f)
            >>= plan_for cost_price context_input)
          ≡ ok plan)
        (sym same) (rw again rest)

  price_plan-once :
      (cost_price : W) (context_input : ContextInput W) (plan : CalculationPlan W)
      → build_calculation_plan cost_price (reparsed_formula plan.formula) context_input ≡ ok plan
      → price_plan cost_price context_input plan ≡ price_once plan
  unfolding price_plan calculate_fee_breakdown calculate_net_profit
  price_plan-once cost_price context_input plan e =
      rw e (elim (Bool-cases (is_amount (price_of plan))) [
        | inl amount ↦ rw amount refl
        | inr other ↦ rw other refl
      ])

  -- The code builds a plan for the price, and builds one again from the first plan's formula for
  -- the breakdown and for the net profit. The three agree: a calculation is that of the reference
  -- above, which makes the three checks of the price and uses the first plan throughout. Where no
  -- plan can be made, the calculation fails with the error of the first plan.
  pub calculate_selling_price_once :
      (cost_price : W) (input : ParsedFormula W) (context_input : ContextInput W)
      → calculate_selling_price cost_price input context_input
        ≡ (build_calculation_plan cost_price input context_input >>= price_once)
  unfolding calculate_selling_price
  calculate_selling_price_once cost_price input context_input =
      elim (Result-cases (build_calculation_plan cost_price input context_input)) [
        | inl (plan, e) ↦ rw e (
            price_plan-once cost_price context_input plan
              (build_calculation_plan-again cost_price input context_input plan e))
        | inr (x, e) ↦ rw e refl
      ]
