-- ===== src/Pricing/Formula/Price.antt =====
-- `calculateFeeBreakdown`, `calculateNetProfit`, `calculateNetMargin` and `calculateSellingPrice` of
-- apps/api/src/bulk-pricing-formula.ts. A component that the plan holds is parsed again where the
-- code passes the plan's formula on.
pub mod Normalized
pub mod Breakdown
use ebay_pricing_intelligenc.Prelude.{
  ℕ, suc, ◌≡◌, Bool, true, false, not, ◌||◌, ◌&&◌, List, [], ◌∷◌, ◌++◌, Option, none, some, Result,
  ok, err, fail, require, ◌>>=◌, ◌>>◌, select, map, leb, ◌==◌, if◌then◌else◌,
}
use ebay_pricing_intelligenc.Schema.Double.{Double, money}
use ebay_pricing_intelligenc.Pricing.Formula.{Component, Formula, ParsedFormula, reparsed_all}
use ebay_pricing_intelligenc.Pricing.Formula.Plan.{
  is_target, ContextInput, Context, AffineAmount, Role, fee_role, target_role, Entry, FeeExpression,
  CalculationPlan, is_amount, build_calculation_plan,
}

-- What the schemas make of a formula of the plan.
abbrev pub reparsed_formula : {W : Type 0} → Formula W → ParsedFormula W
reparsed_formula formula = record {
  is_legacy = false;
  components = reparsed_all formula.components;
}

abbrev pub is_fee : Role → Bool
is_fee fee_role = true
is_fee _ = false

module _ {W : Type 0} where
  -- findIndex + 1, so that 0 stands for an identifier that is not there.
  unfoldable pub place_of : ℕ → List (Component W) → ℕ
  place_of id [] = 0
  place_of id (c ∷ cs) =
      let later = place_of id cs in if c.id == id then 1 else if later == 0 then 0 else suc later

  -- `sort` is stable: an entry goes before those behind it that it does not come after.
  unfoldable pub insert_entry : List (Component W) → Entry W → List (Entry W) → List (Entry W)
  insert_entry components e [] = e ∷ []
  insert_entry components e (x ∷ xs) =
      let rest = insert_entry components e xs in
      if leb (place_of e.component.id components) (place_of x.component.id components)
      then e ∷ x ∷ xs
      else x ∷ rest

  unfoldable pub sort_entries : List (Component W) → List (Entry W) → List (Entry W)
  sort_entries components [] = []
  sort_entries components (e ∷ es) = insert_entry components e (sort_entries components es)

-- The result of `calculateSellingPrice`.
pub record Calculation (W : Type 0) : Type 0 where
  pub formula : Formula W
  pub cost_price : W
  pub selling_price : W
  pub buyer_shipping_charge : W
  pub order_revenue : W
  pub actual_shipping_cost : W
  pub sales_tax : W
  pub total_fixed_costs : W
  pub total_percentage_fees : W
  pub total_percentage_deduction_rate : W
  pub target_profit : W
  pub markup_target : W
  pub net_profit : W
  pub net_margin : Option W
  pub expense_impact : W
  pub breakdown : List (Entry W)

module _ {W : Type 0} ⦃d : Double W⦄ where
  abbrev pub amount_from_expression : AffineAmount W → W → W
  amount_from_expression e selling_price =
      money (d.add (d.mul e.selling_price_coefficient selling_price) e.constant)

  unfoldable pub fee_entries : W → List (FeeExpression W) → List (Entry W)
  fee_entries selling_price [] = []
  fee_entries selling_price (fee ∷ fees) =
      record {
        component = fee.component;
        role = fee_role;
        base_amount = amount_from_expression fee.base_expression selling_price;
        amount = amount_from_expression fee.expression selling_price;
      }
      ∷ fee_entries selling_price fees

  unfoldable pub target_entries : W → List (Component W) → List (Entry W)
  target_entries selling_price [] = []
  target_entries selling_price (c ∷ cs) =
      let rest = target_entries selling_price cs in
      if is_target c
      then record {
        component = c;
        role = target_role;
        base_amount = selling_price;
        amount = money (d.div (d.mul selling_price c.value) (d.ratio 100 1));
      }
        ∷ rest
      else rest

  -- The entries of a plan at a selling price that is rounded.
  unfoldable pub breakdown_of : W → CalculationPlan W → List (Entry W)
  breakdown_of selling_price plan = sort_entries plan.formula.components (
      plan.fixed_breakdown
      ++ fee_entries selling_price plan.fee_expressions
      ++ plan.markup_breakdown
      ++ target_entries selling_price plan.formula.components)

  unfoldable pub calculate_fee_breakdown :
      W → W → ParsedFormula W → ContextInput W → Result (List (Entry W))
  calculate_fee_breakdown selling_price_input cost_price formula_input context_input = do
    plan ← build_calculation_plan cost_price formula_input context_input
    require (is_amount selling_price_input) 500 "Selling price must be a non-negative number"
    ok (breakdown_of (money selling_price_input) plan)

  abbrev pub sum_of : {A : Type 0} → (A → W) → W → List A → W
  sum_of f total [] = total
  sum_of f total (x ∷ xs) = sum_of f (d.add total (f x)) xs

  unfoldable pub net_profit_of : W → CalculationPlan W → W
  net_profit_of selling_price plan =
      let total_fees = money (
        sum_of (λ (fee : FeeExpression W). amount_from_expression fee.expression selling_price)
          (d.ratio 0 1) plan.fee_expressions) in
      let order_revenue = money (d.add selling_price plan.context.buyer_shipping_charge) in
      money (d.sub (d.sub order_revenue plan.total_fixed_costs) total_fees)

  unfoldable pub calculate_net_profit : W → W → ParsedFormula W → ContextInput W → Result W
  calculate_net_profit selling_price_input cost_price formula_input context_input = do
    plan ← build_calculation_plan cost_price formula_input context_input
    ok (net_profit_of (money selling_price_input) plan)

  unfoldable pub calculate_net_margin : W → W → ParsedFormula W → ContextInput W → Result (Option W)
  calculate_net_margin selling_price cost_price formula_input context_input =
      if d.le selling_price (d.ratio 0 1) then ok none else (do
        profit ← calculate_net_profit selling_price cost_price formula_input context_input
        ok (some (money (d.mul (d.div profit selling_price) (d.ratio 100 1)))))

  abbrev pub fee_coefficient : CalculationPlan W → W
  fee_coefficient plan =
      sum_of (λ (fee : FeeExpression W). fee.expression.selling_price_coefficient) (d.ratio 0 1)
        plan.fee_expressions

  abbrev pub fee_constant : CalculationPlan W → W
  fee_constant plan =
      sum_of (λ (fee : FeeExpression W). fee.expression.constant) (d.ratio 0 1) plan.fee_expressions

  abbrev pub consumed_rate : CalculationPlan W → W
  consumed_rate plan = d.add (fee_coefficient plan) plan.target_margin_rate

  unfoldable pub price_of : CalculationPlan W → W
  price_of plan =
      let denominator = d.sub (d.ratio 1 1) (consumed_rate plan) in
      let numerator =
        d.sub (d.add (d.add plan.total_fixed_costs plan.markup_target) (fee_constant plan))
          plan.context.buyer_shipping_charge in
      money (d.max (d.ratio 0 1) (d.div numerator denominator))

  abbrev pub is_supported : W → Bool
  is_supported price = not (not (d.is_finite price) || d.lt (d.ratio 100_000_000 1) price)

  abbrev pub calculated : CalculationPlan W → W → List (Entry W) → W → Calculation W
  calculated plan price breakdown net_profit =
      let fees = money (
        sum_of (λ (e : Entry W). e.amount) (d.ratio 0 1) (select (λ e. is_fee e.role) breakdown)) in
      record {
        formula = plan.formula;
        cost_price = plan.cost_price;
        selling_price = price;
        buyer_shipping_charge = plan.context.buyer_shipping_charge;
        order_revenue = money (d.add price plan.context.buyer_shipping_charge);
        actual_shipping_cost = plan.context.actual_shipping_cost;
        sales_tax = plan.context.sales_tax;
        total_fixed_costs = plan.total_fixed_costs;
        total_percentage_fees = fees;
        total_percentage_deduction_rate = money (d.mul (fee_coefficient plan) (d.ratio 100 1));
        target_profit = money (d.add (d.mul price plan.target_margin_rate) plan.markup_target);
        markup_target = plan.markup_target;
        net_profit = net_profit;
        net_margin =
            if d.lt (d.ratio 0 1) price
            then some (money (d.mul (d.div net_profit price) (d.ratio 100 1)))
            else none;
        expense_impact = money (d.add (d.sub plan.total_fixed_costs plan.cost_price) fees);
        breakdown = breakdown;
      }

  unfoldable pub price_plan : W → ContextInput W → CalculationPlan W → Result (Calculation W)
  price_plan cost_price context_input plan = do
    require (not (d.le (d.ratio 1 1) (consumed_rate plan))) 500
        "Selected fees and target margin consume the selling price. Reduce fees or target margin."
    require (is_supported (price_of plan)) 500
        "Pricing formula result is outside the supported range"
    breakdown ←
        calculate_fee_breakdown (price_of plan) cost_price (reparsed_formula plan.formula)
          context_input
    net_profit ←
        calculate_net_profit (price_of plan) cost_price (reparsed_formula plan.formula)
          context_input
    ok (calculated plan (price_of plan) breakdown net_profit)

  unfoldable pub calculate_selling_price :
      W → ParsedFormula W → ContextInput W → Result (Calculation W)
  calculate_selling_price cost_price formula_input context_input =
      build_calculation_plan cost_price formula_input context_input
      >>= price_plan cost_price context_input
