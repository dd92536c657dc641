-- ===== src/Pricing/Formula/Plan.antt =====
-- `buildCalculationPlan` of apps/api/src/bulk-pricing-formula.ts, and what it calls. An enabled
-- component is a fixed cost, a target margin, a markup, or a fee on the selling price, which is an
-- affine expression in it. The messages leave out the label.
pub mod Complete
use ebay_pricing_intelligenc.Prelude.{
  ◌≡◌, Bool, true, false, not, ◌||◌, ◌&&◌, List, [], ◌∷◌, ◌++◌, Option, none, some, Result, ok, err,
  fail, require, ◌>>=◌, ◌>>◌, select, if◌then◌else◌, ℕ,
}
use ebay_pricing_intelligenc.Schema.Double.{Double, money}
use ebay_pricing_intelligenc.Pricing.Formula.{
  ComponentKind, ebay_fee_percent, promoted_listing_percent, Operator, add, subtract, multiply,
  divide, CalculationType, fixed_cost, percentage_deduction, target_margin, markup, CalculationBase,
  selling_price, item_price, order_total, seller_revenue_before_tax, ebay_order_total_including_tax,
  ebay_payout, previous_total, base_cost, custom, Component, Formula, ParsedFormula, or_else,
  is_scaling, normalize_bulk_pricing_formula,
}

-- PricingFormulaContext
pub record ContextInput (W : Type 0) : Type 0 where
  pub buyer_shipping_charge : Option W
  pub actual_shipping_cost : Option W
  pub sales_tax : Option W
  pub custom_base_amount : Option W

pub record Context (W : Type 0) : Type 0 where
  pub buyer_shipping_charge : W
  pub actual_shipping_cost : W
  pub sales_tax : W
  pub custom_base_amount : Option W

pub record AffineAmount (W : Type 0) : Type 0 where
  pub selling_price_coefficient : W
  pub constant : W

pub data Role : Type 0 where
  fixed_role fee_role target_role markup_role : Role

-- PricingFormulaBreakdown
pub record Entry (W : Type 0) : Type 0 where
  pub component : Component W
  pub role : Role
  pub base_amount : W
  pub amount : W

pub record FeeExpression (W : Type 0) : Type 0 where
  pub component : Component W
  pub base_expression : AffineAmount W
  pub expression : AffineAmount W

-- The variables of the loop over the components.
pub record Totals (W : Type 0) : Type 0 where
  pub previous_total : W
  pub markup_target : W
  pub target_margin_rate : W
  pub fixed_breakdown : List (Entry W)
  pub markup_breakdown : List (Entry W)
  pub external_fees : List (Component W)

pub record CalculationPlan (W : Type 0) : Type 0 where
  pub formula : Formula W
  pub cost_price : W
  pub context : Context W
  pub total_fixed_costs : W
  pub markup_target : W
  pub target_margin_rate : W
  pub fee_expressions : List (FeeExpression W)
  pub fixed_breakdown : List (Entry W)
  pub markup_breakdown : List (Entry W)

abbrev pub is_add : Operator → Bool
is_add add = true
is_add _ = false

abbrev pub is_selling_price : Option CalculationBase → Bool
is_selling_price (some selling_price) = true
is_selling_price _ = false

abbrev pub is_previous_total : Option CalculationBase → Bool
is_previous_total (some previous_total) = true
is_previous_total _ = false

abbrev pub is_ebay_payout : Option CalculationBase → Bool
is_ebay_payout (some ebay_payout) = true
is_ebay_payout _ = false

abbrev pub is_ebay_specific : ComponentKind → Bool
is_ebay_specific ebay_fee_percent = true
is_ebay_specific promoted_listing_percent = true
is_ebay_specific _ = false

abbrev pub is_target_margin : CalculationType → Bool
is_target_margin target_margin = true
is_target_margin _ = false

abbrev pub is_target : {W : Type 0} → Component W → Bool
is_target c = c.enabled && is_target_margin c.calculation_type

module _ {W : Type 0} ⦃d : Double W⦄ where
  abbrev pub is_zero : W → Bool
  is_zero value = d.eq value (d.ratio 0 1)

  -- Number.isFinite(value) && value >= 0, as the code writes its negation
  abbrev pub is_amount : W → Bool
  is_amount value = not (not (d.is_finite value) || d.lt value (d.ratio 0 1))

  abbrev pub is_optional_amount : Option W → Bool
  is_optional_amount none = true
  is_optional_amount (some value) = is_amount value

  abbrev pub optional_money : Option W → Option W
  optional_money none = none
  optional_money (some value) = some (money value)

  unfoldable pub normalize_context : W → ContextInput W → Result (Context W)
  normalize_context cost_price input =
      let buyer = or_else (d.ratio 0 1) input.buyer_shipping_charge in
      let shipping = or_else (d.ratio 0 1) input.actual_shipping_cost in
      let tax = or_else (d.ratio 0 1) input.sales_tax in
      do
        require (is_amount cost_price) 500 "Cost price must be a non-negative number"
        require (is_amount buyer) 500 "buyerShippingCharge must be a non-negative number"
        require (is_amount shipping) 500 "actualShippingCost must be a non-negative number"
        require (is_amount tax) 500 "salesTax must be a non-negative number"
        require (is_optional_amount input.custom_base_amount) 500
            "customBaseAmount must be a non-negative number"
        ok (record {
          buyer_shipping_charge = money buyer;
          actual_shipping_cost = money shipping;
          sales_tax = money tax;
          custom_base_amount = optional_money input.custom_base_amount;
        })

  unfoldable pub apply_operation : W → Operator → W → Result W
  apply_operation current add operand = ok (d.add current operand)
  apply_operation current subtract operand = ok (d.sub current operand)
  apply_operation current multiply operand = ok (d.mul current operand)
  apply_operation current divide operand =
      if is_zero operand
      then fail 500 "A pricing formula cannot divide by zero"
      else ok (d.div current operand)

  -- A multiple of the selling price that does not depend on the costs.
  abbrev pub on_selling_price : W → AffineAmount W
  on_selling_price constant = record {
    selling_price_coefficient = d.ratio 1 1;
    constant = constant;
  }

  abbrev pub fixed_base : W → AffineAmount W
  fixed_base constant = record { selling_price_coefficient = d.ratio 0 1; constant = constant }

  abbrev pub custom_base : Option W → Result (AffineAmount W)
  custom_base none = fail 500 "A custom calculation base amount is required"
  custom_base (some amount) = ok (fixed_base amount)

  abbrev pub payout_base : Option (AffineAmount W) → Result (AffineAmount W)
  payout_base none = fail 500 "eBay payout is not available for this component"
  payout_base (some payout) = ok payout

  unfoldable pub external_base_expression :
      Option CalculationBase → W → Context W → Option (AffineAmount W) → Result (AffineAmount W)
  external_base_expression (some selling_price) cost_price context payout =
      ok (on_selling_price (d.ratio 0 1))
  external_base_expression (some item_price) cost_price context payout =
      ok (on_selling_price (d.ratio 0 1))
  external_base_expression (some order_total) cost_price context payout =
      ok (on_selling_price context.buyer_shipping_charge)
  external_base_expression (some seller_revenue_before_tax) cost_price context payout =
      ok (on_selling_price context.buyer_shipping_charge)
  external_base_expression (some ebay_order_total_including_tax) cost_price context payout =
      ok (on_selling_price (d.add context.buyer_shipping_charge context.sales_tax))
  external_base_expression (some base_cost) cost_price context payout = ok (fixed_base cost_price)
  external_base_expression (some custom) cost_price context payout =
      custom_base context.custom_base_amount
  external_base_expression (some ebay_payout) cost_price context payout = payout_base payout
  external_base_expression _ cost_price context payout =
      fail 500 "PREVIOUS_TOTAL must be evaluated as an ordered component"

  -- rate = component.value / 100 * sign
  abbrev pub fee_at : W → AffineAmount W → AffineAmount W
  fee_at rate base = record {
    selling_price_coefficient = d.mul base.selling_price_coefficient rate;
    constant = d.mul base.constant rate;
  }

  abbrev pub fee_expression : Component W → AffineAmount W → Operator → Result (AffineAmount W)
  fee_expression c base add = ok (fee_at (d.mul (d.div c.value (d.ratio 100 1)) (d.ratio 1 1)) base)
  fee_expression c base subtract =
      ok (fee_at (d.mul (d.div c.value (d.ratio 100 1)) (d.sub (d.ratio 0 1) (d.ratio 1 1))) base)
  fee_expression c base _ =
      fail 500 "must use Add or Subtract unless its calculation base is Previous total"

  abbrev pub cost_entry : Component W → W → W → Entry W
  cost_entry c before total = record {
    component = c;
    role = fixed_role;
    base_amount = before;
    amount = money (d.sub total before);
  }

  abbrev pub with_total : Component W → Totals W → W → Totals W
  with_total c t total = record t {
    previous_total = total;
    fixed_breakdown = t.fixed_breakdown ++ cost_entry c t.previous_total total ∷ [];
  }

  -- A component that changes the total, once its operation is done.
  abbrev pub with_cost : Component W → Totals W → Result W → Result (Totals W)
  with_cost c t (err e) = err e
  with_cost c t (ok total) =
      if d.lt (money total) (d.ratio 0 1)
      then fail 500 "makes total fixed costs negative"
      else ok (with_total c t (money total))

  abbrev pub with_target : Component W → Totals W → Result (Totals W)
  with_target c t = do
    require (is_add c.operator && is_selling_price c.calculation_base) 500
        "Profit margin must use Add and Selling price as its base"
    require (not (d.le (d.ratio 100 1) c.value)) 500 "Profit margin must be less than 100%"
    ok (record t {
      target_margin_rate = d.add t.target_margin_rate (d.div c.value (d.ratio 100 1));
    })

  abbrev pub markup_base : Option CalculationBase → W → W → Option W → Result W
  markup_base (some base_cost) cost_price total amount = ok cost_price
  markup_base (some previous_total) cost_price total amount = ok total
  markup_base (some custom) cost_price total (some amount) = ok amount
  markup_base _ cost_price total amount =
      fail 500 "Markup base must be Base cost, Previous total, or Custom"

  abbrev pub markup_entry : Component W → W → Entry W
  markup_entry c base = record {
    component = c;
    role = markup_role;
    base_amount = base;
    amount = money (d.div (d.mul base c.value) (d.ratio 100 1));
  }

  abbrev pub with_markup : Component W → Totals W → W → Totals W
  with_markup c t base = record t {
    markup_target = money (d.add t.markup_target (markup_entry c base).amount);
    markup_breakdown = t.markup_breakdown ++ markup_entry c base ∷ [];
  }

  -- The operand of a percentage that changes the total.
  abbrev pub sequential_operand : Component W → W → W
  sequential_operand c total =
      if is_scaling c.operator
      then d.div c.value (d.ratio 100 1)
      else money (d.div (d.mul total c.value) (d.ratio 100 1))

  abbrev pub add_component :
      W → Context W → Component W → Totals W → CalculationType → Result (Totals W)
  add_component cost_price context c t fixed_cost =
      with_cost c t (apply_operation t.previous_total c.operator c.value)
  add_component cost_price context c t target_margin = with_target c t
  add_component cost_price context c t markup = do
    require (is_add c.operator) 500 "Markup must use the Add operation"
    base ← markup_base c.calculation_base cost_price t.previous_total context.custom_base_amount
    ok (with_markup c t base)
  add_component cost_price context c t percentage_deduction =
      if is_previous_total c.calculation_base
      then with_cost c t
          (apply_operation t.previous_total c.operator (sequential_operand c t.previous_total))
      else ok (record t { external_fees = t.external_fees ++ c ∷ [] })

  unfoldable pub add_components : W → Context W → List (Component W) → Totals W → Result (Totals W)
  add_components cost_price context [] t = ok t
  add_components cost_price context (c ∷ cs) t =
      (if c.enabled then add_component cost_price context c t c.calculation_type else ok t)
      >>= (λ t'. add_components cost_price context cs t')

  unfoldable pub fee_expressions_for :
      W → Context W → Option (AffineAmount W) → List (Component W) → Result (List (FeeExpression W))
  fee_expressions_for cost_price context payout [] = ok []
  fee_expressions_for cost_price context payout (c ∷ cs) = do
    base ← external_base_expression c.calculation_base cost_price context payout
    expression ← fee_expression c base c.operator
    rest ← fee_expressions_for cost_price context payout cs
    ok (record { component = c; base_expression = base; expression = expression } ∷ rest)

  -- The reduction of the fees that eBay keeps itself.
  unfoldable pub less_fees : AffineAmount W → List (FeeExpression W) → AffineAmount W
  less_fees payout [] = payout
  less_fees payout (fee ∷ fees) =
      less_fees
        (record {
          selling_price_coefficient =
              d.sub payout.selling_price_coefficient fee.expression.selling_price_coefficient;
          constant = d.sub payout.constant fee.expression.constant;
        })
        fees

  unfoldable pub payout_fees : AffineAmount W → List (Component W) → Result (List (FeeExpression W))
  payout_fees payout [] = ok []
  payout_fees payout (c ∷ cs) = do
    require (not (is_ebay_specific c.kind)) 500 "cannot use eBay payout as its own base"
    expression ← fee_expression c payout c.operator
    rest ← payout_fees payout cs
    ok (record { component = c; base_expression = payout; expression = expression } ∷ rest)

  unfoldable pub all_fees : W → Context W → List (Component W) → Result (List (FeeExpression W))
  all_fees cost_price context external = do
    fees ←
        fee_expressions_for cost_price context none
          (select (λ c. not (is_ebay_payout c.calculation_base)) external)
    others ←
        payout_fees
          (less_fees (on_selling_price context.buyer_shipping_charge)
            (select (λ fee. is_ebay_specific fee.component.kind) fees))
          (select (λ c. is_ebay_payout c.calculation_base) external)
    ok (fees ++ others)

  abbrev pub no_totals : W → Totals W
  no_totals total = record {
    previous_total = total;
    markup_target = d.ratio 0 1;
    target_margin_rate = d.ratio 0 1;
    fixed_breakdown = [];
    markup_breakdown = [];
    external_fees = [];
  }

  abbrev pub planned :
      Formula W → W → Context W → Totals W → List (FeeExpression W) → CalculationPlan W
  planned formula cost_price context t fees = record {
    formula = formula;
    cost_price = cost_price;
    context = context;
    total_fixed_costs = t.previous_total;
    markup_target = t.markup_target;
    target_margin_rate = t.target_margin_rate;
    fee_expressions = fees;
    fixed_breakdown = t.fixed_breakdown;
    markup_breakdown = t.markup_breakdown;
  }

  -- What follows the normalization of the formula.
  unfoldable pub plan_for : W → ContextInput W → Formula W → Result (CalculationPlan W)
  plan_for cost_price_input context_input formula = do
    context ← normalize_context cost_price_input context_input
    totals ←
        add_components (money cost_price_input) context formula.components
          (no_totals (money (d.add (money cost_price_input) context.actual_shipping_cost)))
    fees ← all_fees (money cost_price_input) context totals.external_fees
    ok (planned formula (money cost_price_input) context totals fees)

  unfoldable pub build_calculation_plan :
      W → ParsedFormula W → ContextInput W → Result (CalculationPlan W)
  build_calculation_plan cost_price_input formula_input context_input =
      normalize_bulk_pricing_formula is_zero formula_input
      >>= plan_for cost_price_input context_input
