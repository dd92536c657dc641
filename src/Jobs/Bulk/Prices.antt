-- ===== src/Jobs/Bulk/Prices.antt =====
-- The prices of a sheet's rows: `createDefaultBulkPricingFormula` of
-- apps/api/src/bulk-pricing-formula.ts, and the price functions of bulk-pricing-service.ts. The
-- identifiers of the default components are 1 to 6.
use ebay_pricing_intelligenc.Prelude.{
  ℕ, [], ◌∷◌, Option, none, some, Result, ok, ◌>>=◌, find, true, Bool, if◌then◌else◌, ◌||◌,
}
use ebay_pricing_intelligenc.Schema.Double.{Double, money}
use ebay_pricing_intelligenc.Pricing.Formula.{
  ComponentKind, ebay_fee_percent, payoneer_fee_percent, export_fee_percent, buffer_percent,
  misc_fixed, profit_margin_percent, add, Component, Formula, ParsedFormula, label_for,
  default_semantics, or_else,
}
use ebay_pricing_intelligenc.Pricing.Formula.Plan.{ContextInput, Entry}
use ebay_pricing_intelligenc.Pricing.Formula.Price.{
  Calculation, reparsed_formula, calculate_selling_price, calculate_net_margin,
}
use ebay_pricing_intelligenc.Jobs.Bulk.{BulkPricingStrategy, custom_formula, market_mean}

-- The context that the service leaves out.
abbrev pub no_context : {W : Type 0} → ContextInput W
no_context = record {
  buyer_shipping_charge = none;
  actual_shipping_cost = none;
  sales_tax = none;
  custom_base_amount = none;
}

abbrev pub is_ebay_fee : ComponentKind → Bool
is_ebay_fee ebay_fee_percent = true
is_ebay_fee _ = Bool.false

-- The result of `calculateSimpleBulkSellingPrice`.
pub record SimplePrice (W : Type 0) : Type 0 where
  pub selling_price : W
  pub formula_floor_price : W
  pub target_profit : W
  pub ebay_fee : W
  pub extra_expenses : W
  pub actual_profit : W
  pub actual_profit_percent : Option W
  pub total_margin_percent : W

-- What an item takes of a formula's price.
pub record FormulaPrice (W : Type 0) : Type 0 where
  pub selling_price : W
  pub formula_floor_price : W
  pub actual_profit_percent : Option W

pub record AutomaticPrice (W : Type 0) : Type 0 where
  pub selling_price : W
  pub margin_percent : Option W

module _ {W : Type 0} ⦃d : Double W⦄ where
  abbrev pub default_component : ℕ → ComponentKind → W → Component W
  default_component id kind value = record {
    id = id;
    kind = kind;
    operator = add;
    value = value;
    label = label_for kind;
    enabled = true;
    calculation_type = (default_semantics kind Bool.false).0;
    calculation_base = some (default_semantics kind Bool.false).1;
  }

  abbrev pub create_default_bulk_pricing_formula : Option W → Option W → Formula W
  create_default_bulk_pricing_formula profit_margin_percent_input buffer_percent_input = record {
    components =
        default_component 1 ebay_fee_percent (d.ratio 1135 100)
        ∷ default_component 2 payoneer_fee_percent (d.ratio 2 1)
        ∷ default_component 3 export_fee_percent (d.ratio 13 10)
        ∷ default_component 4 buffer_percent (or_else (d.ratio 1 1) buffer_percent_input)
        ∷ default_component 5 misc_fixed (d.ratio 4 10)
        ∷ default_component 6 profit_margin_percent
            (or_else (d.ratio 20 1) profit_margin_percent_input)
        ∷ [];
  }

  -- `evaluateBulkPricingFormula`
  abbrev pub evaluate_bulk_pricing_formula : W → ParsedFormula W → Result (Calculation W)
  evaluate_bulk_pricing_formula cost_price formula =
      calculate_selling_price cost_price formula no_context

  abbrev pub amount_in : Option (Entry W) → W
  amount_in none = d.ratio 0 1
  amount_in (some e) = e.amount

  unfoldable pub calculate_simple_bulk_selling_price : W → W → Option W → Result (SimplePrice W)
  calculate_simple_bulk_selling_price cost_price_input target_margin_percent_input
        buffer_percent_input =
      let cost_price = money (d.max (d.ratio 0 1) cost_price_input) in
      let target = d.max (d.ratio 0 1) (d.min (d.ratio 95 1) target_margin_percent_input) in
      let buffer = d.max (d.ratio 0 1) (or_else (d.ratio 0 1) buffer_percent_input) in
      let formula = create_default_bulk_pricing_formula (some target) (some buffer) in
      do
        calculated ← evaluate_bulk_pricing_formula cost_price (reparsed_formula formula)
        let ebay_fee =
            amount_in (find (λ (e : Entry W). is_ebay_fee e.component.kind) calculated.breakdown)
        ok (record {
          selling_price = calculated.selling_price;
          formula_floor_price = calculated.selling_price;
          target_profit = calculated.target_profit;
          ebay_fee = ebay_fee;
          extra_expenses = money (d.sub calculated.expense_impact ebay_fee);
          actual_profit = calculated.net_profit;
          actual_profit_percent = calculated.net_margin;
          total_margin_percent = target;
        })

  unfoldable pub calculate_automatic_market_price : W → W → AutomaticPrice W
  calculate_automatic_market_price cost_price market_average =
      let price = money (d.max (d.ratio 0 1) market_average) in
      record {
        selling_price = price;
        margin_percent =
            if d.lt (d.ratio 0 1) price
            then some (
                money (
                  d.mul (d.div (d.sub price (d.max (d.ratio 0 1) cost_price)) price)
                    (d.ratio 100 1)))
            else none;
      }

  unfoldable pub calculate_bulk_margin_percent : W → W → Result (Option W)
  calculate_bulk_margin_percent cost_price selling_price =
      if d.lt cost_price (d.ratio 0 1) || d.le selling_price (d.ratio 0 1)
      then ok none
      else calculate_net_margin selling_price cost_price
          (reparsed_formula
            (create_default_bulk_pricing_formula (some (d.ratio 0 1)) (some (d.ratio 1 1))))
          no_context

  -- A formula's price by the job's formula, or by the simple rates where it has none.
  unfoldable pub price_with : W → W → Option W → Option (ParsedFormula W) → Result (FormulaPrice W)
  price_with cost target buffer none = do
    simple ← calculate_simple_bulk_selling_price cost target buffer
    ok (record {
      selling_price = simple.selling_price;
      formula_floor_price = simple.formula_floor_price;
      actual_profit_percent = simple.actual_profit_percent;
    })
  price_with cost target buffer (some formula) = do
    calculated ← evaluate_bulk_pricing_formula cost formula
    ok (record {
      selling_price = calculated.selling_price;
      formula_floor_price = calculated.selling_price;
      actual_profit_percent = calculated.net_margin;
    })

  -- formulaPrice of `processBulkItem`
  abbrev pub formula_price :
      BulkPricingStrategy → W → W → W → Option (ParsedFormula W) → Result (Option (FormulaPrice W))
  formula_price market_mean cost target buffer formula = ok none
  formula_price custom_formula cost target buffer formula = do
    price ← price_with cost target (some buffer) formula
    ok (some price)
