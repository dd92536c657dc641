-- ===== src/Examples/Formula.antt =====
-- A formula of version 1 with a sequential fee.
use ebay_pricing_intelligenc.Prelude.{
  ℕ, ◌≡◌, ◌==◌, refl, Bool, true, false, [], ◌∷◌, none, some, ok, fail, List, Result, err, Option,
  ◌>>=◌,
}
use ebay_pricing_intelligenc.Pricing.Formula.{
  Formula, ParsedComponent, ParsedFormula, multiply, add, buffer_percent, profit_margin_percent,
  normalized, misc_fixed, percentage_deduction, check_component, normalize_components,
  normalize_bulk_pricing_formula, reparsed_all, ComponentKind, ebay_fee_percent, markup_percent,
}
use ebay_pricing_intelligenc.Pricing.Formula.Normal.{normalize_bulk_pricing_formula-idempotent}
use ebay_pricing_intelligenc.Schema.Double.{Fixed, fixed_double, money}
use ebay_pricing_intelligenc.Pricing.Formula.Plan.{
  ContextInput, Entry, normalize_context, apply_operation, add_components, all_fees,
  fee_expressions_for, external_base_expression, less_fees, payout_fees, plan_for,
  build_calculation_plan,
}
use ebay_pricing_intelligenc.Pricing.Formula.Plan.Complete.{entries, enabled}
use ebay_pricing_intelligenc.Pricing.Formula.Price.{
  Calculation, place_of, insert_entry, sort_entries, fee_entries, target_entries, breakdown_of,
  calculate_fee_breakdown, net_profit_of, calculate_net_profit, price_of, price_plan,
  calculate_selling_price,
}
use ebay_pricing_intelligenc.Pricing.Formula.Price.Normalized.{
  price_once, calculate_selling_price_once,
}
use ebay_pricing_intelligenc.Pricing.Formula.Price.Breakdown.{calculate_fee_breakdown_complete}

abbrev entries_of : Result (List (Entry Fixed)) → List (Entry Fixed)
entries_of (ok es) = es
entries_of (err e) = []

abbrev price_of_result : Result (Calculation Fixed) → Option Fixed
price_of_result (ok c) = some c.selling_price
price_of_result (err e) = none

abbrev is_zero : ℕ → Bool
is_zero n = n == 0

abbrev buffer : ParsedComponent ℕ
buffer = record {
  id = 1;
  kind = buffer_percent;
  operator = multiply;
  value = 105;
  label = none;
  enabled = true;
  calculation_type = none;
  calculation_base = none;
}

abbrev profit : ParsedComponent ℕ
profit = record {
  id = 2;
  kind = profit_margin_percent;
  operator = add;
  value = 20;
  label = some "Profit";
  enabled = true;
  calculation_type = none;
  calculation_base = none;
}

abbrev legacy_formula : ParsedFormula ℕ
legacy_formula = record { is_legacy = true; components = buffer ∷ profit ∷ [] }

abbrev normal_formula : Formula ℕ
normal_formula = record { components = normalized true buffer ∷ normalized true profit ∷ [] }

normalizes : normalize_bulk_pricing_formula is_zero legacy_formula ≡ ok normal_formula
unfolding normalize_bulk_pricing_formula normalize_components check_component
normalizes = refl

refuses_duplicates :
    normalize_bulk_pricing_formula is_zero
      (record { is_legacy = false; components = profit ∷ profit ∷ [] })
    ≡ fail 500 "Duplicate pricing formula component id"
unfolding normalize_bulk_pricing_formula normalize_components check_component
refuses_duplicates = refl

refuses_kind :
    normalize_bulk_pricing_formula is_zero (record {
      is_legacy = false;
      components =
          record profit { kind = misc_fixed; calculation_type = some percentage_deduction } ∷ [];
    })
    ≡ fail 500 "must be configured as a fixed cost"
unfolding normalize_bulk_pricing_formula normalize_components check_component
refuses_kind = refl

normalize_bulk_pricing_formula-idempotent_example :
    normalize_bulk_pricing_formula is_zero
      (record { is_legacy = false; components = reparsed_all normal_formula.components })
    ≡ ok normal_formula
normalize_bulk_pricing_formula-idempotent_example =
    normalize_bulk_pricing_formula-idempotent is_zero legacy_formula normal_formula normalizes

-- A fee of 10%, a target margin of 20% and a disabled markup, in ten-thousandths.
abbrev component : ℕ → ComponentKind → Fixed → Bool → ParsedComponent Fixed
component id kind value enabled = record {
  id = id;
  kind = kind;
  operator = add;
  value = value;
  label = none;
  enabled = enabled;
  calculation_type = none;
  calculation_base = none;
}

abbrev fee_formula : ParsedFormula Fixed
fee_formula = record {
  is_legacy = false;
  components =
      component 1 profit_margin_percent 200_000 true
      ∷ component 2 ebay_fee_percent 100_000 true
      ∷ component 3 markup_percent 50_000 false
      ∷ [];
}

abbrev context : ContextInput Fixed
context = record {
  buyer_shipping_charge = none;
  actual_shipping_cost = some 70_000;
  sales_tax = none;
  custom_base_amount = none;
}

abbrev breakdown : List (Entry Fixed)
breakdown = entries_of (calculate_fee_breakdown 1_000_000 630_000 fee_formula context)

abbrev price_found : Option Fixed
price_found = price_of_result (calculate_selling_price 630_000 fee_formula context)

-- A cost of 63.00 and 7.00 for shipping make a price of 100.00.
sells_at : price_found ≡ some 1_000_000
unfolding calculate_selling_price build_calculation_plan normalize_bulk_pricing_formula
    normalize_components check_component plan_for normalize_context add_components apply_operation
    all_fees fee_expressions_for external_base_expression less_fees payout_fees price_plan price_of
    calculate_fee_breakdown breakdown_of sort_entries insert_entry place_of fee_entries
    target_entries calculate_net_profit net_profit_of money
sells_at = refl

broken_down : calculate_fee_breakdown 1_000_000 630_000 fee_formula context ≡ ok breakdown
unfolding calculate_fee_breakdown build_calculation_plan normalize_bulk_pricing_formula
    normalize_components check_component plan_for normalize_context add_components apply_operation
    all_fees fee_expressions_for external_base_expression less_fees payout_fees
broken_down = refl

calculate_fee_breakdown_complete_example :
    (formula : Formula Fixed) × (normalize_bulk_pricing_formula (λ value. value == 0) fee_formula
      ≡ ok formula)
    × (entries (λ id. id == 2) breakdown ≡ enabled (λ id. id == 2) formula.components)
calculate_fee_breakdown_complete_example =
    calculate_fee_breakdown_complete (λ id. id == 2) 1_000_000 630_000 fee_formula context breakdown
      broken_down

calculate_selling_price_once_example :
    calculate_selling_price 630_000 fee_formula context
    ≡ (build_calculation_plan 630_000 fee_formula context >>= price_once)
calculate_selling_price_once_example = calculate_selling_price_once 630_000 fee_formula context
