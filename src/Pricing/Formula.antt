-- ===== src/Pricing/Formula.antt =====
-- The components of a pricing formula and `normalizeBulkPricingFormula` of
-- apps/api/src/bulk-pricing-formula.ts. The schema library zod has parsed the input: a label that is
-- there is not empty, and a version is 1 (legacy) or 2. The identifiers are numbers; the messages
-- leave out the label and the identifier that they name. `is_zero` is the test `value === 0`.
pub mod Normal
pub mod Plan
pub mod Price
use ebay_pricing_intelligenc.Prelude.{
  ℕ, ◌≡◌, Bool, true, false, ◌&&◌, ◌||◌, List, [], ◌∷◌, Option, none, some, Result, ok, err, fail,
  require, ◌>>◌, ◌==◌, not, any, String, if◌then◌else◌,
}

-- pricingFormulaComponentKinds
pub data ComponentKind : Type 0 where
  ebay_fee_percent promoted_listing_percent payoneer_fee_percent export_fee_percent buffer_percent
        misc_fixed profit_margin_percent markup_percent custom_percent custom_fixed :
      ComponentKind

-- pricingFormulaOperators
pub data Operator : Type 0 where
  add subtract multiply divide : Operator

-- pricingFormulaCalculationTypes
pub data CalculationType : Type 0 where
  fixed_cost percentage_deduction target_margin markup : CalculationType

-- pricingFormulaCalculationBases
pub data CalculationBase : Type 0 where
  selling_price item_price order_total seller_revenue_before_tax ebay_order_total_including_tax
        ebay_payout previous_total base_cost custom :
      CalculationBase

-- PricingFormulaComponent
pub record Component (W : Type 0) : Type 0 where
  pub id : ℕ
  pub kind : ComponentKind
  pub operator : Operator
  pub value : W
  pub label : String
  pub enabled : Bool
  pub calculation_type : CalculationType
  pub calculation_base : Option CalculationBase

-- BulkPricingFormula; its version is 2 and its base the cost price.
pub record Formula (W : Type 0) : Type 0 where
  pub components : List (Component W)

-- What `componentSchema` and `formulaSchema` accept.
pub record ParsedComponent (W : Type 0) : Type 0 where
  pub id : ℕ
  pub kind : ComponentKind
  pub operator : Operator
  pub value : W
  pub label : Option String
  pub enabled : Bool
  pub calculation_type : Option CalculationType
  pub calculation_base : Option CalculationBase

pub record ParsedFormula (W : Type 0) : Type 0 where
  pub is_legacy : Bool
  pub components : List (ParsedComponent W)

abbrev pub label_for : ComponentKind → String
label_for ebay_fee_percent = "eBay fee"
label_for promoted_listing_percent = "Promoted Listings General"
label_for payoneer_fee_percent = "Payoneer fee"
label_for export_fee_percent = "Export fee"
label_for buffer_percent = "Buffer"
label_for misc_fixed = "Other miscellaneous charges"
label_for profit_margin_percent = "Profit margin"
label_for markup_percent = "Markup"
label_for custom_percent = "Custom percentage"
label_for custom_fixed = "Custom fixed charge"

abbrev pub is_percentage_component : ComponentKind → Bool
is_percentage_component misc_fixed = false
is_percentage_component custom_fixed = false
is_percentage_component _ = true

abbrev pub is_profit_margin : ComponentKind → Bool
is_profit_margin profit_margin_percent = true
is_profit_margin _ = false

abbrev pub is_markup : ComponentKind → Bool
is_markup markup_percent = true
is_markup _ = false

abbrev pub is_divide : Operator → Bool
is_divide divide = true
is_divide _ = false

abbrev pub is_scaling : Operator → Bool
is_scaling multiply = true
is_scaling divide = true
is_scaling _ = false

abbrev pub default_semantics : ComponentKind → Bool → CalculationType × CalculationBase
default_semantics profit_margin_percent legacy = (target_margin, selling_price)
default_semantics markup_percent legacy = (markup, base_cost)
default_semantics misc_fixed legacy = (fixed_cost, previous_total)
default_semantics custom_fixed legacy = (fixed_cost, previous_total)
default_semantics custom_percent true = (percentage_deduction, previous_total)
default_semantics _ _ = (percentage_deduction, selling_price)

abbrev pub preserves_sequence : Bool → ComponentKind → Operator → Bool
preserves_sequence legacy kind operator =
    legacy
    && is_percentage_component kind
    && not (is_profit_margin kind)
    && not (is_markup kind)
    && is_scaling operator

-- a ?? b
abbrev pub or_else : {A : Type 0} → A → Option A → A
or_else default none = default
or_else default (some a) = a

abbrev pub normalized : {W : Type 0} → Bool → ParsedComponent W → Component W
normalized legacy c = record {
  id = c.id;
  kind = c.kind;
  operator = c.operator;
  value = c.value;
  label = or_else (label_for c.kind) c.label;
  enabled = c.enabled;
  calculation_type = or_else (default_semantics c.kind legacy).0 c.calculation_type;
  calculation_base = some (
      or_else
        (if preserves_sequence legacy c.kind c.operator
          then previous_total
          else (default_semantics c.kind legacy).1)
        c.calculation_base);
}

-- What the schemas make of a formula that was normalized before.
abbrev pub reparsed : {W : Type 0} → Component W → ParsedComponent W
reparsed c = record {
  id = c.id;
  kind = c.kind;
  operator = c.operator;
  value = c.value;
  label = some c.label;
  enabled = c.enabled;
  calculation_type = some c.calculation_type;
  calculation_base = c.calculation_base;
}

abbrev pub reparsed_all : {W : Type 0} → List (Component W) → List (ParsedComponent W)
reparsed_all [] = []
reparsed_all (c ∷ cs) = reparsed c ∷ reparsed_all cs

abbrev pub check_type : CalculationType → ComponentKind → Result (Unit {0})
check_type target_margin kind =
    require (is_profit_margin kind) 500 "is not a target-margin component"
check_type markup kind = require (is_markup kind) 500 "is not a markup component"
check_type fixed_cost kind =
    require (not (is_percentage_component kind)) 500 "cannot be configured as a fixed cost"
check_type percentage_deduction kind =
    require (is_percentage_component kind) 500 "must be configured as a fixed cost"

module _ {W : Type 0} (is_zero : W → Bool) where
  unfoldable pub check_component : Component W → Result (Unit {0})
  check_component c = do
    require (not (is_divide c.operator && is_zero c.value)) 500
        "A pricing formula cannot divide by zero"
    check_type c.calculation_type c.kind

  abbrev pub when_checked : Component W → Result (Unit {0}) → Result (Component W)
  when_checked c (ok u) = ok c
  when_checked c (err e) = err e

  abbrev pub normalize_component : Bool → ParsedComponent W → Result (Component W)
  normalize_component legacy c =
      when_checked (normalized legacy c) (check_component (normalized legacy c))

  abbrev pub joined :
      Result (Component W) → Result (List (Component W)) → Result (List (Component W))
  joined (err e) rest = err e
  joined (ok c) (err e) = err e
  joined (ok c) (ok cs) = ok (c ∷ cs)

  -- The first list has the identifiers of the components before.
  unfoldable pub normalize_components :
      Bool → List ℕ → List (ParsedComponent W) → Result (List (Component W))
  normalize_components legacy ids [] = ok []
  normalize_components legacy ids (c ∷ cs) =
      let rest = normalize_components legacy (c.id ∷ ids) cs in
      if any (λ id. id == c.id) ids
      then fail 500 "Duplicate pricing formula component id"
      else joined (normalize_component legacy c) rest

  abbrev pub as_formula : Result (List (Component W)) → Result (Formula W)
  as_formula (ok components) = ok (record { components = components })
  as_formula (err e) = err e

  unfoldable pub normalize_bulk_pricing_formula : ParsedFormula W → Result (Formula W)
  normalize_bulk_pricing_formula formula =
      as_formula (normalize_components formula.is_legacy [] formula.components)
