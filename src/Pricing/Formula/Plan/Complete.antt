-- ===== src/Pricing/Formula/Plan/Complete.antt =====
-- The components of a formula and those of its plan: apps/api/src/bulk-pricing-formula.ts.
use ebay_pricing_intelligenc.Prelude.{
  ℕ, ◌+◌, ◌≡◌, sym, ap, Bool, true, false, not, ◌&&◌, List, [], ◌∷◌, ◌++◌, Option, none, Result, ok,
  err, require, arith, count, count-append, select, >>=-eq-ok, Bool-cases, inl, inr, if◌then◌else◌,
}
use ebay_pricing_intelligenc.Schema.Double.{Double, money}
use ebay_pricing_intelligenc.Pricing.Formula.{
  CalculationType, fixed_cost, percentage_deduction, target_margin, markup, Component,
}
use ebay_pricing_intelligenc.Pricing.Formula.Plan.{
  is_target, is_target_margin, Context, AffineAmount, Entry, FeeExpression, Totals, is_add,
  is_selling_price, is_previous_total, is_ebay_payout, is_ebay_specific, cost_entry, markup_entry,
  with_cost, with_target, with_markup, markup_base, add_component, add_components,
  external_base_expression, fee_expression, fee_expressions_for, less_fees, payout_fees, all_fees,
  on_selling_price,
}

module _ {W : Type 0} (q : ℕ → Bool) where
  abbrev pub is_counted : Component W → Bool
  is_counted c = q c.id

  abbrev pub entries : List (Entry W) → ℕ
  entries = count (λ e. q e.component.id)

  abbrev pub fees : List (FeeExpression W) → ℕ
  fees = count (λ fee. q fee.component.id)

  -- The components that the totals hold so far.
  abbrev pub held : Totals W → ℕ
  held t = entries t.fixed_breakdown + entries t.markup_breakdown + count is_counted t.external_fees

  abbrev pub targets : List (Component W) → ℕ
  targets = count (λ c. is_target c && q c.id)

  abbrev pub enabled : List (Component W) → ℕ
  enabled = count (λ c. c.enabled && q c.id)

  abbrev pub one : Component W → ℕ
  one c = if q c.id then 1 else 0

  entries-snoc :
      (es : List (Entry W)) (e : Entry W) → entries (es ++ e ∷ []) ≡ entries es + one e.component
  entries-snoc es e = ground (arith, count-append (λ (x : Entry W). q x.component.id) es (e ∷ []))

  components-snoc :
      (cs : List (Component W)) (c : Component W)
      → count is_counted (cs ++ c ∷ []) ≡ count is_counted cs + one c
  components-snoc cs c = ground (arith, count-append is_counted cs (c ∷ []))

abbrev totals_in : {W : Type 0} → Totals W → Result (Totals W) → Totals W
totals_in default (ok t) = t
totals_in default (err e) = default

module _ {W : Type 0} ⦃d : Double W⦄ (q : ℕ → Bool) where
  -- A step adds its component to one of the three lists, or, as a target margin, to none.
  with_cost-held :
      (c : Component W) (t t' : Totals W) (r : Result W)
      → with_cost c t r ≡ ok t'
      → held q t' ≡ held q t + one q c
  with_cost-held c t t' (err x) e = ground (arith, e)
  with_cost-held c t t' (ok total) e = elim (Bool-cases (d.lt (money total) (d.ratio 0 1))) [
    | inl below ↦ ground (arith, below, e)
    | inr above ↦
        let new = ap (λ r. held q (totals_in t r)) (rw above at e) in
        omega (
          arith,
          new,
          entries-snoc q t.fixed_breakdown (cost_entry c t.previous_total (money total)),
        )
  ]

  with_target-held :
      (c : Component W) (t t' : Totals W) → with_target c t ≡ ok t' → held q t' ≡ held q t
  with_target-held c t t' e =
      let (_, _, e1) =
        >>=-eq-ok
          (require (is_add c.operator && is_selling_price c.calculation_base) 500
            "Profit margin must use Add and Selling price as its base")
          _ e in
      let (_, _, e2) =
        >>=-eq-ok
          (require (not (d.le (d.ratio 100 1) c.value)) 500 "Profit margin must be less than 100%")
          _ e1 in
      sym (ap (λ r. held q (totals_in t r)) e2)

  with_markup-held :
      (c : Component W) (t : Totals W) (base : W)
      → held q (with_markup c t base) ≡ held q t + one q c
  with_markup-held c t base = omega (arith, entries-snoc q t.markup_breakdown (markup_entry c base))

  add_component-held :
      (cost_price : W) (context : Context W) (c : Component W) (t t' : Totals W)
      (kind : CalculationType)
      → add_component cost_price context c t kind ≡ ok t'
      → held q t' + (if is_target_margin kind then one q c else 0) ≡ held q t + one q c
  add_component-held cost_price context c t t' fixed_cost e =
      omega (arith, with_cost-held c t t' _ e)
  add_component-held cost_price context c t t' target_margin e =
      omega (arith, with_target-held c t t' e)
  add_component-held cost_price context c t t' markup e =
      let (_, _, e1) =
        >>=-eq-ok (require (is_add c.operator) 500 "Markup must use the Add operation") _ e in
      let (base, _, e2) =
        >>=-eq-ok
          (markup_base c.calculation_base cost_price t.previous_total context.custom_base_amount) _
          e1 in
      omega (arith, ap (λ r. held q (totals_in t r)) e2, with_markup-held c t base)
  add_component-held cost_price context c t t' percentage_deduction e =
      elim (Bool-cases (is_previous_total c.calculation_base)) [
        | inl sequential ↦ omega (arith, with_cost-held c t t' _ (rw sequential at e))
        | inr external ↦ omega (
          arith,
          ap (λ r. held q (totals_in t r)) (rw external at e),
          components-snoc q t.external_fees c,
        )
      ]

  add_if-held :
      (enabled' : Bool) (cost_price : W) (context : Context W) (c : Component W) (t t' : Totals W)
      → (if enabled' then add_component cost_price context c t c.calculation_type else ok t) ≡ ok t'
      → held q t' + (if (enabled' && is_target_margin c.calculation_type) && q c.id then 1 else 0)
        ≡ held q t + (if enabled' && q c.id then 1 else 0)
  add_if-held true cost_price context c t t' e =
      ground (arith, add_component-held cost_price context c t t' c.calculation_type e)
  add_if-held false cost_price context c t t' e = omega (arith, ap (λ r. held q (totals_in t r)) e)

  pub add_components-held :
      (cost_price : W) (context : Context W) (cs : List (Component W)) (t t' : Totals W)
      → add_components cost_price context cs t ≡ ok t'
      → held q t' + targets q cs ≡ held q t + enabled q cs
  unfolding add_components
  add_components-held cost_price context [] t t' e =
      omega (arith, ap (λ r. held q (totals_in t r)) e)
  add_components-held cost_price context (c ∷ cs) t t' e =
      let (t1, first, rest) =
        >>=-eq-ok
          (if c.enabled then add_component cost_price context c t c.calculation_type else ok t)
          (λ t1. add_components cost_price context cs t1) e in
      omega (
        arith,
        add_if-held c.enabled cost_price context c t t1 first,
        add_components-held cost_price context cs t1 t' rest,
      )

  abbrev fees_in : Result (List (FeeExpression W)) → List (FeeExpression W)
  fees_in (ok list) = list
  fees_in (err e) = []

  fee_expressions_for-fees :
      (cost_price : W) (context : Context W) (payout : Option (AffineAmount W))
      (cs : List (Component W)) (list : List (FeeExpression W))
      → fee_expressions_for cost_price context payout cs ≡ ok list
      → fees q list ≡ count (is_counted q) cs
  unfolding fee_expressions_for
  fee_expressions_for-fees cost_price context payout [] list e =
      sym (ap (λ r. fees q (fees_in r)) e)
  fee_expressions_for-fees cost_price context payout (c ∷ cs) list e =
      let (base, _, e1) =
        >>=-eq-ok (external_base_expression c.calculation_base cost_price context payout) _ e in
      let (expression, _, e2) = >>=-eq-ok (fee_expression c base c.operator) _ e1 in
      let (rest, others, e3) = >>=-eq-ok (fee_expressions_for cost_price context payout cs) _ e2 in
      omega (
        arith,
        ap (λ r. fees q (fees_in r)) e3,
        fee_expressions_for-fees cost_price context payout cs rest others,
      )

  payout_fees-fees :
      (payout : AffineAmount W) (cs : List (Component W)) (list : List (FeeExpression W))
      → payout_fees payout cs ≡ ok list
      → fees q list ≡ count (is_counted q) cs
  unfolding payout_fees
  payout_fees-fees payout [] list e = sym (ap (λ r. fees q (fees_in r)) e)
  payout_fees-fees payout (c ∷ cs) list e =
      let (_, _, e1) =
        >>=-eq-ok
          (require (not (is_ebay_specific c.kind)) 500 "cannot use eBay payout as its own base") _
          e in
      let (expression, _, e2) = >>=-eq-ok (fee_expression c payout c.operator) _ e1 in
      let (rest, others, e3) = >>=-eq-ok (payout_fees payout cs) _ e2 in
      omega (arith, ap (λ r. fees q (fees_in r)) e3, payout_fees-fees payout cs rest others)

  -- The two filters share the components out.
  count-shared :
      (cs : List (Component W))
      → count (is_counted q) (select (λ c. not (is_ebay_payout c.calculation_base)) cs)
          + count (is_counted q) (select (λ c. is_ebay_payout c.calculation_base) cs)
        ≡ count (is_counted q) cs
  count-shared [] = omega arith
  count-shared (c ∷ cs) = elim (Bool-cases (is_ebay_payout c.calculation_base)) [
    | inl payout ↦ rw payout (omega (arith, count-shared cs))
    | inr other ↦ rw other (omega (arith, count-shared cs))
  ]

  pub all_fees-fees :
      (cost_price : W) (context : Context W) (cs : List (Component W))
      (list : List (FeeExpression W))
      → all_fees cost_price context cs ≡ ok list
      → fees q list ≡ count (is_counted q) cs
  unfolding all_fees
  all_fees-fees cost_price context cs list e =
      let (first, f1, e1) =
        >>=-eq-ok
          (fee_expressions_for cost_price context none
            (select (λ c. not (is_ebay_payout c.calculation_base)) cs))
          _ e in
      let (second, f2, e2) =
        >>=-eq-ok
          (payout_fees
            (less_fees (on_selling_price context.buyer_shipping_charge)
              (select (λ fee. is_ebay_specific fee.component.kind) first))
            (select (λ c. is_ebay_payout c.calculation_base) cs))
          _ e1 in
      omega (
        arith,
        ap (λ r. fees q (fees_in r)) e2,
        count-append (λ (fee : FeeExpression W). q fee.component.id) first second,
        fee_expressions_for-fees cost_price context none _ first f1,
        payout_fees-fees _ _ second f2,
        count-shared cs,
      )
