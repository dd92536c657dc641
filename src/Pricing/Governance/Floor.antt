-- ===== src/Pricing/Governance/Floor.antt =====
-- The floor under a proposed price.
use ebay_pricing_intelligenc.Prelude.{
  ◌≡◌, refl, ap, subst, String, Option, none, some, inl, inr, Bool-cases,
}
use mathlib.Core.Option.{some-injective}
use text.Mathlib.Text.{◌==◌ as str_eq}
use text.Mathlib.TextEquality.{eq_iff}
use ebay_pricing_intelligenc.Schema.{PricingRule}
use ebay_pricing_intelligenc.Schema.Double.{Double, IsOrdered, ◌≼◌, money}
use ebay_pricing_intelligenc.Pricing.Governance.{
  adjusted_price, margin_floor, without_floor, with_floor, calculate_governed_price,
}

module _ {W : Type 0} ⦃d : Double W⦄ (o : IsOrdered W)
    (stable : (x : W) → money (money x) ≡ money x) where
  -- What a rule promises of a price: cost and least profit, the margin, the adjusted market price.
  abbrev pub IsCovered : W → W → PricingRule W → W → W → Type 0
  IsCovered market cost rule floor price =
      (floor ≼ price)
      × (money (d.add cost rule.minimum_profit_amount) ≼ floor)
      × (money (margin_floor cost rule) ≼ floor)
      × (adjusted_price market rule ≼ price)

  le-money_of_stable : (x y : W) → money x ≡ x → x ≼ y → x ≼ money y
  le-money_of_stable x y e h = subst (λ (z : W). z ≼ money y) e (o.money_mono x y h)

  adjusted_price-stable :
      (market : W) (rule : PricingRule W)
      → money (adjusted_price market rule) ≡ adjusted_price market rule
  unfolding adjusted_price
  adjusted_price-stable market rule = stable _

  with_floor-IsCovered :
      (market cost : W) (rule : PricingRule W) (floor : W)
      → (with_floor market cost rule).floor_price ≡ some floor
      → IsCovered market cost rule floor (with_floor market cost rule).proposed_price
  unfolding with_floor
  with_floor-IsCovered market cost rule floor e =
      subst (λ (f : W). IsCovered market cost rule f (with_floor market cost rule).proposed_price)
        (some-injective _ _ e)
        (
          le-money_of_stable _ _ (stable _) (o.le-max_right _ _),
          o.money_mono _ _ (o.le-max_left _ _),
          o.money_mono _ _ (o.le-max_right _ _),
          le-money_of_stable _ _ (adjusted_price-stable market rule) (o.le-max_left _ _),
        )

  -- There is a floor only if the cost is known in the currency of the market. Then the floor covers
  -- the cost with the least profit and the margin, and the proposed price lies at or above the
  -- floor and the adjusted market price (all to the cent).
  pub calculate_governed_price-IsCovered :
      (market : W) (currency : String) (cost : Option W) (cost_currency : Option String)
      (rule : PricingRule W) (floor : W)
      → (calculate_governed_price market currency cost cost_currency rule).floor_price ≡ some floor
      → (c : W) × (cost ≡ some c)
        × (cost_currency ≡ some currency)
        × IsCovered market c rule floor
            (calculate_governed_price market currency cost cost_currency rule).proposed_price
  unfolding calculate_governed_price
  calculate_governed_price-IsCovered market currency none cc' rule floor e = cc
  calculate_governed_price-IsCovered market currency (some c) none rule floor e = cc
  calculate_governed_price-IsCovered market currency (some c) (some cur) rule floor e =
      elim (Bool-cases (str_eq cur currency)) [
        | inl same ↦ (
          c,
          refl,
          ap some ((eq_iff cur currency).0 same),
          rw same (with_floor-IsCovered market c rule floor (rw same at e)),
        )
        | inr other ↦
            let e' : (without_floor market rule "COST_CURRENCY_MISMATCH").floor_price ≡ some floor =
              rw other at e in
            cc
      ]
