-- ===== src/Pricing/Governance.antt =====
-- apps/api/src/pricing-governance-service.ts: the price that an organization's rule proposes, and
-- the decision on it. The database keeps a price in cents, as `money` leaves it.
pub mod Proposals
pub mod Decision
pub mod Approval
pub mod Floor
pub mod Current
use ebay_pricing_intelligenc.Prelude.{
  ℕ, ◌+◌, String, Bool, true, false, not, ◌&&◌, ◌||◌, Option, none, some, List, [], ◌∷◌, ◌==◌, ltb,
  if◌then◌else◌, is_some, Result, ok, err, fail, require, ◌>>=◌, ◌>>◌,
}
use text.Mathlib.Text.{◌==◌ as str_eq}
use ebay_pricing_intelligenc.Database.{Prisma}
use ebay_pricing_intelligenc.Access.{OrganizationRole, owner, admin}
use ebay_pricing_intelligenc.Schema.{
  PricingRule, PricingProposal, ProposalStatus, pending, approved, rejected, overridden, superseded,
  is_pending, is_current, is_approval, AuditSeverity, info, warning, critical,
}
use ebay_pricing_intelligenc.Schema.Double.{Double, money}
use ebay_pricing_intelligenc.Schema.Store.{
  Store, InventoryItem, p2002, p2025, of_option, record_audit_event, enqueue_outbox_event,
}

-- interface PricingCalculation
pub record PricingCalculation (W : Type 0) : Type 0 where
  pub market_recommended_price : W
  pub floor_price : Option W
  pub proposed_price : W
  pub floor_unavailable_reason : Option String

module _ {W : Type 0} ⦃d : Double W⦄ where
  default_pricing_rule : PricingRule W
  default_pricing_rule = record {
    market_adjustment_percent = d.ratio 0 1;
    minimum_margin_percent = d.ratio 20 1;
    minimum_profit_amount = d.ratio 10 1;
    require_approval = true;
  }

  -- market * (1 + adjustment / 100), to the cent
  unfoldable pub adjusted_price : W → PricingRule W → W
  adjusted_price market rule =
      money
        (d.mul market (d.add (d.ratio 1 1) (d.div rule.market_adjustment_percent (d.ratio 100 1))))

  unfoldable pub margin_floor : W → PricingRule W → W
  margin_floor cost rule =
      if d.le (d.ratio 100 1) rule.minimum_margin_percent
      then d.infinity
      else d.div cost (d.sub (d.ratio 1 1) (d.div rule.minimum_margin_percent (d.ratio 100 1)))

  without_floor : W → PricingRule W → String → PricingCalculation W
  without_floor market rule reason = record {
    market_recommended_price = money market;
    floor_price = none;
    proposed_price = d.max (d.ratio 1 100) (adjusted_price market rule);
    floor_unavailable_reason = some reason;
  }

  with_floor : W → W → PricingRule W → PricingCalculation W
  with_floor market cost rule =
      let floor = money (d.max (d.add cost rule.minimum_profit_amount) (margin_floor cost rule)) in
      record {
        market_recommended_price = money market;
        floor_price = some floor;
        proposed_price = money (d.max (adjusted_price market rule) floor);
        floor_unavailable_reason = none;
      }

  unfoldable pub calculate_governed_price :
      W → String → Option W → Option String → PricingRule W → PricingCalculation W
  unfolding without_floor with_floor
  calculate_governed_price market market_currency none cost_currency rule =
      without_floor market rule "INVENTORY_COST_MISSING"
  calculate_governed_price market market_currency (some cost) none rule =
      without_floor market rule "INVENTORY_COST_MISSING"
  calculate_governed_price market market_currency (some cost) (some cost_currency) rule =
      if not (str_eq cost_currency market_currency)
      then without_floor market rule "COST_CURRENCY_MISMATCH"
      else with_floor market cost rule

  -- `ruleValues`
  pub rule_values : Option (ℕ × PricingRule W) → PricingRule W
  unfolding default_pricing_rule
  rule_values none = default_pricing_rule
  rule_values (some (organization_id, rule)) = rule
