-- ===== src/Pricing/Governance/Proposals.antt =====
-- `createPricingProposal` of apps/api/src/pricing-governance-service.ts, which runs in the
-- transaction of a pricing job.
use ebay_pricing_intelligenc.Prelude.{
  ℕ, ◌+◌, String, Bool, false, not, ◌&&◌, Option, none, some, List, ◌==◌, if◌then◌else◌, is_some,
  Result, ok, ◌>>=◌,
}
use text.Mathlib.Text.{◌==◌ as str_eq}
use ebay_pricing_intelligenc.Database.{Prisma}
use ebay_pricing_intelligenc.Schema.{
  PricingRule, PricingProposal, ProposalStatus, pending, approved, superseded, is_current,
}
use ebay_pricing_intelligenc.Schema.Double.{Double}
use ebay_pricing_intelligenc.Schema.Store.{
  Store, InventoryItem, p2002, of_option, enqueue_outbox_event,
}
use ebay_pricing_intelligenc.Pricing.Governance.{calculate_governed_price, rule_values}

pub record ProposalInput (W : Type 0) : Type 0 where
  pub organization_id : ℕ
  pub part_id : ℕ
  pub pricing_job_item_id : ℕ
  pub marketplace : String
  pub market_recommended_price : W
  pub currency : String

-- The proposals for one part of an organization on one marketplace.
abbrev pub is_about : {W : Type 0} → ℕ → ℕ → String → PricingProposal W → Bool
is_about organization_id part_id marketplace p =
    p.organization_id == organization_id && p.part_id == part_id && str_eq p.marketplace marketplace

abbrev topic_of : ProposalStatus → String
topic_of approved = "pricing.proposal.approved"
topic_of _ = "pricing.proposal.created"

module _ (db : Prisma) {W : Type 0} ⦃d : Double W⦄ where
  inventory_cost : Option (InventoryItem W) → Option W
  inventory_cost none = none
  inventory_cost (some inventory) = some inventory.cost

  inventory_currency : Option (InventoryItem W) → Option String
  inventory_currency none = none
  inventory_currency (some inventory) = some inventory.currency

  new_proposal :
      ProposalInput W → PricingRule W → Option (InventoryItem W) → ℕ → ℕ → PricingProposal W
  unfolding inventory_cost inventory_currency
  new_proposal input rule inventory id now =
      let calculation =
        calculate_governed_price input.market_recommended_price input.currency
          (inventory_cost inventory) (inventory_currency inventory) rule in
      let auto_approved = not rule.require_approval && is_some calculation.floor_price in
      record {
        id = id;
        organization_id = input.organization_id;
        part_id = input.part_id;
        pricing_job_item_id = input.pricing_job_item_id;
        marketplace = input.marketplace;
        currency = input.currency;
        status = if auto_approved then approved else pending;
        market_recommended_price = calculation.market_recommended_price;
        cost_amount = inventory_cost inventory;
        floor_price = calculation.floor_price;
        proposed_price = calculation.proposed_price;
        approved_price = if auto_approved then some calculation.proposed_price else none;
        below_floor = false;
        floor_unavailable_reason = calculation.floor_unavailable_reason;
        decision_reason =
            if auto_approved
            then some "Automatically approved by organization pricing rule"
            else none;
        decided_by_id = none;
        decided_at = if auto_approved then some now else none;
      }

  -- What the part has proposed so far is superseded.
  supersede_current : ProposalInput W → List (PricingProposal W) → List (PricingProposal W)
  supersede_current input proposals =
      (db.update_many
        (λ p.
          is_about input.organization_id input.part_id input.marketplace p && is_current p.status)
        (λ p. record p { status = superseded }) proposals).0

  unfoldable pub create_pricing_proposal :
      ProposalInput W → ℕ → Store W → Result (PricingProposal W × Store W)
  unfolding new_proposal supersede_current enqueue_outbox_event
  create_pricing_proposal input now s =
      let rule = rule_values (db.find_first (λ r. r.0 == input.organization_id) s.rules) in
      let inventory = db.find_first (λ r. r.part_id == input.part_id) s.inventory in
      let proposal = new_proposal input rule inventory s.next_id now in
      do
        proposals ← of_option p2002 (
            db.create (λ x y. x.pricing_job_item_id == y.pricing_job_item_id) proposal
              (supersede_current input s.proposals))
        s' ←
            enqueue_outbox_event db input.organization_id (topic_of proposal.status) proposal.id now
              (record s { proposals = proposals; next_id = s.next_id + 1 })
        ok (proposal, s')
