-- ===== src/Pricing/Governance/Decision.antt =====
-- `decidePricingProposal` of apps/api/src/pricing-governance-service.ts.
pub mod Laws
use ebay_pricing_intelligenc.Prelude.{
  ℕ, ◌+◌, String, Bool, true, false, not, ◌&&◌, ◌||◌, Option, none, some, List, ◌==◌, if◌then◌else◌,
  is_some, Result, ok, err, fail, require, ◌>>=◌, ◌>>◌,
}
use text.Mathlib.Text.{◌==◌ as str_eq}
use ebay_pricing_intelligenc.Database.{Prisma}
use ebay_pricing_intelligenc.Access.{OrganizationRole, owner, admin}
use ebay_pricing_intelligenc.Schema.{
  PricingProposal, ProposalStatus, pending, approved, rejected, overridden, superseded, is_pending,
  AuditSeverity, info, warning, critical,
}
use ebay_pricing_intelligenc.Schema.Double.{Double, money}
use ebay_pricing_intelligenc.Schema.Store.{
  Store, p2025, of_option, record_audit_event, enqueue_outbox_event,
}

pub data Action : Type 0 where
  approve reject override : Action

-- `reason` is trimmed; a reason that is missing or blank is no reason.
pub record DecisionInput (W : Type 0) : Type 0 where
  pub organization_id : ℕ
  pub user_id : ℕ
  pub role : OrganizationRole
  pub proposal_id : ℕ
  pub action : Action
  pub override_price : Option W
  pub reason : Option String

abbrev is_reject : Action → Bool
is_reject reject = true
is_reject _ = false

abbrev is_approve : Action → Bool
is_approve approve = true
is_approve _ = false

abbrev is_override : Action → Bool
is_override override = true
is_override _ = false

abbrev pub decides_below_floor : OrganizationRole → Bool
decides_below_floor owner = true
decides_below_floor admin = true
decides_below_floor _ = false

abbrev pub is_given : Option String → Bool
is_given none = false
is_given (some reason) = not (str_eq reason "")

abbrev status_of : Action → ProposalStatus
status_of approve = approved
status_of reject = rejected
status_of override = overridden

abbrev topic_of : Action → String
topic_of approve = "pricing.proposal.approved"
topic_of reject = "pricing.proposal.rejected"
topic_of override = "pricing.proposal.overridden"

-- What the transaction writes.
pub record Ruling (W : Type 0) : Type 0 where
  pub status : ProposalStatus
  pub approved_price : Option W
  pub below_floor : Bool

module _ {W : Type 0} ⦃d : Double W⦄ where
  abbrev is_positive : Option W → Bool
  is_positive none = false
  is_positive (some price) = d.truthy price && not (d.le price (d.ratio 0 1))

  approved_price_of : DecisionInput W → PricingProposal W → Option W
  approved_price_of input p = elim input.action [
    | approve ↦ some p.proposed_price
    | override ↦ elim input.override_price [ none ↦ none | some price ↦ some (money price) ]
    | reject ↦ none
  ]

  is_below : Option W → Option W → Bool
  is_below (some price) (some floor) = d.lt price floor
  is_below _ _ = false

  -- The checks on the proposal that was read.
  unfoldable pub rule_on : DecisionInput W → PricingProposal W → Result (Ruling W)
  unfolding approved_price_of is_below
  rule_on input p = do
    require (is_pending p.status) 409 "Only a pending pricing proposal can be decided"
    require (is_reject input.action || is_some p.floor_price) 409
        "Set an inventory cost in the same currency before approving this proposal"
    require (not (is_reject input.action) || is_given input.reason) 400
        "A rejection reason is required"
    require
        (not (is_override input.action)
          || is_positive input.override_price && is_given input.reason)
        400 "A positive override price and reason are required"
    let price = approved_price_of input p
    let below = is_below price p.floor_price
    require (not below || decides_below_floor input.role) 403
        "Only an organization owner or admin can approve a below-floor override"
    ok (record { status = status_of input.action; approved_price = price; below_floor = below })

abbrev severity_of : Bool → Action → AuditSeverity
severity_of true action = critical
severity_of false reject = warning
severity_of false _ = info

abbrev reason_of : Action → Option String → Option String
reason_of action reason =
    if is_given reason
    then reason
    else if is_approve action
    then some "Approved proposed price"
    else none

module _ (db : Prisma) {W : Type 0} ⦃d : Double W⦄ where
  -- The callback of the transaction.
  unfoldable pub decision_tx :
      DecisionInput W → ℕ → Ruling W → ℕ → Store W → Result (PricingProposal W × Store W)
  unfolding record_audit_event enqueue_outbox_event
  decision_tx input id ruling now s =
      let updated =
        db.update_many
          (λ p. p.id == id && p.organization_id == input.organization_id && is_pending p.status)
          (λ p. record p {
            status = ruling.status;
            approved_price = ruling.approved_price;
            below_floor = ruling.below_floor;
            decision_reason = reason_of input.action input.reason;
            decided_by_id = some input.user_id;
            decided_at = some now;
          })
          s.proposals in
      do
        require (not (updated.1 == 0)) 409 "Pricing proposal changed; reload it before deciding"
        s₁ ←
            record_audit_event db
              (record {
                organization_id = input.organization_id;
                actor_user_id = some input.user_id;
                action = topic_of input.action;
                resource_id = id;
                severity = severity_of ruling.below_floor input.action;
              })
              (record s { proposals = updated.0 })
        s₂ ← enqueue_outbox_event db input.organization_id (topic_of input.action) id now s₁
        decided ← of_option p2025 (db.find_first (λ p. p.id == id) s₂.proposals)
        ok (decided, s₂)

  -- `meanwhile` is what other requests do between the read and the transaction.
  unfoldable pub decide_pricing_proposal :
      (Store W → Store W) → DecisionInput W → ℕ → Store W → Result (PricingProposal W) × Store W
  unfolding rule_on decision_tx
  decide_pricing_proposal meanwhile input now s =
      elim (db.find_first
        (λ p. p.id == input.proposal_id && p.organization_id == input.organization_id)
        s.proposals) [
          | none ↦ (fail 404 "Pricing proposal not found", s)
          | some p ↦ elim (rule_on input p) [
            | err e ↦ (err e, s)
            | ok ruling ↦ db.transaction (decision_tx input p.id ruling now) (meanwhile s)
          ]
        ]
