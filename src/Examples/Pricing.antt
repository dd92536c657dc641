-- ===== src/Examples/Pricing.antt =====
-- A proposal is made, approved, and held against a listing.
use ebay_pricing_intelligenc.Prelude.{
  ◌≡◌, refl, true, [], ◌∷◌, some, Result, ok, err, Failure, arith, count, count-le-length, Option,
  String, Has, false, none,
}
use ebay_pricing_intelligenc.Database.Memory.{memory, memory-IsDocumented}
use ebay_pricing_intelligenc.Access.{owner}
use ebay_pricing_intelligenc.Schema.{PricingRule, PricingProposal}
use ebay_pricing_intelligenc.Schema.Double.{money, Fixed, fixed_double, Fixed-IsOrdered}
use ebay_pricing_intelligenc.Schema.Store.{Store}
use ebay_pricing_intelligenc.Pricing.Governance.{calculate_governed_price, margin_floor}
use ebay_pricing_intelligenc.Pricing.Governance.Proposals.{ProposalInput, create_pricing_proposal}
use ebay_pricing_intelligenc.Pricing.Governance.Decision.{
  Action, DecisionInput, decide_pricing_proposal,
}
use ebay_pricing_intelligenc.Pricing.Governance.Decision.Laws.{
  Outcome, decide_pricing_proposal-Outcome, decided_once,
}
use ebay_pricing_intelligenc.Pricing.Governance.Approval.{
  ApprovedPrice, same_cents, get_approved_pricing_context, assert_approved_listing_price,
}
use ebay_pricing_intelligenc.Pricing.Governance.Approval.Laws.{
  IsApprovalRow, assert_approved_listing_price_sound,
}
use ebay_pricing_intelligenc.Pricing.Governance.Floor.{
  IsCovered, calculate_governed_price-IsCovered,
}
use ebay_pricing_intelligenc.Pricing.Governance.Current.{
  IsSingle, is_current_about, create_pricing_proposal-IsSingle,
}
use ebay_pricing_intelligenc.Examples.Data.{empty, proposal, proposed, approved_proposal}

abbrev approval : DecisionInput Fixed
approval = record {
  organization_id = 9;
  user_id = 5;
  role = owner;
  proposal_id = 4;
  action = Action.approve;
  override_price = none;
  reason = none;
}

decide_pricing_proposal-Outcome_example :
    Outcome approval proposed proposed
      (decide_pricing_proposal memory (λ s. s) approval 60 proposed)
decide_pricing_proposal-Outcome_example =
    decide_pricing_proposal-Outcome memory memory-IsDocumented (λ s. s) approval 60 proposed

approves : (decide_pricing_proposal memory (λ s. s) approval 60 proposed).0 ≡ ok approved_proposal
unfolding decide_pricing_proposal
approves = refl

decided_once_example :
    (e : Failure) × (decide_pricing_proposal memory
        (λ s. s)
        approval
        70
        (decide_pricing_proposal memory (λ s. s) approval 60 proposed).1
      ≡ (err e, (decide_pricing_proposal memory (λ s. s) approval 60 proposed).1))
decided_once_example =
    decided_once memory memory-IsDocumented (λ s. s) (λ s. s) approval approval 60 70 proposed
      approved_proposal approves refl refl

abbrev approved_price : ApprovedPrice Fixed
approved_price = record {
  proposal_id = 4;
  approved_price = 300_000;
  currency = "USD";
  below_floor = false;
  decided_at = some 60;
}

abbrev approved_store : Store Fixed
approved_store = record empty { proposals = approved_proposal ∷ [] }

passes :
    assert_approved_listing_price memory 9 3 "EBAY_US" (some 300_000) "USD" approved_store
    ≡ ok approved_price
unfolding assert_approved_listing_price get_approved_pricing_context
passes = refl

assert_approved_listing_price_sound_example :
    (amount : Fixed) × (some 300_000 ≡ some amount)
    × (same_cents amount approved_price.approved_price ≡ true)
    × ("USD" ≡ approved_price.currency)
    × Has (IsApprovalRow 9 3 "EBAY_US" approved_price) approved_store.proposals
assert_approved_listing_price_sound_example =
    assert_approved_listing_price_sound memory memory-IsDocumented 9 3 "EBAY_US" (some 300_000)
      "USD" approved_store approved_price passes

fixed-stable : (x : Fixed) → money (money x) ≡ money x
unfolding money
fixed-stable x = ground arith

abbrev rule : PricingRule Fixed
rule = record {
  market_adjustment_percent = 0;
  minimum_margin_percent = 200_000;
  minimum_profit_amount = 100_000;
  require_approval = true;
}

floor_at :
    (calculate_governed_price 300_000 "USD" (some 100_000) (some "USD") rule).floor_price
    ≡ some 200_000
unfolding calculate_governed_price margin_floor money
floor_at = refl

calculate_governed_price-IsCovered_example :
    (c : Fixed) × (some 100_000 ≡ some c)
    × (◌≡◌ {A = Option String} (some "USD") (some "USD"))
    × IsCovered Fixed-IsOrdered fixed-stable 300_000 c rule 200_000
        (calculate_governed_price 300_000 "USD" (some 100_000) (some "USD") rule).proposed_price
calculate_governed_price-IsCovered_example =
    calculate_governed_price-IsCovered Fixed-IsOrdered fixed-stable 300_000 "USD" (some 100_000)
      (some "USD") rule 200_000 floor_at

abbrev priced_item : ProposalInput Fixed
priced_item = record {
  organization_id = 9;
  part_id = 3;
  pricing_job_item_id = 12;
  marketplace = "EBAY_US";
  market_recommended_price = 300_000;
  currency = "USD";
}

abbrev value_of : {A : Type 0} → A → Result A → A
value_of default (ok a) = a
value_of default (err e) = default

abbrev created : PricingProposal Fixed × Store Fixed
created = value_of (proposal, empty) (create_pricing_proposal memory priced_item 60 proposed)

creates : create_pricing_proposal memory priced_item 60 proposed ≡ ok created
unfolding create_pricing_proposal calculate_governed_price
creates = refl

proposed-IsSingle : IsSingle proposed.proposals
proposed-IsSingle o q m = count-le-length (is_current_about o q m) proposed.proposals

create_pricing_proposal-IsSingle_example :
    IsSingle created.1.proposals
    × (count (is_current_about 9 3 "EBAY_US") created.1.proposals ≡ 1)
    × (is_current_about 9 3 "EBAY_US" created.0 ≡ true)
create_pricing_proposal-IsSingle_example =
    create_pricing_proposal-IsSingle memory memory-IsDocumented priced_item 60 proposed created.1
      created.0 creates proposed-IsSingle
