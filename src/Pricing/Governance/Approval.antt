-- ===== src/Pricing/Governance/Approval.antt =====
-- `getApprovedPricingContext` and `assertApprovedListingPrice` of
-- apps/api/src/pricing-governance-service.ts: the check before a listing is prepared or published.
pub mod Laws
use ebay_pricing_intelligenc.Prelude.{
  ℕ, String, Bool, true, false, not, ◌&&◌, ◌||◌, Option, none, some, ltb, if◌then◌else◌, Result, ok,
  fail,
}
use text.Mathlib.Text.{◌==◌ as str_eq}
use ebay_pricing_intelligenc.Database.{Prisma}
use ebay_pricing_intelligenc.Schema.{PricingProposal, is_approval}
use ebay_pricing_intelligenc.Schema.Double.{Double}
use ebay_pricing_intelligenc.Schema.Store.{Store}
use ebay_pricing_intelligenc.Pricing.Governance.Proposals.{is_about}

pub record ApprovedPrice (W : Type 0) : Type 0 where
  pub proposal_id : ℕ
  pub approved_price : W
  pub currency : String
  pub below_floor : Bool
  pub decided_at : Option ℕ

-- `orderBy: { decidedAt: "desc" }`; PostgreSQL puts a null first.
abbrev pub decided_later : {W : Type 0} → PricingProposal W → PricingProposal W → Bool
decided_later p q = elim q.decided_at [
  | none ↦ false
  | some b ↦ elim p.decided_at [ none ↦ true | some a ↦ ltb b a ]
]

module _ {W : Type 0} ⦃d : Double W⦄ where
  -- Equal to the cent.
  unfoldable pub same_cents : W → W → Bool
  same_cents x y = d.eq (d.round (d.mul x (d.ratio 100 1))) (d.round (d.mul y (d.ratio 100 1)))

  context_of : PricingProposal W → Option (ApprovedPrice W)
  context_of p = elim p.approved_price [
    | none ↦ none
    | some price ↦ some (record {
      proposal_id = p.id;
      approved_price = price;
      currency = p.currency;
      below_floor = p.below_floor;
      decided_at = p.decided_at;
    })
  ]

module _ (db : Prisma) {W : Type 0} ⦃d : Double W⦄ where
  unfoldable pub get_approved_pricing_context : ℕ → ℕ → String → Store W → Option (ApprovedPrice W)
  unfolding context_of
  get_approved_pricing_context organization_id part_id marketplace s =
      elim (db.find_first_by decided_later
        (λ p. is_about organization_id part_id marketplace p && is_approval p.status) s.proposals) [
          | none ↦ none
          | some p ↦ context_of p
        ]

  unfoldable pub assert_approved_listing_price :
      ℕ → ℕ → String → Option W → String → Store W → Result (ApprovedPrice W)
  unfolding same_cents
  assert_approved_listing_price organization_id part_id marketplace price currency s =
      elim (get_approved_pricing_context organization_id part_id marketplace s) [
        | none ↦
            fail 409
              "Approve a current pricing proposal before preparing or publishing this listing"
        | some approval ↦ elim price [
          | none ↦
              fail 409 "The listing price must exactly match the current approved pricing proposal"
          | some amount ↦
              if not (same_cents amount approval.approved_price)
                || not (str_eq currency approval.currency)
              then fail 409
                  "The listing price must exactly match the current approved pricing proposal"
              else ok approval
        ]
      ]
