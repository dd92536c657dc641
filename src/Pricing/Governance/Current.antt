-- ===== src/Pricing/Governance/Current.antt =====
-- The current proposals of a part: `createPricingProposal` of
-- apps/api/src/pricing-governance-service.ts.
use ebay_pricing_intelligenc.Prelude.{
  ℕ, ◌+◌, ◌≤◌, ◌≡◌, refl, ap, String, Bool, true, ◌&&◌, List, [], ◌∷◌, ◌++◌, inl, inr, ok,
  if◌then◌else◌, arith, Bool-cases, revise, count, count-append, count-revise_le,
}
use text.Mathlib.TextEquality.{eq_iff}
use ebay_pricing_intelligenc.Database.{Prisma, IsDocumented}
use ebay_pricing_intelligenc.Database.Memory.{memory, of_memory}
use ebay_pricing_intelligenc.Schema.{PricingProposal, superseded, is_current}
use ebay_pricing_intelligenc.Schema.Double.{Double}
use ebay_pricing_intelligenc.Schema.Store.{Store}
use ebay_pricing_intelligenc.Schema.Store.Writes.{writes}
use ebay_pricing_intelligenc.Pricing.Governance.Proposals.{
  ProposalInput, is_about, create_pricing_proposal,
}

module _ {W : Type 0} where
  abbrev pub is_current_about : ℕ → ℕ → String → PricingProposal W → Bool
  is_current_about o p m q = is_about o p m q && is_current q.status

  -- The invariant.
  abbrev pub IsSingle : List (PricingProposal W) → Type 0
  IsSingle rows = (o p : ℕ) (m : String) → count (is_current_about o p m) rows ≤ 1

  abbrev supersede : PricingProposal W → PricingProposal W
  supersede q = record q { status = superseded }

  count-supersede_self :
      (o p : ℕ) (m : String) (rows : List (PricingProposal W))
      → count (is_current_about o p m) (revise (is_current_about o p m) supersede rows) ≡ 0
  count-supersede_self o p m [] = refl
  count-supersede_self o p m (q ∷ qs) = ground (arith, count-supersede_self o p m qs)

  count-supersede_le :
      (o p o' p' : ℕ) (m m' : String) (rows : List (PricingProposal W))
      → count (is_current_about o p m) (revise (is_current_about o' p' m') supersede rows)
        ≤ count (is_current_about o p m) rows
  count-supersede_le o p o' p' m m' rows =
      count-revise_le (is_current_about o p m) (is_current_about o' p' m') supersede rows
        (λ x h k. ground arith)

module _ {W : Type 0} ⦃d : Double W⦄ where
  create_pricing_proposal_writes :
      (input : ProposalInput W) (now : ℕ) (s s' : Store W) (p : PricingProposal W)
      → create_pricing_proposal memory input now s ≡ ok (p, s')
      → (s'.proposals
          ≡ revise
              (is_current_about input.organization_id input.part_id input.marketplace)
              supersede
              s.proposals
            ++ p ∷ [])
        × (p.organization_id ≡ input.organization_id)
        × (p.part_id ≡ input.part_id)
        × (p.marketplace ≡ input.marketplace)
        × (is_current p.status ≡ true)
  unfolding create_pricing_proposal
  create_pricing_proposal_writes input now s s' p e =
      let e' = simp writes at e in
      (ground arith, ground arith, ground arith, ground arith, ground arith)

  created_current :
      (input : ProposalInput W) (p : PricingProposal W)
      → p.organization_id ≡ input.organization_id
      → p.part_id ≡ input.part_id
      → p.marketplace ≡ input.marketplace
      → is_current p.status ≡ true
      → is_current_about input.organization_id input.part_id input.marketplace p ≡ true
  created_current input p org part market current =
      let same = (eq_iff p.marketplace input.marketplace).1 market in ground arith

  count-created :
      (input : ProposalInput W) (p : PricingProposal W) (rows : List (PricingProposal W))
      → is_current_about input.organization_id input.part_id input.marketplace p ≡ true
      → count (is_current_about input.organization_id input.part_id input.marketplace) (
          revise
            (is_current_about input.organization_id input.part_id input.marketplace)
            supersede
            rows
          ++ p ∷ [])
        ≡ 1
  count-created input p rows h = omega (
    arith,
    count-append (is_current_about input.organization_id input.part_id input.marketplace)
        (revise (is_current_about input.organization_id input.part_id input.marketplace) supersede
          rows)
        (p ∷ []),
    count-supersede_self input.organization_id input.part_id input.marketplace rows,
    ap (λ (b : Bool). (if b then 1 else 0) + 0) h,
  )

  created-IsSingle :
      (input : ProposalInput W) (p : PricingProposal W) (rows : List (PricingProposal W))
      → p.organization_id ≡ input.organization_id
      → p.part_id ≡ input.part_id
      → p.marketplace ≡ input.marketplace
      → is_current p.status ≡ true
      → IsSingle rows
      → IsSingle (
          revise
            (is_current_about input.organization_id input.part_id input.marketplace)
            supersede
            rows
          ++ p ∷ [])
  created-IsSingle input p rows org part market current h o q m =
      rw
        (count-append (is_current_about o q m)
          (revise (is_current_about input.organization_id input.part_id input.marketplace) supersede
            rows)
          (p ∷ []))
        (elim (Bool-cases (is_about o q m p)) [
          | inl same ↦
              let same_org : p.organization_id ≡ o = ground arith in
              let same_part : p.part_id ≡ q = ground arith in
              let same_market : p.marketplace ≡ m = (eq_iff _ _).0 (ground arith) in
              rw
                (
                  ← same_org,
                  ← same_part,
                  ← same_market,
                  org,
                  part,
                  market,
                  count-supersede_self input.organization_id input.part_id input.marketplace rows,
                )
                (ground arith)
          | inr other ↦ ground (
            arith,
            h o q m,
            count-supersede_le o q input.organization_id input.part_id m input.marketplace rows,
          )
        ])

  -- Creating a proposal keeps at most one current proposal for each organization, part and
  -- marketplace; the new one is current, and is the only one for its own.
  pub create_pricing_proposal-IsSingle :
      (db : Prisma)
      → IsDocumented db
      → (input : ProposalInput W) (now : ℕ) (s s' : Store W) (p : PricingProposal W)
      → create_pricing_proposal db input now s ≡ ok (p, s')
      → IsSingle s.proposals
      → IsSingle s'.proposals
        × (count
              (is_current_about input.organization_id input.part_id input.marketplace)
              s'.proposals
            ≡ 1)
        × (is_current_about input.organization_id input.part_id input.marketplace p ≡ true)
  create_pricing_proposal-IsSingle = of_memory _ (λ input now s s' p e h.
      let (rows, org, part, market, current) = create_pricing_proposal_writes input now s s' p e in
      (
        rw rows (created-IsSingle input p s.proposals org part market current h),
        rw rows
            (count-created input p s.proposals (created_current input p org part market current)),
        created_current input p org part market current,
      ))
