-- ===== src/Pricing/Governance/Approval/Laws.antt =====
-- What a listing price that passes the check rests on.
use ebay_pricing_intelligenc.Prelude.{
  ℕ, ◌≡◌, refl, sym, subst, ap, ◌∙◌, String, Bool, true, ◌&&◌, Option, none, some, List, [], ◌∷◌,
  inl, inr, ok, arith, Bool-cases, Option-cases, Has, Has-select, Has-map, select,
}
use mathlib.Core.Option.{some-injective}
use text.Mathlib.Text.{◌==◌ as str_eq}
use text.Mathlib.TextEquality.{eq_iff}
use ebay_pricing_intelligenc.Database.{Prisma, IsDocumented, first_by}
use ebay_pricing_intelligenc.Database.Memory.{memory, of_memory}
use ebay_pricing_intelligenc.Schema.{PricingProposal, is_approval}
use ebay_pricing_intelligenc.Schema.Double.{Double}
use ebay_pricing_intelligenc.Schema.Store.{Store}
use ebay_pricing_intelligenc.Pricing.Governance.Proposals.{is_about}
use ebay_pricing_intelligenc.Pricing.Governance.Approval.{
  ApprovedPrice, decided_later, context_of, get_approved_pricing_context, same_cents,
  assert_approved_listing_price,
}

module _ {Row : Type 0} where
  Has-first_by :
      (P : Row → Type 0) (before : Row → Row → Bool) (rows : List Row) (x : Row)
      → first_by before rows ≡ some x
      → P x
      → Has P rows
  Has-first_by P before [] x e h = cc
  Has-first_by P before (y ∷ ys) x e h = elim (Option-cases (first_by before ys)) [
    | inl last ↦ inl (subst P (sym (some-injective _ _ (rw last at e))) h)
    | inr (z, later) ↦ elim (Bool-cases (before z y)) [
      | inl first ↦
          let same : z ≡ x = some-injective _ _ (rw (later, first) at e) in
          inr (Has-first_by P before ys x (later ∙ ap some same) h)
      | inr here ↦ inl (subst P (sym (some-injective _ _ (rw (later, here) at e))) h)
    ]
  ]

module _ {W : Type 0} ⦃d : Double W⦄ where
  -- The row of the approval.
  abbrev pub IsApprovalRow : ℕ → ℕ → String → ApprovedPrice W → PricingProposal W → Type 0
  IsApprovalRow organization_id part_id marketplace a q =
      ((is_about organization_id part_id marketplace q && is_approval q.status) ≡ true)
      × (q.id ≡ a.proposal_id)
      × (q.approved_price ≡ some a.approved_price)
      × (q.currency ≡ a.currency)
      × (q.below_floor ≡ a.below_floor)

  context_of_lem :
      (q : PricingProposal W) (a : ApprovedPrice W)
      → context_of q ≡ some a
      → (q.id ≡ a.proposal_id)
        × (q.approved_price ≡ some a.approved_price)
        × (q.currency ≡ a.currency)
        × (q.below_floor ≡ a.below_floor)
  unfolding context_of
  context_of_lem q a e = (ground arith, ground arith, ground arith, ground arith)

  context_rests_on :
      (organization_id part_id : ℕ) (marketplace : String) (s : Store W) (a : ApprovedPrice W)
      → get_approved_pricing_context memory organization_id part_id marketplace s ≡ some a
      → Has (IsApprovalRow organization_id part_id marketplace a) s.proposals
  unfolding get_approved_pricing_context
  context_rests_on organization_id part_id marketplace s a e =
      let passes : PricingProposal W → Bool =
        λ p. is_about organization_id part_id marketplace p && is_approval p.status in
      elim (Option-cases (first_by decided_later (select passes s.proposals))) [
        | inl absent ↦
            let bad : ◌≡◌ {A = Option (ApprovedPrice W)} none (some a) =
              rw (absent, get_approved_pricing_context) at e in
            cc
        | inr (q, found) ↦
            let facts = context_of_lem q a (rw (found, get_approved_pricing_context) at e) in
            Has-map _ (IsApprovalRow organization_id part_id marketplace a) s.proposals
              (λ x h. (h.1, h.0.0, h.0.1, h.0.2, h.0.3))
              (Has-select
                (λ x.
                  (x.id ≡ a.proposal_id)
                  × (x.approved_price ≡ some a.approved_price)
                  × (x.currency ≡ a.currency)
                  × (x.below_floor ≡ a.below_floor))
                passes s.proposals
                (Has-first_by _ decided_later (select passes s.proposals) q found facts))
      ]

  sound_in_memory :
      (organization_id part_id : ℕ) (marketplace : String) (price : Option W) (currency : String)
      (s : Store W) (a : ApprovedPrice W)
      → assert_approved_listing_price memory organization_id part_id marketplace price currency s
        ≡ ok a
      → (get_approved_pricing_context memory organization_id part_id marketplace s ≡ some a)
        × (amount : W) × (price ≡ some amount)
        × (same_cents amount a.approved_price ≡ true)
        × (str_eq currency a.currency ≡ true)
  unfolding assert_approved_listing_price
  sound_in_memory organization_id part_id marketplace none currency s a e = absurd (ground arith)
  sound_in_memory organization_id part_id marketplace (some amount) currency s a e =
      (ground arith, amount, refl, ground arith, ground arith)

  -- A listing passes only if its price equals, to the cent, that of a proposal of its organization,
  -- part and marketplace which is approved or overridden, in the same currency.
  pub assert_approved_listing_price_sound :
      (db : Prisma)
      → IsDocumented db
      → (organization_id part_id : ℕ) (marketplace : String) (price : Option W) (currency : String)
        (s : Store W) (a : ApprovedPrice W)
      → assert_approved_listing_price db organization_id part_id marketplace price currency s ≡ ok a
      → (amount : W) × (price ≡ some amount)
        × (same_cents amount a.approved_price ≡ true)
        × (currency ≡ a.currency)
        × Has (IsApprovalRow organization_id part_id marketplace a) s.proposals
  assert_approved_listing_price_sound =
      of_memory _ (λ organization_id part_id marketplace price currency s a e.
        let (context, amount, same, equal, money) =
          sound_in_memory organization_id part_id marketplace price currency s a e in
        (
          amount,
          same,
          equal,
          (eq_iff _ _).0 money,
          context_rests_on organization_id part_id marketplace s a context,
        ))
