-- ===== src/Pricing/Governance/Decision/Laws.antt =====
-- What a decision may change, and who may take it.
use ebay_pricing_intelligenc.Prelude.{
  ℕ, ◌+◌, ◌≡◌, refl, Bool, true, false, ◌&&◌, some, ◌⊎◌, inl, inr, Result, Failure, ok, err, fail,
  arith, Option-cases, Result-cases, find, find_holds, ◌==◌, is_some, revise, All, All-map,
  Pairwise, Pairwise-revise, All-revise, All_of_every, All-find, length, length-snoc,
}
use ebay_pricing_intelligenc.Database.{Prisma, IsDocumented}
use ebay_pricing_intelligenc.Database.Memory.{memory, of_memory}
use ebay_pricing_intelligenc.Schema.{PricingProposal, is_pending}
use ebay_pricing_intelligenc.Schema.Double.{Double}
use ebay_pricing_intelligenc.Schema.Store.{Store}
use ebay_pricing_intelligenc.Schema.Store.Writes.{writes}
use ebay_pricing_intelligenc.Pricing.Governance.Decision.{
  reject, DecisionInput, Ruling, rule_on, decides_below_floor, decide_pricing_proposal, decision_tx,
  reason_of,
}

module _ {W : Type 0} ⦃d : Double W⦄ where
  -- What the checks let through.
  pub rule_on_sound :
      (input : DecisionInput W) (p : PricingProposal W) (r : Ruling W)
      → rule_on input p ≡ ok r
      → (is_pending p.status ≡ true)
        × (is_pending r.status ≡ false)
        × ((input.action ≡ reject) ⊎ (is_some p.floor_price ≡ true))
        × (r.below_floor ≡ true → decides_below_floor input.role ≡ true)
  unfolding rule_on
  rule_on_sound input p r e = ground arith

  refuses_decided :
      (input : DecisionInput W) (p : PricingProposal W)
      → is_pending p.status ≡ false
      → rule_on input p ≡ fail 409 "Only a pending pricing proposal can be decided"
  unfolding rule_on
  refuses_decided input p h = rw h

  -- What one decision makes of a row.
  abbrev pub IsDecision : DecisionInput W → PricingProposal W → PricingProposal W → Type 0
  IsDecision input before after =
      (before ≡ after)
      ⊎ ((before.id ≡ input.proposal_id)
          × (is_pending before.status ≡ true)
          × (is_pending after.status ≡ false)
          × (after.decided_by_id ≡ some input.user_id)
          × (after.floor_price ≡ before.floor_price)
          × (after.below_floor ≡ true → decides_below_floor input.role ≡ true))

  abbrev pub IsClosed : DecisionInput W → PricingProposal W → Type 0
  IsClosed input q =
      (q.id == input.proposal_id && q.organization_id == input.organization_id) ≡ true
      → is_pending q.status ≡ false

  -- The outcome of a decision, over the tables `now` of the transaction.
  abbrev pub Outcome :
      DecisionInput W → Store W → Store W → Result (PricingProposal W) × Store W → Type 0
  Outcome input before now (ok p, after) =
      Pairwise (IsDecision input) now.proposals after.proposals
      × All (IsClosed input) after.proposals
      × (length after.audit ≡ length now.audit + 1)
      × (length after.outbox ≡ length now.outbox + 1)
  Outcome input before now (err e, after) = (after ≡ before) ⊎ (after ≡ now)

  abbrev target : DecisionInput W → PricingProposal W → Bool
  target input q = q.id == input.proposal_id && q.organization_id == input.organization_id

  abbrev is_undecided : DecisionInput W → PricingProposal W → Bool
  is_undecided input q =
      q.id == input.proposal_id && q.organization_id == input.organization_id && is_pending q.status

  decided_row : DecisionInput W → Ruling W → ℕ → PricingProposal W → PricingProposal W
  decided_row input ruling now q = record q {
    status = ruling.status;
    approved_price = ruling.approved_price;
    below_floor = ruling.below_floor;
    decision_reason = reason_of input.action input.reason;
    decided_by_id = some input.user_id;
    decided_at = some now;
  }

  -- What the transaction has written when it succeeds.
  decision_tx_writes :
      (input : DecisionInput W) (id : ℕ) (ruling : Ruling W) (now : ℕ) (t t' : Store W)
      (q : PricingProposal W)
      → decision_tx memory input id ruling now t ≡ ok (q, t')
      → (t'.proposals
          ≡ revise
              (λ p. p.id == id && p.organization_id == input.organization_id && is_pending p.status)
              (decided_row input ruling now)
              t.proposals)
        × (length t'.audit ≡ length t.audit + 1)
        × (length t'.outbox ≡ length t.outbox + 1)
  unfolding decision_tx decided_row
  decision_tx_writes input id ruling now t t' q e =
      let e' = simp writes at e in
      (ground arith, grind (arith, length-snoc), grind (arith, length-snoc))

  finish :
      (input : DecisionInput W) (s t : Store W) (r : Result (PricingProposal W × Store W))
      → ((q : PricingProposal W) (t' : Store W) → r ≡ ok (q, t') → Outcome input s t (ok q, t'))
      → Outcome input s t (elim r [ ok a ↦ (ok a.0, a.1) | err e ↦ (err e, t) ])
  finish input s t (ok (q, t')) h = h q t' refl
  finish input s t (err e) h = inr refl

  decision_tx-Outcome :
      (input : DecisionInput W) (ruling : Ruling W) (now : ℕ) (s t : Store W)
      → is_pending ruling.status ≡ false
      → (ruling.below_floor ≡ true → decides_below_floor input.role ≡ true)
      → Outcome input s t
          (memory.transaction (decision_tx memory input input.proposal_id ruling now) t)
  unfolding decided_row
  decision_tx-Outcome input ruling now s t status below =
      finish input s t (decision_tx memory input input.proposal_id ruling now t) (λ q t' e.
        let (rows, audit, outbox) =
          decision_tx_writes input input.proposal_id ruling now t t' q e in
        (
          rw rows (
              Pairwise-revise (IsDecision input) (is_undecided input) (decided_row input ruling now)
                t.proposals (λ x h. ground arith) (λ x. inl refl)),
          rw rows (
              All-revise (λ x. Unit {0}) (IsClosed input) (is_undecided input)
                (decided_row input ruling now) t.proposals (λ x u h k. status)
                (λ x u h k. ground arith) (All_of_every _ t.proposals (λ x. tt))),
          audit,
          outbox,
        ))

  decide_in_memory :
      (meanwhile : Store W → Store W) (input : DecisionInput W) (now : ℕ) (s : Store W)
      → Outcome input s (meanwhile s) (decide_pricing_proposal memory meanwhile input now s)
  unfolding decide_pricing_proposal
  decide_in_memory meanwhile input now s = elim (Option-cases (find (target input) s.proposals)) [
    | inl absent ↦ rw (absent, decide_pricing_proposal) (inl refl)
    | inr (p, found) ↦ elim (Result-cases (rule_on input p)) [
      | inr (e, refused) ↦ rw (found, decide_pricing_proposal) (rw refused (inl refl))
      | inl (ruling, ruled) ↦
          let id : p.id ≡ input.proposal_id =
            ground (arith, find_holds (target input) s.proposals p found) in
          let (open_row, closed, priced, below) = rule_on_sound input p ruling ruled in
          rw (found, decide_pricing_proposal)
            (rw ruled (rw id (decision_tx-Outcome input ruling now s (meanwhile s) closed below)))
    ]
  ]

  -- Whatever other requests do between the read and the transaction: a decision that is refused
  -- writes nothing. One that succeeds changes no row but pending ones of its identifier, which it
  -- closes for its user with their floor price kept; a row that it marks as below the floor was
  -- decided by an owner or an admin; no row of the identifier and organization stays pending; one
  -- audit event and one outbox event are added.
  pub decide_pricing_proposal-Outcome :
      (db : Prisma)
      → IsDocumented db
      → (meanwhile : Store W → Store W) (input : DecisionInput W) (now : ℕ) (s : Store W)
      → Outcome input s (meanwhile s) (decide_pricing_proposal db meanwhile input now s)
  decide_pricing_proposal-Outcome = of_memory _ decide_in_memory

  IsClosed-of_ok :
      (input : DecisionInput W) (s t : Store W) (r : Result (PricingProposal W) × Store W)
      (p : PricingProposal W)
      → Outcome input s t r
      → r.0 ≡ ok p
      → All (IsClosed input) r.1.proposals
  IsClosed-of_ok input s t (ok q, after) p h e = h.1
  IsClosed-of_ok input s t (err x, after) p h e = cc

  refuses_closed :
      (meanwhile : Store W → Store W) (input : DecisionInput W) (now : ℕ) (s : Store W)
      → All (IsClosed input) s.proposals
      → (e : Failure) × (decide_pricing_proposal memory meanwhile input now s ≡ (err e, s))
  unfolding decide_pricing_proposal
  refuses_closed meanwhile input now s h = elim (Option-cases (find (target input) s.proposals)) [
    | inl absent ↦ (
      record { status_code = 404; message = "Pricing proposal not found" },
      rw (absent, decide_pricing_proposal),
    )
    | inr (p, found) ↦
        let closed =
          All-find (IsClosed input) (target input) s.proposals p h found
            (find_holds (target input) s.proposals p found) in
        (
          record { status_code = 409; message = "Only a pending pricing proposal can be decided" },
          rw (found, decide_pricing_proposal) (rw (refuses_decided input p closed)),
        )
  ]

  -- Once a decision has succeeded, every later one on the same proposal is refused, and changes
  -- nothing.
  pub decided_once :
      (db : Prisma)
      → IsDocumented db
      → (meanwhile meanwhile' : Store W → Store W) (input input' : DecisionInput W) (now now' : ℕ)
        (s : Store W) (p : PricingProposal W)
      → (decide_pricing_proposal db meanwhile input now s).0 ≡ ok p
      → input'.proposal_id ≡ input.proposal_id
      → input'.organization_id ≡ input.organization_id
      → let after = (decide_pricing_proposal db meanwhile input now s).1 in
        (e : Failure) × (decide_pricing_proposal db meanwhile' input' now' after ≡ (err e, after))
  decided_once = of_memory _ (λ meanwhile meanwhile' input input' now now' s p done id org.
      refuses_closed meanwhile' input' now' _ (
        All-map (IsClosed input) (IsClosed input') _ (λ q h k. h (rw (id, org) at k))
          (IsClosed-of_ok input s (meanwhile s) _ p (decide_in_memory meanwhile input now s) done)))
