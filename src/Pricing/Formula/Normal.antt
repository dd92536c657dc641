-- ===== src/Pricing/Formula/Normal.antt =====
-- The normal form of a formula: `normalizeBulkPricingFormula` of
-- apps/api/src/bulk-pricing-formula.ts.
use ebay_pricing_intelligenc.Prelude.{
  ℕ, ◌≡◌, refl, sym, ap, ◌∙◌, subst, Bool, false, List, [], ◌∷◌, Result, ok, err, ◌==◌, arith, any,
  Bool-cases, inl, inr,
}
use ebay_pricing_intelligenc.Pricing.Formula.{
  reparsed, reparsed_all, Component, Formula, ParsedComponent, ParsedFormula, normalized,
  when_checked, normalize_component, joined, normalize_components, as_formula,
  normalize_bulk_pricing_formula,
}

module _ {W : Type 0} (is_zero : W → Bool) where
  when_checked-eq :
      (c d : Component W) (checked : Result (Unit {0}))
      → when_checked is_zero c checked ≡ ok d
      → c ≡ d
  when_checked-eq c d (ok u) e = ground (arith, e)
  when_checked-eq c d (err x) e = ground (arith, e)

  normalize_component-again :
      (legacy : Bool) (c : ParsedComponent W) (d : Component W)
      → normalize_component is_zero legacy c ≡ ok d
      → (normalize_component is_zero false (reparsed d) ≡ ok d) × (c.id ≡ d.id)
  normalize_component-again legacy c d e =
      let same = when_checked-eq (normalized legacy c) d _ e in
      (
        subst (λ x. normalize_component is_zero false (reparsed x) ≡ ok x) same
            (e ∙ ap ok (sym same)),
        ap (λ (x : Component W). x.id) same,
      )

  joined-ok :
      (r : Result (Component W)) (rest : Result (List (Component W))) (ds : List (Component W))
      → joined is_zero r rest ≡ ok ds
      → (d : Component W) × (ds' : List (Component W)) × (r ≡ ok d)
        × (rest ≡ ok ds')
        × (d ∷ ds' ≡ ds)
  joined-ok (err x) rest ds e = ground (arith, e)
  joined-ok (ok c) (err x) ds e = ground (arith, e)
  joined-ok (ok c) (ok cs) ds e = (c, cs, refl, refl, ground (arith, e))

  normalize_components-step :
      (ids : List ℕ) (d : Component W) (ds : List (Component W))
      → any (λ id. id == d.id) ids ≡ false
      → normalize_component is_zero false (reparsed d) ≡ ok d
      → normalize_components is_zero false (d.id ∷ ids) (reparsed_all ds) ≡ ok ds
      → normalize_components is_zero false ids (reparsed_all (d ∷ ds)) ≡ ok (d ∷ ds)
  unfolding normalize_components
  normalize_components-step ids d ds new again rest =
      rw new (λ i. joined is_zero (again i) (rest i))

  normalize_components-again :
      (legacy : Bool) (ids : List ℕ) (cs : List (ParsedComponent W)) (ds : List (Component W))
      → normalize_components is_zero legacy ids cs ≡ ok ds
      → normalize_components is_zero false ids (reparsed_all ds) ≡ ok ds
  unfolding normalize_components
  normalize_components-again legacy ids [] [] e = refl
  normalize_components-again legacy ids [] (d ∷ ds) e = ground (arith, e)
  normalize_components-again legacy ids (c ∷ cs) ds e =
      elim (Bool-cases (any (λ id. id == c.id) ids)) [
        | inl duplicate ↦ ground (arith, duplicate, e)
        | inr new ↦
            let (d, ds', head, tail, whole) = joined-ok _ _ ds (rw new at e) in
            let (again, same_id) = normalize_component-again legacy c d head in
            let rest = normalize_components-again legacy (c.id ∷ ids) cs ds' tail in
            subst (λ xs. normalize_components is_zero false ids (reparsed_all xs) ≡ ok xs) whole
              (normalize_components-step ids d ds'
                (subst (λ n. any (λ id. id == n) ids ≡ false) same_id new) again
                (subst
                  (λ n. normalize_components is_zero false (n ∷ ids) (reparsed_all ds') ≡ ok ds')
                  same_id rest))
      ]

  as_formula-ok :
      (r : Result (List (Component W))) (formula : Formula W)
      → as_formula is_zero r ≡ ok formula
      → r ≡ ok formula.components
  as_formula-ok (ok cs) formula e = ground (arith, e)
  as_formula-ok (err x) formula e = ground (arith, e)

  -- A formula that normalization has returned is valid input of version 2 and its own normal form,
  -- whatever the version of the first input: normalizing it again returns it unchanged.
  pub normalize_bulk_pricing_formula-idempotent :
      (input : ParsedFormula W) (formula : Formula W)
      → normalize_bulk_pricing_formula is_zero input ≡ ok formula
      → normalize_bulk_pricing_formula is_zero
          (record { is_legacy = false; components = reparsed_all formula.components })
        ≡ ok formula
  unfolding normalize_bulk_pricing_formula
  normalize_bulk_pricing_formula-idempotent input formula e = ap (as_formula is_zero) (
      normalize_components-again input.is_legacy [] input.components formula.components
        (as_formula-ok _ formula e))
