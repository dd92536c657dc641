-- ===== src/Catalog/Sku/Allocation.antt =====
-- The allocation of a SKU: `allocateOrganizationSku` of apps/api/src/sku-policy-service.ts.
use ebay_pricing_intelligenc.Prelude.{
  ℕ, zero, suc, ◌+◌, ◌≡◌, ◌≤◌, ◌<◌, inl, inr, refl, subst, Bool, true, false, [], ◌∷◌, Option, none,
  some, ok, >>=-eq-ok, ==_iff, ◌==◌, arith, revise, Bool-cases,
}
use ebay_pricing_intelligenc.Database.{Prisma, IsDocumented}
use ebay_pricing_intelligenc.Database.Memory.{memory, of_memory, update-eq-ok}
use ebay_pricing_intelligenc.Market.Matching.{Text}
use ebay_pricing_intelligenc.Catalog.Sku.{
  SkuMode, by_part_number, sequential, Organization, Catalog, Sku, is_used, sku_at, take_number,
  allocate_from, allocate_part_number, allocate_by, allocate_found, allocate_organization_sku,
}

module _ (upper : ℕ → Text) (organization_id : ℕ) where
  abbrev pub is_taken : Text → Catalog → ℕ → Bool
  is_taken prefix s number =
      is_used memory upper organization_id (sku_at memory upper prefix number).normalized_sku s

  abbrev pub counted_to : ℕ → Organization → Organization
  counted_to number o = record o { sku_next_number = number + 1 }

  -- From the number `first` on, the number that was given is the first that is free.
  abbrev pub IsNext : Text → ℕ → Catalog → Sku × Catalog → Type 0
  IsNext prefix first s r =
      (number : ℕ) × (first ≤ number)
      × (r.0 ≡ sku_at memory upper prefix number)
      × (is_taken prefix s number ≡ false)
      × ((m : ℕ) → first ≤ m → m < number → is_taken prefix s m ≡ true)
      × (r.1.organizations
          ≡ revise (λ o. o.id == organization_id) (counted_to number) s.organizations)
      × (r.1.parts ≡ s.parts)

  allocate_from-IsNext :
      (left first : ℕ) (prefix : Text) (s : Catalog) (r : Sku × Catalog)
      → allocate_from memory upper left first organization_id prefix s ≡ ok r
      → IsNext prefix first s r
  unfolding allocate_from
  allocate_from-IsNext zero first prefix s r e = ground arith
  allocate_from-IsNext (suc left) first prefix s r e = elim (Bool-cases (is_taken prefix s first)) [
    | inl taken ↦
        let (number, le, given, free, passed, organizations, parts) =
          allocate_from-IsNext left (first + 1) prefix s r (rw taken at e) in
        (
          number,
          omega arith,
          given,
          free,
          λ m lo hi. elim (Bool-cases (m == first)) [
            | inl same ↦ rw ((==_iff m first).0 same) taken
            | inr other ↦ passed m (ground (arith, other)) hi
          ],
          organizations,
          parts,
        )
    | inr free ↦
        let e' : take_number memory upper organization_id prefix first s ≡ ok r = rw free at e in
        let (rows, updated, done) =
          >>=-eq-ok
            (memory.update (λ x y. false) (λ o. o.id == organization_id) (counted_to first)
              s.organizations)
            _ e' in
        let (written, _, _) =
          update-eq-ok (λ x y. false) (λ o. o.id == organization_id) (counted_to first)
            s.organizations rows updated in
        (
          first,
          omega arith,
          ground (arith, done),
          free,
          λ m lo hi. absurd (omega arith),
          ground (arith, done, written),
          ground (arith, done),
        )
  ]

  -- In part-number mode the SKU is free and nothing is written.
  abbrev pub IsAllocated : SkuMode → Text → ℕ → Catalog → Sku × Catalog → Type 0
  IsAllocated by_part_number prefix first s r =
      (is_used memory upper organization_id r.0.normalized_sku s ≡ false) × (r.1 ≡ s)
  IsAllocated sequential prefix first s r = IsNext prefix first s r

  allocate_part_number-free :
      (sku : Text) (s : Catalog) (r : Sku × Catalog)
      → allocate_part_number memory upper organization_id sku s ≡ ok r
      → (is_used memory upper organization_id r.0.normalized_sku s ≡ false) × (r.1 ≡ s)
  allocate_part_number-free [] s r e = ground arith
  allocate_part_number-free (c ∷ sku) s r e =
      elim (Bool-cases (is_used memory upper organization_id (c ∷ sku) s)) [
        | inl used ↦ ground (arith, used, e)
        | inr free ↦
            let given : (record { sku = c ∷ sku; normalized_sku = c ∷ sku }, s) ≡ r =
              ground (arith, free, e) in
            subst
              (λ (q : Sku × Catalog).
                (is_used memory upper organization_id q.0.normalized_sku s ≡ false) × (q.1 ≡ s))
              given (free, refl)
      ]

  allocate_by-IsAllocated :
      (mode : SkuMode) (part_number prefix : Text) (first : ℕ) (s : Catalog) (r : Sku × Catalog)
      → allocate_by memory upper organization_id part_number s prefix first mode ≡ ok r
      → IsAllocated mode prefix first s r
  allocate_by-IsAllocated by_part_number part_number prefix first s r e =
      allocate_part_number-free _ s r e
  allocate_by-IsAllocated sequential part_number prefix first s r e =
      allocate_from-IsNext _ first prefix s r e

  allocate_found-IsAllocated :
      (found : Option Organization) (part_number : Text) (s : Catalog) (r : Sku × Catalog)
      → allocate_found memory upper organization_id part_number s found ≡ ok r
      → (policy : Organization) × (found ≡ some policy)
        × IsAllocated policy.sku_mode policy.sku_prefix policy.sku_next_number s r
  allocate_found-IsAllocated none part_number s r e = ground arith
  allocate_found-IsAllocated (some policy) part_number s r e = (
    policy,
    refl,
    allocate_by-IsAllocated policy.sku_mode part_number policy.sku_prefix policy.sku_next_number s r
        e,
  )

  -- An allocation that succeeds follows the policy of its organization. In part-number mode the
  -- SKU is one that no part of the organization has, and nothing is written. In sequential mode
  -- it has the first number, from the policy's next one on, whose SKU no part of the
  -- organization has, the policy goes on with the number after it, and the parts stay.
  pub allocate_organization_sku-IsAllocated :
      (db : Prisma)
      → IsDocumented db
      → (part_number : Text) (s : Catalog) (r : Sku × Catalog)
      → allocate_organization_sku db upper organization_id part_number s ≡ ok r
      → (policy : Organization) × (db.find_first (λ o. o.id == organization_id) s.organizations
          ≡ some policy)
        × IsAllocated policy.sku_mode policy.sku_prefix policy.sku_next_number s r
  unfolding allocate_organization_sku
  allocate_organization_sku-IsAllocated =
      of_memory _ (λ part_number s r e. allocate_found-IsAllocated _ part_number s r e)
