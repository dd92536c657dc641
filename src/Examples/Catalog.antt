-- ===== src/Examples/Catalog.antt =====
-- A seller whose sequence of SKUs is about to end.
use ebay_pricing_intelligenc.Prelude.{ℕ, ◌≡◌, ◌==◌, refl, [], ◌∷◌, some, ok}
use ebay_pricing_intelligenc.Database.Memory.{memory, memory-IsDocumented}
use ebay_pricing_intelligenc.Market.Matching.{Text, upper_text}
use ebay_pricing_intelligenc.Catalog.Sku.{
  sequential, Organization, CatalogPart, Catalog, Sku, sku_for, sku_at, digits, allocate_from,
  allocate_organization_sku, part_number_to_sku, trim_start, trim_end, dashed,
}
use ebay_pricing_intelligenc.Catalog.Sku.Allocation.{
  IsAllocated, allocate_organization_sku-IsAllocated,
}

abbrev as_is : ℕ → Text
as_is c = c ∷ []

-- " A  B " becomes "A-B"
part_number_dashed : part_number_to_sku as_is (32 ∷ 65 ∷ 32 ∷ 32 ∷ 66 ∷ 32 ∷ []) ≡ 65 ∷ 45 ∷ 66 ∷ []
unfolding part_number_to_sku trim_start trim_end dashed upper_text
part_number_dashed = refl

abbrev seller : Organization
seller = record {
  id = 9;
  sku_mode = sequential;
  sku_prefix = 65 ∷ 66 ∷ [];
  sku_next_number = 999_999_997;
}

abbrev numbered : ℕ → CatalogPart
numbered n = record { organization_id = 9; normalized_sku = sku_for (65 ∷ 66 ∷ []) n }

abbrev catalog : Catalog
catalog = record {
  organizations = seller ∷ [];
  parts = numbered 999_999_997 ∷ numbered 999_999_999 ∷ [];
  audit = [];
}

abbrev allocated : Sku × Catalog
allocated = (
  sku_at memory as_is (65 ∷ 66 ∷ []) 999_999_998,
  record catalog { organizations = record seller { sku_next_number = 999_999_999 } ∷ [] },
)

allocates : allocate_organization_sku memory as_is 9 [] catalog ≡ ok allocated
unfolding allocate_organization_sku allocate_from sku_for digits upper_text
allocates = refl

allocate_organization_sku-IsAllocated_example :
    (policy : Organization) × (memory.find_first
        (λ (o : Organization). o.id == 9)
        catalog.organizations
      ≡ some policy)
    × IsAllocated as_is 9 policy.sku_mode policy.sku_prefix policy.sku_next_number catalog allocated
allocate_organization_sku-IsAllocated_example =
    allocate_organization_sku-IsAllocated as_is 9 memory memory-IsDocumented [] catalog allocated
      allocates
