-- ===== src/Examples/Edges.antt =====
-- The rate limiter, the market's listings, and the permissions at small inputs.
use ebay_pricing_intelligenc.Prelude.{
  ℕ, ◌-◌, ◌≡◌, ◌≤◌, min, refl, false, List, [], ◌∷◌, some, map, select, count, length, All, arith,
}
use ebay_pricing_intelligenc.Schema.{Analytics}
use ebay_pricing_intelligenc.Schema.Double.{Fixed, fixed_double, Fixed-IsOrdered}
use ebay_pricing_intelligenc.Http.RateLimiter.{RateWindow, Limiter, get, consume, consume_all}
use ebay_pricing_intelligenc.Http.RateLimiter.Entries.{IsNamed}
use ebay_pricing_intelligenc.Http.RateLimiter.Laws.{
  is_by, admits, consume_all-admits, consume-length_le,
}
use ebay_pricing_intelligenc.Market.Matching.{RawListing, select_exact_competitors}
use ebay_pricing_intelligenc.Market.Matching.Selection.{
  is_competitor, IsMatched, select_exact_competitors_lem,
}
use ebay_pricing_intelligenc.Market.Analytics.{calculate_analytics_from_prices}
use ebay_pricing_intelligenc.Market.Analytics.Bounds.{
  IsSummary, calculate_analytics_from_prices_total,
}
use ebay_pricing_intelligenc.Access.{
  OrganizationRole, role_has_permission, catalog_write, pricing, listing_publish, administration,
  team_management,
}
use ebay_pricing_intelligenc.Access.Permissions.{has_organization_permission}
use ebay_pricing_intelligenc.Access.Permissions.Laws.{policies_agree}

abbrev window : RateWindow
window = record { count = 1; reset_at = 60_000 }

abbrev limiter : Limiter
limiter = record { limit = 2; window_ms = 60_000; max_keys = 50_000; windows = (1, window) ∷ [] }

-- Three more requests of client 1, and one of client 2.
abbrev requests : List (ℕ × ℕ)
requests = (1, 10) ∷ (2, 20) ∷ (1, 30) ∷ (1, 40) ∷ []

known : get 1 limiter.windows ≡ some window
unfolding get
known = refl

consume_all-admits_example :
    count (admits 1) (consume_all requests limiter).0
    ≡ min (count (is_by 1) requests) (limiter.limit - window.count)
consume_all-admits_example =
    consume_all-admits 1 requests limiter window known
      (omega arith, (omega arith, (omega arith, (omega arith, tt)))) (omega arith)

consume-length_le_example :
    (length (consume 3 10 limiter).1.windows ≤ limiter.max_keys)
    × All IsNamed (consume 3 10 limiter).1.windows
consume-length_le_example = consume-length_le 3 10 limiter refl (refl, tt)

abbrev listing : RawListing Fixed
listing = record {
  id = "v1|1|0";
  seller = 115 ∷ [];
  price = 100_000;
  shipping = 50_000;
  currency = "USD";
  aspects = ("MPN", (65 ∷ 45 ∷ 49 ∷ []) ∷ []) ∷ [];
}

select_exact_competitors_lem_example :
    (map
        (λ m. m.raw)
        (select_exact_competitors (λ c. c ∷ []) (λ s. s) (λ s. false) (listing ∷ []) (65 ∷ 49 ∷ []))
      ≡ select (is_competitor (λ c. c ∷ []) (λ s. s) (λ s. false) (65 ∷ 49 ∷ [])) (listing ∷ []))
    × All
        (IsMatched (λ c. c ∷ []) (λ s. s) (λ s. false) (65 ∷ 49 ∷ []))
        (select_exact_competitors (λ c. c ∷ []) (λ s. s) (λ s. false) (listing ∷ []) (65 ∷ 49 ∷ []))
select_exact_competitors_lem_example =
    select_exact_competitors_lem (λ c. c ∷ []) (λ s. s) (λ s. false) (λ c h. refl) (listing ∷ [])
      (65 ∷ 49 ∷ [])

calculate_analytics_from_prices_total_example :
    (a : Analytics Fixed) × (calculate_analytics_from_prices (150_000 ∷ 120_000 ∷ []) "USD"
      ≡ some a)
    × IsSummary Fixed-IsOrdered (150_000 ∷ 120_000 ∷ []) a
calculate_analytics_from_prices_total_example =
    calculate_analytics_from_prices_total Fixed-IsOrdered 150_000 (120_000 ∷ []) "USD"

policies_agree_example :
    (role_has_permission OrganizationRole.publisher catalog_write
      ≡ has_organization_permission OrganizationRole.publisher [] "catalog.edit")
    × (role_has_permission OrganizationRole.publisher pricing
        ≡ has_organization_permission OrganizationRole.publisher [] "pricing.run")
    × (role_has_permission OrganizationRole.publisher listing_publish
        ≡ has_organization_permission OrganizationRole.publisher [] "catalog.publish")
    × (role_has_permission OrganizationRole.publisher administration
        ≡ has_organization_permission OrganizationRole.publisher [] "admin.manage")
    × (role_has_permission OrganizationRole.publisher team_management
        ≡ has_organization_permission OrganizationRole.publisher [] "team.manage")
policies_agree_example = policies_agree OrganizationRole.publisher
