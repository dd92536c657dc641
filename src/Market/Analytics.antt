-- ===== src/Market/Analytics.antt =====
-- apps/api/src/domain/analytics.ts. An index out of range, `undefined` in the code, is `none`.
pub mod Sorted
pub mod Bounds
use ebay_pricing_intelligenc.Prelude.{
  ℕ, ◌-◌, ◌/◌, ◌%◌, String, List, [], ◌∷◌, map, Option, none, some, ◌==◌, if◌then◌else◌, length,
  get_elem?,
}
use ebay_pricing_intelligenc.Schema.{Analytics}
use ebay_pricing_intelligenc.Schema.Double.{Double, cents}
use ebay_pricing_intelligenc.Market.Matching.{MatchedListing}

infixl 5 ◌>>=◌
abbrev ◌>>=◌ : {A B : Type 0} → Option A → (A → Option B) → Option B
none >>= f = none
some a >>= f = f a

module _ {W : Type 0} ⦃d : Double W⦄ where
  -- `sort((a, b) => a - b)`, which is stable and ascending.
  insert : W → List W → List W
  insert x [] = x ∷ []
  insert x (y ∷ ys) = if d.le x y then x ∷ y ∷ ys else y ∷ insert x ys

  unfoldable pub sort : List W → List W
  unfolding insert
  sort [] = []
  sort (x ∷ xs) = insert x (sort xs)

  sum_from : W → List W → W
  sum_from acc [] = acc
  sum_from acc (x ∷ xs) = sum_from (d.add acc x) xs

  median_of : List W → Option W
  median_of prices =
      let middle = length prices / 2 in
      if length prices % 2 == 1 then get_elem? prices middle else do
        low ← get_elem? prices (middle - 1)
        high ← get_elem? prices middle
        some (d.div (d.add low high) (d.ratio 2 1))

  -- The object that is returned, over the sorted prices.
  summary : List W → String → Option (Analytics W)
  unfolding sum_from median_of
  summary prices currency = do
    median ← median_of prices
    lowest ← get_elem? prices 0
    highest ← get_elem? prices (length prices - 1)
    some (record {
      count = length prices;
      lowest = cents lowest;
      average = cents (d.div (sum_from (d.ratio 0 1) prices) (d.ratio (length prices) 1));
      median = cents median;
      highest = cents highest;
      recommended_price = cents (d.mul median (d.ratio 98 100));
      currency = currency;
    })

  unfoldable pub calculate_analytics_from_prices : List W → String → Option (Analytics W)
  unfolding sort summary
  calculate_analytics_from_prices [] currency = none
  calculate_analytics_from_prices (x ∷ xs) currency = summary (sort (x ∷ xs)) currency

  unfoldable pub calculate_analytics : List (MatchedListing W) → Option (Analytics W)
  unfolding calculate_analytics_from_prices
  calculate_analytics [] = none
  calculate_analytics (item ∷ items) =
      calculate_analytics_from_prices (map (λ m. m.raw.price) (item ∷ items)) item.raw.currency
