-- ===== src/Market/Analytics/Bounds.antt =====
-- What the analytics of a list of prices say of it.
use ebay_pricing_intelligenc.Prelude.{
  ◌-◌, ◌/◌, ◌%◌, ◌<◌, ◌≡◌, String, List, ◌∷◌, some, ◌==◌, length, get_elem?, All, All_of_get_elem?,
  get_elem?_total, get_elem?-lt, Bool-cases, arith, inl, inr,
}
use ebay_pricing_intelligenc.Schema.{Analytics}
use ebay_pricing_intelligenc.Schema.Double.{Double, IsOrdered, ◌≼◌, cents}
use ebay_pricing_intelligenc.Market.Analytics.{
  sort, sum_from, median_of, summary, calculate_analytics_from_prices,
}
use ebay_pricing_intelligenc.Market.Analytics.Sorted.{
  IsSorted, All_of_sort, length-sort, sort-IsSorted, le_of_IsSorted,
}

module _ {W : Type 0} ⦃d : Double W⦄ (o : IsOrdered W) where
  -- The count, and the order of the three prices and of each price of the list.
  abbrev pub IsSummary : List W → Analytics W → Type 0
  IsSummary values a =
      (a.count ≡ length values)
      × (a.lowest ≼ a.median)
      × (a.median ≼ a.highest)
      × All (λ p. (a.lowest ≼ cents p) × (cents p ≼ a.highest)) values

  -- The median lies between the least and the greatest price.
  median_of_total :
      (prices : List W) (lo hi : W)
      → IsSorted prices
      → get_elem? prices 0 ≡ some lo
      → get_elem? prices (length prices - 1) ≡ some hi
      → (m : W) × (median_of prices ≡ some m) × (lo ≼ m) × (m ≼ hi)
  unfolding median_of
  median_of_total prices lo hi h p q =
      let bound = get_elem?-lt prices 0 lo p in
      let (b, mid) = get_elem?_total prices (length prices / 2) (omega arith) in
      let lo-b = le_of_IsSorted o prices 0 (length prices / 2) lo b h (omega arith) p mid in
      let b-hi =
        le_of_IsSorted o prices (length prices / 2) (length prices - 1) b hi h (omega arith) mid
          q in
      elim (Bool-cases (length prices % 2 == 1)) [
        | inl odd ↦ (b, rw (odd, mid), lo-b, b-hi)
        | inr even ↦
            let (a, before) = get_elem?_total prices (length prices / 2 - 1) (omega arith) in
            let lo-a =
              le_of_IsSorted o prices 0 (length prices / 2 - 1) lo a h (omega arith) p before in
            let a-b =
              le_of_IsSorted o prices (length prices / 2 - 1) (length prices / 2) a b h
                (omega arith) before mid in
            (
              d.div (d.add a b) (d.ratio 2 1),
              rw (even, before, mid),
              o.le_trans _ _ _ lo-a (o.le-mid a b a-b),
              o.le_trans _ _ _ (o.mid-le a b a-b) b-hi,
            )
      ]

  summary_total :
      (values prices : List W) (currency : String)
      → IsSorted prices
      → length prices ≡ length values
      → 0 < length prices
      → ((P : W → Type 0) → All P prices → All P values)
      → (a : Analytics W) × (summary prices currency ≡ some a) × IsSummary values a
  unfolding summary
  summary_total values prices currency h n pos all =
      let (lo, p) = get_elem?_total prices 0 pos in
      let (hi, q) = get_elem?_total prices (length prices - 1) (omega arith) in
      let (m, e, lo-m, m-hi) = median_of_total prices lo hi h p q in
      (
        record {
          count = length prices;
          lowest = cents lo;
          average = cents (d.div (sum_from (d.ratio 0 1) prices) (d.ratio (length prices) 1));
          median = cents m;
          highest = cents hi;
          recommended_price = cents (d.mul m (d.ratio 98 100));
          currency = currency;
        },
        rw (e, p, q),
        (
          n,
          o.cents_mono lo m lo-m,
          o.cents_mono m hi m-hi,
          all (λ x. (cents lo ≼ cents x) × (cents x ≼ cents hi))
              (All_of_get_elem? _ prices (λ i x at. (
                o.cents_mono lo x (le_of_IsSorted o prices 0 i lo x h (omega arith) p at),
                o.cents_mono x hi (
                    le_of_IsSorted o prices i (length prices - 1) x hi h
                      (omega (arith, get_elem?-lt prices i x at)) at q),
              ))),
        ),
      )

-- For a list of prices that is not empty the analytics are computed, no index is out of range, and
-- the lowest price, the median and the highest price are in order and bound every price to the cent.
pub calculate_analytics_from_prices_total :
    {W : Type 0} ⦃d : Double W⦄ (o : IsOrdered W) (x : W) (xs : List W) (currency : String)
    → (a : Analytics W) × (calculate_analytics_from_prices (x ∷ xs) currency ≡ some a)
      × IsSummary o (x ∷ xs) a
unfolding calculate_analytics_from_prices
calculate_analytics_from_prices_total o x xs currency =
    summary_total o (x ∷ xs) (sort (x ∷ xs)) currency (sort-IsSorted o (x ∷ xs))
      (length-sort (x ∷ xs)) (omega (arith, length-sort (x ∷ xs))) (λ P h. All_of_sort P (x ∷ xs) h)
