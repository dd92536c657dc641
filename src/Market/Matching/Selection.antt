-- ===== src/Market/Matching/Selection.antt =====
-- Which candidates are taken for competitors.
use ebay_pricing_intelligenc.Prelude.{
  ℕ, ◌≡◌, ◌≢◌, refl, ap, Bool, true, List, [], ◌∷◌, ◌&&◌, inl, inr, not, if◌then◌else◌, any, select,
  All, map, arith, Bool-cases,
}
use ebay_pricing_intelligenc.Schema.Double.{Double, cents}
use ebay_pricing_intelligenc.Market.Matching.{
  Text, same_text, RawListing, MatchedListing, part_fields, is_key, aspect, upper_text,
  normalize_part_number, matches_field, match_listing, competitor, competitors,
  select_exact_competitors, is_empty,
}

-- Letters and digits of part numbers have no other upper case.
abbrev pub FixesKeys : (ℕ → Text) → Type 0
FixesKeys upper = (c : ℕ) → is_key c ≡ true → upper c ≡ c ∷ []

module _ (upper : ℕ → Text) (fixes : FixesKeys upper) where
  select_keys-fixed :
      (s : Text) → select is_key (upper_text upper (select is_key s)) ≡ select is_key s
  unfolding upper_text
  select_keys-fixed [] = refl
  select_keys-fixed (c ∷ s) = elim (Bool-cases (is_key c)) [
    | inl key ↦ rw key (rw (fixes c key) (rw key (ap (λ (t : Text). c ∷ t) (select_keys-fixed s))))
    | inr other ↦ rw other (select_keys-fixed s)
  ]

  -- Normalising a part number twice is normalising it once.
  pub normalize_part_number_idem :
      (s : Text)
      → normalize_part_number upper (normalize_part_number upper s) ≡ normalize_part_number upper s
  unfolding normalize_part_number
  normalize_part_number_idem s = select_keys-fixed (upper_text upper s)

is_empty-select {ℓ} :
    {A : Type ℓ} (p : A → Bool) (xs : List A) → is_empty (select p xs) ≡ not (any p xs)
is_empty-select p [] = refl
is_empty-select p (x ∷ xs) = ground (arith, is_empty-select p xs)

-- Some value of one of the part-number fields is the part number, up to case and punctuation.
abbrev pub names_part : {W : Type 0} → (ℕ → Text) → Text → RawListing W → Bool
names_part upper part_number listing =
    any
      (λ field.
        any
          (λ value.
            same_text (normalize_part_number upper value) (normalize_part_number upper part_number))
          (aspect field listing.aspects))
      part_fields

module _ (upper : ℕ → Text) {W : Type 0} ⦃d : Double W⦄ (lower : Text → Text)
    (own_sellers : Text → Bool) where
  -- What the code writes into a result: the fields that match, at least one, and the price to the cent.
  abbrev pub IsMatched : Text → MatchedListing W → Type 0
  IsMatched part_number m =
      (m.matched_on ≡ match_listing upper m.raw part_number)
      × (m.matched_on ≢ [])
      × (m.landed_price ≡ cents m.raw.price)

  abbrev pub is_competitor : Text → RawListing W → Bool
  is_competitor part_number listing =
      names_part upper part_number listing && not (own_sellers (lower listing.seller))

  match_listing-congr :
      (normalized part_number : Text) (c : RawListing W)
      → normalize_part_number upper normalized ≡ normalize_part_number upper part_number
      → match_listing upper c normalized ≡ match_listing upper c part_number
  unfolding match_listing
  match_listing-congr normalized part_number c same = rw same

  is_empty-match_listing :
      (part_number : Text) (c : RawListing W)
      → is_empty (match_listing upper c part_number) ≡ not (names_part upper part_number c)
  unfolding match_listing matches_field
  is_empty-match_listing part_number c =
      is_empty-select (matches_field upper (normalize_part_number upper part_number) c.aspects)
        part_fields

  abbrev matched : Text → RawListing W → MatchedListing W
  matched part_number c = record {
    raw = c;
    matched_on = match_listing upper c part_number;
    landed_price = cents c.price;
  }

  competitor_lem :
      (normalized part_number : Text) (c : RawListing W)
      → normalize_part_number upper normalized ≡ normalize_part_number upper part_number
      → competitor upper lower own_sellers normalized c
        ≡ (if is_competitor part_number c then matched part_number c ∷ [] else [])
  unfolding competitor
  competitor_lem normalized part_number c same =
      rw (match_listing-congr normalized part_number c same)
        (rw (is_empty-match_listing part_number c) (ground arith))

  matched-IsMatched :
      (part_number : Text) (c : RawListing W)
      → is_competitor part_number c ≡ true
      → IsMatched part_number (matched part_number c)
  matched-IsMatched part_number c h =
      (refl, λ e. ground (arith, is_empty-match_listing part_number c, ap is_empty e), refl)

  competitors_lem :
      (normalized part_number : Text) (candidates : List (RawListing W))
      → normalize_part_number upper normalized ≡ normalize_part_number upper part_number
      → (map (λ m. m.raw) (competitors upper lower own_sellers normalized candidates)
          ≡ select (is_competitor part_number) candidates)
        × All (IsMatched part_number) (competitors upper lower own_sellers normalized candidates)
  unfolding competitors
  competitors_lem normalized part_number [] same = (refl, tt)
  competitors_lem normalized part_number (c ∷ cs) same =
      let (ih, later) = competitors_lem normalized part_number cs same in
      rw (competitor_lem normalized part_number c same)
        (elim (Bool-cases (is_competitor part_number c)) [
          | inl yes' ↦ rw yes' (
            ap (λ (t : List (RawListing W)). c ∷ t) ih,
            (matched-IsMatched part_number c yes', later),
          )
          | inr no' ↦ rw no' (ih, later)
        ])

-- The listings that are chosen are those candidates, in order, that name the part in some field
-- and are not the organization's own; each carries the fields that match and its price to the cent.
pub select_exact_competitors_lem :
    (upper : ℕ → Text) {W : Type 0} ⦃d : Double W⦄ (lower : Text → Text) (own_sellers : Text → Bool)
    → FixesKeys upper
    → (candidates : List (RawListing W)) (part_number : Text)
    → (map (λ m. m.raw) (select_exact_competitors upper lower own_sellers candidates part_number)
        ≡ select (is_competitor upper lower own_sellers part_number) candidates)
      × All
          (IsMatched upper lower own_sellers part_number)
          (select_exact_competitors upper lower own_sellers candidates part_number)
unfolding select_exact_competitors
select_exact_competitors_lem upper lower own_sellers fixes candidates part_number =
    competitors_lem upper lower own_sellers (normalize_part_number upper part_number) part_number
      candidates (normalize_part_number_idem upper fixes part_number)
