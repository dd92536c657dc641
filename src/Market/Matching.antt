-- ===== src/Market/Matching.antt =====
-- apps/api/src/domain/matching.ts, and `selectExactCompetitors` of apps/api/src/pricing-service.ts.
-- `upper` and `lower` are `toUpperCase` and `toLowerCase` of JavaScript, on one code point and on a
-- text.
pub mod Selection
use ebay_pricing_intelligenc.Prelude.{
  ℕ, String, Bool, true, false, List, [], ◌∷◌, ◌++◌, Option, none, some, ◌&&◌, ◌||◌, not, leb, ◌==◌,
  if◌then◌else◌, any, select,
}
use ebay_pricing_intelligenc.Schema.Double.{Double, cents}
use text.Mathlib.Text.{◌==◌ as str_eq}

abbrev pub Text : Type 0
Text = List ℕ

abbrev pub same_text : Text → Text → Bool
same_text [] [] = true
same_text (a ∷ s) (b ∷ t) = a == b && same_text s t
same_text _ _ = false

-- interface RawListing
pub record RawListing (W : Type 0) : Type 0 where
  pub id : String
  pub seller : Text
  pub price : W
  pub shipping : W
  pub currency : String
  pub aspects : List (String × List Text)

-- interface MatchedListing
pub record MatchedListing (W : Type 0) : Type 0 where
  pub raw : RawListing W
  pub open raw use *
  pub matched_on : List String
  pub landed_price : W

abbrev part_fields : List String
part_fields =
    "Manufacturer Part Number" ∷ "MPN" ∷ "OE/OEM Part Number" ∷ "Interchange Part Number" ∷ []

-- [A-Z0-9]
abbrev pub is_key : ℕ → Bool
is_key c = leb b'A' c && leb c b'Z' || leb b'0' c && leb c b'9'

-- `listing.aspects[field] ?? []`
pub aspect : String → List (String × List Text) → List Text
aspect field [] = []
aspect field ((name, values) ∷ rest) = if str_eq name field then values else aspect field rest

abbrev pub is_empty {ℓ} : {A : Type ℓ} → List A → Bool
is_empty [] = true
is_empty (x ∷ xs) = false

module _ (upper : ℕ → Text) where
  unfoldable pub upper_text : Text → Text
  upper_text [] = []
  upper_text (c ∷ s) = upper c ++ upper_text s

  unfoldable pub normalize_part_number : Text → Text
  unfolding upper_text
  normalize_part_number value = select is_key (upper_text value)

  -- The callback of `filter`: some value of the field is the part number.
  pub matches_field : Text → List (String × List Text) → String → Bool
  matches_field expected aspects field =
      any (λ value. same_text (normalize_part_number value) expected) (aspect field aspects)

  unfoldable pub match_listing : {W : Type 0} → RawListing W → Text → List String
  match_listing listing query =
      let expected = normalize_part_number query in
      select (matches_field expected listing.aspects) part_fields

  module _ {W : Type 0} ⦃d : Double W⦄ (lower : Text → Text) (own_sellers : Text → Bool) where
    -- The callback of `flatMap`.
    competitor : Text → RawListing W → List (MatchedListing W)
    competitor normalized candidate =
        let matched = match_listing candidate normalized in
        if is_empty matched || own_sellers (lower candidate.seller)
        then []
        else record { raw = candidate; matched_on = matched; landed_price = cents candidate.price }
          ∷ []

    competitors : Text → List (RawListing W) → List (MatchedListing W)
    competitors normalized [] = []
    competitors normalized (candidate ∷ candidates) =
        competitor normalized candidate ++ competitors normalized candidates

    unfoldable pub select_exact_competitors : List (RawListing W) → Text → List (MatchedListing W)
    unfolding competitor competitors
    select_exact_competitors candidates part_number =
        competitors (normalize_part_number part_number) candidates
