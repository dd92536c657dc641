-- ===== src/Fitment/Discovery.antt =====
-- `scoreFitmentCandidate`, `normalizeFitmentApplications`, `jobStatus`, `refreshFitmentJob` and
-- `approveFitmentCandidate` of apps/api/src/fitment-service.ts. What eBay answers is an argument.
use ebay_pricing_intelligenc.Prelude.{
  ℕ, ◌+◌, String, Bool, true, false, not, ◌&&◌, ◌||◌, List, [], ◌∷◌, ◌++◌, Option, none, some, ◌==◌,
  leb, any, all, select, count, length, if◌then◌else◌,
}
use ebay_pricing_intelligenc.Schema.{FitmentItemStatus, FitmentJobStatus}
use ebay_pricing_intelligenc.Market.Matching.{Text, same_text, is_empty, normalize_part_number}
use ebay_pricing_intelligenc.Fitment.{FitmentStore}
use ebay_pricing_intelligenc.Fitment.Properties.{Entries, Texts, sort_by_name, trimmed_text}

pub record EbayCandidate : Type 0 where
  pub epid : ℕ
  pub title : Text
  pub brand : Option Text
  pub aspects : List (Text × List Text)

pub record Scored : Type 0 where
  pub candidate : EbayCandidate
  pub score : ℕ
  pub matched_on : List String

-- model FitmentJob and FitmentJobItem, with the columns that a review reads and writes
pub record ReviewJob : Type 0 where
  pub id : ℕ
  pub organization_id : ℕ
  pub marketplace : String
  pub status : FitmentJobStatus
  pub reviewed_items : ℕ
  pub no_candidate_items : ℕ
  pub failed_items : ℕ
  pub completed_at : Option ℕ
  pub lease_owner : Option ℕ
  pub lease_expires_at : Option ℕ

pub record ReviewItem : Type 0 where
  pub id : ℕ
  pub organization_id : ℕ
  pub job_id : ℕ
  pub part_id : ℕ
  pub status : FitmentItemStatus
  pub approved_candidate_id : Option ℕ
  pub metadata_version : Option Text
  pub application_count : ℕ
  pub completed_at : Option ℕ
  pub error : Option String

-- model FitmentCandidate
pub record CandidateRow : Type 0 where
  pub id : ℕ
  pub item_id : ℕ
  pub epid : ℕ

pub record ReviewStore (W : Type 0) : Type 0 where
  pub jobs : List ReviewJob
  pub items : List ReviewItem
  pub candidates : List CandidateRow
  pub fitments : FitmentStore W

-- `toLowerCase` of the texts, `toUpperCase` of one code unit, and the names of the aspects that hold
-- a part number.
pub record Words : Type 0 where
  pub texts : Texts
  pub upper : ℕ → Text
  pub aspect_names : List Text
  pub replaced_by_candidate : ℕ → Text

abbrev pub starts_with : Text → Text → Bool
starts_with [] t = true
starts_with (c ∷ cs) [] = false
starts_with (c ∷ cs) (d ∷ ds) = c == d && starts_with cs ds

-- text.includes(part)
abbrev pub includes_text : Text → Text → Bool
includes_text part [] = is_empty part
includes_text part (c ∷ cs) = starts_with part (c ∷ cs) || includes_text part cs

abbrev pub is_alphanumeric : ℕ → Bool
is_alphanumeric c = leb 97 c && leb c 122 || leb 48 c && leb c 57

abbrev pub points : Bool → ℕ → ℕ
points matched n = if matched then n else 0

abbrev pub reason_if : Bool → String → List String
reason_if matched reason = if matched then reason ∷ [] else []

module _ (words : Words) where
  abbrev pub normalized_text : Option Text → Text
  normalized_text none = []
  normalized_text (some t) = select is_alphanumeric (words.texts.to_lower t)

  abbrev pub has_part_number : Text → Text × List Text → Bool
  has_part_number part_number aspect =
      any (λ name. same_text name (words.texts.to_lower aspect.0)) words.aspect_names
      && any (λ value. same_text (normalize_part_number words.upper value) part_number) aspect.1

  unfoldable pub score_fitment_candidate : EbayCandidate → Text → Option Text → Scored
  score_fitment_candidate candidate part_number brand =
      let number = normalize_part_number words.upper part_number in
      let aspect_match = any (has_part_number number) candidate.aspects in
      let title_match = includes_text number (normalize_part_number words.upper candidate.title) in
      let own_brand = normalized_text brand in
      let brand_match =
        not (is_empty own_brand)
        && (same_text (normalized_text candidate.brand) own_brand
            || includes_text own_brand (normalized_text (some candidate.title))) in
      record {
        candidate = candidate;
        score = points aspect_match 70 + points brand_match 20 + points title_match 10;
        matched_on =
            reason_if aspect_match "exact part-number aspect"
            ++ reason_if brand_match "brand"
            ++ reason_if title_match "part number in title";
      }

  abbrev pub sorted_properties : Entries → Entries
  sorted_properties properties =
      sort_by_name words.texts (select (λ e. not (is_empty (trimmed_text e.1))) properties)

  -- `seen` holds the fingerprints before.
  abbrev pub normalize_from : List ℕ → List Entries → List (ℕ × Entries)
  normalize_from seen [] = []
  normalize_from seen (properties ∷ rest) =
      let sorted = sorted_properties properties in
      let fingerprint = words.texts.fingerprint_of sorted in
      let skipped = normalize_from seen rest in
      let kept = normalize_from (fingerprint ∷ seen) rest in
      if is_empty sorted || any (λ f. f == fingerprint) seen
      then skipped
      else (fingerprint, sorted) ∷ kept

  unfoldable pub normalize_fitment_applications : List Entries → List (ℕ × Entries)
  normalize_fitment_applications applications = normalize_from [] applications

-- `discoveryTerminalStatuses`
abbrev pub is_discovered : FitmentItemStatus → Bool
is_discovered FitmentItemStatus.queued = false
is_discovered FitmentItemStatus.running = false
is_discovered _ = true

abbrev pub needs_review : FitmentItemStatus → Bool
needs_review FitmentItemStatus.review_required = true
needs_review _ = false

abbrev pub has_failed : FitmentItemStatus → Bool
has_failed FitmentItemStatus.failed = true
has_failed _ = false

abbrev pub item_is_approved : FitmentItemStatus → Bool
item_is_approved FitmentItemStatus.approved = true
item_is_approved _ = false

abbrev pub has_no_candidate : FitmentItemStatus → Bool
has_no_candidate FitmentItemStatus.no_candidate = true
has_no_candidate _ = false

unfoldable pub job_status : List FitmentItemStatus → FitmentJobStatus
job_status statuses =
    if not (all is_discovered statuses)
    then FitmentJobStatus.running
    else if not (count needs_review statuses == 0)
    then FitmentJobStatus.review_required
    else if count has_failed statuses == length statuses
    then FitmentJobStatus.failed
    else if not (count has_failed statuses == 0)
    then FitmentJobStatus.partial
    else FitmentJobStatus.completed

abbrev pub refreshed : List FitmentItemStatus → ℕ → ReviewJob → ReviewJob
refreshed statuses now j = record j {
  status = job_status statuses;
  reviewed_items = count item_is_approved statuses;
  no_candidate_items = count has_no_candidate statuses;
  failed_items = count has_failed statuses;
  completed_at = if all is_discovered statuses then some now else j.completed_at;
  lease_owner = if all is_discovered statuses then none else j.lease_owner;
  lease_expires_at = if all is_discovered statuses then none else j.lease_expires_at;
}
