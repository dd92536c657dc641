-- ===== src/Fitment/Properties.antt =====
-- `normalizeManualFitmentProperties` and `requiredVehicleProperties` of
-- apps/api/src/manual-fitment-service.ts. An object is the list of its entries; no name is an array
-- index, which JavaScript would put first.
use ebay_pricing_intelligenc.Prelude.{
  ℕ, Bool, false, not, ◌&&◌, List, [], ◌∷◌, Result, ok, fail, require, select, map, if◌then◌else◌,
}
use ebay_pricing_intelligenc.Market.Matching.{Text, same_text, is_empty}
use ebay_pricing_intelligenc.Catalog.Sku.{trim_start, trim_end}

abbrev pub Entries : Type 0
Entries = List (Text × Text)

-- JavaScript and Node: `toLowerCase`, `left.localeCompare(right) <= 0`, and the hash of the JSON of an
-- object; and the texts that the services make of an identifier.
pub record Texts : Type 0 where
  pub to_lower : Text → Text
  pub comes_before : Text → Text → Bool
  pub fingerprint_of : Entries → ℕ
  pub replaced_by : ℕ → Text

abbrev pub trimmed_text : Text → Text
trimmed_text t = trim_end (trim_start t)

-- Object.fromEntries: a later value of a name takes the place of the earlier one.
abbrev pub set_entry : Text → Text → Entries → Entries
set_entry name value [] = (name, value) ∷ []
set_entry name value (e ∷ es) =
    let rest = set_entry name value es in
    if same_text e.0 name then (name, value) ∷ es else e ∷ rest

abbrev pub from_entries : Entries → Entries → Entries
from_entries object [] = object
from_entries object (e ∷ es) = from_entries (set_entry e.0 e.1 object) es

module _ (texts : Texts) where
  abbrev pub insert_entry : Text × Text → Entries → Entries
  insert_entry e [] = e ∷ []
  insert_entry e (f ∷ fs) =
      let rest = insert_entry e fs in if texts.comes_before e.0 f.0 then e ∷ f ∷ fs else f ∷ rest

  abbrev pub sort_by_name : Entries → Entries
  sort_by_name [] = []
  sort_by_name (e ∷ es) = insert_entry e (sort_by_name es)

  abbrev pub normalized_entries : Entries → Entries
  normalized_entries properties = from_entries [] (
      sort_by_name (
        select (λ e. not (is_empty e.0) && not (is_empty e.1))
          (map (λ e. (trimmed_text e.0, trimmed_text e.1)) properties)))

  unfoldable pub normalize_manual_fitment_properties : Entries → Result (Entries × ℕ)
  normalize_manual_fitment_properties properties =
      let normalized = normalized_entries properties in
      if is_empty normalized
      then fail 400 "At least one compatibility property is required"
      else ok (normalized, texts.fingerprint_of normalized)

  -- `lower.get(name)` is a text that is not empty: the last entry of that name has one.
  abbrev pub has_value : Text → Bool → Entries → Bool
  has_value name found [] = found
  has_value name found (e ∷ es) =
      has_value name (if same_text (texts.to_lower e.0) name then not (is_empty e.1) else found) es

  abbrev pub year_name : Text
  year_name = 121 ∷ 101 ∷ 97 ∷ 114 ∷ []

  abbrev pub make_name : Text
  make_name = 109 ∷ 97 ∷ 107 ∷ 101 ∷ []

  abbrev pub model_name : Text
  model_name = 109 ∷ 111 ∷ 100 ∷ 101 ∷ 108 ∷ []

  unfoldable pub required_vehicle_properties : Entries → Result (Unit {0})
  required_vehicle_properties properties =
      require
        (has_value year_name false properties
          && has_value make_name false properties
          && has_value model_name false properties)
        400 "Year, Make, and Model are required for manual compatibility"
