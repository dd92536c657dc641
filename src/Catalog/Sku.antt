-- ===== src/Catalog/Sku.antt =====
-- `allocateOrganizationSku` and `updateOrganizationSkuPolicy` of
-- apps/api/src/sku-policy-service.ts. Texts are lists of UTF-16 code units, which `slice` counts;
-- `upper` is what `toUpperCase` makes of one of them, and letters of two code units that have an
-- upper case are left aside. The row lock of the organization writes nothing.
pub mod Allocation
use ebay_pricing_intelligenc.Prelude.{
  ℕ, zero, suc, ◌+◌, ◌-◌, ◌/◌, ◌%◌, Bool, true, false, ◌&&◌, ◌||◌, List, [], ◌∷◌, ◌++◌, Option,
  none, some, Result, ok, err, fail, ◌>>=◌, ◌==◌, leb, ltb, is_some, take, select, length, not,
  require, ◌>>◌, String, if◌then◌else◌,
}
use ebay_pricing_intelligenc.Database.{Prisma, p2002}
use ebay_pricing_intelligenc.Schema.{AuditEvent, AuditSeverity}
use ebay_pricing_intelligenc.Market.Matching.{Text, same_text, is_key, is_empty, upper_text}

pub data SkuMode : Type 0 where
  by_part_number sequential : SkuMode

-- model Organization, and the columns of model Part that the service reads
pub record Organization : Type 0 where
  pub id : ℕ
  pub sku_mode : SkuMode
  pub sku_prefix : Text
  pub sku_next_number : ℕ

pub record CatalogPart : Type 0 where
  pub organization_id : ℕ
  pub normalized_sku : Text

pub record Catalog : Type 0 where
  pub organizations : List Organization
  pub parts : List CatalogPart
  pub audit : List AuditEvent

pub record Sku : Type 0 where
  pub sku : Text
  pub normalized_sku : Text

-- \s
abbrev pub is_space : ℕ → Bool
is_space c =
    leb 9 c && leb c 13
    || c == 32
    || c == 160
    || c == 5760
    || leb 8192 c && leb c 8202
    || c == 8232
    || c == 8233
    || c == 8239
    || c == 8287
    || c == 12288
    || c == 65279

unfoldable pub trim_start : Text → Text
trim_start [] = []
trim_start (c ∷ s) = let rest = trim_start s in if is_space c then rest else c ∷ s

unfoldable pub trim_end : Text → Text
trim_end [] = []
trim_end (c ∷ s) = let rest = trim_end s in if is_space c && is_empty rest then [] else c ∷ rest

-- replace(/\s+/g, "-"); the flag says that the character before was a space.
unfoldable pub dashed : Bool → Text → Text
dashed after [] = []
dashed after (c ∷ s) =
    let in_run = dashed true s in
    let outside = dashed false s in
    if is_space c then (if after then in_run else 45 ∷ in_run) else c ∷ outside

unfoldable pub part_number_to_sku : (ℕ → Text) → Text → Text
part_number_to_sku upper value =
    take 100 (dashed false (upper_text upper (trim_end (trim_start value))))

-- The decimal digits of a number below 10 ^ fuel.
unfoldable pub digits : ℕ → ℕ → Text → Text
digits zero n tail = tail
digits (suc fuel) n tail =
    let more = digits fuel (n / 10) ((48 + n % 10) ∷ tail) in
    if ltb n 10 then (48 + n) ∷ tail else more

-- `${policy.skuPrefix}-${number}`; a number of the sequence has nine digits at most.
unfoldable pub sku_for : Text → ℕ → Text
sku_for prefix number = prefix ++ 45 ∷ digits 10 number []

module _ (db : Prisma) (upper : ℕ → Text) where
  abbrev pub is_used : ℕ → Text → Catalog → Bool
  is_used organization_id normalized_sku s = is_some (
      db.find_first
        (λ (p : CatalogPart).
          p.organization_id == organization_id && same_text p.normalized_sku normalized_sku)
        s.parts)

  abbrev pub sku_at : Text → ℕ → Sku
  sku_at prefix number = record {
    sku = sku_for prefix number;
    normalized_sku = upper_text upper (sku_for prefix number);
  }

  abbrev pub take_number : ℕ → Text → ℕ → Catalog → Result (Sku × Catalog)
  take_number organization_id prefix number s = do
    organizations ←
        db.update (λ x y. false) (λ o. o.id == organization_id)
          (λ (o : Organization). record o { sku_next_number = number + 1 }) s.organizations
    ok (sku_at prefix number, record s { organizations = organizations })

  -- The loop; the first argument counts the numbers that are left in the sequence.
  unfoldable pub allocate_from : ℕ → ℕ → ℕ → Text → Catalog → Result (Sku × Catalog)
  allocate_from zero number organization_id prefix s =
      fail 409 "No SKU numbers remain in the configured sequence"
  allocate_from (suc left) number organization_id prefix s =
      let rest = allocate_from left (number + 1) organization_id prefix s in
      if is_used organization_id (sku_at prefix number).normalized_sku s
      then rest
      else take_number organization_id prefix number s

  abbrev pub allocate_part_number : ℕ → Text → Catalog → Result (Sku × Catalog)
  allocate_part_number organization_id sku s =
      if is_empty sku
      then fail 400 "Part number cannot be converted into an SKU"
      else if is_used organization_id sku s
      then fail 409 "SKU already exists in the catalog"
      else ok (record { sku = sku; normalized_sku = sku }, s)

  abbrev pub allocate_by : ℕ → Text → Catalog → Text → ℕ → SkuMode → Result (Sku × Catalog)
  allocate_by organization_id part_number s prefix next by_part_number =
      allocate_part_number organization_id (part_number_to_sku upper part_number) s
  allocate_by organization_id part_number s prefix next sequential =
      allocate_from (1_000_000_000 - next) next organization_id prefix s

  abbrev pub allocate_found : ℕ → Text → Catalog → Option Organization → Result (Sku × Catalog)
  allocate_found organization_id part_number s none = fail 404 "Organization not found"
  allocate_found organization_id part_number s (some policy) =
      allocate_by organization_id part_number s policy.sku_prefix policy.sku_next_number
        policy.sku_mode

  unfoldable pub allocate_organization_sku : ℕ → Text → Catalog → Result (Sku × Catalog)
  allocate_organization_sku organization_id part_number s =
      allocate_found organization_id part_number s
        (db.find_first (λ o. o.id == organization_id) s.organizations)

-- The argument of `updateOrganizationSkuPolicy`.
pub record PolicyInput : Type 0 where
  pub organization_id : ℕ
  pub actor_user_id : ℕ
  pub mode : SkuMode
  pub prefix : Option Text
  pub next_number : Option ℕ

abbrev pub is_sequential : SkuMode → Bool
is_sequential sequential = true
is_sequential by_part_number = false

unfoldable pub normalize_sku_prefix : (ℕ → Text) → Text → Text
normalize_sku_prefix upper value = select is_key (upper_text upper (trim_end (trim_start value)))

abbrev pub prefix_of : (ℕ → Text) → Option Text → Text
prefix_of upper none = []
prefix_of upper (some value) = normalize_sku_prefix upper value

abbrev pub number_of : Option ℕ → ℕ
number_of none = 0
number_of (some n) = n

abbrev pub is_prefix : Text → Bool
is_prefix prefix = not (ltb (length prefix) 2) && not (ltb 20 (length prefix))

abbrev pub is_number : Option ℕ → Bool
is_number none = false
is_number (some n) = not (ltb 999_999_999 n)

abbrev pub with_policy : SkuMode → Text → ℕ → Organization → Organization
with_policy sequential prefix next_number o = record o {
  sku_mode = sequential;
  sku_prefix = prefix;
  sku_next_number = next_number;
}
with_policy by_part_number prefix next_number o = record o { sku_mode = by_part_number }

module _ (db : Prisma) (upper : ℕ → Text) where
  unfoldable pub policy_tx : PolicyInput → Catalog → Result (Unit {0} × Catalog)
  policy_tx input s = do
    organizations ←
        db.update (λ x y. false) (λ o. o.id == input.organization_id)
          (with_policy input.mode (prefix_of upper input.prefix) (number_of input.next_number))
          s.organizations
    elim (db.create (λ x y. false)
        (record {
          organization_id = input.organization_id;
          actor_user_id = some input.actor_user_id;
          action = "organization.sku_policy.updated";
          resource_id = input.organization_id;
          severity = AuditSeverity.info;
        })
        s.audit) [
          | none ↦ p2002
          | some audit ↦ ok (tt, record s { organizations = organizations; audit = audit })
        ]

  -- The checks before the transaction.
  unfoldable pub check_policy : PolicyInput → Result (Unit {0})
  check_policy input = do
    require (not (is_sequential input.mode) || is_prefix (prefix_of upper input.prefix)) 400
        "SKU prefix must contain 2 to 20 letters or numbers"
    require (not (is_sequential input.mode) || is_number input.next_number) 400
        "Starting suffix must be a whole number between 0 and 999999999"

  abbrev pub update_checked :
      PolicyInput → Catalog → Result (Unit {0}) → Result (Unit {0}) × Catalog
  update_checked input s (err e) = (err e, s)
  update_checked input s (ok u) = db.transaction (policy_tx input) s

  unfoldable pub update_organization_sku_policy :
      PolicyInput → Catalog → Result (Unit {0}) × Catalog
  update_organization_sku_policy input s = update_checked input s (check_policy input)
