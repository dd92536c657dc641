-- ===== src/Access/Permissions.antt =====
-- apps/api/src/organization-access.ts: the granular permissions of a member.
pub mod Laws
use ebay_pricing_intelligenc.Prelude.{
  String, Bool, true, false, List, [], ◌∷◌, ◌&&◌, ◌||◌, not, any, select, if◌then◌else◌,
}
use text.Mathlib.Text.{◌==◌ as str_eq}
use ebay_pricing_intelligenc.Access.{
  OrganizationRole, owner, admin, listing_manager, store_manager, manager, catalog_operator,
  pricing_operator, publisher, viewer,
}

abbrev pub organization_permissions : List String
organization_permissions =
    "tab.dashboard" ∷ "tab.quick_sku" ∷ "tab.pipeline" ∷ "tab.catalog" ∷ "tab.pricing"
    ∷ "tab.media_drive" ∷ "tab.inventory" ∷ "tab.orders" ∷ "tab.fitment" ∷ "tab.shipping"
    ∷ "tab.channels" ∷ "tab.reports" ∷ "tab.settings" ∷ "dashboard.view" ∷ "quick_sku.create"
    ∷ "pipeline.view" ∷ "pipeline.upload" ∷ "pipeline.manage" ∷ "catalog.view" ∷ "catalog.edit"
    ∷ "catalog.delete" ∷ "catalog.publish" ∷ "pricing.view" ∷ "pricing.run" ∷ "pricing.edit"
    ∷ "pricing.export" ∷ "media.view" ∷ "media.upload" ∷ "media.delete" ∷ "inventory.view"
    ∷ "inventory.edit" ∷ "orders.view" ∷ "orders.manage" ∷ "fitment.view" ∷ "fitment.manage"
    ∷ "shipping.view" ∷ "shipping.manage" ∷ "channels.manage" ∷ "reports.view" ∷ "team.manage"
    ∷ "admin.manage" ∷ []

-- `includes`
pub includes : List String → String → Bool
includes values value = any (λ v. str_eq v value) values

abbrev pub role_default_permissions : OrganizationRole → List String
role_default_permissions owner = organization_permissions
role_default_permissions admin = organization_permissions
role_default_permissions listing_manager =
    "tab.quick_sku" ∷ "quick_sku.create" ∷ "tab.pipeline" ∷ "pipeline.view" ∷ "pipeline.upload"
    ∷ "pipeline.manage" ∷ "tab.catalog" ∷ "catalog.view" ∷ "catalog.edit" ∷ "catalog.delete"
    ∷ "catalog.publish" ∷ "tab.pricing" ∷ "pricing.view" ∷ "pricing.run" ∷ "pricing.edit"
    ∷ "pricing.export" ∷ "tab.media_drive" ∷ "media.view" ∷ "media.upload" ∷ "media.delete" ∷ []
role_default_permissions store_manager =
    "tab.dashboard" ∷ "dashboard.view" ∷ "tab.inventory" ∷ "inventory.view" ∷ "inventory.edit"
    ∷ "tab.orders" ∷ "orders.view" ∷ "orders.manage" ∷ "tab.pricing" ∷ "pricing.view"
    ∷ "pricing.run" ∷ "pricing.edit" ∷ "pricing.export" ∷ "tab.fitment" ∷ "fitment.view"
    ∷ "fitment.manage" ∷ "tab.shipping" ∷ "shipping.view" ∷ "shipping.manage" ∷ []
role_default_permissions manager =
    select (λ p. not (str_eq p "team.manage") && not (str_eq p "admin.manage"))
      organization_permissions
role_default_permissions catalog_operator =
    "tab.quick_sku" ∷ "quick_sku.create" ∷ "tab.pipeline" ∷ "pipeline.view" ∷ "pipeline.upload"
    ∷ "pipeline.manage" ∷ "tab.catalog" ∷ "catalog.view" ∷ "catalog.edit" ∷ "tab.media_drive"
    ∷ "media.view" ∷ "media.upload" ∷ []
role_default_permissions pricing_operator =
    "tab.pricing" ∷ "pricing.view" ∷ "pricing.run" ∷ "pricing.edit" ∷ "pricing.export" ∷ []
role_default_permissions publisher = "tab.catalog" ∷ "catalog.view" ∷ "catalog.publish" ∷ []
role_default_permissions viewer = []

unfoldable pub is_organization_permission : String → Bool
unfolding includes
is_organization_permission value = includes organization_permissions value

-- `[...new Set(values)]`: the first of each value, in order.
distinct_from : List String → List String → List String
distinct_from seen [] = []
distinct_from seen (v ∷ vs) =
    if includes seen v then distinct_from seen vs else v ∷ distinct_from (v ∷ seen) vs

pub distinct : List String → List String
unfolding distinct_from includes
distinct values = distinct_from [] values

unfoldable pub normalize_organization_permissions : List String → List String
unfolding distinct is_organization_permission
normalize_organization_permissions values = distinct (select is_organization_permission values)

abbrev is_privileged : OrganizationRole → Bool
is_privileged owner = true
is_privileged admin = true
is_privileged _ = false

abbrev is_nonempty : List String → Bool
is_nonempty [] = false
is_nonempty (v ∷ vs) = true

unfoldable pub effective_organization_permissions : OrganizationRole → List String → List String
unfolding normalize_organization_permissions
effective_organization_permissions role overrides =
    if is_privileged role
    then organization_permissions
    else if is_nonempty overrides
    then normalize_organization_permissions overrides
    else role_default_permissions role

unfoldable pub has_organization_permission : OrganizationRole → List String → String → Bool
unfolding effective_organization_permissions includes
has_organization_permission role overrides permission =
    includes (effective_organization_permissions role overrides) permission
