-- ===== src/Access.antt =====
-- Who may do what: apps/api/src/authorization-policy.ts and apps/api/src/organization-access.ts.
pub mod Permissions
pub mod Tokens
pub mod Store
pub mod Sessions
pub mod Team
pub mod Accounts
pub mod Invitations
use ebay_pricing_intelligenc.Prelude.{Bool, true, false, List, [], ◌∷◌, any}

-- type OrganizationRole of apps/api/src/auth.ts
pub data OrganizationRole : Type 0 where
  owner admin listing_manager store_manager manager : OrganizationRole
  catalog_operator pricing_operator publisher viewer : OrganizationRole

abbrev pub same_role : OrganizationRole → OrganizationRole → Bool
same_role owner owner = true
same_role admin admin = true
same_role listing_manager listing_manager = true
same_role store_manager store_manager = true
same_role manager manager = true
same_role catalog_operator catalog_operator = true
same_role pricing_operator pricing_operator = true
same_role publisher publisher = true
same_role viewer viewer = true
same_role _ _ = false

-- type OrganizationPermission
pub data PolicyPermission : Type 0 where
  catalog_write pricing pricing_rule fitment listing_publish : PolicyPermission
  dead_letter_operations administration team_management : PolicyPermission

abbrev organization_permission_roles : PolicyPermission → List OrganizationRole
organization_permission_roles catalog_write =
    owner ∷ admin ∷ listing_manager ∷ manager ∷ catalog_operator ∷ []
organization_permission_roles pricing =
    owner ∷ admin ∷ listing_manager ∷ store_manager ∷ manager ∷ pricing_operator ∷ []
organization_permission_roles pricing_rule = owner ∷ admin ∷ []
organization_permission_roles fitment =
    owner ∷ admin ∷ store_manager ∷ manager ∷ catalog_operator ∷ []
organization_permission_roles listing_publish =
    owner ∷ admin ∷ listing_manager ∷ manager ∷ publisher ∷ []
organization_permission_roles dead_letter_operations = owner ∷ admin ∷ manager ∷ []
organization_permission_roles administration = owner ∷ admin ∷ []
organization_permission_roles team_management = owner ∷ admin ∷ []

unfoldable pub role_has_permission : OrganizationRole → PolicyPermission → Bool
role_has_permission role permission =
    any (same_role role) (organization_permission_roles permission)
