-- ===== src/Access/Permissions/Laws.antt =====
-- What a member's permissions are.
use ebay_pricing_intelligenc.Prelude.{
  ◌≡◌, refl, ap, ◌∙◌, String, Bool, List, [], ◌∷◌, ◌&&◌, ◌||◌, select, if◌then◌else◌, arith,
}
use text.Mathlib.TextEquality.{eq_iff}
use ebay_pricing_intelligenc.Access.{
  OrganizationRole, owner, role_has_permission, catalog_write, pricing, listing_publish,
  administration, team_management,
}
use ebay_pricing_intelligenc.Access.Permissions.{
  includes, role_default_permissions, is_organization_permission, distinct_from, distinct,
  normalize_organization_permissions, has_organization_permission, is_privileged, is_nonempty,
}

includes-congr : (vs : List String) (a b : String) → a ≡ b → includes vs a ≡ includes vs b
includes-congr vs a b h = ap (includes vs) h

includes-distinct_from :
    (seen vs : List String) (p : String)
    → (includes seen p || includes (distinct_from seen vs) p) ≡ (includes seen p || includes vs p)
unfolding distinct_from includes
includes-distinct_from seen [] p = refl
includes-distinct_from seen (v ∷ vs) p = ground (
  arith,
  eq_iff v p,
  includes-congr seen v p,
  includes-distinct_from seen vs p,
  includes-distinct_from (v ∷ seen) vs p,
)

includes-select :
    (f : String → Bool) (vs : List String) (p : String)
    → includes (select f vs) p ≡ (f p && includes vs p)
unfolding includes
includes-select f [] p = ground arith
includes-select f (v ∷ vs) p =
    ground (arith, eq_iff v p, λ (e : v ≡ p). ap f e, includes-select f vs p)

includes-normalize :
    (vs : List String) (p : String)
    → includes (normalize_organization_permissions vs) p
      ≡ (is_organization_permission p && includes vs p)
unfolding normalize_organization_permissions distinct
includes-normalize vs p =
    includes-distinct_from [] (select is_organization_permission vs) p
    ∙ includes-select is_organization_permission vs p

-- An owner and an admin hold exactly the known permissions, whatever overrides are stored.
-- Any other member holds exactly the known ones among the stored overrides, if there are any, and
-- the defaults of the role if there are none.
has_organization_permission_lem :
    (role : OrganizationRole) (overrides : List String) (p : String)
    → has_organization_permission role overrides p ≡ (
        if is_privileged role
        then is_organization_permission p
        else if is_nonempty overrides
        then is_organization_permission p && includes overrides p
        else includes (role_default_permissions role) p)
unfolding has_organization_permission is_organization_permission
has_organization_permission_lem role overrides p = ground (arith, includes-normalize overrides p)

-- Where a route checks the role and where it checks the granular permission of that name, a member
-- without overrides is treated alike: editing the catalog, pricing, publishing, administration
-- and the team.
pub policies_agree :
    (role : OrganizationRole)
    → (role_has_permission role catalog_write ≡ has_organization_permission role [] "catalog.edit")
      × (role_has_permission role pricing ≡ has_organization_permission role [] "pricing.run")
      × (role_has_permission role listing_publish
          ≡ has_organization_permission role [] "catalog.publish")
      × (role_has_permission role administration
          ≡ has_organization_permission role [] "admin.manage")
      × (role_has_permission role team_management
          ≡ has_organization_permission role [] "team.manage")
unfolding role_has_permission has_organization_permission
policies_agree owner = (refl, refl, refl, refl, refl)
policies_agree _ = (refl, refl, refl, refl, refl)
