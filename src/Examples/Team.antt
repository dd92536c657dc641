-- ===== src/Examples/Team.antt =====
-- The owner of an organization changes a member's role, and removes the member.
use ebay_pricing_intelligenc.Prelude.{◌≡◌, ap, refl, true, none, ok, arith}
use ebay_pricing_intelligenc.Database.Memory.{memory, memory-IsDocumented}
use ebay_pricing_intelligenc.Access.{OrganizationRole}
use ebay_pricing_intelligenc.Access.Store.{AccessStore, record_access_event}
use ebay_pricing_intelligenc.Access.Team.{
  ChangeInput, RemoveInput, is_member, can_manage_member_role, change_organization_member_role,
  assert_last_owner_safe, remove_tx, remove_organization_member,
}
use ebay_pricing_intelligenc.Access.Team.Owners.{
  HasOwner, IsQuiet, change_organization_member_role-HasOwner, remove_organization_member-HasOwner,
}
use ebay_pricing_intelligenc.Access.Team.Removal.{IsOut, remove_organization_member-IsOut}
use ebay_pricing_intelligenc.Examples.Access.{publisher_row, members}
use mathlib.Core.Option.{some-injective}

abbrev promotion : ChangeInput
promotion = record {
  organization_id = 9;
  actor_user_id = 4;
  actor_role = OrganizationRole.owner;
  membership_id = 21;
  role = OrganizationRole.admin;
  permissions = none;
}

abbrev removal : RemoveInput
removal = record {
  organization_id = 9;
  actor_user_id = 4;
  actor_role = OrganizationRole.owner;
  membership_id = 21;
}

quiet : IsQuiet (λ s. s) 21 9 members
quiet = record {
  same_role = λ m e.
      let same : publisher_row ≡ m = some-injective _ _ e in
      (λ h. absurd (ground (arith, same, h)), (λ h. ap (λ r. r.role) same, tt));
  has_owner = omega arith;
}

change_organization_member_role-HasOwner_example :
    HasOwner 9 (change_organization_member_role memory (λ s. s) promotion members).1
change_organization_member_role-HasOwner_example =
    change_organization_member_role-HasOwner memory memory-IsDocumented (λ s. s) promotion members
      quiet (omega arith)

remove_organization_member-HasOwner_example :
    HasOwner 9 (remove_organization_member memory (λ s. s) removal 50 members).1
remove_organization_member-HasOwner_example =
    remove_organization_member-HasOwner memory memory-IsDocumented (λ s. s) removal 50 members quiet
      (omega arith)

abbrev after_removal : AccessStore
after_removal = (remove_organization_member memory (λ s. s) removal 50 members).1

removes :
    remove_organization_member memory (λ s. s) removal 50 members
    ≡ (ok publisher_row, after_removal)
unfolding remove_organization_member can_manage_member_role remove_tx assert_last_owner_safe
    record_access_event
removes = refl

remove_organization_member-IsOut_example :
    (is_member 21 9 publisher_row ≡ true)
    × (can_manage_member_role OrganizationRole.owner publisher_row.role none ≡ true)
    × IsOut removal publisher_row after_removal
remove_organization_member-IsOut_example =
    remove_organization_member-IsOut memory memory-IsDocumented (λ s. s) removal 50 members
      after_removal publisher_row removes
