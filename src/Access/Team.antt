-- ===== src/Access/Team.antt =====
-- The members of an organization: apps/api/src/organization-team-service.ts, from
-- `canManageMemberRole` on. `lockOrganization` makes the transactions of an organization follow each other; it
-- writes nothing.
pub mod Owners
pub mod Removal
use ebay_pricing_intelligenc.Prelude.{
  ℕ, ◌+◌, String, Bool, true, false, not, ◌&&◌, ◌||◌, List, [], ◌∷◌, Option, none, some, Result, ok,
  err, fail, ◌>>=◌, ◌>>◌, require, ◌==◌, is_some, if◌then◌else◌, Failure,
}
use text.Mathlib.Text.{◌==◌ as str_eq}
use ebay_pricing_intelligenc.Database.{Prisma, p2025}
use ebay_pricing_intelligenc.Schema.{AuditEvent, AuditSeverity}
use ebay_pricing_intelligenc.Access.{OrganizationRole, same_role}
use ebay_pricing_intelligenc.Access.Permissions.{
  effective_organization_permissions, normalize_organization_permissions,
}
use ebay_pricing_intelligenc.Access.Store.{Membership, AccessStore, record_access_event}
use ebay_pricing_intelligenc.Access.Sessions.{revoked}

abbrev pub is_owner : OrganizationRole → Bool
is_owner OrganizationRole.owner = true
is_owner _ = false

abbrev pub is_admin : OrganizationRole → Bool
is_admin OrganizationRole.admin = true
is_admin _ = false

-- `nextRole` is `undefined` when a member is removed.
abbrev pub next_is_owner : Option OrganizationRole → Bool
next_is_owner none = false
next_is_owner (some role) = is_owner role

unfoldable pub can_manage_member_role :
    OrganizationRole → OrganizationRole → Option OrganizationRole → Bool
can_manage_member_role actor_role target_role next_role =
    if is_owner actor_role
    then true
    else if not (is_admin actor_role)
    then false
    else if is_owner target_role
    then false
    else not (next_is_owner next_role)

-- `privilegedRoles`
abbrev is_privileged : OrganizationRole → Bool
is_privileged role = is_owner role || is_admin role

-- Two lists of texts have the same JSON.
abbrev same_texts : List String → List String → Bool
same_texts [] [] = true
same_texts (x ∷ xs) (y ∷ ys) = str_eq x y && same_texts xs ys
same_texts _ _ = false

pub record ChangeInput : Type 0 where
  pub organization_id : ℕ
  pub actor_user_id : ℕ
  pub actor_role : OrganizationRole
  pub membership_id : ℕ
  pub role : OrganizationRole
  pub permissions : Option (List String)

pub record RemoveInput : Type 0 where
  pub organization_id : ℕ
  pub actor_user_id : ℕ
  pub actor_role : OrganizationRole
  pub membership_id : ℕ

abbrev pub owns : ℕ → Membership → Bool
owns organization_id m = m.organization_id == organization_id && is_owner m.role

abbrev pub is_member : ℕ → ℕ → Membership → Bool
is_member id organization_id m = m.id == id && m.organization_id == organization_id

abbrev event_of : ℕ → ℕ → String → ℕ → AuditSeverity → AuditEvent
event_of organization_id actor_user_id action resource_id severity = record {
  organization_id = organization_id;
  actor_user_id = some actor_user_id;
  action = action;
  resource_id = resource_id;
  severity = severity;
}

abbrev with_default : List String → Option (List String) → List String
with_default permissions none = permissions
with_default permissions (some given) = given

unfoldable pub permissions_for : ChangeInput → Membership → List String
permissions_for input membership =
    effective_organization_permissions input.role
      (normalize_organization_permissions (with_default membership.permissions input.permissions))

unfoldable pub is_unchanged : ChangeInput → Membership → Bool
unfolding permissions_for
is_unchanged input membership =
    same_role membership.role input.role
    && same_texts membership.permissions (permissions_for input membership)

module _ (db : Prisma) where
  unfoldable pub assert_last_owner_safe :
      ℕ → ℕ → OrganizationRole → Option OrganizationRole → AccessStore → Result (Unit {0})
  assert_last_owner_safe organization_id membership_id current_role next_role s =
      if not (is_owner current_role) || next_is_owner next_role
      then ok tt
      else require
          (not (
            db.count (λ m. owns organization_id m && not (m.id == membership_id)) s.memberships
            == 0))
          409 "The last owner cannot be removed or demoted"

  -- The callback of the transaction; `membership` was read before it.
  unfoldable pub change_tx :
      ChangeInput → Membership → List String → AccessStore → Result (Membership × AccessStore)
  change_tx input membership permissions s = do
    assert_last_owner_safe input.organization_id membership.id membership.role (some input.role) s
    memberships ←
        db.update (λ x y. false) (λ m. m.id == membership.id)
          (λ m. record m { role = input.role; permissions = permissions }) s.memberships
    s' ←
        record_access_event db
          (event_of input.organization_id input.actor_user_id "organization.member.role_changed"
            membership.id
            (if is_privileged input.role || is_privileged membership.role
              then AuditSeverity.warning
              else AuditSeverity.info))
          (record s { memberships = memberships })
    ok (record membership { role = input.role; permissions = permissions }, s')

  -- `meanwhile` is what other requests do before the transaction has its lock.
  abbrev pub change_member :
      (AccessStore → AccessStore)
      → ChangeInput
      → Option Membership
      → AccessStore
      → Result Membership × AccessStore
  change_member meanwhile input none s = (fail 404 "Member not found", s)
  change_member meanwhile input (some membership) s =
      if not (can_manage_member_role input.actor_role membership.role (some input.role))
      then (fail 409 "You cannot assign or modify this role", s)
      else if is_unchanged input membership
      then (ok membership, s)
      else db.transaction (change_tx input membership (permissions_for input membership))
          (meanwhile s)

  unfoldable pub change_organization_member_role :
      (AccessStore → AccessStore) → ChangeInput → AccessStore → Result Membership × AccessStore
  change_organization_member_role meanwhile input s =
      change_member meanwhile input
        (db.find_first (is_member input.membership_id input.organization_id) s.memberships) s

  -- `delete` wants its row to be there.
  abbrev deleted : List Membership × ℕ → Result (List Membership)
  deleted (rows, count) = if count == 0 then p2025 else ok rows

  unfoldable pub remove_tx :
      RemoveInput → Membership → ℕ → AccessStore → Result (Membership × AccessStore)
  remove_tx input membership now s = do
    assert_last_owner_safe input.organization_id membership.id membership.role none s
    s₁ ←
        record_access_event db
          (event_of input.organization_id input.actor_user_id "organization.member.removed"
            membership.id AuditSeverity.warning)
          s
    memberships ← deleted (db.delete_many (λ m. m.id == membership.id) s₁.memberships)
    ok (
      membership,
      record s₁ {
        sessions =
            (db.update_many
              (λ r.
                r.organization_id == input.organization_id
                && r.user_id == membership.user_id
                && not (is_some r.revoked_at))
              (revoked now) s₁.sessions).0;
        memberships = memberships;
      },
    )

  abbrev pub remove_member :
      (AccessStore → AccessStore)
      → RemoveInput
      → ℕ
      → Option Membership
      → AccessStore
      → Result Membership × AccessStore
  remove_member meanwhile input now none s = (fail 404 "Member not found", s)
  remove_member meanwhile input now (some membership) s =
      if not (can_manage_member_role input.actor_role membership.role none)
      then (fail 409 "You cannot remove this member", s)
      else db.transaction (remove_tx input membership now) (meanwhile s)

  unfoldable pub remove_organization_member :
      (AccessStore → AccessStore) → RemoveInput → ℕ → AccessStore → Result Membership × AccessStore
  remove_organization_member meanwhile input now s =
      remove_member meanwhile input now
        (db.find_first (is_member input.membership_id input.organization_id) s.memberships) s
