-- ===== src/Access/Invitations/Manage.antt =====
-- `createOrganizationInvitation`, `revokeOrganizationInvitation` and
-- `previewOrganizationInvitation` of apps/api/src/organization-team-service.ts.
use ebay_pricing_intelligenc.Prelude.{
  ℕ, ◌+◌, ◌*◌, String, Bool, not, ◌&&◌, List, none, some, Result, ok, err, fail, ◌>>=◌, ◌>>◌,
  require, ◌==◌, leb, is_some, any, if◌then◌else◌,
}
use ebay_pricing_intelligenc.Database.{Prisma, p2025}
use ebay_pricing_intelligenc.Schema.{AuditSeverity}
use ebay_pricing_intelligenc.Schema.Store.{of_option}
use ebay_pricing_intelligenc.Market.Matching.{Text}
use ebay_pricing_intelligenc.Catalog.Sku.{trim_start, trim_end}
use ebay_pricing_intelligenc.Access.Permissions.{
  effective_organization_permissions, normalize_organization_permissions,
}
use ebay_pricing_intelligenc.Access.Store.{Membership}
use ebay_pricing_intelligenc.Access.Team.{is_owner}
use ebay_pricing_intelligenc.Access.Accounts.{
  User, AccountStore, Credentials, normalize_email, audit_access,
}
use ebay_pricing_intelligenc.Access.Invitations.{
  Invitation, InvitationStore, InviteInput, Preview, RevokeInput, admin_on_owner, expired, has_key,
  has_token, invitation_event, is_pending, mask_invitation_email, pending, pending_invitation,
  revoked_invitation, update_invitation, with_status,
}

module _ (db : Prisma) (secrets : Credentials) where
  -- A member of the organization whose user has the email.
  abbrev pub has_member : ℕ → Text → AccountStore → Bool
  has_member organization_id email s = is_some (
      db.find_first
        (λ (m : Membership).
          m.organization_id == organization_id
          && any (λ (u : User). u.id == m.user_id && secrets.same_email u.email email) s.users)
        s.access.memberships)

  abbrev pub permissions_of : InviteInput → List String
  permissions_of input =
      effective_organization_permissions input.role
        (normalize_organization_permissions input.permissions)

  abbrev pub new_invitation : InviteInput → Text → ℕ → ℕ → ℕ → Invitation
  new_invitation input email id token now = record {
    id = id;
    organization_id = input.organization_id;
    email = email;
    invited_name = some (trim_end (trim_start input.name));
    role = input.role;
    permissions = permissions_of input;
    token_hash = secrets.hash_token token;
    status = pending;
    invited_by_id = input.actor_user_id;
    accepted_by_id = none;
    expires_at = now + 7 * 24 * 60 * 60 * 1_000;
    accepted_at = none;
    revoked_at = none;
  }

  -- The `update` of the `upsert`: all but the identifier, the organization and the email.
  abbrev pub invited_again : InviteInput → Text → ℕ → ℕ → Invitation → Invitation
  invited_again input email token now i = record (new_invitation input email i.id token now) {
    organization_id = i.organization_id;
    email = i.email;
  }

  unfoldable pub invite_tx :
      InviteInput → Text → ℕ → ℕ → InvitationStore → Result (Invitation × InvitationStore)
  invite_tx input email token now s = do
    require (not (has_member input.organization_id email s.accounts)) 409
        "This email already has active organization access. Remove the member's access before sending a new invitation"
    let invitations =
        db.upsert (has_key input.organization_id email)
          (new_invitation input email s.accounts.next_id token now)
          (invited_again input email token now) s.invitations
    saved ← of_option p2025 (db.find_first (has_key input.organization_id email) invitations)
    accounts ←
        audit_access db
          (invitation_event input.organization_id input.actor_user_id
            "organization.invitation.created" saved.id AuditSeverity.info)
          (record s.accounts { next_id = s.accounts.next_id + 1 })
    ok (saved, record { invitations = invitations; accounts = accounts })

  unfoldable pub create_organization_invitation :
      InviteInput → ℕ → ℕ → InvitationStore → Result Invitation × InvitationStore
  create_organization_invitation input token now s =
      if is_owner input.role
      then (fail 409 "Owner access must be granted by changing an existing member role", s)
      else db.transaction (invite_tx input (normalize_email secrets input.email) token now) s

  abbrev pub revocable : RevokeInput → Invitation → Result (Unit {0})
  revocable input i = do
    require (is_pending i.status) 409 "Only a pending invitation can be revoked"
    require (not (admin_on_owner input i)) 409 "Only an owner can revoke this invitation"

  -- The callback of the transaction; `id` was read before it.
  unfoldable pub revoke_tx :
      RevokeInput → ℕ → ℕ → InvitationStore → Result (Invitation × InvitationStore)
  revoke_tx input id now s = do
    current ←
        of_option (fail 409 "Only a pending invitation can be revoked")
          (db.find_first (λ (i : Invitation). i.id == id) s.invitations)
    revocable input current
    s₁ ← update_invitation db id (revoked_invitation now) s
    accounts ←
        audit_access db
          (invitation_event input.organization_id input.actor_user_id
            "organization.invitation.revoked" id AuditSeverity.warning)
          s₁.accounts
    ok (revoked_invitation now current, record s₁ { accounts = accounts })

  abbrev pub revoke_found :
      RevokeInput → ℕ → Result Invitation → InvitationStore → Result Invitation × InvitationStore
  revoke_found input now (err e) s = (err e, s)
  revoke_found input now (ok i) s = db.transaction (revoke_tx input i.id now) s

  unfoldable pub revoke_organization_invitation :
      RevokeInput → ℕ → InvitationStore → Result Invitation × InvitationStore
  revoke_organization_invitation input now s =
      revoke_found input now
        (do
          i ← of_option (fail 404 "Invitation not found") (
              db.find_first
                (λ (i : Invitation).
                  i.id == input.invitation_id && i.organization_id == input.organization_id)
                s.invitations)
          revocable input i
          ok i)
        s

  abbrev pub expire_all : ℕ → InvitationStore → InvitationStore
  expire_all token s = record s {
    invitations =
        (db.update_many (λ i. has_token secrets token i && is_pending i.status)
          (with_status expired) s.invitations).0;
  }

  abbrev pub preview_of : Invitation → Preview
  preview_of i = record {
    organization_id = i.organization_id;
    email = mask_invitation_email i.email;
    name = i.invited_name;
    role = i.role;
    permissions = effective_organization_permissions i.role i.permissions;
    expires_at = i.expires_at;
  }

  abbrev pub preview_found :
      ℕ → ℕ → Result Invitation → InvitationStore → Result Preview × InvitationStore
  preview_found token now (err e) s = (err e, s)
  preview_found token now (ok i) s =
      if leb i.expires_at now
      then (fail 409 "Invitation has expired", expire_all token s)
      else (ok (preview_of i), s)

  unfoldable pub preview_organization_invitation :
      ℕ → ℕ → InvitationStore → Result Preview × InvitationStore
  preview_organization_invitation token now s =
      preview_found token now (pending_invitation db secrets token s) s
