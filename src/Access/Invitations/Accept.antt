-- ===== src/Access/Invitations/Accept.antt =====
-- `acceptOrganizationInvitation` of apps/api/src/organization-team-service.ts.
use ebay_pricing_intelligenc.Prelude.{
  ℕ, ◌+◌, Bool, true, Option, none, some, Result, ok, err, fail, ◌>>=◌, ◌>>◌, require, leb,
  if◌then◌else◌,
}
use ebay_pricing_intelligenc.Database.{Prisma, p2002}
use ebay_pricing_intelligenc.Schema.{AuditSeverity}
use ebay_pricing_intelligenc.Schema.Store.{of_option}
use ebay_pricing_intelligenc.Delivery.DeadLetter.Requeue.{is_p2002}
use ebay_pricing_intelligenc.Access.Permissions.{effective_organization_permissions}
use ebay_pricing_intelligenc.Access.Store.{Membership}
use ebay_pricing_intelligenc.Access.Tokens.{Crypto, JwtConfiguration}
use ebay_pricing_intelligenc.Access.Accounts.{
  User, AccountStore, Credentials, update_user, audit_access, revoke_sessions, issue_in_transaction,
}
use ebay_pricing_intelligenc.Access.Accounts.Register.{same_user, create_membership}
use ebay_pricing_intelligenc.Access.Invitations.{
  AcceptInput, Accepted, Invitation, InvitationStore, accepted_by, admitted_user, expired,
  invitation_event, invited_user, name_of, pending_invitation, update_invitation, with_accounts,
  with_status,
}

module _ (db : Prisma) (secrets : Credentials) where
  abbrev pub create_user : User → AccountStore → Result (ℕ × AccountStore)
  create_user user s = do
    users ← of_option p2002 (db.create same_user user s.users)
    ok (user.id, record s { users = users; next_id = s.next_id + 1 })

  abbrev pub may_join : AcceptInput → Option ℕ → Bool
  may_join input none = true
  may_join input (some hash) = secrets.verify_password input.password hash

  abbrev pub admit_user :
      AcceptInput → Invitation → ℕ → Option User → AccountStore → Result (ℕ × AccountStore)
  admit_user input i now none s =
      create_user
        (invited_user s.next_id i.email (name_of input i) (secrets.hash_password input.password)
          now)
        s
  admit_user input i now (some user) s = do
    require (may_join input user.password_hash) 409
        "This email already has a PartPulse account. Enter its existing password to accept the invitation"
    s₁ ←
        update_user db user.id
          (admitted_user (name_of input i) (secrets.hash_password input.password) now) s
    ok (user.id, s₁)

  abbrev pub membership_for : ℕ → ℕ → Invitation → Membership
  membership_for id user_id i = record {
    id = id;
    organization_id = i.organization_id;
    user_id = user_id;
    role = i.role;
    permissions = i.permissions;
  }

  module _ {Token : Type 0} (crypto : Crypto Token) (config : JwtConfiguration) where
    -- From `tx.organizationMembership.create` on.
    abbrev pub join :
        Invitation → ℕ → ℕ → ℕ → InvitationStore → Result (Accepted Token × InvitationStore)
    join i user_id session_id now s = do
      joined ← create_membership db secrets (membership_for s.accounts.next_id user_id i) s.accounts
      s₁ ← update_invitation db i.id (accepted_by user_id now) (with_accounts s joined)
      audited ←
          audit_access db
            (invitation_event i.organization_id user_id "organization.invitation.accepted" i.id
              AuditSeverity.info)
            s₁.accounts
      issued ←
          issue_in_transaction db crypto config user_id i.organization_id session_id now
            (revoke_sessions db user_id now audited)
      ok (
        record {
          pair = issued.0;
          organization_id = i.organization_id;
          user_id = user_id;
          role = i.role;
          permissions = effective_organization_permissions i.role i.permissions;
        },
        with_accounts s₁ issued.1,
      )

    -- An invitation that has expired throws after its update.
    abbrev pub accept_pending :
        AcceptInput
        → Invitation
        → ℕ
        → ℕ
        → InvitationStore
        → Result (Accepted Token × InvitationStore)
    accept_pending input i session_id now s =
        if leb i.expires_at now
        then update_invitation db i.id (with_status expired) s
          >>= (λ s₁. fail 409 "Invitation has expired")
        else admit_user input i now
            (db.find_first (λ (u : User). secrets.same_email u.email i.email) s.accounts.users)
            s.accounts
          >>= (λ admitted. join i admitted.0 session_id now (with_accounts s admitted.1))

    unfoldable pub accept_tx :
        AcceptInput → ℕ → ℕ → InvitationStore → Result (Accepted Token × InvitationStore)
    accept_tx input session_id now s = do
      found ← pending_invitation db secrets input.token s
      locked ← pending_invitation db secrets input.token s
      accept_pending input locked session_id now s

    abbrev pub caught :
        Result (Accepted Token) × InvitationStore → Result (Accepted Token) × InvitationStore
    caught (ok result, s) = (ok result, s)
    caught (err e, s) =
        (if is_p2002 e then fail 409 "This user already belongs to the organization" else err e, s)

    unfoldable pub accept_organization_invitation :
        AcceptInput → ℕ → ℕ → InvitationStore → Result (Accepted Token) × InvitationStore
    accept_organization_invitation input session_id now s =
        caught (db.transaction (accept_tx input session_id now) s)
