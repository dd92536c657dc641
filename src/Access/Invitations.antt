-- ===== src/Access/Invitations.antt =====
-- The invitations of apps/api/src/organization-team-service.ts: their table and what its operations
-- share. A transaction runs alone, which `lockOrganization` is for; what is
-- read before it is an argument of its callback.
pub mod Manage
pub mod Accept
pub mod Once
use ebay_pricing_intelligenc.Prelude.{
  ℕ, ◌+◌, ◌-◌, ◌*◌, String, Bool, true, false, not, ◌&&◌, ◌||◌, List, [], ◌∷◌, ◌++◌, Option, none,
  some, Result, ok, err, fail, Failure, ◌>>=◌, ◌>>◌, require, ◌==◌, leb, is_some, any, length, take,
  if◌then◌else◌,
}
use ebay_pricing_intelligenc.Database.{Prisma, p2002, p2025}
use ebay_pricing_intelligenc.Schema.{AuditEvent, AuditSeverity}
use ebay_pricing_intelligenc.Schema.Store.{of_option}
use ebay_pricing_intelligenc.Market.Matching.{Text, same_text, is_empty}
use ebay_pricing_intelligenc.Catalog.Sku.{trim_start, trim_end}
use ebay_pricing_intelligenc.Delivery.DeadLetter.Requeue.{is_p2002}
use ebay_pricing_intelligenc.Access.{OrganizationRole}
use ebay_pricing_intelligenc.Access.Permissions.{
  effective_organization_permissions, normalize_organization_permissions,
}
use ebay_pricing_intelligenc.Access.Store.{Membership}
use ebay_pricing_intelligenc.Access.Sessions.{TokenPair}
use ebay_pricing_intelligenc.Access.Team.{is_owner, is_admin}
use ebay_pricing_intelligenc.Access.Tokens.{Crypto, JwtConfiguration}
use ebay_pricing_intelligenc.Access.Accounts.{
  User, AccountStore, Credentials, normalize_email, update_user, audit_access, revoke_sessions,
  issue_in_transaction,
}
use ebay_pricing_intelligenc.Access.Accounts.Register.{same_user, create_membership}

-- enum OrganizationInvitationStatus
pub data InvitationStatus : Type 0 where
  pending accepted revoked expired : InvitationStatus

-- model OrganizationInvitation
pub record Invitation : Type 0 where
  pub id : ℕ
  pub organization_id : ℕ
  pub email : Text
  pub invited_name : Option Text
  pub role : OrganizationRole
  pub permissions : List String
  pub token_hash : ℕ
  pub status : InvitationStatus
  pub invited_by_id : ℕ
  pub accepted_by_id : Option ℕ
  pub expires_at : ℕ
  pub accepted_at : Option ℕ
  pub revoked_at : Option ℕ

pub record InvitationStore : Type 0 where
  pub invitations : List Invitation
  pub accounts : AccountStore

pub record InviteInput : Type 0 where
  pub organization_id : ℕ
  pub actor_user_id : ℕ
  pub name : Text
  pub email : Text
  pub role : OrganizationRole
  pub permissions : List String

pub record RevokeInput : Type 0 where
  pub organization_id : ℕ
  pub actor_user_id : ℕ
  pub actor_role : OrganizationRole
  pub invitation_id : ℕ

pub record AcceptInput : Type 0 where
  pub token : ℕ
  pub name : Option Text
  pub password : Text

pub record Preview : Type 0 where
  pub organization_id : ℕ
  pub email : Text
  pub name : Option Text
  pub role : OrganizationRole
  pub permissions : List String
  pub expires_at : ℕ

pub record Accepted (Token : Type 0) : Type 0 where
  pub pair : TokenPair Token
  pub organization_id : ℕ
  pub user_id : ℕ
  pub role : OrganizationRole
  pub permissions : List String

abbrev pub is_pending : InvitationStatus → Bool
is_pending pending = true
is_pending _ = false

-- email.split("@"): the part before the first "@", and the one between it and the next.
abbrev pub before_at : Text → Text
before_at [] = []
before_at (c ∷ cs) = if c == 64 then [] else c ∷ before_at cs

abbrev pub after_at : Text → Text
after_at [] = []
after_at (c ∷ cs) = if c == 64 then cs else after_at cs

abbrev pub stars : ℕ → Text
stars ℕ.zero = []
stars (ℕ.suc n) = 42 ∷ stars n

abbrev pub at_least_two : ℕ → ℕ
at_least_two n = if leb 2 n then n else 2

unfoldable pub mask_invitation_email : Text → Text
mask_invitation_email email =
    let local = before_at email in
    let visible = take 2 local in
    (visible ++ stars (at_least_two (length local - length visible)))
    ++ 64 ∷ before_at (after_at email)

-- input.name?.trim() || invitation.invitedName
abbrev pub nonempty : Option Text → Option Text
nonempty none = none
nonempty (some name) = if is_empty name then none else some name

abbrev pub trimmed : Option Text → Option Text
trimmed none = none
trimmed (some name) = some (trim_end (trim_start name))

abbrev pub first_of : Option Text → Option Text → Option Text
first_of none other = other
first_of (some name) other = some name

abbrev pub name_of : AcceptInput → Invitation → Option Text
name_of input i = first_of (nonempty (trimmed input.name)) (nonempty i.invited_name)

abbrev pub invitation_event : ℕ → ℕ → String → ℕ → AuditSeverity → AuditEvent
invitation_event organization_id actor_user_id action resource_id severity = record {
  organization_id = organization_id;
  actor_user_id = some actor_user_id;
  action = action;
  resource_id = resource_id;
  severity = severity;
}

abbrev pub with_status : InvitationStatus → Invitation → Invitation
with_status status i = record i { status = status }

abbrev pub accepted_by : ℕ → ℕ → Invitation → Invitation
accepted_by user_id now i = record i {
  status = accepted;
  accepted_by_id = some user_id;
  accepted_at = some now;
}

abbrev pub revoked_invitation : ℕ → Invitation → Invitation
revoked_invitation now i = record i { status = revoked; revoked_at = some now }

abbrev pub has_key : ℕ → Text → Invitation → Bool
has_key organization_id email i = i.organization_id == organization_id && same_text i.email email

abbrev pub admin_on_owner : RevokeInput → Invitation → Bool
admin_on_owner input i = is_admin input.actor_role && is_owner i.role

-- The password of a user who has none is set; `undefined` keeps the name.
abbrev pub admitted_user : Option Text → ℕ → ℕ → User → User
admitted_user name hash now u = record u {
  name = first_of name u.name;
  email_verified_at = some now;
  password_hash = if is_some u.password_hash then u.password_hash else some hash;
  password_changed_at = if is_some u.password_hash then u.password_changed_at else some now;
  failed_login_attempts = 0;
  locked_until = none;
}

abbrev pub invited_user : ℕ → Text → Option Text → ℕ → ℕ → User
invited_user id email name hash now = record {
  id = id;
  email = email;
  name = name;
  password_hash = some hash;
  password_changed_at = some now;
  email_verified_at = some now;
  failed_login_attempts = 0;
  locked_until = none;
  mfa_enabled = false;
  mfa_secret_encrypted = none;
  pending_mfa_secret_encrypted = none;
  pending_mfa_created_at = none;
  mfa_last_used_step = none;
}

abbrev pub with_accounts : InvitationStore → AccountStore → InvitationStore
with_accounts s accounts = record s { accounts = accounts }

abbrev pub has_token : Credentials → ℕ → Invitation → Bool
has_token secrets token i = i.token_hash == secrets.hash_token token

abbrev pub pending_one : Option Invitation → Result Invitation
pending_one none = fail 404 "Invitation is invalid or no longer available"
pending_one (some i) =
    if is_pending i.status then ok i else fail 404 "Invitation is invalid or no longer available"

module _ (db : Prisma) where
  abbrev pub update_invitation :
      ℕ → (Invitation → Invitation) → InvitationStore → Result InvitationStore
  update_invitation id f s = do
    invitations ← db.update (λ a b. false) (λ (i : Invitation). i.id == id) f s.invitations
    ok (record s { invitations = invitations })

  abbrev pub pending_invitation : Credentials → ℕ → InvitationStore → Result Invitation
  pending_invitation secrets token s =
      pending_one (db.find_first (has_token secrets token) s.invitations)
