-- ===== src/Access/Accounts/Register.antt =====
-- `registerAccount`, `uniqueOrganizationSlug` and `getAccountSecurity` of
-- apps/api/src/account-auth-service.ts. What `randomBytes` adds to a slug is a function of the
-- attempt.
use ebay_pricing_intelligenc.Prelude.{
  ℕ, zero, suc, ◌+◌, ◌*◌, Bool, false, not, ◌&&◌, [], ◌∷◌, ◌++◌, Option, none, some, Result, ok,
  err, fail, ◌>>=◌, ◌==◌, is_some, if◌then◌else◌,
}
use ebay_pricing_intelligenc.Database.{Prisma, p2002}
use ebay_pricing_intelligenc.Schema.{AuditSeverity}
use ebay_pricing_intelligenc.Schema.Store.{of_option}
use ebay_pricing_intelligenc.Market.Matching.{Text, same_text}
use ebay_pricing_intelligenc.Catalog.Sku.{trim_start, trim_end}
use ebay_pricing_intelligenc.Delivery.DeadLetter.Requeue.{is_p2002}
use ebay_pricing_intelligenc.Access.{OrganizationRole}
use ebay_pricing_intelligenc.Access.Store.{Membership}
use ebay_pricing_intelligenc.Access.Accounts.{
  User, email_verification, MfaRecoveryCode, Organization, AccountStore, Credentials,
  password_meets_policy, normalize_email, audit_access, is_user_id,
}
use ebay_pricing_intelligenc.Access.Accounts.Recovery.{create_auth_token, account_event, Letter}

pub record RegisterInput : Type 0 where
  pub email : Text
  pub name : Text
  pub password : Text
  pub organization_name : Text

pub record Registered : Type 0 where
  pub user : User
  pub organization : Organization
  pub letter : Letter

pub record AccountSecurity : Type 0 where
  pub email : Text
  pub email_verified_at : Option ℕ
  pub has_password : Bool
  pub password_changed_at : Option ℕ
  pub mfa_enabled : Bool
  pub recovery_codes_remaining : ℕ

abbrev pub candidate : Text → (ℕ → Text) → ℕ → Text
candidate base draw zero = base
candidate base draw (suc n) = base ++ 45 ∷ draw (suc n)

abbrev pub new_organization : ℕ → RegisterInput → Text → Organization
new_organization id input slug = record {
  id = id;
  name = trim_end (trim_start input.organization_name);
  slug = slug;
}

abbrev pub same_user : User → User → Bool
same_user a b = same_text a.email b.email

abbrev pub same_organization : Organization → Organization → Bool
same_organization a b = same_text a.slug b.slug

abbrev pub same_membership : Membership → Membership → Bool
same_membership a b = a.organization_id == b.organization_id && a.user_id == b.user_id

module _ (db : Prisma) (secrets : Credentials) where
  -- The first argument is the number of attempts that are left.
  abbrev pub slug_after : ℕ → ℕ → Text → (ℕ → Text) → AccountStore → Result Text
  slug_after zero attempt base draw s = fail 409 "Unable to create a unique organization identifier"
  slug_after (suc left) attempt base draw s =
      let rest = slug_after left (attempt + 1) base draw s in
      if is_some
        (db.find_first (λ o. same_text o.slug (candidate base draw attempt)) s.organizations)
      then rest
      else ok (candidate base draw attempt)

  unfoldable pub unique_organization_slug : Text → (ℕ → Text) → AccountStore → Result Text
  unique_organization_slug name draw s = slug_after 10 0 (secrets.slug_base name) draw s

  abbrev pub new_user : ℕ → RegisterInput → ℕ → User
  new_user id input now = record {
    id = id;
    email = normalize_email secrets input.email;
    name = some (trim_end (trim_start input.name));
    password_hash = some (secrets.hash_password input.password);
    password_changed_at = some now;
    email_verified_at = none;
    failed_login_attempts = 0;
    locked_until = none;
    mfa_enabled = false;
    mfa_secret_encrypted = none;
    pending_mfa_secret_encrypted = none;
    pending_mfa_created_at = none;
    mfa_last_used_step = none;
  }

  abbrev pub create_membership : Membership → AccountStore → Result AccountStore
  create_membership m s = do
    memberships ← of_option p2002 (db.create same_membership m s.access.memberships)
    ok (record s {
      access = record s.access { memberships = memberships };
      next_id = s.next_id + 1;
    })

  unfoldable pub register_tx :
      RegisterInput → (ℕ → Text) → ℕ → ℕ → AccountStore → Result (Registered × AccountStore)
  register_tx input draw token now s = do
    slug ← unique_organization_slug input.organization_name draw s
    let user = new_user s.next_id input now
    let organization = new_organization (s.next_id + 1) input slug
    users ← of_option p2002 (db.create same_user user s.users)
    organizations ← of_option p2002 (db.create same_organization organization s.organizations)
    s₁ ←
        create_membership
          (record {
            id = s.next_id + 2;
            organization_id = organization.id;
            user_id = user.id;
            role = OrganizationRole.owner;
            permissions = [];
          })
          (record s { users = users; organizations = organizations; next_id = s.next_id + 2 })
    created ←
        create_auth_token db secrets user.id email_verification (24 * 60 * 60_000) token now s₁
    s₂ ←
        audit_access db
          (account_event organization.id user.id "auth.account.registered" AuditSeverity.info)
          created.1
    ok (
      record {
        user = user;
        organization = organization;
        letter = record { kind = email_verification; email = user.email; token = created.0 };
      },
      s₂,
    )

  abbrev pub caught : Result Registered × AccountStore → Result Registered × AccountStore
  caught (ok registered, s) = (ok registered, s)
  caught (err e, s) = (
    if is_p2002 e
        then fail 409 "Registration conflicted with an existing account. Sign in or try again."
        else err e,
    s,
  )

  unfoldable pub register_account :
      RegisterInput → (ℕ → Text) → ℕ → ℕ → AccountStore → Result Registered × AccountStore
  register_account input draw token now s =
      if not (password_meets_policy input.password)
      then (fail 400 "Password does not meet the security requirements", s)
      else if is_some (
          db.find_first (λ u. secrets.same_email u.email (normalize_email secrets input.email))
            s.users)
      then (fail 409 "An account already exists for this email", s)
      else caught (db.transaction (register_tx input draw token now) s)

  unfoldable pub get_account_security : ℕ → AccountStore → Result AccountSecurity
  get_account_security user_id s = do
    user ← of_option (fail 404 "Account not found") (db.find_first (is_user_id user_id) s.users)
    ok (record {
      email = user.email;
      email_verified_at = user.email_verified_at;
      has_password = is_some user.password_hash;
      password_changed_at = user.password_changed_at;
      mfa_enabled = user.mfa_enabled;
      recovery_codes_remaining =
          db.count (λ (c : MfaRecoveryCode). c.user_id == user_id && not (is_some c.used_at))
            s.recovery_codes;
    })
