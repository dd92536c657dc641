-- ===== src/Access/Accounts/Login.antt =====
-- `loginAccount` of apps/api/src/account-auth-service.ts, with `selectMembership`.
use ebay_pricing_intelligenc.Prelude.{
  ℕ, ◌+◌, ◌*◌, String, Bool, true, false, not, List, [], ◌∷◌, Option, none, some, Result, ok, err,
  fail, ◌>>=◌, ◌==◌, leb, ltb, is_some, find, if◌then◌else◌,
}
use ebay_pricing_intelligenc.Database.{Prisma, p2002}
use ebay_pricing_intelligenc.Schema.{AuditEvent, AuditSeverity}
use ebay_pricing_intelligenc.Schema.Store.{of_option}
use ebay_pricing_intelligenc.Market.Matching.{Text, same_text}
use ebay_pricing_intelligenc.Access.{OrganizationRole}
use ebay_pricing_intelligenc.Access.Permissions.{effective_organization_permissions}
use ebay_pricing_intelligenc.Access.Store.{Membership}
use ebay_pricing_intelligenc.Access.Sessions.{TokenPair, issue_token_pair}
use ebay_pricing_intelligenc.Access.Tokens.{Crypto, JwtConfiguration}
use ebay_pricing_intelligenc.Access.Accounts.{
  User, MfaLoginChallenge, Organization, AccountStore, Credentials, normalize_email, awaited,
  update_user, audit_access,
}

-- What a sign-in returns.
pub record SignedIn (Token : Type 0) : Type 0 where
  pub pair : TokenPair Token
  pub user_id : ℕ
  pub organization_id : ℕ
  pub role : OrganizationRole
  pub permissions : List String

-- type LoginResult
pub data LoginResult (Token : Type 0) : Type 0 where
  organization_required : List Organization → LoginResult Token
  mfa_required : ℕ → ℕ → LoginResult Token
  authenticated : SignedIn Token → LoginResult Token

pub record LoginInput : Type 0 where
  pub email : Text
  pub password : Text
  pub organization_slug : Option Text

-- The random values and the time of a request.
pub record Draw : Type 0 where
  pub challenge_token : ℕ
  pub session_id : ℕ
  pub now : ℕ

abbrev pub locked_after : Option ℕ → ℕ → Bool
locked_after none now = false
locked_after (some until) now = ltb now until

abbrev pub sign_in_event : ℕ → ℕ → String → AuditEvent
sign_in_event organization_id user_id action = record {
  organization_id = organization_id;
  actor_user_id = some user_id;
  action = action;
  resource_id = user_id;
  severity = AuditSeverity.info;
}

abbrev pub password_of : Credentials → Option ℕ → ℕ
password_of secrets none = secrets.dummy_password_hash
password_of secrets (some hash) = hash

abbrev pub failed_once : User → User
failed_once u = record u { failed_login_attempts = u.failed_login_attempts + 1 }

abbrev pub locked_at : ℕ → User → User
locked_at now u = record u { locked_until = some (now + 15 * 60_000) }

abbrev pub unlocked : User → User
unlocked u = record u { failed_login_attempts = 0; locked_until = none }

-- where: { email: { equals: normalizeEmail(…), mode: "insensitive" } }
abbrev pub by_login : Credentials → Text → User → Bool
by_login secrets email u = secrets.same_email u.email (normalize_email secrets email)

abbrev pub signed_in : {Token : Type 0} → TokenPair Token → ℕ → Membership → SignedIn Token
signed_in pair user_id m = record {
  pair = pair;
  user_id = user_id;
  organization_id = m.organization_id;
  role = m.role;
  permissions = effective_organization_permissions m.role m.permissions;
}

-- A slug that is missing or empty is `none`.
abbrev pub has_slug : Credentials → Text → Organization → Bool
has_slug secrets slug o = same_text (secrets.to_lower o.slug) (secrets.to_lower slug)

module _ (db : Prisma) (secrets : Credentials) where
  abbrev pub organization_of : AccountStore → ℕ → Option Organization
  organization_of s id = db.find_first (λ o. o.id == id) s.organizations

  abbrev pub belongs_to : Option Text → AccountStore → Membership → Bool
  belongs_to none s m = true
  belongs_to (some slug) s m = elim (organization_of s m.organization_id) [
    | none ↦ false
    | some o ↦ has_slug secrets slug o
  ]

  abbrev pub only : List Membership → Option Membership
  only (m ∷ []) = some m
  only _ = none

  -- `none` asks for the organization.
  abbrev pub select_membership :
      List Membership → Option Text → AccountStore → Result (Option Membership)
  select_membership memberships none s = ok (only memberships)
  select_membership memberships (some slug) s = elim (find (belongs_to (some slug) s) memberships) [
    | none ↦ fail 401 "Invalid email, password, or organization"
    | some m ↦ ok (some m)
  ]

  abbrev pub organizations_of : AccountStore → List Membership → List Organization
  organizations_of s [] = []
  organizations_of s (m ∷ ms) = elim (organization_of s m.organization_id) [
    | none ↦ organizations_of s ms
    | some o ↦ o ∷ organizations_of s ms
  ]

  -- The failures that the update has returned.
  abbrev pub failures_of : ℕ → AccountStore → ℕ
  failures_of id s = elim (db.find_first (λ u. u.id == id) s.users) [
    | none ↦ 0
    | some u ↦ u.failed_login_attempts
  ]

  abbrev pub refused : {A : Type 0} → AccountStore → Result A × AccountStore
  refused s = (fail 401 "Invalid email, password, or organization", s)

  -- A wrong password of a known user.
  unfoldable pub count_failure : {A : Type 0} → User → ℕ → AccountStore → Result A × AccountStore
  count_failure user now s = awaited (update_user db user.id failed_once s) s (λ s₁.
      if leb 5 (failures_of user.id s₁)
      then awaited (update_user db user.id (locked_at now) s₁) s₁ refused
      else refused s₁)

  abbrev pub same_challenge : MfaLoginChallenge → MfaLoginChallenge → Bool
  same_challenge a b = a.token_hash == b.token_hash

  abbrev pub create_challenge : ℕ → ℕ → Draw → AccountStore → Result AccountStore
  create_challenge user_id organization_id draw s = do
    challenges ← of_option p2002 (
        db.create same_challenge
          (record {
            id = s.next_id;
            user_id = user_id;
            organization_id = organization_id;
            token_hash = secrets.hash_token draw.challenge_token;
            attempts = 0;
            expires_at = draw.now + 5 * 60_000;
            consumed_at = none;
          })
          s.challenges)
    ok (record s { challenges = challenges; next_id = s.next_id + 1 })

  module _ {Token : Type 0} (crypto : Crypto Token) (config : JwtConfiguration) where
    -- `issueTokenPair` outside a transaction
    abbrev pub issue_now : ℕ → ℕ → Draw → AccountStore → Result (TokenPair Token × AccountStore)
    issue_now user_id organization_id draw s = do
      issued ←
          issue_token_pair db crypto config
            (record { user_id = user_id; organization_id = organization_id }) draw.session_id
            draw.now s.access
      ok (issued.0, record s { access = issued.1 })

    abbrev pub authenticate :
        User
        → Membership
        → AccountStore
        → Result (TokenPair Token × AccountStore)
        → Result (LoginResult Token) × AccountStore
    authenticate user m s (err e) = (err e, s)
    authenticate user m s (ok (pair, s₁)) =
        awaited
          (audit_access db (sign_in_event m.organization_id user.id "auth.login.succeeded") s₁) s₁
          (λ s₂. (ok (authenticated (signed_in pair user.id m)), s₂))

    abbrev pub sign_in :
        User → Membership → Draw → AccountStore → Result (LoginResult Token) × AccountStore
    sign_in user m draw s =
        if user.mfa_enabled
        then if secrets.has_mfa_key
          then awaited (create_challenge user.id m.organization_id draw s) s
              (λ s₁. (ok (mfa_required draw.challenge_token 300), s₁))
          else (fail 503 "MFA is not configured on the server", s)
        else authenticate user m s (issue_now user.id m.organization_id draw s)

    abbrev pub with_membership :
        User
        → List Membership
        → Draw
        → AccountStore
        → Result (Option Membership)
        → Result (LoginResult Token) × AccountStore
    with_membership user memberships draw s (err e) = (err e, s)
    with_membership user memberships draw s (ok none) =
        (ok (organization_required (organizations_of s memberships)), s)
    with_membership user memberships draw s (ok (some m)) =
        awaited (update_user db user.id unlocked s) s (λ s₁. sign_in user m draw s₁)

    abbrev pub is_nonempty : List Membership → Bool
    is_nonempty [] = false
    is_nonempty (m ∷ ms) = true

    -- The password of the user is right.
    abbrev pub admit :
        LoginInput
        → User
        → List Membership
        → Draw
        → AccountStore
        → Result (LoginResult Token) × AccountStore
    admit input user memberships draw s =
        if locked_after user.locked_until draw.now
        then (fail 429 "Account is temporarily locked. Try again later.", s)
        else if not (is_some user.email_verified_at)
        then (fail 403 "Verify your email before signing in", s)
        else if not (is_nonempty memberships)
        then (fail 403 "This account has no active organization membership", s)
        else with_membership user memberships draw s
            (select_membership memberships input.organization_slug s)

    abbrev pub login_user :
        LoginInput → Draw → Option User → AccountStore → Result (LoginResult Token) × AccountStore
    login_user input draw none s = refused s
    login_user input draw (some user) s =
        if secrets.verify_password input.password (password_of secrets user.password_hash)
        then admit input user
            (db.find_many (λ (m : Membership). m.user_id == user.id) s.access.memberships) draw s
        else count_failure user draw.now s

    unfoldable pub login_account :
        LoginInput → Draw → AccountStore → Result (LoginResult Token) × AccountStore
    login_account input draw s =
        login_user input draw (db.find_first (by_login secrets input.email) s.users) s
