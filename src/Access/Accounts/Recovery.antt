-- ===== src/Access/Accounts/Recovery.antt =====
-- The tokens that are sent by email and the passwords of apps/api/src/account-auth-service.ts:
-- `createAuthToken`, `requestEmailVerification`, `verifyAccountEmail`, `requestPasswordReset`,
-- `requestAccountRecovery`, `resetAccountPassword`, `recoverAccount` and `changeAccountPassword`. A
-- request returns the letter that is handed to the email service.
pub mod Reset
pub mod Clean
use ebay_pricing_intelligenc.Prelude.{
  ℕ, ◌+◌, ◌*◌, String, Bool, true, false, not, ◌&&◌, List, [], ◌∷◌, Option, none, some, Result, ok,
  err, fail, Failure, ◌>>=◌, ◌>>◌, require, ◌==◌, leb, is_some, if◌then◌else◌,
}
use ebay_pricing_intelligenc.Database.{Prisma, p2002, p2025}
use ebay_pricing_intelligenc.Schema.{AuditEvent, AuditSeverity}
use ebay_pricing_intelligenc.Schema.Store.{of_option}
use ebay_pricing_intelligenc.Market.Matching.{Text}
use ebay_pricing_intelligenc.Access.Store.{Membership, AccessStore}
use ebay_pricing_intelligenc.Access.Accounts.{
  User, AuthTokenType, email_verification, password_reset, account_recovery, AuthToken,
  AccountStore, Credentials, password_meets_policy, normalize_email, update_user, audit_access,
  revoke_sessions, delete_challenges, delete_recovery_codes,
}

abbrev pub same_type : AuthTokenType → AuthTokenType → Bool
same_type email_verification email_verification = true
same_type password_reset password_reset = true
same_type account_recovery account_recovery = true
same_type _ _ = false

pub record Letter : Type 0 where
  pub kind : AuthTokenType
  pub email : Text
  pub token : ℕ

abbrev pub consumed : ℕ → AuthToken → AuthToken
consumed now t = record t { consumed_at = some now }

abbrev pub or_now : ℕ → Option ℕ → Option ℕ
or_now now none = some now
or_now now (some at) = some at

-- record.type, record.consumedAt and record.expiresAt
abbrev pub is_live_token : AuthTokenType → ℕ → AuthToken → Bool
is_live_token kind now t =
    same_type t.kind kind && not (is_some t.consumed_at) && not (leb t.expires_at now)

abbrev pub account_event : ℕ → ℕ → String → AuditSeverity → AuditEvent
account_event organization_id user_id action severity = record {
  organization_id = organization_id;
  actor_user_id = some user_id;
  action = action;
  resource_id = user_id;
  severity = severity;
}

abbrev pub verified : ℕ → User → User
verified now u = record u { email_verified_at = or_now now u.email_verified_at }

abbrev pub with_password : ℕ → ℕ → User → User
with_password hash now u = record u { password_hash = some hash; password_changed_at = some now }

abbrev pub reset_user : ℕ → ℕ → User → User
reset_user hash now u = record u {
  password_hash = some hash;
  password_changed_at = some now;
  failed_login_attempts = 0;
  locked_until = none;
}

abbrev pub without_mfa : User → User
without_mfa u = record u {
  mfa_enabled = false;
  mfa_secret_encrypted = none;
  pending_mfa_secret_encrypted = none;
  pending_mfa_created_at = none;
  mfa_last_used_step = none;
}

abbrev pub recovered_user : ℕ → ℕ → User → User
recovered_user hash now u = without_mfa (reset_user hash now (verified now u))

module _ (db : Prisma) (secrets : Credentials) where
  unfoldable pub create_auth_token :
      ℕ → AuthTokenType → ℕ → ℕ → ℕ → AccountStore → Result (ℕ × AccountStore)
  create_auth_token user_id kind ttl token now s = do
    auth_tokens ← of_option p2002 (
        db.create (λ a b. a.token_hash == b.token_hash)
          (record {
            id = s.next_id;
            user_id = user_id;
            kind = kind;
            token_hash = secrets.hash_token token;
            expires_at = now + ttl;
            consumed_at = none;
          })
          (db.update_many
            (λ t. t.user_id == user_id && same_type t.kind kind && not (is_some t.consumed_at))
            (consumed now) s.auth_tokens).0)
    ok (token, record s { auth_tokens = auth_tokens; next_id = s.next_id + 1 })

  abbrev pub by_email : Text → User → Bool
  by_email email u = secrets.same_email u.email (normalize_email secrets email)

  abbrev pub request_token :
      AuthTokenType → ℕ → ℕ → ℕ → Option User → AccountStore → Result (Option Letter) × AccountStore
  request_token kind ttl token now none s = (ok none, s)
  request_token kind ttl token now (some user) s =
      db.transaction
        (λ s₁. do
          created ← create_auth_token user.id kind ttl token now s₁
          ok (some (record { kind = kind; email = user.email; token = created.0 }), created.1))
        s

  unfoldable pub request_email_verification :
      Text → ℕ → ℕ → AccountStore → Result (Option Letter) × AccountStore
  request_email_verification email token now s =
      request_token email_verification (24 * 60 * 60_000) token now
        (db.find_first (λ u. by_email email u && not (is_some u.email_verified_at)) s.users) s

  unfoldable pub request_password_reset :
      Text → ℕ → ℕ → AccountStore → Result (Option Letter) × AccountStore
  request_password_reset email token now s =
      request_token password_reset (60 * 60_000) token now (db.find_first (by_email email) s.users)
        s

  unfoldable pub request_account_recovery :
      Text → ℕ → ℕ → AccountStore → Result (Option Letter) × AccountStore
  request_account_recovery email token now s =
      request_token account_recovery (15 * 60_000) token now
        (db.find_first (by_email email) s.users) s

  abbrev pub has_token : ℕ → AuthToken → Bool
  has_token token t = t.token_hash == secrets.hash_token token

  abbrev pub checked_token : AuthTokenType → String → ℕ → Option AuthToken → Result AuthToken
  checked_token kind message now none = fail 409 message
  checked_token kind message now (some t) =
      if is_live_token kind now t then ok t else fail 409 message

  abbrev pub live_token : AuthTokenType → String → ℕ → ℕ → AccountStore → Result AuthToken
  live_token kind message token now s =
      checked_token kind message now (db.find_first (has_token token) s.auth_tokens)

  abbrev pub consume_token : AuthToken → ℕ → AccountStore → Result AccountStore
  consume_token t now s = do
    auth_tokens ←
        db.update (λ a b. false) (λ (r : AuthToken). r.id == t.id) (consumed now) s.auth_tokens
    ok (record s { auth_tokens = auth_tokens })

  -- An event for a membership of the user, when there is one.
  abbrev pub audit_first : (ℕ → AuditEvent) → Option Membership → AccountStore → Result AccountStore
  audit_first event none s = ok s
  audit_first event (some m) s = audit_access db (event m.organization_id) s

  abbrev pub audit_each : (ℕ → AuditEvent) → List Membership → AccountStore → Result AccountStore
  audit_each event [] s = ok s
  audit_each event (m ∷ ms) s = do
    s₁ ← audit_access db (event m.organization_id) s
    audit_each event ms s₁

  abbrev pub membership_of : ℕ → AccountStore → Option Membership
  membership_of user_id s = db.find_first (λ m. m.user_id == user_id) s.access.memberships

  unfoldable pub verify_tx : ℕ → ℕ → AccountStore → Result (Bool × AccountStore)
  verify_tx token now s = do
    t ← live_token email_verification "Verification link is invalid or expired" token now s
    s₁ ← consume_token t now s
    s₂ ← update_user db t.user_id (verified now) s₁
    s₃ ←
        audit_first (λ o. account_event o t.user_id "auth.email.verified" AuditSeverity.info)
          (membership_of t.user_id s) s₂
    ok (true, s₃)

  unfoldable pub verify_account_email : ℕ → ℕ → AccountStore → Result Bool × AccountStore
  verify_account_email token now s = db.transaction (verify_tx token now) s

  unfoldable pub reset_tx : ℕ → ℕ → ℕ → AccountStore → Result (Bool × AccountStore)
  reset_tx token hash now s = do
    t ← live_token password_reset "Password reset link is invalid or expired" token now s
    s₁ ← consume_token t now s
    s₂ ← update_user db t.user_id (reset_user hash now) s₁
    s₃ ←
        audit_first (λ o. account_event o t.user_id "auth.password.reset" AuditSeverity.warning)
          (membership_of t.user_id s)
          (delete_challenges db t.user_id (revoke_sessions db t.user_id now s₂))
    ok (true, s₃)

  abbrev pub weak_password : AccountStore → Result Bool × AccountStore
  weak_password s = (fail 400 "Password does not meet the security requirements", s)

  unfoldable pub reset_account_password : ℕ → Text → ℕ → AccountStore → Result Bool × AccountStore
  reset_account_password token password now s =
      if password_meets_policy password
      then db.transaction (reset_tx token (secrets.hash_password password) now) s
      else weak_password s

  unfoldable pub recover_tx : ℕ → ℕ → ℕ → AccountStore → Result (Bool × AccountStore)
  recover_tx token hash now s = do
    t ← live_token account_recovery "Account recovery link is invalid or expired" token now s
    s₂ ← update_user db t.user_id (recovered_user hash now) (record s {
      auth_tokens =
          (db.update_many (λ r. r.user_id == t.user_id && not (is_some r.consumed_at))
            (consumed now) s.auth_tokens).0;
    })
    s₃ ←
        audit_each (λ o. account_event o t.user_id "auth.account.recovered" AuditSeverity.critical)
          (db.find_many (λ m. m.user_id == t.user_id) s.access.memberships)
          (delete_recovery_codes db t.user_id
            (delete_challenges db t.user_id (revoke_sessions db t.user_id now s₂)))
    ok (true, s₃)

  unfoldable pub recover_account : ℕ → Text → ℕ → AccountStore → Result Bool × AccountStore
  recover_account token password now s =
      if password_meets_policy password
      then db.transaction (recover_tx token (secrets.hash_password password) now) s
      else weak_password s

  -- A current password that is missing or empty is `none`.
  abbrev pub is_current_password : Option ℕ → Option Text → Bool
  is_current_password none current = true
  is_current_password (some hash) none = false
  is_current_password (some hash) (some current) = secrets.verify_password current hash

  abbrev pub change_event : ℕ → ℕ → Option ℕ → AuditEvent
  change_event organization_id user_id none =
      account_event organization_id user_id "auth.password.created" AuditSeverity.warning
  change_event organization_id user_id (some hash) =
      account_event organization_id user_id "auth.password.changed" AuditSeverity.warning

  -- The callback of the transaction; `old` is the hash that was read before it.
  unfoldable pub change_password_tx :
      ℕ → ℕ → Option ℕ → ℕ → ℕ → AccountStore → Result (Bool × AccountStore)
  change_password_tx organization_id user_id old hash now s = do
    s₁ ← update_user db user_id (with_password hash now) s
    s₂ ←
        audit_access db (change_event organization_id user_id old)
          (revoke_sessions db user_id now s₁)
    ok (true, s₂)

  abbrev pub change_password_of :
      ℕ → Option Text → Text → ℕ → Option User → AccountStore → Result Bool × AccountStore
  change_password_of organization_id current password now none s = (fail 404 "Account not found", s)
  change_password_of organization_id current password now (some user) s =
      if is_current_password user.password_hash current
      then db.transaction
          (change_password_tx organization_id user.id user.password_hash
            (secrets.hash_password password) now)
          s
      else (fail 401 "Current password is incorrect", s)

  unfoldable pub change_account_password :
      ℕ → ℕ → Option Text → Text → ℕ → AccountStore → Result Bool × AccountStore
  change_account_password organization_id user_id current password now s =
      if password_meets_policy password
      then change_password_of organization_id current password now
          (db.find_first (λ (u : User). u.id == user_id) s.users) s
      else weak_password s
