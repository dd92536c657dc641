-- ===== src/Access/Accounts/Mfa.antt =====
-- The setup of a second factor in apps/api/src/account-auth-service.ts: `beginMfaSetup`,
-- `confirmMfaSetup`, `disableMfa` and `regenerateMfaRecoveryCodes`. The secret and the recovery codes
-- that the server draws are arguments.
use ebay_pricing_intelligenc.Prelude.{
  ℕ, ◌+◌, ◌*◌, Bool, true, not, List, [], ◌∷◌, Option, none, some, Result, ok, err, fail, ◌>>=◌,
  ◌>>◌, require, ◌==◌, leb, if◌then◌else◌,
}
use ebay_pricing_intelligenc.Database.{Prisma, p2002}
use ebay_pricing_intelligenc.Schema.{AuditSeverity}
use ebay_pricing_intelligenc.Schema.Store.{of_option}
use ebay_pricing_intelligenc.Market.Matching.{Text}
use ebay_pricing_intelligenc.Access.Accounts.{
  User, MfaRecoveryCode, AccountStore, Credentials, matching_totp_step, awaited, update_user,
  audit_access, revoke_sessions, delete_challenges, delete_recovery_codes, is_user_id,
}
use ebay_pricing_intelligenc.Access.Accounts.Codes.{consume_mfa_code}
use ebay_pricing_intelligenc.Access.Accounts.Recovery.{account_event, without_mfa}

abbrev pub with_pending : Option ℕ → Option ℕ → User → User
with_pending secret created u = record u {
  pending_mfa_secret_encrypted = secret;
  pending_mfa_created_at = created;
}

abbrev pub with_mfa : ℕ → ℕ → User → User
with_mfa secret step u = record u {
  mfa_enabled = true;
  mfa_secret_encrypted = some secret;
  pending_mfa_secret_encrypted = none;
  pending_mfa_created_at = none;
  mfa_last_used_step = some step;
}

abbrev pub same_code : MfaRecoveryCode → MfaRecoveryCode → Bool
same_code a b = a.code_hash == b.code_hash

module _ (db : Prisma) (secrets : Credentials) where
  abbrev pub mfa_key : Result (Unit {0})
  mfa_key = require secrets.has_mfa_key 503 "MFA is not configured on the server"

  abbrev pub begin_setup : ℕ → Text → ℕ → ℕ → User → AccountStore → Result (ℕ × AccountStore)
  begin_setup user_id password secret now user s = do
    hash ← of_option (fail 409 "Create an account password before enabling MFA") user.password_hash
    require (secrets.verify_password password hash) 401 "Password is incorrect"
    require (not user.mfa_enabled) 409 "MFA is already enabled"
    mfa_key
    s₁ ←
        update_user db user_id (with_pending (some (secrets.encrypt_mfa_secret secret)) (some now))
          s
    ok (secret, s₁)

  -- The only write is the last, so an error changes nothing.
  unfoldable pub begin_mfa_setup : ℕ → Text → ℕ → ℕ → AccountStore → Result (ℕ × AccountStore)
  begin_mfa_setup user_id password secret now s = do
    user ←
        of_option (fail 409 "Create an account password before enabling MFA")
          (db.find_first (is_user_id user_id) s.users)
    begin_setup user_id password secret now user s

  -- `createMany`
  abbrev pub create_codes : ℕ → List Text → AccountStore → Result AccountStore
  create_codes user_id [] s = ok s
  create_codes user_id (code ∷ codes) s = do
    recovery_codes ← of_option p2002 (
        db.create same_code
          (record {
            id = s.next_id;
            user_id = user_id;
            code_hash = secrets.hash_code code;
            used_at = none;
          })
          s.recovery_codes)
    create_codes user_id codes
        (record s { recovery_codes = recovery_codes; next_id = s.next_id + 1 })

  unfoldable pub confirm_tx :
      ℕ → ℕ → ℕ → ℕ → List Text → AccountStore → Result (List Text × AccountStore)
  confirm_tx organization_id user_id pending step codes s = do
    s₁ ← update_user db user_id (with_mfa pending step) s
    s₂ ← create_codes user_id codes (delete_recovery_codes db user_id s₁)
    s₃ ←
        audit_access db
          (account_event organization_id user_id "auth.mfa.enabled" AuditSeverity.warning) s₂
    ok (codes, s₃)

  abbrev pub confirm_step :
      ℕ → ℕ → ℕ → List Text → Option ℕ → AccountStore → Result (List Text) × AccountStore
  confirm_step organization_id user_id pending codes none s =
      (fail 401 "Invalid authentication code", s)
  confirm_step organization_id user_id pending codes (some step) s =
      db.transaction (confirm_tx organization_id user_id pending step codes) s

  abbrev pub confirm_secret :
      ℕ → ℕ → ℕ → Text → List Text → ℕ → Result ℕ → AccountStore → Result (List Text) × AccountStore
  confirm_secret organization_id user_id pending code codes now (err e) s = (err e, s)
  confirm_secret organization_id user_id pending code codes now (ok secret) s =
      confirm_step organization_id user_id pending codes
        (matching_totp_step secrets secret code now) s

  abbrev pub confirm_pending :
      ℕ
      → ℕ
      → Text
      → List Text
      → ℕ
      → Option ℕ
      → Option ℕ
      → AccountStore
      → Result (List Text) × AccountStore
  confirm_pending organization_id user_id code codes now (some pending) (some created) s =
      if leb (created + 10 * 60_000) now
      then awaited (update_user db user_id (with_pending none none) s) s
          (λ s₁. (fail 409 "MFA setup expired; begin again", s₁))
      else confirm_secret organization_id user_id pending code codes now
          (mfa_key >> secrets.decrypt_mfa_secret pending) s
  confirm_pending organization_id user_id code codes now _ _ s =
      (fail 409 "MFA setup is not pending", s)

  abbrev pub confirm_user :
      ℕ → ℕ → Text → List Text → ℕ → Option User → AccountStore → Result (List Text) × AccountStore
  confirm_user organization_id user_id code codes now none s =
      (fail 409 "MFA setup is not pending", s)
  confirm_user organization_id user_id code codes now (some user) s =
      if user.mfa_enabled
      then (fail 409 "MFA setup is not pending", s)
      else confirm_pending organization_id user_id code codes now user.pending_mfa_secret_encrypted
          user.pending_mfa_created_at s

  unfoldable pub confirm_mfa_setup :
      ℕ → ℕ → Text → List Text → ℕ → AccountStore → Result (List Text) × AccountStore
  confirm_mfa_setup organization_id user_id code codes now s =
      confirm_user organization_id user_id code codes now
        (db.find_first (is_user_id user_id) s.users) s

  unfoldable pub disable_tx : ℕ → User → Text → ℕ → AccountStore → Result (Bool × AccountStore)
  disable_tx organization_id user code now s = do
    used ← consume_mfa_code db secrets user code now s
    require used.0 401 "Invalid authentication or recovery code"
    s₁ ← update_user db user.id without_mfa used.1
    s₂ ←
        audit_access db
          (account_event organization_id user.id "auth.mfa.disabled" AuditSeverity.critical)
          (revoke_sessions db user.id now
            (delete_challenges db user.id (delete_recovery_codes db user.id s₁)))
    ok (true, s₂)

  -- The user who has MFA enabled, and a password, which is right.
  abbrev pub mfa_user : ℕ → Text → AccountStore → Result User
  mfa_user user_id password s = do
    user ← of_option (fail 409 "MFA is not enabled") (db.find_first (is_user_id user_id) s.users)
    require user.mfa_enabled 409 "MFA is not enabled"
    hash ← of_option (fail 409 "MFA is not enabled") user.password_hash
    require (secrets.verify_password password hash) 401 "Password is incorrect"
    ok user

  abbrev pub disable_of : ℕ → Text → ℕ → Result User → AccountStore → Result Bool × AccountStore
  disable_of organization_id code now (err e) s = (err e, s)
  disable_of organization_id code now (ok user) s =
      db.transaction (disable_tx organization_id user code now) s

  unfoldable pub disable_mfa : ℕ → ℕ → Text → Text → ℕ → AccountStore → Result Bool × AccountStore
  disable_mfa organization_id user_id password code now s =
      disable_of organization_id code now (mfa_user user_id password s) s

  unfoldable pub regenerate_tx :
      ℕ → User → Text → List Text → ℕ → AccountStore → Result (List Text × AccountStore)
  regenerate_tx organization_id user code codes now s = do
    used ← consume_mfa_code db secrets user code now s
    require used.0 401 "Invalid authentication or recovery code"
    s₁ ← create_codes user.id codes (delete_recovery_codes db user.id used.1)
    s₂ ←
        audit_access db
          (account_event organization_id user.id "auth.mfa.recovery_codes_regenerated"
            AuditSeverity.warning)
          s₁
    ok (codes, s₂)

  abbrev pub regenerate_of :
      ℕ → Text → List Text → ℕ → Result User → AccountStore → Result (List Text) × AccountStore
  regenerate_of organization_id code codes now (err e) s = (err e, s)
  regenerate_of organization_id code codes now (ok user) s =
      db.transaction (regenerate_tx organization_id user code codes now) s

  unfoldable pub regenerate_mfa_recovery_codes :
      ℕ → ℕ → Text → Text → List Text → ℕ → AccountStore → Result (List Text) × AccountStore
  regenerate_mfa_recovery_codes organization_id user_id password code codes now s =
      regenerate_of organization_id code codes now (mfa_user user_id password s) s
