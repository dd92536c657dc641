-- ===== src/Access/Accounts.antt =====
-- The accounts of apps/api/src/account-auth-service.ts: their tables, and what its operations share.
-- A random token stands as a number, and the tables keep only its hash. Passwords, emails and codes
-- are lists of UTF-16 code units.
pub mod Login
pub mod Codes
pub mod Lockout
pub mod Kept
pub mod Challenges
pub mod Recovery
pub mod Mfa
pub mod Register
use ebay_pricing_intelligenc.Prelude.{
  ℕ, suc, ◌+◌, ◌-◌, ◌*◌, ◌/◌, String, Bool, true, false, not, ◌&&◌, ◌||◌, List, [], ◌∷◌, Option,
  none, some, Result, ok, err, fail, Failure, ◌>>=◌, ◌==◌, leb, ltb, is_some, length, any, all,
  select, map, if◌then◌else◌,
}
use ebay_pricing_intelligenc.Database.{Prisma, p2002, p2025}
use ebay_pricing_intelligenc.Schema.{AuditEvent, AuditSeverity}
use ebay_pricing_intelligenc.Schema.Store.{of_option}
use ebay_pricing_intelligenc.Market.Matching.{Text, same_text}
use ebay_pricing_intelligenc.Catalog.Sku.{is_space, trim_start, trim_end}
use ebay_pricing_intelligenc.Access.Store.{
  Membership, RefreshSession, AccessStore, record_access_event,
}
use ebay_pricing_intelligenc.Access.Sessions.{TokenPair, revoked, build_token_pair, create_session}
use ebay_pricing_intelligenc.Access.Tokens.{Crypto, JwtConfiguration}

-- model User
pub record User : Type 0 where
  pub id : ℕ
  pub email : Text
  pub name : Option Text
  pub password_hash : Option ℕ
  pub password_changed_at : Option ℕ
  pub email_verified_at : Option ℕ
  pub failed_login_attempts : ℕ
  pub locked_until : Option ℕ
  pub mfa_enabled : Bool
  pub mfa_secret_encrypted : Option ℕ
  pub pending_mfa_secret_encrypted : Option ℕ
  pub pending_mfa_created_at : Option ℕ
  pub mfa_last_used_step : Option ℕ

-- enum UserAuthTokenType
pub data AuthTokenType : Type 0 where
  email_verification password_reset account_recovery : AuthTokenType

-- model UserAuthToken
pub record AuthToken : Type 0 where
  pub id : ℕ
  pub user_id : ℕ
  pub kind : AuthTokenType
  pub token_hash : ℕ
  pub expires_at : ℕ
  pub consumed_at : Option ℕ

-- model MfaLoginChallenge
pub record MfaLoginChallenge : Type 0 where
  pub id : ℕ
  pub user_id : ℕ
  pub organization_id : ℕ
  pub token_hash : ℕ
  pub attempts : ℕ
  pub expires_at : ℕ
  pub consumed_at : Option ℕ

-- model MfaRecoveryCode
pub record MfaRecoveryCode : Type 0 where
  pub id : ℕ
  pub user_id : ℕ
  pub code_hash : ℕ
  pub used_at : Option ℕ

-- model Organization
pub record Organization : Type 0 where
  pub id : ℕ
  pub name : Text
  pub slug : Text

-- `next_id` stands for `cuid()`.
pub record AccountStore : Type 0 where
  pub users : List User
  pub organizations : List Organization
  pub auth_tokens : List AuthToken
  pub challenges : List MfaLoginChallenge
  pub recovery_codes : List MfaRecoveryCode
  pub access : AccessStore
  pub next_id : ℕ

-- What the service takes from Node's crypto, its configuration and the texts of JavaScript.
pub record Credentials : Type 0 where
  pub verify_password : Text → ℕ → Bool
  pub hash_password : Text → ℕ
  pub dummy_password_hash : ℕ
  -- `hashOpaqueToken` of a token, and of a recovery code
  pub hash_token : ℕ → ℕ
  pub hash_code : Text → ℕ
  -- `totpCode` of a secret at a step of 30 seconds
  pub totp_code : ℕ → ℕ → Text
  -- `getConfig().mfaEncryptionKey` is set.
  pub has_mfa_key : Bool
  pub decrypt_mfa_secret : ℕ → Result ℕ
  pub encrypt_mfa_secret : ℕ → ℕ
  pub to_lower : Text → Text
  pub to_upper : Text → Text
  -- `mode: "insensitive"` of the client
  pub same_email : Text → Text → Bool
  -- `slugBase`
  pub slug_base : Text → Text

abbrev is_between : ℕ → ℕ → ℕ → Bool
is_between low high c = leb low c && leb c high

abbrev is_letter_or_digit : ℕ → Bool
is_letter_or_digit c = is_between 97 122 c || is_between 65 90 c || is_between 48 57 c

unfoldable pub password_meets_policy : Text → Bool
password_meets_policy password =
    leb 12 (length password)
    && leb (length password) 128
    && any (is_between 97 122) password
    && any (is_between 65 90) password
    && any (is_between 48 57) password
    && any (λ c. not (is_letter_or_digit c)) password

abbrev pub normalize_email : Credentials → Text → Text
normalize_email secrets email = secrets.to_lower (trim_end (trim_start email))

-- code.replace(/\s/g, "")
abbrev pub without_spaces : Text → Text
without_spaces code = select (λ c. not (is_space c)) code

-- /^\d{6}$/
abbrev pub is_totp_code : Text → Bool
is_totp_code code = length code == 6 && all (λ c. leb 48 c && leb c 57) code

abbrev pub normalize_recovery_code : Credentials → Text → Text
normalize_recovery_code secrets code =
    without_spaces (secrets.to_upper (trim_end (trim_start code)))

-- Math.floor(now.getTime() / 1000 / 30)
abbrev pub current_step : ℕ → ℕ
current_step now = now / 1000 / 30

-- The time is past the first step, so the one before is not negative.
unfoldable pub matching_totp_step : Credentials → ℕ → Text → ℕ → Option ℕ
matching_totp_step secrets secret code now =
    let normalized = without_spaces code in
    let step = current_step now in
    if not (is_totp_code normalized)
    then none
    else if same_text (secrets.totp_code secret (step - 1)) normalized
    then some (step - 1)
    else if same_text (secrets.totp_code secret step) normalized
    then some step
    else if same_text (secrets.totp_code secret (step + 1)) normalized
    then some (step + 1)
    else none

-- An awaited write outside a transaction: what was written before stays if it throws.
abbrev pub awaited : {S A : Type 0} → Result S → S → (S → Result A × S) → Result A × S
awaited (ok s') s next = next s'
awaited (err e) s next = (err e, s)

abbrev pub is_user_id : ℕ → User → Bool
is_user_id id u = u.id == id

module _ (db : Prisma) where
  abbrev pub update_user : ℕ → (User → User) → AccountStore → Result AccountStore
  update_user id f s = do
    users ← db.update (λ x y. false) (is_user_id id) f s.users
    ok (record s { users = users })

  abbrev pub audit_access : AuditEvent → AccountStore → Result AccountStore
  audit_access event s = do
    access ← record_access_event db event s.access
    ok (record s { access = access })

  -- updateMany({ where: { userId, revokedAt: null }, data: { revokedAt: now } })
  abbrev pub revoke_sessions : ℕ → ℕ → AccountStore → AccountStore
  revoke_sessions user_id now s = record s {
    access = record s.access {
      sessions =
          (db.update_many (λ r. r.user_id == user_id && not (is_some r.revoked_at)) (revoked now)
            s.access.sessions).0;
    };
  }

  abbrev pub delete_challenges : ℕ → AccountStore → AccountStore
  delete_challenges user_id s = record s {
    challenges = (db.delete_many (λ c. c.user_id == user_id) s.challenges).0;
  }

  abbrev pub delete_recovery_codes : ℕ → AccountStore → AccountStore
  delete_recovery_codes user_id s = record s {
    recovery_codes = (db.delete_many (λ c. c.user_id == user_id) s.recovery_codes).0;
  }

  abbrev pub is_membership_of : ℕ → ℕ → Membership → Bool
  is_membership_of user_id organization_id m =
      m.user_id == user_id && m.organization_id == organization_id

  -- `issueTokenPair` with `transactionSessionStore`
  module _ {Token : Type 0} (crypto : Crypto Token) (config : JwtConfiguration) where
    abbrev pub issue_in_transaction :
        ℕ → ℕ → ℕ → ℕ → AccountStore → Result (TokenPair Token × AccountStore)
    issue_in_transaction user_id organization_id session_id now s =
        if is_some (db.find_first (is_membership_of user_id organization_id) s.access.memberships)
        then (do
          created ←
              build_token_pair db crypto config
                (record { user_id = user_id; organization_id = organization_id }) session_id now
          access ← create_session db created.1 s.access
          ok (created.0, record s { access = access }))
        else fail 403 "You do not belong to this organization"
