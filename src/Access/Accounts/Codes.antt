-- ===== src/Access/Accounts/Codes.antt =====
-- The codes of a second factor: `consumeMfaCode` and `completeMfaLogin` of
-- apps/api/src/account-auth-service.ts.
use ebay_pricing_intelligenc.Prelude.{
  ℕ, ◌+◌, Bool, true, false, not, ◌&&◌, ◌||◌, Option, none, some, Result, ok, err, fail, ◌>>=◌,
  ◌>>◌, require, ◌==◌, leb, ltb, is_some, if◌then◌else◌,
}
use ebay_pricing_intelligenc.Database.{Prisma, p2025}
use ebay_pricing_intelligenc.Schema.Store.{of_option}
use ebay_pricing_intelligenc.Market.Matching.{Text}
use ebay_pricing_intelligenc.Access.Tokens.{Crypto, JwtConfiguration}
use ebay_pricing_intelligenc.Access.Accounts.{
  User, MfaLoginChallenge, MfaRecoveryCode, AccountStore, Credentials, without_spaces, is_totp_code,
  normalize_recovery_code, matching_totp_step, audit_access, is_membership_of, issue_in_transaction,
}
use ebay_pricing_intelligenc.Access.Accounts.Login.{SignedIn, sign_in_event, signed_in}

module _ (db : Prisma) (secrets : Credentials) where
  abbrev pub is_open_challenge : ℕ → MfaLoginChallenge → Bool
  is_open_challenge now c = not (is_some c.consumed_at || leb c.expires_at now || leb 5 c.attempts)

  -- A code of six digits: each step is claimed once.
  abbrev pub claim_step : ℕ → Option ℕ → AccountStore → Result (Bool × AccountStore)
  claim_step user_id none s = ok (false, s)
  claim_step user_id (some step) s =
      let claimed =
        db.update_many
          (λ (u : User).
            u.id == user_id
            && elim u.mfa_last_used_step [ none ↦ true | some used ↦ ltb used step ])
          (λ u. record u { mfa_last_used_step = some step }) s.users in
      ok (claimed.1 == 1, record s { users = claimed.0 })

  abbrev pub use_recovery_code : ℕ → Option MfaRecoveryCode → AccountStore → Bool × AccountStore
  use_recovery_code now none s = (false, s)
  use_recovery_code now (some code) s =
      let claimed =
        db.update_many (λ (c : MfaRecoveryCode). c.id == code.id && not (is_some c.used_at))
          (λ c. record c { used_at = some now }) s.recovery_codes in
      (claimed.1 == 1, record s { recovery_codes = claimed.0 })

  abbrev pub mfa_secret : User → Result ℕ
  mfa_secret user =
      if secrets.has_mfa_key
      then of_option (fail 503 "MFA is not available") user.mfa_secret_encrypted
      else fail 503 "MFA is not available"

  abbrev pub claim_totp : User → Text → ℕ → AccountStore → Result ℕ → Result (Bool × AccountStore)
  claim_totp user code now s (err e) = err e
  claim_totp user code now s (ok secret) =
      claim_step user.id (matching_totp_step secrets secret code now) s

  abbrev pub claim_recovery : User → Text → ℕ → AccountStore → Bool × AccountStore
  claim_recovery user code now s =
      use_recovery_code now
        (db.find_first
          (λ c.
            c.user_id == user.id
            && c.code_hash == secrets.hash_code (normalize_recovery_code secrets code)
            && not (is_some c.used_at))
          s.recovery_codes)
        s

  abbrev pub consume_code : User → Text → ℕ → AccountStore → Result ℕ → Result (Bool × AccountStore)
  consume_code user code now s (err e) = err e
  consume_code user code now s (ok encrypted) =
      if is_totp_code (without_spaces code)
      then claim_totp user code now s (secrets.decrypt_mfa_secret encrypted)
      else ok (claim_recovery user code now s)

  unfoldable pub consume_mfa_code : User → Text → ℕ → AccountStore → Result (Bool × AccountStore)
  consume_mfa_code user code now s = consume_code user code now s (mfa_secret user)

  module _ {Token : Type 0} (crypto : Crypto Token) (config : JwtConfiguration) where
    abbrev pub update_challenge :
        ℕ → (MfaLoginChallenge → MfaLoginChallenge) → AccountStore → Result AccountStore
    update_challenge id f s = do
      challenges ← db.update (λ x y. false) (λ c. c.id == id) f s.challenges
      ok (record s { challenges = challenges })

    abbrev pub consumed_at : ℕ → MfaLoginChallenge → MfaLoginChallenge
    consumed_at now c = record c { consumed_at = some now }

    abbrev pub attempted : ℕ → ℕ → MfaLoginChallenge → MfaLoginChallenge
    attempted attempts now c = record c {
      attempts = c.attempts + 1;
      consumed_at = if leb 5 (attempts + 1) then some now else c.consumed_at;
    }

    -- `none` is `{ invalid: true }`, which the transaction keeps.
    abbrev pub complete_valid :
        MfaLoginChallenge → ℕ → ℕ → AccountStore → Result (Option (SignedIn Token) × AccountStore)
    complete_valid challenge session_id now s = do
      s₁ ← update_challenge challenge.id (consumed_at now) s
      m ← of_option (fail 403 "This account has no active organization membership") (
          db.find_first (is_membership_of db challenge.user_id challenge.organization_id)
            s₁.access.memberships)
      issued ←
          issue_in_transaction db crypto config challenge.user_id challenge.organization_id
            session_id now s₁
      s₃ ←
          audit_access db
            (sign_in_event challenge.organization_id challenge.user_id "auth.login.mfa_succeeded")
            issued.1
      ok (some (signed_in issued.0 challenge.user_id m), s₃)

    abbrev pub complete_checked :
        MfaLoginChallenge
        → ℕ
        → ℕ
        → Bool × AccountStore
        → Result (Option (SignedIn Token) × AccountStore)
    complete_checked challenge session_id now (false, s) = do
      s₁ ← update_challenge challenge.id (attempted challenge.attempts now) s
      ok (none, s₁)
    complete_checked challenge session_id now (true, s) = complete_valid challenge session_id now s

    -- The callback of the transaction. The user is that of the challenge, which a foreign key keeps.
    unfoldable pub complete_tx :
        ℕ → Text → ℕ → ℕ → AccountStore → Result (Option (SignedIn Token) × AccountStore)
    complete_tx challenge_token code session_id now s = do
      challenge ←
          of_option (fail 401 "MFA challenge is invalid or expired")
            (db.find_first (λ c. c.token_hash == secrets.hash_token challenge_token) s.challenges)
      require (is_open_challenge now challenge) 401 "MFA challenge is invalid or expired"
      user ← of_option p2025 (db.find_first (λ u. u.id == challenge.user_id) s.users)
      checked ← consume_mfa_code user code now s
      complete_checked challenge session_id now checked

    abbrev pub completed :
        Result (Option (SignedIn Token)) × AccountStore → Result (SignedIn Token) × AccountStore
    completed (err e, s) = (err e, s)
    completed (ok none, s) = (fail 401 "Invalid authentication code", s)
    completed (ok (some signed), s) = (ok signed, s)

    unfoldable pub complete_mfa_login :
        ℕ → Text → ℕ → ℕ → AccountStore → Result (SignedIn Token) × AccountStore
    complete_mfa_login challenge_token code session_id now s =
        completed (db.transaction (complete_tx challenge_token code session_id now) s)
