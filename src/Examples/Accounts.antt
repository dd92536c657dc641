-- ===== src/Examples/Accounts.antt =====
-- Accounts of two users of an organization, one with a second factor, and an invitation.
use ebay_pricing_intelligenc.Prelude.{
  ℕ, ◌≡◌, ◌<◌, ◌++◌, refl, Bool, true, [], ◌∷◌, Option, none, some, Result, ok, fail, ◌==◌, length,
  arith, find,
}
use ebay_pricing_intelligenc.Database.Memory.{memory, memory-IsDocumented}
use ebay_pricing_intelligenc.Market.Matching.{Text, same_text}
use ebay_pricing_intelligenc.Catalog.Sku.{trim_start, trim_end}
use ebay_pricing_intelligenc.Access.{OrganizationRole}
use ebay_pricing_intelligenc.Access.Permissions.{effective_organization_permissions}
use ebay_pricing_intelligenc.Access.Store.{record_access_event}
use ebay_pricing_intelligenc.Access.Sessions.{TokenPair, create_session, build_token_pair}
use ebay_pricing_intelligenc.Access.Tokens.{TokenType, claims_for, sign_token}
use ebay_pricing_intelligenc.Access.Accounts.{
  User, AuthTokenType, AuthToken, MfaLoginChallenge, AccountStore, Credentials,
  password_meets_policy, matching_totp_step,
}
use ebay_pricing_intelligenc.Access.Accounts.Login.{
  LoginInput, Draw, SignedIn, LoginResult, login_account,
}
use ebay_pricing_intelligenc.Access.Accounts.Codes.{
  consume_mfa_code, complete_tx, complete_mfa_login,
}
use ebay_pricing_intelligenc.Access.Accounts.Lockout.{login_account-IsLocked}
use ebay_pricing_intelligenc.Access.Accounts.Challenges.{complete_mfa_login-once}
use ebay_pricing_intelligenc.Access.Accounts.Recovery.{
  has_token, reset_tx, reset_account_password, recover_tx, recover_account,
}
use ebay_pricing_intelligenc.Access.Accounts.Recovery.Reset.{
  IsSignedOut, reset_account_password-IsSignedOut,
}
use ebay_pricing_intelligenc.Access.Accounts.Recovery.Clean.{IsClean, recover_account-IsClean}
use ebay_pricing_intelligenc.Access.Invitations
use ebay_pricing_intelligenc.Access.Invitations.{
  Invitation, InvitationStatus, InvitationStore, AcceptInput, Accepted, is_pending,
}
use ebay_pricing_intelligenc.Access.Invitations.Accept.{
  membership_for, accept_tx, accept_organization_invitation,
}
use ebay_pricing_intelligenc.Access.Invitations.Once.{accept_organization_invitation-once}
use ebay_pricing_intelligenc.Examples.Access.{Token, crypto, config, secret, members}

-- A hash is the length of a password, the hash of a token is the token, and every code is 000000.
abbrev secrets : Credentials
secrets = record {
  verify_password = λ password hash. length password == hash;
  hash_password = length;
  dummy_password_hash = 0;
  hash_token = λ token. token;
  hash_code = length;
  totp_code = λ secret step. 48 ∷ 48 ∷ 48 ∷ 48 ∷ 48 ∷ 48 ∷ [];
  has_mfa_key = true;
  decrypt_mfa_secret = ok;
  encrypt_mfa_secret = λ n. n;
  to_lower = λ t. t;
  to_upper = λ t. t;
  same_email = same_text;
  slug_base = λ t. t;
}

abbrev email_a : Text
email_a = 97 ∷ 64 ∷ 98 ∷ []

-- The user of the publisher's row, who has mistaken the password four times.
abbrev mistaken : User
mistaken = record {
  id = 5;
  email = email_a;
  name = none;
  password_hash = some 3;
  password_changed_at = none;
  email_verified_at = some 1;
  failed_login_attempts = 4;
  locked_until = none;
  mfa_enabled = true;
  mfa_secret_encrypted = some 7;
  pending_mfa_secret_encrypted = none;
  pending_mfa_created_at = none;
  mfa_last_used_step = none;
}

abbrev waiting : MfaLoginChallenge
waiting = record {
  id = 60;
  user_id = 5;
  organization_id = 9;
  token_hash = 61;
  attempts = 0;
  expires_at = 300_000;
  consumed_at = none;
}

abbrev emailed : AuthTokenType → ℕ → AuthToken
emailed kind token = record {
  id = token;
  user_id = 5;
  kind = kind;
  token_hash = token;
  expires_at = 300_000;
  consumed_at = none;
}

abbrev accounts : AccountStore
accounts = record {
  users = mistaken ∷ [];
  organizations = [];
  auth_tokens =
      emailed AuthTokenType.password_reset 70 ∷ emailed AuthTokenType.account_recovery 71 ∷ [];
  challenges = waiting ∷ [];
  recovery_codes = record { id = 80; user_id = 5; code_hash = 1; used_at = none } ∷ [];
  access = members;
  next_id = 100;
}

abbrev wrong_input : LoginInput
wrong_input = record { email = email_a; password = 1 ∷ []; organization_slug = none }

abbrev right : Text
right = 1 ∷ 2 ∷ 3 ∷ []

abbrev draw_at : ℕ → Draw
draw_at now = record { challenge_token = 62; session_id = 41; now = now }

abbrev attempt : Result (LoginResult Token) × AccountStore
attempt = login_account memory secrets crypto config wrong_input (draw_at 2_000) accounts

login_account-IsLocked_example :
    (attempt.0 ≡ fail 401 "Invalid email, password, or organization")
    × (login_account memory secrets crypto config
          (record { email = email_a; password = right; organization_slug = none })
          (draw_at 800_000)
          attempt.1
        ≡ (fail 429 "Account is temporarily locked. Try again later.", attempt.1))
unfolding trim_start trim_end
login_account-IsLocked_example =
    login_account-IsLocked secrets crypto config memory memory-IsDocumented wrong_input right none
      (draw_at 2_000) (draw_at 800_000) mistaken accounts attempt.1 attempt.0 refl refl refl refl
      (omega arith) (omega arith) refl

abbrev zeros : Text
zeros = 48 ∷ 48 ∷ 48 ∷ 48 ∷ 48 ∷ 48 ∷ []

abbrev code_run : Result (SignedIn Token) × AccountStore
code_run = complete_mfa_login memory secrets crypto config 61 zeros 41 90_000 accounts

abbrev pair_at : ℕ → TokenPair Token
pair_at now = record {
  access_token = (
    claims_for config (record { user_id = 5; organization_id = 9 }) TokenType.access none
        config.access_ttl_seconds now,
    secret,
  );
  access_token_expires_in = 900;
  refresh_token = (
    claims_for config (record { user_id = 5; organization_id = 9 }) TokenType.refresh (some 41)
        config.refresh_ttl_seconds now,
    secret,
  );
  refresh_token_expires_in = 86_400;
}

abbrev signed : SignedIn Token
signed = record {
  pair = pair_at 90_000;
  user_id = 5;
  organization_id = 9;
  role = OrganizationRole.publisher;
  permissions = effective_organization_permissions OrganizationRole.publisher [];
}

completes : code_run ≡ (ok signed, code_run.1)
unfolding complete_mfa_login complete_tx consume_mfa_code matching_totp_step build_token_pair
    sign_token create_session record_access_event
completes = refl

complete_mfa_login-once_example :
    complete_mfa_login memory secrets crypto config 61 zeros 42 130_000 code_run.1
    ≡ (fail 401 "MFA challenge is invalid or expired", code_run.1)
complete_mfa_login-once_example =
    complete_mfa_login-once secrets crypto config memory memory-IsDocumented 61 zeros 41 90_000
      accounts code_run.1 signed completes zeros 42 130_000

-- Aa1!Aa1!Aa1!
abbrev strong : Text
strong = 65 ∷ 97 ∷ 49 ∷ 33 ∷ 65 ∷ 97 ∷ 49 ∷ 33 ∷ 65 ∷ 97 ∷ 49 ∷ 33 ∷ []

abbrev reset_run : Result Bool × AccountStore
reset_run = reset_account_password memory secrets 70 strong 2_000 accounts

resets : reset_run ≡ (ok true, reset_run.1)
unfolding reset_account_password reset_tx password_meets_policy record_access_event
resets = refl

reset_account_password-IsSignedOut_example :
    (t : AuthToken) × (find (has_token memory secrets 70) accounts.auth_tokens ≡ some t)
    × IsSignedOut t.user_id reset_run.1
    × ((later : ℕ) (again : Text)
        → password_meets_policy again ≡ true
        → reset_account_password memory secrets 70 again later reset_run.1
          ≡ (fail 409 "Password reset link is invalid or expired", reset_run.1))
reset_account_password-IsSignedOut_example =
    reset_account_password-IsSignedOut memory memory-IsDocumented secrets 70 2_000 strong accounts
      reset_run.1 resets

abbrev recovery_run : Result Bool × AccountStore
recovery_run = recover_account memory secrets 71 strong 2_000 accounts

recovers : recovery_run ≡ (ok true, recovery_run.1)
unfolding recover_account recover_tx password_meets_policy record_access_event
recovers = refl

recover_account-IsClean_example :
    (t : AuthToken) × (find (has_token memory secrets 71) accounts.auth_tokens ≡ some t)
    × IsClean t.user_id recovery_run.1
recover_account-IsClean_example =
    recover_account-IsClean memory memory-IsDocumented secrets 71 2_000 strong accounts
      recovery_run.1 recovers

-- An invitation of the user to another organization.
abbrev invited : Invitation
invited = record {
  id = 50;
  organization_id = 10;
  email = email_a;
  invited_name = none;
  role = OrganizationRole.publisher;
  permissions = [];
  token_hash = 51;
  status = InvitationStatus.pending;
  invited_by_id = 4;
  accepted_by_id = none;
  expires_at = 300_000;
  accepted_at = none;
  revoked_at = none;
}

abbrev invitations : InvitationStore
invitations = record { invitations = invited ∷ []; accounts = accounts }

abbrev joining : AcceptInput
joining = record { token = 51; name = none; password = right }

abbrev join_run : Result (Accepted Token) × InvitationStore
join_run = accept_organization_invitation memory secrets crypto config joining 41 90_000 invitations

abbrev joined_user : Accepted Token
joined_user = record {
  pair = record {
    access_token = (
      claims_for config (record { user_id = 5; organization_id = 10 }) TokenType.access none
          config.access_ttl_seconds 90_000,
      secret,
    );
    access_token_expires_in = 900;
    refresh_token = (
      claims_for config (record { user_id = 5; organization_id = 10 }) TokenType.refresh (some 41)
          config.refresh_ttl_seconds 90_000,
      secret,
    );
    refresh_token_expires_in = 86_400;
  };
  organization_id = 10;
  user_id = 5;
  role = OrganizationRole.publisher;
  permissions = effective_organization_permissions OrganizationRole.publisher [];
}

joins : join_run ≡ (ok joined_user, join_run.1)
unfolding accept_organization_invitation accept_tx build_token_pair sign_token create_session
    record_access_event
joins = refl

accept_organization_invitation-once_example :
    (i : Invitation) × (find (Invitations.has_token secrets 51) invitations.invitations ≡ some i)
    × (is_pending i.status ≡ true)
    × (90_000 < i.expires_at)
    × (joined_user.role ≡ i.role)
    × ((id : ℕ) × (join_run.1.accounts.access.memberships
          ≡ members.memberships ++ membership_for memory secrets id 5 i ∷ []))
    × ((name : Option Text) (password : Text) (session_id later : ℕ)
        → accept_organization_invitation memory secrets crypto config
            (record { token = 51; name = name; password = password })
            session_id
            later
            join_run.1
          ≡ (fail 404 "Invitation is invalid or no longer available", join_run.1))
accept_organization_invitation-once_example =
    accept_organization_invitation-once secrets crypto config memory memory-IsDocumented joining 41
      90_000 invitations join_run.1 joined_user joins
