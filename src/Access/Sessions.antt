-- ===== src/Access/Sessions.antt =====
-- The refresh sessions of apps/api/src/auth-sessions.ts, with `databaseRefreshSessionStore`.
pub mod Once
use ebay_pricing_intelligenc.Prelude.{
  ℕ, ◌+◌, ◌*◌, Bool, true, false, not, ◌&&◌, Option, none, some, Result, ok, err, fail, ◌>>=◌, ◌==◌,
  ltb, is_some, if◌then◌else◌,
}
use ebay_pricing_intelligenc.Database.{Prisma, p2002}
use ebay_pricing_intelligenc.Access.Store.{Membership, RefreshSession, AccessStore, same_session}
use ebay_pricing_intelligenc.Access.Tokens.{
  Crypto, JwtConfiguration, Subject, Claims, create_access_token, create_refresh_token,
  verify_refresh_token,
}

pub record TokenPair (Token : Type 0) : Type 0 where
  pub access_token : Token
  pub access_token_expires_in : ℕ
  pub refresh_token : Token
  pub refresh_token_expires_in : ℕ

-- { id, tokenHash, revokedAt: null }
abbrev pub is_session : ℕ → ℕ → RefreshSession → Bool
is_session id token_hash r = r.id == id && r.token_hash == token_hash && not (is_some r.revoked_at)

abbrev pub is_live_session : ℕ → ℕ → ℕ → RefreshSession → Bool
is_live_session id token_hash now r = is_session id token_hash r && ltb now r.expires_at

abbrev pub revoked : ℕ → RefreshSession → RefreshSession
revoked now r = record r { revoked_at = some now }

module _ (db : Prisma) where
  -- `membershipExists`
  abbrev pub membership_exists : ℕ → ℕ → AccessStore → Bool
  membership_exists user_id organization_id s =
      db.count (λ m. m.user_id == user_id && m.organization_id == organization_id) s.memberships
      == 1

  -- `create`
  unfoldable pub create_session : RefreshSession → AccessStore → Result AccessStore
  create_session session s = elim (db.create same_session session s.sessions) [
    | none ↦ p2002
    | some sessions ↦ ok (record s { sessions = sessions })
  ]

  -- The callback of the transaction of `rotate`.
  unfoldable pub rotate_tx : ℕ → ℕ → RefreshSession → ℕ → AccessStore → Result (Bool × AccessStore)
  unfolding create_session
  rotate_tx old_session_id old_token_hash replacement now s =
      let revoking =
        db.update_many (is_live_session old_session_id old_token_hash now) (revoked now)
          s.sessions in
      if not (revoking.1 == 1)
      then ok (false, record s { sessions = revoking.0 })
      else do s' ← create_session replacement (record s { sessions = revoking.0 }); ok (true, s')

  -- `revoke`
  unfoldable pub revoke : ℕ → ℕ → ℕ → AccessStore → AccessStore
  revoke session_id token_hash now s = record s {
    sessions = (db.update_many (is_session session_id token_hash) (revoked now) s.sessions).0;
  }

  module _ {Token : Type 0} (crypto : Crypto Token) (config : JwtConfiguration) where
    -- `buildTokenPair`; the argument after the subject is what `randomUUID` returns.
    unfoldable pub build_token_pair : Subject → ℕ → ℕ → Result (TokenPair Token × RefreshSession)
    build_token_pair input session_id now = do
      access ← create_access_token crypto config input now
      refresh ← create_refresh_token crypto config input session_id now
      ok (
        record {
          access_token = access;
          access_token_expires_in = config.access_ttl_seconds;
          refresh_token = refresh;
          refresh_token_expires_in = config.refresh_ttl_seconds;
        },
        record {
          id = session_id;
          user_id = input.user_id;
          organization_id = input.organization_id;
          token_hash = crypto.sha256 refresh;
          expires_at = now + config.refresh_ttl_seconds * 1000;
          revoked_at = none;
        },
      )

    unfoldable pub issue_token_pair :
        Subject → ℕ → ℕ → AccessStore → Result (TokenPair Token × AccessStore)
    issue_token_pair input session_id now s =
        if not (membership_exists input.user_id input.organization_id s)
        then fail 403 "You do not belong to this organization"
        else do
          created ← build_token_pair input session_id now
          s' ← create_session created.1 s
          ok (created.0, s')

    -- What the service answers when the transaction ends.
    abbrev pub rotated :
        TokenPair Token → Result Bool × AccessStore → Result (TokenPair Token) × AccessStore
    rotated pair (err e, s) = (err e, s)
    rotated pair (ok false, s) = (fail 401 "Refresh token has already been used or revoked", s)
    rotated pair (ok true, s) = (ok pair, s)

    abbrev pub rotate_session :
        TokenPair Token
        → RefreshSession
        → ℕ
        → ℕ
        → Option ℕ
        → AccessStore
        → Result (TokenPair Token) × AccessStore
    rotate_session pair replacement token_hash now none s =
        (fail 401 "Invalid or expired access token", s)
    rotate_session pair replacement token_hash now (some jti) s =
        rotated pair (db.transaction (rotate_tx jti token_hash replacement now) s)

    abbrev pub rotate_built :
        Claims
        → ℕ
        → ℕ
        → Result (TokenPair Token × RefreshSession)
        → AccessStore
        → Result (TokenPair Token) × AccessStore
    rotate_built claims token_hash now (err e) s = (err e, s)
    rotate_built claims token_hash now (ok (pair, replacement)) s =
        rotate_session pair replacement token_hash now claims.jti s

    abbrev pub rotate_verified :
        ℕ → ℕ → ℕ → Result Claims → AccessStore → Result (TokenPair Token) × AccessStore
    rotate_verified token_hash session_id now (err e) s = (err e, s)
    rotate_verified token_hash session_id now (ok claims) s =
        if not (membership_exists claims.sub claims.organization_id s)
        then (fail 403 "You do not belong to this organization", s)
        else rotate_built claims token_hash now
            (build_token_pair
              (record { user_id = claims.sub; organization_id = claims.organization_id }) session_id
              now)
            s

    unfoldable pub rotate_token_pair :
        Token → ℕ → ℕ → AccessStore → Result (TokenPair Token) × AccessStore
    rotate_token_pair refresh_token session_id now s =
        rotate_verified (crypto.sha256 refresh_token) session_id now
          (verify_refresh_token crypto config refresh_token now) s

    abbrev pub revoke_session : Token → ℕ → Option ℕ → AccessStore → Result AccessStore
    revoke_session refresh_token now none s = fail 401 "Invalid or expired access token"
    revoke_session refresh_token now (some jti) s =
        ok (revoke jti (crypto.sha256 refresh_token) now s)

    unfoldable pub revoke_refresh_token : Token → ℕ → AccessStore → Result AccessStore
    revoke_refresh_token refresh_token now s = do
      claims ← verify_refresh_token crypto config refresh_token now
      revoke_session refresh_token now claims.jti s
