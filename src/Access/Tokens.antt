-- ===== src/Access/Tokens.antt =====
-- The tokens of apps/api/src/auth.ts. The library `jose` and the hash function are not part of the
-- repository: they are the fields of `Crypto`.
pub mod Laws
use ebay_pricing_intelligenc.Prelude.{
  ℕ, ◌+◌, ◌*◌, ◌/◌, Bool, true, false, not, ◌||◌, List, Option, none, some, Result, ok, fail, ◌>>=◌,
  ltb, length, is_some, if◌then◌else◌,
}

pub data TokenType : Type 0 where
  access refresh : TokenType

abbrev pub same_type : TokenType → TokenType → Bool
same_type TokenType.access TokenType.access = true
same_type TokenType.refresh TokenType.refresh = true
same_type _ _ = false

-- The payload of a token; `jti` is the identifier of the session of a refresh token.
pub record Claims : Type 0 where
  pub sub : ℕ
  pub organization_id : ℕ
  pub token_type : TokenType
  pub iss : ℕ
  pub aud : ℕ
  pub iat : ℕ
  pub exp : ℕ
  pub jti : Option ℕ

-- Secrets are lists of code points; the other settings are only compared.
pub record JwtConfiguration : Type 0 where
  pub access_secret : List ℕ
  pub refresh_secret : List ℕ
  pub issuer : ℕ
  pub audience : ℕ
  pub access_ttl_seconds : ℕ
  pub refresh_ttl_seconds : ℕ

-- `SignJWT.sign`; `jwtVerify` with the issuer, the audience and the date that it compares with,
-- whose result says too whether the header's `typ` is "JWT"; and `createHash("sha256")`.
pub record Crypto (Token : Type 0) : Type 0 where
  pub sign : Claims → List ℕ → Token
  pub jwt_verify : Token → List ℕ → ℕ → ℕ → ℕ → Option (Bool × Claims)
  pub sha256 : Token → ℕ

pub record Subject : Type 0 where
  pub user_id : ℕ
  pub organization_id : ℕ

-- `key`
abbrev pub key : List ℕ → Result (List ℕ)
key secret =
    if ltb (length secret) 32
    then fail 500 "JWT signing secrets must contain at least 32 characters"
    else ok secret

abbrev pub claims_for : JwtConfiguration → Subject → TokenType → Option ℕ → ℕ → ℕ → Claims
claims_for config input token_type session_id ttl_seconds now = record {
  sub = input.user_id;
  organization_id = input.organization_id;
  token_type = token_type;
  iss = config.issuer;
  aud = config.audience;
  iat = now / 1000;
  exp = now / 1000 + ttl_seconds;
  jti = session_id;
}

module _ {Token : Type 0} (crypto : Crypto Token) (config : JwtConfiguration) where
  unfoldable pub sign_token : Subject → TokenType → Option ℕ → List ℕ → ℕ → ℕ → Result Token
  sign_token input token_type session_id secret ttl_seconds now =
      if ltb ttl_seconds 1 then fail 500 "Token lifetime must be a positive integer" else do
        k ← key secret
        ok (crypto.sign (claims_for config input token_type session_id ttl_seconds now) k)

  -- The schemas of the claims: the refresh token's wants an identifier. That texts are not empty and
  -- identifiers are UUIDs, which the schemas test too, is part of the claims' types here: a claim is
  -- a number that stands for such a text.
  abbrev pub accepts : TokenType → Claims → Bool
  accepts TokenType.access claims = true
  accepts TokenType.refresh claims = is_some claims.jti

  abbrev pub invalid {ℓ} : {A : Type ℓ} → TokenType → Result A
  invalid TokenType.access = fail 401 "Invalid or expired access token"
  invalid TokenType.refresh = fail 401 "Invalid or expired refresh token"

  abbrev pub checked : TokenType → Option (Bool × Claims) → Result Claims
  checked token_type none = invalid token_type
  checked token_type (some (is_jwt, claims)) =
      if not is_jwt || not (same_type claims.token_type token_type)
      then fail 401 "Invalid or expired access token"
      else if accepts token_type claims
      then ok claims
      else fail 401 "Invalid or expired access token"

  unfoldable pub verify_token : Token → TokenType → List ℕ → ℕ → Result Claims
  verify_token token token_type secret now =
      if ltb (length secret) 32
      then invalid token_type
      else checked token_type (crypto.jwt_verify token secret config.issuer config.audience now)

  abbrev pub create_access_token : Subject → ℕ → Result Token
  create_access_token input now =
      sign_token input TokenType.access none config.access_secret config.access_ttl_seconds now

  abbrev pub create_refresh_token : Subject → ℕ → ℕ → Result Token
  create_refresh_token input session_id now =
      sign_token input TokenType.refresh (some session_id) config.refresh_secret
        config.refresh_ttl_seconds now

  abbrev pub verify_access_token : Token → ℕ → Result Claims
  verify_access_token token now = verify_token token TokenType.access config.access_secret now

  abbrev pub verify_refresh_token : Token → ℕ → Result Claims
  verify_refresh_token token now = verify_token token TokenType.refresh config.refresh_secret now
