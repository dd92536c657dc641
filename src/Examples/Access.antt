-- ===== src/Examples/Access.antt =====
-- An organization with an owner and a publisher, and a session of the publisher.
use ebay_pricing_intelligenc.Prelude.{
  ℕ, ◌/◌, ◌≡◌, refl, Bool, true, false, ◌&&◌, List, [], ◌∷◌, none, some, Result, ok, err, Failure,
  ◌==◌, ltb, if◌then◌else◌, arith, count-le-length,
}
use ebay_pricing_intelligenc.Database.Memory.{memory, memory-IsDocumented}
use ebay_pricing_intelligenc.Access.{OrganizationRole}
use ebay_pricing_intelligenc.Access.Tokens.{
  TokenType, Claims, JwtConfiguration, Crypto, Subject, claims_for, sign_token,
  create_refresh_token, verify_token, verify_refresh_token,
}
use ebay_pricing_intelligenc.Access.Tokens.Laws.{IsJose, verify_refresh_token-create}
use ebay_pricing_intelligenc.Access.Store.{Membership, RefreshSession, AccessStore}
use ebay_pricing_intelligenc.Access.Sessions.{
  TokenPair, build_token_pair, rotate_token_pair, rotate_tx, create_session, revoke,
  revoke_refresh_token,
}
use ebay_pricing_intelligenc.Access.Sessions.Once.{
  has_id, rotate_token_pair-once, rotate_token_pair-revoked,
}

-- A token is what was signed, with the secret.
abbrev pub Token : Type 0
Token = Claims × List ℕ

abbrev same_secret : List ℕ → List ℕ → Bool
same_secret [] [] = true
same_secret (x ∷ xs) (y ∷ ys) = x == y && same_secret xs ys
same_secret _ _ = false

same_secret_refl : (xs : List ℕ) → same_secret xs xs ≡ true
same_secret_refl [] = refl
same_secret_refl (x ∷ xs) = ground (arith, same_secret_refl xs)

abbrev pub crypto : Crypto Token
crypto = record {
  sign = λ claims secret. (claims, secret);
  jwt_verify = λ token secret issuer audience now.
      if same_secret token.1 secret
        && token.0.iss == issuer
        && token.0.aud == audience
        && ltb (now / 1000) token.0.exp
      then some (true, token.0)
      else none;
  sha256 = λ token. token.0.iat;
}

crypto-IsJose : IsJose crypto
crypto-IsJose = record {
  verify-sign = λ claims secret now h. ground (arith, same_secret_refl secret, h);
  same_payload = λ token secret issuer audience now later {p} {q} e f. ground arith;
}

-- 32 characters
abbrev pub secret : List ℕ
secret =
    1 ∷ 2 ∷ 3 ∷ 4 ∷ 5 ∷ 6 ∷ 7 ∷ 8 ∷ 1 ∷ 2 ∷ 3 ∷ 4 ∷ 5 ∷ 6 ∷ 7 ∷ 8 ∷ 1 ∷ 2 ∷ 3 ∷ 4 ∷ 5 ∷ 6 ∷ 7 ∷ 8
    ∷ 1 ∷ 2 ∷ 3 ∷ 4 ∷ 5 ∷ 6 ∷ 7 ∷ 8 ∷ []

abbrev pub config : JwtConfiguration
config = record {
  access_secret = secret;
  refresh_secret = secret;
  issuer = 1;
  audience = 2;
  access_ttl_seconds = 900;
  refresh_ttl_seconds = 86_400;
}

abbrev user : Subject
user = record { user_id = 5; organization_id = 9 }

abbrev refresh_token : Token
refresh_token =
    (claims_for config user TokenType.refresh (some 40) config.refresh_ttl_seconds 1_000, secret)

makes_refresh : create_refresh_token crypto config user 40 1_000 ≡ ok refresh_token
unfolding sign_token
makes_refresh = refl

verify_refresh_token-create_example :
    verify_refresh_token crypto config refresh_token 5_000
    ≡ ok (claims_for config user TokenType.refresh (some 40) config.refresh_ttl_seconds 1_000)
verify_refresh_token-create_example =
    verify_refresh_token-create crypto crypto-IsJose config user 40 1_000 5_000 refresh_token
      makes_refresh (omega arith)

abbrev pub owner_row : Membership
owner_row = record {
  id = 20;
  organization_id = 9;
  user_id = 4;
  role = OrganizationRole.owner;
  permissions = [];
}

abbrev pub publisher_row : Membership
publisher_row = record {
  id = 21;
  organization_id = 9;
  user_id = 5;
  role = OrganizationRole.publisher;
  permissions = [];
}

abbrev pub session : RefreshSession
session = record {
  id = 40;
  user_id = 5;
  organization_id = 9;
  token_hash = 1;
  expires_at = 86_401_000;
  revoked_at = none;
}

abbrev pub members : AccessStore
members = record {
  memberships = owner_row ∷ publisher_row ∷ [];
  sessions = session ∷ [];
  audit = [];
}

-- What the rotation returns and leaves.
abbrev rotation : Result (TokenPair Token) × AccessStore
rotation = rotate_token_pair memory crypto config refresh_token 41 2_000 members

abbrev rotated_pair : TokenPair Token
rotated_pair = record {
  access_token =
      (claims_for config user TokenType.access none config.access_ttl_seconds 2_000, secret);
  access_token_expires_in = 900;
  refresh_token =
      (claims_for config user TokenType.refresh (some 41) config.refresh_ttl_seconds 2_000, secret);
  refresh_token_expires_in = 86_400;
}

rotates : rotation ≡ (ok rotated_pair, rotation.1)
unfolding rotate_token_pair verify_token build_token_pair sign_token rotate_tx create_session
rotates = refl

rotate_token_pair-once_example :
    (e : Failure) × (rotate_token_pair memory crypto config refresh_token 42 3_000 rotation.1
      ≡ (err e, rotation.1))
rotate_token_pair-once_example =
    rotate_token_pair-once crypto config crypto-IsJose memory memory-IsDocumented refresh_token 41
      2_000 members rotation.1 rotated_pair (λ id. count-le-length (has_id id) members.sessions)
      rotates 42 3_000

abbrev signed_out : AccessStore
signed_out = revoke memory 40 1 2_000 members

revokes : revoke_refresh_token memory crypto config refresh_token 2_000 members ≡ ok signed_out
unfolding revoke_refresh_token verify_token revoke
revokes = refl

rotate_token_pair-revoked_example :
    (e : Failure) × (rotate_token_pair memory crypto config refresh_token 42 3_000 signed_out
      ≡ (err e, signed_out))
rotate_token_pair-revoked_example =
    rotate_token_pair-revoked crypto config crypto-IsJose memory memory-IsDocumented refresh_token
      2_000 members signed_out revokes 42 3_000
