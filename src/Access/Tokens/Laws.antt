-- ===== src/Access/Tokens/Laws.antt =====
-- The signing and the verification of the tokens of apps/api/src/auth.ts.
use ebay_pricing_intelligenc.Prelude.{
  ℕ, ◌+◌, ◌/◌, ◌≡◌, ◌<◌, refl, sym, fail, List, Option, none, some, ok, arith, true, Bool,
  Option-cases, inl, inr,
}
use ebay_pricing_intelligenc.Access.Tokens.{
  TokenType, same_type, Claims, JwtConfiguration, Crypto, Subject, claims_for, sign_token,
  verify_token, create_access_token, create_refresh_token, verify_refresh_token, accepts,
}

-- What `jose` documents of the two calls: a token verifies with the secret, the issuer and the
-- audience that it was signed for, before its time of expiry, to the payload that was signed.
pub record IsJose {Token : Type 0} (crypto : Crypto Token) : Type 0 where
  pub verify-sign :
      (claims : Claims) (secret : List ℕ) (now : ℕ)
      → now / 1000 < claims.exp
      → crypto.jwt_verify (crypto.sign claims secret) secret claims.iss claims.aud now
        ≡ some (true, claims)
  -- The date decides whether a token is accepted, and not what it says.
  pub same_payload :
      (token : Token) (secret : List ℕ) (issuer audience now later : ℕ) {p q : Bool × Claims}
      → crypto.jwt_verify token secret issuer audience now ≡ some p
      → crypto.jwt_verify token secret issuer audience later ≡ some q
      → p ≡ q

module _ {Token : Type 0} (crypto : Crypto Token) (jose : IsJose crypto)
    (config : JwtConfiguration) where
  verify-sign_token :
      (input : Subject) (token_type : TokenType) (session_id : Option ℕ) (secret : List ℕ)
      (ttl_seconds now later : ℕ) (token : Token)
      → accepts crypto config token_type
          (claims_for config input token_type session_id ttl_seconds now)
        ≡ true
      → same_type token_type token_type ≡ true
      → sign_token crypto config input token_type session_id secret ttl_seconds now ≡ ok token
      → later / 1000 < now / 1000 + ttl_seconds
      → verify_token crypto config token token_type secret later
        ≡ ok (claims_for config input token_type session_id ttl_seconds now)
  unfolding sign_token verify_token
  verify-sign_token input token_type session_id secret ttl_seconds now later token a t e h =
      ground (
        arith,
        a,
        t,
        e,
        jose.verify-sign (claims_for config input token_type session_id ttl_seconds now) secret
            later h,
      )

  pub verify_refresh_token-same :
      (token : Token) (now later : ℕ) (a b : Claims)
      → verify_refresh_token crypto config token now ≡ ok a
      → verify_refresh_token crypto config token later ≡ ok b
      → a ≡ b
  unfolding verify_token
  verify_refresh_token-same token now later a b e f =
      let secret = config.refresh_secret in
      elim (Option-cases (crypto.jwt_verify token secret config.issuer config.audience now)) [
        | inl absent ↦ ground (arith, absent, e)
        | inr (p, first) ↦
            elim (Option-cases
              (crypto.jwt_verify token secret config.issuer config.audience later)) [
                | inl absent ↦ ground (arith, absent, f)
                | inr (q, second) ↦
                    let same =
                      jose.same_payload token secret config.issuer config.audience now later first
                        second in
                    ground (arith, first, second, same, e, f)
              ]
      ]

  -- The refresh token that is made for a session is verified, until it expires, to the user, the
  -- organization and the session that it was made for.
  pub verify_refresh_token-create :
      (input : Subject) (session_id now later : ℕ) (token : Token)
      → create_refresh_token crypto config input session_id now ≡ ok token
      → later / 1000 < now / 1000 + config.refresh_ttl_seconds
      → verify_refresh_token crypto config token later
        ≡ ok (
            claims_for config input TokenType.refresh
              (some session_id)
              config.refresh_ttl_seconds
              now)
  verify_refresh_token-create input session_id now later token e h =
      verify-sign_token input TokenType.refresh (some session_id) config.refresh_secret
        config.refresh_ttl_seconds now later token refl refl e h

  -- An access token that has not expired is refused as a refresh token even where the two
  -- secrets are one.
  verify_refresh_token-access :
      (input : Subject) (now later : ℕ) (token : Token)
      → create_access_token crypto config input now ≡ ok token
      → later / 1000 < now / 1000 + config.access_ttl_seconds
      → config.access_secret ≡ config.refresh_secret
      → verify_refresh_token crypto config token later ≡ fail 401 "Invalid or expired access token"
  unfolding sign_token verify_token
  verify_refresh_token-access input now later token e h same = ground (
    arith,
    e,
    sym same,
    jose.verify-sign (claims_for config input TokenType.access none config.access_ttl_seconds now)
        config.access_secret later h,
  )
