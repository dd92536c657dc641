-- ===== src/Access/Sessions/Once.antt =====
-- The rotations of one refresh token: apps/api/src/auth-sessions.ts.
use ebay_pricing_intelligenc.Prelude.{
  ℕ, ◌+◌, ◌≡◌, ◌≤◌, subst, refl, sym, ap, ◌∙◌, Bool, true, false, List, [], ◌∷◌, ◌++◌, Option, none,
  some, Result, ok, err, ==_iff, ◌==◌, arith, count, revise, any, Bool-cases, inl, inr,
  Result-cases, Option-cases, >>=-eq-ok, Failure, revise-count_none, count-revise_none,
  count-append,
}
use ebay_pricing_intelligenc.Database.{Prisma, IsDocumented}
use ebay_pricing_intelligenc.Database.Memory.{memory, of_memory}
use ebay_pricing_intelligenc.Access.Store.{RefreshSession, AccessStore, same_session}
use ebay_pricing_intelligenc.Access.Tokens.{Crypto, JwtConfiguration, Claims, verify_refresh_token}
use ebay_pricing_intelligenc.Access.Tokens.Laws.{IsJose, verify_refresh_token-same}
use mathlib.Core.Option.{some-injective}
use ebay_pricing_intelligenc.Access.Sessions.{
  TokenPair, is_session, is_live_session, revoked, membership_exists, rotate_tx, rotate_session,
  rotate_built, rotate_verified, rotate_token_pair, revoke, revoke_session, revoke_refresh_token,
  create_session,
}

-- No live row: the count of the update is 0, at every time.
dead :
    (id hash later : ℕ) (rows : List RefreshSession)
    → count (is_session id hash) rows ≡ 0
    → count (is_live_session id hash later) rows ≡ 0
dead id hash later [] e = refl
dead id hash later (r ∷ rows) e = ground (arith, dead id hash later rows)

abbrev pub has_id : ℕ → RefreshSession → Bool
has_id id r = r.id == id

-- Each row that is revoked is one of those with the identifier, and no longer open.
count-revoked_le :
    (id hash now : ℕ) (rows : List RefreshSession)
    → count (is_session id hash) (revise (is_live_session id hash now) (revoked now) rows)
        + count (is_live_session id hash now) rows
      ≤ count (has_id id) rows
count-revoked_le id hash now [] = omega arith
count-revoked_le id hash now (r ∷ rows) = ground (arith, count-revoked_le id hash now rows)

-- A new session that clashes with no row has no row's identifier.
new_id :
    (id hash now : ℕ) (session : RefreshSession) (rows : List RefreshSession)
    → any (same_session session) (revise (is_live_session id hash now) (revoked now) rows) ≡ false
    → count (is_live_session id hash now) rows ≡ 1
    → (session.id == id) ≡ false
new_id id hash now session [] a e = ground arith
new_id id hash now session (r ∷ rows) a e = ground (arith, new_id id hash now session rows)

none_is :
    (id hash : ℕ) (session : RefreshSession) (rows : List RefreshSession)
    → count (is_session id hash) rows ≡ 0
    → (session.id == id) ≡ false
    → count (is_session id hash) (rows ++ session ∷ []) ≡ 0
none_is id hash session rows e other =
    ground (arith, e, other, count-append (is_session id hash) rows (session ∷ []))

rotate_tx-true :
    (id hash now : ℕ) (session : RefreshSession) (s s' : AccessStore)
    → count (has_id id) s.sessions ≤ 1
    → rotate_tx memory id hash session now s ≡ ok (true, s')
    → count (is_session id hash) s'.sessions ≡ 0
unfolding rotate_tx create_session
rotate_tx-true id hash now session s s' unique e =
    let rows = revise (is_live_session id hash now) (revoked now) s.sessions in
    elim (Bool-cases (count (is_live_session id hash now) s.sessions == 1)) [
      | inr none_live ↦ ground (arith, none_live, e)
      | inl one ↦ elim (Bool-cases (any (same_session session) rows)) [
        | inl clash ↦ ground (arith, one, clash, e)
        | inr fresh ↦
            let written : s'.sessions ≡ rows ++ session ∷ [] = ground (arith, one, fresh, e) in
            rw written (
              none_is id hash session rows
                (omega (arith, count-revoked_le id hash now s.sessions, (==_iff _ _).0 one, unique))
                (new_id id hash now session s.sessions fresh ((==_iff _ _).0 one)))
      ]
    ]

rotate_tx-dead :
    (id hash now : ℕ) (session : RefreshSession) (s : AccessStore)
    → count (is_session id hash) s.sessions ≡ 0
    → rotate_tx memory id hash session now s ≡ ok (false, s)
unfolding rotate_tx
rotate_tx-dead id hash now session s e =
    let none_live = dead id hash now s.sessions e in
    rw
      (
        none_live,
        revise-count_none (is_live_session id hash now) (revoked now) s.sessions none_live,
      )
      refl

abbrev used : Failure
used = record { status_code = 401; message = "Refresh token has already been used or revoked" }

module _ {Token : Type 0} (crypto : Crypto Token) (config : JwtConfiguration) where
  session-eq-ok :
      (made pair : TokenPair Token) (replacement : RefreshSession) (hash now : ℕ) (jti : Option ℕ)
      (s s' : AccessStore)
      → rotate_session memory crypto config made replacement hash now jti s ≡ (ok pair, s')
      → (id : ℕ) × (jti ≡ some id) × (rotate_tx memory id hash replacement now s ≡ ok (true, s'))
  session-eq-ok made pair replacement hash now none s s' e = ground arith
  session-eq-ok made pair replacement hash now (some id) s s' e = (
    id,
    refl,
    elim (Result-cases (rotate_tx memory id hash replacement now s)) [
      | inr (f, failed) ↦ ground (arith, failed, e)
      | inl ((false, t), refused) ↦ ground (arith, refused, e)
      | inl ((true, t), done) ↦ ground (arith, done, e)
    ],
  )

  built-eq-ok :
      (claims : Claims) (hash now : ℕ) (built : Result (TokenPair Token × RefreshSession))
      (s s' : AccessStore) (pair : TokenPair Token)
      → rotate_built memory crypto config claims hash now built s ≡ (ok pair, s')
      → (id : ℕ) × (claims.jti ≡ some id)
        × ((replacement : RefreshSession) × (rotate_tx memory id hash replacement now s
              ≡ ok (true, s')))
  built-eq-ok claims hash now (err f) s s' pair e = ground arith
  built-eq-ok claims hash now (ok (made, replacement)) s s' pair e =
      let (id, names, done) = session-eq-ok made pair replacement hash now claims.jti s s' e in
      (id, names, (replacement, done))

  -- What a rotation that succeeds has gone through.
  verified-eq-ok :
      (hash session_id now : ℕ) (verified : Result Claims) (s s' : AccessStore)
      (pair : TokenPair Token)
      → rotate_verified memory crypto config hash session_id now verified s ≡ (ok pair, s')
      → (claims : Claims) × (verified ≡ ok claims)
        × ((id : ℕ) × (claims.jti ≡ some id)
            × ((replacement : RefreshSession) × (rotate_tx memory id hash replacement now s
                  ≡ ok (true, s'))))
  verified-eq-ok hash session_id now (err f) s s' pair e = ground arith
  verified-eq-ok hash session_id now (ok claims) s s' pair e = (
    claims,
    refl,
    elim (Bool-cases (membership_exists memory claims.sub claims.organization_id s)) [
      | inl member ↦ built-eq-ok claims hash now _ s s' pair (rw member at e)
      | inr stranger ↦ ground (arith, stranger, e)
    ],
  )

  session-dead :
      (made : TokenPair Token) (replacement : RefreshSession) (hash now : ℕ) (jti : Option ℕ)
      (s : AccessStore)
      → ((id : ℕ) → jti ≡ some id → count (is_session id hash) s.sessions ≡ 0)
      → (e : Failure) × (rotate_session memory crypto config made replacement hash now jti s
          ≡ (err e, s))
  session-dead made replacement hash now none s none_open = (_, refl)
  session-dead made replacement hash now (some id) s none_open =
      (used, rw (rotate_tx-dead id hash now replacement s (none_open id refl), memory) refl)

  built-dead :
      (claims : Claims) (hash now : ℕ) (built : Result (TokenPair Token × RefreshSession))
      (s : AccessStore)
      → ((id : ℕ) → claims.jti ≡ some id → count (is_session id hash) s.sessions ≡ 0)
      → (e : Failure) × (rotate_built memory crypto config claims hash now built s ≡ (err e, s))
  built-dead claims hash now (err e) s none_open = (e, refl)
  built-dead claims hash now (ok (made, replacement)) s none_open =
      session-dead made replacement hash now claims.jti s none_open

  verified-dead :
      (hash session_id now : ℕ) (verified : Result Claims) (s : AccessStore)
      → ((claims : Claims) (id : ℕ)
          → verified ≡ ok claims
          → claims.jti ≡ some id
          → count (is_session id hash) s.sessions ≡ 0)
      → (e : Failure) × (rotate_verified memory crypto config hash session_id now verified s
          ≡ (err e, s))
  verified-dead hash session_id now (err e) s none_open = (e, refl)
  verified-dead hash session_id now (ok claims) s none_open =
      elim (Bool-cases (membership_exists memory claims.sub claims.organization_id s)) [
        | inl member ↦ rw member (built-dead claims hash now _ s (λ id. none_open claims id refl))
        | inr stranger ↦ rw stranger (_, refl)
      ]

  -- What a revocation leaves open, for the session that it names.
  revoke-none :
      (id hash now : ℕ) (s : AccessStore)
      → count (is_session id hash) (revoke memory id hash now s).sessions ≡ 0
  unfolding revoke
  revoke-none id hash now s =
      count-revise_none (is_session id hash) (is_session id hash) (revoked now) s.sessions
        (λ r h. ground arith) (λ r h. h)

  revoke-eq-ok :
      (token : Token) (now : ℕ) (s s' : AccessStore)
      → revoke_refresh_token memory crypto config token now s ≡ ok s'
      → (claims : Claims) × (verify_refresh_token crypto config token now ≡ ok claims)
        × ((id : ℕ) × (claims.jti ≡ some id)
            × (count (is_session id (crypto.sha256 token)) s'.sessions ≡ 0))
  unfolding revoke_refresh_token
  revoke-eq-ok token now s s' e =
      let (claims, verified, rest) =
        >>=-eq-ok (verify_refresh_token crypto config token now)
          (λ claims. revoke_session memory crypto config token now claims.jti s) e in
      (
        claims,
        verified,
        elim (Option-cases claims.jti) [
          | inl absent ↦ ground (arith, absent, rest)
          | inr (id, names) ↦
              let written : s' ≡ revoke memory id (crypto.sha256 token) now s =
                ground (arith, names, rest) in
              (id, names, rw written (revoke-none id (crypto.sha256 token) now s))
        ],
      )

  module _ (jose : IsJose crypto) where
    same_session_id :
        (token : Token) (now later : ℕ) (a b : Claims) (i j : ℕ)
        → verify_refresh_token crypto config token now ≡ ok a
        → verify_refresh_token crypto config token later ≡ ok b
        → a.jti ≡ some i
        → b.jti ≡ some j
        → i ≡ j
    same_session_id token now later a b i j va vb na nb = some-injective _ _ (
        sym na
        ∙ ap (λ c. c.jti) (verify_refresh_token-same crypto jose config token now later a b va vb)
        ∙ nb)

    -- A refresh token is rotated once. When a rotation has succeeded, every later one with the
    -- same token is refused and changes nothing, at whatever time it is made and whatever the
    -- identifier of its new session. The sessions' identifiers are unique, as the table has it.
    pub rotate_token_pair-once :
        (db : Prisma)
        → IsDocumented db
        → (token : Token) (session_id now : ℕ) (s s' : AccessStore) (pair : TokenPair Token)
        → ((id : ℕ) → count (has_id id) s.sessions ≤ 1)
        → rotate_token_pair db crypto config token session_id now s ≡ (ok pair, s')
        → (next_id later : ℕ)
        → (e : Failure) × (rotate_token_pair db crypto config token next_id later s' ≡ (err e, s'))
    unfolding rotate_token_pair
    rotate_token_pair-once = of_memory _ (λ token session_id now s s' pair unique e next_id later.
        let (claims, verified, (id, names, (replacement, done))) =
          verified-eq-ok (crypto.sha256 token) session_id now _ s s' pair e in
        verified-dead (crypto.sha256 token) next_id later _ s' (λ claims' id' verified' names'.
          subst (λ i. count (is_session i (crypto.sha256 token)) s'.sessions ≡ 0)
            (same_session_id token now later claims claims' id id' verified verified' names names')
            (rotate_tx-true id (crypto.sha256 token) now replacement s s' (unique id) done)))

    -- A refresh token that was revoked is not rotated any more: whenever it is presented, the
    -- request is refused and changes nothing.
    pub rotate_token_pair-revoked :
        (db : Prisma)
        → IsDocumented db
        → (token : Token) (now : ℕ) (s s' : AccessStore)
        → revoke_refresh_token db crypto config token now s ≡ ok s'
        → (next_id later : ℕ)
        → (e : Failure) × (rotate_token_pair db crypto config token next_id later s' ≡ (err e, s'))
    unfolding rotate_token_pair
    rotate_token_pair-revoked = of_memory _ (λ token now s s' e next_id later.
        let (claims, verified, (id, names, closed)) = revoke-eq-ok token now s s' e in
        verified-dead (crypto.sha256 token) next_id later _ s' (λ claims' id' verified' names'.
          subst (λ i. count (is_session i (crypto.sha256 token)) s'.sessions ≡ 0)
            (same_session_id token now later claims claims' id id' verified verified' names names')
            closed))
