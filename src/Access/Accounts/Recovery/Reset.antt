-- ===== src/Access/Accounts/Recovery/Reset.antt =====
-- What a reset password leaves of its user's sessions, and of its token:
-- `resetAccountPassword` of apps/api/src/account-auth-service.ts.
use ebay_pricing_intelligenc.Prelude.{
  value_in, ℕ, ◌≡◌, ◌∙◌, refl, sym, ap, subst, Bool, true, false, not, ◌&&◌, Option, none, some,
  String, ok, fail, >>=-eq-ok, ◌==◌, ==_iff, is_some, arith, count, find, revise, find-revise,
  count-revise_none, count-select_none, Bool-cases, inl, inr, if◌then◌else◌,
}
use ebay_pricing_intelligenc.Database.{Prisma, IsDocumented}
use ebay_pricing_intelligenc.Database.Memory.{
  memory, of_memory, update-eq-ok, transaction-eq-ok, transaction_err,
}
use ebay_pricing_intelligenc.Schema.{AuditEvent, AuditSeverity}
use ebay_pricing_intelligenc.Market.Matching.{Text}
use ebay_pricing_intelligenc.Access.Store.{Membership, RefreshSession}
use ebay_pricing_intelligenc.Access.Sessions.{revoked}
use ebay_pricing_intelligenc.Access.Accounts.{
  AuthTokenType, password_reset, AuthToken, MfaLoginChallenge, AccountStore, Credentials,
  password_meets_policy, update_user, revoke_sessions, delete_challenges,
}
use ebay_pricing_intelligenc.Access.Accounts.Kept.{
  with_access, update_user-eq-ok, audit_access-eq-ok,
}
use ebay_pricing_intelligenc.Access.Accounts.Recovery.{
  consumed, is_live_token, account_event, reset_user, has_token, checked_token, live_token,
  consume_token, audit_first, membership_of, reset_tx, reset_account_password,
}

abbrev pub is_open_of : ℕ → RefreshSession → Bool
is_open_of user_id r = r.user_id == user_id && not (is_some r.revoked_at)

abbrev pub is_challenge_of : ℕ → MfaLoginChallenge → Bool
is_challenge_of user_id c = c.user_id == user_id

-- The user has no open session in any organization, and no sign-in of the user waits for a code.
abbrev pub IsSignedOut : ℕ → AccountStore → Type 0
IsSignedOut user_id s =
    (count (is_open_of user_id) s.access.sessions ≡ 0)
    × (count (is_challenge_of user_id) s.challenges ≡ 0)

-- The store after the sessions and the challenges of the user are closed.
abbrev pub signed_out : ℕ → ℕ → AccountStore → AccountStore
signed_out user_id now s = delete_challenges memory user_id (revoke_sessions memory user_id now s)

pub signed_out-IsSignedOut :
    (user_id now : ℕ) (s : AccountStore) → IsSignedOut user_id (signed_out user_id now s)
signed_out-IsSignedOut user_id now s = (
  count-revise_none (is_open_of user_id) (is_open_of user_id) (revoked now) s.access.sessions
      (λ r h. ground arith) (λ r h. h),
  count-select_none (is_challenge_of user_id) s.challenges,
)

-- Events leave a user signed out.
pub IsSignedOut-same :
    (user_id : ℕ) (s s' : AccountStore)
    → s'.access.sessions ≡ s.access.sessions
    → s'.challenges ≡ s.challenges
    → IsSignedOut user_id s
    → IsSignedOut user_id s'
IsSignedOut-same user_id s s' sessions challenges h = (rw sessions h.0, rw challenges h.1)

pub checked_token-eq-ok :
    (secrets : Credentials) (kind : AuthTokenType) (message : String) (now : ℕ)
    (o : Option AuthToken) (t : AuthToken)
    → checked_token memory secrets kind message now o ≡ ok t
    → o ≡ some t
checked_token-eq-ok secrets kind message now none t e = cc
checked_token-eq-ok secrets kind message now (some r) t e =
    elim (Bool-cases (is_live_token kind now r)) [
      | inl live ↦ ap some (ap (value_in r) (rw live at e))
      | inr dead ↦ ground (arith, rw dead at e)
    ]

module _ (secrets : Credentials) where
  audit_first-eq-ok :
      (event : ℕ → AuditEvent) (m : Option Membership) (s s' : AccountStore)
      → audit_first memory secrets event m s ≡ ok s'
      → (s' ≡ with_access s s'.access) × (s'.access.sessions ≡ s.access.sessions)
  audit_first-eq-ok event none s s' e =
      subst (λ t. (t ≡ with_access s t.access) × (t.access.sessions ≡ s.access.sessions))
        (ap (value_in s) e) (refl, refl)
  audit_first-eq-ok event (some m) s s' e = audit_access-eq-ok (event m.organization_id) s s' e

  consumed_tokens :
      (t : AuthToken) (now : ℕ) (s s' : AccountStore)
      → consume_token memory secrets t now s ≡ ok s'
      → s'.auth_tokens ≡ revise (λ r. r.id == t.id) (consumed now) s.auth_tokens
  consumed_tokens t now s s' e =
      let (rows, written, done) =
        >>=-eq-ok
          (memory.update (λ a b. false) (λ (r : AuthToken). r.id == t.id) (consumed now)
            s.auth_tokens)
          _ e in
      sym (ap (λ r. (value_in s r).auth_tokens) done)
      ∙ (update-eq-ok (λ a b. false) (λ r. r.id == t.id) (consumed now) s.auth_tokens rows
          written).0

  reset_tx-IsSignedOut :
      (token hash now : ℕ) (s s' : AccountStore) (b : Bool)
      → reset_tx memory secrets token hash now s ≡ ok (b, s')
      → (t : AuthToken) × (find (has_token memory secrets token) s.auth_tokens ≡ some t)
        × IsSignedOut t.user_id s'
        × (find (has_token memory secrets token) s'.auth_tokens ≡ some (consumed now t))
  unfolding reset_tx
  reset_tx-IsSignedOut token hash now s s' b e =
      let (t, live, e₁) =
        >>=-eq-ok
          (live_token memory secrets password_reset "Password reset link is invalid or expired"
            token now s)
          _ e in
      let (s₁, used, e₂) = >>=-eq-ok (consume_token memory secrets t now s) _ e₁ in
      let (s₂, updated, e₃) =
        >>=-eq-ok (update_user memory t.user_id (reset_user hash now) s₁) _ e₂ in
      let (s₃, audited, e₄) =
        >>=-eq-ok
          (audit_first memory secrets
            (λ o. account_event o t.user_id "auth.password.reset" AuditSeverity.warning)
            (membership_of memory secrets t.user_id s) (signed_out t.user_id now s₂))
          _ e₃ in
      let kept = audit_first-eq-ok _ _ (signed_out t.user_id now s₂) s₃ audited in
      let found =
        checked_token-eq-ok secrets password_reset "Password reset link is invalid or expired" now _
          t live in
      let tokens : s₃.auth_tokens ≡ revise (λ r. r.id == t.id) (consumed now) s.auth_tokens =
        ap (λ k. k.auth_tokens) kept.0
        ∙ ap (λ k. k.auth_tokens) (update_user-eq-ok t.user_id (reset_user hash now) s₁ s₂ updated)
        ∙ consumed_tokens t now s s₁ used in
      let final : s₃ ≡ s' = ap (λ r. (value_in {A = Bool × AccountStore} (b, s₃) r).1) e₄ in
      (
        t,
        found,
        subst (IsSignedOut t.user_id) final (
            IsSignedOut-same t.user_id (signed_out t.user_id now s₂) s₃ kept.1
              (ap (λ k. k.challenges) kept.0) (signed_out-IsSignedOut t.user_id now s₂)),
        subst (λ k. find (has_token memory secrets token) k.auth_tokens ≡ some (consumed now t))
            final
            (ap (find (has_token memory secrets token)) tokens
              ∙ find-revise (has_token memory secrets token) (λ r. r.id == t.id) (consumed now)
                  s.auth_tokens t (λ r. refl) found
              ∙ ap (λ b. some (if b then consumed now t else t)) ((==_iff t.id t.id).1 refl)),
      )

  used_tx :
      (token hash now later : ℕ) (t : AuthToken) (s : AccountStore)
      → find (has_token memory secrets token) s.auth_tokens ≡ some (consumed now t)
      → reset_tx memory secrets token hash later s
        ≡ fail 409 "Password reset link is invalid or expired"
  unfolding reset_tx
  used_tx token hash now later t s e =
      let dead : is_live_token password_reset later (consumed now t) ≡ false = ground arith in
      rw (e, memory) (rw dead refl)

  used_token :
      (token now later : ℕ) (password : Text) (t : AuthToken) (s : AccountStore)
      → find (has_token memory secrets token) s.auth_tokens ≡ some (consumed now t)
      → password_meets_policy password ≡ true
      → reset_account_password memory secrets token password later s
        ≡ (fail 409 "Password reset link is invalid or expired", s)
  unfolding reset_account_password
  used_token token now later password t s e policy = rw policy (
      sym (
        transaction_err (reset_tx memory secrets token (secrets.hash_password password) later) s _
          (used_tx token (secrets.hash_password password) now later t s e)))

  policy-eq-ok :
      (token now : ℕ) (password : Text) (s s' : AccountStore)
      → reset_account_password memory secrets token password now s ≡ (ok true, s')
      → reset_tx memory secrets token (secrets.hash_password password) now s ≡ ok (true, s')
  unfolding reset_account_password
  policy-eq-ok token now password s s' e = elim (Bool-cases (password_meets_policy password)) [
    | inl policy ↦
        transaction-eq-ok (reset_tx memory secrets token (secrets.hash_password password) now) s s'
          true (rw policy at e)
    | inr weak ↦ ground (arith, rw weak at e)
  ]

-- A password that was reset signs its user out, and its link works once. When a reset succeeds, a
-- token has been found for the link; afterwards the token's user has no open session in any
-- organization and no pending sign-in challenge, and every later reset with the same link, at
-- whatever time and with whatever password that meets the policy, fails with 409 and changes
-- nothing.
pub reset_account_password-IsSignedOut :
    (db : Prisma)
    → IsDocumented db
    → (secrets : Credentials) (token now : ℕ) (password : Text) (s s' : AccountStore)
    → reset_account_password db secrets token password now s ≡ (ok true, s')
    → (t : AuthToken) × (find (has_token db secrets token) s.auth_tokens ≡ some t)
      × IsSignedOut t.user_id s'
      × ((later : ℕ) (again : Text)
          → password_meets_policy again ≡ true
          → reset_account_password db secrets token again later s'
            ≡ (fail 409 "Password reset link is invalid or expired", s'))
reset_account_password-IsSignedOut = of_memory _ (λ secrets token now password s s' e.
    let (t, found, out, used) =
      reset_tx-IsSignedOut secrets token (secrets.hash_password password) now s s' true
        (policy-eq-ok secrets token now password s s' e) in
    (
      t,
      found,
      out,
      λ later again policy. used_token secrets token now later again t s' used policy,
    ))
