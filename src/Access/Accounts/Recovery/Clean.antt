-- ===== src/Access/Accounts/Recovery/Clean.antt =====
-- What a recovered account keeps of what its user had before: `recoverAccount` of
-- apps/api/src/account-auth-service.ts.
use ebay_pricing_intelligenc.Prelude.{
  value_in, ℕ, ◌≡◌, ◌∙◌, refl, sym, ap, subst, Bool, true, not, ◌&&◌, List, [], ◌∷◌, some, ok,
  >>=-eq-ok, ◌==◌, is_some, arith, count, find, select, revise, count-revise_none,
  count-select_none, Bool-cases, inl, inr,
}
use ebay_pricing_intelligenc.Database.{Prisma, IsDocumented}
use ebay_pricing_intelligenc.Database.Memory.{memory, of_memory, transaction-eq-ok}
use ebay_pricing_intelligenc.Schema.{AuditEvent, AuditSeverity}
use ebay_pricing_intelligenc.Market.Matching.{Text}
use ebay_pricing_intelligenc.Access.Store.{Membership}
use ebay_pricing_intelligenc.Access.Accounts.{
  User, account_recovery, AuthToken, MfaRecoveryCode, AccountStore, Credentials,
  password_meets_policy, is_user_id, update_user, audit_access, delete_recovery_codes,
}
use ebay_pricing_intelligenc.Access.Accounts.Kept.{
  with_access, revise_user, update_user-eq-ok, audit_access-eq-ok,
}
use ebay_pricing_intelligenc.Access.Accounts.Recovery.{
  consumed, account_event, recovered_user, has_token, live_token, audit_each, recover_tx,
  recover_account,
}
use ebay_pricing_intelligenc.Access.Accounts.Recovery.Reset.{
  IsSignedOut, IsSignedOut-same, signed_out, signed_out-IsSignedOut, checked_token-eq-ok,
}

abbrev pub is_unused_of : ℕ → AuthToken → Bool
is_unused_of user_id t = t.user_id == user_id && not (is_some t.consumed_at)

abbrev pub is_code_of : ℕ → MfaRecoveryCode → Bool
is_code_of user_id c = c.user_id == user_id

abbrev pub has_mfa : ℕ → User → Bool
has_mfa user_id u = u.id == user_id && u.mfa_enabled

-- Nothing that could sign the user in before does so any more, but the password: no session, no
-- challenge, no emailed token, no recovery code, and no second factor.
abbrev pub IsClean : ℕ → AccountStore → Type 0
IsClean user_id s =
    IsSignedOut user_id s
    × (count (is_unused_of user_id) s.auth_tokens ≡ 0)
    × (count (is_code_of user_id) s.recovery_codes ≡ 0)
    × (count (has_mfa user_id) s.users ≡ 0)

-- The store before the update of the user, and before the events.
abbrev unused : ℕ → ℕ → AccountStore → AccountStore
unused user_id now s = record s {
  auth_tokens = revise (is_unused_of user_id) (consumed now) s.auth_tokens;
}

abbrev cleaned : ℕ → ℕ → AccountStore → AccountStore
cleaned user_id now s = delete_recovery_codes memory user_id (signed_out user_id now s)

abbrev recovered : ℕ → ℕ → ℕ → AccountStore → AccountStore
recovered user_id hash now s =
    cleaned user_id now (revise_user user_id (recovered_user hash now) (unused user_id now s))

recovered-IsClean :
    (user_id hash now : ℕ) (s : AccountStore) → IsClean user_id (recovered user_id hash now s)
recovered-IsClean user_id hash now s = (
  signed_out-IsSignedOut user_id now
      (revise_user user_id (recovered_user hash now) (unused user_id now s)),
  count-revise_none (is_unused_of user_id) (is_unused_of user_id) (consumed now) s.auth_tokens
      (λ t h. ground arith) (λ t h. h),
  count-select_none (is_code_of user_id) s.recovery_codes,
  count-revise_none (has_mfa user_id) (is_user_id user_id) (recovered_user hash now) s.users
      (λ u h. ground arith) (λ u h. ground (arith, h)),
)

module _ (secrets : Credentials) where
  -- The events change the table of the events alone.
  audit_each-eq-ok :
      (event : ℕ → AuditEvent) (ms : List Membership) (s s' : AccountStore)
      → audit_each memory secrets event ms s ≡ ok s'
      → (s' ≡ with_access s s'.access) × (s'.access.sessions ≡ s.access.sessions)
  audit_each-eq-ok event [] s s' e =
      subst (λ t. (t ≡ with_access s t.access) × (t.access.sessions ≡ s.access.sessions))
        (ap (value_in s) e) (refl, refl)
  audit_each-eq-ok event (m ∷ ms) s s' e =
      let (s₁, first, e₁) = >>=-eq-ok (audit_access memory (event m.organization_id) s) _ e in
      let one = audit_access-eq-ok (event m.organization_id) s s₁ first in
      let rest = audit_each-eq-ok event ms s₁ s' e₁ in
      (rest.0 ∙ ap (λ t. with_access t s'.access) one.0, rest.1 ∙ one.1)

  recover_tx-IsClean :
      (token hash now : ℕ) (s s' : AccountStore) (b : Bool)
      → recover_tx memory secrets token hash now s ≡ ok (b, s')
      → (t : AuthToken) × (find (has_token memory secrets token) s.auth_tokens ≡ some t)
        × IsClean t.user_id s'
  unfolding recover_tx
  recover_tx-IsClean token hash now s s' b e =
      let (t, live, e₁) =
        >>=-eq-ok
          (live_token memory secrets account_recovery "Account recovery link is invalid or expired"
            token now s)
          _ e in
      let (s₂, updated, e₂) =
        >>=-eq-ok (update_user memory t.user_id (recovered_user hash now) (unused t.user_id now s))
          _ e₁ in
      let (s₃, audited, e₃) =
        >>=-eq-ok
          (audit_each memory secrets
            (λ o. account_event o t.user_id "auth.account.recovered" AuditSeverity.critical)
            (select (λ m. m.user_id == t.user_id) s.access.memberships) (cleaned t.user_id now s₂))
          _ e₂ in
      let kept = audit_each-eq-ok _ _ (cleaned t.user_id now s₂) s₃ audited in
      let written =
        update_user-eq-ok t.user_id (recovered_user hash now) (unused t.user_id now s) s₂ updated in
      let before : IsClean t.user_id (cleaned t.user_id now s₂) =
        subst (λ k. IsClean t.user_id (cleaned t.user_id now k)) (sym written)
          (recovered-IsClean t.user_id hash now s) in
      let after : IsClean t.user_id s₃ = (
        IsSignedOut-same t.user_id (cleaned t.user_id now s₂) s₃ kept.1
            (ap (λ k. k.challenges) kept.0) before.0,
        ap (λ k. count (is_unused_of t.user_id) k.auth_tokens) kept.0 ∙ before.1,
        ap (λ k. count (is_code_of t.user_id) k.recovery_codes) kept.0 ∙ before.2,
        ap (λ k. count (has_mfa t.user_id) k.users) kept.0 ∙ before.3,
      ) in
      (
        t,
        checked_token-eq-ok secrets account_recovery "Account recovery link is invalid or expired"
            now _ t live,
        subst (IsClean t.user_id) (ap (λ r. (value_in {A = Bool × AccountStore} (b, s₃) r).1) e₃)
            after,
      )

  policy-eq-ok :
      (token now : ℕ) (password : Text) (s s' : AccountStore)
      → recover_account memory secrets token password now s ≡ (ok true, s')
      → recover_tx memory secrets token (secrets.hash_password password) now s ≡ ok (true, s')
  unfolding recover_account
  policy-eq-ok token now password s s' e = elim (Bool-cases (password_meets_policy password)) [
    | inl policy ↦
        transaction-eq-ok (recover_tx memory secrets token (secrets.hash_password password) now) s
          s' true (rw policy at e)
    | inr weak ↦ ground (arith, rw weak at e)
  ]

-- A recovery that succeeds has found a token for its link, and leaves the token's user clean: no
-- open session in any organization, no pending sign-in challenge, no emailed token of any kind
-- that is not consumed, no recovery code, and no enabled second factor.
pub recover_account-IsClean :
    (db : Prisma)
    → IsDocumented db
    → (secrets : Credentials) (token now : ℕ) (password : Text) (s s' : AccountStore)
    → recover_account db secrets token password now s ≡ (ok true, s')
    → (t : AuthToken) × (find (has_token db secrets token) s.auth_tokens ≡ some t)
      × IsClean t.user_id s'
recover_account-IsClean = of_memory _ (λ secrets token now password s s' e.
    recover_tx-IsClean secrets token (secrets.hash_password password) now s s' true
      (policy-eq-ok secrets token now password s s' e))
