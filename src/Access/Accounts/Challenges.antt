-- ===== src/Access/Accounts/Challenges.antt =====
-- The life of a challenge: `completeMfaLogin` of apps/api/src/account-auth-service.ts.
use ebay_pricing_intelligenc.Schema.Store.{of_option-eq-ok, of_option}
use ebay_pricing_intelligenc.Prelude.{
  value_in, ℕ, ◌≡◌, ◌∙◌, refl, sym, ap, Bool, true, false, Option, none, some, Result, ok, err,
  fail, >>=-eq-ok, ◌==◌, ==_iff, require, arith, find, revise, find-revise, if◌then◌else◌,
}
use ebay_pricing_intelligenc.Database.{Prisma, IsDocumented, p2025}
use ebay_pricing_intelligenc.Database.Memory.{
  memory, of_memory, update-eq-ok, transaction-eq-ok, transaction_err,
}
use ebay_pricing_intelligenc.Market.Matching.{Text}
use ebay_pricing_intelligenc.Access.Tokens.{Crypto, JwtConfiguration}
use ebay_pricing_intelligenc.Access.Accounts.{
  User, MfaLoginChallenge, AccountStore, Credentials, is_membership_of, issue_in_transaction,
  audit_access,
}
use ebay_pricing_intelligenc.Access.Accounts.Kept.{
  audit_access-eq-ok, issue_in_transaction-eq-ok, consume_mfa_code-challenges,
}
use ebay_pricing_intelligenc.Access.Accounts.Login.{SignedIn, sign_in_event}
use ebay_pricing_intelligenc.Access.Accounts.Codes.{
  consumed_at, attempted, is_open_challenge, update_challenge, complete_valid, complete_checked,
  complete_tx, completed, complete_mfa_login, consume_mfa_code,
}

abbrev pub has_challenge : Credentials → ℕ → MfaLoginChallenge → Bool
has_challenge secrets token c = c.token_hash == secrets.hash_token token

module _ (secrets : Credentials) {Token : Type 0} (crypto : Crypto Token)
    (config : JwtConfiguration) where
  updated_challenges :
      (id : ℕ) (f : MfaLoginChallenge → MfaLoginChallenge) (s s' : AccountStore)
      → update_challenge memory secrets crypto config id f s ≡ ok s'
      → s'.challenges ≡ revise (λ r. r.id == id) f s.challenges
  updated_challenges id f s s' e =
      let (rows, written, done) =
        >>=-eq-ok
          (memory.update (λ x y. false) (λ (r : MfaLoginChallenge). r.id == id) f s.challenges) _
          e in
      sym (ap (λ r. (value_in s r).challenges) done)
      ∙ (update-eq-ok (λ x y. false) (λ r. r.id == id) f s.challenges rows written).0

  abbrev closing : ℕ → MfaLoginChallenge → MfaLoginChallenge
  closing now = consumed_at memory secrets crypto config now

  complete_valid-challenges :
      (c : MfaLoginChallenge) (session_id now : ℕ) (s s' : AccountStore)
      (signed : Option (SignedIn Token))
      → complete_valid memory secrets crypto config c session_id now s ≡ ok (signed, s')
      → s'.challenges ≡ revise (λ r. r.id == c.id) (closing now) s.challenges
  complete_valid-challenges c session_id now s s' signed e =
      let (s₁, updated, e₁) =
        >>=-eq-ok (update_challenge memory secrets crypto config c.id (closing now) s) _ e in
      let (m, member, e₂) =
        >>=-eq-ok
          (of_option (fail 403 "This account has no active organization membership")
            (find (is_membership_of memory c.user_id c.organization_id) s₁.access.memberships))
          _ e₁ in
      let (issue, issued, e₃) =
        >>=-eq-ok
          (issue_in_transaction memory crypto config c.user_id c.organization_id session_id now s₁)
          _ e₂ in
      let (s₃, audited, e₄) =
        >>=-eq-ok
          (audit_access memory
            (sign_in_event c.organization_id c.user_id "auth.login.mfa_succeeded") issue.1)
          _ e₃ in
      sym (
        ap (λ r. (value_in {A = Option (SignedIn Token) × AccountStore} (signed, s) r).1.challenges)
          e₄)
      ∙ ap (λ t. t.challenges) (audit_access-eq-ok _ issue.1 s₃ audited).0
      ∙ ap (λ t. t.challenges)
          (issue_in_transaction-eq-ok crypto config c.user_id c.organization_id session_id now s₁
            issue.1 issue.0 issued).0
      ∙ updated_challenges c.id (closing now) s s₁ updated

  complete_checked-challenges :
      (c : MfaLoginChallenge) (session_id now : ℕ) (b : Bool) (s s' : AccountStore)
      (signed : SignedIn Token)
      → complete_checked memory secrets crypto config c session_id now (b, s) ≡ ok (some signed, s')
      → s'.challenges ≡ revise (λ r. r.id == c.id) (closing now) s.challenges
  complete_checked-challenges c session_id now false s s' signed e =
      let (s₁, updated, e₁) =
        >>=-eq-ok
          (update_challenge memory secrets crypto config c.id
            (attempted memory secrets crypto config c.attempts now) s)
          _ e in
      ground (arith, e₁)
  complete_checked-challenges c session_id now true s s' signed e =
      complete_valid-challenges c session_id now s s' (some signed) e

  -- A sign-in that succeeds leaves the challenge consumed.
  complete_tx-consumed :
      (token : ℕ) (code : Text) (session_id now : ℕ) (s s' : AccountStore) (signed : SignedIn Token)
      → complete_tx memory secrets crypto config token code session_id now s ≡ ok (some signed, s')
      → (c : MfaLoginChallenge) × (find (has_challenge secrets token) s'.challenges
          ≡ some (closing now c))
  unfolding complete_tx
  complete_tx-consumed token code session_id now s s' signed e =
      let (c, found, e₁) =
        >>=-eq-ok
          (of_option (fail 401 "MFA challenge is invalid or expired")
            (find (has_challenge secrets token) s.challenges))
          _ e in
      let (u, live, e₂) =
        >>=-eq-ok
          (require (is_open_challenge memory secrets now c) 401
            "MFA challenge is invalid or expired")
          _ e₁ in
      let (user, owner, e₃) =
        >>=-eq-ok (of_option p2025 (find (λ (u : User). u.id == c.user_id) s.users)) _ e₂ in
      let (checked, consumed, e₄) =
        >>=-eq-ok (consume_mfa_code memory secrets user code now s) _ e₃ in
      let rows : s'.challenges ≡ revise (λ r. r.id == c.id) (closing now) s.challenges =
        complete_checked-challenges c session_id now checked.0 checked.1 s' signed e₄
        ∙ ap (revise (λ r. r.id == c.id) (closing now))
            (consume_mfa_code-challenges secrets user code now s checked.1 checked.0 consumed) in
      (
        c,
        ap (find (has_challenge secrets token)) rows
            ∙ find-revise (has_challenge secrets token) (λ r. r.id == c.id) (closing now)
                s.challenges c (λ r. refl) (of_option-eq-ok _ _ c found)
            ∙ ap (λ b. some (if b then closing now c else c)) ((==_iff c.id c.id).1 refl),
      )

  refused_tx :
      (token : ℕ) (code : Text) (session_id now later : ℕ) (c : MfaLoginChallenge)
      (s : AccountStore)
      → find (has_challenge secrets token) s.challenges ≡ some (closing now c)
      → complete_tx memory secrets crypto config token code session_id later s
        ≡ fail 401 "MFA challenge is invalid or expired"
  unfolding complete_tx
  refused_tx token code session_id now later c s e = rw (e, memory) refl

  refused_after :
      (token : ℕ) (code : Text) (session_id now later : ℕ) (c : MfaLoginChallenge)
      (s : AccountStore)
      → find (has_challenge secrets token) s.challenges ≡ some (closing now c)
      → complete_mfa_login memory secrets crypto config token code session_id later s
        ≡ (fail 401 "MFA challenge is invalid or expired", s)
  unfolding complete_mfa_login
  refused_after token code session_id now later c s e = sym (
      ap (completed memory secrets crypto config) (
        transaction_err (complete_tx memory secrets crypto config token code session_id later) s _
          (refused_tx token code session_id now later c s e)))

  completed-eq-ok :
      (r : Result (Option (SignedIn Token)) × AccountStore) (signed : SignedIn Token)
      (s' : AccountStore)
      → completed memory secrets crypto config r ≡ (ok signed, s')
      → r ≡ (ok (some signed), s')
  completed-eq-ok (err x, s) signed s' e = ground (arith, e)
  completed-eq-ok (ok none, s) signed s' e = ground (arith, e)
  completed-eq-ok (ok (some t), s) signed s' e = ground (arith, e)

  -- A challenge signs its user in once. When a sign-in with the token of a challenge has
  -- succeeded, every later one with the same token fails with 401 and changes nothing, whatever
  -- code it gives and at whatever time.
  pub complete_mfa_login-once :
      (db : Prisma)
      → IsDocumented db
      → (token : ℕ) (code : Text) (session_id now : ℕ) (s s' : AccountStore)
        (signed : SignedIn Token)
      → complete_mfa_login db secrets crypto config token code session_id now s ≡ (ok signed, s')
      → (code' : Text) (session_id' later : ℕ)
      → complete_mfa_login db secrets crypto config token code' session_id' later s'
        ≡ (fail 401 "MFA challenge is invalid or expired", s')
  unfolding complete_mfa_login
  complete_mfa_login-once =
      of_memory _ (λ token code session_id now s s' signed e code' session_id' later.
        let done =
          transaction-eq-ok (complete_tx memory secrets crypto config token code session_id now) s
            s' (some signed) (completed-eq-ok _ signed s' e) in
        let (c, found) = complete_tx-consumed token code session_id now s s' signed done in
        refused_after token code' session_id' now later c s' found)
