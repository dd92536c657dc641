-- ===== src/Access/Accounts/Kept.antt =====
-- What the shared writes of the accounts' operations leave as it was.
use ebay_pricing_intelligenc.Prelude.{
  value_in, ℕ, ◌≡◌, ◌∙◌, refl, sym, ap, Bool, false, List, Option, none, some, Result, ok, err,
  >>=-eq-ok, is_some, arith, find, revise, Bool-cases, inl, inr,
}
use ebay_pricing_intelligenc.Database.Memory.{memory, update-eq-ok}
use ebay_pricing_intelligenc.Schema.{AuditEvent}
use ebay_pricing_intelligenc.Market.Matching.{Text}
use ebay_pricing_intelligenc.Access.Store.{AccessStore, RefreshSession}
use ebay_pricing_intelligenc.Access.Sessions.{TokenPair, build_token_pair, create_session}
use ebay_pricing_intelligenc.Access.Team.Owners.{record_access_event_lem}
use ebay_pricing_intelligenc.Access.Tokens.{Crypto, JwtConfiguration}
use ebay_pricing_intelligenc.Access.Accounts.{
  User, MfaRecoveryCode, AccountStore, Credentials, audit_access, is_membership_of,
  issue_in_transaction, matching_totp_step, is_totp_code, without_spaces, is_user_id, update_user,
}
use ebay_pricing_intelligenc.Access.Accounts.Codes.{
  claim_totp, claim_step, use_recovery_code, consume_code, mfa_secret, consume_mfa_code,
}

abbrev pub with_access : AccountStore → AccessStore → AccountStore
with_access s access = record s { access = access }

abbrev with_users : AccountStore → List User → AccountStore
with_users s users = record s { users = users }

abbrev pub revise_user : ℕ → (User → User) → AccountStore → AccountStore
revise_user id f s = record s { users = revise (is_user_id id) f s.users }

-- An update of a user changes the table of the users alone.
pub update_user-eq-ok :
    (id : ℕ) (f : User → User) (s s' : AccountStore)
    → update_user memory id f s ≡ ok s'
    → s' ≡ revise_user id f s
update_user-eq-ok id f s s' e =
    let (rows, written, done) =
      >>=-eq-ok (memory.update (λ x y. false) (is_user_id id) f s.users) _ e in
    sym (ap (value_in s) done)
    ∙ ap (with_users s) (update-eq-ok (λ x y. false) (is_user_id id) f s.users rows written).0

-- An event changes the table of the events alone.
pub audit_access-eq-ok :
    (event : AuditEvent) (s s' : AccountStore)
    → audit_access memory event s ≡ ok s'
    → (s' ≡ with_access s s'.access) × (s'.access.sessions ≡ s.access.sessions)
audit_access-eq-ok event s s' e = (
  ground (arith, simp record_access_event_lem at e),
  ground (arith, simp record_access_event_lem at e),
)

pub audit_access-memberships :
    (event : AuditEvent) (s s' : AccountStore)
    → audit_access memory event s ≡ ok s'
    → s'.access.memberships ≡ s.access.memberships
audit_access-memberships event s s' e = ground (arith, simp record_access_event_lem at e)

create_session-memberships :
    (session : RefreshSession) (s s' : AccessStore)
    → create_session memory session s ≡ ok s'
    → s'.memberships ≡ s.memberships
unfolding create_session
create_session-memberships session s s' e = ground (arith, e)

module _ {Token : Type 0} (crypto : Crypto Token) (config : JwtConfiguration) where
  -- A new session changes the tables of access alone.
  pub issue_in_transaction-eq-ok :
      (user_id organization_id session_id now : ℕ) (s s' : AccountStore) (pair : TokenPair Token)
      → issue_in_transaction memory crypto config user_id organization_id session_id now s
        ≡ ok (pair, s')
      → (s' ≡ with_access s s'.access) × (s'.access.memberships ≡ s.access.memberships)
  issue_in_transaction-eq-ok user_id organization_id session_id now s s' pair e =
      elim (Bool-cases
        (is_some (find (is_membership_of memory user_id organization_id) s.access.memberships))) [
          | inr absent ↦ ground (arith, rw absent at e)
          | inl present ↦
              let (created, built, e₁) =
                >>=-eq-ok
                  (build_token_pair memory crypto config
                    (record { user_id = user_id; organization_id = organization_id }) session_id
                    now)
                  _ (rw present at e) in
              let (access, stored, e₂) =
                >>=-eq-ok (create_session memory created.1 s.access) _ e₁ in
              (
                ground (arith, e₂),
                sym (
                      ap
                        (λ r.
                          (value_in {A = TokenPair Token × AccountStore} (pair, s')
                            r).1.access.memberships)
                        e₂)
                    ∙ create_session-memberships created.1 s.access access stored,
              )
        ]

module _ (secrets : Credentials) where
  claim_step-challenges :
      (user_id : ℕ) (step : Option ℕ) (s s' : AccountStore) (b : Bool)
      → claim_step memory secrets user_id step s ≡ ok (b, s')
      → s'.challenges ≡ s.challenges
  claim_step-challenges user_id none s s' b e = ground (arith, e)
  claim_step-challenges user_id (some step) s s' b e = ground (arith, e)

  use_recovery_code-challenges :
      (now : ℕ) (code : Option MfaRecoveryCode) (s : AccountStore)
      → (use_recovery_code memory secrets now code s).1.challenges ≡ s.challenges
  use_recovery_code-challenges now none s = refl
  use_recovery_code-challenges now (some code) s = refl

  claim_totp-challenges :
      (user : User) (code : Text) (now : ℕ) (s s' : AccountStore) (b : Bool) (secret : Result ℕ)
      → claim_totp memory secrets user code now s secret ≡ ok (b, s')
      → s'.challenges ≡ s.challenges
  claim_totp-challenges user code now s s' b (err x) e = cc
  claim_totp-challenges user code now s s' b (ok secret) e =
      claim_step-challenges user.id (matching_totp_step secrets secret code now) s s' b e

  consume_code-challenges :
      (user : User) (code : Text) (now : ℕ) (s s' : AccountStore) (b : Bool) (key : Result ℕ)
      → consume_code memory secrets user code now s key ≡ ok (b, s')
      → s'.challenges ≡ s.challenges
  consume_code-challenges user code now s s' b (err x) e = cc
  consume_code-challenges user code now s s' b (ok encrypted) e =
      elim (Bool-cases (is_totp_code (without_spaces code))) [
        | inl totp ↦
            claim_totp-challenges user code now s s' b (secrets.decrypt_mfa_secret encrypted)
              (rw totp at e)
        | inr recovery ↦
            ap (λ r. (value_in {A = Bool × AccountStore} (b, s') r).1.challenges)
              (sym (rw recovery at e))
            ∙ use_recovery_code-challenges now _ s
      ]

  -- A code changes no challenge.
  pub consume_mfa_code-challenges :
      (user : User) (code : Text) (now : ℕ) (s s' : AccountStore) (b : Bool)
      → consume_mfa_code memory secrets user code now s ≡ ok (b, s')
      → s'.challenges ≡ s.challenges
  unfolding consume_mfa_code
  consume_mfa_code-challenges user code now s s' b e =
      consume_code-challenges user code now s s' b (mfa_secret memory secrets user) e
