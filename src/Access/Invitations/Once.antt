-- ===== src/Access/Invitations/Once.antt =====
-- What an accepted invitation gives, and that it is accepted once: `acceptOrganizationInvitation` of
-- apps/api/src/organization-team-service.ts.
use ebay_pricing_intelligenc.Prelude.{
  value_in, ℕ, ◌≡◌, ◌<◌, ◌∙◌, refl, sym, ap, subst, true, false, [], ◌∷◌, ◌++◌, Option, none, some,
  Result, ok, err, fail, >>=-eq-ok, require, ◌==◌, ==_iff, leb, arith, find, revise, find-revise,
  Bool-cases, inl, inr, if◌then◌else◌,
}
use ebay_pricing_intelligenc.Database.{Prisma, IsDocumented, p2002}
use ebay_pricing_intelligenc.Database.Memory.{
  memory, of_memory, update-eq-ok, transaction-eq-ok, transaction_err,
}
use ebay_pricing_intelligenc.Schema.{AuditSeverity}
use ebay_pricing_intelligenc.Schema.Store.{of_option}
use ebay_pricing_intelligenc.Market.Matching.{Text}
use ebay_pricing_intelligenc.Delivery.DeadLetter.Requeue.{is_p2002}
use ebay_pricing_intelligenc.Access.Store.{Membership}
use ebay_pricing_intelligenc.Access.Tokens.{Crypto, JwtConfiguration}
use ebay_pricing_intelligenc.Access.Accounts.{
  User, AccountStore, Credentials, update_user, audit_access, revoke_sessions, issue_in_transaction,
}
use ebay_pricing_intelligenc.Access.Accounts.Kept.{
  update_user-eq-ok, audit_access-memberships, issue_in_transaction-eq-ok,
}
use ebay_pricing_intelligenc.Access.Accounts.Register.{same_user, create_membership}
use ebay_pricing_intelligenc.Access.Invitations.{
  Invitation, InvitationStore, AcceptInput, Accepted, is_pending, accepted_by, name_of,
  admitted_user, invited_user, invitation_event, update_invitation, has_token, pending_one,
  pending_invitation, with_accounts, with_status, expired,
}
use ebay_pricing_intelligenc.Access.Invitations.Accept.{
  membership_for, may_join, admit_user, join, accept_pending, accept_tx,
  accept_organization_invitation, caught,
}

pub pending_one-eq-ok :
    (o : Option Invitation) (i : Invitation)
    → pending_one o ≡ ok i
    → (o ≡ some i) × (is_pending i.status ≡ true)
pending_one-eq-ok none i e = cc
pending_one-eq-ok (some k) i e = elim (Bool-cases (is_pending k.status)) [
  | inl live ↦
      let same : k ≡ i = ap (value_in k) (rw live at e) in
      (ap some same, subst (λ j. is_pending j.status ≡ true) same live)
  | inr dead ↦ ground (arith, rw dead at e)
]

module _ (secrets : Credentials) where
  create_membership-eq-ok :
      (m : Membership) (s s' : AccountStore)
      → create_membership memory secrets m s ≡ ok s'
      → s'.access.memberships ≡ s.access.memberships ++ m ∷ []
  create_membership-eq-ok m s s' e = ground (arith, e)

  admit_user-memberships :
      (input : AcceptInput) (i : Invitation) (now : ℕ) (u : Option User) (s : AccountStore)
      (r : ℕ × AccountStore)
      → admit_user memory secrets input i now u s ≡ ok r
      → r.1.access.memberships ≡ s.access.memberships
  admit_user-memberships input i now none s r e =
      let user =
        invited_user s.next_id i.email (name_of input i) (secrets.hash_password input.password)
          now in
      let (users, created, e₁) =
        >>=-eq-ok (of_option p2002 (memory.create same_user user s.users)) _ e in
      sym (ap (λ k. (value_in r k).1.access.memberships) e₁)
  admit_user-memberships input i now (some user) s r e =
      let (u, may, e₁) =
        >>=-eq-ok
          (require (may_join memory secrets input user.password_hash) 409
            "This email already has a PartPulse account. Enter its existing password to accept the invitation")
          _ e in
      let f = admitted_user (name_of input i) (secrets.hash_password input.password) now in
      let (s₁, updated, e₂) = >>=-eq-ok (update_user memory user.id f s) _ e₁ in
      sym (ap (λ k. (value_in r k).1.access.memberships) e₂)
      ∙ ap (λ k. k.access.memberships) (update_user-eq-ok user.id f s s₁ updated)

  updated_invitations :
      (id : ℕ) (f : Invitation → Invitation) (s s' : InvitationStore)
      → update_invitation memory id f s ≡ ok s'
      → (s'.invitations ≡ revise (λ i. i.id == id) f s.invitations) × (s'.accounts ≡ s.accounts)
  updated_invitations id f s s' e =
      let (rows, written, done) =
        >>=-eq-ok (memory.update (λ a b. false) (λ (i : Invitation). i.id == id) f s.invitations) _
          e in
      (
        sym (ap (λ r. (value_in s r).invitations) done)
            ∙ (update-eq-ok (λ a b. false) (λ i. i.id == id) f s.invitations rows written).0,
        sym (ap (λ r. (value_in s r).accounts) done),
      )

  module _ {Token : Type 0} (crypto : Crypto Token) (config : JwtConfiguration) where
    -- What a user who joins has afterwards, and what becomes of the invitation.
    abbrev Joined : Invitation → Accepted Token → ℕ → InvitationStore → InvitationStore → Type 0
    Joined i a now s s' =
        (a.role ≡ i.role)
        × (id : ℕ) × (s'.accounts.access.memberships
            ≡ s.accounts.access.memberships ++ membership_for memory secrets id a.user_id i ∷ [])
        × (s'.invitations ≡ revise (λ k. k.id == i.id) (accepted_by a.user_id now) s.invitations)

    join-Joined :
        (i : Invitation) (user_id session_id now : ℕ) (s s' : InvitationStore) (a : Accepted Token)
        → join memory secrets crypto config i user_id session_id now s ≡ ok (a, s')
        → Joined i a now s s'
    join-Joined i user_id session_id now s s' a e =
        let m = membership_for memory secrets s.accounts.next_id user_id i in
        let (joined, created, e₁) = >>=-eq-ok (create_membership memory secrets m s.accounts) _ e in
        let (s₁, marked, e₂) =
          >>=-eq-ok
            (update_invitation memory i.id (accepted_by user_id now) (with_accounts s joined)) _
            e₁ in
        let (audited, event, e₃) =
          >>=-eq-ok
            (audit_access memory
              (invitation_event i.organization_id user_id "organization.invitation.accepted" i.id
                AuditSeverity.info)
              s₁.accounts)
            _ e₂ in
        let (issued, issue, e₄) =
          >>=-eq-ok
            (issue_in_transaction memory crypto config user_id i.organization_id session_id now
              (revoke_sessions memory user_id now audited))
            _ e₃ in
        let rows =
          updated_invitations i.id (accepted_by user_id now) (with_accounts s joined) s₁ marked in
        let final = ap (value_in {A = Accepted Token × InvitationStore} (a, s')) e₄ in
        let members : issued.1.access.memberships ≡ s.accounts.access.memberships ++ m ∷ [] =
          (issue_in_transaction-eq-ok crypto config user_id i.organization_id session_id now
            (revoke_sessions memory user_id now audited) issued.1 issued.0 issue).1
          ∙ audit_access-memberships _ s₁.accounts audited event
          ∙ ap (λ k. k.access.memberships) rows.1
          ∙ create_membership-eq-ok m s.accounts joined created in
        subst (λ r. Joined i r.0 now s r.1) final (refl, s.accounts.next_id, members, rows.0)

    accept_pending-Joined :
        (input : AcceptInput) (i : Invitation) (session_id now : ℕ) (s s' : InvitationStore)
        (a : Accepted Token)
        → accept_pending memory secrets crypto config input i session_id now s ≡ ok (a, s')
        → (now < i.expires_at) × Joined i a now s s'
    accept_pending-Joined input i session_id now s s' a e =
        elim (Bool-cases (leb i.expires_at now)) [
          | inl late ↦
              let (s₁, marked, e₁) =
                >>=-eq-ok (update_invitation memory i.id (with_status expired) s) _
                  (rw late at e) in
              ground (arith, e₁)
          | inr early ↦
              let (admitted, admit, e₁) =
                >>=-eq-ok
                  (admit_user memory secrets input i now
                    (find (λ (u : User). secrets.same_email u.email i.email) s.accounts.users)
                    s.accounts)
                  _ (rw early at e) in
              let (role, id, members, rows) =
                join-Joined i admitted.0 session_id now (with_accounts s admitted.1) s' a e₁ in
              (
                ground arith,
                (
                  role,
                  id,
                  members
                      ∙ ap (λ ms. ms ++ membership_for memory secrets id a.user_id i ∷ [])
                          (admit_user-memberships input i now _ s.accounts admitted admit),
                  rows,
                ),
              )
        ]

    accept_tx-Joined :
        (input : AcceptInput) (session_id now : ℕ) (s s' : InvitationStore) (a : Accepted Token)
        → accept_tx memory secrets crypto config input session_id now s ≡ ok (a, s')
        → (i : Invitation) × (find (has_token secrets input.token) s.invitations ≡ some i)
          × (is_pending i.status ≡ true)
          × (now < i.expires_at)
          × Joined i a now s s'
    unfolding accept_tx
    accept_tx-Joined input session_id now s s' a e =
        let (seen, first, e₁) = >>=-eq-ok (pending_invitation memory secrets input.token s) _ e in
        let (i, second, e₂) = >>=-eq-ok (pending_invitation memory secrets input.token s) _ e₁ in
        let (found, live) = pending_one-eq-ok _ i second in
        let (early, joined) = accept_pending-Joined input i session_id now s s' a e₂ in
        (i, found, live, early, joined)

    gone_tx :
        (input : AcceptInput) (session_id now later user_id : ℕ) (i : Invitation)
        (s : InvitationStore)
        → find (has_token secrets input.token) s.invitations ≡ some (accepted_by user_id now i)
        → accept_tx memory secrets crypto config input session_id later s
          ≡ fail 404 "Invitation is invalid or no longer available"
    unfolding accept_tx
    gone_tx input session_id now later user_id i s e = rw (e, memory) refl

    gone :
        (input : AcceptInput) (session_id now later user_id : ℕ) (i : Invitation)
        (s : InvitationStore)
        → find (has_token secrets input.token) s.invitations ≡ some (accepted_by user_id now i)
        → accept_organization_invitation memory secrets crypto config input session_id later s
          ≡ (fail 404 "Invitation is invalid or no longer available", s)
    unfolding accept_organization_invitation
    gone input session_id now later user_id i s e = sym (
        ap (caught memory secrets crypto config) (
          transaction_err (accept_tx memory secrets crypto config input session_id later) s _
            (gone_tx input session_id now later user_id i s e)))

    caught-eq-ok :
        (r : Result (Accepted Token) × InvitationStore) (a : Accepted Token) (s' : InvitationStore)
        → caught memory secrets crypto config r ≡ (ok a, s')
        → r ≡ (ok a, s')
    caught-eq-ok (ok b, s) a s' e = ground (arith, e)
    caught-eq-ok (err x, s) a s' e = elim (Bool-cases (is_p2002 x)) [
      | inl unique ↦ ground (arith, rw unique at e)
      | inr other ↦ ground (arith, rw other at e)
    ]

    -- An invitation is accepted once. When an acceptance succeeds, the link's invitation was
    -- pending and not expired, the organization has one membership more, of the returned user and
    -- with the invitation's role and permissions, and the returned role is the invitation's.
    -- Afterwards every acceptance with the same link, by whatever name and password and at
    -- whatever time, fails with 404 and changes nothing.
    pub accept_organization_invitation-once :
        (db : Prisma)
        → IsDocumented db
        → (input : AcceptInput) (session_id now : ℕ) (s s' : InvitationStore) (a : Accepted Token)
        → accept_organization_invitation db secrets crypto config input session_id now s
          ≡ (ok a, s')
        → (i : Invitation) × (find (has_token secrets input.token) s.invitations ≡ some i)
          × (is_pending i.status ≡ true)
          × (now < i.expires_at)
          × (a.role ≡ i.role)
          × ((id : ℕ) × (s'.accounts.access.memberships
                ≡ s.accounts.access.memberships ++ membership_for db secrets id a.user_id i ∷ []))
          × ((name : Option Text) (password : Text) (session_id' later : ℕ)
              → accept_organization_invitation db secrets crypto config
                  (record { token = input.token; name = name; password = password })
                  session_id'
                  later
                  s'
                ≡ (fail 404 "Invitation is invalid or no longer available", s'))
    unfolding accept_organization_invitation
    accept_organization_invitation-once = of_memory _ (λ input session_id now s s' a e.
        let done =
          transaction-eq-ok (accept_tx memory secrets crypto config input session_id now) s s' a
            (caught-eq-ok _ a s' e) in
        let (i, found, live, early, (role, id, members, rows)) =
          accept_tx-Joined input session_id now s s' a done in
        let marked : find (has_token secrets input.token) s'.invitations
            ≡ some (accepted_by a.user_id now i) =
          ap (find (has_token secrets input.token)) rows
          ∙ find-revise (has_token secrets input.token) (λ k. k.id == i.id)
              (accepted_by a.user_id now) s.invitations i (λ k. refl) found
          ∙ ap (λ b. some (if b then accepted_by a.user_id now i else i))
              ((==_iff i.id i.id).1 refl) in
        (
          i,
          found,
          live,
          early,
          role,
          (id, members),
          λ name password session_id' later.
              gone (record { token = input.token; name = name; password = password }) session_id'
                now later a.user_id i s' marked,
        ))
