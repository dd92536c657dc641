-- ===== src/Access/Team/Owners.antt =====
-- The count of an organization's owners through `changeOrganizationMemberRole` and
-- `removeOrganizationMember` of apps/api/src/organization-team-service.ts.
use ebay_pricing_intelligenc.Prelude.{
  ℕ, ◌≡◌, ◌≤◌, ◌<◌, refl, String, true, false, not, ◌&&◌, List, [], ◌∷◌, Option, none, some, Result,
  ok, >>=-eq-ok, ◌==◌, arith, count, select, revise, any_never, ◌++◌, ◌∙◌, All, Bool-cases,
  Result-cases, inl, inr,
}
use ebay_pricing_intelligenc.Database.{Prisma, IsDocumented}
use ebay_pricing_intelligenc.Database.Memory.{memory, of_memory, update-eq-ok}
use ebay_pricing_intelligenc.Schema.{AuditEvent}
use ebay_pricing_intelligenc.Access.{OrganizationRole}
use ebay_pricing_intelligenc.Access.Store.{Membership, AccessStore, record_access_event}
use ebay_pricing_intelligenc.Access.Team.{
  is_owner, next_is_owner, ChangeInput, RemoveInput, owns, is_member, assert_last_owner_safe,
  can_manage_member_role, is_unchanged, permissions_for, change_tx, change_member,
  change_organization_member_role, remove_tx, remove_member, remove_organization_member,
}

abbrev pub HasOwner : ℕ → AccessStore → Type 0
HasOwner organization_id s = 0 < count (owns organization_id) s.memberships

-- The rows of a member have the role that it was read with.
abbrev pub HasRole : Membership → Membership → Type 0
HasRole m row = (row.id == m.id) ≡ true → row.role ≡ m.role

-- Other owners outlast a change and a deletion of the member's rows.
others_le :
    (org id : ℕ) (f : Membership → Membership) (rows : List Membership)
    → count (λ m. owns org m && not (m.id == id)) rows
      ≤ count (owns org) (revise (λ m. m.id == id) f rows)
others_le org id f [] = omega arith
others_le org id f (m ∷ rows) = ground (arith, others_le org id f rows)

others-select :
    (org id : ℕ) (rows : List Membership)
    → count (λ m. owns org m && not (m.id == id)) rows
      ≤ count (owns org) (select (λ m. not (m.id == id)) rows)
others-select org id [] = omega arith
others-select org id (m ∷ rows) = ground (arith, others-select org id rows)

-- The owners are all others where the member is none.
no_owner_le :
    (org : ℕ) (m : Membership) (rows : List Membership)
    → is_owner m.role ≡ false
    → All (HasRole m) rows
    → count (owns org) rows ≤ count (λ r. owns org r && not (r.id == m.id)) rows
no_owner_le org m [] h k = omega arith
no_owner_le org m (r ∷ rows) h k = elim (Bool-cases (r.id == m.id)) [
  | inl own ↦
      let role : is_owner r.role ≡ false = rw (k.0 own) h in
      rw (own, role) (ground (arith, no_owner_le org m rows h k.1))
  | inr other ↦ rw other (ground (arith, no_owner_le org m rows h k.1))
]

-- A change to OWNER loses none.
new_owner_le :
    (org id : ℕ) (role : OrganizationRole) (permissions : List String) (rows : List Membership)
    → is_owner role ≡ true
    → count (owns org) rows
      ≤ count
          (owns org)
          (revise (λ m. m.id == id) (λ m. record m { role = role; permissions = permissions }) rows)
new_owner_le org id role permissions [] h = omega arith
new_owner_le org id role permissions (m ∷ rows) h =
    ground (arith, h, new_owner_le org id role permissions rows h)

-- What the check and the roles say together: another owner, or nothing that unmakes one.
assert-others :
    (org : ℕ) (m : Membership) (next : Option OrganizationRole) (s : AccessStore) (u : Unit {0})
    → assert_last_owner_safe memory org m.id m.role next s ≡ ok u
    → next_is_owner next ≡ false
    → All (HasRole m) s.memberships
    → HasOwner org s
    → 0 < count (λ r. owns org r && not (r.id == m.id)) s.memberships
unfolding assert_last_owner_safe
assert-others org m next s u e other roles h = elim (Bool-cases (is_owner m.role)) [
  | inl owner ↦ ground (arith, e, other, owner)
  | inr no_owner ↦ omega (arith, h, no_owner_le org m s.memberships no_owner roles)
]

pub record_access_event_lem :
    (e : AuditEvent) (s : AccessStore)
    → record_access_event memory e s ≡ ok (record s { audit = s.audit ++ e ∷ [] })
unfolding record_access_event
record_access_event_lem e s = rw (any_never s.audit, record_access_event) refl

abbrev changed : ChangeInput → List String → Membership → Membership
changed input permissions m = record m { role = input.role; permissions = permissions }

change_tx-eq-ok :
    (input : ChangeInput) (m r : Membership) (permissions : List String) (s s' : AccessStore)
    → change_tx memory input m permissions s ≡ ok (r, s')
    → (assert_last_owner_safe memory input.organization_id m.id m.role (some input.role) s ≡ ok tt)
      × (s'.memberships ≡ revise (λ k. k.id == m.id) (changed input permissions) s.memberships)
unfolding change_tx
change_tx-eq-ok input m r permissions s s' e =
    let (u, safe, e₁) =
      >>=-eq-ok
        (assert_last_owner_safe memory input.organization_id m.id m.role (some input.role) s) _ e in
    let (rows, updated, e₂) =
      >>=-eq-ok
        (memory.update (λ x y. false) (λ k. k.id == m.id) (changed input permissions) s.memberships)
        _ e₁ in
    let (written, _, _) =
      update-eq-ok (λ x y. false) (λ k. k.id == m.id) (changed input permissions) s.memberships rows
        updated in
    let kept : s'.memberships ≡ rows = ground (arith, simp record_access_event_lem at e₂) in
    (safe, kept ∙ written)

change_tx-HasOwner :
    (input : ChangeInput) (m r : Membership) (permissions : List String) (s s' : AccessStore)
    → change_tx memory input m permissions s ≡ ok (r, s')
    → All (HasRole m) s.memberships
    → HasOwner input.organization_id s
    → HasOwner input.organization_id s'
change_tx-HasOwner input m r permissions s s' e roles h =
    let org = input.organization_id in
    let (safe, written) = change_tx-eq-ok input m r permissions s s' e in
    elim (Bool-cases (is_owner input.role)) [
      | inl owner ↦
          rw written
            (omega (arith, h, new_owner_le org m.id input.role permissions s.memberships owner))
      | inr other ↦ rw written (
          omega (
            arith,
            assert-others org m (some input.role) s tt safe other roles h,
            others_le org m.id (changed input permissions) s.memberships,
          ))
    ]

remove_tx-HasOwner :
    (input : RemoveInput) (m r : Membership) (now : ℕ) (s s' : AccessStore)
    → remove_tx memory input m now s ≡ ok (r, s')
    → All (HasRole m) s.memberships
    → HasOwner input.organization_id s
    → HasOwner input.organization_id s'
unfolding remove_tx
remove_tx-HasOwner input m r now s s' e roles h =
    let org = input.organization_id in
    let (u, safe, e₁) = >>=-eq-ok (assert_last_owner_safe memory org m.id m.role none s) _ e in
    let kept : s'.memberships ≡ select (λ k. not (k.id == m.id)) s.memberships =
      ground (arith, simp record_access_event_lem at e₁) in
    rw kept (
      omega (
        arith,
        assert-others org m none s u safe refl roles h,
        others-select org m.id s.memberships,
      ))

-- While others run, they leave the member's role as it was read, and leave an owner.
pub record IsQuiet (meanwhile : AccessStore → AccessStore) (id org : ℕ) (s : AccessStore)
    : Type 0 where
  pub same_role :
      (m : Membership)
      → memory.find_first (is_member id org) s.memberships ≡ some m
      → All (HasRole m) (meanwhile s).memberships
  pub has_owner : HasOwner org (meanwhile s)

transaction-HasOwner :
    (org : ℕ) (f : AccessStore → Result (Membership × AccessStore)) (s : AccessStore)
    → HasOwner org s
    → ((r : Membership) (s' : AccessStore) → f s ≡ ok (r, s') → HasOwner org s')
    → HasOwner org (memory.transaction f s).1
transaction-HasOwner org f s h step = elim (Result-cases (f s)) [
  | inl ((r, s'), done) ↦ rw done (step r s' done)
  | inr (e, failed) ↦ rw failed h
]

change_member-HasOwner :
    (meanwhile : AccessStore → AccessStore) (input : ChangeInput) (member : Option Membership)
    (s : AccessStore)
    → ((m : Membership) → member ≡ some m → All (HasRole m) (meanwhile s).memberships)
    → HasOwner input.organization_id (meanwhile s)
    → HasOwner input.organization_id s
    → HasOwner input.organization_id (change_member memory meanwhile input member s).1
change_member-HasOwner meanwhile input none s roles there h = h
change_member-HasOwner meanwhile input (some m) s roles there h =
    elim (Bool-cases (can_manage_member_role input.actor_role m.role (some input.role))) [
      | inr refused ↦ rw refused h
      | inl may ↦ elim (Bool-cases (is_unchanged input m)) [
        | inl same ↦ rw (may, same) h
        | inr differs ↦
            let permissions = permissions_for input m in
            rw (may, differs)
              (transaction-HasOwner input.organization_id (change_tx memory input m permissions)
                (meanwhile s) there
                (λ r s' e.
                  change_tx-HasOwner input m r permissions (meanwhile s) s' e (roles m refl) there))
      ]
    ]

remove_member-HasOwner :
    (meanwhile : AccessStore → AccessStore) (input : RemoveInput) (now : ℕ)
    (member : Option Membership) (s : AccessStore)
    → ((m : Membership) → member ≡ some m → All (HasRole m) (meanwhile s).memberships)
    → HasOwner input.organization_id (meanwhile s)
    → HasOwner input.organization_id s
    → HasOwner input.organization_id (remove_member memory meanwhile input now member s).1
remove_member-HasOwner meanwhile input now none s roles there h = h
remove_member-HasOwner meanwhile input now (some m) s roles there h =
    elim (Bool-cases (can_manage_member_role input.actor_role m.role none)) [
      | inr refused ↦ rw refused h
      | inl may ↦ rw may (
          transaction-HasOwner input.organization_id (remove_tx memory input m now) (meanwhile s)
            there
            (λ r s' e. remove_tx-HasOwner input m r now (meanwhile s) s' e (roles m refl) there))
    ]

-- An organization that has an owner has one after every change of a member's role, whether the
-- change is made or refused. Between the reading of the member and the lock, others may do
-- anything that leaves an owner and the role of this member.
pub change_organization_member_role-HasOwner :
    (db : Prisma)
    → IsDocumented db
    → (meanwhile : AccessStore → AccessStore) (input : ChangeInput) (s : AccessStore)
    → IsQuiet meanwhile input.membership_id input.organization_id s
    → HasOwner input.organization_id s
    → HasOwner input.organization_id (change_organization_member_role db meanwhile input s).1
unfolding change_organization_member_role
change_organization_member_role-HasOwner = of_memory _ (λ meanwhile input s quiet h.
    change_member-HasOwner meanwhile input _ s quiet.same_role quiet.has_owner h)

-- An organization that has an owner has one after every removal of a member, whether the removal
-- is made or refused, under the same condition on what others do before the lock.
pub remove_organization_member-HasOwner :
    (db : Prisma)
    → IsDocumented db
    → (meanwhile : AccessStore → AccessStore) (input : RemoveInput) (now : ℕ) (s : AccessStore)
    → IsQuiet meanwhile input.membership_id input.organization_id s
    → HasOwner input.organization_id s
    → HasOwner input.organization_id (remove_organization_member db meanwhile input now s).1
unfolding remove_organization_member
remove_organization_member-HasOwner = of_memory _ (λ meanwhile input now s quiet h.
    remove_member-HasOwner meanwhile input now _ s quiet.same_role quiet.has_owner h)
