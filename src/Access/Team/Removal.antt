-- ===== src/Access/Team/Removal.antt =====
-- What a removal takes from a member.
use ebay_pricing_intelligenc.Prelude.{
  ℕ, ◌≡◌, refl, Bool, true, not, ◌&&◌, List, [], ◌∷◌, Option, none, some, Result, ok, is_some,
  >>=-eq-ok, ◌==◌, arith, count, select, revise, count-revise_none, Bool-cases, Result-cases, inl,
  inr, find_holds,
}
use ebay_pricing_intelligenc.Database.{Prisma, IsDocumented}
use ebay_pricing_intelligenc.Database.Memory.{memory, of_memory}
use ebay_pricing_intelligenc.Access.Store.{Membership, RefreshSession, AccessStore}
use ebay_pricing_intelligenc.Access.Sessions.{revoked}
use ebay_pricing_intelligenc.Access.Team.{
  RemoveInput, is_member, assert_last_owner_safe, can_manage_member_role, remove_tx, remove_member,
  remove_organization_member,
}
use ebay_pricing_intelligenc.Access.Team.Owners.{record_access_event_lem}

abbrev pub is_open_session : ℕ → ℕ → RefreshSession → Bool
is_open_session organization_id user_id r =
    r.organization_id == organization_id && r.user_id == user_id && not (is_some r.revoked_at)

-- The member is out: no row of the member's is left, and none of the member's sessions is open.
abbrev pub IsOut : RemoveInput → Membership → AccessStore → Type 0
IsOut input m s =
    (count (λ r. r.id == m.id) s.memberships ≡ 0)
    × (count (is_open_session input.organization_id m.user_id) s.sessions ≡ 0)

select-none :
    (id : ℕ) (rows : List Membership)
    → count (λ r. r.id == id) (select (λ r. not (r.id == id)) rows) ≡ 0
select-none id [] = refl
select-none id (r ∷ rows) = ground (arith, select-none id rows)

remove_tx-IsOut :
    (input : RemoveInput) (m r : Membership) (now : ℕ) (s s' : AccessStore)
    → remove_tx memory input m now s ≡ ok (r, s')
    → (r ≡ m) × IsOut input m s'
unfolding remove_tx
remove_tx-IsOut input m r now s s' e =
    let (u, safe, e₁) =
      >>=-eq-ok (assert_last_owner_safe memory input.organization_id m.id m.role none s) _ e in
    let rows : s'.memberships ≡ select (λ k. not (k.id == m.id)) s.memberships =
      ground (arith, simp record_access_event_lem at e₁) in
    let sessions : s'.sessions
        ≡ revise (is_open_session input.organization_id m.user_id) (revoked now) s.sessions =
      ground (arith, simp record_access_event_lem at e₁) in
    let closed : IsOut input m s' = (
      rw rows (select-none m.id s.memberships),
      rw sessions (
          count-revise_none (is_open_session input.organization_id m.user_id)
            (is_open_session input.organization_id m.user_id) (revoked now) s.sessions
            (λ k h. ground arith) (λ k h. h)),
    ) in
    (ground (arith, simp record_access_event_lem at e₁), closed)

transaction-eq-ok :
    (f : AccessStore → Result (Membership × AccessStore)) (s s' : AccessStore) (r : Membership)
    → memory.transaction f s ≡ (ok r, s')
    → f s ≡ ok (r, s')
transaction-eq-ok f s s' r e = elim (Result-cases (f s)) [
  | inl ((r', t), done) ↦ ground (arith, done, e)
  | inr (x, failed) ↦ ground (arith, failed, e)
]

remove_member-IsOut :
    (meanwhile : AccessStore → AccessStore) (input : RemoveInput) (now : ℕ)
    (member : Option Membership) (s s' : AccessStore) (r : Membership)
    → remove_member memory meanwhile input now member s ≡ (ok r, s')
    → (member ≡ some r)
      × (can_manage_member_role input.actor_role r.role none ≡ true)
      × IsOut input r s'
remove_member-IsOut meanwhile input now none s s' r e = ground arith
remove_member-IsOut meanwhile input now (some m) s s' r e =
    elim (Bool-cases (can_manage_member_role input.actor_role m.role none)) [
      | inr refused ↦ ground (arith, refused, e)
      | inl may ↦
          let done =
            transaction-eq-ok (remove_tx memory input m now) (meanwhile s) s' r (rw may at e) in
          let (same, out) = remove_tx-IsOut input m r now (meanwhile s) s' done in
          rw same (refl, may, out)
    ]

-- A removal that succeeds returns a member whom the request names and whom the actor's role may
-- manage; afterwards no membership with the identifier of the returned one is left, and none of that user's refresh
-- sessions in the organization is open, whatever other requests did before the lock.
pub remove_organization_member-IsOut :
    (db : Prisma)
    → IsDocumented db
    → (meanwhile : AccessStore → AccessStore) (input : RemoveInput) (now : ℕ) (s s' : AccessStore)
      (m : Membership)
    → remove_organization_member db meanwhile input now s ≡ (ok m, s')
    → (is_member input.membership_id input.organization_id m ≡ true)
      × (can_manage_member_role input.actor_role m.role none ≡ true)
      × IsOut input m s'
unfolding remove_organization_member
remove_organization_member-IsOut = of_memory _ (λ meanwhile input now s s' m e.
    let (found, may, out) = remove_member-IsOut meanwhile input now _ s s' m e in
    (
      find_holds (is_member input.membership_id input.organization_id) s.memberships m found,
      may,
      out,
    ))
