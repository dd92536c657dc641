-- ===== src/Access/Store.antt =====
-- The tables of apps/api/prisma/schema.prisma that hold the members of the organizations, what
-- invites them and their sessions. Emails are lists of code points, in lower case where the
-- services write them; identifiers and hashes are only compared.
use ebay_pricing_intelligenc.Prelude.{
  ℕ, Bool, false, ◌||◌, List, Option, none, some, String, ◌==◌, Result, ok,
}
use ebay_pricing_intelligenc.Database.{Prisma, p2002}
use ebay_pricing_intelligenc.Schema.{AuditEvent}
use ebay_pricing_intelligenc.Access.{OrganizationRole}

-- model OrganizationMembership
pub record Membership : Type 0 where
  pub id : ℕ
  pub organization_id : ℕ
  pub user_id : ℕ
  pub role : OrganizationRole
  pub permissions : List String

-- model RefreshSession
pub record RefreshSession : Type 0 where
  pub id : ℕ
  pub user_id : ℕ
  pub organization_id : ℕ
  pub token_hash : ℕ
  pub expires_at : ℕ
  pub revoked_at : Option ℕ

pub record AccessStore : Type 0 where
  pub memberships : List Membership
  pub sessions : List RefreshSession
  pub audit : List AuditEvent

abbrev pub same_session : RefreshSession → RefreshSession → Bool
same_session a b = a.id == b.id || a.token_hash == b.token_hash

-- `recordAuditEvent` of apps/api/src/audit-service.ts
unfoldable pub record_access_event : Prisma → AuditEvent → AccessStore → Result AccessStore
record_access_event db event s = elim (db.create (λ x y. false) event s.audit) [
  | none ↦ p2002
  | some audit ↦ ok (record s { audit = audit })
]
