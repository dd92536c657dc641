-- ===== src/Database.antt =====
-- The Prisma client of apps/api/src/db.ts. Prisma and PostgreSQL are not part of the repository,
-- so the calls that the services make are the fields of `Prisma`, which their models take as an
-- argument, and `IsDocumented` states what the client's documentation says of each call.
-- A table is the list of its rows in the order of creation, in which queries return them. A `where`
-- object is a test on rows, and `data` a change of a row.
pub mod Memory
use ebay_pricing_intelligenc.Prelude.{
  ℕ, ◌≡◌, Bool, List, [], ◌∷◌, ◌++◌, Option, none, some, Result, ok, err, not, any, find, select,
  revise, length, is_some, fail, false, ◌||◌, if◌then◌else◌,
}
use ebay_pricing_intelligenc.Prelude

pub record Prisma : Type 1 where
  pub find_first : {Row : Type 0} → (Row → Bool) → List Row → Option Row
  -- The first of the rows that pass, in the order of the first argument (`orderBy`).
  pub find_first_by : {Row : Type 0} → (Row → Row → Bool) → (Row → Bool) → List Row → Option Row
  pub find_many : {Row : Type 0} → (Row → Bool) → List Row → List Row
  pub count : {Row : Type 0} → (Row → Bool) → List Row → ℕ
  -- The first argument is the test of the unique indexes; `none` is the error P2002.
  pub create : {Row : Type 0} → (Row → Row → Bool) → Row → List Row → Option (List Row)
  -- The new rows, and the number of rows that passed the test.
  pub update_many : {Row : Type 0} → (Row → Bool) → (Row → Row) → List Row → List Row × ℕ
  -- `update` wants its row to be there, and the unique indexes to hold of what it writes.
  pub update :
      {Row : Type 0}
      → (Row → Row → Bool)
      → (Row → Bool)
      → (Row → Row)
      → List Row
      → Result (List Row)
  pub delete_many : {Row : Type 0} → (Row → Bool) → List Row → List Row × ℕ
  pub upsert : {Row : Type 0} → (Row → Bool) → Row → (Row → Row) → List Row → List Row
  -- `$transaction` keeps what its callback changed only if the callback returns.
  pub transaction : {State A : Type 0} → (State → Result (A × State)) → State → Result A × State

-- The errors by which the services tell a unique index from a record that is not there.
abbrev pub p2002 {ℓ} : {A : Type ℓ} → Result A
p2002 = fail 500 "P2002"

abbrev pub p2025 {ℓ} : {A : Type ℓ} → Result A
p2025 = fail 500 "P2025"

-- Two rows are the same to a unique index.
abbrev pub clashes {ℓ} : {Row : Type ℓ} → (Row → Row → Bool) → List Row → Bool
clashes same [] = false
clashes same (row ∷ rows) = any (same row) rows || clashes same rows

-- The row that no other comes before; of several, the one that stands first.
abbrev earlier {ℓ} : {Row : Type ℓ} → (Row → Row → Bool) → Row → Option Row → Option Row
earlier before row none = some row
earlier before row (some other) = if before other row then some other else some row

abbrev pub first_by {ℓ} : {Row : Type ℓ} → (Row → Row → Bool) → List Row → Option Row
first_by before [] = none
first_by before (row ∷ rows) = earlier before row (first_by before rows)

pub record IsDocumented (db : Prisma) : Type 1 where
  pub find_first_eq :
      {Row : Type 0} (p : Row → Bool) (rows : List Row) → db.find_first p rows ≡ find p rows
  pub find_first_by_eq :
      {Row : Type 0} (before : Row → Row → Bool) (p : Row → Bool) (rows : List Row)
      → db.find_first_by before p rows ≡ first_by before (select p rows)
  pub find_many_eq :
      {Row : Type 0} (p : Row → Bool) (rows : List Row) → db.find_many p rows ≡ select p rows
  pub count_eq :
      {Row : Type 0} (p : Row → Bool) (rows : List Row) → db.count p rows ≡ Prelude.count p rows
  pub create_eq :
      {Row : Type 0} (same : Row → Row → Bool) (row : Row) (rows : List Row)
      → db.create same row rows ≡ (if any (same row) rows then none else some (rows ++ row ∷ []))
  pub update_many_eq :
      {Row : Type 0} (p : Row → Bool) (f : Row → Row) (rows : List Row)
      → db.update_many p f rows ≡ (revise p f rows, Prelude.count p rows)
  pub update_eq :
      {Row : Type 0} (same : Row → Row → Bool) (p : Row → Bool) (f : Row → Row) (rows : List Row)
      → db.update same p f rows ≡ (
          if any p rows
          then (if clashes same (revise p f rows) then p2002 else ok (revise p f rows))
          else p2025)
  pub delete_many_eq :
      {Row : Type 0} (p : Row → Bool) (rows : List Row)
      → db.delete_many p rows ≡ (select (λ row. not (p row)) rows, Prelude.count p rows)
  pub upsert_eq :
      {Row : Type 0} (p : Row → Bool) (row : Row) (f : Row → Row) (rows : List Row)
      → db.upsert p row f rows ≡ (if any p rows then revise p f rows else rows ++ row ∷ [])
  pub transaction_eq :
      {State A : Type 0} (f : State → Result (A × State)) (s : State)
      → db.transaction f s ≡ elim (f s) [ ok r ↦ (ok r.0, r.1) | err e ↦ (err e, s) ]
