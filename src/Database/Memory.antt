-- ===== src/Database/Memory.antt =====
-- A client that keeps its tables in memory. What the documentation says fixes every call, so a
-- theorem about this client holds of each client that does as documented.
use ebay_pricing_intelligenc.Prelude.{
  Bool, true, false, arith, Failure, Result, ◌≡◌, refl, sym, subst, List, [], ◌∷◌, ◌++◌, none, some,
  ok, err, not, any, find, select, revise, any_never, Result-cases, inl, inr, if◌then◌else◌,
}
use ebay_pricing_intelligenc.Prelude
use ebay_pricing_intelligenc.Database.{Prisma, IsDocumented, first_by, clashes, p2002, p2025}

abbrev pub memory : Prisma
memory = record {
  find_first = find;
  find_first_by = λ before p rows. first_by before (select p rows);
  find_many = select;
  count = Prelude.count;
  create = λ same row rows. if any (same row) rows then none else some (rows ++ row ∷ []);
  update_many = λ p f rows. (revise p f rows, Prelude.count p rows);
  update = λ same p f rows.
      if any p rows
      then (if clashes same (revise p f rows) then p2002 else ok (revise p f rows))
      else p2025;
  delete_many = λ p rows. (select (λ row. not (p row)) rows, Prelude.count p rows);
  upsert = λ p row f rows. if any p rows then revise p f rows else rows ++ row ∷ [];
  transaction = λ f s. elim (f s) [ ok r ↦ (ok r.0, r.1) | err e ↦ (err e, s) ];
}

pub memory-IsDocumented : IsDocumented memory
memory-IsDocumented = record {
  find_first_eq = λ p rows. refl;
  find_first_by_eq = λ before p rows. refl;
  find_many_eq = λ p rows. refl;
  count_eq = λ p rows. refl;
  create_eq = λ same row rows. refl;
  update_many_eq = λ p f rows. refl;
  update_eq = λ same p f rows. refl;
  delete_many_eq = λ p rows. refl;
  upsert_eq = λ p row f rows. refl;
  transaction_eq = λ f s. refl;
}

eq-memory : (db : Prisma) → IsDocumented db → db ≡ memory
eq-memory db laws = λ i. record {
  find_first = λ p rows. laws.find_first_eq p rows i;
  find_first_by = λ before p rows. laws.find_first_by_eq before p rows i;
  find_many = λ p rows. laws.find_many_eq p rows i;
  count = λ p rows. laws.count_eq p rows i;
  create = λ same row rows. laws.create_eq same row rows i;
  update_many = λ p f rows. laws.update_many_eq p f rows i;
  update = λ same p f rows. laws.update_eq same p f rows i;
  delete_many = λ p rows. laws.delete_many_eq p rows i;
  upsert = λ p row f rows. laws.upsert_eq p row f rows i;
  transaction = λ f s. laws.transaction_eq f s i;
}

-- What holds of the client in memory holds of every client that does as documented.
pub of_memory {ℓ} : (P : Prisma → Type ℓ) → P memory → (db : Prisma) → IsDocumented db → P db
of_memory P h db laws = subst P (sym (eq-memory db laws)) h

clashes_never : {Row : Type 0} (rows : List Row) → clashes (λ x y. false) rows ≡ false
clashes_never [] = refl
clashes_never (row ∷ rows) = rw (any_never rows) (clashes_never rows)

-- What an update has written when it succeeds.
pub update-eq-ok :
    {Row : Type 0} (same : Row → Row → Bool) (p : Row → Bool) (f : Row → Row)
    (rows rows' : List Row)
    → memory.update same p f rows ≡ ok rows'
    → (rows' ≡ revise p f rows) × (clashes same rows' ≡ false) × (any p rows ≡ true)
update-eq-ok same p f rows rows' e = (ground arith, ground arith, ground arith)

pub update_any :
    {Row : Type 0} (p : Row → Bool) (f : Row → Row) (rows : List Row)
    → any p rows ≡ true
    → memory.update (λ x y. false) p f rows ≡ ok (revise p f rows)
update_any p f rows e = rw e (rw (clashes_never (revise p f rows)) refl)

pub transaction-eq-ok :
    {State A : Type 0} (f : State → Result (A × State)) (s s' : State) (r : A)
    → memory.transaction f s ≡ (ok r, s')
    → f s ≡ ok (r, s')
transaction-eq-ok f s s' r e = elim (Result-cases (f s)) [
  | inl ((r', t), done) ↦ ground (arith, done, e)
  | inr (x, failed) ↦ ground (arith, failed, e)
]

-- A transaction whose callback returns, and one whose callback throws.
pub transaction_ok :
    {State A : Type 0} (f : State → Result (A × State)) (s : State) (r : A × State)
    → f s ≡ ok r
    → (ok r.0, r.1) ≡ memory.transaction f s
transaction_ok f s r e = rw e refl

pub transaction_err :
    {State A : Type 0} (f : State → Result (A × State)) (s : State) (x : Failure)
    → f s ≡ err x
    → (err x, s) ≡ memory.transaction f s
transaction_err f s x e = rw e refl
