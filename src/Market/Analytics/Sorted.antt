-- ===== src/Market/Analytics/Sorted.antt =====
-- Sorted prices.
use ebay_pricing_intelligenc.Prelude.{
  ℕ, zero, suc, ◌≤◌, ◌≡◌, refl, ap, ◌∙◌, subst, inl, inr, List, [], ◌∷◌, some, if◌then◌else◌,
  length, get_elem?, All, All-get_elem?, true, false, Bool-cases, arith,
}
use mathlib.Core.Option.{some-injective}
use ebay_pricing_intelligenc.Schema.Double.{Double, IsOrdered, ◌≼◌}
use ebay_pricing_intelligenc.Market.Analytics.{insert, sort}

module _ {W : Type 0} ⦃d : Double W⦄ where
  abbrev pub IsSorted : List W → Type 0
  IsSorted [] = Unit
  IsSorted (x ∷ xs) = All (λ y. x ≼ y) xs × IsSorted xs

  module _ {κ} (P : W → Type κ) where
    All-insert : (x : W) (xs : List W) → P x → All P xs → All P (insert x xs)
    unfolding insert
    All-insert x [] p h = (p, tt)
    All-insert x (y ∷ ys) p h =
        elim (d.le x y) as (λ b. All P (if b then x ∷ y ∷ ys else y ∷ insert x ys)) [
          | true ↦ (p, h)
          | false ↦ (h.0, All-insert x ys p h.1)
        ]

    All_of_insert : (x : W) (xs : List W) → All P (insert x xs) → P x × All P xs
    unfolding insert
    All_of_insert x [] h = h
    All_of_insert x (y ∷ ys) h = elim (Bool-cases (d.le x y)) [
      | inl le ↦ rw le at h
      | inr gt ↦
          let h' : P y × All P (insert x ys) = rw gt at h in
          let (p, later) = All_of_insert x ys h'.1 in (p, (h'.0, later))
    ]

    pub All_of_sort : (xs : List W) → All P (sort xs) → All P xs
    unfolding sort
    All_of_sort [] h = h
    All_of_sort (x ∷ xs) h =
        let (p, later) = All_of_insert x (sort xs) h in (p, All_of_sort xs later)

  length-insert : (x : W) (xs : List W) → length (insert x xs) ≡ suc (length xs)
  unfolding insert
  length-insert x [] = refl
  length-insert x (y ∷ ys) = ground (arith, length-insert x ys)

  pub length-sort : (xs : List W) → length (sort xs) ≡ length xs
  unfolding sort
  length-sort [] = refl
  length-sort (x ∷ xs) = length-insert x (sort xs) ∙ ap suc (length-sort xs)

  module _ (o : IsOrdered W) where
    All-le_trans : (x y : W) (ys : List W) → x ≼ y → All (λ z. y ≼ z) ys → All (λ z. x ≼ z) ys
    All-le_trans x y [] h k = tt
    All-le_trans x y (z ∷ zs) h k = (o.le_trans x y z h k.0, All-le_trans x y zs h k.1)

    le_of_not_le : (x y : W) → d.le x y ≡ false → y ≼ x
    le_of_not_le x y h = elim (o.le_total x y) [ inl p ↦ cc | inr q ↦ q ]

    insert-IsSorted : (x : W) (xs : List W) → IsSorted xs → IsSorted (insert x xs)
    unfolding insert
    insert-IsSorted x [] h = (tt, tt)
    insert-IsSorted x (y ∷ ys) h = elim (Bool-cases (d.le x y)) [
      | inl le ↦ rw le ((le, All-le_trans x y ys le h.0), h)
      | inr gt ↦
          rw gt (All-insert (λ z. y ≼ z) x ys (le_of_not_le x y gt) h.0, insert-IsSorted x ys h.1)
    ]

    pub sort-IsSorted : (xs : List W) → IsSorted (sort xs)
    unfolding sort
    sort-IsSorted [] = tt
    sort-IsSorted (x ∷ xs) = insert-IsSorted x (sort xs) (sort-IsSorted xs)

    pub le_of_IsSorted :
        (xs : List W) (i j : ℕ) (a b : W)
        → IsSorted xs
        → i ≤ j
        → get_elem? xs i ≡ some a
        → get_elem? xs j ≡ some b
        → a ≼ b
    le_of_IsSorted [] i j a b h le p q = cc
    le_of_IsSorted (x ∷ xs) zero zero a b h le p q =
        let e : a ≡ b = cc in subst (λ (z : W). a ≼ z) e (o.le_refl a)
    le_of_IsSorted (x ∷ xs) zero (suc j) a b h le p q =
        subst (λ (z : W). z ≼ b) (some-injective _ _ p)
          (All-get_elem? (λ (z : W). x ≼ z) xs j b h.0 q)
    le_of_IsSorted (x ∷ xs) (suc i) zero a b h le p q = absurd (omega arith)
    le_of_IsSorted (x ∷ xs) (suc i) (suc j) a b h le p q =
        le_of_IsSorted xs i j a b h.1 (omega arith) p q
