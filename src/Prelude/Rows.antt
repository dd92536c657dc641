-- ===== src/Prelude/Rows.antt =====
-- Properties of the rows of a table, and what a search and a change make of them.
use Prim.Native.Nat.{◌≤◌}
use mathlib.Core.Path.{◌≡◌, refl, sym, ap, subst}
use mathlib.Core.Logic.{◌⊎◌, inl, inr}
use mathlib.Core.Bool.{Bool, true, false, not}
use mathlib.Core.Option.{some, some-injective}
use mathlib.Core.List.{List, [], ◌∷◌, ◌++◌}
use native.Mathlib.Omega.{arith}
use ebay_pricing_intelligenc.Prelude.Tests.{Bool-cases, if◌then◌else◌}
use ebay_pricing_intelligenc.Prelude.Lists.{find, any, select, count, revise, All}

module _ {ℓ κ} {A : Type ℓ} where
  pub All-find :
      (P : A → Type κ) (q : A → Bool) (xs : List A) (x : A) → All P xs → find q xs ≡ some x → P x
  All-find P q [] x h e = cc
  All-find P q (y ∷ ys) x h e = elim (Bool-cases (q y)) [
    | inl here ↦ subst P (some-injective _ _ (rw here at e)) h.0
    | inr later ↦ All-find P q ys x h.1 (rw later at e)
  ]

  pub All-map : (P Q : A → Type κ) (xs : List A) → ((x : A) → P x → Q x) → All P xs → All Q xs
  All-map P Q [] f h = tt
  All-map P Q (x ∷ xs) f h = (f x h.0, All-map P Q xs f h.1)

  pub All_of_every : (P : A → Type κ) (xs : List A) → ((x : A) → P x) → All P xs
  All_of_every P [] f = tt
  All_of_every P (x ∷ xs) f = (f x, All_of_every P xs f)

  -- A property of the rows after `revise`, from what it says of a row that passes and one that
  -- does not.
  pub All-revise :
      (P Q : A → Type κ) (p : A → Bool) (f : A → A) (xs : List A)
      → ((x : A) → P x → p x ≡ true → Q (f x))
      → ((x : A) → P x → p x ≡ false → Q x)
      → All P xs
      → All Q (revise p f xs)
  All-revise P Q p f [] yes' no' h = tt
  All-revise P Q p f (x ∷ xs) yes' no' h = elim (Bool-cases (p x)) [
    | inl pass ↦ rw pass (yes' x h.0 pass, All-revise P Q p f xs yes' no' h.1)
    | inr miss ↦ rw miss (no' x h.0 miss, All-revise P Q p f xs yes' no' h.1)
  ]

  pub All-apply : (P Q : A → Type κ) (xs : List A) → All (λ x. P x → Q x) xs → All P xs → All Q xs
  All-apply P Q [] f h = tt
  All-apply P Q (x ∷ xs) f h = (f.0 h.0, All-apply P Q xs f.1 h.1)

  pub All-append : (P : A → Type κ) (xs ys : List A) → All P xs → All P ys → All P (xs ++ ys)
  All-append P [] ys h k = k
  All-append P (x ∷ xs) ys h k = (h.0, All-append P xs ys h.1 k)

module _ {ℓ} {A : Type ℓ} where
  -- A relation between the rows of two lists of one length, position by position.
  abbrev pub Pairwise : (A → A → Type 0) → List A → List A → Type 0
  Pairwise R [] [] = Unit
  Pairwise R (x ∷ xs) (y ∷ ys) = R x y × Pairwise R xs ys
  Pairwise R _ _ = ⊥

  pub Pairwise-revise :
      (R : A → A → Type 0) (p : A → Bool) (f : A → A) (xs : List A)
      → ((x : A) → p x ≡ true → R x (f x))
      → ((x : A) → R x x)
      → Pairwise R xs (revise p f xs)
  Pairwise-revise R p f [] change same = tt
  Pairwise-revise R p f (x ∷ xs) change same = elim (Bool-cases (p x)) [
    | inl pass ↦ rw pass (change x pass, Pairwise-revise R p f xs change same)
    | inr miss ↦ rw miss (same x, Pairwise-revise R p f xs change same)
  ]

module _ {ℓ} {A : Type ℓ} where
  -- Some element has the property.
  abbrev pub Has : (A → Type 0) → List A → Type 0
  Has P [] = ⊥
  Has P (x ∷ xs) = P x ⊎ Has P xs

  pub Has-map : (P Q : A → Type 0) (xs : List A) → ((x : A) → P x → Q x) → Has P xs → Has Q xs
  Has-map P Q (x ∷ xs) f (inl h) = inl (f x h)
  Has-map P Q (x ∷ xs) f (inr h) = inr (Has-map P Q xs f h)
  Has-map P Q [] f h = elim h [ ]

  pub Has-select :
      (P : A → Type 0) (p : A → Bool) (xs : List A)
      → Has P (select p xs)
      → Has (λ x. P x × (p x ≡ true)) xs
  Has-select P p [] h = h
  Has-select P p (x ∷ xs) h = elim (Bool-cases (p x)) [
    | inl pass ↦
        let h' : Has P (x ∷ select p xs) = rw pass at h in
        elim h' [ inl here ↦ inl (here, pass) | inr later ↦ inr (Has-select P p xs later) ]
    | inr miss ↦ inr (Has-select P p xs (rw miss at h))
  ]

  pub Has-find :
      (P : A → Type 0) (p : A → Bool) (xs : List A) (x : A) → find p xs ≡ some x → P x → Has P xs
  Has-find P p [] x e h = cc
  Has-find P p (y ∷ ys) x e h = elim (Bool-cases (p y)) [
    | inl here ↦ inl (subst P (sym (some-injective _ _ (rw here at e))) h)
    | inr later ↦ inr (Has-find P p ys x (rw later at e) h)
  ]

  pub count-revise_le :
      (q p : A → Bool) (f : A → A) (xs : List A)
      → ((x : A) → p x ≡ true → q (f x) ≡ true → q x ≡ true)
      → count q (revise p f xs) ≤ count q xs
  count-revise_le q p f [] h = omega arith
  count-revise_le q p f (x ∷ xs) h = ground (arith, h x, count-revise_le q p f xs h)

  -- A change after which no row passes the test leaves none to count, and a table in which no
  -- row passes is left as it is.
  pub count-revise_none :
      (q p : A → Bool) (f : A → A) (xs : List A)
      → ((x : A) → p x ≡ true → q (f x) ≡ false)
      → ((x : A) → p x ≡ false → q x ≡ false)
      → count q (revise p f xs) ≡ 0
  count-revise_none q p f [] change same = refl
  count-revise_none q p f (x ∷ xs) change same =
      ground (arith, change x, same x, count-revise_none q p f xs change same)

  pub revise-count_none :
      (p : A → Bool) (f : A → A) (xs : List A) → count p xs ≡ 0 → revise p f xs ≡ xs
  revise-count_none p f [] e = refl
  revise-count_none p f (x ∷ xs) e = elim (Bool-cases (p x)) [
    | inl pass ↦ ground (arith, pass)
    | inr miss ↦ rw miss (ap (λ r. x ∷ r) (revise-count_none p f xs (ground (arith, miss))))
  ]

module _ {ℓ} {A : Type ℓ} (R : A → A → Type 0) where
  pub Pairwise-refl : ((x : A) → R x x) → (xs : List A) → Pairwise R xs xs
  Pairwise-refl r [] = tt
  Pairwise-refl r (x ∷ xs) = (r x, Pairwise-refl r xs)

  pub Pairwise-trans :
      ((x y z : A) → R x y → R y z → R x z)
      → (xs ys zs : List A) → Pairwise R xs ys
      → Pairwise R ys zs
      → Pairwise R xs zs
  Pairwise-trans t [] [] [] h k = tt
  Pairwise-trans t (x ∷ xs) (y ∷ ys) (z ∷ zs) h k =
      (t x y z h.0 k.0, Pairwise-trans t xs ys zs h.1 k.1)
  Pairwise-trans t [] [] (z ∷ zs) h k = elim k [ ]
  Pairwise-trans t [] (y ∷ ys) zs h k = elim h [ ]
  Pairwise-trans t (x ∷ xs) [] zs h k = elim h [ ]
  Pairwise-trans t (x ∷ xs) (y ∷ ys) [] h k = elim k [ ]

  -- A property of the rows before, and what the relation makes of it.
  pub All-Pairwise :
      (P Q : A → Type 0) (xs ys : List A)
      → ((x y : A) → P x → R x y → Q y)
      → All P xs
      → Pairwise R xs ys
      → All Q ys
  All-Pairwise P Q [] [] f h k = tt
  All-Pairwise P Q (x ∷ xs) (y ∷ ys) f h k = (f x y h.0 k.0, All-Pairwise P Q xs ys f h.1 k.1)
  All-Pairwise P Q [] (y ∷ ys) f h k = elim k [ ]
  All-Pairwise P Q (x ∷ xs) [] f h k = elim k [ ]

module _ {ℓ} {A : Type ℓ} where
  -- The row that a search finds after `revise`, when the change keeps what is searched for.
  pub find-revise :
      (p q : A → Bool) (f : A → A) (xs : List A) (x : A)
      → ((y : A) → p (f y) ≡ p y)
      → find p xs ≡ some x
      → find p (revise q f xs) ≡ some (if q x then f x else x)
  find-revise p q f [] x same e = cc
  find-revise p q f (y ∷ ys) x same e = elim (Bool-cases (p y)) [
    | inl here ↦
        let found : y ≡ x = some-injective _ _ (rw here at e) in
        subst (λ x. find p (revise q f (y ∷ ys)) ≡ some (if q x then f x else x)) found
          (ground (arith, same y, here))
    | inr later ↦
        let rest = find-revise p q f ys x same (rw later at e) in
        ground (arith, same y, later, rest)
  ]

  pub any_found :
      (p q : A → Bool) (xs : List A) (x : A) → find p xs ≡ some x → q x ≡ true → any q xs ≡ true
  any_found p q [] x e h = cc
  any_found p q (y ∷ ys) x e h = elim (Bool-cases (p y)) [
    | inl here ↦
        let found : y ≡ x = some-injective _ _ (rw here at e) in
        let holds : q y ≡ true = subst (λ k. q k ≡ true) (sym found) h in ground (arith, holds)
    | inr later ↦ let rest = any_found p q ys x (rw later at e) h in ground (arith, rest)
  ]

  -- A deletion leaves no row that passes its test.
  pub count-select_none : (p : A → Bool) (xs : List A) → count p (select (λ x. not (p x)) xs) ≡ 0
  count-select_none p [] = refl
  count-select_none p (x ∷ xs) = elim (Bool-cases (p x)) [
    | inl pass ↦ rw pass (count-select_none p xs)
    | inr miss ↦ let rest = count-select_none p xs in ground (arith, miss, rest)
  ]

  -- The row that a search finds among those that were changed for passing its test.
  pub find-revised :
      (p : A → Bool) (f : A → A) (xs : List A) (x : A)
      → ((y : A) → p (f y) ≡ p y)
      → find p (revise p f xs) ≡ some x
      → (y : A) × (x ≡ f y)
  find-revised p f [] x same e = cc
  find-revised p f (y ∷ ys) x same e = elim (Bool-cases (p y)) [
    | inl here ↦ (y, sym (some-injective _ _ (rw (same y, here) at (rw here at e))))
    | inr later ↦ find-revised p f ys x same (rw later at (rw later at e))
  ]
