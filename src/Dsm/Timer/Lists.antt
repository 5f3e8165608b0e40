-- ===== src/Dsm/Timer/Lists.antt =====
-- The callouts on a list of the wheel, and the list operations on them.
use code_snippets.Dsm.Timer.{bind, first_of_list, ok, Run, next_of, remove}
use code_snippets.Prelude.{
  true, inr, inl, ap, Bool-cases, ==_iff, ◌≡◌, ◌∷◌, ◌||◌, ◌==◌, ◌++◌, ℕ, refl, false, arith, [],
  List, Bool,
}

abbrev pub has : ℕ → List ℕ → Bool
has j [] = false
has j (x ∷ xs) = (j == x) || has j xs

abbrev pub Distinct : List ℕ → Type 0
Distinct [] = Unit
Distinct (x ∷ xs) = (has x xs ≡ false) × Distinct xs

pub has-append : (j : ℕ) (xs ys : List ℕ) → has j (xs ++ ys) ≡ (has j xs || has j ys)
has-append j [] ys = refl
has-append j (x ∷ xs) ys = ground (arith, has-append j xs ys)

pub Distinct-middle :
    (ys : List ℕ) (r : ℕ) (xs : List ℕ)
    → Distinct (ys ++ r ∷ xs)
    → (has r ys ≡ false) × (has r xs ≡ false) × Distinct (ys ++ xs)
Distinct-middle [] r xs h = (refl, h.0, h.1)
Distinct-middle (y ∷ ys) r xs h =
    let (a, b, c) = Distinct-middle ys r xs h.1 in
    ground (arith, has-append y ys (r ∷ xs), has-append y ys xs)

-- Removing a callout from its list.
pub remove-middle :
    (ys : List ℕ) (r : ℕ) (xs : List ℕ) → has r ys ≡ false → remove r (ys ++ r ∷ xs) ≡ ok (ys ++ xs)
unfolding remove
remove-middle [] r xs h = ground arith
remove-middle (y ∷ ys) r xs h = ground (arith, remove-middle ys r xs)

-- The next pointer of a callout on its list.
pub next_of-middle :
    (ys : List ℕ) (r : ℕ) (xs : List ℕ)
    → has r ys ≡ false
    → next_of r (ys ++ r ∷ xs) ≡ first_of_list xs
unfolding next_of first_of_list
next_of-middle [] r [] h = refl
next_of-middle [] r (x ∷ xs) h = ground arith
next_of-middle (y ∷ []) r [] h = ground arith
next_of-middle (y ∷ []) r (x ∷ xs) h = ground (arith, next_of-middle [] r (x ∷ xs))
next_of-middle (y ∷ z ∷ ys) r xs h = ground (arith, next_of-middle (z ∷ ys) r xs)

-- A run that ends, with a result that satisfies `P`.
pub data Ends {ℓ κ} {A : Type ℓ} (P : A → Type κ) : Run A → Type (ℓ ⊔ κ) where
  ends : (a : A) → P a → Ends P (ok a)

pub Ends-map {ℓ κ μ} :
    {A : Type ℓ} {P : A → Type κ} {Q : A → Type μ} {r : Run A}
    → Ends P r
    → ((a : A) → P a → Q a)
    → Ends Q r
Ends-map (ends a p) f = ends a (f a p)

pub Ends-bind {ℓ κ μ ν} :
    {A : Type ℓ} {B : Type κ} {P : A → Type μ} {Q : B → Type ν} {r : Run A} {k : A → Run B}
    → Ends P r
    → ((a : A) → P a → Ends Q (k a))
    → Ends Q (bind r k)
Ends-bind (ends a p) f = f a p

-- A member and another that is not one differ.
pub has-ne : (k q : ℕ) (xs : List ℕ) → has k xs ≡ true → has q xs ≡ false → (k == q) ≡ false
has-ne k q xs h n = elim (Bool-cases (k == q)) [
  | inl e ↦ let same = ap (λ j. has j xs) ((==_iff k q).0 e) in ground arith
  | inr e ↦ e
]
