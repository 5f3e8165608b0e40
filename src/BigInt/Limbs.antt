-- ===== src/BigInt/Limbs.antt =====
-- What the limbs of a number stand for, and when a number is well formed.
use mathlib.Core.List.{reverse-append}
use code_snippets.BigInt.{is_neg, size, with_sign, limbs, BigInt, max_n_one}
use code_snippets.Prelude.Int.{pos_part, neg_part, ℤ, pos}
use code_snippets.Prelude.{
  ◌≢◌, true, if◌then◌else◌, false, Bool, ◌≤◌, ◌≡◌, ◌∷◌, ◌<◌, ◌+◌, ◌++◌, ◌*◌, ℕ, zero, take, suc,
  reverse, refl, length-append, length, get_or, arith, ap, [], List,
}

-- The weight of the limb with `n` limbs behind it.
abbrev pub weight : ℕ → ℕ
weight zero = 1
weight (suc n) = max_n_one * weight n

-- The number that limbs stand for, the least significant limb first.
abbrev pub low : List ℕ → ℕ
low [] = 0
low (d ∷ ds) = d + max_n_one * low ds

-- The same with the most significant limb first, as a BigInt holds them.
abbrev pub high : List ℕ → ℕ
high [] = 0
high (d ∷ ds) = d * weight (length ds) + high ds

abbrev pub Digits : List ℕ → Type 0
Digits [] = Unit
Digits (d ∷ ds) = (d < max_n_one) × Digits ds

abbrev pub magnitude : BigInt → ℕ
magnitude b = high (limbs b)

abbrev pub to_ℤ : BigInt → ℤ
to_ℤ b = with_sign (is_neg b) (magnitude b)

-- A number has limbs, all in its block and below the base. Only the number 0 begins with a zero
-- limb, and its sign is 1.
pub record IsValid (b : BigInt) : Type 0 where
  pub sized : 0 < size b
  pub within : size b ≤ length b.head
  pub digits : Digits (limbs b)
  pub canonical : get_or (limbs b) 0 0 ≡ 0 → b.sign ≡ pos 1

pub weight_pos : (n : ℕ) → 0 < weight n
weight_pos zero = omega arith
weight_pos (suc n) = omega (arith, weight_pos n)

pub low-append : (xs : List ℕ) (d : ℕ) → low (xs ++ d ∷ []) ≡ low xs + d * weight (length xs)
low-append [] d = omega arith
low-append (x ∷ xs) d = omega (arith, low-append xs d)

pub length-reverse : (xs : List ℕ) → length (reverse xs) ≡ length xs
length-reverse [] = refl
length-reverse (x ∷ xs) =
    rw (reverse-append (x ∷ []) xs)
      (omega (arith, length-append (reverse xs) (x ∷ []), length-reverse xs))

pub low-reverse : (xs : List ℕ) → low (reverse xs) ≡ high xs
low-reverse [] = refl
low-reverse (x ∷ xs) =
    rw (reverse-append (x ∷ []) xs, low-append (reverse xs) x, length-reverse xs)
      (omega (arith, low-reverse xs))

Digits-append : (xs ys : List ℕ) → Digits xs → Digits ys → Digits (xs ++ ys)
Digits-append [] ys h k = k
Digits-append (x ∷ xs) ys h k = (h.0, Digits-append xs ys h.1 k)

pub Digits-reverse : (xs : List ℕ) → Digits xs → Digits (reverse xs)
Digits-reverse [] h = h
Digits-reverse (x ∷ xs) h =
    rw (reverse-append (x ∷ []) xs)
      (Digits-append (reverse xs) (x ∷ []) (Digits-reverse xs h.1) (h.0, tt))

-- n limbs stand for a number below the weight of n.
pub high-lt-weight : (xs : List ℕ) → Digits xs → high xs < weight (length xs)
high-lt-weight [] h = omega arith
high-lt-weight (x ∷ xs) h =
    let below = high-lt-weight xs h.1 in
    let top : suc x * weight (length xs) ≤ max_n_one * weight (length xs) = mul_le (h.0) in
    omega arith
  where
    mul_le : suc x ≤ max_n_one → suc x * weight (length xs) ≤ max_n_one * weight (length xs)
    mul_le p = grind arith

pub take-length : (n : ℕ) (xs : List ℕ) → n ≤ length xs → length (take n xs) ≡ n
take-length zero xs h = refl
take-length (suc n) [] h = absurd (omega arith)
take-length (suc n) (x ∷ xs) h = omega (arith, take-length n xs (omega arith))

pub take-all : (xs : List ℕ) → take (length xs) xs ≡ xs
take-all [] = refl
take-all (x ∷ xs) = ap (λ ys. x ∷ ys) (take-all xs)

pub with_sign_parts :
    (negative : Bool) (n : ℕ)
    → (pos_part (with_sign negative n) ≡ (if negative then 0 else n))
      × (neg_part (with_sign negative n) ≡ (if negative then n else 0))
with_sign_parts true n = ground arith
with_sign_parts false n = (refl, refl)

module _ {b : BigInt} (v : IsValid b) where
  pub length-limbs : length (limbs b) ≡ size b
  length-limbs = take-length (size b) b.head v.within

  -- Zero is not negative.
  pub magnitude_pos : is_neg b ≡ true → 0 < magnitude b
  magnitude_pos h = nonzero (limbs b) (omega (arith, length-limbs, v.sized)) first
    where
      first : get_or (limbs b) 0 0 ≢ 0
      first e = ground (arith, v.canonical e)

      nonzero : (xs : List ℕ) → 0 < length xs → get_or xs 0 0 ≢ 0 → 0 < high xs
      nonzero [] n k = absurd (omega arith)
      nonzero (x ∷ xs) n k = let w = weight_pos (length xs) in grind arith
