-- ===== src/BigInt/Order.antt =====
-- abs_compare, compare and the comparison operators of bigint.c.
use mathlib.Core.Path.{subst₂}
use code_snippets.BigInt.{
  ge, gt, le, lt, ne, is_neg, eq, with_sign, compare, abs_compare, limbs, size, BigInt,
  compare_limbs, same_limbs,
}
use code_snippets.BigInt.Limbs.{
  magnitude_pos, to_ℤ, length-limbs, take-length, magnitude, high-lt-weight, IsValid, high, Digits,
  weight_pos, weight,
}
use code_snippets.Prelude.Int.{eq_of_parts, ◌-ℤ◌, ltb_ℤ, ℤ, pos_part, pos, negsuc, neg_part}
use code_snippets.Prelude.{
  ==_iff, ◌↔◌, ◌==◌, sym, not, false, Bool, ◌≤◌, ◌≢◌, ◌≡◌, ◌∷◌, ◌<◌, ◌-◌, ◌+◌, ◌*◌, ℕ, zero, true,
  suc, refl, ltb→lt, ltb, length, inr, inl, get_or, arith, ap, [], List, Bool-cases,
}

-- The result of a comparison: -1, 0 or 1.
pub data Compares (a b : ℕ) : ℤ → Type 0 where
  less : a < b → Compares a b (negsuc 0)
  equal : a ≡ b → Compares a b (pos 0)
  greater : b < a → Compares a b (pos 1)

weight_mono : (m n : ℕ) → m ≤ n → weight m ≤ weight n
weight_mono zero n h = omega (arith, weight_pos n)
weight_mono (suc m) zero h = absurd (omega arith)
weight_mono (suc m) (suc n) h = omega (arith, weight_mono m n (omega arith))

same_limbs_sound : (xs ys : List ℕ) → length xs ≡ length ys → same_limbs xs ys ≡ true → xs ≡ ys
unfolding same_limbs
same_limbs_sound [] [] n h = refl
same_limbs_sound [] (y ∷ ys) n h = absurd (omega arith)
same_limbs_sound (x ∷ xs) [] n h = absurd (omega arith)
same_limbs_sound (x ∷ xs) (y ∷ ys) n h = ground (arith, same_limbs_sound xs ys)

-- A first limb that is smaller makes the number smaller, whatever follows.
first_decides : (x y w a b : ℕ) → x < y → a < w → x * w + a < y * w + b
first_decides x y w a b h k = let m : suc x * w ≤ y * w = mul_le h in omega arith
  where
    mul_le : suc x ≤ y → suc x * w ≤ y * w
    mul_le p = grind arith

Compares-add : (a b k : ℕ) {c : ℤ} → Compares a b c → Compares (k + a) (k + b) c
Compares-add a b k (less h) = less (omega arith)
Compares-add a b k (equal h) = equal (omega arith)
Compares-add a b k (greater h) = greater (omega arith)

compare_limbs-Compares :
    (xs ys : List ℕ)
    → Digits xs
    → Digits ys
    → length xs ≡ length ys
    → Compares (high xs) (high ys) (compare_limbs xs ys)
unfolding compare_limbs
compare_limbs-Compares [] [] hx hy n = equal refl
compare_limbs-Compares [] (y ∷ ys) hx hy n = absurd (omega arith)
compare_limbs-Compares (x ∷ xs) [] hx hy n = absurd (omega arith)
compare_limbs-Compares (x ∷ xs) (y ∷ ys) hx hy n =
    let n' : length xs ≡ length ys = omega arith in
    let bx : high xs < weight (length ys) = rw (← n') (high-lt-weight xs hx.1) in
    let by : high ys < weight (length ys) = high-lt-weight ys hy.1 in
    elim (Bool-cases (ltb x y)) [
      | inl e ↦ rw (e, n') (less (first_decides x y _ _ _ (ltb→lt x y e) bx))
      | inr e ↦ elim (Bool-cases (ltb y x)) [
        | inl f ↦ rw (e, f, n') (greater (first_decides y x _ _ _ (ltb→lt y x f) by))
        | inr f ↦
            let same : x ≡ y = ground arith in
            rw (e, f, n', same) (Compares-add _ _ _ (compare_limbs-Compares xs ys hx.1 hy.1 n'))
      ]
    ]

pub high-ge-weight :
    (xs : List ℕ) → get_or xs 0 0 ≢ 0 → 0 < length xs → weight (length xs - 1) ≤ high xs
high-ge-weight [] h n = absurd (omega arith)
high-ge-weight (x ∷ xs) h n =
    let e : suc (length xs) - 1 ≡ length xs = omega arith in rw e (first h)
  where
    first : x ≢ 0 → weight (length xs) ≤ x * weight (length xs) + high xs
    first p = grind arith

module _ {l r : BigInt} (vl : IsValid l) (vr : IsValid r) where
  pub magnitude-lt_of_size : size l < size r → magnitude l < magnitude r
  magnitude-lt_of_size h =
      let nl : length (limbs l) ≡ size l = take-length (size l) l.head vl.within in
      let nr : length (limbs r) ≡ size r = take-length (size r) r.head vr.within in
      let first : get_or (limbs r) 0 0 ≢ 0 = λ e. size_one (vr.canonical e) in
      omega (
        arith,
        high-lt-weight (limbs l) vl.digits,
        high-ge-weight (limbs r) first (omega arith),
        weight_mono (length (limbs l)) (length (limbs r) - 1) (omega arith),
      )
    where
      size_one : r.sign ≡ pos 1 → ⊥
      size_one e = omega (arith, vl.sized, ap pos_part e, ap neg_part e)

module _ {l r : BigInt} (vl : IsValid l) (vr : IsValid r) where
  -- abs_compare orders the magnitudes.
  pub abs_compare-Compares : Compares (magnitude l) (magnitude r) (abs_compare l r)
  unfolding abs_compare
  abs_compare-Compares = elim (Bool-cases (ltb (size l) (size r))) [
    | inl e ↦ rw e (less (magnitude-lt_of_size vl vr (ltb→lt _ _ e)))
    | inr e ↦ elim (Bool-cases (ltb (size r) (size l))) [
      | inl f ↦ rw (e, f) (greater (magnitude-lt_of_size vr vl (ltb→lt _ _ f)))
      | inr f ↦
          let same : size l ≡ size r = ground arith in
          let n : length (limbs l) ≡ length (limbs r) =
            omega (arith, length-limbs vl, length-limbs vr) in
          elim (Bool-cases (same_limbs (limbs l) (limbs r))) [
            | inl g ↦ rw (e, f, g) (equal (ap high (same_limbs_sound _ _ n g)))
            | inr g ↦
                rw (e, f, g) (compare_limbs-Compares (limbs l) (limbs r) vl.digits vr.digits n)
          ]
    ]
  ]

Compares-swap : (a b : ℕ) {c : ℤ} → Compares a b c → Compares b a (pos 0 -ℤ c)
unfolding ◌-ℤ◌
Compares-swap a b (less h) = greater h
Compares-swap a b (equal h) = equal (sym h)
Compares-swap a b (greater h) = less h

Compares-of : {a b a' b' : ℕ} {c : ℤ} → Compares a b c → a ≡ a' → b ≡ b' → Compares a' b' c
Compares-of {c} h p q = subst₂ (λ x y. Compares x y c) p q h

-- Two integers by their parts, as `ltb_ℤ` compares them.
abbrev pub left_of : ℤ → ℤ → ℕ
left_of a b = pos_part a + neg_part b

-- The sign test of `compare` in its four cases.
abbrev signed_compare : Bool → Bool → ℤ → ℤ
signed_compare true true c = pos 0 -ℤ c
signed_compare true false c = negsuc 0
signed_compare false true c = pos 1
signed_compare false false c = c

compare-cases :
    (l r : BigInt) → compare l r ≡ signed_compare (is_neg l) (is_neg r) (abs_compare l r)
unfolding compare
compare-cases l r = elim (Bool-cases (is_neg l)) [
  | inl e ↦ elim (Bool-cases (is_neg r)) [ inl f ↦ rw (e, f) | inr f ↦ rw (e, f) ]
  | inr e ↦ elim (Bool-cases (is_neg r)) [ inl f ↦ rw (e, f) | inr f ↦ rw (e, f) ]
]

signed_compare-Compares :
    (nl nr : Bool) (ml mr : ℕ) (c : ℤ)
    → (nl ≡ true → 0 < ml)
    → (nr ≡ true → 0 < mr)
    → Compares ml mr c
    → Compares
        (left_of (with_sign nl ml) (with_sign nr mr))
        (left_of (with_sign nr mr) (with_sign nl ml))
        (signed_compare nl nr c)
signed_compare-Compares true true ml mr c hl hr h =
    Compares-of (Compares-swap ml mr h) (ground arith) (ground arith)
signed_compare-Compares true false ml mr c hl hr h = less (ground (arith, hl refl))
signed_compare-Compares false true ml mr c hl hr h = greater (ground (arith, hr refl))
signed_compare-Compares false false ml mr c hl hr h = Compares-of h (ground arith) (ground arith)

module _ {l r : BigInt} (vl : IsValid l) (vr : IsValid r) where
  -- compare returns -1, 0 or 1 as the integer of `l` is below, equal to or above that of `r`.
  pub compare-Compares :
      Compares (left_of (to_ℤ l) (to_ℤ r)) (left_of (to_ℤ r) (to_ℤ l)) (compare l r)
  compare-Compares = rw (compare-cases l r) (
      signed_compare-Compares (is_neg l) (is_neg r) (magnitude l) (magnitude r) (abs_compare l r)
        (magnitude_pos vl) (magnitude_pos vr) (abs_compare-Compares vl vr))

tests_of_Compares :
    {a b : ℕ} {c : ℤ}
    → Compares a b c
    → (ltb_ℤ c (pos 0) ≡ ltb a b)
      × (ltb_ℤ (pos 0) c ≡ ltb b a)
      × ((pos_part c == neg_part c) ≡ (a == b))
tests_of_Compares (less h) = ground arith
tests_of_Compares (equal h) = ground arith
tests_of_Compares (greater h) = ground arith

same_iff : (a b : ℤ) → ((left_of a b == left_of b a) ≡ true) ↔ (a ≡ b)
same_iff a b = (λ h. eq_of_parts a b ((==_iff _ _).0 h), λ e. rw e ((==_iff _ _).1 refl))

-- On well-formed numbers the six comparison operators of BigInt are those of the integers that the
-- numbers stand for.
pub operators :
    (l r : BigInt)
    → IsValid l
    → IsValid r
    → ((eq l r ≡ true) ↔ (to_ℤ l ≡ to_ℤ r))
      × (ne l r ≡ not (eq l r))
      × (lt l r ≡ ltb_ℤ (to_ℤ l) (to_ℤ r))
      × (le l r ≡ not (ltb_ℤ (to_ℤ r) (to_ℤ l)))
      × (gt l r ≡ ltb_ℤ (to_ℤ r) (to_ℤ l))
      × (ge l r ≡ not (ltb_ℤ (to_ℤ l) (to_ℤ r)))
unfolding eq ne lt le gt ge
operators l r vl vr =
    let (below, above, same) = tests_of_Compares (compare-Compares vl vr) in
    (rw same (same_iff (to_ℤ l) (to_ℤ r)), refl, below, ap not above, above, ap not below)
