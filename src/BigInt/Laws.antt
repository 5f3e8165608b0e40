-- ===== src/BigInt/Laws.antt =====
-- operator=, the copy constructor, abs and unary operator- on numbers as integers.
use mathlib.Core.Path.{subst}
use code_snippets.BigInt.Limbs.{magnitude, high, Digits, take-all, length-limbs, to_ℤ, IsValid}
use code_snippets.BigInt.{assign, is_neg, big, size, with_sign, neg, abs, limbs, copy, BigInt}
use code_snippets.Prelude.Int.{negsuc, ◌-ℤ◌, sub_ℕ, pos_part, pos, neg_part, ℤ}
use code_snippets.Prelude.{
  ◌++◌, zero, true, suc, refl, length-append, false, drop, Bool, ◌∷◌, ◌==◌, ◌<◌, ◌+◌, ℕ, ltb,
  length, inr, inl, [], List, Bool-cases, ==_iff, ◌≡◌, ◌∙◌, take, sym, get_or, arith, ap,
}

-- A well-formed number that stands for `n`.
pub record Denotes (n : ℤ) (b : BigInt) : Type 0 where
  pub valid : IsValid b
  pub value : to_ℤ b ≡ n

-- A block of limbs with a sign of that size.
pub block-Denotes :
    (xs : List ℕ) (s : ℤ)
    → 0 < length xs
    → pos_part s + neg_part s ≡ length xs
    → Digits xs
    → (get_or xs 0 0 ≡ 0 → s ≡ pos 1)
    → Denotes (with_sign (ltb 0 (neg_part s)) (high xs)) (big xs s)
block-Denotes xs s h n d first =
    let all : take (pos_part s + neg_part s) xs ≡ xs = ap (λ k. take k xs) n ∙ take-all xs in
    record {
      valid = record {
        sized = omega arith;
        within = omega arith;
        digits = subst Digits (sym all) d;
        canonical = λ e. first (ap (λ ys. get_or ys 0 0) (sym all) ∙ e);
      };
      value = ap (λ ys. with_sign (ltb 0 (neg_part s)) (high ys)) all;
    }

pub Denotes-of : {m n : ℤ} {b : BigInt} → Denotes m b → m ≡ n → Denotes n b
Denotes-of d e = record { valid = d.valid; value = d.value ∙ e }

high_of_one : (xs : List ℕ) → length xs ≡ 1 → get_or xs 0 0 ≡ 0 → high xs ≡ 0
high_of_one [] n h = absurd (omega arith)
high_of_one (x ∷ []) n h = omega (arith, h)
high_of_one (x ∷ y ∷ ys) n h = absurd (omega arith)

-- The sign that unary minus writes.
abbrev flip : ℤ → ℤ
flip s = sub_ℕ (neg_part s) (pos_part s)

flip_size : (s : ℤ) → pos_part (flip s) + neg_part (flip s) ≡ pos_part s + neg_part s
flip_size (pos n) = ground arith
flip_size (negsuc n) = ground arith

flip_sign :
    (s : ℤ) (m : ℕ)
    → 0 < pos_part s + neg_part s
    → with_sign (ltb 0 (neg_part (flip s))) m ≡ pos 0 -ℤ with_sign (ltb 0 (neg_part s)) m
unfolding ◌-ℤ◌
flip_sign (pos n) m h = ground arith
flip_sign (negsuc n) m h = ground arith

zero_sign : (b : Bool) (m : ℕ) → m ≡ 0 → with_sign b m ≡ pos 0 -ℤ with_sign b m
unfolding ◌-ℤ◌
zero_sign true m h = ground arith
zero_sign false m h = ground arith

module _ {b : BigInt} (v : IsValid b) where
  magnitude_of_zero : get_or (limbs b) 0 0 ≡ 0 → magnitude b ≡ 0
  magnitude_of_zero e =
      let s = v.canonical e in
      high_of_one (limbs b) (omega (arith, length-limbs v, ap pos_part s, ap neg_part s)) e

  -- The copy constructor.
  pub copy-Denotes : Denotes (to_ℤ b) (copy b)
  unfolding copy
  copy-Denotes =
      block-Denotes (limbs b) b.sign (omega (arith, length-limbs v, v.sized)) (sym (length-limbs v))
        v.digits v.canonical

  -- abs gives the magnitude.
  pub abs-Denotes : Denotes (pos (magnitude b)) (abs b)
  unfolding abs
  abs-Denotes =
      block-Denotes (limbs b) (pos (size b)) (omega (arith, length-limbs v, v.sized))
        (omega (arith, length-limbs v)) v.digits
        (λ e. ap pos (omega (arith, ap pos_part (v.canonical e), ap neg_part (v.canonical e))))

  -- Unary minus negates.
  pub neg-Denotes : Denotes (pos 0 -ℤ to_ℤ b) (neg b)
  unfolding neg
  neg-Denotes = elim (Bool-cases (get_or (limbs b) 0 0 == 0)) [
    | inl e ↦ rw e (
        Denotes-of copy-Denotes
          (zero_sign (is_neg b) (magnitude b) (magnitude_of_zero ((==_iff _ _).0 e))))
    | inr e ↦ rw e (
        Denotes-of
          (block-Denotes (limbs b) (flip b.sign) (omega (arith, length-limbs v, v.sized))
            (flip_size b.sign ∙ sym (length-limbs v)) v.digits (λ z. absurd (not_zero e z)))
          (flip_sign b.sign (magnitude b) v.sized))
  ]
    where
      not_zero : {k : ℕ} → (k == 0) ≡ false → ¬ (k ≡ 0)
      not_zero e z = ground arith

take-append_length : (n : ℕ) (xs ys : List ℕ) → length xs ≡ n → take n (xs ++ ys) ≡ xs
take-append_length zero [] ys h = refl
take-append_length zero (x ∷ xs) ys h = absurd (omega arith)
take-append_length (suc n) [] ys h = absurd (omega arith)
take-append_length (suc n) (x ∷ xs) ys h =
    ap (λ zs. x ∷ zs) (take-append_length n xs ys (omega arith))

-- operator= makes any number, well-formed or not, denote what its well-formed argument does.
pub assign-Denotes : (a b : BigInt) → IsValid b → Denotes (to_ℤ b) (assign a b)
unfolding assign
assign-Denotes a b v = elim (Bool-cases (ltb (size a) (size b))) [
  | inl e ↦ rw e (unfold copy in copy-Denotes v)
  | inr e ↦
      let same = take-append_length (size b) (limbs b) (drop (size b) a.head) (length-limbs v) in
      rw e (record {
        valid = record {
          sized = v.sized;
          within = omega (arith, length-limbs v, length-append (limbs b) (drop (size b) a.head));
          digits = subst Digits (sym same) v.digits;
          canonical = λ z. v.canonical (ap (λ xs. get_or xs 0 0) (sym same) ∙ z);
        };
        value = ap (λ xs. with_sign (is_neg b) (high xs)) same;
      })
]
