-- ===== src/BigInt/Arith.antt =====
-- add_same of bigint.c on numbers as integers.
use code_snippets.BigInt.Order.{high-ge-weight}
use code_snippets.BigInt.Ops.{add_rest, add_same, add_finish}
use code_snippets.BigInt.Limbs.{
  Digits-reverse, low-reverse, length-reverse, low, length-limbs, magnitude, high-lt-weight,
  take-all, weight, to_ℤ, high, IsValid, Digits,
}
use code_snippets.BigInt.{limbs, is_neg, with_sign, size, big, BigInt}
use code_snippets.Prelude.Int.{pos}
use code_snippets.Prelude.{
  ◌*◌, refl, Returns-Option-map, ==_iff, ◌⊎◌, ◌≤◌, ◌≡◌, ◌∷◌, ◌∙◌, ◌==◌, ◌<◌, ◌-◌, ◌+◌, ℕ, true,
  take, sym, suc, reverse, length, inr, inl, if◌then◌else◌, get_or, false, arith, ap, [], Returns,
  List, Bool-cases, Bool,
}
use code_snippets.BigInt.Sum.{add_rest-Rest, add_both-Returns, added, Both}
use mathlib.Core.Path.{subst, ap₂}

-- A well-formed number for the given sign and magnitude.
pub record Made (negative : Bool) (n : ℕ) (b : BigInt) : Type 0 where
  pub valid : IsValid b
  pub value : to_ℤ b ≡ with_sign negative n

record Signed (negative : Bool) (n : ℕ) (b : BigInt) : Type 0 where
  counted : size b ≡ n
  side : is_neg b ≡ negative

with_sign-Signed :
    (negative : Bool) (xs : List ℕ) (n : ℕ)
    → 0 < n
    → Signed negative n (big xs (with_sign negative n))
with_sign-Signed true xs n h = ground arith
with_sign-Signed false xs n h = ground arith

-- A block whose length is the sign's size, and which begins with a zero only if it is the number 0.
pub block-Made :
    (negative : Bool) (xs : List ℕ)
    → 0 < length xs
    → Digits xs
    → (get_or xs 0 0 ≡ 0 → with_sign negative (length xs) ≡ pos 1)
    → Made negative (high xs) (big xs (with_sign negative (length xs)))
block-Made negative xs h d first =
    let s = with_sign-Signed negative xs (length xs) h in
    let b = big xs (with_sign negative (length xs)) in
    let all : limbs b ≡ xs = ap (λ k. take k xs) s.counted ∙ take-all xs in
    record {
      valid = record {
        sized = omega (arith, s.counted);
        within = omega (arith, s.counted);
        digits = subst Digits (sym all) d;
        canonical = λ e. first (ap (λ ys. get_or ys 0 0) (sym all) ∙ e);
      };
      value = ap₂ with_sign s.side (ap high all);
    }

high-lt_of_zero :
    (xs : List ℕ) → Digits xs → 0 < length xs → get_or xs 0 0 ≡ 0 → high xs < weight (length xs - 1)
high-lt_of_zero [] d h e = absurd (omega arith)
high-lt_of_zero (x ∷ xs) d h e =
    let one_less : suc (length xs) - 1 ≡ length xs = omega arith in
    rw (one_less, e) (omega (arith, high-lt-weight xs d.1))

-- Either the left operand is the number 0, or its magnitude fills its limbs.
fills : {b : BigInt} → IsValid b → (b.sign ≡ pos 1) ⊎ (weight (size b - 1) ≤ magnitude b)
fills {b} v = elim (Bool-cases (get_or (limbs b) 0 0 == 0)) [
  | inl e ↦ inl (v.canonical ((==_iff _ _).0 e))
  | inr e ↦ inr (
      subst (λ k. weight (k - 1) ≤ magnitude b) (length-limbs v)
        (high-ge-weight (limbs b) (ground arith) (omega (arith, length-limbs v, v.sized))))
]

pub low_of_nil : (xs : List ℕ) → length xs ≡ 0 → low xs ≡ 0
low_of_nil [] h = refl
low_of_nil (x ∷ xs) h = absurd (omega arith)

module _ {l r : BigInt} (vl : IsValid l) (vr : IsValid r) (n : size r ≤ size l) where
  -- What both loops of add_same leave.
  record Summed (s : List ℕ × ℕ) : Type 0 where
    value : added s ≡ magnitude l + magnitude r
    longer : length s.0 ≡ size l
    carry : s.1 ≤ 1
    digits : Digits s.0

  Summed-Both :
      (out : List ℕ × List ℕ × ℕ)
      → Both (reverse (limbs l)) (reverse (limbs r)) ([], 0) out
      → Summed (if size l == size r then (out.1, out.2) else add_rest out.0 (out.1, out.2))
  Summed-Both out b =
      let ll = length-reverse (limbs l) in
      let lr = length-reverse (limbs r) in
      let nl = length-limbs vl in
      let nr = length-limbs vr in
      let lowl = low-reverse (limbs l) in
      let lowr = low-reverse (limbs r) in
      elim (Bool-cases (size l == size r)) [
        | inl e ↦
            let same = (==_iff _ _).0 e in
            let none_left = low_of_nil out.0 (omega (arith, b.rest)) in
            rw e (record {
              value = omega (arith, b.value, ap (λ t. t * weight (length out.1)) none_left);
              longer = omega (arith, b.longer);
              carry = b.carry;
              digits = b.digits tt;
            })
        | inr e ↦
            let s = add_rest-Rest out.0 (out.1, out.2) b.unread b.carry in
            rw e (record {
              value = omega (arith, b.value, s.value);
              longer = omega (arith, b.longer, b.rest, s.longer);
              carry = s.carry;
              digits = s.digits (b.digits tt);
            })
      ]

  add_finish-Made :
      (s : List ℕ × ℕ)
      → Summed s
      → Made (is_neg l) (magnitude l + magnitude r) (add_finish (is_neg l) (size l) s)
  unfolding add_finish
  add_finish-Made (answer, carry) h = elim (Bool-cases (carry == 0)) [
    | inl e ↦
        let no_carry : carry ≡ 0 = (==_iff _ _).0 e in
        let total : high answer ≡ magnitude l + magnitude r =
          omega (arith, h.value, ap (λ t. t * weight (length answer)) no_carry) in
        rw (e, ← total, ← h.longer)
          (block-Made (is_neg l) answer (omega (arith, h.longer, vl.sized)) h.digits
            (first answer total h.longer h.digits))
    | inr e ↦
        let more : length (carry ∷ answer) ≡ size l + 1 = omega (arith, h.longer) in
        let total : high (carry ∷ answer) ≡ magnitude l + magnitude r = omega (arith, h.value) in
        rw (e, ← total, ← more)
          (block-Made (is_neg l) (carry ∷ answer) (omega arith) (omega (arith, h.carry), h.digits)
            (λ z. absurd (not_zero carry e z)))
  ]
    where
      not_zero : (c : ℕ) → (c == 0) ≡ false → ¬ (c ≡ 0)
      not_zero c e z = ground arith

      first :
          (xs : List ℕ)
          → high xs ≡ magnitude l + magnitude r
          → length xs ≡ size l
          → Digits xs
          → get_or xs 0 0 ≡ 0
          → with_sign (is_neg l) (length xs) ≡ pos 1
      first xs total long d z = elim (fills vl) [
        | inl s ↦ ground arith
        | inr f ↦ absurd (
            omega (
              arith,
              high-lt_of_zero xs d (omega (arith, vl.sized)) z,
              ap (λ k. weight (k - 1)) long,
            ))
      ]

  -- add_same adds the magnitudes and keeps the sign of its left operand.
  pub add_same-Made : Returns (Made (is_neg l) (magnitude l + magnitude r)) (add_same l r)
  unfolding add_same
  add_same-Made =
      let ll = length-reverse (limbs l) in
      let lr = length-reverse (limbs r) in
      Returns-Option-map _
        (add_both-Returns (reverse (limbs l)) (reverse (limbs r)) ([], 0)
          (Digits-reverse (limbs l) vl.digits) (Digits-reverse (limbs r) vr.digits) (omega arith)
          (omega (arith, length-limbs vl, length-limbs vr)))
        (λ out b. add_finish-Made _ (Summed-Both out b))
