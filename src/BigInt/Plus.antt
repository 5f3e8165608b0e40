-- ===== src/BigInt/Plus.antt =====
-- operator+ and the operators defined by it.
use mathlib.Core.Option
use code_snippets.BigInt.Subtract.{add_diff-Made}
use code_snippets.BigInt.Arith.{add_same-Made, Made}
use code_snippets.BigInt.Ops.{
  decrement, increment, sub_assign, add_assign, sub, add_diff, add, add_same,
}
use mathlib.Core.Path.{subst₂, subst, ap₂}
use code_snippets.BigInt.Order.{magnitude-lt_of_size, operators}
use code_snippets.BigInt.Limbs.{to_ℤ, magnitude, IsValid}
use code_snippets.BigInt.Laws.{
  neg-Denotes, assign-Denotes, block-Denotes, Denotes-of, abs-Denotes, Denotes,
}
use code_snippets.BigInt.{
  neg, assign, big, is_neg, max_n_one, size, abs, gt, with_sign, BigInt, of_int,
}
use code_snippets.Prelude.Int.{
  ◌-ℤ◌, int_laws, eq_of_parts, pos, negsuc, ltb_ℤ, ◌+ℤ◌, ℤ, pos_part, neg_part,
}
use code_snippets.Prelude.{
  Returns-Option-map, ◌≢◌, ◌∷◌, ◌==◌, ◌/◌, ◌%◌, sym, refl, inr, inl, dec_lt, ap, [], Returns-map,
  Returns, Option, Bool-cases, ◌≤◌, ◌≡◌, ◌∙◌, ◌^◌, ◌<◌, ◌-◌, ◌+◌, ℕ, true, ltb, if◌then◌else◌,
  false, arith, Bool,
}

int_sign : (n : ℤ) → with_sign (ltb 0 (neg_part n)) (pos_part n + neg_part n) ≡ n
int_sign (pos n) = ground arith
int_sign (negsuc n) = ground arith

sign_size :
    (negative : Bool) (k : ℕ)
    → pos_part (with_sign negative k) + neg_part (with_sign negative k) ≡ k
sign_size true k = ground arith
sign_size false k = ground arith

sign_side : (negative : Bool) (k : ℕ) → 0 < k → ltb 0 (neg_part (with_sign negative k)) ≡ negative
sign_side true k h = ground arith
sign_side false k h = ground arith

no_negative_zero : (n : ℤ) → pos_part n + neg_part n ≡ 0 → ltb 0 (neg_part n) ≡ false
no_negative_zero n h = ground arith

one_limb :
    (negative : Bool) (num : ℕ)
    → num < max_n_one
    → (num ≡ 0 → negative ≡ false)
    → Denotes (with_sign negative num) (big (num ∷ []) (with_sign negative 1))
one_limb negative num h z =
    Denotes-of
      (block-Denotes (num ∷ []) (with_sign negative 1) (omega arith) (sign_size negative 1) (h, tt)
        (λ e. ap (λ b. with_sign b 1) (z e)))
      (ap₂ with_sign (sign_side negative 1 (omega arith)) (omega arith))

two_limbs :
    (negative : Bool) (num : ℕ)
    → num < 2 ^ 31
    → num / max_n_one ≢ 0
    → Denotes
        (with_sign negative num)
        (big (num / max_n_one ∷ num % max_n_one ∷ []) (with_sign negative 2))
two_limbs negative num h z =
    Denotes-of
      (block-Denotes (num / max_n_one ∷ num % max_n_one ∷ []) (with_sign negative 2) (omega arith)
        (sign_size negative 2) (omega arith, (omega arith, tt)) (λ e. absurd (z e)))
      (ap₂ with_sign (sign_side negative 2 (omega arith)) (omega arith))

-- The constructor from an int: every int other than INT_MIN becomes a well-formed number that
-- stands for it.
pub of_int-Denotes : (n : ℤ) → pos_part n + neg_part n < 2 ^ 31 → Denotes n (of_int n)
unfolding of_int
of_int-Denotes n h =
    let num = pos_part n + neg_part n in
    elim (Bool-cases (num / max_n_one == 0)) [
      | inl e ↦ rw e (
          Denotes-of (one_limb (ltb 0 (neg_part n)) num (ground arith) (no_negative_zero n))
            (int_sign n))
      | inr e ↦ rw e (Denotes-of (two_limbs (ltb 0 (neg_part n)) num h (ground arith)) (int_sign n))
    ]

ltb_pos : (a b : ℕ) → ltb_ℤ (pos a) (pos b) ≡ ltb a b
ltb_pos a b = ground arith

module _ {l r : BigInt} (vl : IsValid l) (vr : IsValid r) where
  -- The comparison of absolute values in operator+.
  gt-abs : gt (abs l) (abs r) ≡ ltb (magnitude r) (magnitude l)
  gt-abs =
      let al = abs-Denotes vl in
      let ar = abs-Denotes vr in
      let (_, _, _, _, above, _) = operators (abs l) (abs r) al.valid ar.valid in
      above ∙ ap₂ ltb_ℤ ar.value al.value ∙ ltb_pos (magnitude r) (magnitude l)

  size-le_of_magnitude : magnitude r ≤ magnitude l → size r ≤ size l
  size-le_of_magnitude h = elim (dec_lt (size l) (size r)) [
    | yes p ↦ absurd (omega (arith, magnitude-lt_of_size vl vr p))
    | no p ↦ omega arith
  ]

-- The sum of two integers by their signs and magnitudes.
abbrev plus : Bool → Bool → ℕ → ℕ → ℤ
plus true true m n = with_sign true (m + n)
plus false false m n = with_sign false (m + n)
plus p q m n = if ltb n m then with_sign p (m - n) else with_sign q (n - m)

plus-lem : (p q : Bool) (m n : ℕ) → plus p q m n ≡ with_sign p m +ℤ with_sign q n
unfolding ◌+ℤ◌
plus-lem true true m n = ground arith
plus-lem true false m n = ground arith
plus-lem false true m n = ground arith
plus-lem false false m n = ground arith

-- The branches of operator+ by the signs and the comparison.
choose : Bool → Bool → Bool → BigInt → BigInt → Option BigInt
choose true true above l r = if above then add_same l r else add_same r l
choose false false above l r = if above then add_same l r else add_same r l
choose p q above l r = if above then add_diff l r else add_diff r l

add-choose : (l r : BigInt) → add l r ≡ choose (is_neg l) (is_neg r) (gt (abs l) (abs r)) l r
unfolding add choose
add-choose l r = elim (Bool-cases (is_neg l)) [
  | inl e ↦ elim (Bool-cases (is_neg r)) [ inl f ↦ rw (e, f) | inr f ↦ rw (e, f) ]
  | inr e ↦ elim (Bool-cases (is_neg r)) [ inl f ↦ rw (e, f) | inr f ↦ rw (e, f) ]
]

Made-Denotes : {p : Bool} {n : ℕ} {b : BigInt} → Made p n b → Denotes (with_sign p n) b
Made-Denotes m = record { valid = m.valid; value = m.value }

module _ {l r : BigInt} (vl : IsValid l) (vr : IsValid r) where
  same_signs :
      (above : Bool)
      → above ≡ ltb (magnitude r) (magnitude l)
      → is_neg r ≡ is_neg l
      → Returns
          (Denotes (with_sign (is_neg l) (magnitude l + magnitude r)))
          (if above then add_same l r else add_same r l)
  same_signs true e s =
      Returns-map (add_same-Made vl vr (size-le_of_magnitude vl vr (ground arith)))
        (λ b m. Made-Denotes m)
  same_signs false e s =
      Returns-map (add_same-Made vr vl (size-le_of_magnitude vr vl (ground arith)))
        (λ b m. Denotes-of (Made-Denotes m) (ap₂ with_sign s (omega arith)))

  other_signs :
      (above : Bool)
      → above ≡ ltb (magnitude r) (magnitude l)
      → Returns
          (Denotes (
            if ltb (magnitude r) (magnitude l)
            then with_sign (is_neg l) (magnitude l - magnitude r)
            else with_sign (is_neg r) (magnitude r - magnitude l)))
          (if above then add_diff l r else add_diff r l)
  other_signs true e =
      let le : magnitude r ≤ magnitude l = ground arith in
      rw (sym e) (
        Returns-map (add_diff-Made vl vr (size-le_of_magnitude vl vr le) le)
          (λ b m. Made-Denotes m))
  other_signs false e =
      let le : magnitude l ≤ magnitude r = ground arith in
      rw (sym e) (
        Returns-map (add_diff-Made vr vl (size-le_of_magnitude vr vl le) le)
          (λ b m. Made-Denotes m))

  abbrev Mixed : Bool → Bool → Bool → Type 0
  Mixed above a b =
      Returns
        (Denotes (
          if ltb (magnitude r) (magnitude l)
          then with_sign a (magnitude l - magnitude r)
          else with_sign b (magnitude r - magnitude l)))
        (if above then add_diff l r else add_diff r l)

  choose-Denotes :
      (p q above : Bool)
      → is_neg l ≡ p
      → is_neg r ≡ q
      → above ≡ ltb (magnitude r) (magnitude l)
      → Returns (Denotes (plus p q (magnitude l) (magnitude r))) (choose p q above l r)
  unfolding choose
  choose-Denotes true true above e f g =
      subst
        (λ b.
          Returns (Denotes (with_sign b (magnitude l + magnitude r)))
            (if above then add_same l r else add_same r l))
        e (same_signs above g (f ∙ sym e))
  choose-Denotes false false above e f g =
      subst
        (λ b.
          Returns (Denotes (with_sign b (magnitude l + magnitude r)))
            (if above then add_same l r else add_same r l))
        e (same_signs above g (f ∙ sym e))
  choose-Denotes true false above e f g = subst₂ (Mixed above) e f (other_signs above g)
  choose-Denotes false true above e f g = subst₂ (Mixed above) e f (other_signs above g)

-- On well-formed numbers operator+ reads no limb outside its operands, and its result is
-- well-formed and stands for the sum.
pub add-Denotes :
    (l r : BigInt) → IsValid l → IsValid r → Returns (Denotes (to_ℤ l +ℤ to_ℤ r)) (add l r)
add-Denotes l r vl vr =
    rw (add-choose l r, ← (plus-lem (is_neg l) (is_neg r) (magnitude l) (magnitude r)))
      (choose-Denotes vl vr (is_neg l) (is_neg r) (gt (abs l) (abs r)) refl refl (gt-abs vl vr))

minus-lem : (a b : ℤ) → a +ℤ (pos 0 -ℤ b) ≡ a -ℤ b
minus-lem a b = eq_of_parts _ _ (omega int_laws)

assigned :
    {n : ℤ} (a : BigInt) {o : Option BigInt}
    → Returns (Denotes n) o
    → Returns (Denotes n) (Option.map (assign a) o)
assigned a d = Returns-Option-map _ d (λ b e. Denotes-of (assign-Denotes a b e.valid) e.value)

-- On well-formed numbers binary operator-, and the four operators that update their left operand,
-- return, and leave there a
-- well-formed number that stands for the difference, the sum, the difference, the successor and the
-- predecessor.
pub arithmetic :
    (l r : BigInt)
    → IsValid l
    → IsValid r
    → Returns (Denotes (to_ℤ l -ℤ to_ℤ r)) (sub l r)
      × Returns (Denotes (to_ℤ l +ℤ to_ℤ r)) (add_assign l r)
      × Returns (Denotes (to_ℤ l -ℤ to_ℤ r)) (sub_assign l r)
      × Returns (Denotes (to_ℤ l +ℤ pos 1)) (increment l)
      × Returns (Denotes (to_ℤ l -ℤ pos 1)) (decrement l)
unfolding sub add_assign sub_assign increment decrement
arithmetic l r vl vr =
    let n = neg-Denotes vr in
    let one = of_int-Denotes (pos 1) (omega arith) in
    let minus_one = of_int-Denotes (negsuc 0) (omega arith) in
    let difference : Returns (Denotes (to_ℤ l -ℤ to_ℤ r)) (add l (neg r)) =
      Returns-map (add-Denotes l (neg r) vl n.valid)
        (λ b d. Denotes-of d (ap (λ t. to_ℤ l +ℤ t) n.value ∙ minus-lem (to_ℤ l) (to_ℤ r))) in
    (
      difference,
      assigned l (add-Denotes l r vl vr),
      assigned l difference,
      assigned l (
          Returns-map (add-Denotes l (of_int (pos 1)) vl one.valid)
            (λ b d. Denotes-of d (ap (λ t. to_ℤ l +ℤ t) one.value))),
      assigned l (
          Returns-map (add-Denotes l (of_int (negsuc 0)) vl minus_one.valid)
            (λ b d. Denotes-of d (ap (λ t. to_ℤ l +ℤ t) minus_one.value ∙ pred_lem (to_ℤ l)))),
    )
  where
    pred_lem : (a : ℤ) → a +ℤ negsuc 0 ≡ a -ℤ pos 1
    pred_lem a = eq_of_parts _ _ (omega int_laws)
