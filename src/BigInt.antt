-- ===== src/BigInt.antt =====
-- Arbitrary-length integers: bigint/bigint.h and bigint/bigint.c. `head` is the ints from the
-- pointer `head` to the end of its block, most significant limb first; `sign` is the number of
-- limbs, negated for a negative number. `none` stands for a read outside the limbs of an operand.
-- Limbs are natural numbers: the C ints that occur never pass 2^31 - 1 (BigInt/Sum.antt), and a
-- difference is tested before it is formed.
pub mod Limbs
pub mod Ops
pub mod Sum
pub mod Diff
pub mod Order
pub mod Arith
pub mod Subtract
pub mod Laws
pub mod Plus
pub mod Text
mod Tests
use code_snippets.Prelude.Int.{◌-ℤ◌, ◌*ℤ◌, ℤ, sub_ℕ, pos_part, pos, negsuc, neg_part, ltb_ℤ}
use code_snippets.Prelude.{
  ◌/◌, ◌+◌, ◌%◌, [], ◌&&◌, drop, ◌∷◌, ◌==◌, ◌++◌, not, true, get_or, take, ltb, if◌then◌else◌, Bool,
  List, ℕ,
}
use Prim.Native.Nat.{ℕ}

abbrev pub max_digits : ℕ
max_digits = 9

abbrev pub max_n_one : ℕ
max_n_one = 1000000000

pub record BigInt : Type 0 where
  pub head : List ℕ
  pub sign : ℤ

abbrev pub big : List ℕ → ℤ → BigInt
big ds s = record { head = ds; sign = s }

-- ABS (sign)
abbrev pub size : BigInt → ℕ
size b = pos_part b.sign + neg_part b.sign

-- sign < 0
abbrev pub is_neg : BigInt → Bool
is_neg b = ltb 0 (neg_part b.sign)

abbrev pub limbs : BigInt → List ℕ
limbs b = take (size b) b.head

-- `negative ? -n : n`
abbrev pub with_sign : Bool → ℕ → ℤ
with_sign negative n = if negative then sub_ℕ 0 n else pos n

-- BigInt (const int). The second int of the block of one limb, which is not set, is left out.
unfoldable pub of_int : ℤ → BigInt
of_int number =
    let num = pos_part number + neg_part number in
    let negative = ltb 0 (neg_part number) in
    if num / max_n_one == 0
    then big (num ∷ []) (with_sign negative 1)
    else big (num / max_n_one ∷ num % max_n_one ∷ []) (with_sign negative 2)

-- BigInt (const BigInt &)
unfoldable pub copy : BigInt → BigInt
copy number = big (limbs number) number.sign

-- operator=: a larger block only if the limbs do not fit.
unfoldable pub assign : BigInt → BigInt → BigInt
assign this number =
    if ltb (size this) (size number)
    then big (limbs number) number.sign
    else big (limbs number ++ drop (size number) this.head) number.sign

unfoldable pub abs : BigInt → BigInt
unfolding copy
abs number = let answer = copy number in record answer { sign = pos (size answer) }

-- Unary operator-
unfoldable pub neg : BigInt → BigInt
unfolding copy
neg number =
    let answer = copy number in
    if get_or answer.head 0 0 == 0
    then answer
    else record answer { sign = sub_ℕ (neg_part answer.sign) (pos_part answer.sign) }

-- memcmp (...) == 0 over two blocks of limbs.
unfoldable pub same_limbs : List ℕ → List ℕ → Bool
same_limbs [] ys = true
same_limbs (x ∷ xs) [] = true
same_limbs (x ∷ xs) (y ∷ ys) = x == y && same_limbs xs ys

-- The loop of abs_compare.
unfoldable pub compare_limbs : List ℕ → List ℕ → ℤ
compare_limbs [] ys = pos 0
compare_limbs (x ∷ xs) [] = pos 0
compare_limbs (x ∷ xs) (y ∷ ys) =
    let rest = compare_limbs xs ys in if ltb x y then negsuc 0 else if ltb y x then pos 1 else rest

unfoldable pub abs_compare : BigInt → BigInt → ℤ
unfolding same_limbs compare_limbs
abs_compare l r =
    if ltb (size l) (size r)
    then negsuc 0
    else if ltb (size r) (size l)
    then pos 1
    else if same_limbs (limbs l) (limbs r)
    then pos 0
    else compare_limbs (limbs l) (limbs r)

abbrev pub unit_sign : BigInt → ℤ
unit_sign b = if is_neg b then negsuc 0 else pos 1

unfoldable pub compare : BigInt → BigInt → ℤ
unfolding abs_compare ◌*ℤ◌ ◌-ℤ◌
compare l r =
    if ltb_ℤ (unit_sign l *ℤ unit_sign r) (pos 0)
    then unit_sign l
    else if ltb_ℤ (unit_sign l) (pos 0)
    then pos 0 -ℤ abs_compare l r
    else abs_compare l r

-- The comparison operators.
unfoldable pub eq : BigInt → BigInt → Bool
unfolding compare
eq l r = let c = compare l r in pos_part c == neg_part c

unfoldable pub ne : BigInt → BigInt → Bool
unfolding compare
ne l r = let c = compare l r in not (pos_part c == neg_part c)

unfoldable pub lt : BigInt → BigInt → Bool
unfolding compare
lt l r = ltb_ℤ (compare l r) (pos 0)

unfoldable pub le : BigInt → BigInt → Bool
unfolding compare
le l r = not (ltb_ℤ (pos 0) (compare l r))

unfoldable pub gt : BigInt → BigInt → Bool
unfolding compare
gt l r = ltb_ℤ (pos 0) (compare l r)

unfoldable pub ge : BigInt → BigInt → Bool
unfolding compare
ge l r = not (ltb_ℤ (compare l r) (pos 0))
