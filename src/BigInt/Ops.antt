-- ===== src/BigInt/Ops.antt =====
-- The arithmetic of bigint.c. A loop runs down from the least significant limb: it reads the limbs
-- of its operands in reverse and writes `*answer.head--` by putting the limb in front of `answer`.
use code_snippets.Prelude.Int.{◌*ℤ◌, pos, negsuc, ltb_ℤ}
use code_snippets.Prelude.{
  ◌∷◌, ◌==◌, ◌&&◌, ◌%◌, suc, reverse, not, if◌then◌else◌, get_or, ◌-◌, length, none, ◌/◌, drop, ltb,
  false, some, ◌+◌, [], Option, Bool, List, ℕ,
}
use mathlib.Core.Option.{Option}
use mathlib.Core.Option
use code_snippets.BigInt.{
  drop, ltb, Bool, List, ℕ, BigInt, big, size, is_neg, limbs, with_sign, max_n_one, abs, neg, gt,
  unit_sign, assign, of_int,
}

-- One round of a loop of add_same.
unfoldable pub add_digit : ℕ → ℕ → List ℕ × ℕ → List ℕ × ℕ
add_digit l r (answer, carry) =
    let sum = l + r + carry in
    let carry' = sum / max_n_one in
    ((if carry' == 0 then sum else sum % max_n_one) ∷ answer, carry')

-- The loop over the limbs of both operands; `none` is a read below the limbs of the left one.
unfoldable pub add_both : List ℕ → List ℕ → List ℕ × ℕ → Option (List ℕ × List ℕ × ℕ)
unfolding add_digit
add_both ls [] s = some (ls, s.0, s.1)
add_both [] (r ∷ rs) s = none
add_both (l ∷ ls) (r ∷ rs) s = add_both ls rs (add_digit l r s)

-- The loop over the limbs that only the left operand has.
unfoldable pub add_rest : List ℕ → List ℕ × ℕ → List ℕ × ℕ
unfolding add_digit
add_rest [] s = s
add_rest (l ∷ ls) s = add_rest ls (add_digit l 0 s)

unfoldable pub add_finish : Bool → ℕ → List ℕ × ℕ → BigInt
add_finish negative abs_l (answer, carry) =
    if carry == 0
    then big answer (with_sign negative abs_l)
    else big (carry ∷ answer) (with_sign negative (abs_l + 1))

unfoldable pub add_same : BigInt → BigInt → Option BigInt
unfolding add_both add_rest add_finish
add_same l r =
    Option.map
      (λ (ls, answer, carry).
        add_finish (is_neg l) (size l)
          (if size l == size r then (answer, carry) else add_rest ls (answer, carry)))
      (add_both (reverse (limbs l)) (reverse (limbs r)) ([], 0))

-- The variables of add_diff's loops. `z_ptr` is the number of ints from the pointer to the end of
-- the block; it is 0 while the pointer is not set.
pub record Diff : Type 0 where
  pub answer : List ℕ
  pub borrow : ℕ
  pub zero_run : Bool
  pub z_ptr : ℕ

abbrev pub diff_start : Diff
diff_start = record { answer = []; borrow = 0; zero_run = false; z_ptr = 0 }

-- One round of a loop of add_diff: `*l_ptr - *r_ptr - borrow`, and MAX_N_ONE more if that is < 0.
unfoldable pub sub_digit : ℕ → ℕ → Diff → Diff
sub_digit l r s =
    let negative = ltb l (r + s.borrow) in
    let digit = if negative then l + max_n_one - (r + s.borrow) else l - (r + s.borrow) in
    record {
      answer = digit ∷ s.answer;
      borrow = if negative then 1 else 0;
      zero_run = digit == 0;
      z_ptr = if digit == 0 && not s.zero_run then suc (length s.answer) else s.z_ptr;
    }

unfoldable pub sub_both : List ℕ → List ℕ → Diff → Option (List ℕ × Diff)
unfolding sub_digit
sub_both ls [] s = some (ls, s)
sub_both [] (r ∷ rs) s = none
sub_both (l ∷ ls) (r ∷ rs) s = sub_both ls rs (sub_digit l r s)

unfoldable pub sub_rest : List ℕ → Diff → Diff
unfolding sub_digit
sub_rest [] s = s
sub_rest (l ∷ ls) s = sub_rest ls (sub_digit l 0 s)

-- The last `n` ints of a block.
unfoldable pub last_ints : ℕ → List ℕ → List ℕ
last_ints n xs = drop (length xs - n) xs

-- The choice of `answer.head` and the sign after the loops.
unfoldable pub sub_finish : Bool → Diff → BigInt
unfolding last_ints
sub_finish negative s =
    if s.zero_run
    then (let head = last_ints (if s.z_ptr == 1 then 1 else s.z_ptr - 1) s.answer in
        if length head == 1 && get_or head 0 0 == 0
        then big head (pos 1)
        else big head (with_sign negative (length head)))
    else big s.answer (with_sign negative (length s.answer))

unfoldable pub add_diff : BigInt → BigInt → Option BigInt
unfolding sub_both sub_rest sub_finish
add_diff l r =
    Option.map (λ (ls, s). sub_finish (is_neg l) (if size l == size r then s else sub_rest ls s))
      (sub_both (reverse (limbs l)) (reverse (limbs r)) diff_start)

-- operator+
unfoldable pub add : BigInt → BigInt → Option BigInt
unfolding ◌*ℤ◌
add l r =
    if ltb_ℤ (unit_sign l *ℤ unit_sign r) (pos 0)
    then (if gt (abs l) (abs r) then add_diff l r else add_diff r l)
    else (if gt (abs l) (abs r) then add_same l r else add_same r l)

-- Binary operator-
unfoldable pub sub : BigInt → BigInt → Option BigInt
unfolding add neg
sub l r = add l (neg r)

-- operator+=, operator-=, operator++, operator--
unfoldable pub add_assign : BigInt → BigInt → Option BigInt
unfolding add assign
add_assign this number = Option.map (assign this) (add this number)

unfoldable pub sub_assign : BigInt → BigInt → Option BigInt
unfolding add neg assign
sub_assign this number = Option.map (assign this) (add this (neg number))

unfoldable pub increment : BigInt → Option BigInt
unfolding add of_int assign
increment this = Option.map (assign this) (add this (of_int (pos 1)))

unfoldable pub decrement : BigInt → Option BigInt
unfolding add of_int assign
decrement this = Option.map (assign this) (add this (of_int (negsuc 0)))
