-- ===== src/BigInt/Tests.antt =====
-- The theorems on 1,000,000,005 and -7.
use code_snippets.BigInt.Text.Laws.{parse-Denotes, parse-print}
use code_snippets.BigInt.Text.{char_minus, char_plus, print, parse}
use code_snippets.BigInt.Text.Value.{value, IsDigits}
use code_snippets.BigInt.Order.{operators}
use code_snippets.BigInt.Ops.{decrement, increment, sub_assign, add_assign, sub, add}
use code_snippets.BigInt.Plus.{arithmetic, add-Denotes}
use code_snippets.BigInt.Laws.{Denotes}
use code_snippets.BigInt.Limbs.{to_ℤ, IsValid}
use code_snippets.BigInt.{eq, ne, lt, le, gt, ge, big, BigInt}
use code_snippets.Prelude.Int.{sub_ℕ, ◌-ℤ◌, ◌+ℤ◌, pos, negsuc, ltb_ℤ}
use code_snippets.Prelude.{ℕ, some, refl, List, ◌≡◌, ◌∷◌, ◌↔◌, true, not, arith, [], Returns}

abbrev five : BigInt
five = big (1 ∷ 5 ∷ []) (pos 2)

abbrev minus_seven : BigInt
minus_seven = big (7 ∷ []) (negsuc 0)

five-IsValid : IsValid five
five-IsValid = record {
  sized = omega arith;
  within = omega arith;
  digits = (omega arith, (omega arith, tt));
  canonical = λ e. cc;
}

minus_seven-IsValid : IsValid minus_seven
minus_seven-IsValid = record {
  sized = omega arith;
  within = omega arith;
  digits = (omega arith, tt);
  canonical = λ e. cc;
}

add-Denotes_example : Returns (Denotes (to_ℤ five +ℤ to_ℤ minus_seven)) (add five minus_seven)
add-Denotes_example = add-Denotes five minus_seven five-IsValid minus_seven-IsValid

arithmetic_example :
    Returns (Denotes (to_ℤ five -ℤ to_ℤ minus_seven)) (sub five minus_seven)
    × Returns (Denotes (to_ℤ five +ℤ to_ℤ minus_seven)) (add_assign five minus_seven)
    × Returns (Denotes (to_ℤ five -ℤ to_ℤ minus_seven)) (sub_assign five minus_seven)
    × Returns (Denotes (to_ℤ five +ℤ pos 1)) (increment five)
    × Returns (Denotes (to_ℤ five -ℤ pos 1)) (decrement five)
arithmetic_example = arithmetic five minus_seven five-IsValid minus_seven-IsValid

operators_example :
    ((eq five minus_seven ≡ true) ↔ (to_ℤ five ≡ to_ℤ minus_seven))
    × (ne five minus_seven ≡ not (eq five minus_seven))
    × (lt five minus_seven ≡ ltb_ℤ (to_ℤ five) (to_ℤ minus_seven))
    × (le five minus_seven ≡ not (ltb_ℤ (to_ℤ minus_seven) (to_ℤ five)))
    × (gt five minus_seven ≡ ltb_ℤ (to_ℤ minus_seven) (to_ℤ five))
    × (ge five minus_seven ≡ not (ltb_ℤ (to_ℤ five) (to_ℤ minus_seven)))
operators_example = operators five minus_seven five-IsValid minus_seven-IsValid

-- "0012345678901", its value and its limbs.
abbrev text : List ℕ
text = 48 ∷ 48 ∷ 49 ∷ 50 ∷ 51 ∷ 52 ∷ 53 ∷ 54 ∷ 55 ∷ 56 ∷ 57 ∷ 48 ∷ 49 ∷ []

text-IsDigits : IsDigits text
text-IsDigits = (
  refl,
  (
    refl,
    (refl, (refl, (refl, (refl, (refl, (refl, (refl, (refl, (refl, (refl, (refl, tt))))))))))),
  ),
)

text_limbs : parse text ≡ some (big (12 ∷ 345678901 ∷ []) (pos 2))
unfolding parse
text_limbs = refl

minus_text :
    print (big (12 ∷ 678901 ∷ []) (negsuc 1))
    ≡ 45 ∷ 49 ∷ 50 ∷ 48 ∷ 48 ∷ 48 ∷ 54 ∷ 55 ∷ 56 ∷ 57 ∷ 48 ∷ 49 ∷ []
unfolding print
minus_text = refl

zeros_text : parse (45 ∷ 48 ∷ 48 ∷ []) ≡ some (big (0 ∷ []) (pos 1))
unfolding parse
zeros_text = refl

parse-Denotes_example :
    ((b : BigInt) × (parse text ≡ some b) × Denotes (pos (value text)) b)
    × ((b : BigInt) × (parse (char_plus ∷ text) ≡ some b) × Denotes (pos (value text)) b)
    × ((b : BigInt) × (parse (char_minus ∷ text) ≡ some b) × Denotes (sub_ℕ 0 (value text)) b)
parse-Denotes_example = parse-Denotes text text-IsDigits (omega arith)

parse-print_example :
    (c : BigInt) × (parse (print minus_seven) ≡ some c) × Denotes (to_ℤ minus_seven) c
parse-print_example = parse-print minus_seven minus_seven-IsValid
