-- ===== src/BigInt/Text.antt =====
-- Numbers as text, a list of char codes: BigInt (char *) and operator<< of bigint/bigint.c, with
-- what they use of atoi and of printf's %d and %09d.
pub mod Value
pub mod Print
pub mod Parse
pub mod Laws
use code_snippets.BigInt.{with_sign, limbs, big, is_neg, BigInt, max_digits}
use code_snippets.Prelude.Int.{ℤ, sub_ℕ, pos_part, pos, negsuc, neg_part}
use code_snippets.Prelude.{
  ◌∷◌, ◌||◌, ◌==◌, ◌/◌, ◌-◌, ◌+◌, ◌++◌, ◌*◌, ◌&&◌, ◌%◌, ℕ, zero, true, take, suc, some, replicate,
  none, map, length, leb, if◌then◌else◌, false, drop, [], Option, List, Bool,
}

abbrev pub char_plus : ℕ
char_plus = 43

abbrev pub char_minus : ℕ
char_minus = 45

abbrev pub char_zero : ℕ
char_zero = 48

-- isdigit and isspace
abbrev pub is_digit : ℕ → Bool
is_digit c = leb char_zero c && leb c 57

abbrev pub is_space : ℕ → Bool
is_space c = c == 32 || (leb 9 c && leb c 13)

-- The digits that a text begins with, as a number, after those that stand for `n`.
unfoldable pub digits_from : ℕ → List ℕ → ℕ
digits_from n [] = n
digits_from n (c ∷ cs) =
    let rest = digits_from (n * 10 + (c - char_zero)) cs in if is_digit c then rest else n

unfoldable pub skip_spaces : List ℕ → List ℕ
skip_spaces [] = []
skip_spaces (c ∷ cs) = let rest = skip_spaces cs in if is_space c then rest else c ∷ cs

-- atoi from the optional sign on.
unfoldable pub atoi_signed : List ℕ → ℤ
unfolding digits_from
atoi_signed [] = pos 0
atoi_signed (c ∷ cs) =
    if c == char_minus
    then sub_ℕ 0 (digits_from 0 cs)
    else if c == char_plus
    then pos (digits_from 0 cs)
    else pos (digits_from 0 (c ∷ cs))

unfoldable pub atoi : List ℕ → ℤ
unfolding skip_spaces atoi_signed
atoi cs = atoi_signed (skip_spaces cs)

-- %d of a number that is not negative, its last digits first; `fuel` is above its number of digits.
unfoldable pub decimal_of : ℕ → ℕ → List ℕ → List ℕ
decimal_of zero n cs = cs
decimal_of (suc fuel) n cs =
    let more = decimal_of fuel (n / 10) ((char_zero + n % 10) ∷ cs) in
    if n / 10 == 0 then (char_zero + n % 10) ∷ cs else more

unfoldable pub decimal : ℕ → List ℕ
unfolding decimal_of
decimal n = decimal_of (suc n) n []

-- %09d
unfoldable pub padded : ℕ → List ℕ
unfolding decimal
padded n = replicate (max_digits - length (decimal n)) char_zero ++ decimal n

unfoldable pub print_rest : List ℕ → List ℕ
unfolding padded
print_rest [] = []
print_rest (d ∷ ds) = padded d ++ print_rest ds

unfoldable pub print_limbs : List ℕ → List ℕ
unfolding decimal print_rest
print_limbs [] = []
print_limbs (d ∷ ds) = decimal d ++ print_rest ds

-- operator<<: what it writes.
unfoldable pub print : BigInt → List ℕ
unfolding print_limbs
print number =
    if is_neg number then char_minus ∷ print_limbs (limbs number) else print_limbs (limbs number)

-- The ints that BigInt (char *) has written and its variables check_zero and zero_count. An int
-- that is not set is `none`; so is a negative one, which no limb of a BigInt is.
pub record Limbs : Type 0 where
  pub head : List (Option ℕ)
  pub check_zero : Bool
  pub zero_count : ℕ

abbrev pub limb_of : ℤ → Option ℕ
limb_of (pos n) = some n
limb_of (negsuc n) = none

-- The next int is `info`, or counts as a leading zero.
unfoldable pub put : ℤ → Limbs → Limbs
put info l =
    if l.check_zero && pos_part info == neg_part info
    then record { head = l.head ++ none ∷ []; check_zero = true; zero_count = suc l.zero_count }
    else record {
      head = l.head ++ limb_of info ∷ [];
      check_zero = false;
      zero_count = l.zero_count;
    }

-- The loop over `n` chunks of nine digits.
unfoldable pub put_chunks : ℕ → List ℕ → Limbs → Limbs
unfolding put atoi
put_chunks zero ptr l = l
put_chunks (suc n) ptr l = put_chunks n (drop max_digits ptr) (put (atoi (take max_digits ptr)) l)

abbrev pub no_limbs : Limbs
no_limbs = record { head = []; check_zero = true; zero_count = 0 }

-- The limbs of a text, the chunk of fewer than nine digits first.
unfoldable pub put_text : List ℕ → Limbs
unfolding put_chunks
put_text ptr =
    let floor = length ptr / max_digits in
    let remain = length ptr % max_digits in
    if remain == 0
    then put_chunks floor ptr no_limbs
    else put_chunks floor (drop remain ptr) (put (atoi (take remain ptr)) no_limbs)

-- The limbs if each is set.
abbrev pub cons_set : Option ℕ → Option (List ℕ) → Option (List ℕ)
cons_set none ds = none
cons_set (some d) none = none
cons_set (some d) (some ds) = some (d ∷ ds)

unfoldable pub all_set : List (Option ℕ) → Option (List ℕ)
all_set [] = some []
all_set (d ∷ ds) = cons_set d (all_set ds)

abbrev pub number_with : ℤ → Option (List ℕ) → Option BigInt
number_with sign none = none
number_with sign (some ds) = some (big ds sign)

-- The number with these limbs. The ints behind its limbs are left out.
unfoldable pub number_of : Bool → Limbs → Option BigInt
unfolding all_set
number_of negative l =
    let n = length l.head - l.zero_count in
    if n == 0
    then some (big (0 ∷ []) (pos 1))
    else number_with (with_sign negative n) (all_set (take n l.head))

-- Skip the zeros; at the end of the text step back to the char before it, if there is one.
unfoldable pub skip_zeros : Option ℕ → List ℕ → Option (List ℕ)
skip_zeros none [] = none
skip_zeros (some c) [] = some (c ∷ [])
skip_zeros before (c ∷ cs) =
    let rest = skip_zeros (some c) cs in if c == char_zero then rest else some (c ∷ cs)

unfoldable pub number_at : Bool → Option (List ℕ) → Option BigInt
unfolding put_text number_of
number_at negative none = none
number_at negative (some ptr) = number_of negative (put_text ptr)

-- BigInt (char *): `none` where it reads before its argument, or leaves a limb unset or negative.
unfoldable pub parse : List ℕ → Option BigInt
unfolding skip_zeros number_at
parse [] = none
parse (c ∷ cs) =
    if c == char_plus
    then number_at false (skip_zeros (some c) cs)
    else if c == char_minus
    then number_at true (skip_zeros (some c) cs)
    else number_at false (skip_zeros none (c ∷ cs))
