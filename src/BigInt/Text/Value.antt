-- ===== src/BigInt/Text/Value.antt =====
-- What the digits of a text stand for, and atoi on them.
-- A power of ten.
use code_snippets.BigInt.{max_digits}
use code_snippets.BigInt.Limbs.{weight}
use code_snippets.BigInt.Text.{
  char_plus, char_minus, is_space, atoi_signed, max_digits, skip_spaces, atoi, digits_from,
  is_digit, char_zero,
}
use code_snippets.Prelude.Int.{pos}
use code_snippets.Prelude.{
  ◌≤◌, ◌∙◌, ◌==◌, false, ap, ◌≡◌, ◌∷◌, ◌<◌, ◌-◌, ◌+◌, ◌++◌, ◌*◌, ℕ, zero, true, take, suc, refl,
  length-append, length, drop, arith, [], List,
}

abbrev pub tens : ℕ → ℕ
tens zero = 1
tens (suc n) = 10 * tens n

pub tens-plus : (m n : ℕ) → tens (m + n) ≡ tens m * tens n
tens-plus zero n = let e : 0 + n ≡ n = omega arith in rw e (omega arith)
tens-plus (suc m) n =
    let e : suc m + n ≡ suc (m + n) = omega arith in rw (e, tens-plus m n) (grind arith)

-- The number that digits stand for.
abbrev pub value : List ℕ → ℕ
value [] = 0
value (c ∷ cs) = (c - char_zero) * tens (length cs) + value cs

abbrev pub IsDigits : List ℕ → Type 0
IsDigits [] = Unit
IsDigits (c ∷ cs) = (is_digit c ≡ true) × IsDigits cs

pub value-append : (cs ds : List ℕ) → value (cs ++ ds) ≡ value cs * tens (length ds) + value ds
value-append [] ds = omega arith
value-append (c ∷ cs) ds =
    let e = value-append cs ds in
    let l = length-append cs ds in
    rw (length-append cs ds, tens-plus (length cs) (length ds), e) (grind arith)

digit_lt : (c : ℕ) → is_digit c ≡ true → c - char_zero < 10
digit_lt c h = ground arith

pub not_sign :
    (c : ℕ)
    → is_digit c ≡ true
    → (is_space c ≡ false) × ((c == char_minus) ≡ false) × ((c == char_plus) ≡ false)
not_sign c h = ground arith

digit_then : (d t v : ℕ) → d < 10 → v < t → d * t + v < 10 * t
digit_then d t v h k = grind arith

pub value-lt : (cs : List ℕ) → IsDigits cs → value cs < tens (length cs)
value-lt [] h = omega arith
value-lt (c ∷ cs) h =
    digit_then (c - char_zero) (tens (length cs)) (value cs) (digit_lt c h.0) (value-lt cs h.1)

digits_from-value :
    (n : ℕ) (cs : List ℕ) → IsDigits cs → digits_from n cs ≡ n * tens (length cs) + value cs
unfolding digits_from
digits_from-value n [] h = omega arith
digits_from-value n (c ∷ cs) h =
    rw h.0 (let e = digits_from-value (n * 10 + (c - char_zero)) cs h.1 in grind arith)

-- atoi of digits.
pub atoi-value : (cs : List ℕ) → IsDigits cs → atoi cs ≡ pos (value cs)
unfolding atoi skip_spaces atoi_signed
atoi-value [] h = refl
atoi-value (c ∷ cs) h =
    let (a, b, e) = not_sign c h.0 in
    rw (a, b, e) (ap pos (digits_from-value 0 (c ∷ cs) h ∙ omega arith))

pub IsDigits-append : (cs ds : List ℕ) → IsDigits cs → IsDigits ds → IsDigits (cs ++ ds)
IsDigits-append [] ds h k = k
IsDigits-append (c ∷ cs) ds h k = (h.0, IsDigits-append cs ds h.1 k)

pub IsDigits-take : (n : ℕ) (cs : List ℕ) → IsDigits cs → IsDigits (take n cs)
IsDigits-take zero cs h = tt
IsDigits-take (suc n) [] h = tt
IsDigits-take (suc n) (c ∷ cs) h = (h.0, IsDigits-take n cs h.1)

pub IsDigits-drop : (n : ℕ) (cs : List ℕ) → IsDigits cs → IsDigits (drop n cs)
IsDigits-drop zero cs h = h
IsDigits-drop (suc n) [] h = tt
IsDigits-drop (suc n) (c ∷ cs) h = IsDigits-drop n cs h.1

-- The base of the limbs is a power of ten.
pub weight-pow : (n : ℕ) → weight n ≡ tens (max_digits * n)
weight-pow zero = refl
weight-pow (suc n) =
    let e : max_digits * suc n ≡ max_digits + max_digits * n = omega arith in
    rw (e, tens-plus max_digits (max_digits * n), weight-pow n) (omega arith)

pub tens_pos : (n : ℕ) → 0 < tens n
tens_pos zero = omega arith
tens_pos (suc n) = omega (arith, tens_pos n)

pub tens_mono : (m n : ℕ) → m ≤ n → tens m ≤ tens n
tens_mono zero n h = tens_pos n
tens_mono (suc m) zero h = absurd (omega arith)
tens_mono (suc m) (suc n) h = omega (arith, tens_mono m n (omega arith))
