-- ===== src/BigInt/Text/Print.antt =====
-- What operator<< writes: digits that stand for the number.
use code_snippets.BigInt.Limbs.{high, Digits}
use code_snippets.BigInt.{max_n_one, max_digits}
use code_snippets.BigInt.Text.{
  max_digits, print_limbs, print_rest, padded, decimal, decimal_of, char_zero, is_digit,
}
use code_snippets.BigInt.Text.Value.{
  weight-pow, value-append, IsDigits-append, tens, IsDigits, value,
}
use code_snippets.Prelude.{
  ap, ◌≤◌, ◌≢◌, ◌≡◌, ◌∷◌, ◌∙◌, ◌==◌, ◌<◌, ◌/◌, ◌-◌, ◌+◌, ◌++◌, ◌*◌, ◌%◌, ℕ, zero, true, suc,
  replicate, refl, length-replicate, length-append, length, inr, inl, arith, [], List, Bool-cases,
  ==_iff,
}

value-replicate : (m : ℕ) (cs : List ℕ) → value (replicate m char_zero ++ cs) ≡ value cs
value-replicate zero cs = refl
value-replicate (suc m) cs = omega (arith, value-replicate m cs)

IsDigits-replicate : (m : ℕ) → IsDigits (replicate m char_zero)
IsDigits-replicate zero = tt
IsDigits-replicate (suc m) = (refl, IsDigits-replicate m)

digit_of : (n : ℕ) → is_digit (char_zero + n % 10) ≡ true
digit_of n = ground arith

-- The digits of a number are written before those of `cs`.
record Written (n : ℕ) (cs ds : List ℕ) : Type 0 where
  digits : IsDigits ds
  stands : value ds ≡ n * tens (length cs) + value cs
  some_digit : 0 < length ds
  short : (k : ℕ) → n < tens (suc k) → length ds ≤ suc k + length cs

last_digit :
    (n : ℕ) (cs : List ℕ) → IsDigits cs → n / 10 ≡ 0 → Written n cs ((char_zero + n % 10) ∷ cs)
last_digit n cs h e = record {
  digits = (digit_of n, h);
  stands = let q : char_zero + n % 10 - char_zero ≡ n = omega arith in rw q refl;
  some_digit = omega arith;
  short = λ k b. omega arith;
}

shift : (q r t v : ℕ) → q * (10 * t) + (r * t + v) ≡ (q * 10 + r) * t + v
shift q r t v = grind arith

longer :
    (n l m : ℕ)
    → (n / 10 ≢ 0)
    → ((k : ℕ) → n / 10 < tens (suc k) → l ≤ suc k + suc m)
    → (k : ℕ) → n < tens (suc k)
    → l ≤ suc k + m
longer n l m ne f zero b = absurd (ne (omega arith))
longer n l m ne f (suc k) b = omega (arith, f k (omega arith))

one_more :
    (n : ℕ) (cs ds : List ℕ)
    → Written (n / 10) ((char_zero + n % 10) ∷ cs) ds
    → (n / 10 ≢ 0)
    → Written n cs ds
one_more n cs ds w ne = record {
  digits = w.digits;
  stands =
      let r : char_zero + n % 10 - char_zero ≡ n % 10 = omega arith in
      let e : n / 10 * 10 + n % 10 ≡ n = omega arith in
      w.stands
      ∙ rw r (
          shift (n / 10) (n % 10) (tens (length cs)) (value cs)
          ∙ ap (λ a. a * tens (length cs) + value cs) e);
  some_digit = w.some_digit;
  short = longer n (length ds) (length cs) ne w.short;
}

decimal_of-Written :
    (fuel n : ℕ) (cs : List ℕ) → n < fuel → IsDigits cs → Written n cs (decimal_of fuel n cs)
unfolding decimal_of
decimal_of-Written zero n cs h d = absurd (omega arith)
decimal_of-Written (suc fuel) n cs h d = elim (Bool-cases (n / 10 == 0)) [
  | inl e ↦ rw e (last_digit n cs d ((==_iff _ _).0 e))
  | inr e ↦
      let ne : n / 10 ≢ 0 = λ z. ground (arith, z) in
      rw e (
        one_more n cs _ (decimal_of-Written fuel (n / 10) _ (omega (arith, ne)) (digit_of n, d)) ne)
]

decimal-Written : (n : ℕ) → Written n [] (decimal n)
unfolding decimal
decimal-Written n = decimal_of-Written (suc n) n [] (omega arith) tt

pub decimal-IsDigits : (n : ℕ) → IsDigits (decimal n)
decimal-IsDigits n = (decimal-Written n).digits

pub value-decimal : (n : ℕ) → value (decimal n) ≡ n
value-decimal n = omega (arith, (decimal-Written n).stands)

pub decimal_pos : (n : ℕ) → 0 < length (decimal n)
decimal_pos n = (decimal-Written n).some_digit

pub value-padded : (n : ℕ) → value (padded n) ≡ n
unfolding padded
value-padded n = value-replicate (max_digits - length (decimal n)) (decimal n) ∙ value-decimal n

pub padded-IsDigits : (n : ℕ) → IsDigits (padded n)
unfolding padded
padded-IsDigits n =
    IsDigits-append _ _ (IsDigits-replicate (max_digits - length (decimal n))) (decimal-IsDigits n)

pub length-padded : (n : ℕ) → n < max_n_one → length (padded n) ≡ max_digits
unfolding padded
length-padded n h =
    let l = length-append (replicate (max_digits - length (decimal n)) char_zero) (decimal n) in
    let r = length-replicate (max_digits - length (decimal n)) char_zero in
    let s = (decimal-Written n).short 8 h in omega arith

length-print_rest : (ds : List ℕ) → Digits ds → length (print_rest ds) ≡ max_digits * length ds
unfolding print_rest
length-print_rest [] h = refl
length-print_rest (d ∷ ds) h =
    omega (
      arith,
      length-append (padded d) (print_rest ds),
      length-padded d h.0,
      length-print_rest ds h.1,
    )

value-print_rest : (ds : List ℕ) → Digits ds → value (print_rest ds) ≡ high ds
unfolding print_rest
value-print_rest [] h = refl
value-print_rest (d ∷ ds) h =
    rw
      (
        value-append (padded d) (print_rest ds),
        value-padded d,
        length-print_rest ds h.1,
        value-print_rest ds h.1,
        weight-pow (length ds),
      )
      refl

print_rest-IsDigits : (ds : List ℕ) → IsDigits (print_rest ds)
unfolding print_rest
print_rest-IsDigits [] = tt
print_rest-IsDigits (d ∷ ds) =
    IsDigits-append (padded d) (print_rest ds) (padded-IsDigits d) (print_rest-IsDigits ds)

-- The limbs of a number are written as digits that stand for its magnitude.
pub print_limbs-IsDigits : (ds : List ℕ) → IsDigits (print_limbs ds)
unfolding print_limbs
print_limbs-IsDigits [] = tt
print_limbs-IsDigits (d ∷ ds) =
    IsDigits-append (decimal d) (print_rest ds) (decimal-IsDigits d) (print_rest-IsDigits ds)

pub value-print_limbs : (ds : List ℕ) → Digits ds → value (print_limbs ds) ≡ high ds
unfolding print_limbs
value-print_limbs [] h = refl
value-print_limbs (d ∷ ds) h =
    rw
      (
        value-append (decimal d) (print_rest ds),
        value-decimal d,
        length-print_rest ds h.1,
        value-print_rest ds h.1,
        weight-pow (length ds),
      )
      refl

pub print_limbs_pos : (ds : List ℕ) → 0 < length ds → 0 < length (print_limbs ds)
unfolding print_limbs
print_limbs_pos [] h = h
print_limbs_pos (d ∷ ds) h = omega (arith, length-append (decimal d) (print_rest ds), decimal_pos d)
