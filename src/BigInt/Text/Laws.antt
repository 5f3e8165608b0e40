-- ===== src/BigInt/Text/Laws.antt =====
-- The round trip of numbers and text.
-- Limbs of a text, the first of them not zero.
use code_snippets.BigInt.Text.Print.{value-print_limbs, print_limbs_pos, print_limbs-IsDigits}
use code_snippets.Prelude.Int.{sub_ℕ, pos_part, pos, neg_part}
use code_snippets.BigInt.Laws.{block-Denotes, Denotes-of, Denotes}
use code_snippets.BigInt.Text.Parse.{
  length-chunk_values, skip_zeros-Skipped, value-take-drop, value-take-lt, high-chunk_values,
  chunk_values-Digits, put_chunks-values, put-first, chunk_values, value-take_pos, set_limbs, Leads,
}
use code_snippets.BigInt.Text.Value.{
  not_sign, weight-pow, IsDigits-drop, IsDigits-take, atoi-value, value, IsDigits,
}
use code_snippets.BigInt.{is_neg, limbs, big, with_sign, max_digits, BigInt}
use code_snippets.BigInt.Text.{
  print_limbs, char_minus, char_plus, print, parse, char_zero, atoi, put, no_limbs, skip_zeros,
  BigInt, put_chunks, number_at, number_of, all_set, put_text,
}
use code_snippets.BigInt.Limbs.{length-limbs, to_ℤ, IsValid, high, Digits}
use code_snippets.Prelude.{
  ◌-◌, ◌+◌, true, sym, none, ltb, length-map, false, ◌≡◌, ◌∷◌, ◌==◌, ◌<◌, ◌/◌, ◌*◌, ◌%◌, ℕ, zero,
  take, suc, some, refl, map, length-drop, length, inr, inl, get_or, drop, arith, ap, [], Option,
  List, Bool-cases, Bool, ==_iff,
}

record Read (cs xs : List ℕ) : Type 0 where
  digits : Digits xs
  stands : high xs ≡ value cs
  first_pos : 0 < get_or xs 0 0
  some_limb : 0 < length xs

put_text-Read :
    (cs : List ℕ)
    → IsDigits cs
    → Leads cs
    → 0 < length cs
    → (xs : List ℕ) × (put_text cs ≡ set_limbs xs) × Read cs xs
unfolding put_text put_chunks
put_text-Read cs d l h = elim (Bool-cases (length cs % max_digits == 0)) [
  | inl e ↦ rw e (whole (length cs / max_digits) (omega (arith, (==_iff _ _).0 e)))
  | inr e ↦ rw e (with_rest (ground arith))
]
  where
    whole :
        (n : ℕ)
        → length cs ≡ max_digits * n
        → (xs : List ℕ) × (put_chunks n cs no_limbs ≡ set_limbs xs) × Read cs xs
    whole zero e = absurd (omega arith)
    whole (suc n) e =
        let x = value (take max_digits cs) in
        let p = value-take_pos max_digits cs d l (omega arith) in
        (
          x ∷ chunk_values n (drop max_digits cs),
          rw (atoi-value (take max_digits cs) (IsDigits-take max_digits cs d), put-first x p)
              (put_chunks-values n (drop max_digits cs) (x ∷ []) (IsDigits-drop max_digits cs d)),
          record {
            digits = chunk_values-Digits (suc n) cs d;
            stands = high-chunk_values (suc n) cs e;
            first_pos = p;
            some_limb = omega arith;
          },
        )

    with_rest :
        0 < length cs % max_digits
        → (xs : List ℕ) × (put_chunks
              (length cs / max_digits)
              (drop (length cs % max_digits) cs)
              (put (atoi (take (length cs % max_digits) cs)) no_limbs)
            ≡ set_limbs xs)
          × Read cs xs
    with_rest r =
        let k = length cs % max_digits in
        let n = length cs / max_digits in
        let x = value (take k cs) in
        let p = value-take_pos k cs d l r in
        let e : length (drop k cs) ≡ max_digits * n = omega (arith, length-drop k cs) in
        (
          x ∷ chunk_values n (drop k cs),
          rw (atoi-value (take k cs) (IsDigits-take k cs d), put-first x p)
              (put_chunks-values n (drop k cs) (x ∷ []) (IsDigits-drop k cs d)),
          record {
            digits = (
              value-take-lt k cs d (omega arith),
              chunk_values-Digits n (drop k cs) (IsDigits-drop k cs d),
            );
            stands =
                rw
                  (
                    value-take-drop k cs,
                    e,
                    length-chunk_values n (drop k cs),
                    weight-pow n,
                    high-chunk_values n (drop k cs) e,
                  )
                  refl;
            first_pos = p;
            some_limb = omega arith;
          },
        )

all_set-set : (xs : List ℕ) → all_set (map some xs) ≡ some xs
unfolding all_set
all_set-set [] = refl
all_set-set (x ∷ xs) = rw (all_set-set xs) refl

take-all-set :
    (xs : List ℕ) → take (length (map {B = Option ℕ} some xs)) (map some xs) ≡ map some xs
take-all-set [] = refl
take-all-set (x ∷ xs) = ap (λ ys. some x ∷ ys) (take-all-set xs)

number_of-Denotes :
    (negative : Bool) (cs xs : List ℕ)
    → Read cs xs
    → (b : BigInt) × (number_of negative (set_limbs xs) ≡ some b)
      × Denotes (with_sign negative (value cs)) b
unfolding number_of
number_of-Denotes negative cs xs r =
    let m = length-map {B = Option ℕ} xs some in
    let k : length (map {B = Option ℕ} some xs) - 0 ≡ length (map {B = Option ℕ} some xs) =
      omega arith in
    let p = r.some_limb in
    let z : (length xs == 0) ≡ false = ground arith in
    let n : pos_part (with_sign negative (length xs)) + neg_part (with_sign negative (length xs))
        ≡ length xs =
      ground arith in
    let g : ltb 0 (neg_part (with_sign negative (length xs))) ≡ negative = ground arith in
    (
      big xs (with_sign negative (length xs)),
      rw (k, take-all-set xs, all_set-set xs, m, z) refl,
      Denotes-of
          (block-Denotes xs (with_sign negative (length xs)) p n r.digits
            (λ e. absurd (omega (arith, r.first_pos))))
          (rw (g, r.stands) refl),
    )

length_of_Leads : (cs : List ℕ) → Leads cs → 0 < length cs
length_of_Leads [] l = absurd (l tt)
length_of_Leads (c ∷ cs) l = omega arith

zero_text :
    (negative : Bool)
    → (b : BigInt) × (number_of negative (put_text (char_zero ∷ [])) ≡ some b)
      × Denotes (with_sign negative 0) b
unfolding number_of put_text
zero_text negative = (
  big (0 ∷ []) (pos 1),
  refl,
  Denotes-of (block-Denotes (0 ∷ []) (pos 1) (omega arith) refl (omega arith, tt) (λ e. refl))
      (ground arith),
)

number_at-Denotes :
    (negative : Bool) (before : Option ℕ) (cs : List ℕ)
    → IsDigits cs
    → 0 < length cs
    → (b : BigInt) × (number_at negative (skip_zeros before cs) ≡ some b)
      × Denotes (with_sign negative (value cs)) b
unfolding number_at
number_at-Denotes negative before [] d h = absurd (omega arith)
number_at-Denotes negative before (c ∷ cs) d h =
    let (ptr, eq, s) = skip_zeros-Skipped before c cs d in
    rw (eq, sym s.same)
      (elim s.leads [
        | inl z ↦ rw z (zero_text negative)
        | inr l ↦
            let (xs, e, r) = put_text-Read ptr s.digits l (length_of_Leads ptr l) in
            rw e (number_of-Denotes negative ptr xs r)
      ])

-- BigInt (char *) on digits, after an optional sign: the number that it makes.
pub parse-Denotes :
    (cs : List ℕ)
    → IsDigits cs
    → 0 < length cs
    → ((b : BigInt) × (parse cs ≡ some b) × Denotes (pos (value cs)) b)
      × ((b : BigInt) × (parse (char_plus ∷ cs) ≡ some b) × Denotes (pos (value cs)) b)
      × ((b : BigInt) × (parse (char_minus ∷ cs) ≡ some b) × Denotes (sub_ℕ 0 (value cs)) b)
unfolding parse
parse-Denotes [] d h = absurd (omega arith)
parse-Denotes (c ∷ cs) d h =
    let (a, m, p) = not_sign c d.0 in
    (
      rw (p, m) (number_at-Denotes false none (c ∷ cs) d h),
      number_at-Denotes false (some char_plus) (c ∷ cs) d h,
      number_at-Denotes true (some char_minus) (c ∷ cs) d h,
    )

-- What operator<< writes, BigInt (char *) reads back.
pub parse-print :
    (b : BigInt) → IsValid b → (c : BigInt) × (parse (print b) ≡ some c) × Denotes (to_ℤ b) c
unfolding print
parse-print b v =
    let d = print_limbs-IsDigits (limbs b) in
    let l = print_limbs_pos (limbs b) (omega (arith, length-limbs v, v.sized)) in
    let (p, _, m) = parse-Denotes (print_limbs (limbs b)) d l in
    let e = value-print_limbs (limbs b) v.digits in
    elim (Bool-cases (is_neg b)) [ inl t ↦ rw (t, sym e) m | inr t ↦ rw (t, sym e) p ]
