-- ===== src/BigInt/Text/Parse.antt =====
-- BigInt (char *) on the digits of a number, with or without a sign.
use code_snippets.BigInt.Limbs.{Digits, high}
use code_snippets.BigInt.{max_n_one, max_digits}
use code_snippets.BigInt.Text.Value.{
  tens_pos, tens_mono, value-append, IsDigits-take, IsDigits-drop, value-lt, weight-pow, atoi-value,
  tens, value, IsDigits,
}
use code_snippets.BigInt.Text.{is_digit, no_limbs, put_chunks, put, Limbs, skip_zeros, char_zero}
use mathlib.Core.List.{append-nil, append_assoc}
use code_snippets.Prelude.Int.{pos}
use code_snippets.Prelude.{
  ◌-◌, true, take-append-drop, length-take, ==_iff, ◌⊎◌, ◌≤◌, ◌≢◌, ◌≡◌, ◌∷◌, ◌∙◌, ◌==◌, ◌<◌, ◌+◌,
  ◌++◌, ◌*◌, ℕ, zero, take, sym, suc, some, refl, map, length-drop, length, inr, inl, false, drop,
  arith, ap, [], Option, List, Bool-cases,
}

-- A text that begins with a digit that is not zero.
abbrev pub Leads : List ℕ → Type 0
Leads [] = ¬ Unit
Leads (c ∷ cs) = c ≢ char_zero

pub record Skipped (cs ptr : List ℕ) : Type 0 where
  pub digits : IsDigits ptr
  pub same : value ptr ≡ value cs
  pub leads : (ptr ≡ char_zero ∷ []) ⊎ Leads ptr

zero_first : (c : ℕ) (cs : List ℕ) → c ≡ char_zero → value cs ≡ value (c ∷ cs)
zero_first c cs e = let z : c - char_zero ≡ 0 = omega arith in rw z (omega arith)

-- What is left where the zeros have been skipped.
pub skip_zeros-Skipped :
    (before : Option ℕ) (c : ℕ) (cs : List ℕ)
    → IsDigits (c ∷ cs)
    → (ptr : List ℕ) × (skip_zeros before (c ∷ cs) ≡ some ptr) × Skipped (c ∷ cs) ptr
unfolding skip_zeros
skip_zeros-Skipped before c [] h = elim (Bool-cases (c == char_zero)) [
  | inl e ↦ rw e (
      (
        c ∷ [],
        refl,
        record { digits = h; same = refl; leads = inl (ap (λ d. d ∷ []) ((==_iff _ _).0 e)) },
      ))
  | inr e ↦
      rw e
        ((c ∷ [], refl, record { digits = h; same = refl; leads = inr (λ z. ground (arith, z)) }))
]
skip_zeros-Skipped before c (d ∷ cs) h = elim (Bool-cases (c == char_zero)) [
  | inl e ↦
      let (ptr, eq, s) = skip_zeros-Skipped (some c) d cs h.1 in
      rw e (
        (
          ptr,
          eq,
          record {
            digits = s.digits;
            same = s.same ∙ zero_first c (d ∷ cs) ((==_iff _ _).0 e);
            leads = s.leads;
          },
        ))
  | inr e ↦
      rw e (
        (
          c ∷ d ∷ cs,
          refl,
          record { digits = h; same = refl; leads = inr (λ z. ground (arith, z)) },
        ))
]

-- The numbers of the chunks of nine digits.
abbrev pub chunk_values : ℕ → List ℕ → List ℕ
chunk_values zero cs = []
chunk_values (suc n) cs = value (take max_digits cs) ∷ chunk_values n (drop max_digits cs)

pub length-chunk_values : (n : ℕ) (cs : List ℕ) → length (chunk_values n cs) ≡ n
length-chunk_values zero cs = refl
length-chunk_values (suc n) cs = ap suc (length-chunk_values n (drop max_digits cs))

pub value-take-drop :
    (k : ℕ) (cs : List ℕ)
    → value cs ≡ value (take k cs) * tens (length (drop k cs)) + value (drop k cs)
value-take-drop k cs = ap value (sym (take-append-drop k cs)) ∙ value-append (take k cs) (drop k cs)

pub high-chunk_values :
    (n : ℕ) (cs : List ℕ) → length cs ≡ max_digits * n → high (chunk_values n cs) ≡ value cs
high-chunk_values zero [] h = refl
high-chunk_values zero (c ∷ cs) h = absurd (omega arith)
high-chunk_values (suc n) cs h =
    let l : length (drop max_digits cs) ≡ max_digits * n =
      omega (arith, length-drop max_digits cs) in
    rw
      (
        value-take-drop max_digits cs,
        l,
        length-chunk_values n (drop max_digits cs),
        weight-pow n,
        high-chunk_values n (drop max_digits cs) l,
      )
      refl

pub value-take-lt : (k : ℕ) (cs : List ℕ) → IsDigits cs → k ≤ 9 → value (take k cs) < max_n_one
value-take-lt k cs d h =
    let l = length-take k cs in
    let b = value-lt (take k cs) (IsDigits-take k cs d) in
    omega (arith, tens_mono (length (take k cs)) 9 (omega arith))

pub chunk_values-Digits : (n : ℕ) (cs : List ℕ) → IsDigits cs → Digits (chunk_values n cs)
chunk_values-Digits zero cs d = tt
chunk_values-Digits (suc n) cs d = (
  value-take-lt 9 cs d (omega arith),
  chunk_values-Digits n (drop max_digits cs) (IsDigits-drop max_digits cs d),
)

digit_gt : (c : ℕ) → is_digit c ≡ true → c ≢ char_zero → 0 < c - char_zero
digit_gt c h n = ground (arith, n)

pos_of : (d t v : ℕ) → 0 < d → 0 < t → 0 < d * t + v
pos_of d t v h k = grind arith

pub value-take_pos : (k : ℕ) (cs : List ℕ) → IsDigits cs → Leads cs → 0 < k → 0 < value (take k cs)
value-take_pos zero cs d l h = absurd (omega arith)
value-take_pos (suc k) [] d l h = absurd (omega arith)
value-take_pos (suc k) (c ∷ cs) d l h =
    let w = tens_pos (length (take k cs)) in
    let g = digit_gt c d.0 l in
    pos_of (c - char_zero) (tens (length (take k cs))) (value (take k cs)) g w

-- Limbs that are all set, after the first.
abbrev pub set_limbs : List ℕ → Limbs
set_limbs xs = record { head = map some xs; check_zero = false; zero_count = 0 }

map-append : (xs : List ℕ) (x : ℕ) → map some xs ++ some x ∷ [] ≡ map some (xs ++ x ∷ [])
map-append [] x = refl
map-append (y ∷ xs) x = ap (λ zs. some y ∷ zs) (map-append xs x)

pub put-first : (x : ℕ) → 0 < x → put (pos x) no_limbs ≡ set_limbs (x ∷ [])
unfolding put
put-first x h = let e : (x == 0) ≡ false = ground arith in rw e refl

put-next : (x : ℕ) (xs : List ℕ) → put (pos x) (set_limbs xs) ≡ set_limbs (xs ++ x ∷ [])
unfolding put
put-next x xs = rw (map-append xs x) refl

pub put_chunks-values :
    (n : ℕ) (cs : List ℕ) (xs : List ℕ)
    → IsDigits cs
    → put_chunks n cs (set_limbs xs) ≡ set_limbs (xs ++ chunk_values n cs)
unfolding put_chunks
put_chunks-values zero cs xs d = rw (append-nil xs) refl
put_chunks-values (suc n) cs xs d =
    rw
      (
        atoi-value (take max_digits cs) (IsDigits-take max_digits cs d),
        put-next (value (take max_digits cs)) xs,
      )
      (put_chunks-values n (drop max_digits cs) (xs ++ value (take max_digits cs) ∷ [])
          (IsDigits-drop max_digits cs d)
        ∙ rw
            (append_assoc xs (value (take max_digits cs) ∷ [])
              (chunk_values n (drop max_digits cs)))
            refl)
