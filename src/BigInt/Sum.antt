-- ===== src/BigInt/Sum.antt =====
-- The loops of add_same and what they write.
use code_snippets.BigInt.Ops.{add_rest, add_both, add_digit}
use code_snippets.BigInt.{max_n_one}
use code_snippets.BigInt.Limbs.{low, Digits, weight, high}
use code_snippets.Prelude.{
  ◌∷◌, returns, [], Returns-map, Returns, ◌==◌, ◌/◌, ◌%◌, refl, if◌then◌else◌, arith, ap, ◌≤◌, ◌≡◌,
  ◌^◌, ◌<◌, ◌+◌, ◌*◌, ℕ, suc, length, List,
}

-- What a loop of add_same has written with its carry, above the limbs `answer` that it began with.
abbrev pub added : List ℕ × ℕ → ℕ
added (answer, carry) = high answer + carry * weight (length answer)

-- One round: limbs below the base and a carry of at most 1 give a limb below the base and a carry
-- of at most 1, and the C sum stays below 2^31.
pub record Round (l r : ℕ) (s t : List ℕ × ℕ) : Type 0 where
  pub value : added t ≡ added s + (l + r) * weight (length s.0)
  pub longer : length t.0 ≡ suc (length s.0)
  pub carry : t.1 ≤ 1
  pub digits : Digits s.0 → Digits t.0
  pub fits : l + r + s.1 < 2 ^ 31

add_digit-split :
    (l r c : ℕ)
    → let s = l + r + c in
      (if s / max_n_one == 0 then s else s % max_n_one) + max_n_one * (s / max_n_one) ≡ s
add_digit-split l r c = ground arith

add_digit-lt :
    (l r c : ℕ) → let s = l + r + c in (if s / max_n_one == 0 then s else s % max_n_one) < max_n_one
add_digit-lt l r c = ground arith

pub add_digit-Round :
    (l r : ℕ) (s : List ℕ × ℕ)
    → l < max_n_one
    → r < max_n_one
    → s.1 ≤ 1
    → Round l r s (add_digit l r s)
unfolding add_digit
add_digit-Round l r (answer, c) hl hr hc =
    let w = weight (length answer) in
    record {
      value = omega (arith, ap (λ t. t * w) (add_digit-split l r c));
      longer = refl;
      carry = omega arith;
      digits = λ h. (add_digit-lt l r c, h);
      fits = omega arith;
    }

-- What add_both returns: the left limbs not yet read, and the limbs written.
pub record Both (ls rs : List ℕ) (s : List ℕ × ℕ) (out : List ℕ × List ℕ × ℕ) : Type 0 where
  pub value :
      added (out.1, out.2) + low out.0 * weight (length out.1)
      ≡ added s + (low ls + low rs) * weight (length s.0)
  pub longer : length out.1 ≡ length s.0 + length rs
  pub rest : length out.0 + length rs ≡ length ls
  pub unread : Digits out.0
  pub carry : out.2 ≤ 1
  pub digits : Digits s.0 → Digits out.1

Both-step :
    (l r : ℕ) (ls rs : List ℕ) (s t : List ℕ × ℕ) (out : List ℕ × List ℕ × ℕ)
    → Round l r s t
    → Both ls rs t out
    → Both (l ∷ ls) (r ∷ rs) s out
Both-step l r ls rs s t out h b =
    let w = weight (length s.0) in
    let up : weight (length t.0) ≡ max_n_one * w = rw h.longer in
    record {
      value = omega (arith, b.value, h.value, ap (λ x. (low ls + low rs) * x) up);
      longer = omega (arith, b.longer, h.longer);
      rest = omega (arith, b.rest);
      unread = b.unread;
      carry = b.carry;
      digits = λ d. b.digits (h.digits d);
    }

pub add_both-Returns :
    (ls rs : List ℕ) (s : List ℕ × ℕ)
    → Digits ls
    → Digits rs
    → s.1 ≤ 1
    → length rs ≤ length ls
    → Returns (Both ls rs s) (add_both ls rs s)
unfolding add_both
add_both-Returns ls [] s hl hr hc n =
    returns (ls, s.0, s.1)
      (record {
        value = omega arith;
        longer = omega arith;
        rest = omega arith;
        unread = hl;
        carry = hc;
        digits = λ d. d;
      })
add_both-Returns [] (r ∷ rs) s hl hr hc n = absurd (omega arith)
add_both-Returns (l ∷ ls) (r ∷ rs) s hl hr hc n =
    let h = add_digit-Round l r s hl.0 hr.0 hc in
    Returns-map (add_both-Returns ls rs (add_digit l r s) hl.1 hr.1 h.carry (omega arith))
      (λ out b. Both-step l r ls rs s (add_digit l r s) out h b)

-- What add_rest returns.
pub record Rest (ls : List ℕ) (s t : List ℕ × ℕ) : Type 0 where
  pub value : added t ≡ added s + low ls * weight (length s.0)
  pub longer : length t.0 ≡ length s.0 + length ls
  pub carry : t.1 ≤ 1
  pub digits : Digits s.0 → Digits t.0

pub add_rest-Rest : (ls : List ℕ) (s : List ℕ × ℕ) → Digits ls → s.1 ≤ 1 → Rest ls s (add_rest ls s)
unfolding add_rest
add_rest-Rest [] s hl hc = record {
  value = omega arith;
  longer = omega arith;
  carry = hc;
  digits = λ d. d;
}
add_rest-Rest (l ∷ ls) s hl hc =
    let h = add_digit-Round l 0 s hl.0 (omega arith) hc in
    let b = add_rest-Rest ls (add_digit l 0 s) hl.1 h.carry in
    let up : weight (length (add_digit l 0 s).0) ≡ max_n_one * weight (length s.0) = refl in
    record {
      value = omega (arith, b.value, h.value, ap (λ x. low ls * x) up);
      longer = omega (arith, b.longer, h.longer);
      carry = b.carry;
      digits = λ d. b.digits (h.digits d);
    }
