-- ===== src/BigInt/Diff.antt =====
-- The loops of add_diff and the limbs that they leave.
use code_snippets.BigInt.{max_n_one}
use code_snippets.BigInt.Ops.{sub_rest, sub_both, sub_digit, Diff, last_ints}
use code_snippets.BigInt.Limbs.{low, weight, Digits, high}
use code_snippets.Prelude.{
  ◌+◌, ◌&&◌, returns, not, ltb, Returns-map, Returns, Bool, ==_iff, ◌≤◌, ◌≢◌, ◌≡◌, ◌∷◌, ◌==◌, ◌<◌,
  ◌-◌, ◌*◌, ℕ, true, suc, refl, length, inr, inl, if◌then◌else◌, get_or, false, arith, ap, [], List,
  Bool-cases,
}

-- A list of limbs without the zeros in front.
abbrev pub strip : List ℕ → List ℕ
strip [] = []
strip (x ∷ xs) = if x == 0 then strip xs else x ∷ xs

pub high-strip : (xs : List ℕ) → high (strip xs) ≡ high xs
high-strip [] = refl
high-strip (x ∷ xs) = elim (Bool-cases (x == 0)) [
  | inl e ↦ rw e (omega (arith, high-strip xs, ap (λ t. t * weight (length xs)) ((==_iff x 0).0 e)))
  | inr e ↦ rw e
]

pub length-strip-le : (xs : List ℕ) → length (strip xs) ≤ length xs
length-strip-le [] = omega arith
length-strip-le (x ∷ xs) = ground (arith, length-strip-le xs)

pub Digits-strip : (xs : List ℕ) → Digits xs → Digits (strip xs)
Digits-strip [] h = h
Digits-strip (x ∷ xs) h = ground (arith, Digits-strip xs)

-- The first limb behind the zeros is not zero.
pub strip-head : (xs : List ℕ) → 0 < length (strip xs) → get_or (strip xs) 0 0 ≢ 0
strip-head [] h = absurd (omega arith)
strip-head (x ∷ xs) h = ground (arith, strip-head xs)

pub last_ints-strip : (xs : List ℕ) → last_ints (length (strip xs)) xs ≡ strip xs
unfolding last_ints
last_ints-strip [] = refl
last_ints-strip (x ∷ xs) = elim (Bool-cases (x == 0)) [
  | inl e ↦
      let shift : suc (length xs) - length (strip xs) ≡ suc (length xs - length (strip xs)) =
        omega (arith, length-strip-le xs) in
      rw (e, shift) (last_ints-strip xs)
  | inr e ↦
      let none_dropped : suc (length xs) - suc (length xs) ≡ 0 = omega arith in rw (e, none_dropped)
]

-- `zero_run` says whether the limbs written begin with a zero, and `z_ptr` where that run of zeros
-- ends.
pub record Tracks (s : Diff) : Type 0 where
  pub in_run : s.zero_run ≡ true → s.z_ptr ≡ suc (length (strip s.answer))
  pub no_run : s.zero_run ≡ false → strip s.answer ≡ s.answer

track :
    (d : ℕ) (run : Bool) (z : ℕ) (answer : List ℕ)
    → (run ≡ true → z ≡ suc (length (strip answer)))
    → (run ≡ false → strip answer ≡ answer)
    → ((d == 0) ≡ true
        → (if (d == 0) && not run then suc (length answer) else z)
          ≡ suc (length (strip (d ∷ answer))))
      × ((d == 0) ≡ false → strip (d ∷ answer) ≡ d ∷ answer)
track d true z answer h k = (λ e. rw (e) (h refl), λ e. rw e)
track d false z answer h k = (λ e. rw (e, k refl), λ e. rw e)

pub sub_digit-Tracks : (l r : ℕ) (s : Diff) → Tracks s → Tracks (sub_digit l r s)
unfolding sub_digit
sub_digit-Tracks l r s h =
    let (in_run, no_run) =
      track (get_or (sub_digit l r s).answer 0 0) s.zero_run s.z_ptr s.answer h.in_run h.no_run in
    record { in_run = in_run; no_run = no_run }

-- One round: limb, borrow and what is left to pay are as in subtraction by hand.
pub record Round (l r : ℕ) (s t : Diff) : Type 0 where
  pub value :
      high t.answer + (r + s.borrow) * weight (length s.answer)
      ≡ high s.answer + (l + max_n_one * t.borrow) * weight (length s.answer)
  pub longer : length t.answer ≡ suc (length s.answer)
  pub borrow : t.borrow ≤ 1
  pub digits : Digits s.answer → Digits t.answer
  pub tracks : Tracks s → Tracks t

digit-split :
    (l r : ℕ)
    → l < max_n_one
    → r ≤ max_n_one
    → let d = if ltb l r then l + max_n_one - r else l - r in
      (d + r ≡ l + max_n_one * (if ltb l r then 1 else 0)) × (d < max_n_one)
digit-split l r hl hr = ground arith

pub sub_digit-Round :
    (l r : ℕ) (s : Diff)
    → l < max_n_one
    → r < max_n_one
    → s.borrow ≤ 1
    → Round l r s (sub_digit l r s)
unfolding sub_digit
sub_digit-Round l r s hl hr hb =
    let (split, below) = digit-split l (r + s.borrow) hl (omega arith) in
    record {
      value = omega (arith, ap (λ t. t * weight (length s.answer)) split);
      longer = refl;
      borrow = ground arith;
      digits = λ h. (below, h);
      tracks = sub_digit-Tracks l r s;
    }

-- What sub_both returns: the left limbs not yet read, and the variables of the loop.
pub record Both (ls rs : List ℕ) (s : Diff) (out : List ℕ × Diff) : Type 0 where
  pub value :
      high out.1.answer
        + low out.0 * weight (length out.1.answer)
        + (low rs + s.borrow) * weight (length s.answer)
      ≡ high s.answer
        + low ls * weight (length s.answer)
        + out.1.borrow * weight (length out.1.answer)
  pub longer : length out.1.answer ≡ length s.answer + length rs
  pub rest : length out.0 + length rs ≡ length ls
  pub unread : Digits out.0
  pub borrow : out.1.borrow ≤ 1
  pub digits : Digits s.answer → Digits out.1.answer
  pub tracks : Tracks s → Tracks out.1

Both-step :
    (l r : ℕ) (ls rs : List ℕ) (s t : Diff) (out : List ℕ × Diff)
    → Round l r s t
    → Both ls rs t out
    → Both (l ∷ ls) (r ∷ rs) s out
Both-step l r ls rs s t out h b =
    let w = weight (length s.answer) in
    let up : weight (length t.answer) ≡ max_n_one * w = rw h.longer in
    record {
      value =
          omega (
            arith,
            b.value,
            h.value,
            ap (λ x. (low rs + t.borrow) * x) up,
            ap (λ x. low ls * x) up,
          );
      longer = omega (arith, b.longer, h.longer);
      rest = omega (arith, b.rest);
      unread = b.unread;
      borrow = b.borrow;
      digits = λ d. b.digits (h.digits d);
      tracks = λ d. b.tracks (h.tracks d);
    }

pub sub_both-Returns :
    (ls rs : List ℕ) (s : Diff)
    → Digits ls
    → Digits rs
    → s.borrow ≤ 1
    → length rs ≤ length ls
    → Returns (Both ls rs s) (sub_both ls rs s)
unfolding sub_both
sub_both-Returns ls [] s hl hr hc n =
    returns (ls, s)
      (record {
        value = omega arith;
        longer = omega arith;
        rest = omega arith;
        unread = hl;
        borrow = hc;
        digits = λ d. d;
        tracks = λ d. d;
      })
sub_both-Returns [] (r ∷ rs) s hl hr hc n = absurd (omega arith)
sub_both-Returns (l ∷ ls) (r ∷ rs) s hl hr hc n =
    let h = sub_digit-Round l r s hl.0 hr.0 hc in
    Returns-map (sub_both-Returns ls rs (sub_digit l r s) hl.1 hr.1 h.borrow (omega arith))
      (λ out b. Both-step l r ls rs s (sub_digit l r s) out h b)

-- What sub_rest returns.
pub record Rest (ls : List ℕ) (s t : Diff) : Type 0 where
  pub value :
      high t.answer + s.borrow * weight (length s.answer)
      ≡ high s.answer + low ls * weight (length s.answer) + t.borrow * weight (length t.answer)
  pub longer : length t.answer ≡ length s.answer + length ls
  pub borrow : t.borrow ≤ 1
  pub digits : Digits s.answer → Digits t.answer
  pub tracks : Tracks s → Tracks t

Rest-value :
    (l : ℕ) (ls : List ℕ) (s t u : Diff)
    → Round l 0 s t
    → high u.answer + t.borrow * weight (length t.answer)
      ≡ high t.answer + low ls * weight (length t.answer) + u.borrow * weight (length u.answer)
    → high u.answer + s.borrow * weight (length s.answer)
      ≡ high s.answer
        + low (l ∷ ls) * weight (length s.answer)
        + u.borrow * weight (length u.answer)
Rest-value l ls s t u h b =
    let up : weight (length t.answer) ≡ max_n_one * weight (length s.answer) = rw h.longer in
    omega (arith, b, h.value, ap (λ x. t.borrow * x) up, ap (λ x. low ls * x) up)

pub sub_rest-Rest : (ls : List ℕ) (s : Diff) → Digits ls → s.borrow ≤ 1 → Rest ls s (sub_rest ls s)
unfolding sub_rest
sub_rest-Rest [] s hl hc = record {
  value = omega arith;
  longer = omega arith;
  borrow = hc;
  digits = λ d. d;
  tracks = λ d. d;
}
sub_rest-Rest (l ∷ ls) s hl hc =
    let t = sub_digit l 0 s in
    let h = sub_digit-Round l 0 s hl.0 (omega arith) hc in
    let b = sub_rest-Rest ls t hl.1 h.borrow in
    record {
      value = Rest-value l ls s t (sub_rest ls t) h b.value;
      longer = omega (arith, b.longer, h.longer);
      borrow = b.borrow;
      digits = λ d. b.digits (h.digits d);
      tracks = λ d. b.tracks (h.tracks d);
    }
