-- ===== src/BigInt/Subtract.antt =====
-- add_diff of bigint.c on numbers as integers.
use code_snippets.Prelude.Int.{pos}
use mathlib.Core.Path.{subst}
use code_snippets.BigInt.Arith.{low_of_nil, block-Made, Made}
use code_snippets.BigInt.Limbs.{
  high-lt-weight, weight, Digits-reverse, low-reverse, length-limbs, length-reverse, high, Digits,
  magnitude, IsValid,
}
use code_snippets.BigInt.{with_sign, is_neg, big, limbs, size, BigInt}
use code_snippets.BigInt.Ops.{sub_rest, add_diff, sub_finish, diff_start, Diff, last_ints}
use code_snippets.Prelude.{
  ◌≢◌, ◌∙◌, ◌&&◌, true, sym, get_or, false, ◌⊎◌, ◌≤◌, ◌≡◌, ◌∷◌, ◌==◌, ◌<◌, ◌-◌, ◌+◌, ◌*◌, ℕ, zero,
  suc, reverse, refl, length, inr, inl, if◌then◌else◌, arith, ap, [], Returns-Option-map, Returns,
  List, Bool-cases, Bool, ==_iff,
}
use code_snippets.BigInt.Diff.{
  sub_rest-Rest, last_ints-strip, strip-head, Digits-strip, sub_both-Returns, high-strip, Both,
  Tracks, strip,
}

last_ints-zero : (xs : List ℕ) → 0 < length xs → strip xs ≡ [] → last_ints 1 xs ≡ 0 ∷ []
unfolding last_ints
last_ints-zero [] h e = absurd (omega arith)
last_ints-zero (x ∷ []) h e = ground arith
last_ints-zero (x ∷ y ∷ ys) h e =
    let shift : suc (suc (length ys)) - 1 ≡ suc (suc (length ys) - 1) = omega arith in
    let rest : strip (y ∷ ys) ≡ [] = tail_zero x (y ∷ ys) e in
    rw shift (last_ints-zero (y ∷ ys) (omega arith) rest)
  where
    tail_zero : (x : ℕ) (zs : List ℕ) → strip (x ∷ zs) ≡ [] → strip zs ≡ []
    tail_zero x zs e = elim (Bool-cases (x == 0)) [
      | inl f ↦ rw f at e
      | inr f ↦ cons_nil (rw f at e)
    ]
      where
        cons_nil : {zs : List ℕ} → x ∷ zs ≡ [] → strip zs ≡ []
        cons_nil e = cc

strip-cases : (xs : List ℕ) → (strip xs ≡ []) ⊎ (0 < length (strip xs))
strip-cases xs = go (strip xs) refl
  where
    go : (ys : List ℕ) → strip xs ≡ ys → (strip xs ≡ []) ⊎ (0 < length (strip xs))
    go [] e = inl e
    go (y ∷ ys) e = inr (rw e (omega arith))

and_false : (b : Bool) → (b && false) ≡ false
and_false true = refl
and_false false = refl

-- The three ends of sub_finish.
module _ (negative : Bool) (s : Diff) where
  finish_all_zero :
      s.zero_run ≡ true
      → s.z_ptr ≡ suc (length (strip s.answer))
      → 0 < length s.answer
      → strip s.answer ≡ []
      → sub_finish negative s ≡ big (0 ∷ []) (pos 1)
  unfolding sub_finish
  finish_all_zero run z h e = rw (run, z, e, last_ints-zero s.answer h e)

  finish_stripped :
      s.zero_run ≡ true
      → s.z_ptr ≡ suc (length (strip s.answer))
      → 0 < length (strip s.answer)
      → sub_finish negative s ≡ big (strip s.answer) (with_sign negative (length (strip s.answer)))
  unfolding sub_finish
  finish_stripped run z h =
      let more : (suc (length (strip s.answer)) == 1) ≡ false = ground arith in
      let one_less : suc (length (strip s.answer)) - 1 ≡ length (strip s.answer) = omega arith in
      let first : (get_or (strip s.answer) 0 0 == 0) ≡ false = not_zero (strip-head s.answer h) in
      rw (
        run,
        z,
        more,
        one_less,
        last_ints-strip s.answer,
        first,
        and_false (length (strip s.answer) == 1),
      )
    where
      not_zero : {k : ℕ} → k ≢ 0 → (k == 0) ≡ false
      not_zero h = ground arith

  finish_plain :
      s.zero_run ≡ false
      → sub_finish negative s ≡ big s.answer (with_sign negative (length s.answer))
  unfolding sub_finish
  finish_plain run = rw run

module _ {l r : BigInt} (vl : IsValid l) (vr : IsValid r) (n : size r ≤ size l)
    (m : magnitude r ≤ magnitude l) where
  -- What both loops of add_diff leave.
  record Taken (s : Diff) : Type 0 where
    value : high s.answer ≡ magnitude l - magnitude r
    longer : length s.answer ≡ size l
    digits : Digits s.answer
    tracks : Tracks s

  start : Tracks diff_start
  start = record { in_run = λ e. cc; no_run = λ e. refl }

  -- The last borrow is 0, since the result is not negative.
  no_borrow :
      (h b w : ℕ)
      → h + magnitude r ≡ magnitude l + b * w
      → h < w
      → b ≤ 1
      → h ≡ magnitude l - magnitude r
  no_borrow h zero w e k c = omega arith
  no_borrow h (suc zero) w e k c = absurd (omega arith)
  no_borrow h (suc (suc b)) w e k c = absurd (omega arith)

  Taken-Both :
      (out : List ℕ × Diff)
      → Both (reverse (limbs l)) (reverse (limbs r)) diff_start out
      → Taken (if size l == size r then out.1 else sub_rest out.0 out.1)
  Taken-Both out b =
      let ll = length-reverse (limbs l) in
      let lr = length-reverse (limbs r) in
      let nl = length-limbs vl in
      let nr = length-limbs vr in
      let lowl = low-reverse (limbs l) in
      let lowr = low-reverse (limbs r) in
      let d = b.digits tt in
      elim (Bool-cases (size l == size r)) [
        | inl e ↦
            let same = (==_iff _ _).0 e in
            let none_left = low_of_nil out.0 (omega (arith, b.rest)) in
            rw e (record {
              value =
                  no_borrow (high out.1.answer) out.1.borrow (weight (length out.1.answer))
                    (omega (arith, b.value, ap (λ t. t * weight (length out.1.answer)) none_left))
                    (high-lt-weight out.1.answer d) b.borrow;
              longer = omega (arith, b.longer);
              digits = d;
              tracks = b.tracks start;
            })
        | inr e ↦
            let s = sub_rest-Rest out.0 out.1 b.unread b.borrow in
            let t = sub_rest out.0 out.1 in
            rw e (record {
              value =
                  no_borrow (high t.answer) t.borrow (weight (length t.answer))
                    (omega (arith, b.value, s.value)) (high-lt-weight t.answer (s.digits d))
                    s.borrow;
              longer = omega (arith, b.longer, b.rest, s.longer);
              digits = s.digits d;
              tracks = s.tracks (b.tracks start);
            })
      ]

  -- The block that begins behind the zeros.
  stripped-Made :
      (negative : Bool) (xs : List ℕ)
      → Digits xs
      → 0 < length (strip xs)
      → Made negative (high xs) (big (strip xs) (with_sign negative (length (strip xs))))
  stripped-Made negative xs d h =
      rw (← (high-strip xs))
        (block-Made negative (strip xs) h (Digits-strip xs d) (λ e. absurd (strip-head xs h e)))

  zero-Made : (negative : Bool) → Made negative 0 (big (0 ∷ []) (pos 1))
  zero-Made negative =
      let z = block-Made false (0 ∷ []) (omega arith) (omega arith, tt) (λ e. refl) in
      record { valid = z.valid; value = z.value ∙ no_sign negative }
    where
      no_sign : (b : Bool) → with_sign false 0 ≡ with_sign b 0
      no_sign true = refl
      no_sign false = refl

  sub_finish-Made :
      (negative : Bool) (s : Diff)
      → Taken s
      → Made negative (magnitude l - magnitude r) (sub_finish negative s)
  sub_finish-Made negative s h = elim (Bool-cases s.zero_run) [
    | inl run ↦ elim (strip-cases s.answer) [
      | inl e ↦
          let zero_value : high s.answer ≡ 0 = sym (high-strip s.answer) ∙ ap high e in
          rw
            (
              finish_all_zero negative s run (h.tracks.in_run run)
                  (omega (arith, h.longer, vl.sized)) e,
              ← h.value,
              zero_value,
            )
            (zero-Made negative)
      | inr e ↦
          rw (finish_stripped negative s run (h.tracks.in_run run) e, ← h.value)
            (stripped-Made negative s.answer h.digits e)
    ]
    | inr run ↦
        let e = h.tracks.no_run run in
        rw (finish_plain negative s run, ← h.value)
          (subst (λ xs. Made negative (high s.answer) (big xs (with_sign negative (length xs)))) e
            (stripped-Made negative s.answer h.digits
              (omega (arith, h.longer, vl.sized, ap length e))))
  ]

  -- add_diff subtracts the magnitudes and keeps the sign of its left operand.
  pub add_diff-Made : Returns (Made (is_neg l) (magnitude l - magnitude r)) (add_diff l r)
  unfolding add_diff
  add_diff-Made =
      let ll = length-reverse (limbs l) in
      let lr = length-reverse (limbs r) in
      Returns-Option-map _
        (sub_both-Returns (reverse (limbs l)) (reverse (limbs r)) diff_start
          (Digits-reverse (limbs l) vl.digits) (Digits-reverse (limbs r) vr.digits) (omega arith)
          (omega (arith, length-limbs vl, length-limbs vr)))
        (λ out b. sub_finish-Made (is_neg l) _ (Taken-Both out b))
