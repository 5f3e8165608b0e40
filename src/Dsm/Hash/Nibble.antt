-- ===== src/Dsm/Hash/Nibble.antt =====
-- hash_pjw and hash_elf, which work on the highest nibble of the hash.
use code_snippets.Prelude.Int.{ℤ}
use mathlib.Core.Path.{subst}
use code_snippets.Dsm.Hash.{
  char_u32, shl, low31, u32, hash_elf, elf_loop, hash_pjw, pjw_loop, complement, shr, high_bits,
}
use Prim.Native.Nat.{bit_xor, bit_and}
use code_snippets.Prelude.{
  ◌∷◌, ◌/◌, ◌%◌, sym, inr, inl, ap, [], List, Bool-cases, ◌≡◌, ◌∙◌, ◌^◌, ◌==◌, ◌<◌, ◌-◌, ◌+◌, ◌*◌,
  ◌&&◌, ℕ, zero, true, suc, refl, if◌then◌else◌, arith, Bool, ==_iff,
}
use code_snippets.Prelude.Bits.{bit_and-mask, bit_and-split, bit_xor-split, bit_xor-lt}

-- One round of each on the shifted hash with the char added.
abbrev pjw_round : ℕ → ℕ
pjw_round h =
    let test = bit_and h high_bits in
    if test == 0 then h else bit_and (bit_xor h (shr test 24)) (complement high_bits)

abbrev elf_round : ℕ → ℕ
elf_round h =
    let x = bit_and h 4026531840 in
    if x == 0 then h else bit_and (bit_xor h (shr x 24)) (complement x)

-- What is left of a number with highest nibble `n` and other digits `b`.
abbrev folded : ℕ → ℕ → ℕ
folded n b = bit_xor b (n * 16)

-- A test of every number below a bound.
abbrev passes : (ℕ → Bool) → ℕ → Bool
passes test zero = true
passes test (suc bound) = passes test bound && test bound

passes-lem : (test : ℕ → Bool) (bound k : ℕ) → k < bound → passes test bound ≡ true → test k ≡ true
passes-lem test zero k below h = absurd (omega arith)
passes-lem test (suc bound) k below h = ground (arith, passes-lem test bound k)

-- The operations on the highest nibble.
nibble_and : (n : ℕ) → n < 16 → bit_and n 15 ≡ n
nibble_and n h = (==_iff _ n).0 (passes-lem (λ x. bit_and x 15 == x) 16 n h refl)

nibble_clear : (n : ℕ) → n < 16 → bit_and n (15 - n) ≡ 0
nibble_clear n h = (==_iff _ 0).0 (passes-lem (λ x. bit_and x (15 - x) == 0) 16 n h refl)

nibble_none : (n : ℕ) → n < 16 → bit_and n 0 ≡ 0
nibble_none n h = (==_iff _ 0).0 (passes-lem (λ x. bit_and x 0 == 0) 16 n h refl)

nibble_same : (n : ℕ) → n < 16 → bit_xor n 0 ≡ n
nibble_same n h = (==_iff _ n).0 (passes-lem (λ x. bit_xor x 0 == x) 16 n h refl)

module _ (n b : ℕ) (hn : n < 16) (hb : b < 2 ^ 28) where
  test-lem : bit_and (n * 2 ^ 28 + b) 4026531840 ≡ n * 2 ^ 28
  test-lem =
      bit_and-split 28 n b 15 0 hb (omega arith) ∙ omega (arith, nibble_and n hn, bit_and-mask 0 b)

  fold-lem : bit_xor (n * 2 ^ 28 + b) (n * 16) ≡ n * 2 ^ 28 + folded n b
  fold-lem =
      let shifted : 0 * 2 ^ 28 + n * 16 ≡ n * 16 = omega arith in
      let split = bit_xor-split 28 n b 0 (n * 16) hb (omega arith) in
      rw (shifted, nibble_same n hn) at split

  folded-lt : folded n b < 2 ^ 28
  folded-lt = bit_xor-lt 28 b (n * 16) hb (omega arith)

  pjw_clear : bit_and (n * 2 ^ 28 + folded n b) (complement high_bits) ≡ folded n b
  pjw_clear =
      bit_and-split 28 n (folded n b) 0 (2 ^ 28 - 1) folded-lt (omega arith)
      ∙ omega (arith, nibble_none n hn, bit_and-mask 28 (folded n b), folded-lt)

  elf_clear : bit_and (n * 2 ^ 28 + folded n b) (complement (n * 2 ^ 28)) ≡ folded n b
  elf_clear =
      let mask : complement (n * 2 ^ 28) ≡ (15 - n) * 2 ^ 28 + (2 ^ 28 - 1) = omega arith in
      rw mask (
        bit_and-split 28 n (folded n b) (15 - n) (2 ^ 28 - 1) folded-lt (omega arith)
        ∙ omega (arith, nibble_clear n hn, bit_and-mask 28 (folded n b), folded-lt))

  rounds :
      (pjw_round (n * 2 ^ 28 + b) ≡ elf_round (n * 2 ^ 28 + b))
      × (elf_round (n * 2 ^ 28 + b) < 2 ^ 28)
  rounds =
      let moved : n * 2 ^ 28 / 2 ^ 24 ≡ n * 16 = omega arith in
      elim (Bool-cases (n * 2 ^ 28 == 0)) [
        | inl e ↦ rw (test-lem, e) (refl, ground arith)
        | inr e ↦ rw (test-lem, e, moved, fold-lem, pjw_clear, elf_clear) (refl, folded-lt)
      ]

round-lem : (h : ℕ) → h < 2 ^ 32 → (pjw_round h ≡ elf_round h) × (elf_round h < 2 ^ 28)
round-lem h k =
    let split : h ≡ h / 2 ^ 28 * 2 ^ 28 + h % 2 ^ 28 = omega arith in
    subst (λ x. (pjw_round x ≡ elf_round x) × (elf_round x < 2 ^ 28)) (sym split)
      (rounds (h / 2 ^ 28) (h % 2 ^ 28) (omega arith) (omega arith))

loops : (s : List ℤ) (h : ℕ) → h < 2 ^ 28 → (pjw_loop s h ≡ elf_loop s h) × (elf_loop s h < 2 ^ 28)
unfolding pjw_loop elf_loop
loops [] h k = (refl, k)
loops (c ∷ cs) h k =
    let next = u32 (shl h 4 + char_u32 c) in
    let (same, below) = round-lem next (omega arith) in
    let (rest, end) = loops cs (elf_round next) below in (ap (pjw_loop cs) same ∙ rest, end)

-- The PJW and the ELF hash of every string are the same, and lie below 2^28: after every char the
-- highest nibble is clear.
pub hash_pjw-hash_elf : (s : List ℤ) → (hash_pjw s ≡ hash_elf s) × (hash_elf s < 2 ^ 28)
unfolding hash_pjw hash_elf
hash_pjw-hash_elf s =
    let (same, below) = loops s 0 (omega arith) in
    (ap low31 same, omega (arith, below, bit_and-mask 31 (elf_loop s 0)))
