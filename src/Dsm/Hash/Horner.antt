-- ===== src/Dsm/Hash/Horner.antt =====
-- hash_bkdr, hash_sdbm and hash_djb against polynomials in the chars.
use code_snippets.Prelude.Bits.{bit_and-mask}
use code_snippets.Dsm.Hash.{
  hash_djb, hash_sdbm, low31, hash_bkdr, u32, djb_loop, sdbm_loop, bkdr_loop, char_u32,
}
use code_snippets.Prelude.Int.{ℤ}
use code_snippets.Prelude.{◌≡◌, ◌∷◌, ◌^◌, ◌+◌, ◌*◌, ◌%◌, ℕ, refl, arith, [], List}

-- The polynomial with these coefficients, the highest first, over unbounded numbers.
abbrev pub horner : ℕ → List ℤ → ℕ → ℕ
horner seed [] h = h
horner seed (c ∷ cs) h = horner seed cs (h * seed + char_u32 c)

bkdr-horner : (s : List ℤ) (h k : ℕ) → h ≡ u32 k → bkdr_loop s h ≡ u32 (horner 131 s k)
unfolding bkdr_loop
bkdr-horner [] h k e = e
bkdr-horner (c ∷ cs) h k e = bkdr-horner cs _ (k * 131 + char_u32 c) (omega arith)

sdbm-horner : (s : List ℤ) (h k : ℕ) → h ≡ u32 k → sdbm_loop s h ≡ u32 (horner 65599 s k)
unfolding sdbm_loop
sdbm-horner [] h k e = e
sdbm-horner (c ∷ cs) h k e = sdbm-horner cs _ (k * 65599 + char_u32 c) (omega arith)

djb-horner : (s : List ℤ) (h k : ℕ) → h ≡ u32 k → djb_loop s h ≡ u32 (horner 33 s k)
unfolding djb_loop
djb-horner [] h k e = e
djb-horner (c ∷ cs) h k e = djb-horner cs _ (k * 33 + char_u32 c) (omega arith)

low31-u32 : (h k : ℕ) → h ≡ u32 k → low31 h ≡ k % 2 ^ 31
low31-u32 h k e = omega (arith, bit_and-mask 31 h)

-- The BKDR, SDBM and DJB hashes are polynomials in the string's chars at 131, 65599 and 33, modulo
-- 2^31; the overflows of the 32-bit loops do not show.
pub hashes-horner :
    (s : List ℤ)
    → (hash_bkdr s ≡ horner 131 s 0 % 2 ^ 31)
      × (hash_sdbm s ≡ horner 65599 s 0 % 2 ^ 31)
      × (hash_djb s ≡ horner 33 s 5381 % 2 ^ 31)
unfolding hash_bkdr hash_sdbm hash_djb
hashes-horner s = (
  low31-u32 _ _ (bkdr-horner s 0 0 refl),
  low31-u32 _ _ (sdbm-horner s 0 0 refl),
  low31-u32 _ _ (djb-horner s 5381 5381 refl),
)
