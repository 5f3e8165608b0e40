-- ===== src/Dsm/Hash.antt =====
-- The hash functions of dsm_main.c over unsigned ints of 32 bits. A string is the list of the
-- values of its first `length` chars, which are signed.
pub mod Horner
pub mod Nibble
mod Tests
use code_snippets.Prelude.{◌∷◌, ◌^◌, ◌==◌, ◌/◌, ◌-◌, ◌+◌, ◌*◌, ◌%◌, ℕ, suc, if◌then◌else◌, [], List}
use Prim.Native.Nat.{bit_and, bit_xor}
use code_snippets.Prelude.Int.{ℤ, pos, negsuc}

abbrev pub u32 : ℕ → ℕ
u32 n = n % 2 ^ 32

-- A char converted to uint.
abbrev pub char_u32 : ℤ → ℕ
char_u32 (pos c) = u32 c
char_u32 (negsuc c) = 2 ^ 32 - 1 - u32 c

abbrev pub shl : ℕ → ℕ → ℕ
shl a k = u32 (a * 2 ^ k)

abbrev pub shr : ℕ → ℕ → ℕ
shr a k = a / 2 ^ k

abbrev pub complement : ℕ → ℕ
complement a = 2 ^ 32 - 1 - a

-- hash & 0x7FFFFFFF
abbrev pub low31 : ℕ → ℕ
low31 hash = bit_and hash (2 ^ 31 - 1)

-- The loop of hash_rs, with its variables hash and a.
unfoldable pub rs_loop : List ℤ → ℕ → ℕ → ℕ
rs_loop [] hash a = hash
rs_loop (c ∷ cs) hash a = rs_loop cs (u32 (u32 (hash * a) + char_u32 c)) (u32 (a * 378551))

unfoldable pub hash_rs : List ℤ → ℕ
unfolding rs_loop
hash_rs s = low31 (rs_loop s 0 63689)

unfoldable pub js_loop : List ℤ → ℕ → ℕ
js_loop [] hash = hash
js_loop (c ∷ cs) hash = js_loop cs (bit_xor hash (u32 (u32 (shl hash 5 + char_u32 c) + shr hash 2)))

unfoldable pub hash_js : List ℤ → ℕ
unfolding js_loop
hash_js s = low31 (js_loop s 1315423911)

-- HighBits
abbrev pub high_bits : ℕ
high_bits = 4026531840

unfoldable pub pjw_loop : List ℤ → ℕ → ℕ
pjw_loop [] hash = hash
pjw_loop (c ∷ cs) hash =
    let h = u32 (shl hash 4 + char_u32 c) in
    let test = bit_and h high_bits in
    pjw_loop cs (if test == 0 then h else bit_and (bit_xor h (shr test 24)) (complement high_bits))

unfoldable pub hash_pjw : List ℤ → ℕ
unfolding pjw_loop
hash_pjw s = low31 (pjw_loop s 0)

unfoldable pub elf_loop : List ℤ → ℕ → ℕ
elf_loop [] hash = hash
elf_loop (c ∷ cs) hash =
    let h = u32 (shl hash 4 + char_u32 c) in
    let x = bit_and h 4026531840 in
    elf_loop cs (if x == 0 then h else bit_and (bit_xor h (shr x 24)) (complement x))

unfoldable pub hash_elf : List ℤ → ℕ
unfolding elf_loop
hash_elf s = low31 (elf_loop s 0)

unfoldable pub bkdr_loop : List ℤ → ℕ → ℕ
bkdr_loop [] hash = hash
bkdr_loop (c ∷ cs) hash = bkdr_loop cs (u32 (u32 (hash * 131) + char_u32 c))

unfoldable pub hash_bkdr : List ℤ → ℕ
unfolding bkdr_loop
hash_bkdr s = low31 (bkdr_loop s 0)

unfoldable pub sdbm_loop : List ℤ → ℕ → ℕ
sdbm_loop [] hash = hash
sdbm_loop (c ∷ cs) hash =
    let sum = u32 (u32 (char_u32 c + shl hash 6) + shl hash 16) in
    sdbm_loop cs (u32 (sum + 2 ^ 32 - hash))

unfoldable pub hash_sdbm : List ℤ → ℕ
unfolding sdbm_loop
hash_sdbm s = low31 (sdbm_loop s 0)

unfoldable pub djb_loop : List ℤ → ℕ → ℕ
djb_loop [] hash = hash
djb_loop (c ∷ cs) hash = djb_loop cs (u32 (u32 (shl hash 5 + hash) + char_u32 c))

unfoldable pub hash_djb : List ℤ → ℕ
unfolding djb_loop
hash_djb s = low31 (djb_loop s 5381)

unfoldable pub dek_loop : List ℤ → ℕ → ℕ
dek_loop [] hash = hash
dek_loop (c ∷ cs) hash = dek_loop cs (bit_xor (bit_xor (shl hash 5) (shr hash 27)) (char_u32 c))

-- `strlen` is what strlen returns for the string.
unfoldable pub hash_dek : ℕ → List ℤ → ℕ
unfolding dek_loop
hash_dek strlen s = low31 (dek_loop s (u32 strlen))

-- The loop of hash_ap, with its counter i.
unfoldable pub ap_loop : List ℤ → ℕ → ℕ → ℕ
ap_loop [] i hash = hash
ap_loop (c ∷ cs) i hash = ap_loop cs (suc i) (
    if bit_and i 1 == 0
    then bit_xor hash (bit_xor (bit_xor (shl hash 7) (char_u32 c)) (shr hash 3))
    else bit_xor hash (complement (bit_xor (bit_xor (shl hash 11) (char_u32 c)) (shr hash 5))))

unfoldable pub hash_ap : List ℤ → ℕ
unfolding ap_loop
hash_ap s = low31 (ap_loop s 0 0)
