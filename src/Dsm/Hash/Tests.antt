-- ===== src/Dsm/Hash/Tests.antt =====
-- The hashes of a string of three chars, one of them negative.
use code_snippets.Dsm.Hash.Horner.{hashes-horner, horner}
use code_snippets.Dsm.Hash.Nibble.{hash_pjw-hash_elf}
use code_snippets.Dsm.Hash.{hash_djb, hash_sdbm, hash_bkdr, hash_elf, hash_pjw}
use code_snippets.Prelude.Int.{ℤ, pos, negsuc}
use code_snippets.Prelude.{◌%◌, ◌≡◌, ◌∷◌, ◌^◌, ◌<◌, [], List}

abbrev chars : List ℤ
chars = pos 97 ∷ pos 59 ∷ negsuc 4 ∷ []

hash_pjw-hash_elf_example : (hash_pjw chars ≡ hash_elf chars) × (hash_elf chars < 2 ^ 28)
hash_pjw-hash_elf_example = hash_pjw-hash_elf chars

hashes-horner_example :
    (hash_bkdr chars ≡ horner 131 chars 0 % 2 ^ 31)
    × (hash_sdbm chars ≡ horner 65599 chars 0 % 2 ^ 31)
    × (hash_djb chars ≡ horner 33 chars 5381 % 2 ^ 31)
hashes-horner_example = hashes-horner chars
