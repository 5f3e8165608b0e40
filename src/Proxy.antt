-- ===== src/Proxy.antt =====
-- The proxy transmission: proxy-transmission/ProxyTransmission.c, with DEBUG 0. A buffer is the
-- chars from its start, of which the rest of its bytes are 0; what fprintf writes of it ends before
-- the first 0. The lines that fgets returns are an argument.
pub mod Records
pub mod Main
pub mod Columns
pub mod History
pub mod Accept
mod Tests
use code_snippets.Prelude.{
  ◌∷◌, ◌==◌, ℕ, zero, suc, reverse, replicate, if◌then◌else◌, get_or, drop, [], List, Bool,
}

abbrev pub delimiter : ℕ
delimiter = 44

abbrev pub space : ℕ
space = 32

abbrev pub date_separator : ℕ
date_separator = 47

-- A column of a record: its entries in the arrays length, trailing_sign and date.
pub record Field : Type 0 where
  pub length : ℕ
  pub trailing_sign : Bool
  pub date : Bool

-- strncpy: n chars, those after the end of the string 0.
unfoldable pub strncpy : ℕ → List ℕ → List ℕ
strncpy zero p = []
strncpy (suc n) [] = 0 ∷ strncpy n []
strncpy (suc n) (c ∷ cs) =
    let rest = strncpy n cs in if c == 0 then replicate (suc n) 0 else c ∷ rest

-- Chars that are written after those of `q`, which has the last char first.
unfoldable pub write : List ℕ → List ℕ → List ℕ
write q [] = q
write q (c ∷ cs) = write (c ∷ q) cs

-- The two digits of the century, then the date's year, month and day.
unfoldable pub copy_date : List ℕ → List ℕ → List ℕ → List ℕ
unfolding strncpy write
copy_date yy p q =
    write
      (date_separator
        ∷ write (date_separator ∷ write (write q (strncpy 2 yy)) (strncpy 2 p))
            (strncpy 2 (drop 2 p)))
      (strncpy 2 (drop 4 p))

-- Copy a field that is not empty: what is left of the source, and the destination.
unfoldable pub copy_field : Field → List ℕ → List ℕ → List ℕ → List ℕ × List ℕ
unfolding copy_date strncpy write
copy_field f yy p q =
    if get_or p 0 0 == 0
    then (p, q)
    else if f.date
    then (drop 6 p, copy_date yy p q)
    else (drop f.length p, write q (strncpy f.length p))

unfoldable pub strip_spaces : List ℕ → List ℕ
strip_spaces [] = []
strip_spaces (c ∷ q) = let rest = strip_spaces q in if c == space then rest else c ∷ q

-- Strip the trailing sign and spaces, and end the field.
unfoldable pub end_field : Field → List ℕ → List ℕ
unfolding strip_spaces
end_field f q = delimiter ∷ strip_spaces (if f.trailing_sign then drop 1 q else q)

-- delimit over the fields before the first of length 0.
unfoldable pub delimit_from : List ℕ → List ℕ → List Field → List ℕ → List ℕ
unfolding copy_field end_field
delimit_from yy p [] q = q
delimit_from yy p (f ∷ fs) q =
    let (rest, copied) = copy_field f yy p q in delimit_from yy rest fs (end_field f copied)

-- delimit: what it leaves in the destination.
unfoldable pub delimit : List ℕ → List ℕ → List Field → List ℕ
unfolding delimit_from
delimit source yy fields = reverse (delimit_from yy source fields [])

-- The chars of a buffer before its terminator.
unfoldable pub string : List ℕ → List ℕ
string [] = []
string (c ∷ cs) = let rest = string cs in if c == 0 then [] else c ∷ rest
