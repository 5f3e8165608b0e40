-- ===== src/Proxy/Columns.antt =====
-- How many columns delimit writes.
use mathlib.Core.Path.{subst}
use mathlib.Core.List.{reverse-append}
-- The number of delimiters.
use code_snippets.Proxy.{
  delimit, delimit_from, end_field, copy_field, copy_date, date_separator, strip_spaces, strncpy,
  write, Field, delimiter,
}
use code_snippets.Prelude.{
  reverse, ◌∙◌, sym, get_or, ◌≤◌, ◌≡◌, ◌∷◌, ◌==◌, ◌<◌, ◌+◌, ◌++◌, ◌&&◌, ℕ, zero, true, take, suc,
  refl, not, length-drop, length, if◌then◌else◌, false, drop, arith, ap, [], List, Bool,
}

abbrev pub columns : List ℕ → ℕ
columns [] = 0
columns (c ∷ cs) = let rest = columns cs in if c == delimiter then suc rest else rest

-- A char of a field: neither a terminator nor a delimiter.
abbrev pub is_plain : ℕ → Bool
is_plain c = not (c == 0) && not (c == delimiter)

abbrev pub IsPlain : List ℕ → Type 0
IsPlain [] = Unit
IsPlain (c ∷ cs) = (is_plain c ≡ true) × IsPlain cs

-- The chars that a field takes, of a layout too.
abbrev pub width : Field → ℕ
width f = if f.date then 6 else f.length

abbrev pub width_of : List Field → ℕ
width_of [] = 0
width_of (f ∷ fs) = width f + width_of fs

-- Every field takes a char.
abbrev pub IsWide : List Field → Type 0
IsWide [] = Unit
IsWide (f ∷ fs) = (0 < width f) × IsWide fs

-- The text goes on without a terminator or a delimiter for that many chars.
pub record IsFull (n : ℕ) (p : List ℕ) : Type 0 where
  pub long : n ≤ length p
  pub clean : IsPlain (take n p)

columns-append : (xs ys : List ℕ) → columns (xs ++ ys) ≡ columns xs + columns ys
columns-append [] ys = omega arith
columns-append (x ∷ xs) ys = let e = columns-append xs ys in ground arith

IsPlain-parts :
    (k m n : ℕ) (p : List ℕ)
    → k ≡ m + n
    → IsPlain (take k p)
    → IsPlain (take m p) × IsPlain (take n (drop m p))
IsPlain-parts k zero n p e h =
    let same : k ≡ n = omega (arith, e) in (tt, subst (λ i. IsPlain (take i p)) same h)
IsPlain-parts k (suc m) zero [] e h = (tt, tt)
IsPlain-parts k (suc m) (suc n) [] e h = (tt, tt)
IsPlain-parts zero (suc m) n (c ∷ cs) e h = absurd (omega (arith, e))
IsPlain-parts (suc k) (suc m) n (c ∷ cs) e h =
    let (a, b) = IsPlain-parts k m n cs (omega (arith, e)) h.1 in ((h.0, a), b)

pub IsFull-take : (m n : ℕ) (p : List ℕ) → IsFull (m + n) p → IsFull m p
IsFull-take m n p f = record {
  long = omega (arith, f.long);
  clean = (IsPlain-parts (m + n) m n p refl f.clean).0;
}

pub IsFull-drop : (m n : ℕ) (p : List ℕ) → IsFull (m + n) p → IsFull n (drop m p)
IsFull-drop m n p f = record {
  long = omega (arith, f.long, length-drop m p);
  clean = (IsPlain-parts (m + n) m n p refl f.clean).1;
}

-- Chars that are written hold columns and no terminator as before.
write-reverse : (q cs : List ℕ) → columns (write q cs) ≡ columns cs + columns q
unfolding write
write-reverse q [] = omega arith
write-reverse q (c ∷ cs) = let e = write-reverse (c ∷ q) cs in ground arith

strncpy-take : (n : ℕ) (p : List ℕ) → IsFull n p → strncpy n p ≡ take n p
unfolding strncpy
strncpy-take zero p f = refl
strncpy-take (suc n) [] f = absurd (omega (arith, f.long))
strncpy-take (suc n) (c ∷ cs) f =
    let z : (c == 0) ≡ false = ground (arith, f.clean.0) in
    rw z (
      ap (λ xs. c ∷ xs)
        (strncpy-take n cs (record { long = omega (arith, f.long); clean = f.clean.1 })))

plain-columns : (cs : List ℕ) → IsPlain cs → columns cs ≡ 0
plain-columns [] h = refl
plain-columns (c ∷ cs) h = let e = plain-columns cs h.1 in ground (arith, h.0)

strip_spaces-columns : (q : List ℕ) → columns (strip_spaces q) ≡ columns q
unfolding strip_spaces
strip_spaces-columns [] = refl
strip_spaces-columns (c ∷ q) = let e = strip_spaces-columns q in ground arith

-- Chars of a field have been written: the columns are as before, also without the last char.
record Copied (q r : List ℕ) : Type 0 where
  same : columns r ≡ columns q
  last : columns (drop 1 r) ≡ columns q

write-Copied : (q : List ℕ) (c : ℕ) (cs : List ℕ) → IsPlain (c ∷ cs) → Copied q (write q (c ∷ cs))
unfolding write
write-Copied q c [] h = record { same = ground (arith, h.0); last = refl }
write-Copied q c (d ∷ cs) h =
    let r = write-Copied (c ∷ q) d cs h.1 in
    let e : columns (c ∷ q) ≡ columns q = ground (arith, h.0) in
    record { same = r.same ∙ e; last = r.last ∙ e }

-- strncpy of as many chars as a full text has.
Copied-strncpy : (n : ℕ) (p q : List ℕ) → 0 < n → IsFull n p → Copied q (write q (strncpy n p))
Copied-strncpy zero p q h f = absurd (omega arith)
Copied-strncpy (suc n) [] q h f = absurd (omega (arith, f.long))
Copied-strncpy (suc n) (c ∷ cs) q h f =
    subst (λ xs. Copied q (write q xs)) (sym (strncpy-take (suc n) (c ∷ cs) f))
      (write-Copied q c (take n cs) f.clean)

copy_date-Copied : (yy p q : List ℕ) → IsFull 2 yy → IsFull 6 p → Copied q (copy_date yy p q)
unfolding copy_date
copy_date-Copied yy p q y f =
    let a = Copied-strncpy 2 yy q (omega arith) y in
    let f2 = IsFull-take 2 4 p f in
    let g = IsFull-drop 2 4 p f in
    let h = IsFull-drop 4 2 p f in
    let b = Copied-strncpy 2 p (write q (strncpy 2 yy)) (omega arith) f2 in
    let c =
      Copied-strncpy 2 (drop 2 p) (date_separator ∷ write (write q (strncpy 2 yy)) (strncpy 2 p))
        (omega arith) (IsFull-take 2 2 (drop 2 p) g) in
    let e =
      Copied-strncpy 2 (drop 4 p)
        (date_separator
          ∷ write (date_separator ∷ write (write q (strncpy 2 yy)) (strncpy 2 p))
              (strncpy 2 (drop 2 p)))
        (omega arith) h in
    record { same = e.same ∙ c.same ∙ b.same ∙ a.same; last = e.last ∙ c.same ∙ b.same ∙ a.same }

first_char : (n : ℕ) (p : List ℕ) → 0 < n → IsFull n p → (get_or p 0 0 == 0) ≡ false
first_char zero p h f = absurd (omega arith)
first_char (suc n) [] h f = absurd (omega (arith, f.long))
first_char (suc n) (c ∷ cs) h f = ground (arith, f.clean.0)

-- A field takes its width from the source.
copy_chosen :
    (n : ℕ) (s d : Bool) (yy p q : List ℕ)
    → let f : Field = record { length = n; trailing_sign = s; date = d } in
      0 < width f
      → IsFull 2 yy
      → IsFull (width f) p
      → ((copy_field f yy p q).0 ≡ drop (width f) p) × Copied q (copy_field f yy p q).1
unfolding copy_field
copy_chosen n s true yy p q w y h = rw (first_char 6 p w h) ((refl, copy_date-Copied yy p q y h))
copy_chosen n s false yy p q w y h = rw (first_char n p w h) ((refl, Copied-strncpy n p q w h))

-- Ending a field adds a delimiter.
end_chosen :
    (n : ℕ) (s d : Bool) (q r : List ℕ)
    → Copied q r
    → columns (end_field (record { length = n; trailing_sign = s; date = d }) r) ≡ suc (columns q)
unfolding end_field
end_chosen n true d q r c = ap suc (strip_spaces-columns (drop 1 r) ∙ c.last)
end_chosen n false d q r c = ap suc (strip_spaces-columns r ∙ c.same)

delimit_from-columns :
    (yy p : List ℕ) (fs : List Field) (q : List ℕ)
    → IsWide fs
    → IsFull 2 yy
    → IsFull (width_of fs) p
    → columns (delimit_from yy p fs q) ≡ length fs + columns q
unfolding delimit_from
delimit_from-columns yy p [] q w y h = omega arith
delimit_from-columns yy p (f ∷ fs) q w y h =
    let (rest, copied) =
      copy_chosen f.length f.trailing_sign f.date yy p q w.0 y
        (IsFull-take (width f) (width_of fs) p h) in
    let more =
      delimit_from-columns yy (drop (width f) p) fs (end_field f (copy_field f yy p q).1) w.1 y
        (IsFull-drop (width f) (width_of fs) p h) in
    let ended = end_chosen f.length f.trailing_sign f.date q (copy_field f yy p q).1 copied in
    subst
      (λ r.
        columns (delimit_from yy r fs (end_field f (copy_field f yy p q).1))
        ≡ suc (length fs) + columns q)
      (sym rest) (omega (arith, more, ended))

columns-reverse : (xs : List ℕ) → columns (reverse xs) ≡ columns xs
columns-reverse [] = refl
columns-reverse (x ∷ xs) =
    rw (reverse-append (x ∷ []) xs, columns-append (reverse xs) (x ∷ []), columns-reverse xs)
      (ground arith)

-- Where no field of the layout is empty, the century has two chars, and the source is as long as
-- the layout without a terminator or a delimiter in it, delimit writes as many delimiters as the
-- layout has fields.
pub delimit-columns :
    (source yy : List ℕ) (fields : List Field)
    → IsWide fields
    → IsFull 2 yy
    → IsFull (width_of fields) source
    → columns (delimit source yy fields) ≡ length fields
unfolding delimit
delimit-columns source yy fields w y h =
    columns-reverse (delimit_from yy source fields [])
    ∙ delimit_from-columns yy source fields [] w y h
    ∙ omega arith
