-- ===== src/Dsm/Context/Search.antt =====
-- The search of user_session_get in a list with one more session.
use code_snippets.Dsm.Timer.Lists.{has-ne, has}
use code_snippets.Dsm.Ccdb.Find.{user_session_get-First, later, here, First}
use code_snippets.Dsm.Ccdb.{user_session_mask, Ccdb, Names, UserSession}
use code_snippets.Dsm.Context.Copy.{copy_bytes}
use code_snippets.Dsm.Ccdb.Session.{same_string}
use code_snippets.Dsm.Ccdb.Lookup.{user_session_get, is_session, find_session}
use code_snippets.Prelude.Int.{ℤ, pos_part, pos, neg_part}
use code_snippets.Prelude.{
  ◌==◌, sym, zero, suc, inr, inl, false, Bool-cases, ◌≤◌, ◌≡◌, ◌∷◌, ◌∙◌, ◌<◌, ◌++◌, ℕ, true, take,
  some, refl, none, length, arith, ap, [], Option, List, Bool,
}
use code_snippets.Dsm.Context.{Names, UserSession}
use code_snippets.Dsm.Ccdb.Find.{nowhere, here, later}

First-lem :
    {test : ℕ → Bool} (xs : List ℕ) (r : Option ℕ) → First test xs r → r ≡ find_session test xs
unfolding find_session
First-lem [] none nowhere = refl
First-lem [] (some y) f = elim f [ ]
First-lem (x ∷ xs) (some y) (here q qs e) = rw e refl
First-lem (x ∷ xs) r (later q qs s e l) = rw e (First-lem xs r l)

-- A search that fails goes on to an element after the list.
find_session-append :
    (test other : ℕ → Bool) (xs : List ℕ) (n : ℕ)
    → ((q : ℕ) → has q xs ≡ true → other q ≡ test q)
    → find_session test xs ≡ none
    → other n ≡ true
    → find_session other (xs ++ n ∷ []) ≡ some n
unfolding find_session
find_session-append test other [] n h e t = rw t refl
find_session-append test other (x ∷ xs) n h e t = elim (Bool-cases (test x)) [
  | inl z ↦ absurd (let no_one = rw z at e in ground arith)
  | inr z ↦
      let past : other x ≡ false = h x (ground arith) ∙ z in
      rw past (find_session-append test other xs n (λ q i. h q (ground arith)) (rw z at e) t)
]

same_string_refl : (xs : List ℤ) → same_string xs xs ≡ true
same_string_refl [] = refl
same_string_refl (x ∷ xs) = let rest = same_string_refl xs in ground arith

take-take-append : (n : ℕ) (xs ys : List ℤ) → n ≤ length xs → take n (take n xs ++ ys) ≡ take n xs
take-take-append zero xs ys h = refl
take-take-append (suc n) [] ys h = absurd (omega arith)
take-take-append (suc n) (x ∷ xs) ys h = ap (λ zs. x ∷ zs) (take-take-append n xs ys (omega arith))

-- A session with a copy of the Session-Id passes the test.
pub copy-is_session :
    (session_id old : List ℤ) (len : ℤ) (s : UserSession)
    → pos_part len ≤ length session_id
    → s.session_id ≡ copy_bytes (pos_part len) session_id old
    → s.session_id_len ≡ len
    → is_session session_id len s ≡ true
copy-is_session session_id old len s h a b =
    let same = ap (take (pos_part len)) a ∙ take-take-append (pos_part len) session_id _ h in
    let equal =
      ap (λ x. same_string x (take (pos_part len) session_id)) same
      ∙ same_string_refl (take (pos_part len) session_id) in
    let p = ap pos_part b in let n = ap neg_part b in ground arith

-- What user_session_get returns for a session id of valid length.
get-find :
    (k : Names) (session_id : List ℤ) (len : ℤ) (b : ℕ) (c : Ccdb)
    → 0 < pos_part len
    → pos_part len < k.max_sz_octetstring
    → b ≤ user_session_mask
    → (user_session_get k (some session_id) len (pos b) c).0
      ≡ find_session (λ q. is_session session_id len (c.session q)) (c.bucket b)
get-find k session_id len b c l m h =
    First-lem (c.bucket b) _ (user_session_get-First k session_id len b c l m h).0

-- A database `d` that is `c` with one more session at the end of a list.
pub added-found :
    (k : Names) (session_id : List ℤ) (len : ℤ) (b new : ℕ) (c d : Ccdb)
    → 0 < pos_part len
    → pos_part len < k.max_sz_octetstring
    → b ≤ user_session_mask
    → has new (c.bucket b) ≡ false
    → ((q : ℕ) → (q == new) ≡ false → d.session q ≡ c.session q)
    → d.bucket b ≡ c.bucket b ++ new ∷ []
    → is_session session_id len (d.session new) ≡ true
    → (user_session_get k (some session_id) len (pos b) c).0 ≡ none
    → (user_session_get k (some session_id) len (pos b) d).0 ≡ some new
added-found k session_id len b new c d l m h off same more is absent =
    let test : ℕ → Bool = λ q. is_session session_id len (c.session q) in
    let other : ℕ → Bool = λ q. is_session session_id len (d.session q) in
    get-find k session_id len b d l m h
    ∙ ap (find_session other) more
    ∙ find_session-append test other (c.bucket b) new
        (λ q z. ap (is_session session_id len) (same q (has-ne q new (c.bucket b) z off)))
        (sym (get-find k session_id len b c l m h) ∙ absent) is
