-- ===== src/Dsm/Ccdb/Find.antt =====
-- Finding a user session by its session id: user_session_hash and user_session_get.
use code_snippets.Dsm.Hash.{hash_rs}
use Prim.Native.Nat.{bit_and}
use code_snippets.Prelude.Int.{negsuc, ℤ, pos_part, pos}
use mathlib.Core.Path.{subst}
use code_snippets.Prelude.Bits.{bit_and-mask}
use Prim.Native.Nat.{bit_and}
use code_snippets.Dsm.Ccdb.{user_session_mask, Names, Ccdb}
use code_snippets.Dsm.Ccdb.Session.{user_session_hash, count}
use code_snippets.Dsm.Ccdb.Lookup.{
  get_in_slot, mend, is_session, user_session_get, mend_head, find_session,
}
use code_snippets.Prelude.{
  ◌⊎◌, ap, ==_iff, ◌∙◌, ◌||◌, take, ◌≤◌, ◌==◌, ◌<◌, ◌-◌, sym, suc, refl, ltb, arith, ◌≢◌, ◌≡◌, ◌∷◌,
  ℕ, true, some, none, inr, inl, false, [], Option, List, Bool-cases, Bool,
}

-- The first element of a list that satisfies a test, or none.
pub data First (test : ℕ → Bool) : List ℕ → Option ℕ → Type 0 where
  nowhere : First test [] none
  here : (q : ℕ) (qs : List ℕ) → test q ≡ true → First test (q ∷ qs) (some q)
  later :
      (q : ℕ) (qs : List ℕ) (r : Option ℕ)
      → test q ≡ false
      → First test qs r
      → First test (q ∷ qs) r

find_session-First : (test : ℕ → Bool) (qs : List ℕ) → First test qs (find_session test qs)
unfolding find_session
find_session-First test [] = nowhere
find_session-First test (q ∷ qs) = elim (Bool-cases (test q)) [
  | inl e ↦ rw e (here q qs e)
  | inr e ↦ rw e (later q qs _ e (find_session-First test qs))
]

-- What user_session_get does to the sessions when its result is `r`.
pub record Looked (i : ℕ) (r : Option ℕ) (c c' : Ccdb) : Type 0 where
  pub bucket : c'.bucket ≡ c.bucket
  pub listed : (q : ℕ) → r ≡ some q → (c'.session q).head ≢ none
  pub others : (q : ℕ) → r ≢ some q → c'.session q ≡ c.session q
  pub counted :
      (c'.meas.us_get_fail ≡ c.meas.us_get_fail)
      × (c'.meas.us_list_invalid ≡ c.meas.us_list_invalid)
      × (c'.meas.us_get_succ ≡ c.meas.us_get_succ)
      × (c'.meas.us_hash_fail ≡ c.meas.us_hash_fail)

mend-Looked :
    (i q : ℕ) (h : Option ℕ) (c : Ccdb)
    → (c.session q).head ≡ h
    → ((mend i q h c).0 ≡ some q) × Looked i (some q) c (mend i q h c).1
unfolding mend
mend-Looked i q none c e = (
  refl,
  record {
    bucket = refl;
    listed = λ p h. ground arith;
    others = λ p h. ground arith;
    counted = (refl, refl, refl, refl);
  },
)
mend-Looked i q (some j) c e = (
  refl,
  record {
    bucket = refl;
    listed = λ p h. ground (arith, e);
    others = λ p h. refl;
    counted = (refl, refl, refl, refl);
  },
)

pub mend_head-Looked :
    (i : ℕ) (r : Option ℕ) (c : Ccdb) → ((mend_head i r c).0 ≡ r) × Looked i r c (mend_head i r c).1
unfolding mend_head
mend_head-Looked i none c = (
  refl,
  record {
    bucket = refl;
    listed = λ q e. cc;
    others = λ q e. refl;
    counted = (refl, refl, refl, refl);
  },
)
mend_head-Looked i (some q) c = mend-Looked i q (c.session q).head c refl

-- A session id of valid length is looked up in a slot of the table: user_session_get returns the
-- first session of the list with that session id, which is then on a list, or null if there is
-- none. It changes no list and no other session, and counts a success.
pub user_session_get-First :
    (k : Names) (session_id : List ℤ) (len : ℤ) (i : ℕ) (c : Ccdb)
    → 0 < pos_part len
    → pos_part len < k.max_sz_octetstring
    → i ≤ user_session_mask
    → let (r, c') = user_session_get k (some session_id) len (pos i) c in
      First (λ q. is_session session_id len (c.session q)) (c.bucket i) r
      × Looked i r (count c (record c.meas { us_get_succ = suc c.meas.us_get_succ })) c'
unfolding user_session_get
user_session_get-First k session_id len i c l m h =
    let some_len : (pos_part len == 0) ≡ false = ground arith in
    let fits : ltb (k.max_sz_octetstring - 1) (pos_part len) ≡ false = ground arith in
    let in_range : ltb user_session_mask i ≡ false = ground arith in
    let test : ℕ → Bool = λ q. is_session session_id len (c.session q) in
    let c' = count c (record c.meas { us_get_succ = suc c.meas.us_get_succ }) in
    let found = find_session test (c.bucket i) in
    let (same, looked) = mend_head-Looked i found c' in
    rw (some_len, fits, in_range)
      (
        subst (First test (c.bucket i)) (sym same) (find_session-First test (c.bucket i)),
        subst (λ r. Looked i r c' (mend_head i found c').1) (sym same) looked,
      )

-- The two outcomes for a session id: of a valid length, it is hashed to an index of the table and
-- looked up there without an error; of any other, both functions fail, and each for its length.
pub data HashedAndLooked (k : Names) (len : ℤ) (c : Ccdb) : ℤ → Option ℕ → Ccdb → Type 0 where
  hashed :
      (n : ℕ) (r : Option ℕ) (c' : Ccdb)
      → 0 < pos_part len
      → pos_part len < k.max_sz_octetstring
      → n ≤ user_session_mask
      → c'.meas.us_get_succ ≡ suc c.meas.us_get_succ
      → c'.meas.us_get_fail ≡ c.meas.us_get_fail
      → c'.meas.us_hash_fail ≡ c.meas.us_hash_fail
      → HashedAndLooked k len c (pos n) r c'
  refused :
      (c' : Ccdb)
      → (pos_part len ≡ 0) ⊎ (k.max_sz_octetstring ≤ pos_part len)
      → c'.meas.us_get_fail ≡ suc c.meas.us_get_fail
      → c'.meas.us_hash_fail ≡ suc c.meas.us_hash_fail
      → c'.meas.us_get_sid_invalid ≡ suc c.meas.us_get_sid_invalid
      → c'.meas.us_hash_sid_invalid ≡ suc c.meas.us_hash_sid_invalid
      → HashedAndLooked k len c (negsuc 0) none c'

mask_le : (h : ℕ) → bit_and h user_session_mask ≤ user_session_mask
mask_le h = omega (arith, bit_and-mask 18 h)

-- A length that both functions refuse.
abbrev bad_length : Names → ℤ → Bool
bad_length k len = pos_part len == 0 || ltb (k.max_sz_octetstring - 1) (pos_part len)

hash-index :
    (k : Names) (session_id : List ℤ) (len : ℤ) (c : Ccdb)
    → bad_length k len ≡ false
    → user_session_hash k (some session_id) len c ≡ (
      pos (bit_and (hash_rs (take (pos_part len) session_id)) user_session_mask),
      count c (record c.meas { us_hash_succ = suc c.meas.us_hash_succ }),
    )
unfolding user_session_hash
hash-index k session_id len c e = rw e

get-slot :
    (k : Names) (session_id : List ℤ) (len : ℤ) (n : ℕ) (c : Ccdb)
    → bad_length k len ≡ false
    → n ≤ user_session_mask
    → user_session_get k (some session_id) len (pos n) c ≡ get_in_slot k n session_id len c
unfolding user_session_get
get-slot k session_id len n c e h =
    let in_range : ltb user_session_mask n ≡ false = ground arith in rw (e, in_range)

slot-hashed :
    (k : Names) (session_id : List ℤ) (len : ℤ) (n : ℕ) (c c' : Ccdb)
    → bad_length k len ≡ false
    → n ≤ user_session_mask
    → c'.meas.us_get_succ ≡ c.meas.us_get_succ
    → c'.meas.us_get_fail ≡ c.meas.us_get_fail
    → c'.meas.us_hash_fail ≡ c.meas.us_hash_fail
    → let (r, c'') = get_in_slot k n session_id len c' in HashedAndLooked k len c (pos n) r c''
unfolding get_in_slot
slot-hashed k session_id len n c c' e h found get hash =
    let (_, looked) =
      mend_head-Looked n
        (find_session (λ q. is_session session_id len (c'.session q)) (c'.bucket n))
        (count c' (record c'.meas { us_get_succ = suc c'.meas.us_get_succ })) in
    hashed n _ _ (ground arith) (ground arith) h (looked.counted.2 ∙ ap suc found)
      (looked.counted.0 ∙ get) (looked.counted.3 ∙ hash)

outside :
    (k : Names) (len : ℤ)
    → bad_length k len ≡ true
    → (pos_part len ≡ 0) ⊎ (k.max_sz_octetstring ≤ pos_part len)
outside k len e = elim (Bool-cases (pos_part len == 0)) [
  | inl z ↦ inl ((==_iff _ _).0 z)
  | inr z ↦ inr (ground arith)
]

refused-both :
    (k : Names) (session_id : List ℤ) (len : ℤ) (c : Ccdb)
    → bad_length k len ≡ true
    → let (h, c') = user_session_hash k (some session_id) len c in
      let (r, c'') = user_session_get k (some session_id) len h c' in
      HashedAndLooked k len c h r c''
unfolding user_session_hash user_session_get
refused-both k session_id len c e = rw e (refused _ (outside k len e) refl refl refl refl)

-- user_session_get with the index that user_session_hash has returned for the same session id: a
-- session id of 1 to MAX_SZ_OCTETSTRING - 1 chars hashes to an index of the table, and the lookup
-- there counts a success and no failure; one of any other length is refused by both, and each counts
-- an invalid length.
pub user_session_get-user_session_hash :
    (k : Names) (session_id : List ℤ) (len : ℤ) (c : Ccdb)
    → let (h, c') = user_session_hash k (some session_id) len c in
      let (r, c'') = user_session_get k (some session_id) len h c' in
      HashedAndLooked k len c h r c''
user_session_get-user_session_hash k session_id len c = elim (Bool-cases (bad_length k len)) [
  | inl e ↦ refused-both k session_id len c e
  | inr e ↦
      let h = hash_rs (take (pos_part len) session_id) in
      let c' = count c (record c.meas { us_hash_succ = suc c.meas.us_hash_succ }) in
      rw
        (
          hash-index k session_id len c e,
          get-slot k session_id len (bit_and h user_session_mask) c' e (mask_le h),
        )
        (slot-hashed k session_id len (bit_and h user_session_mask) c c' e (mask_le h) refl refl
          refl)
]
