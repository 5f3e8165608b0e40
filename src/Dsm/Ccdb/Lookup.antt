-- ===== src/Dsm/Ccdb/Lookup.antt =====
-- user_session_get of dsm_ccdb.c: the lookup of a session on the list of its hash index.
use code_snippets.Dsm.Timer.{update}
use code_snippets.Dsm.Ccdb.Session.{count, us_list_null, same_string}
use code_snippets.Dsm.Ccdb.{user_session_mask, Names, Ccdb, UserSession}
use code_snippets.Prelude.Int.{ℤ, pos_part, neg_part}
use code_snippets.Prelude.{
  ◌∷◌, ◌||◌, ◌==◌, ◌-◌, ◌&&◌, ℕ, take, suc, some, none, ltb, if◌then◌else◌, [], Option, List, Bool,
}

-- memcmp (q->diameter.session_id, session_id, session_id_len) == 0
abbrev pub is_session : List ℤ → ℤ → UserSession → Bool
is_session session_id len s =
    pos_part s.session_id_len == pos_part len
    && neg_part s.session_id_len == neg_part len
    && same_string (take (pos_part len) s.session_id) (take (pos_part len) session_id)

-- The loop of user_session_get.
unfoldable pub find_session : (ℕ → Bool) → List ℕ → Option ℕ
find_session test [] = none
find_session test (q ∷ qs) = let rest = find_session test qs in if test q then some q else rest

-- The end of user_session_get: a session that was found with this head is given the list's if it is
-- null.
unfoldable pub mend : ℕ → ℕ → Option ℕ → Ccdb → Option ℕ × Ccdb
mend i q (some _) c = (some q, c)
mend i q none c = (
  some q,
  record (us_list_null c) { session = update c.session q (record (c.session q) { head = some i }) },
)

unfoldable pub mend_head : ℕ → Option ℕ → Ccdb → Option ℕ × Ccdb
unfolding mend
mend_head i none c = (none, c)
mend_head i (some q) c = mend i q (c.session q).head c

module _ (k : Names) where
  abbrev pub get_fail : Ccdb → Ccdb
  get_fail c = count c (record c.meas { us_get_fail = suc c.meas.us_get_fail })

  -- The search on the list of slot `i`.
  unfoldable pub get_in_slot : ℕ → List ℤ → ℤ → Ccdb → Option ℕ × Ccdb
  unfolding mend_head find_session
  get_in_slot i session_id len c =
      mend_head i (find_session (λ q. is_session session_id len (c.session q)) (c.bucket i))
        (count c (record c.meas { us_get_succ = suc c.meas.us_get_succ }))

  unfoldable pub user_session_get : Option (List ℤ) → ℤ → ℤ → Ccdb → Option ℕ × Ccdb
  unfolding get_in_slot
  user_session_get none len index c =
      (none, get_fail (count c (record c.meas { us_get_sid_null = suc c.meas.us_get_sid_null })))
  user_session_get (some session_id) len index c =
      if pos_part len == 0 || ltb (k.max_sz_octetstring - 1) (pos_part len)
      then (
        none,
        get_fail (count c (record c.meas { us_get_sid_invalid = suc c.meas.us_get_sid_invalid })),
      )
      else if ltb 0 (neg_part index) || ltb user_session_mask (pos_part index)
      then (
        none,
        get_fail (count c (record c.meas { us_list_invalid = suc c.meas.us_list_invalid })),
      )
      else get_in_slot (pos_part index) session_id len c
