-- ===== src/Dsm/Context/Found.antt =====
-- user_session_get of a session that user_session_add has added.
use code_snippets.Dsm.Context.Search.{copy-is_session, added-found}
use mathlib.Core.Path.{subst}
use code_snippets.Dsm.Context.Request.{save_diam-ready, save_diam-ident, ident_of}
use code_snippets.Dsm.Context.Memory.{save_diam-lists, lists_of}
use code_snippets.Dsm.Context.Exchange.{
  save_us-typed, user_session_save-listed, save_us-command, user_session_save-us,
}
use code_snippets.Dsm.Context.Diam.{identified, save_diam}
use code_snippets.Dsm.Context.Gdi.{user_session_save, store, save_by_type}
use code_snippets.Dsm.Context.Save.{is_initial, is_dim_close, is_retransmission, Saved}
use code_snippets.Dsm.Context.Add.{add_saved, add_new, put_head, user_session_add, insert_us, Table}
use code_snippets.Dsm.Timer.Lists.{has}
use code_snippets.Dsm.Ccdb.{user_session_mask}
use code_snippets.Dsm.Ccdb.Lookup.{user_session_get, is_session}
use code_snippets.Prelude.Int.{pos_part, pos}
use code_snippets.Prelude.{
  ◌==◌, sym, ltb, false, ◌≤◌, ◌≡◌, ◌∷◌, ◌∙◌, ◌<◌, ◌++◌, ℕ, true, some, refl, none, length, arith,
  ap, [], Option,
}
use code_snippets.Dsm.Context.{
  us_at, api_new_private_succ_us, Contexts, DiamCtx, Conf, Codes, count, diam,
}
use code_snippets.Dsm.Timer.{Pool}

module _ (E : Pool) (k : Codes) (f : Conf) (m : DiamCtx) (b new : ℕ) (pool : Pool.State E)
    (t : Table E) where
  -- The memory that user_session_save finds.
  abbrev before : Contexts
  before = put_head new b (count api_new_private_succ_us t.contexts)

  -- What user_session_save leaves in the session and in the memory.
  abbrev saved : Saved
  saved = save_diam k f new m (us_at new before) before

  before-head : (before.ccdb.session new).head ≡ some b
  before-head = let e : (new == new) ≡ true = ground arith in rw e refl

  -- The table with the new session.
  abbrev after : Table E
  after = insert_us E new b (record t { pool = pool; contexts = (store new saved).1 })

  user_session_save-saved :
      m.diamctx_type ≡ diam
      → is_retransmission k m (us_at new before) ≡ false
      → (m.package_type == k.package_type_abort) ≡ false
      → (user_session_save k f (some m) (some new) before).0 ≡ true
      → (saved.0 ≡ true)
        × (user_session_save k f (some m) (some new) before ≡ (true, (store new saved).1))
  unfolding save_by_type store
  user_session_save-saved d first a done =
      let (same, _) = user_session_save-us k f new m before before-head in
      let close = ap is_dim_close d in
      let command =
        save_us-command k f new m (us_at new before) before first a close (sym same ∙ done) in
      let path =
        user_session_save-listed k f new m before before-head
        ∙ ap (store new) (
            save_us-typed k f new m (us_at new before) before first a close command
            ∙ ap (λ x. save_by_type k f x new m (us_at new before) before) d) in
      let done' = sym (ap (λ x. x.0) path) ∙ done in
      (done', path ∙ ap (λ x. (x, (store new saved).1)) done')

  user_session_add-after :
      Pool.new_private E t.pool ≡ some (new, pool)
      → b ≤ user_session_mask
      → user_session_save k f (some m) (some new) before ≡ (true, (store new saved).1)
      → user_session_add E k f (some m) (pos b) t ≡ (some new, after)
  unfolding user_session_add add_new add_saved
  user_session_add-after got h path =
      let in_range : ltb user_session_mask b ≡ false = ground arith in
      rw in_range (
        ap (λ x. add_new E k f m b x t) got
        ∙ ap (λ x. add_saved E k.uninitialized new b x (record t { pool = pool })) path)

  lists : lists_of saved.2.ccdb ≡ lists_of before.ccdb
  lists = save_diam-lists k f new m (us_at new before) before

  after-session :
      (q : ℕ) → (q == new) ≡ false → after.contexts.ccdb.session q ≡ t.contexts.ccdb.session q
  unfolding insert_us store
  after-session q z = rw z (ap (λ l. l.0 q) lists ∙ rw z refl)

  after-bucket : after.contexts.ccdb.bucket b ≡ t.contexts.ccdb.bucket b ++ new ∷ []
  unfolding insert_us store
  after-bucket = let e : (b == b) ≡ true = ground arith in rw e (ap (λ l. l.1 b ++ new ∷ []) lists)

  after-new : after.contexts.ccdb.session new ≡ saved.1.core
  unfolding insert_us store
  after-new = let e : (new == new) ≡ true = ground arith in rw e refl

  saved-ident :
      is_initial k m ≡ true
      → saved.0 ≡ true
      → ident_of saved.1 ≡ ident_of (identified f.time m (us_at new before))
  saved-ident initial done =
      save_diam-ident k f new m (us_at new before) before
        (save_diam-ready k f new m (us_at new before) before done)
      ∙ (rw initial refl)

  -- Where user_session_get finds no session for a CCR of type INITIAL or EVENT, the pool returns a
  -- session that is not on the list, and user_session_save saves the CCR in it, user_session_add
  -- returns that session, at the end of the time-sorted list, and user_session_get then finds it
  -- by the CCR's Session-Id. The Session-Id has a valid length and is in the message's buffer, and
  -- the CCR is no retransmission and has not package type ABORT.
  pub user_session_get-user_session_add :
      Pool.new_private E t.pool ≡ some (new, pool)
      → b ≤ user_session_mask
      → has new (t.contexts.ccdb.bucket b) ≡ false
      → m.diamctx_type ≡ diam
      → is_initial k m ≡ true
      → is_retransmission k m (us_at new before) ≡ false
      → (m.package_type == k.package_type_abort) ≡ false
      → 0 < pos_part m.session_id_length
      → pos_part m.session_id_length < k.names.max_sz_octetstring
      → pos_part m.session_id_length ≤ length m.buffer_sid
      → (user_session_save k f (some m) (some new) before).0 ≡ true
      → (user_session_get k.names (some m.buffer_sid) m.session_id_length (pos b) t.contexts.ccdb).0
        ≡ none
      → let (r, u) = user_session_add E k f (some m) (pos b) t in
        (r ≡ some new)
        × (u.by_time ≡ t.by_time ++ new ∷ [])
        × ((user_session_get k.names
              (some m.buffer_sid)
              m.session_id_length
              (pos b)
              u.contexts.ccdb).0
            ≡ some new)
  unfolding insert_us
  user_session_get-user_session_add got h off d initial first a l x n done absent =
      let (kept, path) = user_session_save-saved d first a done in
      let ident = saved-ident initial kept in
      let found =
        added-found k.names m.buffer_sid m.session_id_length b new t.contexts.ccdb
          after.contexts.ccdb l x h off after-session after-bucket
          (ap (is_session m.buffer_sid m.session_id_length) after-new
            ∙ copy-is_session m.buffer_sid (us_at new before).core.session_id m.session_id_length
                saved.1.core n (ap (λ y. y.1) ident) (ap (λ y. y.2) ident))
          absent in
      subst
        (λ (y : Option ℕ × Table E).
          (y.0 ≡ some new)
          × (y.1.by_time ≡ t.by_time ++ new ∷ [])
          × ((user_session_get k.names (some m.buffer_sid) m.session_id_length (pos b)
                y.1.contexts.ccdb).0
              ≡ some new))
        (sym (user_session_add-after got h path)) (refl, refl, found)
