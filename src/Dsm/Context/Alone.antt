-- ===== src/Dsm/Context/Alone.antt =====
-- The local TIDs that qmsg_diamctx_construct makes, and a message without a session.
use code_snippets.Dsm.Timer.{id_undef}
use code_snippets.Dsm.Ccdb.Session.{us_list_null, us_null}
use code_snippets.Dsm.Ccdb.Tid.{us_id_of}
use code_snippets.Dsm.Ccdb.{Ccdb, user_session_id_valid}
use code_snippets.Dsm.Ccdb.Tids.{set_tid_local-IsOther, IsOther}
use code_snippets.Dsm.Context.Construct.{construct_listed, alone, qmsg_diamctx_construct}
use code_snippets.Dsm.Context.Report.{begin_alone, new_tid}
use code_snippets.Dsm.Context.Save.{set_peer_fe, peer_of}
use code_snippets.Prelude.Int.{ℤ, pos_part}
use code_snippets.Prelude.{
  ◌∙◌, ◌≡◌, ◌==◌, ◌<◌, ℕ, true, sym, some, refl, none, inr, inl, false, ap, Option, Bool-cases,
  Bool,
}
use mathlib.Core.Path.{subst}
use code_snippets.Dsm.Context.{DiamCtx, Codes, Contexts, Conf}

-- The list of the session that a pointer points to.
abbrev pub head_at : Option ℕ → Contexts → Option ℕ
head_at none c = none
head_at (some i) c = (c.ccdb.session i).head

module _ (k : Codes) (f : Conf) where
  -- The numbers of the configuration fit the fields of a TID.
  pub record Fits : Type 0 where
    pub fe : pos_part f.fe_number < 16
    pub csi : pos_part f.csi_number < 2
    pub peer : (n p : ℤ) → f.associate n ≡ some p → pos_part p < 16
    pub uninitialized : pos_part k.uninitialized < 16

  peer_of-range :
      (x : Option ℤ) (c : Contexts)
      → Fits
      → f.associate f.fe_number ≡ x
      → let (peer, d) = peer_of k.uninitialized x c in
        (pos_part peer < 16) × (d.tids ≡ c.tids) × (d.ccdb ≡ c.ccdb) × (d.rest ≡ c.rest)
  unfolding peer_of
  peer_of-range none c h e = (h.uninitialized, refl, refl, refl)
  peer_of-range (some p) c h e = (h.peer f.fe_number p e, refl, refl, refl)

  set_peer_fe-range :
      (c : Contexts)
      → Fits
      → let (peer, d) = set_peer_fe k f c in
        (pos_part peer < 16)
        × (d.tids.non_us_id ≡ c.tids.non_us_id)
        × (d.ccdb ≡ c.ccdb)
        × (d.rest ≡ c.rest)
  unfolding set_peer_fe
  set_peer_fe-range c h = elim (Bool-cases (pos_part f.fe_number == 0)) [
    | inl e ↦ rw e (h.uninitialized, refl, refl, refl)
    | inr e ↦
        let (a, b, x, y) = peer_of-range (f.associate f.fe_number) c h refl in
        rw e (a, ap (λ t. t.non_us_id) b, x, y)
  ]

  -- A new local TID is no session's, and nothing else changes but counters.
  pub new_tid-Other :
      (c : Contexts)
      → Fits
      → IsOther c.tids.non_us_id
      → let (tid, d) = new_tid k f c in
        (user_session_id_valid (us_id_of tid) ≡ false)
        × IsOther d.tids.non_us_id
        × (d.ccdb ≡ c.ccdb)
        × (d.rest ≡ c.rest)
  unfolding new_tid
  new_tid-Other c h o =
      let (a, b, x, y) = set_peer_fe-range c h in
      let (peer, d) = set_peer_fe k f c in
      let (_, none_valid, _, after, _) =
        set_tid_local-IsOther f.fe_number f.csi_number peer id_undef d.tids h.fe a h.csi refl
          (subst IsOther (sym b) o) in
      (none_valid, after, x, y)

  -- A result that begins a GDI transaction, without a remote TID and with a local TID in which the
  -- receivers of an answer find no session's id, and that changes no session.
  pub record Begins (c : Contexts) (r : Bool × Option DiamCtx × Contexts) : Type 0 where
    pub done : r.0 ≡ true
    pub session : r.2.ccdb.session ≡ c.ccdb.session
    pub rest : r.2.rest ≡ c.rest
    pub message : DiamCtx
    pub built : r.1 ≡ some message
    pub package_type : message.package_type ≡ k.names.package_type_request
    pub remote_tid : message.remote_tid ≡ 0
    pub no_session : user_session_id_valid (us_id_of message.local_tid) ≡ false

  begin_alone-Begins :
      (m : DiamCtx) (c : Contexts) (db : Ccdb)
      → db.session ≡ c.ccdb.session
      → Fits
      → IsOther c.tids.non_us_id
      → Begins c (alone (begin_alone k f m (record c { ccdb = db })))
  unfolding begin_alone
  begin_alone-Begins m c db e h o =
      let (a, _, x, y) = new_tid-Other (record c { ccdb = db }) h o in
      record {
        done = refl;
        session = ap (λ z. z.session) x ∙ e;
        rest = y;
        message = (begin_alone k f m (record c { ccdb = db })).1;
        built = refl;
        package_type = refl;
        remote_tid = refl;
        no_session = a;
      }

  -- qmsg_diamctx_construct without a session, or for one on no list, succeeds: the message begins a
  -- GDI transaction, without a remote TID and with a local TID in which the receivers of an answer
  -- find no session's id, and no session changes. The configuration's numbers fit their fields.
  pub qmsg_diamctx_construct-alone :
      (p : Option ℕ) (repterr : Bool) (m : DiamCtx) (c : Contexts)
      → head_at p c ≡ none
      → Fits
      → IsOther c.tids.non_us_id
      → Begins c (qmsg_diamctx_construct k f (some m) p repterr c)
  unfolding qmsg_diamctx_construct construct_listed
  qmsg_diamctx_construct-alone none repterr m c e h o =
      begin_alone-Begins m c (us_null c.ccdb) refl h o
  qmsg_diamctx_construct-alone (some i) repterr m c e h o =
      subst (λ x. Begins c (construct_listed k f x repterr i m c)) (sym e)
        (begin_alone-Begins m c (us_list_null c.ccdb) refl h o)
