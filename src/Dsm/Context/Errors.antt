-- ===== src/Dsm/Context/Errors.antt =====
-- qmsg_diamctx_construct with flag_repterr.
use code_snippets.Dsm.Context.Exchange.{qmsg_diamctx_construct-listed}
use code_snippets.Dsm.Context.Save.{trap_us}
use code_snippets.Dsm.Ccdb.Tid.{us_id_of}
use code_snippets.Dsm.Ccdb.Tids.{IsOther}
use code_snippets.Dsm.Context.Report.{report_gdi, Built}
use code_snippets.Dsm.Ccdb.{user_session_id_valid}
use code_snippets.Dsm.Context.Reported.{
  report_diam-Reported, reports, report_gdi-Reported, Done, Reported,
}
use code_snippets.Dsm.Context.Alone.{Fits}
use code_snippets.Dsm.Context.Construct.{
  qmsg_diamctx_construct, construct_diam, construct_us, end_after, construct_end, construct_by_type,
  is_tg_exp, is_gdi, put_session_id, construct_gdi, put_avps, store_built, put_data, put_ends,
}
use code_snippets.Prelude.{
  ◌≡◌, ◌∙◌, ◌==◌, ℕ, true, sym, some, refl, inr, inl, if◌then◌else◌, false, arith, ap, Option,
  Bool-cases, Bool,
}
use code_snippets.Dsm.Context.{
  us_at, Contexts, DiamCtx, DiamctxType, Us, Codes, Conf, diam, gdi, gdi_int_str, tg_exp,
  gdi_dim_close, other,
}
use mathlib.Core.Path.{subst}

module _ (k : Codes) where
  put_ends-kept :
      (t : DiamctxType) (p : Us) (m : DiamCtx)
      → let b = put_ends k t p m in
        (b.package_type ≡ m.package_type)
        × (b.remote_tid ≡ m.remote_tid)
        × (b.local_tid ≡ m.local_tid)
  unfolding put_ends
  put_ends-kept gdi p m = ground arith
  put_ends-kept gdi_int_str p m = (refl, refl, refl)
  put_ends-kept tg_exp p m = (refl, refl, refl)
  put_ends-kept diam p m = (refl, refl, refl)
  put_ends-kept gdi_dim_close p m = (refl, refl, refl)
  put_ends-kept other p m = (refl, refl, refl)

  put_data-kept :
      (p : Us) (m : DiamCtx)
      → let b = put_data k p m in
        (b.package_type ≡ m.package_type)
        × (b.remote_tid ≡ m.remote_tid)
        × (b.local_tid ≡ m.local_tid)
  unfolding put_data put_avps put_session_id
  put_data-kept p m = elim (Bool-cases (is_gdi m.diamctx_type)) [
    | inl e ↦ rw e (put_ends-kept m.diamctx_type p (put_avps p m))
    | inr e ↦ rw e (put_ends-kept m.diamctx_type p (put_avps p (put_session_id p m)))
  ]

  put_data-Reported : (p q : Us) (b : DiamCtx) → Reported k p b q → Reported k p (put_data k q b) q
  put_data-Reported p q b r =
      let (t, x, y) = put_data-kept q b in
      record {
        package_type = t ∙ r.package_type;
        same_package = r.same_package ∙ sym t;
        remote_tid = x ∙ r.remote_tid;
        same_remote = r.same_remote ∙ sym x;
        same_local = r.same_local ∙ sym y;
        assigned = λ e. y ∙ r.assigned e;
        no_session = λ e. ap (λ z. user_session_id_valid (us_id_of z)) y ∙ r.no_session e;
      }

  built_at :
      (i : ℕ) (p : Us) (x : Bool × Option DiamCtx × Contexts) (s : Built)
      → x ≡ store_built i s
      → Done k p s
      → (x.0 ≡ true) × (y : DiamCtx) × (x.1 ≡ some y) × Reported k p y (us_at i x.2)
  unfolding store_built
  built_at i p x s path (e, r) = (
    ap (λ t. t.0) path ∙ e,
    s.1,
    ap (λ t. t.1) path,
    subst (Reported k p s.1)
        (sym (ap (λ t. us_at i t.2) path ∙ (let e : (i == i) ≡ true = ground arith in rw e refl)))
        r,
  )

  Reported-if :
      (t : Bool) (p q : Us) (x y : DiamCtx)
      → Reported k p x q
      → Reported k p y q
      → Reported k p (if t then x else y) q
  Reported-if true p q x y g h = g
  Reported-if false p q x y g h = h

module _ (k : Codes) (f : Conf) (h : Fits k f) where
  construct_gdi-Reported :
      (m : DiamCtx) (p : Us) (c : Contexts)
      → IsOther c.tids.non_us_id
      → m.no_diam ≡ false
      → Done k p (construct_gdi k f true m p c)
  unfolding construct_gdi
  construct_gdi-Reported m p c o e =
      let (n, q, d) = report_gdi k f m p c in
      let r = report_gdi-Reported k f h m p c o in
      subst
        (λ t. Done k p (
          if t
          then (true, m, p, c)
          else (true, (if is_tg_exp m.diamctx_type then put_data k q n else n), q, d)))
        (sym e)
        (
          refl,
          Reported-if k (is_tg_exp m.diamctx_type) p q (put_data k q n) n
              (put_data-Reported k p q n r) r,
        )

  construct_by_type-Reported :
      (t : DiamctxType) (m : DiamCtx) (p : Us) (c : Contexts)
      → IsOther c.tids.non_us_id
      → reports k t m ≡ true
      → Done k p (construct_by_type k f t true m p c)
  unfolding construct_by_type construct_diam
  construct_by_type-Reported diam m p c o e = report_diam-Reported k f h m p c o (ground arith)
  construct_by_type-Reported gdi m p c o e = construct_gdi-Reported m p c o (ground arith)
  construct_by_type-Reported gdi_int_str m p c o e = construct_gdi-Reported m p c o (ground arith)
  construct_by_type-Reported tg_exp m p c o e = construct_gdi-Reported m p c o (ground arith)
  construct_by_type-Reported gdi_dim_close m p c o e = absurd (ground arith)
  construct_by_type-Reported other m p c o e = absurd (ground arith)

  -- The common end keeps what a report and the session agree on.
  construct_end-Reported :
      (i : ℕ) (p : Us) (b : DiamCtx) (q : Us) (c : Contexts)
      → Reported k p b q
      → Done k p (construct_end k i b q c)
  unfolding construct_end trap_us
  construct_end-Reported i p b q c r = (
    refl,
    record {
      package_type = r.package_type;
      same_package = r.same_package;
      remote_tid = r.remote_tid;
      same_remote = r.same_remote;
      same_local = r.same_local;
      assigned = r.assigned;
      no_session = r.no_session;
    },
  )

  end_after-Reported : (i : ℕ) (p : Us) (s : Built) → Done k p s → Done k p (end_after k i s)
  unfolding end_after
  end_after-Reported i p (true, b, q, c) (_, r) = construct_end-Reported i p b q c r
  end_after-Reported i p (false, b, q, c) (e, r) = absurd (ground arith)

  -- For a session on a list, qmsg_diamctx_construct of an error report succeeds, for a Diameter
  -- message whose command answers no GDI request and for a message for which the DGC has a Diameter
  -- message to send. The package type is CONV where the session has a remote TID, and REQUEST where
  -- it has none; the remote TID is the session's. The local TID is the session's where it has one,
  -- and else one in which the receivers of an answer find no session's id. The session keeps the
  -- report's package type and TIDs. The configuration's numbers fit their fields.
  pub qmsg_diamctx_construct-Reported :
      (i b : ℕ) (m : DiamCtx) (c : Contexts)
      → (c.ccdb.session i).head ≡ some b
      → reports k m.diamctx_type m ≡ true
      → IsOther c.tids.non_us_id
      → let (done, x, e) = qmsg_diamctx_construct k f (some m) (some i) true c in
        (done ≡ true) × (y : DiamCtx) × (x ≡ some y) × Reported k (us_at i c) y (us_at i e)
  unfolding construct_us
  qmsg_diamctx_construct-Reported i b m c on e o =
      let s =
        end_after-Reported i (us_at i c) (construct_by_type k f m.diamctx_type true m (us_at i c) c)
          (construct_by_type-Reported m.diamctx_type m (us_at i c) c o e) in
      built_at k i (us_at i c) _ _ (qmsg_diamctx_construct-listed k f i m true c on) s
