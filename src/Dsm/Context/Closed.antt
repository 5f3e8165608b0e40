-- ===== src/Dsm/Context/Closed.antt =====
-- Retransmitted requests and closed sessions in user_session_save.
use code_snippets.Dsm.Context.Memory.{trap_of-lists}
use code_snippets.Dsm.Context.Errors.{qmsg_diamctx_construct-Reported}
use code_snippets.Dsm.Ccdb.Tid.{us_id_of}
use code_snippets.Dsm.Context.Exchange.{
  user_session_save-listed, held-Answers, user_session_save-us,
}
use code_snippets.Dsm.Ccdb.{user_session_id_valid}
use code_snippets.Dsm.Context.Answer.{Answers}
use code_snippets.Dsm.Context.Construct.{qmsg_diamctx_construct}
use code_snippets.Dsm.Context.Reported.{reports}
use code_snippets.Dsm.Ccdb.Tids.{IsOther}
use code_snippets.Dsm.Context.Alone.{Fits}
use Prim.Native.Nat.{bit_and}
use code_snippets.Dsm.Context.Copied.{AreSame, IsShort, copy_proxies-AreSame}
use code_snippets.Dsm.Context.Request.{Holds}
use code_snippets.Dsm.Context.Save.{
  Saved, is_dim_close, closed, is_retransmission, trap_us, save_end, resaved,
}
use code_snippets.Dsm.Context.Gdi.{store, user_session_save, save_us}
use code_snippets.Prelude.{
  ◌≡◌, ◌∙◌, ◌||◌, ◌==◌, ℕ, true, sym, some, refl, inr, inl, false, arith, ap, Bool-cases,
}
use code_snippets.Dsm.Context.{us_at, Contexts, Us, DiamCtx, Codes, Conf, gdi}
use mathlib.Core.Path.{subst}

-- What a retransmission `r` leaves in session `i`: its own Hop-by-Hop ID and proxies and the trap
-- flag. All else of the session, with its state, TIDs, package type and data for the CP, is as it
-- was, and so are the other sessions, the lists and the data of set_tid_local.
pub record Resaved (i : ℕ) (r : DiamCtx) (c d : Contexts) : Type 0 where
  pub core : (us_at i d).core ≡ (us_at i c).core
  pub rest : (us_at i d).rest ≡ record (us_at i c).rest {
    hop_by_hop = r.hop_by_hop_id;
    proxies = (us_at i d).rest.proxies;
    trap = (us_at i d).rest.trap;
  }
  pub proxies : AreSame r.proxies (us_at i d).rest.proxies
  pub others : (j : ℕ) → (j == i) ≡ false → us_at j d ≡ us_at j c
  pub bucket : d.ccdb.bucket ≡ c.ccdb.bucket
  pub tids : d.tids ≡ c.tids
  pub tg_expiry : d.tg_expiry ≡ c.tg_expiry

module _ (k : Codes) (f : Conf) (i : ℕ) where
  save_us-resaved :
      (m : DiamCtx) (p : Us) (c : Contexts)
      → is_retransmission k m p ≡ true
      → save_us k f i m p c ≡ save_end i (resaved m p) c
  unfolding save_us
  save_us-resaved m p c e = rw e refl

  -- The request `m` with what a retransmission `r` of it brings.
  abbrev pub retransmitted : DiamCtx → DiamCtx → DiamCtx
  retransmitted m r = record m { hop_by_hop_id = r.hop_by_hop_id; proxies = r.proxies }

  resaved-Holds : (m r : DiamCtx) (p : Us) → Holds m p → Holds (retransmitted m r) (resaved r p)
  unfolding resaved
  resaved-Holds m r p h = record {
    version = h.version;
    hop_by_hop = refl;
    end_to_end = h.end_to_end;
    app_id = h.app_id;
    auth_app_id = h.auth_app_id;
    cc_request_number = h.cc_request_number;
    sub_id_type = h.sub_id_type;
    sub_id = h.sub_id;
    remote_host = h.remote_host;
    remote_realm = h.remote_realm;
    remote_state = h.remote_state;
    proxies = copy_proxies-AreSame r.proxies p.rest.proxies;
  }

  save_end-Holds :
      (m r : DiamCtx) (p : Us) (c : Contexts)
      → Holds m p
      → let (done, q, d) = save_end i (resaved r p) c in
        (done ≡ true) × (q.core ≡ p.core) × Holds (retransmitted m r) q
  unfolding save_end trap_us resaved
  save_end-Holds m r p c h = (refl, refl, (let x = resaved-Holds m r p h in x))

  save_end-Resaved :
      (r : DiamCtx) (c : Contexts)
      → Resaved i r c (store i (save_end i (resaved r (us_at i c)) c)).1
  unfolding store save_end trap_us resaved
  save_end-Resaved r c =
      let e : (i == i) ≡ true = ground arith in
      let p = us_at i c in
      let lists = trap_of-lists i p.core.head p.core.sub_id c.ccdb in
      record {
        core = rw e refl;
        rest = rw e refl;
        proxies = rw e (copy_proxies-AreSame r.proxies p.rest.proxies);
        others = λ j z. rw z (ap (λ l. record { core = l.0 j; rest = c.rest j }) lists);
        bucket = ap (λ l. l.1) lists;
        tids = refl;
        tg_expiry = refl;
      }

  -- A request `m` that a session on a list has, retransmitted as `r` while Tg is pending: it is
  -- saved, and of the session changes the Hop-by-Hop ID, the proxies and the trap flag, which
  -- set_flags_trap sets again. The rest of the session, its state, TIDs and package type among it,
  -- the other sessions, the lists and the data of set_tid_local stay as they are. A GDI-CCA `g` for
  -- the session is saved after it, and qmsg_diamctx_construct makes the answer to the
  -- retransmission, with its Hop-by-Hop ID and proxies and all else of the request. CCR and CCA are
  -- one command, and the GDI-CCA has neither the 'T' nor the 'R' bit nor package type ABORT.
  pub user_session_save-retransmitted :
      (b : ℕ) (m r g : DiamCtx) (c : Contexts)
      → (c.ccdb.session i).head ≡ some b
      → Holds m (us_at i c)
      → is_retransmission k r (us_at i c) ≡ true
      → k.diam_cmd_cca ≡ k.diam_cmd_ccr
      → g.diamctx_type ≡ gdi
      → g.command_code ≡ k.diam_cmd_cca
      → bit_and g.flags k.diam_cmd_flag_t ≡ 0
      → bit_and g.flags k.names.diam_cmd_flag_r ≡ 0
      → (g.package_type == k.package_type_abort) ≡ false
      → g.no_diam ≡ false
      → IsShort g.timer
      → let (done, d) = user_session_save k f (some r) (some i) c in
        let (saved, e) = user_session_save k f (some g) (some i) d in
        let (built, x, _) = qmsg_diamctx_construct k f (some g) (some i) false e in
        (done ≡ true)
        × Resaved i r c d
        × (saved ≡ true)
        × (built ≡ true)
        × (y : DiamCtx) × (x ≡ some y)
        × Answers (retransmitted m r) g y
  user_session_save-retransmitted b m r g c on held again same u command bit answer g' n z =
      let (done, at) = user_session_save-us k f i r c on in
      let path = save_us-resaved r (us_at i c) c again in
      let (saved, core, holds) = save_end-Holds m r (us_at i c) c held in
      let now = at ∙ ap (λ (s : Saved). s.1) path in
      let d = (user_session_save k f (some r) (some i) c).1 in
      let same_core = ap (λ p. p.core) now ∙ core in
      let stored =
        ap (λ x. x.1) (user_session_save-listed k f i r c on)
        ∙ ap (λ (s : Saved). (store i s).1) path in
      let kept_rest = subst (Resaved i r c) (sym stored) (save_end-Resaved r c) in
      let (kept, built, y, some_y, answers) =
        held-Answers k f i b (retransmitted m r) g d (ap (λ u. u.head) same_core ∙ on)
          (subst (Holds (retransmitted m r)) (sym now) holds) same u command bit answer g' n z in
      (done ∙ ap (λ (s : Saved). s.0) path ∙ saved, kept_rest, kept, built, y, some_y, answers)

  -- A session that a message has closed.
  save_us-closed :
      (m : DiamCtx) (p : Us) (c : Contexts)
      → is_retransmission k m p ≡ false
      → (m.package_type == k.package_type_abort || is_dim_close m.diamctx_type) ≡ true
      → save_us k f i m p c ≡ save_end i (closed m p) c
  unfolding save_us
  save_us-closed m p c a e = rw (a, e) refl

  save_end-closed :
      (m : DiamCtx) (p : Us) (c : Contexts)
      → let (done, q, d) = save_end i (closed m p) c in
        (done ≡ true)
        × (q.core.head ≡ p.core.head)
        × (q.core.tid_remote ≡ 0)
        × (is_dim_close m.diamctx_type ≡ true → q.core.tid_local ≡ 0)
        × (d.tids ≡ c.tids)
  unfolding save_end trap_us closed
  save_end-closed m p c = elim (Bool-cases (is_dim_close m.diamctx_type)) [
    | inl e ↦ rw e (refl, refl, refl, λ _. refl, refl)
    | inr e ↦ rw e (refl, refl, refl, λ z. absurd (ground arith), refl)
  ]

  -- After a GDI-Abort or a GDI-Dim_Close message for a session on a list, which is saved, an error
  -- report for the session begins a GDI transaction, without a remote TID, and after a
  -- GDI-Dim_Close with a local TID in which the receivers of an answer find no session's id. The
  -- report is for a Diameter message whose command answers no GDI request or a message for which
  -- the DGC has a Diameter message to send. The configuration's numbers fit their fields.
  pub user_session_save-closed :
      (b : ℕ) (m r : DiamCtx) (c : Contexts)
      → (c.ccdb.session i).head ≡ some b
      → is_retransmission k m (us_at i c) ≡ false
      → (m.package_type == k.package_type_abort || is_dim_close m.diamctx_type) ≡ true
      → Fits k f
      → IsOther c.tids.non_us_id
      → reports k r.diamctx_type r ≡ true
      → let (saved, d) = user_session_save k f (some m) (some i) c in
        let (built, x, _) = qmsg_diamctx_construct k f (some r) (some i) true d in
        (saved ≡ true)
        × (built ≡ true)
        × (y : DiamCtx) × (x ≡ some y)
        × (y.package_type ≡ k.names.package_type_request)
        × (y.remote_tid ≡ 0)
        × (is_dim_close m.diamctx_type ≡ true
            → user_session_id_valid (us_id_of y.local_tid) ≡ false)
  unfolding store
  user_session_save-closed b m r c on first e h o t =
      let (done, at) = user_session_save-us k f i m c on in
      let path = save_us-closed m (us_at i c) c first e in
      let (saved, head, remote, local, tids) = save_end-closed m (us_at i c) c in
      let d = (user_session_save k f (some m) (some i) c).1 in
      let now = at ∙ ap (λ (s : Saved). s.1) path in
      let kept =
        ap (λ x. x.1.tids) (user_session_save-listed k f i m c on)
        ∙ ap (λ (s : Saved). s.2.tids) path
        ∙ tids in
      let (built, y, some_y, report) =
        qmsg_diamctx_construct-Reported k f h i b r d (ap (λ p. p.core.head) now ∙ head ∙ on) t
          (subst (λ x. IsOther x.non_us_id) (sym kept) o) in
      let gone = ap (λ p. p.core.tid_remote) now ∙ remote in
      (
        done ∙ ap (λ (s : Saved). s.0) path ∙ saved,
        built,
        y,
        some_y,
        report.package_type ∙ rw gone refl,
        report.remote_tid ∙ gone,
        λ z. report.no_session (ap (λ n. n == 0) (ap (λ p. p.core.tid_local) now ∙ local z)),
      )
