-- ===== src/Dsm/Context/Exchange.antt =====
-- A Diameter request, the GDI-CCA for it and the Diameter answer, in the memory of the sessions.
use code_snippets.Dsm.Context.Report.{Built}
use code_snippets.Dsm.Context.Answer.{construct_us-Answers, save_gdi-Answered, Answers, Answered}
use code_snippets.Dsm.Context.Copied.{IsShort}
use code_snippets.Dsm.Context.Request.{save_diam-head, save_diam-Holds, Holds}
use Prim.Native.Nat.{bit_and}
use code_snippets.Dsm.Context.Save.{is_command, is_dim_close, is_retransmission, Saved}
use code_snippets.Dsm.Context.Construct.{
  construct_us, store_built, construct_listed, qmsg_diamctx_construct,
}
use code_snippets.Dsm.Context.Gdi.{save_listed, save_by_type, save_us, store, user_session_save}
use code_snippets.Prelude.{
  Option, ◌≡◌, ◌∙◌, ◌==◌, ℕ, true, sym, some, refl, inr, inl, false, arith, ap, Bool-cases, Bool,
}
use code_snippets.Dsm.Context.{us_at, Contexts, Us, DiamCtx, Conf, Codes, diam, gdi}
use mathlib.Core.Path.{subst}

store-us_at : (i : ℕ) (s : Saved) → us_at i (store i s).1 ≡ s.1
unfolding store
store-us_at i s = let e : (i == i) ≡ true = ground arith in rw e refl

answer_at :
    (m g : DiamCtx) (i : ℕ) (x : Bool × Option DiamCtx × Contexts) (y : Built)
    → x ≡ store_built i y
    → (y.0 ≡ true) × Answers m g y.1
    → (x.0 ≡ true) × (z : DiamCtx) × (x.1 ≡ some z) × Answers m g z
unfolding store_built
answer_at m g i x y path (a, b) = (ap (λ t. t.0) path ∙ a, y.1, ap (λ t. t.1) path, b)

module _ (k : Codes) (f : Conf) (i : ℕ) where
  -- user_session_save of a session on a list is a store of what its branch returns.
  pub user_session_save-listed :
      {b : ℕ} (m : DiamCtx) (c : Contexts)
      → (c.ccdb.session i).head ≡ some b
      → user_session_save k f (some m) (some i) c ≡ store i (save_us k f i m (us_at i c) c)
  unfolding user_session_save save_listed
  user_session_save-listed m c e = ap (λ h. save_listed k f h i m c) e

  -- What it returns and leaves in the session.
  pub user_session_save-us :
      {b : ℕ} (m : DiamCtx) (c : Contexts)
      → (c.ccdb.session i).head ≡ some b
      → let (done, d) = user_session_save k f (some m) (some i) c in
        let (saved, p, _) = save_us k f i m (us_at i c) c in (done ≡ saved) × (us_at i d ≡ p)
  unfolding store
  user_session_save-us m c e =
      let path = user_session_save-listed m c e in
      let s = save_us k f i m (us_at i c) c in
      (ap (λ x. x.0) path, ap (λ x. us_at i x.1) path ∙ store-us_at i s)

  pub qmsg_diamctx_construct-listed :
      {b : ℕ} (m : DiamCtx) (repterr : Bool) (c : Contexts)
      → (c.ccdb.session i).head ≡ some b
      → qmsg_diamctx_construct k f (some m) (some i) repterr c
        ≡ store_built i (construct_us k f repterr i m (us_at i c) c)
  unfolding qmsg_diamctx_construct construct_listed
  qmsg_diamctx_construct-listed m repterr c e = ap (λ h. construct_listed k f h repterr i m c) e

  -- A message that is no retransmission and does not close the session goes by its type.
  pub save_us-typed :
      (m : DiamCtx) (p : Us) (c : Contexts)
      → is_retransmission k m p ≡ false
      → (m.package_type == k.package_type_abort) ≡ false
      → is_dim_close m.diamctx_type ≡ false
      → is_command k m.command_code ≡ true
      → save_us k f i m p c ≡ save_by_type k f m.diamctx_type i m p c
  unfolding save_us
  save_us-typed m p c a b d e = rw (a, b, d, e) refl

  pub save_us-command :
      (m : DiamCtx) (p : Us) (c : Contexts)
      → is_retransmission k m p ≡ false
      → (m.package_type == k.package_type_abort) ≡ false
      → is_dim_close m.diamctx_type ≡ false
      → (save_us k f i m p c).0 ≡ true
      → is_command k m.command_code ≡ true
  unfolding save_us
  save_us-command m p c a b d h = elim (Bool-cases (is_command k m.command_code)) [
    | inl e ↦ e
    | inr e ↦ absurd (let no = rw (a, b, d, e) at h in ground arith)
  ]

  -- A saved Diameter request.
  save_us-Holds :
      (m : DiamCtx) (p : Us) (c : Contexts)
      → is_retransmission k m p ≡ false
      → (m.package_type == k.package_type_abort) ≡ false
      → m.diamctx_type ≡ diam
      → (save_us k f i m p c).0 ≡ true
      → let q = (save_us k f i m p c).1 in Holds m q × (q.core.head ≡ p.core.head)
  unfolding save_by_type
  save_us-Holds m p c a b t h =
      let d = ap is_dim_close t in
      let path =
        save_us-typed m p c a b d (save_us-command m p c a b d h)
        ∙ ap (λ u. save_by_type k f u i m p c) t in
      subst (λ (x : Saved). x.0 ≡ true → Holds m x.1 × (x.1.core.head ≡ p.core.head)) (sym path)
        (λ y. (save_diam-Holds k f i m p c y, save_diam-head k f i m p c y)) h

  -- A saved GDI-CCA.
  save_us-Answered :
      (m g : DiamCtx) (p : Us) (c : Contexts)
      → bit_and g.flags k.diam_cmd_flag_t ≡ 0
      → (g.package_type == k.package_type_abort) ≡ false
      → g.diamctx_type ≡ gdi
      → g.command_code ≡ k.diam_cmd_cca
      → k.diam_cmd_cca ≡ k.diam_cmd_ccr
      → Holds m p
      → let (done, q, d) = save_us k f i g p c in
        (done ≡ true) × (q.core.head ≡ p.core.head) × Holds m q × Answered g q
  unfolding save_by_type
  save_us-Answered m g p c a b t e l h =
      let old : is_retransmission k g p ≡ false = rw a refl in
      let known : is_command k g.command_code ≡ true = ground arith in
      let path =
        save_us-typed g p c old b (ap is_dim_close t) known
        ∙ ap (λ u. save_by_type k f u i g p c) t in
      subst
        (λ (x : Saved). (x.0 ≡ true) × (x.1.core.head ≡ p.core.head) × Holds m x.1 × Answered g x.1)
        (sym path) (save_gdi-Answered k m g f.local_state_id i p c (ground arith) h)

  -- A GDI-CCA and the Diameter answer, for a session that has a request.
  pub held-Answers :
      (b : ℕ) (m g : DiamCtx) (d : Contexts)
      → (d.ccdb.session i).head ≡ some b
      → Holds m (us_at i d)
      → k.diam_cmd_cca ≡ k.diam_cmd_ccr
      → g.diamctx_type ≡ gdi
      → g.command_code ≡ k.diam_cmd_cca
      → bit_and g.flags k.diam_cmd_flag_t ≡ 0
      → bit_and g.flags k.names.diam_cmd_flag_r ≡ 0
      → (g.package_type == k.package_type_abort) ≡ false
      → g.no_diam ≡ false
      → IsShort g.timer
      → let (saved, e) = user_session_save k f (some g) (some i) d in
        let (built, x, _) = qmsg_diamctx_construct k f (some g) (some i) false e in
        (saved ≡ true) × (built ≡ true) × (y : DiamCtx) × (x ≡ some y) × Answers m g y
  held-Answers b m g d on held same u command bit answer g' n z =
      let (done, at) = user_session_save-us g d on in
      let e = (user_session_save k f (some g) (some i) d).1 in
      let (saved, stays, holds, answered) =
        save_us-Answered m g (us_at i d) d bit g' u command same held in
      let made =
        construct_us-Answers k f i g (us_at i e) e m g u n answer z (subst (Holds m) (sym at) holds)
          (subst (Answered g) (sym at) answered) in
      let path = qmsg_diamctx_construct-listed g false e (ap (λ p. p.core.head) at ∙ stays ∙ on) in
      let (built, y, some_y, answers) = answer_at m g i _ _ path made in
      (done ∙ saved, built, y, some_y, answers)

  -- Where a Diameter request `m`, not retransmitted, is saved in a session on a list, a GDI-CCA `g`
  -- for the session is saved too, and qmsg_diamctx_construct makes of it the answer to the request:
  -- with the request's identifiers, numbers, subscription and proxies, with the GDI-CCA's command,
  -- flags, package type, timer and GDI data, and to the host that the request came from. CCR and
  -- CCA are one command, and the GDI-CCA has neither the 'T' nor the 'R' bit nor package type ABORT.
  pub qmsg_diamctx_construct-Answers :
      (b : ℕ) (m g : DiamCtx) (c : Contexts)
      → (c.ccdb.session i).head ≡ some b
      → m.diamctx_type ≡ diam
      → is_retransmission k m (us_at i c) ≡ false
      → (m.package_type == k.package_type_abort) ≡ false
      → (user_session_save k f (some m) (some i) c).0 ≡ true
      → k.diam_cmd_cca ≡ k.diam_cmd_ccr
      → g.diamctx_type ≡ gdi
      → g.command_code ≡ k.diam_cmd_cca
      → bit_and g.flags k.diam_cmd_flag_t ≡ 0
      → bit_and g.flags k.names.diam_cmd_flag_r ≡ 0
      → (g.package_type == k.package_type_abort) ≡ false
      → g.no_diam ≡ false
      → IsShort g.timer
      → let (_, d) = user_session_save k f (some m) (some i) c in
        let (saved, e) = user_session_save k f (some g) (some i) d in
        let (built, x, _) = qmsg_diamctx_construct k f (some g) (some i) false e in
        (saved ≡ true) × (built ≡ true) × (y : DiamCtx) × (x ≡ some y) × Answers m g y
  qmsg_diamctx_construct-Answers b m g c on t first m' done same u command bit answer g' n z =
      let (saved, at) = user_session_save-us m c on in
      let d = (user_session_save k f (some m) (some i) c).1 in
      let (held, head) = save_us-Holds m (us_at i c) c first m' t (sym saved ∙ done) in
      held-Answers b m g d (ap (λ p. p.core.head) at ∙ head ∙ on) (subst (Holds m) (sym at) held)
        same u command bit answer g' n z
