-- ===== src/Dsm/Context/Reported.antt =====
-- The error reports of qmsg_diamctx_construct: with flag_repterr.
use code_snippets.Dsm.Ccdb.Tids.{IsOther}
use code_snippets.Dsm.Ccdb.Tid.{us_id_of}
use code_snippets.Dsm.Ccdb.{user_session_id_valid}
use code_snippets.Dsm.Context.Save.{is_answer}
use code_snippets.Dsm.Context.Report.{
  set_remote, remote_of, report_diam, report_continue, report_begin, report_gdi, report_local,
  Built,
}
use code_snippets.Dsm.Context.Alone.{new_tid-Other, Fits}
use code_snippets.Prelude.{
  ℕ, some, ap, ◌⊎◌, ◌∙◌, sym, ◌≡◌, ◌==◌, true, refl, not, inr, inl, if◌then◌else◌, false, arith,
  Bool-cases, Bool,
}
use code_snippets.Dsm.Context.{
  Contexts, DiamCtx, Us, DiamctxType, Codes, Conf, diam, gdi, gdi_int_str, tg_exp,
}
use mathlib.Core.Path.{subst}

-- The messages with which qmsg_diamctx_construct prepares an error report for the remote TID of the
-- session: a Diameter message whose command answers no GDI request, or a message for which the DGC
-- has a Diameter message to send.
abbrev pub reports : Codes → DiamctxType → DiamCtx → Bool
reports k diam m = not (is_answer k m.command_code)
reports k gdi m = not m.no_diam
reports k gdi_int_str m = not m.no_diam
reports k tg_exp m = not m.no_diam
reports k _ m = false

module _ (k : Codes) where
  -- How an error report `b` and the session `q` after it agree, where the session was `p`.
  pub record Reported (p : Us) (b : DiamCtx) (q : Us) : Type 0 where
    pub package_type : b.package_type ≡ (
        if p.core.tid_remote == 0 then k.names.package_type_request else k.names.package_type_conv)
    pub same_package : q.rest.package_type ≡ b.package_type
    pub remote_tid : b.remote_tid ≡ p.core.tid_remote
    pub same_remote : q.core.tid_remote ≡ b.remote_tid
    pub same_local : q.core.tid_local ≡ b.local_tid
    pub assigned : (p.core.tid_local == 0) ≡ false → b.local_tid ≡ p.core.tid_local
    pub no_session :
        (p.core.tid_local == 0) ≡ true → user_session_id_valid (us_id_of b.local_tid) ≡ false

  abbrev pub Done : Us → Built → Type 0
  Done p (done, b, q, d) = (done ≡ true) × Reported p b q

module _ (k : Codes) (f : Conf) (h : Fits k f) where
  report_local-lem :
      (m : DiamCtx) (p : Us) (c : Contexts)
      → IsOther c.tids.non_us_id
      → let (b, q, d) = report_local k f m p c in
        (b.package_type ≡ m.package_type)
        × (q.rest.package_type ≡ p.rest.package_type)
        × (q.core.tid_remote ≡ p.core.tid_remote)
        × (q.core.tid_local ≡ b.local_tid)
        × ((p.core.tid_local == 0) ≡ false → b.local_tid ≡ p.core.tid_local)
        × ((p.core.tid_local == 0) ≡ true → user_session_id_valid (us_id_of b.local_tid) ≡ false)
  unfolding report_local
  report_local-lem m p c o = elim (Bool-cases (p.core.tid_local == 0)) [
    | inl e ↦
        rw e (refl, refl, refl, refl, λ z. absurd (ground arith), λ _. (new_tid-Other k f c h o).0)
    | inr e ↦ rw e (refl, refl, refl, refl, λ _. refl, λ z. absurd (ground arith))
  ]

  report_begin-Reported :
      (m : DiamCtx) (p : Us) (c : Contexts)
      → IsOther c.tids.non_us_id
      → (p.core.tid_remote == 0) ≡ true
      → let (b, q, d) = report_begin k f m p c in Reported k p b q
  unfolding report_begin
  report_begin-Reported m p c o e =
      let type = k.names.package_type_request in
      let (a, t, _, l, kept, new) =
        report_local-lem (record m { package_type = type })
          (record p { rest = record p.rest { package_type = type } }) c o in
      record {
        package_type = rw e a;
        same_package = t ∙ sym a;
        remote_tid = ground arith;
        same_remote = refl;
        same_local = l;
        assigned = kept;
        no_session = new;
      }

  -- The end of a report with a remote TID.
  report_continue-Reported :
      (m : DiamCtx) (p : Us) (c : Contexts)
      → IsOther c.tids.non_us_id
      → (p.core.tid_remote == 0) ≡ false
      → let (b, q, d) = report_continue k f m p c in
        Reported k p (record b { remote_tid = q.core.tid_remote }) q
  unfolding report_continue
  report_continue-Reported m p c o e =
      let type = k.names.package_type_conv in
      let (a, t, r, l, kept, new) =
        report_local-lem (record m { package_type = type })
          (record p { rest = record p.rest { package_type = type } }) c o in
      record {
        package_type = rw e a;
        same_package = t ∙ sym a;
        remote_tid = r;
        same_remote = refl;
        same_local = l;
        assigned = kept;
        no_session = new;
      }

  pub report_gdi-Reported :
      (m : DiamCtx) (p : Us) (c : Contexts)
      → IsOther c.tids.non_us_id
      → let (b, q, d) = report_gdi k f m p c in Reported k p b q
  unfolding report_gdi
  report_gdi-Reported m p c o = go (Bool-cases (p.core.tid_remote == 0))
    where
      go :
          ((p.core.tid_remote == 0) ≡ true) ⊎ ((p.core.tid_remote == 0) ≡ false)
          → let (b, q, d) = report_gdi k f m p c in Reported k p b q
      go (inl e) = rw e (report_begin-Reported m p c o e)
      go (inr e) = rw e (report_continue-Reported m p c o e)

  -- The command of the message is not touched.
  report_continue-command :
      (m : DiamCtx) (p : Us) (c : Contexts)
      → (report_continue k f m p c).0.command_code ≡ m.command_code
  unfolding report_continue report_local
  report_continue-command m p c = ground arith

  remote_of-plain :
      (x : ℕ) (p : Us) → is_answer k x ≡ false → remote_of k f x p ≡ some p.core.tid_remote
  unfolding remote_of
  remote_of-plain x p e = rw e refl

  pub report_diam-Reported :
      (m : DiamCtx) (p : Us) (c : Contexts)
      → IsOther c.tids.non_us_id
      → is_answer k m.command_code ≡ false
      → Done k p (report_diam k f m p c)
  unfolding report_diam set_remote
  report_diam-Reported m p c o plain = go (Bool-cases (p.core.tid_remote == 0))
    where
      go :
          ((p.core.tid_remote == 0) ≡ true) ⊎ ((p.core.tid_remote == 0) ≡ false)
          → Done k p (report_diam k f m p c)
      go (inl e) = rw e (refl, report_begin-Reported m p c o e)
      go (inr e) =
          let (n, q, d) = report_continue k f m p c in
          let same = report_continue-command m p c in
          let path = remote_of-plain n.command_code q (ap (is_answer k) same ∙ plain) in
          rw e (
            subst (λ x. Done k p (set_remote k f x n q d)) (sym path)
              (refl, report_continue-Reported m p c o e))
